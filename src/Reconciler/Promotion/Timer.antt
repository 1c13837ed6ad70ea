-- ===== src/Reconciler/Promotion/Timer.antt =====
-- The timer of a step on a clock that moves on by `tick` from each cycle to the next.
use native.Mathlib.Nat.{suc-mul}
use statgate.Prelude.{
  ℕ, suc, ◌+◌, ◌*◌, ◌≤◌, ℤ, pos, ◌+ℤ◌, ◌-ℤ◌, ◌≤ℤ◌, ltb_ℤ, false, arith, ◌++◌, ◌∷◌, ◌≡◌, saturate64,
  ap,
}
use statgate.Float64.{Float64}
use statgate.Api.{CanaryRollout}
use statgate.Effects.{ObjectKey, Env, History, get_rollout, read_clock}
use statgate.VirtualService.{Unstructured}
use statgate.Reconciler.{since}
use statgate.Reconciler.Promotion.{IsServing}

pub add_parts : (t now : ℤ) (p d w : ℕ) → t +ℤ pos d ≤ℤ now → p ≤ d + w → t +ℤ pos p ≤ℤ now +ℤ pos w
unfolding ◌+ℤ◌
add_parts t now p d w h e = ground arith

pub add_later :
    (t now then' : ℤ) (p d w : ℕ)
    → t +ℤ pos p ≤ℤ now +ℤ pos (w + d)
    → now +ℤ pos d ≤ℤ then'
    → t +ℤ pos p ≤ℤ then' +ℤ pos w
unfolding ◌+ℤ◌
add_later t now then' p d w h e = ground arith

-- A timer that is due has run for the pause.
pub since_due :
    (t now pause : ℤ) (p : ℕ)
    → t +ℤ pos p ≤ℤ now +ℤ pos 0
    → pause ≤ℤ pos p
    → p ≤ 9223372036854775807
    → ltb_ℤ (since now t) pause ≡ false
unfolding since saturate64 ◌+ℤ◌ ◌-ℤ◌
since_due t now pause p h e b = ground arith

module _ {F V : Type 0} ⦃fl : Float64 F⦄ ⦃u : Unstructured V⦄ (env : Env F V) (key : ObjectKey)
    (longest tick : ℕ) where
  -- At the next cycle the timer that was set at `t` lacks at most `waits` cycles of the longest pause.
  abbrev pub IsDue : ℕ → History F V → ℤ → Type 0
  IsDue waits h t =
      (cycle : History F V)
      → t +ℤ pos longest ≤ℤ env.now_at (cycle ++ (get_rollout key ∷ h)) +ℤ pos (waits * tick)

  module _ {base s : CanaryRollout F} (serving : IsServing env key base s tick) where
    -- A timer that was set in the cycle before.
    pub IsDue-set :
        (waits : ℕ) (h later : History F V)
        → longest ≤ suc waits * tick
        → IsDue waits (later ++ (read_clock ∷ h)) (env.now_at h)
    IsDue-set waits h later e cycle =
        add_parts _ _ longest tick _ (serving.spaced h later cycle)
          (omega (arith, e, suc-mul waits tick))

    -- A timer that the cycle before has waited for.
    pub IsDue-wait :
        (waits : ℕ) (h before later : History F V) (t : ℤ)
        → IsDue (suc waits) h t
        → IsDue waits (later ++ (read_clock ∷ (before ++ (get_rollout key ∷ h)))) t
    IsDue-wait waits h before later t due cycle =
        add_later t (env.now_at (before ++ (get_rollout key ∷ h))) _ longest tick (waits * tick)
          (rw (ap pos (suc-mul waits tick)) at (due before))
          (serving.spaced (before ++ (get_rollout key ∷ h)) later cycle)
