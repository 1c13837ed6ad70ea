-- ===== src/DeepCopy/Isolated.antt =====
-- What a caller has from a deep copy: an equal value of its own.
use statgate.Prelude.{
  ltb, Bool-cases, inl, inr, ◌⊎◌, ℕ, Option, some, ◌==◌, if◌then◌else◌, ◌≡◌, ◌≤◌, ◌<◌, refl, ◌∙◌,
  arith,
}
use statgate.DeepCopy.Heap.{Heap, IsHeap, Command}
use statgate.DeepCopy.Objects.{Ref, Cell, get_rollout, get_list, deep_copy_rollout, deep_copy_list}
use statgate.DeepCopy.Copier.{Agree, IsCopier, view_ref}
use statgate.DeepCopy.Correct.{RolloutValue, view_rollout}
use statgate.DeepCopy.Lists.{
  RolloutListValue, view_list, deep_copy_rollout-IsCopier, deep_copy_list-IsCopier,
}

-- A later write of a cell.
abbrev pub stored : {C : Type 0} → ℕ → C → Heap C → Heap C
stored p c h = record { next = h.next; cell = λ q. if q == p then some c else h.cell q }

stored-other :
    {C : Type 0} (p q : ℕ) (c : C) (h : Heap C) → (q ≡ p → ⊥) → (stored p c h).cell q ≡ h.cell q
stored-other p q c h n = ground arith

module _ {C A V : Type 0} (view : Heap C → A → Option V) (copy : A → Command C A)
    (i : IsCopier view copy) (h : Heap C) (a : A) (v : V) (w : IsHeap h)
    (e : view h a ≡ some v) where
  returns-both :
      (p : ℕ) (x : C)
      → (out : A) × (after : Heap C) × (copy a h ≡ some (out, after))
        × (view after out ≡ some v)
        × (view after a ≡ some v)
        × Agree 0 h.next h after
        × (((p < h.next) × (view (stored p x after) out ≡ some v))
            ⊎ ((h.next ≤ p) × (view (stored p x after) a ≡ some v)))
  returns-both p x =
      let c = i.copies h a v w e in
      (
        c.out,
        c.after,
        c.returned,
        c.rests c.after (λ q l m. refl),
        i.stable h c.after a v w c.old_kept e,
        c.old_kept,
        elim (Bool-cases (ltb p h.next)) [
          | inl old ↦ inl (
            ground arith,
            c.rests (stored p x c.after) (λ q m n. stored-other p q x c.after (λ b. ground arith)),
          )
          | inr new ↦ inr (
            ground arith,
            i.stable h (stored p x c.after) a v w
                (λ q m n. stored-other p q x c.after (λ b. ground arith) ∙ c.old_kept q m n) e,
          )
        ],
      )

  keeps-both :
      (p : ℕ) (x : C)
      → (out : A) × (after : Heap C) × (copy a h ≡ some (out, after))
        × (((p < h.next) × (view (stored p x after) out ≡ some v))
            ⊎ ((h.next ≤ p) × (view (stored p x after) a ≡ some v)))
  keeps-both p x =
      let (out, after, returned, equal, kept, cells, isolated) = returns-both p x in
      (out, after, returned, isolated)

module _ {F : Type 0} where
  -- When a rollout can be read in a heap, and its value is `v`, its deep copy returns; the value of what
  -- it returns is `v` too, the original still has that value, and each cell that was in use is as it was.
  -- After a later write of any one cell the copy has the value `v` if the cell was in use before the
  -- copy, and else the original has it.
  pub deep_copy_rollout-returns :
      (h : Heap (Cell F)) (r : Ref) (v : Option (RolloutValue F))
      → IsHeap h
      → view_ref get_rollout view_rollout h r ≡ some v
      → (p : ℕ) (x : Cell F)
      → (out : Ref) × (after : Heap (Cell F)) × (deep_copy_rollout r h ≡ some (out, after))
        × (view_ref get_rollout view_rollout after out ≡ some v)
        × (view_ref get_rollout view_rollout after r ≡ some v)
        × Agree 0 h.next h after
        × (((p < h.next) × (view_ref get_rollout view_rollout (stored p x after) out ≡ some v))
            ⊎ ((h.next ≤ p) × (view_ref get_rollout view_rollout (stored p x after) r ≡ some v)))
  deep_copy_rollout-returns =
      returns-both (view_ref get_rollout view_rollout) deep_copy_rollout deep_copy_rollout-IsCopier

  -- When a list of rollouts can be read in a heap, and its value is `v`, its deep copy returns, and
  -- after a later write of any one cell the copy has the value `v` if the cell was in use before the
  -- copy, and else the original has it.
  pub deep_copy_list-keeps :
      (h : Heap (Cell F)) (r : Ref) (v : Option (RolloutListValue F))
      → IsHeap h
      → view_ref get_list view_list h r ≡ some v
      → (p : ℕ) (x : Cell F)
      → (out : Ref) × (after : Heap (Cell F)) × (deep_copy_list r h ≡ some (out, after))
        × (((p < h.next) × (view_ref get_list view_list (stored p x after) out ≡ some v))
            ⊎ ((h.next ≤ p) × (view_ref get_list view_list (stored p x after) r ≡ some v)))
  deep_copy_list-keeps =
      keeps-both (view_ref get_list view_list) deep_copy_list deep_copy_list-IsCopier
