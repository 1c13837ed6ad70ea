-- ===== src/Demo/Middleware.antt =====
-- demo/app/middleware.go: the counter and the latency of each request.
pub mod Served
use statgate.Prelude.{
  ℕ, zero, suc, ℤ, pos, ◌+◌, ◌-◌, String, List, [], ◌∷◌, ◌++◌, ◌≡◌, refl, ap, ◌∙◌, inr, ◌-ℤ◌,
  saturate64, show_ℤ, length, length-append, arith, Bool, true, false,
}
use statgate.Float64.{Float64}
use statgate.Actions.{Result, ok, err, panic, Action, perform, pure, ◌>>=◌, ◌>>◌, continue}
use statgate.Demo.Calls.{
  DemoCall, read_clock, write_header, count_with, observe_with, http_requests_total,
  http_request_duration, count_request, observe_duration, Request, DemoEnv, Serve, tell,
}

module _ {ℓ} {A : Type ℓ} where
  take : ℕ → List A → List A
  take zero xs = []
  take (suc n) [] = []
  take (suc n) (x ∷ xs) = x ∷ take n xs

  take-length : (xs ys : List A) → take (length xs) (xs ++ ys) ≡ xs
  unfolding take
  take-length [] ys = refl
  take-length (x ∷ xs) ys = ap (λ l. x ∷ l) (take-length xs ys)

-- What `m` called, beside doing it.
calls_of : {C : Type 0} → Action C (Unit {0}) → Action C (List C)
unfolding take
calls_of m h =
    let (r, h') = m h in continue (r, h') (λ _ h''. (ok (take (length h'' - length h) h''), h''))

-- The field of the `statusRecorder` after the calls: the status that was written last, or 200.
abbrev pub recorded_status : {F : Type 0} → List (DemoCall F) → ℤ
recorded_status [] = pos 200
recorded_status (write_header status ∷ cs) = status
recorded_status (c ∷ cs) = recorded_status cs

module _ {F : Type 0} (env : DemoEnv F) where
  -- `normalizePath`
  pub normalize_path : String → String
  normalize_path p = env.replace_uuids p "{id}"

  unfoldable pub metrics_middleware :
      String → (Request → Serve F (Unit {0})) → Request → Serve F (Unit {0})
  unfolding calls_of
  metrics_middleware version next r = do
    start ← perform read_clock (λ h. inr (env.now_at h))
    calls ← calls_of (next r)
    stop ← perform read_clock (λ h. inr (env.now_at h))
    count_with http_requests_total
        (r.method ∷ normalize_path r.path ∷ show_ℤ (recorded_status calls) ∷ version ∷ [])
    observe_with http_request_duration (r.method ∷ normalize_path r.path ∷ version ∷ [])
        (env.duration_seconds (saturate64 (stop -ℤ start)))

  take-since : {C : Type 0} (cs h : List C) → take (length (cs ++ h) - length h) (cs ++ h) ≡ cs
  take-since cs h =
      ap (λ n. take n (cs ++ h)) (omega (arith, length-append cs h)) ∙ take-length cs h

  -- A request whose handler returns after the calls `cs` is counted once, by its method, its path and
  -- the status that the handler wrote last, and its latency is observed once.
  pub metrics_middleware-Counts :
      (version : String) (next : Request → Serve F (Unit {0})) (r : Request)
      (h cs : List (DemoCall F))
      → next r (read_clock ∷ h) ≡ (ok tt, cs ++ (read_clock ∷ h))
      → metrics_middleware version next r h ≡ (
        ok tt,
        observe_duration r.method (normalize_path r.path) version (
              env.duration_seconds
                (saturate64 (env.now_at (cs ++ (read_clock ∷ h)) -ℤ env.now_at h)))
            ∷ count_request r.method (normalize_path r.path) (show_ℤ (recorded_status cs)) version
            ∷ read_clock
            ∷ (cs ++ (read_clock ∷ h)),
      )
  unfolding metrics_middleware perform ◌>>=◌
  metrics_middleware-Counts version next r h cs e = rw (e, take-since cs (read_clock ∷ h)) refl
