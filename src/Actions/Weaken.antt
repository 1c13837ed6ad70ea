-- ===== src/Actions/Weaken.antt =====
-- The rule of consequence for actions.
use statgate.Prelude.{All-imp}
use statgate.Actions.{Result, ok, err, panic, Action}
use statgate.Actions.Rules.{Post, Ensures}

-- More calls are allowed, and nothing is said of the value.
pub Ensures-weaken :
    {C A : Type 0} {P P' : C → Type 0} {K : Type 0} {Q : A → Type 0} (m : Action C A)
    → ((c : C) → P c → P' c)
    → Ensures P K Q m
    → Ensures P' K (λ _. Unit {0}) m
Ensures-weaken {A = A} {P = P} {P' = P'} {K = K} {Q = Q} m f e = record {
  at = λ h.
      let o = e.at h in
      record {
        calls = o.calls;
        grown = o.grown;
        allowed = All-imp P P' o.calls f o.allowed;
        post = forgotten (m h).0 o.post;
      };
}
  where
    forgotten : (r : Result A) → Post K Q r → Post K (λ _. Unit {0}) r
    forgotten (ok a) q = tt
    forgotten (err e') q = tt
    forgotten panic q = q
