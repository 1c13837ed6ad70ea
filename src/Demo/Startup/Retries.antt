-- ===== src/Demo/Startup/Retries.antt =====
-- How often `NewDB` tries, and when it succeeds.
use statgate.Prelude.{
  ℕ, zero, suc, ◌+◌, ◌≤◌, ◌<◌, pos, String, Option, none, some, List, ◌∷◌, inl, inr, ◌≡◌, refl, ap,
  ◌∙◌, ltb, if◌then◌else◌, Bool-cases, arith, true, false,
}
use statgate.Actions.{
  Error, wrap, ok, err, pure, fail, perform, attempt, wrapping, ◌>>=◌, continue-ok, continue-err,
}
use statgate.Actions.Count.{total}
use statgate.Demo.Calls.{DemoCall, open_connection, ping, close_connection, sleep, DemoEnv}
use statgate.Demo.Startup.{ping_until, new_db}

abbrev pub is_ping : {F : Type 0} → DemoCall F → ℕ
is_ping ping = 1
is_ping _ = 0

module _ {F : Type 0} (env : DemoEnv F) (dsn : String) where
  -- Connections open, and a ping fails while there have been fewer than `n`, each with its own error.
  pub record IsReadyAfter (n : ℕ) (e : ℕ → Error) : Type 0 where
    pub opens : (h : List (DemoCall F)) → env.opened h dsn ≡ inr tt
    pub answers :
        (h : List (DemoCall F))
        → env.ping_answer h
          ≡ (if ltb (total is_ping h) n then inl (e (total is_ping h)) else inr tt)

  module _ (n : ℕ) (e : ℕ → Error) (ready : IsReadyAfter n e) where
    abbrev tried : List (DemoCall F) → List (DemoCall F)
    tried h = ping ∷ open_connection dsn ∷ h

    abbrev retried : List (DemoCall F) → List (DemoCall F)
    retried h = sleep (pos 2000000000) ∷ close_connection ∷ tried h

    answer-up :
        (h : List (DemoCall F))
        → ltb (total is_ping h) n ≡ false
        → env.ping_answer (open_connection dsn ∷ h) ≡ inr tt
    answer-up h up = ready.answers (open_connection dsn ∷ h) ∙ ground arith

    answer-down :
        (h : List (DemoCall F))
        → ltb (total is_ping h) n ≡ true
        → env.ping_answer (open_connection dsn ∷ h) ≡ inl (e (total is_ping h))
    answer-down h down = ready.answers (open_connection dsn ∷ h) ∙ ground arith

    ping_until-ready :
        (left : ℕ) (last : Option Error) (h : List (DemoCall F))
        → ltb (total is_ping h) n ≡ false
        → ping_until env dsn (suc left) last h ≡ (ok tt, tried h)
    unfolding ping_until perform attempt wrapping pure ◌>>=◌
    ping_until-ready left last h up = rw (ready.opens h, answer-up h up) refl

    ping_until-again :
        (left : ℕ) (last : Option Error) (h : List (DemoCall F))
        → ltb (total is_ping h) n ≡ true
        → ping_until env dsn (suc left) last h
          ≡ ping_until env dsn left (some (e (total is_ping h))) (retried h)
    unfolding ping_until perform attempt wrapping pure ◌>>=◌
    ping_until-again left last h down = rw (ready.opens h, answer-down h down) refl

    ping_until-reaches :
        (left : ℕ) (last : Option Error) (h : List (DemoCall F))
        → total is_ping h ≤ n
        → n < total is_ping h + left
        → ((ping_until env dsn left last h).0 ≡ ok tt)
          × (total is_ping (ping_until env dsn left last h).1 ≡ n + 1)
    ping_until-reaches zero last h k m = absurd (omega arith)
    ping_until-reaches (suc left) last h k m = elim (Bool-cases (ltb (total is_ping h) n)) [
      | inl down ↦ rw (ping_until-again left last h down) (
          ping_until-reaches left (some (e (total is_ping h))) (retried h) (ground arith)
            (omega arith))
      | inr up ↦ rw (ping_until-ready left last h up) (refl, ground arith)
    ]

    ping_until-misses :
        (left k : ℕ) (h : List (DemoCall F)) (first : Option Error)
        → (left ≡ 0 → first ≡ some (e k))
        → total is_ping h + left ≡ suc k
        → suc k ≤ n
        → ((ping_until env dsn left first h).0 ≡ err (wrap "db ping after retries" (e k)))
          × (total is_ping (ping_until env dsn left first h).1 ≡ suc k)
    unfolding ping_until fail
    ping_until-misses zero k h first last count m = rw (last refl) (refl, omega (arith, count))
    ping_until-misses (suc left) k h first last count m =
        rw (ping_until-again left first h (ground (arith, count, m))) (
          ping_until-misses left k (retried h) (some (e (total is_ping h)))
            (λ z. ap (λ (i : ℕ). some (e i)) (omega (arith, z, count))) (omega (arith, count)) m)

    -- If the database is there after fewer than five pings, and takes the schema, `NewDB` succeeds, with
    -- one ping more than failed.
    pub new_db_in_time :
        (h : List (DemoCall F))
        → n < 5
        → ((h' : List (DemoCall F)) → env.schema_created h' ≡ inr tt)
        → total is_ping h ≡ 0
        → ((new_db env dsn h).0 ≡ ok tt) × (total is_ping (new_db env dsn h).1 ≡ n + 1)
    unfolding new_db ◌>>=◌ wrapping perform
    new_db_in_time h few schema fresh =
        let (up, pings) = ping_until-reaches 5 none h (omega arith) (omega arith) in
        rw (continue-ok _ (ping_until env dsn 5 none h) tt up, schema) (refl, omega (arith, pings))

    -- If the first five pings fail, each with its own error, `NewDB` fails with the error of the fifth
    -- and makes no sixth.
    pub new_db_too_late :
        (h : List (DemoCall F))
        → 5 ≤ n
        → total is_ping h ≡ 0
        → ((new_db env dsn h).0 ≡ err (wrap "db ping after retries" (e 4)))
          × (total is_ping (new_db env dsn h).1 ≡ 5)
    unfolding new_db ◌>>=◌
    new_db_too_late h many fresh =
        let (down, pings) =
          ping_until-misses 5 4 h none (λ z. absurd (omega arith)) (omega (arith, fresh)) many in
        rw (continue-err _ (ping_until env dsn 5 none h) _ down) (refl, pings)
