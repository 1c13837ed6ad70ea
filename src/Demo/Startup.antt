-- ===== src/Demo/Startup.antt =====
-- demo/app/db.go: `NewDB` and `initSchema`.
pub mod Retries
use statgate.Prelude.{ℕ, zero, suc, pos, String, Option, none, some, ◌⊎◌, inl, inr}
use statgate.Actions.{Error, wrap, Action, pure, fail, perform, attempt, wrapping, ◌>>=◌, ◌>>◌}
use statgate.Demo.Calls.{
  DemoCall, open_connection, ping, close_connection, create_schema, sleep, DemoEnv, Serve, tell,
}

module _ {F : Type 0} (env : DemoEnv F) (dsn : String) where
  abbrev open_db : Serve F (Unit {0})
  open_db = wrapping "open db" (perform (open_connection dsn) (λ h. env.opened h dsn))

  -- After the loop, by the last error.
  after_loop : Option Error → Serve F (Unit {0})
  after_loop none = pure tt
  after_loop (some e) = fail (wrap "db ping after retries" e)

  -- A ping that succeeds ends the loop; after another the connection is closed.
  after_ping : (Error → Serve F (Unit {0})) → Error ⊎ Unit {0} → Serve F (Unit {0})
  after_ping retry (inl e) = tell close_connection >> (tell (sleep (pos 2000000000)) >> retry e)
  after_ping retry (inr _) = pure tt

  -- The attempts that are left, and the last error.
  ping_until : ℕ → Option Error → Serve F (Unit {0})
  unfolding after_ping after_loop
  ping_until zero last = after_loop last
  ping_until (suc left) last = do
    open_db
    answer ← attempt (perform ping (λ h. env.ping_answer h))
    after_ping (λ e. ping_until left (some e)) answer

  init_schema : Serve F (Unit {0})
  init_schema = perform create_schema (λ h. env.schema_created h)

  unfoldable pub new_db : Serve F (Unit {0})
  unfolding ping_until init_schema
  new_db = do ping_until 5 none; wrapping "init schema" init_schema
