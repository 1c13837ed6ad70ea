-- ===== src/Tests/Database.antt =====
-- A database with one order that is up after some pings, and an application on it.
use statgate.Prelude.{
  ℕ, zero, suc, ℤ, pos, true, String, some, List, [], ◌∷◌, ◌⊎◌, inl, inr, ltb, str_eq,
  if◌then◌else◌,
}
use statgate.Actions.{Error, failure, wrap}
use statgate.Actions.Count.{total}
use statgate.Demo.Calls.{Order, DemoCall, DemoEnv, Request, row, no_rows}
use statgate.Demo.Injector.{InjectorConfig, Injector}
use statgate.Demo.Handlers.{App}
use statgate.Demo.Startup.Retries.{is_ping}
use statgate.Tests.Sample.{integer_floats}

abbrev pub demo_order : Order
demo_order = record { id = "7"; title = "pen"; status = "pending"; created_at = pos 1 }

abbrev pub reset : Error
reset = failure "connection reset"

abbrev pub number_of : String → Error ⊎ ℤ
number_of s =
    if str_eq s "20"
    then inr (pos 20)
    else if str_eq s "0"
    then inr (pos 0)
    else if str_eq s "500"
    then inr (pos 500)
    else inl (failure "invalid syntax")

-- The error of a ping, by how many there were before.
abbrev pub refused_at : ℕ → Error
refused_at zero = reset
refused_at (suc n) = wrap "again" (refused_at n)

abbrev pub ping_after : ℕ → List (DemoCall ℤ) → Error ⊎ Unit {0}
ping_after n h = if ltb (total is_ping h) n then inl (refused_at (total is_ping h)) else inr tt

abbrev pub demo_env : ℕ → DemoEnv ℤ
demo_env n = record {
  inserted = λ h title. inr demo_order;
  orders_at =
      λ h limit offset. inr (record { scans = inr demo_order ∷ []; iteration = some reset });
  order_at = λ h id. if str_eq id "7" then row demo_order else no_rows;
  deleted = λ h id. inr (if str_eq id "7" then pos 1 else pos 0);
  schema_created = λ h. inr tt;
  opened = λ h dsn. inr tt;
  ping_answer = ping_after n;
  shut_down_at = λ h. inr tt;
  now_at = λ h. pos 30;
  random_at = λ h. pos 0;
  random_below = λ h k. pos 5;
  variable = λ key. "";
  atoi = number_of;
  parse_number = number_of;
  duration_seconds = λ d. d;
  decode_title = λ body. inr body;
  error_text = λ e. "error";
  hostname = "pod";
  replace_uuids = λ text by. text;
}

abbrev pub env : DemoEnv ℤ
env = demo_env 3

-- A ramp from 0 to 8 in 10 units, and a spike of 100 from 40 on for 5 units.
abbrev pub ramped : InjectorConfig ℤ
ramped = record {
  rate_start = pos 0;
  rate_end = pos 8;
  ramp_seconds = pos 10;
  spike_at_seconds = pos 40;
  spike_duration_seconds = pos 5;
  spike_rate = pos 100;
}

abbrev pub injector : Injector ℤ
injector = record { start_time = pos 0; config = ramped }

abbrev pub app : App ℤ
app = record {
  has_db = true;
  version = "v2";
  hostname = "pod";
  injector = record { start_time = pos 30; config = ramped };
}

abbrev pub request : String → Request
request method = record {
  method = method;
  path = "/orders/7";
  body = "pen";
  query_param = λ key. if str_eq key "limit" then "20" else "0";
  path_value = λ key. "7";
}
