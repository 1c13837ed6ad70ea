-- ===== src/Demo/Calls.antt =====
-- The surroundings of the demo application: PostgreSQL, the response writer, the counters, the
-- environment's variables, randomness and the clock.
use statgate.Prelude.{ℕ, ℤ, String, List, [], ◌∷◌, Option, ◌⊎◌, inr, length, ◌==◌, if◌then◌else◌}
use statgate.Actions.{Error, Action, crash, perform}

-- `Order` of demo/app/db.go; a `time.Time` counts nanoseconds.
pub record Order : Type 0 where
  pub id : String
  pub title : String
  pub status : String
  pub created_at : ℤ

-- What is written as the response's body: a JSON object with the key "error", an order, a list of
-- orders, or plain text.
pub data Body : Type 0 where
  error_body : String → Body
  order_body : Order → Body
  orders_body : List Order → Body
  text_body : String → Body

-- The collectors of demo/app/metrics.go, and the labels that each is declared with.
pub data Collector : Type 0 where
  http_requests_total http_request_duration db_operations_total : Collector

abbrev pub collector_labels : Collector → List String
collector_labels http_requests_total = "method" ∷ "path" ∷ "status_code" ∷ "version" ∷ []
collector_labels http_request_duration = "method" ∷ "path" ∷ "version" ∷ []
collector_labels db_operations_total = "operation" ∷ "status" ∷ []

pub data DemoCall (F : Type 0) : Type 0 where
  -- the statements of db.go, by their arguments
  insert_order : String → DemoCall F
  select_orders : ℤ → ℤ → DemoCall F
  select_order delete_order : String → DemoCall F
  close_rows create_schema : DemoCall F
  open_connection : String → DemoCall F
  ping close_connection : DemoCall F
  -- the server's address, and how long its shutdown may take
  listen : String → DemoCall F
  shut_down : ℤ → DemoCall F
  -- a collector, by the values of its labels
  increment : Collector → List String → DemoCall F
  observe_value : Collector → List String → F → DemoCall F
  read_clock : DemoCall F
  random_float : DemoCall F
  random_int : ℤ → DemoCall F
  sleep : ℤ → DemoCall F
  set_header : String → String → DemoCall F
  write_header : ℤ → DemoCall F
  write_body : Body → DemoCall F

abbrev pub count_operation : {F : Type 0} → String → String → DemoCall F
count_operation operation status = increment db_operations_total (operation ∷ status ∷ [])

abbrev pub count_request : {F : Type 0} → String → String → String → String → DemoCall F
count_request method path status version =
    increment http_requests_total (method ∷ path ∷ status ∷ version ∷ [])

abbrev pub observe_duration : {F : Type 0} → String → String → String → F → DemoCall F
observe_duration method path version seconds =
    observe_value http_request_duration (method ∷ path ∷ version ∷ []) seconds

-- A query for one row: `Scan` returns `sql.ErrNoRows`, another error, or the row.
pub data Row : Type 0 where
  no_rows : Row
  failed : Error → Row
  row : Order → Row

-- The rows of a query: what `Scan` returns for each, and `rows.Err()` after the last.
pub record Rows : Type 0 where
  pub scans : List (Error ⊎ Order)
  pub iteration : Option Error

-- What the code takes of an HTTP request; a query parameter that is missing reads as the empty text.
pub record Request : Type 0 where
  pub method : String
  pub path : String
  pub body : String
  pub query_param : String → String
  pub path_value : String → String

-- The answers to the calls, by all calls before; and the library functions that the code uses:
-- `strconv.Atoi`, `strconv.ParseFloat`, `time.Duration.Seconds`, the decoding of a body to its title,
-- the text of an error, and `ReplaceAllString` of the pattern for a UUID.
pub record DemoEnv (F : Type 0) : Type 0 where
  pub inserted : List (DemoCall F) → String → Error ⊎ Order
  pub orders_at : List (DemoCall F) → ℤ → ℤ → Error ⊎ Rows
  pub order_at : List (DemoCall F) → String → Row
  pub deleted : List (DemoCall F) → String → Error ⊎ ℤ
  pub schema_created : List (DemoCall F) → Error ⊎ Unit {0}
  pub opened : List (DemoCall F) → String → Error ⊎ Unit {0}
  pub ping_answer : List (DemoCall F) → Error ⊎ Unit {0}
  pub shut_down_at : List (DemoCall F) → Error ⊎ Unit {0}
  pub now_at : List (DemoCall F) → ℤ
  pub random_at : List (DemoCall F) → F
  pub random_below : List (DemoCall F) → ℤ → ℤ
  pub variable : String → String
  pub atoi : String → Error ⊎ ℤ
  pub parse_number : String → Error ⊎ F
  pub duration_seconds : ℤ → F
  pub decode_title : String → Error ⊎ String
  pub error_text : Error → String
  pub hostname : String
  pub replace_uuids : String → String → String

abbrev pub Serve : Type 0 → Type 0 → Type 0
Serve F A = Action (DemoCall F) A

-- A call that cannot fail.
abbrev pub tell : {F : Type 0} → DemoCall F → Serve F (Unit {0})
tell c = perform c (λ h. inr tt)

-- `WithLabelValues`: the library panics at another number of labels than declared.
abbrev pub with_labels : {F : Type 0} → Collector → List String → DemoCall F → Serve F (Unit {0})
with_labels c labels call =
    if length labels == length (collector_labels c) then tell call else crash

-- `c.WithLabelValues(labels...).Inc()`, and `.Observe(v)`
abbrev pub count_with : {F : Type 0} → Collector → List String → Serve F (Unit {0})
count_with c labels = with_labels c labels (increment c labels)

abbrev pub observe_with : {F : Type 0} → Collector → List String → F → Serve F (Unit {0})
observe_with c labels v = with_labels c labels (observe_value c labels v)

-- A header that is written.
abbrev pub is_header : {F : Type 0} → DemoCall F → ℕ
is_header (write_header status) = 1
is_header _ = 0
