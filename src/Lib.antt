-- ===== src/Lib.antt =====
-- StatGate is a Kubernetes operator for canary rollouts. A CanaryRollout lists steps, each a weight for
-- the canary and a pause; the controller moves the weights of an Istio VirtualService step by step, and
-- while a step pauses it runs a sequential probability ratio test (SPRT) on counters that it asks
-- Prometheus for, which promotes the canary or rolls it back.
--
-- The files and the code that they model:
--   Api              api/v1alpha1/types.go: the custom resource, field by field.
--   VirtualService   internal/controller/virtualservice.go: `set_virtual_service_weights` is
--                    `SetVirtualServiceWeights`; `patch` is what it does between reading the object and
--                    writing it. The helpers of the package `unstructured` are the interface
--                    `Unstructured`, with their documented behaviour in VirtualService/Laws as a
--                    hypothesis.
--   Metrics          internal/controller/metrics.go: what is published about a rollout.
--   Analyzer         internal/controller/metrics_analyzer.go: `run_sprt` is `RunSPRT`, `run_metric` the
--                    body of its loop, `observe` and `judge` the test itself. Totals follows a metric
--                    over many cycles.
--   Reconciler       internal/controller/reconciler.go: `reconcile` is `Reconcile`, cut at its early
--                    returns into `reconcile_rollout`, `progress`, `run_step`, `analyse`,
--                    `wait_or_advance` and `advance`; `set_status` is `setStatus`, `is_canary_ready` is
--                    `isCanaryReady`. Promotion runs cycle after cycle on an API server that keeps what
--                    is stored.
--   Statctl          cmd/statctl: Main is `main` of main.go and Args its `splitArgs`; Commands has the
--                    subcommands `pause`, `resume`, `abort`, `apply` and `delete` of commands.go, with
--                    `parse` of client.go, Reads has `list` and `get`, and Client `newClient`; Watch is
--                    watch.go, by the events that its loop receives. Of render.go, Bar is `llrBar` as
--                    runes, Steps the list of steps, Durations `humanDuration`, Texts `truncate`,
--                    SprtPanel `renderSPRT`, and Dashboard the rest, as the lines that are written.
--   DeepCopy         api/v1alpha1/deepcopy.go and zz_generated.deepcopy.go: the deep copies of the custom
--                    resource, on a heap in which a slice or a pointer is an address. `copy_x` is a
--                    `DeepCopyInto`, by what it leaves in its target, and `deep_copy_x` a `DeepCopy`.
--   Demo             demo/app, the application that is rolled out: Orders has the statements of db.go and
--                    Startup its `NewDB`; Handlers and Pagination are handlers.go; Injector is
--                    error_inject.go with the configuration of main.go; Middleware is middleware.go,
--                    and Server is `main` of main.go: `run_app` by the events that it waits for.
--                    Calls has its surroundings: the database, the response, the clock and the counters
--                    with the labels of metrics.go.
--   Manager          cmd/main.go: `program` is the initialisation and `main`, by its exit code, with
--                    `SetupWithManager` of the controller and the registration of the types in
--                    api/v1alpha1.
--   Actions          actions that call, return, fail or panic, which Effects and Demo share.
--   Effects          the surroundings that the controller and statctl share: the API server, Prometheus, the
--                    gauges and the clock.
--   Together         a subcommand of statctl and the cycles of the controller after it.
--   Float64          what the code does with a `float64`.
--   Prelude          integers, lists, texts and Boolean tests.
--   Tests            concrete surroundings, and the theorems at concrete inputs.
--
-- How the parts interact: a cycle of `reconcile` reads the rollout, asks `is_canary_ready` for the pods,
-- calls `set_virtual_service_weights` and `run_sprt`, publishes gauges, and stores one status. Each
-- call to the outside is a constructor of `Effects.Call`; an action takes the history of all calls so
-- far and returns its result, an error or a panic, with the longer history. The answers come from an
-- arbitrary environment that sees the history, so a theorem on all environments covers every
-- interleaving with other writers of the cluster, and every failure. Between cycles,
-- `Reconciler.Runs.Run` is the sequence of stored statuses and of a user's edits of `paused` and `abort`.
-- `Reconciler.Promotion` lets the API server keep what is stored, and runs the cycles one after the
-- other on a clock that moves on between them. `Reconciler.Transition` specifies, without the code's
-- control flow, what a cycle may store and write.
--
-- Numbers: an `int32` or `int64` is an integer in `Prelude.Int`, with `wrap32` and `wrap64` where the
-- code computes; durations are in nanoseconds, and `time.Since` saturates. A `float64` is an abstract
-- type whose operations are a parameter: no theorem depends on rounding. Strings are texts. The loops
-- are structural recursion over the lists that the code ranges over, and the decimal printing of
-- `Prelude.Text` has more fuel than the number has digits.
--
-- The demo application: `Demo.Calls.DemoEnv` has the answers of PostgreSQL, by all calls before, and
-- the library functions that the code uses (`Atoi`, `ParseFloat`, `Seconds`, the decoder of a body and
-- the pattern for a UUID). The calls of a handler stand in the history in their order, so what it
-- answers and what it counts are read off there. The five attempts of `NewDB` are the fuel of
-- `ping_until`.
--
-- Not modelled: log lines, but for the manager's errors; the registries of the gauges and of the API
-- group, the manager's work and the router of the demo application, which are libraries' (the panic of a
-- gauge or a counter at another number of labels than declared is modelled); the metadata's own deep copy,
-- which is of values here; the console mode of Windows; a memory that runs out. A `reconcile` error's result is dropped, since the
-- controller runtime looks at the result only without an error.
pub mod Prelude
pub mod Float64
pub mod Api
pub mod Actions
pub mod Effects
pub mod VirtualService
pub mod Metrics
pub mod Analyzer
pub mod Reconciler
pub mod Manager
pub mod DeepCopy
pub mod Statctl
pub mod Demo
pub mod Together
pub mod Tests
