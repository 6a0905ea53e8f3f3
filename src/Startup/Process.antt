-- ===== src/Startup/Process.antt =====
-- cmd/rollout/main.go, cmd/ingest/main.go and cmd/dashboard/main.go: `main`. The status of the process is
-- kept; the error's text on standard error is not.
pub mod Orderly
use enisa_sbd_example.Common.{ℕ, List, Option, none, some, Bytes, Result, ok, err, map_err, ◌>>=◌}
use enisa_sbd_example.Mqtt.Wire.{IoError}
use enisa_sbd_example.Store.Model.{Time, Store}
use enisa_sbd_example.Authz.Router.{Router}
use enisa_sbd_example.Rollout.Server.{World}
use enisa_sbd_example.Ingest.Sample.{Sample}
use enisa_sbd_example.Ingest.Serve.{Event, run, returned}
use enisa_sbd_example.Startup.Listener.{Listening, Selected}
use enisa_sbd_example.Startup.Rollout
use enisa_sbd_example.Startup.Ingest
use enisa_sbd_example.Startup.Dashboard

-- `if err := run(os.Args[1:]); err != nil { ...; os.Exit(1) }`
abbrev pub exit_status : {E : Type 0} → Result E (Unit {0}) → ℕ
exit_status (ok _) = 0
exit_status (err _) = 1

-- A registration of routes that panics is not recovered from: it ends the process, with the runtime's
-- status 2. Every other error is the result of `run`.
abbrev pub rollout_status : Result Rollout.StartError (Unit {0}) → ℕ
rollout_status (err (Rollout.panics _)) = 2
rollout_status r = exit_status r

abbrev pub dashboard_status : Result Dashboard.StartError (Unit {0}) → ℕ
dashboard_status (err (Dashboard.panics _)) = 2
dashboard_status r = exit_status r

unfoldable pub main_rollout :
    Rollout.Outside → Time → (Listening (Router World) → Selected) → List Bytes → ℕ
main_rollout env now course args = rollout_status (Rollout.run_rollout env now course args)

unfoldable pub main_dashboard :
    Dashboard.Outside → (Listening (Router Store) → Selected) → List Bytes → ℕ
main_dashboard env course args = dashboard_status (Dashboard.run_dashboard env course args)

-- How the Ingest Service ends: it does not start, or `Serve` returns an error.
pub data IngestError : Type 0 where
  not_started : Ingest.StartError → IngestError
  serve_failed : IoError → IngestError

-- What `Serve` returned.
abbrev pub serve_result : Option IoError → Result IngestError (Unit {0})
serve_result none = ok tt
serve_result (some e) = err (serve_failed e)

-- `none` is a service that goes on.
abbrev pub after_serve : Option (Option IoError) → Option (Result IngestError (Unit {0}))
after_serve none = none
after_serve (some ended) = some (serve_result ended)

-- `run(args)`, over what happens to the service once it has started. A signal is the end of its
-- context, `cancels`.
unfoldable pub run_ingest :
    {C P : Type 0}
    → Ingest.Outside C P
    → (Bytes → Option Sample)
    → List Event
    → List Bytes
    → Option (Result IngestError (Unit {0}))
run_ingest env decode es args = elim (Ingest.prepare env args) [
  | err e ↦ some (err (not_started e))
  | ok svc ↦ after_serve (returned (run decode svc.max_conns svc.system es))
]

abbrev pub status_of : Option (Result IngestError (Unit {0})) → Option ℕ
status_of none = none
status_of (some r) = some (exit_status r)

unfoldable pub main_ingest :
    {C P : Type 0}
    → Ingest.Outside C P
    → (Bytes → Option Sample)
    → List Event
    → List Bytes
    → Option ℕ
main_ingest env decode es args = status_of (run_ingest env decode es args)
