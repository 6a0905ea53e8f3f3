-- ===== src/Dashboard/Delivered.antt =====
-- internal/ingest, internal/store and internal/dashboard: a reading's way from the wire of a device's
-- connection to the answer of the Dashboard API.
pub mod Route
use mathlib.Core.List.{reverse}
use enisa_sbd_example.Common.{
  ℕ, zero, suc, ◌≡◌, ◌≢◌, refl, ap, ap₂, ◌∙◌, Bool, true, List, [], ◌∷◌, Option, some, Bytes, codes,
  take, get_elem?, lookup, ℤ, ok, arith,
}
use enisa_sbd_example.Authn.Identity.{Identity}
use enisa_sbd_example.Authn.Tokens.{Tokens, bearer_token, find_token}
use enisa_sbd_example.Store.Model.{Time, Float64, Device, Reading, Store, readings_of}
use enisa_sbd_example.Store.Scope.{org_scope}
use enisa_sbd_example.Store.Invariant.{record_reading-known}
use enisa_sbd_example.Store.Writes.{record_reading, stamp}
use enisa_sbd_example.Store.Writes.Seen.{readings-record_reading}
use enisa_sbd_example.Store.Reads.{reading_limit, readings}
use enisa_sbd_example.Http.{Request, Response, readings_body, status_ok, write_json}
use enisa_sbd_example.Authz.Router.{Router, serve_http, contains_role, patterns}
use enisa_sbd_example.Ingest.Conn.{Conn}
use enisa_sbd_example.Ingest.Sample.{Sample, reading_of}
use enisa_sbd_example.Ingest.Session.{Progress, goes_on, ended, next_round}
use enisa_sbd_example.Ingest.Session.Published.{IsSending, next_round-record}
use enisa_sbd_example.Ingest.Serve.{
  Live, looping, System, runs, step, run_nth, step_live, after_round,
}
use enisa_sbd_example.Dashboard.Handlers.{handler, readings_answer}
use enisa_sbd_example.Dashboard.Delivered.Route.{IsAsking, serve_http-readings}

after_round-store :
    (device_id : Bytes) (x : Progress × Store × Conn) → (after_round device_id x).0 ≡ x.1
after_round-store device_id (goes_on, s, c) = refl
after_round-store device_id (ended e, s, c) = refl

module _ (decode : Bytes → Option Sample) where
  run_nth-store :
      (now : Time) (s : Store) (ls : List Live) (i : ℕ) (l : Live)
      → get_elem? ls i ≡ some l
      → (run_nth decode now s ls i).0 ≡ (step_live decode now s l).0
  unfolding run_nth
  run_nth-store now s [] i l h = absurd (ground arith)
  run_nth-store now s (k ∷ ls) zero l h = ap (λ x. (step_live decode now s x).0) (some_injective h)
    where
      some_injective : {x y : Live} → some x ≡ some y → x ≡ y
      some_injective e = cc
  run_nth-store now s (k ∷ ls) (suc i) l h = run_nth-store now s ls i l h

  -- The step of a device's connection that has a sample on the wire leaves the store with the reading.
  step-record :
      (max_conns : ℤ) (sys : System) (now : Time) (i : ℕ) (device_id : Bytes) (conn : Conn)
      (smp : Sample) (t : Store)
      → get_elem? sys.live i ≡ some (looping device_id conn)
      → IsSending decode device_id conn smp
      → record_reading sys.store now device_id (reading_of smp) ≡ ok t
      → (step decode max_conns sys (runs now i)).store ≡ t
  unfolding step step_live
  step-record max_conns sys now i device_id conn smp t served sending recorded =
      run_nth-store now sys.store sys.live i (looping device_id conn) served
      ∙ after_round-store device_id (next_round decode device_id now sys.store conn)
      ∙ next_round-record decode device_id now sys.store conn smp t sending recorded

  module _ (format_float : Float64 → Bytes) (format_time : Time → Bytes) (sum256 : Bytes → Bytes)
      (conflicts : List Bytes → Bytes → Bool) (tokens : Option Tokens)
      (select : List Bytes → Bytes → Option Bytes) (unrouted : Request → Response) where
    -- A sample that an enrolled device has on the wire of its connection to the ingest service is, after
    -- the next step of that connection, the first reading of the Dashboard API's answer to an operator or
    -- administrator of the device's organisation who asks for the device's telemetry: with the metric,
    -- the value and the time of the sample, the device's id and the time of the server. The device's
    -- earlier readings follow, newest first, up to the limit asked for.
    pub serve_http-step :
        (max_conns : ℤ) (sys : System) (now : Time) (i : ℕ) (conn : Conn) (smp : Sample)
        (d : Device) (rt : Router Store) (r : Request) (id : Identity) (limit : ℤ)
        → get_elem? sys.live i ≡ some (looping r.path_id conn)
        → IsSending decode r.path_id conn smp
        → lookup r.path_id sys.store.devices ≡ some d
        → d.org_id ≡ id.org_id
        → id.org_id ≢ []
        → handler format_float format_time sum256 conflicts tokens ≡ ok rt
        → IsAsking sum256 tokens select rt r id limit
        → (serve_http select unrouted rt r (step decode max_conns sys (runs now i)).store).0
          ≡ write_json status_ok (
              readings_body (
                take (reading_limit limit) (
                  stamp r.path_id now (reading_of smp)
                  ∷ reverse (readings_of sys.store r.path_id))))
    serve_http-step max_conns sys now i conn smp d rt r id limit served sending enrolled own has_org
          built asking =
        let recorded = record_reading-known sys.store now r.path_id (reading_of smp) d enrolled in
        ap (λ s. (serve_http select unrouted rt r s).0)
          (step-record max_conns sys now i r.path_id conn smp _ served sending recorded)
        ∙ serve_http-readings format_float format_time sum256 conflicts tokens select unrouted rt r
            _ id limit built asking has_org
        ∙ ap readings_answer (
            readings-record_reading sys.store _ now r.path_id id.org_id (reading_of smp) d limit
              recorded enrolled own has_org)
