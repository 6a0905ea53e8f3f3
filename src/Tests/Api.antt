-- ===== src/Tests/Api.antt =====
-- internal/dashboard: the API behind its router, over the store that devices write.
use enisa_sbd_example.Common.{
  Bool, Bool-cases, inl, inr, length, ◌==◌, subst, ◌≡◌, refl, true, false, List, [], ◌∷◌, Bytes,
  Option, some, none, codes, ok, pos, All, text_eq, lookup, insert,
}
use enisa_sbd_example.Common.Strings.{hex_encode}
use enisa_sbd_example.Authn.Identity.{Identity, is_valid_role}
use enisa_sbd_example.Authn.Tokens.{Tokens, hash_token, find_token}
use enisa_sbd_example.Store.Model.{Time, Float64, Device, Store}
use enisa_sbd_example.Store.Scope.{org_scope}
use enisa_sbd_example.Store.Invariant.Preserved.{Reach-IsValid}
use enisa_sbd_example.Store.Isolation.{SameView}
use enisa_sbd_example.Store.Isolation.Steps.{Reach-SameView}
use enisa_sbd_example.Store.Invariant.{enrols, here, next}
use enisa_sbd_example.Store.Writes.{enrol}
use enisa_sbd_example.Store.Reads.Fleet.{IsFleet}
use enisa_sbd_example.Store.Reads.{device}
use enisa_sbd_example.Http.{Request, Response, csv_body, status_ok, status_forbidden}
use enisa_sbd_example.Authz.Router.{
  Router, deny, guard, handle, handle_public, new_router, serve_http,
}
use enisa_sbd_example.Ingest.Serve.{run}
use enisa_sbd_example.Ingest.Serve.Isolated.{IsForeignLive, IsForeignEvent}
use enisa_sbd_example.Dashboard.Csv.{header_row, export_rows}
use enisa_sbd_example.Dashboard.Handlers.{
  fleet_readers, fleet, export, export_headers, telemetry, health, handler,
}
use enisa_sbd_example.Dashboard.Export.{HasInertText, all_rows, export_rows-HasInertText, export-eq}
use enisa_sbd_example.Dashboard.Routes.{LooksSameTo, serve_http-LooksSame}
use enisa_sbd_example.Dashboard.EndToEnd.{IsForeignTraffic, serve_http-run}
use enisa_sbd_example.Tests.Data.{
  acme, device_of_acme, two_devices, one_device, device_of_globex, admin, admin_tokens, sum_stub,
}
use enisa_sbd_example.Tests.Stores.{two_devices-Reach}
use enisa_sbd_example.Tests.Devices.{sample_stub, idle_system, schedule, d2-IsOther}

-- Stand-ins for printing.
abbrev pub print_float : Float64 → Bytes
print_float v = v ∷ []

abbrev pub print_time : Time → Bytes
print_time t = codes "now"

-- A request for acme's fleet.
abbrev pub request : Request
request = record {
  target = codes "/api/fleet";
  authorization = codes "Bearer s3cret";
  path_id = [];
  query_limit = [];
  body = [];
}

abbrev pub no_conflicts : List Bytes → Bytes → Bool
no_conflicts ps p = false

abbrev select_fleet : List Bytes → Bytes → Option Bytes
select_fleet ps target = some (codes "GET /api/fleet")

abbrev pub unrouted : Request → Response
unrouted r = deny status_forbidden

abbrev pub tokens : Option Tokens
tokens = some admin_tokens

abbrev pub api_router : Router Store
api_router = record {
  mux =
      (codes "GET /api/fleet", guard sum_stub tokens fleet_readers fleet)
      ∷ (
        codes "GET /api/fleet/export",
        guard sum_stub tokens fleet_readers (export print_float print_time),
      )
      ∷ (codes "GET /api/devices/{id}/telemetry", guard sum_stub tokens fleet_readers telemetry)
      ∷ (codes "GET /healthz", health)
      ∷ [];
  tokens = tokens;
  routes =
      record { pattern = codes "GET /api/fleet"; allow = fleet_readers; is_public = false }
      ∷ record { pattern = codes "GET /api/fleet/export"; allow = fleet_readers; is_public = false }
      ∷ record {
        pattern = codes "GET /api/devices/{id}/telemetry";
        allow = fleet_readers;
        is_public = false;
      }
      ∷ record { pattern = codes "GET /healthz"; allow = []; is_public = true }
      ∷ [];
}

pub api_router-built : handler print_float print_time sum_stub no_conflicts tokens ≡ ok api_router
unfolding handler handle handle_public new_router is_valid_role text_eq
api_router-built = refl

-- Only acme's administrator is known.
known-is-admin :
    (token : Bytes) (id : Identity) → find_token sum_stub tokens token ≡ some id → admin ≡ id
unfolding find_token hash_token lookup text_eq hex_encode
known-is-admin token id found = elim (Bool-cases (length token == 0)) [
  | inl blank ↦ (let bad : none ≡ some id = rw blank at found in cc)
  | inr given ↦ (let same : some admin ≡ some id = rw given at found in cc)
]

looks_same : LooksSameTo sum_stub tokens request one_device two_devices
unfolding enrol insert lookup text_eq
looks_same token id presented found =
    subst (λ (i : Identity). SameView one_device two_devices (org_scope i.org_id))
      (known-is-admin token id found)
      (Reach-SameView acme (next here (enrols device_of_globex refl)) (tt, ((λ e. cc), tt)))

serve_http-LooksSame_example :
    ((serve_http select_fleet unrouted api_router request one_device).0
      ≡ (serve_http select_fleet unrouted api_router request two_devices).0)
    × ((serve_http select_fleet unrouted api_router request one_device).1 ≡ one_device)
serve_http-LooksSame_example =
    serve_http-LooksSame sum_stub tokens print_float print_time no_conflicts select_fleet unrouted
      api_router request one_device two_devices api_router-built looks_same

foreign_traffic :
    IsForeignTraffic sample_stub print_float print_time sum_stub tokens request idle_system schedule
unfolding lookup device
foreign_traffic = record {
  foreign = λ token id presented found.
      subst
        (λ (i : Identity).
          All (IsForeignLive i.org_id two_devices) []
          × All (IsForeignEvent i.org_id two_devices) schedule)
        (known-is-admin token id found) (tt, (d2-IsOther, (d2-IsOther, (tt, (tt, tt)))));
}

serve_http-run_example :
    (serve_http select_fleet unrouted api_router request two_devices).0
    ≡ (serve_http select_fleet unrouted api_router request
        (run sample_stub (pos 2) idle_system schedule).store).0
serve_http-run_example =
    serve_http-run sample_stub print_float print_time sum_stub tokens no_conflicts select_fleet
      unrouted api_router request (pos 2) idle_system schedule api_router-built foreign_traffic

export-eq_example :
    (ds : List Device) × IsFleet two_devices acme ds
    × (export print_float print_time (some admin) request two_devices ≡ (
      record {
        status = status_ok;
        headers = export_headers;
        body = csv_body (header_row ∷ all_rows print_float print_time two_devices ds);
      },
      two_devices,
    ))
export-eq_example =
    export-eq print_float print_time two_devices admin request (Reach-IsValid two_devices-Reach)
      (λ e. cc)

export_rows-HasInertText_example : All HasInertText (
    header_row
    ∷ export_rows print_float print_time two_devices (org_scope acme) (device_of_acme ∷ []))
export_rows-HasInertText_example =
    export_rows-HasInertText print_float print_time two_devices (org_scope acme)
      (device_of_acme ∷ [])
