-- ===== src/Dashboard/Handlers.antt =====
-- internal/dashboard/server.go: the handlers of the Dashboard API.
use enisa_sbd_example.Common.{
  ℕ, Bool, List, [], ◌∷◌, Option, none, some, Bytes, codes, length, ◌==◌, if◌then◌else◌, or_nil, ℤ,
  pos, is_nonpositive, Result, ok, err, ◌>>=◌,
}
use enisa_sbd_example.Common.Strings.Atoi.{atoi}
use enisa_sbd_example.Authn.Identity.{Identity, Role, role_operator, role_admin}
use enisa_sbd_example.Authn.Tokens.{Tokens}
use enisa_sbd_example.Store.Model.{Time, Float64, Device, Reading, Store, Error}
use enisa_sbd_example.Store.Scope.{Scope, scope_for}
use enisa_sbd_example.Store.Reads.{readings}
use enisa_sbd_example.Store.Reads
use enisa_sbd_example.Http.{
  Response, Handler, error_body, status_body, devices_body, readings_body, csv_body, write_json,
  status_ok, status_bad_request, status_unauthorized, status_forbidden,
  status_internal_server_error,
}
use enisa_sbd_example.Authz.Router.{Router, Panic, caller, new_router, handle_func, handle_public}
use enisa_sbd_example.Dashboard.Csv.{header_row, export_rows}

abbrev pub default_reading_limit : ℕ
default_reading_limit = 100

abbrev pub fleet_readers : List Role
fleet_readers = role_operator ∷ role_admin ∷ []

-- A refusal that has been written, or the caller's scope.
pub data Scoped : Type 0 where
  unscoped : Response → Scoped
  scoped : Scope → Scoped

-- `s.scope(w, r)`
unfoldable pub scope_of : Option Identity → Scoped
scope_of ctx = elim (caller ctx) [
  | none ↦ unscoped (write_json status_unauthorized (error_body (codes "Unauthorized")))
  | some id ↦ elim (scope_for id) [
    | err _ ↦ unscoped (write_json status_forbidden (error_body (codes "Forbidden")))
    | ok scope ↦ scoped scope
  ]
]

unfoldable pub fail : Response
fail = write_json status_internal_server_error (error_body (codes "Internal Server Error"))

-- A handler's first lines: it goes on with the caller's scope. Nothing in this service changes the
-- store.
unfoldable pub with_scope : Option Identity → Store → (Scope → Response) → Response × Store
with_scope ctx s answer = elim (scope_of ctx) [
  | unscoped res ↦ (res, s)
  | scoped scope ↦ (answer scope, s)
]

abbrev pub fleet_answer : Result Error (List Device) → Response
fleet_answer (err _) = fail
fleet_answer (ok devices) = write_json status_ok (devices_body devices)

unfoldable pub fleet : Handler Store
fleet ctx r s = with_scope ctx s λ scope. fleet_answer (Reads.fleet s scope)

-- The limit that the query asks for, or the default; `none` is one that is no positive number.
unfoldable pub limit_of : Bytes → Option ℤ
limit_of raw =
    if length raw == 0
    then some (pos default_reading_limit)
    else elim (atoi raw) [ none ↦ none | some n ↦ if is_nonpositive n then none else some n ]

abbrev pub readings_answer : Result Error (Option (List Reading)) → Response
readings_answer (err _) = fail
readings_answer (ok rs) = write_json status_ok (readings_body (or_nil rs))

abbrev pub bad_limit : Response
bad_limit = write_json status_bad_request (error_body (codes "limit must be a positive integer"))

unfoldable pub telemetry : Handler Store
telemetry ctx r s = with_scope ctx s λ scope. elim (limit_of r.query_limit) [
  | none ↦ bad_limit
  | some limit ↦ readings_answer (readings s scope r.path_id limit)
]

abbrev pub export_headers : List (Bytes × Bytes)
export_headers =
    (codes "Content-Type", codes "text/csv; charset=utf-8")
    ∷ (codes "Content-Disposition", codes "attachment; filename=\"fleet-telemetry.csv\"")
    ∷ (codes "Cache-Control", codes "no-store")
    ∷ []

unfoldable pub health : Handler Store
health ctx r s = (write_json status_ok (status_body (codes "ok")), s)

module _ (format_float : Float64 → Bytes) (format_time : Time → Bytes) where
  -- A failing write of a row ends the response, which is then not received: it is not kept.
  abbrev pub export_answer : Store → Scope → Result Error (List Device) → Response
  export_answer s scope (err _) = fail
  export_answer s scope (ok devices) = record {
    status = status_ok;
    headers = export_headers;
    body = csv_body (header_row ∷ export_rows format_float format_time s scope devices);
  }

  unfoldable pub export : Handler Store
  export ctx r s = with_scope ctx s λ scope. export_answer s scope (Reads.fleet s scope)

  -- `Handler(st, tokens, log)`
  unfoldable pub handler :
      (Bytes → Bytes) → (List Bytes → Bytes → Bool) → Option Tokens → Result Panic (Router Store)
  handler sum256 conflicts tokens = do
    r₁ ←
        handle_func conflicts sum256 (new_router tokens) (codes "GET /api/fleet") fleet_readers
          fleet
    r₂ ← handle_func conflicts sum256 r₁ (codes "GET /api/fleet/export") fleet_readers export
    r₃ ←
        handle_func conflicts sum256 r₂ (codes "GET /api/devices/{id}/telemetry") fleet_readers
          telemetry
    handle_public conflicts r₃ (codes "GET /healthz") health
