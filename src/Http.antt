-- ===== src/Http.antt =====
-- What the two API services use of net/http, and the response bodies that they write.
use enisa_sbd_example.Common.{ℕ, List, [], ◌∷◌, Option, Bytes, codes, ◌==◌, if◌then◌else◌}
use enisa_sbd_example.Authn.Identity.{Identity}
use enisa_sbd_example.Store.Model.{Device, Reading, AuditEntry}

abbrev pub status_ok : ℕ
status_ok = 200

abbrev pub status_accepted : ℕ
status_accepted = 202

abbrev pub status_bad_request : ℕ
status_bad_request = 400

abbrev pub status_unauthorized : ℕ
status_unauthorized = 401

abbrev pub status_forbidden : ℕ
status_forbidden = 403

abbrev pub status_conflict : ℕ
status_conflict = 409

abbrev pub status_internal_server_error : ℕ
status_internal_server_error = 500

abbrev pub status_bad_gateway : ℕ
status_bad_gateway = 502

-- `http.StatusText`, for the codes that the services refuse with.
unfoldable pub status_text : ℕ → Bytes
status_text code =
    if code == status_bad_request
    then codes "Bad Request"
    else if code == status_unauthorized
    then codes "Unauthorized"
    else if code == status_forbidden
    then codes "Forbidden"
    else if code == status_conflict
    then codes "Conflict"
    else if code == status_internal_server_error
    then codes "Internal Server Error"
    else if code == status_bad_gateway
    then codes "Bad Gateway"
    else []

-- The JSON objects before they are encoded, and the rows of a CSV file.
pub data Body : Type 0 where
  error_body : Bytes → Body
  error_reason_body : Bytes → Bytes → Body
  status_body : Bytes → Body
  devices_body : List Device → Body
  readings_body : List Reading → Body
  rollouts_body : List AuditEntry → Body
  published_body : Bytes → Bytes → Body
  csv_body : List (List Bytes) → Body

pub record Response : Type 0 where
  pub status : ℕ
  pub headers : List (Bytes × Bytes)
  pub body : Body

-- The parts of a request that the services read. An absent header or parameter is "".
pub record Request : Type 0 where
  pub target : Bytes
  pub authorization : Bytes
  pub path_id : Bytes
  pub query_limit : Bytes
  pub body : Bytes

-- A handler sees the identity in the request's context, if there is one, and the service's state.
abbrev pub Handler : Type 0 → Type 0
Handler S = Option Identity → Request → S → Response × S

-- `authz.WriteJSON`
unfoldable pub write_json : ℕ → Body → Response
write_json status body = record {
  status = status;
  headers =
      (codes "Content-Type", codes "application/json")
      ∷ (codes "Cache-Control", codes "no-store")
      ∷ [];
  body = body;
}
