-- ===== src/Rollout/Server.antt =====
-- internal/rollout/server.go: the handlers of the Rollout Service.
pub mod Paths
pub mod Sent
pub mod Logged
use enisa_sbd_example.Common.{
  ℕ, Bool, true, false, not, List, [], ◌∷◌, ◌++◌, Option, none, some, Bytes, codes, length, ◌==◌,
  if◌then◌else◌, ℤ, pos, is_nonpositive, Result, ok, err, ◌>>=◌,
}
use enisa_sbd_example.Authn.Identity.{Identity, Role, role_admin}
use enisa_sbd_example.Store.Model.{
  Time, AuditEntry, Store, action_rollout_accepted, action_rollout_rejected,
}
use enisa_sbd_example.Store.Model
use enisa_sbd_example.Store.Scope.{Scope, scope_for}
use enisa_sbd_example.Store.Writes.{append_audit}
use enisa_sbd_example.Store.Reads.{audit}
use enisa_sbd_example.Http.{
  Request, Response, Handler, error_body, error_reason_body, status_body, rollouts_body,
  published_body, status_text, write_json, status_ok, status_accepted, status_bad_request,
  status_unauthorized, status_forbidden, status_conflict, status_internal_server_error,
  status_bad_gateway,
}
use enisa_sbd_example.Authz.Router.{caller}
use enisa_sbd_example.Rollout.Version.{compare_versions}
use enisa_sbd_example.Rollout.Manifest.{Manifest, Error, bad_signature, verify}

abbrev pub max_manifest_bytes : ℕ
max_manifest_bytes = 8192

abbrev pub admin_only : List Role
admin_only = role_admin ∷ []

-- What the service changes: the store, and the manifests that were handed to the publisher.
pub record World : Type 0 where
  pub store : Store
  pub sent : List Manifest

-- The service's `caller`: a refusal that it has written, or the identity and its scope.
pub data Caller : Type 0 where
  refused : Response → Caller
  known : Identity → Scope → Caller

unfoldable pub identify : Option Identity → Caller
identify ctx = elim (caller ctx) [
  | none ↦ refused (write_json status_unauthorized (error_body (codes "Unauthorized")))
  | some id ↦ elim (scope_for id) [
    | err _ ↦ refused (write_json status_forbidden (error_body (codes "Forbidden")))
    | ok scope ↦ known id scope
  ]
]

-- The entry of an attempt, before the store stamps it.
abbrev pub attempt_entry : Identity → Bytes → Bytes → Bytes → Bytes → AuditEntry
attempt_entry id action version outcome reason = record {
  at = pos 0;
  actor = id.subject;
  org_id = [];
  action = action;
  target = version;
  outcome = outcome;
  reason = reason;
}

-- A failure to record the refusal is only logged.
abbrev pub or_unchanged : Store → Result Model.Error Store → Store
or_unchanged s (ok s') = s'
or_unchanged s (err _) = s

unfoldable pub reject : World → Time → Identity → Scope → Bytes → ℕ → Bytes → Response × World
reject w now id scope version status reason =
    let entry = attempt_entry id action_rollout_rejected version (codes "denied") reason in
    (
      write_json status (error_reason_body (status_text status) reason),
      record w { store = or_unchanged w.store (append_audit w.store now scope entry) },
    )

unfoldable pub fail : World → Response × World
fail w = (write_json status_internal_server_error (error_body (codes "Internal Server Error")), w)

-- `entries[0].Target`, or "" without entries.
abbrev pub first_target : List AuditEntry → Bytes
first_target [] = []
first_target (e ∷ _) = e.target

unfoldable pub current_version : Store → Scope → Result Model.Error Bytes
current_version s scope = do
  entries ← audit s scope action_rollout_accepted
  ok (first_target entries)

-- What the check against the history says of a verified manifest.
pub data Verdict : Type 0 where
  history_failed not_newer cleared : Verdict

abbrev pub verdict_of : Result Model.Error Bytes → Manifest → Verdict
verdict_of (err _) m = history_failed
verdict_of (ok current) m =
    if length current == 0 then cleared else elim (compare_versions m.version current) [
      | err _ ↦ history_failed
      | ok cmp ↦ if is_nonpositive cmp then not_newer else cleared
    ]

unfoldable pub check_history : Store → Scope → Manifest → Verdict
check_history s scope m = verdict_of (current_version s scope) m

-- Whether the publisher takes a manifest is given.
module _ (accepts : Manifest → Bool) where
  -- From `s.cdn.Publish` on.
  unfoldable pub publish_release : World → Time → Identity → Scope → Manifest → Response × World
  publish_release w now id scope m =
      let w' = record w { sent = w.sent ++ m ∷ [] } in
      let entry = attempt_entry id action_rollout_accepted m.version (codes "allowed") [] in
      if not (accepts m)
      then reject w' now id scope m.version status_bad_gateway (codes "cdn publish failed")
      else elim (append_audit w'.store now scope entry) [
        | err _ ↦ fail w'
        | ok s ↦ (
          write_json status_accepted (published_body m.version m.digest),
          record w' { store = s },
        )
      ]

  -- From `s.currentVersion` on.
  unfoldable pub create_verified : World → Time → Identity → Scope → Manifest → Response × World
  create_verified w now id scope m = elim (check_history w.store scope m) [
    | history_failed ↦ fail w
    | not_newer ↦ reject w now id scope m.version status_conflict (codes "downgrade refused")
    | cleared ↦ publish_release w now id scope m
  ]

abbrev pub verify_status : Error → ℕ
verify_status bad_signature = status_forbidden
verify_status _ = status_bad_request

-- Decoding the body, at most so many bytes of it, gives what was filled in and whether it succeeded.
module _ (base64_decode : Bytes → Option Bytes) (ed25519_verify : Bytes → Bytes → Bytes → Bool)
    (decode : ℕ → Bytes → Manifest × Bool) (accepts : Manifest → Bool) where
  unfoldable pub create : Bytes → Time → Handler World
  create key now ctx r w = elim (identify ctx) [
    | refused res ↦ (res, w)
    | known id scope ↦
        let (m, decoded) = decode max_manifest_bytes r.body in
        if not decoded
        then reject w now id scope m.version status_bad_request (codes "undecodable manifest")
        else elim (verify base64_decode ed25519_verify m key) [
          | err e ↦
              reject w now id scope m.version (verify_status e)
                (codes "signature verification failed")
          | ok _ ↦ create_verified accepts w now id scope m
        ]
  ]

unfoldable pub list_rollouts : Handler World
list_rollouts ctx r w = elim (identify ctx) [
  | refused res ↦ (res, w)
  | known id scope ↦ elim (audit w.store scope (codes "rollout.")) [
    | err _ ↦ fail w
    | ok entries ↦ (write_json status_ok (rollouts_body entries), w)
  ]
]

unfoldable pub health : Handler World
health ctx r w = (write_json status_ok (status_body (codes "ok")), w)
