-- ===== src/Rollout/History/Entries.antt =====
-- internal/rollout/server.go: what `create` adds to the audit log, and the version it names.
use enisa_sbd_example.Common.{
  ℕ, ◌≡◌, ◌≢◌, inl, inr, refl, ap, Bool, Bool-cases, List, [], ◌∷◌, ◌++◌, Option, Bytes, codes, ok,
}
use enisa_sbd_example.Authn.Identity.{Identity}
use enisa_sbd_example.Store.Model.{
  Time, AuditEntry, Store, action_rollout_accepted, action_rollout_rejected,
}
use enisa_sbd_example.Store.Scope.{org_scope}
use enisa_sbd_example.Store.Writes.{stamp_entry}
use enisa_sbd_example.Http.{Request, Response, status_conflict, status_bad_gateway}
use enisa_sbd_example.Rollout.Manifest.{Manifest}
use enisa_sbd_example.Rollout.Manifest.Verified.{verify_iff}
use enisa_sbd_example.Rollout.Version.{parse_version}
use enisa_sbd_example.Rollout.Server.Paths.{
  CreatePath, anonymous, undecodable, unverified, checked, create-CreatePath,
}
use enisa_sbd_example.Rollout.Server.Sent.{Verdict-cases, IsNewer, check_history-cleared}
use enisa_sbd_example.Rollout.Server.Logged.{identify-known, append_audit-org_scope}
use enisa_sbd_example.Rollout.Server.{
  World, reject, fail, attempt_entry, check_history, publish_release, create_verified, create,
}

-- The log is as before; or it has one more entry, of a rejection; or one of the acceptance of a
-- version that parses and is newer than the organisation's last.
pub data Logs (s : Store) (t : Store) : Type 0 where
  nothing : t ≡ s → Logs s t
  rejection :
      (org : Bytes) (now : Time) (e : AuditEntry)
      → e.action ≡ action_rollout_rejected
      → t ≡ record s { audit = s.audit ++ stamp_entry org now e ∷ [] }
      → Logs s t
  acceptance :
      (org : Bytes) (now : Time) (e : AuditEntry) (parts : List ℕ)
      → org ≢ []
      → e.action ≡ action_rollout_accepted
      → parse_version e.target ≡ ok parts
      → IsNewer s (org_scope org) e.target
      → t ≡ record s { audit = s.audit ++ stamp_entry org now e ∷ [] }
      → Logs s t

reject-Logs :
    (w w' : World) (now : Time) (id : Identity) (v : Bytes) (n : ℕ) (reason : Bytes)
    → id.org_id ≢ []
    → w'.store ≡ w.store
    → Logs w.store (reject w' now id (org_scope id.org_id) v n reason).1.store
unfolding reject
reject-Logs w w' now id v n reason h same =
    let e = attempt_entry id action_rollout_rejected v (codes "denied") reason in
    rejection id.org_id now e refl
      (rw (append_audit-org_scope w'.store now id.org_id e h, same) refl)

publish_release-Logs :
    (accepts : Manifest → Bool) (w : World) (now : Time) (id : Identity) (m : Manifest)
    (parts : List ℕ)
    → id.org_id ≢ []
    → parse_version m.version ≡ ok parts
    → IsNewer w.store (org_scope id.org_id) m.version
    → Logs w.store (publish_release accepts w now id (org_scope id.org_id) m).1.store
unfolding publish_release
publish_release-Logs accepts w now id m parts h parses newer = elim (Bool-cases (accepts m)) [
  | inr failed ↦ rw failed (
      reject-Logs w (record w { sent = w.sent ++ m ∷ [] }) now id m.version status_bad_gateway
        (codes "cdn publish failed") h refl)
  | inl taken ↦
      let e = attempt_entry id action_rollout_accepted m.version (codes "allowed") [] in
      acceptance id.org_id now e parts h refl parses newer
        (rw (taken, append_audit-org_scope w.store now id.org_id e h) refl)
]

create_verified-Logs :
    (accepts : Manifest → Bool) (w : World) (now : Time) (id : Identity) (m : Manifest)
    (parts : List ℕ)
    → id.org_id ≢ []
    → parse_version m.version ≡ ok parts
    → Logs w.store (create_verified accepts w now id (org_scope id.org_id) m).1.store
unfolding create_verified fail
create_verified-Logs accepts w now id m parts h parses =
    elim (Verdict-cases (check_history w.store (org_scope id.org_id) m)) [
      | inl failed ↦ nothing (rw (failed, create_verified))
      | inr (inl older) ↦
          rw (older, create_verified)
            (reject-Logs w w now id m.version status_conflict (codes "downgrade refused") h refl)
      | inr (inr newer) ↦
          rw (newer, create_verified)
            (publish_release-Logs accepts w now id m parts h parses
              (check_history-cleared w.store (org_scope id.org_id) m newer))
    ]

module _ (base64_decode : Bytes → Option Bytes) (ed25519_verify : Bytes → Bytes → Bytes → Bool)
    (decode : ℕ → Bytes → Manifest × Bool) (accepts : Manifest → Bool) where
  pub create-Logs :
      (key : Bytes) (now : Time) (ctx : Option Identity) (r : Request) (w : World)
      → Logs w.store (create base64_decode ed25519_verify decode accepts key now ctx r w).1.store
  create-Logs key now ctx r w =
      by_path (create base64_decode ed25519_verify decode accepts key now ctx r w)
        (create-CreatePath base64_decode ed25519_verify decode accepts key now ctx r w)
    where
      by_path :
          (out : Response × World)
          → CreatePath base64_decode ed25519_verify decode accepts key now ctx r w out
          → Logs w.store out.1.store
      by_path out (anonymous res c e) = nothing (ap (λ (o : Response × World). o.1.store) e)
      by_path out (undecodable id scope m c d e) =
          let (_, has_org, scope_is) = identify-known ctx id scope c in
          rw (e, scope_is) (reject-Logs w w now id m.version _ _ has_org refl)
      by_path out (unverified id scope m x c d v e) =
          let (_, has_org, scope_is) = identify-known ctx id scope c in
          rw (e, scope_is) (reject-Logs w w now id m.version _ _ has_org refl)
      by_path out (checked id scope m c d v e) =
          let (_, has_org, scope_is) = identify-known ctx id scope c in
          let verified = (verify_iff base64_decode ed25519_verify m key).0 v in
          rw (e, scope_is)
            (create_verified-Logs accepts w now id m verified.components has_org
              verified.version_parses)
