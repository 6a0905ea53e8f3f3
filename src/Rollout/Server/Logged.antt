-- ===== src/Rollout/Server/Logged.antt =====
-- internal/rollout/server.go: what `create` appends to the audit log.
use enisa_sbd_example.Common.{
  ℕ, ◌≡◌, ◌≢◌, ◌⊎◌, inl, inr, refl, ap, Bool, Bool-cases, [], ◌∷◌, ◌++◌, Option, some, none, Bytes,
  codes, ok, arith,
}
use enisa_sbd_example.Authn.Identity.{Identity}
use enisa_sbd_example.Store.Model.{
  Time, AuditEntry, Store, action_rollout_accepted, action_rollout_rejected,
}
use enisa_sbd_example.Store.Scope.{Scope, org_scope, scope_for, org_of}
use enisa_sbd_example.Store.Writes.{append_audit, stamp_entry}
use enisa_sbd_example.Http.{
  Request, Response, write_json, status_accepted, status_unauthorized, status_forbidden,
  status_internal_server_error, status_bad_gateway, status_conflict,
}
use enisa_sbd_example.Rollout.Manifest.{
  Manifest, Error, bad_signature, bad_manifest, no_release_key, downgrade,
}
use enisa_sbd_example.Rollout.Server.Paths.{
  CreatePath, anonymous, undecodable, unverified, checked, create-CreatePath,
}
use enisa_sbd_example.Rollout.Server.Sent.{Verdict-cases}
use enisa_sbd_example.Rollout.Server.{
  World, refused, known, identify, reject, fail, attempt_entry, check_history, publish_release,
  create_verified, create, verify_status, max_manifest_bytes,
}

-- The store has one more entry, of the caller and under its organisation, with this version: an
-- acceptance exactly where the answer is 202.
pub record IsLogged (w : World) (now : Time) (ctx : Option Identity) (version : Bytes)
    (out : Response × World) : Type 0 where
  pub id : Identity
  pub entry : AuditEntry
  pub is_caller : ctx ≡ some id
  pub actor : entry.actor ≡ id.subject
  pub target : entry.target ≡ version
  pub appended :
      out.1.store ≡ record w.store { audit = w.store.audit ++ stamp_entry id.org_id now entry ∷ [] }
  pub outcome :
      ((out.0.status ≡ status_accepted) × (entry.action ≡ action_rollout_accepted))
      ⊎ ((out.0.status ≢ status_accepted) × (entry.action ≡ action_rollout_rejected))

-- The store is the same, and the answer is a refusal of the caller or an internal error.
pub record IsUnlogged (w : World) (out : Response × World) : Type 0 where
  pub same_store : out.1.store ≡ w.store
  pub answer :
      (out.0.status ≡ status_unauthorized)
      ⊎ (out.0.status ≡ status_forbidden)
      ⊎ (out.0.status ≡ status_internal_server_error)

pub identify-known :
    (ctx : Option Identity) (id : Identity) (scope : Scope)
    → identify ctx ≡ known id scope
    → (ctx ≡ some id) × (id.org_id ≢ []) × (scope ≡ org_scope id.org_id)
unfolding identify scope_for
identify-known none id scope e = cc
identify-known (some i) id scope e = ground arith

identify-refused :
    (ctx : Option Identity) (res : Response)
    → identify ctx ≡ refused res
    → (res.status ≡ status_unauthorized) ⊎ (res.status ≡ status_forbidden)
unfolding identify scope_for write_json
identify-refused none res e = ground arith
identify-refused (some i) res e = ground arith

pub append_audit-org_scope :
    (s : Store) (now : Time) (org : Bytes) (e : AuditEntry)
    → org ≢ []
    → append_audit s now (org_scope org) e
      ≡ ok (record s { audit = s.audit ++ stamp_entry org now e ∷ [] })
unfolding append_audit org_of
append_audit-org_scope s now [] e h = absurd (h refl)
append_audit-org_scope s now (c ∷ org) e h = ground arith

reject-IsLogged :
    (w w' : World) (now : Time) (id : Identity) (v : Bytes) (n : ℕ) (reason : Bytes)
    → id.org_id ≢ []
    → n ≢ status_accepted
    → w'.store ≡ w.store
    → IsLogged w now (some id) v (reject w' now id (org_scope id.org_id) v n reason)
unfolding reject write_json
reject-IsLogged w w' now id v n reason h ne same = record {
  id = id;
  entry = attempt_entry id action_rollout_rejected v (codes "denied") reason;
  is_caller = refl;
  actor = refl;
  target = refl;
  appended =
      rw
        (
          append_audit-org_scope w'.store now id.org_id
              (attempt_entry id action_rollout_rejected v (codes "denied") reason) h,
          same,
        )
        refl;
  outcome = inr (ne, refl);
}

module _ (accepts : Manifest → Bool) where
  publish_release-IsLogged :
      (w : World) (now : Time) (id : Identity) (m : Manifest)
      → id.org_id ≢ []
      → IsLogged w now
          (some id)
          m.version
          (publish_release accepts w now id (org_scope id.org_id) m)
  unfolding publish_release
  publish_release-IsLogged w now id m h = elim (Bool-cases (accepts m)) [
    | inr failed ↦ rw failed (
        reject-IsLogged w (record w { sent = w.sent ++ m ∷ [] }) now id m.version status_bad_gateway
          (codes "cdn publish failed") h (λ e. omega arith) refl)
    | inl taken ↦
        let entry = attempt_entry id action_rollout_accepted m.version (codes "allowed") [] in
        rw (taken, append_audit-org_scope w.store now id.org_id entry h)
          (record {
            id = id;
            entry = entry;
            is_caller = refl;
            actor = refl;
            target = refl;
            appended = refl;
            outcome = inl (unfold write_json in refl, refl);
          })
  ]

  create_verified-IsLogged :
      (w : World) (now : Time) (id : Identity) (m : Manifest)
      → id.org_id ≢ []
      → IsUnlogged w (create_verified accepts w now id (org_scope id.org_id) m)
        ⊎ IsLogged w now
            (some id)
            m.version
            (create_verified accepts w now id (org_scope id.org_id) m)
  unfolding fail write_json create_verified
  create_verified-IsLogged w now id m h =
      elim (Verdict-cases (check_history w.store (org_scope id.org_id) m)) [
        | inl failed ↦
            inl
              (rw (failed, create_verified) (record { same_store = refl; answer = inr (inr refl) }))
        | inr (inl older) ↦ inr (
            rw (older, create_verified)
              (reject-IsLogged w w now id m.version status_conflict (codes "downgrade refused") h
                (λ e. omega arith) refl))
        | inr (inr newer) ↦
            inr (rw (newer, create_verified) (publish_release-IsLogged w now id m h))
      ]

verify_status-ne : (e : Error) → verify_status e ≢ status_accepted
verify_status-ne bad_signature h = omega arith
verify_status-ne bad_manifest h = omega arith
verify_status-ne no_release_key h = omega arith
verify_status-ne downgrade h = omega arith

module _ (base64_decode : Bytes → Option Bytes) (ed25519_verify : Bytes → Bytes → Bytes → Bool)
    (decode : ℕ → Bytes → Manifest × Bool) (accepts : Manifest → Bool) where
  -- `create` appends one entry of the caller under its organisation, with the version of the manifest that
  -- the body decodes to, an acceptance exactly where it answers 202; or it leaves the store as it was and answers 401, 403 or 500.
  pub create-IsLogged :
      (key : Bytes) (now : Time) (ctx : Option Identity) (r : Request) (w : World)
      → IsUnlogged w (create base64_decode ed25519_verify decode accepts key now ctx r w)
        ⊎ IsLogged w now ctx
            (decode max_manifest_bytes r.body).0.version
            (create base64_decode ed25519_verify decode accepts key now ctx r w)
  create-IsLogged key now ctx r w =
      by_path (create base64_decode ed25519_verify decode accepts key now ctx r w)
        (create-CreatePath base64_decode ed25519_verify decode accepts key now ctx r w)
    where
      as_known :
          (id : Identity) (scope : Scope) (m : Manifest) (decoded : Bool) (out : Response × World)
          → identify ctx ≡ known id scope
          → decode max_manifest_bytes r.body ≡ (m, decoded)
          → (id.org_id ≢ []
              → scope ≡ org_scope id.org_id
              → IsUnlogged w out ⊎ IsLogged w now (some id) m.version out)
          → IsUnlogged w out ⊎ IsLogged w now ctx (decode max_manifest_bytes r.body).0.version out
      as_known id scope m decoded out c d f =
          let (caller_is, has_org, scope_is) = identify-known ctx id scope c in
          rw (caller_is, d) (f has_org scope_is)

      by_path :
          (out : Response × World)
          → CreatePath base64_decode ed25519_verify decode accepts key now ctx r w out
          → IsUnlogged w out ⊎ IsLogged w now ctx (decode max_manifest_bytes r.body).0.version out
      by_path out (anonymous res c e) = inl (record {
        same_store = ap (λ o. o.1.store) e;
        answer = ground (arith, identify-refused ctx res c);
      })
      by_path out (undecodable id scope m c d e) = as_known id scope m _ out c d (λ h s.
          inr (rw (e, s) (reject-IsLogged w w now id m.version _ _ h (λ x. omega arith) refl)))
      by_path out (unverified id scope m x c d v e) = as_known id scope m _ out c d (λ h s.
          inr (rw (e, s) (reject-IsLogged w w now id m.version _ _ h (verify_status-ne x) refl)))
      by_path out (checked id scope m c d v e) =
          as_known id scope m _ out c d
            (λ h s. rw (e, s) (create_verified-IsLogged accepts w now id m h))
