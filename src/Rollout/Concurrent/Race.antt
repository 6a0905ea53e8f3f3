-- ===== src/Rollout/Concurrent/Race.antt =====
-- internal/rollout/server.go: an order of two requests' steps that ends with a downgrade.
use enisa_sbd_example.Common.{
  ℕ, ◌≡◌, ◌≢◌, refl, Bool, true, List, [], ◌∷◌, ◌++◌, Option, Bytes, codes, ok,
}
use enisa_sbd_example.Authn.Identity.{Identity}
use enisa_sbd_example.Store.Model.{Time, AuditEntry, action_rollout_accepted}
use enisa_sbd_example.Http.{Response}
use enisa_sbd_example.Store.Scope.{org_scope}
use enisa_sbd_example.Store.Writes.{stamp_entry}
use enisa_sbd_example.Rollout.Manifest.{Manifest}
use enisa_sbd_example.Rollout.Server.{
  World, attempt_entry, cleared, not_newer, check_history, current_version,
}
use enisa_sbd_example.Rollout.Server.Sent.{IsBelow}
use enisa_sbd_example.Rollout.Server.Logged.{append_audit-org_scope}
use enisa_sbd_example.Rollout.History.Current.{current_version-acceptance, below_current}
use enisa_sbd_example.Rollout.Concurrent.{
  verified, checked, answered, accepted_response, advance, advance_nth, Turn, goes_on, turn, turns,
}

-- The second of two requests overtakes the first between the first one's check and its publication.
abbrev pub overtaking : Time → List Turn
overtaking now =
    goes_on now true 0 ∷ goes_on now true 1 ∷ goes_on now true 1 ∷ goes_on now true 1 ∷ []

abbrev pub catching_up : Time → List Turn
catching_up now = goes_on now true 0 ∷ goes_on now true 0 ∷ []

-- The world after a manifest was published and its acceptance logged.
abbrev after_release : World → Time → Identity → Manifest → World
after_release w now id m = record {
  store = record w.store {
    audit =
        w.store.audit
        ++ stamp_entry id.org_id now
            (attempt_entry id action_rollout_accepted m.version (codes "allowed") [])
          ∷ [];
  };
  sent = w.sent ++ m ∷ [];
}

module _ (base64_decode : Bytes → Option Bytes) (ed25519_verify : Bytes → Bytes → Bytes → Bool)
    (decode : ℕ → Bytes → Manifest × Bool) (key : Bytes) (now : Time) (id : Identity)
    (has_org : id.org_id ≢ []) where
  abbrev entry_of : Manifest → AuditEntry
  entry_of m = attempt_entry id action_rollout_accepted m.version (codes "allowed") []

  overtakes :
      (w : World) (low high : Manifest)
      → check_history w.store (org_scope id.org_id) low ≡ cleared
      → check_history w.store (org_scope id.org_id) high ≡ cleared
      → turns base64_decode ed25519_verify decode key
          (w, verified id (org_scope id.org_id) low ∷ verified id (org_scope id.org_id) high ∷ [])
          (overtaking now)
        ≡ (
          after_release w now id high,
          checked id (org_scope id.org_id) low ∷ answered (accepted_response high) ∷ [],
        )
  unfolding turns turn advance_nth advance
  overtakes w low high low_cleared high_cleared =
      rw
        (
          low_cleared,
          high_cleared,
          append_audit-org_scope w.store now id.org_id (entry_of high) has_org,
        )
        refl

  catches_up :
      (w : World) (low : Manifest) (res : Response)
      → turns base64_decode ed25519_verify decode key
          (w, checked id (org_scope id.org_id) low ∷ answered res ∷ [])
          (catching_up now)
        ≡ (after_release w now id low, answered (accepted_response low) ∷ answered res ∷ [])
  unfolding turns turn advance_nth advance
  catches_up w low res =
      rw (append_audit-org_scope w.store now id.org_id (entry_of low) has_org) refl

-- Two verified manifests of one organisation, the first with the lower version, and a history that
-- lets each of them through: in one order of their steps the higher version becomes the current one,
-- a check made then would refuse the lower one, and the lower one is published and becomes the
-- current one all the same; both requests are answered with 202.
pub turns-race :
    (base64_decode : Bytes → Option Bytes) (ed25519_verify : Bytes → Bytes → Bytes → Bool)
    (decode : ℕ → Bytes → Manifest × Bool) (key : Bytes) (w : World) (now : Time) (id : Identity)
    (low high : Manifest)
    → id.org_id ≢ []
    → check_history w.store (org_scope id.org_id) low ≡ cleared
    → check_history w.store (org_scope id.org_id) high ≡ cleared
    → IsBelow low.version high.version
    → let scope = org_scope id.org_id in
      let midway =
        turns base64_decode ed25519_verify decode key
          (w, verified id scope low ∷ verified id scope high ∷ [])
          (overtaking now) in
      let end = turns base64_decode ed25519_verify decode key midway (catching_up now) in
      (current_version midway.0.store scope ≡ ok high.version)
      × (check_history midway.0.store scope low ≡ not_newer)
      × (current_version end.0.store scope ≡ ok low.version)
      × (end.0.sent ≡ (w.sent ++ high ∷ []) ++ low ∷ [])
      × (end.1 ≡ answered (accepted_response low) ∷ answered (accepted_response high) ∷ [])
turns-race base64_decode ed25519_verify decode key w now id low high h low_cleared high_cleared
      below =
    let over =
      overtakes base64_decode ed25519_verify decode key now id h w low high low_cleared
        high_cleared in
    let w' = after_release w now id high in
    let up =
      catches_up base64_decode ed25519_verify decode key now id h w' low (accepted_response high) in
    let at_high = current_version-acceptance w.store now id high.version h in
    rw (over, up)
      (
        at_high,
        below_current w'.store (org_scope id.org_id) low high.version at_high below,
        current_version-acceptance w'.store now id low.version h,
        refl,
        refl,
      )
