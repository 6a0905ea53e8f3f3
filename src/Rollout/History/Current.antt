-- ===== src/Rollout/History/Current.antt =====
-- internal/rollout/server.go: the current version of an organisation, and what is refused below it.
use enisa_sbd_example.Common.{◌≡◌, ◌≢◌, refl, [], ◌∷◌, ◌++◌, codes, text_eq_refl, ok, arith, Bytes}
use enisa_sbd_example.Authn.Identity.{Identity}
use enisa_sbd_example.Store.Model.{Time, Store, action_rollout_accepted}
use enisa_sbd_example.Store.Scope.{Scope, org_scope}
use enisa_sbd_example.Store.Writes.{stamp_entry}
use enisa_sbd_example.Rollout.Manifest.{Manifest}
use enisa_sbd_example.Rollout.Server.{attempt_entry, not_newer, check_history, current_version}
use enisa_sbd_example.Rollout.Version.{parse_version}
use enisa_sbd_example.Rollout.Version.Order.{compare_versions-rank}
use enisa_sbd_example.Rollout.Server.Sent.{IsBelow}
use enisa_sbd_example.Rollout.History.Descends.{
  current_version-head, targets-keep-append, acceptance-shown,
}

-- After an acceptance is logged, its version is the organisation's current one, whatever the current
-- one was.
pub current_version-acceptance :
    (s : Store) (now : Time) (id : Identity) (v : Bytes)
    → id.org_id ≢ []
    → current_version
        (record s {
          audit =
              s.audit
              ++ stamp_entry id.org_id now
                  (attempt_entry id action_rollout_accepted v (codes "allowed") [])
                ∷ [];
        })
        (org_scope id.org_id)
      ≡ ok v
current_version-acceptance s now id v h =
    let e = attempt_entry id action_rollout_accepted v (codes "allowed") [] in
    rw
      (
        current_version-head (record s { audit = s.audit ++ stamp_entry id.org_id now e ∷ [] })
            id.org_id h,
        targets-keep-append id.org_id s (stamp_entry id.org_id now e),
        acceptance-shown id.org_id id.org_id now e refl,
        text_eq_refl id.org_id,
      )
      refl

-- A version below the current one is refused.
pub below_current :
    (s : Store) (sc : Scope) (m : Manifest) (current : Bytes)
    → current_version s sc ≡ ok current
    → IsBelow m.version current
    → check_history s sc m ≡ not_newer
unfolding check_history
below_current s sc m [] found below =
    let none_parse : parse_version [] ≡ ok below.high_parts = below.high_parses in
    unfold parse_version in cc
below_current s sc m (c ∷ v) found below =
    rw
      (
        found,
        compare_versions-rank m.version (c ∷ v) below.low_parts below.high_parts below.low_parses
            below.high_parses,
      )
      (ground (arith, below.lower))
