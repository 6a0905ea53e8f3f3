-- ===== src/Tests/Listing.antt =====
-- internal/rollout behind its router: the history after a release.
use enisa_sbd_example.Common.{
  ◌≡◌, refl, List, [], ◌∷◌, Option, some, Bytes, codes, pos, text_eq, lookup, if◌then◌else◌,
}
use enisa_sbd_example.Common.Strings.{hex_encode, trim_space, cut, equal_fold, is_lower_hex}
use enisa_sbd_example.Authn.Tokens.{bearer_token, find_token, hash_token}
use enisa_sbd_example.Store.Model.{AuditEntry}
use enisa_sbd_example.Store.Writes.{stamp_entry, append_audit}
use enisa_sbd_example.Http.{Request, rollouts_body, status_ok, status_accepted, write_json}
use enisa_sbd_example.Authz.Router.{serve_http, contains_role, guard}
use enisa_sbd_example.Authz.Router.Granted.{IsGranted}
use enisa_sbd_example.Rollout.Manifest.{verify}
use enisa_sbd_example.Rollout.Server.{
  admin_only, create, identify, publish_release, create_verified, check_history, current_version,
}
use enisa_sbd_example.Rollout.Version.{parse_version, split_dots, parse_components, parse_component}
use enisa_sbd_example.Common.Strings.Atoi.{atoi}
use enisa_sbd_example.Store.Scope.{scope_for, org_of}
use enisa_sbd_example.Store.Reads.{audit, matching_entries}
use enisa_sbd_example.Rollout.Routes.Listed.{
  post_pattern, get_pattern, history, IsAcceptance, serve_http-listed,
}
use enisa_sbd_example.Tests.Data.{acme, admin, sum_stub}
use enisa_sbd_example.Tests.Releases.{release, key, decode_stub, verify_stub, world}
use enisa_sbd_example.Tests.Publishing.{
  body_stub, takes_all, no_conflicts, tokens, unrouted, post, release_router, release_router-built,
}

-- The mux sends a request without a target to the history.
abbrev select : List Bytes → Bytes → Option Bytes
select ps target = some (if text_eq target [] then get_pattern else post_pattern)

abbrev get : Request
get = record post { target = [] }

posts : IsGranted sum_stub tokens select release_router post_pattern admin_only post admin
unfolding bearer_token find_token hash_token lookup text_eq hex_encode contains_role trim_space cut
    equal_fold
posts = record {
  token = codes "s3cret";
  presented = refl;
  found = refl;
  allowed = refl;
  routed = refl;
}

gets : IsGranted sum_stub tokens select release_router get_pattern admin_only get admin
unfolding bearer_token find_token hash_token lookup text_eq hex_encode contains_role trim_space cut
    equal_fold
gets = record {
  token = codes "s3cret";
  presented = refl;
  found = refl;
  allowed = refl;
  routed = refl;
}

accepted : (serve_http select unrouted release_router post world).0.status ≡ status_accepted
unfolding serve_http guard bearer_token find_token hash_token lookup text_eq hex_encode
    contains_role trim_space cut equal_fold create verify identify publish_release create_verified
    scope_for parse_version split_dots parse_components parse_component atoi is_lower_hex
    check_history current_version audit org_of matching_entries append_audit write_json
accepted = refl

serve_http-listed_example :
    (e : AuditEntry) × IsAcceptance admin release.version e
    × ((serve_http select unrouted release_router get
          (serve_http select unrouted release_router post world).1).0
        ≡ write_json status_ok
            (rollouts_body (stamp_entry acme (pos 9) e ∷ history acme world.store)))
serve_http-listed_example =
    serve_http-listed decode_stub verify_stub body_stub takes_all sum_stub no_conflicts tokens key
      (pos 9) select unrouted release_router post get admin admin world release_router-built posts
      gets refl (λ e. cc) accepted
