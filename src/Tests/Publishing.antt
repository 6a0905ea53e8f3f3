-- ===== src/Tests/Publishing.antt =====
-- internal/rollout: the service behind its router, its history of releases, and its CDN client.
use enisa_sbd_example.Common.{
  ℕ, ◌≡◌, ◌↔◌, ◌⊎◌, refl, Bool, true, false, List, [], ◌∷◌, ◌++◌, Bytes, Option, some, codes, ok,
  pos, text_eq, arith,
}
use enisa_sbd_example.Authn.Identity.{Identity, role_admin, is_valid_role}
use enisa_sbd_example.Authn.Tokens.{Tokens}
use enisa_sbd_example.Authz.Router.{
  Router, deny, guard, handle, handle_public, new_router, serve_http,
}
use enisa_sbd_example.Authz.Router.Guarded.{IsAdmitted}
use enisa_sbd_example.Http.{Request, Response, status_forbidden}
use enisa_sbd_example.Store.Scope.{org_scope, org_of}
use enisa_sbd_example.Rollout.Version.{parse_version, split_dots, parse_components, parse_component}
use enisa_sbd_example.Common.Strings.Atoi.{atoi}
use enisa_sbd_example.Store.Reads.{audit, matching_entries}
use enisa_sbd_example.Rollout.Manifest.{Manifest}
use enisa_sbd_example.Rollout.Server.{
  World, admin_only, create, list_rollouts, health, check_history, cleared, current_version,
}
use enisa_sbd_example.Rollout.Server.Sent.{IsReleasable, IsBelow}
use enisa_sbd_example.Rollout.Routes.{rollout_handler}
use enisa_sbd_example.Rollout.Routes.AdminOnly.{serve_http-IsReleasable}
use enisa_sbd_example.Rollout.History.{Post, create_all}
use enisa_sbd_example.Rollout.History.Descends.{DescendsIn, create_all-DescendsIn}
use enisa_sbd_example.Rollout.Cdn.{Url, HttpPublisher, PublishRequest, publish}
use enisa_sbd_example.Rollout.Cdn.Published.{IsPublished, publish_iff}
use enisa_sbd_example.Tests.Data.{acme, admin, admin_tokens, sum_stub}
use enisa_sbd_example.Tests.Releases.{release, key, decode_stub, verify_stub, request, world}

abbrev pub body_stub : ℕ → Bytes → Manifest × Bool
body_stub limit body = (release, true)

abbrev pub takes_all : Manifest → Bool
takes_all m = true

abbrev pub no_conflicts : List Bytes → Bytes → Bool
no_conflicts ps p = false

abbrev select_create : List Bytes → Bytes → Option Bytes
select_create ps target = some (codes "POST /api/rollouts")

abbrev pub unrouted : Request → Response
unrouted r = deny status_forbidden

abbrev pub post : Request
post = record request { authorization = codes "Bearer s3cret" }

abbrev pub tokens : Option Tokens
tokens = some admin_tokens

-- The routes over a publisher.
abbrev pub router_over : (Manifest → Bool) → Router World
router_over accepts = record {
  mux =
      (
        codes "POST /api/rollouts",
        guard sum_stub tokens admin_only
            (create decode_stub verify_stub body_stub accepts key (pos 9)),
      )
      ∷ (codes "GET /api/rollouts", guard sum_stub tokens admin_only list_rollouts)
      ∷ (codes "GET /healthz", health)
      ∷ [];
  tokens = tokens;
  routes =
      record { pattern = codes "POST /api/rollouts"; allow = admin_only; is_public = false }
      ∷ record { pattern = codes "GET /api/rollouts"; allow = admin_only; is_public = false }
      ∷ record { pattern = codes "GET /healthz"; allow = []; is_public = true }
      ∷ [];
}

abbrev pub release_router : Router World
release_router = router_over takes_all

pub release_router-built :
    rollout_handler decode_stub verify_stub body_stub takes_all sum_stub no_conflicts tokens key
      (pos 9)
    ≡ ok release_router
unfolding rollout_handler handle handle_public new_router is_valid_role text_eq
release_router-built = refl

abbrev answered : Response × World
answered = serve_http select_create unrouted release_router post world

serve_http-IsReleasable_example :
    (answered.1 ≡ world)
    ⊎ ((id : Identity) × IsAdmitted sum_stub tokens admin_only post id
        × (id.role ≡ role_admin)
        × ((answered.1.sent ≡ world.sent)
            ⊎ ((m : Manifest) × (answered.1.sent ≡ world.sent ++ m ∷ [])
                × IsReleasable decode_stub verify_stub body_stub takes_all key
                    (some id)
                    post
                    world
                    m)))
serve_http-IsReleasable_example =
    serve_http-IsReleasable decode_stub verify_stub body_stub takes_all sum_stub no_conflicts tokens
      key (pos 9) select_create unrouted release_router post world release_router-built

-- The same release twice.
abbrev pub posts : List Post
posts =
    record { now = pos 9; ctx = some admin; request = request }
    ∷ record { now = pos 10; ctx = some admin; request = request }
    ∷ []

no_versions : DescendsIn world.store
no_versions org = tt

create_all-DescendsIn_example :
    DescendsIn (create_all decode_stub verify_stub body_stub takes_all key world posts).store
create_all-DescendsIn_example =
    create_all-DescendsIn decode_stub verify_stub body_stub takes_all key world posts no_versions

abbrev pub later_release : Manifest
later_release = record release { version = codes "1.3" }

pub below : IsBelow release.version later_release.version
unfolding parse_version split_dots parse_components parse_component atoi
below = record {
  low_parts = 1 ∷ 2 ∷ [];
  high_parts = 1 ∷ 3 ∷ [];
  low_parses = refl;
  high_parses = refl;
  lower = omega arith;
}

pub cleared_release : check_history world.store (org_scope acme) release ≡ cleared
unfolding check_history current_version audit org_of matching_entries
cleared_release = refl

pub cleared_later : check_history world.store (org_scope acme) later_release ≡ cleared
unfolding check_history current_version audit org_of matching_entries
cleared_later = refl

-- Stand-ins for the URL parser, the encoder and the CDN.
abbrev pub parse_stub : Bytes → Option Url
parse_stub s = some (record { scheme = codes "https"; host = codes "cdn" })

abbrev pub encode_stub : Manifest → Option Bytes
encode_stub m = some m.version

abbrev pub wellformed_stub : Bytes → Bytes → Bool
wellformed_stub method url = true

abbrev pub exchange_stub : PublishRequest → Option ℕ
exchange_stub req = some 201

abbrev pub cdn : HttpPublisher
cdn = record { base_url = codes "https://cdn"; token = codes "t0ken" }

publish_iff_example :
    ((publish encode_stub wellformed_stub exchange_stub cdn release).1 ≡ ok tt)
    ↔ IsPublished encode_stub wellformed_stub exchange_stub cdn release
        (publish encode_stub wellformed_stub exchange_stub cdn release).0
publish_iff_example = publish_iff encode_stub wellformed_stub exchange_stub cdn release
