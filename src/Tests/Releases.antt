-- ===== src/Tests/Releases.antt =====
-- internal/rollout: runs of the version comparison and of the handlers.
use enisa_sbd_example.Common.{
  ℕ, ◌≡◌, ◌↔◌, ◌⊎◌, refl, Bool, true, List, [], ◌∷◌, ◌++◌, Bytes, Option, some, codes, ok, pos,
}
use enisa_sbd_example.Rollout.Version.{
  parse_version, compare_versions, split_dots, parse_components, parse_component,
}
use enisa_sbd_example.Common.Strings.Atoi.{atoi}
use enisa_sbd_example.Rollout.Version.Order.{rank, order_of, compare_versions-rank}
use enisa_sbd_example.Rollout.Manifest.{Manifest, verify}
use enisa_sbd_example.Rollout.Manifest.Verified.{IsVerified, verify_iff}
use enisa_sbd_example.Rollout.Server.{World, create}
use enisa_sbd_example.Rollout.Server.Sent.{IsReleasable, create-sent}
use enisa_sbd_example.Rollout.Server.Logged.{IsLogged, IsUnlogged, create-IsLogged}
use enisa_sbd_example.Http.{Request}
use enisa_sbd_example.Tests.Data.{admin, one_device, zeros, blanks}

abbrev pub release : Manifest
release = record {
  version = codes "1.2";
  digest = codes "sha256:" ++ zeros 64;
  signature = codes "c2ln";
}

abbrev pub key : Bytes
key = blanks 32

-- Stand-ins: every text decodes to 64 bytes, and every signature verifies.
abbrev pub decode_stub : Bytes → Option Bytes
decode_stub _ = some (blanks 64)

abbrev pub verify_stub : Bytes → Bytes → Bytes → Bool
verify_stub _ _ _ = true

abbrev pub request : Request
request = record {
  target = codes "/rollouts";
  authorization = [];
  path_id = [];
  query_limit = [];
  body = codes "{}";
}

abbrev pub world : World
world = record { store = one_device; sent = [] }

abbrev parsed : List ℕ
parsed = 1 ∷ 10 ∷ []

verify_iff_example :
    (verify decode_stub verify_stub release key ≡ ok tt)
    ↔ IsVerified decode_stub verify_stub release key
verify_iff_example = verify_iff decode_stub verify_stub release key

create-sent_example :
    ((create decode_stub verify_stub
        (λ n b. (release, true))
        (λ m. true)
        key
        (pos 9)
        (some admin)
        request
        world).1.sent
      ≡ world.sent)
    ⊎ ((m : Manifest) × ((create decode_stub verify_stub
            (λ n b. (release, true))
            (λ m. true)
            key
            (pos 9)
            (some admin)
            request
            world).1.sent
          ≡ world.sent ++ m ∷ [])
        × IsReleasable decode_stub verify_stub
            (λ n b. (release, true))
            (λ m. true)
            key
            (some admin)
            request
            world
            m)
create-sent_example =
    create-sent decode_stub verify_stub (λ n b. (release, true)) (λ m. true) key (pos 9)
      (some admin) request world

compare_versions-rank_example :
    compare_versions (codes "1.10") (codes "1.9.5")
    ≡ ok (order_of (rank (1 ∷ 10 ∷ [])) (rank (1 ∷ 9 ∷ 5 ∷ [])))
unfolding parse_version split_dots parse_components parse_component atoi
compare_versions-rank_example =
    compare_versions-rank (codes "1.10") (codes "1.9.5") (1 ∷ 10 ∷ []) (1 ∷ 9 ∷ 5 ∷ []) refl refl

create-IsLogged_example :
    IsUnlogged world (
      create decode_stub verify_stub
        (λ n b. (release, true))
        (λ m. true)
        key
        (pos 9)
        (some admin)
        request
        world)
    ⊎ IsLogged world (pos 9) (some admin) release.version (
        create decode_stub verify_stub
          (λ n b. (release, true))
          (λ m. true)
          key
          (pos 9)
          (some admin)
          request
          world)
create-IsLogged_example =
    create-IsLogged decode_stub verify_stub (λ n b. (release, true)) (λ m. true) key (pos 9)
      (some admin) request world

-- A sign in front of a component is taken.
plus_sign : parse_version (codes "+1.-0") ≡ ok (1 ∷ 0 ∷ [])
unfolding parse_version split_dots parse_components parse_component atoi
plus_sign = refl
