-- ===== src/Tests/Concurrent.antt =====
-- internal/rollout: requests that are handled at once, and the history that is then shown.
use enisa_sbd_example.Common.{◌≡◌, refl, true, List, [], ◌∷◌, ◌++◌, some, pos, ok, get_elem?, arith}
use enisa_sbd_example.Store.Scope.{org_scope}
use enisa_sbd_example.Http.{Response}
use enisa_sbd_example.Rollout.Server.{World, current_version, check_history, not_newer}
use enisa_sbd_example.Rollout.Concurrent.{
  Phase, arrived, verified, answered, accepted_response, Turn, arrives, goes_on, turns,
}
use enisa_sbd_example.Rollout.Concurrent.Answered.{turns-answered}
use enisa_sbd_example.Rollout.Concurrent.Serial.{serial, all_answered, turns-serial}
use enisa_sbd_example.Rollout.History.{create_all}
use enisa_sbd_example.Rollout.Concurrent.Grown.{HasGrown}
use enisa_sbd_example.Rollout.Concurrent.Sound.{turns-HasGrown}
use enisa_sbd_example.Rollout.Concurrent.Race.{overtaking, catching_up, turns-race}
use enisa_sbd_example.Tests.Data.{acme, admin}
use enisa_sbd_example.Tests.Releases.{release, key, decode_stub, verify_stub, request, world}
use enisa_sbd_example.Tests.Publishing.{
  body_stub, takes_all, later_release, below, cleared_release, cleared_later, posts,
}

-- Two requests, of which the second begins before the first is answered.
abbrev two_requests : List Turn
two_requests =
    arrives (some admin) request
    ∷ goes_on (pos 9) true 0
    ∷ arrives (some admin) request
    ∷ goes_on (pos 9) true 1
    ∷ goes_on (pos 9) true 0
    ∷ goes_on (pos 9) true 1
    ∷ goes_on (pos 9) true 0
    ∷ goes_on (pos 10) true 0
    ∷ []

turns-HasGrown_example :
    HasGrown decode_stub verify_stub body_stub key world
      (turns decode_stub verify_stub body_stub key (world, []) two_requests).0
turns-HasGrown_example = turns-HasGrown decode_stub verify_stub body_stub key world two_requests

turns-answered_example :
    (res : Response) × (get_elem?
        (turns decode_stub verify_stub body_stub key
          (world, arrived (some admin) request ∷ [])
          two_requests).1
        0
      ≡ some (answered res))
turns-answered_example =
    turns-answered decode_stub verify_stub body_stub key world (arrived (some admin) request ∷ [])
      two_requests 0 (arrived (some admin) request) refl (omega arith)

abbrev midway : World × List Phase
midway =
    turns decode_stub verify_stub body_stub key
      (
        world,
        verified admin (org_scope acme) release
            ∷ verified admin (org_scope acme) later_release
            ∷ [],
      )
      (overtaking (pos 9))

abbrev end : World × List Phase
end = turns decode_stub verify_stub body_stub key midway (catching_up (pos 9))

turns-race_example :
    (current_version midway.0.store (org_scope acme) ≡ ok later_release.version)
    × (check_history midway.0.store (org_scope acme) release ≡ not_newer)
    × (current_version end.0.store (org_scope acme) ≡ ok release.version)
    × (end.0.sent ≡ (world.sent ++ later_release ∷ []) ++ release ∷ [])
    × (end.1
        ≡ answered (accepted_response release) ∷ answered (accepted_response later_release) ∷ [])
turns-race_example =
    turns-race decode_stub verify_stub body_stub key world (pos 9) admin release later_release
      (λ e. cc) cleared_release cleared_later below

turns-serial_example :
    turns decode_stub verify_stub body_stub key
      (world, [])
      (serial decode_stub verify_stub body_stub key takes_all 0 posts)
    ≡ (
      create_all decode_stub verify_stub body_stub takes_all key world posts,
      all_answered decode_stub verify_stub body_stub key takes_all world posts,
    )
turns-serial_example = turns-serial decode_stub verify_stub body_stub key takes_all world posts
