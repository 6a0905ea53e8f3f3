-- ===== src/Tests/Calls.antt =====
-- internal/store: a client's calls, and their answers.
use enisa_sbd_example.Common.{◌≡◌, ◌↔◌, List, [], ◌∷◌, none, some, codes, pos}
use enisa_sbd_example.Store.Model.{empty_store, no_scope, unknown_device}
use enisa_sbd_example.Store.Scope.{org_scope, nil_scope}
use enisa_sbd_example.Store.Writes.{stamp}
use enisa_sbd_example.Store.Calls.{
  Call, enrolling, recording, logging, asking_fleet, asking_readings, Answer, done, refused,
  devices, rows, calls,
}
use enisa_sbd_example.Store.Spec.{no_rows, Meets}
use enisa_sbd_example.Store.Spec.Refined.{calls-Meets}
use enisa_sbd_example.Tests.Data.{
  acme, globex, device_of_acme, device_of_globex, reading_20, attempt,
}

-- Two devices and a reading, and what their organisations and nobody are shown.
abbrev client : List Call
client =
    enrolling device_of_acme
    ∷ enrolling device_of_globex
    ∷ recording (pos 7) (codes "d1") reading_20
    ∷ recording (pos 8) (codes "d3") reading_20
    ∷ logging (pos 9) (org_scope acme) attempt
    ∷ asking_readings (org_scope acme) (codes "d1") (pos 5)
    ∷ asking_readings (org_scope globex) (codes "d1") (pos 5)
    ∷ asking_fleet (org_scope globex)
    ∷ asking_fleet nil_scope
    ∷ []

abbrev replies : List Answer
replies =
    done
    ∷ done
    ∷ done
    ∷ refused unknown_device
    ∷ done
    ∷ rows (some (stamp (codes "d1") (pos 7) reading_20 ∷ []))
    ∷ rows none
    ∷ devices (device_of_globex ∷ [])
    ∷ refused no_scope
    ∷ []

calls-Meets_example : Meets no_rows client replies ↔ (replies ≡ (calls empty_store client).1)
calls-Meets_example = calls-Meets client replies
