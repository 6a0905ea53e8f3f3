-- ===== src/Store/Calls.antt =====
-- internal/store/store.go: the exported methods of a store as calls with answers, so that a client's
-- use of a store is a list of calls. A call that fails leaves the store as it was.
use enisa_sbd_example.Common.{List, [], ◌∷◌, Option, Bytes, ℤ, Result, ok, err}
use enisa_sbd_example.Store.Model.{Time, Device, Reading, AuditEntry, Store, Error}
use enisa_sbd_example.Store.Scope.{Scope}
use enisa_sbd_example.Store.Writes.{enrol, record_reading, append_audit}
use enisa_sbd_example.Store.Reads.{device, fleet, readings, audit}

pub data Call : Type 0 where
  enrolling : Device → Call
  recording : Time → Bytes → Reading → Call
  logging : Time → Scope → AuditEntry → Call
  asking_device : Bytes → Call
  asking_fleet : Scope → Call
  asking_readings : Scope → Bytes → ℤ → Call
  asking_audit : Scope → Bytes → Call

pub data Answer : Type 0 where
  done : Answer
  refused : Error → Answer
  one_device : Option Device → Answer
  devices : List Device → Answer
  rows : Option (List Reading) → Answer
  entries : List AuditEntry → Answer

-- What a method that writes returns.
abbrev pub written : Store → Result Error Store → Store × Answer
written s (ok t) = (t, done)
written s (err e) = (s, refused e)

-- What a method that reads returns.
abbrev pub answer_of {ℓ} : {A : Type ℓ} → (A → Answer) → Result Error A → Answer
answer_of shown (ok x) = shown x
answer_of shown (err e) = refused e

unfoldable pub call : Store → Call → Store × Answer
call s (enrolling d) = written s (enrol s d)
call s (recording now id r) = written s (record_reading s now id r)
call s (logging now sc e) = written s (append_audit s now sc e)
call s (asking_device id) = (s, one_device (device s id))
call s (asking_fleet sc) = (s, answer_of devices (fleet s sc))
call s (asking_readings sc id limit) = (s, answer_of rows (readings s sc id limit))
call s (asking_audit sc prefix) = (s, answer_of entries (audit s sc prefix))

-- Calls one after the other: the store at the end, and the answers in order.
unfoldable pub calls : Store → List Call → Store × List Answer
calls s [] = (s, [])
calls s (c ∷ cs) = let (t, a) = call s c in let (u, more) = calls t cs in (u, a ∷ more)
