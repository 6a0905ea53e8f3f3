-- ===== src/Store/Invariant/Preserved.antt =====
-- internal/store: every method that changes the store keeps the invariant.
use enisa_sbd_example.Common.{
  ◌≡◌, ◌-◌, refl, List, [], ◌∷◌, ◌++◌, Bytes, length, length-drop, All, All-append, All-drop, ltb,
  Bool-cases, inl, inr, lookup, Option-cases, ok, arith,
}
use enisa_sbd_example.Common.Maps.Keys.{
  insert-HasDistinctKeys, AllEntries-insert, AllEntries-lookup,
}
use enisa_sbd_example.Store.Model.{
  Time, Device, Reading, AuditEntry, Store, empty_store, readings_of, max_readings_per_device,
}
use enisa_sbd_example.Store.Scope.{Scope}
use enisa_sbd_example.Store.Writes.{
  enrol, record_reading, append_audit, newest_kept, stamp, stamp_entry,
}
use enisa_sbd_example.Store.Invariant.{
  IsEnrolled, IsRetained, HasOrg, IsValid, empty_store-IsValid, enrol-ok, record_reading-ok,
  append_audit-ok, Step, enrols, records, logs, Reach, here, next,
}

enrol-IsValid : (s s' : Store) (d : Device) → IsValid s → enrol s d ≡ ok s' → IsValid s'
enrol-IsValid s s' d v h =
    let (id, org, e) = enrol-ok s s' d h in
    rw e (record {
      distinct = insert-HasDistinctKeys d.id d s.devices v.distinct;
      enrolled = AllEntries-insert IsEnrolled d.id d s.devices v.enrolled (refl, id, org);
      retained = v.retained;
      logged = v.logged;
    })

-- At most the bound is kept, and what is kept was there.
newest_kept-IsRetained :
    (k : Bytes) (rs : List Reading) → All (λ r. r.device_id ≡ k) rs → IsRetained k (newest_kept rs)
newest_kept-IsRetained k rs h = elim (Bool-cases (ltb max_readings_per_device (length rs))) [
  | inl long ↦ rw long (
    omega (arith, length-drop (length rs - max_readings_per_device) rs),
    All-drop (λ r. r.device_id ≡ k) (length rs - max_readings_per_device) rs h,
  )
  | inr short ↦ rw short (ground arith, h)
]

readings_of-IsRetained :
    (s : Store) (k : Bytes) → IsValid s → All (λ r. r.device_id ≡ k) (readings_of s k)
readings_of-IsRetained s k v = elim (Option-cases (lookup k s.readings)) [
  | inl missing ↦ rw missing tt
  | inr (rs, found) ↦ rw found (AllEntries-lookup IsRetained k rs s.readings v.retained found).1
]

record_reading-IsValid :
    (s s' : Store) (now : Time) (id : Bytes) (r : Reading)
    → IsValid s
    → record_reading s now id r ≡ ok s'
    → IsValid s'
record_reading-IsValid s s' now id r v h =
    let (d, found, e) = record_reading-ok s s' now id r h in
    let old = AllEntries-lookup IsEnrolled id d s.devices v.enrolled found in
    rw e (record {
      distinct = insert-HasDistinctKeys id (record d { last_seen = now }) s.devices v.distinct;
      enrolled =
          AllEntries-insert IsEnrolled id (record d { last_seen = now }) s.devices v.enrolled old;
      retained = AllEntries-insert IsRetained id _ s.readings v.retained (
          newest_kept-IsRetained id (readings_of s id ++ stamp id now r ∷ []) (
            All-append (λ r. r.device_id ≡ id) (readings_of s id) (stamp id now r ∷ [])
              (readings_of-IsRetained s id v) (refl, tt)));
      logged = v.logged;
    })

append_audit-IsValid :
    (s s' : Store) (now : Time) (sc : Scope) (e : AuditEntry)
    → IsValid s
    → append_audit s now sc e ≡ ok s'
    → IsValid s'
append_audit-IsValid s s' now sc e v h =
    let (org, has_org, _, same) = append_audit-ok s s' now sc e h in
    rw same (record {
      distinct = v.distinct;
      enrolled = v.enrolled;
      retained = v.retained;
      logged = All-append HasOrg s.audit (stamp_entry org now e ∷ []) v.logged (has_org, tt);
    })

pub Step-IsValid : {s s' : Store} → Step s s' → IsValid s → IsValid s'
Step-IsValid {s} {s'} (enrols d h) v = enrol-IsValid s s' d v h
Step-IsValid {s} {s'} (records now id r h) v = record_reading-IsValid s s' now id r v h
Step-IsValid {s} {s'} (logs now sc e h) v = append_audit-IsValid s s' now sc e v h

Reach-IsValid_from : {s t : Store} → IsValid s → Reach s t → IsValid t
Reach-IsValid_from v here = v
Reach-IsValid_from v (next r st) = Step-IsValid st (Reach-IsValid_from v r)

-- In every store that calls of the methods can lead to from an empty one: each device is held once,
-- under its own non-empty id and with an organisation; each device has at most 1024 readings, all of
-- them stamped with its id; and each audit entry carries an organisation.
pub Reach-IsValid : {s : Store} → Reach empty_store s → IsValid s
Reach-IsValid r = Reach-IsValid_from empty_store-IsValid r
