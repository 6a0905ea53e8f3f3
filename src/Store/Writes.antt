-- ===== src/Store/Writes.antt =====
-- internal/store/store.go and fleet.go: the methods that change the store.
pub mod Seen
use enisa_sbd_example.Common.{
  ℕ, ◌-◌, ◌||◌, List, [], ◌∷◌, ◌++◌, none, some, Bytes, length, drop, ltb, ◌==◌, if◌then◌else◌, Map,
  lookup, insert, is_zero, Result, ok, err, ◌>>=◌, ◌>>◌, refuse_if,
}
use enisa_sbd_example.Store.Model.{
  Time, Device, Reading, AuditEntry, Store, Error, unknown_device, invalid_device, readings_of,
  max_readings_per_device,
}
use enisa_sbd_example.Store.Scope.{Scope, org_of}

unfoldable pub enrol : Store → Device → Result Error Store
enrol s d = do
  refuse_if (length d.id == 0 || length d.org_id == 0) invalid_device
  ok (record s { devices = insert d.id d s.devices })

-- The newest readings that are kept: `rs[len(rs)-maxReadingsPerDevice:]` above the bound.
abbrev pub newest_kept : List Reading → List Reading
newest_kept rs =
    if ltb max_readings_per_device (length rs)
    then drop (length rs - max_readings_per_device) rs
    else rs

abbrev pub stamp : Bytes → Time → Reading → Reading
stamp device_id now r = record r { device_id = device_id; received_at = now }

unfoldable pub record_reading : Store → Time → Bytes → Reading → Result Error Store
record_reading s now device_id r = elim (lookup device_id s.devices) [
  | none ↦ err unknown_device
  | some d ↦ ok (record s {
    devices = insert device_id (record d { last_seen = now }) s.devices;
    readings =
        insert device_id (newest_kept (readings_of s device_id ++ stamp device_id now r ∷ []))
          s.readings;
  })
]

-- The entry as it is stored.
abbrev pub stamp_entry : Bytes → Time → AuditEntry → AuditEntry
stamp_entry org now e = record e { org_id = org; at = if is_zero e.at then now else e.at }

unfoldable pub append_audit : Store → Time → Scope → AuditEntry → Result Error Store
append_audit s now sc e = do
  org ← org_of sc
  ok (record s { audit = s.audit ++ stamp_entry org now e ∷ [] })

-- The first error ends the loop; the devices before it stay enrolled.
unfoldable pub enrol_all : Store → List Device → Store × Result Error (Unit {0})
enrol_all s [] = (s, ok tt)
enrol_all s (d ∷ ds) = elim (enrol s d) [ err e ↦ (s, err e) | ok s' ↦ enrol_all s' ds ]
