-- ===== src/Store/Invariant.antt =====
-- internal/store: what holds of the store between any two calls, and the calls that can happen.
pub mod Preserved
use enisa_sbd_example.Common.{
  ℕ, ◌≡◌, ◌≢◌, ◌≤◌, ◌+◌, ◌-◌, refl, sym, ap, List, [], ◌∷◌, ◌++◌, Option, none, some, Bool, true,
  false, Bytes, length, length-append, length-drop, All, All-append, All-drop, ltb, Bool-cases, inl,
  inr, Map, lookup, insert, lookup-insert, text_eq_refl, text_eq, text_eq_iff, Result, Result-cases,
  Option-cases, ok, err, arith, ◌==◌, ==_iff,
}
use enisa_sbd_example.Common.Maps.Keys.{
  HasDistinctKeys, insert-HasDistinctKeys, AllEntries, AllEntries-insert, AllEntries-lookup,
}
use enisa_sbd_example.Store.Model.{
  Time, Device, Reading, AuditEntry, Store, Error, empty_store, readings_of,
  max_readings_per_device,
}
use enisa_sbd_example.Store.Scope.{Scope, nil_scope, org_scope, org_of}
use enisa_sbd_example.Store.Writes.{
  enrol, record_reading, append_audit, newest_kept, stamp, stamp_entry,
}

abbrev pub IsEnrolled : Bytes → Device → Type 0
IsEnrolled k d = (d.id ≡ k) × (k ≢ []) × (d.org_id ≢ [])

-- The readings under a key: few enough, and all from that device.
abbrev pub IsRetained : Bytes → List Reading → Type 0
IsRetained k rs = (length rs ≤ max_readings_per_device) × All (λ r. r.device_id ≡ k) rs

abbrev pub HasOrg : AuditEntry → Type 0
HasOrg e = e.org_id ≢ []

pub record IsValid (s : Store) : Type 0 where
  pub distinct : HasDistinctKeys s.devices
  pub enrolled : AllEntries IsEnrolled s.devices
  pub retained : AllEntries IsRetained s.readings
  pub logged : All HasOrg s.audit

pub empty_store-IsValid : IsValid empty_store
unfolding empty_store
empty_store-IsValid = record { distinct = tt; enrolled = tt; retained = tt; logged = tt }

pub enrol-ok :
    (s s' : Store) (d : Device)
    → enrol s d ≡ ok s'
    → (d.id ≢ []) × (d.org_id ≢ []) × (s' ≡ record s { devices = insert d.id d s.devices })
unfolding enrol
enrol-ok s s' d h = ground arith

pub record_reading-ok :
    (s s' : Store) (now : Time) (id : Bytes) (r : Reading)
    → record_reading s now id r ≡ ok s'
    → (d : Device) × (lookup id s.devices ≡ some d)
      × (s' ≡ record s {
        devices = insert id (record d { last_seen = now }) s.devices;
        readings = insert id (newest_kept (readings_of s id ++ stamp id now r ∷ [])) s.readings;
      })
unfolding record_reading
record_reading-ok s s' now id r h = elim (Option-cases (lookup id s.devices)) [
  | inl missing ↦ ground arith
  | inr (d, found) ↦ (d, found, ground arith)
]

pub record_reading-known :
    (s : Store) (now : Time) (id : Bytes) (r : Reading) (d : Device)
    → lookup id s.devices ≡ some d
    → record_reading s now id r
      ≡ ok (record s {
        devices = insert id (record d { last_seen = now }) s.devices;
        readings = insert id (newest_kept (readings_of s id ++ stamp id now r ∷ [])) s.readings;
      })
unfolding record_reading
record_reading-known s now id r d here = ground arith

pub append_audit-ok :
    (s s' : Store) (now : Time) (sc : Scope) (e : AuditEntry)
    → append_audit s now sc e ≡ ok s'
    → (org : Bytes) × (org ≢ [])
      × (sc ≡ org_scope org)
      × (s' ≡ record s { audit = s.audit ++ stamp_entry org now e ∷ [] })
unfolding append_audit org_of
append_audit-ok s s' now nil_scope e h = cc
append_audit-ok s s' now (org_scope org) e h = (org, ground arith, refl, ground arith)

-- One call of a method that changes the store, and any number of them.
pub data Step (s : Store) (s' : Store) : Type 0 where
  enrols : (d : Device) → enrol s d ≡ ok s' → Step s s'
  records : (now : Time) (id : Bytes) (r : Reading) → record_reading s now id r ≡ ok s' → Step s s'
  logs : (now : Time) (sc : Scope) (e : AuditEntry) → append_audit s now sc e ≡ ok s' → Step s s'

pub data Reach (s : Store) : Store → Type 0 where
  here : Reach s s
  next : {t u : Store} → Reach s t → Step t u → Reach s u
