-- ===== src/Store/Spec/Held.antt =====
-- internal/store: when a store holds the rows of the specification.
use mathlib.Core.List.{reverse, reverse-append}
use enisa_sbd_example.Common.{
  ◌-◌, length-drop, ℕ, zero, suc, ◌≤◌, ◌≡◌, inl, inr, refl, sym, ap, ◌∙◌, List, [], ◌∷◌, ◌++◌,
  Option, some, Bytes, text_eq, Bool-cases, lookup, insert, lookup-insert, take, length, or_nil, ok,
  ℤ, arith,
}
use enisa_sbd_example.Store.Model.{
  Time, Device, Reading, AuditEntry, Store, empty_store, readings_of, max_readings_per_device,
}
use enisa_sbd_example.Store.Scope.{Scope}
use enisa_sbd_example.Store.Writes.{
  enrol, record_reading, append_audit, newest_kept, stamp, stamp_entry,
}
use enisa_sbd_example.Store.Writes.Seen.{take-newest_kept, reading_limit-le, length-reverse}
use enisa_sbd_example.Store.Invariant.{IsValid, enrols, records, logs, empty_store-IsValid}
use enisa_sbd_example.Store.Invariant.Preserved.{Step-IsValid}
use enisa_sbd_example.Store.Reads.{reading_limit}
use enisa_sbd_example.Store.Spec.{Rows, no_rows, put, enrolled, recorded, logged}

-- A store holds these rows: the devices and the log as they are, and the newest of the readings.
pub record Holds (s : Store) (w : Rows) : Type 0 where
  pub valid : IsValid s
  pub same_devices : (k : Bytes) → lookup k s.devices ≡ w.device_at k
  pub same_readings :
      (k : Bytes) → reverse (readings_of s k) ≡ take max_readings_per_device (w.readings_at k)
  pub same_log : reverse s.audit ≡ w.log

take-take : (n m : ℕ) (rs : List Reading) → n ≤ m → take n (take m rs) ≡ take n rs
take-take zero m rs h = refl
take-take (suc n) zero rs h = absurd (omega arith)
take-take (suc n) (suc m) [] h = refl
take-take (suc n) (suc m) (r ∷ rs) h = ap (◌∷◌ r) (take-take n m rs (omega arith))

-- The rows of `s`, with the newest of them limited again.
pub take-reverse :
    (s : Store) (w : Rows) (k : Bytes) (limit : ℤ)
    → Holds s w
    → take (reading_limit limit) (reverse (readings_of s k))
      ≡ take (reading_limit limit) (w.readings_at k)
take-reverse s w k limit h =
    ap (take (reading_limit limit)) (h.same_readings k)
    ∙ take-take (reading_limit limit) max_readings_per_device (w.readings_at k)
        (reading_limit-le limit)

lookup-insert-put {ℓ} :
    {V : Type ℓ} (k j : Bytes) (v : V) (m : List (Bytes × V)) (f : Bytes → Option V)
    → lookup j m ≡ f j
    → lookup j (insert k v m) ≡ put k (some v) f j
lookup-insert-put k j v m f h = rw (lookup-insert, h)

take_all : (n : ℕ) (rs : List Reading) → length rs ≤ n → take n rs ≡ rs
take_all zero [] h = refl
take_all zero (r ∷ rs) h = absurd (omega arith)
take_all (suc n) [] h = refl
take_all (suc n) (r ∷ rs) h = ap (◌∷◌ r) (take_all n rs (omega arith))

length-newest_kept :
    (rs : List Reading) → length (reverse (newest_kept rs)) ≤ max_readings_per_device
length-newest_kept rs =
    ground
      (arith, length-reverse (newest_kept rs), length-drop (length rs - max_readings_per_device) rs)

recorded-rows :
    (rs : List Reading) (r : Reading) (more : List Reading)
    → reverse rs ≡ take max_readings_per_device more
    → reverse (newest_kept (rs ++ r ∷ [])) ≡ take max_readings_per_device (r ∷ more)
recorded-rows rs r more h =
    sym (
      take_all max_readings_per_device (reverse (newest_kept (rs ++ r ∷ [])))
        (length-newest_kept (rs ++ r ∷ [])))
    ∙ take-newest_kept max_readings_per_device (rs ++ r ∷ []) (omega arith)
    ∙ ap (take max_readings_per_device) (reverse-append rs (r ∷ []) ∙ ap (◌∷◌ r) h)
    ∙ ap (◌∷◌ r) (take-take 1023 1024 more (omega arith))

pub enrolled-Holds :
    (s t : Store) (w : Rows) (d : Device)
    → Holds s w
    → enrol s d ≡ ok t
    → t ≡ record s { devices = insert d.id d s.devices }
    → Holds t (enrolled d w)
enrolled-Holds s t w d h e same = record {
  valid = Step-IsValid (enrols d e) h.valid;
  same_devices = λ k.
      ap (λ u. lookup k u.devices) same
      ∙ lookup-insert-put d.id k d s.devices w.device_at (h.same_devices k);
  same_readings = λ k. ap (λ u. reverse (readings_of u k)) same ∙ h.same_readings k;
  same_log = ap (λ u. reverse u.audit) same ∙ h.same_log;
}

-- The rows of one device after a reading was recorded for another or for itself.
recorded_at :
    (s : Store) (w : Rows) (id k : Bytes) (r : Reading)
    → Holds s w
    → reverse (or_nil (lookup k (insert id (newest_kept (readings_of s id ++ r ∷ [])) s.readings)))
      ≡ take max_readings_per_device (put id (r ∷ w.readings_at id) w.readings_at k)
recorded_at s w id k r h = elim (Bool-cases (text_eq id k)) [
  | inl same ↦
      rw (lookup-insert, same)
        (recorded-rows (readings_of s id) r (w.readings_at id) (h.same_readings id))
  | inr other ↦ rw (lookup-insert, other) (h.same_readings k)
]

pub recorded-Holds :
    (s t : Store) (w : Rows) (now : Time) (id : Bytes) (r : Reading) (d : Device)
    → Holds s w
    → record_reading s now id r ≡ ok t
    → t ≡ record s {
      devices = insert id (record d { last_seen = now }) s.devices;
      readings = insert id (newest_kept (readings_of s id ++ stamp id now r ∷ [])) s.readings;
    }
    → Holds t (recorded now id r d w)
recorded-Holds s t w now id r d h e same = record {
  valid = Step-IsValid (records now id r e) h.valid;
  same_devices = λ k.
      ap (λ u. lookup k u.devices) same
      ∙ lookup-insert-put id k (record d { last_seen = now }) s.devices w.device_at
          (h.same_devices k);
  same_readings =
      λ k. ap (λ u. reverse (readings_of u k)) same ∙ recorded_at s w id k (stamp id now r) h;
  same_log = ap (λ u. reverse u.audit) same ∙ h.same_log;
}

pub logged-Holds :
    (s t : Store) (w : Rows) (now : Time) (sc : Scope) (org : Bytes) (e : AuditEntry)
    → Holds s w
    → append_audit s now sc e ≡ ok t
    → t ≡ record s { audit = s.audit ++ stamp_entry org now e ∷ [] }
    → Holds t (logged org now e w)
logged-Holds s t w now sc org e h kept same = record {
  valid = Step-IsValid (logs now sc e kept) h.valid;
  same_devices = λ k. ap (λ u. lookup k u.devices) same ∙ h.same_devices k;
  same_readings = λ k. ap (λ u. reverse (readings_of u k)) same ∙ h.same_readings k;
  same_log =
      ap (λ u. reverse u.audit) same
      ∙ reverse-append s.audit (stamp_entry org now e ∷ [])
      ∙ ap (◌∷◌ (stamp_entry org now e)) h.same_log;
}

pub no_rows-Holds : Holds empty_store no_rows
unfolding empty_store lookup
no_rows-Holds = record {
  valid = empty_store-IsValid;
  same_devices = λ k. refl;
  same_readings = λ k. refl;
  same_log = refl;
}
