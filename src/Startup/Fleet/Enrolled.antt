-- ===== src/Startup/Fleet/Enrolled.antt =====
-- cmd/ingest and cmd/dashboard: what the store holds that a service starts with.
use mathlib.Core.List.{Memᴰ}
use enisa_sbd_example.Common.{
  ◌≡◌, ◌↔◌, inl, inr, subst, List, [], ◌∷◌, Option, some, Option-cases, Bytes, All, Result, ok, err,
  Result-cases, bind-ok, map_err, map_err-ok, arith,
}
use enisa_sbd_example.Store.Model.{Device, Store, empty_store}
use enisa_sbd_example.Store.Model
use enisa_sbd_example.Store.Writes.{enrol, enrol_all}
use enisa_sbd_example.Store.Reads.{device}
use enisa_sbd_example.Store.Reads.Sorted.{IsDistinct}
use enisa_sbd_example.Store.Invariant.{IsValid, Reach, here, next, enrols}
use enisa_sbd_example.Store.Invariant.Preserved.{Reach-IsValid}
use enisa_sbd_example.Store.FleetFile.{DeviceFile, load_fleet}
use enisa_sbd_example.Store.FleetFile.Checked.{IsComplete, load_fleet_sound}
use enisa_sbd_example.Store.FleetFile.Enrolled.{device-enrol_all_iff}
use enisa_sbd_example.Startup.Fleet.{bad_file, enrolled_store, fleet_store}

enrol_all-Reach :
    (s : Store) (ds : List Device) → Reach empty_store s → Reach empty_store (enrol_all s ds).0
unfolding enrol_all
enrol_all-Reach s [] r = r
enrol_all-Reach s (d ∷ ds) r = elim (Result-cases (enrol s d)) [
  | inr (e, refused) ↦ rw (refused, enrol_all) r
  | inl (s', done) ↦ rw (done, enrol_all) (enrol_all-Reach s' ds (next r (enrols d done)))
]

enrolled_store-eq :
    (p : Store × Result Model.Error (Unit {0})) (s : Store) → enrolled_store p ≡ ok s → p.0 ≡ s
enrolled_store-eq (t, ok tt) s h = cc
enrolled_store-eq (t, err e) s h = cc

-- The devices of the file, each found by its id and no others, in a store that satisfies the
-- invariant.
pub record IsFleetStore (read_file : Bytes → Option Bytes)
    (parse : Bytes → Option (List DeviceFile)) (path : Bytes) (s : Store) : Type 0 where
  pub devices : List Device
  pub loaded : load_fleet read_file parse path ≡ ok devices
  pub enrolled : (k : Bytes) (d : Device) → (device s k ≡ some d) ↔ (Memᴰ d devices × (d.id ≡ k))
  pub is_valid : IsValid s

load_fleet-checked :
    (read_file : Bytes → Option Bytes) (parse : Bytes → Option (List DeviceFile)) (path : Bytes)
    (res : List Device)
    → load_fleet read_file parse path ≡ ok res
    → All IsComplete res × IsDistinct res
unfolding load_fleet
load_fleet-checked read_file parse path res h = elim (Option-cases (read_file path)) [
  | inl absent ↦ ground arith
  | inr (raw, read) ↦ elim (Option-cases (parse raw)) [
    | inl bad ↦ ground arith
    | inr (ds, parsed) ↦
        let (_, _, complete, distinct) =
          load_fleet_sound read_file parse path raw ds res read parsed h in
        (complete, distinct)
  ]
]

pub fleet_store-IsFleetStore :
    (read_file : Bytes → Option Bytes) (parse : Bytes → Option (List DeviceFile)) (path : Bytes)
    (s : Store)
    → fleet_store read_file parse path ≡ ok s
    → IsFleetStore read_file parse path s
unfolding fleet_store
fleet_store-IsFleetStore read_file parse path s h =
    let (devices, h₁, h₂) = bind-ok (map_err bad_file (load_fleet read_file parse path)) _ h in
    let loaded = map_err-ok bad_file _ h₁ in
    let same = enrolled_store-eq (enrol_all empty_store devices) s h₂ in
    let (complete, distinct) = load_fleet-checked read_file parse path devices loaded in
    record {
      devices = devices;
      loaded = loaded;
      enrolled = λ k d.
          subst (λ t. (device t k ≡ some d) ↔ (Memᴰ d devices × (d.id ≡ k))) same
            (device-enrol_all_iff devices k d complete distinct).1;
      is_valid = subst IsValid same (Reach-IsValid (enrol_all-Reach empty_store devices here));
    }
