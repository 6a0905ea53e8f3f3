-- ===== src/Store/FleetFile/Checked.antt =====
-- internal/store/fleet.go: which files `LoadFleet` accepts, and what it returns.
use mathlib.Core.List.{map, cons-ne-nil}
use enisa_sbd_example.Common.{
  ◌≡◌, ◌≢◌, sym, subst, ◌∙◌, List, [], ◌∷◌, ◌++◌, append_assoc, append-nil, Option, some, Bool,
  Bytes, true, false, text_eq_iff, All, Map, insert, lookup-insert, ok, arith,
}
use enisa_sbd_example.Store.Model.{Device}
use enisa_sbd_example.Store.FleetFile.{
  DeviceFile, device_of, was_seen, check_devices, fleet_of, load_fleet,
}
use enisa_sbd_example.Store.Reads.Sorted.{IsDistinct}

abbrev pub IsComplete : Device → Type 0
IsComplete d = (d.id ≢ []) × (d.org_id ≢ [])

-- One successful round.
check_devices-cons :
    (seen : Map Bool) (out res : List Device) (d : DeviceFile) (ds : List DeviceFile)
    → check_devices seen out (d ∷ ds) ≡ ok res
    → IsComplete (device_of d)
      × (was_seen d.id seen ≡ false)
      × (check_devices (insert d.id true seen) (out ++ device_of d ∷ []) ds ≡ ok res)
unfolding check_devices
check_devices-cons seen out res d ds h = ground arith

-- None of the devices was seen.
abbrev AreNew : Map Bool → List Device → Type 0
AreNew seen = All (λ d. was_seen d.id seen ≡ false)

AreNew-of_insert :
    (seen : Map Bool) (d : Device) (ds : List Device)
    → AreNew (insert d.id true seen) ds
    → AreNew seen ds × All (λ e. e.id ≢ d.id) ds
AreNew-of_insert seen d [] _ = (tt, tt)
AreNew-of_insert seen d (e ∷ ds) (h, hs) =
    let (new, differ) = AreNew-of_insert seen d ds hs in
    let (n, ne) = here in ((n, new), (ne, differ))
  where
    here : (was_seen e.id seen ≡ false) × (e.id ≢ d.id)
    here =
        ground
          (arith, lookup-insert d.id e.id true seen, text_eq_iff d.id e.id, text_eq_iff e.id d.id)

check_devices_sound :
    (seen : Map Bool) (out res : List Device) (ds : List DeviceFile)
    → check_devices seen out ds ≡ ok res
    → (res ≡ out ++ map device_of ds)
      × All IsComplete (map device_of ds)
      × IsDistinct (map device_of ds)
      × AreNew seen (map device_of ds)
check_devices_sound seen out res [] h =
    (unfold check_devices in ground (arith, append-nil out), tt, tt, tt)
check_devices_sound seen out res (d ∷ ds) h =
    let (complete, new, later) = check_devices-cons seen out res d ds h in
    let (same, completes, distinct, news) =
      check_devices_sound (insert d.id true seen) (out ++ device_of d ∷ []) res ds later in
    let (old, differ) = AreNew-of_insert seen (device_of d) (map device_of ds) news in
    (
      same ∙ append_assoc out (device_of d ∷ []) (map device_of ds),
      (complete, completes),
      (differ, distinct),
      (new, old),
    )

fleet_of_sound :
    (ds : List DeviceFile) (res : List Device)
    → fleet_of ds ≡ ok res
    → (ds ≢ []) × (res ≡ map device_of ds) × All IsComplete res × IsDistinct res
unfolding fleet_of
fleet_of_sound [] res h = cc
fleet_of_sound (d ∷ ds) res h =
    let (same, complete, distinct, _) = check_devices_sound [] [] res (d ∷ ds) h in
    (
      cons-ne-nil d ds,
      same,
      subst (All IsComplete) (sym same) complete,
      subst IsDistinct (sym same) distinct,
    )

-- `LoadFleet` succeeds only on a file with at least one device, in which every device has an id and
-- an organisation and no id occurs twice; it returns the file's devices in the file's order, none of
-- them seen yet.
pub load_fleet_sound :
    (read_file : Bytes → Option Bytes) (parse : Bytes → Option (List DeviceFile)) (path raw : Bytes)
    (ds : List DeviceFile) (res : List Device)
    → read_file path ≡ some raw
    → parse raw ≡ some ds
    → load_fleet read_file parse path ≡ ok res
    → (ds ≢ []) × (res ≡ map device_of ds) × All IsComplete res × IsDistinct res
unfolding load_fleet
load_fleet_sound read_file parse path raw ds res hr hp h = fleet_of_sound ds res (ground arith)
