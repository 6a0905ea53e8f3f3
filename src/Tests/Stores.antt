-- ===== src/Tests/Stores.antt =====
-- internal/store: runs of the store's methods.
use mathlib.Core.List.{Memᴰ}
use enisa_sbd_example.Common.{
  ◌≡◌, ◌↔◌, refl, List, [], ◌∷◌, some, codes, ok, lookup, insert, text_eq,
}
use enisa_sbd_example.Store.Model.{Device, empty_store}
use enisa_sbd_example.Store.Scope.{org_scope, org_of}
use enisa_sbd_example.Store.Writes.{enrol, enrol_all}
use enisa_sbd_example.Store.Invariant.{IsValid, enrols, Reach, here, next}
use enisa_sbd_example.Store.Invariant.Preserved.{Reach-IsValid}
use enisa_sbd_example.Store.Isolation.{SameView}
use enisa_sbd_example.Store.Isolation.Steps.{Reach-SameView}
use enisa_sbd_example.Store.Reads.{device, fleet}
use enisa_sbd_example.Store.Reads.Fleet.{IsFleet, fleet-IsFleet}
use enisa_sbd_example.Store.FleetFile.{DeviceFile}
use enisa_sbd_example.Store.FleetFile.Enrolled.{device-enrol_all_iff}
use enisa_sbd_example.Tests.Data.{acme, device_of_acme, device_of_globex, one_device, two_devices}

pub two_devices-Reach : Reach empty_store two_devices
unfolding empty_store enrol insert text_eq
two_devices-Reach = next (next here (enrols device_of_acme refl)) (enrols device_of_globex refl)

Reach-SameView_example : SameView one_device two_devices (org_scope acme)
unfolding enrol insert lookup text_eq
Reach-SameView_example =
    Reach-SameView acme (next here (enrols device_of_globex refl)) (tt, ((λ e. cc), tt))

Reach-IsValid_example : IsValid two_devices
Reach-IsValid_example = Reach-IsValid two_devices-Reach

fleet-IsFleet_example :
    (ds : List Device) × (fleet two_devices (org_scope acme) ≡ ok ds) × IsFleet two_devices acme ds
unfolding org_of
fleet-IsFleet_example =
    fleet-IsFleet two_devices (org_scope acme) acme (Reach-IsValid two_devices-Reach) refl

device-enrol_all_iff_example :
    ((enrol_all empty_store (device_of_acme ∷ [])).1 ≡ ok tt)
    × ((device (enrol_all empty_store (device_of_acme ∷ [])).0 (codes "d1") ≡ some device_of_acme)
        ↔ (Memᴰ device_of_acme (device_of_acme ∷ []) × (device_of_acme.id ≡ codes "d1")))
device-enrol_all_iff_example =
    device-enrol_all_iff (device_of_acme ∷ []) (codes "d1") device_of_acme
      (((λ e. cc), (λ e. cc)), tt) (tt, tt)

abbrev device_line : DeviceFile
device_line = record {
  id = codes "d1";
  org_id = acme;
  model = codes "m";
  firmware_version = codes "1.0";
}
