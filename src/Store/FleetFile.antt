-- ===== src/Store/FleetFile.antt =====
-- internal/store/fleet.go: the file of enrolled devices.
pub mod Enrolled
pub mod Checked
use enisa_sbd_example.Common.{
  ◌||◌, List, [], ◌∷◌, ◌++◌, Option, none, some, Bool, true, false, Bytes, length, ◌==◌, Map,
  lookup, insert, pos, Result, ok, err, ◌>>=◌, ◌>>◌, refuse_if,
}
use enisa_sbd_example.Store.Model.{Device}

pub record DeviceFile : Type 0 where
  pub id : Bytes
  pub org_id : Bytes
  pub model : Bytes
  pub firmware_version : Bytes

pub data FileError : Type 0 where
  unreadable unparsable no_devices missing_field enrolled_twice : FileError

abbrev pub device_of : DeviceFile → Device
device_of d = record {
  id = d.id;
  org_id = d.org_id;
  model = d.model;
  firmware_version = d.firmware_version;
  last_seen = pos 0;
}

abbrev pub or_false : Option Bool → Bool
or_false none = false
or_false (some b) = b

-- `seen[id]`, which is false for a missing key.
abbrev pub was_seen : Bytes → Map Bool → Bool
was_seen id seen = or_false (lookup id seen)

-- The loop, over the devices that are left.
unfoldable pub check_devices :
    Map Bool → List Device → List DeviceFile → Result FileError (List Device)
check_devices seen out [] = ok out
check_devices seen out (d ∷ ds) = do
  refuse_if (length d.id == 0 || length d.org_id == 0) missing_field
  refuse_if (was_seen d.id seen) enrolled_twice
  check_devices (insert d.id true seen) (out ++ device_of d ∷ []) ds

unfoldable pub fleet_of : List DeviceFile → Result FileError (List Device)
fleet_of [] = err no_devices
fleet_of (d ∷ ds) = check_devices [] [] (d ∷ ds)

-- Reading the file and parsing its JSON are given: `none` is their failure.
unfoldable pub load_fleet :
    (Bytes → Option Bytes)
    → (Bytes → Option (List DeviceFile))
    → Bytes
    → Result FileError (List Device)
load_fleet read_file parse path = elim (read_file path) [
  | none ↦ err unreadable
  | some raw ↦ elim (parse raw) [ none ↦ err unparsable | some ds ↦ fleet_of ds ]
]
