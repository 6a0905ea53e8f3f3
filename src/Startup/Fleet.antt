-- ===== src/Startup/Fleet.antt =====
-- cmd/ingest and cmd/dashboard: the store that a service starts with.
pub mod Enrolled
use enisa_sbd_example.Common.{List, Option, Bytes, Result, ok, err, map_err, ◌>>=◌}
use enisa_sbd_example.Store.Model.{Device, Store, empty_store}
use enisa_sbd_example.Store.Model
use enisa_sbd_example.Store.Writes.{enrol_all}
use enisa_sbd_example.Store.FleetFile.{DeviceFile, FileError, load_fleet}

pub data FleetError : Type 0 where
  bad_file : FileError → FleetError
  not_enrolled : Model.Error → FleetError

-- The store beside the error of `EnrolAll`.
abbrev pub enrolled_store : Store × Result Model.Error (Unit {0}) → Result FleetError Store
enrolled_store (s, ok tt) = ok s
enrolled_store (s, err e) = err (not_enrolled e)

-- A new store with the devices of a fleet file enrolled.
unfoldable pub fleet_store :
    (Bytes → Option Bytes) → (Bytes → Option (List DeviceFile)) → Bytes → Result FleetError Store
fleet_store read_file parse path = do
  devices ← map_err bad_file (load_fleet read_file parse path)
  enrolled_store (enrol_all empty_store devices)
