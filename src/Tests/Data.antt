-- ===== src/Tests/Data.antt =====
-- Devices, readings, stores and credentials that the tests share.
use enisa_sbd_example.Common.{ℕ, zero, suc, [], ◌∷◌, Bytes, codes, pos}
use enisa_sbd_example.Authn.Identity.{Entry, Identity, role_admin}
use enisa_sbd_example.Authn.Tokens.{Tokens}
use enisa_sbd_example.Store.Model.{Device, Reading, AuditEntry, Store, action_rollout_accepted}
use enisa_sbd_example.Store.Writes.{stamp}

abbrev pub acme : Bytes
acme = codes "acme"

abbrev pub globex : Bytes
globex = codes "globex"

abbrev pub device_of_acme : Device
device_of_acme = record {
  id = codes "d1";
  org_id = acme;
  model = codes "m";
  firmware_version = codes "1.0";
  last_seen = pos 0;
}

abbrev pub device_of_globex : Device
device_of_globex = record device_of_acme { id = codes "d2"; org_id = globex }

abbrev pub reading_20 : Reading
reading_20 = record {
  device_id = [];
  metric = codes "temp";
  value = 20;
  at = pos 5;
  received_at = pos 0;
}

abbrev pub attempt : AuditEntry
attempt = record {
  at = pos 0;
  actor = codes "eve";
  org_id = [];
  action = action_rollout_accepted;
  target = codes "1.2";
  outcome = codes "allowed";
  reason = [];
}

-- The store with acme's device.
abbrev pub one_device : Store
one_device = record { devices = (codes "d1", device_of_acme) ∷ []; readings = []; audit = [] }

abbrev pub one_reading : Store
one_reading = record {
  devices = (codes "d1", record device_of_acme { last_seen = pos 7 }) ∷ [];
  readings = (codes "d1", stamp (codes "d1") (pos 7) reading_20 ∷ []) ∷ [];
  audit = [];
}

abbrev pub two_devices : Store
two_devices = record one_device {
  devices = (codes "d1", device_of_acme) ∷ (codes "d2", device_of_globex) ∷ [];
}

abbrev pub zeros : ℕ → Bytes
zeros zero = []
zeros (suc n) = 0x30 ∷ zeros n

abbrev pub blanks : ℕ → Bytes
blanks zero = []
blanks (suc n) = 0 ∷ blanks n

-- A stand-in for SHA-256: 32 bytes of 0 for every input.
abbrev pub sum_stub : Bytes → Bytes
sum_stub _ = blanks 32

-- The credentials of acme's administrator.
abbrev pub admin_entry : Entry
admin_entry = record {
  token_sha256 = zeros 64;
  subject = codes "root";
  org_id = acme;
  role = role_admin;
}

abbrev pub admin : Identity
admin = record { subject = codes "root"; org_id = acme; role = role_admin }

abbrev pub admin_tokens : Tokens
admin_tokens = record { by_hash = (zeros 64, admin) ∷ [] }
