-- ===== src/Store/Model.antt =====
-- internal/store/store.go: the rows of the Telemetry DB and of the Audit Log.
use enisa_sbd_example.Common.{ℕ, [], List, Bytes, codes, Map, lookup, or_nil, ℤ}

-- A `time.Time` is the number of nanoseconds since its zero value; the time zone is not kept.
abbrev pub Time : Type 0
Time = ℤ

-- A `float64` is its bit pattern.
abbrev pub Float64 : Type 0
Float64 = ℕ

abbrev pub max_readings_per_device : ℕ
max_readings_per_device = 1024

pub record Device : Type 0 where
  pub id : Bytes
  pub org_id : Bytes
  pub model : Bytes
  pub firmware_version : Bytes
  pub last_seen : Time

pub record Reading : Type 0 where
  pub device_id : Bytes
  pub metric : Bytes
  pub value : Float64
  pub at : Time
  pub received_at : Time

abbrev pub action_rollout_accepted : Bytes
action_rollout_accepted = codes "rollout.accepted"

abbrev pub action_rollout_rejected : Bytes
action_rollout_rejected = codes "rollout.rejected"

pub record AuditEntry : Type 0 where
  pub at : Time
  pub actor : Bytes
  pub org_id : Bytes
  pub action : Bytes
  pub target : Bytes
  pub outcome : Bytes
  pub reason : Bytes

pub data Error : Type 0 where
  no_scope unknown_device invalid_device : Error

-- The lock is not kept: each method holds it for its whole body, so a method is one step. The clock
-- is the argument `now` of the methods that read it.
pub record Store : Type 0 where
  pub devices : Map Device
  pub readings : Map (List Reading)
  pub audit : List AuditEntry

-- `New()`
unfoldable pub empty_store : Store
empty_store = record { devices = []; readings = []; audit = [] }

-- `s.readings[id]`, which is nil for a missing key.
abbrev pub readings_of : Store → Bytes → List Reading
readings_of s id = or_nil (lookup id s.readings)
