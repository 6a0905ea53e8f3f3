-- ===== src/Startup/Ingest.antt =====
-- cmd/ingest/main.go: the start of the Ingest Service.
pub mod Ready
use enisa_sbd_example.Common.{
  ℕ, Bool, false, not, List, [], ◌∷◌, Option, none, Bytes, codes, ℤ, pos, if◌then◌else◌, Result, ok,
  err, map_err, ◌>>=◌, ◌>>◌, refuse_if,
}
use enisa_sbd_example.Store.Model.{Store}
use enisa_sbd_example.Store.FleetFile.{DeviceFile}
use enisa_sbd_example.Ingest.Conn.{
  default_handshake_timeout, default_idle_timeout, default_max_conns,
}
use enisa_sbd_example.Ingest.Serve.{System}
use enisa_sbd_example.Ingest.Tls.{TlsConfig, TlsError, load_tls_config}
use enisa_sbd_example.Startup.Flags.{FlagError, flags_of}
use enisa_sbd_example.Startup.Fleet.{FleetError, fleet_store}

pub record Flags : Type 0 where
  pub addr : Bytes
  pub cert : Bytes
  pub key : Bytes
  pub device_ca : Bytes
  pub fleet : Bytes

abbrev pub default_flags : Flags
default_flags = record { addr = codes ":8883"; cert = []; key = []; device_ca = []; fleet = [] }

abbrev pub required : Flags → List Bytes
required f = f.cert ∷ f.key ∷ f.device_ca ∷ f.fleet ∷ []

-- What the process meets outside of this code, over the types of certificates and of pools.
pub record Outside (C P : Type 0) : Type 0 where
  pub parse_flags : Flags → List Bytes → Option Flags
  pub read_file : Bytes → Option Bytes
  pub parse_devices : Bytes → Option (List DeviceFile)
  pub load_keypair : Bytes → Bytes → Option C
  pub pool_of : Bytes → Option P
  pub can_listen : Bytes → Bool

pub data StartError : Type 0 where
  bad_flags : FlagError → StartError
  bad_fleet : FleetError → StartError
  bad_tls : TlsError → StartError
  not_listening : StartError

-- What the process serves with: the policy of its listener, the timeouts in seconds, the most
-- connections at once, and the system before its first connection.
pub record Service (C P : Type 0) : Type 0 where
  pub tls : TlsConfig C P
  pub handshake_timeout : ℕ
  pub idle_timeout : ℕ
  pub max_conns : ℤ
  pub system : System

-- `New(st, log)` over the listener's policy.
unfoldable pub new_service : {C P : Type 0} → Store → TlsConfig C P → Service C P
new_service s conf = record {
  tls = conf;
  handshake_timeout = default_handshake_timeout;
  idle_timeout = default_idle_timeout;
  max_conns = pos default_max_conns;
  system = record { store = s; live = []; is_cancelled = false; stopped = none };
}

-- `run(args)` up to `Serve`.
unfoldable pub prepare : {C P : Type 0} → Outside C P → List Bytes → Result StartError (Service C P)
prepare env args = do
  flags ← map_err bad_flags (flags_of required (env.parse_flags default_flags args))
  store ← map_err bad_fleet (fleet_store env.read_file env.parse_devices flags.fleet)
  conf ← map_err bad_tls (
      load_tls_config env.load_keypair env.read_file env.pool_of flags.cert flags.key
        flags.device_ca)
  refuse_if (not (env.can_listen flags.addr)) not_listening
  ok (new_service store conf)
