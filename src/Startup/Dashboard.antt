-- ===== src/Startup/Dashboard.antt =====
-- cmd/dashboard/main.go: the start of the Dashboard API.
pub mod Secured
use enisa_sbd_example.Common.{
  Bool, false, List, [], ◌∷◌, Option, some, Bytes, codes, Result, ok, err, map_err, ◌>>=◌,
}
use enisa_sbd_example.Authn.Identity.{Entry}
use enisa_sbd_example.Authn.Tokens.{load_store}
use enisa_sbd_example.Authn.Tokens
use enisa_sbd_example.Store.Model.{Time, Float64, Store}
use enisa_sbd_example.Store.FleetFile.{DeviceFile}
use enisa_sbd_example.Authz.Router.{Router, Panic}
use enisa_sbd_example.Dashboard.Handlers.{handler}
use enisa_sbd_example.Startup.Flags.{FlagError, flags_of}
use enisa_sbd_example.Startup.Fleet.{FleetError, fleet_store}
use enisa_sbd_example.Startup.Listener.{Options, RunError, Listening, Selected, run_listener}

pub record Flags : Type 0 where
  pub addr : Bytes
  pub tokens : Bytes
  pub fleet : Bytes
  pub tls_cert : Bytes
  pub tls_key : Bytes
  pub allow_plaintext : Bool

abbrev pub default_flags : Flags
default_flags = record {
  addr = codes ":8443";
  tokens = [];
  fleet = [];
  tls_cert = [];
  tls_key = [];
  allow_plaintext = false;
}

abbrev pub required : Flags → List Bytes
required f = f.tokens ∷ f.fleet ∷ []

-- What the process meets outside of this code.
pub record Outside : Type 0 where
  pub parse_flags : Flags → List Bytes → Option Flags
  pub read_file : Bytes → Option Bytes
  pub parse_tokens : Bytes → Option (List Entry)
  pub parse_devices : Bytes → Option (List DeviceFile)
  pub format_float : Float64 → Bytes
  pub format_time : Time → Bytes
  pub sum256 : Bytes → Bytes
  pub conflicts : List Bytes → Bytes → Bool

pub data StartError : Type 0 where
  bad_flags : FlagError → StartError
  bad_tokens : Tokens.Error → StartError
  bad_fleet : FleetError → StartError
  panics : Panic → StartError
  stopped : RunError → StartError

-- `Handler(st, tokens, log)`, whose handlers go over the store that comes with it.
abbrev pub service_router : Outside → Tokens.Tokens → Result Panic (Router Store)
service_router env tokens =
    handler env.format_float env.format_time env.sum256 env.conflicts (some tokens)

-- `run(args)` up to the options of the listener: they, and the store behind the handler.
unfoldable pub options : Outside → List Bytes → Result StartError (Options (Router Store) × Store)
options env args = do
  flags ← map_err bad_flags (flags_of required (env.parse_flags default_flags args))
  tokens ← map_err bad_tokens (load_store env.read_file env.parse_tokens flags.tokens)
  store ← map_err bad_fleet (fleet_store env.read_file env.parse_devices flags.fleet)
  router ← map_err panics (service_router env tokens)
  ok (
    record {
      addr = flags.addr;
      handler = router;
      cert_file = flags.tls_cert;
      key_file = flags.tls_key;
      allow_plaintext = flags.allow_plaintext;
    },
    store,
  )

-- `run(args)`
unfoldable pub run_dashboard :
    Outside → (Listening (Router Store) → Selected) → List Bytes → Result StartError (Unit {0})
run_dashboard env course args = do
  (o, _) ← options env args
  map_err stopped (run_listener course o)
