-- ===== src/Startup/Rollout.antt =====
-- cmd/rollout/main.go: the start of the Rollout Service.
pub mod Pinned
use enisa_sbd_example.Common.{
  ℕ, Bool, false, List, [], ◌∷◌, Option, some, Bytes, codes, Result, ok, err, map_err, is_ok, ◌>>=◌,
}
use enisa_sbd_example.Authn.Identity.{Entry}
use enisa_sbd_example.Authn.Tokens.{load_store}
use enisa_sbd_example.Authn.Tokens
use enisa_sbd_example.Store.Model.{Time}
use enisa_sbd_example.Authz.Router.{Router, Panic}
use enisa_sbd_example.Rollout.Manifest.{Manifest}
use enisa_sbd_example.Rollout.Server.{World}
use enisa_sbd_example.Rollout.Routes.{rollout_handler}
use enisa_sbd_example.Rollout.ReleaseKey.{PemBlock, PublicKey, KeyError, load_release_key}
use enisa_sbd_example.Rollout.Cdn.{
  Url, ConfigError, HttpPublisher, PublishRequest, new_http_publisher, publish,
}
use enisa_sbd_example.Startup.Flags.{FlagError, flags_of}
use enisa_sbd_example.Startup.Listener.{Options, RunError, Listening, Selected, run_listener}

pub record Flags : Type 0 where
  pub addr : Bytes
  pub tokens : Bytes
  pub release_key : Bytes
  pub cdn_url : Bytes
  pub tls_cert : Bytes
  pub tls_key : Bytes
  pub allow_plaintext : Bool

abbrev pub default_flags : Flags
default_flags = record {
  addr = codes ":9443";
  tokens = [];
  release_key = [];
  cdn_url = [];
  tls_cert = [];
  tls_key = [];
  allow_plaintext = false;
}

abbrev pub required : Flags → List Bytes
required f = f.tokens ∷ f.release_key ∷ f.cdn_url ∷ []

-- What the process meets outside of this code: flag parsing over the defaults, files, the variable
-- that holds the CDN's token, decoders, cryptography, the mux, and the exchange with the CDN.
pub record Outside : Type 0 where
  pub parse_flags : Flags → List Bytes → Option Flags
  pub read_file : Bytes → Option Bytes
  pub parse_tokens : Bytes → Option (List Entry)
  pub pem_decode : Bytes → Option PemBlock
  pub parse_pkix : Bytes → Option PublicKey
  pub parse_url : Bytes → Option Url
  pub cdn_token : Bytes
  pub base64_decode : Bytes → Option Bytes
  pub ed25519_verify : Bytes → Bytes → Bytes → Bool
  pub decode_manifest : ℕ → Bytes → Manifest × Bool
  pub encode_manifest : Manifest → Option Bytes
  pub is_wellformed : Bytes → Bytes → Bool
  pub exchange : PublishRequest → Option ℕ
  pub sum256 : Bytes → Bytes
  pub conflicts : List Bytes → Bytes → Bool

pub data StartError : Type 0 where
  bad_flags : FlagError → StartError
  bad_tokens : Tokens.Error → StartError
  bad_key : KeyError → StartError
  bad_cdn : ConfigError → StartError
  panics : Panic → StartError
  stopped : RunError → StartError

-- Whether the CDN takes a manifest.
unfoldable pub cdn_accepts : Outside → HttpPublisher → Manifest → Bool
cdn_accepts env cdn m = is_ok (publish env.encode_manifest env.is_wellformed env.exchange cdn m).1

-- `Handler(store.New(), tokens, key, cdn, log)` with the client as its publisher.
abbrev pub service_router :
    Outside → Time → Tokens.Tokens → Bytes → HttpPublisher → Result Panic (Router World)
service_router env now tokens key cdn =
    rollout_handler env.base64_decode env.ed25519_verify env.decode_manifest (cdn_accepts env cdn)
      env.sum256 env.conflicts (some tokens) key now

-- `run(args)` up to the options of the listener.
unfoldable pub options : Outside → Time → List Bytes → Result StartError (Options (Router World))
options env now args = do
  flags ← map_err bad_flags (flags_of required (env.parse_flags default_flags args))
  tokens ← map_err bad_tokens (load_store env.read_file env.parse_tokens flags.tokens)
  key ←
      map_err bad_key
        (load_release_key env.read_file env.pem_decode env.parse_pkix flags.release_key)
  cdn ← map_err bad_cdn (new_http_publisher env.parse_url flags.cdn_url env.cdn_token)
  router ← map_err panics (service_router env now tokens key cdn)
  ok (record {
    addr = flags.addr;
    handler = router;
    cert_file = flags.tls_cert;
    key_file = flags.tls_key;
    allow_plaintext = flags.allow_plaintext;
  })

-- `run(args)`
unfoldable pub run_rollout :
    Outside
    → Time
    → (Listening (Router World) → Selected)
    → List Bytes
    → Result StartError (Unit {0})
run_rollout env now course args = do
  o ← options env now args
  map_err stopped (run_listener course o)
