-- ===== src/Startup/Dashboard/Secured.antt =====
-- cmd/dashboard/main.go: what holds of a Dashboard API that starts its listener.
use enisa_sbd_example.Common.{
  ◌≡◌, ◌≢◌, List, Bytes, All, ok, bind-ok, map_err, map_err-ok, some, [], subst,
}
use enisa_sbd_example.Authn.Tokens.{load_store, Tokens}
use enisa_sbd_example.Store.Model.{Store}
use enisa_sbd_example.Authz.Router.{Router}
use enisa_sbd_example.Startup.Flags.{flags_of}
use enisa_sbd_example.Startup.Flags.Required.{flags_of-ok}
use enisa_sbd_example.Startup.Fleet.{fleet_store}
use enisa_sbd_example.Startup.Fleet.Enrolled.{IsFleetStore, fleet_store-IsFleetStore}
use enisa_sbd_example.Startup.Listener.{Options, Listening, listening}
use enisa_sbd_example.Startup.Listener.Transport.{HasTransport, listening-HasTransport}
use enisa_sbd_example.Startup.Dashboard.{
  Flags, default_flags, required, Outside, bad_flags, bad_tokens, bad_fleet, panics, service_router,
  options,
}

-- The options, the store and the listener of a process that started.
pub record IsSecured (env : Outside) (args : List Bytes) (o : Options (Router Store)) (s : Store)
    (l : Listening (Router Store)) : Type 0 where
  pub flags : Flags
  pub parsed : env.parse_flags default_flags args ≡ some flags
  pub has_required : All (λ v. v ≢ []) (required flags)
  pub tokens : Tokens
  pub loaded : load_store env.read_file env.parse_tokens flags.tokens ≡ ok tokens
  pub enrols : IsFleetStore env.read_file env.parse_devices flags.fleet s
  pub router : Router Store
  pub built : service_router env tokens ≡ ok router
  pub given : o ≡ record {
    addr = flags.addr;
    handler = router;
    cert_file = flags.tls_cert;
    key_file = flags.tls_key;
    allow_plaintext = flags.allow_plaintext;
  }
  pub transport : HasTransport o l

-- A Dashboard API starts a listener only with its required flags, a token store that was accepted, a
-- valid store with exactly the devices of a fleet file that was accepted, and the routes over them;
-- and it serves HTTPS with a certificate and a key unless a flag asked for plaintext.
pub listening-IsSecured :
    (env : Outside) (args : List Bytes) (o : Options (Router Store)) (s : Store)
    (l : Listening (Router Store))
    → options env args ≡ ok (o, s)
    → listening o ≡ ok l
    → IsSecured env args o s l
unfolding options
listening-IsSecured env args o s l h started =
    let (flags, h₁, k₁) =
      bind-ok (map_err bad_flags (flags_of required (env.parse_flags default_flags args))) _ h in
    let (tokens, h₂, k₂) =
      bind-ok (map_err bad_tokens (load_store env.read_file env.parse_tokens flags.tokens)) _ k₁ in
    let (store, h₃, k₃) =
      bind-ok (map_err bad_fleet (fleet_store env.read_file env.parse_devices flags.fleet)) _ k₂ in
    let (router, h₄, k₄) = bind-ok (map_err panics (service_router env tokens)) _ k₃ in
    let (parsed, has_required) =
      flags_of-ok required (env.parse_flags default_flags args) flags (map_err-ok bad_flags _ h₁) in
    let same : store ≡ s = cc in
    record {
      flags = flags;
      parsed = parsed;
      has_required = has_required;
      tokens = tokens;
      loaded = map_err-ok bad_tokens _ h₂;
      enrols = subst (IsFleetStore env.read_file env.parse_devices flags.fleet) same (
          fleet_store-IsFleetStore env.read_file env.parse_devices flags.fleet store
            (map_err-ok bad_fleet _ h₃));
      router = router;
      built = map_err-ok panics _ h₄;
      given = cc;
      transport = listening-HasTransport o l started;
    }
