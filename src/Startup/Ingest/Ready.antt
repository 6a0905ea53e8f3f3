-- ===== src/Startup/Ingest/Ready.antt =====
-- cmd/ingest/main.go: what holds of an Ingest Service that starts to serve.
use enisa_sbd_example.Common.{
  ◌≡◌, ◌≢◌, refl, sym, subst, List, [], none, some, false, Option-cases, Bytes, All, ok, bind-ok,
  map_err, map_err-ok, refuse_if, not, arith, pos, inl, inr,
}
use enisa_sbd_example.Ingest.Conn.{
  default_handshake_timeout, default_idle_timeout, default_max_conns,
}
use enisa_sbd_example.Ingest.Tls.{
  TlsConfig, tls_config, load_tls_config, require_and_verify_client_cert,
}
use enisa_sbd_example.Startup.Flags.{flags_of}
use enisa_sbd_example.Startup.Flags.Required.{flags_of-ok}
use enisa_sbd_example.Startup.Listener.{version_tls12}
use enisa_sbd_example.Startup.Fleet.{fleet_store}
use enisa_sbd_example.Startup.Fleet.Enrolled.{IsFleetStore, fleet_store-IsFleetStore}
use enisa_sbd_example.Startup.Ingest.{
  Flags, default_flags, required, Outside, bad_flags, bad_fleet, bad_tls, not_listening, Service,
  new_service, prepare,
}

-- The policy that a connection needs a client certificate that verifies against the pool of the
-- device CA's file, over TLS 1.2 at least.
pub record IsMutualTls {C P : Type 0} (env : Outside C P) (flags : Flags) (conf : TlsConfig C P)
    : Type 0 where
  pub pem : Bytes
  pub read : env.read_file flags.device_ca ≡ some pem
  pub pooled : env.pool_of pem ≡ some conf.client_cas
  pub verifies_clients : conf.client_auth ≡ require_and_verify_client_cert
  pub modern : conf.min_version ≡ version_tls12

load_tls_config-IsMutualTls :
    {C P : Type 0} (env : Outside C P) (flags : Flags) (conf : TlsConfig C P)
    → load_tls_config env.load_keypair env.read_file env.pool_of flags.cert flags.key
        flags.device_ca
      ≡ ok conf
    → IsMutualTls env flags conf
unfolding load_tls_config tls_config
load_tls_config-IsMutualTls env flags conf h =
    elim (Option-cases (env.load_keypair flags.cert flags.key)) [
      | inl bad ↦ ground arith
      | inr (cert, loaded) ↦ elim (Option-cases (env.read_file flags.device_ca)) [
        | inl absent ↦ ground arith
        | inr (pem, read) ↦ elim (Option-cases (env.pool_of pem)) [
          | inl empty ↦ ground arith
          | inr (pool, pooled) ↦
              let same : ok (tls_config cert pool) ≡ ok conf =
                rw (loaded, read, pooled, load_tls_config) at h in
              let made : tls_config cert pool ≡ conf = cc in
              record {
                pem = pem;
                read = read;
                pooled = rw (pooled, sym made) refl;
                verifies_clients = rw (sym made) refl;
                modern = rw (sym made) refl;
              }
        ]
      ]
    ]

-- The service's flags, store and policy.
pub record IsReady {C P : Type 0} (env : Outside C P) (args : List Bytes) (svc : Service C P)
    : Type 0 where
  pub flags : Flags
  pub parsed : env.parse_flags default_flags args ≡ some flags
  pub has_required : All (λ v. v ≢ []) (required flags)
  pub enrols : IsFleetStore env.read_file env.parse_devices flags.fleet svc.system.store
  pub policy : IsMutualTls env flags svc.tls
  pub bounded : svc.max_conns ≡ pos default_max_conns
  pub timely :
      (svc.handshake_timeout ≡ default_handshake_timeout)
      × (svc.idle_timeout ≡ default_idle_timeout)
  pub unused : svc.system.live ≡ []
  pub unstopped : svc.system.stopped ≡ none
  pub uncancelled : svc.system.is_cancelled ≡ false

-- An Ingest Service that starts to serve has its required flags; its store is valid and has exactly
-- the devices of a fleet file that was accepted; its listener takes only clients whose certificates
-- verify against the device CA's pool, over TLS 1.2 at least; it serves at most 512 connections, none
-- so far, with a timeout of 10 seconds for a handshake and of 90 for an idle connection, and in a
-- context that has not ended.
pub prepare-IsReady :
    {C P : Type 0} (env : Outside C P) (args : List Bytes) (svc : Service C P)
    → prepare env args ≡ ok svc
    → IsReady env args svc
unfolding prepare new_service
prepare-IsReady env args svc h =
    let (flags, h₁, k₁) =
      bind-ok (map_err bad_flags (flags_of required (env.parse_flags default_flags args))) _ h in
    let (store, h₂, k₂) =
      bind-ok (map_err bad_fleet (fleet_store env.read_file env.parse_devices flags.fleet)) _ k₁ in
    let (conf, h₃, k₃) =
      bind-ok
        (map_err bad_tls (
          load_tls_config env.load_keypair env.read_file env.pool_of flags.cert flags.key
            flags.device_ca))
        _ k₂ in
    let (tt, _, made) = bind-ok (refuse_if (not (env.can_listen flags.addr)) not_listening) _ k₃ in
    let (parsed, has_required) =
      flags_of-ok required (env.parse_flags default_flags args) flags (map_err-ok bad_flags _ h₁) in
    let same : new_service store conf ≡ svc = cc in
    subst (IsReady env args) same (record {
      flags = flags;
      parsed = parsed;
      has_required = has_required;
      enrols =
          fleet_store-IsFleetStore env.read_file env.parse_devices flags.fleet store
            (map_err-ok bad_fleet _ h₂);
      policy = load_tls_config-IsMutualTls env flags conf (map_err-ok bad_tls _ h₃);
      bounded = refl;
      timely = (refl, refl);
      unused = refl;
      unstopped = refl;
      uncancelled = refl;
    })
