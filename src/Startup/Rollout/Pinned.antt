-- ===== src/Startup/Rollout/Pinned.antt =====
-- cmd/rollout/main.go: what holds of a Rollout Service that starts its listener.
use enisa_sbd_example.Common.{
  ◌≡◌, ◌≢◌, List, Bytes, All, ok, bind-ok, map_err, map_err-ok, some, [],
}
use enisa_sbd_example.Authn.Tokens.{load_store, Tokens}
use enisa_sbd_example.Authn.Tokens.Loaded.{IsCredentialFile, load_store-IsCredentialFile}
use enisa_sbd_example.Store.Model.{Time}
use enisa_sbd_example.Authz.Router.{Router}
use enisa_sbd_example.Rollout.Server.{World}
use enisa_sbd_example.Rollout.ReleaseKey.{load_release_key}
use enisa_sbd_example.Rollout.ReleaseKey.Loaded.{IsReleaseKey, load_release_key_iff}
use enisa_sbd_example.Rollout.Cdn.{HttpPublisher, new_http_publisher}
use enisa_sbd_example.Rollout.Cdn.Published.{IsOrigin, new_http_publisher_iff}
use enisa_sbd_example.Startup.Flags.{flags_of}
use enisa_sbd_example.Startup.Flags.Required.{flags_of-ok}
use enisa_sbd_example.Startup.Listener.{Options, Listening, listening}
use enisa_sbd_example.Startup.Listener.Transport.{HasTransport, listening-HasTransport}
use enisa_sbd_example.Startup.Rollout.{
  Flags, default_flags, required, Outside, bad_flags, bad_tokens, bad_key, bad_cdn, panics,
  service_router, options,
}

-- The process has its required flags, tokens that `NewStore` accepted, an Ed25519 release key, an
-- https origin with a credential, and the router over all of these; it listens over TLS with a
-- certificate and a key, or over plaintext because a flag asked for it.
pub record IsPinned (env : Outside) (now : Time) (args : List Bytes) (o : Options (Router World))
    (l : Listening (Router World)) : Type 0 where
  pub flags : Flags
  pub parsed : env.parse_flags default_flags args ≡ some flags
  pub has_required : All (λ v. v ≢ []) (required flags)
  pub tokens : Tokens
  pub loaded : load_store env.read_file env.parse_tokens flags.tokens ≡ ok tokens
  pub strict : IsCredentialFile env.read_file env.parse_tokens flags.tokens
  pub key : Bytes
  pub pinned : IsReleaseKey env.read_file env.pem_decode env.parse_pkix flags.release_key key
  pub cdn : HttpPublisher
  pub origin : IsOrigin env.parse_url flags.cdn_url env.cdn_token cdn
  pub router : Router World
  pub built : service_router env now tokens key cdn ≡ ok router
  pub given : o ≡ record {
    addr = flags.addr;
    handler = router;
    cert_file = flags.tls_cert;
    key_file = flags.tls_key;
    allow_plaintext = flags.allow_plaintext;
  }
  pub transport : HasTransport o l

-- A Rollout Service starts a listener only with its required flags, a credential file whose entries
-- are all acceptable, a release key file that holds an Ed25519 key as a PEM block PUBLIC KEY, an
-- https CDN origin with a credential, and the routes over them; and it serves HTTPS with a
-- certificate and a key unless a flag asked for plaintext.
pub listening-IsPinned :
    (env : Outside) (now : Time) (args : List Bytes) (o : Options (Router World))
    (l : Listening (Router World))
    → options env now args ≡ ok o
    → listening o ≡ ok l
    → IsPinned env now args o l
unfolding options
listening-IsPinned env now args o l h started =
    let (flags, h₁, k₁) =
      bind-ok (map_err bad_flags (flags_of required (env.parse_flags default_flags args))) _ h in
    let (tokens, h₂, k₂) =
      bind-ok (map_err bad_tokens (load_store env.read_file env.parse_tokens flags.tokens)) _ k₁ in
    let (key, h₃, k₃) =
      bind-ok
        (map_err bad_key
          (load_release_key env.read_file env.pem_decode env.parse_pkix flags.release_key))
        _ k₂ in
    let (cdn, h₄, k₄) =
      bind-ok (map_err bad_cdn (new_http_publisher env.parse_url flags.cdn_url env.cdn_token)) _
        k₃ in
    let (router, h₅, k₅) = bind-ok (map_err panics (service_router env now tokens key cdn)) _ k₄ in
    let (parsed, has_required) =
      flags_of-ok required (env.parse_flags default_flags args) flags (map_err-ok bad_flags _ h₁) in
    record {
      flags = flags;
      parsed = parsed;
      has_required = has_required;
      tokens = tokens;
      loaded = map_err-ok bad_tokens _ h₂;
      strict =
          load_store-IsCredentialFile env.read_file env.parse_tokens flags.tokens tokens
            (map_err-ok bad_tokens _ h₂);
      key = key;
      pinned =
          (load_release_key_iff env.read_file env.pem_decode env.parse_pkix flags.release_key key).0
            (map_err-ok bad_key _ h₃);
      cdn = cdn;
      origin =
          (new_http_publisher_iff env.parse_url flags.cdn_url env.cdn_token cdn).0
            (map_err-ok bad_cdn _ h₄);
      router = router;
      built = map_err-ok panics _ h₅;
      given = cc;
      transport = listening-HasTransport o l started;
    }
