-- ===== src/Ingest/Tls.antt =====
-- internal/ingest/server.go: the transport policy of the ingest listener.
use enisa_sbd_example.Common.{ℕ, List, [], ◌∷◌, Option, none, some, Bytes, Result, ok, err}
use enisa_sbd_example.Startup.Listener.{version_tls12}

-- `tls.RequireAndVerifyClientCert`
abbrev pub require_and_verify_client_cert : ℕ
require_and_verify_client_cert = 4

-- The policy, over the types of certificates and of certificate pools.
pub record TlsConfig (C P : Type 0) : Type 0 where
  pub certificates : List C
  pub client_auth : ℕ
  pub client_cas : P
  pub min_version : ℕ

pub data TlsError : Type 0 where
  bad_keypair unreadable_ca no_certificates : TlsError

module _ {C P : Type 0} where
  -- `TLSConfig(serverCert, deviceCAs)`
  unfoldable pub tls_config : C → P → TlsConfig C P
  tls_config server_cert device_cas = record {
    certificates = server_cert ∷ [];
    client_auth = require_and_verify_client_cert;
    client_cas = device_cas;
    min_version = version_tls12;
  }

  -- `LoadTLSConfig`: loading the key pair, reading a file, and the pool of the certificates of a PEM
  -- text, `none` where it has none, are given.
  unfoldable pub load_tls_config :
      (Bytes → Bytes → Option C)
      → (Bytes → Option Bytes)
      → (Bytes → Option P)
      → Bytes
      → Bytes
      → Bytes
      → Result TlsError (TlsConfig C P)
  load_tls_config load_keypair read_file pool_of cert_file key_file ca_file =
      elim (load_keypair cert_file key_file) [
        | none ↦ err bad_keypair
        | some cert ↦ elim (read_file ca_file) [
          | none ↦ err unreadable_ca
          | some pem ↦ elim (pool_of pem) [
            | none ↦ err no_certificates
            | some pool ↦ ok (tls_config cert pool)
          ]
        ]
      ]
