-- ===== src/Rollout/ReleaseKey.antt =====
-- internal/rollout/release.go: loading the key that releases are verified against.
pub mod Loaded
use enisa_sbd_example.Common.{
  not, Option, none, some, Bytes, codes, text_eq, if◌then◌else◌, Result, ok, err,
}

-- What the code reads of a block of `encoding/pem`.
pub record PemBlock : Type 0 where
  pub label : Bytes
  pub bytes : Bytes

-- What `x509.ParsePKIXPublicKey` returns: an Ed25519 key, or one of another kind.
pub data PublicKey : Type 0 where
  ed25519_key : Bytes → PublicKey
  other_key : PublicKey

pub data KeyError : Type 0 where
  unreadable not_public_key unparsable not_ed25519 : KeyError

-- The result of the type assertion.
abbrev pub as_ed25519 : PublicKey → Result KeyError Bytes
as_ed25519 (ed25519_key key) = ok key
as_ed25519 other_key = err not_ed25519

-- Reading the file, PEM and PKIX are given.
unfoldable pub load_release_key :
    (Bytes → Option Bytes)
    → (Bytes → Option PemBlock)
    → (Bytes → Option PublicKey)
    → Bytes
    → Result KeyError Bytes
load_release_key read_file pem_decode parse_pkix path = elim (read_file path) [
  | none ↦ err unreadable
  | some raw ↦ elim (pem_decode raw) [
    | none ↦ err not_public_key
    | some block ↦
        if not (text_eq block.label (codes "PUBLIC KEY"))
        then err not_public_key
        else elim (parse_pkix block.bytes) [
          | none ↦ err unparsable
          | some parsed ↦ as_ed25519 parsed
        ]
  ]
]
