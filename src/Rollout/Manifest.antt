-- ===== src/Rollout/Manifest.antt =====
-- internal/rollout/release.go: release manifests and their signatures.
pub mod Verified
use enisa_sbd_example.Common.{
  Bool, ℕ, true, false, not, ◌||◌, [], ◌∷◌, ◌++◌, Option, none, some, Bytes, codes, length, ◌==◌,
  if◌then◌else◌, Result, ok, err, ◌>>=◌, ◌>>◌, refuse_if,
}
use enisa_sbd_example.Common.Strings.{cut_prefix, is_lower_hex}
use enisa_sbd_example.Rollout.Version.{parse_version}

pub record Manifest : Type 0 where
  pub version : Bytes
  pub digest : Bytes
  pub signature : Bytes

-- `ErrDowngrade` stands for the service's refusal, which the server builds.
pub data Error : Type 0 where
  bad_manifest no_release_key bad_signature downgrade : Error

abbrev pub signing_context : Bytes
signing_context = codes "sensorhub-firmware-release/v1"

abbrev pub digest_prefix : Bytes
digest_prefix = codes "sha256:"

abbrev pub newline : ℕ
newline = 10

-- `_, err := ParseVersion(m.Version); err != nil`
abbrev pub is_bad_version : Manifest → Result Error (Unit {0})
is_bad_version m = elim (parse_version m.version) [ ok _ ↦ ok tt | err _ ↦ err bad_manifest ]

-- The digest is the prefix and 64 lowercase hexadecimal digits.
unfoldable pub is_digest : Option Bytes → Result Error (Unit {0})
is_digest none = err bad_manifest
is_digest (some hex) = refuse_if (not (length hex == 64) || not (is_lower_hex hex)) bad_manifest

-- The signature decodes to 64 bytes.
abbrev pub is_signature : Option Bytes → Result Error (Unit {0})
is_signature none = err bad_manifest
is_signature (some sig) = refuse_if (not (length sig == 64)) bad_manifest

-- `m.SignedBytes()`
unfoldable pub signed_bytes : Manifest → Bytes
signed_bytes m = signing_context ++ newline ∷ (m.version ++ newline ∷ (m.digest ++ newline ∷ []))

-- The test of the decoded signature at the end of `Verify`.
abbrev pub verify_signature :
    (Bytes → Bytes → Bytes → Bool) → Bytes → Manifest → Option Bytes → Result Error (Unit {0})
verify_signature ed25519_verify key m none = err bad_manifest
verify_signature ed25519_verify key m (some sig) =
    refuse_if (not (ed25519_verify key (signed_bytes m) sig)) bad_signature

-- Decoding base64 and checking an Ed25519 signature (key, message, signature) are given.
module _ (base64_decode : Bytes → Option Bytes)
    (ed25519_verify : Bytes → Bytes → Bytes → Bool) where
  unfoldable pub validate : Manifest → Result Error (Unit {0})
  unfolding is_digest
  validate m = do
    is_bad_version m
    is_digest (cut_prefix m.digest digest_prefix)
    is_signature (base64_decode m.signature)

  unfoldable pub verify : Manifest → Bytes → Result Error (Unit {0})
  unfolding validate
  verify m key = do
    validate m
    refuse_if (not (length key == 32)) no_release_key
    verify_signature ed25519_verify key m (base64_decode m.signature)

-- `Sign(key, m)`, over encoding base64 and signing.
unfoldable pub sign : (Bytes → Bytes) → (Bytes → Bytes → Bytes) → Bytes → Manifest → Manifest
sign base64_encode ed25519_sign key m = record m {
  signature = base64_encode (ed25519_sign key (signed_bytes m));
}
