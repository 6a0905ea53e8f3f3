-- ===== src/Rollout/Manifest/Verified.antt =====
-- internal/rollout/release.go: what `Verify` accepts.
use enisa_sbd_example.Common.{
  ℕ, ◌≡◌, ◌↔◌, inl, inr, refl, Bool, true, List, [], ◌∷◌, ◌++◌, Option, some, Bytes, length, All,
  Result-cases, Option-cases, ok, arith,
}
use enisa_sbd_example.Common.Strings.{cut_prefix}
use enisa_sbd_example.Common.Strings.Hex.{IsHexDigit, is_lower_hex_iff}
use enisa_sbd_example.Rollout.Version.{parse_version}
use enisa_sbd_example.Rollout.Manifest.{Manifest, digest_prefix, signed_bytes, verify}

pub cut_prefix-some : (s p rest : Bytes) → cut_prefix s p ≡ some rest → s ≡ p ++ rest
unfolding cut_prefix
cut_prefix-some s [] rest e = ground arith
cut_prefix-some [] (b ∷ p) rest e = cc
cut_prefix-some (a ∷ s) (b ∷ p) rest e = ground (arith, cut_prefix-some s p rest)

pub cut_prefix-append : (p rest : Bytes) → cut_prefix (p ++ rest) p ≡ some rest
unfolding cut_prefix
cut_prefix-append [] rest = refl
cut_prefix-append (b ∷ p) rest = ground (arith, cut_prefix-append p rest)

module _ (base64_decode : Bytes → Option Bytes)
    (ed25519_verify : Bytes → Bytes → Bytes → Bool) where
  -- A manifest of the right shape whose signature verifies against the key.
  pub record IsVerified (m : Manifest) (key : Bytes) : Type 0 where
    pub components : List ℕ
    pub version_parses : parse_version m.version ≡ ok components
    pub hex : Bytes
    pub digest_is : m.digest ≡ digest_prefix ++ hex
    pub hex_length : length hex ≡ 64
    pub hex_digits : All IsHexDigit hex
    pub key_length : length key ≡ 32
    pub sig : Bytes
    pub decoded : base64_decode m.signature ≡ some sig
    pub sig_length : length sig ≡ 64
    pub verified : ed25519_verify key (signed_bytes m) sig ≡ true

  verify_to :
      (m : Manifest) (key : Bytes)
      → verify base64_decode ed25519_verify m key ≡ ok tt
      → IsVerified m key
  unfolding verify
  verify_to m key h = elim (Result-cases (parse_version m.version)) [
    | inr (x, bad) ↦ ground arith
    | inl (v, parsed) ↦ elim (Option-cases (cut_prefix m.digest digest_prefix)) [
      | inl missing ↦ ground arith
      | inr (hex, cut) ↦ elim (Option-cases (base64_decode m.signature)) [
        | inl undecodable ↦ ground arith
        | inr (sig, decoded) ↦ record {
          components = v;
          version_parses = parsed;
          hex = hex;
          digest_is = cut_prefix-some m.digest digest_prefix hex cut;
          hex_length = ground arith;
          hex_digits = (is_lower_hex_iff hex).0 (ground arith);
          key_length = ground arith;
          sig = sig;
          decoded = decoded;
          sig_length = ground arith;
          verified = ground arith;
        }
      ]
    ]
  ]

  verify_from :
      (m : Manifest) (key : Bytes)
      → IsVerified m key
      → verify base64_decode ed25519_verify m key ≡ ok tt
  unfolding verify
  verify_from m key v = ground (
    arith,
    v.version_parses,
    v.digest_is,
    cut_prefix-append digest_prefix v.hex,
    (is_lower_hex_iff v.hex).1 v.hex_digits,
    v.decoded,
  )

  -- `Verify` succeeds exactly on a manifest whose version parses, whose digest is the prefix and 64
  -- lowercase hexadecimal digits, and whose signature decodes to 64 bytes that verify over the
  -- signed bytes against a key of 32 bytes.
  pub verify_iff :
      (m : Manifest) (key : Bytes)
      → (verify base64_decode ed25519_verify m key ≡ ok tt) ↔ IsVerified m key
  verify_iff m key = (verify_to m key, verify_from m key)
