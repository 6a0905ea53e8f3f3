-- ===== src/Rollout/ReleaseKey/Loaded.antt =====
-- internal/rollout/release.go: which files `LoadReleaseKey` takes a key from.
use enisa_sbd_example.Common.{
  ◌≡◌, ◌↔◌, inl, inr, Bool-cases, Option, some, Option-cases, Bytes, codes, text_eq, text_eq_iff,
  text_eq_refl, refl, ok, arith,
}
use enisa_sbd_example.Rollout.ReleaseKey.{
  PemBlock, PublicKey, ed25519_key, other_key, as_ed25519, load_release_key,
}

-- The file can be read and holds a PEM block with the label PUBLIC KEY, whose bytes are the PKIX form
-- of this Ed25519 key.
pub record IsReleaseKey (read_file : Bytes → Option Bytes) (pem_decode : Bytes → Option PemBlock)
    (parse_pkix : Bytes → Option PublicKey) (path key : Bytes) : Type 0 where
  pub raw : Bytes
  pub readable : read_file path ≡ some raw
  pub block : PemBlock
  pub is_pem : pem_decode raw ≡ some block
  pub labelled : block.label ≡ codes "PUBLIC KEY"
  pub is_ed25519 : parse_pkix block.bytes ≡ some (ed25519_key key)

module _ (read_file : Bytes → Option Bytes) (pem_decode : Bytes → Option PemBlock)
    (parse_pkix : Bytes → Option PublicKey) (path key : Bytes) where
  load_release_key_to :
      load_release_key read_file pem_decode parse_pkix path ≡ ok key
      → IsReleaseKey read_file pem_decode parse_pkix path key
  unfolding load_release_key
  load_release_key_to h = elim (Option-cases (read_file path)) [
    | inl absent ↦ absurd (ground arith)
    | inr (raw, readable) ↦ elim (Option-cases (pem_decode raw)) [
      | inl no_pem ↦ absurd (ground arith)
      | inr (block, is_pem) ↦ elim (Bool-cases (text_eq block.label (codes "PUBLIC KEY"))) [
        | inr other ↦ absurd (ground arith)
        | inl label ↦ elim (Option-cases (parse_pkix block.bytes)) [
          | inl bad ↦ absurd (ground arith)
          | inr (k, parsed) ↦ record {
            raw = raw;
            readable = readable;
            block = block;
            is_pem = is_pem;
            labelled = (text_eq_iff _ _).0 label;
            is_ed25519 =
                of_kind k parsed (rw (readable, is_pem, label, parsed, load_release_key) at h);
          }
        ]
      ]
    ]
  ]
    where
      of_kind :
          {x : Option PublicKey} (k : PublicKey)
          → x ≡ some k
          → as_ed25519 k ≡ ok key
          → x ≡ some (ed25519_key key)
      of_kind (ed25519_key j) parsed e = cc
      of_kind other_key parsed e = cc

  -- `LoadReleaseKey` gives a key exactly where the file holds it as a PEM block PUBLIC KEY with an
  -- Ed25519 key in PKIX form.
  pub load_release_key_iff :
      (load_release_key read_file pem_decode parse_pkix path ≡ ok key)
      ↔ IsReleaseKey read_file pem_decode parse_pkix path key
  unfolding load_release_key
  load_release_key_iff = (
    load_release_key_to,
    (λ k. rw (k.readable, k.is_pem, k.labelled, text_eq_refl, k.is_ed25519, load_release_key) refl),
  )
