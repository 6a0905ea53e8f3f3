-- ===== src/Authn/Tokens/Loaded.antt =====
-- internal/authn/authn.go: which files `LoadStore` takes credentials from.
use enisa_sbd_example.Common.{
  ◌≡◌, ◌≢◌, inl, inr, List, [], Option, some, Option-cases, Bytes, All, ok, arith,
}
use enisa_sbd_example.Authn.Identity.{Entry}
use enisa_sbd_example.Authn.Tokens.{Tokens, new_store, load_store}
use enisa_sbd_example.Authn.Tokens.WellFormed.{IsWellFormed}
use enisa_sbd_example.Authn.Tokens.Accepts.{HasDistinctDigests, new_store_iff}

-- The file can be read and holds credentials: one at least, each well formed, no two with the same
-- digest.
pub record IsCredentialFile (read_file : Bytes → Option Bytes) (parse : Bytes → Option (List Entry))
    (path : Bytes) : Type 0 where
  pub raw : Bytes
  pub readable : read_file path ≡ some raw
  pub entries : List Entry
  pub parsed : parse raw ≡ some entries
  pub not_empty : entries ≢ []
  pub well_formed : All IsWellFormed entries
  pub distinct : HasDistinctDigests entries

-- A file that `LoadStore` accepts holds credentials that `NewStore` takes.
pub load_store-IsCredentialFile :
    (read_file : Bytes → Option Bytes) (parse : Bytes → Option (List Entry)) (path : Bytes)
    (s : Tokens)
    → load_store read_file parse path ≡ ok s
    → IsCredentialFile read_file parse path
unfolding load_store
load_store-IsCredentialFile read_file parse path s h = elim (Option-cases (read_file path)) [
  | inl absent ↦ absurd (ground arith)
  | inr (raw, readable) ↦ elim (Option-cases (parse raw)) [
    | inl bad ↦ absurd (ground arith)
    | inr (entries, parsed) ↦
        let made : new_store entries ≡ ok s = rw (readable, parsed, load_store) at h in
        let (not_empty, well_formed, distinct) = (new_store_iff entries).0 (s, made) in
        record {
          raw = raw;
          readable = readable;
          entries = entries;
          parsed = parsed;
          not_empty = not_empty;
          well_formed = well_formed;
          distinct = distinct;
        }
  ]
]
