-- ===== src/Authn/Tokens.antt =====
-- internal/authn/authn.go: the token store and the bearer credential of a request.
pub mod WellFormed
pub mod Contents
pub mod Lookup
pub mod Accepts
pub mod Loaded
use enisa_sbd_example.Common.{
  true, false, ℕ, Bool, not, List, [], ◌∷◌, Option, none, some, Bytes, codes, text_eq, length, ◌==◌,
  if◌then◌else◌, Map, lookup, insert, Result, ok, err, ◌>>=◌, ◌>>◌, refuse_if,
}
use enisa_sbd_example.Common.Strings.{cut, trim_space, equal_fold, is_lower_hex, hex_encode}
use enisa_sbd_example.Authn.Identity.{Identity, Entry, is_valid_role}

-- The first check that an entry fails; `LoadStore` adds the two errors of reading its file.
pub data Error : Type 0 where
  empty_store bad_digest_length bad_digest no_subject no_org unknown_role duplicate_digest : Error
  unreadable unparsable : Error

-- A pointer to a store may be nil, which `Option` shows.
pub record Tokens : Type 0 where
  pub by_hash : Map Identity

abbrev pub is_empty : Bytes → Bool
is_empty s = length s == 0

abbrev pub identity_of : Entry → Identity
identity_of e = record { subject = e.subject; org_id = e.org_id; role = e.role }

-- The switch of `NewStore`.
unfoldable pub check_entry : Entry → Result Error (Unit {0})
check_entry e = do
  refuse_if (not (length e.token_sha256 == 64)) bad_digest_length
  refuse_if (not (is_lower_hex e.token_sha256)) bad_digest
  refuse_if (is_empty e.subject) no_subject
  refuse_if (is_empty e.org_id) no_org
  refuse_if (not (is_valid_role e.role)) unknown_role

abbrev pub is_dup : Option Identity → Bool
is_dup none = false
is_dup (some _) = true

-- The loop of `NewStore`, over the entries that are left.
unfoldable pub add_entries : Map Identity → List Entry → Result Error (Map Identity)
add_entries by_hash [] = ok by_hash
add_entries by_hash (e ∷ entries) = do
  check_entry e
  refuse_if (is_dup (lookup e.token_sha256 by_hash)) duplicate_digest
  add_entries (insert e.token_sha256 (identity_of e) by_hash) entries

unfoldable pub new_store : List Entry → Result Error Tokens
new_store [] = err empty_store
new_store (e ∷ entries) = do
  by_hash ← add_entries [] (e ∷ entries)
  ok (record { by_hash = by_hash })

-- Reading the file and parsing its JSON are given: `none` is their failure.
unfoldable pub load_store :
    (Bytes → Option Bytes) → (Bytes → Option (List Entry)) → Bytes → Result Error Tokens
unfolding new_store
load_store read_file parse path = elim (read_file path) [
  | none ↦ err unreadable
  | some raw ↦ elim (parse raw) [ none ↦ err unparsable | some entries ↦ new_store entries ]
]

-- `strings.Cut`, the scheme and the trimmed token of the header's value, which is "" if absent.
unfoldable pub bearer_token : Bytes → Option Bytes
bearer_token header = elim (cut header b' ') [
  | none ↦ none
  | some (scheme, rest) ↦
      if not (equal_fold scheme (codes "Bearer"))
      then none
      else let token = trim_space rest in if is_empty token then none else some token
]

-- SHA-256 is given.
module _ (sum256 : Bytes → Bytes) where
  unfoldable pub hash_token : Bytes → Bytes
  hash_token token = hex_encode (sum256 token)

  -- `s.Lookup(token)`
  unfoldable pub find_token : Option Tokens → Bytes → Option Identity
  unfolding hash_token
  find_token none token = none
  find_token (some s) token = if is_empty token then none else lookup (hash_token token) s.by_hash
