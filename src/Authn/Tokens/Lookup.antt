-- ===== src/Authn/Tokens/Lookup.antt =====
-- internal/authn/authn.go: which tokens `Lookup` resolves, and to whom.
use mathlib.Core.List.{Memᴰ}
use enisa_sbd_example.Common.{
  ◌≡◌, ◌≢◌, ◌↔◌, refl, sym, ap, ◌∙◌, List, [], ◌∷◌, some, Bytes, lookup, ok, arith,
}
use enisa_sbd_example.Authn.Identity.{Identity, Entry}
use enisa_sbd_example.Authn.Tokens.{Tokens, identity_of, new_store, hash_token, find_token}
use enisa_sbd_example.Authn.Tokens.WellFormed.{IsWellFormed}
use enisa_sbd_example.Authn.Tokens.Contents.{new_store-has, new_store-Origin}

module _ (sum256 : Bytes → Bytes) where
  find_token-ok :
      (s : Tokens) (token : Bytes) (id : Identity)
      → find_token sum256 (some s) token ≡ some id
      → (token ≢ []) × (lookup (hash_token sum256 token) s.by_hash ≡ some id)
  unfolding find_token
  find_token-ok s [] id h = cc
  find_token-ok s (c ∷ token) id h = ground arith

  find_token-eq :
      (s : Tokens) (token : Bytes)
      → token ≢ []
      → find_token sum256 (some s) token ≡ lookup (hash_token sum256 token) s.by_hash
  unfolding find_token
  find_token-eq s [] h = absurd (h refl)
  find_token-eq s (c ∷ token) h = ground arith

  -- What is known of a caller whose token resolves.
  pub record IsKnown (entries : List Entry) (token : Bytes) (id : Identity) : Type 0 where
    pub presented : token ≢ []
    pub entry : Entry
    pub listed : Memᴰ entry entries
    pub well_formed : IsWellFormed entry
    pub same_digest : entry.token_sha256 ≡ hash_token sum256 token
    pub same_identity : identity_of entry ≡ id

  -- A store that `NewStore` built resolves a token to an identity exactly when the token is not
  -- empty and its digest is that of a well-formed entry with that subject, organisation and role.
  pub find_token_iff :
      (entries : List Entry) (s : Tokens) (token : Bytes) (id : Identity)
      → new_store entries ≡ ok s
      → (find_token sum256 (some s) token ≡ some id) ↔ IsKnown entries token id
  find_token_iff entries s token id built = (to, from)
    where
      to : find_token sum256 (some s) token ≡ some id → IsKnown entries token id
      to h =
          let (presented, found) = find_token-ok s token id h in
          let o = new_store-Origin entries s (hash_token sum256 token) id built found in
          record {
            presented = presented;
            entry = o.entry;
            listed = o.listed;
            well_formed = (new_store-has entries s o.entry built o.listed).1;
            same_digest = o.same_digest;
            same_identity = o.same_identity;
          }

      from : IsKnown entries token id → find_token sum256 (some s) token ≡ some id
      from k =
          find_token-eq s token k.presented
          ∙ ap (λ d. lookup d s.by_hash) (sym k.same_digest)
          ∙ (new_store-has entries s k.entry built k.listed).0
          ∙ ap some k.same_identity
