-- ===== src/Authn/Tokens/Contents.antt =====
-- internal/authn/authn.go: what the store holds after `NewStore`.
use mathlib.Core.List.{Memᴰ}
use enisa_sbd_example.Common.{
  ◌≡◌, ◌⊎◌, inl, inr, refl, List, [], ◌∷◌, none, some, Bytes, text_eq, text_eq_iff, text_eq_refl,
  Map, lookup, insert, lookup-insert, ok, Result-cases, Option-cases, Bool-cases, arith,
}
use enisa_sbd_example.Authn.Identity.{Identity, Entry}
use enisa_sbd_example.Authn.Tokens.{Tokens, identity_of, check_entry, add_entries, new_store}
use enisa_sbd_example.Authn.Tokens.WellFormed.{IsWellFormed, check_entry_iff}

-- The parts of one successful round.
pub add_entries-cons :
    (m m' : Map Identity) (e : Entry) (es : List Entry)
    → add_entries m (e ∷ es) ≡ ok m'
    → (check_entry e ≡ ok tt)
      × (lookup e.token_sha256 m ≡ none)
      × (add_entries (insert e.token_sha256 (identity_of e) m) es ≡ ok m')
unfolding add_entries
add_entries-cons m m' e es h = elim (Result-cases (check_entry e)) [
  | inr (x, refused) ↦ ground arith
  | inl (tt, passed) ↦ elim (Option-cases (lookup e.token_sha256 m)) [
    | inl new ↦ ground arith
    | inr (id, old) ↦ ground arith
  ]
]

-- No round overwrites an identity.
add_entries_keeps :
    (m m' : Map Identity) (es : List Entry) (d : Bytes) (id : Identity)
    → add_entries m es ≡ ok m'
    → lookup d m ≡ some id
    → lookup d m' ≡ some id
add_entries_keeps m m' [] d id h k = unfold add_entries in ground arith
add_entries_keeps m m' (e ∷ es) d id h k =
    let (passed, new, later) = add_entries-cons m m' e es h in
    add_entries_keeps (insert e.token_sha256 (identity_of e) m) m' es d id later (
      ground
        (arith, text_eq_iff e.token_sha256 d, lookup-insert e.token_sha256 d (identity_of e) m))

-- Every entry is in the map that the loop returns, and passed the checks.
add_entries_has :
    (m m' : Map Identity) (es : List Entry) (e : Entry)
    → add_entries m es ≡ ok m'
    → Memᴰ e es
    → (lookup e.token_sha256 m' ≡ some (identity_of e)) × IsWellFormed e
add_entries_has m m' [] e h mem = elim mem [ ]
add_entries_has m m' (c ∷ es) e h (Memᴰ.head same) =
    let (passed, new, later) = add_entries-cons m m' c es h in
    rw same (
      add_entries_keeps (insert c.token_sha256 (identity_of c) m) m' es c.token_sha256
          (identity_of c) later (rw (lookup-insert, text_eq_refl)),
      (check_entry_iff c).0 passed,
    )
add_entries_has m m' (c ∷ es) e h (Memᴰ.tail later) =
    add_entries_has (insert c.token_sha256 (identity_of c) m) m' es e
      (add_entries-cons m m' c es h).2 later

-- Where an identity in the returned map comes from.
pub record Origin (es : List Entry) (d : Bytes) (id : Identity) : Type 0 where
  pub entry : Entry
  pub listed : Memᴰ entry es
  pub same_digest : entry.token_sha256 ≡ d
  pub same_identity : identity_of entry ≡ id

Origin-cons :
    {es : List Entry} {d : Bytes} {id : Identity} (e : Entry)
    → Origin es d id
    → Origin (e ∷ es) d id
Origin-cons e o = record {
  entry = o.entry;
  listed = Memᴰ.tail o.listed;
  same_digest = o.same_digest;
  same_identity = o.same_identity;
}

add_entries-Origin :
    (m m' : Map Identity) (es : List Entry) (d : Bytes) (id : Identity)
    → add_entries m es ≡ ok m'
    → lookup d m' ≡ some id
    → (lookup d m ≡ some id) ⊎ Origin es d id
add_entries-Origin m m' [] d id h k = unfold add_entries in ground arith
add_entries-Origin m m' (e ∷ es) d id h k =
    let (passed, new, later) = add_entries-cons m m' e es h in
    elim (add_entries-Origin (insert e.token_sha256 (identity_of e) m) m' es d id later k) [
      | inr o ↦ inr (Origin-cons e o)
      | inl found ↦ elim (Bool-cases (text_eq e.token_sha256 d)) [
        | inl same ↦ inr (record {
          entry = e;
          listed = Memᴰ.head refl;
          same_digest = (text_eq_iff e.token_sha256 d).0 same;
          same_identity = ground (arith, lookup-insert e.token_sha256 d (identity_of e) m);
        })
        | inr other ↦ inl (ground (arith, lookup-insert e.token_sha256 d (identity_of e) m))
      ]
    ]

pub new_store-add_entries :
    (entries : List Entry) (s : Tokens)
    → new_store entries ≡ ok s
    → add_entries [] entries ≡ ok s.by_hash
unfolding new_store
new_store-add_entries [] s h = cc
new_store-add_entries (e ∷ es) s h = elim (Result-cases (add_entries [] (e ∷ es))) [
  | inl (m, added) ↦ ground arith
  | inr (x, refused) ↦ ground arith
]

pub new_store-has :
    (entries : List Entry) (s : Tokens) (e : Entry)
    → new_store entries ≡ ok s
    → Memᴰ e entries
    → (lookup e.token_sha256 s.by_hash ≡ some (identity_of e)) × IsWellFormed e
new_store-has entries s e h mem =
    add_entries_has [] s.by_hash entries e (new_store-add_entries entries s h) mem

pub new_store-Origin :
    (entries : List Entry) (s : Tokens) (d : Bytes) (id : Identity)
    → new_store entries ≡ ok s
    → lookup d s.by_hash ≡ some id
    → Origin entries d id
new_store-Origin entries s d id h k =
    elim (add_entries-Origin [] s.by_hash entries d id (new_store-add_entries entries s h) k) [
      | inl found ↦ absurd (nothing found)
      | inr o ↦ o
    ]
  where
    nothing : lookup {V = Identity} d [] ≡ some id → ⊥
    nothing found = unfold lookup in cc
