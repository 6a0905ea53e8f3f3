-- ===== src/Authn/Tokens/Accepts.antt =====
-- internal/authn/authn.go: when `NewStore` succeeds.
use mathlib.Core.List.{cons-ne-nil}
use enisa_sbd_example.Common.{
  ◌≡◌, ◌≢◌, ◌↔◌, refl, List, [], ◌∷◌, none, text_eq_iff, Map, lookup, insert, lookup-insert, ok,
  All, arith,
}
use enisa_sbd_example.Authn.Identity.{Identity, Entry}
use enisa_sbd_example.Authn.Tokens.{Tokens, identity_of, add_entries, new_store}
use enisa_sbd_example.Authn.Tokens.WellFormed.{IsWellFormed, check_entry_iff}
use enisa_sbd_example.Authn.Tokens.Contents.{add_entries-cons, new_store-add_entries}

abbrev pub HasDistinctDigests : List Entry → Type 0
HasDistinctDigests [] = Unit
HasDistinctDigests (e ∷ es) =
    All (λ e'. e.token_sha256 ≢ e'.token_sha256) es × HasDistinctDigests es

-- No digest of the list is in the map.
abbrev IsFresh : Map Identity → List Entry → Type 0
IsFresh m = All (λ e. lookup e.token_sha256 m ≡ none)

IsFresh-insert :
    (m : Map Identity) (e : Entry) (es : List Entry)
    → IsFresh m es
    → All (λ e'. e.token_sha256 ≢ e'.token_sha256) es
    → IsFresh (insert e.token_sha256 (identity_of e) m) es
IsFresh-insert m e [] _ _ = tt
IsFresh-insert m e (c ∷ es) (h, hs) (d, ds) = (
  ground (
    arith,
    text_eq_iff e.token_sha256 c.token_sha256,
    lookup-insert e.token_sha256 c.token_sha256 (identity_of e) m,
  ),
  IsFresh-insert m e es hs ds,
)

IsFresh-of_insert :
    (m : Map Identity) (e : Entry) (es : List Entry)
    → IsFresh (insert e.token_sha256 (identity_of e) m) es
    → IsFresh m es × All (λ e'. e.token_sha256 ≢ e'.token_sha256) es
IsFresh-of_insert m e [] _ = (tt, tt)
IsFresh-of_insert m e (c ∷ es) (h, hs) =
    let (fresh, distinct) = IsFresh-of_insert m e es hs in
    let (f, d) = here in ((f, fresh), (d, distinct))
  where
    here : (lookup c.token_sha256 m ≡ none) × (e.token_sha256 ≢ c.token_sha256)
    here = ground (
      arith,
      text_eq_iff e.token_sha256 c.token_sha256,
      lookup-insert e.token_sha256 c.token_sha256 (identity_of e) m,
    )

add_entries_total :
    (m : Map Identity) (es : List Entry)
    → All IsWellFormed es
    → HasDistinctDigests es
    → IsFresh m es
    → (m' : Map Identity) × (add_entries m es ≡ ok m')
unfolding add_entries
add_entries_total m [] _ _ _ = (m, refl)
add_entries_total m (e ∷ es) (w, ws) (d, ds) (f, fs) =
    let (m', added) =
      add_entries_total (insert e.token_sha256 (identity_of e) m) es ws ds
        (IsFresh-insert m e es fs d) in
    (m', rw ((check_entry_iff e).1 w, f) added)

add_entries_strict :
    (m m' : Map Identity) (es : List Entry)
    → add_entries m es ≡ ok m'
    → All IsWellFormed es × HasDistinctDigests es × IsFresh m es
add_entries_strict m m' [] h = (tt, tt, tt)
add_entries_strict m m' (e ∷ es) h =
    let (passed, new, later) = add_entries-cons m m' e es h in
    let (ws, ds, fs) = add_entries_strict (insert e.token_sha256 (identity_of e) m) m' es later in
    let (fresh, distinct) = IsFresh-of_insert m e es fs in
    (((check_entry_iff e).0 passed, ws), (distinct, ds), (new, fresh))

accepted :
    (es : List Entry) (s : Tokens)
    → new_store es ≡ ok s
    → (es ≢ []) × All IsWellFormed es × HasDistinctDigests es
accepted [] s h = unfold new_store in cc
accepted (e ∷ es) s h =
    let (ws, ds, _) =
      add_entries_strict [] s.by_hash (e ∷ es) (new_store-add_entries (e ∷ es) s h) in
    (cons-ne-nil e es, ws, ds)

IsFresh-nil : (es : List Entry) → IsFresh [] es
IsFresh-nil [] = tt
IsFresh-nil (e ∷ es) = (unfold lookup in refl, IsFresh-nil es)

accepts :
    (es : List Entry)
    → (es ≢ []) × All IsWellFormed es × HasDistinctDigests es
    → (s : Tokens) × (new_store es ≡ ok s)
unfolding new_store
accepts [] (h, _, _) = absurd (h refl)
accepts (e ∷ es) (_, ws, ds) =
    let (m, added) = add_entries_total [] (e ∷ es) ws ds (IsFresh-nil (e ∷ es)) in
    (record { by_hash = m }, rw added)

-- `NewStore` succeeds exactly when there is an entry, every entry is well formed, and no two have
-- the same digest.
pub new_store_iff :
    (entries : List Entry)
    → ((s : Tokens) × (new_store entries ≡ ok s))
      ↔ ((entries ≢ []) × All IsWellFormed entries × HasDistinctDigests entries)
new_store_iff entries = (λ h. accepted entries h.0 h.1, accepts entries)
