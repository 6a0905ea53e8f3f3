-- ===== src/Common/Maps/Keys.antt =====
-- The entries of a map: keys that occur once, and what holds of every entry.
use mathlib.Core.Path.{◌≡◌, refl, ap, subst₂}
use mathlib.Core.Logic.{inl, inr}
use mathlib.Core.Option.{none, some}
use mathlib.Core.List.{[], ◌∷◌, Memᴰ}
use native.Mathlib.Omega.{arith}
use enisa_sbd_example.Common.Tests.{Bool-cases}
use enisa_sbd_example.Common.Text.{Bytes, text_eq, text_eq_iff}
use enisa_sbd_example.Common.Maps.{Map, lookup, insert, lookup-insert}

module _ {ℓ} {V : Type ℓ} where
  abbrev pub HasDistinctKeys : Map V → Type ℓ
  HasDistinctKeys [] = Unit
  HasDistinctKeys ((k, _) ∷ m) = (lookup k m ≡ none) × HasDistinctKeys m

  pub insert-HasDistinctKeys :
      (k : Bytes) (v : V) (m : Map V) → HasDistinctKeys m → HasDistinctKeys (insert k v m)
  unfolding insert
  insert-HasDistinctKeys k v [] h = (unfold lookup in refl, tt)
  insert-HasDistinctKeys k v ((j, w) ∷ m) (absent, h) = elim (Bool-cases (text_eq j k)) [
    | inl same ↦ let e : j ≡ k = (text_eq_iff j k).0 same in rw same (rw e at absent, h)
    | inr other ↦ rw other (
      ground (arith, lookup-insert k j v m, text_eq_iff k j, text_eq_iff j k),
      insert-HasDistinctKeys k v m h,
    )
  ]

  pub lookup-Memᴰ : (k : Bytes) (v : V) (m : Map V) → lookup k m ≡ some v → Memᴰ (k, v) m
  unfolding lookup
  lookup-Memᴰ k v [] h = cc
  lookup-Memᴰ k v ((j, w) ∷ m) h = elim (Bool-cases (text_eq j k)) [
    | inl same ↦ Memᴰ.head (ground (arith, text_eq_iff j k))
    | inr other ↦ Memᴰ.tail (lookup-Memᴰ k v m (ground arith))
  ]

  pub Memᴰ-lookup :
      (k : Bytes) (v : V) (m : Map V) → HasDistinctKeys m → Memᴰ (k, v) m → lookup k m ≡ some v
  unfolding lookup
  Memᴰ-lookup k v [] d h = elim h [ ]
  Memᴰ-lookup k v ((j, w) ∷ m) d (Memᴰ.head e) =
      let same : k ≡ j = ap (λ p. p.0) e in
      let value : v ≡ w = ap (λ p. p.1) e in ground (arith, text_eq_iff j k)
  Memᴰ-lookup k v ((j, w) ∷ m) (absent, d) (Memᴰ.tail h) =
      ground (arith, Memᴰ-lookup k v m d h, text_eq_iff j k)

module _ {ℓ κ} {V : Type ℓ} (P : Bytes → V → Type κ) where
  abbrev pub AllEntries : Map V → Type κ
  AllEntries [] = Unit
  AllEntries ((k, v) ∷ m) = P k v × AllEntries m

  pub AllEntries-insert :
      (k : Bytes) (v : V) (m : Map V) → AllEntries m → P k v → AllEntries (insert k v m)
  unfolding insert
  AllEntries-insert k v [] _ p = (p, tt)
  AllEntries-insert k v ((j, w) ∷ m) (q, h) p = elim (Bool-cases (text_eq j k)) [
    | inl same ↦ rw same (p, h)
    | inr other ↦ rw other (q, AllEntries-insert k v m h p)
  ]

  pub AllEntries-lookup :
      (k : Bytes) (v : V) (m : Map V) → AllEntries m → lookup k m ≡ some v → P k v
  unfolding lookup
  AllEntries-lookup k v [] _ e = cc
  AllEntries-lookup k v ((j, w) ∷ m) (q, h) e = elim (Bool-cases (text_eq j k)) [
    | inl same ↦
        let key : j ≡ k = (text_eq_iff j k).0 same in
        let value : w ≡ v = ground arith in subst₂ P key value q
    | inr other ↦ AllEntries-lookup k v m h (ground arith)
  ]
