-- ===== src/Common/Lists/Newest.antt =====
-- Reading a list from its end: the first `i` elements, and the one behind them.
use Prim.Native.Nat.{ℕ, zero, suc, ◌<◌}
use mathlib.Core.Path.{◌≡◌, refl, ap}
use mathlib.Core.Option.{some}
use mathlib.Core.List.{List, [], ◌∷◌, ◌++◌, reverse, reverse-append}
use native.Mathlib.Omega.{arith}
use enisa_sbd_example.Common.Lists.{length, get_elem?, take}

module _ {ℓ} {A : Type ℓ} where
  pub get_elem?-of_lt : (xs : List A) (i : ℕ) → i < length xs → (x : A) × (get_elem? xs i ≡ some x)
  get_elem?-of_lt [] i h = absurd (omega arith)
  get_elem?-of_lt (x ∷ xs) zero h = (x, refl)
  get_elem?-of_lt (x ∷ xs) (suc i) h = get_elem?-of_lt xs i (omega arith)

  take-suc :
      (xs : List A) (i : ℕ) (x : A)
      → get_elem? xs i ≡ some x
      → take (suc i) xs ≡ take i xs ++ x ∷ []
  take-suc [] i x e = ground arith
  take-suc (y ∷ xs) zero x e = ground arith
  take-suc (y ∷ xs) (suc i) x e = ap (◌∷◌ y) (take-suc xs i x e)

  -- Backwards, the element at `i` comes before those in front of it.
  pub reverse-take-suc :
      (xs : List A) (i : ℕ) (x : A)
      → get_elem? xs i ≡ some x
      → reverse (take (suc i) xs) ≡ x ∷ reverse (take i xs)
  reverse-take-suc xs i x e = rw (take-suc xs i x e, reverse-append)

  pub take-length : (xs : List A) → take (length xs) xs ≡ xs
  take-length [] = refl
  take-length (x ∷ xs) = ap (◌∷◌ x) (take-length xs)

  pub take-nil : (n : ℕ) → take {A = A} n [] ≡ []
  take-nil zero = refl
  take-nil (suc n) = refl

  pub take_step : (n k : ℕ) (x : A) (xs : List A) → n ≡ suc k → take n (x ∷ xs) ≡ x ∷ take k xs
  take_step n k x xs e = rw e

  pub take_zero : (n : ℕ) (xs : List A) → n ≡ 0 → take n xs ≡ []
  take_zero n xs e = rw e
