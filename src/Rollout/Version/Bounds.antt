-- ===== src/Rollout/Version/Bounds.antt =====
-- internal/rollout/release.go: what `ParseVersion` accepts is bounded.
use enisa_sbd_example.Common.{
  ℕ, zero, suc, ◌^◌, ◌<◌, ◌≤◌, ◌≡◌, refl, List, [], ◌∷◌, Option, none, some, Bytes, length, All,
  inl, inr, Result-cases, ok, arith,
}
use enisa_sbd_example.Common.Strings.Atoi.{atoi, digits, digits_from-lt, positive_int, negative_int}
use enisa_sbd_example.Rollout.Version.{
  split_dots, cons_head, nonnegative, parse_component, parse_components, parse_version,
}

abbrev pub component_bound : ℕ
component_bound = 1000000

pow_ten_le : (k : ℕ) → k ≤ 6 → 10 ^ k ≤ component_bound
pow_ten_le zero h = omega arith
pow_ten_le (suc zero) h = omega arith
pow_ten_le (suc (suc zero)) h = omega arith
pow_ten_le (suc (suc (suc zero))) h = omega arith
pow_ten_le (suc (suc (suc (suc zero)))) h = omega arith
pow_ten_le (suc (suc (suc (suc (suc zero))))) h = omega arith
pow_ten_le (suc (suc (suc (suc (suc (suc zero)))))) h = omega arith
pow_ten_le (suc (suc (suc (suc (suc (suc (suc k))))))) h = absurd (omega arith)

digits-lt : (s : Bytes) (n : ℕ) → length s ≤ 6 → digits s ≡ some n → n < component_bound
unfolding digits
digits-lt [] n h e = cc
digits-lt (c ∷ s) n h e = omega (arith, digits_from-lt (c ∷ s) 0 n e, pow_ten_le (length (c ∷ s)) h)

positive-lt :
    (o : Option ℕ) (n : ℕ)
    → ((m : ℕ) → o ≡ some m → m < component_bound)
    → nonnegative (positive_int o) ≡ ok n
    → n < component_bound
positive-lt none n h e = cc
positive-lt (some m) n h e = ground (arith, h m refl)

negative-lt : (o : Option ℕ) (n : ℕ) → nonnegative (negative_int o) ≡ ok n → n < component_bound
negative-lt none n e = cc
negative-lt (some zero) n e = ground arith
negative-lt (some (suc m)) n e = ground arith

nonnegative-atoi-lt :
    (p : Bytes) (n : ℕ) → length p ≤ 6 → nonnegative (atoi p) ≡ ok n → n < component_bound
unfolding atoi
nonnegative-atoi-lt [] n h e = cc
nonnegative-atoi-lt (c ∷ s) n h e = ground (
  arith,
  negative-lt (digits s) n,
  positive-lt (digits s) n (λ m. digits-lt s m (omega arith)),
  positive-lt (digits (c ∷ s)) n (λ m. digits-lt (c ∷ s) m h),
)

parse_component-lt : (p : Bytes) (n : ℕ) → parse_component p ≡ ok n → n < component_bound
unfolding parse_component
parse_component-lt [] n e = cc
parse_component-lt (c ∷ p) n e = ground (arith, nonnegative-atoi-lt (c ∷ p) n)

parse_components-lt :
    (ps : List Bytes) (v : List ℕ)
    → parse_components ps ≡ ok v
    → (length v ≡ length ps) × All (λ n. n < component_bound) v
unfolding parse_components
parse_components-lt [] v e = ground arith
parse_components-lt (p ∷ ps) v e = elim (Result-cases (parse_component p)) [
  | inr (x, failed) ↦ ground arith
  | inl (n, parsed) ↦ elim (Result-cases (parse_components ps)) [
    | inr (x, failed) ↦ ground arith
    | inl (ns, rest) ↦
        let same : n ∷ ns ≡ v = ground arith in
        let (len, small) = parse_components-lt ps ns rest in
        rw (← same) (omega (arith, len), (parse_component-lt p n parsed, small))
  ]
]

split_dots-pos : (v : Bytes) → 1 ≤ length (split_dots v)
unfolding split_dots
split_dots-pos [] = omega arith
split_dots-pos (c ∷ s) = ground (arith, cons_head-pos c (split_dots s))
  where
    cons_head-pos : (c : ℕ) (ps : List Bytes) → 1 ≤ length (cons_head c ps)
    cons_head-pos c [] = omega arith
    cons_head-pos c (p ∷ ps) = omega arith

-- A version that is accepted has one to four components, each below a million.
pub parse_version_bounds :
    (text : Bytes) (v : List ℕ)
    → parse_version text ≡ ok v
    → (1 ≤ length v) × (length v ≤ 4) × All (λ n. n < component_bound) v
unfolding parse_version
parse_version_bounds text v e =
    let (short, parsed) = parts in
    let (len, small) = parse_components-lt (split_dots text) v parsed in
    (omega (arith, len, split_dots-pos text), omega (arith, len), small)
  where
    parts : (length (split_dots text) ≤ 4) × (parse_components (split_dots text) ≡ ok v)
    parts = ground arith
