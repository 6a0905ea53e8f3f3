-- ===== src/Rollout/Version/Order.antt =====
-- internal/rollout/release.go: `CompareVersions` is the order of the numbers that versions spell.
use Prim.Native.Nat.{max}
use enisa_sbd_example.Common.{
  ℕ, zero, suc, ◌+◌, ◌*◌, ◌<◌, ◌≤◌, ◌≡◌, ◌∙◌, refl, ap, List, [], ◌∷◌, Bytes, length, All, ltb,
  if◌then◌else◌, ℤ, pos, negsuc, ok, arith,
}
use enisa_sbd_example.Rollout.Version.{parse_version, component_at, compare_from, compare_versions}
use enisa_sbd_example.Rollout.Version.Bounds.{component_bound, parse_version_bounds}

-- A version as one number: four components of six decimal digits, the missing ones zero.
abbrev pub rank : List ℕ → ℕ
rank v =
    ((component_at v 0 * component_bound + component_at v 1) * component_bound + component_at v 2)
      * component_bound
    + component_at v 3

-- -1, 0 or 1.
abbrev pub order_of : ℕ → ℕ → ℤ
order_of a b = if ltb a b then negsuc 0 else if ltb b a then pos 1 else pos 0

component_at-beyond : (v : List ℕ) (i : ℕ) → length v ≤ i → component_at v i ≡ 0
component_at-beyond [] i h = refl
component_at-beyond (n ∷ v) zero h = absurd (omega arith)
component_at-beyond (n ∷ v) (suc i) h = component_at-beyond v i (omega arith)

component_at-lt :
    (v : List ℕ) (i : ℕ) → All (λ n. n < component_bound) v → component_at v i < component_bound
component_at-lt [] i h = omega arith
component_at-lt (n ∷ v) zero (h, _) = h
component_at-lt (n ∷ v) (suc i) (_, h) = component_at-lt v i h

-- Rounds past the end of both versions change nothing.
compare_from-more :
    (rounds more i : ℕ) (av bv : List ℕ)
    → length av ≤ i + rounds
    → length bv ≤ i + rounds
    → rounds ≤ more
    → compare_from rounds i av bv ≡ compare_from more i av bv
unfolding compare_from
compare_from-more zero zero i av bv ha hb hm = refl
compare_from-more zero (suc more) i av bv ha hb hm = ground (
  arith,
  component_at-beyond av i,
  component_at-beyond bv i,
  compare_from-more zero more (i + 1) av bv,
)
compare_from-more (suc rounds) zero i av bv ha hb hm = absurd (omega arith)
compare_from-more (suc rounds) (suc more) i av bv ha hb hm =
    ground (arith, compare_from-more rounds more (i + 1) av bv)

lexicographic :
    (a b c d w x y z : ℕ)
    → (b < component_bound) × (c < component_bound) × (d < component_bound)
    → (x < component_bound) × (y < component_bound) × (z < component_bound)
    → (if ltb a w
        then negsuc 0
        else if ltb w a
        then pos 1
        else if ltb b x
        then negsuc 0
        else if ltb x b
        then pos 1
        else if ltb c y
        then negsuc 0
        else if ltb y c
        then pos 1
        else order_of d z)
      ≡ order_of
          (((a * component_bound + b) * component_bound + c) * component_bound + d)
          (((w * component_bound + x) * component_bound + y) * component_bound + z)
lexicographic a b c d w x y z h k = ground arith

compare_from_four :
    (av bv : List ℕ)
    → All (λ n. n < component_bound) av
    → All (λ n. n < component_bound) bv
    → compare_from 4 0 av bv ≡ order_of (rank av) (rank bv)
unfolding compare_from
compare_from_four av bv ha hb =
    lexicographic (component_at av 0) (component_at av 1) (component_at av 2) (component_at av 3)
      (component_at bv 0) (component_at bv 1) (component_at bv 2) (component_at bv 3)
      (component_at-lt av 1 ha, component_at-lt av 2 ha, component_at-lt av 3 ha)
      (component_at-lt bv 1 hb, component_at-lt bv 2 hb, component_at-lt bv 3 hb)

-- Comparing two versions that parse gives the order of their ranks, the numbers that four components
-- spell in base one million, absent ones being 0.
pub compare_versions-rank :
    (a b : Bytes) (av bv : List ℕ)
    → parse_version a ≡ ok av
    → parse_version b ≡ ok bv
    → compare_versions a b ≡ ok (order_of (rank av) (rank bv))
unfolding compare_versions
compare_versions-rank a b av bv ha hb =
    let (_, la, sa) = parse_version_bounds a av ha in
    let (_, lb, sb) = parse_version_bounds b bv hb in
    rw (ha, hb)
      (ap ok (
        compare_from-more (max (length av) (length bv)) 4 0 av bv (omega arith) (omega arith)
          (omega arith)
        ∙ compare_from_four av bv sa sb))
