-- ===== src/Rollout/Version.antt =====
-- internal/rollout/release.go: version numbers and their order.
pub mod Bounds
pub mod Order
use enisa_sbd_example.Common.{
  ℕ, zero, suc, ◌+◌, Bool, true, ◌&&◌, ◌||◌, List, [], ◌∷◌, Option, none, some, Bytes, length,
  get_elem?, ltb, ◌==◌, if◌then◌else◌, ℤ, pos, negsuc, Result, ok, err, ◌>>=◌, ◌>>◌, refuse_if,
}
use Prim.Native.Nat.{max}
use enisa_sbd_example.Common.Strings.Atoi.{atoi}

pub data VersionError : Type 0 where
  empty_version too_many_components malformed_component non_numeric_component : VersionError

abbrev pub cons_head : ℕ → List Bytes → List Bytes
cons_head c [] = (c ∷ []) ∷ []
cons_head c (p ∷ ps) = (c ∷ p) ∷ ps

-- `strings.Split(v, ".")`
unfoldable pub split_dots : Bytes → List Bytes
split_dots [] = [] ∷ []
split_dots (c ∷ s) = if c == b'.' then [] ∷ split_dots s else cons_head c (split_dots s)

-- `p == "" || len(p) > 6 || (len(p) > 1 && p[0] == '0')`
abbrev pub is_malformed : Bytes → Bool
is_malformed [] = true
is_malformed (c ∷ p) = ltb 6 (length (c ∷ p)) || (ltb 1 (length (c ∷ p)) && c == b'0')

-- `n, err := strconv.Atoi(p); if err != nil || n < 0`
abbrev pub nonnegative : Option ℤ → Result VersionError ℕ
nonnegative none = err non_numeric_component
nonnegative (some (pos n)) = ok n
nonnegative (some (negsuc n)) = err non_numeric_component

unfoldable pub parse_component : Bytes → Result VersionError ℕ
parse_component p = if is_malformed p then err malformed_component else nonnegative (atoi p)

-- The loop over the parts.
unfoldable pub parse_components : List Bytes → Result VersionError (List ℕ)
parse_components [] = ok []
parse_components (p ∷ ps) = do n ← parse_component p; ns ← parse_components ps; ok (n ∷ ns)

unfoldable pub parse_version : Bytes → Result VersionError (List ℕ)
parse_version v = do
  refuse_if (length v == 0) empty_version
  let parts = split_dots v
  refuse_if (ltb 4 (length parts)) too_many_components
  parse_components parts

abbrev pub or_zero : Option ℕ → ℕ
or_zero none = 0
or_zero (some n) = n

-- `at(v, i)`
abbrev pub component_at : List ℕ → ℕ → ℕ
component_at v i = or_zero (get_elem? v i)

-- The loop, with the rounds that are left and the index.
unfoldable pub compare_from : ℕ → ℕ → List ℕ → List ℕ → ℤ
compare_from zero i av bv = pos 0
compare_from (suc rounds) i av bv =
    let x = component_at av i in
    let y = component_at bv i in
    let later = compare_from rounds (i + 1) av bv in
    if ltb x y then negsuc 0 else if ltb y x then pos 1 else later

unfoldable pub compare_versions : Bytes → Bytes → Result VersionError ℤ
compare_versions a b = do
  av ← parse_version a
  bv ← parse_version b
  ok (compare_from (max (length av) (length bv)) 0 av bv)
