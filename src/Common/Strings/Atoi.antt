-- ===== src/Common/Strings/Atoi.antt =====
-- Go's `strconv.Atoi`: an optional sign and decimal digits, within a 64-bit `int`.
use Prim.Native.Nat.{ℕ, zero, suc, ◌+◌, ◌-◌, ◌*◌, ◌^◌, ◌<◌, ◌≤◌}
use native.Mathlib.Nat.{pow-suc}
use mathlib.Core.Path.{◌≡◌}
use mathlib.Core.Bool.{Bool, ◌&&◌}
use mathlib.Core.Option.{Option, none, some}
use mathlib.Core.List.{[], ◌∷◌}
use native.Mathlib.Omega.{arith}
use enisa_sbd_example.Common.Tests.{ltb, leb, ◌==◌, if◌then◌else◌}
use enisa_sbd_example.Common.Lists.{length}
use enisa_sbd_example.Common.Text.{Bytes}
use enisa_sbd_example.Common.Int.{ℤ, pos, negsuc}

abbrev pub is_digit : ℕ → Bool
is_digit c = leb b'0' c && leb c b'9'

-- The digits behind the number read so far.
unfoldable pub digits_from : ℕ → Bytes → Option ℕ
digits_from n [] = some n
digits_from n (c ∷ s) =
    let more = digits_from (n * 10 + (c - b'0')) s in if is_digit c then more else none

-- At least one digit.
unfoldable pub digits : Bytes → Option ℕ
unfolding digits_from
digits [] = none
digits (c ∷ s) = digits_from 0 (c ∷ s)

abbrev pub negate : ℕ → ℤ
negate zero = pos 0
negate (suc n) = negsuc n

-- The range of `int`: the magnitude is below 2 ^ 63, or equal to it behind a minus sign.
abbrev pub positive_int : Option ℕ → Option ℤ
positive_int none = none
positive_int (some n) = if ltb n (2 ^ 63) then some (pos n) else none

abbrev pub negative_int : Option ℕ → Option ℤ
negative_int none = none
negative_int (some n) = if leb n (2 ^ 63) then some (negate n) else none

unfoldable pub atoi : Bytes → Option ℤ
unfolding digits
atoi [] = none
atoi (c ∷ s) =
    if c == b'-'
    then negative_int (digits s)
    else if c == b'+'
    then positive_int (digits s)
    else positive_int (digits (c ∷ s))

-- `k` digits spell a number below 10 ^ k.
pub digits_from-lt : (s : Bytes) (n r : ℕ) → digits_from n s ≡ some r → r < (n + 1) * 10 ^ length s
unfolding digits_from
digits_from-lt [] n r h = ground arith
digits_from-lt (c ∷ s) n r h =
    let ih = digits_from-lt s (n * 10 + (c - b'0')) r in
    next_digit (c - b'0') n r (10 ^ length s) (10 ^ suc (length s)) (pow_step (length s))
      (ground arith) (ih (ground arith))
  where
    next_digit : (d n r p q : ℕ) → q ≡ 10 * p → d ≤ 9 → r < (n * 10 + d + 1) * p → r < (n + 1) * q
    next_digit d n r p q e hd hr = rw e (grind arith)

    pow_step : (k : ℕ) → 10 ^ suc k ≡ 10 * 10 ^ k
    pow_step k = omega (arith, pow-suc 10 k)
