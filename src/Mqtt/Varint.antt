-- ===== src/Mqtt/Varint.antt =====
-- internal/mqtt/packet.go: the remaining-length encoding.
pub mod RoundTrip
pub mod Bounds
use Prim.Native.Nat.{bit_and, bit_or}
use mathlib.Core.Logic.{dite}
use mathlib.Core.WellFounded.{Acc}
use native.Mathlib.Decide.{dec_lt}
use enisa_sbd_example.Common.{
  ℕ, zero, suc, ◌+◌, ◌*◌, ◌/◌, ◌%◌, ◌^◌, ◌<◌, [], ◌∷◌, ◌++◌, Bytes, ◌==◌, if◌then◌else◌, Result,
  err, ok, ◌>>=◌, arith,
}
use enisa_sbd_example.Common.Order.{lt_wf}
use enisa_sbd_example.Mqtt.Wire.{Error, malformed, Stream, read_byte}

-- The rounds that `for range 4` has left. The value stays below 2 ^ 28, so no `int` wraps.
unfoldable pub read_varint_from : ℕ → ℕ → ℕ → Stream → Result Error (ℕ × Stream)
read_varint_from zero value multiplier r = err malformed
read_varint_from (suc rounds) value multiplier r = do
  (b, rest) ← read_byte r
  let value' = value + bit_and b 0x7f * 2 ^ multiplier
  let more = read_varint_from rounds value' (multiplier + 7) rest
  if bit_and b 0x80 == 0 then ok (value', rest) else more

unfoldable pub read_varint : Stream → Result Error (ℕ × Stream)
unfolding read_varint_from
read_varint r = read_varint_from 4 0 0 r

pub quotient_lt : (n : ℕ) → 0 < n / 128 → n / 128 < n
quotient_lt n h = omega arith

-- The loop ends when the quotient is 0, which falls with every round.
unfoldable pub append_varint_from : Bytes → (n : ℕ) → Acc ◌<◌ n → Bytes
append_varint_from b n (Acc.intro _ smaller) =
    let digit = n % 128 in
    dite (dec_lt 0 (n / 128))
      (λ more.
        append_varint_from (b ++ bit_or digit 0x80 ∷ []) (n / 128) (smaller _ (quotient_lt n more)))
      (λ _. b ++ digit ∷ [])

unfoldable pub append_varint : Bytes → ℕ → Bytes
unfolding append_varint_from lt_wf
append_varint b n = append_varint_from b n (lt_wf.apply n)
