-- ===== src/Mqtt/Varint/RoundTrip.antt =====
-- internal/mqtt/packet.go: what `appendVarint` writes is what `readVarint` reads.
use Prim.Native.Nat.{bit_or}
use mathlib.Core.WellFounded.{Acc}
use native.Mathlib.Nat.{div-add-mod}
use native.Mathlib.Numerals.{towards_suc}
use enisa_sbd_example.Common.{
  ℕ, zero, suc, ◌+◌, ◌*◌, ◌/◌, ◌%◌, ◌^◌, ◌<◌, ◌≤◌, ◌≡◌, ap, [], ◌∷◌, ◌++◌, append_assoc, Bytes,
  length, ok, arith,
}
use enisa_sbd_example.Common.Bits.{bit_and-0x7f, bit_and-0x80, bit_or-0x80}
use enisa_sbd_example.Common.Order.{lt_wf}
use enisa_sbd_example.Mqtt.Wire.{IoError, Stream, read_byte}
use enisa_sbd_example.Mqtt.Varint.{
  read_varint_from, read_varint, append_varint_from, append_varint, quotient_lt,
}

-- The loop only appends.
append_varint_from-eq :
    (b : Bytes) (n : ℕ) (w : Acc ◌<◌ n) → append_varint_from b n w ≡ b ++ append_varint_from [] n w
unfolding append_varint_from
append_varint_from-eq b n (Acc.intro _ smaller) =
    let digit : Bytes = bit_or (n % 128) 0x80 ∷ [] in
    grind (
      arith,
      λ (p : 0 < n / 128).
          append_varint_from-eq (b ++ digit) (n / 128) (smaller _ (quotient_lt n p)),
      λ (p : 0 < n / 128). append_varint_from-eq digit (n / 128) (smaller _ (quotient_lt n p)),
      λ (p : 0 < n / 128).
          append_assoc b digit (append_varint_from [] (n / 128) (smaller _ (quotient_lt n p))),
    )

pub append_varint-eq : (b : Bytes) (n : ℕ) → append_varint b n ≡ b ++ append_varint [] n
unfolding append_varint
append_varint-eq b n = append_varint_from-eq b n (lt_wf.apply n)

shift_seven : (s : ℕ) → 2 ^ (s + 7) ≡ 128 * 2 ^ s
shift_seven s = simp towards_suc (omega arith)

-- The lowest seven bits, and the others at their place.
split_low : (n s : ℕ) → n * 2 ^ s ≡ n % 128 * 2 ^ s + n / 128 * 2 ^ (s + 7)
split_low n s = omega (
  arith,
  ap (λ (t : ℕ). t * 2 ^ s) (div-add-mod n 128),
  ap (λ (t : ℕ). n / 128 * t) (shift_seven s),
)

module _ (rest : Bytes) (ending : IoError) where
  abbrev stream : Bytes → Stream
  stream b = record { bytes = b ++ rest; ending = ending }

  read_last_byte :
      (rounds n value multiplier : ℕ)
      → n < 128
      → read_varint_from (suc rounds) value multiplier (stream (n ∷ []))
        ≡ ok (value + n * 2 ^ multiplier, stream [])
  unfolding read_varint_from read_byte
  read_last_byte rounds n value multiplier h = ground (arith, bit_and-0x7f n, bit_and-0x80 n)

  read_inner_byte :
      (rounds d value multiplier : ℕ) (b : Bytes)
      → d < 128
      → read_varint_from (suc rounds) value multiplier (stream (bit_or d 0x80 ∷ b))
        ≡ read_varint_from rounds (value + d * 2 ^ multiplier) (multiplier + 7) (stream b)
  unfolding read_varint_from read_byte
  read_inner_byte rounds d value multiplier b h =
      ground (arith, bit_or-0x80 d, bit_and-0x7f (d + 128), bit_and-0x80 (d + 128))

  read_varint_from-append_varint_from :
      (rounds n value multiplier : ℕ) (w : Acc ◌<◌ n)
      → n < 128 ^ suc rounds
      → read_varint_from (suc rounds) value multiplier (stream (append_varint_from [] n w))
        ≡ ok (value + n * 2 ^ multiplier, stream [])
  unfolding append_varint_from
  read_varint_from-append_varint_from zero n value multiplier (Acc.intro _ smaller) h =
      ground (arith, read_last_byte 0 n value multiplier)
  read_varint_from-append_varint_from (suc rounds) n value multiplier (Acc.intro _ smaller) h =
      grind (
        arith,
        read_last_byte (suc rounds) n value multiplier,
        split_low n multiplier,
        λ (p : 0 < n / 128).
            append_varint_from-eq (bit_or (n % 128) 0x80 ∷ []) (n / 128)
              (smaller _ (quotient_lt n p)),
        λ (p : 0 < n / 128).
            read_inner_byte (suc rounds) (n % 128) value multiplier
              (append_varint_from [] (n / 128) (smaller _ (quotient_lt n p))),
        λ (p : 0 < n / 128).
            read_varint_from-append_varint_from rounds (n / 128) (value + n % 128 * 2 ^ multiplier)
              (multiplier + 7) (smaller _ (quotient_lt n p)) (omega arith),
      )

-- For every length below 2 ^ 28, `readVarint` reads back what `appendVarint` appended, and leaves
-- the bytes that follow.
pub read_varint-append_varint :
    (n : ℕ) (rest : Bytes) (ending : IoError)
    → n < 2 ^ 28
    → read_varint (record { bytes = append_varint [] n ++ rest; ending = ending })
      ≡ ok (n, record { bytes = rest; ending = ending })
unfolding read_varint append_varint
read_varint-append_varint n rest ending h =
    let e : 0 + n * 2 ^ 0 ≡ n = omega arith in
    rw e at (read_varint_from-append_varint_from rest ending 3 n 0 0 (lt_wf.apply n) h)

-- It takes one to four bytes.
length-append_varint_from :
    (rounds n : ℕ) (w : Acc ◌<◌ n)
    → n < 128 ^ suc rounds
    → (1 ≤ length (append_varint_from [] n w)) × (length (append_varint_from [] n w) ≤ suc rounds)
unfolding append_varint_from
length-append_varint_from zero n (Acc.intro _ smaller) h = ground arith
length-append_varint_from (suc rounds) n (Acc.intro _ smaller) h = grind (
  arith,
  λ (p : 0 < n / 128).
      append_varint_from-eq (bit_or (n % 128) 0x80 ∷ []) (n / 128) (smaller _ (quotient_lt n p)),
  λ (p : 0 < n / 128).
      length-append_varint_from rounds (n / 128) (smaller _ (quotient_lt n p)) (omega arith),
)

pub length-append_varint :
    (n : ℕ) → n < 2 ^ 28 → (1 ≤ length (append_varint [] n)) × (length (append_varint [] n) ≤ 4)
unfolding append_varint
length-append_varint n h = length-append_varint_from 3 n (lt_wf.apply n) h
