-- ===== src/Mqtt/Varint/Bounds.antt =====
-- internal/mqtt/packet.go: what `readVarint` returns on any input, well formed or not.
use Prim.Native.Nat.{bit_and}
use enisa_sbd_example.Common.{
  ℕ, zero, suc, ◌+◌, ◌*◌, ◌^◌, ◌<◌, ◌≤◌, ◌≡◌, [], ◌∷◌, Bytes, length, ok, arith,
}
use enisa_sbd_example.Mqtt.Wire.{IoError, Stream, read_byte}
use enisa_sbd_example.Mqtt.Varint.{read_varint_from, read_varint}

-- A successful read takes at least one byte and at most one for each round, and leaves the rest.
read_varint_from_takes :
    (rounds value multiplier n : ℕ) (b : Bytes) (ending : IoError) (rest : Stream)
    → read_varint_from rounds value multiplier (record { bytes = b; ending = ending })
      ≡ ok (n, rest)
    → (length rest.bytes < length b)
      × (length b ≤ length rest.bytes + rounds)
      × (rest.ending ≡ ending)
unfolding read_varint_from read_byte
read_varint_from_takes zero value multiplier n b ending rest e = ground arith
read_varint_from_takes (suc rounds) value multiplier n [] ending rest e = ground arith
read_varint_from_takes (suc rounds) value multiplier n (d ∷ b) ending rest e = ground (
  arith,
  read_varint_from_takes rounds (value + bit_and d 0x7f * 2 ^ multiplier) (multiplier + 7) n b
      ending rest,
)

pub read_varint_takes :
    (n : ℕ) (s rest : Stream)
    → read_varint s ≡ ok (n, rest)
    → (length rest.bytes < length s.bytes)
      × (length s.bytes ≤ length rest.bytes + 4)
      × (rest.ending ≡ s.ending)
unfolding read_varint
read_varint_takes n s rest e = read_varint_from_takes 4 0 0 n s.bytes s.ending rest e
