-- ===== src/Mqtt/Packet/RoundTrip.antt =====
-- internal/mqtt/packet.go: a packet that `Write` accepts is the packet that `Read` returns.
use Prim.Native.Nat.{bit_and, bit_or}
use enisa_sbd_example.Common.{
  ℕ, ◌+◌, ◌*◌, ◌%◌, ◌<◌, ◌≤◌, ◌≡◌, [], ◌∷◌, ◌++◌, append_assoc, Bytes, length, IsByte, ℤ, ok, arith,
}
use enisa_sbd_example.Common.Bits.{bit_and-0x0f, bit_or_nibbles}
use enisa_sbd_example.Mqtt.Wire.{IoError, max_packet_size, read_byte}
use enisa_sbd_example.Mqtt.Wire.RoundTrip.{read_full-append}
use enisa_sbd_example.Mqtt.Varint.{append_varint}
use enisa_sbd_example.Mqtt.Varint.RoundTrip.{read_varint-append_varint, append_varint-eq}
use enisa_sbd_example.Mqtt.Packet.{packet_limit, read, write}

pub packet_limit-le : (max : ℤ) → packet_limit max ≤ max_packet_size
packet_limit-le max = ground arith

-- The first byte of a packet: type and flags.
pub header : ℕ → ℕ → ℕ
header t flags = t * 16 + flags % 16

write-header :
    (t flags : ℕ)
    → t < 16
    → IsByte flags
    → bit_or (t * 16 % 256) (bit_and flags 0x0f) ≡ header t flags
unfolding header
write-header t flags h k = ground (arith, bit_and-0x0f flags, bit_or_nibbles t (flags % 16))

-- The bytes on the wire: the header, the length, the body.
pub write-eq-ok :
    (t flags : ℕ) (body : Bytes)
    → t < 16
    → IsByte flags
    → length body ≤ max_packet_size
    → write t flags body ≡ ok (header t flags ∷ (append_varint [] (length body) ++ body))
unfolding write
write-eq-ok t flags body ht hf hb =
    ground (arith, write-header t flags, append_varint-eq (header t flags ∷ []) (length body))

-- Whatever fits the limit that the reader asks for is read back as it was written: the type, the
-- low four bits of the flags, the body, and the bytes behind the packet untouched.
pub read-write :
    (t flags : ℕ) (body wire rest : Bytes) (ending : IoError) (max : ℤ)
    → t < 16
    → IsByte flags
    → length body ≤ packet_limit max
    → write t flags body ≡ ok wire
    → read (record { bytes = wire ++ rest; ending = ending }) max
      ≡ ok (
        record { type = t; flags = flags % 16; body = body },
        record { bytes = rest; ending = ending },
      )
unfolding read read_byte header
read-write t flags body wire rest ending max ht hf hb e = ground (
  arith,
  packet_limit-le max,
  write-eq-ok t flags body,
  append_assoc (append_varint [] (length body)) body rest,
  read_varint-append_varint (length body) (body ++ rest) ending,
  read_full-append body rest ending,
  bit_and-0x0f (t * 16 + flags % 16),
)
