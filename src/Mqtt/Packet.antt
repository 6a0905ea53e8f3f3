-- ===== src/Mqtt/Packet.antt =====
-- internal/mqtt/packet.go: control packets with their body still encoded.
pub mod RoundTrip
pub mod Bounds
use Prim.Native.Nat.{bit_and, bit_or}
use enisa_sbd_example.Common.{
  ℕ, ◌+◌, ◌*◌, ◌/◌, ◌%◌, Bool, ◌||◌, not, ◌&&◌, [], ◌∷◌, ◌++◌, Bytes, length, ltb, ◌==◌,
  if◌then◌else◌, ℤ, pos, is_nonpositive, exceeds, magnitude, Result, ok, err, ◌>>=◌, ◌>>◌,
  refuse_if,
}
use enisa_sbd_example.Mqtt.Wire.{
  Error, malformed, too_large, Stream, max_packet_size, read_byte, read_full, append_uint16,
  connack_type, puback_type,
}
use enisa_sbd_example.Mqtt.Varint.{read_varint, append_varint}

-- A packet type is a byte in Go, of which the wire keeps four bits.
pub record Packet : Type 0 where
  pub type : ℕ
  pub flags : ℕ
  pub body : Bytes

-- `if max <= 0 || max > MaxPacketSize { max = MaxPacketSize }`
abbrev pub packet_limit : ℤ → ℕ
packet_limit max =
    if is_nonpositive max || exceeds max max_packet_size then max_packet_size else magnitude max

unfoldable pub read : Stream → ℤ → Result Error (Packet × Stream)
read r max = do
  (h, r₁) ← read_byte r
  (n, r₂) ← read_varint r₁
  refuse_if (ltb (packet_limit max) n) too_large
  (body, r₃) ← read_full n r₂
  ok (record { type = h / 16; flags = bit_and h 0x0f; body = body }, r₃)

-- The bytes that `Write` hands to the writer.
unfoldable pub write : ℕ → ℕ → Bytes → Result Error Bytes
write t flags body =
    if ltb max_packet_size (length body)
    then err too_large
    else ok (append_varint (bit_or (t * 16 % 256) (bit_and flags 0x0f) ∷ []) (length body) ++ body)

abbrev pub conn_accepted : ℕ
conn_accepted = 0

abbrev pub conn_refused_bad_protocol : ℕ
conn_refused_bad_protocol = 1

abbrev pub conn_refused_not_authed : ℕ
conn_refused_not_authed = 5

unfoldable pub write_conn_ack : ℕ → Result Error Bytes
unfolding write
write_conn_ack code = write connack_type 0 (0 ∷ code ∷ [])

-- `p.Body[1]` where the body has two bytes.
conn_ack_code : Packet → Stream → Bytes → Result Error (ℕ × Stream)
conn_ack_code p rest (_ ∷ code ∷ []) =
    if p.type == connack_type then ok (code, rest) else err malformed
conn_ack_code p rest _ = err malformed

unfoldable pub read_conn_ack : Stream → Result Error (ℕ × Stream)
unfolding read conn_ack_code
read_conn_ack r = do (p, rest) ← read r (pos 8); conn_ack_code p rest p.body

unfoldable pub write_pub_ack : ℕ → Result Error Bytes
unfolding write
write_pub_ack packet_id = write puback_type 0 (append_uint16 [] packet_id)
