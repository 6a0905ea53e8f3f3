-- ===== src/Mqtt/Publish/RoundTrip.antt =====
-- internal/mqtt/packet.go: a PUBLISH is decoded to what was encoded.
use Prim.Native.Nat.{bit_and}
use enisa_sbd_example.Common.{
  ◌*◌, ◌/◌, ◌%◌, ◌^◌, ◌<◌, ◌≤◌, ◌≡◌, [], ◌∷◌, append_assoc, ltb, length, ok, if◌then◌else◌, arith,
}
use enisa_sbd_example.Common.Bits.{bit_and-0x03}
use enisa_sbd_example.Mqtt.Wire.{append_string}
use enisa_sbd_example.Mqtt.Wire.RoundTrip.{decode_string-append_string, uint16_bytes}
use enisa_sbd_example.Mqtt.Publish.{Publish, encode_publish, decode_publish, take_packet_id}

-- At QoS 0 no packet identifier is on the wire, and the decoder reports 0.
abbrev pub on_the_wire : Publish → Publish
on_the_wire p = record p { packet_id = if ltb 0 p.qos then p.packet_id else 0 }

-- With the QoS below 2, a topic of at most 65535 bytes and a 16-bit packet identifier, decoding what
-- `EncodePublish` built gives the same PUBLISH back.
pub decode_publish-encode_publish :
    (p : Publish)
    → p.qos ≤ 1
    → length p.topic < 2 ^ 16
    → p.packet_id < 2 ^ 16
    → decode_publish (encode_publish p).0 (encode_publish p).1 ≡ ok (on_the_wire p)
unfolding decode_publish encode_publish take_packet_id
decode_publish-encode_publish p hq ht hi = ground (
  arith,
  bit_and-0x03 p.qos,
  bit_and-0x03 (bit_and p.qos 0x03 * 2 % 256 / 2),
  uint16_bytes p.packet_id,
  append_assoc (append_string [] p.topic) ((p.packet_id / 256 % 256) ∷ (p.packet_id % 256) ∷ [])
      p.payload,
  decode_string-append_string p.topic p.payload,
  decode_string-append_string p.topic ((p.packet_id / 256 % 256) ∷ (p.packet_id % 256) ∷ p.payload),
)
