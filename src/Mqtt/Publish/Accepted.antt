-- ===== src/Mqtt/Publish/Accepted.antt =====
-- internal/mqtt/packet.go: what `DecodePublish` accepts.
use Prim.Native.Nat.{bit_and}
use enisa_sbd_example.Common.{
  ℕ, ◌/◌, ◌%◌, ◌^◌, ◌<◌, ◌≤◌, ◌≡◌, [], ◌∷◌, ◌++◌, append_assoc, Bytes, IsByte, All, length, ok,
  arith, Result-cases, inl, inr,
}
use enisa_sbd_example.Common.Bits.{bit_and-0x03}
use enisa_sbd_example.Mqtt.Wire.{append_string, uint16, decode_string}
use enisa_sbd_example.Mqtt.Wire.RoundTrip.{append_string-decode_string, decode_string-All}
use enisa_sbd_example.Mqtt.Publish.{Publish, encode_publish, decode_publish, take_packet_id}

pub record Accepted (flags : ℕ) (body : Bytes) (p : Publish) : Type 0 where
  pub qos_flag : p.qos ≡ flags / 2 % 4
  pub qos_bound : p.qos ≤ 1
  pub topic_bound : length p.topic < 2 ^ 16
  pub same_body : (encode_publish p).1 ≡ body

packet_id_bytes :
    (hi lo : ℕ)
    → IsByte hi
    → IsByte lo
    → (uint16 hi lo / 256 % 256 ≡ hi) × (uint16 hi lo % 256 ≡ lo)
packet_id_bytes hi lo h l = omega arith

split_packet_id :
    (qos packet_id : ℕ) (b rest payload : Bytes)
    → All IsByte rest
    → take_packet_id qos rest ≡ ok (packet_id, payload)
    → (encode_publish (record { topic = b; qos = qos; packet_id = packet_id; payload = payload })).1
      ≡ append_string [] b ++ rest
unfolding take_packet_id encode_publish
split_packet_id qos packet_id b [] payload h e = ground arith
split_packet_id qos packet_id b (hi ∷ []) payload h e = ground arith
split_packet_id qos packet_id b (hi ∷ lo ∷ rest) payload (hh, (hl, _)) e =
    ground (arith, packet_id_bytes hi lo, append_assoc (append_string [] b) (hi ∷ lo ∷ []) rest)

-- A PUBLISH that is accepted has QoS 0 or 1, as its flags say, and it is the one whose encoding the
-- body is: no byte of the body is dropped or invented.
pub decode_publish-Accepted :
    (flags : ℕ) (body : Bytes) (p : Publish)
    → IsByte flags
    → All IsByte body
    → decode_publish flags body ≡ ok p
    → Accepted flags body p
unfolding decode_publish
decode_publish-Accepted flags body p hf hb e = elim (Result-cases (decode_string body)) [
  | inr (x, failed) ↦ ground (arith, bit_and-0x03 (flags / 2))
  | inl ((topic, rest), split) ↦
      elim (Result-cases (take_packet_id (bit_and (flags / 2) 0x03) rest)) [
        | inr (x, failed) ↦ ground (arith, bit_and-0x03 (flags / 2))
        | inl ((packet_id, payload), numbered) ↦ ground (
          arith,
          bit_and-0x03 (flags / 2),
          append_string-decode_string body topic rest,
          split_packet_id (bit_and (flags / 2) 0x03) packet_id topic rest payload
              (decode_string-All body topic rest hb split) numbered,
        )
      ]
]
