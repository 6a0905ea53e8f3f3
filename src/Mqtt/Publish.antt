-- ===== src/Mqtt/Publish.antt =====
-- internal/mqtt/packet.go: the PUBLISH body.
pub mod RoundTrip
pub mod Accepted
use Prim.Native.Nat.{bit_and}
use enisa_sbd_example.Common.{
  ℕ, ◌*◌, ◌/◌, ◌%◌, [], ◌∷◌, ◌++◌, Bytes, ltb, if◌then◌else◌, Result, ok, err, ◌>>=◌, ◌>>◌,
  refuse_if,
}
use enisa_sbd_example.Mqtt.Wire.{
  Error, malformed, append_uint16, uint16, append_string, decode_string,
}

pub record Publish : Type 0 where
  pub topic : Bytes
  pub qos : ℕ
  pub packet_id : ℕ
  pub payload : Bytes

-- The fixed-header flags and the body.
unfoldable pub encode_publish : Publish → ℕ × Bytes
encode_publish p =
    let body = append_string [] p.topic in
    let body' = if ltb 0 p.qos then append_uint16 body p.packet_id else body in
    (bit_and p.qos 0x03 * 2 % 256, body' ++ p.payload)

-- The packet identifier, which is there where the QoS is above 0, and the payload.
unfoldable pub take_packet_id : ℕ → Bytes → Result Error (ℕ × Bytes)
take_packet_id qos rest =
    if ltb 0 qos
    then elim rest [
      | [] ↦ err malformed
      | hi ∷ [] ↦ err malformed
      | hi ∷ lo ∷ payload ↦ ok (uint16 hi lo, payload)
    ]
    else ok (0, rest)

unfoldable pub decode_publish : ℕ → Bytes → Result Error Publish
decode_publish flags body = do
  let qos = bit_and (flags / 2) 0x03
  refuse_if (ltb 1 qos) malformed
  (topic, rest) ← decode_string body
  (packet_id, payload) ← take_packet_id qos rest
  ok (record { topic = topic; qos = qos; packet_id = packet_id; payload = payload })
