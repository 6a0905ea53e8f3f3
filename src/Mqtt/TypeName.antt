-- ===== src/Mqtt/TypeName.antt =====
-- internal/mqtt/packet.go: the names of packet types.
use enisa_sbd_example.Common.{
  ℕ, ◌+◌, ◌/◌, ◌%◌, [], ◌∷◌, ◌++◌, Bytes, codes, ◌==◌, ltb, if◌then◌else◌,
}
use enisa_sbd_example.Mqtt.Wire.{
  connect_type, connack_type, publish_type, puback_type, pingreq_type, pingresp_type,
  disconnect_type,
}

-- A byte in decimal, as `%d` prints it.
unfoldable pub decimal_byte : ℕ → Bytes
decimal_byte n =
    if ltb n 10
    then (b'0' + n) ∷ []
    else if ltb n 100
    then (b'0' + n / 10) ∷ (b'0' + n % 10) ∷ []
    else (b'0' + n / 100) ∷ (b'0' + n / 10 % 10) ∷ (b'0' + n % 10) ∷ []

-- `t.String()`
unfoldable pub type_name : ℕ → Bytes
type_name t =
    if t == connect_type
    then codes "CONNECT"
    else if t == connack_type
    then codes "CONNACK"
    else if t == publish_type
    then codes "PUBLISH"
    else if t == puback_type
    then codes "PUBACK"
    else if t == pingreq_type
    then codes "PINGREQ"
    else if t == pingresp_type
    then codes "PINGRESP"
    else if t == disconnect_type
    then codes "DISCONNECT"
    else codes "packet(" ++ (decimal_byte t ++ codes ")")
