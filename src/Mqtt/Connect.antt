-- ===== src/Mqtt/Connect.antt =====
-- internal/mqtt/packet.go: the CONNECT body.
pub mod RoundTrip
pub mod Credentials
use Prim.Native.Nat.{bit_and}
use enisa_sbd_example.Common.{
  ℕ, not, [], ◌∷◌, ◌++◌, Bytes, codes, text_eq, ◌==◌, if◌then◌else◌, Result, ok, err, ◌>>=◌, ◌>>◌,
  refuse_if,
}
use enisa_sbd_example.Mqtt.Wire.{
  Error, malformed, creds_in_con, protocol_level4, append_uint16, uint16, append_string,
  decode_string,
}

pub record Connect : Type 0 where
  pub client_id : Bytes
  pub level : ℕ
  pub keep_alive : ℕ

abbrev pub protocol_name : Bytes
protocol_name = codes "MQTT"

-- A level of 0 stands for the default.
abbrev pub level_or_default : ℕ → ℕ
level_or_default level = if level == 0 then protocol_level4 else level

unfoldable pub encode_connect : Connect → Bytes
encode_connect c =
    append_string
      (append_uint16 (append_string [] protocol_name ++ level_or_default c.level ∷ 0x02 ∷ [])
        c.keep_alive)
      c.client_id

-- What follows the protocol name: level, flags and keep-alive, then the client id.
unfoldable pub decode_connect_fields : Bytes → Result Error Connect
decode_connect_fields (level ∷ flags ∷ hi ∷ lo ∷ more) = do
  refuse_if (not (level == protocol_level4)) malformed
  refuse_if (not (bit_and flags 0xc0 == 0)) creds_in_con
  (client_id, _) ← decode_string more
  ok (record { client_id = client_id; level = level; keep_alive = uint16 hi lo })
decode_connect_fields _ = err malformed

unfoldable pub decode_connect : Bytes → Result Error Connect
decode_connect body = do
  (name, rest) ← decode_string body
  refuse_if (not (text_eq name protocol_name)) malformed
  decode_connect_fields rest
