-- ===== src/Tests/Wire.antt =====
-- internal/mqtt: packets on the wire.
use enisa_sbd_example.Common.{◌≡◌, refl, [], ◌∷◌, ◌++◌, codes, pos, ok, arith}
use enisa_sbd_example.Common.Strings.{trim_space}
use enisa_sbd_example.Mqtt.TypeName.{decimal_byte, type_name}
use enisa_sbd_example.Mqtt.Wire.{IoError, decode_string}
use enisa_sbd_example.Mqtt.Varint.{append_varint, append_varint_from}
use enisa_sbd_example.Mqtt.Packet.{read, write}
use enisa_sbd_example.Mqtt.Packet.RoundTrip.{read-write}
use enisa_sbd_example.Mqtt.Connect.{Connect, encode_connect, decode_connect}
use enisa_sbd_example.Mqtt.Connect.RoundTrip.{decode_connect-encode_connect}
use enisa_sbd_example.Mqtt.Publish.{Publish, decode_publish, take_packet_id}
use enisa_sbd_example.Mqtt.Publish.Accepted.{Accepted, decode_publish-Accepted}

trim_both : trim_space (codes "  a b ") ≡ codes "a b"
unfolding trim_space
trim_both = refl

abbrev hello : Publish
hello = record { topic = codes "a/b"; qos = 1; packet_id = 258; payload = 7 ∷ 8 ∷ [] }

abbrev client : Connect
client = record { client_id = codes "d1"; level = 0; keep_alive = 60 }

read-write_example :
    read (record { bytes = (50 ∷ 2 ∷ 104 ∷ 105 ∷ []) ++ 1 ∷ []; ending = IoError.eof }) (pos 8)
    ≡ ok (
      record { type = 3; flags = 2; body = codes "hi" },
      record { bytes = 1 ∷ []; ending = IoError.eof },
    )
unfolding write append_varint append_varint_from native.Mathlib.Decide.dec_lt
read-write_example =
    read-write 3 2 (codes "hi") (50 ∷ 2 ∷ 104 ∷ 105 ∷ []) (1 ∷ []) IoError.eof (pos 8) (omega arith)
      (omega arith) (omega arith) refl

decode_connect-encode_connect_example :
    decode_connect (encode_connect client) ≡ ok (record client { level = 4 })
decode_connect-encode_connect_example =
    decode_connect-encode_connect client refl (omega arith) (omega arith)

decode_publish-Accepted_example :
    Accepted 2
      (0 ∷ 1 ∷ 97 ∷ 1 ∷ 2 ∷ 7 ∷ [])
      (record { topic = codes "a"; qos = 1; packet_id = 258; payload = 7 ∷ [] })
unfolding decode_publish decode_string take_packet_id
decode_publish-Accepted_example =
    decode_publish-Accepted 2 (0 ∷ 1 ∷ 97 ∷ 1 ∷ 2 ∷ 7 ∷ [])
      (record { topic = codes "a"; qos = 1; packet_id = 258; payload = 7 ∷ [] }) (omega arith)
      (ground arith) refl

known_name : type_name 12 ≡ codes "PINGREQ"
unfolding type_name
known_name = refl

unknown_name : type_name 15 ≡ codes "packet(15)"
unfolding type_name decimal_byte
unknown_name = refl
