-- ===== src/Mqtt/Connect/RoundTrip.antt =====
-- internal/mqtt/packet.go: a CONNECT is decoded to what was encoded.
use enisa_sbd_example.Common.{
  ℕ, ◌/◌, ◌%◌, ◌^◌, ◌<◌, ◌≡◌, [], ◌∷◌, ◌++◌, append_assoc, append-nil, Bytes, length, ok,
  text_eq_refl, arith,
}
use enisa_sbd_example.Mqtt.Wire.{append_string, protocol_level4}
use enisa_sbd_example.Mqtt.Wire.RoundTrip.{
  decode_string-append_string, append_string-eq, uint16_bytes,
}
use enisa_sbd_example.Mqtt.Connect.{
  Connect, protocol_name, level_or_default, encode_connect, decode_connect, decode_connect_fields,
}

-- The body, bracketed to the right.
encode_connect-eq :
    (c : Connect)
    → encode_connect c
      ≡ append_string [] protocol_name
        ++ level_or_default c.level
          ∷ 0x02
          ∷ (c.keep_alive / 256 % 256)
          ∷ (c.keep_alive % 256)
          ∷ append_string [] c.client_id
unfolding encode_connect
encode_connect-eq c = rw append_string-eq (simp append_assoc)

decode_connect_fields-eq_ok :
    (keep_alive : ℕ) (client_id : Bytes)
    → keep_alive < 2 ^ 16
    → length client_id < 2 ^ 16
    → decode_connect_fields (
        protocol_level4
        ∷ 0x02
        ∷ (keep_alive / 256 % 256)
        ∷ (keep_alive % 256)
        ∷ append_string [] client_id)
      ≡ ok (record { client_id = client_id; level = protocol_level4; keep_alive = keep_alive })
unfolding decode_connect_fields
decode_connect_fields-eq_ok keep_alive client_id hk hc = ground (
  arith,
  uint16_bytes keep_alive,
  append-nil (append_string [] client_id),
  decode_string-append_string client_id [],
)

-- With a level of 0, which stands for the default, or of 4, a 16-bit keep-alive and a client id of at
-- most 65535 bytes, decoding what `EncodeConnect` built gives the same CONNECT back, with level 4.
pub decode_connect-encode_connect :
    (c : Connect)
    → level_or_default c.level ≡ protocol_level4
    → c.keep_alive < 2 ^ 16
    → length c.client_id < 2 ^ 16
    → decode_connect (encode_connect c) ≡ ok (record c { level = protocol_level4 })
unfolding decode_connect
decode_connect-encode_connect c hl hk hc =
    rw (encode_connect-eq, hl, decode_string-append_string protocol_name _ (omega arith))
      (ground
        (arith, text_eq_refl protocol_name, decode_connect_fields-eq_ok c.keep_alive c.client_id))
