-- ===== src/Mqtt/Connect/Credentials.antt =====
-- internal/mqtt/packet.go: a CONNECT with a username or a password is refused.
use enisa_sbd_example.Common.{
  ℕ, ◌≤◌, ◌≡◌, ◌≢◌, ◌↔◌, [], ◌∷◌, ◌++◌, Bytes, IsByte, err, text_eq_refl, arith,
}
use enisa_sbd_example.Common.Bits.{bit_and-0xc0}
use enisa_sbd_example.Mqtt.Wire.{append_string, decode_string, protocol_level4, creds_in_con}
use enisa_sbd_example.Mqtt.Wire.RoundTrip.{decode_string-append_string}
use enisa_sbd_example.Mqtt.Connect.{protocol_name, decode_connect, decode_connect_fields}

decode_string-ne-creds : (b : Bytes) → decode_string b ≢ err creds_in_con
unfolding decode_string
decode_string-ne-creds [] e = cc
decode_string-ne-creds (a ∷ []) e = cc
decode_string-ne-creds (a ∷ b ∷ rest) e = ground arith

-- With the protocol name and the level of MQTT 3.1.1, the answer is the credentials error exactly
-- when one of the two top flag bits is set, whatever else the body holds.
decode_connect-creds_iff :
    (flags hi lo : ℕ) (more : Bytes)
    → IsByte flags
    → (decode_connect (append_string [] protocol_name ++ protocol_level4 ∷ flags ∷ hi ∷ lo ∷ more)
        ≡ err creds_in_con)
      ↔ (64 ≤ flags)
unfolding decode_connect decode_connect_fields
decode_connect-creds_iff flags hi lo more h =
    rw (decode_string-append_string protocol_name _ (omega arith))
      (ground (arith, text_eq_refl protocol_name, bit_and-0xc0 flags, decode_string-ne-creds more))
