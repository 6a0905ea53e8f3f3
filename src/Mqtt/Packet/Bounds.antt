-- ===== src/Mqtt/Packet/Bounds.antt =====
-- internal/mqtt/packet.go: what `Read` returns on any input.
use enisa_sbd_example.Common.{◌+◌, ◌≤◌, ◌≡◌, [], ◌∷◌, Bytes, length, ℤ, ok, inl, inr, arith}
use enisa_sbd_example.Mqtt.Wire.{IoError, Stream, max_packet_size, read_byte, read_full}
use enisa_sbd_example.Mqtt.Wire.RoundTrip.{read_full_takes}
use enisa_sbd_example.Mqtt.Varint.{read_varint}
use enisa_sbd_example.Mqtt.Varint.Bounds.{read_varint_takes}
use enisa_sbd_example.Mqtt.Packet.{Packet, packet_limit, read}
use enisa_sbd_example.Mqtt.Packet.RoundTrip.{packet_limit-le}
use enisa_sbd_example.Common.{Result-cases}

-- The parts of a successful read.
pub record ReadParts (s : Stream) (max : ℤ) (p : Packet) (rest : Stream) : Type 0 where
  pub within_limit : length p.body ≤ packet_limit max
  pub within_maximum : length p.body ≤ max_packet_size
  pub consumed_least : length rest.bytes + length p.body + 2 ≤ length s.bytes
  pub consumed_most : length s.bytes ≤ length rest.bytes + length p.body + 5
  pub same_ending : rest.ending ≡ s.ending

module _ (ending : IoError) (rest : Stream) (max : ℤ) (p : Packet) where
  read-ReadParts_from :
      (b : Bytes)
      → read (record { bytes = b; ending = ending }) max ≡ ok (p, rest)
      → ReadParts (record { bytes = b; ending = ending }) max p rest
  unfolding read read_byte
  read-ReadParts_from [] e = cc
  read-ReadParts_from (h ∷ b) e =
      elim (Result-cases (read_varint (record { bytes = b; ending = ending }))) [
        | inr (x, failed) ↦ ground arith
        | inl ((n, r₂), measured) ↦ elim (Result-cases (read_full n r₂)) [
          | inr (x, failed) ↦ ground arith
          | inl ((body, r₃), filled) ↦ ground (
            arith,
            packet_limit-le max,
            read_varint_takes n (record { bytes = b; ending = ending }) r₂ measured,
            read_full_takes n r₂ r₃ body filled,
          )
        ]
      ]

-- A packet that `Read` returns is within the limit asked for and within 64 KiB, and its header took
-- two to five bytes.
pub read-ReadParts :
    (s rest : Stream) (max : ℤ) (p : Packet) → read s max ≡ ok (p, rest) → ReadParts s max p rest
read-ReadParts s rest max p e = read-ReadParts_from s.ending rest max p s.bytes e
