-- ===== src/Mqtt/Wire.antt =====
-- internal/mqtt/packet.go: the reader, the errors, big-endian numbers and length-prefixed strings.
pub mod RoundTrip
use enisa_sbd_example.Common.{
  ℕ, ◌+◌, ◌*◌, ◌/◌, ◌%◌, ◌^◌, List, [], ◌∷◌, ◌++◌, Bytes, length, take, drop, leb, ltb, ◌==◌,
  if◌then◌else◌, Result, ok, err,
}

-- What the connection under the reader answers when no byte is left.
pub data IoError : Type 0 where
  eof unexpected_eof closed deadline_exceeded other : IoError

pub data Error : Type 0 where
  malformed too_large creds_in_con : Error
  io : IoError → Error

-- A buffered reader: the bytes that will still arrive, and how the stream ends behind them.
pub record Stream : Type 0 where
  pub bytes : Bytes
  pub ending : IoError

abbrev pub max_packet_size : ℕ
max_packet_size = 65536

abbrev pub protocol_level4 : ℕ
protocol_level4 = 4

abbrev pub connect_type : ℕ
connect_type = 1

abbrev pub connack_type : ℕ
connack_type = 2

abbrev pub publish_type : ℕ
publish_type = 3

abbrev pub puback_type : ℕ
puback_type = 4

abbrev pub pingreq_type : ℕ
pingreq_type = 12

abbrev pub pingresp_type : ℕ
pingresp_type = 13

abbrev pub disconnect_type : ℕ
disconnect_type = 14

-- `r.ReadByte()`
unfoldable pub read_byte : Stream → Result Error (ℕ × Stream)
read_byte s = elim s.bytes [ [] ↦ err (io s.ending) | b ∷ more ↦ ok (b, record s { bytes = more }) ]

-- An end of file inside a block is reported as unexpected.
abbrev pub cut_short : IoError → IoError
cut_short eof = unexpected_eof
cut_short e = e

-- `io.ReadFull(r, body)` for a body of `n` bytes.
unfoldable pub read_full : ℕ → Stream → Result Error (Bytes × Stream)
read_full n s =
    if leb n (length s.bytes)
    then ok (take n s.bytes, record s { bytes = drop n s.bytes })
    else if length s.bytes == 0
    then err (io s.ending)
    else err (io (cut_short s.ending))

-- `binary.BigEndian.AppendUint16(b, v)`
abbrev pub append_uint16 : Bytes → ℕ → Bytes
append_uint16 b v = b ++ (v / 256 % 256) ∷ (v % 256) ∷ []

-- `binary.BigEndian.Uint16` of two bytes.
abbrev pub uint16 : ℕ → ℕ → ℕ
uint16 hi lo = hi * 256 + lo

unfoldable pub append_string : Bytes → Bytes → Bytes
append_string b s = append_uint16 b (length s % 2 ^ 16) ++ s

unfoldable pub decode_string : Bytes → Result Error (Bytes × Bytes)
decode_string [] = err malformed
decode_string (_ ∷ []) = err malformed
decode_string (hi ∷ lo ∷ rest) =
    let n = uint16 hi lo in
    if ltb (length rest + 2) (2 + n) then err malformed else ok (take n rest, drop n rest)
