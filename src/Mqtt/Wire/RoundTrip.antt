-- ===== src/Mqtt/Wire/RoundTrip.antt =====
-- internal/mqtt/packet.go: length-prefixed strings and blocks of bytes, written and read back.
use enisa_sbd_example.Common.{
  ℕ, ◌+◌, ◌/◌, ◌%◌, ◌^◌, ◌<◌, ◌≡◌, [], ◌∷◌, ◌++◌, append_assoc, Bytes, length, length-append,
  length-take, length-drop, drop, take-length-append, drop-length-append, take-append-drop, All,
  IsByte, All-drop, Bool-cases, inl, inr, ltb, ok, arith,
}
use enisa_sbd_example.Mqtt.Wire.{IoError, Stream, read_full, uint16, append_string, decode_string}

pub uint16_bytes : (v : ℕ) → v < 2 ^ 16 → uint16 (v / 256 % 256) (v % 256) ≡ v
uint16_bytes v h = omega arith

-- A string shorter than 2 ^ 16 bytes is read back, with what follows it.
pub decode_string-append_string :
    (s rest : Bytes) → length s < 2 ^ 16 → decode_string (append_string [] s ++ rest) ≡ ok (s, rest)
unfolding decode_string append_string
decode_string-append_string s rest h = ground (
  arith,
  length-append s rest,
  take-length-append s rest,
  drop-length-append s rest,
  uint16_bytes (length s),
)

pub append_string-eq : (b s : Bytes) → append_string b s ≡ b ++ append_string [] s
unfolding append_string
append_string-eq b s = append_assoc b _ s

-- A block that is there in full is read, and nothing behind it.
pub read_full-append :
    (b rest : Bytes) (ending : IoError)
    → read_full (length b) (record { bytes = b ++ rest; ending = ending })
      ≡ ok (b, record { bytes = rest; ending = ending })
unfolding read_full
read_full-append b rest ending =
    ground (arith, length-append b rest, take-length-append b rest, drop-length-append b rest)

-- A successful read has the length asked for, and takes that many bytes off the stream.
pub read_full_takes :
    (n : ℕ) (s rest : Stream) (b : Bytes)
    → read_full n s ≡ ok (b, rest)
    → (length b ≡ n) × (length s.bytes ≡ length rest.bytes + n) × (rest.ending ≡ s.ending)
unfolding read_full
read_full_takes n s rest b e = ground (arith, length-take n s.bytes, length-drop n s.bytes)

byte_pair :
    (hi lo : ℕ)
    → IsByte hi
    → IsByte lo
    → (uint16 hi lo % 2 ^ 16 / 256 % 256 ≡ hi) × (uint16 hi lo % 2 ^ 16 % 256 ≡ lo)
byte_pair hi lo h l = omega arith

-- Conversely, bytes that decode to a string are that string's encoding and what followed it.
pub append_string-decode_string :
    (b s rest : Bytes)
    → All IsByte b
    → decode_string b ≡ ok (s, rest)
    → (b ≡ append_string [] s ++ rest) × (length s < 2 ^ 16)
unfolding decode_string append_string
append_string-decode_string [] s rest h e = cc
append_string-decode_string (hi ∷ []) s rest h e = cc
append_string-decode_string (hi ∷ lo ∷ b) s rest (hh, (hl, _)) e =
    ground (arith, byte_pair hi lo, take-append-drop (uint16 hi lo) b, length-take (uint16 hi lo) b)

pub decode_string-All :
    (b s rest : Bytes) → All IsByte b → decode_string b ≡ ok (s, rest) → All IsByte rest
unfolding decode_string
decode_string-All [] s rest h e = cc
decode_string-All (hi ∷ []) s rest h e = cc
decode_string-All (hi ∷ lo ∷ b) s rest (_, (_, h)) e =
    elim (Bool-cases (ltb (length b + 2) (2 + uint16 hi lo))) [
      | inl short ↦ ground arith
      | inr fits ↦
          let same : drop (uint16 hi lo) b ≡ rest = ground arith in
          rw same at (All-drop IsByte (uint16 hi lo) b h)
    ]
