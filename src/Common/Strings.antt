-- ===== src/Common/Strings.antt =====
-- The functions of Go's `strings` and `encoding/hex` packages that the services call, on bytes.
pub mod Hex
pub mod Atoi
use mathlib.Core.List.{reverse}
use Prim.Native.Nat.{ℕ, zero, suc, ◌+◌, ◌-◌, ◌/◌, ◌%◌}
use mathlib.Core.Bool.{Bool, true, false, ◌&&◌, ◌||◌}
use mathlib.Core.Path.{◌≡◌, refl}
use mathlib.Core.Option.{Option, none, some}
use mathlib.Core.List.{List, [], ◌∷◌, ◌++◌}
use enisa_sbd_example.Common.Tests.{ltb, leb, ◌==◌, if◌then◌else◌}
use enisa_sbd_example.Common.Lists.{length, all}
use enisa_sbd_example.Common.Text.{Bytes, text_eq, codes}

-- `strings.CutPrefix(s, p)`
unfoldable pub cut_prefix : Bytes → Bytes → Option Bytes
cut_prefix s [] = some s
cut_prefix [] (b ∷ p) = none
cut_prefix (a ∷ s) (b ∷ p) = if a == b then cut_prefix s p else none

-- `strings.Cut(s, sep)` for a separator of one byte.
unfoldable pub cut : Bytes → ℕ → Option (Bytes × Bytes)
cut [] sep = none
cut (c ∷ s) sep =
    if c == sep
    then some ([], s)
    else elim (cut s sep) [ none ↦ none | some (before, after) ↦ some (c ∷ before, after) ]

-- The UTF-8 forms of the characters that `unicode.IsSpace` accepts.
abbrev pub spaces : List Bytes
spaces =
    (9 ∷ [])
    ∷ (10 ∷ [])
    ∷ (11 ∷ [])
    ∷ (12 ∷ [])
    ∷ (13 ∷ [])
    ∷ (32 ∷ [])
    ∷ (0xc2 ∷ 0x85 ∷ [])
    ∷ (0xc2 ∷ 0xa0 ∷ [])
    ∷ (0xe1 ∷ 0x9a ∷ 0x80 ∷ [])
    ∷ (0xe2 ∷ 0x80 ∷ 0x80 ∷ [])
    ∷ (0xe2 ∷ 0x80 ∷ 0x81 ∷ [])
    ∷ (0xe2 ∷ 0x80 ∷ 0x82 ∷ [])
    ∷ (0xe2 ∷ 0x80 ∷ 0x83 ∷ [])
    ∷ (0xe2 ∷ 0x80 ∷ 0x84 ∷ [])
    ∷ (0xe2 ∷ 0x80 ∷ 0x85 ∷ [])
    ∷ (0xe2 ∷ 0x80 ∷ 0x86 ∷ [])
    ∷ (0xe2 ∷ 0x80 ∷ 0x87 ∷ [])
    ∷ (0xe2 ∷ 0x80 ∷ 0x88 ∷ [])
    ∷ (0xe2 ∷ 0x80 ∷ 0x89 ∷ [])
    ∷ (0xe2 ∷ 0x80 ∷ 0x8a ∷ [])
    ∷ (0xe2 ∷ 0x80 ∷ 0xa8 ∷ [])
    ∷ (0xe2 ∷ 0x80 ∷ 0xa9 ∷ [])
    ∷ (0xe2 ∷ 0x80 ∷ 0xaf ∷ [])
    ∷ (0xe2 ∷ 0x81 ∷ 0x9f ∷ [])
    ∷ (0xe3 ∷ 0x80 ∷ 0x80 ∷ [])
    ∷ []

-- What is left of a text behind the first of the prefixes that it begins with.
strip_one : List Bytes → Bytes → Option Bytes
strip_one [] s = none
strip_one (p ∷ ps) s = elim (cut_prefix s p) [ none ↦ strip_one ps s | some rest ↦ some rest ]

-- Each round takes one byte at least, so as many rounds as there are bytes are enough.
strip : List Bytes → ℕ → Bytes → Bytes
strip ps zero s = s
strip ps (suc rounds) s = elim (strip_one ps s) [ none ↦ s | some rest ↦ strip ps rounds rest ]

reversed : List Bytes → List Bytes
reversed [] = []
reversed (p ∷ ps) = reverse p ∷ reversed ps

-- `strings.TrimSpace(s)`: both ends, the right one read backwards.
unfoldable pub trim_space : Bytes → Bytes
unfolding strip_one strip reversed cut_prefix
trim_space s =
    let left = strip spaces (length s) s in
    reverse (strip (reversed spaces) (length left) (reverse left))

abbrev pub lower : ℕ → ℕ
lower c = if leb b'A' c && leb c b'Z' then c + 32 else c

-- `strings.EqualFold(s, t)` where `t` has only letters that fold to their other ASCII case.
unfoldable pub equal_fold : Bytes → Bytes → Bool
equal_fold [] [] = true
equal_fold [] (_ ∷ _) = false
equal_fold (_ ∷ _) [] = false
equal_fold (a ∷ s) (b ∷ t) = (lower a == lower b) && equal_fold s t

-- The loop of `isLowerHex`. A character beyond ASCII has no byte that the test accepts, so testing
-- bytes gives the answer of the loop over characters.
unfoldable pub is_lower_hex : Bytes → Bool
is_lower_hex = all (λ c. (leb b'0' c && leb c b'9') || (leb b'a' c && leb c b'f'))

abbrev pub hex_digit : ℕ → ℕ
hex_digit d = if ltb d 10 then b'0' + d else b'a' + (d - 10)

-- `hex.EncodeToString(b)`
unfoldable pub hex_encode : Bytes → Bytes
hex_encode [] = []
hex_encode (b ∷ s) = hex_digit (b / 16) ∷ hex_digit (b % 16) ∷ hex_encode s
