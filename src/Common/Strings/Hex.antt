-- ===== src/Common/Strings/Hex.antt =====
-- Lowercase hexadecimal text.
use Prim.Native.Nat.{ℕ, ◌≤◌}
use mathlib.Core.Path.{◌≡◌}
use mathlib.Core.Bool.{true}
use mathlib.Core.Logic.{◌↔◌, ◌⊎◌}
use mathlib.Core.List.{[], ◌∷◌}
use native.Mathlib.Omega.{arith}
use enisa_sbd_example.Common.Lists.{All}
use enisa_sbd_example.Common.Text.{Bytes}
use enisa_sbd_example.Common.Strings.{is_lower_hex}

abbrev pub IsHexDigit : ℕ → Type 0
IsHexDigit c = ((b'0' ≤ c) × (c ≤ b'9')) ⊎ ((b'a' ≤ c) × (c ≤ b'f'))

pub is_lower_hex_iff : (s : Bytes) → (is_lower_hex s ≡ true) ↔ All IsHexDigit s
unfolding is_lower_hex
is_lower_hex_iff [] = ground arith
is_lower_hex_iff (c ∷ s) = ground (arith, is_lower_hex_iff s)
