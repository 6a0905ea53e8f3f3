-- ===== src/Common/Bits.antt =====
-- The masks and shifts of the wire format on single bytes, as arithmetic. Each is a finite table
-- that is checked by evaluation.
use Prim.Native.Nat.{ℕ, zero, suc, ◌+◌, ◌*◌, ◌/◌, ◌%◌, ◌<◌, bit_and, bit_or}
use mathlib.Core.Path.{◌≡◌, refl}
use mathlib.Core.Bool.{Bool, true, ◌&&◌}
use native.Mathlib.Omega.{arith}
use enisa_sbd_example.Common.Tests.{◌==◌, ==_iff}

every_below : ℕ → (ℕ → Bool) → Bool
every_below zero p = true
every_below (suc n) p = p n && every_below n p

every_below_sound : (n : ℕ) (p : ℕ → Bool) (x : ℕ) → every_below n p ≡ true → x < n → p x ≡ true
unfolding every_below
every_below_sound zero p x h lt = absurd (omega arith)
every_below_sound (suc n) p x h lt = ground (arith, every_below_sound n p x)

module _ (f g : ℕ → ℕ) where
  by_table : (n x : ℕ) → every_below n (λ i. f i == g i) ≡ true → x < n → f x ≡ g x
  by_table n x h lt = (==_iff _ _).0 (every_below_sound n (λ i. f i == g i) x h lt)

pub bit_and-0x7f : (b : ℕ) → b < 256 → bit_and b 0x7f ≡ b % 128
unfolding every_below
bit_and-0x7f b h = by_table (λ i. bit_and i 0x7f) (λ i. i % 128) 256 b refl h

pub bit_and-0x80 : (b : ℕ) → b < 256 → bit_and b 0x80 ≡ b / 128 * 128
unfolding every_below
bit_and-0x80 b h = by_table (λ i. bit_and i 0x80) (λ i. i / 128 * 128) 256 b refl h

pub bit_and-0x0f : (b : ℕ) → b < 256 → bit_and b 0x0f ≡ b % 16
unfolding every_below
bit_and-0x0f b h = by_table (λ i. bit_and i 0x0f) (λ i. i % 16) 256 b refl h

pub bit_and-0x03 : (b : ℕ) → b < 256 → bit_and b 0x03 ≡ b % 4
unfolding every_below
bit_and-0x03 b h = by_table (λ i. bit_and i 0x03) (λ i. i % 4) 256 b refl h

pub bit_and-0xc0 : (b : ℕ) → b < 256 → bit_and b 0xc0 ≡ b / 64 * 64
unfolding every_below
bit_and-0xc0 b h = by_table (λ i. bit_and i 0xc0) (λ i. i / 64 * 64) 256 b refl h

pub bit_or-0x80 : (b : ℕ) → b < 128 → bit_or b 0x80 ≡ b + 128
unfolding every_below
bit_or-0x80 b h = by_table (λ i. bit_or i 0x80) (λ i. i + 128) 128 b refl h

-- A high nibble and a low nibble, packed in one number below 256.
nibbles_table : (b : ℕ) → b < 256 → bit_or (b / 16 * 16) (b % 16) ≡ b
unfolding every_below
nibbles_table b h = by_table (λ i. bit_or (i / 16 * 16) (i % 16)) (λ i. i) 256 b refl h

pub bit_or_nibbles : (hi lo : ℕ) → hi < 16 → lo < 16 → bit_or (hi * 16) lo ≡ hi * 16 + lo
bit_or_nibbles hi lo p q = rw (high, low) at (nibbles_table (hi * 16 + lo) (omega arith))
  where
    high : (hi * 16 + lo) / 16 ≡ hi
    high = omega arith

    low : (hi * 16 + lo) % 16 ≡ lo
    low = omega arith
