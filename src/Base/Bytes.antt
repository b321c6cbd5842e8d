-- ===== src/Base/Bytes.antt =====
-- The masks that the program takes of a byte or an address, in arithmetic form.
use Prim.Native.Nat.{bit_and}
use clibdpa.Base.Tests.{◌==◌, ==_iff, if◌then◌else◌}
use Prim.Native.Nat.{ℕ, zero, suc, ◌-◌, ◌*◌, ◌/◌, ◌%◌, ◌<◌}
use mathlib.Core.Path.{◌≡◌, refl}
use mathlib.Core.Bool.{Bool, true, false}
use native.Mathlib.Omega.{arith}

abbrev pub IsByte : ℕ → Type 0
IsByte b = b < 256

-- `x & 0x80` read as a condition.
abbrev pub has_bit7 : ℕ → Bool
has_bit7 x = x / 128 % 2 == 1

-- `x & ~0x80`.
abbrev pub clear_bit7 : ℕ → ℕ
clear_bit7 x = x - x / 128 % 2 * 128

-- `x & 0xff`.
abbrev pub low_byte : ℕ → ℕ
low_byte x = x % 256

-- Two functions agree at every number below a bound.
agree : (ℕ → ℕ) → (ℕ → ℕ) → ℕ → Bool
agree f g zero = true
agree f g (suc n) = if f n == g n then agree f g n else false

agree-eq : (f g : ℕ → ℕ) (n x : ℕ) → x < n → agree f g n ≡ true → f x ≡ g x
unfolding agree
agree-eq f g zero x l h = absurd (omega arith)
agree-eq f g (suc n) x l h = ground (arith, agree-eq f g n x, ==_iff (f n) (g n))

-- On a byte the arithmetic forms are the masks by 0x80 and, within a byte, by ~0x80.
pub bit_and-bit7 : (x : ℕ) → IsByte x → bit_and x 128 ≡ x / 128 % 2 * 128
unfolding agree
bit_and-bit7 x h = agree-eq (λ b. bit_and b 128) (λ b. b / 128 % 2 * 128) 256 x h refl

pub bit_and-clear_bit7 : (x : ℕ) → IsByte x → bit_and x 127 ≡ clear_bit7 x
unfolding agree
bit_and-clear_bit7 x h = agree-eq (λ b. bit_and b 127) clear_bit7 256 x h refl
