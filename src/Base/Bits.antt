-- ===== src/Base/Bits.antt =====
-- Facts on `&`, `|` and `^` of the native numbers: over a small range by evaluation, and the masks
-- of low bits by the law for the lowest digit.
use Prim.Native.Nat.{ℕ, zero, suc, ◌+◌, ◌*◌, ◌/◌, ◌%◌, ◌≤◌, ◌<◌, min, bit_and, bit_and-bitwise}
use mathlib.Core.Path.{◌≡◌, refl}
use mathlib.Core.Bool.{Bool, true, ◌&&◌}
use native.Mathlib.Omega.{arith}
use ax25toolkit.Base.Digits.{bitwise_halves}

-- `p` holds of every number below `n`.
unfoldable pub holds_below : ℕ → (ℕ → Bool) → Bool
holds_below zero p = true
holds_below (suc n) p = p n && holds_below n p

pub holds_below-lt : (n : ℕ) (p : ℕ → Bool) (x : ℕ) → holds_below n p ≡ true → x < n → p x ≡ true
unfolding holds_below
holds_below-lt zero p x h below = absurd (omega arith)
holds_below-lt (suc n) p x h below = ground (arith, holds_below-lt n p x)

pub bit_and_halves : (a b : ℕ) → bit_and a b ≡ bit_and (a / 2) (b / 2) * 2 + min (a % 2) (b % 2)
bit_and_halves zero b = omega (arith, bit_and-bitwise 0 b, bit_and-bitwise 0 (b / 2))
bit_and_halves (suc a) b = omega (
  arith,
  bit_and-bitwise (suc a) b,
  bit_and-bitwise (suc a / 2) (b / 2),
  bitwise_halves (λ y. zero) min a b,
)

bit_and-zero_below : (n a : ℕ) → a ≤ n → bit_and a 0 ≡ 0
bit_and-zero_below n zero h = refl
bit_and-zero_below zero (suc a) h = absurd (omega arith)
bit_and-zero_below (suc n) (suc a) h =
    omega (arith, bit_and_halves (suc a) 0, bit_and-zero_below n (suc a / 2) (omega arith))

pub bit_and_one : (a : ℕ) → bit_and a 1 ≡ a % 2
bit_and_one a = omega (arith, bit_and_halves a 1, bit_and-zero_below (a / 2) (a / 2) (omega arith))

pub bit_and_three : (a : ℕ) → bit_and a 3 ≡ a % 4
bit_and_three a = omega (arith, bit_and_halves a 3, bit_and_one (a / 2))

pub bit_and_seven : (a : ℕ) → bit_and a 7 ≡ a % 8
bit_and_seven a = omega (arith, bit_and_halves a 7, bit_and_three (a / 2))

pub bit_and_fifteen : (a : ℕ) → bit_and a 15 ≡ a % 16
bit_and_fifteen a = omega (arith, bit_and_halves a 15, bit_and_seven (a / 2))
