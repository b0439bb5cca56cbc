-- ===== src/Base/Words.antt =====
-- `|` of two disjoint fields, and the width of `^`, from the laws for the lowest digit.
use Prim.Native.Nat.{
  ℕ, zero, suc, ◌+◌, ◌*◌, ◌/◌, ◌%◌, ◌≤◌, ◌<◌, max, bit_or, bit_xor, bit_and, bit_or-bitwise,
  bit_xor-bitwise, differ,
}
use mathlib.Core.Path.{◌≡◌, ◌∙◌, refl, ap, sym}
use native.Mathlib.Omega.{arith}
use ax25toolkit.Base.Digits.{bitwise_halves}
use ax25toolkit.Base.Bits.{bit_and_halves, bit_and_fifteen}

-- `2 ^ k`, by doubling.
abbrev pub double : ℕ → ℕ → ℕ
double zero n = n
double (suc k) n = 2 * double k n

bit_or_halves_suc :
    (a b : ℕ) → bit_or (suc a) b ≡ bit_or (suc a / 2) (b / 2) * 2 + max (suc a % 2) (b % 2)
bit_or_halves_suc a b = omega (
  arith,
  bit_or-bitwise (suc a) b,
  bit_or-bitwise (suc a / 2) (b / 2),
  bitwise_halves (λ y. y) max a b,
)

pub bit_or_zero_left : (b : ℕ) → bit_or 0 b ≡ b
bit_or_zero_left b = bit_or-bitwise 0 b

bit_or_zero_below : (n a : ℕ) → a ≤ n → bit_or a 0 ≡ a
bit_or_zero_below n zero h = refl
bit_or_zero_below zero (suc a) h = absurd (omega arith)
bit_or_zero_below (suc n) (suc a) h =
    omega (arith, bit_or_halves_suc a 0, bit_or_zero_below n (suc a / 2) (omega arith))

pub bit_or_halves : (a b : ℕ) → bit_or a b ≡ bit_or (a / 2) (b / 2) * 2 + max (a % 2) (b % 2)
bit_or_halves zero b = omega (arith, bit_or_zero_left b, bit_or_zero_left (b / 2))
bit_or_halves (suc a) b = bit_or_halves_suc a b

-- A number shifted by `k` bits and one that fits below it.
pub bit_or-double : (k q r : ℕ) → r < double k 1 → bit_or (double k q) r ≡ double k q + r
bit_or-double zero q zero h = omega (arith, bit_or_zero_below q q (omega arith))
bit_or-double zero q (suc r) h = absurd (omega arith)
bit_or-double (suc k) q r h =
    ground (arith, bit_or_halves (2 * double k q) r, bit_or-double k q (r / 2))

bit_xor_halves_suc :
    (a b : ℕ) → bit_xor (suc a) b ≡ bit_xor (suc a / 2) (b / 2) * 2 + differ (suc a % 2) (b % 2)
bit_xor_halves_suc a b = omega (
  arith,
  bit_xor-bitwise (suc a) b,
  bit_xor-bitwise (suc a / 2) (b / 2),
  bitwise_halves (λ y. y) differ a b,
)

-- A byte of the low eight bits.
pub bit_and_byte : (a : ℕ) → bit_and a 0xff ≡ a % 256
bit_and_byte a = omega (
  arith,
  bit_and_halves a 255,
  bit_and_halves (a / 2) 127,
  bit_and_halves (a / 2 / 2) 63,
  bit_and_halves (a / 2 / 2 / 2) 31,
  bit_and_fifteen (a / 2 / 2 / 2 / 2),
)

differ-lt : (x y : ℕ) → x < 2 → y < 2 → differ x y < 2
differ-lt zero zero h k = omega arith
differ-lt zero (suc zero) h k = omega arith
differ-lt (suc zero) zero h k = omega arith
differ-lt (suc zero) (suc zero) h k = omega arith
differ-lt (suc (suc x)) y h k = absurd (omega arith)
differ-lt zero (suc (suc y)) h k = absurd (omega arith)
differ-lt (suc zero) (suc (suc y)) h k = absurd (omega arith)

bit_xor_zero_left : (b : ℕ) → bit_xor 0 b ≡ b
bit_xor_zero_left b = bit_xor-bitwise 0 b

-- `^` of two numbers of `k` bits has `k` bits.
pub bit_xor-lt : (k a b : ℕ) → a < double k 1 → b < double k 1 → bit_xor a b < double k 1
bit_xor-lt k zero b ha hb = omega (arith, bit_xor_zero_left b)
bit_xor-lt zero (suc a) b ha hb = absurd (omega arith)
bit_xor-lt (suc k) (suc a) b ha hb = omega (
  arith,
  bit_xor_halves_suc a b,
  bit_xor-lt k (suc a / 2) (b / 2) (omega arith) (omega arith),
  differ-lt (suc a % 2) (b % 2) (omega arith) (omega arith),
)

differ_zero : (y : ℕ) → y < 2 → differ 0 y ≡ y
differ_zero zero h = refl
differ_zero (suc zero) h = refl
differ_zero (suc (suc y)) h = absurd (omega arith)

-- The lowest bit of `^`.
pub bit_xor_mod_two : (a b : ℕ) → bit_xor a b % 2 ≡ differ (a % 2) (b % 2)
bit_xor_mod_two zero b =
    ap (λ x. x % 2) (bit_xor_zero_left b) ∙ sym (differ_zero (b % 2) (omega arith))
bit_xor_mod_two (suc a) b =
    omega (arith, bit_xor_halves_suc a b, differ-lt (suc a % 2) (b % 2) (omega arith) (omega arith))
