-- ===== src/Modem/Scrambler.antt =====
-- The descrambler undoes the scrambler.
use ax25toolkit.Base.{
  ℕ, ◌/◌, ◌%◌, ◌^◌, ◌<◌, ◌≡◌, refl, ◌∙◌, ap, true, ◌==◌, List, [], ◌∷◌, All, bit_xor, arith,
}
use mathlib.Core.Path.{ap₂}
use Prim.Native.Nat.{differ}
use ax25toolkit.Base.Bits.{bit_and_one, holds_below, holds_below-lt}
use ax25toolkit.Base.Words.{bit_xor_mod_two}
use ax25toolkit.Modem.{mixed, shifted, scramble, descramble, scramble_all, descramble_all}

-- The bits of the state that are mixed in.
mixed_lem :
    (x state : ℕ)
    → mixed x state ≡ differ (differ (x % 2) (state / 2 ^ 16 % 2)) (state / 2 ^ 11 % 2)
unfolding mixed
mixed_lem x state =
    bit_and_one (bit_xor (bit_xor x (state / 2 ^ 16)) (state / 2 ^ 11))
    ∙ bit_xor_mod_two (bit_xor x (state / 2 ^ 16)) (state / 2 ^ 11)
    ∙ ap (λ y. differ y (state / 2 ^ 11 % 2)) (bit_xor_mod_two x (state / 2 ^ 16))

differ_table :
    holds_below 2 (λ x.
      holds_below 2
        (λ p. holds_below 2 (λ q. differ (differ (differ (differ x p) q % 2) p) q == x)))
    ≡ true
unfolding holds_below
differ_table = refl

differ_back :
    (x p q : ℕ) → x < 2 → p < 2 → q < 2 → differ (differ (differ (differ x p) q % 2) p) q ≡ x
differ_back x p q hx hp hq = ground (
  arith,
  holds_below-lt 2 _ q (holds_below-lt 2 _ p (holds_below-lt 2 _ x differ_table hx) hp) hq,
)

-- The states agree in the bits that are mixed in or will be.
abbrev pub Agree : ℕ → ℕ → Type 0
Agree s r = s % 2 ^ 17 ≡ r % 2 ^ 17

mixed_back : (x s r : ℕ) → x < 2 → Agree s r → mixed (mixed x s) r ≡ x
mixed_back x s r h a =
    mixed_lem (mixed x s) r
    ∙ ap₂ (λ p q. differ (differ (mixed x s % 2) p) q) (omega arith) (omega arith)
    ∙ ap (λ y. differ (differ (y % 2) (s / 2 ^ 16 % 2)) (s / 2 ^ 11 % 2)) (mixed_lem x s)
    ∙ ap
        (λ y.
          differ (differ (differ (differ y (s / 2 ^ 16 % 2)) (s / 2 ^ 11 % 2) % 2) (s / 2 ^ 16 % 2))
            (s / 2 ^ 11 % 2))
        (omega arith)
    ∙ differ_back x (s / 2 ^ 16 % 2) (s / 2 ^ 11 % 2) h (omega arith) (omega arith)

shifted-Agree : (x s r : ℕ) → Agree s r → Agree (shifted x s) (shifted x r)
shifted-Agree x s r a = omega arith

-- The descrambler gives back the bits that went into the scrambler, however many there are, if the states of the
-- two agree in their low 17 bits at the start; what stands above makes no difference.
pub descramble_all-scramble_all :
    (bits : List ℕ) (s r : ℕ)
    → All (λ x. x < 2) bits
    → s % 2 ^ 17 ≡ r % 2 ^ 17
    → descramble_all r (scramble_all s bits) ≡ bits
unfolding scramble_all descramble_all scramble descramble
descramble_all-scramble_all [] s r h a = refl
descramble_all-scramble_all (x ∷ bits) s r h a = ap₂ ◌∷◌ (mixed_back x s r h.0 a) (
    descramble_all-scramble_all bits (shifted (mixed x s) s) (shifted (mixed x s) r) h.1
      (shifted-Agree (mixed x s) s r a))
