-- ===== src/Base/Digits.antt =====
-- The lowest digit of a bitwise operation. The library computes it by `digits`, which recurses on
-- fuel; fuel beyond the first operand changes nothing.
use Prim.Native.Nat.{ℕ, zero, suc, ◌+◌, ◌*◌, ◌-◌, ◌/◌, ◌%◌, ◌≤◌, digits, bitwise}
use mathlib.Core.Path.{◌≡◌, refl, ◌∙◌, subst}
use native.Mathlib.Omega.{arith}

-- `fuel`, raised `more` times.
abbrev raised : ℕ → ℕ → ℕ
raised zero fuel = fuel
raised (suc more) fuel = suc (raised more fuel)

raised_sum : (more fuel : ℕ) → raised more fuel ≡ more + fuel
raised_sum zero fuel = omega arith
raised_sum (suc more) fuel = omega (arith, raised_sum more fuel)

module _ (base : ℕ → ℕ) (op : ℕ → ℕ → ℕ) where
  one_more : (y fuel x : ℕ) → x ≤ fuel → digits base op (suc fuel) x y ≡ digits base op fuel x y
  one_more y zero zero enough = refl
  one_more y (suc fuel) zero enough = refl
  one_more y zero (suc x) enough = absurd (omega arith)
  one_more y (suc fuel) (suc x) enough =
      ground (arith, one_more (y / 2) fuel (suc x / 2) (omega arith))

  spare :
      (more fuel x y : ℕ)
      → x ≤ fuel
      → digits base op (raised more fuel) x y ≡ digits base op fuel x y
  spare zero fuel x y enough = refl
  spare (suc more) fuel x y enough =
      one_more y (raised more fuel) x (omega (arith, raised_sum more fuel))
      ∙ spare more fuel x y enough

  -- An operation on a positive number, by halves.
  pub bitwise_halves :
      (x y : ℕ)
      → bitwise base op (suc x) y ≡ bitwise base op (suc x / 2) (y / 2) * 2 + op (suc x % 2) (y % 2)
  bitwise_halves x y =
      let half = suc x / 2 in
      let whole : raised (x - half) half ≡ x = omega (arith, raised_sum (x - half) half) in
      let same : digits base op x half (y / 2) ≡ digits base op half half (y / 2) =
        subst (λ (k : ℕ). digits base op k half (y / 2) ≡ digits base op half half (y / 2)) whole
          (spare (x - half) half half (y / 2) (omega arith)) in
      omega (arith, same)
