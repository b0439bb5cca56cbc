-- ===== src/Basic/Blocks/Rounds.antt =====
-- The loops over the tokens of a line have fuel enough in its length.
use ax25toolkit.Base.{
  ℕ, zero, suc, ◌≡◌, refl, arith, [], ◌∷◌, Bytes, ◌≤◌, Option, none, some, length, if_rule,
}
use ax25toolkit.Base.Int.{ℤ}
use ax25toolkit.Base.Text.{codes}
use ax25toolkit.Basic.Lexer.{
  skip_ws, eat_ch, eat_ch_at, after, eat_kw, behind_kw, joins_word, ci_eq, next_tok,
}
use ax25toolkit.Basic.Lexer.Progress.{length-skip_ws, length-next_tok, length-next_tok_le}
use ax25toolkit.Basic.Blocks.{then_loop, up, down}
use ax25toolkit.Basic.Scan.{name_of, read_param, params_loop, skip_ch}

-- A token of what has at most `n + 1` characters leaves at most `n`.
shorter : (n : ℕ) (lx : Bytes) → length lx ≤ suc n → length (next_tok lx).1 ≤ n
shorter n [] h = unfold next_tok in omega arith
shorter n (c ∷ cs) h = omega (arith, h, length-next_tok (c ∷ cs) (λ e. cc))

-- The search for THEN outside of parentheses does not run out of its fuel: with as many rounds as the
-- line has characters, or more, it finds the same.
pub then_loop-enough :
    (f g : ℕ) (paren : ℤ) (lx : Bytes)
    → length lx ≤ f
    → length lx ≤ g
    → then_loop f paren lx ≡ then_loop g paren lx
unfolding then_loop
then_loop-enough zero zero paren lx h k = refl
then_loop-enough zero (suc g) paren [] h k = refl
then_loop-enough (suc f) zero paren [] h k = refl
then_loop-enough (suc f) (suc g) paren [] h k = refl
then_loop-enough zero (suc g) paren (c ∷ cs) h k = absurd (omega (arith, h))
then_loop-enough (suc f) zero paren (c ∷ cs) h k = absurd (omega (arith, k))
then_loop-enough (suc f) (suc g) paren (c ∷ cs) h k =
    let s = length-skip_ws (c ∷ cs) in
    let left = shorter f (skip_ws (c ∷ cs)) (omega (arith, h, s)) in
    let right = shorter g (skip_ws (c ∷ cs)) (omega (arith, k, s)) in
    let b = (next_tok (skip_ws (c ∷ cs))).1 in
    ground (
      arith,
      then_loop-enough f g (up paren) b left right,
      then_loop-enough f g (down paren) b left right,
      then_loop-enough f g paren b left right,
    )

-- What a test leaves of the line, if it holds.
abbrev Leaves : ℕ → Option Bytes → Type 0
Leaves n none = Unit
Leaves n (some rest) = length rest ≤ n

Leaves-wider : (m n : ℕ) (o : Option Bytes) → m ≤ n → Leaves m o → Leaves n o
Leaves-wider m n none h a = tt
Leaves-wider m n (some rest) h a = omega (arith, h, a)

behind_kw-Leaves : (kw src : Bytes) → Leaves (length src) (behind_kw kw src)
unfolding behind_kw
behind_kw-Leaves [] src =
    if_rule (Leaves (length src)) (joins_word src) none (some src) (λ e. tt) (λ e. omega arith)
behind_kw-Leaves (k ∷ ks) [] = tt
behind_kw-Leaves (k ∷ ks) (c ∷ cs) =
    if_rule (Leaves (suc (length cs))) (ci_eq c k) (behind_kw ks cs) none
      (λ e.
        Leaves-wider (length cs) (suc (length cs)) (behind_kw ks cs) (omega arith)
          (behind_kw-Leaves ks cs))
      (λ e. tt)

eat_kw-Leaves : (kw lx : Bytes) → Leaves (length lx) (eat_kw kw lx)
unfolding eat_kw
eat_kw-Leaves kw lx =
    Leaves-wider (length (skip_ws lx)) (length lx) (behind_kw kw (skip_ws lx)) (length-skip_ws lx)
      (behind_kw-Leaves kw (skip_ws lx))

length-skip_ch : (c : ℕ) (lx : Bytes) → length (skip_ch c lx) ≤ length lx
unfolding eat_ch eat_ch_at
length-skip_ch c lx = at (skip_ws lx) (length-skip_ws lx)
  where
    at : (xs : Bytes) → length xs ≤ length lx → length (after (eat_ch_at c xs) xs) ≤ length lx
    at [] h = h
    at (d ∷ ds) h = ground (arith, h)

length-read_param : (n : ℕ) (lx : Bytes) → length lx ≤ suc n → length (read_param lx).1 ≤ n
unfolding read_param
length-read_param n lx h = named (name_of (next_tok lx).0)
  where
    rest : Bytes
    rest = (next_tok lx).1

    fits : length rest ≤ n
    fits = shorter n lx h

    typed :
        (x : Bytes) (o : Option Bytes)
        → Leaves n o
        → length
            (elim o as (λ y. Option Bytes × Bytes) [
              | none ↦ (some x, skip_ws rest)
              | some behind ↦ (some x, (next_tok behind).1)
            ]).1
          ≤ n
    typed x none a = omega (arith, length-skip_ws rest, fits)
    typed x (some behind) a = omega (arith, length-next_tok_le behind, a)

    named :
        (o : Option Bytes)
        → length
            (elim o as (λ y. Option Bytes × Bytes) [
              | none ↦ (none, rest)
              | some x ↦ elim (eat_kw (codes "AS") rest) [
                | none ↦ (some x, skip_ws rest)
                | some behind ↦ (some x, (next_tok behind).1)
              ]
            ]).1
          ≤ n
    named none = fits
    named (some x) = typed x (eat_kw (codes "AS") rest) (
        Leaves-wider (length rest) n (eat_kw (codes "AS") rest) fits
          (eat_kw-Leaves (codes "AS") rest))

-- So does the loop over the parameters of a procedure.
pub params_loop-enough :
    (f g : ℕ) (lx : Bytes) → length lx ≤ f → length lx ≤ g → params_loop f lx ≡ params_loop g lx
unfolding params_loop
params_loop-enough zero zero lx h k = refl
params_loop-enough zero (suc g) [] h k = refl
params_loop-enough (suc f) zero [] h k = refl
params_loop-enough (suc f) (suc g) [] h k = refl
params_loop-enough zero (suc g) (c ∷ cs) h k = absurd (omega (arith, h))
params_loop-enough (suc f) zero (c ∷ cs) h k = absurd (omega (arith, k))
params_loop-enough (suc f) (suc g) (c ∷ cs) h k =
    let r = (read_param (c ∷ cs)).1 in
    let s = length-skip_ch b',' r in
    let left = length-read_param f (c ∷ cs) h in
    let right = length-read_param g (c ∷ cs) k in
    rw (params_loop-enough f g (skip_ch b',' r) (omega (arith, s, left)) (omega (arith, s, right)))
      refl
