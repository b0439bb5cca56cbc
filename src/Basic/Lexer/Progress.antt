-- ===== src/Basic/Lexer/Progress.antt =====
-- Every token shortens the line, so the loops over tokens end.
use ax25toolkit.Base.{
  ℕ, zero, suc, ◌≤◌, ◌<◌, ◌≡◌, ◌≢◌, refl, arith, Bool, true, ◌||◌, [], ◌∷◌, Bytes, ◌==◌, length,
  length-drop, if_rule,
}
use ax25toolkit.Base.Text.{is_digit, is_alpha, is_alnum}
use ax25toolkit.Basic.Lexer.{
  in_word, is_pair, skip_ws, Token, read_string, span, read_sign, read_exponent, read_number,
  read_suffix, read_name, starts_number, token_at, next_tok,
}

pub length-skip_ws : (lx : Bytes) → length (skip_ws lx) ≤ length lx
unfolding skip_ws
length-skip_ws [] = omega arith
length-skip_ws (c ∷ cs) = ground (arith, length-skip_ws cs)

length-span : (p : ℕ → Bool) (lx : Bytes) → length (span p lx).1 ≤ length lx
unfolding span
length-span p [] = omega arith
length-span p (c ∷ cs) = ground (arith, length-span p cs)

length-span_first :
    (p : ℕ → Bool) (c : ℕ) (cs : Bytes) → p c ≡ true → length (span p (c ∷ cs)).1 ≤ length cs
unfolding span
length-span_first p c cs h = rw h (length-span p cs)

length-read_string : (n : ℕ) (lx : Bytes) → length lx ≤ n → length (read_string lx).1 ≤ length lx
unfolding read_string
length-read_string n [] h = omega arith
length-read_string n (c ∷ []) h = ground arith
length-read_string zero (c ∷ (d ∷ cs)) h = absurd (omega arith)
length-read_string (suc zero) (c ∷ (d ∷ cs)) h = absurd (omega arith)
length-read_string (suc (suc n)) (c ∷ (d ∷ cs)) h = ground (
  arith,
  length-read_string n cs (omega arith),
  length-read_string (suc n) (d ∷ cs) (omega arith),
)

length-read_sign : (lx : Bytes) → length (read_sign lx).1 ≤ length lx
unfolding read_sign
length-read_sign [] = omega arith
length-read_sign (c ∷ cs) = ground arith

length-read_exponent : (lx : Bytes) → length (read_exponent lx).1 ≤ length lx
unfolding read_exponent
length-read_exponent [] = omega arith
length-read_exponent (c ∷ cs) =
    ground (arith, length-read_sign cs, length-span is_digit (read_sign cs).1)

length-read_suffix : (lx : Bytes) → length (read_suffix lx).1 ≤ length lx
unfolding read_suffix
length-read_suffix [] = omega arith
length-read_suffix (c ∷ cs) = ground arith

length-read_number :
    (c : ℕ) (cs : Bytes) → starts_number c cs ≡ true → length (read_number (c ∷ cs)).1 ≤ length cs
unfolding read_number starts_number
length-read_number c cs h =
    let p : ℕ → Bool = λ x. is_digit x || x == b'.' in
    omega (
      arith,
      length-span_first p c cs (ground (arith, h)),
      length-read_exponent (span p (c ∷ cs)).1,
    )

length-read_name :
    (c : ℕ) (cs : Bytes)
    → (is_alpha c || c == b'_') ≡ true
    → length (read_name (c ∷ cs)).1 ≤ length cs
unfolding read_name is_alnum
length-read_name c cs h = omega (
  arith,
  length-span_first in_word c cs (ground (arith, h)),
  length-read_suffix (span in_word (c ∷ cs)).1,
)

-- A token that leaves no more than what is left of the line.
abbrev Within : Bytes → Token × Bytes → Type 0
Within lx r = length r.1 ≤ length lx

length-token_at : (c : ℕ) (cs : Bytes) → Within cs (token_at (c ∷ cs))
unfolding token_at
length-token_at c cs =
    if_rule (Within cs) (c == b'\'') _ _ (λ h. omega arith)
      λ h.
        if_rule (Within cs) (c == b'"') _ _ (λ k. length-read_string (length cs) cs (omega arith))
          λ k. if_rule (Within cs) (starts_number c cs) _ _ (length-read_number c cs) λ l.
            if_rule (Within cs) (is_alpha c || c == b'_') _ _ (length-read_name c cs) λ m.
              if_rule (Within cs) (is_pair c cs) _ _ (λ n. omega (arith, length-drop 1 cs))
                λ n. omega arith

length-token_at_le : (lx : Bytes) → Within lx (token_at lx)
unfolding token_at
length-token_at_le [] = omega arith
length-token_at_le (c ∷ cs) = omega (arith, length-token_at c cs)

pub length-next_tok_le : (lx : Bytes) → length (next_tok lx).1 ≤ length lx
unfolding next_tok
length-next_tok_le lx = omega (arith, length-token_at_le (skip_ws lx), length-skip_ws lx)

length-token_skip : (c : ℕ) (cs : Bytes) → length (token_at (skip_ws (c ∷ cs))).1 ≤ length cs
unfolding skip_ws
length-token_skip c cs =
    if_rule (λ (x : Bytes). length (token_at x).1 ≤ length cs) (c == b' ' || c == b'\t') _ _
      (λ h. omega (arith, length-token_at_le (skip_ws cs), length-skip_ws cs))
      (λ h. length-token_at c cs)

-- Reading a token of a line that is not at its end takes at least one character.
pub length-next_tok : (lx : Bytes) → lx ≢ [] → length (next_tok lx).1 < length lx
unfolding next_tok
length-next_tok [] h = absurd (h refl)
length-next_tok (c ∷ cs) h = omega (arith, length-token_skip c cs)
