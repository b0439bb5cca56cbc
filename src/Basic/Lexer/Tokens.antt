-- ===== src/Basic/Lexer/Tokens.antt =====
-- Written tokens are read back.
use ax25toolkit.Base.{
  ℕ, ◌≡◌, refl, ap, sym, ◌∙◌, arith, Bool, true, false, ◌||◌, [], ◌∷◌, ◌++◌, append_assoc,
  append-nil, Bytes, ◌≤◌, ◌<◌, All, ◌==◌, if◌then◌else◌, map, ◌⊎◌, inl, inr, Bool-cases,
}
use ax25toolkit.Base.Text.{to_upper, is_digit, is_alpha, is_alnum}
use ax25toolkit.Basic.Lexer.{
  in_word, skip_ws, Token, ident, num_lit, str_lit, unescaped, read_string, span, read_sign,
  read_exponent, read_number, read_suffix, read_name, starts_number, token_at, next_tok,
}

-- The letter of a character that is written by a backslash and a letter, or `c` itself.
abbrev pub escape_letter : ℕ → ℕ
escape_letter c = if c == 10 then b'n' else if c == 13 then b'r' else if c == 9 then b't' else c

-- The characters that are written with a backslash: the quote, the backslash, and the three with a letter.
abbrev pub needs_escape : ℕ → Bool
needs_escape c = (c == b'"' || c == b'\\') || (c == 10 || (c == 13 || c == 9))

-- A string as a program writes it.
abbrev pub escape : Bytes → Bytes
escape [] = []
escape (c ∷ cs) = if needs_escape c then b'\\' ∷ (escape_letter c ∷ escape cs) else c ∷ escape cs

span-append :
    (p : ℕ → Bool) (xs : Bytes) (c : ℕ) (rest : Bytes)
    → All (λ x. p x ≡ true) xs
    → p c ≡ false
    → span p (xs ++ c ∷ rest) ≡ (xs, c ∷ rest)
unfolding span
span-append p [] c rest h q = rw q refl
span-append p (x ∷ xs) c rest h q = rw (span-append p xs c rest h.1 q, h.0) refl

front : (xs : Bytes) (q : ℕ) (ys : Bytes) → (d : ℕ) × (ds : Bytes) × (xs ++ q ∷ ys ≡ d ∷ ds)
front [] q ys = (q, ys, refl)
front (x ∷ xs) q ys = (x, xs ++ q ∷ ys, refl)

read_end : (rest : Bytes) → read_string (b'"' ∷ rest) ≡ ([], rest)
unfolding read_string
read_end [] = refl
read_end (r ∷ rest) = refl

-- One more character of a string, before the closing quote.
read_plain :
    (c : ℕ) (ys : Bytes)
    → (d : ℕ) × (ds : Bytes) × (ys ≡ d ∷ ds)
    → needs_escape c ≡ false
    → read_string (c ∷ ys) ≡ (c ∷ (read_string ys).0, (read_string ys).1)
unfolding read_string
read_plain c ys (d, ds, e) h = rw e (ground (arith, h))

read_escaped :
    (c : ℕ) (ys : Bytes)
    → needs_escape c ≡ true
    → read_string (b'\\' ∷ (escape_letter c ∷ ys)) ≡ (c ∷ (read_string ys).0, (read_string ys).1)
unfolding read_string unescaped
read_escaped c ys h = ground (arith, h)

read_string-escape : (s rest : Bytes) → read_string (escape s ++ b'"' ∷ rest) ≡ (s, rest)
read_string-escape [] rest = read_end rest
read_string-escape (c ∷ cs) rest =
    let ys = escape cs ++ b'"' ∷ rest in
    let ih = read_string-escape cs rest in
    elim (Bool-cases (needs_escape c)) [
      | inl h ↦ rw h (read_escaped c ys h ∙ ap (λ (r : Bytes × Bytes). (c ∷ r.0, r.1)) ih)
      | inr h ↦ rw h (
          read_plain c ys (front (escape cs) b'"' rest) h
          ∙ ap (λ (r : Bytes × Bytes). (c ∷ r.0, r.1)) ih)
    ]

-- A letter of either case, or an underscore.
abbrev pub IsLetter : ℕ → Type 0
IsLetter c = ((b'A' ≤ c) × (c ≤ b'Z')) ⊎ ((b'a' ≤ c) × (c ≤ b'z')) ⊎ (c ≡ b'_')

abbrev pub IsNameChar : ℕ → Type 0
IsNameChar c = IsLetter c ⊎ ((b'0' ≤ c) × (c ≤ b'9'))

-- No sign for the type, or one.
abbrev pub IsSuffix : Bytes → Type 0
IsSuffix [] = Unit
IsSuffix (c ∷ cs) = ((c ≡ b'$') ⊎ (c ≡ b'%')) × (cs ≡ [])

abbrev pub IsDigit : ℕ → Type 0
IsDigit c = (b'0' ≤ c) × (c ≤ b'9')

-- A digit or the decimal point.
abbrev pub IsNumberChar : ℕ → Type 0
IsNumberChar c = IsDigit c ⊎ (c ≡ b'.')

-- No exponent, or `e` or `E` with digits and perhaps a sign.
pub data IsExponent : Bytes → Type 0 where
  no_exponent : IsExponent []
  bare :
      (e d : ℕ) (ds : Bytes)
      → (e ≡ b'e') ⊎ (e ≡ b'E')
      → IsDigit d
      → All IsDigit ds
      → IsExponent (e ∷ (d ∷ ds))
  signed :
      (e sign : ℕ) (ds : Bytes)
      → (e ≡ b'e') ⊎ (e ≡ b'E')
      → (sign ≡ b'+') ⊎ (sign ≡ b'-')
      → All IsDigit ds
      → IsExponent (e ∷ (sign ∷ ds))

-- The tokens of names, decimal numbers and strings, each with the way to write it.
pub data Written : Token → Bytes → Type 0 where
  name :
      (c : ℕ) (cs suffix : Bytes)
      → IsLetter c
      → All IsNameChar cs
      → IsSuffix suffix
      → Written (ident (map to_upper (c ∷ cs) ++ suffix)) (c ∷ (cs ++ suffix))
  number :
      (c : ℕ) (cs exponent : Bytes)
      → IsDigit c
      → All IsNumberChar cs
      → IsExponent exponent
      → Written (num_lit (c ∷ (cs ++ exponent))) (c ∷ (cs ++ exponent))
  quoted : (s : Bytes) → Written (str_lit s) (b'"' ∷ (escape s ++ b'"' ∷ []))

name_char : (c : ℕ) → IsNameChar c → in_word c ≡ true
unfolding is_alnum is_alpha is_digit
name_char c h = ground (arith, h)

name_chars : (cs : Bytes) → All IsNameChar cs → All (λ x. in_word x ≡ true) cs
name_chars [] h = tt
name_chars (c ∷ cs) h = (name_char c h.0, name_chars cs h.1)

map-append : (f : ℕ → ℕ) (xs ys : Bytes) → map f (xs ++ ys) ≡ map f xs ++ map f ys
map-append f [] ys = refl
map-append f (x ∷ xs) ys = rw (map-append f xs ys) refl

read_name-append :
    (cs suffix rest : Bytes)
    → All IsNameChar cs
    → IsSuffix suffix
    → read_name (cs ++ (suffix ++ b' ' ∷ rest)) ≡ (map to_upper cs ++ suffix, b' ' ∷ rest)
unfolding read_name read_suffix is_alnum is_alpha is_digit
read_name-append cs [] rest h k =
    rw
      (
        span-append in_word cs b' ' rest (name_chars cs h) refl,
        append-nil cs,
        append-nil (map to_upper cs),
      )
      refl
read_name-append cs (q ∷ qs) rest h (inl e, n) =
    rw (n, e)
      (rw
        (
          span-append in_word cs b'$' (b' ' ∷ rest) (name_chars cs h) refl,
          map-append to_upper cs (b'$' ∷ []),
        )
        (unfold to_upper in refl))
read_name-append cs (q ∷ qs) rest h (inr e, n) =
    rw (n, e)
      (rw
        (
          span-append in_word cs b'%' (b' ' ∷ rest) (name_chars cs h) refl,
          map-append to_upper cs (b'%' ∷ []),
        )
        (unfold to_upper in refl))

number_chars : (cs : Bytes) → All IsNumberChar cs → All (λ x. (is_digit x || x == b'.') ≡ true) cs
unfolding is_digit
number_chars [] h = tt
number_chars (c ∷ cs) h = (ground (arith, h.0), number_chars cs h.1)

digit_chars : (cs : Bytes) → All IsDigit cs → All (λ x. is_digit x ≡ true) cs
unfolding is_digit
digit_chars [] h = tt
digit_chars (c ∷ cs) h = (ground (arith, h.0), digit_chars cs h.1)

-- An exponent ends the mantissa, and is read whole.
exponent_read :
    (x rest : Bytes) → IsExponent x → read_exponent (x ++ b' ' ∷ rest) ≡ (x, b' ' ∷ rest)
unfolding read_exponent read_sign is_digit
exponent_read x rest no_exponent = refl
exponent_read x rest (bare e d ds h k a) =
    let line = d ∷ (ds ++ b' ' ∷ rest) in
    let sign : read_sign line ≡ ([], line) = ground (arith, k) in
    let digits = span-append is_digit (d ∷ ds) b' ' rest (digit_chars (d ∷ ds) (k, a)) refl in
    let is_e : (e == b'e' || e == b'E') ≡ true = ground (arith, h) in rw (sign, digits, is_e) refl
exponent_read x rest (signed e c ds h k a) =
    let line = ds ++ b' ' ∷ rest in
    let sign : read_sign (c ∷ line) ≡ (c ∷ [], line) = ground (arith, k) in
    let digits = span-append is_digit ds b' ' rest (digit_chars ds a) refl in
    let is_e : (e == b'e' || e == b'E') ≡ true = ground (arith, h) in rw (sign, digits, is_e) refl

exponent_stops :
    (x rest : Bytes)
    → IsExponent x
    → (q : ℕ) × (ys : Bytes) × (x ++ b' ' ∷ rest ≡ q ∷ ys) × ((is_digit q || q == b'.') ≡ false)
unfolding is_digit
exponent_stops x rest no_exponent = (b' ', rest, refl, refl)
exponent_stops x rest (bare e d ds h k a) = (e, d ∷ (ds ++ b' ' ∷ rest), refl, ground (arith, h))
exponent_stops x rest (signed e c ds h k a) = (e, c ∷ (ds ++ b' ' ∷ rest), refl, ground (arith, h))

read_number-append :
    (cs exponent rest : Bytes)
    → All IsNumberChar cs
    → IsExponent exponent
    → read_number (cs ++ (exponent ++ b' ' ∷ rest)) ≡ (cs ++ exponent, b' ' ∷ rest)
unfolding read_number
read_number-append cs x rest h e =
    let (q, ys, eq, ends) = exponent_stops x rest e in
    let in_number : ℕ → Bool = λ c. is_digit c || c == b'.' in
    let cut : span in_number (cs ++ (x ++ b' ' ∷ rest)) ≡ (cs, x ++ b' ' ∷ rest) =
      ap (λ t. span in_number (cs ++ t)) eq
      ∙ (span-append in_number cs q ys (number_chars cs h) ends ∙ ap (λ t. (cs, t)) (sym eq)) in
    rw (cut, exponent_read x rest e) refl

letter_start :
    (c : ℕ) (cs : Bytes)
    → IsLetter c
    → token_at (c ∷ cs) ≡ (ident (read_name (c ∷ cs)).0, (read_name (c ∷ cs)).1)
unfolding token_at starts_number is_alpha is_digit
letter_start c cs h = ground (arith, h)

digit_start :
    (c : ℕ) (cs : Bytes)
    → IsDigit c
    → token_at (c ∷ cs) ≡ (num_lit (read_number (c ∷ cs)).0, (read_number (c ∷ cs)).1)
unfolding token_at starts_number is_digit
digit_start c cs h = ground (arith, h)

quote_start : (cs : Bytes) → token_at (b'"' ∷ cs) ≡ (str_lit (read_string cs).0, (read_string cs).1)
unfolding token_at
quote_start cs = refl

skip_ws-start : (c : ℕ) (cs : Bytes) → 32 < c → skip_ws (c ∷ cs) ≡ c ∷ cs
unfolding skip_ws
skip_ws-start c cs h = ground arith

next_tok-start : (c : ℕ) (cs : Bytes) → 32 < c → next_tok (c ∷ cs) ≡ token_at (c ∷ cs)
unfolding next_tok
next_tok-start c cs h = ap token_at (skip_ws-start c cs h)

letter-lt : (c : ℕ) → IsLetter c → 32 < c
letter-lt c h = ground (arith, h)

-- A name, a number or a string that is written before a blank is read back as that token, and the lexer
-- stands at the blank. A name of letters, digits and underscores, which starts with no digit, with a `$` or `%`
-- or without, comes back in capitals; a number that starts with a digit, of digits and decimal points, with an
-- exponent or without, as it was written; and a string with every character, those written with
-- a backslash included.
pub next_tok-Written :
    (t : Token) (w rest : Bytes) → Written t w → next_tok (w ++ b' ' ∷ rest) ≡ (t, b' ' ∷ rest)
next_tok-Written t w rest (name c cs suffix h k s) =
    let whole = read_name-append (c ∷ cs) suffix rest (inl h, k) s in
    let e : c ∷ (cs ++ suffix) ++ b' ' ∷ rest ≡ c ∷ (cs ++ (suffix ++ b' ' ∷ rest)) =
      ap (◌∷◌ c) (append_assoc cs suffix (b' ' ∷ rest)) in
    ap next_tok e
    ∙ (next_tok-start c (cs ++ (suffix ++ b' ' ∷ rest)) (letter-lt c h)
        ∙ (letter_start c (cs ++ (suffix ++ b' ' ∷ rest)) h
            ∙ ap (λ (r : Bytes × Bytes). (ident r.0, r.1)) whole))
next_tok-Written t w rest (number c cs x h k e) =
    let line = cs ++ (x ++ b' ' ∷ rest) in
    ap (λ (l : Bytes). next_tok (c ∷ l)) (append_assoc cs x (b' ' ∷ rest))
    ∙ (next_tok-start c line (omega (arith, h.0))
        ∙ (digit_start c line h
            ∙ ap (λ (r : Bytes × Bytes). (num_lit r.0, r.1))
                (read_number-append (c ∷ cs) x rest (inl h, k) e)))
next_tok-Written t w rest (quoted s) =
    let e : (escape s ++ b'"' ∷ []) ++ b' ' ∷ rest ≡ escape s ++ b'"' ∷ (b' ' ∷ rest) =
      append_assoc (escape s) (b'"' ∷ []) (b' ' ∷ rest) in
    ap (λ (x : Bytes). next_tok (b'"' ∷ x)) e
    ∙ (next_tok-start b'"' (escape s ++ b'"' ∷ (b' ' ∷ rest)) (omega arith)
        ∙ (quote_start (escape s ++ b'"' ∷ (b' ' ∷ rest))
            ∙ ap (λ (r : Bytes × Bytes). (str_lit r.0, r.1)) (read_string-escape s (b' ' ∷ rest))))
