-- ===== src/Basic/Lexer.antt =====
-- `Basic::Lexer` of lib/basic.cpp: a lexer is what is left of its line behind `pos`. Characters are
-- bytes in the C locale; `stod` stays text here.
pub mod Tokens
pub mod Progress
use ax25toolkit.Base.{
  ℕ, zero, suc, ◌+◌, Bool, true, false, not, ◌&&◌, ◌||◌, List, [], ◌∷◌, ◌++◌, Bytes, ltb, leb, ◌==◌,
  if◌then◌else◌, Option, none, some, is_empty, map, drop, length,
}
use ax25toolkit.Base.Text.{to_upper, to_lower, is_digit, is_alpha, is_alnum, bytes_eq, codes}

-- `peek_ch`
abbrev pub peek_ch : Bytes → ℕ
peek_ch [] = 0
peek_ch (c ∷ cs) = c

abbrev pub is_blank : ℕ → Bool
is_blank c = c == b' ' || c == b'\t'

unfoldable pub skip_ws : Bytes → Bytes
skip_ws [] = []
skip_ws (c ∷ cs) = let rest = skip_ws cs in if is_blank c then rest else c ∷ cs

unfoldable pub ci_eq : ℕ → ℕ → Bool
unfolding to_lower
ci_eq a b = to_lower a == to_lower b

-- A character that may stand in a word.
abbrev pub in_word : ℕ → Bool
in_word c = is_alnum c || c == b'_'

-- What may not follow a keyword.
abbrev pub joins_word : Bytes → Bool
joins_word [] = false
joins_word (c ∷ cs) = in_word c || c == b'$' || c == b'%'

-- What stands behind the keyword, if `ci_starts` holds.
unfoldable pub behind_kw : Bytes → Bytes → Option Bytes
unfolding ci_eq
behind_kw [] src = if joins_word src then none else some src
behind_kw (k ∷ ks) [] = none
behind_kw (k ∷ ks) (c ∷ cs) = let rest = behind_kw ks cs in if ci_eq c k then rest else none

-- `eat_kw`: `none` is false, and leaves the blanks skipped.
unfoldable pub eat_kw : Bytes → Bytes → Option Bytes
unfolding skip_ws
eat_kw kw lx = behind_kw kw (skip_ws lx)

abbrev pub holds {ℓ} : {A : Type ℓ} → Option A → Bool
holds none = false
holds (some a) = true

unfoldable pub peek_kw : Bytes → Bytes → Bool
unfolding eat_kw
peek_kw kw lx = holds (eat_kw kw lx)

unfoldable pub eat_ch_at : ℕ → Bytes → Option Bytes
eat_ch_at c [] = none
eat_ch_at c (d ∷ ds) = if d == c then some ds else none

unfoldable pub eat_ch : ℕ → Bytes → Option Bytes
unfolding skip_ws eat_ch_at
eat_ch c lx = eat_ch_at c (skip_ws lx)

unfoldable pub behind_str : Bytes → Bytes → Option Bytes
behind_str [] src = some src
behind_str (k ∷ ks) [] = none
behind_str (k ∷ ks) (c ∷ cs) = let rest = behind_str ks cs in if c == k then rest else none

unfoldable pub eat_str : Bytes → Bytes → Option Bytes
unfolding skip_ws behind_str
eat_str s lx = behind_str s (skip_ws lx)

-- The lexer behind a test whose result is not looked at.
abbrev pub after : Option Bytes → Bytes → Bytes
after none lx = lx
after (some rest) lx = rest

-- Without the blanks at the end.
unfoldable pub trim_blanks : Bytes → Bytes
trim_blanks [] = []
trim_blanks (c ∷ cs) =
    let rest = trim_blanks cs in if is_blank c && is_empty rest then [] else c ∷ rest

-- The text that `rest_trimmed` returns; it leaves nothing.
unfoldable pub rest_trimmed : Bytes → Bytes
unfolding skip_ws trim_blanks
rest_trimmed lx = trim_blanks (skip_ws lx)

pub data Token : Type 0 where
  ident num_lit str_lit punct : Bytes → Token
  eol : Token

-- What `\c` stands for in a string.
unfoldable pub unescaped : ℕ → ℕ
unescaped c = if c == b'n' then 10 else if c == b'r' then 13 else if c == b't' then 9 else c

-- The string behind its opening quote, and what follows the closing one.
unfoldable pub read_string : Bytes → Bytes × Bytes
unfolding unescaped
read_string [] = ([], [])
read_string (c ∷ []) = if c == b'"' then ([], []) else (c ∷ [], [])
read_string (c ∷ (d ∷ cs)) =
    let escape = read_string cs in
    let plain = read_string (d ∷ cs) in
    if c == b'"'
    then ([], d ∷ cs)
    else if c == b'\\'
    then (unescaped d ∷ escape.0, escape.1)
    else (c ∷ plain.0, plain.1)

-- The longest prefix whose characters pass the test, and what follows it.
unfoldable pub span : (ℕ → Bool) → Bytes → Bytes × Bytes
span p [] = ([], [])
span p (c ∷ cs) = let (xs, rest) = span p cs in if p c then (c ∷ xs, rest) else ([], c ∷ cs)

-- The sign of an exponent.
unfoldable pub read_sign : Bytes → Bytes × Bytes
read_sign [] = ([], [])
read_sign (c ∷ cs) = if c == b'+' || c == b'-' then (c ∷ [], cs) else ([], c ∷ cs)

unfoldable pub read_exponent : Bytes → Bytes × Bytes
unfolding span read_sign is_digit
read_exponent [] = ([], [])
read_exponent (c ∷ cs) =
    let (sign, rest) = read_sign cs in
    let (digits, rest') = span is_digit rest in
    if c == b'e' || c == b'E' then (c ∷ (sign ++ digits), rest') else ([], c ∷ cs)

unfoldable pub read_number : Bytes → Bytes × Bytes
unfolding span read_exponent is_digit
read_number lx =
    let (mantissa, rest) = span (λ c. is_digit c || c == b'.') lx in
    let (exponent, rest') = read_exponent rest in (mantissa ++ exponent, rest')

-- The sign for the type at the end of a name.
unfoldable pub read_suffix : Bytes → Bytes × Bytes
read_suffix [] = ([], [])
read_suffix (c ∷ cs) = if c == b'$' || c == b'%' then (c ∷ [], cs) else ([], c ∷ cs)

unfoldable pub read_name : Bytes → Bytes × Bytes
unfolding span read_suffix is_alnum to_upper
read_name lx =
    let (word, rest) = span in_word lx in
    let (suffix, rest') = read_suffix rest in (map to_upper (word ++ suffix), rest')

-- `<>`, `<=` and `>=`.
abbrev pub is_pair : ℕ → Bytes → Bool
is_pair c [] = false
is_pair c (d ∷ cs) = (c == b'<' && (d == b'>' || d == b'=')) || (c == b'>' && d == b'=')

-- A number starts with a digit, or with a point before one.
unfoldable pub starts_number : ℕ → Bytes → Bool
unfolding is_digit
starts_number c cs = is_digit c || (c == b'.' && is_digit (peek_ch cs))

-- `next_tok` behind the blanks: the token and the lexer.
unfoldable pub token_at : Bytes → Token × Bytes
unfolding read_string read_number read_name starts_number is_alpha
token_at [] = (eol, [])
token_at (c ∷ cs) =
    if c == b'\''
    then (eol, [])
    else if c == b'"'
    then (str_lit (read_string cs).0, (read_string cs).1)
    else if starts_number c cs
    then (num_lit (read_number (c ∷ cs)).0, (read_number (c ∷ cs)).1)
    else if is_alpha c || c == b'_'
    then (ident (read_name (c ∷ cs)).0, (read_name (c ∷ cs)).1)
    else if is_pair c cs
    then (punct (c ∷ peek_ch cs ∷ []), drop 1 cs)
    else (punct (c ∷ []), cs)

unfoldable pub next_tok : Bytes → Token × Bytes
unfolding skip_ws token_at
next_tok lx = token_at (skip_ws lx)
