-- ===== src/Basic/Blocks.antt =====
-- The block-scan helpers of lib/basic.cpp, `find_wend_line` to `find_end_func_line`. A scan runs over
-- the lines behind the given one; `none` is a scan that reaches the end of the program.
pub mod Nesting
pub mod Branches
pub mod Rounds
use ax25toolkit.Base.{
  ℕ, zero, suc, ◌+◌, ◌-◌, Bool, true, false, not, ◌&&◌, ◌||◌, List, [], ◌∷◌, Bytes, ltb, ◌==◌,
  Option, none, some, if◌then◌else◌, is_empty, length,
}
use ax25toolkit.Base.Int.{ℤ, pos, negsuc}
use ax25toolkit.Base.Text.{bytes_eq, codes}
use ax25toolkit.Base.Dict.{behind}
use ax25toolkit.Basic.{Floats, Interp, logged, emit}
use ax25toolkit.Basic.Lexer.{peek_ch, skip_ws, eat_kw, peek_kw, Token, ident, next_tok, holds}
use ax25toolkit.Basic.Scan.{name_of, skip_kw, ends}

abbrev pub Lines : Type 0
Lines = List (ℕ × Bytes)

-- The line under an iterator, 0 at the end.
abbrev pub line_at : Lines → ℕ
line_at [] = 0
line_at ((line, src) ∷ ls) = line

abbrev pub behind_line : Lines → Lines
behind_line [] = []
behind_line (l ∷ ls) = ls

-- The loop of a scan: from the line on that closes the block, `depth` blocks being open.
unfoldable pub scan_block : (Bytes → Bool) → (Bytes → Bool) → ℕ → Lines → Option Lines
scan_block opens closes depth [] = none
scan_block opens closes depth ((line, src) ∷ ls) =
    let deeper = scan_block opens closes (suc depth) ls in
    let out = scan_block opens closes (depth - 1) ls in
    let on = scan_block opens closes depth ls in
    if opens src
    then deeper
    else if closes src
    then (if depth == 1 then some ((line, src) ∷ ls) else out)
    else on

abbrev pub map_lines : (Lines → ℕ) → Option Lines → Option ℕ
map_lines f none = none
map_lines f (some ls) = some (f ls)

abbrev pub on_line : Lines → ℕ
on_line ls = line_at ls

abbrev pub after_line : Lines → ℕ
after_line ls = line_at (behind_line ls)

abbrev pub is_kw : Bytes → Bytes → Bool
is_kw kw src = peek_kw kw src

unfoldable pub scan_wend : Lines → Option ℕ
unfolding scan_block peek_kw
scan_wend ls = map_lines after_line (scan_block (is_kw (codes "WHILE")) (is_kw (codes "WEND")) 1 ls)

unfoldable pub scan_loop : Lines → Option ℕ
unfolding scan_block peek_kw
scan_loop ls = map_lines on_line (scan_block (is_kw (codes "DO")) (is_kw (codes "LOOP")) 1 ls)

-- The result of a scan, and the message where it fails.
abbrev pub or_log : {F : Floats} → Bytes → Option ℕ → Interp F → Interp F × ℕ
or_log message none s = (emit (logged message) s, 0)
or_log message (some line) s = (s, line)

abbrev pub or_zero : Option ℕ → ℕ
or_zero none = 0
or_zero (some line) = line

abbrev pub lines_behind : {F : Floats} → ℕ → Interp F → Lines
lines_behind from_line s = behind ltb from_line s.program

unfoldable pub find_wend_line : {F : Floats} → ℕ → Interp F → Interp F × ℕ
unfolding scan_wend behind
find_wend_line from_line s =
    or_log (codes "WHILE without matching WEND") (scan_wend (lines_behind from_line s)) s

unfoldable pub find_loop_line : {F : Floats} → ℕ → Interp F → Interp F × ℕ
unfolding scan_loop behind
find_loop_line from_line s =
    or_log (codes "DO without matching LOOP") (scan_loop (lines_behind from_line s)) s

-- Whether what follows `NEXT` is nothing, or names the variable.
unfoldable pub names_var : Bytes → Bytes → Bool
unfolding next_tok bytes_eq skip_ws
names_var var rest =
    is_empty (skip_ws rest)
    || (elim (name_of (next_tok rest).0) [ none ↦ false | some n ↦ bytes_eq n var ] || is_empty var)

unfoldable pub closes_for : Bytes → Bytes → Bool
unfolding eat_kw names_var
closes_for var src = elim (eat_kw (codes "NEXT") src) [
  | none ↦ false
  | some rest ↦ names_var var rest
]

unfoldable pub scan_next : Bytes → Lines → Option ℕ
unfolding closes_for
scan_next var [] = none
scan_next var ((line, src) ∷ ls) =
    let on = scan_next var ls in if closes_for var src then some line else on

unfoldable pub find_next_line : {F : Floats} → Bytes → ℕ → Interp F → ℕ
unfolding scan_next behind
find_next_line var from_line s = or_zero (scan_next var (lines_behind from_line s))

abbrev pub is_end_if : Bytes → Bool
is_end_if src = peek_kw (codes "END") src && ends (codes "IF") src

unfoldable pub scan_end_if : Lines → Option ℕ
unfolding scan_block peek_kw ends
scan_end_if ls = map_lines after_line (scan_block (is_kw (codes "IF")) is_end_if 1 ls)

unfoldable pub find_end_if_line : {F : Floats} → ℕ → Interp F → Interp F × ℕ
unfolding scan_end_if behind
find_end_if_line from_line s =
    or_log (codes "IF without END IF") (scan_end_if (lines_behind from_line s)) s

abbrev pub up : ℤ → ℤ
up (pos n) = pos (suc n)
up (negsuc zero) = pos 0
up (negsuc (suc n)) = negsuc n

abbrev pub down : ℤ → ℤ
down (pos zero) = negsuc 0
down (pos (suc n)) = pos n
down (negsuc n) = negsuc (suc n)

abbrev pub is_zero : ℤ → Bool
is_zero (pos zero) = true
is_zero _ = false

-- The loop that looks for `THEN` outside of parentheses: what follows it, or `none` at the end of the
-- line. Each round takes a token, so the length is fuel enough.
unfoldable pub then_loop : ℕ → ℤ → Bytes → Option Bytes
unfolding skip_ws next_tok eat_kw
then_loop zero paren lx = none
then_loop (suc fuel) paren lx =
    let rest = skip_ws lx in
    let behind_tok = (next_tok rest).1 in
    let opened = then_loop fuel (up paren) behind_tok in
    let closed = then_loop fuel (down paren) behind_tok in
    let on = then_loop fuel paren behind_tok in
    if is_empty lx
    then none
    else if peek_ch rest == b'('
    then opened
    else if peek_ch rest == b')'
    then closed
    else elim (eat_kw (codes "THEN") rest) [
      | some behind ↦ if is_zero paren then some behind else on
      | none ↦ on
    ]

unfoldable pub behind_then : Bytes → Option Bytes
unfolding then_loop
behind_then lx = then_loop (length lx) (pos 0) lx

-- Nothing stands behind `THEN`, or there is none.
unfoldable pub opens_block : Bytes → Bool
unfolding behind_then skip_ws
opens_block lx = elim (behind_then lx) [ none ↦ true | some rest ↦ is_empty (skip_ws rest) ]

-- `kind`: 0, 1 and 2.
pub data Branch : Type 0 where
  else_if else_branch end_if : Branch

-- What an `ELSE` at this depth is.
unfoldable pub branch_of : Bytes → Option Branch
unfolding peek_kw eat_kw skip_ws
branch_of src =
    if peek_kw (codes "ELSEIF") src || peek_kw (codes "ELSE IF") src
    then some else_if
    else elim (eat_kw (codes "ELSE") src) [
      | none ↦ none
      | some rest ↦
          let lx = skip_ws rest in
          if is_empty lx || (peek_ch lx == b':' || peek_ch lx == b'\'')
          then some else_branch
          else if peek_kw (codes "IF") lx
          then some else_if
          else none
    ]

-- A branch that counts only at depth 1.
abbrev pub at_depth_one : ℕ → Option Branch → Option Branch
at_depth_one depth b = if depth == 1 then b else none

unfoldable pub scan_branch : ℕ → Lines → Option (Branch × ℕ)
unfolding peek_kw opens_block branch_of ends
scan_branch depth [] = none
scan_branch depth ((line, src) ∷ ls) =
    let deeper = scan_branch (suc depth) ls in
    let out = scan_branch (depth - 1) ls in
    let on = scan_branch depth ls in
    if peek_kw (codes "IF") src
    then (if opens_block (skip_kw (codes "IF") src) then deeper else on)
    else elim (at_depth_one depth (branch_of src)) [
      | some b ↦ some (b, line)
      | none ↦ if is_end_if src then (if depth == 1 then some (end_if, line_at ls) else out) else on
    ]

abbrev pub or_end : Option (Branch × ℕ) → Branch × ℕ
or_end none = (end_if, 0)
or_end (some b) = b

unfoldable pub find_next_if_branch : {F : Floats} → ℕ → Interp F → Branch × ℕ
unfolding scan_branch behind
find_next_if_branch from_line s = or_end (scan_branch 1 (lines_behind from_line s))

unfoldable pub scan_end_select : Lines → Option ℕ
unfolding scan_block peek_kw ends
scan_end_select ls =
    map_lines after_line (scan_block (is_kw (codes "SELECT")) (ends (codes "SELECT")) 1 ls)

unfoldable pub find_end_select_line : {F : Floats} → ℕ → Interp F → ℕ
unfolding scan_end_select behind
find_end_select_line from_line s = or_zero (scan_end_select (lines_behind from_line s))

-- The first line with the keyword, behind an `END` or not.
unfoldable pub scan_end : Bytes → Lines → Option ℕ
unfolding ends
scan_end kw [] = none
scan_end kw ((line, src) ∷ ls) = let on = scan_end kw ls in if ends kw src then some line else on

unfoldable pub find_end_sub_line : {F : Floats} → ℕ → Interp F → ℕ
unfolding scan_end behind
find_end_sub_line from_line s = or_zero (scan_end (codes "SUB") (lines_behind from_line s))

unfoldable pub find_end_func_line : {F : Floats} → ℕ → Interp F → ℕ
unfolding scan_end behind
find_end_func_line from_line s = or_zero (scan_end (codes "FUNCTION") (lines_behind from_line s))
