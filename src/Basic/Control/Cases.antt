-- ===== src/Basic/Control/Cases.antt =====
-- SELECT and CASE of lib/basic.cpp.
use ax25toolkit.Base.{
  ℕ, zero, suc, Bool, true, false, ◌&&◌, ◌||◌, List, [], ◌∷◌, ◌==◌, Option, none, some,
  if◌then◌else◌, is_empty, drop,
}
use ax25toolkit.Base.Text.{bytes_eq, codes}
use ax25toolkit.Base.Dict.{behind}
use ax25toolkit.Basic.{Floats, Value, to_num, to_str, Interp, SelectFrame}
use ax25toolkit.Basic.Lexer.{peek_ch, skip_ws, eat_kw, peek_kw, eat_ch}
use ax25toolkit.Basic.Scan.{ends}
use ax25toolkit.Basic.Blocks.{Lines, line_at, lines_behind, is_kw, find_end_select_line}
use ax25toolkit.Basic.Eval.{is_str, CmpOp, cmp_op, decided, operator}
use ax25toolkit.Basic.Eval.Steps.{
  Run, ◌>>=◌, ◌>>◌, give, endless, look, gets, change, blanks, got_ch, got_kw, rounds,
}
use ax25toolkit.Basic.Control.{Jump, advance, to, say_line}

abbrev pub set_matched : {F : Floats} → List (SelectFrame F) → List (SelectFrame F)
set_matched [] = []
set_matched (f ∷ fs) = record f { in_case = true; matched = true } ∷ fs

abbrev pub match_case : {F : Floats} → Interp F → Interp F
match_case s = record s { select_stack = set_matched s.select_stack }

abbrev pub pop_select : {F : Floats} → Interp F → Interp F
pop_select s = record s { select_stack = drop 1 s.select_stack }

-- Where SELECT goes on: a CASE, or the line behind END SELECT, which closes the block.
pub data Found : Type 0 where
  at_case behind_end : ℕ → Found
  nowhere : Found

unfoldable pub first_case : Lines → Found
unfolding eat_kw ends
first_case [] = nowhere
first_case ((line, src) ∷ ls) =
    let later = first_case ls in
    if is_kw (codes "CASE") src
    then at_case line
    else if ends (codes "SELECT") src
    then behind_end (line_at ls)
    else later

-- The next CASE of the same block.
unfoldable pub next_case : ℕ → Lines → Found
unfolding eat_kw ends
next_case depth [] = nowhere
next_case zero ((line, src) ∷ ls) =
    let deeper = next_case 1 ls in
    let on = next_case zero ls in
    if is_kw (codes "SELECT") src
    then deeper
    else if is_kw (codes "CASE") src
    then at_case line
    else if ends (codes "SELECT") src
    then behind_end (line_at ls)
    else on
next_case (suc depth) ((line, src) ∷ ls) =
    let deeper = next_case (suc (suc depth)) ls in
    let out = next_case depth ls in
    let on = next_case (suc depth) ls in
    if is_kw (codes "SELECT") src then deeper else if ends (codes "SELECT") src then out else on

abbrev pub go_to : {F : Floats} → Jump → Found → Run F Jump
go_to otherwise (at_case line) = give (to line)
go_to otherwise (behind_end line) = do change pop_select; give (to line)
go_to otherwise nowhere = give otherwise

-- `selector <op> rhs` on numbers; false without an operator.
abbrev pub compared : (F : Floats) → Option CmpOp → F.Num → F.Num → Bool
compared F none a b = false
compared F (some op) a b = decided op (F.is_eq a b) (F.is_lt a b) (F.is_lt b a)

unfoldable pub in_range : (F : Floats) → F.Num → F.Num → F.Num → Bool
in_range F x low high = (F.is_lt low x || F.is_eq x low) && (F.is_lt x high || F.is_eq x high)

unfoldable pub same_value : {F : Floats} → Value F → Value F → Bool
unfolding to_num to_str bytes_eq
same_value {F} a b =
    if is_str a || is_str b then bytes_eq (to_str a) (to_str b) else F.is_eq (to_num a) (to_num b)

module _ {F : Floats} (expr : Run F (Value F)) where
  unfoldable pub cmd_select : ℕ → Run F Jump
  unfolding eat_kw skip_ws first_case behind
  cmd_select line = do
    _ ← got_kw (codes "CASE")
    v ← expr
    change (λ s. record s {
      select_stack =
          (record { selector = v; matched = false; in_case = false; select_line = line })
          ∷ s.select_stack;
    })
    found ← gets (λ s. first_case (lines_behind line s))
    go_to advance found

  -- One alternative of CASE: whether it matches.
  unfoldable pub case_item : Value F → Run F Bool
  unfolding eat_kw skip_ws cmp_op to_num same_value in_range
  case_item selector = do
    is ← got_kw (codes "IS")
    elim is [
      | true ↦ do op ← operator cmp_op; v ← expr; give (compared F op (to_num selector) (to_num v))
      | false ↦ do
        low ← expr
        ranged ← got_kw (codes "TO")
        elim ranged [
          | true ↦ do high ← expr; give (in_range F (to_num selector) (to_num low) (to_num high))
          | false ↦ give (same_value selector low)
        ]
    ]

  unfoldable pub case_loop : ℕ → Value F → Bool → Run F Bool
  unfolding case_item eat_ch skip_ws
  case_loop zero selector hit = endless
  case_loop (suc fuel) selector hit = do
    stop ← look (λ lx. is_empty lx || (peek_ch lx == b':' || peek_ch lx == b'\''))
    elim stop [
      | true ↦ give hit
      | false ↦ do
        here ← case_item selector
        more ← got_ch b','
        elim more [ true ↦ case_loop fuel selector (hit || here) | false ↦ give (hit || here) ]
    ]

  -- CASE of a block where none matched before.
  unfoldable pub try_case : Value F → ℕ → Run F Jump
  unfolding skip_ws eat_kw peek_kw case_loop next_case behind
  try_case selector line = do
    blanks
    otherwise ← look (peek_kw (codes "ELSE"))
    n ← rounds
    hit ← elim otherwise [ true ↦ give true | false ↦ case_loop (suc n) selector false ]
    elim hit [
      | true ↦ do change match_case; give advance
      | false ↦ do found ← gets (λ s. next_case zero (lines_behind line s)); go_to (to 0) found
    ]

  unfoldable pub cmd_case : ℕ → Run F Jump
  unfolding try_case find_end_select_line
  cmd_case line = do
    stack ← gets (λ s. s.select_stack)
    elim stack [
      | [] ↦ do say_line (codes "CASE without SELECT on line ") line; give advance
      | f ∷ fs ↦ elim (f.matched) [
        | true ↦ do change pop_select; gets (λ s. to (find_end_select_line f.select_line s))
        | false ↦ try_case f.selector line
      ]
    ]
