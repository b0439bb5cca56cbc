-- ===== src/Basic/Control.antt =====
-- The control flow of lib/basic.cpp: the commands on lines to jump to and on the stacks of open blocks.
-- `expr` is `eval_expr`. The collections are in a child module.
pub mod Commands
pub mod Cases
pub mod Stacks
pub mod Collections
pub mod Calls
use ax25toolkit.Base.{
  ℕ, zero, suc, ◌+◌, ◌-◌, Bool, true, false, not, ◌&&◌, ◌||◌, List, [], ◌∷◌, ◌++◌, Bytes, ltb, ◌==◌,
  Option, none, some, if◌then◌else◌, is_empty, drop,
}
use ax25toolkit.Base.Int.{ℤ, pos, negsuc}
use ax25toolkit.Base.Text.{bytes_eq, bytes_lt, is_digit, to_string, codes}
use ax25toolkit.Base.Dict.{lookup, behind}
use ax25toolkit.Basic.{
  Floats, Value, num, str, zero_num, to_num, to_str, to_bool, Interp, ForFrame, IfFrame, DoFrame,
  SelectFrame, CallFrame, Event, logged, emit,
}
use ax25toolkit.Basic.Lexer.{
  peek_ch, skip_ws, eat_kw, peek_kw, eat_ch, after, rest_trimmed, Token, ident, next_tok, holds,
}
use ax25toolkit.Basic.Vars.{find, present, get_var, set_var}
use ax25toolkit.Basic.Scan.{name_of, text_of, ends}
use ax25toolkit.Basic.Blocks.{
  Lines, line_at, behind_line, lines_behind, find_wend_line, find_loop_line, find_next_line,
  find_end_if_line, Branch, end_if, find_next_if_branch, find_end_select_line, find_end_sub_line,
  find_end_func_line,
}
use ax25toolkit.Basic.Eval.{is_str, CmpOp, equal, cmp_op, decided, operator}
use ax25toolkit.Basic.Eval.Steps.{
  Cursor, Run, ◌>>=◌, ◌>>◌, give, endless, look, gets, change, blanks, eat, got_ch, got_kw, token,
  rounds,
}
use ax25toolkit.Basic.Eval.Builtins.{int_of}

-- What a command returns: -1, or a line, 0 being the end of the program.
pub data Jump : Type 0 where
  advance : Jump
  to : ℕ → Jump

abbrev pub say : {F : Floats} → Bytes → Run F (Unit {0})
say message = change (emit (logged message))

abbrev pub say_line : {F : Floats} → Bytes → ℕ → Run F (Unit {0})
say_line message line = say (message ++ to_string line)

-- A search that may log.
abbrev pub search : {F : Floats} → (Interp F → Interp F × ℕ) → Run F Jump
search f c = some (to (f c.state).1, record c { state = (f c.state).0 })

-- The line behind another.
abbrev pub line_behind : {F : Floats} → ℕ → Interp F → ℕ
line_behind line s = line_at (lines_behind line s)

unfoldable pub push_if : {F : Floats} → Bool → ℕ → Interp F → Interp F
push_if taken line s = record s {
  if_stack = (record { taken = taken; in_true = taken; if_line = line }) ∷ s.if_stack;
}

unfoldable pub pop_if : {F : Floats} → Interp F → Interp F
pop_if s = record s { if_stack = drop 1 s.if_stack }

abbrev pub set_top : Bool → List IfFrame → List IfFrame
set_top b [] = []
set_top b (f ∷ fs) = record f { taken = b; in_true = b } ∷ fs

unfoldable pub take_branch : {F : Floats} → Interp F → Interp F
take_branch s = record s { if_stack = set_top true s.if_stack }

-- On at a branch; behind END IF the block is closed.
abbrev pub go_on : {F : Floats} → Branch × ℕ → Run F Jump
go_on (end_if, line) = do change pop_if; give (to line)
go_on (_, line) = give (to line)

unfoldable pub skip_branch : {F : Floats} → ℕ → Run F Jump
unfolding find_next_if_branch pop_if
skip_branch line = do found ← gets (find_next_if_branch line); go_on found

unfoldable pub cmd_block_if_cond : {F : Floats} → Bool → ℕ → Run F Jump
unfolding push_if skip_branch
cmd_block_if_cond true line = do change (push_if true line); give advance
cmd_block_if_cond false line = do change (push_if false line); skip_branch line

-- A branch was executed before: on behind END IF.
unfoldable pub leave_if : {F : Floats} → ℕ → Run F Jump
unfolding pop_if find_end_if_line
leave_if line = do change pop_if; search (find_end_if_line line)

unfoldable pub cmd_else : {F : Floats} → ℕ → Run F Jump
unfolding leave_if take_branch
cmd_else line = do
  stack ← gets (λ s. s.if_stack)
  elim stack [
    | [] ↦ do say_line (codes "ELSE without IF on line ") line; give advance
    | f ∷ fs ↦ elim (f.taken) [ true ↦ leave_if line | false ↦ do change take_branch; give advance ]
  ]

unfoldable pub cmd_end_if : {F : Floats} → ℕ → Run F Jump
unfolding pop_if
cmd_end_if line = do
  stack ← gets (λ s. s.if_stack)
  elim stack [
    | [] ↦ do say_line (codes "END IF without IF on line ") line; give advance
    | f ∷ fs ↦ do change pop_if; give advance
  ]

abbrev pub positive : ℤ → Option ℕ
positive (pos (suc n)) = some (suc n)
positive _ = none

abbrev pub jump_to : Option ℕ → Jump
jump_to none = advance
jump_to (some line) = to line

-- The line that RETURN will go to.
unfoldable pub push_return : {F : Floats} → ℕ → Interp F → Interp F
unfolding behind lookup
push_return line s =
    let next : ℕ = if present (lookup ltb line s.program) then line_behind line s else 0 in
    record s { call_stack = next ∷ s.call_stack }

unfoldable pub cmd_return : {F : Floats} → Run F Jump
cmd_return = do
  stack ← gets (λ s. s.call_stack)
  elim stack [
    | [] ↦ do say (codes "RETURN without GOSUB"); give (to 0)
    | line ∷ ls ↦ do change (λ s. record s { call_stack = drop 1 s.call_stack }); give (to line)
  ]

unfoldable pub pop_for : {F : Floats} → Interp F → Interp F
pop_for s = record s { for_stack = drop 1 s.for_stack }

-- The name behind NEXT, `[]` for none.
unfoldable pub next_name : {F : Floats} → Run F Bytes
unfolding skip_ws next_tok
next_name = do
  blanks
  named ← look (λ lx. holds (name_of (next_tok lx).0))
  elim named [ true ↦ do t ← token; give (text_of t) | false ↦ give [] ]

-- One round of a loop over matches; `matches` has the present one first.
unfoldable pub next_match : {F : Floats} → ForFrame F → List Bytes → Run F Jump
unfolding pop_for set_var
next_match f [] = do change pop_for; give advance
next_match f (m ∷ ms) = do
  change (λ s. record s { for_stack = record f { matches = m ∷ ms } ∷ drop 1 s.for_stack })
  change (set_var f.var (str m))
  give (to f.body_line)

unfoldable pub next_number : {F : Floats} → ForFrame F → Run F Jump
unfolding pop_for get_var set_var to_num
next_number {F} f = do
  v ← gets (λ s. F.add (to_num (get_var f.var s)) f.step)
  change (set_var f.var (num v))
  elim (if F.is_lt (zero_num F) f.step || F.is_eq f.step (zero_num F)
      then F.is_lt v f.to || F.is_eq v f.to
      else F.is_lt f.to v || F.is_eq v f.to) [
        | true ↦ give (to f.body_line)
        | false ↦ do change pop_for; give advance
      ]

unfoldable pub next_round : {F : Floats} → ForFrame F → Run F Jump
unfolding next_match next_number
next_round f = elim (f.is_match) [ true ↦ next_match f (drop 1 f.matches) | false ↦ next_number f ]

unfoldable pub cmd_next : {F : Floats} → Run F Jump
unfolding next_name next_round bytes_eq
cmd_next = do
  var ← next_name
  stack ← gets (λ s. s.for_stack)
  elim stack [
    | [] ↦ do say (codes "NEXT without FOR"); give advance
    | f ∷ fs ↦ elim (not (is_empty var) && not (bytes_eq f.var var)) [
      | true ↦ do say (codes "NEXT var mismatch"); give advance
      | false ↦ next_round f
    ]
  ]

unfoldable pub cmd_exit_for : {F : Floats} → ℕ → Run F Jump
unfolding pop_for find_next_line behind
cmd_exit_for line = do
  stack ← gets (λ s. s.for_stack)
  elim stack [
    | [] ↦ do say (codes "EXIT FOR without FOR"); give advance
    | f ∷ fs ↦ do
      change pop_for
      found ← gets (find_next_line f.var line)
      next ← gets (line_behind found)
      give (to (if found == 0 then 0 else next))
  ]

unfoldable pub cmd_wend : {F : Floats} → Run F Jump
cmd_wend = do
  stack ← gets (λ s. s.while_stack)
  elim stack [
    | [] ↦ do say (codes "WEND without WHILE"); give advance
    | line ∷ ls ↦ do change (λ s. record s { while_stack = drop 1 s.while_stack }); give (to line)
  ]

unfoldable pub push_do : {F : Floats} → DoFrame → Interp F → Interp F
push_do f s = record s { do_stack = f ∷ s.do_stack }

unfoldable pub pop_do : {F : Floats} → Interp F → Interp F
pop_do s = record s { do_stack = drop 1 s.do_stack }

-- On behind the LOOP of the block.
unfoldable pub leave_do : {F : Floats} → ℕ → Run F Jump
unfolding pop_do find_loop_line behind
leave_do line = do
  change pop_do
  found ← gets (λ s. find_loop_line line s)
  change (λ s. found.0)
  gets (λ s. to (line_behind found.1 s))

unfoldable pub cmd_exit_do : {F : Floats} → ℕ → Run F Jump
unfolding leave_do
cmd_exit_do line = do
  stack ← gets (λ s. s.do_stack)
  elim stack [ [] ↦ do say (codes "EXIT DO without DO"); give advance | f ∷ fs ↦ leave_do line ]

unfoldable pub cmd_end_select : {F : Floats} → Run F Jump
cmd_end_select = do change (λ s. record s { select_stack = drop 1 s.select_stack }); give advance

unfoldable pub cmd_sub : {F : Floats} → ℕ → Run F Jump
unfolding find_end_sub_line
cmd_sub line = gets (λ s. to (find_end_sub_line line s + 1))

unfoldable pub cmd_function : {F : Floats} → ℕ → Run F Jump
unfolding find_end_func_line
cmd_function line = gets (λ s. to (find_end_func_line line s + 1))

abbrev pub exit_top : {F : Floats} → List (CallFrame F) → List (CallFrame F)
exit_top [] = []
exit_top (f ∷ fs) = record f { exiting = true } ∷ fs

-- `cmd_end_sub`, `cmd_end_func`, `cmd_exit_sub` and `cmd_exit_func`.
unfoldable pub cmd_exit_proc : {F : Floats} → Run F Jump
cmd_exit_proc = do change (λ s. record s { frame_stack = exit_top s.frame_stack }); give advance
