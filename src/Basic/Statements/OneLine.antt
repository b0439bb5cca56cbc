-- ===== src/Basic/Statements/OneLine.antt =====
-- `cmd_if` of lib/basic.cpp: IF with its statements on one line.
use ax25toolkit.Base.{
  ℕ, zero, suc, ◌-◌, Bool, true, false, ◌||◌, [], ◌++◌, Bytes, ◌==◌, none, some, if◌then◌else◌,
  is_empty,
}
use ax25toolkit.Base.Int.{ℤ, pos, negsuc}
use ax25toolkit.Base.Text.{is_digit, to_string, codes}
use ax25toolkit.Base.Dict.{behind}
use ax25toolkit.Basic.{Floats, to_num, to_bool}
use ax25toolkit.Basic.Lexer.{peek_ch, skip_ws, eat_ch, eat_kw, peek_kw, next_tok}
use ax25toolkit.Basic.Blocks.{behind_then}
use ax25toolkit.Basic.Eval.Steps.{
  Run, ◌>>=◌, ◌>>◌, give, endless, look, blanks, got_ch, got_kw, rounds,
}
use ax25toolkit.Basic.Eval.Builtins.{int_of}
use ax25toolkit.Basic.Control.{Jump, advance, to, say, cmd_block_if_cond}
use ax25toolkit.Basic.Statements.Dispatch.{World, skip_line}

-- The loop over one-line IF's false branch up to its ELSE.
unfoldable pub to_else : ℕ → ℕ → Bytes → Bytes
unfolding skip_ws peek_kw eat_kw next_tok
to_else zero depth lx = lx
to_else (suc fuel) depth lx =
    let rest = skip_ws lx in
    let c = peek_ch rest in
    let deep : ℕ = if c == b'(' then suc depth else if c == b')' then depth - 1 else depth in
    let later = to_else fuel deep (next_tok rest).1 in
    if is_empty lx then [] else elim (if depth == 0 then eat_kw (codes "ELSE") rest else none) [
      | some behind ↦ behind
      | none ↦ later
    ]

-- The lexer is set.
abbrev pub at_lexer : {F : Floats} → (Bytes → Bytes) → Run F (Unit {0})
at_lexer f c = some (tt, record c { lx = f c.lx })

-- A number as the result of a statement: at a negative one other than -1 the rest of the line is left.
abbrev pub line_number : {F : Floats} → ℤ → Run F Jump
line_number (pos n) = give (to n)
line_number (negsuc zero) = give advance
line_number (negsuc (suc n)) = skip_line

-- `THEN` is the last thing on the line, and `lx` what follows `IF`.
unfoldable pub is_block_if : Bytes → Bool
unfolding behind_then
is_block_if lx = elim (behind_then lx) [ none ↦ false | some rest ↦ is_empty rest ]

abbrev pub at_else : Bytes → Bool
at_else lx = is_empty lx || peek_kw (codes "ELSE") lx

-- The end of the true branch: what follows ELSE is left.
unfoldable pub end_then : {F : Floats} → Run F Jump
unfolding eat_kw skip_ws
end_then = do other ← got_kw (codes "ELSE"); elim other [ true ↦ skip_line | false ↦ give advance ]

module _ {F : Floats} (w : World F) (stmt : Run F Jump) where
  -- The statements of the true branch.
  unfoldable pub then_stmts : ℕ → Run F Jump
  unfolding skip_ws peek_kw eat_ch end_then
  then_stmts zero = endless
  then_stmts (suc fuel) = do
    blanks
    over ← look at_else
    elim over [
      | true ↦ end_then
      | false ↦ do
        jump ← stmt
        elim jump [
          | to line ↦ give (to line)
          | advance ↦ do
            blanks
            done ← look at_else
            elim done [
              | true ↦ end_then
              | false ↦ do
                more ← got_ch b':'
                elim more [ true ↦ then_stmts fuel | false ↦ end_then ]
            ]
        ]
    ]

  -- The statements behind ELSE.
  unfoldable pub else_stmts : ℕ → Run F Jump
  unfolding skip_ws eat_ch
  else_stmts zero = endless
  else_stmts (suc fuel) = do
    blanks
    over ← look is_empty
    elim over [
      | true ↦ give advance
      | false ↦ do
        jump ← stmt
        elim jump [
          | to line ↦ give (to line)
          | advance ↦ do
            blanks
            more ← got_ch b':'
            elim more [ true ↦ else_stmts fuel | false ↦ give advance ]
        ]
    ]

  -- A branch of a one-line IF: a line number or statements.
  unfoldable pub branch_line : (ℕ → Run F Jump) → Run F Jump
  unfolding is_digit to_num
  branch_line stmts = do
    number ← look (λ lx. is_digit (peek_ch lx))
    n ← rounds
    elim number [ true ↦ do v ← w.expr; line_number (int_of v) | false ↦ stmts (suc n) ]

  unfoldable pub one_line : Bool → Run F Jump
  unfolding then_stmts else_stmts branch_line to_else skip_ws
  one_line true = branch_line then_stmts
  one_line false = do
    n ← rounds
    at_lexer (to_else (suc n) 0)
    over ← look is_empty
    blanks
    elim over [ true ↦ give advance | false ↦ branch_line else_stmts ]

  unfoldable pub cmd_if : ℕ → Run F Jump
  unfolding eat_kw skip_ws to_bool cmd_block_if_cond one_line
  cmd_if line = do
    cond ← w.expr
    then_kw ← got_kw (codes "THEN")
    blanks
    block ← look (λ lx. is_empty lx || peek_ch lx == b'\'')
    elim then_kw [
      | false ↦ do say (codes "IF without THEN on line " ++ to_string line); give advance
      | true ↦ elim block [
        | true ↦ cmd_block_if_cond (to_bool cond) line
        | false ↦ one_line (to_bool cond)
      ]
    ]
