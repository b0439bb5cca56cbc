-- ===== src/Basic/Control/Commands.antt =====
-- The commands of control flow in lib/basic.cpp that evaluate an expression, `expr`.
use ax25toolkit.Base.{
  ℕ, zero, suc, Bool, true, false, not, [], ◌∷◌, ◌++◌, Bytes, Option, none, some, if◌then◌else◌,
}
use ax25toolkit.Base.Text.{bytes_lt, is_digit, to_string, codes}
use ax25toolkit.Base.Dict.{lookup}
use ax25toolkit.Basic.{Floats, Value, to_num, to_bool, DoFrame}
use ax25toolkit.Basic.Lexer.{peek_ch, skip_ws, eat_kw, rest_trimmed, next_tok}
use ax25toolkit.Basic.Vars.{find}
use ax25toolkit.Basic.Scan.{name_of}
use ax25toolkit.Basic.Blocks.{find_wend_line}
use ax25toolkit.Basic.Eval.Steps.{Run, ◌>>=◌, ◌>>◌, give, look, gets, change, blanks, got_kw, token}
use ax25toolkit.Basic.Eval.Builtins.{int_of}
use ax25toolkit.Basic.Control.{
  Jump, advance, to, say, say_line, search, positive, push_return, cmd_block_if_cond, leave_if,
  take_branch, skip_branch, push_do, pop_do, leave_do,
}

module _ {F : Floats} (expr : Run F (Value F)) where
  unfoldable pub cmd_block_if : ℕ → Run F Jump
  unfolding eat_kw skip_ws to_bool cmd_block_if_cond
  cmd_block_if line = do
    cond ← expr
    _ ← got_kw (codes "THEN")
    cmd_block_if_cond (to_bool cond) line

  -- ELSEIF, where no branch was executed before.
  unfoldable pub try_branch : ℕ → Run F Jump
  unfolding eat_kw skip_ws to_bool take_branch skip_branch
  try_branch line = do
    cond ← expr
    _ ← got_kw (codes "THEN")
    elim (to_bool cond) [ true ↦ do change take_branch; give advance | false ↦ skip_branch line ]

  unfoldable pub cmd_elseif : ℕ → Run F Jump
  unfolding leave_if try_branch
  cmd_elseif line = do
    stack ← gets (λ s. s.if_stack)
    elim stack [
      | [] ↦ do say_line (codes "ELSEIF without IF on line ") line; give advance
      | f ∷ fs ↦ elim (f.taken) [ true ↦ leave_if line | false ↦ try_branch line ]
    ]

  -- The line of a label; -1 is `none`.
  unfoldable pub resolve_label : ℕ → Run F (Option ℕ)
  unfolding next_tok lookup bytes_lt
  resolve_label line = do
    t ← token
    elim (name_of t) [
      | none ↦ give none
      | some name ↦ do
        at ← gets (λ s. find name s.labels)
        elim at [
          | some l ↦ give (some l)
          | none ↦ do
            say (codes "Undefined label: " ++ (name ++ (codes " on line " ++ to_string line)))
            give none
        ]
    ]

  unfoldable pub resolve_target : ℕ → Run F (Option ℕ)
  unfolding skip_ws is_digit resolve_label to_num
  resolve_target line = do
    blanks
    number ← look (λ lx. is_digit (peek_ch lx))
    elim number [ true ↦ do v ← expr; give (positive (int_of v)) | false ↦ resolve_label line ]

  abbrev pub positive_line : Option ℕ → Jump
  positive_line none = advance
  positive_line (some zero) = advance
  positive_line (some (suc n)) = to (suc n)

  unfoldable pub cmd_goto : ℕ → Run F Jump
  unfolding resolve_target
  cmd_goto line = do target ← resolve_target line; give (positive_line target)

  unfoldable pub cmd_gosub : ℕ → Run F Jump
  unfolding resolve_target push_return
  cmd_gosub line = do
    target ← resolve_target line
    change (push_return line)
    give (positive_line target)

  unfoldable pub cmd_while : ℕ → Run F Jump
  unfolding to_bool find_wend_line
  cmd_while line = do
    cond ← expr
    elim (to_bool cond) [
      | true ↦ do change (λ s. record s { while_stack = line ∷ s.while_stack }); give advance
      | false ↦ search (find_wend_line line)
    ]

  -- `expr` on another line of text; the lexer stays where it is.
  abbrev pub expr_of : Bytes → Run F (Value F)
  expr_of src c = elim (expr (record c { lx = src })) [
    | none ↦ none
    | some (v, c') ↦ some (v, record c' { lx = c.lx })
  ]

  abbrev pub all_of_it : Run F Bytes
  all_of_it c = some (rest_trimmed c.lx, record c { lx = [] })

  -- DO with its condition.
  unfoldable pub do_if : Bool → ℕ → Run F Jump
  unfolding skip_ws rest_trimmed to_bool push_do leave_do
  do_if is_while line = do
    src ← all_of_it
    cond ← expr_of src
    change (
        push_do
          (record { do_line = line; has_pre_cond = true; pre_is_while = is_while; pre_expr = src }))
    elim (if is_while then to_bool cond else not (to_bool cond)) [
      | true ↦ give advance
      | false ↦ leave_do line
    ]

  unfoldable pub cmd_do : ℕ → Run F Jump
  unfolding eat_kw skip_ws do_if push_do
  cmd_do line = do
    while_cond ← got_kw (codes "WHILE")
    elim while_cond [
      | true ↦ do_if true line
      | false ↦ do
        until_cond ← got_kw (codes "UNTIL")
        elim until_cond [
          | true ↦ do_if false line
          | false ↦ do
            change (
                push_do (record {
                  do_line = line;
                  has_pre_cond = false;
                  pre_is_while = false;
                  pre_expr = [];
                }))
            give advance
        ]
    ]

  -- Back to DO, or on.
  abbrev pub repeat_do : DoFrame → Bool → Run F Jump
  repeat_do f true = give (to f.do_line)
  repeat_do f false = do change pop_do; give advance

  -- LOOP without a condition of its own.
  unfoldable pub bare_loop : DoFrame → Run F Jump
  unfolding to_bool pop_do
  bare_loop f = elim (f.has_pre_cond) [
    | true ↦ do
      cond ← expr_of f.pre_expr
      repeat_do f (if f.pre_is_while then to_bool cond else not (to_bool cond))
    | false ↦ give (to f.do_line)
  ]

  unfoldable pub loop_of : DoFrame → Run F Jump
  unfolding eat_kw skip_ws to_bool pop_do bare_loop
  loop_of f = do
    while_cond ← got_kw (codes "WHILE")
    elim while_cond [
      | true ↦ do cond ← expr; repeat_do f (to_bool cond)
      | false ↦ do
        until_cond ← got_kw (codes "UNTIL")
        elim until_cond [
          | true ↦ do cond ← expr; repeat_do f (not (to_bool cond))
          | false ↦ bare_loop f
        ]
    ]

  unfoldable pub cmd_loop : Run F Jump
  unfolding loop_of
  cmd_loop = do
    stack ← gets (λ s. s.do_stack)
    elim stack [ [] ↦ do say (codes "LOOP without DO"); give advance | f ∷ fs ↦ loop_of f ]
