-- ===== src/Basic/Statements/Dispatch.antt =====
-- The keywords that `exec_stmt` of lib/basic.cpp tells apart, and DIM and CALL.
use ax25toolkit.Base.{
  ℕ, zero, suc, true, false, ◌||◌, List, [], ◌∷◌, ◌++◌, Bytes, ◌==◌, Option, none, some,
  if◌then◌else◌, is_empty,
}
use ax25toolkit.Base.Text.{bytes_eq, codes}
use ax25toolkit.Basic.{Floats, Value, to_num, Interp}
use ax25toolkit.Basic.Lexer.{peek_ch, skip_ws, eat_ch, eat_kw, next_tok}
use ax25toolkit.Basic.Scan.{text_of, name_of}
use ax25toolkit.Basic.Eval.Steps.{
  Run, ◌>>=◌, ◌>>◌, give, endless, look, change, eat, got_ch, got_kw, token, rounds,
}
use ax25toolkit.Basic.Eval.Builtins.{int_of, at_least_zero}
use ax25toolkit.Basic.Control.{Jump, advance}
use ax25toolkit.Basic.Statements.{at_stop, dim_plain, dim_as, dim_array}

-- The statements with their keywords.
pub data Command : Type 0 where
  let_stmt rem_stmt print input recv goto gosub return_stmt if_stmt else_stmt end_stmt stop :
      Command
  for_stmt next while_stmt wend do_stmt loop select case_stmt sub function call_stmt exit dim
        const_stmt type_stmt :
      Command
  map_set_stmt map_get map_del map_keys map_clear_stmt : Command
  queue_push_stmt queue_pop queue_peek queue_clear_stmt : Command
  outside : Command

abbrev pub commands : List (Bytes × Command)
commands =
    (codes "LET", let_stmt)
    ∷ (codes "REM", rem_stmt)
    ∷ (codes "PRINT", print)
    ∷ (codes "SEND", print)
    ∷ (codes "INPUT", input)
    ∷ (codes "RECV", recv)
    ∷ (codes "GOTO", goto)
    ∷ (codes "GOSUB", gosub)
    ∷ (codes "RETURN", return_stmt)
    ∷ (codes "IF", if_stmt)
    ∷ (codes "ELSE", else_stmt)
    ∷ (codes "END", end_stmt)
    ∷ (codes "STOP", stop)
    ∷ (codes "FOR", for_stmt)
    ∷ (codes "NEXT", next)
    ∷ (codes "WHILE", while_stmt)
    ∷ (codes "WEND", wend)
    ∷ (codes "DO", do_stmt)
    ∷ (codes "LOOP", loop)
    ∷ (codes "SELECT", select)
    ∷ (codes "CASE", case_stmt)
    ∷ (codes "SUB", sub)
    ∷ (codes "FUNCTION", function)
    ∷ (codes "CALL", call_stmt)
    ∷ (codes "EXIT", exit)
    ∷ (codes "DIM", dim)
    ∷ (codes "CONST", const_stmt)
    ∷ (codes "TYPE", type_stmt)
    ∷ (codes "SLEEP", outside)
    ∷ (codes "DBOPEN", outside)
    ∷ (codes "DBCLOSE", outside)
    ∷ (codes "DBEXEC", outside)
    ∷ (codes "DBQUERY", outside)
    ∷ (codes "DBFETCHALL", outside)
    ∷ (codes "HTTPGET", outside)
    ∷ (codes "SOCKOPEN", outside)
    ∷ (codes "SOCKCLOSE", outside)
    ∷ (codes "SOCKSEND", outside)
    ∷ (codes "SOCKRECV", outside)
    ∷ (codes "EXEC", outside)
    ∷ (codes "SEND_APRS", outside)
    ∷ (codes "SEND_UI", outside)
    ∷ (codes "SEND_APRS_POS", outside)
    ∷ (codes "SEND_APRS_MSG", outside)
    ∷ (codes "MAP_SET", map_set_stmt)
    ∷ (codes "MAP_GET", map_get)
    ∷ (codes "MAP_DEL", map_del)
    ∷ (codes "MAP_KEYS", map_keys)
    ∷ (codes "MAP_CLEAR", map_clear_stmt)
    ∷ (codes "QUEUE_PUSH", queue_push_stmt)
    ∷ (codes "QUEUE_POP", queue_pop)
    ∷ (codes "QUEUE_PEEK", queue_peek)
    ∷ (codes "QUEUE_CLEAR", queue_clear_stmt)
    ∷ []

unfoldable pub command_of : List (Bytes × Command) → Bytes → Option Command
unfolding bytes_eq
command_of [] kw = none
command_of ((n, c) ∷ cs) kw =
    let later = command_of cs kw in if bytes_eq n kw then some c else later

-- What the statements are given: `eval_expr`, `call_proc`, and the commands that are not modelled.
pub record World (F : Floats) : Type 0 where
  pub expr : Run F (Value F)
  pub call : Bytes → List (Value F) → ℕ → Interp F → Option (Value F × Interp F)
  pub other : Bytes → ℕ → Run F Jump

-- A statement that goes on with the next one.
abbrev pub skip_line : {F : Floats} → Run F Jump
skip_line c = some (advance, record c { lx = [] })

abbrev pub call_at : {F : Floats} → World F → Bytes → List (Value F) → ℕ → Run F Jump
call_at w name args line c = elim (w.call name args line c.state) [
  | none ↦ none
  | some (v, s) ↦ some (advance, record c { state = s })
]

module _ {F : Floats} (w : World F) where
  -- The arguments in parentheses: no round need take anything from the line.
  unfoldable pub paren_args : ℕ → List (Value F) → Run F (List (Value F))
  unfolding eat_ch skip_ws
  paren_args zero args = endless
  paren_args (suc fuel) args = do
    end ← look (λ lx. is_empty lx || peek_ch lx == b')')
    elim end [
      | true ↦ give args
      | false ↦ do v ← w.expr; eat b','; paren_args fuel (args ++ v ∷ [])
    ]

  -- The arguments without parentheses.
  unfoldable pub bare_args : ℕ → List (Value F) → Run F (List (Value F))
  unfolding eat_ch skip_ws
  bare_args zero args = endless
  bare_args (suc fuel) args = do
    end ← look at_stop
    elim end [
      | true ↦ give args
      | false ↦ do
        v ← w.expr
        more ← got_ch b','
        elim more [ true ↦ bare_args fuel (args ++ v ∷ []) | false ↦ give (args ++ v ∷ []) ]
    ]

  unfoldable pub cmd_call : ℕ → ℕ → Run F Jump
  unfolding next_tok eat_ch skip_ws paren_args bare_args
  cmd_call fuel line = do
    t ← token
    paren ← got_ch b'('
    n ← rounds
    args ← elim paren [
      | true ↦ do a ← paren_args fuel []; eat b')'; give a
      | false ↦ bare_args (suc n) []
    ]
    call_at w (text_of t) args line

  -- Extra dimensions, read and forgotten.
  unfoldable pub more_sizes : ℕ → Run F (Unit {0})
  unfolding eat_ch skip_ws
  more_sizes zero = endless
  more_sizes (suc fuel) = do
    more ← got_ch b','
    elim more [ true ↦ do _ ← w.expr; more_sizes fuel | false ↦ give tt ]

  -- One variable of DIM.
  unfoldable pub dim_one : Bytes → Run F (Unit {0})
  unfolding eat_ch eat_kw skip_ws next_tok more_sizes to_num dim_array dim_as dim_plain
  dim_one var = do
    paren ← got_ch b'('
    elim paren [
      | true ↦ do
        size ← w.expr
        n ← rounds
        more_sizes (suc n)
        eat b')'
        change (dim_array var (at_least_zero (int_of size)))
      | false ↦ do
        typed ← got_kw (codes "AS")
        elim typed [
          | true ↦ do t ← token; change (dim_as var (text_of t))
          | false ↦ change (dim_plain var)
        ]
    ]

  unfoldable pub cmd_dim : ℕ → Run F Jump
  unfolding next_tok eat_ch skip_ws dim_one
  cmd_dim zero = endless
  cmd_dim (suc fuel) = do
    end ← look is_empty
    elim end [
      | true ↦ give advance
      | false ↦ do
        t ← token
        elim (name_of t) [
          | none ↦ give advance
          | some var ↦ do
            dim_one var
            more ← got_ch b','
            elim more [ true ↦ cmd_dim fuel | false ↦ give advance ]
        ]
    ]
