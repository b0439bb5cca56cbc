-- ===== src/Basic/Statements/Exec.antt =====
-- `exec_stmt` and `exec_line` of lib/basic.cpp.
use ax25toolkit.Base.{
  ℕ, zero, suc, Bool, true, false, ◌&&◌, ◌||◌, [], ◌++◌, Bytes, ◌==◌, Option, none, some,
  if◌then◌else◌, is_empty, length,
}
use ax25toolkit.Base.Text.{bytes_eq, bytes_lt, to_string, codes}
use ax25toolkit.Base.Dict.{lookup, insert, behind}
use ax25toolkit.Basic.{Floats, Value, to_str, Interp, traced, emit}
use ax25toolkit.Basic.Lexer.{peek_ch, skip_ws, eat_ch, eat_kw, peek_kw, next_tok}
use ax25toolkit.Basic.Vars.{find, put, present, map_set, set_var}
use ax25toolkit.Basic.Scan.{text_of, name_of}
use ax25toolkit.Basic.Blocks.{lines_behind}
use ax25toolkit.Basic.Eval.Steps.{
  Run, ◌>>=◌, ◌>>◌, give, endless, look, gets, change, blanks, got_ch, got_kw, token, rounds,
}
use ax25toolkit.Basic.Control.{
  Jump, advance, to, say, cmd_else, cmd_end_if, cmd_return, cmd_next, cmd_exit_for, cmd_wend,
  cmd_exit_do, cmd_end_select, cmd_sub, cmd_function, cmd_exit_proc,
}
use ax25toolkit.Basic.Control.Commands.{
  cmd_block_if, cmd_elseif, cmd_goto, cmd_gosub, cmd_while, cmd_do, cmd_loop,
}
use ax25toolkit.Basic.Control.Cases.{cmd_select, cmd_case}
use ax25toolkit.Basic.Control.Collections.{
  cmd_map_set, cmd_map_get, cmd_map_del, cmd_map_keys, cmd_map_clear, cmd_queue_push, cmd_queue_pop,
  cmd_queue_peek, cmd_queue_clear,
}
use ax25toolkit.Basic.Statements.{
  behind_type, cmd_print, cmd_input, cmd_recv, cmd_let, full_name, for_number,
}
use ax25toolkit.Basic.Statements.Dispatch.{
  Command, let_stmt, rem_stmt, print, input, recv, goto, gosub, return_stmt, if_stmt, else_stmt,
  end_stmt, stop, for_stmt, next, while_stmt, wend, do_stmt, loop, select, case_stmt, sub, function,
  call_stmt, exit, dim, const_stmt, type_stmt, map_set_stmt, map_get, map_del, map_keys,
  map_clear_stmt, queue_push_stmt, queue_pop, queue_peek, queue_clear_stmt, outside, commands,
  command_of, World, skip_line, call_at, bare_args, cmd_call, cmd_dim,
}
use ax25toolkit.Basic.Statements.OneLine.{at_lexer, is_block_if, cmd_if}

-- END with what follows it; alone it stops the program.
unfoldable pub cmd_end : {F : Floats} → ℕ → Run F Jump
unfolding eat_kw skip_ws cmd_end_if cmd_end_select cmd_exit_proc
cmd_end line = do
  if_kw ← got_kw (codes "IF")
  elim if_kw [
    | true ↦ cmd_end_if line
    | false ↦ do
      select_kw ← got_kw (codes "SELECT")
      elim select_kw [
        | true ↦ cmd_end_select
        | false ↦ do
          sub_kw ← got_kw (codes "SUB")
          function_kw ← (if sub_kw then give false else got_kw (codes "FUNCTION"))
          elim (sub_kw || function_kw) [
            | true ↦ cmd_exit_proc
            | false ↦ do type_kw ← got_kw (codes "TYPE"); give (if type_kw then advance else to 0)
          ]
      ]
  ]

unfoldable pub cmd_exit : {F : Floats} → ℕ → Run F Jump
unfolding eat_kw skip_ws cmd_exit_for cmd_exit_do cmd_exit_proc
cmd_exit line = do
  for_kw ← got_kw (codes "FOR")
  elim for_kw [
    | true ↦ cmd_exit_for line
    | false ↦ do
      do_kw ← got_kw (codes "DO")
      elim do_kw [
        | true ↦ cmd_exit_do line
        | false ↦ do
          sub_kw ← got_kw (codes "SUB")
          function_kw ← (if sub_kw then give false else got_kw (codes "FUNCTION"))
          elim (sub_kw || function_kw) [ true ↦ cmd_exit_proc | false ↦ give advance ]
      ]
  ]

module _ {F : Floats} (w : World F) where
  unfoldable pub cmd_for : ℕ → Run F Jump
  unfolding next_tok eat_kw skip_ws for_number
  cmd_for line = do
    t ← token
    in_kw ← got_kw (codes "IN")
    elim in_kw [ true ↦ w.other (text_of t) line | false ↦ for_number w.expr (text_of t) line ]

  -- A statement behind its keyword; `stmt` is `exec_stmt`.
  unfoldable pub run_command : Run F Jump → ℕ → Bytes → Command → ℕ → Run F Jump
  unfolding next_tok cmd_let cmd_print cmd_input cmd_recv cmd_goto cmd_gosub cmd_return is_block_if
      cmd_block_if cmd_if cmd_else cmd_end cmd_for cmd_next cmd_while cmd_wend cmd_do cmd_loop
      cmd_select cmd_case cmd_sub cmd_function cmd_call cmd_exit cmd_dim behind behind_type
      cmd_map_set cmd_map_get cmd_map_del cmd_map_keys cmd_map_clear cmd_queue_push cmd_queue_pop
      cmd_queue_peek cmd_queue_clear
  run_command stmt fuel kw let_stmt line = do t ← token; cmd_let w.expr (text_of t)
  run_command stmt fuel kw rem_stmt line = skip_line
  run_command stmt fuel kw print line = cmd_print w.expr
  run_command stmt fuel kw input line = cmd_input w.expr
  run_command stmt fuel kw recv line = cmd_recv w.expr
  run_command stmt fuel kw goto line = cmd_goto w.expr line
  run_command stmt fuel kw gosub line = cmd_gosub w.expr line
  run_command stmt fuel kw return_stmt line = cmd_return
  run_command stmt fuel kw if_stmt line = do
    block ← look is_block_if
    elim block [ true ↦ cmd_block_if w.expr line | false ↦ cmd_if w stmt line ]
  run_command stmt fuel kw else_stmt line = cmd_else line
  run_command stmt fuel kw end_stmt line = cmd_end line
  run_command stmt fuel kw stop line = give (to 0)
  run_command stmt fuel kw for_stmt line = cmd_for line
  run_command stmt fuel kw next line = cmd_next
  run_command stmt fuel kw while_stmt line = cmd_while w.expr line
  run_command stmt fuel kw wend line = cmd_wend
  run_command stmt fuel kw do_stmt line = cmd_do w.expr line
  run_command stmt fuel kw loop line = cmd_loop w.expr
  run_command stmt fuel kw select line = cmd_select w.expr line
  run_command stmt fuel kw case_stmt line = cmd_case w.expr line
  run_command stmt fuel kw sub line = cmd_sub line
  run_command stmt fuel kw function line = cmd_function line
  run_command stmt fuel kw call_stmt line = cmd_call w fuel line
  run_command stmt fuel kw exit line = cmd_exit line
  run_command stmt fuel kw dim line = do n ← rounds; cmd_dim w (suc n)
  run_command stmt fuel kw const_stmt line = skip_line
  run_command stmt fuel kw type_stmt line = gets (λ s. behind_type (lines_behind line s))
  run_command stmt fuel kw map_set_stmt line = cmd_map_set w.expr
  run_command stmt fuel kw map_get line = cmd_map_get w.expr
  run_command stmt fuel kw map_del line = cmd_map_del w.expr
  run_command stmt fuel kw map_keys line = cmd_map_keys w.expr
  run_command stmt fuel kw map_clear_stmt line = cmd_map_clear w.expr
  run_command stmt fuel kw queue_push_stmt line = cmd_queue_push w.expr
  run_command stmt fuel kw queue_pop line = cmd_queue_pop w.expr
  run_command stmt fuel kw queue_peek line = cmd_queue_peek w.expr
  run_command stmt fuel kw queue_clear_stmt line = cmd_queue_clear w.expr
  run_command stmt fuel kw outside line = w.other kw line

  -- `= expr` behind a name.
  unfoldable pub assign : (Value F → Interp F → Interp F) → Run F Bool
  unfolding eat_ch skip_ws
  assign store_in = do
    equals ← got_ch b'='
    elim equals [ true ↦ do v ← w.expr; change (store_in v); give true | false ↦ give false ]

  -- `(index) = expr`; without it the lexer goes back to the parenthesis.
  unfoldable pub assign_element : Bytes → Run F Bool
  unfolding eat_ch skip_ws to_str map_set insert bytes_lt
  assign_element var = do
    start ← look (λ lx. lx)
    paren ← got_ch b'('
    elim paren [
      | false ↦ give false
      | true ↦ do
        index ← w.expr
        closed ← got_ch b')'
        blanks
        equals ← look (λ lx. peek_ch lx == b'=')
        elim (closed && equals) [
          | true ↦
              assign
                (λ v s. map_set var (to_str index) v (record s { arrays = put var tt s.arrays }))
          | false ↦ do at_lexer (λ lx. start); give false
        ]
    ]

  -- An assignment without LET; without it the lexer goes back to the name.
  unfoldable pub try_assign : Bytes → Run F Bool
  unfolding next_tok skip_ws eat_ch assign assign_element set_var
  try_assign var = do
    start ← look (λ lx. lx)
    _ ← token
    blanks
    element ← assign_element var
    elim element [
      | true ↦ give true
      | false ↦ do
        name ← full_name w.expr var
        done ← assign (set_var name)
        elim done [ true ↦ give true | false ↦ do at_lexer (λ lx. start); give false ]
    ]

  -- A procedure of the program called by its name.
  unfoldable pub call_named : Bytes → ℕ → Run F Jump
  unfolding next_tok bare_args lookup bytes_lt
  call_named kw line = do
    known ← gets (λ s. present (find kw s.procs))
    elim known [
      | true ↦ do
        _ ← token
        blanks
        n ← rounds
        args ← bare_args w (suc n) []
        call_at w kw args line
      | false ↦ do
        say (codes "Unknown statement: " ++ (kw ++ (codes " on line " ++ to_string line)))
        give advance
    ]

  -- A statement that starts with a name.
  unfoldable pub exec_name : Run F Jump → ℕ → Bytes → ℕ → Run F Jump
  unfolding next_tok peek_kw eat_kw skip_ws command_of run_command cmd_elseif try_assign call_named
      bytes_eq
  exec_name stmt fuel kw line = do
    else_if ← look (λ lx.
        bytes_eq kw (codes "ELSEIF") || (bytes_eq kw (codes "ELSE") && peek_kw (codes "IF") lx))
    elim else_if [
      | true ↦ do
        _ ← token
        _ ← (if bytes_eq kw (codes "ELSE") then got_kw (codes "IF") else give false)
        cmd_elseif w.expr line
      | false ↦ elim (command_of commands kw) [
        | some c ↦ do _ ← token; run_command stmt fuel kw c line
        | none ↦ do
          done ← try_assign kw
          elim done [ true ↦ give advance | false ↦ call_named kw line ]
      ]
    ]

  -- `exec_stmt`, with fuel for IFs in IFs and for a procedure's arguments.
  unfoldable pub exec_stmt : ℕ → ℕ → Run F Jump
  unfolding skip_ws next_tok exec_name
  exec_stmt zero line = endless
  exec_stmt (suc fuel) line = do
    blanks
    over ← look (λ lx. is_empty lx || peek_ch lx == b':')
    comment ← look (λ lx. peek_ch lx == b'\'')
    name ← look (λ lx. name_of (next_tok lx).0)
    elim over [
      | true ↦ give advance
      | false ↦ elim comment [
        | true ↦ skip_line
        | false ↦ elim name [
          | none ↦ give advance
          | some kw ↦ exec_name (exec_stmt fuel line) fuel kw line
        ]
      ]
    ]

  -- The statements of a line.
  unfoldable pub stmts_loop : ℕ → ℕ → ℕ → Run F Jump
  unfolding skip_ws eat_ch exec_stmt
  stmts_loop fuel zero line = endless
  stmts_loop fuel (suc n) line = do
    blanks
    over ← look (λ lx. is_empty lx || peek_ch lx == b'\'')
    elim over [
      | true ↦ give advance
      | false ↦ do
        jump ← exec_stmt fuel line
        elim jump [
          | to l ↦ give (to l)
          | advance ↦ do
            more ← got_ch b':'
            elim more [ true ↦ stmts_loop fuel n line | false ↦ give advance ]
        ]
    ]

  -- `exec_line`
  unfoldable pub exec_line : ℕ → ℕ → Bytes → Interp F → Option (Jump × Interp F)
  unfolding stmts_loop
  exec_line fuel line src s =
      elim (stmts_loop fuel (suc (length src)) line
        (record { lx = src; state = emit (traced line src) s })) [
          | none ↦ none
          | some (jump, c) ↦ some (jump, c.state)
        ]
