-- ===== src/Basic/Control/Calls.antt =====
-- `call_proc` and `run` of lib/basic.cpp. `exec_line`, the dispatch of a line's statements, is a
-- parameter.
pub mod Frames
use ax25toolkit.Base.{
  ℕ, zero, suc, Bool, true, false, not, ◌&&◌, ◌||◌, List, [], ◌∷◌, ◌++◌, Bytes, ltb, leb, ◌==◌,
  Option, none, some, if◌then◌else◌, is_empty, drop,
}
use ax25toolkit.Base.Int.{ℤ, pos}
use ax25toolkit.Base.Text.{bytes_lt, to_string, codes}
use ax25toolkit.Base.Dict.{lookup, insert, behind, from}
use ax25toolkit.Basic.{Floats, Value, num, zero_num, Interp, ProcDef, CallFrame, logged, emit}
use ax25toolkit.Basic.Vars.{Dict, find, put, present}
use ax25toolkit.Basic.Scan.{first_pass}
use ax25toolkit.Basic.Blocks.{Lines, line_at, behind_line, lines_behind}
use ax25toolkit.Basic.Control.{Jump, advance, to, line_behind}

-- `none` is a line that does not end.
abbrev pub ExecLine : Floats → Type 0
ExecLine F = ℕ → Bytes → Interp F → Option (Jump × Interp F)

-- The parameters get the arguments, and 0 where there are too few.
unfoldable pub bind_params :
    {F : Floats} → List Bytes → List (Value F) → Dict (Value F) → Dict (Value F)
unfolding insert bytes_lt
bind_params [] args locals = locals
bind_params {F} (p ∷ ps) [] locals = bind_params ps [] (put p (num (zero_num F)) locals)
bind_params (p ∷ ps) (a ∷ rest) locals = bind_params ps rest (put p a locals)

-- The line behind the one of the call.
unfoldable pub return_line : {F : Floats} → ℕ → Interp F → ℕ
unfolding lookup behind
return_line line s = if present (lookup ltb line s.program) then line_behind line s else 0

unfoldable pub push_call : {F : Floats} → ProcDef → List (Value F) → ℕ → Interp F → Interp F
unfolding bind_params return_line
push_call {F} d args line s = record s {
  frame_stack =
      (record {
        proc_name = d.name;
        locals = bind_params d.params args [];
        return_line = return_line line s;
        is_function = d.is_function;
        return_value = num (zero_num F);
        exiting = false;
      })
      ∷ s.frame_stack;
}

-- `frame_stack_.back().exiting`
abbrev pub is_exiting : {F : Floats} → List (CallFrame F) → Bool
is_exiting [] = false
is_exiting (f ∷ fs) = f.exiting

-- `end_line > 0 && line >= end_line`
abbrev pub at_end_line : Option ℕ → ℕ → Bool
at_end_line none line = false
at_end_line (some end) line = ltb 0 end && leb end line

-- The lines that a jump goes on with; `none` ends the procedure.
abbrev pub resumed : {F : Floats} → Option ℕ → Jump → Lines → Interp F → Option Lines
resumed end advance ls s = some (behind_line ls)
resumed end (to line) ls s =
    if line == 0 || at_end_line end line then none else some (from ltb line s.program)

-- What follows a line of the body; `go_on` is the rest of the loop.
abbrev pub after_exec :
    {F : Floats}
    → (Lines → Interp F → Option (Interp F))
    → Option ℕ
    → Lines
    → Option (Jump × Interp F)
    → Option (Interp F)
after_exec go_on end ls none = none
after_exec go_on end ls (some (jump, s)) = elim (is_exiting s.frame_stack) [
  | true ↦ some s
  | false ↦ elim (resumed end jump ls s) [ none ↦ some s | some ls' ↦ go_on ls' s ]
]

-- The loop over the body.
unfoldable pub body_loop :
    {F : Floats} → ExecLine F → ℕ → Option ℕ → Lines → Interp F → Option (Interp F)
unfolding from
body_loop exec zero end ls s = none
body_loop exec (suc fuel) end [] s = some s
body_loop exec (suc fuel) end ((line, src) ∷ ls) s = elim (s.interrupted || at_end_line end line) [
  | true ↦ some s
  | false ↦ after_exec (body_loop exec fuel end) end ((line, src) ∷ ls) (exec line src s)
]

abbrev pub returned : {F : Floats} → List (CallFrame F) → Value F
returned {F} [] = num (zero_num F)
returned (f ∷ fs) = f.return_value

unfoldable pub call_defined :
    {F : Floats}
    → ExecLine F
    → ℕ
    → ProcDef
    → List (Value F)
    → ℕ
    → Interp F
    → Option (Value F × Interp F)
unfolding push_call body_loop behind from
call_defined exec fuel d args line s =
    let s1 = push_call d args line s in
    let body = from ltb (line_behind d.start_line s) s.program in
    elim (body_loop exec fuel d.end_line body s1) [
      | none ↦ none
      | some s2 ↦ some (returned s2.frame_stack, record s2 { frame_stack = drop 1 s2.frame_stack })
    ]

-- `call_proc`
unfoldable pub call_proc :
    {F : Floats}
    → ExecLine F
    → ℕ
    → Bytes
    → List (Value F)
    → ℕ
    → Interp F
    → Option (Value F × Interp F)
unfolding call_defined lookup bytes_lt
call_proc {F} exec fuel name args line s = elim (find name s.procs) [
  | none ↦ some (
    num (zero_num F),
    emit (logged (codes "Undefined procedure: " ++ (name ++ (codes " on line " ++ to_string line))))
        s,
  )
  | some d ↦ call_defined exec fuel d args line s
]

-- The loop of `run`; false for a jump behind the last line.
unfoldable pub run_loop :
    {F : Floats} → ExecLine F → ℕ → Lines → Interp F → Option (Bool × Interp F)
unfolding from
run_loop exec zero ls s = none
run_loop exec (suc fuel) [] s = some (true, s)
run_loop exec (suc fuel) ((line, src) ∷ ls) s = elim (s.interrupted) [
  | true ↦ some (true, s)
  | false ↦ elim (exec line src s) [
    | none ↦ none
    | some (advance, s') ↦ run_loop exec fuel ls s'
    | some (to zero, s') ↦ some (true, s')
    | some (to (suc n), s') ↦ elim (from ltb (suc n) s'.program) [
      | [] ↦ some (false, emit (logged (codes "Jump to undefined line " ++ to_string (suc n))) s')
      | l ∷ rest ↦ run_loop exec fuel (l ∷ rest) s'
    ]
  ]
]

unfoldable pub run : {F : Floats} → ExecLine F → ℕ → Interp F → Option (Bool × Interp F)
unfolding run_loop first_pass
run exec fuel s =
    let s1 = record s { interrupted = false } in
    let s2 = first_pass s1 in
    if is_empty s.program then some (true, s1) else run_loop exec fuel s2.program s2
