-- ===== src/Basic/Control/Calls/Frames.antt =====
-- The frames of procedure calls.
use ax25toolkit.Base.{
  ℕ, zero, suc, ◌≡◌, refl, ap, Bool, true, false, ◌||◌, List, [], ◌∷◌, Bytes, Option, none, some,
  drop, ◌++◌, ltb,
}
use ax25toolkit.Basic.{Floats, Value, num, zero_num, Interp, CallFrame, ProcDef, logged, emit}
use ax25toolkit.Base.Text.{codes, to_string}
use ax25toolkit.Base.Dict.{from}
use ax25toolkit.Basic.Vars.{find}
use ax25toolkit.Basic.Blocks.{Lines}
use ax25toolkit.Basic.Control.{Jump, line_behind}
use ax25toolkit.Basic.Control.Calls.{
  ExecLine, is_exiting, resumed, at_end_line, after_exec, body_loop, push_call, call_defined,
  call_proc, returned,
}

-- One frame over the given ones.
abbrev pub OneOver : {F : Floats} → List (CallFrame F) → Interp F → Type 0
OneOver {F} gs s = (f : CallFrame F) × (s.frame_stack ≡ f ∷ gs)

-- What holds of the result, if there is one.
abbrev pub Ends : {A : Type 0} → (A → Type 0) → Option A → Type 0
Ends P none = Unit
Ends P (some a) = P a

-- A line leaves the frames under that of the call that it runs in.
abbrev pub LeavesFrames : {F : Floats} → ExecLine F → Type 0
LeavesFrames {F} exec =
    (line : ℕ) (src : Bytes) (gs : List (CallFrame F)) (s : Interp F)
    → OneOver gs s
    → Ends (λ (r : Jump × Interp F). OneOver gs r.1) (exec line src s)

after_exec-OneOver :
    {F : Floats} (go_on : Lines → Interp F → Option (Interp F)) (end : Option ℕ) (ls : Lines)
    (gs : List (CallFrame F))
    → ((ls' : Lines) (s' : Interp F) → OneOver gs s' → Ends (OneOver gs) (go_on ls' s'))
    → (r : Option (Jump × Interp F)) → Ends (λ (r : Jump × Interp F). OneOver gs r.1) r
    → Ends (OneOver gs) (after_exec go_on end ls r)
after_exec-OneOver go_on end ls gs k none h = tt
after_exec-OneOver {F} go_on end ls gs k (some (jump, s)) h = exiting (is_exiting s.frame_stack)
  where
    resuming :
        (x : Option Lines)
        → Ends
            (OneOver gs)
            (elim x as (λ x. Option (Interp F)) [ none ↦ some s | some ls' ↦ go_on ls' s ])
    resuming none = h
    resuming (some ls') = k ls' s h

    exiting :
        (b : Bool)
        → Ends (OneOver gs) (elim b as (λ x. Option (Interp F)) [
          | true ↦ some s
          | false ↦ elim (resumed end jump ls s) [ none ↦ some s | some ls' ↦ go_on ls' s ]
        ])
    exiting true = h
    exiting false = resuming (resumed end jump ls s)

body_loop-OneOver :
    {F : Floats} (exec : ExecLine F)
    → LeavesFrames exec
    → (fuel : ℕ) (end : Option ℕ) (ls : Lines) (gs : List (CallFrame F)) (s : Interp F)
    → OneOver gs s
    → Ends (OneOver gs) (body_loop exec fuel end ls s)
unfolding body_loop
body_loop-OneOver exec k zero end ls gs s h = tt
body_loop-OneOver exec k (suc fuel) end [] gs s h = h
body_loop-OneOver {F} exec k (suc fuel) end ((line, src) ∷ ls) gs s h =
    stopping
      (after_exec-OneOver (body_loop exec fuel end) end ((line, src) ∷ ls) gs
        (λ ls' s' h'. body_loop-OneOver exec k fuel end ls' gs s' h') (exec line src s)
        (k line src gs s h))
      (s.interrupted || at_end_line end line)
  where
    stopping :
        Ends
          (OneOver gs)
          (after_exec (body_loop exec fuel end) end ((line, src) ∷ ls) (exec line src s))
        → (b : Bool)
        → Ends (OneOver gs) (elim b as (λ x. Option (Interp F)) [
          | true ↦ some s
          | false ↦ after_exec (body_loop exec fuel end) end ((line, src) ∷ ls) (exec line src s)
        ])
    stopping q true = h
    stopping q false = q

-- A call of a procedure that returns takes its own frame away and no other: if the lines of the program
-- leave the frames under the one that they run in, then behind the call the frames are those before it,
-- whatever way the body was left and whether the procedure was defined or not.
pub call_proc-frames :
    {F : Floats} (exec : ExecLine F) (fuel : ℕ) (name : Bytes) (args : List (Value F)) (line : ℕ)
    (s : Interp F)
    → LeavesFrames exec
    → Ends
        (λ (r : Value F × Interp F). r.1.frame_stack ≡ s.frame_stack)
        (call_proc exec fuel name args line s)
unfolding call_proc call_defined push_call
call_proc-frames {F} exec fuel name args line s k = called (find name s.procs)
  where
    popped :
        (r : Option (Interp F))
        → Ends (OneOver s.frame_stack) r
        → Ends
            (λ (r : Value F × Interp F). r.1.frame_stack ≡ s.frame_stack)
            (elim r as (λ x. Option (Value F × Interp F)) [
              | none ↦ none
              | some s2 ↦
                  some (returned s2.frame_stack, record s2 { frame_stack = drop 1 s2.frame_stack })
            ])
    popped none h = tt
    popped (some s2) (f, e) = ap (λ (x : List (CallFrame F)). drop 1 x) e

    called :
        (d : Option ProcDef)
        → Ends
            (λ (r : Value F × Interp F). r.1.frame_stack ≡ s.frame_stack)
            (elim d as (λ x. Option (Value F × Interp F)) [
              | none ↦ some (
                num (zero_num F),
                emit
                    (logged (
                      codes "Undefined procedure: "
                      ++ (name ++ (codes " on line " ++ to_string line))))
                    s,
              )
              | some d ↦ call_defined exec fuel d args line s
            ])
    called none = refl
    called (some d) =
        popped
          (body_loop exec fuel d.end_line (from ltb (line_behind d.start_line s) s.program)
            (push_call d args line s))
          (body_loop-OneOver exec k fuel d.end_line
            (from ltb (line_behind d.start_line s) s.program) s.frame_stack
            (push_call d args line s) (_, refl))
