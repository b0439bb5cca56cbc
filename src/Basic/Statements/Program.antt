-- ===== src/Basic/Statements/Program.antt =====
-- The interpreter of lib/basic.cpp put together: expressions call procedures, procedures execute lines,
-- and lines evaluate expressions. `none` is a run that does not end within the fuel.
use ax25toolkit.Base.{ℕ, zero, suc, Bool, Bytes, Option, none, List}
use ax25toolkit.Basic.{Floats, Value, Interp}
use ax25toolkit.Basic.Eval.Steps.{Run, endless}
use ax25toolkit.Basic.Eval.Builtins.{Host}
use ax25toolkit.Basic.Eval.Primary.{eval_expr}
use ax25toolkit.Basic.Control.{Jump}
use ax25toolkit.Basic.Control.Calls.{call_proc, run}
use ax25toolkit.Basic.Statements.Dispatch.{World}
use ax25toolkit.Basic.Statements.Exec.{exec_line}

-- The expressions and calls with `fuel` more levels of calls.
unfoldable pub world : {F : Floats} → Host F → (Bytes → ℕ → Run F Jump) → ℕ → World F
unfolding eval_expr call_proc exec_line
world host other zero = record { expr = endless; call = λ name args line s. none; other = other }
world {F} host other (suc fuel) =
    let call : Bytes → List (Value F) → ℕ → Interp F → Option (Value F × Interp F) =
      call_proc (exec_line (world host other fuel) fuel) fuel in
    record {
      expr = eval_expr host (λ name args s. call name args 0 s) fuel;
      call = call;
      other = other;
    }

-- `run`
unfoldable pub run_program :
    {F : Floats} → Host F → (Bytes → ℕ → Run F Jump) → ℕ → Interp F → Option (Bool × Interp F)
unfolding run world exec_line
run_program host other fuel s = run (exec_line (world host other fuel) fuel) fuel s
