-- ===== src/Basic/Statements/ElseIf.antt =====
-- ELSE IF in two words.
use ax25toolkit.Base.{ℕ, suc, ◌≡◌, refl, false, List, ◌∷◌, ◌++◌, Bytes, some}
use ax25toolkit.Base.Text.{codes}
use ax25toolkit.Basic.{Floats, Interp, IfFrame}
use ax25toolkit.Basic.Lexer.{behind_kw}
use ax25toolkit.Basic.Control.{advance, cmd_else, take_branch}
use ax25toolkit.Basic.Statements.Dispatch.{World}
use ax25toolkit.Basic.Statements.Exec.{exec_stmt, exec_name, run_command}

-- ELSE IF is executed as ELSE: whatever condition follows, it is not evaluated. Inside a block IF of
-- which no branch was taken before, the statement marks its branch as taken and goes on into it.
pub exec_stmt-else_if :
    {F : Floats} (w : World F) (fuel line : ℕ) (rest : Bytes) (s : Interp F) (f : IfFrame)
    (fs : List IfFrame)
    → s.if_stack ≡ f ∷ fs
    → f.taken ≡ false
    → exec_stmt w (suc fuel) line (record { lx = codes "ELSE IF" ++ rest; state = s })
      ≡ some (advance, record { lx = codes " IF" ++ rest; state = take_branch s })
unfolding exec_stmt exec_name run_command cmd_else behind_kw
exec_stmt-else_if w fuel line rest s f fs h k = rw (h, k) refl
