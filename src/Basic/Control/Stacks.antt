-- ===== src/Basic/Control/Stacks.antt =====
-- What the commands of control flow do to the stacks of open blocks and calls.
use ax25toolkit.Base.{
  ℕ, zero, suc, ◌≡◌, refl, ap, ◌∙◌, true, false, ◌||◌, List, [], ◌∷◌, ◌++◌, Bytes, Option, none,
  some, replicate,
}
use ax25toolkit.Basic.{Floats, Value, Interp, DoFrame}
use ax25toolkit.Basic.Lexer.{holds, eat_kw, skip_ws, behind_kw}
use ax25toolkit.Basic.Blocks.{
  Lines, lines_behind, Branch, else_if, else_branch, end_if, is_end_if, branch_of,
}
use ax25toolkit.Basic.Blocks.Branches.{IfBody, is_if, target, find_next_if_branch-IfBody}
use ax25toolkit.Basic.Eval.Steps.{Cursor, Run, give, ◌>>=◌}
use ax25toolkit.Basic.Control.{
  Jump, to, push_if, pop_if, skip_branch, cmd_block_if_cond, go_on, push_do,
}
use ax25toolkit.Basic.Control.Commands.{cmd_do, cmd_loop, loop_of, bare_loop}

-- The interpreter behind a false IF: its block stays open, unless END IF was found.
abbrev pub behind_false : {F : Floats} → Branch → ℕ → Interp F → Interp F
behind_false end_if line s = s
behind_false _ line s = push_if false line s

-- An IF whose condition is false goes on at the next branch of its own block, and the block is open
-- with no branch taken; if the block has no other branch, it goes on behind END IF, and the stacks are as
-- before. One-line IFs and whole blocks may stand between.
pub cmd_block_if_cond-IfBody :
    {F : Floats} (line : ℕ) (c : Cursor F) (line' : ℕ) (src : Bytes) (body rest : Lines)
    → lines_behind line c.state ≡ body ++ (line', src) ∷ rest
    → IfBody true body
    → is_if src ≡ false
    → (holds (branch_of src) || is_end_if src) ≡ true
    → cmd_block_if_cond false line c
      ≡ some (
        to (target (branch_of src) line' rest).1,
        record c { state = behind_false (target (branch_of src) line' rest).0 line c.state },
      )
unfolding cmd_block_if_cond skip_branch push_if pop_if
cmd_block_if_cond-IfBody line c line' src body rest e b h k =
    ap (λ (f : Branch × ℕ). go_on f (record c { state = push_if false line c.state }))
      (find_next_if_branch-IfBody line (push_if false line c.state) line' src body rest e b h k)
    ∙ gone_on (branch_of src)
  where
    gone_on :
        (r : Option Branch)
        → go_on (target r line' rest) (record c { state = push_if false line c.state })
          ≡ some (
            to (target r line' rest).1,
            record c { state = behind_false (target r line' rest).0 line c.state },
          )
    gone_on none = refl
    gone_on (some else_if) = refl
    gone_on (some else_branch) = refl
    gone_on (some end_if) = refl

-- A DO without a condition.
abbrev pub bare_do : ℕ → DoFrame
bare_do line = record { do_line = line; has_pre_cond = false; pre_is_while = false; pre_expr = [] }

-- LOOP, and DO again, as often as `n` says; the result is where LOOP went in each round.
abbrev pub rounds_of : {F : Floats} → Run F (Value F) → ℕ → ℕ → Run F (List Jump)
rounds_of expr line zero c = some ([], c)
rounds_of expr line (suc n) c =
    (do
      jump ← cmd_loop expr
      _ ← cmd_do expr line
      jumps ← rounds_of expr line n
      give (jump ∷ jumps))
      c

replicate-snoc :
    {A : Type 0} (n : ℕ) (x : A) (xs : List A) → replicate n x ++ x ∷ xs ≡ x ∷ (replicate n x ++ xs)
replicate-snoc zero x xs = refl
replicate-snoc (suc n) x xs = ap (◌∷◌ x) (replicate-snoc n x xs)

-- The line of a bare DO has been executed, with the frames `fs` below it.
abbrev pub behind_do : {F : Floats} → Interp F → List DoFrame → Cursor F
behind_do s fs = record { lx = []; state = record s { do_stack = fs } }

-- In a loop DO ... LOOP without conditions LOOP goes back to the line of DO in every round and leaves its frame
-- on the stack, and DO puts one more there: after n rounds the stack has n frames more, and the
-- interpreter is else as it was.
pub rounds_of-replicate :
    {F : Floats} (expr : Run F (Value F)) (line n : ℕ) (s : Interp F) (fs : List DoFrame)
    → rounds_of expr line n (behind_do s (bare_do line ∷ fs))
      ≡ some (replicate n (to line), behind_do s (replicate n (bare_do line) ++ bare_do line ∷ fs))
unfolding cmd_loop loop_of bare_loop cmd_do push_do eat_kw skip_ws behind_kw
rounds_of-replicate expr line zero s fs = refl
rounds_of-replicate expr line (suc n) s fs =
    let ih = rounds_of-replicate expr line n s (bare_do line ∷ fs) in
    rw (ih, replicate-snoc n (bare_do line) (bare_do line ∷ fs)) refl
