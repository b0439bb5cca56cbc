-- ===== src/Basic/Eval/Primary/Endless.antt =====
-- Arguments of a procedure that are never read to their end.
use ax25toolkit.Base.{
  ℕ, zero, suc, ◌≡◌, refl, ◌∙◌, true, List, [], ◌∷◌, ◌++◌, Bytes, Option, none, some,
}
use ax25toolkit.Basic.{Floats, Value, num, zero_num, Interp}
use ax25toolkit.Basic.Lexer.{behind_kw}
use ax25toolkit.Basic.Vars.{present, find}
use ax25toolkit.Basic.Eval.{
  eval_unary, mul_loop, eval_mul, add_loop, eval_add, eval_cmp, not_loop, eval_not, and_loop,
  eval_and, or_loop, eval_or,
}
use ax25toolkit.Basic.Eval.Steps.{Cursor, bind_some, bind_none}
use ax25toolkit.Basic.Eval.Builtins.{Host, named, names}
use ax25toolkit.Basic.Eval.Primary.{Call, args_loop, call_user, eval_func, eval_primary, eval_expr}

module _ {F : Floats} (host : Host F) (call : Call F) (s : Interp F) (d : ℕ) (rest : Bytes) where
  -- A line at a `#`.
  abbrev stuck : Cursor F
  stuck = record { lx = b'#' ∷ (d ∷ rest); state = s }

  primary_stuck :
      (expr : Cursor F → Option (Value F × Cursor F)) (fuel : ℕ)
      → eval_primary host call expr fuel stuck ≡ some (num (zero_num F), stuck)
  unfolding eval_primary
  primary_stuck expr fuel = refl

  module _ (prim : Cursor F → Option (Value F × Cursor F))
      (h : prim stuck ≡ some (num (zero_num F), stuck)) where
    mul_stuck : eval_mul prim stuck ≡ some (num (zero_num F), stuck)
    unfolding eval_mul mul_loop eval_unary behind_kw
    mul_stuck = bind_some (eval_unary prim) _ stuck _ stuck h ∙ refl

    add_stuck : eval_add prim stuck ≡ some (num (zero_num F), stuck)
    unfolding eval_add add_loop
    add_stuck = bind_some (eval_mul prim) _ stuck _ stuck mul_stuck ∙ refl

    not_stuck : eval_not prim stuck ≡ some (num (zero_num F), stuck)
    unfolding eval_not not_loop eval_cmp behind_kw
    not_stuck = bind_some (eval_add prim) _ stuck _ stuck add_stuck ∙ refl

    and_stuck : eval_and prim stuck ≡ some (num (zero_num F), stuck)
    unfolding eval_and and_loop behind_kw
    and_stuck = bind_some (eval_not prim) _ stuck _ stuck not_stuck ∙ refl

    or_stuck : eval_or prim stuck ≡ some (num (zero_num F), stuck)
    unfolding eval_or or_loop behind_kw
    or_stuck = bind_some (eval_and prim) _ stuck _ stuck and_stuck ∙ refl

  expr_stuck : (fuel : ℕ) → eval_expr host call (suc fuel) stuck ≡ some (num (zero_num F), stuck)
  unfolding eval_expr
  expr_stuck fuel =
      or_stuck (eval_primary host call (eval_expr host call fuel) (suc fuel))
        (primary_stuck (eval_expr host call fuel) (suc fuel))

  args_stuck :
      (fuel rounds : ℕ) (args : List (Value F))
      → args_loop host call (eval_expr host call fuel) rounds args stuck ≡ none
  unfolding args_loop
  args_stuck fuel zero args = refl
  args_stuck zero (suc rounds) args = unfold eval_expr in refl
  args_stuck (suc fuel) (suc rounds) args =
      bind_some (eval_expr host call (suc fuel)) _ stuck _ stuck (expr_stuck fuel)
      ∙ args_stuck (suc fuel) rounds (args ++ num (zero_num F) ∷ [])

  -- A call of one of the program's own functions whose argument is a `#` with a character behind it never
  -- returns: with any fuel, evaluation of `NAME(#...` ends without a value, since an argument that is not
  -- there is read again and again.
  pub eval_func_stuck :
      (name : Bytes) (fuel rounds : ℕ)
      → named names name ≡ none
      → present (find name s.procs) ≡ true
      → eval_func host call
          (eval_expr host call fuel)
          rounds
          name
          (record { lx = b'(' ∷ (b'#' ∷ (d ∷ rest)); state = s })
        ≡ none
  unfolding eval_func call_user
  eval_func_stuck name fuel rounds h k =
      rw (h, k)
        (bind_none (args_loop host call (eval_expr host call fuel) rounds []) _ stuck
          (args_stuck fuel rounds []))
