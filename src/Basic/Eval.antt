-- ===== src/Basic/Eval.antt =====
-- The expression evaluator of lib/basic.cpp: `eval_unary` to `eval_expr` and, in its child modules,
-- `eval_primary` and `eval_func`. A level is a step of a cursor; the levels take the primary below them as a
-- parameter.
pub mod Steps
pub mod Builtins
pub mod Primary
use ax25toolkit.Base.{
  ℕ, zero, suc, ◌%◌, ◌++◌, Bool, true, false, not, ◌&&◌, ◌||◌, Bytes, ◌==◌, ltb, Option, none, some,
  if◌then◌else◌, drop,
}
use ax25toolkit.Base.Int.{ℤ, pos, negsuc}
use ax25toolkit.Base.Text.{bytes_eq, bytes_lt, codes}
use ax25toolkit.Basic.{Floats, Value, num, str, zero_num, truth, to_num, to_str, to_bool}
use ax25toolkit.Basic.Lexer.{peek_ch, skip_ws, eat_kw, eat_ch, eat_str, after}
use ax25toolkit.Basic.Eval.Steps.{
  Cursor, Run, ◌>>=◌, ◌>>◌, give, endless, eat, got_ch, got_kw, rounds,
}

abbrev pub is_str : {F : Floats} → Value F → Bool
is_str (num d) = false
is_str (str s) = true

-- An operator under the cursor, eaten; `none` leaves the blanks skipped.
abbrev pub operator : {F : Floats} {A : Type 0} → (Bytes → Option (A × Bytes)) → Run F (Option A)
operator at c = elim (at (skip_ws c.lx)) [
  | none ↦ some (none, record c { lx = skip_ws c.lx })
  | some (op, rest) ↦ some (some op, record c { lx = rest })
]

pub data MulOp : Type 0 where
  times over modulo : MulOp

unfoldable pub mul_op : Bytes → Option (MulOp × Bytes)
unfolding eat_kw
mul_op lx =
    if peek_ch lx == b'*'
    then some (times, drop 1 lx)
    else if peek_ch lx == b'/'
    then some (over, drop 1 lx)
    else elim (eat_kw (codes "MOD") lx) [ none ↦ none | some rest ↦ some (modulo, rest) ]

abbrev pub negated : ℕ → ℤ
negated zero = pos 0
negated (suc n) = negsuc n

-- `%` of C++ on `long long`, for a divisor that is not 0.
unfoldable pub rem : ℤ → ℤ → ℤ
rem (pos a) (pos b) = pos (a % b)
rem (pos a) (negsuc b) = pos (a % suc b)
rem (negsuc a) (pos b) = negated (suc a % b)
rem (negsuc a) (negsuc b) = negated (suc a % suc b)

-- The result of `MOD`, 0 for a divisor of 0.
unfoldable pub modulo_int : ℤ → ℤ → ℤ
unfolding rem
modulo_int a (pos zero) = pos 0
modulo_int a (pos (suc b)) = rem a (pos (suc b))
modulo_int a (negsuc b) = rem a (negsuc b)

unfoldable pub apply_mul : {F : Floats} → MulOp → Value F → Value F → Value F
unfolding to_num modulo_int
apply_mul {F} times a b = num (F.mul (to_num a) (to_num b))
apply_mul {F} over a b =
    num (if F.is_eq (to_num b) (zero_num F) then zero_num F else F.div (to_num a) (to_num b))
apply_mul {F} modulo a b = num (F.of_int (modulo_int (F.to_int (to_num a)) (F.to_int (to_num b))))

pub data AddOp : Type 0 where
  plus minus : AddOp

unfoldable pub add_op : Bytes → Option (AddOp × Bytes)
add_op lx =
    if peek_ch lx == b'+'
    then some (plus, drop 1 lx)
    else if peek_ch lx == b'-'
    then some (minus, drop 1 lx)
    else none

unfoldable pub apply_add : {F : Floats} → AddOp → Value F → Value F → Value F
unfolding to_num to_str
apply_add {F} plus a b =
    if is_str a || is_str b then str (to_str a ++ to_str b) else num (F.add (to_num a) (to_num b))
apply_add {F} minus a b = num (F.sub (to_num a) (to_num b))

pub data CmpOp : Type 0 where
  equal unequal less greater less_equal greater_equal : CmpOp

abbrev pub or_else {ℓ} : {A : Type ℓ} → Option A → Option A → Option A
or_else (some a) o = some a
or_else none o = o

abbrev pub tag {ℓ} : {A : Type ℓ} → A → Option Bytes → Option (A × Bytes)
tag a none = none
tag a (some rest) = some (a, rest)

unfoldable pub cmp_op : Bytes → Option (CmpOp × Bytes)
unfolding eat_str eat_ch
cmp_op lx = or_else (tag unequal (eat_str (codes "<>") lx)) (
    or_else (tag less_equal (eat_str (codes "<=") lx)) (
      or_else (tag greater_equal (eat_str (codes ">=") lx)) (
        or_else (tag less (eat_ch b'<' lx))
          (or_else (tag greater (eat_ch b'>' lx)) (tag equal (eat_ch b'=' lx))))))

-- The comparison of two strings or two numbers that are equal or not, less or not, greater or not.
abbrev pub decided : CmpOp → Bool → Bool → Bool → Bool
decided equal eq lt gt = eq
decided unequal eq lt gt = not eq
decided less eq lt gt = lt
decided greater eq lt gt = gt
decided less_equal eq lt gt = lt || eq
decided greater_equal eq lt gt = gt || eq

unfoldable pub apply_cmp : {F : Floats} → CmpOp → Value F → Value F → Value F
unfolding to_num to_str bytes_eq bytes_lt
apply_cmp {F} op a b =
    let s = to_str a in
    let t = to_str b in
    let x = to_num a in
    let y = to_num b in
    truth (
      if is_str a || is_str b
      then decided op (bytes_eq s t) (bytes_lt s t) (bytes_lt t s)
      else decided op (F.is_eq x y) (F.is_lt x y) (F.is_lt y x))

module _ {F : Floats} (primary : Run F (Value F)) where
  unfoldable pub eval_unary : Run F (Value F)
  unfolding eat_ch skip_ws to_num
  eval_unary = do
    negative ← got_ch b'-'
    elim negative [
      | true ↦ do v ← primary; give (num (F.neg (to_num v)))
      | false ↦ do eat b'+'; primary
    ]

  unfoldable pub mul_loop : ℕ → Value F → Run F (Value F)
  unfolding eval_unary mul_op apply_mul skip_ws
  mul_loop zero left = endless
  mul_loop (suc fuel) left = do
    op ← operator mul_op
    elim op [
      | none ↦ give left
      | some o ↦ do right ← eval_unary; mul_loop fuel (apply_mul o left right)
    ]

  unfoldable pub eval_mul : Run F (Value F)
  unfolding eval_unary mul_loop
  eval_mul = do left ← eval_unary; n ← rounds; mul_loop (suc n) left

  unfoldable pub add_loop : ℕ → Value F → Run F (Value F)
  unfolding eval_mul add_op apply_add skip_ws
  add_loop zero left = endless
  add_loop (suc fuel) left = do
    op ← operator add_op
    elim op [
      | none ↦ give left
      | some o ↦ do right ← eval_mul; add_loop fuel (apply_add o left right)
    ]

  unfoldable pub eval_add : Run F (Value F)
  unfolding eval_mul add_loop
  eval_add = do left ← eval_mul; n ← rounds; add_loop (suc n) left

  unfoldable pub eval_cmp : Run F (Value F)
  unfolding eval_add cmp_op apply_cmp skip_ws
  eval_cmp = do
    left ← eval_add
    op ← operator cmp_op
    elim op [ none ↦ give left | some o ↦ do right ← eval_add; give (apply_cmp o left right) ]

  -- The recursion of `eval_not`.
  unfoldable pub not_loop : ℕ → Run F (Value F)
  unfolding eval_cmp eat_kw skip_ws to_bool
  not_loop zero = endless
  not_loop (suc fuel) = do
    negation ← got_kw (codes "NOT")
    elim negation [ true ↦ do v ← not_loop fuel; give (truth (not (to_bool v))) | false ↦ eval_cmp ]

  unfoldable pub eval_not : Run F (Value F)
  unfolding not_loop
  eval_not = do n ← rounds; not_loop (suc n)

  unfoldable pub and_loop : ℕ → Value F → Run F (Value F)
  unfolding eval_not eat_kw skip_ws to_bool
  and_loop zero left = endless
  and_loop (suc fuel) left = do
    more ← got_kw (codes "AND")
    elim more [
      | true ↦ do right ← eval_not; and_loop fuel (truth (to_bool left && to_bool right))
      | false ↦ give left
    ]

  unfoldable pub eval_and : Run F (Value F)
  unfolding eval_not and_loop
  eval_and = do left ← eval_not; n ← rounds; and_loop (suc n) left

  unfoldable pub or_loop : ℕ → Value F → Run F (Value F)
  unfolding eval_and eat_kw skip_ws to_bool
  or_loop zero left = endless
  or_loop (suc fuel) left = do
    more ← got_kw (codes "OR")
    elim more [
      | true ↦ do right ← eval_and; or_loop fuel (truth (to_bool left || to_bool right))
      | false ↦ give left
    ]

  -- `eval_expr` over the given primary.
  unfoldable pub eval_or : Run F (Value F)
  unfolding eval_and or_loop
  eval_or = do left ← eval_and; n ← rounds; or_loop (suc n) left
