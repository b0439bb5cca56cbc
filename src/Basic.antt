-- ===== src/Basic.antt =====
-- The class `Basic` of lib/basic.hpp and lib/basic.cpp: its values and its state. Numbers are
-- `double`s, a parameter: a type with the operations that the code uses. A line number is a natural
-- number that fits an `int`. Callbacks are set; their calls are events.
pub mod Lexer
pub mod Vars
pub mod Load
pub mod Scan
pub mod Blocks
pub mod Eval
pub mod Control
pub mod Statements
use ax25toolkit.Base.{
  ℕ, zero, suc, ◌+◌, Bool, true, false, not, List, [], ◌∷◌, ◌++◌, Bytes, Option, none, some,
  is_empty, if◌then◌else◌,
}
use ax25toolkit.Base.Int.{ℤ, pos, negsuc}
use ax25toolkit.Base.Text.{to_string, bytes_lt}

-- `double`. `whole` is the integer that a number equals, if it is one; `show` is `operator<<`; `to_int`
-- is the cast.
pub record Floats : Type 1 where
  pub Num : Type 0
  pub of_int : ℤ → Num
  pub stod : Bytes → Option Num
  pub whole : Num → Option ℤ
  pub show : Num → Bytes
  pub to_int : Num → ℤ
  pub neg : Num → Num
  pub add : Num → Num → Num
  pub sub : Num → Num → Num
  pub mul : Num → Num → Num
  pub div : Num → Num → Num
  pub is_lt : Num → Num → Bool
  pub is_eq : Num → Num → Bool

pub data Value (F : Floats) : Type 0 where
  num : F.Num → Value F
  str : Bytes → Value F

abbrev pub zero_num : (F : Floats) → F.Num
zero_num F = F.of_int (pos 0)

abbrev pub truth : {F : Floats} → Bool → Value F
truth {F} b = num (F.of_int (pos (if b then 1 else 0)))

-- `to_num`
unfoldable pub to_num : {F : Floats} → Value F → F.Num
to_num (num d) = d
to_num {F} (str s) =
    if is_empty s
    then F.of_int (pos 0)
    else elim (F.stod s) [ none ↦ F.of_int (pos 0) | some d ↦ d ]

abbrev pub show_int : ℤ → Bytes
show_int (pos n) = to_string n
show_int (negsuc n) = b'-' ∷ to_string (suc n)

-- `to_str`
unfoldable pub to_str : {F : Floats} → Value F → Bytes
unfolding to_string
to_str (str s) = s
to_str {F} (num d) = elim (F.whole d) [ none ↦ F.show d | some i ↦ show_int i ]

-- `to_bool`
unfoldable pub to_bool : {F : Floats} → Value F → Bool
to_bool (str s) = not (is_empty s)
to_bool {F} (num d) = not (F.is_eq d (F.of_int (pos 0)))

pub record ForFrame (F : Floats) : Type 0 where
  pub var : Bytes
  pub to : F.Num
  pub step : F.Num
  pub body_line : ℕ
  pub is_match : Bool
  pub matches : List Bytes

pub record IfFrame : Type 0 where
  pub taken : Bool
  pub in_true : Bool
  pub if_line : ℕ

pub record DoFrame : Type 0 where
  pub do_line : ℕ
  pub has_pre_cond : Bool
  pub pre_is_while : Bool
  pub pre_expr : Bytes

pub record SelectFrame (F : Floats) : Type 0 where
  pub selector : Value F
  pub matched : Bool
  pub in_case : Bool
  pub select_line : ℕ

-- `end_line` is `none` for -1.
pub record ProcDef : Type 0 where
  pub name : Bytes
  pub params : List Bytes
  pub start_line : ℕ
  pub end_line : Option ℕ
  pub is_function : Bool

pub record CallFrame (F : Floats) : Type 0 where
  pub proc_name : Bytes
  pub locals : List (Bytes × Value F)
  pub return_line : ℕ
  pub is_function : Bool
  pub return_value : Value F
  pub exiting : Bool

pub record TypeDef : Type 0 where
  pub name : Bytes
  pub fields : List Bytes
  pub field_types : List (Bytes × Bytes)

-- The calls of the host's callbacks.
pub data Event : Type 0 where
  sent logged : Bytes → Event
  traced : ℕ → Bytes → Event

-- `inbox` holds what `on_recv` will return, call by call, and then it returns nothing; `randoms` what
-- `rand()/(RAND_MAX+1.0)` will give, call by call, and then it gives 0. The stacks have
-- their top at the head. The database and the sockets are left out.
pub record Interp (F : Floats) : Type 0 where
  pub program : List (ℕ × Bytes)
  pub labels : List (Bytes × ℕ)
  pub procs : List (Bytes × ProcDef)
  pub types : List (Bytes × TypeDef)
  pub consts : List (Bytes × Value F)
  pub vars : List (Bytes × Value F)
  pub type_vars : List (Bytes × Value F)
  pub call_stack : List ℕ
  pub for_stack : List (ForFrame F)
  pub while_stack : List ℕ
  pub if_stack : List IfFrame
  pub do_stack : List DoFrame
  pub select_stack : List (SelectFrame F)
  pub frame_stack : List (CallFrame F)
  pub next_auto_line : ℕ
  pub interrupted : Bool
  pub maps : List (Bytes × List (Bytes × Value F))
  pub queues : List (Bytes × List (Value F))
  pub arrays : List (Bytes × Unit {0})
  pub inbox : List Bytes
  pub randoms : List F.Num
  pub events : List Event

abbrev pub emit : {F : Floats} → Event → Interp F → Interp F
emit e s = record s { events = s.events ++ e ∷ [] }

-- The constructor.
unfoldable pub new : (F : Floats) → Interp F
new F = record {
  program = [];
  labels = [];
  procs = [];
  types = [];
  consts = [];
  vars = [];
  type_vars = [];
  call_stack = [];
  for_stack = [];
  while_stack = [];
  if_stack = [];
  do_stack = [];
  select_stack = [];
  frame_stack = [];
  next_auto_line = 1;
  interrupted = false;
  maps = [];
  queues = [];
  arrays = [];
  inbox = [];
  randoms = [];
  events = [];
}
