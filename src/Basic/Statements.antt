-- ===== src/Basic/Statements.antt =====
-- The statements of lib/basic.cpp that are not jumps: PRINT, INPUT, RECV, LET, FOR's head, DIM, CALL and
-- TYPE. `expr` is `eval_expr`, `call` is `call_proc`.
pub mod Dispatch
pub mod OneLine
pub mod Exec
pub mod ElseIf
pub mod Program
use ax25toolkit.Base.{
  ℕ, zero, suc, ◌+◌, Bool, true, false, not, ◌&&◌, ◌||◌, List, [], ◌∷◌, ◌++◌, Bytes, ◌==◌, Option,
  none, some, if◌then◌else◌, is_empty, drop,
}
use ax25toolkit.Base.Int.{ℤ, pos, negsuc}
use ax25toolkit.Base.Text.{bytes_eq, bytes_lt, to_string, codes}
use ax25toolkit.Base.Dict.{lookup, insert}
use ax25toolkit.Basic.{
  Floats, Value, num, str, zero_num, to_num, to_str, Interp, ForFrame, CallFrame, TypeDef, sent,
  emit,
}
use ax25toolkit.Basic.Lexer.{peek_ch, skip_ws, eat_ch, eat_kw, next_tok}
use ax25toolkit.Basic.Vars.{Dict, find, put, dict_of, present, is_str_var, unset, set_var}
use ax25toolkit.Basic.Load.{trim_newlines}
use ax25toolkit.Basic.Scan.{text_of, name_of, ends}
use ax25toolkit.Basic.Blocks.{Lines, line_at, lines_behind}
use ax25toolkit.Basic.Eval.Steps.{
  Cursor, Run, ◌>>=◌, ◌>>◌, give, endless, look, gets, change, blanks, eat, got_ch, got_kw, token,
  rounds,
}
use ax25toolkit.Basic.Eval.Builtins.{int_of, at_least_zero}
use ax25toolkit.Basic.Control.{Jump, advance, to}
use ax25toolkit.Basic.Control.Calls.{return_line}

-- The end of a statement.
abbrev pub at_stop : Bytes → Bool
at_stop lx = is_empty lx || (peek_ch lx == b':' || peek_ch lx == b'\'')

-- What `on_recv` returns, without its line end.
abbrev pub first_line : List Bytes → Bytes
first_line [] = []
first_line (l ∷ ls) = trim_newlines l

abbrev pub received : {F : Floats} → Run F Bytes
received c =
    some (
      first_line c.state.inbox,
      record c { state = record c.state { inbox = drop 1 c.state.inbox } },
    )

-- The text as the value of a variable.
unfoldable pub typed : {F : Floats} → Bytes → Bytes → Value F
unfolding is_str_var
typed {F} var line =
    if is_str_var var
    then str line
    else elim (F.stod line) [ none ↦ num (zero_num F) | some d ↦ num d ]

-- The fields of a variable of a user-defined type.
unfoldable pub set_fields : {F : Floats} → Bytes → TypeDef → List Bytes → Interp F → Interp F
unfolding lookup insert bytes_lt bytes_eq
set_fields var d [] s = s
set_fields {F} var d (f ∷ fs) s =
    let text : Bool = elim (find f d.field_types) [
      | none ↦ false
      | some t ↦ bytes_eq t (codes "STRING") || bytes_eq t (codes "STRING$")
    ] in
    let v : Value F = if text then str [] else num (zero_num F) in
    set_fields var d fs (record s { type_vars = put (var ++ (b'.' ∷ f)) v s.type_vars })

-- A variable of the running procedure, if there is one, that has no value yet.
abbrev pub declare_local : {F : Floats} → Bytes → List (CallFrame F) → List (CallFrame F)
declare_local var [] = []
declare_local var (f ∷ fs) =
    if present (find var f.locals)
    then f ∷ fs
    else record f { locals = put var (unset var) f.locals } ∷ fs

unfoldable pub dim_local : {F : Floats} → Bytes → Interp F → Interp F
unfolding lookup insert bytes_lt unset
dim_local var s = record s { frame_stack = declare_local var s.frame_stack }

unfoldable pub dim_plain : {F : Floats} → Bytes → Interp F → Interp F
unfolding lookup insert bytes_lt unset dim_local
dim_plain var s =
    if not (is_empty s.frame_stack)
    then dim_local var s
    else if present (find var s.vars)
    then s
    else record s { vars = put var (unset var) s.vars }

unfoldable pub dim_as : {F : Floats} → Bytes → Bytes → Interp F → Interp F
unfolding lookup bytes_lt set_fields dim_local
dim_as var type s = elim (find type s.types) [
  | some d ↦ set_fields var d d.fields s
  | none ↦ dim_local var s
]

-- Slots 0 to `n`, those that are there being kept; the order of insertion does not show.
unfoldable pub fill_slots : {F : Floats} → Bytes → ℕ → Dict (Value F) → Dict (Value F)
unfolding lookup insert bytes_lt unset to_string
fill_slots var zero m =
    if present (find (to_string 0) m) then m else put (to_string 0) (unset var) m
fill_slots var (suc n) m =
    let rest = fill_slots var n m in
    if present (find (to_string (suc n)) rest)
    then rest
    else put (to_string (suc n)) (unset var) rest

unfoldable pub dim_array : {F : Floats} → Bytes → ℕ → Interp F → Interp F
unfolding insert lookup bytes_lt fill_slots
dim_array var n s = record s {
  arrays = put var tt s.arrays;
  maps = put var (fill_slots var n (dict_of (find var s.maps))) s.maps;
}

-- The oldest numeric frame of the variable, set anew; the list has the youngest first.
unfoldable pub reuse_for :
    {F : Floats} → ForFrame F → List (ForFrame F) → Option (List (ForFrame F))
unfolding bytes_eq
reuse_for new [] = none
reuse_for new (f ∷ fs) = elim (reuse_for new fs) [
  | some older ↦ some (f ∷ older)
  | none ↦
      if bytes_eq f.var new.var && not f.is_match
      then some (record f { to = new.to; step = new.step; body_line = new.body_line } ∷ fs)
      else none
]

abbrev pub push_new : {F : Floats} → ForFrame F → Option (List (ForFrame F)) → Interp F → Interp F
push_new f none s = record s { for_stack = f ∷ s.for_stack }
push_new f (some fs) s = record s { for_stack = fs }

unfoldable pub start_for : {F : Floats} → ForFrame F → Interp F → Interp F
unfolding reuse_for
start_for f s = push_new f (reuse_for f s.for_stack) s

-- The line behind END TYPE.
unfoldable pub behind_type : Lines → Jump
unfolding ends
behind_type [] = advance
behind_type ((line, src) ∷ ls) =
    let later = behind_type ls in if ends (codes "TYPE") src then to (line_at ls) else later

module _ {F : Floats} (expr : Run F (Value F)) where
  -- Whether another item of PRINT may follow, and what is put before it.
  abbrev pub separator : Bool → Run F (Option Bytes)
  separator true = give (some [])
  separator false = do
    semi ← got_ch b';'
    elim semi [
      | true ↦ give (some [])
      | false ↦ do comma ← got_ch b','; give (if comma then some (b'\t' ∷ []) else none)
    ]

  unfoldable pub print_loop : ℕ → Bool → Bytes → Run F Bytes
  unfolding eat_ch skip_ws to_str
  print_loop zero first out = endless
  print_loop (suc fuel) first out = do
    stop ← look at_stop
    elim stop [
      | true ↦ give out
      | false ↦ do
        before ← separator first
        elim before [
          | none ↦ give out
          | some t ↦ do
            blanks
            end ← look at_stop
            elim end [
              | true ↦ give (out ++ t)
              | false ↦ do v ← expr; print_loop fuel false (out ++ (t ++ to_str v))
            ]
        ]
    ]

  unfoldable pub cmd_print : Run F Jump
  unfolding skip_ws print_loop
  cmd_print = do
    blanks
    n ← rounds
    out ← print_loop (suc (suc n)) true []
    change (emit (sent (out ++ (b'\r' ∷ []))))
    give advance

  unfoldable pub cmd_input : Run F Jump
  unfolding skip_ws eat_ch next_tok trim_newlines typed set_var
  cmd_input = do
    blanks
    quoted ← look (λ lx. peek_ch lx == b'"')
    _ ← elim quoted [
      | true ↦ do t ← token; change (emit (sent (text_of t))); eat b';'; eat b','; give tt
      | false ↦ give tt
    ]
    var ← token
    line ← received
    change (set_var (text_of var) (typed (text_of var) line))
    give advance

  -- The timeout is an argument of `on_recv` only.
  unfoldable pub cmd_recv : Run F Jump
  unfolding skip_ws eat_ch next_tok trim_newlines typed set_var
  cmd_recv = do
    var ← token
    timed ← got_ch b','
    _ ← elim timed [ true ↦ do _ ← expr; give tt | false ↦ give tt ]
    line ← received
    change (set_var (text_of var) (typed (text_of var) line))
    give advance

  -- The name with its field, if one follows.
  abbrev pub full_name : Bytes → Run F Bytes
  full_name var = do
    blanks
    field ← got_ch b'.'
    elim field [ true ↦ do t ← token; give (var ++ (b'.' ∷ text_of t)) | false ↦ give var ]

  unfoldable pub cmd_let : Bytes → Run F Jump
  unfolding skip_ws eat_ch next_tok set_var
  cmd_let var = do name ← full_name var; eat b'='; v ← expr; change (set_var name v); give advance

  -- FOR with numbers, behind the variable.
  unfoldable pub for_number : Bytes → ℕ → Run F Jump
  unfolding skip_ws eat_ch eat_kw to_num set_var return_line start_for
  for_number var line = do
    eat b'='
    start ← expr
    _ ← got_kw (codes "TO")
    end ← expr
    stepped ← got_kw (codes "STEP")
    step ← elim stepped [ true ↦ do v ← expr; give (to_num v) | false ↦ give (F.of_int (pos 1)) ]
    change (set_var var start)
    body ← gets (return_line line)
    change (
        start_for (record {
          var = var;
          to = to_num end;
          step = step;
          body_line = body;
          is_match = false;
          matches = [];
        }))
    give advance
