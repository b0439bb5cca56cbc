-- ===== src/Basic/Eval/Primary.antt =====
-- `eval_primary` and `eval_func` of lib/basic.cpp, and the recursion of `eval_expr`. A procedure of the
-- program is called by a parameter.
pub mod Endless
use ax25toolkit.Base.{
  ℕ, zero, suc, ◌+◌, ◌-◌, Bool, true, false, not, ◌&&◌, ◌||◌, List, [], ◌∷◌, ◌++◌, Bytes, ◌==◌,
  Option, none, some, if◌then◌else◌, is_empty, drop, length,
}
use ax25toolkit.Base.Int.{ℤ, pos, negsuc}
use ax25toolkit.Base.Text.{bytes_lt, codes}
use ax25toolkit.Base.Dict.{lookup, insert}
use ax25toolkit.Basic.{
  Floats, Value, num, str, zero_num, to_num, to_str, Interp, Event, logged, emit,
}
use ax25toolkit.Basic.Lexer.{
  peek_ch, skip_ws, eat_ch, after, Token, ident, num_lit, str_lit, punct, eol, next_tok, holds,
}
use ax25toolkit.Basic.Vars.{find, put, dict_of, items_of, present, get_var, unset, first_of}
use ax25toolkit.Basic.Scan.{text_of, num_of}
use ax25toolkit.Basic.Eval.{eval_or}
use ax25toolkit.Basic.Eval.Steps.{
  Cursor, Run, ◌>>=◌, ◌>>◌, give, endless, look, gets, change, blanks, eat, got_ch, token, rounds,
}
use ax25toolkit.Basic.Eval.Builtins.{
  Host, Unary, Binary, Ternary, Builtin, unary, binary, ternary, mid, rnd, reall, names, named,
  apply_unary, apply_binary, apply_ternary, mid_part, int_of, joined,
}

-- `call_proc` for a call from an expression.
abbrev pub Call : Floats → Type 0
Call F = Bytes → List (Value F) → Interp F → Option (Value F × Interp F)

abbrev pub call_in : {F : Floats} → Call F → Bytes → List (Value F) → Run F (Value F)
call_in call name args c = elim (call name args c.state) [
  | none ↦ none
  | some (v, s) ↦ some (v, record c { state = s })
]

abbrev pub next_random : (F : Floats) → List F.Num → F.Num
next_random F [] = zero_num F
next_random F (x ∷ xs) = x

-- `rand()/(RAND_MAX+1.0)`
abbrev pub random : {F : Floats} → Run F F.Num
random {F} c = some (
  next_random F c.state.randoms,
  record c { state = record c.state { randoms = drop 1 c.state.randoms } },
)

-- `maps_[name]` makes a map where there is none.
unfoldable pub touch_map : {F : Floats} → Bytes → Interp F → Interp F
unfolding lookup insert bytes_lt
touch_map name s = record s { maps = put name (dict_of (find name s.maps)) s.maps }

-- The arguments of an unknown function are skipped.
unfoldable pub skip_args : ℕ → ℕ → Bytes → Bytes
unfolding next_tok
skip_args zero depth lx = lx
skip_args (suc fuel) depth lx =
    let deep : ℕ =
      if peek_ch lx == b'(' then suc depth else if peek_ch lx == b')' then depth - 1 else depth in
    let behind = skip_args fuel deep (next_tok lx).1 in
    if is_empty lx || depth == 0 then lx else behind

module _ {F : Floats} (host : Host F) (call : Call F) (expr : Run F (Value F)) where
  -- The loop over the arguments of a procedure: no round need take anything from the line.
  unfoldable pub args_loop : ℕ → List (Value F) → Run F (List (Value F))
  unfolding eat_ch skip_ws
  args_loop zero args = endless
  args_loop (suc fuel) args = do
    stop ← look (λ lx. is_empty lx || peek_ch lx == b')')
    elim stop [ true ↦ give args | false ↦ do v ← expr; eat b','; args_loop fuel (args ++ v ∷ []) ]

  unfoldable pub eval_mid : Run F (Value F)
  unfolding eat_ch skip_ws mid_part to_str to_num
  eval_mid = do
    s ← expr
    eat b','
    p ← expr
    more ← got_ch b','
    len ← elim more [ true ↦ do l ← expr; give (some (int_of l)) | false ↦ give none ]
    eat b')'
    give (str (mid_part (to_str s) (int_of p) len))

  unfoldable pub eval_rnd : Run F (Value F)
  unfolding eat_ch skip_ws to_num
  eval_rnd = do
    blanks
    bare ← look (λ lx. peek_ch lx == b')')
    n ← elim bare [ true ↦ give (F.of_int (pos 1)) | false ↦ do v ← expr; give (to_num v) ]
    eat b')'
    x ← random
    give (num (F.mul n x))

  unfoldable pub eval_reall : Run F (Value F)
  unfolding eat_ch skip_ws to_str joined
  eval_reall = do
    pat ← expr
    eat b','
    text ← expr
    more ← got_ch b','
    sep ← elim more [ true ↦ do v ← expr; give (to_str v) | false ↦ give (b',' ∷ []) ]
    eat b')'
    give (str (joined sep (items_of (host.regex_all (to_str pat) (to_str text)))))

  unfoldable pub eval_builtin : Builtin → Run F (Value F)
  unfolding eat_ch skip_ws apply_unary apply_binary apply_ternary eval_mid eval_rnd eval_reall
  eval_builtin (unary u) = do v ← expr; eat b')'; s ← gets (λ s. s); give (apply_unary host s u v)
  eval_builtin (binary o) = do
    a ← expr
    eat b','
    b ← expr
    eat b')'
    s ← gets (λ s. s)
    give (apply_binary host s o a b)
  eval_builtin (ternary o) = do
    a ← expr
    eat b','
    b ← expr
    eat b','
    c ← expr
    eat b')'
    give (apply_ternary host o a b c)
  eval_builtin mid = eval_mid
  eval_builtin rnd = eval_rnd
  eval_builtin reall = eval_reall

  unfoldable pub call_user : ℕ → Bytes → Run F (Value F)
  unfolding args_loop eat_ch skip_ws
  call_user fuel name = do args ← args_loop fuel []; eat b')'; call_in call name args

  unfoldable pub unknown_func : Bytes → Run F (Value F)
  unfolding skip_args
  unknown_func name c = some (
    num (zero_num F),
    record {
      lx = skip_args (suc (length c.lx)) 1 c.lx;
      state = emit (logged (codes "Unknown function: " ++ name)) c.state;
    },
  )

  -- `eval_func`
  unfoldable pub eval_func : ℕ → Bytes → Run F (Value F)
  unfolding eat_ch skip_ws named eval_builtin call_user unknown_func lookup bytes_lt
  eval_func fuel name = do
    eat b'('
    user ← gets (λ s. present (find name s.procs))
    elim (named names name) [
      | some b ↦ eval_builtin b
      | none ↦ elim user [ true ↦ call_user fuel name | false ↦ unknown_func name ]
    ]

  -- An element of an array.
  unfoldable pub eval_element : Bytes → Run F (Value F)
  unfolding eat_ch skip_ws touch_map to_str lookup bytes_lt unset
  eval_element name = do
    eat b'('
    index ← expr
    eat b')'
    change (touch_map name)
    gets (λ s. first_of (find (to_str index) (dict_of (find name s.maps))) (unset name))

  -- A variable or a field of one.
  unfoldable pub eval_variable : Bytes → Run F (Value F)
  unfolding eat_ch skip_ws next_tok get_var
  eval_variable name = do
    blanks
    field ← got_ch b'.'
    elim field [
      | true ↦ do t ← token; gets (get_var (name ++ (b'.' ∷ text_of t)))
      | false ↦ gets (get_var name)
    ]

  unfoldable pub eval_name : ℕ → Bytes → Run F (Value F)
  unfolding eval_element eval_func eval_variable lookup bytes_lt
  eval_name fuel name = do
    paren ← look (λ lx. peek_ch lx == b'(')
    array ← gets (λ s. present (find name s.arrays))
    elim paren [
      | true ↦ elim array [ true ↦ eval_element name | false ↦ eval_func fuel name ]
      | false ↦ eval_variable name
    ]

  -- What a token that is not a parenthesis stands for; other tokens are left, and stand for 0.
  unfoldable pub eval_token : ℕ → Token → Run F (Value F)
  unfolding next_tok num_of eval_name
  eval_token fuel (num_lit t) = do _ ← token; give (num (num_of F (num_lit t)))
  eval_token fuel (str_lit t) = do _ ← token; give (str t)
  eval_token fuel (ident t) = do _ ← token; eval_name fuel t
  eval_token fuel (punct t) = give (num (zero_num F))
  eval_token fuel eol = give (num (zero_num F))

  unfoldable pub eval_primary : ℕ → Run F (Value F)
  unfolding eat_ch skip_ws next_tok eval_token
  eval_primary fuel = do
    paren ← got_ch b'('
    t ← look (λ lx. (next_tok lx).0)
    elim paren [ true ↦ do v ← expr; eat b')'; give v | false ↦ eval_token fuel t ]

-- `eval_expr`, with fuel for the parentheses and calls that are open, and for the rounds over the
-- arguments of a procedure.
unfoldable pub eval_expr : {F : Floats} → Host F → Call F → ℕ → Run F (Value F)
unfolding eval_or eval_primary
eval_expr host call zero = endless
eval_expr host call (suc fuel) =
    eval_or (eval_primary host call (eval_expr host call fuel) (suc fuel))
