-- ===== src/Basic/Scan.antt =====
-- `first_pass` of lib/basic.cpp, which collects procedures, types and constants, and the loading of a
-- whole program.
use ax25toolkit.Base.{
  ℕ, zero, suc, Bool, true, false, not, ◌&&◌, ◌||◌, List, [], ◌∷◌, ◌++◌, Bytes, ◌==◌, Option, none,
  some, if◌then◌else◌, is_empty, length,
}
use ax25toolkit.Base.Text.{bytes_eq, bytes_lt, codes}
use ax25toolkit.Base.Dict.{insert, lookup}
use ax25toolkit.Basic.{Floats, Value, num, str, zero_num, ProcDef, TypeDef, Interp}
use ax25toolkit.Basic.Lexer.{
  peek_ch, skip_ws, eat_kw, peek_kw, eat_ch, after, Token, ident, num_lit, str_lit, punct, eol,
  next_tok, holds,
}
use ax25toolkit.Basic.Vars.{put, find}
use ax25toolkit.Basic.Load.{clear, include_string}

-- `tok.text`
abbrev pub text_of : Token → Bytes
text_of (ident t) = t
text_of (num_lit t) = t
text_of (str_lit t) = t
text_of (punct t) = t
text_of eol = []

-- `tok.num`
unfoldable pub num_of : (F : Floats) → Token → F.Num
num_of F (num_lit t) = elim (F.stod t) [ none ↦ zero_num F | some d ↦ d ]
num_of F _ = zero_num F

abbrev pub name_of : Token → Option Bytes
name_of (ident t) = some t
name_of _ = none

-- The lexer behind a keyword, eaten or not.
abbrev pub skip_kw : Bytes → Bytes → Bytes
skip_kw kw lx = after (eat_kw kw lx) (skip_ws lx)

abbrev pub skip_ch : ℕ → Bytes → Bytes
skip_ch c lx = after (eat_ch c lx) (skip_ws lx)

-- A parameter, with its type skipped.
unfoldable pub read_param : Bytes → Option Bytes × Bytes
unfolding next_tok eat_kw skip_ws
read_param lx =
    let (t, rest) = next_tok lx in
    elim (name_of t) [
      | none ↦ (none, rest)
      | some n ↦ elim (eat_kw (codes "AS") rest) [
        | none ↦ (some n, skip_ws rest)
        | some behind ↦ (some n, (next_tok behind).1)
      ]
    ]

abbrev pub cons_some {ℓ} : {A : Type ℓ} → Option A → List A → List A
cons_some none xs = xs
cons_some (some x) xs = x ∷ xs

-- The loop of `parse_params`; each round takes a token, so the length is fuel enough.
unfoldable pub params_loop : ℕ → Bytes → List Bytes
unfolding read_param eat_ch skip_ws
params_loop zero lx = []
params_loop (suc fuel) lx =
    let (p, rest) = read_param lx in
    let more = params_loop fuel (skip_ch b',' rest) in
    if is_empty lx || peek_ch lx == b')' then [] else cons_some p more

unfoldable pub parse_params : Bytes → List Bytes
unfolding params_loop eat_ch
parse_params lx = elim (eat_ch b'(' lx) [ none ↦ [] | some rest ↦ params_loop (length rest) rest ]

-- The tables, and the procedure and the type that are open; `[]` is none.
pub record Pass (F : Floats) : Type 0 where
  pub procs : List (Bytes × ProcDef)
  pub types : List (Bytes × TypeDef)
  pub consts : List (Bytes × Value F)
  pub cur_proc : Bytes
  pub cur_type : Bytes

unfoldable pub open_proc : {F : Floats} → Bool → ℕ → Bytes → Pass F → Pass F
unfolding next_tok parse_params insert bytes_lt
open_proc is_function line lx p =
    let (t, rest) = next_tok lx in
    elim (name_of t) [
      | none ↦ p
      | some n ↦ record p {
        procs =
            put n
              (record {
                name = n;
                params = parse_params rest;
                start_line = line;
                end_line = none;
                is_function = is_function;
              })
              p.procs;
        cur_proc = n;
      }
    ]

abbrev pub no_proc : ProcDef
no_proc = record { name = []; params = []; start_line = 0; end_line = none; is_function = false }

abbrev pub found_proc : Option ProcDef → ProcDef
found_proc none = no_proc
found_proc (some d) = d

unfoldable pub close_proc : {F : Floats} → ℕ → Pass F → Pass F
unfolding insert lookup bytes_lt
close_proc line p = if is_empty p.cur_proc then p else record p {
  procs =
      put p.cur_proc (record (found_proc (find p.cur_proc p.procs)) { end_line = some line })
        p.procs;
  cur_proc = [];
}

unfoldable pub open_type : {F : Floats} → Bytes → Pass F → Pass F
unfolding next_tok insert bytes_lt
open_type lx p = elim (name_of (next_tok lx).0) [
  | none ↦ p
  | some n ↦ record p {
    types = put n (record { name = n; fields = []; field_types = [] }) p.types;
    cur_type = n;
  }
]

abbrev pub found_type : Option TypeDef → TypeDef
found_type none = record { name = []; fields = []; field_types = [] }
found_type (some d) = d

-- The type of a field; `DOUBLE` if none is written.
unfoldable pub field_type : Bytes → Bytes
unfolding eat_kw next_tok
field_type lx = elim (eat_kw (codes "AS") lx) [
  | none ↦ codes "DOUBLE"
  | some rest ↦ text_of (next_tok rest).0
]

unfoldable pub add_field : {F : Floats} → Bytes → Pass F → Pass F
unfolding next_tok insert lookup bytes_lt field_type
add_field lx p =
    let (t, rest) = next_tok lx in
    elim (name_of t) [
      | none ↦ p
      | some n ↦
          let d = found_type (find p.cur_type p.types) in
          record p {
            types =
                put p.cur_type
                  (record d {
                    fields = d.fields ++ n ∷ [];
                    field_types = put n (field_type rest) d.field_types;
                  })
                  p.types;
          }
    ]

-- The literal of a constant; anything else is 0.
unfoldable pub const_value : (F : Floats) → Token → Bytes → Value F
unfolding next_tok num_of bytes_eq
const_value F (num_lit t) rest = num (num_of F (num_lit t))
const_value F (str_lit t) rest = str t
const_value F (punct t) rest =
    if bytes_eq t (codes "-") then num (F.neg (num_of F (next_tok rest).0)) else num (zero_num F)
const_value F _ rest = num (zero_num F)

unfoldable pub add_const : {F : Floats} → Bytes → Pass F → Pass F
unfolding next_tok insert bytes_lt eat_ch const_value skip_ws
add_const {F} lx p =
    let (t, rest) = next_tok lx in
    elim (name_of t) [
      | none ↦ p
      | some n ↦
          let (v, behind) = next_tok (skip_ch b'=' rest) in
          record p { consts = put n (const_value F v behind) p.consts }
    ]

-- `END` with a second keyword.
unfoldable pub ends : Bytes → Bytes → Bool
unfolding eat_kw skip_ws
ends kw src = holds (eat_kw kw (skip_kw (codes "END") src))

unfoldable pub pass_line : {F : Floats} → ℕ × Bytes → Pass F → Pass F
unfolding skip_ws eat_kw peek_kw ends open_proc close_proc open_type add_field add_const
pass_line (line, src) p =
    let lx = skip_ws src in
    if is_empty lx
    then p
    else if peek_kw (codes "FUNCTION") lx
    then open_proc true line (skip_kw (codes "FUNCTION") lx) p
    else if peek_kw (codes "SUB") lx
    then open_proc false line (skip_kw (codes "SUB") lx) p
    else if peek_kw (codes "END") lx && (ends (codes "FUNCTION") src || ends (codes "SUB") src)
    then close_proc line p
    else if peek_kw (codes "TYPE") lx
    then open_type (skip_kw (codes "TYPE") lx) p
    else if peek_kw (codes "END") lx && ends (codes "TYPE") src
    then record p { cur_type = [] }
    else if not (is_empty p.cur_type) && not (peek_kw (codes "END") lx)
    then add_field lx p
    else if peek_kw (codes "CONST") lx
    then add_const (skip_kw (codes "CONST") lx) p
    else p

unfoldable pub pass_lines : {F : Floats} → List (ℕ × Bytes) → Pass F → Pass F
unfolding pass_line
pass_lines [] p = p
pass_lines (l ∷ ls) p = pass_lines ls (pass_line l p)

unfoldable pub first_pass : {F : Floats} → Interp F → Interp F
unfolding pass_lines
first_pass s =
    let p =
      pass_lines s.program
        (record { procs = []; types = []; consts = []; cur_proc = []; cur_type = [] }) in
    record s { procs = p.procs; types = p.types; consts = p.consts }

unfoldable pub load_string : {F : Floats} → (Bytes → Option Bytes) → Bytes → Interp F → Interp F
unfolding clear include_string first_pass
load_string files source s = first_pass (include_string files source (clear s))

unfoldable pub load_file :
    {F : Floats} → (Bytes → Option Bytes) → Bytes → Interp F → Interp F × Bool
unfolding load_string
load_file files path s = elim (files path) [
  | none ↦ (s, false)
  | some source ↦ (load_string files source s, true)
]
