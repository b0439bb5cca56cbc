-- ===== src/Basic/Load.antt =====
-- Program loading in lib/basic.cpp: `clear` to `include_file`. The files of the host are a parameter:
-- the text of a path, if it can be opened.
pub mod Labels
use ax25toolkit.Base.{
  ℕ, zero, suc, ◌+◌, ◌*◌, ◌-◌, Bool, true, false, not, ◌&&◌, ◌||◌, List, [], ◌∷◌, ◌++◌, map, Bytes,
  leb, ltb, ◌==◌, Option, none, some, if◌then◌else◌, is_empty, take, max,
}
use ax25toolkit.Base.Text.{to_upper, is_digit, is_alnum, bytes_eq, bytes_lt, break_at, codes}
use ax25toolkit.Base.Dict.{insert, lookup}
use ax25toolkit.Basic.{Floats, Interp, logged, emit}
use ax25toolkit.Basic.Lexer.{peek_ch, is_blank, in_word, skip_ws, span, behind_kw}
use ax25toolkit.Basic.Vars.{put, find, present}

-- `program_[line] = text`
unfoldable pub store : {F : Floats} → ℕ → Bytes → Interp F → Interp F
unfolding insert
store line text s = record s { program = insert ltb line text s.program }

unfoldable pub clear : {F : Floats} → Interp F → Interp F
clear s = record s {
  program = [];
  labels = [];
  procs = [];
  types = [];
  consts = [];
  vars = [];
  type_vars = [];
  call_stack = [];
  for_stack = [];
  while_stack = [];
  if_stack = [];
  do_stack = [];
  select_stack = [];
  frame_stack = [];
  maps = [];
  queues = [];
  arrays = [];
  next_auto_line = 1;
  interrupted = false;
}

-- Keeps `next_auto_line_` ahead of a line.
abbrev pub ahead_of : ℕ → ℕ → ℕ
ahead_of line next = if leb next line then suc line else next

unfoldable pub add_line : {F : Floats} → ℕ → Bytes → Interp F → Interp F
unfolding store
add_line line text s =
    let s1 = store line text s in record s1 { next_auto_line = ahead_of line s1.next_auto_line }

-- The line up to a `'` outside of quotes.
unfoldable pub strip_from : Bool → Bytes → Bytes
strip_from in_str [] = []
strip_from in_str (c ∷ cs) =
    let inside = c ∷ strip_from (not in_str) cs in
    let rest = c ∷ strip_from in_str cs in
    if c == b'"' then inside else if not in_str && c == b'\'' then [] else rest

unfoldable pub strip_comment : Bytes → Bytes
unfolding strip_from
strip_comment line = strip_from false line

-- The lines that `getline` reads.
unfoldable pub lines_of : Bytes → List Bytes
lines_of [] = []
lines_of (c ∷ cs) =
    let rest = lines_of cs in
    if c == 10 then [] ∷ rest else elim rest [ [] ↦ (c ∷ []) ∷ [] | l ∷ ls ↦ (c ∷ l) ∷ ls ]

-- Without the carriage returns and newlines at the end.
unfoldable pub trim_newlines : Bytes → Bytes
trim_newlines [] = []
trim_newlines (c ∷ cs) =
    let rest = trim_newlines cs in if (c == 13 || c == 10) && is_empty rest then [] else c ∷ rest

unfoldable pub skip_spaces : Bytes → Bytes
skip_spaces [] = []
skip_spaces (c ∷ cs) = let rest = skip_spaces cs in if c == b' ' then rest else c ∷ cs

-- A line on the next automatic number.
unfoldable pub append_line : {F : Floats} → Bytes → Interp F → Interp F
unfolding store
append_line text s =
    let s1 = store s.next_auto_line text s in record s1 { next_auto_line = suc s1.next_auto_line }

-- The digits as a number, which the code takes in an `int`: this is its value where it fits.
unfoldable pub digits_value : ℕ → Bytes → ℕ
digits_value v [] = v
digits_value v (c ∷ cs) = digits_value (v * 10 + (c - b'0')) cs

-- Whether the line starts with `REM`.
unfoldable pub starts_rem : Bytes → Bool
unfolding to_upper bytes_eq
starts_rem l = bytes_eq (take 3 (map to_upper (take 4 l))) (codes "REM")

-- The path of an `INCLUDE` directive.
unfoldable pub path_between : Bytes → Option Bytes
unfolding break_at
path_between [] = none
path_between (c ∷ cs) =
    let (path, behind) = break_at b'"' cs in if c == b'"' && present behind then some path else none

unfoldable pub include_path : Bytes → Option Bytes
unfolding behind_kw skip_ws path_between
include_path l = elim (behind_kw (codes "INCLUDE") l) [
  | none ↦ none
  | some rest ↦ path_between (skip_ws rest)
]

-- A line number with what follows it.
abbrev pub ends_number : Bytes → Bool
ends_number [] = true
ends_number (c ∷ cs) = is_blank c

unfoldable pub numbered : Bytes → Option (ℕ × Bytes)
unfolding is_digit span digits_value skip_ws
numbered l =
    let (digits, rest) = span is_digit l in
    if not (is_empty digits) && ends_number rest
    then some (digits_value 0 digits, skip_ws rest)
    else none

-- A label with what follows its colon.
unfoldable pub colon_at : Bytes → Option Bytes
colon_at [] = none
colon_at (c ∷ cs) = if c == b':' then some cs else none

unfoldable pub labelled : Bytes → Option (Bytes × Bytes)
unfolding span is_alnum to_upper skip_ws colon_at
labelled l =
    let (word, rest) = span in_word l in
    if is_empty word then none else elim (colon_at (skip_ws rest)) [
      | none ↦ none
      | some behind ↦ some (map to_upper word, skip_ws behind)
    ]

-- What a line with a label stores.
unfoldable pub label_text : Bytes → Bytes
unfolding strip_comment
label_text l = if is_empty l || (peek_ch l == b'\'' || peek_ch l == 0) then [] else strip_comment l

unfoldable pub store_labelled : {F : Floats} → Bytes → Bytes → Interp F → Interp F
unfolding append_line label_text insert bytes_lt
store_labelled word text s =
    append_line (label_text text) (record s { labels = put word s.next_auto_line s.labels })

unfoldable pub store_numbered : {F : Floats} → ℕ → Bytes → Interp F → Interp F
unfolding add_line strip_comment
store_numbered line text s = add_line line (strip_comment text) s

-- A line that is no directive, no comment and not blank.
unfoldable pub store_line : {F : Floats} → Bytes → Interp F → Interp F
unfolding numbered labelled store_numbered store_labelled append_line strip_comment
store_line l s = elim (numbered l) [
  | some (line, text) ↦ store_numbered line text s
  | none ↦ elim (labelled l) [
    | some (word, text) ↦ store_labelled word text s
    | none ↦ append_line (strip_comment l) s
  ]
]

-- The files included so far, and the interpreter.
abbrev pub Loading : Floats → Type 0
Loading F = List (Bytes × Unit {0}) × Interp F

-- A line without its newline and the spaces before it; `open` is what an `INCLUDE` does.
unfoldable pub parse_line :
    {F : Floats} → (Bytes → Loading F → Loading F) → Bytes → Loading F → Loading F
unfolding append_line starts_rem include_path store_line
parse_line include l (included, s) =
    if is_empty l
    then (included, s)
    else if peek_ch l == b'\'' || starts_rem l
    then (included, append_line [] s)
    else elim (include_path l) [
      | some path ↦ include path (included, s)
      | none ↦ (included, store_line l s)
    ]

unfoldable pub parse_all :
    {F : Floats} → (Bytes → Loading F → Loading F) → List Bytes → Loading F → Loading F
unfolding parse_line skip_spaces trim_newlines
parse_all include [] st = st
parse_all include (l ∷ ls) st =
    parse_all include ls (parse_line include (skip_spaces (trim_newlines l)) st)

-- An `INCLUDE` where `left` more levels are allowed.
unfoldable pub include_at :
    {F : Floats} → (Bytes → Option Bytes) → ℕ → Bytes → Loading F → Loading F
unfolding lookup insert bytes_lt parse_all lines_of
include_at files zero path (included, s) =
    (included, emit (logged (codes "[BASIC] INCLUDE depth limit reached: " ++ path)) s)
include_at {F} files (suc left) path (included, s) =
    let parse_lines : Bytes → Loading F =
      λ src. parse_all (include_at files left) (lines_of src) (put path tt included, s) in
    if present (find path included) then (included, s) else elim (files path) [
      | none ↦ (included, emit (logged (codes "[BASIC] Cannot open INCLUDE file: " ++ path)) s)
      | some src ↦ parse_lines src
    ]

-- `include_string`; `MAX_INCLUDE_DEPTH` is 16.
unfoldable pub include_string : {F : Floats} → (Bytes → Option Bytes) → Bytes → Interp F → Interp F
unfolding include_at parse_all lines_of
include_string files src s = (parse_all (include_at files 16) (lines_of src) ([], s)).1

-- `include_file`, with its result.
unfoldable pub include_file :
    {F : Floats} → (Bytes → Option Bytes) → Bytes → Interp F → Interp F × Bool
unfolding include_string
include_file files path s = elim (files path) [
  | none ↦ (s, false)
  | some src ↦ (include_string files src s, true)
]
