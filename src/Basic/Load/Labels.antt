-- ===== src/Basic/Load/Labels.antt =====
-- Loading keeps the labels and the automatic line numbers right.
use ax25toolkit.Base.{
  ℕ, zero, suc, ◌-◌, ◌^◌, ◌≡◌, arith, All-weaken, Bool, true, List, [], ◌∷◌, Bytes, ◌≤◌, ◌<◌, All,
  ltb, ◌==◌, Option, none, some, Bool-cases, inl, inr, is_empty, ◌||◌, ◌++◌,
}
use ax25toolkit.Base.Text.{bytes_lt, codes, is_digit}
use ax25toolkit.Base.Dict.{lookup, insert}
use ax25toolkit.Basic.{Floats, Interp, logged, emit}
use ax25toolkit.Basic.Lexer.{peek_ch, span}
use ax25toolkit.Basic.Vars.{present, put, find}
use ax25toolkit.Basic.Load.{
  store, clear, ahead_of, add_line, strip_comment, lines_of, append_line, starts_rem, include_path,
  numbered, labelled, label_text, store_labelled, store_numbered, store_line, Loading, parse_line,
  parse_all, include_at, include_string, digits_value, skip_spaces, trim_newlines,
}
use ax25toolkit.Basic.Scan.{first_pass, load_string}

insert-All :
    {K V : Type 0} (lt : K → K → Bool) (P : K × V → Type 0) (k : K) (v : V) (m : List (K × V))
    → P (k, v)
    → All P m
    → All P (insert lt k v m)
unfolding insert
insert-All lt P k v [] h a = (h, tt)
insert-All lt P k v ((j, w) ∷ m) h (a, rest_all) =
    let rest = insert-All lt P k v m h rest_all in
    elim (Bool-cases (lt j k)) [
      | inl e ↦ rw e (a, rest)
      | inr e ↦ elim (Bool-cases (lt k j)) [
        | inl e' ↦ rw (e, e') (h, (a, rest_all))
        | inr e' ↦ rw (e, e') (h, rest_all)
      ]
    ]

-- A line that is there stays there.
lookup-insert_other :
    (j k : ℕ) (v : Bytes) (m : List (ℕ × Bytes))
    → present (lookup ltb j m) ≡ true
    → present (lookup ltb j (insert ltb k v m)) ≡ true
unfolding insert lookup
lookup-insert_other j k v [] h = ground (arith, h)
lookup-insert_other j k v ((x, w) ∷ m) h = elim (Bool-cases (present (lookup ltb j m))) [
  | inl e ↦ ground (arith, h, lookup-insert_other j k v m e)
  | inr e ↦ ground (arith, h, e)
]

lookup-insert_same :
    (k : ℕ) (v : Bytes) (m : List (ℕ × Bytes)) → present (lookup ltb k (insert ltb k v m)) ≡ true
unfolding insert lookup
lookup-insert_same k v [] = ground arith
lookup-insert_same k v ((x, w) ∷ m) = ground (arith, lookup-insert_same k v m)

-- Every line is behind the next automatic number, and every label has its line.
pub record Loaded {F : Floats} (s : Interp F) : Type 0 where
  pub ahead : All (λ (l : ℕ × Bytes). l.0 < s.next_auto_line) s.program
  pub marks : All (λ (l : Bytes × ℕ). present (lookup ltb l.1 s.program) ≡ true) s.labels

widen :
    (m n : ℕ) (ls : List (ℕ × Bytes))
    → m ≤ n
    → All (λ (l : ℕ × Bytes). l.0 < m) ls
    → All (λ (l : ℕ × Bytes). l.0 < n) ls
widen m n [] h a = tt
widen m n (l ∷ ls) h (a, r) = (omega (arith, h, a), widen m n ls h r)

keep_marks :
    (k : ℕ) (v : Bytes) (program : List (ℕ × Bytes)) (labels : List (Bytes × ℕ))
    → All (λ (l : Bytes × ℕ). present (lookup ltb l.1 program) ≡ true) labels
    → All (λ (l : Bytes × ℕ). present (lookup ltb l.1 (insert ltb k v program)) ≡ true) labels
keep_marks k v program [] a = tt
keep_marks k v program (l ∷ ls) (a, r) =
    (lookup-insert_other l.1 k v program a, keep_marks k v program ls r)

add_line-Loaded :
    {F : Floats} (line : ℕ) (text : Bytes) (s : Interp F) → Loaded s → Loaded (add_line line text s)
unfolding add_line store
add_line-Loaded line text s h = record {
  ahead =
      insert-All ltb (λ (l : ℕ × Bytes). l.0 < ahead_of line s.next_auto_line) line text s.program
        (ground arith)
        (widen s.next_auto_line (ahead_of line s.next_auto_line) s.program (ground arith) h.ahead);
  marks = keep_marks line text s.program s.labels h.marks;
}

append_line-Loaded :
    {F : Floats} (text : Bytes) (s : Interp F) → Loaded s → Loaded (append_line text s)
unfolding append_line store
append_line-Loaded text s h = record {
  ahead =
      insert-All ltb (λ (l : ℕ × Bytes). l.0 < suc s.next_auto_line) s.next_auto_line text s.program
        (omega arith)
        (widen s.next_auto_line (suc s.next_auto_line) s.program (omega arith) h.ahead);
  marks = keep_marks s.next_auto_line text s.program s.labels h.marks;
}

store_labelled-Loaded :
    {F : Floats} (word text : Bytes) (s : Interp F) → Loaded s → Loaded (store_labelled word text s)
unfolding store_labelled append_line store
store_labelled-Loaded word text s h = record {
  ahead = (append_line-Loaded (label_text text) s h).ahead;
  marks =
      insert-All bytes_lt
        (λ (l : Bytes × ℕ).
          present (lookup ltb l.1 (insert ltb s.next_auto_line (label_text text) s.program)) ≡ true)
        word s.next_auto_line s.labels
        (lookup-insert_same s.next_auto_line (label_text text) s.program)
        (keep_marks s.next_auto_line (label_text text) s.program s.labels h.marks);
}

store_line-Loaded : {F : Floats} (l : Bytes) (s : Interp F) → Loaded s → Loaded (store_line l s)
unfolding store_line store_numbered
store_line-Loaded {F = F} l s h = choose (numbered l)
  where
    unnumbered :
        (r : Option (Bytes × Bytes))
        → Loaded {F = F} (elim r [
          | some (word, text) ↦ store_labelled word text s
          | none ↦ append_line (strip_comment l) s
        ])
    unnumbered none = append_line-Loaded (strip_comment l) s h
    unnumbered (some (word, text)) = store_labelled-Loaded word text s h

    choose :
        (r : Option (ℕ × Bytes))
        → Loaded {F = F} (elim r [
          | some (line, text) ↦ store_numbered line text s
          | none ↦ elim (labelled l) [
            | some (word, text) ↦ store_labelled word text s
            | none ↦ append_line (strip_comment l) s
          ]
        ])
    choose none = unnumbered (labelled l)
    choose (some (line, text)) = add_line-Loaded line (strip_comment text) s h

-- An `INCLUDE` that keeps the invariant.
abbrev Keeps : {F : Floats} → (Bytes → Loading F → Loading F) → Type 0
Keeps {F} include = (path : Bytes) (st : Loading F) → Loaded st.1 → Loaded (include path st).1

parse_line-Loaded :
    {F : Floats} (include : Bytes → Loading F → Loading F)
    → Keeps include
    → (l : Bytes) (st : Loading F) → Loaded st.1
    → Loaded (parse_line include l st).1
unfolding parse_line
parse_line-Loaded {F = F} include k l (included, s) h = elim (Bool-cases (is_empty l)) [
  | inl e ↦ rw e h
  | inr e ↦ elim (Bool-cases (peek_ch l == b'\'' || starts_rem l)) [
    | inl e' ↦ rw (e, e') (append_line-Loaded [] s h)
    | inr e' ↦ rw (e, e') (directive (include_path l))
  ]
]
  where
    directive :
        (r : Option Bytes)
        → Loaded {F = F}
            (elim r as (λ x. Loading F) [
              | some path ↦ include path (included, s)
              | none ↦ (included, store_line l s)
            ]).1
    directive none = store_line-Loaded l s h
    directive (some path) = k path (included, s) h

parse_all-Loaded :
    {F : Floats} (include : Bytes → Loading F → Loading F)
    → Keeps include
    → (ls : List Bytes) (st : Loading F) → Loaded st.1
    → Loaded (parse_all include ls st).1
unfolding parse_all
parse_all-Loaded include k [] st h = h
parse_all-Loaded include k (l ∷ ls) st h =
    parse_all-Loaded include k ls (parse_line include (skip_spaces (trim_newlines l)) st)
      (parse_line-Loaded include k (skip_spaces (trim_newlines l)) st h)

include_at-Loaded :
    {F : Floats} (files : Bytes → Option Bytes) (left : ℕ) (path : Bytes) (st : Loading F)
    → Loaded st.1
    → Loaded (include_at files left path st).1
unfolding include_at
include_at-Loaded files zero path (included, s) h = record { ahead = h.ahead; marks = h.marks }
include_at-Loaded {F = F} files (suc left) path (included, s) h =
    elim (Bool-cases (present (find path included))) [
      | inl e ↦ rw e h
      | inr e ↦ rw e (open_file (λ path st. include_at-Loaded files left path st) (files path))
    ]
  where
    open_file :
        Keeps (include_at {F = F} files left)
        → (r : Option Bytes)
        → Loaded {F = F}
            (elim r as (λ x. Loading F) [
              | none ↦
                  (included, emit (logged (codes "[BASIC] Cannot open INCLUDE file: " ++ path)) s)
              | some src ↦
                  parse_all (include_at files left) (lines_of src) (put path tt included, s)
            ]).1
    open_file k none = record { ahead = h.ahead; marks = h.marks }
    open_file k (some src) =
        parse_all-Loaded (include_at files left) k (lines_of src) (put path tt included, s) h

-- An included text keeps the program in order.
pub include_string-Loaded :
    {F : Floats} (files : Bytes → Option Bytes) (src : Bytes) (s : Interp F)
    → Loaded s
    → Loaded (include_string files src s)
unfolding include_string
include_string-Loaded files src s h =
    parse_all-Loaded (include_at files 16) (include_at-Loaded files 16) (lines_of src) ([], s) h

-- The digits at the start of each line, if it has any, are a number that fits an `int`, and so does the next one.
abbrev pub NumbersFit : Bytes → Type 0
NumbersFit text =
    All (λ l. digits_value 0 (span is_digit (skip_spaces (trim_newlines l))).0 < 2 ^ 31 - 1)
      (lines_of text)

-- After loading a text, with whatever files it includes, and whatever the interpreter held before: every
-- label leads to a line that the program has, and every line of the program is below the number that
-- the next line without one gets, so that no line is overwritten by it. The line numbers in the text and in the
-- files fit an `int`, and the automatic numbers stay within one; then all lines of the program do.
pub load_string-Loaded :
    {F : Floats} (files : Bytes → Option Bytes) (source : Bytes) (s : Interp F)
    → NumbersFit source
    → ((path text : Bytes) → files path ≡ some text → NumbersFit text)
    → (load_string files source s).next_auto_line < 2 ^ 31
    → Loaded (load_string files source s)
      × All (λ (l : ℕ × Bytes). l.0 < 2 ^ 31) (load_string files source s).program
unfolding load_string first_pass clear
load_string-Loaded files source s own others below =
    let h = include_string-Loaded files source (clear s) (record { ahead = tt; marks = tt }) in
    (
      record { ahead = h.ahead; marks = h.marks },
      All-weaken (λ (l : ℕ × Bytes). l.0 < (load_string files source s).next_auto_line)
          (λ (l : ℕ × Bytes). l.0 < 2 ^ 31) _ (λ l k. omega (arith, k, below)) h.ahead,
    )
