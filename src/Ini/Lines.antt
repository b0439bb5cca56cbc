-- ===== src/Ini/Lines.antt =====
-- What a line of a configuration file means, and that `load` takes it so.
use ax25toolkit.Base.{
  ℕ, ◌≡◌, refl, ◌≢◌, ◌⊎◌, ◌∙◌, ap, true, false, [], ◌∷◌, ◌++◌, Bytes, All, All-append, All-weaken,
  some, if◌then◌else◌, is_empty, arith,
}
use ax25toolkit.Base.Text.Fields.{break_at_sep}
use ax25toolkit.Base.Text.Trim.{
  trim, trim_right, Pad, IsTrim, trim_padded, between-IsTrim, trim-append, trim-trim_right,
}
use ax25toolkit.Ini.{
  cut_comment, is_white, trim_, back_is, drop_last, Loading, store, load_entry, load_line,
}

pub data Item : Type 0 where
  nothing : Item
  section : Bytes → Item
  entry : Bytes → Bytes → Item

abbrev pub White : Bytes → Type 0
White = Pad is_white

-- Neither a `;` nor a `#`.
abbrev pub NoMark : ℕ → Type 0
NoMark c = (c ≢ b';') × (c ≢ b'#')

abbrev pub IsComment : Bytes → Type 0
IsComment [] = Unit
IsComment (c ∷ cs) = (c ≡ b';') ⊎ (c ≡ b'#')

-- A text that stands by itself: no comment in it, and no white space around it.
abbrev pub IsText : Bytes → Type 0
IsText cs = All NoMark cs × IsTrim is_white cs

-- The format of a line, with any white space around each part and any comment behind it.
pub data Means : Bytes → Item → Type 0 where
  bare : (pad comment : Bytes) → White pad → IsComment comment → Means (pad ++ comment) nothing
  header :
      (pad a name b pad' comment : Bytes)
      → White pad
      → White a
      → IsText name
      → White b
      → White pad'
      → IsComment comment
      → Means
          ((pad ++ ((b'[' ∷ ((a ++ (name ++ b)) ++ b']' ∷ [])) ++ pad')) ++ comment)
          (section name)
  assignment :
      (pad : Bytes) (k : ℕ) (ks a b value pad' comment : Bytes)
      → White pad
      → IsText (k ∷ ks)
      → k ≢ b'['
      → All (λ c. c ≢ b'=') (k ∷ ks)
      → White a
      → White b
      → IsText value
      → White pad'
      → IsComment comment
      → Means
          ((pad ++ (((k ∷ ks) ++ a) ++ (b'=' ∷ (b ++ (value ++ pad'))))) ++ comment)
          (entry (k ∷ ks) value)

-- An entry before the first section is dropped.
unfoldable pub take_in : Item → Loading → Loading
take_in nothing l = l
take_in (section name) l = record l { section = name }
take_in (entry key value) l =
    if is_empty l.section then l else record l { data_ = store l.section key value l.data_ }

cut_comment_lem :
    (cs comment : Bytes) → All NoMark cs → IsComment comment → cut_comment (cs ++ comment) ≡ cs
unfolding cut_comment
cut_comment_lem [] [] h k = refl
cut_comment_lem [] (c ∷ comment) h k = ground arith
cut_comment_lem (c ∷ cs) comment h k = ground (arith, cut_comment_lem cs comment h.1 k)

White-NoMark : (cs : Bytes) → White cs → All NoMark cs
White-NoMark cs = All-weaken (λ c. is_white c ≡ true) NoMark cs (λ c h. ground (arith, h))

back_is_snoc : (cs : Bytes) (c : ℕ) → back_is c (cs ++ c ∷ []) ≡ true
unfolding back_is
back_is_snoc [] c = ground arith
back_is_snoc (x ∷ []) c = ground arith
back_is_snoc (x ∷ (y ∷ cs)) c = back_is_snoc (y ∷ cs) c

drop_last_snoc : (cs : Bytes) (c : ℕ) → drop_last (cs ++ c ∷ []) ≡ cs
unfolding drop_last
drop_last_snoc [] c = refl
drop_last_snoc (x ∷ []) c = refl
drop_last_snoc (x ∷ (y ∷ cs)) c = ap (◌∷◌ x) (drop_last_snoc (y ∷ cs) c)

-- The trimmed text of a line.
line_lem :
    (cs comment line : Bytes)
    → All NoMark cs
    → IsComment comment
    → trim is_white cs ≡ line
    → trim_ (cut_comment (cs ++ comment)) ≡ line
unfolding trim_
line_lem cs comment line h k e = ap (trim is_white) (cut_comment_lem cs comment h k) ∙ e

bare_lem :
    (pad comment : Bytes) (l : Loading)
    → White pad
    → IsComment comment
    → load_line (pad ++ comment) l ≡ l
unfolding load_line
bare_lem pad comment l w c =
    rw
      (line_lem pad comment [] (White-NoMark pad w) c
        (trim_padded is_white [] [] pad tt w (tt, tt)))
      refl

header_lem :
    (pad a name b pad' comment : Bytes) (l : Loading)
    → White pad
    → White a
    → IsText name
    → White b
    → White pad'
    → IsComment comment
    → load_line ((pad ++ ((b'[' ∷ ((a ++ (name ++ b)) ++ b']' ∷ [])) ++ pad')) ++ comment) l
      ≡ record l { section = name }
unfolding load_line trim_
header_lem pad a name b pad' comment l w wa n wb w' c =
    let inner = a ++ (name ++ b) in
    let core = b'[' ∷ (inner ++ b']' ∷ []) in
    let inner_plain =
      All-append NoMark a (name ++ b) (White-NoMark a wa)
        (All-append NoMark name b n.0 (White-NoMark b wb)) in
    let core_plain : All NoMark core =
      (ground arith, All-append NoMark inner (b']' ∷ []) inner_plain (ground arith)) in
    let plain =
      All-append NoMark pad (core ++ pad') (White-NoMark pad w)
        (All-append NoMark core pad' core_plain (White-NoMark pad' w')) in
    let trimmed =
      trim_padded is_white pad core pad' w w'
        (between-IsTrim is_white b'[' inner b']' (ground arith) (ground arith)) in
    rw
      (
        line_lem (pad ++ (core ++ pad')) comment core plain c trimmed,
        back_is_snoc (b'[' ∷ inner) b']',
        drop_last_snoc inner b']',
        trim_padded is_white a name b wa wb n.1,
      )
      refl

NoEquals : ℕ → Type 0
NoEquals c = c ≢ b'='

load_entry_lem :
    (before after key value : Bytes) (l : Loading)
    → trim_ before ≡ key
    → is_empty key ≡ false
    → trim_ after ≡ value
    → load_entry (before, some after) l ≡ take_in (entry key value) l
unfolding load_entry take_in
load_entry_lem before after key value l h k e = rw (h, k, e) refl

module _ (pad : Bytes) (k : ℕ) (ks a b value pad' comment : Bytes) (w : White pad)
    (key : IsText (k ∷ ks)) (wa : White a) (wb : White b) (v : IsText value) (w' : White pad') where
  abbrev rest : Bytes
  rest = b ++ (value ++ pad')

  abbrev written : Bytes
  written = pad ++ (((k ∷ ks) ++ a) ++ (b'=' ∷ rest))

  written-NoMark : All NoMark written
  written-NoMark =
      let rest_plain =
        All-append NoMark b (value ++ pad') (White-NoMark b wb)
          (All-append NoMark value pad' v.0 (White-NoMark pad' w')) in
      All-append NoMark pad _ (White-NoMark pad w) (
        All-append NoMark ((k ∷ ks) ++ a) (b'=' ∷ rest)
          (All-append NoMark (k ∷ ks) a key.0 (White-NoMark a wa)) (ground arith, rest_plain))

  assignment_lem :
      (l : Loading)
      → k ≢ b'['
      → All (λ c. c ≢ b'=') (k ∷ ks)
      → IsComment comment
      → load_line (written ++ comment) l ≡ take_in (entry (k ∷ ks) value) l
  unfolding load_line NoEquals
  assignment_lem l ne none_in c =
      let before = (k ∷ ks) ++ a in
      let no_equals =
        All-append NoEquals (k ∷ ks) a none_in
          (All-weaken (λ c. is_white c ≡ true) NoEquals a (λ c h. ground (arith, h)) wa) in
      let line =
        line_lem written comment (before ++ (b'=' ∷ trim_right is_white rest)) written-NoMark c
          (trim-append is_white pad k (ks ++ a) b'=' rest w key.1.0 (ground arith)) in
      let behind = trim-trim_right is_white rest ∙ trim_padded is_white b value pad' wb w' v.1 in
      let front = trim_padded is_white [] (k ∷ ks) a tt wa key.1 in
      rw (line, break_at_sep b'=' before (trim_right is_white rest) no_equals)
        (ground (
          arith,
          load_entry_lem before (trim_right is_white rest) (k ∷ ks) value l (unfold trim_ in front)
              refl (unfold trim_ in behind),
        ))

-- A line that means something is taken in as that.
pub load_line-Means :
    (text : Bytes) (item : Item) (l : Loading) → Means text item → load_line text l ≡ take_in item l
unfolding take_in
load_line-Means text' item' l (bare pad comment w c) = bare_lem pad comment l w c
load_line-Means text' item' l (header pad a name b pad' comment w wa n wb w' c) =
    header_lem pad a name b pad' comment l w wa n wb w' c
load_line-Means text' item' l
      (assignment pad k ks a b value pad' comment w key ne none_in wa wb v w' c) =
    assignment_lem pad k ks a b value pad' comment w key wa wb v w' l ne none_in c
