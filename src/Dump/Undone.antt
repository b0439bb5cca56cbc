-- ===== src/Dump/Undone.antt =====
-- The bytes that a dump shows, read back from its columns.
use ax25toolkit.Base.{
  ℕ, zero, suc, ◌+◌, ◌-◌, ◌*◌, ◌/◌, ◌%◌, ◌<◌, ◌≤◌, ◌≡◌, refl, ◌≢◌, ap, ◌∙◌, Bool, true, false, ◌&&◌,
  not, List, [], ◌∷◌, ◌++◌, map, replicate, Bytes, ◌==◌, ltb, if◌then◌else◌, ==_iff, length, take,
  drop, get_or, take-append-drop, All, All-append, All-weaken, take-All, drop-All, length-take,
  length-drop, drop-append, arith, Option, none, some,
}
use mathlib.Core.Path.{ap₂}
use ax25toolkit.Base.Bits.{holds_below, holds_below-lt}
use ax25toolkit.Base.Text.{break_at}
use ax25toolkit.Base.Text.Fields.{fields, fields_piece, break_at_sep}
use ax25toolkit.Dump.{
  digit, two_digits, hex_digits, eight_digits, gap, columns, printable, dump_line, dump_lines,
  hex_dump,
}

abbrev value : ℕ → ℕ
value c = if ltb c b'a' then c - b'0' else (c - b'a') + 10

-- The bytes in the columns from `i` on, up to a blank one or the last.
abbrev pub read_columns : ℕ → ℕ → Bytes → Bytes
read_columns zero i text = []
read_columns (suc k) i text =
    let t = drop (if i == 8 then 1 else 0) text in
    if get_or t 0 b' ' == b' '
    then []
    else (value (get_or t 0 0) * 16 + value (get_or t 1 0)) ∷ read_columns k (suc i) (drop 3 t)

abbrev behind_blanks : Option Bytes → Bytes
behind_blanks none = []
behind_blanks (some t) = read_columns 16 0 (drop 1 t)

-- A line behind a prefix of `n` characters: its columns stand behind the offset and two blanks.
abbrev pub read_line : ℕ → Bytes → Bytes
read_line n line = behind_blanks (break_at b' ' (drop n line)).1

abbrev pub read_lines : ℕ → List Bytes → Bytes
read_lines n [] = []
read_lines n (l ∷ ls) = read_line n l ++ read_lines n ls

abbrev pub read_dump : ℕ → Bytes → Bytes
read_dump n text = read_lines n (fields 10 [] text)

abbrev byte_shown : ℕ → Bool
byte_shown b =
    (value (digit (b / 16)) * 16 + value (digit (b % 16)) == b) && not (digit (b / 16) == b' ')

digits_table : holds_below 256 byte_shown ≡ true
unfolding holds_below
digits_table = refl

both_true : (p q : Bool) → (p && q) ≡ true → (p ≡ true) × (q ≡ true)
both_true p q h = ground (arith, h)

byte_back :
    (b : ℕ)
    → b < 256
    → (value (digit (b / 16)) * 16 + value (digit (b % 16)) ≡ b)
      × ((digit (b / 16) == b' ') ≡ false)
byte_back b h =
    let r = both_true _ _ (holds_below-lt 256 byte_shown b digits_table h) in
    ((==_iff _ b).0 r.0, ground (arith, r.1))

gap_skipped :
    (i : ℕ) (xs rest : Bytes) → drop (if i == 8 then 1 else 0) ((gap i ++ xs) ++ rest) ≡ xs ++ rest
gap_skipped i xs rest = ground arith

read_columns_lem :
    (k i : ℕ) (row rest : Bytes)
    → length row ≤ k
    → All (λ b. b < 256) row
    → read_columns k i (columns k i row ++ rest) ≡ row
unfolding columns
read_columns_lem zero i [] rest h a = refl
read_columns_lem zero i (b ∷ bs) rest h a = absurd (omega arith)
read_columns_lem (suc k) i [] rest h a =
    rw (gap_skipped i (b' ' ∷ b' ' ∷ b' ' ∷ columns k (suc i) []) rest) refl
read_columns_lem (suc k) i (b ∷ bs) rest h a =
    let r = byte_back b a.0 in
    rw (gap_skipped i (two_digits b ++ (b' ' ∷ columns k (suc i) bs)) rest, r.1, r.0)
      (ap (◌∷◌ b) (read_columns_lem k (suc i) bs rest (omega arith) a.1))

-- A character of the offset.
IsHex : ℕ → Type 0
IsHex c = (c ≢ b' ') × (c ≢ 10)

digit-IsHex : (n : ℕ) → IsHex (digit n)
unfolding IsHex
digit-IsHex n = ground arith

All-if : (b : Bool) (xs ys : Bytes) → All IsHex xs → All IsHex ys → All IsHex (if b then xs else ys)
All-if true xs ys h k = h
All-if false xs ys h k = k

hex_digits-All : (fuel n : ℕ) (acc : Bytes) → All IsHex acc → All IsHex (hex_digits fuel n acc)
unfolding hex_digits
hex_digits-All zero n acc h = h
hex_digits-All (suc fuel) n acc h =
    All-if (ltb n 16) _ _ (digit-IsHex n, h)
      (hex_digits-All fuel (n / 16) (digit (n % 16) ∷ acc) (digit-IsHex (n % 16), h))

zeros-All : (n : ℕ) → All IsHex (replicate n b'0')
zeros-All zero = tt
zeros-All (suc n) = (digit-IsHex 0, zeros-All n)

eight_digits-All : (n : ℕ) → All IsHex (eight_digits n)
unfolding eight_digits
eight_digits-All n =
    let ds = hex_digits (suc n) n [] in
    All-append IsHex (replicate (8 - length ds) b'0') ds (zeros-All (8 - length ds))
      (hex_digits-All (suc n) n [] tt)

abbrev NoNewline : ℕ → Type 0
NoNewline c = c ≢ 10

gap_one_line : (i : ℕ) → All NoNewline (gap i)
gap_one_line i = ground arith

columns_one_line : (k i : ℕ) (row : Bytes) → All NoNewline (columns k i row)
unfolding columns IsHex
columns_one_line zero i row = tt
columns_one_line (suc k) i [] =
    All-append NoNewline (gap i) _ (gap_one_line i)
      (ground arith, (ground arith, (ground arith, columns_one_line k (suc i) [])))
columns_one_line (suc k) i (b ∷ bs) = All-append NoNewline (gap i) _ (gap_one_line i) (
  (digit-IsHex (b / 16)).1,
  ((digit-IsHex (b % 16)).1, (ground arith, columns_one_line k (suc i) bs)),
)

printable_one_line : (row : Bytes) → All NoNewline (map printable row)
printable_one_line [] = tt
printable_one_line (b ∷ bs) = (ground arith, printable_one_line bs)

module _ (prefix : Bytes) (h : All (λ c. c ≢ 10) prefix) where
  line_one_line : (off : ℕ) (row : Bytes) → All NoNewline (dump_line prefix off row)
  unfolding dump_line IsHex
  line_one_line off row =
      let space : NoNewline b' ' = ground arith in
      let bar : NoNewline b'|' = ground arith in
      All-append NoNewline prefix _ h (
        All-append NoNewline (eight_digits off) _
          (All-weaken IsHex NoNewline (eight_digits off) (λ c k. k.1) (eight_digits-All off))
          (
            space,
            (
              space,
              All-append NoNewline (columns 16 0 row) _ (columns_one_line 16 0 row) (
                space,
                (
                  bar,
                  All-append NoNewline (map printable row) _ (printable_one_line row) (bar, tt),
                ),
              ),
            ),
          ))

  read_line-dump_line :
      (off : ℕ) (row : Bytes)
      → length row ≤ 16
      → All (λ b. b < 256) row
      → read_line (length prefix) (dump_line prefix off row) ≡ row
  unfolding dump_line IsHex
  read_line-dump_line off row s a =
      let tail = b' ' ∷ b'|' ∷ (map printable row ++ b'|' ∷ []) in
      let behind = b' ' ∷ (columns 16 0 row ++ tail) in
      ap (λ t. behind_blanks (break_at b' ' t).1)
        (drop-append (length prefix) 0 prefix (eight_digits off ++ (b' ' ∷ behind)) (omega arith))
      ∙ ap (λ (t : Bytes × Option Bytes). behind_blanks t.1)
          (break_at_sep b' ' (eight_digits off) behind (
            All-weaken IsHex (λ c. c ≢ b' ') (eight_digits off) (λ c k. k.0)
              (eight_digits-All off)))
      ∙ read_columns_lem 16 0 row tail s a

  read_dump_lines :
      (fuel off : ℕ) (bs : Bytes)
      → length bs ≤ fuel
      → All (λ b. b < 256) bs
      → read_dump (length prefix) (dump_lines fuel prefix off bs) ≡ bs
  unfolding dump_lines
  read_dump_lines zero off [] s a = unfold fields in refl
  read_dump_lines zero off (b ∷ bs) s a = absurd (omega arith)
  read_dump_lines (suc fuel) off [] s a = unfold fields in refl
  read_dump_lines (suc fuel) off (b ∷ bs) s a =
      let row = take 16 (b ∷ bs) in
      ap (read_lines (length prefix)) (
        fields_piece 10 [] (dump_line prefix off row)
          (dump_lines fuel prefix (off + 16) (drop 16 (b ∷ bs))) (line_one_line off row))
      ∙ ap₂ ◌++◌
          (read_line-dump_line off row (omega (arith, length-take 16 (b ∷ bs)))
            (take-All (λ c. c < 256) 16 (b ∷ bs) a))
          (read_dump_lines fuel (off + 16) (drop 16 (b ∷ bs)) (omega (arith, length-drop 15 bs))
            (drop-All (λ c. c < 256) 16 (b ∷ bs) a))
      ∙ take-append-drop 16 (b ∷ bs)

-- Nothing is lost in a dump: from its columns all bytes are read back in their order, however many there are. The
-- prefix of the lines holds no newline.
pub read_dump-hex_dump :
    (bs prefix : Bytes)
    → All (λ b. b < 256) bs
    → All (λ c. c ≢ 10) prefix
    → read_dump (length prefix) (hex_dump bs prefix) ≡ bs
unfolding hex_dump
read_dump-hex_dump bs prefix a h = read_dump_lines prefix h (length bs) 0 bs (omega arith) a
