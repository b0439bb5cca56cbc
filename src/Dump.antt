-- ===== src/Dump.antt =====
-- lib/ax25dump.hpp: `hex_dump` and `ctrl_detail`.
pub mod Detail
pub mod Undone
use ax25toolkit.Base.{
  ℕ, zero, suc, ◌+◌, ◌-◌, ◌/◌, ◌%◌, ◌^◌, Bool, true, false, not, ◌&&◌, List, [], ◌∷◌, ◌++◌, map,
  Bytes, ◌==◌, ltb, leb, if◌then◌else◌, is_empty, length, take, drop, replicate, bit_and,
}
use ax25toolkit.Base.Text.{to_string, codes}

-- A lower-case digit of base 16.
abbrev pub digit : ℕ → ℕ
digit n = if ltb n 10 then b'0' + n else b'a' + (n - 10)

-- `setw(2)` with `setfill('0')`.
abbrev pub two_digits : ℕ → Bytes
two_digits b = digit (b / 16) ∷ digit (b % 16) ∷ []

-- The digits of `n` in base 16 before `acc`; the fuel is above their number.
unfoldable pub hex_digits : ℕ → ℕ → Bytes → Bytes
hex_digits zero n acc = acc
hex_digits (suc fuel) n acc =
    let rest = hex_digits fuel (n / 16) (digit (n % 16) ∷ acc) in
    if ltb n 16 then digit n ∷ acc else rest

-- `setw(8)` with `setfill('0')`.
unfoldable pub eight_digits : ℕ → Bytes
unfolding hex_digits
eight_digits n = let ds = hex_digits (suc n) n [] in replicate (8 - length ds) b'0' ++ ds

abbrev pub gap : ℕ → Bytes
gap i = if i == 8 then b' ' ∷ [] else []

-- The columns from `i` on, `k` of them.
unfoldable pub columns : ℕ → ℕ → Bytes → Bytes
columns zero i row = []
columns (suc k) i [] = gap i ++ (b' ' ∷ b' ' ∷ b' ' ∷ columns k (suc i) [])
columns (suc k) i (b ∷ bs) = gap i ++ (two_digits b ++ (b' ' ∷ columns k (suc i) bs))

abbrev pub printable : ℕ → ℕ
printable b = if leb 0x20 b && ltb b 0x7F then b else b'.'

-- One round of the loop, for the bytes of its line, without the newline.
unfoldable pub dump_line : Bytes → ℕ → Bytes → Bytes
unfolding eight_digits columns
dump_line prefix off row =
    prefix
    ++ (eight_digits off
        ++ (b' ' ∷ b' ' ∷ (columns 16 0 row ++ (b' ' ∷ b'|' ∷ (map printable row ++ b'|' ∷ [])))))

-- The loop, with the bytes from `off` on.
unfoldable pub dump_lines : ℕ → Bytes → ℕ → Bytes → Bytes
unfolding dump_line
dump_lines zero prefix off data_ = []
dump_lines (suc fuel) prefix off data_ =
    let rest = dump_lines fuel prefix (off + 16) (drop 16 data_) in
    if is_empty data_ then [] else dump_line prefix off (take 16 data_) ++ (10 ∷ rest)

unfoldable pub hex_dump : Bytes → Bytes → Bytes
unfolding dump_lines
hex_dump data_ prefix = dump_lines (length data_) prefix 0 data_

-- `st`
unfoldable pub supervisory_text : ℕ → Bytes
supervisory_text ss =
    if ss == 0
    then codes "RR"
    else if ss == 1
    then codes "RNR"
    else if ss == 2
    then codes "REJ"
    else codes "S?"

-- `ut`, for the control byte without its P/F bit.
unfoldable pub unnumbered_text : ℕ → Bytes
unnumbered_text u =
    if u == 0x2F
    then codes "SABM"
    else if u == 0x43
    then codes "DISC"
    else if u == 0x63
    then codes "UA"
    else if u == 0x0F
    then codes "DM"
    else if u == 0x03
    then codes "UI"
    else if u == 0x87
    then codes "FRMR"
    else codes "U?"

unfoldable pub pf_text : ℕ → Bytes
pf_text ctrl = codes "P/F=" ++ (if bit_and ctrl 0x10 == 0 then b'0' else b'1') ∷ []

unfoldable pub fields_text : ℕ → Bytes
unfolding supervisory_text unnumbered_text pf_text to_string
fields_text ctrl =
    if bit_and ctrl 0x01 == 0x00
    then codes "I     N(S)="
      ++ (to_string (bit_and (ctrl / 2) 7)
          ++ (codes " N(R)=" ++ (to_string (bit_and (ctrl / 2 ^ 5) 7) ++ (b' ' ∷ pf_text ctrl))))
    else if bit_and ctrl 0x03 == 0x01
    then codes "S/"
      ++ (supervisory_text (bit_and (ctrl / 2 ^ 2) 0x03)
          ++ (codes "  N(R)=" ++ (to_string (bit_and (ctrl / 2 ^ 5) 7) ++ (b' ' ∷ pf_text ctrl))))
    else codes "U/" ++ (unnumbered_text (bit_and ctrl 0xEF) ++ (codes "  " ++ pf_text ctrl))

unfoldable pub ctrl_detail : ℕ → ℕ → Bytes
unfolding fields_text to_string
ctrl_detail ctrl frame_bytes =
    codes "ctrl=0x"
    ++ (two_digits ctrl
        ++ (codes "  "
            ++ (fields_text ctrl ++ (codes "  (" ++ (to_string frame_bytes ++ codes " bytes)")))))
