-- ===== src/Aprs.antt =====
-- Namespace `aprs` of lib/ax25lib.hpp and lib/ax25lib.cpp: messages, the test for positions, and the text of a
-- frame's information. The count of the messages sent, `g_aprs_seq`, is passed on.
pub mod Messages
pub mod Position
use ax25toolkit.Base.{
  ℕ, zero, suc, ◌-◌, Bool, true, false, ◌&&◌, ◌||◌, not, List, [], ◌∷◌, ◌++◌, map, replicate, Bytes,
  ◌==◌, ltb, if◌then◌else◌, Option, none, some, is_empty, take, length,
}
use ax25toolkit.Base.Text.{to_string, break_at, c_string}
use ax25toolkit.Base.Text.Trim.{trim}
use ax25toolkit.Frame.{Frame}

pub record Msg : Type 0 where
  pub to : Bytes
  pub text : Bytes
  pub seq : Bytes

-- `%-9s` into a buffer of 10 bytes.
unfoldable pub addressee : Bytes → Bytes
unfolding c_string
addressee dest = let name = c_string dest in take 9 (name ++ replicate (9 - length name) b' ')

-- `%03d`
unfoldable pub three_digits : ℕ → Bytes
unfolding to_string
three_digits n = replicate (3 - length (to_string n)) b'0' ++ to_string n

-- The text, and the count after it; the buffer holds 255 characters.
unfoldable pub make_msg : Bytes → Bytes → ℕ → Bytes × ℕ
unfolding addressee three_digits c_string
make_msg dest text sent = (
  take 255 (
      b':'
      ∷ (addressee dest
          ++ (b':' ∷ (c_string text ++ (b'{' ∷ (three_digits (suc sent) ++ b'}' ∷ [])))))),
  suc sent,
)

abbrev pub is_blank : ℕ → Bool
is_blank c = c == b' ' || c == 9

-- `rfind`: what stands before and behind the last `sep`.
unfoldable pub break_last : ℕ → Bytes → Option (Bytes × Bytes)
break_last sep [] = none
break_last sep (c ∷ cs) = elim (break_last sep cs) [
  | none ↦ if c == sep then some ([], cs) else none
  | some (before, behind) ↦ some (c ∷ before, behind)
]

without_seq : Bytes → Option (Bytes × Bytes) → Msg → Msg
unfolding break_at trim
without_seq text none m = record m { text = trim is_blank text }
without_seq text (some (before, behind)) m = record m {
  text = trim is_blank before;
  seq = (break_at b'}' behind).0;
}

-- `{seq}` stripped from the text.
unfoldable pub strip_seq : Bytes → Msg → Msg
unfolding break_last without_seq
strip_seq text m = without_seq text (break_last b'{' text) m

parse_rest : Bytes × Option Bytes → Msg → Option Msg
unfolding strip_seq trim
parse_rest (to, none) m = none
parse_rest (to, some text) m =
    if ltb 9 (length to) then none else some (strip_seq text (record m { to = trim is_blank to }))

-- `parse_msg(info, m)`: `none` is the result false, which leaves `m`.
unfoldable pub parse_msg : Bytes → Msg → Option Msg
unfolding parse_rest break_at
parse_msg [] m = none
parse_msg (c ∷ cs) m =
    if ltb (length (c ∷ cs)) 11 || not (c == b':') then none else parse_rest (break_at b':' cs) m

unfoldable pub is_pos : Bytes → Bool
is_pos [] = false
is_pos (c ∷ cs) = c == b'!' || c == b'=' || c == b'@' || c == b'/' || c == b'`'

unfoldable pub trim_lines : Bytes → Bytes
trim_lines [] = []
trim_lines (c ∷ cs) =
    let rest = trim_lines cs in if (c == 13 || c == 10) && is_empty rest then [] else c ∷ rest

unfoldable pub info_str : Frame → Bytes
unfolding trim_lines
info_str f =
    trim_lines
      (map (λ c. if ltb c 0x20 && (not (c == 13) && not (c == 10)) then b'.' else c) f.info)
