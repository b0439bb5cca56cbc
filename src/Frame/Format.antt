-- ===== src/Frame/Format.antt =====
-- `Frame::format` of lib/ax25lib.cpp, the line that a monitor prints for a frame.
use ax25toolkit.Base.{
  ℕ, ◌+◌, ◌-◌, ◌/◌, ◌%◌, Bool, true, not, ◌&&◌, ◌||◌, List, [], ◌∷◌, ◌++◌, Bytes, ◌==◌, ltb,
  if◌then◌else◌, is_empty,
}
use ax25toolkit.Base.Text.{to_string, codes}
use ax25toolkit.Addr.{Addr, str}
use ax25toolkit.Frame.{
  Frame, FrameType, unknown, i_frame, s_frame, ui, sabm, disc, ua, dm, frmr, rr, rnr, rej, type,
  type_of, ns_of, nr_of, get_ns, get_nr,
}

-- `ts`
unfoldable pub type_text : FrameType → Bytes
type_text i_frame = codes "I"
type_text s_frame = codes "S"
type_text ui = codes "UI"
type_text sabm = codes "SABM"
type_text disc = codes "DISC"
type_text ua = codes "UA"
type_text dm = codes "DM"
type_text frmr = codes "FRMR"
type_text rr = codes "RR"
type_text rnr = codes "RNR"
type_text rej = codes "REJ"
type_text unknown = codes "?"

unfoldable pub digi_text : List Addr → Bytes
unfolding str
digi_text [] = []
digi_text (d ∷ ds) = b',' ∷ (str d ++ digi_text ds)

-- An upper-case digit of base 16.
abbrev pub hex_digit : ℕ → ℕ
hex_digit n = if ltb n 10 then b'0' + n else b'A' + (n - 10)

abbrev pub hex_byte : ℕ → Bytes
hex_byte b = hex_digit (b / 16) ∷ hex_digit (b % 16) ∷ []

-- A byte that may stand in printed text.
abbrev pub is_plain : ℕ → Bool
is_plain b = not (ltb b 0x20) || (b == b'\r' || b == b'\n' || b == b'\t')

unfoldable pub is_text : Bytes → Bool
is_text [] = true
is_text (b ∷ bs) = is_plain b && is_text bs

unfoldable pub trim_line : Bytes → Bytes
trim_line [] = []
trim_line (c ∷ cs) =
    let rest = trim_line cs in if (c == b'\r' || c == b'\n') && is_empty rest then [] else c ∷ rest

unfoldable pub hex_text : Bytes → Bytes
hex_text [] = []
hex_text (b ∷ bs) = b' ' ∷ (hex_byte b ++ hex_text bs)

unfoldable pub info_text : Bytes → Bytes
unfolding is_text trim_line hex_text
info_text info =
    if is_empty info
    then []
    else if is_text info
    then codes " | " ++ trim_line info
    else codes " | [HEX:" ++ (hex_text info ++ (b']' ∷ []))

-- N(S) and N(R) of the types that carry them.
unfoldable pub numbers_text : Frame → Bytes
unfolding type_of ns_of nr_of to_string
numbers_text f = elim (type f) [
  | i_frame ↦ codes " Ns=" ++ (to_string (get_ns f) ++ (codes " Nr=" ++ to_string (get_nr f)))
  | rr ↦ codes " Nr=" ++ to_string (get_nr f)
  | rnr ↦ codes " Nr=" ++ to_string (get_nr f)
  | rej ↦ codes " Nr=" ++ to_string (get_nr f)
  | _ ↦ []
]

unfoldable pub format : Frame → Bytes
unfolding type_of str digi_text type_text numbers_text info_text
format f =
    str f.src
    ++ (b'>'
        ∷ (str f.dest
            ++ (digi_text f.digis
                ++ (codes " ["
                    ++ (type_text (type f)
                        ++ (b']'
                            ∷ (numbers_text f
                                ++ ((if f.has_pid then codes " PID=0x" ++ hex_byte f.pid else [])
                                    ++ info_text f.info))))))))
