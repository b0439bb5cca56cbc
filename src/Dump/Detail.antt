-- ===== src/Dump/Detail.antt =====
-- The control byte as the dump shows it, against the library's decoding of it.
use ax25toolkit.Base.{
  ℕ, ◌/◌, ◌^◌, ◌≡◌, refl, sym, ap, Bool, Bool-cases, inl, inr, [], ◌∷◌, ◌++◌, Bytes, ◌==◌,
  if◌then◌else◌, bit_and, arith,
}
use ax25toolkit.Base.Text.{to_string, codes}
use ax25toolkit.Frame.{
  FrameType, unknown, i_frame, s_frame, ui, sabm, disc, ua, dm, frmr, rr, rnr, rej, type_of,
  supervisory_type, unnumbered_type, ns_of, nr_of, pf_set,
}
use ax25toolkit.Dump.{
  two_digits, supervisory_text, unnumbered_text, pf_text, fields_text, ctrl_detail,
}

abbrev flag : Bool → Bytes
flag p = codes "P/F=" ++ (if p then b'1' else b'0') ∷ []

abbrev supervisory : Bytes → ℕ → Bool → Bytes
supervisory name nr p =
    codes "S/" ++ (name ++ (codes "  N(R)=" ++ (to_string nr ++ (b' ' ∷ flag p))))

abbrev unnumbered : Bytes → Bool → Bytes
unnumbered name p = codes "U/" ++ (name ++ (codes "  " ++ flag p))

-- What there is to say of a frame of a type with its numbers and its P/F bit.
abbrev pub described : FrameType → ℕ → ℕ → Bool → Bytes
described i_frame ns nr p =
    codes "I     N(S)=" ++ (to_string ns ++ (codes " N(R)=" ++ (to_string nr ++ (b' ' ∷ flag p))))
described rr ns nr p = supervisory (codes "RR") nr p
described rnr ns nr p = supervisory (codes "RNR") nr p
described rej ns nr p = supervisory (codes "REJ") nr p
described s_frame ns nr p = supervisory (codes "S?") nr p
described sabm ns nr p = unnumbered (codes "SABM") p
described disc ns nr p = unnumbered (codes "DISC") p
described ua ns nr p = unnumbered (codes "UA") p
described dm ns nr p = unnumbered (codes "DM") p
described ui ns nr p = unnumbered (codes "UI") p
described frmr ns nr p = unnumbered (codes "FRMR") p
described unknown ns nr p = unnumbered (codes "U?") p

supervisory_type_lem :
    (ss ns nr : ℕ) (p : Bool)
    → described (supervisory_type ss) ns nr p ≡ supervisory (supervisory_text ss) nr p
unfolding supervisory_type supervisory_text
supervisory_type_lem ss ns nr p = ground arith

unnumbered_type_lem :
    (u ns nr : ℕ) (p : Bool)
    → described (unnumbered_type u) ns nr p ≡ unnumbered (unnumbered_text u) p
unfolding unnumbered_type unnumbered_text
unnumbered_type_lem u ns nr p = ground arith

pf_text_lem : (ctrl : ℕ) → pf_text ctrl ≡ flag (pf_set ctrl)
unfolding pf_text pf_set
pf_text_lem ctrl = ground arith

fields_text_lem :
    (ctrl : ℕ) → fields_text ctrl ≡ described (type_of ctrl) (ns_of ctrl) (nr_of ctrl) (pf_set ctrl)
unfolding fields_text type_of ns_of nr_of
fields_text_lem ctrl = elim (Bool-cases (bit_and ctrl 0x01 == 0x00)) [
  | inl i ↦ rw (i, pf_text_lem ctrl) refl
  | inr i ↦ elim (Bool-cases (bit_and ctrl 0x03 == 0x01)) [
    | inl s ↦
        rw (i, s, pf_text_lem ctrl)
          (sym (
            supervisory_type_lem (bit_and (ctrl / 2 ^ 2) 3) (ns_of ctrl) (nr_of ctrl)
              (pf_set ctrl)))
    | inr s ↦
        rw (i, s, pf_text_lem ctrl)
          (sym (unnumbered_type_lem (bit_and ctrl 0xEF) (ns_of ctrl) (nr_of ctrl) (pf_set ctrl)))
  ]
]

-- The line that the dump prints for a control byte names the type, the numbers and the P/F bit that the library
-- decodes from it, behind its two digits and before the size of the frame.
pub ctrl_detail-type_of :
    (ctrl size : ℕ)
    → ctrl_detail ctrl size
      ≡ codes "ctrl=0x"
        ++ (two_digits ctrl
            ++ (codes "  "
                ++ (described (type_of ctrl) (ns_of ctrl) (nr_of ctrl) (pf_set ctrl)
                    ++ (codes "  (" ++ (to_string size ++ codes " bytes)")))))
unfolding ctrl_detail
ctrl_detail-type_of ctrl size =
    ap
      (λ fs.
        codes "ctrl=0x"
        ++ (two_digits ctrl
            ++ (codes "  " ++ (fs ++ (codes "  (" ++ (to_string size ++ codes " bytes)"))))))
      (fields_text_lem ctrl)
