-- ===== src/Aprs/Messages.antt =====
-- A message, read back by the station that receives it.
use ax25toolkit.Base.{
  ℕ, zero, suc, ◌+◌, ◌-◌, ◌≤◌, ◌≡◌, refl, ◌≢◌, ◌∙◌, ap, true, false, [], ◌∷◌, ◌++◌, replicate,
  Bytes, ltb, All, All-append, All-weaken, none, some, take, take_all, length, length-append, arith,
}
use ax25toolkit.Base.Text.{to_string, c_string, is_digit}
use ax25toolkit.Base.Text.Decimal.{IsDigit, to_string-All}
use ax25toolkit.Base.Text.Fields.{break_at_sep}
use ax25toolkit.Base.Text.Trim.{trim_padded, trim_bare, IsTrim, Pad}
use ax25toolkit.Aprs.{
  Msg, addressee, three_digits, make_msg, is_blank, break_last, without_seq, strip_seq, parse_rest,
  parse_msg,
}

-- Characters of a C string, without blanks around them.
abbrev pub IsPlain : Bytes → Type 0
IsPlain cs = All (λ c. c ≢ 0) cs × IsTrim is_blank cs

c_string_plain : (cs : Bytes) → All (λ c. c ≢ 0) cs → c_string cs ≡ cs
unfolding c_string
c_string_plain [] h = refl
c_string_plain (c ∷ cs) h = ground (arith, c_string_plain cs h.1)

length-replicate : (n c : ℕ) → length (replicate n c) ≡ n
length-replicate zero c = refl
length-replicate (suc n) c = ap suc (length-replicate n c)

replicate-All : (P : ℕ → Type 0) (n c : ℕ) → P c → All P (replicate n c)
replicate-All P zero c h = tt
replicate-All P (suc n) c h = (h, replicate-All P n c h)

abbrev spaces : Bytes → Bytes
spaces dest = replicate (9 - length dest) b' '

length-padded : (dest : Bytes) → length dest ≤ 9 → length (dest ++ spaces dest) ≡ 9
length-padded dest h =
    omega (arith, length-append dest (spaces dest), length-replicate (9 - length dest) b' ')

addressee_lem :
    (dest : Bytes) → All (λ c. c ≢ 0) dest → length dest ≤ 9 → addressee dest ≡ dest ++ spaces dest
unfolding addressee
addressee_lem dest h k =
    rw (c_string_plain dest h)
      (take_all 9 (dest ++ spaces dest) (omega (arith, length-padded dest k)))

three_digits-All : (n : ℕ) → All IsDigit (three_digits n)
unfolding three_digits is_digit
three_digits-All n =
    All-append IsDigit (replicate (3 - length (to_string n)) b'0') (to_string n)
      (replicate-All IsDigit (3 - length (to_string n)) b'0' (ground arith)) (to_string-All n)

break_last-none : (sep : ℕ) (cs : Bytes) → All (λ c. c ≢ sep) cs → break_last sep cs ≡ none
unfolding break_last
break_last-none sep [] h = refl
break_last-none sep (c ∷ cs) h = ground (arith, break_last-none sep cs h.1)

break_last_sep :
    (sep : ℕ) (before behind : Bytes)
    → All (λ c. c ≢ sep) behind
    → break_last sep (before ++ (sep ∷ behind)) ≡ some (before, behind)
unfolding break_last
break_last_sep sep [] behind h = ground (arith, break_last-none sep behind h)
break_last_sep sep (c ∷ before) behind h = ground (arith, break_last_sep sep before behind h)

digit_no_brace : (c : ℕ) → IsDigit c → (c ≢ b'{') × (c ≢ b'}')
unfolding is_digit
digit_no_brace c h = ground arith

-- What stands behind the addressee.
abbrev body : Bytes → ℕ → Bytes
body text sent = text ++ (b'{' ∷ (three_digits (suc sent) ++ b'}' ∷ []))

strip_seq-body :
    (text : Bytes) (sent : ℕ) (m : Msg)
    → IsTrim is_blank text
    → strip_seq (body text sent) m ≡ record m { text = text; seq = three_digits (suc sent) }
unfolding strip_seq
strip_seq-body text sent m h =
    let digits = three_digits (suc sent) in
    let plain = three_digits-All (suc sent) in
    let no_open =
      All-append (λ c. c ≢ b'{') digits (b'}' ∷ [])
        (All-weaken IsDigit (λ c. c ≢ b'{') digits (λ c k. (digit_no_brace c k).0) plain)
        (ground arith) in
    let no_close =
      All-weaken IsDigit (λ c. c ≢ b'}') digits (λ c k. (digit_no_brace c k).1) plain in
    ap (λ o. without_seq (body text sent) o m)
      (break_last_sep b'{' text (digits ++ b'}' ∷ []) no_open)
    ∙ unfold without_seq in
      (rw (break_at_sep b'}' digits [] no_close, trim_bare is_blank text h) refl)

spaces_Pad : (n : ℕ) → Pad is_blank (replicate n b' ')
spaces_Pad n = replicate-All (λ c. is_blank c ≡ true) n b' ' refl

module _ (dest text : Bytes) (sent : ℕ) (d : IsPlain dest) (short : length dest ≤ 9)
    (t : IsPlain text) (fits : length text + length (three_digits (suc sent)) ≤ 242) where
  abbrev name : Bytes
  name = dest ++ spaces dest

  abbrev info : Bytes
  info = b':' ∷ (name ++ (b':' ∷ body text sent))

  size : length info ≡ 13 + (length text + length (three_digits (suc sent)))
  size =
      let digits = three_digits (suc sent) in
      omega (
        arith,
        length-append name (b':' ∷ body text sent),
        length-padded dest short,
        length-append text (b'{' ∷ (digits ++ b'}' ∷ [])),
        length-append digits (b'}' ∷ []),
      )

  made : (make_msg dest text sent).0 ≡ info
  unfolding make_msg
  made =
      let behind = b'{' ∷ (three_digits (suc sent) ++ b'}' ∷ []) in
      ap (λ a. take 255 (b':' ∷ (a ++ (b':' ∷ (c_string text ++ behind)))))
        (addressee_lem dest d.0 short)
      ∙ ap (λ a. take 255 (b':' ∷ (name ++ (b':' ∷ (a ++ behind))))) (c_string_plain text t.0)
      ∙ take_all 255 info (omega (arith, size))

  parsed :
      (m : Msg)
      → All (λ c. c ≢ b':') dest
      → parse_msg info m ≡ some (record { to = dest; text = text; seq = three_digits (suc sent) })
  unfolding parse_msg parse_rest
  parsed m no_colon =
      let colons =
        All-append (λ c. c ≢ b':') dest (spaces dest) no_colon
          (replicate-All (λ c. c ≢ b':') (9 - length dest) b' ' (ground arith)) in
      let long : ltb (length info) 11 ≡ false = ground (arith, size) in
      let narrow : ltb 9 (length name) ≡ false = ground (arith, length-padded dest short) in
      rw
        (
          long,
          break_at_sep b':' name (body text sent) colons,
          narrow,
          trim_padded is_blank [] dest (spaces dest) tt (spaces_Pad _) d.1,
        )
        (ap some (strip_seq-body text sent (record m { to = dest }) t.1))

-- A message that fits the buffer is read back as it was made: its addressee without the padding, its text and
-- its number in at least three digits. The addressee has at most nine characters and no colon, neither
-- it nor the text has a NUL or blanks at its ends, and text and number take at most 242 characters.
pub parse_msg-make_msg :
    (dest text : Bytes) (sent : ℕ) (m : Msg)
    → IsPlain dest
    → length dest ≤ 9
    → All (λ c. c ≢ b':') dest
    → IsPlain text
    → length text + length (three_digits (suc sent)) ≤ 242
    → parse_msg (make_msg dest text sent).0 m
      ≡ some (record { to = dest; text = text; seq = three_digits (suc sent) })
parse_msg-make_msg dest text sent m d short no_colon t fits =
    ap (λ i. parse_msg i m) (made dest text sent d short t fits)
    ∙ parsed dest text sent d short t fits m no_colon
