-- ===== src/Hdlc/Encoding.antt =====
-- The levels that the encoder puts out, as the bits that they stand for (kiss_modem/hdlc.cpp), and
-- the way back, `raw_bit == prev_demod_bit_` in `nudge_pll` of kiss_modem/modem.cpp.
use ax25toolkit.Base.{
  ℕ, zero, suc, ◌+◌, ◌≡◌, refl, ap, sym, subst, ◌∙◌, arith, Bool, true, false, not, List, [], ◌∷◌,
  ◌++◌, append_assoc, append-nil, Bytes, ◌==◌, ==_iff, Bool-cases, inl, inr, if◌then◌else◌,
}
use ax25toolkit.Hdlc.{
  Encoder, send_bit_nrzi, byte_bits, flag, send_bits, send_flag, send_stuffed, send_data_bits,
  send_byte, send_bytes, send_flags, fcs_bytes, encode,
}
use ax25toolkit.Hdlc.Stuffing.{stuff, all_bits, flags}

-- The line level after a bit: a zero turns it over.
abbrev toggled : Bool → Bool → Bool
toggled level bit = if bit then level else not level

unfoldable levels_of : Bool → List Bool → List Bool
levels_of level [] = []
levels_of level (b ∷ bs) = toggled level b ∷ levels_of (toggled level b) bs

unfoldable level_after : Bool → List Bool → Bool
level_after level [] = level
level_after level (b ∷ bs) = level_after (toggled level b) bs

-- The bits that a receiver makes of the levels, from the level before them.
unfoldable pub nrzi_decode : Bool → List Bool → List Bool
nrzi_decode prev [] = []
nrzi_decode prev (l ∷ ls) = (if l then prev else not prev) ∷ nrzi_decode l ls

nrzi_decode-levels_of :
    (level : Bool) (bits : List Bool) → nrzi_decode level (levels_of level bits) ≡ bits
unfolding nrzi_decode levels_of
nrzi_decode-levels_of level [] = refl
nrzi_decode-levels_of true (true ∷ bs) = rw (nrzi_decode-levels_of true bs) refl
nrzi_decode-levels_of true (false ∷ bs) = rw (nrzi_decode-levels_of false bs) refl
nrzi_decode-levels_of false (true ∷ bs) = rw (nrzi_decode-levels_of false bs) refl
nrzi_decode-levels_of false (false ∷ bs) = rw (nrzi_decode-levels_of true bs) refl

-- The encoder has put out the bits.
record Sent (bits : List Bool) (e f : Encoder) : Type 0 where
  more : f.levels ≡ e.levels ++ levels_of e.nrzi_state bits
  level : f.nrzi_state ≡ level_after e.nrzi_state bits

Sent-none : (e : Encoder) → Sent [] e e
unfolding levels_of level_after
Sent-none e = record { more = sym (append-nil e.levels); level = refl }

Sent-bit :
    (b : Bool) (bs : List Bool) (e f : Encoder) → Sent bs (send_bit_nrzi b e) f → Sent (b ∷ bs) e f
unfolding levels_of level_after send_bit_nrzi
Sent-bit b bs e f s = record {
  more =
      s.more
      ∙ append_assoc e.levels (toggled e.nrzi_state b ∷ []) (levels_of (toggled e.nrzi_state b) bs);
  level = s.level;
}

levels_of-append :
    (l : Bool) (xs ys : List Bool)
    → levels_of l (xs ++ ys) ≡ levels_of l xs ++ levels_of (level_after l xs) ys
unfolding levels_of level_after
levels_of-append l [] ys = refl
levels_of-append l (x ∷ xs) ys = rw (levels_of-append (toggled l x) xs ys) refl

level_after-append :
    (l : Bool) (xs ys : List Bool) → level_after l (xs ++ ys) ≡ level_after (level_after l xs) ys
unfolding level_after
level_after-append l [] ys = refl
level_after-append l (x ∷ xs) ys = level_after-append (toggled l x) xs ys

Sent-both : (xs ys : List Bool) (e f g : Encoder) → Sent xs e f → Sent ys f g → Sent (xs ++ ys) e g
Sent-both xs ys e f g s t = record {
  more =
      t.more
      ∙ rw (s.more, s.level, levels_of-append e.nrzi_state xs ys)
          (append_assoc e.levels (levels_of e.nrzi_state xs)
            (levels_of (level_after e.nrzi_state xs) ys));
  level = t.level ∙ rw (s.level, level_after-append e.nrzi_state xs ys) refl;
}

send_bits-Sent : (bits : List Bool) (e : Encoder) → Sent bits e (send_bits bits e)
unfolding send_bits
send_bits-Sent [] e = Sent-none e
send_bits-Sent (b ∷ bs) e =
    Sent-bit b bs e (send_bits bs (send_bit_nrzi b e)) (send_bits-Sent bs (send_bit_nrzi b e))

-- `Sent-bit` for an encoder that differs in the count of ones.
Sent-next :
    (b : Bool) (bs : List Bool) (e d f : Encoder)
    → d.levels ≡ (send_bit_nrzi b e).levels
    → d.nrzi_state ≡ (send_bit_nrzi b e).nrzi_state
    → Sent bs d f
    → Sent (b ∷ bs) e f
Sent-next b bs e d f l n s =
    Sent-bit b bs e f (record { more = s.more ∙ rw (l, n) refl; level = s.level ∙ rw n refl })

send_data_bits-Sent :
    (bits : List Bool) (k : ℕ) (e : Encoder)
    → e.ones_count ≡ k
    → Sent (stuff k bits) e (send_data_bits bits e)
unfolding send_data_bits send_stuffed send_bit_nrzi stuff
send_data_bits-Sent [] k e h = Sent-none e
send_data_bits-Sent (false ∷ bs) k e h =
    let d = send_stuffed false e in
    Sent-next false (stuff 0 bs) e d (send_data_bits bs d) refl refl
      (send_data_bits-Sent bs 0 d refl)
send_data_bits-Sent (true ∷ bs) k e h =
    let d = record (send_bit_nrzi true e) { ones_count = e.ones_count + 1 } in
    elim (Bool-cases (k == 4)) [
      | inl full ↦
          let z = record (send_bit_nrzi false d) { ones_count = 0 } in
          let five : (e.ones_count + 1 == 5) ≡ true =
            (==_iff (e.ones_count + 1) 5).1 (omega (arith, (==_iff k 4).0 full)) in
          rw (full, five)
            (Sent-next true (false ∷ stuff 0 bs) e d (send_data_bits bs z) refl refl (
              Sent-next false (stuff 0 bs) d z (send_data_bits bs z) refl refl
                (send_data_bits-Sent bs 0 z refl)))
      | inr more ↦
          let few : (e.ones_count + 1 == 5) ≡ false = ground (arith, more) in
          rw (more, few)
            (Sent-next true (stuff (suc k) bs) e d (send_data_bits bs d) refl refl
              (send_data_bits-Sent bs (suc k) d (omega arith)))
    ]

send_data_bits-append :
    (xs ys : List Bool) (e : Encoder)
    → send_data_bits (xs ++ ys) e ≡ send_data_bits ys (send_data_bits xs e)
unfolding send_data_bits
send_data_bits-append [] ys e = refl
send_data_bits-append (x ∷ xs) ys e = send_data_bits-append xs ys (send_stuffed x e)

send_no_bits : (e : Encoder) → e ≡ send_data_bits [] e
unfolding send_data_bits
send_no_bits e = refl

send_bytes_lem : (bs : Bytes) (e : Encoder) → send_bytes bs e ≡ send_data_bits (all_bits bs) e
unfolding send_bytes send_byte
send_bytes_lem [] e = send_no_bits e
send_bytes_lem (b ∷ bs) e =
    send_bytes_lem bs (send_data_bits (byte_bits b) e)
    ∙ sym (send_data_bits-append (byte_bits b) (all_bits bs) e)

send_bytes-append :
    (xs ys : Bytes) (e : Encoder) → send_bytes ys (send_bytes xs e) ≡ send_bytes (xs ++ ys) e
unfolding send_bytes
send_bytes-append [] ys e = refl
send_bytes-append (x ∷ xs) ys e = send_bytes-append xs ys (send_byte x e)

send_flags-Sent : (n : ℕ) (e : Encoder) → Sent (flags n) e (send_flags n e)
unfolding send_flags send_flag
send_flags-Sent zero e = Sent-none e
send_flags-Sent (suc n) e =
    let d = send_bits (byte_bits flag) (record e { ones_count = 0 }) in
    let s = send_bits-Sent (byte_bits flag) (record e { ones_count = 0 }) in
    Sent-both (byte_bits flag) (flags n) e d (send_flags n d)
      (record { more = s.more; level = s.level }) (send_flags-Sent n d)

-- What the levels of a frame stand for: the preamble's flags, the bytes and their check sequence,
-- least significant bit first with a zero behind any five ones, and the postamble's flags.
pub nrzi_decode-encode :
    (bytes : Bytes) (preamble postamble : ℕ)
    → nrzi_decode false (encode bytes preamble postamble)
      ≡ flags preamble ++ (stuff 0 (all_bits (bytes ++ fcs_bytes bytes)) ++ flags postamble)
unfolding encode
nrzi_decode-encode bytes preamble postamble =
    let e0 : Encoder = record { nrzi_state = false; ones_count = 0; levels = [] } in
    let e1 = send_flags preamble e0 in
    let e1' = record e1 { ones_count = 0 } in
    let sent = bytes ++ fcs_bytes bytes in
    let e3 = send_bytes (fcs_bytes bytes) (send_bytes bytes e1') in
    let e4 = send_flags postamble e3 in
    let body = stuff 0 (all_bits sent) in
    let b : Sent body e1' (send_data_bits (all_bits sent) e1') =
      send_data_bits-Sent (all_bits sent) 0 e1' refl in
    let b' : Sent body e1' e3 =
      subst (λ (x : Encoder). Sent body e1' x)
        (sym (send_bytes-append bytes (fcs_bytes bytes) e1' ∙ send_bytes_lem sent e1')) b in
    let c : Sent (body ++ flags postamble) e1 e4 =
      Sent-both body (flags postamble) e1 e3 e4 (record { more = b'.more; level = b'.level })
        (send_flags-Sent postamble e3) in
    let w =
      Sent-both (flags preamble) (body ++ flags postamble) e0 e1 e4 (send_flags-Sent preamble e0)
        c in
    ap (λ (x : List Bool). nrzi_decode false x) w.more ∙ nrzi_decode-levels_of false _
