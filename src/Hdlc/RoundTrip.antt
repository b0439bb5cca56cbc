-- ===== src/Hdlc/RoundTrip.antt =====
-- A frame between flags, read back by the decoder.
use ax25toolkit.Base.{
  ℕ, zero, suc, ◌+◌, ◌-◌, ◌*◌, ◌/◌, ◌%◌, ◌^◌, ◌<◌, ◌≤◌, ◌≡◌, refl, ap, sym, subst, ◌∙◌, arith, Bool,
  true, false, List, [], ◌∷◌, ◌++◌, append_assoc, append-nil, Bytes, All, ltb, leb, ==_iff, length,
  length-append, take, take-append, get_or, get_or-append, if◌then◌else◌, bit_and, bit_or, bit_xor,
}
use ax25toolkit.Base.Bits.{holds_below, holds_below-lt}
use ax25toolkit.Base.Words.{double, bit_or-double, bit_and_byte, bit_xor-lt}
use ax25toolkit.Hdlc.{
  Decoder, init, receive_bit, receive_one, receive_zero, accumulate, receive, at_flag, checked,
  byte_bits, max_frame, flag, fcs_loop, fcs_calc, fcs_bytes, encode,
}
use ax25toolkit.Hdlc.Encoding.{nrzi_decode, nrzi_decode-encode}
use ax25toolkit.Hdlc.Table.{ccitt_table}
use ax25toolkit.Hdlc.Sync.{bit_or_top, Partial, Synced, add_bit, zero_bit, one_bit}
use ax25toolkit.Hdlc.Stuffing.{
  stuff, ones_after, receive_stuffed, receive-append, holding, all_bits, flags, IsByte,
  add_bits_bytes,
}

table_fits : holds_below 256 (λ i. ltb (get_or ccitt_table i 0) 65536) ≡ true
unfolding holds_below ccitt_table
table_fits = refl

fcs_loop-lt : (bs : Bytes) (crc : ℕ) → crc < 65536 → fcs_loop crc bs < 65536
unfolding fcs_loop
fcs_loop-lt [] crc h = h
fcs_loop-lt (b ∷ bs) crc h =
    let i = bit_and (bit_xor crc b) 0xff in
    let fits : get_or ccitt_table i 0 < 65536 =
      ground
        (arith, holds_below-lt 256 _ i table_fits (omega (arith, bit_and_byte (bit_xor crc b)))) in
    fcs_loop-lt bs (bit_xor (crc / 2 ^ 8) (get_or ccitt_table i 0))
      (bit_xor-lt 16 (crc / 2 ^ 8) (get_or ccitt_table i 0) (omega arith) fits)

-- The check sequence has 16 bits.
pub fcs_calc-lt : (bs : Bytes) → fcs_calc bs < 65536
unfolding fcs_calc
fcs_calc-lt bs =
    bit_xor-lt 16 (fcs_loop 0xffff bs) 0xffff (fcs_loop-lt bs 0xffff (omega arith)) (omega arith)

bit_or_bytes : (q r : ℕ) → r < 256 → bit_or (q * 256) r ≡ q * 256 + r
bit_or_bytes q r h =
    let e : double 8 q ≡ q * 256 = omega arith in
    subst (λ (x : ℕ). bit_or x r ≡ x + r) e (bit_or-double 8 q r h)

received_is :
    (fcs : ℕ) → fcs < 65536 → bit_or (bit_and (fcs / 2 ^ 8) 0xff * 2 ^ 8) (bit_and fcs 0xff) ≡ fcs
received_is fcs h =
    rw (bit_and_byte fcs, bit_and_byte (fcs / 2 ^ 8))
      (bit_or_bytes ((fcs / 2 ^ 8) % 256) (fcs % 256) (omega arith) ∙ omega arith)

-- A frame with its own check sequence passes the check.
pub checked_lem : (bytes : Bytes) → checked (bytes ++ fcs_bytes bytes) ≡ bytes ∷ []
unfolding checked
checked_lem bytes =
    let fcs = fcs_calc bytes in
    let n = length bytes in
    let len : length (bytes ++ fcs_bytes bytes) ≡ n + 2 =
      omega (arith, length-append bytes (fcs_bytes bytes)) in
    let low : get_or (bytes ++ fcs_bytes bytes) (n + 2 - 2) 0 ≡ bit_and fcs 0xff =
      get_or-append (n + 2 - 2) 0 bytes (fcs_bytes bytes) 0 (omega arith) in
    let high : get_or (bytes ++ fcs_bytes bytes) (n + 2 - 1) 0 ≡ bit_and (fcs / 2 ^ 8) 0xff =
      get_or-append (n + 2 - 1) 1 bytes (fcs_bytes bytes) 0 (omega arith) in
    let front : take (n + 2 - 2) (bytes ++ fcs_bytes bytes) ≡ bytes =
      take-append (n + 2 - 2) bytes (fcs_bytes bytes) (omega arith) in
    rw (len, low, high, front, received_is fcs (fcs_calc-lt bytes), (==_iff fcs fcs).1 refl) refl

-- What the decoder hands on at a flag for the buffer.
abbrev handed : Bytes → List Bytes
handed buf = if leb 17 (length buf) then checked buf else []

sixth_one :
    (d : Decoder) (a : Partial)
    → Synced 5 d a
    → a.olen < 7
    → let r = receive_bit true d in
      (r.1 ≡ []) × (r.0.pat_det / 2 ≡ 126) × (r.0.collecting ≡ true) × (r.0.frame_buf ≡ a.buf)
unfolding receive_bit receive_one
sixth_one d a s h = ground (arith, bit_or_top (d.pat_det / 2))

-- The decoder behind a flag.
abbrev started : Decoder
started = record init { pat_det = flag; collecting = true }

closing_zero :
    (d : Decoder) (buf : Bytes)
    → d.pat_det / 2 ≡ 126
    → d.collecting ≡ true
    → d.frame_buf ≡ buf
    → receive_bit false d ≡ (started, handed buf)
unfolding receive_bit at_flag
closing_zero d buf p c b = ground arith

-- A flag behind whole bytes, with up to four ones before it.
closing_flag :
    (k : ℕ) (d : Decoder) (buf : Bytes)
    → k < 5
    → Synced k d (holding buf)
    → length buf ≤ max_frame
    → receive (byte_bits flag) d ≡ (started, handed buf)
unfolding receive add_bit
closing_flag k d buf h s room =
    let a0 = add_bit false (holding buf) in
    let q0 = zero_bit k d (holding buf) h s (omega arith) in
    let d0 = (receive_bit false d).0 in
    let a1 = add_bit true a0 in
    let q1 = one_bit 0 d0 a0 (omega arith) q0.0 (omega arith) in
    let d1 = (receive_bit true d0).0 in
    let a2 = add_bit true a1 in
    let q2 = one_bit 1 d1 a1 (omega arith) q1.0 (omega arith) in
    let d2 = (receive_bit true d1).0 in
    let a3 = add_bit true a2 in
    let q3 = one_bit 2 d2 a2 (omega arith) q2.0 (omega arith) in
    let d3 = (receive_bit true d2).0 in
    let a4 = add_bit true a3 in
    let q4 = one_bit 3 d3 a3 (omega arith) q3.0 (omega arith) in
    let d4 = (receive_bit true d3).0 in
    let a5 = add_bit true a4 in
    let q5 = one_bit 4 d4 a4 (omega arith) q4.0 (omega arith) in
    let d5 = (receive_bit true d4).0 in
    let q6 = sixth_one d5 a5 q5.0 (omega arith) in
    let d6 = (receive_bit true d5).0 in
    rw (q0.1, q1.1, q2.1, q3.1, q4.1, q5.1, q6.0)
      (rw (closing_zero d6 buf q6.1 q6.2 q6.3, append-nil (handed buf)) refl)

opening_flag : receive (byte_bits flag) init ≡ (started, [])
unfolding receive receive_bit receive_zero receive_one at_flag
opening_flag = refl

next_flag : receive (byte_bits flag) started ≡ (started, [])
unfolding receive receive_bit receive_zero receive_one at_flag accumulate
next_flag = refl

receive_then :
    (xs ys : List Bool) (d e : Decoder) (fs : List Bytes)
    → receive xs d ≡ (e, fs)
    → receive (xs ++ ys) d ≡ ((receive ys e).0, fs ++ (receive ys e).1)
receive_then xs ys d e fs h =
    receive-append xs ys d
    ∙ ap (λ (x : Decoder × List Bytes). ((receive ys x.0).0, x.1 ++ (receive ys x.0).1)) h

receive_no_bits : (d : Decoder) → receive [] d ≡ (d, [])
unfolding receive
receive_no_bits d = refl

more_flags : (n : ℕ) → receive (flags n) started ≡ (started, [])
more_flags zero = receive_no_bits started
more_flags (suc n) =
    receive_then (byte_bits flag) (flags n) started started [] next_flag ∙ more_flags n

opening_flags : (n : ℕ) → receive (flags (suc n)) init ≡ (started, [])
opening_flags n =
    receive_then (byte_bits flag) (flags n) init started [] opening_flag ∙ more_flags n

started_in_step : Synced 0 started (holding [])
started_in_step = record {
  collects = refl;
  ones_are = refl;
  trail = omega arith;
  olen_is = refl;
  oacc_is = refl;
  buf_is = refl;
}

length-all_bits : (bs : Bytes) → length (all_bits bs) ≡ 8 * length bs
length-all_bits [] = refl
length-all_bits (b ∷ bs) = omega (arith, length-all_bits bs)

framed :
    (bs : Bytes)
    → All IsByte bs
    → length bs ≤ max_frame
    → receive (stuff 0 (all_bits bs) ++ byte_bits flag) started ≡ (started, handed bs)
framed bs h room =
    let r = receive (stuff 0 (all_bits bs)) started in
    let q =
      receive_stuffed (all_bits bs) 0 started (holding []) (omega arith) started_in_step
        (omega arith) (omega (arith, length-all_bits bs)) in
    let step : Synced (ones_after 0 (all_bits bs)) r.0 (holding bs) =
      subst (λ (x : Partial). Synced (ones_after 0 (all_bits bs)) r.0 x) (add_bits_bytes bs [] h)
        q.step in
    receive-append (stuff 0 (all_bits bs)) (byte_bits flag) started
    ∙ rw (q.silent, closing_flag (ones_after 0 (all_bits bs)) r.0 bs q.few step room) refl

All-append : (xs ys : Bytes) → All IsByte xs → All IsByte ys → All IsByte (xs ++ ys)
All-append [] ys h k = k
All-append (x ∷ xs) ys h k = (h.0, All-append xs ys h.1 k)

-- A frame of 15 to 328 bytes with its check sequence, least significant bit first and stuffed,
-- behind one or more flags and before one or more, is what the decoder hands on, once, and it is
-- ready for the next frame.
pub receive_frame :
    (bytes : Bytes) (before after : ℕ)
    → All IsByte bytes
    → 15 ≤ length bytes
    → length bytes ≤ 328
    → receive
        (flags (suc before) ++ (stuff 0 (all_bits (bytes ++ fcs_bytes bytes)) ++ flags (suc after)))
        init
      ≡ (started, bytes ∷ [])
receive_frame bytes before after h low high =
    let fcs = fcs_calc bytes in
    let sent = bytes ++ fcs_bytes bytes in
    let len : length sent ≡ length bytes + 2 =
      omega (arith, length-append bytes (fcs_bytes bytes)) in
    let whole : All IsByte sent =
      All-append bytes (fcs_bytes bytes) h
        (omega (arith, bit_and_byte fcs), (omega (arith, bit_and_byte (fcs / 2 ^ 8)), tt)) in
    let body = stuff 0 (all_bits sent) in
    let hands : handed sent ≡ bytes ∷ [] = ground (arith, checked_lem bytes) in
    let f : receive (body ++ byte_bits flag) started ≡ (started, bytes ∷ []) =
      framed sent whole (omega arith) ∙ ap (λ (x : List Bytes). (started, x)) hands in
    receive_then (flags (suc before)) (body ++ flags (suc after)) init started []
      (opening_flags before)
    ∙ (ap (λ (x : List Bool). receive x started)
          (sym (append_assoc body (byte_bits flag) (flags after)))
        ∙ (receive_then (body ++ byte_bits flag) (flags after) started started (bytes ∷ []) f
            ∙ ap (λ (x : Decoder × List Bytes). (x.0, bytes ∷ x.1)) (more_flags after)))

-- A frame of 15 to 328 bytes that the encoder sends with at least one flag before and behind it is
-- what a decoder behind the demodulator's level comparison hands on, once and unchanged.
pub receive-encode :
    (bytes : Bytes) (preamble postamble : ℕ)
    → All IsByte bytes
    → 15 ≤ length bytes
    → length bytes ≤ 328
    → 0 < preamble
    → 0 < postamble
    → (receive (nrzi_decode false (encode bytes preamble postamble)) init).1 ≡ bytes ∷ []
receive-encode bytes zero postamble h low high p q = absurd (omega arith)
receive-encode bytes (suc n) zero h low high p q = absurd (omega arith)
receive-encode bytes (suc n) (suc m) h low high p q =
    rw (nrzi_decode-encode bytes (suc n) (suc m))
      (ap (λ (x : Decoder × List Bytes). x.1) (receive_frame bytes n m h low high))
