-- ===== src/Hdlc/Bounds.antt =====
-- Any stream of bits: the decoder's buffer is never overrun, and what it hands on has the size of a
-- frame.
use ax25toolkit.Base.{
  ◌+◌, ◌-◌, ◌<◌, ◌≤◌, arith, Bool, true, false, List, [], ◌∷◌, ◌++◌, Bytes, All, length,
  length-append, length-take,
}
use ax25toolkit.Hdlc.{
  Decoder, shift_in, checked, at_flag, accumulate, receive_one, receive_zero, receive_bit, receive,
  max_frame,
}

-- The bytes read fit the array, and the byte at hand has bits to come.
pub record Fits (d : Decoder) : Type 0 where
  pub room : length d.frame_buf ≤ max_frame
  pub partial : d.olen < 8

-- Not shorter than the shortest AX.25 frame, not longer than the array less its check sequence.
abbrev pub IsSized : Bytes → Type 0
IsSized f = (15 ≤ length f) × (length f ≤ 328)

checked-IsSized :
    (buf : Bytes) → 17 ≤ length buf → length buf ≤ max_frame → All IsSized (checked buf)
unfolding checked
checked-IsSized buf low high = ground (arith, length-take (length buf - 2) buf)

accumulate-Fits : (bit : Bool) (d : Decoder) → Fits d → Fits (accumulate bit d)
unfolding accumulate
accumulate-Fits bit d v = ground (arith, length-append d.frame_buf (shift_in bit d.oacc ∷ []))

at_flag-Fits : (d : Decoder) → Fits d → Fits (at_flag d).0 × All IsSized (at_flag d).1
unfolding at_flag
at_flag-Fits d v = ground (arith, checked-IsSized d.frame_buf)

receive_one-Fits : (d : Decoder) → Fits d → Fits (receive_one d)
unfolding receive_one
receive_one-Fits d v =
    ground (arith, accumulate-Fits true (record d { consecutive_ones = d.consecutive_ones + 1 }))

receive_zero-Fits : (d : Decoder) → Fits d → Fits (receive_zero d)
unfolding receive_zero
receive_zero-Fits d v = ground (arith, accumulate-Fits false (record d { consecutive_ones = 0 }))

receive_bit-Fits :
    (bit : Bool) (d : Decoder)
    → Fits d
    → Fits (receive_bit bit d).0 × All IsSized (receive_bit bit d).1
unfolding receive_bit
receive_bit-Fits bit d v =
    let d1 = record d { pat_det = shift_in bit d.pat_det } in
    let v1 : Fits d1 = record { room = v.room; partial = v.partial } in
    ground (arith, at_flag-Fits d1 v1, receive_one-Fits d1 v1, receive_zero-Fits d1 v1)

All-append : (xs ys : List Bytes) → All IsSized xs → All IsSized ys → All IsSized (xs ++ ys)
All-append [] ys h k = k
All-append (x ∷ xs) ys h k = (h.0, All-append xs ys h.1 k)

-- Whatever bits come in, a decoder that holds at most 330 bytes and fewer than eight bits of the next
-- keeps it so, and each frame that it hands on has 15 to 328 bytes.
pub receive-Fits :
    (bits : List Bool) (d : Decoder)
    → Fits d
    → Fits (receive bits d).0 × All IsSized (receive bits d).1
unfolding receive
receive-Fits [] d v = (v, tt)
receive-Fits (b ∷ bs) d v =
    let q = receive_bit-Fits b d v in
    let r = receive-Fits bs (receive_bit b d).0 q.0 in
    (r.0, All-append (receive_bit b d).1 (receive bs (receive_bit b d).0).1 q.1 r.1)
