-- ===== src/Hdlc.antt =====
-- kiss_modem/hdlc.h and kiss_modem/hdlc.cpp: the frame check sequence, the bit-stream decoder and
-- the encoder. A bit of the decoder's input and a level of the encoder's output are Booleans; the
-- bytes of `frame_buf_` before `frame_len_` are a list. Debug output is left out.
pub mod Table
pub mod Polynomial
pub mod Sync
pub mod Bounds
pub mod Stuffing
pub mod Encoding
pub mod RoundTrip
use ax25toolkit.Base.{
  ℕ, zero, suc, ◌+◌, ◌-◌, ◌*◌, ◌/◌, ◌%◌, ◌^◌, Bool, true, false, not, ◌&&◌, List, [], ◌∷◌, ◌++◌,
  Bytes, ltb, leb, ◌==◌, length, take, get_or, if◌then◌else◌, bit_and, bit_or, bit_xor,
}
use Table.{ccitt_table}

unfoldable pub fcs_loop : ℕ → Bytes → ℕ
fcs_loop crc [] = crc
fcs_loop crc (b ∷ bs) =
    fcs_loop (bit_xor (crc / 2 ^ 8) (get_or ccitt_table (bit_and (bit_xor crc b) 0xff) 0)) bs

unfoldable pub fcs_calc : Bytes → ℕ
unfolding fcs_loop
fcs_calc bytes = bit_xor (fcs_loop 0xffff bytes) 0xffff

abbrev pub max_frame : ℕ
max_frame = 330

abbrev pub flag : ℕ
flag = 0x7E

pub record Decoder : Type 0 where
  pub pat_det : ℕ
  pub olen : ℕ
  pub oacc : ℕ
  pub frame_buf : Bytes
  pub consecutive_ones : ℕ
  pub collecting : Bool

-- `init()`
abbrev pub init : Decoder
init = record {
  pat_det = 0;
  olen = 0;
  oacc = 0;
  frame_buf = [];
  consecutive_ones = 0;
  collecting = false;
}

-- A register of eight bits that is filled from the top.
abbrev pub shift_in : Bool → ℕ → ℕ
shift_in bit reg = if bit then bit_or (reg / 2) 0x80 else reg / 2

-- The frame that the buffer holds, without its check sequence, if that is right.
unfoldable pub checked : Bytes → List Bytes
checked buf =
    let n = length buf in
    let received = bit_or (get_or buf (n - 1) 0 * 2 ^ 8) (get_or buf (n - 2) 0) in
    let bytes = take (n - 2) buf in if received == fcs_calc bytes then bytes ∷ [] else []

-- At a flag: the frames for `on_frame_`, and the start of the next.
unfoldable pub at_flag : Decoder → Decoder × List Bytes
at_flag d = (
  record d { collecting = true; olen = 0; oacc = 0; frame_buf = []; consecutive_ones = 0 },
  if d.collecting && leb 17 (length d.frame_buf) then checked d.frame_buf else [],
)

-- A data bit, least significant first.
unfoldable pub accumulate : Bool → Decoder → Decoder
accumulate bit d =
    let oacc = shift_in bit d.oacc in
    if leb 8 (d.olen + 1)
    then (if ltb (length d.frame_buf) max_frame
        then record d { frame_buf = d.frame_buf ++ oacc ∷ []; olen = 0; oacc = 0 }
        else record d { collecting = false; frame_buf = []; olen = 0; oacc = 0 })
    else record d { oacc = oacc; olen = d.olen + 1 }

-- A one that completes no flag.
unfoldable pub receive_one : Decoder → Decoder
unfolding accumulate
receive_one d =
    let d1 = record d { consecutive_ones = d.consecutive_ones + 1 } in
    if leb 7 d1.consecutive_ones
    then record d1 { collecting = false; frame_buf = []; olen = 0 }
    else if not d1.collecting
    then d1
    else accumulate true d1

-- A zero that completes no flag; after five ones it was stuffed.
unfoldable pub receive_zero : Decoder → Decoder
unfolding accumulate
receive_zero d =
    let d1 = record d { consecutive_ones = 0 } in
    if not d.collecting then d1 else if d.consecutive_ones == 5 then d1 else accumulate false d1

unfoldable pub receive_bit : Bool → Decoder → Decoder × List Bytes
receive_bit bit d =
    let d1 = record d { pat_det = shift_in bit d.pat_det } in
    if d1.pat_det == flag then at_flag d1 else (if bit then receive_one d1 else receive_zero d1, [])

-- One bit after the other: the decoder and all frames.
unfoldable pub receive : List Bool → Decoder → Decoder × List Bytes
receive [] d = (d, [])
receive (b ∷ bs) d =
    let (d1, fs) = receive_bit b d in let (d2, gs) = receive bs d1 in (d2, fs ++ gs)

-- `levels` is what `on_bit_` was called with.
pub record Encoder : Type 0 where
  pub nrzi_state : Bool
  pub ones_count : ℕ
  pub levels : List Bool

unfoldable pub send_bit_nrzi : Bool → Encoder → Encoder
send_bit_nrzi bit e =
    let level = if bit then e.nrzi_state else not e.nrzi_state in
    record e { nrzi_state = level; levels = e.levels ++ level ∷ [] }

abbrev pub bit_of : ℕ → ℕ → Bool
bit_of byte i = bit_and (byte / 2 ^ i) 1 == 1

-- The eight rounds of a loop over the bits of a byte.
abbrev pub byte_bits : ℕ → List Bool
byte_bits b =
    bit_of b 0
    ∷ bit_of b 1
    ∷ bit_of b 2
    ∷ bit_of b 3
    ∷ bit_of b 4
    ∷ bit_of b 5
    ∷ bit_of b 6
    ∷ bit_of b 7
    ∷ []

unfoldable pub send_bits : List Bool → Encoder → Encoder
send_bits [] e = e
send_bits (b ∷ bs) e = send_bits bs (send_bit_nrzi b e)

unfoldable pub send_flag : Encoder → Encoder
send_flag e = send_bits (byte_bits flag) (record e { ones_count = 0 })

-- A data bit, and the zero that is stuffed behind the fifth one.
unfoldable pub send_stuffed : Bool → Encoder → Encoder
send_stuffed bit e =
    let e1 = send_bit_nrzi bit e in
    if bit
    then (let e2 = record e1 { ones_count = e1.ones_count + 1 } in
        if e2.ones_count == 5 then record (send_bit_nrzi false e2) { ones_count = 0 } else e2)
    else record e1 { ones_count = 0 }

unfoldable pub send_data_bits : List Bool → Encoder → Encoder
send_data_bits [] e = e
send_data_bits (b ∷ bs) e = send_data_bits bs (send_stuffed b e)

-- `send_byte_nrzi(byte, true)`; nobody calls it without stuffing.
unfoldable pub send_byte : ℕ → Encoder → Encoder
send_byte b e = send_data_bits (byte_bits b) e

unfoldable pub send_bytes : Bytes → Encoder → Encoder
send_bytes [] e = e
send_bytes (b ∷ bs) e = send_bytes bs (send_byte b e)

unfoldable pub send_flags : ℕ → Encoder → Encoder
send_flags zero e = e
send_flags (suc n) e = send_flags n (send_flag e)

-- The two bytes of the check sequence, the low one first.
abbrev pub fcs_bytes : Bytes → Bytes
fcs_bytes bytes = let fcs = fcs_calc bytes in bit_and fcs 0xff ∷ bit_and (fcs / 2 ^ 8) 0xff ∷ []

-- `send_frame`; `encode` collects the levels.
unfoldable pub encode : Bytes → ℕ → ℕ → List Bool
encode bytes preamble postamble =
    let e1 = send_flags preamble (record { nrzi_state = false; ones_count = 0; levels = [] }) in
    let e2 = send_bytes bytes (record e1 { ones_count = 0 }) in
    let e3 = send_bytes (fcs_bytes bytes) e2 in (send_flags postamble e3).levels
