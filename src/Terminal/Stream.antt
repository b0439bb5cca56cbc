-- ===== src/Terminal/Stream.antt =====
-- Namespace `KISS` of src/ax25kiss.cpp: `encode` and `Decoder`. `Cmd` is its underlying byte.
pub mod Same
use ax25toolkit.Base.{
  ℕ, ◌*◌, ◌/◌, ◌%◌, ◌^◌, Bool, true, false, not, List, [], ◌∷◌, ◌++◌, Bytes, ◌==◌, if◌then◌else◌,
  bit_and, bit_or,
}
use ax25toolkit.Kiss.{fend, fesc, tfend, tfesc}

pub record Packet : Type 0 where
  pub command : ℕ
  pub port : ℕ
  pub content : Bytes

unfoldable pub stuff : Bytes → Bytes
stuff [] = []
stuff (b ∷ bs) =
    if b == fend
    then fesc ∷ tfend ∷ stuff bs
    else if b == fesc
    then fesc ∷ tfesc ∷ stuff bs
    else b ∷ stuff bs

unfoldable pub kiss_encode : Bytes → ℕ → ℕ → Bytes
unfolding stuff
kiss_encode payload cmd port =
    fend
    ∷ (bit_or (bit_and port 0x0F * 2 ^ 4) (bit_and cmd 0x0F) % 2 ^ 8)
    ∷ (stuff payload ++ fend ∷ [])

pub record Receiver : Type 0 where
  pub in_frame : Bool
  pub escaped : Bool
  pub buf : Bytes

abbrev pub new_receiver : Receiver
new_receiver = record { in_frame = false; escaped = false; buf = [] }

-- A FEND inside a frame: an empty buffer is kept open.
unfoldable pub close_frame : Receiver → Bytes → Receiver × List Packet
close_frame r [] = (r, [])
close_frame r (t ∷ rest) = (
  record { in_frame = false; escaped = false; buf = [] },
  record { command = bit_and t 0x0F; port = bit_and (t / 2 ^ 4) 0x0F; content = rest } ∷ [],
)

-- Another byte inside a frame.
unfoldable pub collect : Receiver → ℕ → Receiver
collect r b =
    if r.escaped
    then record r {
      buf =
          if b == tfend
          then r.buf ++ fend ∷ []
          else if b == tfesc
          then r.buf ++ fesc ∷ []
          else r.buf;
      escaped = false;
    }
    else if b == fesc
    then record r { escaped = true }
    else record r { buf = r.buf ++ b ∷ [] }

-- The body of the loop of `feed`.
unfoldable pub receive_byte : Receiver → ℕ → Receiver × List Packet
unfolding close_frame collect
receive_byte r b =
    if b == fend
    then (if not r.in_frame
        then (record { in_frame = true; escaped = false; buf = [] }, [])
        else close_frame r r.buf)
    else if r.in_frame
    then (collect r b, [])
    else (r, [])

-- `feed`
unfoldable pub receive : Receiver → Bytes → Receiver × List Packet
unfolding receive_byte
receive r [] = (r, [])
receive r (b ∷ bs) =
    let (r', ps) = receive_byte r b in let (r'', qs) = receive r' bs in (r'', ps ++ qs)
