-- ===== src/Kiss.antt =====
-- The KISS codec: namespace `kiss` of lib/ax25lib.hpp and lib/ax25lib.cpp (`encode`, `Decoder`).
-- A `uint8_t` is a number; `Cmd` is its underlying byte, since `Cmd(x)` casts any byte.
pub mod Cmd
pub mod Escaping
pub mod RoundTrip
pub mod Stream
pub mod Params
use ax25toolkit.Base.{
  ℕ, ◌*◌, ◌/◌, ◌%◌, ◌^◌, Bool, true, false, not, List, [], ◌∷◌, ◌++◌, Bytes, ◌==◌, if◌then◌else◌,
  bit_and, bit_or,
}

abbrev pub fend : ℕ
fend = 0xC0

abbrev pub fesc : ℕ
fesc = 0xDB

abbrev pub tfend : ℕ
tfend = 0xDC

abbrev pub tfesc : ℕ
tfesc = 0xDD

pub record Frame : Type 0 where
  pub command : ℕ
  pub port : ℕ
  pub payload : Bytes

-- The loop over the payload.
unfoldable pub escape : Bytes → Bytes
escape [] = []
escape (b ∷ bs) =
    if b == fend
    then fesc ∷ tfend ∷ escape bs
    else if b == fesc
    then fesc ∷ tfesc ∷ escape bs
    else b ∷ escape bs

unfoldable pub type_byte : ℕ → ℕ → ℕ
type_byte cmd port = bit_or (bit_and port 0x0F * 2 ^ 4) (bit_and cmd 0x0F) % 2 ^ 8

unfoldable pub encode : Bytes → ℕ → ℕ → Bytes
unfolding escape type_byte
encode payload cmd port = fend ∷ type_byte cmd port ∷ (escape payload ++ fend ∷ [])

-- `on_raw` tells whether a callback is set for the bytes outside frames.
pub record Decoder : Type 0 where
  pub in_frame : Bool
  pub escaped : Bool
  pub buf : Bytes
  pub on_raw : Bool

abbrev pub fresh : Decoder
fresh = record { in_frame = false; escaped = false; buf = []; on_raw = true }

-- What a call hands out: the frames returned, and the bytes passed to `on_raw_`.
pub record Output : Type 0 where
  pub frames : List Frame
  pub raw : Bytes

abbrev pub nothing : Output
nothing = record { frames = []; raw = [] }

abbrev pub both : Output → Output → Output
both o p = record { frames = o.frames ++ p.frames; raw = o.raw ++ p.raw }

-- The frame that `buf_` holds at a closing FEND; an empty buffer is kept open.
unfoldable pub complete : Decoder → Bytes → Decoder × Output
complete d [] = (d, nothing)
complete d (t ∷ rest) = (
  record d { in_frame = false; buf = []; escaped = false },
  record {
    frames =
        record { command = bit_and t 0x0F; port = bit_and (t / 2 ^ 4) 0x0F; payload = rest } ∷ [];
    raw = [];
  },
)

-- A byte inside a frame that is no FEND.
unfoldable pub inside : Decoder → ℕ → Decoder
inside d b =
    if d.escaped
    then record d {
      buf =
          if b == tfend
          then d.buf ++ fend ∷ []
          else if b == tfesc
          then d.buf ++ fesc ∷ []
          else d.buf;
      escaped = false;
    }
    else if b == fesc
    then record d { escaped = true }
    else record d { buf = d.buf ++ b ∷ [] }

-- The body of the loop of `feed`.
unfoldable pub feed_byte : Decoder → ℕ → Decoder × Output
unfolding complete inside
feed_byte d b =
    if b == fend
    then (if not d.in_frame
        then (record d { in_frame = true; buf = []; escaped = false }, nothing)
        else complete d d.buf)
    else if not d.in_frame
    then (d, record { frames = []; raw = if d.on_raw then b ∷ [] else [] })
    else (inside d b, nothing)

unfoldable pub feed : Decoder → Bytes → Decoder × Output
unfolding feed_byte
feed d [] = (d, nothing)
feed d (b ∷ bs) = let (d', o) = feed_byte d b in let (d'', p) = feed d' bs in (d'', both o p)
