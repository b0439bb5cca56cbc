-- ===== src/Frame/Heard.antt =====
-- A receiver of the library: the frames that it makes of the bytes on the line.
use ax25toolkit.Base.{◌≡◌, refl, List, ◌∷◌, ◌++◌, map, arith, Bytes, Option, some}
use ax25toolkit.Kiss
use ax25toolkit.Kiss.{Decoder, feed, type_byte}
use ax25toolkit.Kiss.RoundTrip.{IsIdle, idle_again, IsPlain, feed-encode_rest}
use ax25toolkit.Kiss.Cmd.{data_frame}
use ax25toolkit.Frame.{Frame, no_frame}
use ax25toolkit.Frame

abbrev pub heard : Decoder → Bytes → List (Option Frame)
heard d bs = map (λ f. Frame.decode f.payload no_frame) (feed d bs).1.frames

data_frame-IsPlain : IsPlain data_frame 0
unfolding type_byte
data_frame-IsPlain = ground arith

-- An encoded frame is heard, and then what follows it.
pub heard-encode_rest :
    (d : Decoder) (payload rest : Bytes) (f : Frame)
    → IsIdle d
    → Frame.decode payload no_frame ≡ some f
    → heard d (Kiss.encode payload data_frame 0 ++ rest) ≡ some f ∷ heard (idle_again d) rest
unfolding feed
heard-encode_rest d payload rest f idle h =
    rw (feed-encode_rest d payload rest data_frame 0 idle data_frame-IsPlain, h) refl
