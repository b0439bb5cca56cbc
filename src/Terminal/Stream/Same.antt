-- ===== src/Terminal/Stream/Same.antt =====
-- The codec of the terminal against the one of the library.
use ax25toolkit.Base.{ℕ, ◌≡◌, refl, sym, ap, false, List, [], ◌∷◌, ◌++◌, arith, Bytes, map}
use ax25toolkit.Kiss
use ax25toolkit.Kiss.{Decoder, Output, feed_byte, feed, complete, inside}
use ax25toolkit.Terminal.Stream.{
  Packet, stuff, kiss_encode, Receiver, close_frame, collect, receive_byte, receive,
}

-- A receiver as a decoder that has no callback for the bytes outside frames.
abbrev pub as_decoder : Receiver → Decoder
as_decoder r = record { in_frame = r.in_frame; escaped = r.escaped; buf = r.buf; on_raw = false }

abbrev pub as_frame : Packet → Kiss.Frame
as_frame p = record { command = p.command; port = p.port; payload = p.content }

abbrev as_output : Receiver × List Packet → Decoder × Output
as_output (r, ps) = (as_decoder r, record { frames = map as_frame ps; raw = [] })

stuff_lem : (bs : Bytes) → stuff bs ≡ Kiss.escape bs
unfolding stuff Kiss.escape
stuff_lem [] = refl
stuff_lem (b ∷ bs) = ground (arith, stuff_lem bs)

-- The terminal wraps a payload in the bytes that the library wraps it in.
pub kiss_encode_lem :
    (payload : Bytes) (cmd port : ℕ) → kiss_encode payload cmd port ≡ Kiss.encode payload cmd port
unfolding kiss_encode Kiss.encode Kiss.type_byte
kiss_encode_lem payload cmd port = rw (stuff_lem payload) refl

close_frame_lem :
    (r : Receiver) (bs : Bytes) → as_output (close_frame r bs) ≡ complete (as_decoder r) bs
unfolding close_frame complete
close_frame_lem r [] = refl
close_frame_lem r (t ∷ rest) = refl

receive_byte_lem :
    (r : Receiver) (b : ℕ) → as_output (receive_byte r b) ≡ feed_byte (as_decoder r) b
unfolding receive_byte feed_byte inside collect
receive_byte_lem r b = ground (arith, close_frame_lem r r.buf)

map-append_frames :
    (ps qs : List Packet) → map as_frame (ps ++ qs) ≡ map as_frame ps ++ map as_frame qs
map-append_frames [] qs = refl
map-append_frames (p ∷ ps) qs = ap (◌∷◌ (as_frame p)) (map-append_frames ps qs)

-- Fed the same bytes, from the same state, the terminal's decoder hands out the frames that the library's
-- decoder without a raw callback hands out, no others, and both end in the same state.
pub receive_lem :
    (r : Receiver) (bs : Bytes)
    → feed (as_decoder r) bs
      ≡ (as_decoder (receive r bs).0, record { frames = map as_frame (receive r bs).1; raw = [] })
unfolding receive feed
receive_lem r [] = refl
receive_lem r (b ∷ bs) =
    rw
      (
        sym (receive_byte_lem r b),
        receive_lem (receive_byte r b).0 bs,
        map-append_frames (receive_byte r b).1 (receive (receive_byte r b).0 bs).1,
      )
      refl
