-- ===== src/Kiss/Stream.antt =====
-- A stream of bytes: cut anywhere, with text between the frames, and with many frames.
use ax25toolkit.Base.{
  ℕ, ◌≡◌, refl, ◌≢◌, List, [], ◌∷◌, ◌++◌, append_assoc, arith, Bytes, if◌then◌else◌, All, map,
}
use ax25toolkit.Kiss.{fend, Frame, encode, Decoder, Output, nothing, both, feed_byte, feed}
use ax25toolkit.Kiss.RoundTrip.{IsIdle, idle_again, IsPlain, sent, feed-encode_rest}

both_assoc : (o p q : Output) → both (both o p) q ≡ both o (both p q)
both_assoc o p q = rw (append_assoc o.frames p.frames q.frames, append_assoc o.raw p.raw q.raw)

-- Two calls in a row are one call on the bytes of both.
pub feed-append :
    (d : Decoder) (xs ys : Bytes)
    → feed d (xs ++ ys) ≡ ((feed (feed d xs).0 ys).0, both (feed d xs).1 (feed (feed d xs).0 ys).1)
unfolding feed
feed-append d [] ys = refl
feed-append d (x ∷ xs) ys = ground (
  arith,
  feed-append (feed_byte d x).0 xs ys,
  both_assoc (feed_byte d x).1 (feed (feed_byte d x).0 xs).1
      (feed (feed (feed_byte d x).0 xs).0 ys).1,
)

-- The calls that a transport makes: one for each block of bytes that it reads.
pub feed_blocks : Decoder → List Bytes → Decoder × Output
feed_blocks d [] = (d, nothing)
feed_blocks d (b ∷ bs) =
    let (d', o) = feed d b in let (d'', p) = feed_blocks d' bs in (d'', both o p)

abbrev pub concat : List Bytes → Bytes
concat [] = []
concat (b ∷ bs) = b ++ concat bs

-- However the transport cuts its bytes into blocks, feeding one block after the other is feeding all
-- bytes at once: the same frames and raw bytes in the same order, and the same decoder after it.
pub feed_blocks-concat :
    (d : Decoder) (blocks : List Bytes) → feed_blocks d blocks ≡ feed d (concat blocks)
unfolding feed feed_blocks
feed_blocks-concat d [] = refl
feed_blocks-concat d (b ∷ bs) = rw (feed-append d b (concat bs), feed_blocks-concat (feed d b).0 bs)

-- Bytes outside a frame.
pub feed_raw :
    (d : Decoder) (junk rest : Bytes)
    → IsIdle d
    → All (λ b. b ≢ fend) junk
    → feed d (junk ++ rest) ≡ (
      (feed d rest).0,
      both (record { frames = []; raw = if d.on_raw then junk else [] }) (feed d rest).1,
    )
unfolding feed
feed_raw d [] rest idle plain = ground arith
feed_raw d (b ∷ junk) rest idle plain = ground (arith, feed_raw d junk rest idle plain.1)

-- A frame to send, with the text that the line carries before it.
pub record Packet : Type 0 where
  pub text : Bytes
  pub payload : Bytes
  pub command : ℕ
  pub port : ℕ
  pub text_plain : All (λ b. b ≢ fend) text
  pub type_plain : IsPlain command port

abbrev pub wire : List Packet → Bytes
wire [] = []
wire (p ∷ ps) = p.text ++ (encode p.payload p.command p.port ++ wire ps)

abbrev pub texts : List Packet → Bytes
texts [] = []
texts (p ∷ ps) = p.text ++ texts ps

abbrev pub frames_of : List Packet → List Frame
frames_of = map λ p. sent p.payload p.command p.port

-- What a decoder has to hand out for a list of packets.
abbrev pub expected : Decoder → List Packet → Output
expected d ps = record { frames = frames_of ps; raw = if d.on_raw then texts ps else [] }

feed-wire :
    (d : Decoder) (ps : List Packet)
    → IsIdle d
    → (IsIdle (feed d (wire ps)).0) × ((feed d (wire ps)).1 ≡ expected d ps)
unfolding feed
feed-wire d [] idle = ground arith
feed-wire d (p ∷ ps) idle =
    rw
      (
        feed_raw d p.text (encode p.payload p.command p.port ++ wire ps) idle p.text_plain,
        feed-encode_rest d p.payload (wire ps) p.command p.port idle p.type_plain,
      )
      (ground (arith, feed-wire (idle_again d) ps refl))

-- Packets that are sent one after the other, with text between them, come out in order, each with
-- its payload and the low nibbles of its command and port, the text goes to the raw callback if it
-- is set, and the decoder ends between frames, however the transport cuts the bytes into blocks.
-- A type byte that is itself a framing byte is excluded by `Packet`.
pub feed_blocks-wire :
    (d : Decoder) (ps : List Packet) (blocks : List Bytes)
    → IsIdle d
    → concat blocks ≡ wire ps
    → (IsIdle (feed_blocks d blocks).0) × ((feed_blocks d blocks).1 ≡ expected d ps)
feed_blocks-wire d ps blocks idle e = rw (feed_blocks-concat d blocks, e) (feed-wire d ps idle)
