-- ===== src/Kiss/RoundTrip.antt =====
-- One encoded frame, read back; and the ports whose type byte is itself a framing byte.
use ax25toolkit.Base.{
  bit_and, ◌/◌, ◌^◌, ℕ, ◌%◌, ◌≡◌, ◌≢◌, true, false, [], ◌∷◌, ◌++◌, append_assoc, arith, Bytes,
}
use ax25toolkit.Kiss.{fend, fesc, Frame, escape, type_byte, encode, Decoder, both, feed}
use ax25toolkit.Kiss.Escaping.{feed-escape, type_byte_fields}
use ax25toolkit.Base.Bits.{bit_and_fifteen}

-- A decoder between two frames.
abbrev pub IsIdle : Decoder → Type 0
IsIdle d = d.in_frame ≡ false

abbrev pub idle_again : Decoder → Decoder
idle_again d = record d { in_frame = false; buf = []; escaped = false }

-- The type byte is not escaped by `encode`, so it must not be a framing byte itself.
abbrev pub IsPlain : ℕ → ℕ → Type 0
IsPlain cmd port = (type_byte cmd port ≢ fend) × (type_byte cmd port ≢ fesc)

abbrev pub sent : Bytes → ℕ → ℕ → Frame
sent payload cmd port = record { command = cmd % 16; port = port % 16; payload = payload }

pub feed-encode_rest :
    (d : Decoder) (payload rest : Bytes) (cmd port : ℕ)
    → IsIdle d
    → IsPlain cmd port
    → feed d (encode payload cmd port ++ rest) ≡ (
      (feed (idle_again d) rest).0,
      both (record { frames = sent payload cmd port ∷ []; raw = [] }) (feed (idle_again d) rest).1,
    )
unfolding feed encode
feed-encode_rest d payload rest cmd port idle plain = ground (
  arith,
  append_assoc (escape payload) (fend ∷ []) rest,
  type_byte_fields cmd port,
  feed-escape (record d { in_frame = true; escaped = false; buf = type_byte cmd port ∷ [] }) payload
      (fend ∷ rest),
)

type_byte_port_12 : (cmd port : ℕ) → cmd % 16 ≡ 0 → port % 16 ≡ 12 → type_byte cmd port ≡ fend
unfolding type_byte
type_byte_port_12 cmd port c p = ground (arith, bit_and_fifteen cmd, bit_and_fifteen port)

-- On port 12 the type byte of a data frame is a FEND: the receiver drops it and takes the first
-- byte of the payload for the type byte.
pub encode_port_12 :
    (d : Decoder) (b : ℕ) (bs : Bytes) (cmd port : ℕ)
    → IsIdle d
    → cmd % 16 ≡ 0
    → port % 16 ≡ 12
    → b ≢ fend
    → b ≢ fesc
    → feed d (encode (b ∷ bs) cmd port) ≡ (
      idle_again d,
      record {
        frames =
            record { command = bit_and b 0x0F; port = bit_and (b / 2 ^ 4) 0x0F; payload = bs } ∷ [];
        raw = [];
      },
    )
unfolding feed encode escape
encode_port_12 d b bs cmd port idle c p ne ne' = ground (
  arith,
  type_byte_port_12 cmd port c p,
  feed-escape (record d { in_frame = true; escaped = false; buf = b ∷ [] }) bs (fend ∷ []),
)
