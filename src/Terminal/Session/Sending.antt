-- ===== src/Terminal/Session/Sending.antt =====
-- What the terminal puts on the serial line, read by the library at the other end.
use ax25toolkit.Base.{
  ◌≡◌, refl, ◌≢◌, Bool, List, [], ◌∷◌, ◌++◌, map, append-nil, Bytes, All, if◌then◌else◌, Bool-cases,
  inl, inr,
}
use ax25toolkit.Kiss
use ax25toolkit.Kiss.{type_byte}
use ax25toolkit.Kiss.Cmd.{data_frame}
use ax25toolkit.Addr.Wire.{IsAddr}
use ax25toolkit.Frame
use ax25toolkit.Frame.{Frame, no_frame}
use ax25toolkit.Terminal.Station.Same.{as_addr}
use ax25toolkit.Terminal.Wire.Same.{as_frame}
use ax25toolkit.Terminal.Session.{Session, Message, Effect, say, write, put_out, datagram_of}

-- The bytes that reach the line.
abbrev pub written : List Effect → Bytes
written [] = []
written (say m ∷ es) = written es
written (write bs ∷ es) = bs ++ written es

-- The stations that a session sends with fit the wire format.
pub record CanSend (s : Session) : Type 0 where
  pub mycall_fits : IsAddr (as_addr s.mycall)
  pub dest_fits : IsAddr (as_addr s.dest)
  pub digis_fit : All IsAddr (map as_addr s.digis)

-- The bytes of a line of text, as the library encodes its frame.
abbrev pub frame_bytes : Session → Bytes → Bytes
frame_bytes s text = Kiss.encode (Frame.encode (as_frame (datagram_of s text))) data_frame 0

pub written-put_out :
    (ok : Bytes → Bool) (bytes : Bytes) (m : Message)
    → written (put_out ok bytes ++ say m ∷ []) ≡ (if ok bytes then bytes else [])
unfolding put_out
written-put_out ok bytes m = elim (Bool-cases (ok bytes)) [
  | inl e ↦ rw e (append-nil bytes)
  | inr e ↦ rw e refl
]

abbrev pub IsText : Bytes → Type 0
IsText [] = ⊥
IsText (c ∷ cs) = c ≢ b'/'

-- The lines whose write succeeds.
abbrev pub sent_lines : (Bytes → Bool) → Session → List Bytes → List Bytes
sent_lines ok s [] = []
sent_lines ok s (line ∷ lines) =
    let rest = sent_lines ok s lines in if ok (frame_bytes s line) then line ∷ rest else rest
