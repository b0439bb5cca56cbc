-- ===== src/Kiss/Params.antt =====
-- The parameter commands of the class `Kiss` of lib/ax25lib.cpp, as the bytes that they write; a time
-- or value is not negative.
use ax25toolkit.Base.{ℕ, ◌/◌, ◌%◌, ◌^◌, ◌≡◌, refl, sym, arith, [], ◌∷◌, ◌++◌, append-nil, Bytes}
use ax25toolkit.Kiss.{Frame, Decoder, encode, feed, type_byte}
use ax25toolkit.Kiss.Cmd.{data_frame, tx_delay, persistence, slot_time}
use ax25toolkit.Kiss.RoundTrip.{IsIdle, idle_again, IsPlain, feed-encode_rest}

-- `Kiss::send_frame`, where no hook takes the frame.
unfoldable pub send_frame : Bytes → Bytes
send_frame ax25 = encode ax25 data_frame 0

unfoldable pub set_txdelay : ℕ → Bytes
set_txdelay ms = encode ((ms / 10) % 2 ^ 8 ∷ []) tx_delay 0

unfoldable pub set_persistence : ℕ → Bytes
set_persistence val = encode (val % 2 ^ 8 ∷ []) persistence 0

unfoldable pub set_slottime : ℕ → Bytes
set_slottime ms = encode ((ms / 10) % 2 ^ 8 ∷ []) slot_time 0

command-IsPlain : IsPlain tx_delay 0 × IsPlain persistence 0 × IsPlain slot_time 0
unfolding type_byte
command-IsPlain = ground arith

abbrev command : ℕ → ℕ → Frame
command cmd value = record { command = cmd; port = 0; payload = value ∷ [] }

-- A receiver between frames reads the three commands in a row as three frames for port 0: the delay
-- and the slot time in units of 10 ms, and the persistence, each modulo 256.
pub params_received :
    (d : Decoder) (ms val slot : ℕ)
    → IsIdle d
    → (feed d (set_txdelay ms ++ (set_persistence val ++ set_slottime slot))).1.frames
      ≡ command 1 ((ms / 10) % 256) ∷ command 2 (val % 256) ∷ command 3 ((slot / 10) % 256) ∷ []
unfolding set_txdelay set_persistence set_slottime feed
params_received d ms val slot idle =
    let third = set_slottime slot in
    let c3 =
      feed-encode_rest (idle_again d) ((slot / 10) % 2 ^ 8 ∷ []) [] slot_time 0 refl
        command-IsPlain.2 in
    rw
      (
        feed-encode_rest d ((ms / 10) % 2 ^ 8 ∷ []) (set_persistence val ++ third) tx_delay 0 idle
            command-IsPlain.0,
        feed-encode_rest (idle_again d) (val % 2 ^ 8 ∷ []) third persistence 0 refl
            command-IsPlain.1,
        sym (append-nil (encode ((slot / 10) % 2 ^ 8 ∷ []) slot_time 0)),
        c3,
      )
      refl
