-- ===== src/Sender.antt =====
-- The sender src/ax25send.cpp: what it writes to the transport that it has opened, and its exit code. The
-- floating-point numbers, `strtod` and the printing of minutes are parameters.
pub mod Repeated
use ax25toolkit.Base.{
  ℕ, zero, suc, Bool, true, false, List, [], ◌∷◌, ◌++◌, map, Bytes, Option, none, some,
  if◌then◌else◌,
}
use ax25toolkit.Base.Text.{break_at, codes}
use ax25toolkit.Base.Text.Fields.{fields}
use ax25toolkit.Kiss.Params.{send_frame, set_txdelay, set_persistence, set_slottime}
use ax25toolkit.Addr.{Addr}
use ax25toolkit.Addr
use ax25toolkit.Frame.{Frame}
use ax25toolkit.Frame
use ax25toolkit.Aprs.{make_msg}
use ax25toolkit.Aprs.Position.{make_pos}
use ax25toolkit.Basic.{Floats}

pub data Mode : Type 0 where
  position message datagram : Mode

-- The options and arguments, as `main` holds them when they have been found valid; `count` is `repeat`.
pub record Options : Type 0 where
  pub mycall : Bytes
  pub digi_path : Bytes
  pub aprs_dest : Bytes
  pub sym_table : ℕ
  pub sym_code : ℕ
  pub pid : ℕ
  pub count : ℕ
  pub tnc_init : Bool
  pub mode : Mode
  pub mode_arg : Bytes
  pub text : Bytes

unfoldable pub parse_digis : Bytes → List Addr
unfolding Addr.make fields
parse_digis path = map Addr.make (fields b',' [] path)

-- `send_frame`, as the frame and as its bytes.
unfoldable pub frame_of : Addr → Addr → List Addr → ℕ → Bytes → Frame
frame_of src dest digis pid info = record {
  dest = dest;
  src = src;
  digis = digis;
  ctrl = 0x03;
  pid = pid;
  has_pid = true;
  info = info;
}

unfoldable pub frame_bytes : Frame → Bytes
unfolding Frame.encode send_frame
frame_bytes f = send_frame (Frame.encode f)

unfoldable pub init_bytes : Bytes
unfolding set_txdelay set_persistence set_slottime
init_bytes =
    (codes "KISS ON" ++ 13 ∷ [])
    ++ ((codes "RESTART" ++ 13 ∷ [])
        ++ ((codes "INTERFACE KISS" ++ 13 ∷ [])
            ++ ((codes "RESET" ++ 13 ∷ [])
                ++ (set_txdelay 400 ++ (set_persistence 63 ++ set_slottime 100)))))

-- What has been written and the exit code.
pub record Result : Type 0 where
  pub bytes : Bytes
  pub code : ℕ

module _ (F : Floats) (strtod : Bytes → F.Num) (minutes : F.Num → Bytes) (o : Options) where
  position_info : Bytes × Option Bytes → Option Bytes
  unfolding make_pos
  position_info (lat, none) = none
  position_info (lat, some lon) =
      some (make_pos F minutes (strtod o.mode_arg) (strtod lon) o.sym_code o.sym_table o.text)

  -- The `switch` of the loop: the information, the destination, and the count of messages after it; `none` where
  -- a position has no comma.
  unfoldable pub compose : Mode → ℕ → Option (Bytes × Addr × ℕ)
  unfolding position_info break_at make_msg Addr.make
  compose position sent = elim (position_info (break_at b',' o.mode_arg)) [
    | none ↦ none
    | some info ↦ some (info, Addr.make o.aprs_dest, sent)
  ]
  compose message sent =
      let (info, sent') = make_msg o.mode_arg o.text sent in
      some (info, Addr.make o.aprs_dest, sent')
  compose datagram sent = some (o.text, Addr.make o.mode_arg, sent)

  abbrev pub frame_to : Addr → Bytes → Frame
  frame_to dest info = frame_of (Addr.make o.mycall) dest (parse_digis o.digi_path) o.pid info

  -- One round, and the rounds after it.
  unfoldable pub send_round : Option (Bytes × Addr × ℕ) → (ℕ → Result) → Result
  unfolding frame_of frame_bytes parse_digis Addr.make
  send_round none after = record { bytes = []; code = 1 }
  send_round (some (info, dest, sent)) after =
      let rest = after sent in
      record rest { bytes = frame_bytes (frame_to dest info) ++ rest.bytes }

  -- The loop: the rounds left, and the count of messages.
  unfoldable pub send_loop : ℕ → ℕ → Result
  unfolding compose send_round
  send_loop zero sent = record { bytes = []; code = 0 }
  send_loop (suc n) sent = send_round (compose o.mode sent) (send_loop n)

  unfoldable pub run_sender : Result
  unfolding init_bytes send_loop
  run_sender =
      let sent = send_loop o.count 0 in
      record sent { bytes = (if o.tnc_init then init_bytes else []) ++ sent.bytes }
