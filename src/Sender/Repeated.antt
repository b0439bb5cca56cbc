-- ===== src/Sender/Repeated.antt =====
-- The messages of the sender, at a station that receives them.
use ax25toolkit.Base.{
  ℕ, zero, suc, ◌+◌, ◌≤◌, ◌≡◌, refl, ◌≢◌, ◌∙◌, ap, arith, false, if◌then◌else◌, List, [], ◌∷◌, ◌++◌,
  map, Bytes, All, Option, none, some, length,
}
use mathlib.Core.Path.{ap₂}
use ax25toolkit.Kiss
use ax25toolkit.Kiss.{Decoder, feed}
use ax25toolkit.Kiss.RoundTrip.{IsIdle, idle_again}
use ax25toolkit.Kiss.Cmd.{data_frame}
use ax25toolkit.Kiss.Params.{send_frame}
use ax25toolkit.Addr.{Addr}
use ax25toolkit.Addr
use ax25toolkit.Addr.Wire.{IsAddr}
use ax25toolkit.Frame.{Frame, no_frame, type_of}
use ax25toolkit.Frame
use ax25toolkit.Frame.RoundTrip.{IsFrame, decode-encode}
use ax25toolkit.Frame.Heard.{heard, heard-encode_rest}
use ax25toolkit.Aprs.{Msg, make_msg, parse_msg, three_digits}
use ax25toolkit.Aprs.Messages.{IsPlain, parse_msg-make_msg}
use ax25toolkit.Basic.{Floats}
use ax25toolkit.Sender.{
  message, Options, parse_digis, frame_of, frame_bytes, compose, frame_to, send_loop, send_round,
  init_bytes, run_sender,
}

-- The stations of the options fit the wire format.
pub record CanSend (o : Options) : Type 0 where
  pub mycall_fits : IsAddr (Addr.make o.mycall)
  pub dest_fits : IsAddr (Addr.make o.aprs_dest)
  pub digis_fit : All IsAddr (parse_digis o.digi_path)

abbrev pub no_msg : Msg
no_msg = record { to = []; text = []; seq = [] }

-- The message in what has been heard.
abbrev pub read_msg : Option Frame → Option Msg
read_msg none = none
read_msg (some f) = parse_msg f.info no_msg

-- The messages to be received, for `n` rounds after `sent` messages.
abbrev pub numbered : Bytes → Bytes → ℕ → ℕ → List (Option Msg)
numbered dest text zero sent = []
numbered dest text (suc n) sent =
    some (record { to = dest; text = text; seq = three_digits (suc sent) })
    ∷ numbered dest text n (suc sent)

-- Text and number fit the buffer in each round.
abbrev pub Fits : Bytes → ℕ → ℕ → Type 0
Fits text zero sent = Unit
Fits text (suc n) sent =
    (length text + length (three_digits (suc sent)) ≤ 242) × Fits text n (suc sent)

module _ (F : Floats) (strtod : Bytes → F.Num) (minutes : F.Num → Bytes) (o : Options) where
  frame_to-IsFrame :
      (info : Bytes)
      → CanSend o
      → IsFrame (frame_to F strtod minutes o (Addr.make o.aprs_dest) info)
  unfolding frame_of type_of
  frame_to-IsFrame info h = record {
    dest_fits = h.dest_fits;
    src_fits = h.mycall_fits;
    digis_fit = h.digis_fit;
    pid_there = refl;
    pid_default = λ e. absurd (ground (arith, e));
  }

  abbrev msg_frame : ℕ → Frame
  msg_frame sent =
      frame_to F strtod minutes o (Addr.make o.aprs_dest) (make_msg o.mode_arg o.text sent).0

  bytes_message :
      (n sent : ℕ)
      → o.mode ≡ message
      → (send_loop F strtod minutes o (suc n) sent).bytes
        ≡ Kiss.encode (Frame.encode (msg_frame sent)) data_frame 0
          ++ (send_loop F strtod minutes o n (suc sent)).bytes
  unfolding send_loop send_round compose frame_bytes send_frame make_msg
  bytes_message n sent m =
      ap
        (λ k.
          (send_round F strtod minutes o (compose F strtod minutes o k sent)
            (send_loop F strtod minutes o n)).bytes)
        m

  -- Round after round, the receiver reads the message with the next number.
  received :
      (n sent : ℕ) (d : Decoder)
      → o.mode ≡ message
      → CanSend o
      → IsPlain o.mode_arg
      → length o.mode_arg ≤ 9
      → All (λ c. c ≢ b':') o.mode_arg
      → IsPlain o.text
      → Fits o.text n sent
      → IsIdle d
      → map read_msg (heard d (send_loop F strtod minutes o n sent).bytes)
        ≡ numbered o.mode_arg o.text n sent
  received zero sent d m h p short colon t fits idle = unfold send_loop in unfold feed in refl
  received (suc n) sent d m h p short colon t fits idle =
      ap (λ bs. map read_msg (heard d bs)) (bytes_message n sent m)
      ∙ ap (map read_msg) (
          heard-encode_rest d (Frame.encode (msg_frame sent))
            (send_loop F strtod minutes o n (suc sent)).bytes (msg_frame sent) idle
            (decode-encode (msg_frame sent)
              (frame_to-IsFrame (make_msg o.mode_arg o.text sent).0 h)))
      ∙ ap₂ ◌∷◌
          (unfold frame_of in
            parse_msg-make_msg o.mode_arg o.text sent no_msg p short colon t fits.0)
          (received n (suc sent) (idle_again d) m h p short colon t fits.1 refl)

  -- Run with `--msg` and without the TNC's initialisation, the sender makes a receiver of the library read
  -- as many messages as are asked for, one in each frame and in their order: each to the addressee given, with the
  -- text given, numbered from 1 on. Stations and message are as the wire and the buffer can hold them: the
  -- stations fit, the addressee has at most nine characters and no colon, neither it nor the text has a
  -- NUL or blanks at its ends, and text and number fit the buffer; the receiver is between frames.
  pub run_sender-received :
      (d : Decoder)
      → o.mode ≡ message
      → o.tnc_init ≡ false
      → CanSend o
      → IsPlain o.mode_arg
      → length o.mode_arg ≤ 9
      → All (λ c. c ≢ b':') o.mode_arg
      → IsPlain o.text
      → Fits o.text o.count 0
      → IsIdle d
      → map read_msg (heard d (run_sender F strtod minutes o).bytes)
        ≡ numbered o.mode_arg o.text o.count 0
  unfolding run_sender
  run_sender-received d m off h p short colon t fits idle =
      ap
        (λ b. map read_msg (
          heard d
            ((if b then init_bytes else []) ++ (send_loop F strtod minutes o o.count 0).bytes)))
        off
      ∙ received o.count 0 d m h p short colon t fits idle
