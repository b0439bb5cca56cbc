-- ===== src/Tests/Codecs.antt =====
-- The codecs of lib/ax25lib.cpp and kiss_modem/hdlc.cpp at concrete inputs.
use ax25toolkit.Base.{
  ◌≡◌, ◌≢◌, refl, arith, true, false, List, [], ◌∷◌, ◌++◌, Bytes, All, some, replicate, take, drop,
}
use ax25toolkit.Base.Int.{pos}
use ax25toolkit.Kiss.{Frame, Decoder, Output, fresh, fend, feed, encode, escape, type_byte}
use ax25toolkit.Kiss
use ax25toolkit.Kiss.RoundTrip.{IsIdle, idle_again, IsPlain, encode_port_12}
use ax25toolkit.Kiss.Stream.{feed_blocks, concat, Packet, wire, expected, feed_blocks-wire}
use ax25toolkit.Addr.{Addr, str}
use ax25toolkit.Addr.Wire.{IsAddr}
use ax25toolkit.Frame.{no_frame, i_frame, mk_i, ns_of, carries_pid, type_of}
use ax25toolkit.Frame
use ax25toolkit.Frame.Format.{format}
use ax25toolkit.Base.Text.{codes}
use ax25toolkit.Frame.RoundTrip.{IsFrame, decode-encode}
use ax25toolkit.Hdlc.{init, receive, fcs_bytes}
use ax25toolkit.Hdlc
use ax25toolkit.Hdlc.Bounds.{Fits, IsSized, receive-Fits}
use ax25toolkit.Hdlc.Encoding.{nrzi_decode}
use ax25toolkit.Hdlc.RoundTrip.{receive-encode}

packet-IsPlain : IsPlain 0 1
unfolding type_byte
packet-IsPlain = ground arith

plain_text : All (λ b. b ≢ fend) (b'h' ∷ b'i' ∷ [])
plain_text = ground arith

-- The payload holds both framing bytes.
abbrev packet : Packet
packet = record {
  text = b'h' ∷ b'i' ∷ [];
  payload = 0xC0 ∷ 0xDB ∷ 0x41 ∷ [];
  command = 0;
  port = 1;
  text_plain = plain_text;
  type_plain = packet-IsPlain;
}

abbrev packets : List Packet
packets = packet ∷ packet ∷ []

abbrev blocks : List Bytes
blocks = take 5 (wire packets) ∷ [] ∷ drop 5 (wire packets) ∷ []

concat-blocks : concat blocks ≡ wire packets
unfolding encode escape type_byte
concat-blocks = refl

feed_blocks-wire_example :
    (IsIdle (feed_blocks fresh blocks).0) × ((feed_blocks fresh blocks).1 ≡ expected fresh packets)
feed_blocks-wire_example = feed_blocks-wire fresh packets blocks refl concat-blocks

encode_port_12_example : feed fresh (Kiss.encode (0x41 ∷ 0x42 ∷ []) 0 12) ≡ (
  idle_again fresh,
  record { frames = record { command = 1; port = 4; payload = 0x42 ∷ [] } ∷ []; raw = [] },
)
encode_port_12_example =
    encode_port_12 fresh 0x41 (0x42 ∷ []) 0 12 refl (omega arith) (omega arith) (omega arith)
      (omega arith)

abbrev station : Addr
station = record { call = b'W' ∷ b'1' ∷ b'A' ∷ []; ssid = pos 7; repeated = false }

station-IsAddr : IsAddr station
station-IsAddr = record {
  fits = omega arith;
  ascii = ground arith;
  plain = omega arith;
  ssid_fits = omega arith;
}

abbrev heard : Addr
heard = record station { repeated = true }

-- A UI frame over one digipeater that has repeated it.
abbrev beacon : Frame.Frame
beacon = record no_frame { dest = station; src = station; digis = heard ∷ []; info = b'!' ∷ [] }

heard-IsAddr : IsAddr heard
heard-IsAddr = record {
  fits = omega arith;
  ascii = ground arith;
  plain = omega arith;
  ssid_fits = omega arith;
}

beacon-IsFrame : IsFrame beacon
unfolding type_of
beacon-IsFrame = record {
  dest_fits = station-IsAddr;
  src_fits = station-IsAddr;
  digis_fit = (heard-IsAddr, tt);
  pid_there = refl;
  pid_default = λ h. refl;
}

decode-encode_example : Frame.decode (Frame.encode beacon) no_frame ≡ some beacon
decode-encode_example = decode-encode beacon beacon-IsFrame

abbrev letters : Bytes
letters = replicate 16 0xFF

receive-encode_example :
    (receive (nrzi_decode false (Hdlc.encode letters 2 1)) init).1 ≡ letters ∷ []
receive-encode_example =
    receive-encode letters 2 1 (ground arith) (omega arith) (omega arith) (omega arith)
      (omega arith)

init-Fits : Fits init
init-Fits = record { room = omega arith; partial = omega arith }

receive-Fits_example :
    Fits (receive (nrzi_decode false (Hdlc.encode letters 2 1)) init).0
    × All IsSized (receive (nrzi_decode false (Hdlc.encode letters 2 1)) init).1
receive-Fits_example = receive-Fits (nrzi_decode false (Hdlc.encode letters 2 1)) init init-Fits

-- A monitor's line for an I frame with text and one with other bytes.
format_i :
    (format (record no_frame { ctrl = 0x62; dest = station; src = station; info = codes "HI\r" })
      ≡ str station ++ (b'>' ∷ (str station ++ codes " [I] Ns=1 Nr=3 PID=0xF0 | HI")))
    × (format
          (record no_frame { ctrl = 0x62; dest = station; src = station; info = 0x07 ∷ 0xAB ∷ [] })
        ≡ str station ++ (b'>' ∷ (str station ++ codes " [I] Ns=1 Nr=3 PID=0xF0 | [HEX: 07 AB]")))
unfolding format str
format_i = (refl, refl)
