-- ===== src/Tests/Terminals.antt =====
-- The terminal and the sender at concrete inputs.
use ax25toolkit.Base.{
  Bool, length, ◌==◌, ◌≡◌, refl, arith, true, false, List, [], ◌∷◌, ◌++◌, Bytes, map,
}
use ax25toolkit.Base.Int.{pos}
use ax25toolkit.Base.Text.{codes, to_upper, break_at, c_string, stoi}
use ax25toolkit.Kiss.{fresh, feed}
use ax25toolkit.Addr
use ax25toolkit.Addr.Wire.{IsAddr}
use ax25toolkit.Frame
use ax25toolkit.Frame.{no_frame}
use ax25toolkit.Frame.Heard.{heard}
use ax25toolkit.Aprs.{three_digits}
use ax25toolkit.Sender.{Options, message, run_sender, parse_digis}
use ax25toolkit.Sender.Repeated.{CanSend, numbered, read_msg, run_sender-received}
use ax25toolkit.Terminal.Stream.{new_receiver, receive}
use ax25toolkit.Terminal.Stream.Same.{as_decoder, receive_lem}
use ax25toolkit.Terminal.Stream.Same
use ax25toolkit.Terminal.Station.{Station, station_text}
use ax25toolkit.Terminal.Station.Typed.{IsTyped}
use ax25toolkit.Terminal.Station.Same.{as_addr}
use ax25toolkit.Terminal.Wire.{no_datagram, read_datagram}
use ax25toolkit.Terminal.Wire.Same.{as_frame, AllNamed, read, read_datagram-decode}
use ax25toolkit.Terminal.Session.{Session, process_line, path_text}
use ax25toolkit.Terminal.Session.Sending
use ax25toolkit.Terminal.Session.Settings.{IsHop, process_line-settings}
use ax25toolkit.Tests.Scripts.{naturals}

-- Two frames with a full set of FENDs, and a byte between them.
abbrev stream : Bytes
stream = 0xC0 ∷ 0x00 ∷ 0x41 ∷ 0xDB ∷ 0xDC ∷ 0xC0 ∷ 0x07 ∷ 0xC0 ∷ 0x01 ∷ 0x28 ∷ 0xC0 ∷ []

receive_lem_example : feed (as_decoder new_receiver) stream ≡ (
  as_decoder (receive new_receiver stream).0,
  record { frames = map Same.as_frame (receive new_receiver stream).1; raw = [] },
)
receive_lem_example = receive_lem new_receiver stream

-- PY2XXX-9, and W1AW by WIDE1-1.
abbrev mine : Station
mine = record {
  callsign = codes "PY2XXX";
  ssid = pos 9;
  has_been_repeated = false;
  is_last_addr = false;
}

abbrev other : Station
other = record mine { callsign = codes "W1AW"; ssid = pos 0 }

abbrev hop : Station
hop = record mine { callsign = codes "WIDE1"; ssid = pos 1 }

abbrev session : Session
session = record { mycall = mine; dest = other; digis = hop ∷ []; running = true }

hop-IsAddr : IsAddr (as_addr hop)
hop-IsAddr = record {
  fits = omega arith;
  ascii = ground arith;
  plain = omega arith;
  ssid_fits = omega arith;
}

abbrev lines : List Bytes
lines = codes "Hello" ∷ codes "73" ∷ []

-- A port that takes the writes of one length alone.
abbrev fitful : Bytes → Bool
fitful bs = length bs == 31

-- A UI frame of 16 bytes and its information.
abbrev on_air : Bytes
on_air =
    (0x82 ∷ 0xA0 ∷ 0xA4 ∷ 0xA6 ∷ 0x40 ∷ 0x40 ∷ 0x60 ∷ [])
    ++ ((0xAE ∷ 0x62 ∷ 0x82 ∷ 0xAE ∷ 0x40 ∷ 0x40 ∷ 0x61 ∷ []) ++ (0x03 ∷ 0xF0 ∷ 0x21 ∷ []))

on_air-AllNamed : AllNamed on_air
on_air-AllNamed = record { dest_named = ground arith; src_named = ground arith; digis_named = tt }

read_datagram-decode_example :
    read (read_datagram on_air no_datagram) ≡ Frame.decode on_air no_frame
read_datagram-decode_example = read_datagram-decode on_air on_air-AllNamed

hop-IsTyped : IsTyped hop
hop-IsTyped = record { call_chars = ground arith; not_repeated = refl; not_last = refl }

hop-IsHop : IsHop hop
hop-IsHop = record {
  typed = hop-IsTyped;
  named = refl;
  path_chars = ground arith;
  ssid_fits = omega arith;
}

process_line-settings_example :
    let run = λ (line : Bytes). (process_line fitful line session).0 in
    (run (codes "/mycall " ++ station_text hop) ≡ record session { mycall = hop })
    × (run (codes "/dest " ++ station_text hop) ≡ record session { dest = hop })
    × (run (codes "/digi " ++ path_text (hop ∷ hop ∷ []))
        ≡ record session { digis = hop ∷ hop ∷ [] })
process_line-settings_example =
    process_line-settings fitful session hop (hop ∷ hop ∷ []) hop-IsHop (hop-IsHop, (hop-IsHop, tt))

abbrev options : Options
options = record {
  mycall = codes "w1aw";
  digi_path = codes "wide1-1";
  aprs_dest = codes "APRS";
  sym_table = b'/';
  sym_code = b'>';
  pid = 0xF0;
  count = 2;
  tnc_init = false;
  mode = message;
  mode_arg = codes "G2UGK";
  text = codes "Hello {bridge}";
}

options-CanSend : CanSend options
unfolding Addr.make parse_digis c_string break_at to_upper stoi
options-CanSend = record {
  mycall_fits = record {
    fits = omega arith;
    ascii = ground arith;
    plain = omega arith;
    ssid_fits = omega arith;
  };
  dest_fits = record {
    fits = omega arith;
    ascii = ground arith;
    plain = omega arith;
    ssid_fits = omega arith;
  };
  digis_fit = (hop-IsAddr, tt);
}

run_sender-received_example :
    map read_msg (heard fresh (run_sender naturals (λ s. 0) (λ x. []) options).bytes)
    ≡ numbered (codes "G2UGK") (codes "Hello {bridge}") 2 0
unfolding three_digits
run_sender-received_example =
    run_sender-received naturals (λ s. 0) (λ x. []) options fresh refl refl options-CanSend
      (ground arith, (refl, refl)) (omega arith) (ground arith) (ground arith, (refl, refl))
      (omega arith, (omega arith, tt)) refl
