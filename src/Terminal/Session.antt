-- ===== src/Terminal/Session.antt =====
-- The class `Terminal` of src/ax25kiss.cpp: its settings, and what a line typed into it changes, sends and says.
-- A message is a constructor with what it shows in place of its wording; a frame is shown without the time,
-- the control byte's details and the dump that stand by it.
pub mod Sending
pub mod Settings
pub mod Parameters
pub mod Stations
use ax25toolkit.Base.{
  ℕ, ◌/◌, ◌%◌, ◌^◌, Bool, true, false, ◌||◌, List, [], ◌∷◌, ◌++◌, map, Bytes, ◌==◌, ltb,
  if◌then◌else◌, Option, none, some, is_empty,
}
use ax25toolkit.Base.Int.{ℤ, pos, negsuc}
use ax25toolkit.Base.Text.{to_lower, stoi, break_at, bytes_eq, codes}
use ax25toolkit.Base.Text.Trim.{trim}
use ax25toolkit.Base.Text.Fields.{fields}
use ax25toolkit.Kiss.Cmd.{data_frame, tx_delay, persistence}
use ax25toolkit.Terminal.Stream.{kiss_encode}
use ax25toolkit.Terminal.Station.{Station, from_str, station_text}
use ax25toolkit.Terminal.Wire.{Datagram, no_datagram, write_datagram}

pub record Session : Type 0 where
  pub mycall : Station
  pub dest : Station
  pub digis : List Station
  pub running : Bool

pub data Message : Type 0 where
  goodbye help status usage_mycall usage_dest path_cleared : Message
  bad_txdelay usage_txdelay bad_persist usage_persist tx_error : Message
  mycall_set dest_set path_set unknown_command : Bytes → Message
  txdelay_set persist_set : ℕ → Message
  tx : Datagram → Message

pub data Effect : Type 0 where
  say : Message → Effect
  write : Bytes → Effect

abbrev pub said : Session → Message → Session × List Effect
said s m = (s, say m ∷ [])

abbrev pub is_blank : ℕ → Bool
is_blank c = c == b' ' || c == 9

unfoldable pub stations_of : List Bytes → List Station
unfolding from_str trim
stations_of [] = []
stations_of (tok ∷ toks) =
    let rest = stations_of toks in
    let name = trim is_blank tok in if is_empty name then rest else from_str name ∷ rest

unfoldable pub parse_digi_path : Bytes → Session → Session
unfolding stations_of fields
parse_digi_path csv s = record s { digis = stations_of (fields b',' [] csv) }

unfoldable pub path_text : List Station → Bytes
unfolding station_text
path_text [] = []
path_text (d ∷ []) = station_text d
path_text (d ∷ (e ∷ ds)) = station_text d ++ (b',' ∷ path_text (e ∷ ds))

unfoldable pub datagram_of : Session → Bytes → Datagram
datagram_of s text = record no_datagram {
  dest = s.dest;
  src = s.mycall;
  digis = s.digis;
  info = text;
}

abbrev pub or_nothing : Option Bytes → Bytes
or_nothing none = []
or_nothing (some args) = args

-- `ok` tells which writes to the serial port succeed; one that fails puts nothing on the line, and any other all
-- of its bytes.
module _ (ok : Bytes → Bool) where
  unfoldable pub put_out : Bytes → List Effect
  put_out bytes = if ok bytes then write bytes ∷ [] else []

  unfoldable pub cmd_send : Bytes → Session → Session × List Effect
  unfolding datagram_of kiss_encode write_datagram put_out
  cmd_send text s =
      let f = datagram_of s text in
      let kiss_bytes = kiss_encode (write_datagram f) data_frame 0 in
      (s, put_out kiss_bytes ++ say (if ok kiss_bytes then tx f else tx_error) ∷ [])

  txdelay_to : Session → Option ℤ → Session × List Effect
  unfolding kiss_encode put_out
  txdelay_to s none = said s usage_txdelay
  txdelay_to s (some (negsuc n)) = said s bad_txdelay
  txdelay_to s (some (pos ms)) = if ltb 2550 ms then said s bad_txdelay else (
    s,
    put_out (kiss_encode ((ms / 10) % 2 ^ 8 ∷ []) tx_delay 0) ++ say (txdelay_set ms) ∷ [],
  )

  unfoldable pub cmd_txdelay : Bytes → Session → Session × List Effect
  unfolding stoi txdelay_to
  cmd_txdelay args s = txdelay_to s (stoi args)

  persist_to : Session → Option ℤ → Session × List Effect
  unfolding kiss_encode put_out
  persist_to s none = said s usage_persist
  persist_to s (some (negsuc n)) = said s bad_persist
  persist_to s (some (pos v)) =
      if ltb 255 v
      then said s bad_persist
      else (s, put_out (kiss_encode (v % 2 ^ 8 ∷ []) persistence 0) ++ say (persist_set v) ∷ [])

  unfoldable pub cmd_persist : Bytes → Session → Session × List Effect
  unfolding stoi persist_to
  cmd_persist args s = persist_to s (stoi args)

  unfoldable pub cmd_mycall : Bytes → Session → Session × List Effect
  unfolding from_str station_text
  cmd_mycall args s =
      if is_empty args
      then said s usage_mycall
      else said (record s { mycall = from_str args }) (mycall_set (station_text (from_str args)))

  unfoldable pub cmd_dest : Bytes → Session → Session × List Effect
  unfolding from_str station_text
  cmd_dest args s =
      if is_empty args
      then said s usage_dest
      else said (record s { dest = from_str args }) (dest_set (station_text (from_str args)))

  unfoldable pub cmd_digi : Bytes → Session → Session × List Effect
  unfolding parse_digi_path path_text
  cmd_digi args s =
      let s' = parse_digi_path args s in
      said s' (if is_empty s'.digis then path_cleared else path_set (path_text s'.digis))

  unfoldable pub dispatch_command : Bytes → Bytes → Session → Session × List Effect
  unfolding cmd_mycall cmd_dest cmd_digi cmd_txdelay cmd_persist cmd_send bytes_eq
  dispatch_command cmd args s =
      if bytes_eq cmd (codes "quit") || bytes_eq cmd (codes "exit")
      then said (record s { running = false }) goodbye
      else if bytes_eq cmd (codes "help")
      then said s help
      else if bytes_eq cmd (codes "status")
      then said s status
      else if bytes_eq cmd (codes "mycall")
      then cmd_mycall args s
      else if bytes_eq cmd (codes "dest")
      then cmd_dest args s
      else if bytes_eq cmd (codes "digi")
      then cmd_digi args s
      else if bytes_eq cmd (codes "txdelay")
      then cmd_txdelay args s
      else if bytes_eq cmd (codes "persist")
      then cmd_persist args s
      else if bytes_eq cmd (codes "send")
      then cmd_send args s
      else said s (unknown_command cmd)

  unfoldable pub process_line : Bytes → Session → Session × List Effect
  unfolding dispatch_command break_at to_lower cmd_send
  process_line [] s = (s, [])
  process_line (c ∷ rest) s =
      let (cmd, args) = break_at b' ' rest in
      if c == b'/'
      then dispatch_command (map to_lower cmd) (or_nothing args) s
      else cmd_send (c ∷ rest) s

  after_line : Session × List Effect → (Session → Session × List Effect) → Session × List Effect
  after_line (s, es) k = let (s', es') = k s in if s.running then (s', es ++ es') else (s, es)

  -- `input_loop` over the lines up to the end of the input.
  unfoldable pub input_loop : List Bytes → Session → Session × List Effect
  unfolding process_line after_line
  input_loop [] s = (record s { running = false }, [])
  input_loop (l ∷ ls) s = after_line (process_line l s) (input_loop ls)
