-- ===== src/Tests/Tools.antt =====
-- The list of objects, configuration files, APRS messages, scripts and dumps at concrete inputs.
use ax25toolkit.Base.{
  ◌≡◌, ◌≢◌, ◌≤◌, ◌+◌, ◌^◌, All, refl, arith, inl, inr, true, List, [], ◌∷◌, ◌++◌, Bytes, none, some,
  length, replicate,
}
use ax25toolkit.Base.Text.{codes, bytes_eq}
use ax25toolkit.Kiss
use ax25toolkit.Modem
use ax25toolkit.Modem.{
  take_frames, take_frame, enqueue_frame, can_supersede, ctrl_offset, same_link, scramble_all,
  descramble_all,
}
use ax25toolkit.Modem.Queue.{others, data_of, take_frames-others}
use ax25toolkit.Modem.Scrambler.{descramble_all-scramble_all}
use ax25toolkit.ObjList.{snapshot}
use ax25toolkit.ObjList.Lifetimes.{
  Event, made, destroyed, after, Alive, at_first, by_made, by_destroyed, snapshot-after,
}
use ax25toolkit.Ini.{get, load}
use ax25toolkit.Ini.Lines.{section, entry, Means, header, assignment}
use ax25toolkit.Ini.Files.{Line, file_of, get-load}
use ax25toolkit.Aprs.{Msg, make_msg, parse_msg, three_digits}
use ax25toolkit.Aprs.Messages.{parse_msg-make_msg}
use ax25toolkit.ScriptFinder.{System, Finder, search_dirs, is_in, find, resolve}
use ax25toolkit.ScriptFinder.Found.{offered, is_distinct, find-offered}
use ax25toolkit.ScriptFinder.Resolved.{candidates, first, else_sole, resolve-first}
use ax25toolkit.Dump.{hex_dump}
use ax25toolkit.Dump.Undone.{read_dump, read_dump-hex_dump}

-- Three objects are made and the middle one is destroyed, then the last.
abbrev events : List Event
events = destroyed 30 ∷ destroyed 20 ∷ made 30 ∷ made 20 ∷ made 10 ∷ []

events-Alive : Alive events (10 ∷ [])
events-Alive = by_destroyed _ (10 ∷ []) 30 [] (
    by_destroyed _ (10 ∷ []) 20 (30 ∷ []) (
      by_made _ (10 ∷ 20 ∷ []) 30
        (by_made _ (10 ∷ []) 20 (by_made _ [] 10 at_first tt) (omega arith, tt))
        (omega arith, (omega arith, tt))))

snapshot-after_example : (snapshot (after events) ≡ some (10 ∷ [])) × ((after events).size ≡ 1)
snapshot-after_example = snapshot-after events (10 ∷ []) events-Alive

header_line-Means : Means (codes "[ax25] ; station") (section (codes "ax25"))
header_line-Means =
    header [] [] (codes "ax25") [] (codes " ") (codes "; station") tt tt
      (ground arith, (refl, refl)) tt (refl, tt) (inl refl)

header_line_whole : All (λ c. c ≢ 10) (codes "[ax25] ; station")
header_line_whole = ground arith

abbrev header_line : Line
header_line = record {
  text = codes "[ax25] ; station";
  item = section (codes "ax25");
  means = header_line-Means;
  one_line = header_line_whole;
}

entry_line-Means :
    Means (codes " callsign = N0CALL # mine") (entry (codes "callsign") (codes "N0CALL"))
entry_line-Means =
    assignment (codes " ") b'c' (codes "allsign") (codes " ") (codes " ") (codes "N0CALL")
      (codes " ") (codes "# mine") (refl, tt) (ground arith, (refl, refl)) (ground arith)
      (ground arith) (refl, tt) (refl, tt) (ground arith, (refl, refl)) (refl, tt) (inr refl)

entry_line_whole : All (λ c. c ≢ 10) (codes " callsign = N0CALL # mine")
entry_line_whole = ground arith

abbrev entry_line : Line
entry_line = record {
  text = codes " callsign = N0CALL # mine";
  item = entry (codes "callsign") (codes "N0CALL");
  means = entry_line-Means;
  one_line = entry_line_whole;
}

get-load_example :
    get
      (load (some (file_of (header_line ∷ entry_line ∷ []))) []).1
      (codes "ax25")
      (codes "callsign")
      (codes "?")
    ≡ codes "N0CALL"
unfolding bytes_eq get
get-load_example =
    get-load (header_line ∷ entry_line ∷ []) [] (codes "ax25") (codes "callsign") (codes "?")

abbrev no_msg : Msg
no_msg = record { to = []; text = []; seq = [] }

parse_msg-make_msg_example :
    parse_msg (make_msg (codes "W1AW-7") (codes "QSL {73}") 41).0 no_msg
    ≡ some (record { to = codes "W1AW-7"; text = codes "QSL {73}"; seq = three_digits 42 })
parse_msg-make_msg_example =
    parse_msg-make_msg (codes "W1AW-7") (codes "QSL {73}") 41 no_msg (ground arith, (refl, refl))
      (omega arith) (ground arith) (ground arith, (refl, refl)) (unfold three_digits in omega arith)

-- One directory, with a script that can be read and a text.
abbrev system : System
system = record {
  readable = λ p. bytes_eq p (codes "./a.bas");
  listing = λ d. some (codes "b.txt" ∷ codes "a.bas" ∷ []);
  search = λ p. none;
}

abbrev finder : Finder
finder = record { cli_paths = []; env_path = []; default_dir = [] }

find-offered_example :
    (is_in (codes "./a.bas") (find system finder [])
      ≡ offered system [] (codes "./a.bas") (search_dirs finder))
    × (is_distinct (find system finder []) ≡ true)
find-offered_example = find-offered system finder [] (codes "./a.bas")

resolve-first_example :
    resolve system finder (codes "a")
    ≡ else_sole
        (first system.readable (candidates finder (codes "a")))
        (find system finder (codes "a"))
resolve-first_example = resolve-first system finder (codes "a") refl

read_dump-hex_dump_example :
    read_dump 2 (hex_dump (replicate 20 0xC0) (codes "> ")) ≡ replicate 20 0xC0
read_dump-hex_dump_example =
    read_dump-hex_dump (replicate 20 0xC0) (codes "> ") (ground arith) (ground arith)

-- Two acknowledgements of one station to another, and a UI frame between them.
abbrev block : Bytes
block =
    (0x82 ∷ 0x82 ∷ 0x40 ∷ 0x40 ∷ 0x40 ∷ 0x40 ∷ 0x60 ∷ [])
    ++ (0x84 ∷ 0x84 ∷ 0x40 ∷ 0x40 ∷ 0x40 ∷ 0x40 ∷ 0x61 ∷ [])

abbrev from_host : List Kiss.Frame
from_host =
    record { command = 0; port = 0; payload = block ++ 0x21 ∷ [] }
    ∷ record { command = 0; port = 0; payload = block ++ 0x03 ∷ 0xF0 ∷ 0x41 ∷ [] }
    ∷ record { command = 0; port = 0; payload = block ++ 0x41 ∷ [] }
    ∷ record { command = 1; port = 0; payload = 30 ∷ [] }
    ∷ []

abbrev modem_at_start : Modem.Station
modem_at_start = record { txdelay = 40; persist = 63; slottime = 10; txtail = 10; tx_queue = [] }

superseded :
    (take_frames from_host modem_at_start).tx_queue
    ≡ (block ++ 0x41 ∷ []) ∷ (block ++ 0x03 ∷ 0xF0 ∷ 0x41 ∷ []) ∷ []
unfolding take_frames take_frame enqueue_frame can_supersede ctrl_offset same_link bytes_eq
superseded = refl

take_frames-others_example :
    (others (take_frames from_host modem_at_start).tx_queue ≡ others (data_of from_host))
    × (length (take_frames from_host modem_at_start).tx_queue ≤ 0 + 3)
unfolding others
take_frames-others_example = take_frames-others from_host modem_at_start

descramble_all-scramble_all_example :
    descramble_all (2 ^ 17) (scramble_all 0 (1 ∷ 0 ∷ 1 ∷ 1 ∷ [])) ≡ 1 ∷ 0 ∷ 1 ∷ 1 ∷ []
descramble_all-scramble_all_example =
    descramble_all-scramble_all (1 ∷ 0 ∷ 1 ∷ 1 ∷ []) 0 (2 ^ 17) (ground arith) refl
