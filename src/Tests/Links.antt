-- ===== src/Tests/Links.antt =====
-- A connection in the middle of a session: the theorems about lib/ax25lib.cpp's `Connection`.
use ax25toolkit.Base.{
  ◌-◌, ℕ, ◌≤◌, ◌≡◌, ◌≢◌, refl, arith, true, false, List, [], ◌∷◌, ◌++◌, Bytes, All, some, length,
  ◌⊎◌,
}
use ax25toolkit.Base.Int.{pos}
use ax25toolkit.Addr.{Addr}
use ax25toolkit.Frame.{Frame, i_frame, sabm, type, type_of, get_ns, get_pf, nr_of}
use ax25toolkit.Connection.{Config, connected, Connection, new_connection, tx_rej}
use ax25toolkit.Connection.Window.{flush_window, process_nr, retransmit_all, link_failed}
use ax25toolkit.Connection.Machine.{handle_frame}
use ax25toolkit.Connection.Timers.{tick}
use ax25toolkit.Connection.Api.{send, disconnect}
use ax25toolkit.Connection.Numbering.{Numbered, next}
use ax25toolkit.Connection.Flow.{pending, InWindow, TimerRuns, sent, flush_window_lem}
use ax25toolkit.Connection.Acks.{process_nr_lem, process_nr_outside}
use ax25toolkit.Connection.Replay.{resent, retransmit_all_lem}
use ax25toolkit.Connection.Receive.{received, handle_frame_i}
use ax25toolkit.Connection.Stale.{reopened-ne-Numbered}
use ax25toolkit.Connection.Sending.{concat, IsPiece, send_lem}
use ax25toolkit.Connection.Invariant.{Inv, IsSound, IsClean}
use ax25toolkit.Connection.Session.{Step, Reach, Reach-Inv}

abbrev pub here : Addr
here = record { call = b'W' ∷ b'1' ∷ b'A' ∷ []; ssid = pos 0; repeated = false }

abbrev pub there : Addr
there = record { call = b'K' ∷ b'2' ∷ b'B' ∷ []; ssid = pos 7; repeated = false }

abbrev pub config : Config
config = record {
  mycall = here;
  digis = [];
  mtu = 3;
  window = 3;
  t1_ms = 3000;
  t2_ms = 1500;
  t3_ms = 60000;
  n2 = 10;
  baud = 1200;
  txdelay = 0;
  persist = 63;
}

-- Two frames in flight, one piece waiting.
abbrev pub link : Connection
link = record {
  local_addr = here;
  remote_addr = there;
  cfg = config;
  state = connected;
  outgoing = true;
  vs = 1;
  vr = 3;
  va = 7;
  retry = 0;
  t1_run = true;
  t1_exp = 3000;
  t2_run = false;
  t2_exp = 0;
  t3_run = true;
  t3_exp = 60000;
  poll_pending = false;
  ack_pending = false;
  peer_busy = false;
  rx_since_ack = 0;
  poll_sent = 0;
  send_buf = (b'x' ∷ []) ∷ [];
  unacked = record { ns = 7; payload = b'u' ∷ [] } ∷ record { ns = 0; payload = b'v' ∷ [] } ∷ [];
  events = [];
}

pub link-InWindow : InWindow link
link-InWindow = record {
  vs_lt = omega arith;
  vr_lt = omega arith;
  va_lt = omega arith;
  numbered = (refl, (refl, refl));
  fits = omega arith;
}

abbrev from_peer : ℕ → Bytes → Frame
from_peer ctrl info = record {
  dest = here;
  src = there;
  digis = [];
  ctrl = ctrl;
  pid = 0xF0;
  has_pid = true;
  info = info;
}

-- N(S) 3 and N(R) 0, without P.
abbrev data_in : Frame
data_in = from_peer 6 (b'o' ∷ b'k' ∷ [])

abbrev pub call_in : Frame
call_in = from_peer 0x3F []

data_in-type : type data_in ≡ i_frame
unfolding type_of
data_in-type = refl

call_in-type : type call_in ≡ sabm
unfolding type_of
call_in-type = refl

call_in-IsSound : IsSound call_in (new_connection here there config false)
unfolding new_connection
call_in-IsSound = λ e _. cc

call_in-IsClean : IsClean (new_connection here there config false)
unfolding new_connection
call_in-IsClean = λ _. refl

Reach-Inv_example :
    Inv (disconnect 9 (tick 7 (handle_frame call_in 5 (new_connection here there config false))))
Reach-Inv_example = Reach-Inv (
    Reach.later
      (Reach.later
        (Reach.later Reach.accepted (Step.frame call_in 5 call_in-IsSound call_in-IsClean))
        (Step.ticks 7))
      (Step.closes 9))

data_in-IsSound : IsSound data_in link
unfolding nr_of
data_in-IsSound = λ _ _. omega arith

link-IsClean : IsClean link
link-IsClean = λ e. cc

process_nr_lem_example :
    let d = process_nr 0 5 link in
    InWindow d
    × (pending d ≡ (b'v' ∷ []) ∷ (b'x' ∷ []) ∷ [])
    × TimerRuns d
    × (d.va ≡ 0)
    × (d.vr ≡ 3)
    × (d.state ≡ connected)
    × (d.cfg ≡ config)
process_nr_lem_example = process_nr_lem 0 5 link link-InWindow (omega arith, omega arith)

process_nr_outside_example : pending (process_nr 5 5 link) ≡ (b'x' ∷ []) ∷ []
process_nr_outside_example = process_nr_outside 5 5 link link-InWindow (omega arith) (omega arith)

retransmit_all_lem_example :
    let d = retransmit_all 5 link in
    (d.events ≡ resent link link.unacked)
    × (d.unacked ≡ link.unacked)
    × (d.vs ≡ 1)
    × (d.va ≡ 7)
    × (d.vr ≡ 3)
    × (d.send_buf ≡ link.send_buf)
    × (d.t1_run ≡ true)
    × (d.cfg ≡ config)
    × (d.state ≡ connected)
retransmit_all_lem_example = retransmit_all_lem 5 link link-InWindow

handle_frame_i_example :
    let d = handle_frame data_in 5 link in
    ((get_ns data_in ≡ 3) × (received d ≡ b'o' ∷ b'k' ∷ []) × (d.vr ≡ next 3))
    ⊎ ((get_ns data_in ≢ 3)
        × (received d ≡ [])
        × (d.vr ≡ 3)
        × ((before : Connection) × (before.vr ≡ 3) × (d ≡ tx_rej (get_pf data_in) before)))
handle_frame_i_example = handle_frame_i data_in 5 link refl data_in-type

flush_window_lem_example :
    let d = flush_window 5 link in
    (d.events ≡ link.events ++ sent link link.vs (3 - length link.unacked) link.send_buf)
    × (pending d ≡ pending link)
    × ((link.peer_busy ≡ true) ⊎ (d.send_buf ≡ []) ⊎ (3 ≤ length d.unacked))
flush_window_lem_example = flush_window_lem 5 link

send_lem_example :
    (d : Connection) × (pieces : List Bytes) × (send 5 (b'h' ∷ b'e' ∷ b'l' ∷ b'l' ∷ b'o' ∷ []) link
      ≡ some (d, true))
    × (concat pieces ≡ b'h' ∷ b'e' ∷ b'l' ∷ b'l' ∷ b'o' ∷ [])
    × All (IsPiece 3) pieces
    × (pending d ≡ pending link ++ pieces)
send_lem_example = send_lem 5 (b'h' ∷ b'e' ∷ b'l' ∷ b'l' ∷ b'o' ∷ []) link refl (omega arith)

abbrev letter : Bytes
letter = b'h' ∷ []

letter-ne-nil : letter ≢ []
letter-ne-nil = λ e. cc

reopened-ne-Numbered_example :
    let d = handle_frame call_in 5 (link_failed link) in
    (d.state ≡ connected)
    × (d.unacked ≡ link.unacked)
    × (d.va ≡ 0)
    × (d.vs ≡ 0)
    × (d.vr ≡ 0)
    × ¬ Numbered d.va d.unacked d.vs
reopened-ne-Numbered_example =
    reopened-ne-Numbered call_in 5 link call_in-type (omega arith) (omega arith)
