-- ===== src/Connection.antt =====
-- The class `Connection` of lib/ax25lib.hpp: its state, its configuration, its timers, and the frame
-- senders of lib/ax25lib.cpp. What a connection hands to others (a frame to the router, a call of
-- one of its callbacks) is an event at the end of `events`; a callback makes no call back into the
-- connection. An `int` that cannot be negative here is a number; `Millis` wraps at 2 ^ 64.
pub mod Window
pub mod Machine
pub mod Timers
pub mod Api
pub mod Numbering
pub mod Flow
pub mod Ends
pub mod Receive
pub mod Stale
pub mod Sending
pub mod Session
pub mod GiveUp
pub mod Acks
pub mod Replay
pub mod Invariant
use ax25toolkit.Base.{
  ℕ, ◌+◌, ◌*◌, ◌/◌, ◌%◌, ◌^◌, max, Bool, true, false, List, [], ◌∷◌, ◌++◌, Bytes, if◌then◌else◌,
  bit_or,
}
use ax25toolkit.Addr.{Addr}
use ax25toolkit.Frame.{
  Frame, no_frame, sabm_base, disc_base, ua_base, dm_base, pf_bit, pf_of, mk_rr, mk_i, mk_rej,
}

pub record Config : Type 0 where
  pub mycall : Addr
  pub digis : List Addr
  pub mtu : ℕ
  pub window : ℕ
  pub t1_ms : ℕ
  pub t2_ms : ℕ
  pub t3_ms : ℕ
  pub n2 : ℕ
  pub baud : ℕ
  pub txdelay : ℕ
  pub persist : ℕ

-- The product does not overflow an `int` in the configurations considered.
unfoldable pub compute_t1 : Config → ℕ
compute_t1 cfg = max cfg.t1_ms (cfg.window * cfg.mtu * 40000 / max cfg.baud 1)

pub data State : Type 0 where
  disconnected connecting connected disconnecting : State

pub record UnackedFrame : Type 0 where
  pub ns : ℕ
  pub payload : Bytes

pub data Event : Type 0 where
  sends : Frame → Event
  on_connect : Event
  on_disconnect : Event
  on_data : Bytes → Event

pub record Connection : Type 0 where
  pub local_addr : Addr
  pub remote_addr : Addr
  pub cfg : Config
  pub state : State
  pub outgoing : Bool
  pub vs : ℕ
  pub vr : ℕ
  pub va : ℕ
  pub retry : ℕ
  pub t1_run : Bool
  pub t1_exp : ℕ
  pub t2_run : Bool
  pub t2_exp : ℕ
  pub t3_run : Bool
  pub t3_exp : ℕ
  pub poll_pending : Bool
  pub ack_pending : Bool
  pub peer_busy : Bool
  pub rx_since_ack : ℕ
  pub poll_sent : ℕ
  pub send_buf : List Bytes
  pub unacked : List UnackedFrame
  pub events : List Event

-- The constructor.
unfoldable pub new_connection : Addr → Addr → Config → Bool → Connection
new_connection local remote cfg outgoing = record {
  local_addr = local;
  remote_addr = remote;
  cfg = cfg;
  state = disconnected;
  outgoing = outgoing;
  vs = 0;
  vr = 0;
  va = 0;
  retry = 0;
  t1_run = false;
  t1_exp = 0;
  t2_run = false;
  t2_exp = 0;
  t3_run = false;
  t3_exp = 0;
  poll_pending = false;
  ack_pending = false;
  peer_busy = false;
  rx_since_ack = 0;
  poll_sent = 0;
  send_buf = [];
  unacked = [];
  events = [];
}

abbrev pub later : ℕ → ℕ → ℕ
later now ms = (now + ms) % 2 ^ 64

unfoldable pub start_t1 : ℕ → Connection → Connection
start_t1 now c = record c { t1_exp = later now (compute_t1 c.cfg); t1_run = true }

unfoldable pub stop_t1 : Connection → Connection
stop_t1 c = record c { t1_run = false }

unfoldable pub start_t2 : ℕ → Connection → Connection
start_t2 now c = record c { t2_exp = later now c.cfg.t2_ms; t2_run = true }

unfoldable pub stop_t2 : Connection → Connection
stop_t2 c = record c { t2_run = false; ack_pending = false }

-- `start_t3` and `reset_t3` have one body.
unfoldable pub start_t3 : ℕ → Connection → Connection
start_t3 now c = record c { t3_exp = later now c.cfg.t3_ms; t3_run = true }

unfoldable pub stop_t3 : Connection → Connection
stop_t3 c = record c { t3_run = false }

abbrev pub emit : Event → Connection → Connection
emit e c = record c { events = c.events ++ e ∷ [] }

-- A frame without a PID from this end to the other.
abbrev pub plain_frame : Connection → List Addr → ℕ → Frame
plain_frame c digis ctrl = record {
  dest = c.remote_addr;
  src = c.local_addr;
  digis = digis;
  ctrl = ctrl;
  pid = 0xF0;
  has_pid = false;
  info = [];
}

unfoldable pub tx_sabm : Connection → Connection
tx_sabm c = emit (sends (plain_frame c c.cfg.digis (bit_or sabm_base pf_bit % 2 ^ 8))) c

unfoldable pub tx_disc : Connection → Connection
tx_disc c = emit (sends (plain_frame c c.cfg.digis (bit_or disc_base pf_bit % 2 ^ 8))) c

unfoldable pub tx_ua : Bool → Connection → Connection
tx_ua pf c = emit (sends (plain_frame c [] (bit_or ua_base (pf_of pf) % 2 ^ 8))) c

unfoldable pub tx_dm : Bool → Connection → Connection
tx_dm pf c = emit (sends (plain_frame c [] (bit_or dm_base (pf_of pf) % 2 ^ 8))) c

unfoldable pub tx_rr : Bool → Connection → Connection
tx_rr pf c = emit (sends (plain_frame c [] (mk_rr c.vr pf))) c

-- The REJ that `handle_frame` builds in place.
unfoldable pub tx_rej : Bool → Connection → Connection
tx_rej pf c = emit (sends (plain_frame c [] (mk_rej c.vr pf))) c

abbrev pub i_frame_of : Connection → ℕ → ℕ → Bool → Bytes → Frame
i_frame_of c ns nr pf payload = record {
  dest = c.remote_addr;
  src = c.local_addr;
  digis = c.cfg.digis;
  ctrl = mk_i ns nr pf;
  pid = 0xF0;
  has_pid = true;
  info = payload;
}

-- An I frame carries N(R), so a delayed acknowledgement is off.
unfoldable pub tx_iframe : ℕ → ℕ → Bool → Bytes → Connection → Connection
unfolding stop_t2
tx_iframe ns nr pf payload c =
    let c' = emit (sends (i_frame_of c ns nr pf payload)) c in
    if c'.ack_pending then stop_t2 c' else c'
