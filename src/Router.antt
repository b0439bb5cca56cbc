-- ===== src/Router.antt =====
-- The class `Router` of lib/ax25lib.cpp with the parts of `Kiss` that it drives: the decoder that
-- feeds it, and `send_frame`, which takes the encoded frames. `now` is what `now_ms()` returns during
-- a call. The connections hand their events over after each call; a frame goes to `tx`, a callback
-- to the log. Nobody deletes a connection during a call.
pub mod Pacing
pub mod Routing
pub mod Sessions
pub mod Isolation
use ax25toolkit.Base.{
  ℕ, ◌+◌, ◌*◌, ◌%◌, ◌^◌, Bool, true, false, not, ◌&&◌, List, [], ◌∷◌, ◌++◌, Bytes, Option, none,
  some, ltb, ◌==◌, is_empty, if◌then◌else◌, bit_or,
}
use ax25toolkit.Addr.{Addr, addr_eq}
use ax25toolkit.Frame.{
  Frame, FrameType, sabm, ui, no_frame, type, get_pf, decode, encode, dm_base, ui_base, pf_of,
}
use ax25toolkit.Kiss.{Decoder, feed}
use ax25toolkit.Kiss
use ax25toolkit.Kiss.Cmd
use ax25toolkit.Connection.{
  Connection, Config, Event, sends, on_connect, on_disconnect, on_data, new_connection,
}
use ax25toolkit.Connection.Machine.{handle_frame}
use ax25toolkit.Connection.Timers.{tick}
use ax25toolkit.Connection.Api.{start_connect}

-- The calls of the application's callbacks.
pub data Notice : Type 0 where
  monitor : Frame → Notice
  got_ui : Frame → Notice
  accepts : Addr → Notice
  connection : Addr → Event → Notice

-- `listening` tells whether `on_accept_` is set; `line` holds what was passed to
-- `Kiss::send_frame`, oldest first.
pub record Router : Type 0 where
  pub cfg : Config
  pub conns : List Connection
  pub listening : Bool
  pub tx_queue : List Bytes
  pub tx_next : ℕ
  pub decoder : Decoder
  pub line : List Bytes
  pub notices : List Notice

abbrev pub notify : Notice → Router → Router
notify n r = record r { notices = r.notices ++ n ∷ [] }

-- The loop of `drain_tx`; `tx_queue_` is the list.
unfoldable pub drain_loop : ℕ → List Bytes → Router → Router
drain_loop now [] r = r
drain_loop now (b ∷ bs) r =
    let next = drain_loop now bs (record r { line = r.line ++ b ∷ []; tx_queue = bs }) in
    if ltb now r.tx_next then r else next

unfoldable pub drain_tx : ℕ → Router → Router
drain_tx now r = drain_loop now r.tx_queue r

-- `tx`; no caller looks at its result.
unfoldable pub tx : ℕ → Frame → Router → Router
tx now f r =
    let encoded = encode f in
    if is_empty encoded
    then r
    else if r.cfg.txdelay == 0
    then record r { line = r.line ++ encoded ∷ [] }
    else drain_tx now (record r { tx_queue = r.tx_queue ++ encoded ∷ [] })

-- The events of a connection with the peer `peer`, in order.
unfoldable pub relay : ℕ → Addr → List Event → Router → Router
relay now peer [] r = r
relay now peer (sends f ∷ es) r = relay now peer es (tx now f r)
relay now peer (e ∷ es) r = relay now peer es (notify (connection peer e) r)

-- A connection between two calls has no events.
abbrev pub settled : Connection → Connection
settled c = record c { events = [] }

-- `find`
unfoldable pub matches : Addr → Addr → Connection → Bool
matches local remote c = addr_eq c.local_addr local && addr_eq c.remote_addr remote

unfoldable pub find : Addr → Addr → List Connection → Option Connection
unfolding matches
find local remote [] = none
find local remote (c ∷ cs) = if matches local remote c then some c else find local remote cs

-- The list with the connection that `find` finds replaced.
unfoldable pub replace : Addr → Addr → Connection → List Connection → List Connection
unfolding matches
replace local remote d [] = []
replace local remote d (c ∷ cs) =
    if matches local remote c then d ∷ cs else c ∷ replace local remote d cs

abbrev pub dm_for : Frame → Config → Frame
dm_for f cfg = record {
  dest = f.src;
  src = cfg.mycall;
  digis = [];
  ctrl = bit_or dm_base (pf_of (get_pf f)) % 2 ^ 8;
  pid = 0xF0;
  has_pid = false;
  info = [];
}

-- A SABM from a station without a session.
unfoldable pub open_session : ℕ → Frame → Router → Router
open_session now f r =
    if r.listening
    then (let d = handle_frame f now (new_connection r.cfg.mycall f.src r.cfg false) in
        relay now f.src d.events
          (notify (accepts f.src) (record r { conns = r.conns ++ settled d ∷ [] })))
    else tx now (dm_for f r.cfg) r

abbrev pub is_sabm : FrameType → Bool
is_sabm sabm = true
is_sabm _ = false

abbrev pub is_ui : FrameType → Bool
is_ui ui = true
is_ui _ = false

-- A frame addressed to this station, which is no UI frame.
unfoldable pub to_session : ℕ → Frame → Router → Router
to_session now f r = elim (find f.dest f.src r.conns) [
  | some c ↦
      let d = handle_frame f now c in
      relay now f.src d.events (record r { conns = replace f.dest f.src (settled d) r.conns })
  | none ↦ if is_sabm (type f) then open_session now f r else tx now (dm_for f r.cfg) r
]

-- The turnaround after a reception.
unfoldable pub hold_back : ℕ → Router → Router
hold_back now r =
    let earliest = (now + r.cfg.txdelay * 10) % 2 ^ 64 in
    if ltb 0 r.cfg.txdelay && ltb r.tx_next earliest then record r { tx_next = earliest } else r

-- `route` behind `Frame::decode`.
unfoldable pub dispatch : ℕ → Frame → Router → Router
unfolding hold_back
dispatch now f r =
    let r1 = notify (monitor f) (hold_back now r) in
    if is_ui (type f)
    then notify (got_ui f) r1
    else if not (addr_eq f.dest r1.cfg.mycall)
    then r1
    else to_session now f r1

unfoldable pub route : ℕ → Bytes → Router → Router
route now raw r = elim (decode raw no_frame) [ none ↦ r | some f ↦ dispatch now f r ]

unfoldable pub connect : ℕ → Addr → Router → Router
connect now remote r =
    let d = start_connect now (new_connection r.cfg.mycall remote r.cfg true) in
    relay now remote d.events (record r { conns = r.conns ++ settled d ∷ [] })

unfoldable pub send_ui : ℕ → Addr → ℕ → Bytes → List Addr → Router → Router
send_ui now dest pid info digis r =
    tx now
      (record {
        dest = dest;
        src = r.cfg.mycall;
        digis = if is_empty digis then r.cfg.digis else digis;
        ctrl = ui_base;
        pid = pid;
        has_pid = true;
        info = info;
      })
      r

-- The frames of one `feed`, as `Kiss::poll` passes them on: data frames alone.
unfoldable pub route_all : ℕ → List Kiss.Frame → Router → Router
route_all now [] r = r
route_all now (k ∷ ks) r =
    route_all now ks (if k.command == Cmd.data_frame then route now k.payload r else r)

-- The tick of each connection of the snapshot, in order, and the connections after it.
unfoldable pub tick_all : ℕ → List Connection → Router → List Connection × Router
tick_all now [] r = ([], r)
tick_all now (c ∷ cs) r =
    let d = tick now c in
    let (ds, r') = tick_all now cs (relay now c.remote_addr d.events r) in (settled d ∷ ds, r')

-- `poll`, with the bytes that the transport has: none if the read fails or finds nothing.
unfoldable pub poll : ℕ → Bytes → Router → Router
poll now bytes r =
    let (decoder', o) = feed r.decoder bytes in
    let r1 = drain_tx now (route_all now o.frames (record r { decoder = decoder' })) in
    let (conns', r2) = tick_all now r1.conns r1 in record r2 { conns = conns' }
