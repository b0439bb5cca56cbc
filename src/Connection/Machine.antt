-- ===== src/Connection/Machine.antt =====
-- The state machine: `handle_frame` of lib/ax25lib.cpp, one function for each state and each case.
use ax25toolkit.Base.{
  ℕ, ◌+◌, ◌-◌, Bool, true, false, [], Bytes, ltb, ◌==◌, is_empty, if◌then◌else◌, bit_and,
}
use ax25toolkit.Frame.{
  Frame, FrameType, i_frame, sabm, disc, ua, dm, rr, rnr, rej, type, get_ns, get_nr, get_pf,
}
use ax25toolkit.Connection.{
  Connection, State, disconnected, connecting, connected, disconnecting, on_connect, on_disconnect,
  on_data, emit, stop_t1, start_t2, stop_t2, start_t3, stop_t3, tx_ua, tx_dm, tx_rr, tx_rej,
}
use ax25toolkit.Connection.Window.{flush_window, pop_acked, process_nr, retransmit_all, link_failed}

unfoldable pub when_disconnected : FrameType → Bool → ℕ → Connection → Connection
unfolding stop_t2 tx_ua tx_dm start_t3
when_disconnected sabm pf now c =
    let c1 = record c { vs = 0; vr = 0; va = 0; retry = 0; peer_busy = false; rx_since_ack = 0 } in
    let c2 = tx_ua pf (stop_t2 c1) in
    emit on_connect (start_t3 now (record c2 { state = connected }))
when_disconnected _ pf now c = tx_dm pf c

unfoldable pub when_connecting : FrameType → Bool → ℕ → Connection → Connection
unfolding stop_t1 stop_t2 start_t3 tx_ua
when_connecting ua pf now c =
    let c1 = record (stop_t2 (stop_t1 c)) {
      vs = 0;
      vr = 0;
      va = 0;
      retry = 0;
      state = connected;
    } in
    flush_window now (emit on_connect (start_t3 now c1))
when_connecting dm pf now c = emit on_disconnect (record (stop_t1 c) { state = disconnected })
when_connecting sabm pf now c = tx_ua pf c
when_connecting _ pf now c = c

unfoldable pub closed_by_peer : Bool → Connection → Connection
unfolding stop_t1 stop_t3 tx_ua
closed_by_peer pf c =
    let c1 = record (stop_t3 (stop_t1 c)) { send_buf = []; unacked = [] } in
    emit on_disconnect (record (tx_ua pf c1) { state = disconnected })

unfoldable pub reset_by_peer : Bool → Connection → Connection
unfolding stop_t2 tx_ua
reset_by_peer pf c =
    let c1 = stop_t2 (record c { vs = 0; vr = 0; va = 0; peer_busy = false }) in
    tx_ua pf (record c1 { unacked = []; send_buf = [] })

-- `on_data` is taken to be set.
unfoldable pub deliver : Bytes → Connection → Connection
deliver info c = if is_empty info then c else emit (on_data info) c

unfoldable pub accept : Bool → Bytes → ℕ → Connection → Connection
unfolding deliver stop_t2 start_t2 tx_rr
accept pf info now c =
    let c1 = deliver info (record c { vr = bit_and (c.vr + 1) 7 }) in
    if pf then tx_rr true (stop_t2 c1) else start_t2 now (record c1 { ack_pending = true })

unfoldable pub refuse : Bool → Connection → Connection
unfolding tx_rej
refuse pf c = tx_rej pf (record c { rx_since_ack = 0 })

unfoldable pub got_i : Frame → ℕ → Connection → Connection
got_i f now c =
    let c1 = process_nr (get_nr f) now c in
    if get_ns f == c1.vr then accept (get_pf f) f.info now c1 else refuse (get_pf f) c1

-- The F bit of an answer to one of our polls is counted off; a poll is answered.
unfoldable pub answer_poll : Bool → Connection → Connection
unfolding tx_rr
answer_poll pf c =
    if pf
    then (if ltb 0 c.poll_sent then record c { poll_sent = c.poll_sent - 1 } else tx_rr true c)
    else c

unfoldable pub got_rr : Frame → ℕ → Connection → Connection
unfolding answer_poll
got_rr f now c = answer_poll (get_pf f) (process_nr (get_nr f) now (record c { peer_busy = false }))

unfoldable pub got_rnr : Frame → ℕ → Connection → Connection
unfolding answer_poll
got_rnr f now c = answer_poll (get_pf f) (process_nr (get_nr f) now (record c { peer_busy = true }))

unfoldable pub got_rej : Frame → ℕ → Connection → Connection
unfolding start_t3
got_rej f now c =
    let c1 = record c {
      peer_busy = false;
      unacked = pop_acked (get_nr f) c.unacked;
      va = get_nr f;
      retry = 0;
    } in
    flush_window now (retransmit_all now (start_t3 now c1))

unfoldable pub connected_case : FrameType → Frame → ℕ → Connection → Connection
connected_case disc f now c = closed_by_peer (get_pf f) c
connected_case sabm f now c = reset_by_peer (get_pf f) c
connected_case dm f now c = link_failed c
connected_case i_frame f now c = got_i f now c
connected_case rr f now c = got_rr f now c
connected_case rnr f now c = got_rnr f now c
connected_case rej f now c = got_rej f now c
connected_case _ f now c = c

unfoldable pub when_connected : FrameType → Frame → ℕ → Connection → Connection
unfolding start_t3
when_connected t f now c = connected_case t f now (record (start_t3 now c) { poll_pending = false })

unfoldable pub when_disconnecting : FrameType → Connection → Connection
unfolding stop_t1
when_disconnecting ua c = emit on_disconnect (record (stop_t1 c) { state = disconnected })
when_disconnecting dm c = emit on_disconnect (record (stop_t1 c) { state = disconnected })
when_disconnecting _ c = c

unfoldable pub handle_in : State → Frame → ℕ → Connection → Connection
unfolding when_disconnected when_connecting when_connected when_disconnecting
handle_in disconnected f now c = when_disconnected (type f) (get_pf f) now c
handle_in connecting f now c = when_connecting (type f) (get_pf f) now c
handle_in connected f now c = when_connected (type f) f now c
handle_in disconnecting f now c = when_disconnecting (type f) c

unfoldable pub handle_frame : Frame → ℕ → Connection → Connection
unfolding handle_in
handle_frame f now c = handle_in c.state f now c
