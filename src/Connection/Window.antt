-- ===== src/Connection/Window.antt =====
-- Window management of lib/ax25lib.cpp: `flush_window`, `process_nr`, `retransmit_all`,
-- `link_failed`.
use ax25toolkit.Base.{
  ℕ, ◌+◌, Bool, not, ◌&&◌, List, [], ◌∷◌, ◌++◌, Bytes, ltb, leb, ◌==◌, length, is_empty,
  if◌then◌else◌, bit_and,
}
use ax25toolkit.Connection.{
  Connection, UnackedFrame, disconnected, on_disconnect, emit, start_t1, stop_t1, start_t3, stop_t3,
  tx_iframe,
}

-- The body of the loop: `chunk` is the front of `send_buf_`, `rest` what is behind it.
unfoldable pub flush_chunk : Bytes → List Bytes → Connection → Connection
unfolding tx_iframe
flush_chunk chunk rest c =
    let c1 = record c {
      send_buf = rest;
      vs = bit_and (c.vs + 1) 7;
      unacked = c.unacked ++ record { ns = c.vs; payload = chunk } ∷ [];
    } in
    let window_full = leb c1.cfg.window (length c1.unacked) in
    let c2 = if window_full then record c1 { poll_sent = c1.poll_sent + 1 } else c1 in
    tx_iframe c.vs c2.vr window_full chunk c2

-- The loop; `send_buf_` is the list.
unfoldable pub flush_loop : List Bytes → Connection → Connection
flush_loop [] c = c
flush_loop (chunk ∷ rest) c =
    let next = flush_loop rest (flush_chunk chunk rest c) in
    if ltb (length c.unacked) c.cfg.window then next else c

unfoldable pub ensure_t1 : ℕ → Connection → Connection
unfolding start_t1
ensure_t1 now c = if not (is_empty c.unacked) && not c.t1_run then start_t1 now c else c

unfoldable pub flush_window : ℕ → Connection → Connection
unfolding ensure_t1
flush_window now c = if c.peer_busy then c else ensure_t1 now (flush_loop c.send_buf c)

-- Without the frames at the front up to the one numbered `nr`, or without all.
unfoldable pub pop_acked : ℕ → List UnackedFrame → List UnackedFrame
pop_acked nr [] = []
pop_acked nr (u ∷ us) = if not (u.ns == nr) then pop_acked nr us else u ∷ us

-- `process_nr` up to its call of `flush_window`.
unfoldable pub acknowledge : ℕ → ℕ → Connection → Connection
unfolding start_t1 stop_t1
acknowledge nr now c =
    let c1 = record c { unacked = pop_acked nr c.unacked; va = nr; retry = 0 } in
    if is_empty c1.unacked then stop_t1 c1 else start_t1 now c1

unfoldable pub process_nr : ℕ → ℕ → Connection → Connection
unfolding start_t3
process_nr nr now c = start_t3 now (flush_window now (acknowledge nr now c))

-- The body of the loop over `tmp`; the last frame polls.
unfoldable pub replay_frame : Bool → UnackedFrame → Connection → Connection
unfolding tx_iframe
replay_frame last u c =
    let c1 = if last then record c { poll_sent = c.poll_sent + 1 } else c in
    let c2 = tx_iframe c1.vs c1.vr last u.payload c1 in
    record c2 {
      unacked = c2.unacked ++ record { ns = c2.vs; payload = u.payload } ∷ [];
      vs = bit_and (c2.vs + 1) 7;
    }

unfoldable pub replay : List UnackedFrame → Connection → Connection
replay [] c = c
replay (u ∷ us) c = replay us (replay_frame (is_empty us) u c)

unfoldable pub retransmit_all : ℕ → Connection → Connection
unfolding start_t1
retransmit_all now c =
    let c1 = replay c.unacked (record c { vs = c.va; unacked = [] }) in
    if not (is_empty c1.unacked) then start_t1 now c1 else c1

unfoldable pub link_failed : Connection → Connection
unfolding stop_t1 stop_t3
link_failed c = emit on_disconnect (record (stop_t3 (stop_t1 c)) { state = disconnected })
