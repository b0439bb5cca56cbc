-- ===== src/Connection/Ends.antt =====
-- A connection keeps the addresses of its two ends.
use ax25toolkit.Base.{ℕ, ◌≡◌, refl, ◌∙◌, arith, Bool, true, false, List, [], ◌∷◌, is_empty}
use ax25toolkit.Frame.{
  Frame, FrameType, i_frame, sabm, disc, ua, dm, rr, rnr, rej, type, get_nr, get_pf,
}
use ax25toolkit.Connection.{
  Connection, State, UnackedFrame, disconnected, connecting, connected, disconnecting,
}
use ax25toolkit.Connection.Window.{
  flush_window, acknowledge, process_nr, replay_frame, replay, retransmit_all, link_failed,
}
use ax25toolkit.Connection.Flow.{flush_loop-SameLink}
use ax25toolkit.Connection.Machine.{
  when_disconnected, when_connecting, closed_by_peer, reset_by_peer, deliver, accept, refuse, got_i,
  answer_poll, got_rr, got_rnr, got_rej, connected_case, when_connected, when_disconnecting,
  handle_in, handle_frame,
}

abbrev pub SameEnds : Connection → Connection → Type 0
SameEnds c d = (d.local_addr ≡ c.local_addr) × (d.remote_addr ≡ c.remote_addr)

flush_window-SameEnds : (now : ℕ) (c : Connection) → SameEnds c (flush_window now c)
unfolding flush_window
flush_window-SameEnds now c = ground (arith, flush_loop-SameLink c.send_buf c)

replay_frame-SameEnds :
    (last : Bool) (u : UnackedFrame) (c : Connection) → SameEnds c (replay_frame last u c)
unfolding replay_frame
replay_frame-SameEnds last u c = ground arith

replay-SameEnds : (us : List UnackedFrame) (c : Connection) → SameEnds c (replay us c)
unfolding replay
replay-SameEnds [] c = (refl, refl)
replay-SameEnds (u ∷ us) c =
    let h = replay_frame-SameEnds (is_empty us) u c in
    let k = replay-SameEnds us (replay_frame (is_empty us) u c) in (k.0 ∙ h.0, k.1 ∙ h.1)

retransmit_all-SameEnds : (now : ℕ) (c : Connection) → SameEnds c (retransmit_all now c)
unfolding retransmit_all
retransmit_all-SameEnds now c =
    ground (arith, replay-SameEnds c.unacked (record c { vs = c.va; unacked = [] }))

process_nr-SameEnds : (nr now : ℕ) (c : Connection) → SameEnds c (process_nr nr now c)
unfolding process_nr acknowledge
process_nr-SameEnds nr now c = ground (arith, flush_window-SameEnds now (acknowledge nr now c))

accept-SameEnds :
    (pf : Bool) (info : List ℕ) (now : ℕ) (c : Connection) → SameEnds c (accept pf info now c)
unfolding accept deliver
accept-SameEnds pf info now c = ground arith

got_i-SameEnds : (f : Frame) (now : ℕ) (c : Connection) → SameEnds c (got_i f now c)
unfolding got_i refuse
got_i-SameEnds f now c =
    let d = process_nr (get_nr f) now c in
    ground (arith, process_nr-SameEnds (get_nr f) now c, accept-SameEnds (get_pf f) f.info now d)

answer_poll-SameEnds : (pf : Bool) (c : Connection) → SameEnds c (answer_poll pf c)
unfolding answer_poll
answer_poll-SameEnds pf c = ground arith

got_rr-SameEnds : (f : Frame) (now : ℕ) (c : Connection) → SameEnds c (got_rr f now c)
unfolding got_rr
got_rr-SameEnds f now c =
    let c1 = record c { peer_busy = false } in
    let h = process_nr-SameEnds (get_nr f) now c1 in
    let k = answer_poll-SameEnds (get_pf f) (process_nr (get_nr f) now c1) in (k.0 ∙ h.0, k.1 ∙ h.1)

got_rnr-SameEnds : (f : Frame) (now : ℕ) (c : Connection) → SameEnds c (got_rnr f now c)
unfolding got_rnr
got_rnr-SameEnds f now c =
    let c1 = record c { peer_busy = true } in
    let h = process_nr-SameEnds (get_nr f) now c1 in
    let k = answer_poll-SameEnds (get_pf f) (process_nr (get_nr f) now c1) in (k.0 ∙ h.0, k.1 ∙ h.1)

got_rej-SameEnds : (f : Frame) (now : ℕ) (c : Connection) → SameEnds c (got_rej f now c)
unfolding got_rej
got_rej-SameEnds f now c =
    let k = flush_window-SameEnds now _ in
    let h = retransmit_all-SameEnds now _ in (k.0 ∙ h.0, k.1 ∙ h.1)

connected_case-SameEnds :
    (t : FrameType) (f : Frame) (now : ℕ) (c : Connection) → SameEnds c (connected_case t f now c)
unfolding connected_case closed_by_peer reset_by_peer link_failed
connected_case-SameEnds disc f now c = (refl, refl)
connected_case-SameEnds sabm f now c = (refl, refl)
connected_case-SameEnds dm f now c = (refl, refl)
connected_case-SameEnds i_frame f now c = got_i-SameEnds f now c
connected_case-SameEnds rr f now c = got_rr-SameEnds f now c
connected_case-SameEnds rnr f now c = got_rnr-SameEnds f now c
connected_case-SameEnds rej f now c = got_rej-SameEnds f now c
connected_case-SameEnds _ f now c = (refl, refl)

when_disconnected-SameEnds :
    (t : FrameType) (pf : Bool) (now : ℕ) (c : Connection)
    → SameEnds c (when_disconnected t pf now c)
unfolding when_disconnected
when_disconnected-SameEnds sabm pf now c = (refl, refl)
when_disconnected-SameEnds _ pf now c = (refl, refl)

when_connecting-SameEnds :
    (t : FrameType) (pf : Bool) (now : ℕ) (c : Connection) → SameEnds c (when_connecting t pf now c)
unfolding when_connecting
when_connecting-SameEnds ua pf now c = flush_window-SameEnds now _
when_connecting-SameEnds dm pf now c = (refl, refl)
when_connecting-SameEnds sabm pf now c = (refl, refl)
when_connecting-SameEnds _ pf now c = (refl, refl)

when_disconnecting-SameEnds : (t : FrameType) (c : Connection) → SameEnds c (when_disconnecting t c)
unfolding when_disconnecting
when_disconnecting-SameEnds ua c = (refl, refl)
when_disconnecting-SameEnds dm c = (refl, refl)
when_disconnecting-SameEnds _ c = (refl, refl)

handle_in-SameEnds :
    (s : State) (f : Frame) (now : ℕ) (c : Connection) → SameEnds c (handle_in s f now c)
unfolding handle_in when_connected
handle_in-SameEnds disconnected f now c = when_disconnected-SameEnds (type f) (get_pf f) now c
handle_in-SameEnds connecting f now c = when_connecting-SameEnds (type f) (get_pf f) now c
handle_in-SameEnds connected f now c = connected_case-SameEnds (type f) f now _
handle_in-SameEnds disconnecting f now c = when_disconnecting-SameEnds (type f) c

-- No frame changes the addresses of a connection.
pub handle_frame-SameEnds :
    (f : Frame) (now : ℕ) (c : Connection) → SameEnds c (handle_frame f now c)
unfolding handle_frame
handle_frame-SameEnds f now c = handle_in-SameEnds c.state f now c
