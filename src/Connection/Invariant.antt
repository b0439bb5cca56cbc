-- ===== src/Connection/Invariant.antt =====
-- The invariant of a connection, and that every call keeps it.
use ax25toolkit.Base.{ℕ, ◌≤◌, ◌≡◌, refl, sym, ◌∙◌, subst, arith, Bool, true, false, [], length}
use ax25toolkit.Frame.{
  Frame, FrameType, i_frame, sabm, disc, ua, dm, rr, rnr, rej, type, get_nr, get_pf,
}
use ax25toolkit.Frame.Control.{nr_of-lt}
use ax25toolkit.Connection.{
  Connection, State, disconnected, connecting, connected, disconnecting, start_t3,
}
use ax25toolkit.Connection.Window.{pop_acked, process_nr, flush_window, retransmit_all, link_failed}
use ax25toolkit.Connection.Machine.{
  when_disconnected, when_connecting, closed_by_peer, reset_by_peer, accept, refuse, got_i,
  answer_poll, got_rr, got_rnr, got_rej, connected_case, when_connected, when_disconnecting,
  handle_in, handle_frame,
}
use ax25toolkit.Connection.Numbering.{distance, next-lt}
use ax25toolkit.Connection.Flow.{
  InWindow, TimerRuns, flush_window-InWindow, flush_window-TimerRuns, flush_window_same,
}
use ax25toolkit.Connection.Acks.{IsAck, acked-InWindow, process_nr_lem}
use ax25toolkit.Connection.Replay.{retransmit_all-InWindow, retransmit_all_lem}

-- Connected: the window is in order, and T1 runs while frames are in flight. Waiting for an answer
-- to SABM or DISC: T1 runs, so the wait ends; before the first answer nothing is queued.
abbrev pub Holds : State → Connection → Type 0
Holds connected c = InWindow c × TimerRuns c
Holds connecting c = (c.t1_run ≡ true) × (c.unacked ≡ []) × (c.send_buf ≡ [])
Holds disconnecting c = c.t1_run ≡ true
Holds disconnected c = Unit

abbrev pub Inv : Connection → Type 0
Inv c = Holds c.state c

abbrev pub carries_nr : FrameType → Bool
carries_nr i_frame = true
carries_nr rr = true
carries_nr rnr = true
carries_nr rej = true
carries_nr _ = false

-- A frame that arrives in state connected acknowledges no more than what is in flight.
abbrev pub IsSound : Frame → Connection → Type 0
IsSound f c =
    c.state ≡ connected → carries_nr (type f) ≡ true → distance c.va (get_nr f) ≤ length c.unacked

-- A connection that is opened by the peer holds no frames of an earlier session.
abbrev pub IsClean : Connection → Type 0
IsClean c = c.state ≡ disconnected → c.unacked ≡ []

empty-InWindow :
    (c : Connection) → c.unacked ≡ [] → c.va ≡ 0 → c.vs ≡ 0 → c.vr ≡ 0 → InWindow c × TimerRuns c
empty-InWindow c u a s r = ground arith

pub Inv-of : (s : State) (c : Connection) → c.state ≡ s → Holds s c → Inv c
Inv-of s c e h = subst (λ (x : State). Holds x c) (sym e) h

pub flush_window-Inv :
    (now : ℕ) (c : Connection)
    → InWindow c × TimerRuns c
    → c.state ≡ connected
    → Inv (flush_window now c)
flush_window-Inv now c v e =
    Inv-of connected (flush_window now c) ((flush_window_same now c).1 ∙ e)
      (flush_window-InWindow now c v.0, flush_window-TimerRuns now c v.1)

when_disconnected-Inv :
    (t : FrameType) (pf : Bool) (now : ℕ) (c : Connection)
    → c.state ≡ disconnected
    → c.unacked ≡ []
    → Inv (when_disconnected t pf now c)
unfolding when_disconnected
when_disconnected-Inv sabm pf now c e u = ground arith
when_disconnected-Inv _ pf now c e u = rw e tt

when_connecting-Inv :
    (t : FrameType) (pf : Bool) (now : ℕ) (c : Connection)
    → c.state ≡ connecting
    → Inv c
    → Inv (when_connecting t pf now c)
unfolding when_connecting
when_connecting-Inv ua pf now c e h =
    let k : Holds connecting c = subst (λ (x : State). Holds x c) e h in
    flush_window-Inv now _ (ground arith, ground arith) refl
when_connecting-Inv dm pf now c e h = tt
when_connecting-Inv sabm pf now c e h =
    Inv-of connecting (when_connecting sabm pf now c) e (subst (λ (x : State). Holds x c) e h)
when_connecting-Inv _ pf now c e h = h

when_disconnecting-Inv :
    (t : FrameType) (c : Connection)
    → c.state ≡ disconnecting
    → Inv c
    → Inv (when_disconnecting t c)
unfolding when_disconnecting
when_disconnecting-Inv ua c e h = tt
when_disconnecting-Inv dm c e h = tt
when_disconnecting-Inv _ c e h = h

-- The cases of state connected, after the keep-alive timer is set anew.
module _ (f : Frame) (now : ℕ) (c : Connection) (e : c.state ≡ connected) (v : InWindow c)
    (t : TimerRuns c) where
  got_i-Inv : IsAck (get_nr f) c → Inv (got_i f now c)
  unfolding got_i accept refuse
  got_i-Inv a =
      let q = process_nr_lem (get_nr f) now c v a in
      Inv-of connected (got_i f now c) (ground (arith, q))
        (ground (arith, q, next-lt (process_nr (get_nr f) now c).vr))

  answered_rr-Inv :
      (d : Connection)
      → InWindow d
      → TimerRuns d
      → d.state ≡ connected
      → (pf : Bool) → Inv (answer_poll pf d)
  unfolding answer_poll
  answered_rr-Inv d w s k pf =
      Inv-of connected (answer_poll pf d) (ground arith) (ground (arith, s))

  got_rr-Inv : IsAck (get_nr f) c → Inv (got_rr f now c)
  unfolding got_rr
  got_rr-Inv a =
      let q = process_nr_lem (get_nr f) now (record c { peer_busy = false }) (ground arith) a in
      answered_rr-Inv _ q.0 q.2 (q.5 ∙ e) (get_pf f)

  got_rnr-Inv : IsAck (get_nr f) c → Inv (got_rnr f now c)
  unfolding got_rnr
  got_rnr-Inv a =
      let q = process_nr_lem (get_nr f) now (record c { peer_busy = true }) (ground arith) a in
      answered_rr-Inv _ q.0 q.2 (q.5 ∙ e) (get_pf f)

  got_rej-Inv : IsAck (get_nr f) c → Inv (got_rej f now c)
  unfolding got_rej
  got_rej-Inv a =
      let d = start_t3 now (record c {
        peer_busy = false;
        unacked = pop_acked (get_nr f) c.unacked;
        va = get_nr f;
        retry = 0;
      }) in
      let w = (acked-InWindow (get_nr f) c d v a refl refl refl refl refl refl).0 in
      flush_window-Inv now (retransmit_all now d) (retransmit_all-InWindow now d w)
        ((retransmit_all_lem now d w).8 ∙ e)

  connected_case-Inv :
      (k : FrameType)
      → (carries_nr k ≡ true → distance c.va (get_nr f) ≤ length c.unacked)
      → Inv (connected_case k f now c)
  unfolding connected_case closed_by_peer reset_by_peer link_failed
  connected_case-Inv disc a = tt
  connected_case-Inv sabm a = Inv-of connected _ e (ground arith, ground arith)
  connected_case-Inv dm a = tt
  connected_case-Inv i_frame a = got_i-Inv (nr_of-lt f.ctrl, a refl)
  connected_case-Inv rr a = got_rr-Inv (nr_of-lt f.ctrl, a refl)
  connected_case-Inv rnr a = got_rnr-Inv (nr_of-lt f.ctrl, a refl)
  connected_case-Inv rej a = got_rej-Inv (nr_of-lt f.ctrl, a refl)
  connected_case-Inv _ a = Inv-of connected c e (v, t)

when_connected-Inv :
    (f : Frame) (now : ℕ) (c : Connection)
    → c.state ≡ connected
    → Inv c
    → IsSound f c
    → Inv (when_connected (type f) f now c)
unfolding when_connected
when_connected-Inv f now c e h a =
    let k : Holds connected c = subst (λ (x : State). Holds x c) e h in
    connected_case-Inv f now (record (start_t3 now c) { poll_pending = false }) e (ground arith) k.1
      (type f) (a e)

handle_in-Inv :
    (s : State) (f : Frame) (now : ℕ) (c : Connection)
    → c.state ≡ s
    → Inv c
    → IsSound f c
    → IsClean c
    → Inv (handle_in s f now c)
unfolding handle_in
handle_in-Inv disconnected f now c e h a n = when_disconnected-Inv (type f) (get_pf f) now c e (n e)
handle_in-Inv connecting f now c e h a n = when_connecting-Inv (type f) (get_pf f) now c e h
handle_in-Inv connected f now c e h a n = when_connected-Inv f now c e h a
handle_in-Inv disconnecting f now c e h a n = when_disconnecting-Inv (type f) c e h

-- Every frame keeps the invariant, in every state, if its N(R) acknowledges no more than what is
-- in flight, and if no frame of an earlier session is left when the peer opens the connection.
pub handle_frame-Inv :
    (f : Frame) (now : ℕ) (c : Connection)
    → Inv c
    → IsSound f c
    → IsClean c
    → Inv (handle_frame f now c)
unfolding handle_frame
handle_frame-Inv f now c h a n = handle_in-Inv c.state f now c refl h a n
