-- ===== src/Connection/Acks.antt =====
-- `process_nr`: what an N(R) acknowledges.
use ax25toolkit.Base.{
  ℕ, zero, suc, ◌<◌, ◌≤◌, ◌≡◌, refl, ◌∙◌, arith, List, [], ◌∷◌, ◌++◌, length, length-drop, map,
  Bytes, drop,
}
use ax25toolkit.Connection.{Connection, UnackedFrame}
use ax25toolkit.Connection.Window.{pop_acked, acknowledge, process_nr}
use ax25toolkit.Connection.Numbering.{distance, pop_acked-drop, pop_acked_outside}
use ax25toolkit.Connection.Flow.{
  InWindow, TimerRuns, pending, flush_window-InWindow, flush_window-TimerRuns, flush_window_same,
  flush_window-pending,
}

-- An N(R) that acknowledges no more than what is in flight.
abbrev pub IsAck : ℕ → Connection → Type 0
IsAck nr c = (nr < 8) × (distance c.va nr ≤ length c.unacked)

drop-map-append :
    (k : ℕ) (us : List UnackedFrame) (ys : List Bytes)
    → k ≤ length us
    → drop k (map (λ (u : UnackedFrame). u.payload) us ++ ys)
      ≡ map (λ (u : UnackedFrame). u.payload) (drop k us) ++ ys
drop-map-append zero us ys h = refl
drop-map-append (suc k) [] ys h = absurd (omega arith)
drop-map-append (suc k) (u ∷ us) ys h = drop-map-append k us ys (omega arith)

-- The queues after the pops of an acknowledgement.
pub acked-InWindow :
    (nr : ℕ) (c d : Connection)
    → InWindow c
    → IsAck nr c
    → d.unacked ≡ pop_acked nr c.unacked
    → d.va ≡ nr
    → d.vs ≡ c.vs
    → d.vr ≡ c.vr
    → d.cfg ≡ c.cfg
    → d.send_buf ≡ c.send_buf
    → InWindow d × (pending d ≡ drop (distance c.va nr) (pending c))
acked-InWindow nr c d v a eu ea es er ec eb =
    let p = pop_acked-drop nr c.va c.vs c.unacked v.va_lt a.0 v.numbered a.1 in
    (
      ground (arith, p, length-drop (distance c.va nr) c.unacked),
      ground (arith, p, drop-map-append (distance c.va nr) c.unacked c.send_buf a.1),
    )

acknowledge_lem :
    (nr now : ℕ) (c : Connection)
    → InWindow c
    → IsAck nr c
    → let d = acknowledge nr now c in
      InWindow d
      × (pending d ≡ drop (distance c.va nr) (pending c))
      × TimerRuns d
      × (d.va ≡ nr)
      × (d.vr ≡ c.vr)
      × (d.state ≡ c.state)
      × (d.cfg ≡ c.cfg)
      × (d.peer_busy ≡ c.peer_busy)
unfolding acknowledge
acknowledge_lem nr now c v a =
    let p =
      acked-InWindow nr c (acknowledge nr now c) v a (ground arith) (ground arith) (ground arith)
        (ground arith) (ground arith) (ground arith) in
    (
      p.0,
      p.1,
      (λ h. ground (arith, h)),
      ground arith,
      ground arith,
      ground arith,
      ground arith,
      ground arith,
    )

-- An N(R) within the window takes exactly the acknowledged pieces off the data that is pending,
-- keeps the numbering without gap and the window, keeps T1 running while frames are in flight,
-- leaves V(R), and moves V(A) to N(R).
pub process_nr_lem :
    (nr now : ℕ) (c : Connection)
    → InWindow c
    → IsAck nr c
    → let d = process_nr nr now c in
      InWindow d
      × (pending d ≡ drop (distance c.va nr) (pending c))
      × TimerRuns d
      × (d.va ≡ nr)
      × (d.vr ≡ c.vr)
      × (d.state ≡ c.state)
      × (d.cfg ≡ c.cfg)
unfolding process_nr
process_nr_lem nr now c v a =
    let d = acknowledge nr now c in
    let q = acknowledge_lem nr now c v a in
    let s = flush_window_same now d in
    let w = flush_window-InWindow now d q.0 in
    let t = flush_window-TimerRuns now d q.2 in
    (
      record {
        vs_lt = w.vs_lt;
        vr_lt = w.vr_lt;
        va_lt = w.va_lt;
        numbered = w.numbered;
        fits = w.fits;
      },
      (flush_window-pending now d).0 ∙ q.1,
      t,
      s.3 ∙ q.3,
      s.2 ∙ q.4,
      s.1 ∙ q.5,
      s.0 ∙ q.6,
    )

acknowledge_outside :
    (nr now : ℕ) (c : Connection)
    → InWindow c
    → nr < 8
    → length c.unacked < distance c.va nr
    → pending (acknowledge nr now c) ≡ c.send_buf
unfolding acknowledge
acknowledge_outside nr now c v h k =
    ground (arith, pop_acked_outside nr c.va c.vs c.unacked v.va_lt h v.numbered k)

-- An N(R) outside the window is not refused: all frames in flight are dropped as if they had been
-- acknowledged, and only the data that had not been sent yet is still pending.
pub process_nr_outside :
    (nr now : ℕ) (c : Connection)
    → InWindow c
    → nr < 8
    → length c.unacked < distance c.va nr
    → pending (process_nr nr now c) ≡ c.send_buf
unfolding process_nr
process_nr_outside nr now c v h k =
    (flush_window-pending now (acknowledge nr now c)).0 ∙ acknowledge_outside nr now c v h k
