-- ===== src/Connection/Replay.antt =====
-- Go-back-N: `retransmit_all` sends the frames in flight again.
use ax25toolkit.Base.{
  ℕ, ◌≡◌, refl, ap, sym, ◌∙◌, arith, Bool, true, List, [], ◌∷◌, ◌++◌, append_assoc, append-nil,
  is_empty, if◌then◌else◌,
}
use ax25toolkit.Connection.{Connection, UnackedFrame, Event, sends, i_frame_of}
use ax25toolkit.Connection.Window.{replay, replay_frame, retransmit_all}
use ax25toolkit.Connection.Numbering.{Numbered, next}
use ax25toolkit.Connection.Flow.{InWindow, TimerRuns}

-- The I frames of a retransmission: the old numbers, the present V(R), and P on the last.
abbrev pub resent : Connection → List UnackedFrame → List Event
resent c [] = []
resent c (u ∷ us) = sends (i_frame_of c u.ns c.vr (is_empty us) u.payload) ∷ resent c us

record SameEnds (c d : Connection) : Type 0 where
  same_cfg : d.cfg ≡ c.cfg
  same_state : d.state ≡ c.state
  same_vr : d.vr ≡ c.vr
  same_va : d.va ≡ c.va
  same_local : d.local_addr ≡ c.local_addr
  same_remote : d.remote_addr ≡ c.remote_addr
  same_peer : d.peer_busy ≡ c.peer_busy
  same_buf : d.send_buf ≡ c.send_buf
  same_t1 : d.t1_run ≡ c.t1_run

-- `base` is the connection before the loop.
record Replayed (base c d : Connection) (us : List UnackedFrame) (vs : ℕ) : Type 0 where
  ends : SameEnds base d
  queue : d.unacked ≡ c.unacked ++ us
  number : d.vs ≡ vs
  frames : d.events ≡ c.events ++ resent base us

replay_frame-Replayed :
    (last : Bool) (u : UnackedFrame) (base c : Connection)
    → SameEnds base c
    → u.ns ≡ c.vs
    → let d = replay_frame last u c in
      SameEnds base d
      × (d.unacked ≡ c.unacked ++ u ∷ [])
      × (d.vs ≡ next c.vs)
      × (d.events ≡ c.events ++ sends (i_frame_of base u.ns base.vr last u.payload) ∷ [])
unfolding replay_frame
replay_frame-Replayed last u base c s h = (ground arith, ground arith, ground arith, ground arith)

replay-Replayed :
    (us : List UnackedFrame) (base c : Connection) (vs : ℕ)
    → SameEnds base c
    → Numbered c.vs us vs
    → Replayed base c (replay us c) us vs
unfolding replay
replay-Replayed [] base c vs s h = record {
  ends = s;
  queue = sym (append-nil c.unacked);
  number = sym h;
  frames = sym (append-nil c.events);
}
replay-Replayed (u ∷ us) base c vs s h =
    let d = replay_frame (is_empty us) u c in
    let r = replay_frame-Replayed (is_empty us) u base c s h.0 in
    let q = replay-Replayed us base d vs r.0 (rw r.2 h.1) in
    record {
      ends = q.ends;
      queue =
          q.queue
          ∙ (ap (λ (x : List UnackedFrame). x ++ us) r.1 ∙ append_assoc c.unacked (u ∷ []) us);
      number = q.number;
      frames =
          q.frames
          ∙ (ap (λ (x : List Event). x ++ resent base us) r.3
              ∙ append_assoc c.events
                  (sends (i_frame_of base u.ns base.vr (is_empty us) u.payload) ∷ [])
                  (resent base us));
    }

-- A retransmission sends exactly the frames in flight, oldest first, under their old numbers, with
-- P on the last alone; queue, V(S), V(A), V(R) and the data that waits stay, and T1 runs if there
-- was a frame.
pub retransmit_all_lem :
    (now : ℕ) (c : Connection)
    → InWindow c
    → let d = retransmit_all now c in
      (d.events ≡ c.events ++ resent c c.unacked)
      × (d.unacked ≡ c.unacked)
      × (d.vs ≡ c.vs)
      × (d.va ≡ c.va)
      × (d.vr ≡ c.vr)
      × (d.send_buf ≡ c.send_buf)
      × (d.t1_run ≡ (if is_empty c.unacked then c.t1_run else true))
      × (d.cfg ≡ c.cfg)
      × (d.state ≡ c.state)
unfolding retransmit_all
retransmit_all_lem now c v =
    let q =
      replay-Replayed c.unacked c (record c { vs = c.va; unacked = [] }) c.vs
        (record {
          same_cfg = refl;
          same_state = refl;
          same_vr = refl;
          same_va = refl;
          same_local = refl;
          same_remote = refl;
          same_peer = refl;
          same_buf = refl;
          same_t1 = refl;
        })
        v.numbered in
    (
      ground (arith, q),
      ground (arith, q),
      ground (arith, q),
      ground (arith, q),
      ground (arith, q),
      ground (arith, q),
      ground (arith, q),
      ground (arith, q),
      ground (arith, q),
    )

pub retransmit_all-InWindow :
    (now : ℕ) (c : Connection)
    → InWindow c
    → InWindow (retransmit_all now c) × TimerRuns (retransmit_all now c)
retransmit_all-InWindow now c v = ground (arith, retransmit_all_lem now c v)
