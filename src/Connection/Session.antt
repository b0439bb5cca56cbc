-- ===== src/Connection/Session.antt =====
-- A whole session: timers and calls of the application keep the invariant, so it holds in every
-- state that a connection reaches.
use ax25toolkit.Base.{
  ℕ, ◌+◌, ◌≡◌, refl, sym, ◌∙◌, subst, ◌⊎◌, inl, inr, arith, Bool, true, false, List, ◌++◌, length,
  is_empty, Bytes, some, Bool-cases, if_rule, ltb, leb, ◌&&◌, Option-cases,
}
use ax25toolkit.Addr.{Addr}
use ax25toolkit.Frame.{Frame}
use ax25toolkit.Connection.{
  Connection, Config, State, disconnected, connecting, connected, disconnecting, new_connection,
}
use ax25toolkit.Connection.Window.{flush_window, retransmit_all, link_failed}
use ax25toolkit.Connection.Machine.{handle_frame}
use ax25toolkit.Connection.Timers.{is_connected, tick_t2, retry_in, tick_t1, tick_t3, tick}
use ax25toolkit.Connection.Api.{start_connect, cut, send, disconnect, close_in}
use ax25toolkit.Connection.Flow.{InWindow}
use ax25toolkit.Connection.Replay.{retransmit_all-InWindow, retransmit_all_lem}
use ax25toolkit.Connection.Invariant.{
  Holds, Inv, Inv-of, flush_window-Inv, IsSound, IsClean, handle_frame-Inv,
}

-- The invariant looks at these fields alone.
pub record SameCore (c d : Connection) : Type 0 where
  pub cfg_is : d.cfg ≡ c.cfg
  pub vs_is : d.vs ≡ c.vs
  pub vr_is : d.vr ≡ c.vr
  pub va_is : d.va ≡ c.va
  pub t1_is : d.t1_run ≡ c.t1_run
  pub buf_is : d.send_buf ≡ c.send_buf
  pub unacked_is : d.unacked ≡ c.unacked

SameCore-Holds : (s : State) (c d : Connection) → SameCore c d → Holds s c → Holds s d
SameCore-Holds disconnected c d k h = tt
SameCore-Holds connecting c d k h = ground arith
SameCore-Holds connected c d k h = ground arith
SameCore-Holds disconnecting c d k h = ground arith

pub SameCore-Inv : (c d : Connection) → d.state ≡ c.state → SameCore c d → Inv c → Inv d
SameCore-Inv c d e k h = Inv-of c.state d e (SameCore-Holds c.state c d k h)

tick_t2-Inv : (now : ℕ) (c : Connection) → Inv c → Inv (tick_t2 now c)
unfolding tick_t2
tick_t2-Inv now c h = SameCore-Inv c (tick_t2 now c) (ground arith) (ground arith) h

-- T1 is off when `retry_in` is called; it is on again where the invariant wants it.
retry_in-Inv :
    (s : State) (now : ℕ) (c d : Connection)
    → d.state ≡ s
    → Holds s c
    → SameCore c (record d { t1_run = c.t1_run })
    → Inv (retry_in s now d).0
unfolding retry_in link_failed
retry_in-Inv disconnected now c d e h k = Inv-of disconnected d e tt
retry_in-Inv connecting now c d e h k =
    Inv-of connecting (retry_in connecting now d).0 e (ground arith)
retry_in-Inv connected now c d e h k =
    let w : InWindow d = ground (arith, h.0, k) in
    if_rule (λ (r : Connection × Bool). Inv r.0) (is_empty d.unacked) _ _
      (λ none_out.
        if_rule (λ (r : Connection × Bool). Inv r.0) d.poll_pending _ _ (λ _. tt)
          (λ _. Inv-of connected d e (w, ground arith)))
      (λ _.
        Inv-of connected (retransmit_all now d) ((retransmit_all_lem now d w).8 ∙ e)
          (retransmit_all-InWindow now d w))
retry_in-Inv disconnecting now c d e h k =
    Inv-of disconnecting (retry_in disconnecting now d).0 e refl

tick_t1-Inv : (now : ℕ) (c : Connection) → Inv c → Inv (tick_t1 now c).0
unfolding tick_t1 link_failed
tick_t1-Inv now c h =
    if_rule (λ (r : Connection × Bool). Inv r.0) (c.t1_run && leb c.t1_exp now) _ _
      (λ _.
        if_rule (λ (r : Connection × Bool). Inv r.0) (ltb c.cfg.n2 (c.retry + 1)) _ _ (λ _. tt)
          (λ _. retry_in-Inv c.state now c _ refl h (ground arith)))
      (λ _. h)

-- Starting T1 is always safe.
t1_on-Holds :
    (s : State) (c d : Connection)
    → SameCore c (record d { t1_run = c.t1_run })
    → d.t1_run ≡ true
    → Holds s c
    → Holds s d
t1_on-Holds disconnected c d k e h = tt
t1_on-Holds connecting c d k e h = ground arith
t1_on-Holds connected c d k e h = (ground arith, λ _. e)
t1_on-Holds disconnecting c d k e h = e

tick_t3-Inv : (now : ℕ) (c : Connection) → Inv c → Inv (tick_t3 now c)
unfolding tick_t3
tick_t3-Inv now c h =
    if_rule Inv ((c.t3_run && leb c.t3_exp now) && is_connected c.state) _ _
      (λ _. t1_on-Holds c.state c _ (ground arith) refl h) (λ _. h)

-- A tick of the timers keeps the invariant, in every state.
pub tick-Inv : (now : ℕ) (c : Connection) → Inv c → Inv (tick now c)
unfolding tick
tick-Inv now c h =
    let k = tick_t1-Inv now (tick_t2 now c) (tick_t2-Inv now c h) in
    if_rule Inv (tick_t1 now (tick_t2 now c)).1 _ _ (λ _. k) (λ _. tick_t3-Inv now _ k)

send_cases :
    (now : ℕ) (bytes : Bytes) (c d : Connection) (done : Bool)
    → send now bytes c ≡ some (d, done)
    → (d ≡ c)
      ⊎ ((pieces : List Bytes) × (c.state ≡ connected)
          × (d ≡ flush_window now (record c { send_buf = c.send_buf ++ pieces })))
unfolding send
send_cases now bytes c d done k = elim (Bool-cases (is_connected c.state)) [
  | inr e ↦ inl (ground arith)
  | inl e ↦ elim (Option-cases (cut (length bytes) c.cfg.mtu bytes)) [
    | inl n ↦ absurd (ground arith)
    | inr (ps, p) ↦ inr (ps, ground arith, ground arith)
  ]
]

pub send-Inv :
    (now : ℕ) (bytes : Bytes) (c d : Connection) (done : Bool)
    → Inv c
    → send now bytes c ≡ some (d, done)
    → Inv d
send-Inv now bytes c d done h k = elim (send_cases now bytes c d done k) [
  | inl e ↦ subst Inv (sym e) h
  | inr (ps, e, q) ↦
      let v : Holds connected c = subst (λ (x : State). Holds x c) e h in
      subst Inv (sym q)
        (flush_window-Inv now (record c { send_buf = c.send_buf ++ ps }) (ground arith) e)
]

close_in-Inv : (s : State) (now : ℕ) (c : Connection) → c.state ≡ s → Inv c → Inv (close_in s now c)
unfolding close_in
close_in-Inv disconnected now c e h = h
close_in-Inv connecting now c e h = refl
close_in-Inv connected now c e h = refl
close_in-Inv disconnecting now c e h = h

pub disconnect-Inv : (now : ℕ) (c : Connection) → Inv c → Inv (disconnect now c)
unfolding disconnect
disconnect-Inv now c h = close_in-Inv c.state now c refl h

-- What can happen to a connection once it exists. A frame that breaks `IsSound` or `IsClean` is
-- left out; `send` is left out where its loop does not end.
pub data Step : Connection → Connection → Type 0 where
  frame :
      (f : Frame) (now : ℕ) {c : Connection}
      → IsSound f c
      → IsClean c
      → Step c (handle_frame f now c)
  ticks : (now : ℕ) {c : Connection} → Step c (tick now c)
  sends :
      (now : ℕ) (bytes : Bytes) (done : Bool) {c d : Connection}
      → send now bytes c ≡ some (d, done)
      → Step c d
  closes : (now : ℕ) {c : Connection} → Step c (disconnect now c)

-- The states of a connection that the peer opens, or that `Router::connect` opens.
pub data Reach (local remote : Addr) (cfg : Config) : Connection → Type 0 where
  accepted : Reach local remote cfg (new_connection local remote cfg false)
  opened :
      (now : ℕ) → Reach local remote cfg (start_connect now (new_connection local remote cfg true))
  later : {c d : Connection} → Reach local remote cfg c → Step c d → Reach local remote cfg d

Step-Inv : {c d : Connection} → Step c d → Inv c → Inv d
Step-Inv (frame f now {c} a n) h = handle_frame-Inv f now c h a n
Step-Inv (ticks now {c}) h = tick-Inv now c h
Step-Inv (sends now bytes done {c} {d} k) h = send-Inv now bytes c d done h k
Step-Inv (closes now {c}) h = disconnect-Inv now c h

-- In every state that a connection, accepted or opened, reaches by ticks, sends, a disconnect, and
-- frames that acknowledge no more than what is in flight and open it only when no frame of an
-- earlier session is left: when connected, the frames in flight are numbered without gap from V(A)
-- to V(S), are no more than the window, and T1 runs while there is one; while a SABM or a DISC is
-- unanswered T1 runs.
pub Reach-Inv :
    {local remote : Addr} {cfg : Config} {c : Connection} → Reach local remote cfg c → Inv c
unfolding new_connection start_connect
Reach-Inv accepted = tt
Reach-Inv (opened now) = (refl, refl, refl)
Reach-Inv (later r s) = Step-Inv s (Reach-Inv r)
