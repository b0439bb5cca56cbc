-- ===== src/Router/Sessions.antt =====
-- All sessions of a router keep their invariant.
use ax25toolkit.Base.{
  ℕ, ◌≡◌, refl, ap, sym, ◌∙◌, subst, inl, inr, arith, false, not, List, [], ◌∷◌, ◌++◌, Bytes, some,
  All, Option-cases, Bool-cases, if_rule,
}
use ax25toolkit.Addr.{Addr, addr_eq}
use ax25toolkit.Kiss.{feed}
use ax25toolkit.Frame.{Frame, encode, decode, no_frame, type}
use ax25toolkit.Connection.{
  Connection, Event, sends, on_connect, on_disconnect, on_data, new_connection,
}
use ax25toolkit.Connection.Machine.{handle_frame}
use ax25toolkit.Connection.Timers.{tick}
use ax25toolkit.Connection.Api.{start_connect}
use ax25toolkit.Connection.Invariant.{Inv, IsSound, IsClean, handle_frame-Inv}
use ax25toolkit.Connection.Session.{SameCore-Inv, tick-Inv}
use ax25toolkit.Router.{
  Router, notify, monitor, tx, relay, matches, find, replace, settled, dm_for, open_session,
  is_sabm, is_ui, to_session, hold_back, dispatch, route, tick_all, connect, poll, route_all,
}
use ax25toolkit.Router.Pacing.{drain_tx-stream}

abbrev pub AllInv : Router → Type 0
AllInv r = All Inv r.conns

settled-Inv : (c : Connection) → Inv c → Inv (settled c)
settled-Inv c h = SameCore-Inv c (settled c) refl (ground arith) h

pub tx_conns : (now : ℕ) (f : Frame) (r : Router) → (tx now f r).conns ≡ r.conns
unfolding tx
tx_conns now f r =
    ground (arith, drain_tx-stream now (record r { tx_queue = r.tx_queue ++ encode f ∷ [] }))

pub relay_conns :
    (now : ℕ) (peer : Addr) (es : List Event) (r : Router) → (relay now peer es r).conns ≡ r.conns
unfolding relay
relay_conns now peer [] r = refl
relay_conns now peer (sends f ∷ es) r = relay_conns now peer es (tx now f r) ∙ tx_conns now f r
relay_conns now peer (on_connect ∷ es) r = relay_conns now peer es _
relay_conns now peer (on_disconnect ∷ es) r = relay_conns now peer es _
relay_conns now peer (on_data info ∷ es) r = relay_conns now peer es _

All-find :
    (local remote : Addr) (cs : List Connection) (c : Connection)
    → All Inv cs
    → find local remote cs ≡ some c
    → Inv c
unfolding find
All-find local remote [] c h e = absurd (ground arith)
All-find local remote (d ∷ cs) c h e = elim (Bool-cases (matches local remote d)) [
  | inl m ↦ subst Inv (ground arith) h.0
  | inr m ↦ All-find local remote cs c h.1 (ground arith)
]

All-replace :
    (local remote : Addr) (d : Connection) (cs : List Connection)
    → Inv d
    → All Inv cs
    → All Inv (replace local remote d cs)
unfolding replace
All-replace local remote d [] v h = tt
All-replace local remote d (c ∷ cs) v h =
    if_rule (All Inv) (matches local remote c) _ _ (λ _. (v, h.1))
      (λ _. (h.0, All-replace local remote d cs v h.1))

All-snoc : (cs : List Connection) (d : Connection) → All Inv cs → Inv d → All Inv (cs ++ d ∷ [])
All-snoc [] d h v = (v, tt)
All-snoc (c ∷ cs) d h v = (h.0, All-snoc cs d h.1 v)

-- The frame suits the session that it is for, if there is one.
abbrev pub Suits : Frame → Router → Type 0
Suits f r = (c : Connection) → find f.dest f.src r.conns ≡ some c → IsSound f c × IsClean c

fresh-Inv :
    (now : ℕ) (f : Frame) (r : Router)
    → Inv (handle_frame f now (new_connection r.cfg.mycall f.src r.cfg false))
unfolding new_connection
fresh-Inv now f r =
    handle_frame-Inv f now (new_connection r.cfg.mycall f.src r.cfg false) tt (λ e. cc) (λ _. refl)

to_session-AllInv :
    (now : ℕ) (f : Frame) (r : Router) → AllInv r → Suits f r → AllInv (to_session now f r)
unfolding to_session open_session
to_session-AllInv now f r h s = elim (Option-cases (find f.dest f.src r.conns)) [
  | inl e ↦
      rw (e, to_session)
        (if_rule AllInv (is_sabm (type f)) _ _
          (λ _.
            if_rule AllInv r.listening _ _
              (λ _.
                subst (All Inv) (sym (relay_conns now f.src _ _))
                  (All-snoc r.conns _ h (settled-Inv _ (fresh-Inv now f r))))
              (λ _. subst (All Inv) (sym (tx_conns now (dm_for f r.cfg) r)) h))
          (λ _. subst (All Inv) (sym (tx_conns now (dm_for f r.cfg) r)) h))
  | inr (c, e) ↦
      let a = s c e in
      let v = handle_frame-Inv f now c (All-find f.dest f.src r.conns c h e) a.0 a.1 in
      rw (e, to_session)
        (subst (All Inv) (sym (relay_conns now f.src _ _))
          (All-replace f.dest f.src _ r.conns (settled-Inv _ v) h))
]

-- Whatever arrives, all sessions of a router keep the invariant of a connection, if the frame, where
-- it is for a session, acknowledges no more than what that session has in flight and finds it clean
-- where it opens it.
pub route-AllInv :
    (now : ℕ) (raw : Bytes) (r : Router)
    → AllInv r
    → ((f : Frame) → decode raw no_frame ≡ some f → Suits f r)
    → AllInv (route now raw r)
unfolding route dispatch hold_back
route-AllInv now raw r h s = elim (Option-cases (decode raw no_frame)) [
  | inl e ↦ rw (e, route) h
  | inr (f, e) ↦
      let conns_same : (hold_back now r).conns ≡ r.conns = ground arith in
      let h1 : AllInv (notify (monitor f) (hold_back now r)) = subst (All Inv) (sym conns_same) h in
      rw (e, route)
        (if_rule AllInv (is_ui (type f)) _ _ (λ _. h1)
          (λ _.
            if_rule AllInv (not (addr_eq f.dest (hold_back now r).cfg.mycall)) _ _ (λ _. h1)
              (λ _.
                to_session-AllInv now f (notify (monitor f) (hold_back now r)) h1
                  (λ c k. s f e c (ap (find f.dest f.src) (sym conns_same) ∙ k)))))
]

tick_all-AllInv :
    (now : ℕ) (cs : List Connection) (r : Router) → All Inv cs → All Inv (tick_all now cs r).0
unfolding tick_all
tick_all-AllInv now [] r h = tt
tick_all-AllInv now (c ∷ cs) r h =
    (settled-Inv (tick now c) (tick-Inv now c h.0), tick_all-AllInv now cs _ h.1)

-- A poll that reads nothing ticks every session once and keeps the invariant of all.
pub poll_idle-AllInv : (now : ℕ) (r : Router) → AllInv r → AllInv (poll now [] r)
unfolding poll feed route_all
poll_idle-AllInv now r h =
    tick_all-AllInv now _ _
      (subst (All Inv) (sym (drain_tx-stream now (record r { decoder = r.decoder })).3) h)

-- An outgoing connection starts in order beside the others.
pub connect-AllInv :
    (now : ℕ) (remote : Addr) (r : Router) → AllInv r → AllInv (connect now remote r)
unfolding connect start_connect new_connection
connect-AllInv now remote r h =
    subst (All Inv) (sym (relay_conns now remote _ _)) (All-snoc r.conns _ h (refl, refl, refl))
