-- ===== src/Router/Pacing.antt =====
-- What leaves a router, in which order, and when.
use ax25toolkit.Base.{
  ℕ, ◌+◌, ◌*◌, ◌^◌, ◌<◌, ◌≤◌, ◌≡◌, refl, ap, sym, ◌∙◌, ◌≢◌, arith, false, not, List, [], ◌∷◌, ◌++◌,
  append_assoc, append-nil, Bytes, some, is_empty, Option-cases, ◌⊎◌, inl, inr, if_rule,
}
use native.Mathlib.Decide.{dec_lt}
use ax25toolkit.Addr.{Addr, addr_eq}
use ax25toolkit.Addr
use ax25toolkit.Frame.{Frame, encode, decode, no_frame, type}
use ax25toolkit.Connection.{Event, sends, on_connect, on_disconnect, on_data, new_connection}
use ax25toolkit.Connection.Machine.{handle_frame}
use ax25toolkit.Router.{
  Router, notify, monitor, connection, drain_loop, drain_tx, tx, relay, find, dm_for, open_session,
  is_sabm, is_ui, to_session, hold_back, dispatch, route,
}

-- Everything sent and to be sent, oldest first.
abbrev pub stream : Router → List Bytes
stream r = r.line ++ r.tx_queue

-- Without a delay nothing is queued.
abbrev pub IsPaced : Router → Type 0
IsPaced r = r.cfg.txdelay ≡ 0 → r.tx_queue ≡ []

drain_loop_lem :
    (now : ℕ) (bs : List Bytes) (r : Router)
    → r.tx_queue ≡ bs
    → (now < r.tx_next → drain_loop now bs r ≡ r)
      × (r.tx_next ≤ now → drain_loop now bs r ≡ record r { line = r.line ++ bs; tx_queue = [] })
unfolding drain_loop
drain_loop_lem now [] r e = ((λ h. refl), (λ h. ground (arith, append-nil r.line)))
drain_loop_lem now (b ∷ bs) r e =
    let q = drain_loop_lem now bs (record r { line = r.line ++ b ∷ []; tx_queue = bs }) refl in
    ((λ h. ground arith), (λ h. ground (arith, q.1 h, append_assoc r.line (b ∷ []) bs)))

drain_tx_when :
    (now : ℕ) (r : Router)
    → (now < r.tx_next → drain_tx now r ≡ r)
      × (r.tx_next ≤ now → drain_tx now r ≡ record r { line = stream r; tx_queue = [] })
unfolding drain_tx
drain_tx_when now r = drain_loop_lem now r.tx_queue r refl

-- Before the end of the turnaround nothing is sent; after it the whole queue is, oldest first.
pub drain_tx_lem :
    (now : ℕ) (r : Router)
    → ((now < r.tx_next) × (drain_tx now r ≡ r))
      ⊎ ((r.tx_next ≤ now) × (drain_tx now r ≡ record r { line = stream r; tx_queue = [] }))
drain_tx_lem now r = elim (dec_lt now r.tx_next) [
  | yes h ↦ inl (h, (drain_tx_when now r).0 h)
  | no h ↦ inr (omega arith, (drain_tx_when now r).1 (omega arith))
]

pub drain_tx-stream :
    (now : ℕ) (r : Router)
    → (stream (drain_tx now r) ≡ stream r)
      × ((drain_tx now r).cfg ≡ r.cfg)
      × ((drain_tx now r).tx_next ≡ r.tx_next)
      × ((drain_tx now r).conns ≡ r.conns)
drain_tx-stream now r = elim (dec_lt now r.tx_next) [
  | yes h ↦ let e = (drain_tx_when now r).0 h in ground (arith, e)
  | no h ↦ let e = (drain_tx_when now r).1 (omega arith) in ground (arith, e, append-nil (stream r))
]

encode_there : (f : Frame) → is_empty (encode f) ≡ false
unfolding encode Addr.encode Addr.call_field
encode_there f = go f.dest.call _ _
  where
    go : (cs xs ys : Bytes) → is_empty ((Addr.call_field 6 cs ++ xs) ++ ys) ≡ false
    go [] xs ys = refl
    go (c ∷ cs) xs ys = refl

-- A frame to send goes behind all that was to be sent before.
pub tx_lem :
    (now : ℕ) (f : Frame) (r : Router)
    → IsPaced r
    → (stream (tx now f r) ≡ stream r ++ encode f ∷ [])
      × IsPaced (tx now f r)
      × ((tx now f r).cfg ≡ r.cfg)
      × ((tx now f r).tx_next ≡ r.tx_next)
      × ((tx now f r).conns ≡ r.conns)
unfolding tx
tx_lem now f r p =
    let q = drain_tx-stream now (record r { tx_queue = r.tx_queue ++ encode f ∷ [] }) in
    let e = append_assoc r.line r.tx_queue (encode f ∷ []) in
    (
      ground
          (arith, encode_there f, p, q, e, append-nil r.line, append-nil (r.line ++ encode f ∷ [])),
      (λ h. ground (arith, encode_there f, p, q, h)),
      ground (arith, encode_there f, q),
      ground (arith, encode_there f, q),
      ground (arith, encode_there f, q),
    )

-- The frames that a list of events sends, encoded.
abbrev pub outgoing : List Event → List Bytes
outgoing [] = []
outgoing (sends f ∷ es) = encode f ∷ outgoing es
outgoing (_ ∷ es) = outgoing es

-- The frames among the events of a connection are sent in their order behind all that was to be sent
-- before; configuration, sessions and turnaround stay, and without a delay nothing stays queued.
pub relay_lem :
    (now : ℕ) (peer : Addr) (es : List Event) (r : Router)
    → IsPaced r
    → (stream (relay now peer es r) ≡ stream r ++ outgoing es)
      × IsPaced (relay now peer es r)
      × ((relay now peer es r).cfg ≡ r.cfg)
      × ((relay now peer es r).tx_next ≡ r.tx_next)
      × ((relay now peer es r).conns ≡ r.conns)
unfolding relay
relay_lem now peer [] r p = (sym (append-nil (stream r)), p, refl, refl, refl)
relay_lem now peer (sends f ∷ es) r p =
    let q = tx_lem now f r p in
    let k = relay_lem now peer es (tx now f r) q.1 in
    (
      k.0
          ∙ (ap (λ (x : List Bytes). x ++ outgoing es) q.0
              ∙ append_assoc (stream r) (encode f ∷ []) (outgoing es)),
      k.1,
      k.2 ∙ q.2,
      k.3 ∙ q.3,
      k.4 ∙ q.4,
    )
relay_lem now peer (on_connect ∷ es) r p =
    relay_lem now peer es (notify (connection peer on_connect) r) p
relay_lem now peer (on_disconnect ∷ es) r p =
    relay_lem now peer es (notify (connection peer on_disconnect) r) p
relay_lem now peer (on_data info ∷ es) r p =
    relay_lem now peer es (notify (connection peer (on_data info)) r) p

-- During the turnaround nothing reaches the line.
abbrev IsHeld : ℕ → Router → Type 0
IsHeld now r = (r.cfg.txdelay ≢ 0) × (now < r.tx_next)

-- The line is as it was, and so is the earliest time to send.
abbrev Quiet : Router → Router → Type 0
Quiet r x = (x.line ≡ r.line) × (x.tx_next ≡ r.tx_next)

tx-IsHeld :
    (now : ℕ) (f : Frame) (r : Router)
    → IsHeld now r
    → Quiet r (tx now f r) × IsHeld now (tx now f r)
unfolding tx
tx-IsHeld now f r h =
    let q = (drain_tx_when now (record r { tx_queue = r.tx_queue ++ encode f ∷ [] })).0 h.1 in
    ground (arith, q, h)

relay_held :
    (now : ℕ) (peer : Addr) (es : List Event) (r : Router)
    → IsHeld now r
    → Quiet r (relay now peer es r)
unfolding relay
relay_held now peer [] r h = (refl, refl)
relay_held now peer (sends f ∷ es) r h =
    let q = tx-IsHeld now f r h in
    let k = relay_held now peer es (tx now f r) q.1 in (k.0 ∙ q.0.0, k.1 ∙ q.0.1)
relay_held now peer (on_connect ∷ es) r h = relay_held now peer es _ h
relay_held now peer (on_disconnect ∷ es) r h = relay_held now peer es _ h
relay_held now peer (on_data info ∷ es) r h = relay_held now peer es _ h

open_session_held :
    (now : ℕ) (f : Frame) (r : Router) → IsHeld now r → Quiet r (open_session now f r)
unfolding open_session
open_session_held now f r h =
    if_rule (Quiet r) r.listening _ _
      (λ _.
        relay_held now f.src
          (handle_frame f now (new_connection r.cfg.mycall f.src r.cfg false)).events _ h)
      (λ _. (tx-IsHeld now (dm_for f r.cfg) r h).0)

to_session_held : (now : ℕ) (f : Frame) (r : Router) → IsHeld now r → Quiet r (to_session now f r)
unfolding to_session
to_session_held now f r h = elim (Option-cases (find f.dest f.src r.conns)) [
  | inl e ↦
      rw (e, to_session)
        (if_rule (Quiet r) (is_sabm (type f)) _ _ (λ _. open_session_held now f r h)
          (λ _. (tx-IsHeld now (dm_for f r.cfg) r h).0))
  | inr (c, e) ↦ rw (e, to_session) (relay_held now f.src (handle_frame f now c).events _ h)
]

-- The end of the turnaround after a reception at `now`.
abbrev pub turnaround : ℕ → Router → ℕ
turnaround now r = now + r.cfg.txdelay * 10

abbrev HeldBack : ℕ → Router → Router → Type 0
HeldBack now r x = (x.line ≡ r.line) × (turnaround now r ≤ x.tx_next)

hold_back_lem :
    (now : ℕ) (r : Router)
    → 0 < r.cfg.txdelay
    → turnaround now r < 2 ^ 64
    → HeldBack now r (hold_back now r) × ((hold_back now r).cfg ≡ r.cfg)
unfolding hold_back
hold_back_lem now r d fits = ground arith

dispatch_held :
    (now : ℕ) (f : Frame) (r : Router)
    → 0 < r.cfg.txdelay
    → turnaround now r < 2 ^ 64
    → HeldBack now r (dispatch now f r)
unfolding dispatch
dispatch_held now f r d fits =
    let q = hold_back_lem now r d fits in
    let r1 = notify (monitor f) (hold_back now r) in
    let h : IsHeld now r1 = ground (arith, q) in
    if_rule (HeldBack now r) (is_ui (type f)) _ _ (λ _. q.0)
      (λ _.
        if_rule (HeldBack now r) (not (addr_eq f.dest r1.cfg.mycall)) _ _ (λ _. q.0)
          (λ _. let k = to_session_held now f r1 h in (k.0 ∙ q.0.0, omega (arith, k.1, q.0.1))))

-- With a delay set, nothing reaches the line while a frame received at `now` is handled, whatever
-- it brings about, and a drain before the end of the turnaround sends nothing either. Times do not
-- wrap.
pub route_held :
    (now later : ℕ) (raw : Bytes) (r : Router) (f : Frame)
    → decode raw no_frame ≡ some f
    → 0 < r.cfg.txdelay
    → turnaround now r < 2 ^ 64
    → later < turnaround now r
    → ((route now raw r).line ≡ r.line) × (drain_tx later (route now raw r) ≡ route now raw r)
unfolding route
route_held now later raw r f e d fits early =
    rw (e, route)
      (let k = dispatch_held now f r d fits in
        (k.0, (drain_tx_when later (dispatch now f r)).0 (omega (arith, k.1))))
