-- ===== src/Connection/Receive.antt =====
-- The receiving side: what an I frame delivers to the application.
use ax25toolkit.Base.{
  ℕ, ◌≡◌, refl, ap, sym, subst, ◌∙◌, ◌≢◌, arith, Bool, true, false, List, [], ◌∷◌, ◌++◌, length,
  append_assoc, append-nil, Bytes, leb, ◌⊎◌, inl, inr,
}
use native.Mathlib.Decide.{ℕ_discrete}
use ax25toolkit.Frame.{Frame, FrameType, i_frame, type, get_ns, get_nr, get_pf}
use ax25toolkit.Connection.{
  Connection, State, connected, Event, sends, i_frame_of, on_connect, on_disconnect, on_data,
  start_t3, tx_rej,
}
use ax25toolkit.Connection.Window.{flush_chunk, flush_loop, flush_window, acknowledge, process_nr}
use ax25toolkit.Connection.Machine.{
  got_i, deliver, accept, refuse, connected_case, when_connected, handle_in, handle_frame,
}
use ax25toolkit.Connection.Numbering.{next}
use ax25toolkit.Connection.Flow.{flush_loop-SameLink}

-- The bytes handed to the application, in order.
abbrev pub delivered : List Event → Bytes
delivered [] = []
delivered (on_data info ∷ es) = info ++ delivered es
delivered (sends f ∷ es) = delivered es
delivered (on_connect ∷ es) = delivered es
delivered (on_disconnect ∷ es) = delivered es

abbrev pub received : Connection → Bytes
received c = delivered c.events

delivered-append : (es es' : List Event) → delivered (es ++ es') ≡ delivered es ++ delivered es'
delivered-append [] es' = refl
delivered-append (on_data info ∷ es) es' =
    ap (◌++◌ info) (delivered-append es es')
    ∙ sym (append_assoc info (delivered es) (delivered es'))
delivered-append (sends f ∷ es) es' = delivered-append es es'
delivered-append (on_connect ∷ es) es' = delivered-append es es'
delivered-append (on_disconnect ∷ es) es' = delivered-append es es'

received_data :
    (es : List Event) (info : Bytes) → delivered (es ++ on_data info ∷ []) ≡ delivered es ++ info
received_data es info =
    delivered-append es (on_data info ∷ []) ∙ ap (◌++◌ (delivered es)) (append-nil info)

received_send : (es : List Event) (f : Frame) → delivered (es ++ sends f ∷ []) ≡ delivered es
received_send es f = delivered-append es (sends f ∷ []) ∙ append-nil (delivered es)

flush_chunk_events :
    (chunk : Bytes) (rest : List Bytes) (c : Connection)
    → (f : Frame) × ((flush_chunk chunk rest c).events ≡ c.events ++ sends f ∷ [])
unfolding flush_chunk
flush_chunk_events chunk rest c = (
  i_frame_of c c.vs c.vr
      (leb c.cfg.window (length (c.unacked ++ record { ns = c.vs; payload = chunk } ∷ []))) chunk,
  ground arith,
)

received-flush_chunk :
    (chunk : Bytes) (rest : List Bytes) (c : Connection)
    → received (flush_chunk chunk rest c) ≡ received c
received-flush_chunk chunk rest c =
    let (f, e) = flush_chunk_events chunk rest c in ap delivered e ∙ received_send c.events f

received-flush_loop :
    (chunks : List Bytes) (c : Connection) → received (flush_loop chunks c) ≡ received c
unfolding flush_loop
received-flush_loop [] c = refl
received-flush_loop (chunk ∷ rest) c =
    ground (
      arith,
      received-flush_chunk chunk rest c,
      received-flush_loop rest (flush_chunk chunk rest c),
    )

received-process_nr :
    (nr now : ℕ) (c : Connection)
    → (received (process_nr nr now c) ≡ received c) × ((process_nr nr now c).vr ≡ c.vr)
unfolding process_nr flush_window acknowledge
received-process_nr nr now c = ground (
  arith,
  received-flush_loop c.send_buf (acknowledge nr now c),
  flush_loop-SameLink c.send_buf (acknowledge nr now c),
)

received-deliver :
    (info : Bytes) (c : Connection)
    → (received (deliver info c) ≡ received c ++ info) × ((deliver info c).vr ≡ c.vr)
unfolding deliver
received-deliver [] c = (sym (append-nil (received c)), refl)
received-deliver (b ∷ bs) c = (received_data c.events (b ∷ bs), refl)

received-accept :
    (pf : Bool) (info : Bytes) (now : ℕ) (c : Connection)
    → (received (accept pf info now c) ≡ received c ++ info)
      × ((accept pf info now c).vr ≡ next c.vr)
unfolding accept
received-accept true info now c =
    let r = received-deliver info (record c { vr = next c.vr }) in
    (received_send (deliver info (record c { vr = next c.vr })).events _ ∙ r.0, r.1)
received-accept false info now c = received-deliver info (record c { vr = next c.vr })

got_i_expected :
    (f : Frame) (now : ℕ) (c : Connection)
    → get_ns f ≡ (process_nr (get_nr f) now c).vr
    → got_i f now c ≡ accept (get_pf f) f.info now (process_nr (get_nr f) now c)
unfolding got_i
got_i_expected f now c h = ground arith

got_i_other :
    (f : Frame) (now : ℕ) (c : Connection)
    → get_ns f ≢ (process_nr (get_nr f) now c).vr
    → got_i f now c ≡ tx_rej (get_pf f) (record (process_nr (get_nr f) now c) { rx_since_ack = 0 })
unfolding got_i refuse
got_i_other f now c h = ground arith

got_i_lem :
    (f : Frame) (now : ℕ) (c : Connection)
    → let d = got_i f now c in
      (get_ns f ≡ c.vr → (received d ≡ received c ++ f.info) × (d.vr ≡ next c.vr))
      × (get_ns f ≢ c.vr
          → (received d ≡ received c)
            × (d.vr ≡ c.vr)
            × ((before : Connection) × (before.vr ≡ c.vr) × (d ≡ tx_rej (get_pf f) before)))
unfolding tx_rej
got_i_lem f now c =
    let c1 = process_nr (get_nr f) now c in
    let q = received-process_nr (get_nr f) now c in
    (
      (λ h.
          let r = received-accept (get_pf f) f.info now c1 in
          let e = got_i_expected f now c (h ∙ sym q.1) in
          (
            ap received e ∙ (r.0 ∙ ap (λ (x : Bytes). x ++ f.info) q.0),
            ap (λ (x : Connection). x.vr) e ∙ (r.1 ∙ ap next q.1),
          )),
      (λ h.
          let e = got_i_other f now c (λ k. h (k ∙ q.1)) in
          (
            ap received e ∙ (received_send c1.events _ ∙ q.0),
            ap (λ (x : Connection). x.vr) e ∙ q.1,
            (record c1 { rx_since_ack = 0 }, q.1, e),
          )),
    )

handle_frame-got_i :
    (f : Frame) (now : ℕ) (c : Connection)
    → c.state ≡ connected
    → type f ≡ i_frame
    → handle_frame f now c ≡ got_i f now (record (start_t3 now c) { poll_pending = false })
unfolding handle_frame handle_in when_connected connected_case
handle_frame-got_i f now c e t =
    ap (λ (s : State). handle_in s f now c) e ∙ ap (λ (k : FrameType). when_connected k f now c) t

i_frame_cases :
    (f : Frame) (now : ℕ) (c : Connection)
    → c.state ≡ connected
    → type f ≡ i_frame
    → let d = handle_frame f now c in
      (get_ns f ≡ c.vr → (received d ≡ received c ++ f.info) × (d.vr ≡ next c.vr))
      × (get_ns f ≢ c.vr
          → (received d ≡ received c)
            × (d.vr ≡ c.vr)
            × ((before : Connection) × (before.vr ≡ c.vr) × (d ≡ tx_rej (get_pf f) before)))
unfolding start_t3
i_frame_cases f now c e t =
    subst
      (λ (d : Connection).
        (get_ns f ≡ c.vr → (received d ≡ received c ++ f.info) × (d.vr ≡ next c.vr))
        × (get_ns f ≢ c.vr
            → (received d ≡ received c)
              × (d.vr ≡ c.vr)
              × ((before : Connection) × (before.vr ≡ c.vr) × (d ≡ tx_rej (get_pf f) before))))
      (sym (handle_frame-got_i f now c e t))
      (got_i_lem f now (record (start_t3 now c) { poll_pending = false }))

-- An I frame on an open connection: with the expected N(S) its information is delivered, exactly
-- once and behind all that was delivered before, and V(R) goes on to the next number; with any
-- other N(S) nothing is delivered, V(R) stays, and a REJ for V(R) goes out last.
pub handle_frame_i :
    (f : Frame) (now : ℕ) (c : Connection)
    → c.state ≡ connected
    → type f ≡ i_frame
    → let d = handle_frame f now c in
      ((get_ns f ≡ c.vr) × (received d ≡ received c ++ f.info) × (d.vr ≡ next c.vr))
      ⊎ ((get_ns f ≢ c.vr)
          × (received d ≡ received c)
          × (d.vr ≡ c.vr)
          × ((before : Connection) × (before.vr ≡ c.vr) × (d ≡ tx_rej (get_pf f) before)))
handle_frame_i f now c e t = elim (ℕ_discrete (get_ns f) c.vr) [
  | yes h ↦ let q = (i_frame_cases f now c e t).0 h in inl (h, q.0, q.1)
  | no h ↦ let q = (i_frame_cases f now c e t).1 h in inr (h, q.0, q.1, q.2)
]
