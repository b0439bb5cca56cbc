-- ===== src/Router/Isolation.antt =====
-- A received frame touches no session but that of its two addresses.
use ax25toolkit.Base.{
  ℕ, ◌≡◌, refl, ap, sym, ◌∙◌, inl, inr, arith, true, false, ◌&&◌, List, [], ◌∷◌, ◌++◌, Bytes, some,
  Option-cases, Bool-cases, if_rule,
}
use ax25toolkit.Addr.{Addr, addr_eq}
use ax25toolkit.Addr.Compare.{addr_eq_iff}
use ax25toolkit.Frame.{Frame, decode, no_frame, type}
use ax25toolkit.Connection.{Connection, new_connection}
use ax25toolkit.Connection.Machine.{handle_frame}
use ax25toolkit.Connection.Ends.{SameEnds, handle_frame-SameEnds}
use ax25toolkit.Router.{
  Router, notify, monitor, matches, find, replace, settled, dm_for, open_session, is_sabm, is_ui,
  to_session, hold_back, dispatch, route,
}
use ax25toolkit.Router.Routing.{matches-replaced}
use ax25toolkit.Router.Sessions.{tx_conns, relay_conns}

matches-apart :
    (a b local remote : Addr) (c : Connection)
    → addr_eq a local && addr_eq b remote ≡ false
    → matches local remote c ≡ true
    → matches a b c ≡ false
unfolding matches
matches-apart a b local remote c h m = ground (
  arith,
  addr_eq_iff a local,
  addr_eq_iff b remote,
  addr_eq_iff c.local_addr local,
  addr_eq_iff c.remote_addr remote,
  addr_eq_iff c.local_addr a,
  addr_eq_iff c.remote_addr b,
)

matches-SameEnds :
    (local remote : Addr) (c d : Connection)
    → SameEnds c d
    → matches local remote d ≡ matches local remote c
unfolding matches
matches-SameEnds local remote c d h = rw (h.0, h.1) refl

find-matches :
    (local remote : Addr) (cs : List Connection) (c : Connection)
    → find local remote cs ≡ some c
    → matches local remote c ≡ true
unfolding find
find-matches local remote [] c e = absurd (ground arith)
find-matches local remote (d ∷ cs) c e = elim (Bool-cases (matches local remote d)) [
  | inl m ↦ let same : d ≡ c = ground arith in ap (matches local remote) (sym same) ∙ m
  | inr m ↦ find-matches local remote cs c (ground arith)
]

module _ (a b local remote : Addr) (apart : addr_eq a local && addr_eq b remote ≡ false) where
  find-replace :
      (d : Connection) (cs : List Connection)
      → matches a b d ≡ false
      → find a b (replace local remote d cs) ≡ find a b cs
  unfolding find replace
  find-replace d [] h = refl
  find-replace d (c ∷ cs) h =
      ground (arith, find-replace d cs h, matches-apart a b local remote c apart)

find-snoc :
    (a b : Addr) (d : Connection) (cs : List Connection)
    → matches a b d ≡ false
    → find a b (cs ++ d ∷ []) ≡ find a b cs
unfolding find
find-snoc a b d [] h = ground (arith, h)
find-snoc a b d (c ∷ cs) h = ground (arith, find-snoc a b d cs h)

module _ (now : ℕ) (f : Frame) (a b : Addr)
    (apart : addr_eq a f.dest && addr_eq b f.src ≡ false) where
  -- No other session is found than before.
  abbrev Keeps : Router → Router → Type 0
  Keeps r x = find a b x.conns ≡ find a b r.conns

  open_session-find :
      (r : Router) → addr_eq f.dest r.cfg.mycall ≡ true → Keeps r (open_session now f r)
  unfolding open_session new_connection
  open_session-find r mine =
      let d = handle_frame f now (new_connection r.cfg.mycall f.src r.cfg false) in
      let ends = handle_frame-SameEnds f now (new_connection r.cfg.mycall f.src r.cfg false) in
      let m = matches-replaced f r.cfg.mycall (settled d) mine ends.0 ends.1 in
      if_rule (Keeps r) r.listening _ _
        (λ _.
          ap (find a b) (relay_conns now f.src d.events _)
          ∙ find-snoc a b (settled d) r.conns (matches-apart a b f.dest f.src (settled d) apart m))
        (λ _. ap (find a b) (tx_conns now (dm_for f r.cfg) r))

  to_session-find : (r : Router) → addr_eq f.dest r.cfg.mycall ≡ true → Keeps r (to_session now f r)
  unfolding to_session
  to_session-find r mine = elim (Option-cases (find f.dest f.src r.conns)) [
    | inl e ↦
        rw (e, to_session)
          (if_rule (Keeps r) (is_sabm (type f)) _ _ (λ _. open_session-find r mine)
            (λ _. ap (find a b) (tx_conns now (dm_for f r.cfg) r)))
    | inr (c, e) ↦
        let d = handle_frame f now c in
        let m : matches f.dest f.src (settled d) ≡ true =
          matches-SameEnds f.dest f.src c (settled d) (handle_frame-SameEnds f now c)
          ∙ find-matches f.dest f.src r.conns c e in
        rw (e, to_session)
          (ap (find a b) (relay_conns now f.src d.events _)
            ∙ find-replace a b f.dest f.src apart (settled d) r.conns
                (matches-apart a b f.dest f.src (settled d) apart m))
  ]

  dispatch-find : (r : Router) → Keeps r (dispatch now f r)
  unfolding dispatch hold_back
  dispatch-find r =
      let r1 = notify (monitor f) (hold_back now r) in
      let same : r1.conns ≡ r.conns = ground arith in
      let kept : Keeps r r1 = ap (find a b) same in
      if_rule (Keeps r) (is_ui (type f)) _ _ (λ _. kept)
        (λ _. elim (Bool-cases (addr_eq f.dest r1.cfg.mycall)) [
          | inl e ↦ rw e (to_session-find r1 e ∙ kept)
          | inr e ↦ rw e kept
        ])

-- A received frame, of any kind and for any station, touches no session but the one of its two addresses: for
-- any other pair of addresses the same session is found as before, in the same state, or none as before,
-- also where the frame opens a session.
pub route-find :
    (now : ℕ) (raw : Bytes) (f : Frame) (r : Router) (a b : Addr)
    → decode raw no_frame ≡ some f
    → addr_eq a f.dest && addr_eq b f.src ≡ false
    → find a b (route now raw r).conns ≡ find a b r.conns
unfolding route
route-find now raw f r a b e apart = rw (e, route) (dispatch-find now f a b apart r)
