-- ===== src/Router/Routing.antt =====
-- Which frames reach which session, and what is answered for the others.
use ax25toolkit.Base.{
  ℕ, ◌%◌, ◌^◌, ◌≡◌, refl, ◌==◌, ap, sym, ◌∙◌, arith, Bool, not, if◌then◌else◌, true, false, ◌&&◌,
  List, [], ◌∷◌, ◌++◌, Bytes, none, some, bit_or, bit_and,
}
use ax25toolkit.Addr.{Addr, addr_eq}
use ax25toolkit.Addr.Compare.{addr_eq_iff}
use ax25toolkit.Frame.{
  Frame, encode, decode, no_frame, type, get_pf, pf_set, dm_base, ua_base, pf_of, sabm,
}
use ax25toolkit.Connection.{Connection, Config, connected, new_connection, plain_frame}
use ax25toolkit.Connection.Machine.{handle_frame, handle_in, when_disconnected}
use ax25toolkit.Router.{
  Router, notify, accepts, monitor, tx, relay, matches, find, settled, dm_for, open_session,
  is_sabm, is_ui, to_session, hold_back, dispatch, route,
}
use ax25toolkit.Router.Pacing.{stream, IsPaced, tx_lem, relay_lem, outgoing}

-- A frame that this station hears, decoded: it is none of the connectionless ones.
abbrev pub IsHeard : Bytes → Frame → Type 0
IsHeard raw f = (decode raw no_frame ≡ some f) × (is_ui (type f) ≡ false)

hold_back_same :
    (now : ℕ) (r : Router)
    → (stream (hold_back now r) ≡ stream r)
      × ((hold_back now r).cfg ≡ r.cfg)
      × ((hold_back now r).conns ≡ r.conns)
      × ((hold_back now r).listening ≡ r.listening)
      × ((hold_back now r).tx_queue ≡ r.tx_queue)
unfolding hold_back
hold_back_same now r = ground arith

-- The router as `to_session` finds it.
abbrev heard : ℕ → Frame → Router → Router
heard now f r = notify (monitor f) (hold_back now r)

route-to_session :
    (now : ℕ) (raw : Bytes) (f : Frame) (r : Router)
    → IsHeard raw f
    → addr_eq f.dest r.cfg.mycall ≡ true
    → route now raw r ≡ to_session now f (heard now f r)
unfolding route dispatch
route-to_session now raw f r h e = rw (h.0, route) (ground (arith, h.1, hold_back_same now r))

-- A frame for another station, which is no UI frame, changes no session and sends nothing.
pub route_others :
    (now : ℕ) (raw : Bytes) (f : Frame) (r : Router)
    → IsHeard raw f
    → addr_eq f.dest r.cfg.mycall ≡ false
    → ((route now raw r).conns ≡ r.conns) × (stream (route now raw r) ≡ stream r)
unfolding route dispatch
route_others now raw f r h e = rw (h.0, route) (ground (arith, h.1, hold_back_same now r))

to_session-none :
    (now : ℕ) (f : Frame) (r : Router)
    → find f.dest f.src r.conns ≡ none
    → is_sabm (type f) && r.listening ≡ false
    → to_session now f r ≡ tx now (dm_for f r.cfg) r
unfolding to_session open_session
to_session-none now f r e k = rw (e, to_session) (ground arith)

-- The DM from one station to another: the control byte is 0x1F with F and 0x0F without.
abbrev pub dm_between : Addr → Addr → Bool → Frame
dm_between src dest final = record {
  dest = dest;
  src = src;
  digis = [];
  ctrl = if final then 0x1F else 0x0F;
  pid = 0xF0;
  has_pid = false;
  info = [];
}

-- `P` of a frame is the bit 4 of its control byte.
abbrev pub polls : Frame → Bool
polls f = not (bit_and f.ctrl 0x10 == 0)

dm_ctrl : (final : Bool) → bit_or dm_base (pf_of final) % 2 ^ 8 ≡ (if final then 0x1F else 0x0F)
dm_ctrl true = refl
dm_ctrl false = refl

dm_for_lem : (f : Frame) (cfg : Config) → dm_for f cfg ≡ dm_between cfg.mycall f.src (polls f)
unfolding pf_set
dm_for_lem f cfg =
    ap (λ (x : ℕ). record (dm_between cfg.mycall f.src (polls f)) { ctrl = x }) (dm_ctrl (get_pf f))

-- A frame for this station without a session, which is no UI frame, and no SABM or finds nobody listening,
-- is answered by one DM to its sender, whose F bit is the P bit of the frame, and changes no session.
pub route_unknown :
    (now : ℕ) (raw : Bytes) (f : Frame) (r : Router)
    → IsHeard raw f
    → addr_eq f.dest r.cfg.mycall ≡ true
    → IsPaced r
    → find f.dest f.src r.conns ≡ none
    → is_sabm (type f) && r.listening ≡ false
    → ((route now raw r).conns ≡ r.conns)
      × (stream (route now raw r)
          ≡ stream r ++ encode (dm_between r.cfg.mycall f.src (polls f)) ∷ [])
route_unknown now raw f r h e p n k =
    let s = hold_back_same now r in
    let r1 = heard now f r in
    let q = tx_lem now (dm_for f r1.cfg) r1 (ground (arith, s, p)) in
    let t = to_session-none now f r1 (ground (arith, s)) (ground (arith, s)) in
    ground (arith, route-to_session now raw f r h e, t, q, s, dm_for_lem f r.cfg)

pub matches-replaced :
    (f : Frame) (cfg_mycall : Addr) (d : Connection)
    → addr_eq f.dest cfg_mycall ≡ true
    → d.local_addr ≡ cfg_mycall
    → d.remote_addr ≡ f.src
    → matches f.dest f.src d ≡ true
unfolding matches
matches-replaced f mycall d e l r = ground (
  arith,
  (addr_eq_iff f.dest mycall).0 e,
  addr_eq_iff d.local_addr f.dest,
  addr_eq_iff d.remote_addr f.src,
)

find-append :
    (local remote : Addr) (cs : List Connection) (d : Connection)
    → find local remote cs ≡ none
    → matches local remote d ≡ true
    → find local remote (cs ++ d ∷ []) ≡ some d
unfolding find
find-append local remote [] d n m = ground arith
find-append local remote (c ∷ cs) d n m = ground (arith, find-append local remote cs d)

-- The session that a SABM opens.
abbrev pub opened_by : ℕ → Frame → Router → Connection
opened_by now f r = handle_frame f now (new_connection r.cfg.mycall f.src r.cfg false)

opened_by_lem :
    (now : ℕ) (f : Frame) (r : Router)
    → type f ≡ sabm
    → let d = opened_by now f r in
      (d.state ≡ connected)
      × (d.local_addr ≡ r.cfg.mycall)
      × (d.remote_addr ≡ f.src)
      × (outgoing d.events
          ≡ encode (
              plain_frame
                (new_connection r.cfg.mycall f.src r.cfg false)
                []
                (bit_or ua_base (pf_of (get_pf f)) % 2 ^ 8))
            ∷ [])
unfolding handle_frame handle_in when_disconnected new_connection
opened_by_lem now f r e = ground (arith, e)

to_session_opens :
    (now : ℕ) (f : Frame) (r : Router)
    → find f.dest f.src r.conns ≡ none
    → type f ≡ sabm
    → r.listening ≡ true
    → to_session now f r
      ≡ relay now f.src (opened_by now f r).events (
          notify (accepts f.src) (record r { conns = r.conns ++ settled (opened_by now f r) ∷ [] }))
unfolding to_session open_session
to_session_opens now f r n t l = rw (n, to_session) (ground (arith, t, l))

-- A SABM for this station from a station without a session opens one where somebody listens: the
-- new session is connected and stands behind the others, the next frame of that station finds it,
-- and one UA with F as the P of the SABM is sent.
pub route_opens :
    (now : ℕ) (raw : Bytes) (f : Frame) (r : Router)
    → IsHeard raw f
    → addr_eq f.dest r.cfg.mycall ≡ true
    → IsPaced r
    → find f.dest f.src r.conns ≡ none
    → type f ≡ sabm
    → r.listening ≡ true
    → let d = settled (opened_by now f r) in
      let r' = route now raw r in
      (r'.conns ≡ r.conns ++ d ∷ [])
      × (find f.dest f.src r'.conns ≡ some d)
      × (d.state ≡ connected)
      × (stream r'
          ≡ stream r
            ++ encode (
                plain_frame
                  (new_connection r.cfg.mycall f.src r.cfg false)
                  []
                  (bit_or ua_base (pf_of (get_pf f)) % 2 ^ 8))
              ∷ [])
route_opens now raw f r h e p n t l =
    let s = hold_back_same now r in
    let r1 = heard now f r in
    let d = opened_by now f r1 in
    let o = opened_by_lem now f r1 t in
    let opened = to_session_opens now f r1 (ground (arith, n, s)) t (ground (arith, l, s)) in
    let q =
      relay_lem now f.src d.events
        (notify (accepts f.src) (record r1 { conns = r1.conns ++ settled d ∷ [] }))
        (ground (arith, s, p)) in
    let same : opened_by now f r1 ≡ opened_by now f r =
      ap (λ (x : Config). handle_frame f now (new_connection x.mycall f.src x false)) s.1 in
    let m = matches-replaced f r1.cfg.mycall (settled d) (ground (arith, e, s)) o.1 o.2 in
    let e1 = ap (λ (x : Router). x.conns) (route-to_session now raw f r h e ∙ opened) ∙ q.4 in
    let e2 : r1.conns ++ settled d ∷ [] ≡ r.conns ++ settled (opened_by now f r) ∷ [] =
      ground (arith, s, same) in
    (
      e1 ∙ e2,
      ap (find f.dest f.src) e1
          ∙ (find-append f.dest f.src r1.conns (settled d) (ground (arith, n, s)) m
              ∙ ap (λ (x : Connection). some (settled x)) same),
      ap (λ (x : Connection). x.state) (sym same) ∙ o.0,
      ap stream (route-to_session now raw f r h e ∙ opened) ∙ (q.0 ∙ ground (arith, o, s)),
    )
