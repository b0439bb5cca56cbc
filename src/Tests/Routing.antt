-- ===== src/Tests/Routing.antt =====
-- A router with one session: the theorems about lib/ax25lib.cpp's `Router`.
use ax25toolkit.Base.{
  ℕ, ◌%◌, ◌^◌, ◌≡◌, refl, sym, ◌∙◌, subst, arith, true, false, ◌&&◌, [], ◌∷◌, ◌++◌, none, some,
  bit_or,
}
use ax25toolkit.Base.Int.{pos}
use ax25toolkit.Kiss.{fresh}
use ax25toolkit.Addr.{Addr, addr_eq}
use ax25toolkit.Addr.Wire.{IsAddr}
use ax25toolkit.Frame.{
  Frame, no_frame, sabm, type, type_of, nr_of, get_pf, pf_set, decode, encode, ua_base, pf_of,
}
use ax25toolkit.Frame.RoundTrip.{IsFrame, decode-encode}
use ax25toolkit.Connection.{Connection, new_connection, plain_frame, connected}
use ax25toolkit.Connection.Invariant.{IsSound, IsClean}
use ax25toolkit.Router.{Router, matches, find, is_sabm, settled, drain_tx, route}
use ax25toolkit.Router.Pacing.{stream, IsPaced, route_held}
use ax25toolkit.Router.Routing.{IsHeard, dm_between, route_unknown, opened_by, route_opens}
use ax25toolkit.Router.Isolation.{route-find}
use ax25toolkit.Router.Sessions.{AllInv, Suits, route-AllInv}
use ax25toolkit.Tests.Links.{here, there, config, link, link-InWindow}

abbrev router : Router
router = record {
  cfg = record config { txdelay = 30 };
  conns = link ∷ [];
  listening = true;
  tx_queue = (0x41 ∷ []) ∷ [];
  tx_next = 900;
  decoder = fresh;
  line = [];
  notices = [];
}

abbrev stranger : Addr
stranger = record { call = b'N' ∷ b'0' ∷ b'C' ∷ []; ssid = pos 0; repeated = false }

abbrev from_stranger : Addr → ℕ → Frame
from_stranger dest ctrl = record {
  dest = dest;
  src = stranger;
  digis = [];
  ctrl = ctrl;
  pid = 0xF0;
  has_pid = false;
  info = [];
}

-- A SABM with P, and an RR.
abbrev call : Frame
call = from_stranger here 0x3F

abbrev ready : Frame
ready = from_stranger here 0x01

here-IsAddr : IsAddr here
here-IsAddr = record {
  fits = omega arith;
  ascii = ground arith;
  plain = omega arith;
  ssid_fits = omega arith;
}

there-IsAddr : IsAddr there
there-IsAddr = record {
  fits = omega arith;
  ascii = ground arith;
  plain = omega arith;
  ssid_fits = omega arith;
}

stranger-IsAddr : IsAddr stranger
stranger-IsAddr = record {
  fits = omega arith;
  ascii = ground arith;
  plain = omega arith;
  ssid_fits = omega arith;
}

call-IsFrame : IsFrame call
unfolding type_of
call-IsFrame = record {
  dest_fits = here-IsAddr;
  src_fits = stranger-IsAddr;
  digis_fit = tt;
  pid_there = refl;
  pid_default = λ h. refl;
}

ready-IsFrame : IsFrame ready
unfolding type_of
ready-IsFrame = record {
  dest_fits = here-IsAddr;
  src_fits = stranger-IsAddr;
  digis_fit = tt;
  pid_there = refl;
  pid_default = λ h. refl;
}

call-IsHeard : IsHeard (encode call) call
unfolding type_of
call-IsHeard = (decode-encode call call-IsFrame, refl)

ready-IsHeard : IsHeard (encode ready) ready
unfolding type_of
ready-IsHeard = (decode-encode ready ready-IsFrame, refl)

here_mine : addr_eq here here ≡ true
unfolding addr_eq
here_mine = refl

no_session : find here stranger router.conns ≡ none
unfolding find matches addr_eq
no_session = refl

call-type : type call ≡ sabm
unfolding type_of
call-type = refl

ready_no_sabm : is_sabm (type ready) && true ≡ false
unfolding type_of
ready_no_sabm = refl

router-IsPaced : IsPaced router
router-IsPaced = λ h. absurd (omega arith)

router-AllInv : AllInv router
router-AllInv = ((link-InWindow, λ _. refl), tt)

route_held_example :
    ((route 1000 (encode call) router).line ≡ [])
    × (drain_tx 1299 (route 1000 (encode call) router) ≡ route 1000 (encode call) router)
route_held_example =
    route_held 1000 1299 (encode call) router call (decode-encode call call-IsFrame) (omega arith)
      (omega arith) (ground arith)

-- A SABM of the stranger leaves the session with the other station alone.
route-find_example :
    find here there (route 1000 (encode call) router).conns ≡ find here there (link ∷ [])
unfolding addr_eq
route-find_example =
    route-find 1000 (encode call) call router here there (decode-encode call call-IsFrame) refl

route_unknown_example :
    ((route 1000 (encode ready) router).conns ≡ link ∷ [])
    × (stream (route 1000 (encode ready) router)
        ≡ stream router ++ encode (dm_between here stranger false) ∷ [])
route_unknown_example =
    unfold pf_set in
    route_unknown 1000 (encode ready) ready router ready-IsHeard here_mine router-IsPaced no_session
      ready_no_sabm

route_opens_example :
    let d = settled (opened_by 1000 call router) in
    let r' = route 1000 (encode call) router in
    (r'.conns ≡ link ∷ d ∷ [])
    × (find here stranger r'.conns ≡ some d)
    × (d.state ≡ connected)
    × (stream r'
        ≡ stream router
          ++ encode (
              plain_frame
                (new_connection here stranger router.cfg false)
                []
                (bit_or ua_base (pf_of (get_pf call)) % 2 ^ 8))
            ∷ [])
route_opens_example =
    route_opens 1000 (encode call) call router call-IsHeard here_mine router-IsPaced no_session
      call-type refl

-- An RR for the session: N(R) 0 acknowledges the older frame.
abbrev ack : Frame
ack = record ready { src = there }

ack-IsFrame : IsFrame ack
unfolding type_of
ack-IsFrame = record {
  dest_fits = here-IsAddr;
  src_fits = there-IsAddr;
  digis_fit = tt;
  pid_there = refl;
  pid_default = λ h. refl;
}

link_found : (c : Connection) → find here there router.conns ≡ some c → link ≡ c
unfolding find matches addr_eq
link_found c s = cc

ack-IsSound : IsSound ack link × IsClean link
unfolding nr_of
ack-IsSound = ((λ _ _. omega arith), (λ e. cc))

ack-Suits : (f : Frame) → decode (encode ack) no_frame ≡ some f → Suits f router
ack-Suits f e =
    let same : some ack ≡ some f = sym (decode-encode ack ack-IsFrame) ∙ e in
    let f_is : ack ≡ f = cc in
    subst (λ (x : Frame). Suits x router) f_is
      (λ c s. subst (λ (x : Connection). IsSound ack x × IsClean x) (link_found c s) ack-IsSound)

route-AllInv_example : AllInv (route 1000 (encode ack) router)
route-AllInv_example = route-AllInv 1000 (encode ack) router router-AllInv ack-Suits
