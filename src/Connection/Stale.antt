-- ===== src/Connection/Stale.antt =====
-- A session that fails and is opened again by the peer.
use ax25toolkit.Base.{ℕ, ◌+◌, ◌%◌, ◌<◌, ◌≡◌, ap, arith, List, [], ◌∷◌, length}
use ax25toolkit.Base.Bits.{bit_and_seven}
use ax25toolkit.Frame.{Frame, sabm, type}
use ax25toolkit.Connection.{Connection, UnackedFrame, connected}
use ax25toolkit.Connection.Window.{link_failed}
use ax25toolkit.Connection.Machine.{when_disconnected, handle_in, handle_frame}
use ax25toolkit.Connection.Numbering.{Numbered, next, next-lt}

-- V(S) is V(A) and the number of frames in flight, modulo 8.
pub Numbered-length :
    (va vs : ℕ) (us : List UnackedFrame) → va < 8 → Numbered va us vs → vs ≡ (va + length us) % 8
Numbered-length va vs [] h n = omega arith
Numbered-length va vs (u ∷ us) h n =
    omega (arith, Numbered-length (next va) vs us (next-lt va) n.1, bit_and_seven (va + 1))

-- When a link fails with frames in flight and the peer then opens the connection again by a SABM, the
-- session is connected with V(S), V(A) and V(R) at 0, but the frames of the old one are still in
-- flight, under numbers that do not lead from V(A) to V(S). There are fewer than eight of them, as in any window
-- of modulo 8.
pub reopened-ne-Numbered :
    (f : Frame) (now : ℕ) (c : Connection)
    → type f ≡ sabm
    → 0 < length c.unacked
    → length c.unacked < 8
    → let d = handle_frame f now (link_failed c) in
      (d.state ≡ connected)
      × (d.unacked ≡ c.unacked)
      × (d.va ≡ 0)
      × (d.vs ≡ 0)
      × (d.vr ≡ 0)
      × ¬ Numbered d.va d.unacked d.vs
unfolding handle_frame handle_in when_disconnected link_failed
reopened-ne-Numbered f now c e some_left few = (
  ground (arith, e),
  ground (arith, e),
  ground (arith, e),
  ground (arith, e),
  ground (arith, e),
  λ h.
      let d = handle_frame f now (link_failed c) in
      let va_is : d.va ≡ 0 = ground (arith, e) in
      let vs_is : d.vs ≡ 0 = ground (arith, e) in
      let same : d.unacked ≡ c.unacked = ground (arith, e) in
      omega (arith, Numbered-length d.va d.vs d.unacked (omega arith) h, ap length same),
)
