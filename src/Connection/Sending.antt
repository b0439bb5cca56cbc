-- ===== src/Connection/Sending.antt =====
-- `send`: how data is cut into pieces and queued.
use ax25toolkit.Base.{
  ℕ, zero, suc, ◌<◌, ◌≤◌, ◌≡◌, refl, ap, sym, ◌∙◌, ◌≢◌, arith, true, false, List, [], ◌∷◌, ◌++◌,
  length, length-drop, length-take, take-append-drop, map, append_assoc, Bytes, drop, take, some,
  none, All,
}
use ax25toolkit.Connection.{Connection, connected}
use ax25toolkit.Connection.Window.{flush_window}
use ax25toolkit.Connection.Timers.{is_connected}
use ax25toolkit.Connection.Api.{cut, send}
use ax25toolkit.Connection.Flow.{pending, flush_window-pending}

abbrev pub concat : List Bytes → Bytes
concat [] = []
concat (b ∷ bs) = b ++ concat bs

-- A piece fits an I frame and carries at least one byte.
abbrev pub IsPiece : ℕ → Bytes → Type 0
IsPiece mtu b = (0 < length b) × (length b ≤ mtu)

pub cut_lem :
    (fuel mtu : ℕ) (bytes : Bytes)
    → 0 < mtu
    → length bytes ≤ fuel
    → (pieces : List Bytes) × (cut fuel mtu bytes ≡ some pieces)
      × (concat pieces ≡ bytes)
      × All (IsPiece mtu) pieces
unfolding cut
cut_lem zero mtu [] p h = ([], refl, refl, tt)
cut_lem zero mtu (b ∷ bs) p h = absurd (omega arith)
cut_lem (suc fuel) mtu [] p h = ([], refl, refl, tt)
cut_lem (suc fuel) mtu (b ∷ bs) p h =
    let r = cut_lem fuel mtu (drop mtu (b ∷ bs)) p (omega (arith, length-drop mtu (b ∷ bs))) in
    (
      take mtu (b ∷ bs) ∷ r.0,
      rw r.1,
      ap (◌++◌ (take mtu (b ∷ bs))) r.2 ∙ take-append-drop mtu (b ∷ bs),
      (omega (arith, length-take mtu (b ∷ bs)), r.3),
    )

cut_endless : (fuel : ℕ) (bytes : Bytes) → bytes ≢ [] → cut fuel 0 bytes ≡ none
unfolding cut
cut_endless zero [] h = absurd (h refl)
cut_endless zero (b ∷ bs) h = refl
cut_endless (suc fuel) [] h = absurd (h refl)
cut_endless (suc fuel) (b ∷ bs) h = rw (cut_endless fuel (b ∷ bs) h)

-- On an open connection with a positive MTU, `send` ends and succeeds, and the bytes, cut into
-- pieces of 1 to MTU bytes, are appended in order to what the connection has to deliver.
pub send_lem :
    (now : ℕ) (bytes : Bytes) (c : Connection)
    → c.state ≡ connected
    → 0 < c.cfg.mtu
    → (d : Connection) × (pieces : List Bytes) × (send now bytes c ≡ some (d, true))
      × (concat pieces ≡ bytes)
      × All (IsPiece c.cfg.mtu) pieces
      × (pending d ≡ pending c ++ pieces)
unfolding send
send_lem now bytes c e p =
    let r = cut_lem (length bytes) c.cfg.mtu bytes p (omega arith) in
    let q = record c { send_buf = c.send_buf ++ r.0 } in
    (
      flush_window now q,
      r.0,
      ground (arith, r.1),
      r.2,
      r.3,
      (flush_window-pending now q).0
          ∙ sym (append_assoc (map (λ u. u.payload) c.unacked) c.send_buf r.0),
    )

-- With an MTU of 0, which the command line allows, the loop of `send` never ends: no fuel is enough.
pub send_endless : (bytes : Bytes) → bytes ≢ [] → (fuel : ℕ) → cut fuel 0 bytes ≡ none
send_endless bytes h fuel = cut_endless fuel bytes h

-- Without a connection nothing is queued or sent, and the call says so.
pub send_refused :
    (now : ℕ) (bytes : Bytes) (c : Connection)
    → is_connected c.state ≡ false
    → send now bytes c ≡ some (c, false)
unfolding send
send_refused now bytes c h = rw h
