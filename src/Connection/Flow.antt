-- ===== src/Connection/Flow.antt =====
-- What `flush_window` does to the queues: new frames leave `send_buf_` in order, up to the window.
use ax25toolkit.Base.{
  ℕ, zero, suc, ◌-◌, ◌<◌, ◌≤◌, ◌≡◌, refl, ap, sym, ◌∙◌, ◌⊎◌, inl, arith, true, false, List, [], ◌∷◌,
  ◌++◌, length, length-append, map, append_assoc, append-nil, is_empty, Bytes, ltb, ◌==◌,
  if◌then◌else◌,
}
use mathlib.Core.List.{map-append}
use ax25toolkit.Connection.{Connection, UnackedFrame, Event, sends, i_frame_of}
use ax25toolkit.Connection.Window.{flush_chunk, flush_loop, flush_window}
use ax25toolkit.Connection.Numbering.{Numbered, next, next-lt, Numbered-snoc}

-- The pieces of data that the peer has not acknowledged, oldest first.
abbrev pub pending : Connection → List Bytes
pending c = map (λ u. u.payload) c.unacked ++ c.send_buf

-- The frames in flight are numbered from V(A) up to V(S), and no more than the window.
pub record InWindow (c : Connection) : Type 0 where
  pub vs_lt : c.vs < 8
  pub vr_lt : c.vr < 8
  pub va_lt : c.va < 8
  pub numbered : Numbered c.va c.unacked c.vs
  pub fits : length c.unacked ≤ c.cfg.window

-- What sending new frames leaves as it was.
pub record SameLink (c d : Connection) : Type 0 where
  pub same_cfg : d.cfg ≡ c.cfg
  pub same_state : d.state ≡ c.state
  pub same_vr : d.vr ≡ c.vr
  pub same_va : d.va ≡ c.va
  pub same_peer : d.peer_busy ≡ c.peer_busy
  pub same_local : d.local_addr ≡ c.local_addr
  pub same_remote : d.remote_addr ≡ c.remote_addr
  pub same_t1 : d.t1_run ≡ c.t1_run

pub flush_chunk-SameLink :
    (chunk : Bytes) (rest : List Bytes) (c : Connection) → SameLink c (flush_chunk chunk rest c)
unfolding flush_chunk
flush_chunk-SameLink chunk rest c = ground arith

pub flush_chunk-InWindow :
    (chunk : Bytes) (rest : List Bytes) (c : Connection)
    → InWindow c
    → length c.unacked < c.cfg.window
    → InWindow (flush_chunk chunk rest c)
unfolding flush_chunk
flush_chunk-InWindow chunk rest c v room = ground (
  arith,
  next-lt c.vs,
  length-append c.unacked (record { ns = c.vs; payload = chunk } ∷ []),
  Numbered-snoc c.va c.vs c.unacked chunk v.numbered,
)

pub flush_chunk-pending :
    (chunk : Bytes) (rest : List Bytes) (c : Connection)
    → c.send_buf ≡ chunk ∷ rest
    → ((flush_chunk chunk rest c).send_buf ≡ rest)
      × (pending (flush_chunk chunk rest c) ≡ pending c)
unfolding flush_chunk
flush_chunk-pending chunk rest c e = ground (
  arith,
  map-append (λ (u : UnackedFrame). u.payload) c.unacked
      (record { ns = c.vs; payload = chunk } ∷ []),
  append_assoc (map (λ (u : UnackedFrame). u.payload) c.unacked) (chunk ∷ []) rest,
)

pub flush_loop-SameLink : (chunks : List Bytes) (c : Connection) → SameLink c (flush_loop chunks c)
unfolding flush_loop
flush_loop-SameLink [] c = ground arith
flush_loop-SameLink (chunk ∷ rest) c =
    ground (
      arith,
      flush_chunk-SameLink chunk rest c,
      flush_loop-SameLink rest (flush_chunk chunk rest c),
    )

pub flush_loop-InWindow :
    (chunks : List Bytes) (c : Connection) → InWindow c → InWindow (flush_loop chunks c)
unfolding flush_loop
flush_loop-InWindow [] c v = v
flush_loop-InWindow (chunk ∷ rest) c v = ground (
  arith,
  flush_chunk-InWindow chunk rest c v,
  flush_loop-InWindow rest (flush_chunk chunk rest c),
)

-- The loop stops when nothing waits or the window is full.
pub flush_loop-pending :
    (chunks : List Bytes) (c : Connection)
    → c.send_buf ≡ chunks
    → (pending (flush_loop chunks c) ≡ pending c)
      × (((flush_loop chunks c).send_buf ≡ [])
          ⊎ (c.cfg.window ≤ length (flush_loop chunks c).unacked))
unfolding flush_loop
flush_loop-pending [] c e = (refl, inl e)
flush_loop-pending (chunk ∷ rest) c e = ground (
  arith,
  flush_chunk-pending chunk rest c e,
  flush_chunk-SameLink chunk rest c,
  flush_loop-pending rest (flush_chunk chunk rest c),
)

-- The I frames of new data: numbered from `ns` on, with the present V(R), as many as there is room for, and with
-- P on one that takes the last room.
abbrev pub sent : Connection → ℕ → ℕ → List Bytes → List Event
sent c ns zero chunks = []
sent c ns (suc room) [] = []
sent c ns (suc room) (chunk ∷ rest) =
    sends (i_frame_of c ns c.vr (room == 0) chunk) ∷ sent c (next ns) room rest

flush_chunk-sent :
    (chunk : Bytes) (rest : List Bytes) (room : ℕ) (base c : Connection)
    → SameLink base c
    → suc room ≡ c.cfg.window - length c.unacked
    → let d = flush_chunk chunk rest c in
      (d.events ≡ c.events ++ sends (i_frame_of base c.vs base.vr (room == 0) chunk) ∷ [])
      × (d.vs ≡ next c.vs)
      × (room ≡ d.cfg.window - length d.unacked)
unfolding flush_chunk
flush_chunk-sent chunk rest room base c s h =
    let n = length-append c.unacked (record { ns = c.vs; payload = chunk } ∷ []) in
    (ground (arith, s, n), ground (arith, s, n), ground (arith, s, n))

SameLink-trans : (a b c : Connection) → SameLink a b → SameLink b c → SameLink a c
SameLink-trans a b c h k = ground (arith, h, k)

flush_loop-sent :
    (chunks : List Bytes) (room : ℕ) (base c : Connection)
    → SameLink base c
    → room ≡ c.cfg.window - length c.unacked
    → (flush_loop chunks c).events ≡ c.events ++ sent base c.vs room chunks
unfolding flush_loop
flush_loop-sent [] zero base c s h = sym (append-nil c.events)
flush_loop-sent [] (suc room) base c s h = sym (append-nil c.events)
flush_loop-sent (chunk ∷ rest) zero base c s h = ground (arith, h, append-nil c.events)
flush_loop-sent (chunk ∷ rest) (suc room) base c s h =
    let q = flush_chunk-sent chunk rest room base c s h in
    let d = flush_chunk chunk rest c in
    let ih =
      flush_loop-sent rest room base d
        (SameLink-trans base c d s (flush_chunk-SameLink chunk rest c)) q.2 in
    let f = sends (i_frame_of base c.vs base.vr (room == 0) chunk) in
    let all : (flush_loop rest d).events ≡ c.events ++ f ∷ sent base (next c.vs) room rest =
      ih
      ∙ (ap (λ n. d.events ++ sent base n room rest) q.1
          ∙ (ap (λ es. es ++ sent base (next c.vs) room rest) q.0
              ∙ append_assoc c.events (f ∷ []) (sent base (next c.vs) room rest))) in
    let there : ltb (length c.unacked) c.cfg.window ≡ true = ground (arith, h) in rw there all

-- Whenever frames are in flight, T1 runs.
abbrev pub TimerRuns : Connection → Type 0
TimerRuns c = is_empty c.unacked ≡ false → c.t1_run ≡ true

pub flush_window-InWindow : (now : ℕ) (c : Connection) → InWindow c → InWindow (flush_window now c)
unfolding flush_window
flush_window-InWindow now c v = ground (arith, flush_loop-InWindow c.send_buf c v)

pub flush_window-TimerRuns :
    (now : ℕ) (c : Connection) → TimerRuns c → TimerRuns (flush_window now c)
unfolding flush_window
flush_window-TimerRuns now c t = ground (arith, t)

pub flush_window_same :
    (now : ℕ) (c : Connection)
    → ((flush_window now c).cfg ≡ c.cfg)
      × ((flush_window now c).state ≡ c.state)
      × ((flush_window now c).vr ≡ c.vr)
      × ((flush_window now c).va ≡ c.va)
      × ((flush_window now c).peer_busy ≡ c.peer_busy)
unfolding flush_window
flush_window_same now c = ground (arith, flush_loop-SameLink c.send_buf c)

-- Flushing neither loses, nor makes up, nor reorders data; after it the peer is busy, nothing waits, or the
-- window is full.
pub flush_window-pending :
    (now : ℕ) (c : Connection)
    → (pending (flush_window now c) ≡ pending c)
      × ((c.peer_busy ≡ true)
          ⊎ ((flush_window now c).send_buf ≡ [])
          ⊎ (c.cfg.window ≤ length (flush_window now c).unacked))
unfolding flush_window
flush_window-pending now c = ground (arith, flush_loop-pending c.send_buf c refl)

-- Flushing sends nothing while the peer is busy; else it sends one I frame for each piece of data that
-- waits, in order, as many as the window has room for: under the numbers from V(S) on, with V(R), and
-- with P on the one that fills the window. No data is lost or made up, and after it the peer is busy, nothing
-- waits, or the window is full.
pub flush_window_lem :
    (now : ℕ) (c : Connection)
    → let d = flush_window now c in
      (d.events
        ≡ c.events
          ++ (if c.peer_busy then [] else sent c c.vs (c.cfg.window - length c.unacked) c.send_buf))
      × (pending d ≡ pending c)
      × ((c.peer_busy ≡ true) ⊎ (d.send_buf ≡ []) ⊎ (c.cfg.window ≤ length d.unacked))
flush_window_lem now c =
    let same : SameLink c c = record {
      same_cfg = refl;
      same_state = refl;
      same_vr = refl;
      same_va = refl;
      same_peer = refl;
      same_local = refl;
      same_remote = refl;
      same_t1 = refl;
    } in
    let q = flush_loop-sent c.send_buf (c.cfg.window - length c.unacked) c c same refl in
    let k = flush_window-pending now c in
    (unfold flush_window in ground (arith, q, append-nil c.events), k.0, k.1)
