-- ===== src/Connection/Timers.antt =====
-- `tick` of lib/ax25lib.cpp: the timers T2, T1 and T3 in turn.
use ax25toolkit.Base.{ℕ, ◌+◌, Bool, true, false, ◌&&◌, ltb, leb, is_empty, if◌then◌else◌}
use ax25toolkit.Connection.{
  Connection, State, disconnected, connecting, connected, disconnecting, start_t1, tx_sabm, tx_disc,
  tx_rr,
}
use ax25toolkit.Connection.Window.{retransmit_all, link_failed}

abbrev pub is_connected : State → Bool
is_connected connected = true
is_connected _ = false

unfoldable pub tick_t2 : ℕ → Connection → Connection
unfolding tx_rr
tick_t2 now c =
    if c.t2_run && leb c.t2_exp now
    then (let c1 = record c { t2_run = false } in
        if c1.ack_pending && is_connected c1.state
        then tx_rr false (record c1 { ack_pending = false })
        else c1)
    else c

-- What T1 does within the retry limit; `true` means that `tick` returns.
unfoldable pub retry_in : State → ℕ → Connection → Connection × Bool
unfolding tx_sabm tx_disc start_t1
retry_in connecting now c = (start_t1 now (tx_sabm c), false)
retry_in connected now c =
    if is_empty c.unacked
    then (if c.poll_pending then (link_failed c, true) else (c, false))
    else (retransmit_all now c, false)
retry_in disconnecting now c = (start_t1 now (tx_disc c), false)
retry_in disconnected now c = (c, false)

unfoldable pub tick_t1 : ℕ → Connection → Connection × Bool
tick_t1 now c =
    if c.t1_run && leb c.t1_exp now
    then (let c1 = record c { t1_run = false; retry = c.retry + 1 } in
        if ltb c1.cfg.n2 c1.retry then (link_failed c1, true) else retry_in c1.state now c1)
    else (c, false)

unfoldable pub tick_t3 : ℕ → Connection → Connection
unfolding tx_rr start_t1
tick_t3 now c =
    if (c.t3_run && leb c.t3_exp now) && is_connected c.state
    then (let c1 = record c { t3_run = false; poll_pending = true; poll_sent = c.poll_sent + 1 } in
        start_t1 now (tx_rr true c1))
    else c

unfoldable pub tick : ℕ → Connection → Connection
tick now c =
    let (c1, returned) = tick_t1 now (tick_t2 now c) in if returned then c1 else tick_t3 now c1
