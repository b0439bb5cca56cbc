-- ===== src/Connection/Api.antt =====
-- The calls of the application: `start_connect`, `send`, `disconnect` and the destructor of
-- lib/ax25lib.cpp. `now` is what `now_ms()` returns.
use ax25toolkit.Base.{
  ℕ, zero, suc, Bool, true, false, List, [], ◌∷◌, ◌++◌, Bytes, Option, none, some, length, is_empty,
  take, drop, if◌then◌else◌,
}
use ax25toolkit.Connection.{
  Connection, State, disconnected, connecting, connected, disconnecting, start_t1, stop_t2, stop_t3,
  tx_sabm, tx_disc,
}
use ax25toolkit.Connection.Timers.{is_connected}
use ax25toolkit.Connection.Window.{flush_window}

unfoldable pub start_connect : ℕ → Connection → Connection
unfolding stop_t2 tx_sabm start_t1
start_connect now c =
    let c1 = stop_t2 (record c {
      vs = 0;
      vr = 0;
      va = 0;
      retry = 0;
      peer_busy = false;
      rx_since_ack = 0;
      poll_sent = 0;
    }) in
    start_t1 now (tx_sabm (record c1 { state = connecting }))

abbrev prepend : Bytes → Option (List Bytes) → Option (List Bytes)
prepend b none = none
prepend b (some bs) = some (b ∷ bs)

-- The loop that cuts what is left of `data` into pieces of `mtu` bytes; `none` is out of fuel.
unfoldable pub cut : ℕ → ℕ → Bytes → Option (List Bytes)
cut zero mtu bytes = if is_empty bytes then some [] else none
cut (suc fuel) mtu bytes =
    let rest = cut fuel mtu (drop mtu bytes) in
    if is_empty bytes then some [] else prepend (take mtu bytes) rest

-- `none` means that the loop does not end; a piece per byte is fuel enough where it does.
unfoldable pub send : ℕ → Bytes → Connection → Option (Connection × Bool)
send now bytes c =
    if is_connected c.state
    then elim (cut (length bytes) c.cfg.mtu bytes) [
      | none ↦ none
      | some pieces ↦ some (flush_window now (record c { send_buf = c.send_buf ++ pieces }), true)
    ]
    else some (c, false)

unfoldable pub close_in : State → ℕ → Connection → Connection
unfolding stop_t2 stop_t3 tx_disc start_t1
close_in disconnected now c = c
close_in disconnecting now c = c
close_in _ now c =
    let c1 = record (stop_t3 (stop_t2 c)) { state = disconnecting; retry = 0; send_buf = [] } in
    start_t1 now (tx_disc c1)

unfoldable pub disconnect : ℕ → Connection → Connection
unfolding close_in
disconnect now c = close_in c.state now c

-- The frame that the destructor sends.
unfoldable pub destroy_in : State → Connection → Connection
unfolding tx_disc
destroy_in connected c = tx_disc c
destroy_in connecting c = tx_disc c
destroy_in _ c = c

unfoldable pub destroy : Connection → Connection
unfolding destroy_in
destroy c = destroy_in c.state c
