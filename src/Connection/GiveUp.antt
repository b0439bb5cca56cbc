-- ===== src/Connection/GiveUp.antt =====
-- A connection attempt that nobody answers.
use ax25toolkit.Base.{ℕ, zero, suc, ◌+◌, ◌≡◌, true, false, [], ◌∷◌, ◌++◌, bit_or, ◌%◌, ◌^◌}
use ax25toolkit.Frame.{sabm_base, pf_bit}
use ax25toolkit.Connection.{Connection, connecting, Event, sends, plain_frame}
use ax25toolkit.Connection.Timers.{tick}

-- `n` ticks, each when T1 has just expired.
abbrev pub expire : ℕ → Connection → Connection
expire zero c = c
expire (suc n) c = expire n (tick c.t1_exp c)

-- The SABM of a connection.
abbrev pub sabm_of : Connection → Event
sabm_of c = sends (plain_frame c c.cfg.digis (bit_or sabm_base pf_bit % 2 ^ 8))

-- A connection attempt that waits for its answer.
pub record Waits (c : Connection) : Type 0 where
  pub tries : c.state ≡ connecting
  pub timed : c.t1_run ≡ true
  pub no_ack : c.t2_run ≡ false

record Retried (c d : Connection) : Type 0 where
  waits : Waits d
  counted : d.retry ≡ c.retry + 1
  cfg_is : d.cfg ≡ c.cfg
  sabm_is : sabm_of d ≡ sabm_of c
  sent : d.events ≡ c.events ++ sabm_of c ∷ []
