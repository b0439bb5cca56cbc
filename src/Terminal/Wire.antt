-- ===== src/Terminal/Wire.antt =====
-- Namespace `AX25` of src/ax25kiss.cpp: the struct `Frame` with `type`, `decode` and `encode`.
pub mod Same
use ax25toolkit.Base.{
  ℕ, ◌/◌, Bool, true, false, not, List, [], ◌∷◌, ◌++◌, Bytes, ◌==◌, ltb, if◌then◌else◌, Option,
  none, some, take, drop, is_empty, length, bit_and,
}
use ax25toolkit.Frame.{ui_base, sabm_base, disc_base, ua_base, dm_base, frmr_base}
use ax25toolkit.Terminal.Station.{Station, no_station, read_station, write_station}

pub data Kind : Type 0 where
  unknown i_frame s_frame ui sabm disc ua dm frmr : Kind

pub record Datagram : Type 0 where
  pub dest : Station
  pub src : Station
  pub digis : List Station
  pub ctrl : ℕ
  pub pid : ℕ
  pub has_pid : Bool
  pub info : Bytes

-- `Frame f;`
abbrev pub no_datagram : Datagram
no_datagram = record {
  dest = no_station;
  src = no_station;
  digis = [];
  ctrl = 0x03;
  pid = 0xF0;
  has_pid = true;
  info = [];
}

-- The `switch` of `type`, on the control byte without its P/F bit.
unfoldable pub unnumbered_kind : ℕ → Kind
unnumbered_kind u =
    if u == ui_base
    then ui
    else if u == sabm_base
    then sabm
    else if u == disc_base
    then disc
    else if u == ua_base
    then ua
    else if u == dm_base
    then dm
    else if u == frmr_base
    then frmr
    else unknown

-- `type`
unfoldable pub kind_of : ℕ → Kind
unfolding unnumbered_kind
kind_of ctrl =
    if bit_and ctrl 0x01 == 0x00
    then i_frame
    else if bit_and ctrl 0x03 == 0x01
    then s_frame
    else unnumbered_kind (bit_and ctrl 0xEF)

-- The loop over the digipeaters: those read, and the bytes from `pos` on.
unfoldable pub read_digis : Bool → Bytes → List Station × Bytes
unfolding read_station
read_digis true rest = ([], rest)
read_digis false (b0 ∷ b1 ∷ b2 ∷ b3 ∷ b4 ∷ b5 ∷ b6 ∷ rest) =
    let digi = read_station (b0 ∷ b1 ∷ b2 ∷ b3 ∷ b4 ∷ b5 ∷ b6 ∷ []) in
    let (ds, rest') = read_digis digi.is_last_addr rest in (digi ∷ ds, rest')
read_digis false rest = ([], rest)

abbrev pub pid_follows : Kind → Bool
pid_follows i_frame = true
pid_follows ui = true
pid_follows _ = false

unfoldable pub read_pid : Datagram → Bytes → Option Datagram
read_pid f [] = none
read_pid f (b ∷ rest) = some (record f { pid = b; has_pid = true; info = rest })

unfoldable pub read_ctrl : Datagram → Bytes → Option Datagram
unfolding read_pid kind_of
read_ctrl f [] = none
read_ctrl f (b ∷ rest) =
    let g = record f { ctrl = b } in
    if pid_follows (kind_of b)
    then read_pid g rest
    else some (record g { has_pid = false; info = rest })

-- `decode(d, f)`: `none` is the result false. What a failed call leaves in `f` is not modelled.
unfoldable pub read_datagram : Bytes → Datagram → Option Datagram
unfolding read_digis read_station read_ctrl
read_datagram d f =
    if ltb (length d) 14
    then none
    else (let src = read_station (take 7 (drop 7 d)) in
        let (ds, rest) = read_digis src.is_last_addr (drop 14 d) in
        read_ctrl (record f { dest = read_station (take 7 d); src = src; digis = f.digis ++ ds })
          rest)

unfoldable pub write_digis : List Station → Bytes
unfolding write_station
write_digis [] = []
write_digis (d ∷ ds) = write_station d (is_empty ds) ++ write_digis ds

-- `encode`
unfoldable pub write_datagram : Datagram → Bytes
unfolding write_station write_digis
write_datagram f =
    write_station f.dest false
    ++ (write_station f.src (is_empty f.digis)
        ++ (write_digis f.digis ++ (f.ctrl ∷ ((if f.has_pid then f.pid ∷ [] else []) ++ f.info))))
