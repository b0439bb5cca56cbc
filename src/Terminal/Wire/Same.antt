-- ===== src/Terminal/Wire/Same.antt =====
-- The frames of the terminal against those of the library.
use ax25toolkit.Base.{
  ℕ, zero, suc, ◌+◌, ◌<◌, ◌≡◌, refl, sym, ap, ◌∙◌, Bool, true, false, List, [], ◌∷◌, map, arith,
  Bytes, take, drop, get_or, length, ltb, Option, none, some, Bool-cases, inl, inr, is_empty,
}
use ax25toolkit.Addr.{Addr}
use ax25toolkit.Frame
use ax25toolkit.Frame.{
  FrameType, Frame, no_frame, type_of, supervisory_type, unnumbered_type, is_last, decode_digis,
  carries_pid, encode_digis, decode_ctrl,
}
use ax25toolkit.Terminal.Station.{Station, read_station}
use ax25toolkit.Terminal.Station.Same.{as_addr, IsNamed, read_station_lem, write_station_lem}
use ax25toolkit.Terminal.Wire.{
  Kind, Datagram, no_datagram, kind_of, unnumbered_kind, read_digis, pid_follows, read_pid,
  read_ctrl, read_datagram, write_digis, write_datagram,
}
use ax25toolkit.Terminal.Wire

-- A frame of the terminal as one of the library.
abbrev pub as_frame : Datagram → Frame
as_frame f = record {
  dest = as_addr f.dest;
  src = as_addr f.src;
  digis = map as_addr f.digis;
  ctrl = f.ctrl;
  pid = f.pid;
  has_pid = f.has_pid;
  info = f.info;
}

-- The terminal has one kind for all supervisory frames.
abbrev pub kind : FrameType → Kind
kind Frame.unknown = Wire.unknown
kind Frame.i_frame = Wire.i_frame
kind Frame.s_frame = Wire.s_frame
kind Frame.ui = Wire.ui
kind Frame.sabm = Wire.sabm
kind Frame.disc = Wire.disc
kind Frame.ua = Wire.ua
kind Frame.dm = Wire.dm
kind Frame.frmr = Wire.frmr
kind Frame.rr = Wire.s_frame
kind Frame.rnr = Wire.s_frame
kind Frame.rej = Wire.s_frame

pub kind_of_lem : (ctrl : ℕ) → kind_of ctrl ≡ kind (type_of ctrl)
unfolding kind_of type_of supervisory_type unnumbered_type unnumbered_kind
kind_of_lem ctrl = ground arith

write_digis_lem : (ds : List Station) → write_digis ds ≡ encode_digis (map as_addr ds)
unfolding write_digis encode_digis
write_digis_lem [] = refl
write_digis_lem (d ∷ []) = rw (write_station_lem d true) refl
write_digis_lem (d ∷ e ∷ ds) = rw (write_station_lem d false, write_digis_lem (e ∷ ds)) refl

is_empty-map : (ds : List Station) → is_empty ds ≡ is_empty (map as_addr ds)
is_empty-map [] = refl
is_empty-map (d ∷ ds) = refl

-- The terminal writes every frame as the bytes that the library writes for it.
pub write_datagram_lem : (f : Datagram) → write_datagram f ≡ Frame.encode (as_frame f)
unfolding write_datagram Frame.encode
write_datagram_lem f =
    rw
      (
        write_digis_lem f.digis,
        is_empty-map f.digis,
        write_station_lem f.dest false,
        write_station_lem f.src (is_empty (map as_addr f.digis)),
      )
      refl

-- No address that `read_digis` reads holds a NUL.
abbrev pub DigisNamed : Bool → Bytes → Type 0
DigisNamed true rest = Unit
DigisNamed false (b0 ∷ b1 ∷ b2 ∷ b3 ∷ b4 ∷ b5 ∷ b6 ∷ rest) =
    IsNamed (b0 ∷ b1 ∷ b2 ∷ b3 ∷ b4 ∷ b5 ∷ b6 ∷ []) × DigisNamed (is_last b6) rest
DigisNamed false rest = Unit

abbrev listed : List Station × Bytes → List Addr × Bytes
listed (ds, rest) = (map as_addr ds, rest)

read_digis_lem :
    (last : Bool) (rest : Bytes)
    → DigisNamed last rest
    → listed (read_digis last rest) ≡ decode_digis last rest
unfolding read_digis decode_digis
read_digis_lem true rest h = refl
read_digis_lem false (b0 ∷ b1 ∷ b2 ∷ b3 ∷ b4 ∷ b5 ∷ b6 ∷ rest) h =
    rw
      (
        sym (read_station_lem (b0 ∷ b1 ∷ b2 ∷ b3 ∷ b4 ∷ b5 ∷ b6 ∷ []) h.0),
        sym (read_digis_lem (is_last b6) rest h.1),
      )
      refl
read_digis_lem false [] h = refl
read_digis_lem false (b0 ∷ []) h = refl
read_digis_lem false (b0 ∷ b1 ∷ []) h = refl
read_digis_lem false (b0 ∷ b1 ∷ b2 ∷ []) h = refl
read_digis_lem false (b0 ∷ b1 ∷ b2 ∷ b3 ∷ []) h = refl
read_digis_lem false (b0 ∷ b1 ∷ b2 ∷ b3 ∷ b4 ∷ []) h = refl
read_digis_lem false (b0 ∷ b1 ∷ b2 ∷ b3 ∷ b4 ∷ b5 ∷ []) h = refl

-- All addresses that `read_datagram` reads from `d` are free of NULs.
pub record AllNamed (d : Bytes) : Type 0 where
  pub dest_named : IsNamed (take 7 d)
  pub src_named : IsNamed (take 7 (drop 7 d))
  pub digis_named : DigisNamed (is_last (get_or d 13 0)) (drop 14 d)

pub read : Option Datagram → Option Frame
read none = none
read (some f) = some (as_frame f)

read_ctrl_lem :
    (f : Datagram) (rest : Bytes) → read (read_ctrl f rest) ≡ decode_ctrl (as_frame f) rest
unfolding read read_ctrl decode_ctrl kind_of type_of read_pid supervisory_type unnumbered_type
    unnumbered_kind Frame.decode_pid Frame.decode_info
read_ctrl_lem f [] = refl
read_ctrl_lem f (b ∷ []) = ground arith
read_ctrl_lem f (b ∷ (p ∷ rest)) = ground arith

get_or-take : (n i : ℕ) (xs : Bytes) → i < n → get_or (take n xs) i 0 ≡ get_or xs i 0
get_or-take zero i xs h = absurd (omega arith)
get_or-take (suc n) i [] h = refl
get_or-take (suc n) zero (x ∷ xs) h = refl
get_or-take (suc n) (suc i) (x ∷ xs) h = get_or-take n i xs (omega arith)

get_or-drop : (n i k : ℕ) (xs : Bytes) → k ≡ n + i → get_or (drop n xs) i 0 ≡ get_or xs k 0
get_or-drop zero i k xs h = ap (λ j. get_or xs j 0) (omega (arith, h))
get_or-drop (suc n) i k [] h = refl
get_or-drop (suc n) i zero (x ∷ xs) h = absurd (omega arith)
get_or-drop (suc n) i (suc k) (x ∷ xs) h = get_or-drop n i k xs (omega arith)

-- The end bit of the source address.
source_is_last :
    (d : Bytes) → (read_station (take 7 (drop 7 d))).is_last_addr ≡ is_last (get_or d 13 0)
unfolding read_station
source_is_last d =
    ap is_last (get_or-take 7 6 (drop 7 d) (omega arith) ∙ get_or-drop 7 6 13 d (omega arith))

-- Received bytes are a frame for the terminal exactly if they are one for the library, and then the same
-- frame: the same addresses, control byte, PID and information. The call signs hold no NULs.
pub read_datagram-decode :
    (d : Bytes) → AllNamed d → read (read_datagram d no_datagram) ≡ Frame.decode d no_frame
unfolding read read_datagram Frame.decode
read_datagram-decode d h =
    let short = ltb (length d) 14 in
    let src = read_station (take 7 (drop 7 d)) in
    let read_digis_there = read_digis src.is_last_addr (drop 14 d) in
    let f = record no_datagram {
      dest = read_station (take 7 d);
      src = src;
      digis = read_digis_there.0;
    } in
    elim (Bool-cases short) [
      | inl e ↦ rw e refl
      | inr e ↦ rw e (
          read_ctrl_lem f read_digis_there.1
          ∙ rw
              (
                source_is_last d,
                sym (read_station_lem (take 7 d) h.dest_named),
                sym (read_station_lem (take 7 (drop 7 d)) h.src_named),
                sym (read_digis_lem (is_last (get_or d 13 0)) (drop 14 d) h.digis_named),
              )
              refl)
    ]
