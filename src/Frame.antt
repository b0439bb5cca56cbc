-- ===== src/Frame.antt =====
-- The struct `Frame` of lib/ax25lib.hpp, with `type`, `decode` and `encode` of lib/ax25lib.cpp and
-- the control bytes that the local helpers there build.
pub mod Control
pub mod RoundTrip
pub mod Format
pub mod Heard
use ax25toolkit.Base.{
  ℕ, zero, suc, ◌-◌, ◌+◌, ◌*◌, ◌/◌, ◌%◌, ◌^◌, Bool, true, false, not, ◌&&◌, ◌||◌, List, [], ◌∷◌,
  ◌++◌, map, Bytes, ◌==◌, ltb, if◌then◌else◌, Option, none, some, take, drop, get_or, is_empty,
  length, bit_and, bit_or,
}
use ax25toolkit.Addr.{Addr, no_addr}
use ax25toolkit.Addr

pub data FrameType : Type 0 where
  unknown i_frame s_frame ui sabm disc ua dm frmr rr rnr rej : FrameType

pub record Frame : Type 0 where
  pub dest : Addr
  pub src : Addr
  pub digis : List Addr
  pub ctrl : ℕ
  pub pid : ℕ
  pub has_pid : Bool
  pub info : Bytes

-- `Frame f;`
abbrev pub no_frame : Frame
no_frame = record {
  dest = no_addr;
  src = no_addr;
  digis = [];
  ctrl = 0x03;
  pid = 0xF0;
  has_pid = true;
  info = [];
}

abbrev pub pf_bit : ℕ
pf_bit = 0x10

abbrev pub sabm_base : ℕ
sabm_base = 0x2F

abbrev pub disc_base : ℕ
disc_base = 0x43

abbrev pub ua_base : ℕ
ua_base = 0x63

abbrev pub dm_base : ℕ
dm_base = 0x0F

abbrev pub ui_base : ℕ
ui_base = 0x03

abbrev pub frmr_base : ℕ
frmr_base = 0x87

abbrev pub pf_of : Bool → ℕ
pf_of p = if p then pf_bit else 0

unfoldable pub mk_i : ℕ → ℕ → Bool → ℕ
mk_i ns nr p = bit_or (bit_or (bit_and ns 7 * 2) (pf_of p)) (bit_and nr 7 * 2 ^ 5) % 2 ^ 8

unfoldable pub mk_rr : ℕ → Bool → ℕ
mk_rr nr p = bit_or (bit_or 0x01 (pf_of p)) (bit_and nr 7 * 2 ^ 5) % 2 ^ 8

unfoldable pub mk_rej : ℕ → Bool → ℕ
mk_rej nr p = bit_or (bit_or 0x09 (pf_of p)) (bit_and nr 7 * 2 ^ 5) % 2 ^ 8

unfoldable pub supervisory_type : ℕ → FrameType
supervisory_type ss =
    if ss == 0 then rr else if ss == 1 then rnr else if ss == 2 then rej else s_frame

unfoldable pub unnumbered_type : ℕ → FrameType
unnumbered_type u =
    if u == ui_base
    then ui
    else if u == sabm_base
    then sabm
    else if u == disc_base
    then disc
    else if u == ua_base
    then ua
    else if u == dm_base
    then dm
    else if u == frmr_base
    then frmr
    else unknown

-- `type()`, as a function of the control byte; 0xEF is `(uint8_t)~PF_BIT`.
unfoldable pub type_of : ℕ → FrameType
unfolding supervisory_type unnumbered_type
type_of ctrl =
    if bit_and ctrl 0x01 == 0x00
    then i_frame
    else if bit_and ctrl 0x03 == 0x01
    then supervisory_type (bit_and (ctrl / 2 ^ 2) 3)
    else unnumbered_type (bit_and ctrl 0xEF)

unfoldable pub ns_of : ℕ → ℕ
ns_of ctrl = bit_and (ctrl / 2) 7

unfoldable pub nr_of : ℕ → ℕ
nr_of ctrl = bit_and (ctrl / 2 ^ 5) 7

unfoldable pub pf_set : ℕ → Bool
pf_set ctrl = not (bit_and ctrl 0x10 == 0)

abbrev pub type : Frame → FrameType
type f = type_of f.ctrl

abbrev pub get_ns : Frame → ℕ
get_ns f = ns_of f.ctrl

abbrev pub get_nr : Frame → ℕ
get_nr f = nr_of f.ctrl

abbrev pub get_pf : Frame → Bool
get_pf f = pf_set f.ctrl

abbrev pub is_last : ℕ → Bool
is_last b = not (bit_and b 0x01 == 0)

-- The loop over the digipeaters: those read, and the bytes from `pos` on.
unfoldable pub decode_digis : Bool → Bytes → List Addr × Bytes
decode_digis true rest = ([], rest)
decode_digis false (b0 ∷ b1 ∷ b2 ∷ b3 ∷ b4 ∷ b5 ∷ b6 ∷ rest) =
    let (ds, rest') = decode_digis (is_last b6) rest in
    (Addr.decode (b0 ∷ b1 ∷ b2 ∷ b3 ∷ b4 ∷ b5 ∷ b6 ∷ []) ∷ ds, rest')
decode_digis false rest = ([], rest)

abbrev pub carries_pid : FrameType → Bool
carries_pid i_frame = true
carries_pid ui = true
carries_pid _ = false

unfoldable pub decode_info : Frame → Bytes → Option Frame
decode_info f rest = some (record f { has_pid = false; info = rest })

unfoldable pub decode_pid : Frame → Bytes → Option Frame
decode_pid f [] = none
decode_pid f (b ∷ rest) = some (record f { pid = b; has_pid = true; info = rest })

unfoldable pub decode_ctrl : Frame → Bytes → Option Frame
unfolding decode_info decode_pid
decode_ctrl f [] = none
decode_ctrl f (b ∷ rest) =
    let g = record f { ctrl = b } in
    if carries_pid (type_of b) then decode_pid g rest else decode_info g rest

-- `decode(raw, f)`: `none` is the result false. What a failed call leaves in `f` is not modelled.
unfoldable pub decode : Bytes → Frame → Option Frame
unfolding decode_ctrl
decode raw f =
    if ltb (length raw) 14
    then none
    else (let (ds, rest) = decode_digis (is_last (get_or raw 13 0)) (drop 14 raw) in
        decode_ctrl
          (record f {
            dest = Addr.decode (take 7 raw);
            src = Addr.decode (take 7 (drop 7 raw));
            digis = f.digis ++ ds;
          })
          rest)

unfoldable pub encode_digis : List Addr → Bytes
encode_digis [] = []
encode_digis (d ∷ ds) = Addr.encode d (is_empty ds) ++ encode_digis ds

unfoldable pub encode : Frame → Bytes
unfolding encode_digis
encode f =
    Addr.encode f.dest false
    ++ (Addr.encode f.src (is_empty f.digis)
        ++ (encode_digis f.digis ++ (f.ctrl ∷ ((if f.has_pid then f.pid ∷ [] else []) ++ f.info))))
