-- ===== src/Addr.antt =====
-- The struct `Addr` of lib/ax25lib.hpp, with `make`, `decode`, `encode`, `str` and `operator==` of
-- lib/ax25lib.cpp. `call` is the C string in `char call[7]`, that is, the bytes before its NUL; no
-- operation looks behind it. `ssid` is an `int` of any sign.
pub mod Wire
pub mod Compare
pub mod Text
use ax25toolkit.Base.{
  ℕ, zero, suc, ◌-◌, ◌+◌, ◌*◌, ◌/◌, ◌%◌, ◌^◌, Bool, true, false, not, ◌&&◌, List, [], ◌∷◌, ◌++◌,
  map, Bytes, ◌==◌, if◌then◌else◌, Option, none, some, take, get_or, is_empty, bit_and, bit_or,
}
use ax25toolkit.Base.Int.{ℤ, pos, negsuc}
use ax25toolkit.Base.Text.{to_upper, stoi, to_string, break_at, c_string, bytes_eq, trim_end}

pub record Addr : Type 0 where
  pub call : Bytes
  pub ssid : ℤ
  pub repeated : Bool

-- `Addr a;`
abbrev pub no_addr : Addr
no_addr = record { call = []; ssid = pos 0; repeated = false }

-- The SSID behind the dash; `stoi` throwing leaves it 0.
unfoldable pub read_ssid : Option Bytes → ℤ
read_ssid none = pos 0
read_ssid (some s) = elim (stoi s) [ none ↦ pos 0 | some n ↦ n ]

unfoldable pub make : Bytes → Addr
unfolding read_ssid
make callssid =
    let s = map to_upper callssid in
    let (cs, behind) = break_at b'-' s in
    record { call = c_string (take 6 cs); ssid = read_ssid behind; repeated = false }

-- From the seven bytes at `p`.
unfoldable pub decode : Bytes → Addr
decode p = record {
  call = c_string (trim_end (map (λ b. bit_and (b / 2) 0x7F) (take 6 p)));
  ssid = pos (bit_and (get_or p 6 0 / 2) 0x0F);
  repeated = not (bit_and (get_or p 6 0) 0x80 == 0);
}

-- The first `n` characters shifted left by one, in a field of `n` shifted spaces.
unfoldable pub call_field : ℕ → Bytes → Bytes
call_field zero cs = []
call_field (suc n) [] = (b' ' * 2) ∷ call_field n []
call_field (suc n) (c ∷ cs) = (bit_and c 0x7F * 2) ∷ call_field n cs

-- `ssid & 0x0F` on a two's complement `int`.
unfoldable pub low_nibble : ℤ → ℕ
low_nibble (pos n) = bit_and n 0x0F
low_nibble (negsuc n) = 15 - bit_and n 0x0F

unfoldable pub ssid_byte : Addr → Bool → ℕ
unfolding low_nibble
ssid_byte a last_addr =
    let sb = bit_or 0x60 (low_nibble a.ssid * 2) in
    let sb' = if a.repeated then bit_or sb 0x80 else sb in
    if last_addr then bit_or sb' 0x01 else sb'

unfoldable pub encode : Addr → Bool → Bytes
encode a last_addr = call_field 6 a.call ++ ssid_byte a last_addr ∷ []

unfoldable pub ssid_suffix : ℤ → Bytes
ssid_suffix (pos zero) = []
ssid_suffix (pos (suc n)) = b'-' ∷ to_string (suc n)
ssid_suffix (negsuc n) = []

unfoldable pub str : Addr → Bytes
unfolding ssid_suffix
str a = (a.call ++ ssid_suffix a.ssid) ++ (if a.repeated then b'*' ∷ [] else [])

unfoldable pub ssid_eq : ℤ → ℤ → Bool
ssid_eq (pos m) (pos n) = m == n
ssid_eq (pos m) (negsuc n) = false
ssid_eq (negsuc m) (pos n) = false
ssid_eq (negsuc m) (negsuc n) = m == n

-- `operator==`: the H bit is not compared.
unfoldable pub addr_eq : Addr → Addr → Bool
unfolding bytes_eq ssid_eq
addr_eq a b = bytes_eq a.call b.call && ssid_eq a.ssid b.ssid

-- `empty()`
unfoldable pub empty : Addr → Bool
empty a = is_empty a.call
