-- ===== src/Terminal/Station.antt =====
-- The struct `Addr` of src/ax25kiss.cpp, whose call sign is a `std::string` of any length.
pub mod Same
pub mod Typed
use ax25toolkit.Base.{
  ℕ, zero, suc, ◌+◌, ◌*◌, ◌/◌, Bool, true, false, not, ◌&&◌, [], ◌∷◌, ◌++◌, map, Bytes, ◌==◌,
  if◌then◌else◌, Option, none, some, take, get_or, bit_and, bit_or,
}
use ax25toolkit.Base.Int.{ℤ, pos, negsuc}
use ax25toolkit.Base.Text.{to_upper, stoi, to_string, break_at, c_string, trim_end}
use ax25toolkit.Addr.{low_nibble}

pub record Station : Type 0 where
  pub callsign : Bytes
  pub ssid : ℤ
  pub has_been_repeated : Bool
  pub is_last_addr : Bool

abbrev pub no_station : Station
no_station = record { callsign = []; ssid = pos 0; has_been_repeated = false; is_last_addr = false }

-- `decode`, from the seven bytes at `p`.
unfoldable pub read_station : Bytes → Station
read_station p = record {
  callsign = trim_end (c_string (map (λ b. bit_and (b / 2) 0x7F) (take 6 p)));
  ssid = pos (bit_and (get_or p 6 0 / 2) 0x0F);
  has_been_repeated = not (bit_and (get_or p 6 0) 0x80 == 0);
  is_last_addr = not (bit_and (get_or p 6 0) 0x01 == 0);
}

-- The loop of `encode` over an `out` of shifted spaces.
unfoldable pub sign_field : ℕ → Bytes → Bytes
sign_field zero cs = []
sign_field (suc n) [] = (b' ' * 2) ∷ sign_field n []
sign_field (suc n) (c ∷ cs) = (bit_and c 0x7F * 2) ∷ sign_field n cs

-- `encode`
unfoldable pub write_station : Station → Bool → Bytes
unfolding low_nibble sign_field
write_station a last_addr =
    let sb = bit_or 0x60 (low_nibble a.ssid * 2) in
    let sb' = if a.has_been_repeated then bit_or sb 0x80 else sb in
    sign_field 6 a.callsign ++ (if last_addr then bit_or sb' 0x01 else sb') ∷ []

unfoldable pub ssid_text : ℤ → Bytes
ssid_text (pos zero) = []
ssid_text (pos (suc n)) = b'-' ∷ to_string (suc n)
ssid_text (negsuc n) = []

-- `str`
unfoldable pub station_text : Station → Bytes
unfolding ssid_text
station_text a = (a.callsign ++ ssid_text a.ssid) ++ (if a.has_been_repeated then b'*' ∷ [] else [])

unfoldable pub ssid_from : Option Bytes → ℤ
ssid_from none = pos 0
ssid_from (some s) = elim (stoi s) [ none ↦ pos 0 | some n ↦ n ]

unfoldable pub from_str : Bytes → Station
unfolding ssid_from
from_str text =
    let (cs, behind) = break_at b'-' (map to_upper text) in
    record {
      callsign = cs;
      ssid = ssid_from behind;
      has_been_repeated = false;
      is_last_addr = false;
    }
