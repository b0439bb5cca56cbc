-- ===== src/Terminal/Station/Typed.antt =====
-- Stations as they are typed into the terminal: `from_str`, and `str` read back by it.
use ax25toolkit.Base.{
  ℕ, zero, suc, ◌≡◌, refl, ◌≢◌, false, [], ◌∷◌, ◌++◌, map, arith, Bytes, All, All-append,
  All-weaken, append-nil,
}
use ax25toolkit.Base.Int.{ℤ, pos, negsuc}
use ax25toolkit.Base.Text.{to_upper, break_at, to_string}
use ax25toolkit.Base.Text.Decimal.{IsDigit, to_string-All}
use ax25toolkit.Addr.{ssid_suffix, read_ssid}
use ax25toolkit.Addr.Wire.{SsidFits}
use ax25toolkit.Addr.Text.{IsCallChar, suffix_cases}
use ax25toolkit.Terminal.Station.{Station, from_str, station_text, ssid_text, ssid_from}

-- The call sign has neither a dash nor a lower-case letter, and neither flag of the wire is set.
pub record IsTyped (a : Station) : Type 0 where
  pub call_chars : All IsCallChar a.callsign
  pub not_repeated : a.has_been_repeated ≡ false
  pub not_last : a.is_last_addr ≡ false

to_upper_char : (c : ℕ) → to_upper c ≢ b'-' → IsCallChar (to_upper c)
unfolding to_upper
to_upper_char c h = ground arith

break_at-map-to_upper : (cs : Bytes) → All IsCallChar (break_at b'-' (map to_upper cs)).0
unfolding break_at
break_at-map-to_upper [] = tt
break_at-map-to_upper (c ∷ cs) = ground (arith, to_upper_char c, break_at-map-to_upper cs)

-- Any text gives such a station.
pub from_str-IsTyped : (text : Bytes) → IsTyped (from_str text)
unfolding from_str
from_str-IsTyped text = record {
  call_chars = break_at-map-to_upper text;
  not_repeated = refl;
  not_last = refl;
}

ssid_text_lem : (k : ℤ) → ssid_text k ≡ ssid_suffix k
unfolding ssid_text ssid_suffix
ssid_text_lem (pos zero) = refl
ssid_text_lem (pos (suc n)) = refl
ssid_text_lem (negsuc n) = refl

-- A typed station with an SSID from 0 to 15 is read back from its text.
pub from_str-station_text :
    (a : Station) → IsTyped a → SsidFits a.ssid → from_str (station_text a) ≡ a
unfolding from_str station_text ssid_from read_ssid
from_str-station_text a h f =
    rw (h.not_repeated, ssid_text_lem a.ssid, append-nil (a.callsign ++ ssid_suffix a.ssid))
      (ground (arith, suffix_cases a.callsign a.ssid h.call_chars f, h.not_last))

ssid_text-All :
    (P : ℕ → Type 0) (k : ℤ) → P b'-' → ((c : ℕ) → IsDigit c → P c) → All P (ssid_text k)
unfolding ssid_text to_string
ssid_text-All P (pos zero) dash digit = tt
ssid_text-All P (pos (suc n)) dash digit =
    (dash, All-weaken IsDigit P _ digit (to_string-All (suc n)))
ssid_text-All P (negsuc n) dash digit = tt

-- What holds of the characters of the call sign, the dash and the digits holds of the text.
pub station_text-All :
    (P : ℕ → Type 0) (a : Station)
    → IsTyped a
    → All P a.callsign
    → P b'-'
    → ((c : ℕ) → IsDigit c → P c)
    → All P (station_text a)
unfolding station_text
station_text-All P a h k dash digit =
    rw (h.not_repeated, append-nil (a.callsign ++ ssid_text a.ssid))
      (All-append P a.callsign (ssid_text a.ssid) k (ssid_text-All P a.ssid dash digit))
