-- ===== src/Terminal/Station/Same.antt =====
-- The addresses of the terminal against those of the library.
use ax25toolkit.Base.{
  ℕ, zero, suc, ◌*◌, ◌/◌, ◌≡◌, refl, ◌≢◌, ap, Bool, [], ◌∷◌, map, arith, Bytes, take, bit_and, All,
  take-All, Option, none, some,
}
use ax25toolkit.Base.Text.{to_upper, break_at, c_string, trim_end}
use ax25toolkit.Addr
use ax25toolkit.Addr.{Addr, call_field, ssid_byte, read_ssid}
use ax25toolkit.Terminal.Station.{
  Station, read_station, sign_field, write_station, ssid_from, from_str,
}

-- A station as an address of the library; the end bit is not kept there.
abbrev pub as_addr : Station → Addr
as_addr a = record { call = a.callsign; ssid = a.ssid; repeated = a.has_been_repeated }

sign_field_lem : (n : ℕ) (cs : Bytes) → sign_field n cs ≡ call_field n cs
unfolding sign_field call_field
sign_field_lem zero cs = refl
sign_field_lem (suc n) [] = ap (◌∷◌ (b' ' * 2)) (sign_field_lem n [])
sign_field_lem (suc n) (c ∷ cs) = ap (◌∷◌ (bit_and c 0x7F * 2)) (sign_field_lem n cs)

pub write_station_lem :
    (a : Station) (last : Bool) → write_station a last ≡ Addr.encode (as_addr a) last
unfolding write_station Addr.encode ssid_byte
write_station_lem a last = rw (sign_field_lem 6 a.callsign) refl

abbrev IsChar : ℕ → Type 0
IsChar c = c ≢ 0

c_string_plain : (cs : Bytes) → All IsChar cs → c_string cs ≡ cs
unfolding c_string
c_string_plain [] h = refl
c_string_plain (c ∷ cs) h = ground (arith, c_string_plain cs h.1)

trim_end-All : (cs : Bytes) → All IsChar cs → All IsChar (trim_end cs)
unfolding trim_end
trim_end-All [] h = tt
trim_end-All (c ∷ cs) h = ground (arith, trim_end-All cs h.1)

-- No character of the call sign is a NUL.
abbrev pub IsNamed : Bytes → Type 0
IsNamed p = All (λ c. c ≢ 0) (map (λ b. bit_and (b / 2) 0x7F) (take 6 p))

pub read_station_lem : (p : Bytes) → IsNamed p → as_addr (read_station p) ≡ Addr.decode p
unfolding read_station Addr.decode
read_station_lem p h =
    let cs = map (λ b. bit_and (b / 2) 0x7F) (take 6 p) in
    rw (c_string_plain cs h, c_string_plain (trim_end cs) (trim_end-All cs h)) refl

call_field-take : (n : ℕ) (cs : Bytes) → call_field n (take n cs) ≡ call_field n cs
unfolding call_field
call_field-take zero cs = refl
call_field-take (suc n) [] = refl
call_field-take (suc n) (c ∷ cs) = ap (◌∷◌ (bit_and c 0x7F * 2)) (call_field-take n cs)

break_at-All : (sep : ℕ) (cs : Bytes) → All IsChar cs → All IsChar (break_at sep cs).0
unfolding break_at
break_at-All sep [] h = tt
break_at-All sep (c ∷ cs) h = ground (arith, break_at-All sep cs h.1)

map-to_upper-All : (cs : Bytes) → All IsChar cs → All IsChar (map to_upper cs)
unfolding to_upper
map-to_upper-All [] h = tt
map-to_upper-All (c ∷ cs) h = ground (arith, map-to_upper-All cs h.1)

ssid_from_lem : (o : Option Bytes) → ssid_from o ≡ read_ssid o
unfolding ssid_from read_ssid
ssid_from_lem none = refl
ssid_from_lem (some s) = refl

-- The same text, typed into the terminal or given to the library, makes an address of the same seven bytes,
-- a call sign of more than six characters included; the text holds no NUL.
pub write_station-from_str :
    (s : Bytes) (last : Bool)
    → All (λ c. c ≢ 0) s
    → write_station (from_str s) last ≡ Addr.encode (Addr.make s) last
unfolding from_str Addr.make Addr.encode ssid_byte
write_station-from_str s last h =
    let t = break_at b'-' (map to_upper s) in
    let plain = take-All IsChar 6 t.0 (break_at-All b'-' (map to_upper s) (map-to_upper-All s h)) in
    rw
      (
        write_station_lem (from_str s) last,
        c_string_plain (take 6 t.0) plain,
        call_field-take 6 t.0,
        ssid_from_lem t.1,
      )
      refl
