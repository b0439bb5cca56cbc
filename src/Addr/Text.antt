-- ===== src/Addr/Text.antt =====
-- An address as text: `str`, read back by `make`.
use ax25toolkit.Base.{
  ℕ, zero, suc, ◌<◌, ◌⊎◌, true, false, [], ◌∷◌, ◌++◌, map, Bytes, All, none, some, ◌≡◌, refl, ap,
  ◌≢◌, arith, take_all, append-nil,
}
use ax25toolkit.Base.Int.{ℤ, pos, negsuc}
use ax25toolkit.Base.Bits.{holds_below, holds_below-lt}
use ax25toolkit.Base.Text.{to_upper, to_string, break_at, bytes_eq, bytes_eq_iff}
use ax25toolkit.Base.Text.Decimal.{stoi-to_string}
use ax25toolkit.Addr.{Addr, make, str, read_ssid, ssid_suffix}
use ax25toolkit.Addr.Wire.{IsAddr, SsidFits, c_string_ascii}

-- Neither a dash nor a lower-case letter.
abbrev pub IsCallChar : ℕ → Type 0
IsCallChar c = (c ≢ b'-') × ((c < b'a') ⊎ (b'z' < c))

map-to_upper : (cs : Bytes) → All IsCallChar cs → map to_upper cs ≡ cs
unfolding to_upper
map-to_upper [] h = refl
map-to_upper (c ∷ cs) h = ground (arith, map-to_upper cs h.1)

break_at-none : (cs : Bytes) → All IsCallChar cs → break_at b'-' cs ≡ (cs, none)
unfolding break_at
break_at-none [] h = refl
break_at-none (c ∷ cs) h = ground (arith, break_at-none cs h.1)

break_at_dash :
    (cs rest : Bytes) → All IsCallChar cs → break_at b'-' (cs ++ b'-' ∷ rest) ≡ (cs, some rest)
unfolding break_at
break_at_dash [] rest h = refl
break_at_dash (c ∷ cs) rest h = ground (arith, break_at_dash cs rest h.1)

number_table : holds_below 16 (λ n. bytes_eq (map to_upper (to_string n)) (to_string n)) ≡ true
unfolding holds_below bytes_eq to_upper to_string
number_table = refl

number_upper : (n : ℕ) → n < 16 → map to_upper (to_string n) ≡ to_string n
number_upper n h = (bytes_eq_iff _ _).0 (holds_below-lt 16 _ n number_table h)

map-to_upper-append : (xs ys : Bytes) → map to_upper (xs ++ ys) ≡ map to_upper xs ++ map to_upper ys
map-to_upper-append [] ys = refl
map-to_upper-append (x ∷ xs) ys = ap (◌∷◌ (to_upper x)) (map-to_upper-append xs ys)

pub suffix_cases :
    (call : Bytes) (k : ℤ)
    → All IsCallChar call
    → SsidFits k
    → let (cs, behind) = break_at b'-' (map to_upper (call ++ ssid_suffix k)) in
      (cs ≡ call) × (read_ssid behind ≡ k)
unfolding ssid_suffix read_ssid to_upper
suffix_cases call (pos zero) h f =
    rw (append-nil call, map-to_upper call h, break_at-none call h) (refl, refl)
suffix_cases call (pos (suc n)) h f =
    rw
      (
        map-to_upper-append call (b'-' ∷ to_string (suc n)),
        map-to_upper call h,
        number_upper (suc n) f,
        break_at_dash call (to_string (suc n)) h,
      )
      (refl, rw (stoi-to_string (suc n) (omega arith), read_ssid) refl)
suffix_cases call (negsuc n) h f = absurd f

-- A call sign of capitals, digits and the like with an SSID from 0 to 15 is read back from its text.
pub make-str : (a : Addr) → IsAddr a → All IsCallChar a.call → a.repeated ≡ false → make (str a) ≡ a
unfolding make str
make-str a v h r =
    rw (r, append-nil (a.call ++ ssid_suffix a.ssid))
      (ground (
        arith,
        suffix_cases a.call a.ssid h v.ssid_fits,
        take_all 6 a.call v.fits,
        c_string_ascii a.call v.ascii,
      ))
