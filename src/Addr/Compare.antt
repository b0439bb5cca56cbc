-- ===== src/Addr/Compare.antt =====
-- `operator==`, and the SSIDs that `make` lets through and the wire format cannot hold.
use ax25toolkit.Base.{ℕ, ◌/◌, ◌<◌, Bool, true, false, ◌↔◌, bit_and, ◌≡◌, refl, arith, get_or}
use ax25toolkit.Base.Int.{ℤ, pos, negsuc}
use ax25toolkit.Base.Text.{bytes_eq_iff}
use ax25toolkit.Base.Bits.{bit_and_fifteen}
use ax25toolkit.Addr.{Addr, decode, encode, addr_eq, ssid_eq}
use ax25toolkit.Addr.Wire.{SsidFits}

ssid_eq_iff : (m n : ℤ) → (ssid_eq m n ≡ true) ↔ (m ≡ n)
unfolding ssid_eq
ssid_eq_iff (pos m) (pos n) = ((λ h. ground arith), (λ h. ground arith))
ssid_eq_iff (pos m) (negsuc n) = ((λ h. cc), (λ h. cc))
ssid_eq_iff (negsuc m) (pos n) = ((λ h. cc), (λ h. cc))
ssid_eq_iff (negsuc m) (negsuc n) = ((λ h. ground arith), (λ h. ground arith))

-- Two addresses compare equal exactly when call sign and SSID agree; the H bit does not count.
pub addr_eq_iff : (a b : Addr) → (addr_eq a b ≡ true) ↔ ((a.call ≡ b.call) × (a.ssid ≡ b.ssid))
unfolding addr_eq
addr_eq_iff a b = (
  (λ h. ground (arith, bytes_eq_iff a.call b.call, ssid_eq_iff a.ssid b.ssid)),
  (λ h. ground (arith, bytes_eq_iff a.call b.call, ssid_eq_iff a.ssid b.ssid)),
)

ssid_eq_wide : (m : ℕ) (k : ℤ) → m < 16 → ¬ SsidFits k → ssid_eq (pos m) k ≡ false
unfolding ssid_eq
ssid_eq_wide m (pos n) h wide = ground arith
ssid_eq_wide m (negsuc n) h wide = refl

-- An address whose SSID is not from 0 to 15 never equals what its own encoding decodes to.
pub addr_eq-decode-encode_wide :
    (a : Addr) (last : Bool) → ¬ SsidFits a.ssid → addr_eq (decode (encode a last)) a ≡ false
unfolding addr_eq decode
addr_eq-decode-encode_wide a last wide = ground (
  arith,
  bit_and_fifteen (get_or (encode a last) 6 0 / 2),
  ssid_eq_wide (bit_and (get_or (encode a last) 6 0 / 2) 0x0F) a.ssid,
)
