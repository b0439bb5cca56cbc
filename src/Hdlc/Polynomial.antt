-- ===== src/Hdlc/Polynomial.antt =====
-- The table of kiss_modem/hdlc.cpp and the polynomial that its comment names, CRC-16-CCITT: bits come
-- least significant first, so x ^ 16 + x ^ 12 + x ^ 5 + 1 is 0x8408.
use ax25toolkit.Base.{
  ℕ, zero, suc, ◌/◌, ◌<◌, ◌≡◌, refl, true, ◌==◌, ==_iff, get_or, if◌then◌else◌, bit_and, bit_xor,
}
use ax25toolkit.Base.Bits.{holds_below, holds_below-lt}
use ax25toolkit.Hdlc.Table.{ccitt_table}

-- One step of the long division.
abbrev divide_bit : ℕ → ℕ
divide_bit r = if bit_and r 1 == 1 then bit_xor (r / 2) 0x8408 else r / 2

abbrev pub divide_bits : ℕ → ℕ → ℕ
divide_bits zero r = r
divide_bits (suc n) r = divide_bits n (divide_bit r)

all_entries : holds_below 256 (λ i. get_or ccitt_table i 0 == divide_bits 8 i) ≡ true
unfolding holds_below ccitt_table
all_entries = refl

-- Each of the 256 entries of the table is the remainder of its index after eight steps of the bitwise
-- division by the polynomial.
pub ccitt_table_lem : (i : ℕ) → i < 256 → get_or ccitt_table i 0 ≡ divide_bits 8 i
ccitt_table_lem i h = (==_iff _ (divide_bits 8 i)).0 (holds_below-lt 256 _ i all_entries h)
