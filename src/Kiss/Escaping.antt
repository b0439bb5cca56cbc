-- ===== src/Kiss/Escaping.antt =====
-- What `encode` puts between its two FENDs, and how a decoder reads it back.
use ax25toolkit.Base.{
  ℕ, ◌*◌, ◌/◌, ◌^◌, ◌%◌, ◌≤◌, ◌<◌, ◌≡◌, refl, ◌≢◌, true, false, ◌&&◌, [], ◌∷◌, ◌++◌, append-nil,
  append_assoc, arith, All, Bytes, length, ◌==◌, bit_and,
}
use ax25toolkit.Base.Bits.{holds_below, holds_below-lt, bit_and_fifteen}
use ax25toolkit.Kiss.{fend, escape, type_byte, Decoder, feed}

abbrev pub IsOpen : Decoder → Type 0
IsOpen d = (d.in_frame ≡ true) × (d.escaped ≡ false)

-- An escaped payload holds no FEND, whatever the payload holds.
pub escape-All-ne : (bs : Bytes) → All (λ b. b ≢ fend) (escape bs)
unfolding escape
escape-All-ne [] = tt
escape-All-ne (b ∷ bs) = ground (arith, escape-All-ne bs)

-- Escaping at most doubles the payload.
pub length-escape-le : (bs : Bytes) → length (escape bs) ≤ 2 * length bs
unfolding escape
length-escape-le [] = omega arith
length-escape-le (b ∷ bs) = ground (arith, length-escape-le bs)

-- The decoder collects what was escaped, and waits for more.
pub feed-escape :
    (d : Decoder) (bs rest : Bytes)
    → IsOpen d
    → feed d (escape bs ++ rest) ≡ feed (record d { buf = d.buf ++ bs }) rest
unfolding escape feed
feed-escape d [] rest h = rw append-nil
feed-escape d (b ∷ bs) rest h = ground (
  arith,
  append_assoc d.buf (b ∷ []) bs,
  feed-escape (record d { buf = d.buf ++ b ∷ [] }) bs rest,
)

type_byte_table :
    holds_below 16 (λ c.
      holds_below 16
        (λ p. (bit_and (type_byte c p) 0x0F == c) && (bit_and (type_byte c p / 2 ^ 4) 0x0F == p)))
    ≡ true
unfolding holds_below type_byte
type_byte_table = refl

type_byte-masked : (c p : ℕ) → type_byte c p ≡ type_byte (c % 16) (p % 16)
unfolding type_byte
type_byte-masked c p = ground (
  arith,
  bit_and_fifteen c,
  bit_and_fifteen p,
  bit_and_fifteen (c % 16),
  bit_and_fifteen (p % 16),
)

type_byte_fields_below :
    (c p : ℕ)
    → c < 16
    → p < 16
    → (bit_and (type_byte c p) 0x0F ≡ c) × (bit_and (type_byte c p / 2 ^ 4) 0x0F ≡ p)
type_byte_fields_below c p hc hp =
    ground (arith, holds_below-lt 16 _ p (holds_below-lt 16 _ c type_byte_table hc) hp)

-- The low nibbles of command and port come back from the type byte.
pub type_byte_fields :
    (c p : ℕ)
    → (bit_and (type_byte c p) 0x0F ≡ c % 16) × (bit_and (type_byte c p / 2 ^ 4) 0x0F ≡ p % 16)
type_byte_fields c p =
    rw (type_byte-masked c p) (type_byte_fields_below (c % 16) (p % 16) (omega arith) (omega arith))
