-- ===== src/Base/Text/Decimal.antt =====
-- Decimal numbers are read back as they were printed.
use ax25toolkit.Base.{
  ℕ, zero, suc, ◌+◌, ◌/◌, ◌%◌, ◌^◌, true, [], ◌∷◌, Bytes, some, All, ◌≡◌, refl, arith, ◌<◌,
}
use ax25toolkit.Base.Int.{pos}
use ax25toolkit.Base.Text.{read_digits, dec_digits, to_string, stoi, is_digit}

read_digits-dec_digits :
    (fuel n : ℕ) (acc : Bytes)
    → n < fuel
    → read_digits 0 (dec_digits fuel n acc) ≡ read_digits n acc
unfolding read_digits dec_digits
read_digits-dec_digits zero n acc h = absurd (omega arith)
read_digits-dec_digits (suc fuel) n acc h =
    ground (arith, read_digits-dec_digits fuel (n / 10) ((b'0' + n % 10) ∷ acc))

-- A printed number begins with a digit.
pub StartsWithDigit : Bytes → Type 0
StartsWithDigit [] = ⊥
StartsWithDigit (c ∷ cs) = is_digit c ≡ true

dec_digits-StartsWithDigit :
    (fuel n : ℕ) (acc : Bytes) → n < fuel → StartsWithDigit (dec_digits fuel n acc)
unfolding dec_digits StartsWithDigit is_digit
dec_digits-StartsWithDigit zero n acc h = absurd (omega arith)
dec_digits-StartsWithDigit (suc fuel) n acc h =
    ground (arith, dec_digits-StartsWithDigit fuel (n / 10) ((b'0' + n % 10) ∷ acc))

stoi_digits :
    (s : Bytes)
    → StartsWithDigit s
    → read_digits 0 s < 2 ^ 31
    → stoi s ≡ some (pos (read_digits 0 s))
unfolding StartsWithDigit stoi
stoi_digits [] h k = absurd h
stoi_digits (c ∷ cs) h k = ground arith

read_digits_nil : (n : ℕ) → read_digits n [] ≡ n
unfolding read_digits
read_digits_nil n = refl

pub stoi-to_string : (n : ℕ) → n < 2 ^ 31 → stoi (to_string n) ≡ some (pos n)
unfolding to_string
stoi-to_string n h = ground (
  arith,
  stoi_digits (dec_digits (suc n) n []) (dec_digits-StartsWithDigit (suc n) n [] (omega arith)),
  read_digits-dec_digits (suc n) n [] (omega arith),
  read_digits_nil n,
)

abbrev pub IsDigit : ℕ → Type 0
IsDigit c = is_digit c ≡ true

dec_digits-All : (fuel n : ℕ) (acc : Bytes) → All IsDigit acc → All IsDigit (dec_digits fuel n acc)
unfolding dec_digits is_digit
dec_digits-All zero n acc h = h
dec_digits-All (suc fuel) n acc h =
    ground (arith, dec_digits-All fuel (n / 10) ((b'0' + n % 10) ∷ acc))

-- A printed number is made of digits.
pub to_string-All : (n : ℕ) → All IsDigit (to_string n)
unfolding to_string
to_string-All n = dec_digits-All (suc n) n [] tt
