-- ===== src/Base/Text.antt =====
-- What the program uses of the C and C++ standard libraries on text, over byte lists: `toupper` and
-- `isspace` in the C locale, `std::stoi`, `std::to_string`, `find` with `substr`, `strcmp`.
pub mod Decimal
pub mod Trim
pub mod Fields
use Prim.Native.Char.{code}
use Prim.Native.String.{String}
use ax25toolkit.Base.{
  ℕ, zero, suc, ◌+◌, ◌-◌, ◌*◌, ◌/◌, ◌%◌, ◌^◌, Bool, true, false, not, ◌&&◌, ◌||◌, List, [], ◌∷◌,
  ◌++◌, Bytes, ltb, leb, ◌==◌, if◌then◌else◌, Option, none, some, is_empty, ◌≡◌, refl, arith, ◌↔◌,
  ◌<◌,
}
use ax25toolkit.Base.Int.{ℤ, pos, negsuc}

-- The code points of a text: its bytes, if it is ASCII.
abbrev pub codes : String → Bytes
codes String.[] = []
codes (String.◌∷◌ c s) = code c ∷ codes s

unfoldable pub to_upper : ℕ → ℕ
to_upper c = if leb b'a' c && leb c b'z' then c - 32 else c

unfoldable pub to_lower : ℕ → ℕ
to_lower c = if leb b'A' c && leb c b'Z' then c + 32 else c

unfoldable pub is_alpha : ℕ → Bool
is_alpha c = (leb b'A' c && leb c b'Z') || (leb b'a' c && leb c b'z')

unfoldable pub is_digit : ℕ → Bool
is_digit c = leb b'0' c && leb c b'9'

unfoldable pub is_alnum : ℕ → Bool
unfolding is_alpha is_digit
is_alnum c = is_alpha c || is_digit c

unfoldable pub is_space : ℕ → Bool
is_space c = c == 32 || (leb 9 c && leb c 13)

unfoldable pub skip_spaces : Bytes → Bytes
skip_spaces [] = []
skip_spaces (c ∷ cs) = if is_space c then skip_spaces cs else c ∷ cs

-- The digits at the head, as a number.
unfoldable pub read_digits : ℕ → Bytes → ℕ
unfolding is_digit
read_digits v [] = v
read_digits v (c ∷ cs) =
    let rest = read_digits (v * 10 + (c - b'0')) cs in if is_digit c then rest else v

-- `std::stoi` throws (`none`) on no digit, and outside the range of a 32-bit `int`.
read_positive : Bytes → Option ℤ
unfolding is_digit
read_positive [] = none
read_positive (c ∷ cs) =
    if is_digit c
    then (let v = read_digits 0 (c ∷ cs) in if ltb v (2 ^ 31) then some (pos v) else none)
    else none

read_negative : Bytes → Option ℤ
unfolding is_digit
read_negative [] = none
read_negative (c ∷ cs) =
    if is_digit c
    then (let v = read_digits 0 (c ∷ cs) in
        if v == 0 then some (pos 0) else if leb v (2 ^ 31) then some (negsuc (v - 1)) else none)
    else none

read_sign : Bytes → Option ℤ
unfolding read_positive read_negative
read_sign [] = none
read_sign (c ∷ cs) =
    if c == b'-'
    then read_negative cs
    else if c == b'+'
    then read_positive cs
    else read_positive (c ∷ cs)

unfoldable pub stoi : Bytes → Option ℤ
unfolding skip_spaces is_space read_sign read_digits
stoi s = read_sign (skip_spaces s)

-- The digits of `n` before `acc`; the fuel is above the number of digits.
unfoldable pub dec_digits : ℕ → ℕ → Bytes → Bytes
dec_digits zero n acc = acc
dec_digits (suc fuel) n acc =
    let rest = dec_digits fuel (n / 10) ((b'0' + n % 10) ∷ acc) in
    if ltb n 10 then (b'0' + n) ∷ acc else rest

-- `std::to_string` and `%d` of a number that is not negative.
unfoldable pub to_string : ℕ → Bytes
unfolding dec_digits
to_string n = dec_digits (suc n) n []

-- What stands before the first `sep`, and what stands behind it if it occurs.
unfoldable pub break_at : ℕ → Bytes → Bytes × Option Bytes
break_at sep [] = ([], none)
break_at sep (c ∷ cs) =
    let (before, behind) = break_at sep cs in
    if c == sep then ([], some cs) else (c ∷ before, behind)

-- The characters up to the first NUL.
unfoldable pub c_string : Bytes → Bytes
c_string [] = []
c_string (c ∷ cs) = let rest = c_string cs in if c == 0 then [] else c ∷ rest

unfoldable pub bytes_eq : Bytes → Bytes → Bool
bytes_eq [] [] = true
bytes_eq [] (y ∷ ys) = false
bytes_eq (x ∷ xs) [] = false
bytes_eq (x ∷ xs) (y ∷ ys) = x == y && bytes_eq xs ys

-- `operator<` of `std::string`.
unfoldable pub bytes_lt : Bytes → Bytes → Bool
bytes_lt xs [] = false
bytes_lt [] (y ∷ ys) = true
bytes_lt (x ∷ xs) (y ∷ ys) =
    let rest = bytes_lt xs ys in if ltb x y then true else if ltb y x then false else rest

pub bytes_eq_iff : (xs ys : Bytes) → (bytes_eq xs ys ≡ true) ↔ (xs ≡ ys)
unfolding bytes_eq
bytes_eq_iff [] [] = ((λ h. refl), (λ h. refl))
bytes_eq_iff [] (y ∷ ys) = ((λ h. cc), (λ h. cc))
bytes_eq_iff (x ∷ xs) [] = ((λ h. cc), (λ h. cc))
bytes_eq_iff (x ∷ xs) (y ∷ ys) =
    let e = bytes_eq_iff xs ys in ((λ h. ground (arith, e)), (λ h. ground (arith, e)))

-- Without the trailing spaces.
unfoldable pub trim_end : Bytes → Bytes
trim_end [] = []
trim_end (c ∷ cs) = let rest = trim_end cs in if c == b' ' && is_empty rest then [] else c ∷ rest
