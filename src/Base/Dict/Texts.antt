-- ===== src/Base/Dict/Texts.antt =====
-- The order of `std::string`.
use ax25toolkit.Base.Lists.{Bytes}
use mathlib.Core.Path.{◌≡◌, refl}
use mathlib.Core.Bool.{true, false}
use mathlib.Core.List.{[], ◌∷◌}
use native.Mathlib.Omega.{arith}
use ax25toolkit.Base.Text.{bytes_lt}
use ax25toolkit.Base.Dict.Order.{IsOrder}

bytes_lt_irrefl : (xs : Bytes) → bytes_lt xs xs ≡ false
unfolding bytes_lt
bytes_lt_irrefl [] = refl
bytes_lt_irrefl (x ∷ xs) = ground (arith, bytes_lt_irrefl xs)

bytes_lt_trans :
    (xs ys zs : Bytes) → bytes_lt xs ys ≡ true → bytes_lt ys zs ≡ true → bytes_lt xs zs ≡ true
unfolding bytes_lt
bytes_lt_trans xs [] zs h k = absurd (ground (arith, h))
bytes_lt_trans xs (y ∷ ys) [] h k = absurd (ground (arith, k))
bytes_lt_trans [] (y ∷ ys) (z ∷ zs) h k = refl
bytes_lt_trans (x ∷ xs) (y ∷ ys) (z ∷ zs) h k = ground (arith, bytes_lt_trans xs ys zs)

bytes_lt_total : (xs ys : Bytes) → bytes_lt xs ys ≡ false → bytes_lt ys xs ≡ false → xs ≡ ys
unfolding bytes_lt
bytes_lt_total [] [] h k = refl
bytes_lt_total [] (y ∷ ys) h k = absurd (ground arith)
bytes_lt_total (x ∷ xs) [] h k = absurd (ground arith)
bytes_lt_total (x ∷ xs) (y ∷ ys) h k = ground (arith, bytes_lt_total xs ys)

pub bytes_lt-IsOrder : IsOrder bytes_lt
bytes_lt-IsOrder = record {
  irrefl = bytes_lt_irrefl;
  trans = bytes_lt_trans;
  total = bytes_lt_total;
}
