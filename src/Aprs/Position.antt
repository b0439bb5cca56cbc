-- ===== src/Aprs/Position.antt =====
-- `make_pos` of lib/ax25lib.cpp. The floating-point numbers are a parameter, and so is what `%05.2f` prints.
use ax25toolkit.Base.{
  ℕ, suc, ◌-◌, Bool, ◌||◌, ◌∷◌, ◌++◌, replicate, Bytes, if◌then◌else◌, length, take,
}
use ax25toolkit.Base.Int.{ℤ, pos, negsuc}
use ax25toolkit.Base.Text.{to_string, c_string}
use ax25toolkit.Basic.{Floats, zero_num}

-- `%0wd`
unfoldable pub padded : ℕ → ℤ → Bytes
unfolding to_string
padded w (pos n) = replicate (w - length (to_string n)) b'0' ++ to_string n
padded w (negsuc n) =
    b'-' ∷ (replicate (w - 1 - length (to_string (suc n))) b'0' ++ to_string (suc n))

abbrev pub not_below : (F : Floats) → F.Num → Bool
not_below F x = F.is_lt (zero_num F) x || F.is_eq x (zero_num F)

module _ (F : Floats) (minutes : F.Num → Bytes) where
  -- Degrees in `w` digits and minutes.
  unfoldable pub angle : ℕ → F.Num → Bytes
  unfolding padded
  angle w x =
      let a = if not_below F x then x else F.neg x in
      let d = F.to_int a in padded w d ++ minutes (F.mul (F.sub a (F.of_int d)) (F.of_int (pos 60)))

  -- The buffer holds 95 characters.
  unfoldable pub make_pos : F.Num → F.Num → ℕ → ℕ → Bytes → Bytes
  unfolding angle c_string
  make_pos lat lon sym table comment = take 95 (
      b'!'
      ∷ (angle 2 lat
          ++ ((if not_below F lat then b'N' else b'S')
              ∷ (table
                  ∷ (angle 3 lon
                      ++ ((if not_below F lon then b'E' else b'W') ∷ (sym ∷ c_string comment)))))))
