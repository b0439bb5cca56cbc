-- ===== src/Base/Dict.antt =====
-- `std::map`: a list of keys and values in the order of the keys.
pub mod Order
pub mod Texts
use mathlib.Core.Bool.{Bool}
use mathlib.Core.Option.{Option, none, some}
use mathlib.Core.List.{List, [], ◌∷◌}
use ax25toolkit.Base.Tests.{if◌then◌else◌}

module _ {ℓ κ} {K : Type ℓ} {V : Type κ} (lt : K → K → Bool) where
  unfoldable pub lookup : K → List (K × V) → Option V
  lookup k [] = none
  lookup k ((j, v) ∷ m) =
      let rest = lookup k m in if lt j k then rest else if lt k j then none else some v

  unfoldable pub insert : K → V → List (K × V) → List (K × V)
  insert k v [] = (k, v) ∷ []
  insert k v ((j, w) ∷ m) =
      let rest = insert k v m in
      if lt j k then (j, w) ∷ rest else if lt k j then (k, v) ∷ ((j, w) ∷ m) else (k, v) ∷ m

  unfoldable pub erase : K → List (K × V) → List (K × V)
  erase k [] = []
  erase k ((j, w) ∷ m) =
      let rest = erase k m in if lt j k then (j, w) ∷ rest else if lt k j then (j, w) ∷ m else m

  -- From `upper_bound` on.
  unfoldable pub behind : K → List (K × V) → List (K × V)
  behind k [] = []
  behind k ((j, w) ∷ m) = let rest = behind k m in if lt k j then (j, w) ∷ m else rest

  -- From `lower_bound` on.
  unfoldable pub from : K → List (K × V) → List (K × V)
  from k [] = []
  from k ((j, w) ∷ m) = let rest = from k m in if lt j k then rest else (j, w) ∷ m
