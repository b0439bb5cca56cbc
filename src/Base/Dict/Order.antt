-- ===== src/Base/Dict/Order.antt =====
-- A map under a strict order of its keys: what is looked up behind an insertion.
use ax25toolkit.Base.Tests.{Bool-cases}
use mathlib.Core.Path.{◌≡◌}
use mathlib.Core.Logic.{◌≢◌, inl, inr}
use mathlib.Core.Bool.{Bool, true, false}
use mathlib.Core.Option.{some}
use mathlib.Core.List.{List, [], ◌∷◌}
use native.Mathlib.Omega.{arith}
use ax25toolkit.Base.Dict.{lookup, insert}

-- What `std::map` asks of the order of its keys.
pub record IsOrder {ℓ} {K : Type ℓ} (lt : K → K → Bool) : Type ℓ where
  pub irrefl : (x : K) → lt x x ≡ false
  pub trans : (x y z : K) → lt x y ≡ true → lt y z ≡ true → lt x z ≡ true
  pub total : (x y : K) → lt x y ≡ false → lt y x ≡ false → x ≡ y

module _ {K : Type 0} (lt : K → K → Bool) (o : IsOrder lt) where
  asym : (x y : K) → lt x y ≡ true → lt y x ≡ false
  asym x y h = elim (Bool-cases (lt y x)) [
    | inl e ↦ absurd (ground (arith, o.irrefl x, o.trans x y x h e))
    | inr e ↦ e
  ]

module _ {K : Type 0} {V : Type 0} (lt : K → K → Bool) (o : IsOrder lt) where
  pub lookup-insert_same :
      (k : K) (v : V) (m : List (K × V)) → lookup lt k (insert lt k v m) ≡ some v
  unfolding lookup insert
  lookup-insert_same k v [] = ground (arith, o.irrefl k)
  lookup-insert_same k v ((j, w) ∷ m) = ground (arith, o.irrefl k, lookup-insert_same k v m)

  pub lookup-insert_other :
      (i k : K) (v : V) (m : List (K × V)) → i ≢ k → lookup lt i (insert lt k v m) ≡ lookup lt i m
  unfolding lookup insert
  lookup-insert_other i k v [] h = ground (arith, o.total i k)
  lookup-insert_other i k v ((j, w) ∷ m) h = ground (
    arith,
    o.total i k,
    o.total j k,
    o.trans i k j,
    asym lt o j i,
    asym lt o k i,
    asym lt o k j,
    lookup-insert_other i k v m h,
  )
