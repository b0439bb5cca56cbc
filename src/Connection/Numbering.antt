-- ===== src/Connection/Numbering.antt =====
-- Sequence numbers modulo 8: the frames in flight are numbered without gap from V(A) up to V(S).
use ax25toolkit.Base.{
  ℕ, suc, ◌+◌, ◌-◌, ◌%◌, ◌<◌, ◌≤◌, ◌≡◌, refl, ap, sym, ◌≢◌, arith, List, [], ◌∷◌, ◌++◌, length,
  bit_and, drop, drop_nil, Bytes,
}
use native.Mathlib.Decide.{ℕ_discrete}
use ax25toolkit.Base.Bits.{bit_and_seven}
use ax25toolkit.Connection.{UnackedFrame}
use ax25toolkit.Connection.Window.{pop_acked}

-- The number after `n`.
abbrev pub next : ℕ → ℕ
next n = bit_and (n + 1) 7

abbrev pub Numbered : ℕ → List UnackedFrame → ℕ → Type 0
Numbered va [] vs = vs ≡ va
Numbered va (u ∷ us) vs = (u.ns ≡ va) × Numbered (next va) us vs

-- How many numbers lie between V(A) and an N(R), counted upwards.
abbrev pub distance : ℕ → ℕ → ℕ
distance va nr = (nr + 8 - va) % 8

pub next-lt : (n : ℕ) → next n < 8
next-lt n = omega (arith, bit_and_seven (n + 1))

pub Numbered-snoc :
    (va vs : ℕ) (us : List UnackedFrame) (payload : Bytes)
    → Numbered va us vs
    → Numbered va (us ++ record { ns = vs; payload = payload } ∷ []) (next vs)
Numbered-snoc va vs [] payload h = (h, ap next h)
Numbered-snoc va vs (u ∷ us) payload h = (h.0, Numbered-snoc (next va) vs us payload h.1)

distance_step :
    (va nr : ℕ) → va < 8 → nr < 8 → va ≢ nr → distance va nr ≡ suc (distance (next va) nr)
distance_step va nr h h' ne = omega (arith, bit_and_seven (va + 1))

-- The pops of an N(R) within the window are exactly the frames below it.
pub pop_acked-drop :
    (nr va vs : ℕ) (us : List UnackedFrame)
    → va < 8
    → nr < 8
    → Numbered va us vs
    → distance va nr ≤ length us
    → (pop_acked nr us ≡ drop (distance va nr) us) × Numbered nr (pop_acked nr us) vs
unfolding pop_acked
pop_acked-drop nr va vs [] a b h k = (sym (drop_nil (distance va nr)), omega arith)
pop_acked-drop nr va vs (u ∷ us) a b h k = elim (ℕ_discrete va nr) [
  | yes e ↦ let zero_away : distance va nr ≡ 0 = omega arith in rw zero_away (ground arith)
  | no ne ↦ rw (distance_step va nr a b ne) (
      ground
        (arith, distance_step va nr a b ne, pop_acked-drop nr (next va) vs us (next-lt va) b h.1))
]

-- An N(R) outside the window pops all.
pub pop_acked_outside :
    (nr va vs : ℕ) (us : List UnackedFrame)
    → va < 8
    → nr < 8
    → Numbered va us vs
    → length us < distance va nr
    → pop_acked nr us ≡ []
unfolding pop_acked
pop_acked_outside nr va vs [] a b h k = refl
pop_acked_outside nr va vs (u ∷ us) a b h k =
    let ne : va ≢ nr = omega arith in
    ground
      (arith, distance_step va nr a b ne, pop_acked_outside nr (next va) vs us (next-lt va) b h.1)
