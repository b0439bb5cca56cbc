-- ===== src/ObjList/Segments.antt =====
-- Doubly linked segments of a store, and what writing one link does to them.
pub mod Joining
use ax25toolkit.Base.{
  ℕ, zero, suc, ◌≡◌, refl, sym, ◌≢◌, ap, ◌∙◌, Bool, true, false, List, [], ◌∷◌, ◌++◌, All, arith,
  ◌==◌, Option, none, some, if◌then◌else◌,
}
use ax25toolkit.ObjList.{Pointer, Links, Store, put, link_next, link_prev}

abbrev pub head_or : List ℕ → Pointer → Pointer
head_or [] after = after
head_or (x ∷ xs) after = some x

abbrev pub last_or : Pointer → List ℕ → Pointer
last_or before [] = before
last_or before (x ∷ xs) = last_or (some x) xs

-- The objects `xs` are linked in both directions, between `before` and `after`.
abbrev pub Segment : Store → Pointer → List ℕ → Pointer → Type 0
Segment cells before [] after = Unit
Segment cells before (x ∷ xs) after =
    ((cells x).prev ≡ before)
    × ((cells x).next ≡ head_or xs after)
    × Segment cells (some x) xs after

abbrev pub NotIn : ℕ → List ℕ → Type 0
NotIn x xs = All (λ y. x ≢ y) xs

abbrev pub Distinct : List ℕ → Type 0
Distinct [] = Unit
Distinct (x ∷ xs) = NotIn x xs × Distinct xs

-- The pointer is to none of the objects.
abbrev pub Away : Pointer → List ℕ → Type 0
Away none xs = Unit
Away (some a) xs = NotIn a xs

put_other : (k x : ℕ) (l : Links) (cells : Store) → k ≢ x → put k l cells x ≡ cells x
put_other k x l cells h = ground arith

pub put_there : (k : ℕ) (l : Links) (cells : Store) → put k l cells k ≡ l
put_there k l cells = ground arith

pub link_next_other :
    (o v : Pointer) (x : ℕ) (xs : List ℕ) (cells : Store)
    → Away o (x ∷ xs)
    → link_next o v cells x ≡ cells x
unfolding link_next
link_next_other none v x xs cells h = refl
link_next_other (some k) v x xs cells h = put_other k x _ cells h.0

link_prev_other :
    (o v : Pointer) (x : ℕ) (xs : List ℕ) (cells : Store)
    → Away o (x ∷ xs)
    → link_prev o v cells x ≡ cells x
unfolding link_prev
link_prev_other none v x xs cells h = refl
link_prev_other (some k) v x xs cells h = put_other k x _ cells h.0

Away-tail : (o : Pointer) (x : ℕ) (xs : List ℕ) → Away o (x ∷ xs) → Away o xs
Away-tail none x xs h = tt
Away-tail (some k) x xs h = h.1

-- Cells that agree on the objects hold the same segment.
segment_frame :
    (cells cells' : Store) (before : Pointer) (xs : List ℕ) (after : Pointer)
    → All (λ x. cells' x ≡ cells x) xs
    → Segment cells before xs after
    → Segment cells' before xs after
segment_frame cells cells' before [] after h s = tt
segment_frame cells cells' before (x ∷ xs) after h s = (
  ap (λ (l : Links). l.prev) h.0 ∙ s.0,
  ap (λ (l : Links). l.next) h.0 ∙ s.1,
  segment_frame cells cells' (some x) xs after h.1 s.2,
)

link_next-All :
    (o v : Pointer) (xs : List ℕ) (cells : Store)
    → Away o xs
    → All (λ x. link_next o v cells x ≡ cells x) xs
link_next-All o v [] cells h = tt
link_next-All o v (x ∷ xs) cells h =
    (link_next_other o v x xs cells h, link_next-All o v xs cells (Away-tail o x xs h))

link_prev-All :
    (o v : Pointer) (xs : List ℕ) (cells : Store)
    → Away o xs
    → All (λ x. link_prev o v cells x ≡ cells x) xs
link_prev-All o v [] cells h = tt
link_prev-All o v (x ∷ xs) cells h =
    (link_prev_other o v x xs cells h, link_prev-All o v xs cells (Away-tail o x xs h))

put-All :
    (k : ℕ) (l : Links) (xs : List ℕ) (cells : Store)
    → NotIn k xs
    → All (λ x. put k l cells x ≡ cells x) xs
put-All k l [] cells h = tt
put-All k l (x ∷ xs) cells h = (put_other k x l cells h.0, put-All k l xs cells h.1)

module _ (cells : Store) (before : Pointer) (xs : List ℕ) (after : Pointer)
    (s : Segment cells before xs after) where
  -- A link of an object elsewhere may be written.
  pub link_next-Segment :
      (o v : Pointer) → Away o xs → Segment (link_next o v cells) before xs after
  link_next-Segment o v h = segment_frame cells _ before xs after (link_next-All o v xs cells h) s

  pub link_prev-Segment :
      (o v : Pointer) → Away o xs → Segment (link_prev o v cells) before xs after
  link_prev-Segment o v h = segment_frame cells _ before xs after (link_prev-All o v xs cells h) s

  pub put-Segment : (k : ℕ) (l : Links) → NotIn k xs → Segment (put k l cells) before xs after
  put-Segment k l h = segment_frame cells _ before xs after (put-All k l xs cells h) s
