-- ===== src/ObjList/Segments/Joining.antt =====
-- Segments put together and taken apart, and their ends linked elsewhere.
use ax25toolkit.Base.{ℕ, ◌≡◌, refl, sym, ap, ◌∙◌, List, [], ◌∷◌, ◌++◌, arith, none, some}
use ax25toolkit.ObjList.{Pointer, Links, Store, link_next, link_prev}
use ax25toolkit.ObjList.Segments.{
  head_or, last_or, Segment, NotIn, Distinct, put_there, link_next_other, link_prev-Segment,
}

head_or-append : (xs ys : List ℕ) (o : Pointer) → head_or (xs ++ ys) o ≡ head_or xs (head_or ys o)
head_or-append [] ys o = refl
head_or-append (x ∷ xs) ys o = refl

pub last_or-append :
    (o : Pointer) (xs ys : List ℕ) → last_or o (xs ++ ys) ≡ last_or (last_or o xs) ys
last_or-append o [] ys = refl
last_or-append o (x ∷ xs) ys = last_or-append (some x) xs ys

module _ (cells : Store) where
  pub segment_join :
      (before : Pointer) (xs ys : List ℕ) (after : Pointer)
      → Segment cells before xs (head_or ys after)
      → Segment cells (last_or before xs) ys after
      → Segment cells before (xs ++ ys) after
  segment_join before [] ys after s t = t
  segment_join before (x ∷ xs) ys after s t =
      (s.0, s.1 ∙ sym (head_or-append xs ys after), segment_join (some x) xs ys after s.2 t)

  pub segment_split :
      (before : Pointer) (xs ys : List ℕ) (after : Pointer)
      → Segment cells before (xs ++ ys) after
      → Segment cells before xs (head_or ys after) × Segment cells (last_or before xs) ys after
  segment_split before [] ys after s = (tt, s)
  segment_split before (x ∷ xs) ys after s =
      let (l, r) = segment_split (some x) xs ys after s.2 in
      ((s.0, s.1 ∙ head_or-append xs ys after, l), r)

  -- The last of some objects is not an object apart from them.
  last-Away :
      (x z : ℕ) (zs : List ℕ) (v : Pointer)
      → NotIn x (z ∷ zs)
      → link_next (last_or (some z) zs) v cells x ≡ cells x
  last-Away x z [] v h = link_next_other (some z) v x [] cells ((λ e. h.0 (sym e)), tt)
  last-Away x z (w ∷ ws) v h = last-Away x w ws v h.1

  link_next_prev : (o v : Pointer) (x : ℕ) → (link_next o v cells x).prev ≡ (cells x).prev
  unfolding link_next
  link_next_prev none v x = refl
  link_next_prev (some k) v x = ground arith

  link_prev_next : (o v : Pointer) (x : ℕ) → (link_prev o v cells x).next ≡ (cells x).next
  unfolding link_prev
  link_prev_next none v x = refl
  link_prev_next (some k) v x = ground arith

  link_next_there : (k : ℕ) (v : Pointer) → (link_next (some k) v cells k).next ≡ v
  unfolding link_next
  link_next_there k v = ap (λ (l : Links). l.next) (put_there k _ cells)

  link_prev_there : (k : ℕ) (v : Pointer) → (link_prev (some k) v cells k).prev ≡ v
  unfolding link_prev
  link_prev_there k v = ap (λ (l : Links). l.prev) (put_there k _ cells)

  -- The last object of a segment is linked to another one behind it.
  pub retarget_next :
      (b before : Pointer) (xs : List ℕ) (after v : Pointer)
      → Distinct xs
      → Segment cells before xs after
      → Segment (link_next (last_or b xs) v cells) before xs v
  retarget_next b before [] after v d s = tt
  retarget_next b before (x ∷ []) after v d s =
      (link_next_prev (some x) v x ∙ s.0, link_next_there x v, tt)
  retarget_next b before (x ∷ (y ∷ ys)) after v d s = (
    link_next_prev (last_or (some y) ys) v x ∙ s.0,
    ap (λ (l : Links). l.next) (last-Away x y ys v d.0) ∙ s.1,
    retarget_next (some x) (some x) (y ∷ ys) after v d.1 s.2,
  )

  -- The first object of a segment is linked to another one before it.
  pub retarget_prev :
      (a before : Pointer) (xs : List ℕ) (after v : Pointer)
      → Distinct xs
      → Segment cells before xs after
      → Segment (link_prev (head_or xs a) v cells) v xs after
  retarget_prev a before [] after v d s = tt
  retarget_prev a before (x ∷ xs) after v d s = (
    link_prev_there x v,
    link_prev_next (some x) v x ∙ s.1,
    link_prev-Segment cells (some x) xs after s.2 (some x) v d.0,
  )
