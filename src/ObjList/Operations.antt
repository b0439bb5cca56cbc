-- ===== src/ObjList/Operations.antt =====
-- What the operations of `ObjList` make of the objects in it.
use ax25toolkit.Base.{
  ℕ, suc, ◌≡◌, refl, sym, ap, ◌∙◌, subst, List, [], ◌∷◌, ◌++◌, append-nil, All, arith, none, some,
  length, length-append,
}
use ax25toolkit.ObjList.{
  Pointer, Links, unlinked, Store, put, link_next, link_prev, ObjList, if_null, insert_back, erase,
  walk, snapshot,
}
use ax25toolkit.ObjList.Segments.{
  head_or, last_or, Segment, NotIn, Distinct, Away, put_there, link_next_other, link_next-Segment,
  link_prev-Segment, put-Segment,
}
use ax25toolkit.ObjList.Segments.Joining.{
  last_or-append, segment_join, segment_split, retarget_next, retarget_prev,
}

-- The list holds the objects `xs`, in this order and none twice: they are linked in both directions, the list
-- points to the first and the last one, and counts them.
pub record Holds (l : ObjList) (xs : List ℕ) : Type 0 where
  pub linked : Segment l.cells none xs none
  pub starts : l.head ≡ head_or xs none
  pub ends : l.tail ≡ last_or none xs
  pub counts : l.size ≡ length xs
  pub distinct : Distinct xs

abbrev canon : Store → List ℕ → ObjList
canon cells xs = record {
  cells = cells;
  head = head_or xs none;
  tail = last_or none xs;
  size = length xs;
}

shape : (l : ObjList) (xs : List ℕ) → Holds l xs → canon l.cells xs ≡ l
shape l xs h = rw (sym h.starts, sym h.ends, sym h.counts) refl

NotIn-sym : (x : ℕ) (xs : List ℕ) → NotIn x xs → All (λ y. NotIn y (x ∷ [])) xs
NotIn-sym x [] h = tt
NotIn-sym x (y ∷ ys) h = (((λ e. h.0 (sym e)), tt), NotIn-sym x ys h.1)

NotIn-append : (x : ℕ) (xs ys : List ℕ) → NotIn x (xs ++ ys) → NotIn x xs × NotIn x ys
NotIn-append x [] ys h = (tt, h)
NotIn-append x (z ∷ xs) ys h = let (a, b) = NotIn-append x xs ys h.1 in ((h.0, a), b)

NotIn-join : (x : ℕ) (xs ys : List ℕ) → NotIn x xs → NotIn x ys → NotIn x (xs ++ ys)
NotIn-join x [] ys h k = k
NotIn-join x (z ∷ xs) ys h k = (h.0, NotIn-join x xs ys h.1 k)

Distinct-append :
    (xs ys : List ℕ) → Distinct (xs ++ ys) → Distinct xs × Distinct ys × All (λ x. NotIn x ys) xs
Distinct-append [] ys h = (tt, h, tt)
Distinct-append (x ∷ xs) ys h =
    let (a, b) = NotIn-append x xs ys h.0 in
    let (c, d, e) = Distinct-append xs ys h.1 in ((a, c), d, (b, e))

Distinct-join :
    (xs ys : List ℕ) → Distinct xs → Distinct ys → All (λ x. NotIn x ys) xs → Distinct (xs ++ ys)
Distinct-join [] ys h k a = k
Distinct-join (x ∷ xs) ys h k a = (NotIn-join x xs ys h.0 a.0, Distinct-join xs ys h.1 k a.1)

last-Away :
    (b : Pointer) (xs ys : List ℕ) → Away b ys → All (λ x. NotIn x ys) xs → Away (last_or b xs) ys
last-Away b [] ys h k = h
last-Away b (x ∷ xs) ys h k = last-Away (some x) xs ys k.0 k.1

firsts : (z : ℕ) (zs ys : List ℕ) → All (λ y. NotIn y (z ∷ zs)) ys → NotIn z ys
firsts z zs [] h = tt
firsts z zs (y ∷ ys) h = ((λ e. h.0.0 (sym e)), firsts z zs ys h.1)

head-Away : (zs ys : List ℕ) → All (λ y. NotIn y zs) ys → Away (head_or zs none) ys
head-Away [] ys h = tt
head-Away (z ∷ zs) ys h = firsts z zs ys h

not_null : (b : ℕ) (xs : List ℕ) (u v : Pointer) → if_null (last_or (some b) xs) u v ≡ v
not_null b [] u v = refl
not_null b (x ∷ xs) u v = not_null x xs u v

new_head :
    (xs : List ℕ) (x : ℕ)
    → if_null (last_or none xs) (some x) (head_or xs none) ≡ head_or (xs ++ x ∷ []) none
new_head [] x = refl
new_head (y ∷ ys) x = not_null y ys (some x) (some y)

insert_canon :
    (cells : Store) (x : ℕ) (xs : List ℕ)
    → Segment cells none xs none
    → Distinct xs
    → NotIn x xs
    → Holds (insert_back x (canon cells xs)) (xs ++ x ∷ [])
unfolding insert_back
insert_canon cells x xs s d fresh =
    let links : Links = record { prev = last_or none xs; next = none } in
    let cells0 = put x links cells in
    let away = last-Away none xs (x ∷ []) tt (NotIn-sym x xs fresh) in
    let there =
      link_next_other (last_or none xs) (some x) x [] cells0 away ∙ put_there x links cells in
    record {
      linked =
          segment_join (link_next (last_or none xs) (some x) cells0) none xs (x ∷ []) none
            (retarget_next cells0 none none xs none (some x) d
              (put-Segment cells none xs none s x links fresh))
            (ap (λ (l : Links). l.prev) there, ap (λ (l : Links). l.next) there, tt);
      starts = new_head xs x;
      ends = sym (last_or-append none xs (x ∷ []));
      counts = omega (arith, length-append xs (x ∷ []));
      distinct = Distinct-join xs (x ∷ []) d (tt, tt) (NotIn-sym x xs fresh);
    }

-- An object that is not in the list goes behind all others.
pub insert_back-Holds :
    (l : ObjList) (x : ℕ) (xs : List ℕ)
    → Holds l xs
    → NotIn x xs
    → Holds (insert_back x l) (xs ++ x ∷ [])
insert_back-Holds l x xs h fresh =
    subst (λ m. Holds (insert_back x m) (xs ++ x ∷ [])) (shape l xs h)
      (insert_canon l.cells x xs h.linked h.distinct fresh)

new_first :
    (ys : List ℕ) (x : ℕ) (zs : List ℕ)
    → if_null (last_or none ys) (head_or zs none) (head_or (ys ++ (x ∷ zs)) none)
      ≡ head_or (ys ++ zs) none
new_first [] x zs = refl
new_first (y ∷ ys) x zs = not_null y ys (head_or zs none) (some y)

new_last :
    (ys : List ℕ) (x : ℕ) (zs : List ℕ)
    → if_null (head_or zs none) (last_or none ys) (last_or none (ys ++ (x ∷ zs)))
      ≡ last_or none (ys ++ zs)
new_last ys x [] = ap (last_or none) (sym (append-nil ys))
new_last ys x (z ∷ zs) =
    last_or-append none ys (x ∷ (z ∷ zs)) ∙ sym (last_or-append none ys (z ∷ zs))

-- What is known of a list around one of its objects.
record Around (cells : Store) (ys : List ℕ) (x : ℕ) (zs : List ℕ) : Type 0 where
  before : Segment cells none ys (some x)
  prev : (cells x).prev ≡ last_or none ys
  next : (cells x).next ≡ head_or zs none
  behind : Segment cells (some x) zs none
  ys_distinct : Distinct ys
  zs_distinct : Distinct zs
  x_ys : NotIn x ys
  x_zs : NotIn x zs
  last_x : Away (last_or none ys) (x ∷ [])
  last_zs : Away (last_or none ys) zs
  head_ys : Away (head_or zs none) ys
  apart : All (λ y. NotIn y zs) ys

tails : (x : ℕ) (zs ys : List ℕ) → All (λ y. NotIn y (x ∷ zs)) ys → All (λ y. NotIn y zs) ys
tails x zs [] h = tt
tails x zs (y ∷ ys) h = (h.0.1, tails x zs ys h.1)

around :
    (cells : Store) (ys : List ℕ) (x : ℕ) (zs : List ℕ)
    → Segment cells none (ys ++ (x ∷ zs)) none
    → Distinct (ys ++ (x ∷ zs))
    → Around cells ys x zs
around cells ys x zs s d =
    let (s1, s2) = segment_split cells none ys (x ∷ zs) none s in
    let (d1, d2, a) = Distinct-append ys (x ∷ zs) d in
    let not_x = firsts x zs ys a in
    record {
      before = s1;
      prev = s2.0;
      next = s2.1;
      behind = s2.2;
      ys_distinct = d1;
      zs_distinct = d2.1;
      x_ys = not_x;
      x_zs = d2.0;
      last_x = last-Away none ys (x ∷ []) tt (NotIn-sym x ys not_x);
      last_zs = last-Away none ys zs tt (tails x zs ys a);
      head_ys = head-Away zs ys (tails x zs ys a);
      apart = tails x zs ys a;
    }

-- The links that `erase` leaves.
unlinked_Segment :
    (cells : Store) (ys : List ℕ) (x : ℕ) (zs : List ℕ)
    → Around cells ys x zs
    → Segment
        (put x unlinked (
          link_prev
            (head_or zs none)
            (last_or none ys)
            (link_next (last_or none ys) (head_or zs none) cells)))
        none
        (ys ++ zs)
        none
unlinked_Segment cells ys x zs a =
    let p = last_or none ys in
    let n = head_or zs none in
    let cells1 = link_next p n cells in
    let cells2 = link_prev n p cells1 in
    let left = retarget_next cells none none ys (some x) n a.ys_distinct a.before in
    let right = link_next-Segment cells (some x) zs none a.behind p n a.last_zs in
    let left' = link_prev-Segment cells1 none ys n left n p a.head_ys in
    let right' = retarget_prev cells1 none (some x) zs none p a.zs_distinct right in
    segment_join (put x unlinked cells2) none ys zs none
      (put-Segment cells2 none ys n left' x unlinked a.x_ys)
      (put-Segment cells2 p zs none right' x unlinked a.x_zs)

erase-canon :
    (cells : Store) (ys : List ℕ) (x : ℕ) (zs : List ℕ)
    → Around cells ys x zs
    → Holds (erase x (canon cells (ys ++ (x ∷ zs)))) (ys ++ zs)
unfolding erase
erase-canon cells ys x zs a =
    let p = last_or none ys in
    let n = head_or zs none in
    rw (a.prev, a.next, link_next_other p n x [] cells a.last_x, a.prev, a.next)
      (record {
        linked = unlinked_Segment cells ys x zs a;
        starts = new_first ys x zs;
        ends = new_last ys x zs;
        counts = omega (arith, length-append ys (x ∷ zs), length-append ys zs);
        distinct = Distinct-join ys zs a.ys_distinct a.zs_distinct a.apart;
      })

-- An object of the list is taken out, wherever it stands; the others keep their order.
pub erase-Holds :
    (l : ObjList) (ys : List ℕ) (x : ℕ) (zs : List ℕ)
    → Holds l (ys ++ (x ∷ zs))
    → Holds (erase x l) (ys ++ zs)
erase-Holds l ys x zs h =
    subst (λ m. Holds (erase x m) (ys ++ zs)) (shape l (ys ++ (x ∷ zs)) h)
      (erase-canon l.cells ys x zs (around l.cells ys x zs h.linked h.distinct))

walk_lem :
    (cells : Store) (before : Pointer) (xs : List ℕ)
    → Segment cells before xs none
    → walk (suc (length xs)) cells (head_or xs none) ≡ some xs
unfolding walk
walk_lem cells before [] s = refl
walk_lem cells before (x ∷ xs) s = rw (s.1, walk_lem cells (some x) xs s.2) refl

-- The walk from the head meets all objects in their order and ends.
pub snapshot-Holds : (l : ObjList) (xs : List ℕ) → Holds l xs → snapshot l ≡ some xs
unfolding snapshot
snapshot-Holds l xs h = rw (h.counts, h.starts) (walk_lem l.cells none xs h.linked)
