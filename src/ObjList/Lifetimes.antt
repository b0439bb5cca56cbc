-- ===== src/ObjList/Lifetimes.antt =====
-- The objects of a program as they are made and destroyed in any order.
use ax25toolkit.Base.{ℕ, ◌≡◌, refl, List, [], ◌∷◌, ◌++◌, none, some, length}
use ax25toolkit.ObjList.{ObjList, unlinked, put, no_objects, construct, destroy, snapshot}
use ax25toolkit.ObjList.Segments.{NotIn, put-Segment}
use ax25toolkit.ObjList.Operations.{Holds, insert_back-Holds, erase-Holds, snapshot-Holds}

pub data Event : Type 0 where
  made destroyed : ℕ → Event

-- The list after some events, the last of which is the first of `es`.
abbrev pub after : List Event → ObjList
after [] = no_objects
after (made x ∷ es) = construct x (after es)
after (destroyed x ∷ es) = destroy x (after es)

-- The objects alive after some events, in the order in which they were made. An object is made where none is
-- alive, and destroyed while it is.
pub data Alive : List Event → List ℕ → Type 0 where
  at_first : Alive [] []
  by_made :
      (es : List Event) (xs : List ℕ) (x : ℕ)
      → Alive es xs
      → NotIn x xs
      → Alive (made x ∷ es) (xs ++ x ∷ [])
  by_destroyed :
      (es : List Event) (ys : List ℕ) (x : ℕ) (zs : List ℕ)
      → Alive es (ys ++ (x ∷ zs))
      → Alive (destroyed x ∷ es) (ys ++ zs)

no_objects-Holds : Holds no_objects []
no_objects-Holds = record { linked = tt; starts = refl; ends = refl; counts = refl; distinct = tt }

construct-Holds :
    (l : ObjList) (x : ℕ) (xs : List ℕ)
    → Holds l xs
    → NotIn x xs
    → Holds (construct x l) (xs ++ x ∷ [])
unfolding construct
construct-Holds l x xs h fresh =
    insert_back-Holds (record l { cells = put x unlinked l.cells }) x xs
      (record {
        linked = put-Segment l.cells none xs none h.linked x unlinked fresh;
        starts = h.starts;
        ends = h.ends;
        counts = h.counts;
        distinct = h.distinct;
      })
      fresh

-- However objects are made and destroyed, the list holds the objects that are alive.
pub after-Holds : (es : List Event) (xs : List ℕ) → Alive es xs → Holds (after es) xs
after-Holds [] [] at_first = no_objects-Holds
after-Holds es' xs' (by_made es xs x a fresh) =
    construct-Holds (after es) x xs (after-Holds es xs a) fresh
after-Holds es' xs' (by_destroyed es ys x zs a) =
    erase-Holds (after es) ys x zs (after-Holds es (ys ++ (x ∷ zs)) a)

-- However objects are made and destroyed, a snapshot ends and lists exactly the objects that are alive, in
-- the order in which they were made, and the size is their number. An object is made where none is alive, and
-- only objects that are alive are destroyed.
pub snapshot-after :
    (es : List Event) (xs : List ℕ)
    → Alive es xs
    → (snapshot (after es) ≡ some xs) × ((after es).size ≡ length xs)
snapshot-after es xs a = let h = after-Holds es xs a in (snapshot-Holds (after es) xs h, h.counts)
