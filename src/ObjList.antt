-- ===== src/ObjList.antt =====
-- The intrusive list `ObjList` and its nodes `ObjNode` of lib/ax25lib.hpp: a store of links, one pair for each
-- object's address, and the list's own fields. A pointer is `none` for `nullptr`.
pub mod Segments
pub mod Operations
pub mod Lifetimes
use ax25toolkit.Base.{
  ℕ, zero, suc, ◌-◌, Bool, true, false, List, [], ◌∷◌, ◌==◌, Option, none, some, if◌then◌else◌, map,
}

abbrev pub Pointer : Type 0
Pointer = Option ℕ

-- The fields `next_` and `prev_` of an `ObjNode`; its `list_` is the one list of the model.
pub record Links : Type 0 where
  pub next : Pointer
  pub prev : Pointer

abbrev pub unlinked : Links
unlinked = record { next = none; prev = none }

abbrev pub Store : Type 0
Store = ℕ → Links

abbrev pub put : ℕ → Links → Store → Store
put k l cells a = if a == k then l else cells a

-- `o->next_ = v`, where `o` is not null.
unfoldable pub link_next : Pointer → Pointer → Store → Store
link_next none v cells = cells
link_next (some k) v cells = put k (record (cells k) { next = v }) cells

unfoldable pub link_prev : Pointer → Pointer → Store → Store
link_prev none v cells = cells
link_prev (some k) v cells = put k (record (cells k) { prev = v }) cells

pub record ObjList : Type 0 where
  pub cells : Store
  pub head : Pointer
  pub tail : Pointer
  pub size : ℕ

-- `ObjList() = default`, before any node is made.
abbrev pub no_objects : ObjList
no_objects = record { cells = λ a. unlinked; head = none; tail = none; size = 0 }

-- `if (o) no; else on_null;` as the value assigned.
abbrev pub if_null : Pointer → Pointer → Pointer → Pointer
if_null none on_null other = on_null
if_null (some a) on_null other = other

unfoldable pub insert_back : ℕ → ObjList → ObjList
unfolding link_next
insert_back item l = record {
  cells = link_next l.tail (some item) (put item (record { prev = l.tail; next = none }) l.cells);
  head = if_null l.tail (some item) l.head;
  tail = some item;
  size = suc l.size;
}

unfoldable pub erase : ℕ → ObjList → ObjList
unfolding link_next link_prev
erase item l =
    let n = l.cells item in
    let cells = link_next n.prev n.next l.cells in
    let n' = cells item in
    record {
      cells = put item unlinked (link_prev n'.next n'.prev cells);
      head = if_null n.prev n.next l.head;
      tail = if_null n'.next n'.prev l.tail;
      size = l.size - 1;
    }

-- The constructor and the destructor of `ObjNode`.
unfoldable pub construct : ℕ → ObjList → ObjList
unfolding insert_back
construct item l = insert_back item (record l { cells = put item unlinked l.cells })

abbrev pub destroy : ℕ → ObjList → ObjList
destroy item l = erase item l

-- The loop of `snapshot` from `cur` on; fuel that runs out is `none`.
unfoldable pub walk : ℕ → Store → Pointer → Option (List ℕ)
walk zero cells cur = none
walk (suc fuel) cells none = some []
walk (suc fuel) cells (some a) = elim (walk fuel cells (cells a).next) [
  | none ↦ none
  | some as' ↦ some (a ∷ as')
]

-- `snapshot`: as many rounds as the list has objects, and the one that finds its end.
unfoldable pub snapshot : ObjList → Option (List ℕ)
unfolding walk
snapshot l = walk (suc l.size) l.cells l.head

abbrev pub empty : ObjList → Bool
empty l = l.size == 0
