-- ===== src/Basic/Vars.antt =====
-- The variables, maps and queues of lib/basic.cpp: `is_str_var` to `queue_clear`.
use ax25toolkit.Base.{
  ℕ, Bool, true, false, ◌&&◌, List, [], ◌∷◌, ◌++◌, Bytes, Option, none, some, if◌then◌else◌, ◌==◌,
}
use ax25toolkit.Base.Text.{bytes_eq, bytes_lt, break_at}
use ax25toolkit.Base.Dict.{lookup, insert, erase}
use ax25toolkit.Basic.{Floats, Value, num, str, zero_num, CallFrame, Interp}

-- A map from text.
abbrev pub Dict {ℓ} : Type ℓ → Type ℓ
Dict V = List (Bytes × V)

abbrev pub find {ℓ} : {V : Type ℓ} → Bytes → Dict V → Option V
find k m = lookup bytes_lt k m

abbrev pub put {ℓ} : {V : Type ℓ} → Bytes → V → Dict V → Dict V
put k v m = insert bytes_lt k v m

abbrev pub remove {ℓ} : {V : Type ℓ} → Bytes → Dict V → Dict V
remove k m = erase bytes_lt k m

unfoldable pub ends_with : ℕ → Bytes → Bool
ends_with c [] = false
ends_with c (d ∷ []) = d == c
ends_with c (d ∷ (e ∷ ds)) = ends_with c (e ∷ ds)

unfoldable pub is_str_var : Bytes → Bool
unfolding ends_with
is_str_var name = ends_with b'$' name

-- The value of a name that nothing has set.
unfoldable pub unset : {F : Floats} → Bytes → Value F
unfolding is_str_var
unset {F} name = if is_str_var name then str [] else num (zero_num F)

-- `frame_stack_.back()` has the name as its function's.
unfoldable pub names_function : {F : Floats} → Bytes → List (CallFrame F) → Bool
unfolding bytes_eq
names_function name [] = false
names_function name (f ∷ fs) = f.is_function && bytes_eq name f.proc_name

unfoldable pub get_local : {F : Floats} → Bytes → List (CallFrame F) → Option (Value F)
unfolding lookup bytes_lt bytes_eq
get_local name [] = none
get_local name (f ∷ fs) = elim (find name f.locals) [
  | some v ↦ some v
  | none ↦ if bytes_eq name f.proc_name && f.is_function then some f.return_value else none
]

-- The first that is there.
abbrev pub first_of {ℓ} : {A : Type ℓ} → Option A → A → A
first_of none d = d
first_of (some a) d = a

unfoldable pub get_var : {F : Floats} → Bytes → Interp F → Value F
unfolding lookup bytes_lt get_local unset
get_var name s = first_of (find name s.consts) (
    first_of (get_local name s.frame_stack)
      (first_of (find name s.type_vars) (first_of (find name s.vars) (unset name))))

abbrev pub present {ℓ} : {A : Type ℓ} → Option A → Bool
present none = false
present (some a) = true

unfoldable pub set_global : {F : Floats} → Bytes → Value F → Interp F → Interp F
unfolding insert bytes_lt break_at
set_global name v s =
    if present (break_at b'.' name).1
    then record s { type_vars = put name v s.type_vars }
    else record s { vars = put name v s.vars }

unfoldable pub set_in : {F : Floats} → Bytes → Value F → List (CallFrame F) → Interp F → Interp F
unfolding names_function bytes_eq lookup insert bytes_lt set_global
set_in name v [] s = set_global name v s
set_in name v (f ∷ fs) s =
    if f.is_function && bytes_eq name f.proc_name
    then record s { frame_stack = record f { return_value = v } ∷ fs }
    else if present (find name f.locals)
    then record s { frame_stack = record f { locals = put name v f.locals } ∷ fs }
    else set_global name v s

unfoldable pub set_var : {F : Floats} → Bytes → Value F → Interp F → Interp F
unfolding set_in
set_var name v s = set_in name v s.frame_stack s

unfoldable pub set_str : {F : Floats} → Bytes → Bytes → Interp F → Interp F
unfolding insert bytes_lt
set_str name val s = record s { vars = put name (str val) s.vars }

unfoldable pub set_num : {F : Floats} → Bytes → F.Num → Interp F → Interp F
unfolding insert bytes_lt
set_num name val s = record s { vars = put name (num val) s.vars }

-- `maps_[name]` and `queues_[name]` make an empty one.
abbrev pub dict_of {ℓ} : {V : Type ℓ} → Option (Dict V) → Dict V
dict_of none = []
dict_of (some m) = m

abbrev pub items_of {ℓ} : {V : Type ℓ} → Option (List V) → List V
items_of none = []
items_of (some q) = q

unfoldable pub map_set : {F : Floats} → Bytes → Bytes → Value F → Interp F → Interp F
unfolding lookup insert bytes_lt
map_set name key v s = record s { maps = put name (put key v (dict_of (find name s.maps))) s.maps }

unfoldable pub map_clear : {F : Floats} → Bytes → Interp F → Interp F
unfolding erase bytes_lt
map_clear name s = record s { maps = remove name s.maps }

unfoldable pub queue_push : {F : Floats} → Bytes → Value F → Interp F → Interp F
unfolding lookup insert bytes_lt
queue_push name v s = record s {
  queues = put name (items_of (find name s.queues) ++ v ∷ []) s.queues;
}

unfoldable pub queue_clear : {F : Floats} → Bytes → Interp F → Interp F
unfolding erase bytes_lt
queue_clear name s = record s { queues = remove name s.queues }
