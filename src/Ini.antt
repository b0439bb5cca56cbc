-- ===== src/Ini.antt =====
-- The class `IniConfig` of lib/ini.hpp. A file is the bytes that its stream gives, or none where it does not open;
-- a `std::map` is a list in the order of its keys.
pub mod Lines
pub mod Files
pub mod Access
use ax25toolkit.Base.{
  ℕ, Bool, true, false, ◌&&◌, ◌||◌, List, [], ◌∷◌, ◌++◌, map, Bytes, ◌==◌, if◌then◌else◌, Option,
  none, some, is_empty, drop,
}
use ax25toolkit.Base.Int.{ℤ}
use ax25toolkit.Base.Text.{to_lower, stoi, break_at, bytes_eq, bytes_lt, codes}
use ax25toolkit.Base.Text.Trim.{trim}
use ax25toolkit.Base.Text.Fields.{fields}
use ax25toolkit.Base.Dict.{lookup, insert}

abbrev pub Entries : Type 0
Entries = List (Bytes × Bytes)

-- `data_`
abbrev pub Data : Type 0
Data = List (Bytes × Entries)

-- `resize(find_first_of(";#"))`
unfoldable pub cut_comment : Bytes → Bytes
cut_comment [] = []
cut_comment (c ∷ cs) = let rest = cut_comment cs in if c == b';' || c == b'#' then [] else c ∷ rest

abbrev pub is_white : ℕ → Bool
is_white c = c == b' ' || c == 9 || c == 13 || c == 10

unfoldable pub trim_ : Bytes → Bytes
unfolding trim
trim_ s = trim is_white s

abbrev pub front_is : ℕ → Bytes → Bool
front_is ch [] = false
front_is ch (c ∷ cs) = c == ch

unfoldable pub back_is : ℕ → Bytes → Bool
back_is ch [] = false
back_is ch (c ∷ []) = c == ch
back_is ch (c ∷ (d ∷ cs)) = back_is ch (d ∷ cs)

unfoldable pub drop_last : Bytes → Bytes
drop_last [] = []
drop_last (c ∷ []) = []
drop_last (c ∷ (d ∷ cs)) = c ∷ drop_last (d ∷ cs)

abbrev pub entries_of : Option Entries → Entries
entries_of none = []
entries_of (some es) = es

-- `data_[section][key] = val`
unfoldable pub store : Bytes → Bytes → Bytes → Data → Data
unfolding lookup insert bytes_lt
store section key val d =
    insert bytes_lt section (insert bytes_lt key val (entries_of (lookup bytes_lt section d))) d

-- The section that the next line is in, and the data.
pub record Loading : Type 0 where
  pub section : Bytes
  pub data_ : Data

-- A line with no brackets around it, broken at its first `=`.
unfoldable pub load_entry : Bytes × Option Bytes → Loading → Loading
unfolding store trim_
load_entry (before, none) l = l
load_entry (before, some after) l =
    let key = trim_ before in
    if is_empty l.section
    then l
    else if is_empty key
    then l
    else record l { data_ = store l.section key (trim_ after) l.data_ }

-- The body of the loop of `load`.
unfoldable pub load_line : Bytes → Loading → Loading
unfolding cut_comment trim_ back_is drop_last load_entry break_at
load_line text l =
    let line = trim_ (cut_comment text) in
    if is_empty line
    then l
    else if front_is b'[' line && back_is b']' line
    then record l { section = trim_ (drop_last (drop 1 line)) }
    else load_entry (break_at b'=' line) l

unfoldable pub load_lines : List Bytes → Loading → Loading
unfolding load_line
load_lines [] l = l
load_lines (t ∷ ts) l = load_lines ts (load_line t l)

unfoldable pub load : Option Bytes → Data → Bool × Data
unfolding fields load_lines
load none d = (false, d)
load (some file) d =
    (true, (load_lines (fields 10 [] file) (record { section = []; data_ = d })).data_)

abbrev pub or_default {ℓ} : {A : Type ℓ} → Option A → A → A
or_default none def = def
or_default (some a) def = a

unfoldable pub get : Data → Bytes → Bytes → Bytes → Bytes
unfolding lookup bytes_lt
get d sec key def = elim (lookup bytes_lt sec d) [
  | none ↦ def
  | some es ↦ or_default (lookup bytes_lt key es) def
]

-- `get_int` and, with what `std::stod` reads, `get_double`: a value that is not read gives the default.
unfoldable pub get_number {ℓ} : {A : Type ℓ} → (Bytes → Option A) → Data → Bytes → Bytes → A → A
unfolding get
get_number read d sec key def =
    let v = get d sec key [] in if is_empty v then def else or_default (read v) def

unfoldable pub get_int : Data → Bytes → Bytes → ℤ → ℤ
unfolding get_number stoi
get_int d sec key def = get_number stoi d sec key def

unfoldable pub get_bool : Data → Bytes → Bytes → Bool → Bool
unfolding get to_lower bytes_eq
get_bool d sec key def =
    let v = get d sec key [] in
    let low = map to_lower v in
    if is_empty v
    then def
    else (bytes_eq low (codes "1") || bytes_eq low (codes "true"))
      || (bytes_eq low (codes "yes") || bytes_eq low (codes "on"))

abbrev pub is_there {ℓ} : {A : Type ℓ} → Option A → Bool
is_there none = false
is_there (some a) = true

unfoldable pub has : Data → Bytes → Bytes → Bool
unfolding lookup bytes_lt
has d sec key = elim (lookup bytes_lt sec d) [
  | none ↦ false
  | some es ↦ is_there (lookup bytes_lt key es)
]

unfoldable pub has_section : Data → Bytes → Bool
unfolding lookup bytes_lt
has_section d sec = is_there (lookup bytes_lt sec d)

-- `section`
unfoldable pub section_of : Data → Bytes → Entries
unfolding lookup bytes_lt
section_of d sec = entries_of (lookup bytes_lt sec d)
