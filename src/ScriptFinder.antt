-- ===== src/ScriptFinder.antt =====
-- The class `ScriptFinder` of lib/script_finder.hpp. The file system and the regular expressions are parameters.
pub mod Found
pub mod Resolved
use ax25toolkit.Base.{
  ℕ, zero, suc, ◌-◌, ◌+◌, Bool, true, false, not, ◌&&◌, ◌||◌, List, [], ◌∷◌, ◌++◌, map, Bytes, ◌==◌,
  ltb, leb, if◌then◌else◌, Option, none, some, is_empty, length, drop, get_elem?,
}
use ax25toolkit.Base.Text.{to_lower, to_string, bytes_eq, bytes_lt, codes}

pub record System : Type 0 where
  -- `access(path, R_OK) == 0`
  pub readable : Bytes → Bool
  -- The names that `readdir` gives, where `opendir` succeeds.
  pub listing : Bytes → Option (List Bytes)
  -- `std::regex_search` in a name, ignoring case; `none` for a pattern that is no regular expression.
  pub search : Bytes → Option (Bytes → Bool)

pub record Finder : Type 0 where
  pub cli_paths : List Bytes
  pub env_path : Bytes
  pub default_dir : Bytes

-- `ScriptFinder()`, with the value of AX25TK_BASIC_PATH, if it is set.
unfoldable pub new_finder : Option Bytes → Finder
new_finder none = record { cli_paths = []; env_path = []; default_dir = [] }
new_finder (some env) = record { cli_paths = []; env_path = env; default_dir = [] }

unfoldable pub add_search_path : Bytes → Finder → Finder
add_search_path dir f = if is_empty dir then f else record f { cli_paths = f.cli_paths ++ dir ∷ [] }

abbrev pub set_default_dir : Bytes → Finder → Finder
set_default_dir dir f = record f { default_dir = dir }

abbrev pub if_given : Bytes → List Bytes
if_given dir = if is_empty dir then [] else dir ∷ []

unfoldable pub search_dirs : Finder → List Bytes
search_dirs f =
    let dirs = f.cli_paths ++ (if_given f.env_path ++ if_given f.default_dir) in
    if is_empty dirs then (b'.' ∷ []) ∷ [] else dirs

-- `lower4` of a name of at least four characters.
unfoldable pub lower4 : Bytes → Bytes
unfolding to_lower
lower4 s = map to_lower (drop (length s - 4) s)

unfoldable pub is_bas : Bytes → Bool
unfolding lower4 bytes_eq
is_bas name = not (ltb (length name) 5) && bytes_eq (lower4 name) (codes ".bas")

-- No pattern, or none that is a regular expression, takes every name.
abbrev pub matches : Option (Bytes → Bool) → Bytes → Bool
matches none name = true
matches (some search) name = search name

unfoldable pub takes : System → Bytes → Bytes → Bool
takes sys pattern name = is_empty pattern || matches (sys.search pattern) name

unfoldable pub kept : (Bytes → Bool) → List Bytes → List Bytes
kept p [] = []
kept p (x ∷ xs) = let rest = kept p xs in if p x then x ∷ rest else rest

abbrev pub names_in : Option (List Bytes) → List Bytes
names_in none = []
names_in (some names) = names

unfoldable pub put_in : Bytes → List Bytes → List Bytes
unfolding bytes_lt
put_in x [] = x ∷ []
put_in x (y ∷ ys) = let rest = put_in x ys in if bytes_lt y x then y ∷ rest else x ∷ (y ∷ ys)

-- `std::sort`
unfoldable pub sorted : List Bytes → List Bytes
unfolding put_in
sorted [] = []
sorted (x ∷ xs) = put_in x (sorted xs)

unfoldable pub scan_dir : System → Bytes → Bytes → List Bytes
unfolding kept is_bas takes sorted
scan_dir sys dir pattern =
    sorted (kept (λ name. is_bas name && takes sys pattern name) (names_in (sys.listing dir)))

unfoldable pub is_in : Bytes → List Bytes → Bool
unfolding bytes_eq
is_in p [] = false
is_in p (q ∷ qs) = bytes_eq q p || is_in p qs

abbrev pub full : Bytes → Bytes → Bytes
full dir f = dir ++ (b'/' ∷ f)

-- The loop over the names found in a directory.
unfoldable pub add_found : Bytes → List Bytes → List Bytes → List Bytes
unfolding is_in
add_found dir [] results = results
add_found dir (f ∷ fs) results =
    add_found dir fs (if is_in (full dir f) results then results else results ++ full dir f ∷ [])

unfoldable pub find_in : System → Bytes → List Bytes → List Bytes → List Bytes
unfolding add_found scan_dir
find_in sys pattern [] results = results
find_in sys pattern (dir ∷ dirs) results =
    find_in sys pattern dirs (add_found dir (scan_dir sys dir pattern) results)

unfoldable pub find : System → Finder → Bytes → List Bytes
unfolding search_dirs find_in
find sys f pattern = find_in sys pattern (search_dirs f) []

-- `name` ends in `.bas`, in any case of its letters.
unfoldable pub has_extension : Bytes → Bool
unfolding lower4 bytes_eq
has_extension name = not (ltb (length name) 4) && bytes_eq (lower4 name) (codes ".bas")

abbrev pub with_ext : Bytes → Bytes
with_ext name = name ++ codes ".bas"

-- The loop over the directories in `resolve`.
unfoldable pub resolve_in : System → Bytes → List Bytes → Option Bytes
unfolding has_extension
resolve_in sys name [] = none
resolve_in sys name (dir ∷ dirs) =
    let rest = resolve_in sys name dirs in
    if sys.readable (full dir name)
    then some (full dir name)
    else if not (has_extension name) && sys.readable (with_ext (full dir name))
    then some (with_ext (full dir name))
    else rest

abbrev pub only : List Bytes → Bytes
only (p ∷ []) = p
only _ = []

abbrev pub or_only : Option Bytes → List Bytes → Bytes
or_only (some p) matched = p
or_only none matched = only matched

-- The empty text is the failure of `resolve`.
unfoldable pub resolve : System → Finder → Bytes → Bytes
unfolding has_extension resolve_in search_dirs find
resolve sys f name =
    if is_empty name
    then []
    else if sys.readable name
    then name
    else if not (has_extension name) && sys.readable (with_ext name)
    then with_ext name
    else or_only (resolve_in sys name (search_dirs f)) (find sys f name)
