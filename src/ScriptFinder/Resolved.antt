-- ===== src/ScriptFinder/Resolved.antt =====
-- The paths that `resolve` tries.
use ax25toolkit.Base.{
  ◌≡◌, refl, ◌&&◌, Bool, false, List, [], ◌∷◌, ◌++◌, Bytes, if◌then◌else◌, is_empty, arith, Option,
  none, some, ltb, length,
}
use ax25toolkit.Base.Text.{codes}
use ax25toolkit.ScriptFinder.Found.{ends_in_bas}
use ax25toolkit.ScriptFinder.{
  System, Finder, search_dirs, lower4, full, find, has_extension, resolve_in, or_only, resolve,
}

-- A path as given, and with the extension if it has none.
abbrev pub variants : Bytes → Bytes → List Bytes
variants name path =
    if ltb 3 (length name) && ends_in_bas name
    then path ∷ []
    else path ∷ ((path ++ codes ".bas") ∷ [])

abbrev pub in_dirs : Bytes → List Bytes → List Bytes
in_dirs name [] = []
in_dirs name (dir ∷ dirs) = variants name (full dir name) ++ in_dirs name dirs

-- The paths that a name may stand for, in the order of their priority.
abbrev pub candidates : Finder → Bytes → List Bytes
candidates f name = variants name name ++ in_dirs name (search_dirs f)

abbrev pub first : (Bytes → Bool) → List Bytes → Option Bytes
first p [] = none
first p (x ∷ xs) = if p x then some x else first p xs

-- The path of a list of one, and the empty text for any other list.
abbrev pub sole : List Bytes → Bytes
sole [] = []
sole (p ∷ []) = p
sole (p ∷ (q ∷ ps)) = []

-- The candidate, or the only match of the pattern where there is none.
abbrev pub else_sole : Option Bytes → List Bytes → Bytes
else_sole (some p) matched = p
else_sole none matched = sole matched

only_lem : (o : Option Bytes) (matched : List Bytes) → or_only o matched ≡ else_sole o matched
only_lem (some p) matched = refl
only_lem none [] = refl
only_lem none (p ∷ []) = refl
only_lem none (p ∷ (q ∷ ps)) = refl

has_extension_lem : (name : Bytes) → has_extension name ≡ (ltb 3 (length name) && ends_in_bas name)
unfolding has_extension lower4
has_extension_lem name = ground arith

resolve_in_lem :
    (sys : System) (name : Bytes) (dirs : List Bytes)
    → resolve_in sys name dirs ≡ first sys.readable (in_dirs name dirs)
unfolding resolve_in
resolve_in_lem sys name [] = refl
resolve_in_lem sys name (dir ∷ dirs) =
    ground (arith, resolve_in_lem sys name dirs, has_extension_lem name)

-- A name that is not empty resolves to the first readable one of its candidates: the name itself as a path, then with `.bas`, then
-- the same in each search directory in turn, where a name that has the extension is not given it again. If none
-- is readable, it resolves to the one script that it matches as a pattern, and fails on several or none.
pub resolve-first :
    (sys : System) (f : Finder) (name : Bytes)
    → is_empty name ≡ false
    → resolve sys f name ≡ else_sole (first sys.readable (candidates f name)) (find sys f name)
unfolding resolve
resolve-first sys f name h = ground (
  arith,
  resolve_in_lem sys name (search_dirs f),
  has_extension_lem name,
  only_lem (first sys.readable (candidates f name)) (find sys f name),
)
