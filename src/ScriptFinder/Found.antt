-- ===== src/ScriptFinder/Found.antt =====
-- What `find` finds.
use ax25toolkit.Base.{
  ◌≡◌, refl, ◌∙◌, ap, Bool, true, false, not, ◌&&◌, ◌||◌, List, [], ◌∷◌, ◌++◌, Bytes, if◌then◌else◌,
  arith, ◌-◌, ltb, length, drop, map, Option, none, some,
}
use ax25toolkit.Base.Text.{bytes_eq, bytes_eq_iff, to_lower, codes}
use ax25toolkit.ScriptFinder.{
  System, Finder, search_dirs, lower4, is_bas, matches, takes, kept, names_in, put_in, sorted,
  scan_dir, is_in, full, add_found, find_in, find,
}

-- The path is that of one of the names in the directory.
abbrev pub one_of : Bytes → Bytes → List Bytes → Bool
one_of p dir [] = false
one_of p dir (f ∷ fs) = bytes_eq (full dir f) p || one_of p dir fs

-- The last four characters are `.bas`, in any case.
abbrev pub ends_in_bas : Bytes → Bool
ends_in_bas name = bytes_eq (map to_lower (drop (length name - 4) name)) (codes ".bas")

-- The pattern is found in the name; the empty one, and one that is no regular expression, in every name.
abbrev pub found_by : Option (Bytes → Bool) → Bytes → Bool
found_by none name = true
found_by (some has) name = has name

abbrev pub found_in : System → Bytes → Bytes → Bool
found_in sys [] name = true
found_in sys (c ∷ cs) name = found_by (sys.search (c ∷ cs)) name

-- ... whose name is that of a script and matches.
abbrev pub script_of : System → Bytes → Bytes → Bytes → List Bytes → Bool
script_of sys pattern p dir [] = false
script_of sys pattern p dir (f ∷ fs) =
    ((ltb 4 (length f) && ends_in_bas f) && found_in sys pattern f && bytes_eq (full dir f) p)
    || script_of sys pattern p dir fs

is_bas_lem : (name : Bytes) → is_bas name ≡ (ltb 4 (length name) && ends_in_bas name)
unfolding is_bas lower4
is_bas_lem name = ground arith

matches_lem : (o : Option (Bytes → Bool)) (name : Bytes) → matches o name ≡ found_by o name
matches_lem none name = refl
matches_lem (some has) name = refl

takes_lem :
    (sys : System) (pattern name : Bytes) → takes sys pattern name ≡ found_in sys pattern name
unfolding takes
takes_lem sys [] name = refl
takes_lem sys (c ∷ cs) name = matches_lem (sys.search (c ∷ cs)) name

-- ... in one of the directories.
abbrev pub offered : System → Bytes → Bytes → List Bytes → Bool
offered sys pattern p [] = false
offered sys pattern p (dir ∷ dirs) =
    script_of sys pattern p dir (names_in (sys.listing dir)) || offered sys pattern p dirs

-- No path stands in the list twice.
abbrev pub is_distinct : List Bytes → Bool
is_distinct [] = true
is_distinct (p ∷ ps) = not (is_in p ps) && is_distinct ps

is_in-append : (p : Bytes) (xs ys : List Bytes) → is_in p (xs ++ ys) ≡ (is_in p xs || is_in p ys)
unfolding is_in
is_in-append p [] ys = refl
is_in-append p (x ∷ xs) ys = ground (arith, is_in-append p xs ys)

one_of-put_in :
    (p dir x : Bytes) (xs : List Bytes) → one_of p dir (put_in x xs) ≡ one_of p dir (x ∷ xs)
unfolding put_in
one_of-put_in p dir x [] = refl
one_of-put_in p dir x (y ∷ ys) = ground (arith, one_of-put_in p dir x ys)

one_of-sorted : (p dir : Bytes) (xs : List Bytes) → one_of p dir (sorted xs) ≡ one_of p dir xs
unfolding sorted
one_of-sorted p dir [] = refl
one_of-sorted p dir (x ∷ xs) =
    one_of-put_in p dir x (sorted xs)
    ∙ ap (λ b. bytes_eq (full dir x) p || b) (one_of-sorted p dir xs)

one_of-kept :
    (sys : System) (pattern p dir : Bytes) (xs : List Bytes)
    → one_of p dir (kept (λ name. is_bas name && takes sys pattern name) xs)
      ≡ script_of sys pattern p dir xs
unfolding kept
one_of-kept sys pattern p dir [] = refl
one_of-kept sys pattern p dir (x ∷ xs) =
    ground (arith, one_of-kept sys pattern p dir xs, is_bas_lem x, takes_lem sys pattern x)

one_of-scan_dir :
    (sys : System) (pattern p dir : Bytes)
    → one_of p dir (scan_dir sys dir pattern)
      ≡ script_of sys pattern p dir (names_in (sys.listing dir))
unfolding scan_dir
one_of-scan_dir sys pattern p dir =
    one_of-sorted p dir _ ∙ one_of-kept sys pattern p dir (names_in (sys.listing dir))

bytes_eq_trans : (x y : Bytes) (zs : List Bytes) → bytes_eq x y ≡ true → is_in x zs ≡ is_in y zs
bytes_eq_trans x y zs h = ap (λ t. is_in t zs) ((bytes_eq_iff x y).0 h)

bytes_eq_sym : (x y : Bytes) → bytes_eq x y ≡ bytes_eq y x
unfolding bytes_eq
bytes_eq_sym [] [] = refl
bytes_eq_sym [] (y ∷ ys) = refl
bytes_eq_sym (x ∷ xs) [] = refl
bytes_eq_sym (x ∷ xs) (y ∷ ys) = ground (arith, bytes_eq_sym xs ys)

-- One name more.
abbrev grown : Bytes → List Bytes → List Bytes
grown q results = if is_in q results then results else results ++ q ∷ []

is_in-grown :
    (p q : Bytes) (results : List Bytes)
    → is_in p (grown q results) ≡ (is_in p results || bytes_eq q p)
is_in-grown p q results =
    unfold is_in in ground (arith, is_in-append p results (q ∷ []), bytes_eq_trans q p results)

is_in-add_found :
    (p dir : Bytes) (fs results : List Bytes)
    → is_in p (add_found dir fs results) ≡ (is_in p results || one_of p dir fs)
unfolding add_found
is_in-add_found p dir [] results = ground arith
is_in-add_found p dir (f ∷ fs) results = ground (
  arith,
  is_in-add_found p dir fs (grown (full dir f) results),
  is_in-grown p (full dir f) results,
)

is_in-find_in :
    (sys : System) (pattern p : Bytes) (dirs results : List Bytes)
    → is_in p (find_in sys pattern dirs results) ≡ (is_in p results || offered sys pattern p dirs)
unfolding find_in
is_in-find_in sys pattern p [] results = ground arith
is_in-find_in sys pattern p (dir ∷ dirs) results = ground (
  arith,
  is_in-find_in sys pattern p dirs (add_found dir (scan_dir sys dir pattern) results),
  is_in-add_found p dir (scan_dir sys dir pattern) results,
  one_of-scan_dir sys pattern p dir,
)

is_distinct-snoc :
    (xs : List Bytes) (q : Bytes)
    → is_in q xs ≡ false
    → is_distinct xs ≡ true
    → is_distinct (xs ++ q ∷ []) ≡ true
unfolding is_in
is_distinct-snoc [] q h k = refl
is_distinct-snoc (x ∷ xs) q h k =
    ground (arith, is_distinct-snoc xs q, is_in-append x xs (q ∷ []), bytes_eq_sym x q)

is_distinct-grown :
    (q : Bytes) (results : List Bytes)
    → is_distinct results ≡ true
    → is_distinct (grown q results) ≡ true
is_distinct-grown q results h = ground (arith, is_distinct-snoc results q)

is_distinct-add_found :
    (dir : Bytes) (fs results : List Bytes)
    → is_distinct results ≡ true
    → is_distinct (add_found dir fs results) ≡ true
unfolding add_found
is_distinct-add_found dir [] results h = h
is_distinct-add_found dir (f ∷ fs) results h =
    is_distinct-add_found dir fs (grown (full dir f) results)
      (is_distinct-grown (full dir f) results h)

is_distinct-find_in :
    (sys : System) (pattern : Bytes) (dirs results : List Bytes)
    → is_distinct results ≡ true
    → is_distinct (find_in sys pattern dirs results) ≡ true
unfolding find_in
is_distinct-find_in sys pattern [] results h = h
is_distinct-find_in sys pattern (dir ∷ dirs) results h =
    is_distinct-find_in sys pattern dirs (add_found dir (scan_dir sys dir pattern) results)
      (is_distinct-add_found dir (scan_dir sys dir pattern) results h)

-- `find` lists exactly the paths of the scripts in the search directories whose name matches, each once: a name
-- of at least five characters that ends in `.bas`, in any case, in which the pattern is found; the empty pattern,
-- or one that is no regular expression, takes every script. Directories that do not open have none. Scripts of
-- one name in two directories are two paths, and both are listed.
pub find-offered :
    (sys : System) (f : Finder) (pattern p : Bytes)
    → (is_in p (find sys f pattern) ≡ offered sys pattern p (search_dirs f))
      × (is_distinct (find sys f pattern) ≡ true)
unfolding find
find-offered sys f pattern p = (
  unfold is_in in is_in-find_in sys pattern p (search_dirs f) [],
  is_distinct-find_in sys pattern (search_dirs f) [] refl,
)
