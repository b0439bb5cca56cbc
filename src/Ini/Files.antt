-- ===== src/Ini/Files.antt =====
-- A file of lines that have a meaning, loaded, and what `get` then finds.
use ax25toolkit.Base.{
  ◌≡◌, refl, sym, ◌≢◌, ◌∙◌, ap, not, ◌&&◌, List, [], ◌∷◌, map, Bytes, All, some, if◌then◌else◌,
  is_empty, Bool-cases, inl, inr,
}
use ax25toolkit.Base.Text.{bytes_eq}
use ax25toolkit.Base.Text.Fields.{joined, fields-joined}
use ax25toolkit.Ini.{Data, Loading, load, load_lines, get}
use ax25toolkit.Ini.Lines.{Item, nothing, section, entry, Means, take_in, load_line-Means}
use ax25toolkit.Ini.Access.{get-store}

pub record Line : Type 0 where
  pub text : Bytes
  pub item : Item
  pub means : Means text item
  pub one_line : All (λ c. c ≢ 10) text

-- The file with a newline behind every line.
abbrev pub file_of : List Line → Bytes
file_of ls = joined 10 (map (λ (l : Line). l.text) ls)

-- The value that the last assignment to `key` under `sec` gives, `def` without one; `current` is the section
-- that the first item is in.
abbrev pub last_value : Bytes → List Line → Bytes → Bytes → Bytes → Bytes
last_value current [] sec key def = def
last_value current (l ∷ ls) sec key def = elim l.item [
  | nothing ↦ last_value current ls sec key def
  | section name ↦ last_value name ls sec key def
  | entry k v ↦
      last_value current ls sec key
        (if not (is_empty current) && (bytes_eq sec current && bytes_eq key k) then v else def)
]

one_lines : (ls : List Line) → All (All (λ c. c ≢ 10)) (map (λ (l : Line). l.text) ls)
one_lines [] = tt
one_lines (l ∷ ls) = (l.one_line, one_lines ls)

-- One item, and what `get` finds behind it.
module _ (sec key def : Bytes) where
  get-take_in :
      (i : Item) (ls : List Line) (l : Loading)
      → elim i as (λ x. Bytes) [
        | nothing ↦ last_value l.section ls sec key (get l.data_ sec key def)
        | section name ↦ last_value name ls sec key (get l.data_ sec key def)
        | entry k v ↦ last_value l.section ls sec key (
            if not (is_empty l.section) && (bytes_eq sec l.section && bytes_eq key k)
            then v
            else get l.data_ sec key def)
      ]
        ≡ last_value (take_in i l).section ls sec key (get (take_in i l).data_ sec key def)
  unfolding take_in
  get-take_in nothing ls l = refl
  get-take_in (section name) ls l = refl
  get-take_in (entry k v) ls l = elim (Bool-cases (is_empty l.section)) [
    | inl e ↦ rw e refl
    | inr e ↦ rw (e, get-store l.data_ l.section k v sec key def) refl
  ]

  get-load_lines :
      (ls : List Line) (l : Loading)
      → get (load_lines (map (λ (l : Line). l.text) ls) l).data_ sec key def
        ≡ last_value l.section ls sec key (get l.data_ sec key def)
  unfolding load_lines
  get-load_lines [] l = refl
  get-load_lines (t ∷ ts) l =
      ap (λ m. get (load_lines (map (λ (l : Line). l.text) ts) m).data_ sec key def)
        (load_line-Means t.text t.item l t.means)
      ∙ get-load_lines ts (take_in t.item l)
      ∙ sym (get-take_in t.item ts l)

-- A configuration file is read as its lines mean: behind loading, `get` gives the value of the last assignment to
-- the key under a header of the section, and what it gave before where there is none. Each line is
-- blank, a header `[section]` or an assignment `key = value`, with any white space around each part and any
-- comment behind it, and ends in a newline; an assignment before the first header, or under an empty one,
-- counts for nothing.
pub get-load :
    (ls : List Line) (d : Data) (sec key def : Bytes)
    → get (load (some (file_of ls)) d).1 sec key def ≡ last_value [] ls sec key (get d sec key def)
unfolding load
get-load ls d sec key def =
    rw (fields-joined 10 (map (λ (l : Line). l.text) ls) (one_lines ls))
      (get-load_lines sec key def ls (record { section = []; data_ = d }))
