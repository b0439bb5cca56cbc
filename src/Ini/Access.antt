-- ===== src/Ini/Access.antt =====
-- What `get` finds in the data behind an assignment.
use ax25toolkit.Base.{
  ◌≡◌, refl, sym, ◌≢◌, ◌∙◌, ap, false, ◌&&◌, Bytes, Bool-cases, Option, none, some, inl, inr,
  if◌then◌else◌, arith,
}
use ax25toolkit.Base.Text.{bytes_eq, bytes_eq_iff, bytes_lt}
use ax25toolkit.Base.Dict.{lookup, insert}
use ax25toolkit.Base.Dict.Order.{lookup-insert_same, lookup-insert_other}
use ax25toolkit.Base.Dict.Texts.{bytes_lt-IsOrder}
use ax25toolkit.Ini.{Entries, Data, entries_of, store, get, or_default}

bytes_eq-false : (xs ys : Bytes) → bytes_eq xs ys ≡ false → xs ≢ ys
bytes_eq-false xs ys h e = ground (arith, (bytes_eq_iff xs ys).1 e)

-- The entries of a section, looked up in.
found : Option Entries → Bytes → Bytes → Bytes
found o key def = elim o [ none ↦ def | some es ↦ or_default (lookup bytes_lt key es) def ]

found_entries :
    (o : Option Entries) (key def : Bytes)
    → or_default (lookup bytes_lt key (entries_of o)) def ≡ found o key def
unfolding found lookup
found_entries none key def = refl
found_entries (some es) key def = refl

get-found :
    (d : Data) (sec key def : Bytes) → get d sec key def ≡ found (lookup bytes_lt sec d) key def
unfolding get found
get-found d sec key def = refl

same_section :
    (d : Data) (sec key val k def : Bytes)
    → get (store sec key val d) sec k def
      ≡ or_default
          (lookup bytes_lt k (insert bytes_lt key val (entries_of (lookup bytes_lt sec d))))
          def
unfolding store found
same_section d sec key val k def =
    get-found _ sec k def
    ∙ ap (λ o. found o k def) (lookup-insert_same bytes_lt bytes_lt-IsOrder sec _ d)

other_section :
    (d : Data) (sec key val s k def : Bytes)
    → s ≢ sec
    → get (store sec key val d) s k def ≡ get d s k def
unfolding store
other_section d sec key val s k def h =
    get-found _ s k def
    ∙ ap (λ o. found o k def) (lookup-insert_other bytes_lt bytes_lt-IsOrder s sec _ d h)
    ∙ sym (get-found d s k def)

other_key :
    (d : Data) (sec key val k def : Bytes)
    → k ≢ key
    → get (store sec key val d) sec k def ≡ get d sec k def
other_key d sec key val k def h =
    same_section d sec key val k def
    ∙ ap (λ o. or_default o def) (lookup-insert_other bytes_lt bytes_lt-IsOrder k key val _ h)
    ∙ found_entries (lookup bytes_lt sec d) k def
    ∙ sym (get-found d sec k def)

-- Behind an assignment, `get` gives the value assigned for its section and key, and for every other section or
-- key what it gave before, the default included.
pub get-store :
    (d : Data) (sec key val s k def : Bytes)
    → get (store sec key val d) s k def
      ≡ (if bytes_eq s sec && bytes_eq k key then val else get d s k def)
get-store d sec key val s k def = elim (Bool-cases (bytes_eq s sec)) [
  | inl e ↦
      rw (e, (bytes_eq_iff s sec).0 e)
        (elim (Bool-cases (bytes_eq k key)) [
          | inl e' ↦
              rw (e', (bytes_eq_iff k key).0 e')
                (same_section d sec key val key def
                  ∙ ap (λ o. or_default o def)
                      (lookup-insert_same bytes_lt bytes_lt-IsOrder key val _))
          | inr e' ↦ rw e' (other_key d sec key val k def (bytes_eq-false k key e'))
        ])
  | inr e ↦ rw e (other_section d sec key val s k def (bytes_eq-false s sec e))
]
