-- ===== src/Base/Text/Fields.antt =====
-- A text cut at its separators: `find`, and `std::getline` in a loop: the pieces of a text between separators. A last piece that is empty is none.
use ax25toolkit.Base.{
  ℕ, ◌≡◌, refl, sym, ap, ◌≢◌, false, List, [], ◌∷◌, ◌++◌, append-nil, append_assoc, Bytes, ◌==◌,
  if◌then◌else◌, is_empty, All, arith, some,
}
use ax25toolkit.Base.Text.{break_at}

-- `current` is what has been read of the piece under the cursor.
unfoldable pub fields : ℕ → Bytes → Bytes → List Bytes
fields sep current [] = if is_empty current then [] else current ∷ []
fields sep current (c ∷ cs) =
    let next = fields sep [] cs in
    let longer = fields sep (current ++ c ∷ []) cs in if c == sep then current ∷ next else longer

-- `find` stops at the first separator.
pub break_at_sep :
    (sep : ℕ) (cs rest : Bytes)
    → All (λ c. c ≢ sep) cs
    → break_at sep (cs ++ (sep ∷ rest)) ≡ (cs, some rest)
unfolding break_at
break_at_sep sep [] rest h = ground arith
break_at_sep sep (c ∷ cs) rest h = ground (arith, break_at_sep sep cs rest h.1)

module _ (sep : ℕ) where
  pub fields_piece :
      (current cs rest : Bytes)
      → All (λ c. c ≢ sep) cs
      → fields sep current (cs ++ (sep ∷ rest)) ≡ (current ++ cs) ∷ fields sep [] rest
  unfolding fields
  fields_piece current [] rest h = ground (arith, append-nil current)
  fields_piece current (c ∷ cs) rest h =
      ground (arith, fields_piece (current ++ c ∷ []) cs rest h.1, append_assoc current (c ∷ []) cs)

  -- Every piece followed by the separator.
  abbrev pub joined : List Bytes → Bytes
  joined [] = []
  joined (x ∷ xs) = x ++ (sep ∷ joined xs)

  pub fields-joined :
      (xs : List Bytes) → All (All (λ c. c ≢ sep)) xs → fields sep [] (joined xs) ≡ xs
  unfolding fields
  fields-joined [] h = refl
  fields-joined (x ∷ xs) h = rw (fields_piece [] x (joined xs) h.0, fields-joined xs h.1) refl

  fields_open :
      (x : ℕ) (current cs : Bytes)
      → All (λ c. c ≢ sep) cs
      → fields sep (x ∷ current) cs ≡ (x ∷ (current ++ cs)) ∷ []
  unfolding fields
  fields_open x current [] h = ap (λ l. (x ∷ l) ∷ []) (sym (append-nil current))
  fields_open x current (c ∷ cs) h =
      ground (arith, fields_open x (current ++ c ∷ []) cs h.1, append_assoc current (c ∷ []) cs)

  -- The last piece needs no separator behind it, unless it is empty.
  pub fields_last :
      (cs : Bytes) → All (λ c. c ≢ sep) cs → is_empty cs ≡ false → fields sep [] cs ≡ cs ∷ []
  unfolding fields
  fields_last [] h e = absurd (ground arith)
  fields_last (c ∷ cs) h e = ground (arith, fields_open c [] cs h.1)
