-- ===== src/Base/Text/Trim.antt =====
-- `find_first_not_of` and `find_last_not_of` with `substr`, as the program trims its texts: the characters
-- of a set are taken off both ends.
use ax25toolkit.Base.{
  ℕ, ◌≡◌, refl, sym, ◌∙◌, Bool, true, false, ◌&&◌, [], ◌∷◌, ◌++◌, append-nil, Bytes, if◌then◌else◌,
  is_empty, All, arith, ap,
}

unfoldable pub trim_left : (ℕ → Bool) → Bytes → Bytes
trim_left p [] = []
trim_left p (c ∷ cs) = let rest = trim_left p cs in if p c then rest else c ∷ cs

unfoldable pub trim_right : (ℕ → Bool) → Bytes → Bytes
trim_right p [] = []
trim_right p (c ∷ cs) = let rest = trim_right p cs in if p c && is_empty rest then [] else c ∷ rest

unfoldable pub trim : (ℕ → Bool) → Bytes → Bytes
unfolding trim_left trim_right
trim p cs = trim_right p (trim_left p cs)

module _ (p : ℕ → Bool) where
  abbrev pub StartsBare : Bytes → Type 0
  StartsBare [] = Unit
  StartsBare (c ∷ cs) = p c ≡ false

  abbrev pub EndsBare : Bytes → Type 0
  EndsBare [] = Unit
  EndsBare (c ∷ []) = p c ≡ false
  EndsBare (c ∷ (d ∷ cs)) = EndsBare (d ∷ cs)

  -- No character of the set at either end.
  abbrev pub IsTrim : Bytes → Type 0
  IsTrim cs = StartsBare cs × EndsBare cs

  abbrev pub Pad : Bytes → Type 0
  Pad = All (λ c. p c ≡ true)

  trim_left-Pad : (pad cs : Bytes) → Pad pad → StartsBare cs → trim_left p (pad ++ cs) ≡ cs
  unfolding trim_left
  trim_left-Pad [] [] h k = refl
  trim_left-Pad [] (c ∷ cs) h k = ground arith
  trim_left-Pad (c ∷ pad) cs h k = ground (arith, trim_left-Pad pad cs h.1 k)

  trim_left_all : (pad : Bytes) → Pad pad → trim_left p pad ≡ []
  unfolding trim_left
  trim_left_all [] h = refl
  trim_left_all (c ∷ pad) h = ground (arith, trim_left_all pad h.1)

  trim_right_all : (pad : Bytes) → Pad pad → trim_right p pad ≡ []
  unfolding trim_right
  trim_right_all [] h = refl
  trim_right_all (c ∷ pad) h = ground (arith, trim_right_all pad h.1)

  trim_right-Pad : (cs pad : Bytes) → Pad pad → EndsBare cs → trim_right p (cs ++ pad) ≡ cs
  unfolding trim_right
  trim_right-Pad [] pad h k = trim_right_all pad h
  trim_right-Pad (c ∷ []) pad h k = ground (arith, trim_right_all pad h)
  trim_right-Pad (c ∷ (d ∷ cs)) pad h k = ground (arith, trim_right-Pad (d ∷ cs) pad h k)

  Pad-append : (xs ys : Bytes) → Pad xs → Pad ys → Pad (xs ++ ys)
  Pad-append [] ys h k = k
  Pad-append (x ∷ xs) ys h k = (h.0, Pad-append xs ys h.1 k)

  -- The padding goes, and nothing else.
  pub trim_padded :
      (before cs after : Bytes)
      → Pad before
      → Pad after
      → IsTrim cs
      → trim p (before ++ (cs ++ after)) ≡ cs
  unfolding trim
  trim_padded before [] after h k t =
      rw (trim_left_all (before ++ after) (Pad-append before after h k)) (trim_right_all [] tt)
  trim_padded before (c ∷ cs) after h k t =
      rw (trim_left-Pad before ((c ∷ cs) ++ after) h t.0) (trim_right-Pad (c ∷ cs) after k t.1)

  All-EndsBare : (cs : Bytes) → All (λ c. p c ≡ false) cs → EndsBare cs
  All-EndsBare [] h = tt
  All-EndsBare (c ∷ []) h = h.0
  All-EndsBare (c ∷ (d ∷ cs)) h = All-EndsBare (d ∷ cs) h.1

  pub All-IsTrim : (cs : Bytes) → All (λ c. p c ≡ false) cs → IsTrim cs
  All-IsTrim [] h = (tt, tt)
  All-IsTrim (c ∷ cs) h = (h.0, All-EndsBare (c ∷ cs) h)

  -- A text without padding stays.
  pub trim_bare : (cs : Bytes) → IsTrim cs → trim p cs ≡ cs
  trim_bare cs t = ap (trim p) (sym (append-nil cs)) ∙ trim_padded [] cs [] tt tt t

  EndsBare-snoc : (cs : Bytes) (c : ℕ) → p c ≡ false → EndsBare (cs ++ c ∷ [])
  EndsBare-snoc [] c h = h
  EndsBare-snoc (x ∷ []) c h = h
  EndsBare-snoc (x ∷ (y ∷ cs)) c h = EndsBare-snoc (y ∷ cs) c h

  -- A text between two characters that stay.
  pub between-IsTrim :
      (x : ℕ) (cs : Bytes) (y : ℕ) → p x ≡ false → p y ≡ false → IsTrim (x ∷ (cs ++ y ∷ []))
  between-IsTrim x cs y h k = (h, EndsBare-snoc (x ∷ cs) y k)

  trim_right-append :
      (xs : Bytes) (c : ℕ) (ys : Bytes)
      → p c ≡ false
      → trim_right p (xs ++ (c ∷ ys)) ≡ xs ++ (c ∷ trim_right p ys)
  unfolding trim_right
  trim_right-append [] c ys h = ground arith
  trim_right-append (x ∷ []) c ys h = ground arith
  trim_right-append (x ∷ (y ∷ xs)) c ys h = ground (arith, trim_right-append (y ∷ xs) c ys h)

  -- Behind a character that stays, only the end is trimmed.
  pub trim-append :
      (pad : Bytes) (x : ℕ) (xs : Bytes) (c : ℕ) (ys : Bytes)
      → Pad pad
      → p x ≡ false
      → p c ≡ false
      → trim p (pad ++ ((x ∷ xs) ++ (c ∷ ys))) ≡ (x ∷ xs) ++ (c ∷ trim_right p ys)
  unfolding trim
  trim-append pad x xs c ys h k j =
      rw (trim_left-Pad pad ((x ∷ xs) ++ (c ∷ ys)) h k) (trim_right-append (x ∷ xs) c ys j)

  trim_right_idem : (cs : Bytes) → trim_right p (trim_right p cs) ≡ trim_right p cs
  unfolding trim_right
  trim_right_idem [] = refl
  trim_right_idem (c ∷ cs) = ground (arith, trim_right_idem cs)

  trim_left-trim_right :
      (cs : Bytes) → trim_left p (trim_right p cs) ≡ trim_right p (trim_left p cs)
  unfolding trim_left trim_right
  trim_left-trim_right [] = refl
  trim_left-trim_right (c ∷ cs) = ground (arith, trim_left-trim_right cs)

  -- A text whose end is trimmed may be trimmed again.
  pub trim-trim_right : (cs : Bytes) → trim p (trim_right p cs) ≡ trim p cs
  unfolding trim
  trim-trim_right cs = rw (trim_left-trim_right cs) (trim_right_idem (trim_left p cs))
