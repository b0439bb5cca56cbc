-- ===== src/Basic/Blocks/Branches.antt =====
-- The branches of a block `IF`, with blocks and one-line `IF`s nested in it.
use ax25toolkit.Base.{
  ℕ, suc, ◌-◌, ◌≡◌, refl, ap, ◌∙◌, arith, Bool, true, false, ◌||◌, [], ◌∷◌, ◌++◌, append_assoc,
  Bytes, All, ◌==◌, Option, none, some,
}
use ax25toolkit.Base.Text.{codes}
use ax25toolkit.Basic.{Floats, Interp, logged, emit}
use ax25toolkit.Basic.Lexer.{holds}
use ax25toolkit.Basic.Scan.{skip_kw}
use ax25toolkit.Basic.Blocks.{
  Lines, line_at, scan_block, is_kw, scan_end_if, is_end_if, find_end_if_line, find_next_if_branch,
  lines_behind, opens_block, branch_of, Branch, end_if, at_depth_one, scan_branch,
}

abbrev pub is_if : Bytes → Bool
is_if src = is_kw (codes "IF") src

-- An `IF` that opens a block.
abbrev pub opens_if : Bytes → Bool
opens_if src = opens_block (skip_kw (codes "IF") src)

-- At the top of a block no line is a branch of it.
abbrev pub Quiet : Bool → Bytes → Type 0
Quiet true src = branch_of src ≡ none
Quiet false src = Unit

-- The lines of one branch; `top` is false in a block that is nested in it.
pub data IfBody : Bool → Lines → Type 0 where
  done : (top : Bool) → IfBody top []
  plain :
      (top : Bool) (line : ℕ) (src : Bytes) {ls : Lines}
      → is_if src ≡ false
      → is_end_if src ≡ false
      → Quiet top src
      → IfBody top ls
      → IfBody top ((line, src) ∷ ls)
  one_line :
      (top : Bool) (line : ℕ) (src : Bytes) {ls : Lines}
      → is_if src ≡ true
      → opens_if src ≡ false
      → IfBody top ls
      → IfBody top ((line, src) ∷ ls)
  block :
      (top : Bool) (line : ℕ) (src : Bytes) {body ls rest : Lines} (line' : ℕ) (src' : Bytes)
      → is_if src ≡ true
      → opens_if src ≡ true
      → IfBody false body
      → is_if src' ≡ false
      → is_end_if src' ≡ true
      → IfBody top ls
      → rest ≡ body ++ (line', src') ∷ ls
      → IfBody top ((line, src) ∷ rest)

step_plain :
    (depth line : ℕ) (src : Bytes) (ls : Lines)
    → is_if src ≡ false
    → is_end_if src ≡ false
    → at_depth_one depth (branch_of src) ≡ none
    → scan_branch depth ((line, src) ∷ ls) ≡ scan_branch depth ls
unfolding scan_branch
step_plain depth line src ls h k q = rw (h, q, k) refl

step_one_line :
    (depth line : ℕ) (src : Bytes) (ls : Lines)
    → is_if src ≡ true
    → opens_if src ≡ false
    → scan_branch depth ((line, src) ∷ ls) ≡ scan_branch depth ls
unfolding scan_branch
step_one_line depth line src ls h k = rw (h, k) refl

step_open :
    (depth line : ℕ) (src : Bytes) (ls : Lines)
    → is_if src ≡ true
    → opens_if src ≡ true
    → scan_branch depth ((line, src) ∷ ls) ≡ scan_branch (suc depth) ls
unfolding scan_branch
step_open depth line src ls h k = rw (h, k) refl

quiet_depth : (depth : ℕ) (src : Bytes) → at_depth_one (suc (suc depth)) (branch_of src) ≡ none
quiet_depth depth src = ground arith

step_close :
    (depth line : ℕ) (src : Bytes) (ls : Lines)
    → is_if src ≡ false
    → is_end_if src ≡ true
    → scan_branch (suc (suc depth)) ((line, src) ∷ ls) ≡ scan_branch (suc depth) ls
unfolding scan_branch
step_close depth line src ls h k =
    let two : (suc (suc depth) == 1) ≡ false = ground arith in
    let one_less : suc (suc depth) - 1 ≡ suc depth = omega arith in
    rw (h, quiet_depth depth src, k, two, one_less) refl

-- A block inside a branch leaves the depth as it was.
scan_branch-inner :
    (depth : ℕ) (body rest : Lines)
    → IfBody false body
    → scan_branch (suc (suc depth)) (body ++ rest) ≡ scan_branch (suc (suc depth)) rest
scan_branch-inner depth body rest (done top) = refl
scan_branch-inner depth body rest (plain top line src {ls = l0} h k q b) =
    step_plain (suc (suc depth)) line src (l0 ++ rest) h k (quiet_depth depth src)
    ∙ scan_branch-inner depth l0 rest b
scan_branch-inner depth body rest (one_line top line src {ls = l0} h k b) =
    step_one_line (suc (suc depth)) line src (l0 ++ rest) h k ∙ scan_branch-inner depth l0 rest b
scan_branch-inner depth body rest
      (block top line src {body = b0} {ls = l0} {rest = tail} line' src' h k b h' k' c e) =
    step_open (suc (suc depth)) line src (tail ++ rest) h k
    ∙ (ap (λ (x : Lines). scan_branch (suc (suc (suc depth))) (x ++ rest)) e
        ∙ (ap (λ (x : Lines). scan_branch (suc (suc (suc depth))) x)
              (append_assoc b0 ((line', src') ∷ l0) rest)
            ∙ (scan_branch-inner (suc depth) b0 ((line', src') ∷ (l0 ++ rest)) b
                ∙ (step_close (suc depth) line' src' (l0 ++ rest) h' k'
                    ∙ scan_branch-inner depth l0 rest c))))

scan_branch-outer :
    (body rest : Lines) → IfBody true body → scan_branch 1 (body ++ rest) ≡ scan_branch 1 rest
scan_branch-outer body rest (done top) = refl
scan_branch-outer body rest (plain top line src {ls = l0} h k q b) =
    step_plain 1 line src (l0 ++ rest) h k q ∙ scan_branch-outer l0 rest b
scan_branch-outer body rest (one_line top line src {ls = l0} h k b) =
    step_one_line 1 line src (l0 ++ rest) h k ∙ scan_branch-outer l0 rest b
scan_branch-outer body rest
      (block top line src {body = b0} {ls = l0} {rest = tail} line' src' h k b h' k' c e) =
    step_open 1 line src (tail ++ rest) h k
    ∙ (ap (λ (x : Lines). scan_branch 2 (x ++ rest)) e
        ∙ (ap (λ (x : Lines). scan_branch 2 x) (append_assoc b0 ((line', src') ∷ l0) rest)
            ∙ (scan_branch-inner 0 b0 ((line', src') ∷ (l0 ++ rest)) b
                ∙ (step_close 0 line' src' (l0 ++ rest) h' k' ∙ scan_branch-outer l0 rest c))))

-- What the search should find at a line: a branch, or else the line behind `END IF`.
abbrev pub target : Option Branch → ℕ → Lines → Branch × ℕ
target none line rest = (end_if, line_at rest)
target (some b) line rest = (b, line)

target-stops :
    (line : ℕ) (src : Bytes) (rest : Lines)
    → is_if src ≡ false
    → (holds (branch_of src) || is_end_if src) ≡ true
    → scan_branch 1 ((line, src) ∷ rest) ≡ some (target (branch_of src) line rest)
unfolding scan_branch
target-stops line src rest h k = rw h (ground (arith, h, k))

-- From an IF, ELSEIF or ELSE line the interpreter goes on to the next branch of its own block: the
-- lines between, one-line IFs and whole IF blocks with their own ELSEs among them, are passed over, and
-- the search stops at the first line of this block that is a branch, or behind its END IF.
pub find_next_if_branch-IfBody :
    {F : Floats} (from_line : ℕ) (s : Interp F) (line : ℕ) (src : Bytes) (body rest : Lines)
    → lines_behind from_line s ≡ body ++ (line, src) ∷ rest
    → IfBody true body
    → is_if src ≡ false
    → (holds (branch_of src) || is_end_if src) ≡ true
    → find_next_if_branch from_line s ≡ target (branch_of src) line rest
unfolding find_next_if_branch
find_next_if_branch-IfBody from_line s line src body rest e b h k =
    rw (e, scan_branch-outer body ((line, src) ∷ rest) b, target-stops line src rest h k) refl

no_end :
    (depth : ℕ) (ls : Lines)
    → All (λ (l : ℕ × Bytes). is_end_if l.1 ≡ false) ls
    → scan_block (is_kw (codes "IF")) is_end_if depth ls ≡ none
unfolding scan_block
no_end depth [] h = refl
no_end depth ((line, src) ∷ ls) (h, hs) =
    ground (arith, h, no_end depth ls hs, no_end (suc depth) ls hs)

-- A one-line IF in the branch that is skipped makes the search for END IF run past it: if the line
-- behind is an IF with a statement after THEN, the next one ends the block, and no later line is an END
-- IF, `find_end_if_line` reports that END IF is missing and returns 0, where `find_next_if_branch` finds
-- the line behind END IF.
pub find_end_if_line-one_line :
    {F : Floats} (from_line : ℕ) (s : Interp F) (l1 l2 : ℕ) (s1 s2 : Bytes) (rest : Lines)
    → lines_behind from_line s ≡ (l1, s1) ∷ (l2, s2) ∷ rest
    → is_if s1 ≡ true
    → opens_if s1 ≡ false
    → is_if s2 ≡ false
    → is_end_if s2 ≡ true
    → branch_of s2 ≡ none
    → All (λ (l : ℕ × Bytes). is_end_if l.1 ≡ false) rest
    → (find_end_if_line from_line s ≡ (emit (logged (codes "IF without END IF")) s, 0))
      × (find_next_if_branch from_line s ≡ (end_if, line_at rest))
find_end_if_line-one_line from_line s l1 l2 s1 s2 rest e h1 k1 h2 k2 q a = (
  unfold find_end_if_line scan_end_if in rw (e, counted) refl,
  find_next_if_branch-IfBody from_line s l2 s2 ((l1, s1) ∷ []) rest e
        (one_line true l1 s1 h1 k1 (done true)) h2 (rw k2 (ground arith))
      ∙ rw q refl,
)
  where
    counted : scan_block (is_kw (codes "IF")) is_end_if 1 ((l1, s1) ∷ (l2, s2) ∷ rest) ≡ none
    counted = unfold scan_block in rw (h1, h2, k2) (no_end 1 rest a)
