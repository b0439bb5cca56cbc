-- ===== src/Basic/Blocks/Nesting.antt =====
-- Blocks as they are nested, against the scans that count their depth.
use ax25toolkit.Base.{
  ℕ, suc, ◌≡◌, refl, ap, ◌∙◌, arith, Bool, true, false, [], ◌∷◌, ◌++◌, append_assoc, Bytes, some,
}
use ax25toolkit.Base.Text.{codes}
use ax25toolkit.Basic.{Floats, Interp}
use ax25toolkit.Basic.Scan.{ends}
use ax25toolkit.Basic.Blocks.{
  Lines, line_at, scan_block, is_kw, scan_wend, scan_loop, scan_end_if, scan_end_select, is_end_if,
  find_wend_line, find_loop_line, find_end_select_line, find_end_if_line, lines_behind,
}

-- Lines in which each line that opens a block has its own line that closes it.
pub data Nested (opens closes : Bytes → Bool) : Lines → Type 0 where
  done : Nested opens closes []
  plain :
      (line : ℕ) (src : Bytes) {ls : Lines}
      → opens src ≡ false
      → closes src ≡ false
      → Nested opens closes ls
      → Nested opens closes ((line, src) ∷ ls)
  block :
      (line : ℕ) (src : Bytes) {body ls rest : Lines} (line' : ℕ) (src' : Bytes)
      → opens src ≡ true
      → Nested opens closes body
      → opens src' ≡ false
      → closes src' ≡ true
      → Nested opens closes ls
      → rest ≡ body ++ (line', src') ∷ ls
      → Nested opens closes ((line, src) ∷ rest)

-- A closing line, with `depth + 1` blocks open.
closing :
    (opens closes : Bytes → Bool) (depth line : ℕ) (src : Bytes) (ls : Lines)
    → opens src ≡ false
    → closes src ≡ true
    → scan_block opens closes (suc (suc depth)) ((line, src) ∷ ls)
      ≡ scan_block opens closes (suc depth) ls
unfolding scan_block
closing opens closes depth line src ls h k = ground (arith, h, k)

scan_block-Nested :
    (opens closes : Bytes → Bool) (depth : ℕ) (body rest : Lines)
    → Nested opens closes body
    → scan_block opens closes (suc depth) (body ++ rest) ≡ scan_block opens closes (suc depth) rest
unfolding scan_block
scan_block-Nested opens closes depth body rest done = refl
scan_block-Nested opens closes depth body rest (plain line src h k n) =
    rw (h, k) (scan_block-Nested opens closes depth _ rest n)
scan_block-Nested opens closes depth body rest
      (block line src {body = b} {ls = l0} {rest = tail} line' src' h n k l m e) =
    rw h (
      ap (λ (x : Lines). scan_block opens closes (suc (suc depth)) (x ++ rest)) e
      ∙ (ap (λ (x : Lines). scan_block opens closes (suc (suc depth)) x)
            (append_assoc b ((line', src') ∷ l0) rest)
          ∙ (scan_block-Nested opens closes (suc depth) b ((line', src') ∷ (l0 ++ rest)) n
              ∙ (closing opens closes depth line' src' (l0 ++ rest) k l
                  ∙ scan_block-Nested opens closes depth l0 rest m))))

-- The scan finds the line that closes the block around nested lines.
pub scan_block-closes :
    (opens closes : Bytes → Bool) (line : ℕ) (src : Bytes) (body rest : Lines)
    → Nested opens closes body
    → opens src ≡ false
    → closes src ≡ true
    → scan_block opens closes 1 (body ++ (line, src) ∷ rest) ≡ some ((line, src) ∷ rest)
scan_block-closes opens closes line src body rest n h k =
    scan_block-Nested opens closes 0 body ((line, src) ∷ rest) n ∙ stop
  where
    stop : scan_block opens closes 1 ((line, src) ∷ rest) ≡ some ((line, src) ∷ rest)
    stop = unfold scan_block in rw (h, k) refl

-- The blocks whose end is found by counting.
pub data Kind : Type 0 where
  while_block do_block if_block select_block : Kind

abbrev pub opens_kind : Kind → Bytes → Bool
opens_kind while_block = is_kw (codes "WHILE")
opens_kind do_block = is_kw (codes "DO")
opens_kind if_block = is_kw (codes "IF")
opens_kind select_block = is_kw (codes "SELECT")

abbrev pub closes_kind : Kind → Bytes → Bool
closes_kind while_block = is_kw (codes "WEND")
closes_kind do_block = is_kw (codes "LOOP")
closes_kind if_block = is_end_if
closes_kind select_block = ends (codes "SELECT")

abbrev pub find_end : {F : Floats} → Kind → ℕ → Interp F → Interp F × ℕ
find_end while_block from_line s = find_wend_line from_line s
find_end do_block from_line s = find_loop_line from_line s
find_end if_block from_line s = find_end_if_line from_line s
find_end select_block from_line s = (s, find_end_select_line from_line s)

-- The line that each finds: `LOOP` itself, and the line after the other ends.
abbrev pub end_of : Kind → ℕ → Lines → ℕ
end_of do_block line rest = line
end_of _ line rest = line_at rest

-- A block is left at its own end, however deep blocks of its kind are nested in it: if the lines behind
-- its head are nested properly up to a line that closes the block, the search ends there, at `LOOP`
-- itself and else at the line after it, and logs nothing. Every line that starts with `IF` counts as a
-- head here.
pub find_end-Nested :
    {F : Floats} (kind : Kind) (from_line : ℕ) (s : Interp F) (line : ℕ) (src : Bytes)
    (body rest : Lines)
    → lines_behind from_line s ≡ body ++ (line, src) ∷ rest
    → Nested (opens_kind kind) (closes_kind kind) body
    → opens_kind kind src ≡ false
    → closes_kind kind src ≡ true
    → find_end kind from_line s ≡ (s, end_of kind line rest)
unfolding find_wend_line find_loop_line find_end_if_line find_end_select_line scan_wend scan_loop
    scan_end_if scan_end_select
find_end-Nested while_block from_line s line src body rest e n h k =
    rw
      (
        e,
        scan_block-closes (opens_kind while_block) (closes_kind while_block) line src body rest n h
            k,
      )
      refl
find_end-Nested do_block from_line s line src body rest e n h k =
    rw (e, scan_block-closes (opens_kind do_block) (closes_kind do_block) line src body rest n h k)
      refl
find_end-Nested if_block from_line s line src body rest e n h k =
    rw (e, scan_block-closes (opens_kind if_block) (closes_kind if_block) line src body rest n h k)
      refl
find_end-Nested select_block from_line s line src body rest e n h k =
    rw
      (
        e,
        scan_block-closes (opens_kind select_block) (closes_kind select_block) line src body rest n
            h k,
      )
      refl
