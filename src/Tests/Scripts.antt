-- ===== src/Tests/Scripts.antt =====
-- The theorems on the BASIC interpreter at small programs, with natural numbers for `double`.
use ax25toolkit.Base.{
  inl, inr, arith, All, ◌^◌, ◌<◌, ℕ, ◌+◌, ◌-◌, ◌*◌, ◌/◌, ◌≡◌, refl, true, false, List, [], ◌∷◌,
  ◌++◌, Bytes, ltb, ◌==◌, Bool, Option, none, some,
}
use ax25toolkit.Base.Int.{ℤ, pos, negsuc}
use ax25toolkit.Base.Text.{to_string, to_lower, is_alnum, is_digit, bytes_lt, bytes_eq, codes}
use ax25toolkit.Base.Dict.{behind, lookup}
use ax25toolkit.Basic.{Floats, num, Interp, ProcDef, logged, emit, new}
use ax25toolkit.Basic.Lexer.{num_lit, next_tok, span, skip_ws, eat_kw, behind_kw, ci_eq, peek_kw}
use ax25toolkit.Basic.Lexer.Tokens.{number, signed, next_tok-Written}
use ax25toolkit.Basic.Load.{digits_value, lines_of, skip_spaces, trim_newlines}
use ax25toolkit.Basic.Load.Labels.{Loaded, NumbersFit, load_string-Loaded}
use ax25toolkit.Basic.Scan.{load_string, ends}
use ax25toolkit.Basic.Blocks.{find_end_if_line, find_next_if_branch, opens_block, branch_of, end_if}
use ax25toolkit.Basic.Blocks.Nesting.{done, block, while_block, find_end, find_end-Nested}
use ax25toolkit.Basic.Blocks.Branches.{IfBody, find_end_if_line-one_line}
use ax25toolkit.Basic.Eval.Builtins.{Host, named}
use ax25toolkit.Basic.Eval.Primary.{Call, eval_expr, eval_func}
use ax25toolkit.Basic.Eval.Primary.Endless.{eval_func_stuck}
use ax25toolkit.Basic.Control.{advance, to, cmd_block_if_cond, push_if}
use ax25toolkit.Basic.Control.Stacks.{
  cmd_block_if_cond-IfBody, rounds_of, bare_do, behind_do, rounds_of-replicate,
}
use ax25toolkit.Basic.Statements.Exec.{exec_stmt}
use ax25toolkit.Basic.Statements.ElseIf.{exec_stmt-else_if}
use ax25toolkit.Basic.Statements.Program.{world, run_program}
use ax25toolkit.Basic.Control.{take_branch}
use ax25toolkit.Basic.{Event, sent}
use ax25toolkit.Basic.Control.Calls.{ExecLine}
use ax25toolkit.Basic.Control.Calls.Frames.{LeavesFrames}

abbrev to_nat : ℤ → ℕ
to_nat (pos n) = n
to_nat (negsuc n) = 0

abbrev pub naturals : Floats
naturals = record {
  Num = ℕ;
  of_int = to_nat;
  stod = λ s. some (digits_value 0 s);
  whole = λ n. some (pos n);
  show = to_string;
  to_int = pos;
  neg = λ n. 0;
  add = λ a b. a + b;
  sub = λ a b. a - b;
  mul = λ a b. a * b;
  div = λ a b. a / b;
  is_lt = ltb;
  is_eq = ◌==◌;
}

abbrev loaded : List (ℕ × Bytes) → Interp naturals
loaded program = record (new naturals) { program = program }

next_tok-Written_example :
    next_tok ((codes "1.5" ++ codes "e-3") ++ b' ' ∷ codes "+ X")
    ≡ (num_lit (codes "1.5e-3"), b' ' ∷ codes "+ X")
next_tok-Written_example = next_tok-Written _ _ (codes "+ X") (
    number b'1' (codes ".5") (codes "e-3") (omega arith) (inr refl, (inl (omega arith), tt))
      (signed b'e' b'-' (codes "3") (inl refl) (inr refl) (omega arith, tt)))

abbrev loops : List (ℕ × Bytes)
loops =
    (10, codes "WHILE A")
    ∷ (20, codes "while B")
    ∷ (30, codes "WEND")
    ∷ (40, codes "  WEND")
    ∷ (50, codes "END")
    ∷ []

find_end-Nested_example : find_end while_block 10 (loaded loops) ≡ (loaded loops, 50)
unfolding new behind peek_kw eat_kw skip_ws behind_kw ci_eq to_lower is_alnum
find_end-Nested_example =
    find_end-Nested while_block 10 (loaded loops) 40 (codes "  WEND")
      ((20, codes "while B") ∷ (30, codes "WEND") ∷ []) ((50, codes "END") ∷ []) refl
      (block 20 (codes "while B") 30 (codes "WEND") refl done refl refl done refl) refl refl

abbrev choices : List (ℕ × Bytes)
choices =
    (10, codes "IF A THEN")
    ∷ (20, codes "IF B THEN C = 1")
    ∷ (30, codes "IF C THEN")
    ∷ (40, codes "ELSE")
    ∷ (50, codes "END IF")
    ∷ (60, codes "ELSE")
    ∷ (70, codes "END IF")
    ∷ []

cmd_block_if_cond-IfBody_example :
    cmd_block_if_cond false 10 (record { lx = []; state = loaded choices })
    ≡ some (to 60, record { lx = []; state = push_if false 10 (loaded choices) })
unfolding new behind peek_kw eat_kw skip_ws behind_kw ci_eq to_lower opens_block branch_of ends
cmd_block_if_cond-IfBody_example =
    cmd_block_if_cond-IfBody 10 (record { lx = []; state = loaded choices }) 60 (codes "ELSE")
      ((20, codes "IF B THEN C = 1")
        ∷ (30, codes "IF C THEN")
        ∷ (40, codes "ELSE")
        ∷ (50, codes "END IF")
        ∷ [])
      ((70, codes "END IF") ∷ []) refl
      (IfBody.one_line true 20 (codes "IF B THEN C = 1") refl refl (
        IfBody.block true 30 (codes "IF C THEN") 50 (codes "END IF") refl refl
          (IfBody.plain false 40 (codes "ELSE") refl refl tt (IfBody.done false)) refl refl
          (IfBody.done true) refl))
      refl refl

abbrev one_liner : List (ℕ × Bytes)
one_liner =
    (10, codes "ELSE")
    ∷ (20, codes "IF B THEN C = 1")
    ∷ (30, codes "END IF")
    ∷ (40, codes "PRINT C")
    ∷ []

find_end_if_line-one_line_example :
    (find_end_if_line 10 (loaded one_liner)
      ≡ (emit (logged (codes "IF without END IF")) (loaded one_liner), 0))
    × (find_next_if_branch 10 (loaded one_liner) ≡ (end_if, 40))
unfolding new behind peek_kw eat_kw skip_ws behind_kw ci_eq to_lower opens_block branch_of ends
find_end_if_line-one_line_example =
    find_end_if_line-one_line 10 (loaded one_liner) 20 30 (codes "IF B THEN C = 1") (codes "END IF")
      ((40, codes "PRINT C") ∷ []) refl refl refl refl refl refl (refl, tt)

abbrev labelled_text : Bytes
labelled_text = codes "start: PRINT 1\n20 GOTO start\nEND"

labelled_text-NumbersFit : NumbersFit labelled_text
unfolding digits_value lines_of span skip_spaces trim_newlines is_digit
labelled_text-NumbersFit = (omega arith, (omega arith, (omega arith, tt)))

last_number : (load_string (λ path. none) labelled_text (new naturals)).next_auto_line ≡ 22
unfolding load_string new digits_value
last_number = refl

load_string-Loaded_example :
    Loaded (load_string (λ path. none) labelled_text (new naturals))
    × All
        (λ (l : ℕ × Bytes). l.0 < 2 ^ 31)
        (load_string (λ path. none) labelled_text (new naturals)).program
load_string-Loaded_example =
    load_string-Loaded (λ path. none) labelled_text (new naturals) labelled_text-NumbersFit
      (λ path text e. absurd (ground arith)) (omega (arith, last_number))

-- A library that knows nothing.
abbrev no_host : Host naturals
no_host = record {
  floor = λ x. x;
  fabs = λ x. x;
  sqrt = λ x. 0;
  log = λ x. 0;
  exp = λ x. 0;
  sin = λ x. 0;
  cos = λ x. 0;
  tan = λ x. 0;
  regex_search = λ p t. none;
  regex_all = λ p t. none;
  regex_replace = λ first p r t. none;
}

abbrev no_call : Call naturals
no_call name args s = none

abbrev twice : ProcDef
twice = record {
  name = codes "TWICE";
  params = codes "X" ∷ [];
  start_line = 10;
  end_line = some 30;
  is_function = true;
}

abbrev with_twice : Interp naturals
with_twice =
    record (loaded (
      (10, codes "FUNCTION TWICE(X)")
      ∷ (20, codes "TWICE = X + X")
      ∷ (30, codes "END FUNCTION")
      ∷ [])) { procs = (codes "TWICE", twice) ∷ [] }

eval_func_stuck_example :
    eval_func no_host no_call
      (eval_expr no_host no_call 9)
      9
      (codes "TWICE")
      (record { lx = codes "(#1)"; state = with_twice })
    ≡ none
unfolding new named lookup bytes_lt bytes_eq
eval_func_stuck_example =
    eval_func_stuck no_host no_call with_twice b'1' (b')' ∷ []) (codes "TWICE") 9 9 refl refl

rounds_of-replicate_example :
    rounds_of (λ c. none) 10 3 (behind_do (new naturals) (bare_do 10 ∷ []))
    ≡ some (
      to 10 ∷ to 10 ∷ to 10 ∷ [],
      behind_do (new naturals) (bare_do 10 ∷ bare_do 10 ∷ bare_do 10 ∷ bare_do 10 ∷ []),
    )
rounds_of-replicate_example = rounds_of-replicate {F = naturals} (λ c. none) 10 3 (new naturals) []

-- Lines that do nothing.
abbrev idle : ExecLine naturals
idle line src s = some (advance, s)

idle-LeavesFrames : LeavesFrames idle
idle-LeavesFrames line src gs s h = h

-- Products bind tighter than sums, sums than comparisons, and those than NOT and AND.
precedence :
    eval_expr no_host no_call 4 (record {
      lx = codes "1 + 2 * (3 + 4) = LEN(\"fifteen12345678\") AND NOT X";
      state = new naturals;
    })
    ≡ some (num 1, record { lx = []; state = new naturals })
unfolding eval_expr behind_kw new digits_value
precedence = refl

exec_stmt-else_if_example :
    exec_stmt (world no_host (λ kw line. λ c. none) 3) 4 20 (record {
      lx = codes "ELSE IF 0 THEN";
      state = record (new naturals) {
        if_stack = (record { taken = false; in_true = false; if_line = 10 }) ∷ [];
      };
    })
    ≡ some (
      advance,
      record {
        lx = codes " IF 0 THEN";
        state = take_branch (record (new naturals) {
          if_stack = (record { taken = false; in_true = false; if_line = 10 }) ∷ [];
        });
      },
    )
exec_stmt-else_if_example =
    exec_stmt-else_if (world no_host (λ kw line. λ c. none) 3) 3 20 (codes " 0 THEN")
      (record (new naturals) {
        if_stack = (record { taken = false; in_true = false; if_line = 10 }) ∷ [];
      })
      (record { taken = false; in_true = false; if_line = 10 }) [] refl refl

-- The texts that were sent.
abbrev sent_texts : List Event → List Bytes
sent_texts [] = []
sent_texts (sent t ∷ es) = t ∷ sent_texts es
sent_texts (_ ∷ es) = sent_texts es

abbrev output : Option (Bool × Interp naturals) → List Bytes
output none = []
output (some (ok, s)) = sent_texts s.events

-- A program with a function and a loop.
squares :
    output (
      run_program no_host
        (λ kw line. λ c. none)
        20
        (load_string
          (λ path. none)
          (codes
            "FUNCTION SQ(X)\nSQ = X * X\nEND FUNCTION\nFOR I = 1 TO 3\nPRINT \"<\"; SQ(I); \">\"\nNEXT I\nEND\n")
          (new naturals)))
    ≡ codes "<1>\r" ∷ codes "<4>\r" ∷ codes "<9>\r" ∷ []
unfolding run_program load_string new behind_kw digits_value
squares = refl
