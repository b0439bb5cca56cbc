-- ===== src/Basic/Eval/Builtins.antt =====
-- The built-in functions of `eval_func` in lib/basic.cpp. The mathematics of the C library and
-- `std::regex` are parameters.
use ax25toolkit.Base.{
  ℕ, zero, suc, ◌-◌, ◌%◌, Bool, true, false, ◌&&◌, ◌||◌, List, [], ◌∷◌, ◌++◌, map, Bytes, ◌==◌,
  Option, none, some, if◌then◌else◌, is_empty, take, drop, length,
}
use ax25toolkit.Base.Int.{ℤ, pos, negsuc}
use ax25toolkit.Base.Text.{to_upper, to_lower, bytes_eq, bytes_lt, codes}
use ax25toolkit.Base.Dict.{lookup}
use ax25toolkit.Basic.{Floats, Value, num, str, zero_num, truth, to_num, to_str, Interp}
use ax25toolkit.Basic.Lexer.{behind_str, holds}
use ax25toolkit.Basic.Vars.{find, dict_of, items_of, present}

-- `floor` to `tan`, and the regular expressions: the groups of the first match, all matches, and
-- replacement of the first or of all matches. `none` is an exception.
pub record Host (F : Floats) : Type 0 where
  pub floor : F.Num → F.Num
  pub fabs : F.Num → F.Num
  pub sqrt : F.Num → F.Num
  pub log : F.Num → F.Num
  pub exp : F.Num → F.Num
  pub sin : F.Num → F.Num
  pub cos : F.Num → F.Num
  pub tan : F.Num → F.Num
  pub regex_search : Bytes → Bytes → Option (Option (List Bytes))
  pub regex_all : Bytes → Bytes → Option (List Bytes)
  pub regex_replace : Bool → Bytes → Bytes → Bytes → Option Bytes

-- A size as a number.
abbrev pub size_num : {F : Floats} → ℕ → Value F
size_num {F} n = num (F.of_int (pos n))

-- An `int`, raised to 0.
abbrev pub at_least_zero : ℤ → ℕ
at_least_zero (pos n) = n
at_least_zero (negsuc n) = 0

-- `(int)v.to_num()`
abbrev pub int_of : {F : Floats} → Value F → ℤ
int_of {F} v = F.to_int (to_num v)

abbrev pub is_space : ℕ → Bool
is_space c = c == b' ' || c == b'\t' || c == b'\r' || c == b'\n'

unfoldable pub trim_front : Bytes → Bytes
trim_front [] = []
trim_front (c ∷ cs) = let rest = trim_front cs in if is_space c then rest else c ∷ cs

unfoldable pub trim_back : Bytes → Bytes
trim_back [] = []
trim_back (c ∷ cs) = let rest = trim_back cs in if is_space c && is_empty rest then [] else c ∷ rest

-- `(char)`
abbrev pub to_char : ℤ → ℕ
to_char (pos n) = n % 256
to_char (negsuc n) = 255 - n % 256

abbrev pub first_code : Bytes → ℕ
first_code [] = 0
first_code (c ∷ cs) = c

-- `find`, counted from 1; 0 if it is not there.
unfoldable pub index_of : Bytes → Bytes → ℕ
unfolding behind_str
index_of pat [] = if is_empty pat then 1 else 0
index_of pat (c ∷ cs) =
    let later = index_of pat cs in
    if holds (behind_str pat (c ∷ cs)) then 1 else if later == 0 then 0 else suc later

-- `LEFT$`, `RIGHT$` and `MID$`
unfoldable pub left_part : Bytes → ℤ → Bytes
left_part s n = take (at_least_zero n) s

unfoldable pub right_part : Bytes → ℤ → Bytes
right_part s n = drop (length s - at_least_zero n) s

-- `mpos`, from the position counted from 1.
abbrev pub start_of : ℤ → ℕ
start_of (pos n) = n - 1
start_of (negsuc n) = 0

abbrev pub up_to : Option ℤ → Bytes → Bytes
up_to none s = s
up_to (some (pos n)) s = take n s
up_to (some (negsuc n)) s = s

unfoldable pub mid_part : Bytes → ℤ → Option ℤ → Bytes
mid_part s p len = up_to len (drop (start_of p) s)

pub data Unary : Type 0 where
  len val str_of upper lower trim chr asc int_part abs sqr log_of exp_of sin_of cos_of tan_of sgn :
      Unary
  array_size map_size queue_size queue_empty : Unary

pub data Binary : Type 0 where
  left right instr max_of min_of rematch refind recount map_has : Binary

pub data Ternary : Type 0 where
  resub resuball regroup : Ternary

pub data Builtin : Type 0 where
  unary : Unary → Builtin
  binary : Binary → Builtin
  ternary : Ternary → Builtin
  mid rnd reall : Builtin

-- The names, in the order in which they are tried.
abbrev pub names : List (Bytes × Builtin)
names =
    (codes "LEN", unary len)
    ∷ (codes "VAL", unary val)
    ∷ (codes "STR$", unary str_of)
    ∷ (codes "UPPER$", unary upper)
    ∷ (codes "LOWER$", unary lower)
    ∷ (codes "TRIM$", unary trim)
    ∷ (codes "LEFT$", binary left)
    ∷ (codes "RIGHT$", binary right)
    ∷ (codes "MID$", mid)
    ∷ (codes "CHR$", unary chr)
    ∷ (codes "ASC", unary asc)
    ∷ (codes "INSTR", binary instr)
    ∷ (codes "INT", unary int_part)
    ∷ (codes "ABS", unary abs)
    ∷ (codes "SQR", unary sqr)
    ∷ (codes "RND", rnd)
    ∷ (codes "LOG", unary log_of)
    ∷ (codes "EXP", unary exp_of)
    ∷ (codes "SIN", unary sin_of)
    ∷ (codes "COS", unary cos_of)
    ∷ (codes "TAN", unary tan_of)
    ∷ (codes "SGN", unary sgn)
    ∷ (codes "MAX", binary max_of)
    ∷ (codes "MIN", binary min_of)
    ∷ (codes "REMATCH", binary rematch)
    ∷ (codes "REFIND$", binary refind)
    ∷ (codes "REALL$", reall)
    ∷ (codes "RESUB$", ternary resub)
    ∷ (codes "RESUBALL$", ternary resuball)
    ∷ (codes "REGROUP$", ternary regroup)
    ∷ (codes "RECOUNT", binary recount)
    ∷ (codes "ARRAY_SIZE", unary array_size)
    ∷ (codes "MAP_HAS", binary map_has)
    ∷ (codes "MAP_SIZE", unary map_size)
    ∷ (codes "QUEUE_SIZE", unary queue_size)
    ∷ (codes "QUEUE_EMPTY", unary queue_empty)
    ∷ []

unfoldable pub named : List (Bytes × Builtin) → Bytes → Option Builtin
unfolding bytes_eq
named [] name = none
named ((n, b) ∷ bs) name = let later = named bs name in if bytes_eq n name then some b else later

unfoldable pub sign_of : {F : Floats} → F.Num → Value F
sign_of {F} x = num (
    F.of_int (
      if F.is_lt (zero_num F) x then pos 1 else if F.is_lt x (zero_num F) then negsuc 0 else pos 0))

-- What a function of one argument returns.
unfoldable pub apply_unary : {F : Floats} → Host F → Interp F → Unary → Value F → Value F
unfolding to_num to_str to_upper to_lower trim_front trim_back sign_of lookup bytes_lt
apply_unary h s len v = size_num (length (to_str v))
apply_unary h s val v = num (to_num v)
apply_unary h s str_of v = str (to_str v)
apply_unary h s upper v = str (map to_upper (to_str v))
apply_unary h s lower v = str (map to_lower (to_str v))
apply_unary h s trim v = str (trim_back (trim_front (to_str v)))
apply_unary h s chr v = str (to_char (int_of v) ∷ [])
apply_unary h s asc v = size_num (first_code (to_str v))
apply_unary h s int_part v = num (h.floor (to_num v))
apply_unary h s abs v = num (h.fabs (to_num v))
apply_unary h s sqr v = num (h.sqrt (to_num v))
apply_unary {F} h s log_of v =
    num (if F.is_lt (zero_num F) (to_num v) then h.log (to_num v) else zero_num F)
apply_unary h s exp_of v = num (h.exp (to_num v))
apply_unary h s sin_of v = num (h.sin (to_num v))
apply_unary h s cos_of v = num (h.cos (to_num v))
apply_unary h s tan_of v = num (h.tan (to_num v))
apply_unary h s sgn v = sign_of (to_num v)
apply_unary h s array_size v = size_num (length (dict_of (find (map to_upper (to_str v)) s.maps)))
apply_unary h s map_size v = size_num (length (dict_of (find (to_str v) s.maps)))
apply_unary h s queue_size v = size_num (length (items_of (find (to_str v) s.queues)))
apply_unary h s queue_empty v = truth (is_empty (items_of (find (to_str v) s.queues)))

-- The text of a group; the empty one where there is no match.
abbrev pub group : ℕ → List Bytes → Bytes
group n [] = []
group zero (g ∷ gs) = g
group (suc n) (g ∷ gs) = group n gs

abbrev pub groups_of : Option (Option (List Bytes)) → List Bytes
groups_of (some (some gs)) = gs
groups_of _ = []

abbrev pub matched : Option (Option (List Bytes)) → Bool
matched (some (some gs)) = true
matched _ = false

abbrev pub group_at : ℤ → List Bytes → Bytes
group_at (pos n) gs = group n gs
group_at (negsuc n) gs = []

unfoldable pub apply_binary :
    {F : Floats} → Host F → Interp F → Binary → Value F → Value F → Value F
unfolding to_num to_str left_part right_part index_of lookup bytes_lt
apply_binary h s left a b = str (left_part (to_str a) (int_of b))
apply_binary h s right a b = str (right_part (to_str a) (int_of b))
apply_binary h s instr a b = size_num (index_of (to_str b) (to_str a))
apply_binary {F} h s max_of a b =
    let x = to_num a in let y = to_num b in num (if F.is_lt y x || F.is_eq x y then x else y)
apply_binary {F} h s min_of a b =
    let x = to_num a in let y = to_num b in num (if F.is_lt x y || F.is_eq x y then x else y)
apply_binary h s rematch a b = truth (matched (h.regex_search (to_str a) (to_str b)))
apply_binary h s refind a b = str (group 0 (groups_of (h.regex_search (to_str a) (to_str b))))
apply_binary h s recount a b = size_num (length (items_of (h.regex_all (to_str a) (to_str b))))
apply_binary h s map_has a b = truth (present (find (to_str b) (dict_of (find (to_str a) s.maps))))

abbrev pub or_text : {F : Floats} → Option Bytes → Value F → Value F
or_text none v = v
or_text (some t) v = str t

unfoldable pub apply_ternary :
    {F : Floats} → Host F → Ternary → Value F → Value F → Value F → Value F
unfolding to_num to_str
apply_ternary h resub a b c = or_text (h.regex_replace true (to_str a) (to_str b) (to_str c)) c
apply_ternary h resuball a b c = or_text (h.regex_replace false (to_str a) (to_str b) (to_str c)) c
apply_ternary h regroup a b c =
    str (group_at (int_of c) (groups_of (h.regex_search (to_str a) (to_str b))))

-- The matches with the separator between them.
unfoldable pub joined : Bytes → List Bytes → Bytes
joined sep [] = []
joined sep (m ∷ []) = m
joined sep (m ∷ (n ∷ ms)) = m ++ (sep ++ joined sep (n ∷ ms))
