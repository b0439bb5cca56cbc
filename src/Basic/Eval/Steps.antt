-- ===== src/Basic/Eval/Steps.antt =====
-- The state of the evaluator: what is left of the line, and the interpreter.
use ax25toolkit.Base.{ℕ, ◌≡◌, refl, Bool, Bytes, Option, none, some, length}
use ax25toolkit.Basic.{Floats, Interp}
use ax25toolkit.Basic.Lexer.{skip_ws, after, eat_ch, eat_kw, Token, next_tok, holds}

pub record Cursor (F : Floats) : Type 0 where
  pub lx : Bytes
  pub state : Interp F

-- `none` is an evaluation that does not end within its fuel.
abbrev pub Run : Floats → Type 0 → Type 0
Run F A = Cursor F → Option (A × Cursor F)

infixl 5 ◌>>=◌ ◌>>◌
abbrev pub ◌>>=◌ : {F : Floats} {A B : Type 0} → Run F A → (A → Run F B) → Run F B
◌>>=◌ m f c = elim (m c) [ none ↦ none | some (a, c') ↦ f a c' ]

abbrev pub ◌>>◌ : {F : Floats} {B : Type 0} → Run F (Unit {0}) → Run F B → Run F B
m >> k = m >>= λ _. k

abbrev pub give : {F : Floats} {A : Type 0} → A → Run F A
give a c = some (a, c)

abbrev pub endless : {F : Floats} {A : Type 0} → Run F A
endless c = none

-- What is left of the line, looked at.
abbrev pub look : {F : Floats} {A : Type 0} → (Bytes → A) → Run F A
look f c = some (f c.lx, c)

abbrev pub gets : {F : Floats} {A : Type 0} → (Interp F → A) → Run F A
gets f c = some (f c.state, c)

abbrev pub change : {F : Floats} → (Interp F → Interp F) → Run F (Unit {0})
change f c = some (tt, record c { state = f c.state })

abbrev pub blanks : {F : Floats} → Run F (Unit {0})
blanks c = some (tt, record c { lx = skip_ws c.lx })

-- `eat_ch` and `eat_kw` with their result.
abbrev pub got_ch : {F : Floats} → ℕ → Run F Bool
got_ch ch c = some (holds (eat_ch ch c.lx), record c { lx = after (eat_ch ch c.lx) (skip_ws c.lx) })

abbrev pub got_kw : {F : Floats} → Bytes → Run F Bool
got_kw kw c = some (holds (eat_kw kw c.lx), record c { lx = after (eat_kw kw c.lx) (skip_ws c.lx) })

-- `eat_ch` without.
abbrev pub eat : {F : Floats} → ℕ → Run F (Unit {0})
eat ch c = some (tt, record c { lx = after (eat_ch ch c.lx) (skip_ws c.lx) })

abbrev pub token : {F : Floats} → Run F Token
token c = some ((next_tok c.lx).0, record c { lx = (next_tok c.lx).1 })

-- Fuel for a loop that shortens what is left of the line in each round.
abbrev pub rounds : {F : Floats} → Run F ℕ
rounds c = some (length c.lx, c)

-- A step that ends hands its value on.
pub bind_some :
    {F : Floats} {A B : Type 0} (m : Run F A) (f : A → Run F B) (c : Cursor F) (a : A)
    (c' : Cursor F)
    → m c ≡ some (a, c')
    → (m >>= f) c ≡ f a c'
bind_some m f c a c' h = rw (h, ◌>>=◌) refl

pub bind_none :
    {F : Floats} {A B : Type 0} (m : Run F A) (f : A → Run F B) (c : Cursor F)
    → m c ≡ none
    → (m >>= f) c ≡ none
bind_none m f c h = rw (h, ◌>>=◌) refl
