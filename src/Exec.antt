-- ===== src/Exec.antt =====
-- Computations on a state that may raise: what was done before a raise stays done.
pub mod Ends
use ai_meeting_copilot.Prelude.{not, arith, Error, cancelled_error, Result, err, ok}

abbrev pub Exec : Type 0 → Type 0 → Type 0
Exec S A = S → Result A × S

module _ {S A : Type 0} where
  abbrev pub lift : Result A → Exec S A
  lift r s = (r, s)

  abbrev pub handle : (Error → Exec S A) → Result A × S → Result A × S
  handle h (ok a, s) = (ok a, s)
  handle h (err e, s) = h e s

  -- `try: body; except …`, where the handler raises again what it does not handle
  unfoldable pub attempt : Exec S A → (Error → Exec S A) → Exec S A
  attempt p h s = handle h (p s)

module _ {S A B : Type 0} where
  abbrev pub continue : (A → Exec S B) → Result A × S → Result B × S
  continue f (ok a, s) = f a s
  continue f (err e, s) = (err e, s)

  infixl 5 ◌>>=◌ ◌>>◌
  unfoldable pub ◌>>=◌ : Exec S A → (A → Exec S B) → Exec S B
  (p >>= f) s = continue f (p s)

  abbrev pub ◌>>◌ : Exec S A → Exec S B → Exec S B
  p >> q = p >>= λ _. q

module _ {S A B : Type 0} where
  abbrev pub branch : (Error → Exec S B) → (A → Exec S B) → Result A × S → Result B × S
  branch h f (ok a, s) = f a s
  branch h f (err e, s) = h e s

  -- `try: a = p; except …: return …` and the statements behind it
  unfoldable pub try_else : Exec S A → (Error → Exec S B) → (A → Exec S B) → Exec S B
  try_else p h f s = branch h f (p s)

-- `except CancelledError: raise`, before the handler of the other exceptions
abbrev pub unless_cancelled : {S A : Type 0} → Exec S A → Error → Exec S A
unless_cancelled h cancelled_error = lift (err cancelled_error)
unless_cancelled h _ = h
