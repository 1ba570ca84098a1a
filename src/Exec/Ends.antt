-- ===== src/Exec/Ends.antt =====
-- How the computations of Exec end.
use ai_meeting_copilot.Prelude.{Error, cancelled_error, Result, err, ok}
use ai_meeting_copilot.Exec.{
  Exec, handle, attempt, continue, ◌>>=◌, branch, try_else, unless_cancelled,
}

module _ {ℓ} {S A : Type 0} (Q : A → S → Type ℓ) (F : Error → S → Type ℓ) where
  abbrev pub EndOf : Result A × S → Type ℓ
  EndOf (ok a, s) = Q a s
  EndOf (err e, s) = F e s

  -- What holds of the value and the system when a computation returns, and when it raises.
  pub record Ends (c : Result A × S) : Type ℓ where
    pub holds : EndOf c

module _ {ℓ κ} {S A B : Type 0} {Q : A → S → Type ℓ} {F : Error → S → Type ℓ} where
  continue-end :
      {V : B → S → Type κ} {E : Error → S → Type κ} (f : A → Exec S B) (c : Result A × S)
      → Ends Q F c
      → ((a : A) (t : S) → Q a t → Ends V E (f a t))
      → ((e : Error) (t : S) → F e t → E e t)
      → Ends V E (continue f c)
  continue-end f (ok a, t) g next raised = next a t g.holds
  continue-end f (err e, t) g next raised = record { holds = raised e t g.holds }

  pub bind-Ends :
      {V : B → S → Type κ} {E : Error → S → Type κ} (p : Exec S A) (f : A → Exec S B) (s : S)
      → Ends Q F (p s)
      → ((a : A) (t : S) → Q a t → Ends V E (f a t))
      → ((e : Error) (t : S) → F e t → E e t)
      → Ends V E ((p >>= f) s)
  unfolding ◌>>=◌
  bind-Ends p f s = continue-end f (p s)

module _ {ℓ κ} {S A : Type 0} {Q : A → S → Type ℓ} {F : Error → S → Type ℓ} where
  handle-end :
      {V : A → S → Type κ} {E : Error → S → Type κ} (h : Error → Exec S A) (c : Result A × S)
      → Ends Q F c
      → ((a : A) (t : S) → Q a t → V a t)
      → ((e : Error) (t : S) → F e t → Ends V E (h e t))
      → Ends V E (handle h c)
  handle-end h (ok a, t) g returned handler = record { holds = returned a t g.holds }
  handle-end h (err e, t) g returned handler = handler e t g.holds

  pub attempt-Ends :
      {V : A → S → Type κ} {E : Error → S → Type κ} (p : Exec S A) (h : Error → Exec S A) (s : S)
      → Ends Q F (p s)
      → ((a : A) (t : S) → Q a t → V a t)
      → ((e : Error) (t : S) → F e t → Ends V E (h e t))
      → Ends V E (attempt p h s)
  unfolding attempt
  attempt-Ends p h s = handle-end h (p s)

module _ {ℓ κ} {S A B : Type 0} {Q : A → S → Type ℓ} {F : Error → S → Type ℓ} where
  branch-end :
      {V : B → S → Type κ} {E : Error → S → Type κ} (h : Error → Exec S B) (f : A → Exec S B)
      (c : Result A × S)
      → Ends Q F c
      → ((a : A) (t : S) → Q a t → Ends V E (f a t))
      → ((e : Error) (t : S) → F e t → Ends V E (h e t))
      → Ends V E (branch h f c)
  branch-end h f (ok a, t) g next handler = next a t g.holds
  branch-end h f (err e, t) g next handler = handler e t g.holds

  pub try_else-Ends :
      {V : B → S → Type κ} {E : Error → S → Type κ} (p : Exec S A) (h : Error → Exec S B)
      (f : A → Exec S B) (s : S)
      → Ends Q F (p s)
      → ((a : A) (t : S) → Q a t → Ends V E (f a t))
      → ((e : Error) (t : S) → F e t → Ends V E (h e t))
      → Ends V E (try_else p h f s)
  unfolding try_else
  try_else-Ends p h f s = branch-end h f (p s)

module _ {ℓ} {S A : Type 0} {Q : A → S → Type ℓ} {F : Error → S → Type ℓ} where
  pub unless_cancelled-Ends :
      (h : Exec S A) (e : Error) (s : S)
      → Ends Q F (h s)
      → F cancelled_error s
      → Ends Q F (unless_cancelled h e s)
  unless_cancelled-Ends h cancelled_error s g c = record { holds = c }
  unless_cancelled-Ends h e s g c = g

module _ {ℓ κ} {S A : Type 0} {Q : A → S → Type ℓ} {F : Error → S → Type ℓ} where
  -- What holds at the end implies what is to be shown of the end.
  pub weaken-Ends :
      {V : A → S → Type κ} {E : Error → S → Type κ} (c : Result A × S)
      → Ends Q F c
      → ((a : A) (t : S) → Q a t → V a t)
      → ((e : Error) (t : S) → F e t → E e t)
      → Ends V E c
  weaken-Ends (ok a, t) g returned raised = record { holds = returned a t g.holds }
  weaken-Ends (err e, t) g returned raised = record { holds = raised e t g.holds }
