-- ===== src/Assist/Orchestrator/Lists.antt =====
-- Lists of tasks and calls in a session of the orchestrator
-- (backend/app/application/services/assist_mode_orchestrator.py).
use ai_meeting_copilot.Prelude.{ℕ, ◌+◌, ◌≡◌, List, [], ◌∷◌, ◌++◌, arith, length}

abbrev pub Every : {A : Type 0} → (A → Type 0) → List A → Type 0
Every P [] = Unit
Every P (x ∷ xs) = P x × Every P xs

pub Every-split :
    {A : Type 0} (P : A → Type 0) (xs ys : List A) → Every P (xs ++ ys) → Every P xs × Every P ys
Every-split P [] ys h = (tt, h)
Every-split P (x ∷ xs) ys h =
    let (first, second) = Every-split P xs ys h.1 in ((h.0, first), second)

pub Every-append :
    {A : Type 0} (P : A → Type 0) (xs ys : List A) → Every P xs → Every P ys → Every P (xs ++ ys)
Every-append P [] ys h k = k
Every-append P (x ∷ xs) ys h k = (h.0, Every-append P xs ys h.1 k)

pub Every-map :
    {A : Type 0} (P Q : A → Type 0) (xs : List A) → ((x : A) → P x → Q x) → Every P xs → Every Q xs
Every-map P Q [] f h = tt
Every-map P Q (x ∷ xs) f h = (f x h.0, Every-map P Q xs f h.1)

pub length-inserted :
    (n : ℕ) (before after : List ℕ) → length (before ++ (n ∷ after)) ≡ 1 + length (before ++ after)
length-inserted n [] after = omega arith
length-inserted n (x ∷ before) after = omega (arith, length-inserted n before after)

pub length-created :
    (n : ℕ) (created before after : List ℕ)
    → created ≡ before ++ (n ∷ after)
    → length created ≡ 1 + length (before ++ after)
length-created n created before after e = rw e (length-inserted n before after)
