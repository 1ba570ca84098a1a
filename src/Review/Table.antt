-- ===== src/Review/Table.antt =====
-- A table with a numeric primary key, as the repositories of artifacts use it
-- (backend/app/infrastructure/persistence/sqlalchemy).
use ai_meeting_copilot.Prelude.{
  ℕ, ◌≡◌, refl, ap, ◌∙◌, Bool, true, false, Option, none, some, List, [], ◌∷◌, ◌++◌, ◌==◌,
  if◌then◌else◌, ==_refl,
}

module _ {A : Type 0} (key : A → ℕ) where
  -- `session.get(Model, id)`
  unfoldable pub find_row : ℕ → List A → Option A
  find_row id [] = none
  find_row id (a ∷ rows) = if key a == id then some a else find_row id rows

  -- Insert a row, or replace the one with its key.
  unfoldable pub save_row : A → List A → List A
  save_row a [] = a ∷ []
  save_row a (x ∷ xs) = let rest = save_row a xs in if key x == key a then a ∷ xs else x ∷ rest

  if_none :
      (b : Bool) (x : A) (o : Option A)
      → (if b then some x else o) ≡ none
      → (b ≡ false) × (o ≡ none)
  if_none true x o h = cc
  if_none false x o h = (refl, h)

  pub save_fresh :
      (a : A) (rows : List A) → find_row (key a) rows ≡ none → save_row a rows ≡ rows ++ (a ∷ [])
  unfolding find_row save_row
  save_fresh a [] h = refl
  save_fresh a (x ∷ xs) h =
      let (e, f) = if_none (key x == key a) x _ h in rw e (ap (◌∷◌ x) (save_fresh a xs f))

  pub find_last :
      (a : A) (rows : List A)
      → find_row (key a) rows ≡ none
      → find_row (key a) (rows ++ (a ∷ [])) ≡ some a
  unfolding find_row
  find_last a [] h = rw (==_refl (key a))
  find_last a (x ∷ xs) h = let (e, f) = if_none (key x == key a) x _ h in rw e (find_last a xs f)

  pub save_last :
      (a b : A) (rows : List A)
      → key b ≡ key a
      → find_row (key a) rows ≡ none
      → save_row b (rows ++ (a ∷ [])) ≡ rows ++ (b ∷ [])
  unfolding find_row save_row
  save_last a b [] i h = rw (i, ==_refl (key a))
  save_last a b (x ∷ xs) i h =
      let (e, f) = if_none (key x == key a) x _ h in
      rw (ap (◌==◌ (key x)) i ∙ e) (ap (◌∷◌ x) (save_last a b xs i f))
