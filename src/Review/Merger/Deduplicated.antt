-- ===== src/Review/Merger/Deduplicated.antt =====
-- What `_deduplicate` of backend/app/application/services/meeting_review_merger.py keeps.
use ai_meeting_copilot.Prelude.{
  ◌≡◌, refl, sym, ap, ◌∙◌, inl, inr, Bool, true, false, ◌||◌, List, [], ◌∷◌, ◌++◌, Bool-cases,
}
use ai_meeting_copilot.Review.Merger.{is_in, deduplicate_from, deduplicate}

or_assoc : (a b c : Bool) → ((a || b) || c) ≡ (a || (b || c))
or_assoc true b c = refl
or_assoc false b c = refl

or_false : (a : Bool) → (a || false) ≡ a
or_false true = refl
or_false false = refl

or_true : (a b : Bool) → a ≡ true → (a || b) ≡ true
or_true a b h = rw h

or_neither : (a b : Bool) → (a || b) ≡ false → (a ≡ false) × (b ≡ false)
or_neither true b h = cc
or_neither false b h = (refl, h)

-- A test that is decided by another one adds nothing.
or_implied : (p q r : Bool) → (q ≡ true → p ≡ true) → (p || r) ≡ (p || (q || r))
or_implied true q r h = refl
or_implied false true r h = cc (h refl)
or_implied false false r h = refl

module _ {A : Type 0} (same : A → A → Bool) (sound : (a b : A) → same a b ≡ true → a ≡ b)
    (reflexive : (a : A) → same a a ≡ true) where
  -- No item stands in the list twice.
  unfoldable pub Unique : List A → Type 0
  Unique [] = Unit
  Unique (x ∷ xs) = (is_in same x xs ≡ false) × Unique xs

  is_in-append :
      (y : A) (xs ys : List A) → is_in same y (xs ++ ys) ≡ (is_in same y xs || is_in same y ys)
  is_in-append y [] ys = refl
  is_in-append y (x ∷ xs) ys =
      ap (◌||◌ (same y x)) (is_in-append y xs ys) ∙ sym (or_assoc (same y x) _ _)

  symmetric : (a b : A) → same a b ≡ true → same b a ≡ true
  symmetric a b h = ap (λ x. same b x) (sound a b h) ∙ reflexive b

  symmetric_false : (a b : A) → same a b ≡ false → same b a ≡ false
  symmetric_false a b h = elim (Bool-cases (same b a)) [
    | inl e ↦ absurd (true_not_false (same a b) (symmetric b a e) h)
    | inr e ↦ e
  ]
    where
      true_not_false : (c : Bool) → c ≡ true → c ≡ false → ⊥
      true_not_false c p q = cc

  append-Unique :
      (xs : List A) (y : A) → Unique xs → is_in same y xs ≡ false → Unique (xs ++ (y ∷ []))
  unfolding Unique
  append-Unique [] y u h = (refl, tt)
  append-Unique (x ∷ xs) y (n, u) h =
      let (p, q) = or_neither (same y x) (is_in same y xs) h in
      (is_in-append x xs (y ∷ []) ∙ rw (n, symmetric_false y x p), append-Unique xs y u q)

  -- An item that is the same as one in the list stands in the list.
  is_in-same :
      (y x : A) (xs : List A) → same y x ≡ true → is_in same x xs ≡ true → is_in same y xs ≡ true
  is_in-same y x xs e h = ap (λ z. is_in same z xs) (sound y x e) ∙ h

  deduplicate_from-Unique :
      (retained items : List A) → Unique retained → Unique (deduplicate_from same retained items)
  unfolding deduplicate_from
  deduplicate_from-Unique retained [] u = u
  deduplicate_from-Unique retained (x ∷ xs) u = elim (Bool-cases (is_in same x retained)) [
    | inl e ↦ rw e (deduplicate_from-Unique retained xs u)
    | inr e ↦
        rw e (deduplicate_from-Unique (retained ++ (x ∷ [])) xs (append-Unique retained x u e))
  ]

  is_in-deduplicate_from :
      (y : A) (retained items : List A)
      → is_in same y (deduplicate_from same retained items)
        ≡ (is_in same y retained || is_in same y items)
  unfolding deduplicate_from
  is_in-deduplicate_from y retained [] = sym (or_false (is_in same y retained))
  is_in-deduplicate_from y retained (x ∷ xs) = elim (Bool-cases (is_in same x retained)) [
    | inl e ↦ rw e (
        is_in-deduplicate_from y retained xs
        ∙ or_implied (is_in same y retained) (same y x) (is_in same y xs)
            λ h. is_in-same y x retained h e)
    | inr e ↦ rw e (
        is_in-deduplicate_from y (retained ++ (x ∷ [])) xs
        ∙ ap (λ b. b || is_in same y xs) (is_in-append y retained (x ∷ []))
        ∙ or_assoc (is_in same y retained) (same y x || false) (is_in same y xs)
        ∙ ap (λ b. is_in same y retained || (b || is_in same y xs)) (or_false (same y x)))
  ]

  -- Deduplicating keeps no item twice and loses none: an item stands in the result exactly if it
  -- stands in the list, for every test of items that holds of equal items and of no others.
  pub deduplicate-Unique :
      (items : List A)
      → Unique (deduplicate same items)
        × ((y : A) → is_in same y (deduplicate same items) ≡ is_in same y items)
  unfolding deduplicate Unique
  deduplicate-Unique items =
      (deduplicate_from-Unique [] items tt, λ y. is_in-deduplicate_from y [] items)
