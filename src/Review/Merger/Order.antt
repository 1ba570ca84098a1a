-- ===== src/Review/Merger/Order.antt =====
-- The order of the batches that
-- backend/app/application/services/meeting_review_merger.py merges.
use ai_meeting_copilot.Prelude.{
  ℕ, suc, ◌≡◌, refl, sym, ap, ◌∙◌, ◌⊎◌, inl, inr, Bool, true, false, ◌||◌, List, [], ◌∷◌, map,
  arith, leb, ◌==◌, if◌then◌else◌, ==_iff, Bool-cases, ◌>>◌, raise_if, application_validation,
  Result, err, ok, is_empty,
}
use ai_meeting_copilot.Review.Merger.{
  BatchReviewResult, insert_batch, sort_batches, is_range, validate_and_order, merge,
}

indices : List BatchReviewResult → List ℕ
indices = map (λ b. b.batch_index)

insert_index : ℕ → List ℕ → List ℕ
insert_index i [] = i ∷ []
insert_index i (j ∷ js) = let rest = insert_index i js in if leb i j then i ∷ j ∷ js else j ∷ rest

indices-insert :
    (b : BatchReviewResult) (bs : List BatchReviewResult)
    → indices (insert_batch b bs) ≡ insert_index b.batch_index (indices bs)
unfolding indices insert_index
indices-insert b [] = refl
indices-insert b (x ∷ xs) = elim (Bool-cases (leb b.batch_index x.batch_index)) [
  | inl e ↦ rw e
  | inr e ↦ rw (e, indices-insert b xs)
]

insert_index_comm :
    (i j : ℕ) (ks : List ℕ)
    → insert_index i (insert_index j ks) ≡ insert_index j (insert_index i ks)
unfolding insert_index
insert_index_comm i j [] = ground arith
insert_index_comm i j (k ∷ ks) = grind (arith, insert_index_comm i j ks)

-- Two neighbours are equal.
twice : List ℕ → Bool
twice [] = false
twice (i ∷ []) = false
twice (i ∷ j ∷ ks) = i == j || twice (j ∷ ks)

twice-insert : (i : ℕ) (ks : List ℕ) → twice ks ≡ true → twice (insert_index i ks) ≡ true
unfolding twice insert_index
twice-insert i [] h = cc
twice-insert i (j ∷ []) h = cc
twice-insert i (j ∷ k ∷ ks) h = grind (arith, twice-insert i (k ∷ ks))

twice-insert_same : (i : ℕ) (ks : List ℕ) → twice (insert_index i (insert_index i ks)) ≡ true
unfolding twice insert_index
twice-insert_same i [] = grind arith
twice-insert_same i (j ∷ []) = grind arith
twice-insert_same i (j ∷ k ∷ ks) = grind (arith, twice-insert_same i (k ∷ ks))

twice-is_range :
    (start : ℕ) (bs : List BatchReviewResult)
    → twice (indices bs) ≡ true
    → is_range start bs ≡ false
unfolding twice indices
twice-is_range start [] h = cc
twice-is_range start (a ∷ []) h = cc
twice-is_range start (a ∷ b ∷ bs) h = grind (arith, twice-is_range (suc start) (b ∷ bs))

insert_batch_comm :
    (a b : BatchReviewResult) (xs : List BatchReviewResult)
    → (a.batch_index == b.batch_index) ≡ false
    → insert_batch a (insert_batch b xs) ≡ insert_batch b (insert_batch a xs)
insert_batch_comm a b [] h = grind arith
insert_batch_comm a b (x ∷ xs) h = grind (arith, insert_batch_comm a b xs h)

-- The same results in another order.
pub data Reordered : List BatchReviewResult → List BatchReviewResult → Type 0 where
  unchanged : (bs : List BatchReviewResult) → Reordered bs bs
  behind :
      (b : BatchReviewResult) {bs cs : List BatchReviewResult}
      → Reordered bs cs
      → Reordered (b ∷ bs) (b ∷ cs)
  exchanged :
      (a b : BatchReviewResult) (bs : List BatchReviewResult) → Reordered (a ∷ b ∷ bs) (b ∷ a ∷ bs)
  both : {bs cs ds : List BatchReviewResult} → Reordered bs cs → Reordered cs ds → Reordered bs ds

-- Two sorted lists are the same, or have the same indices, one of them twice.
Close : List BatchReviewResult → List BatchReviewResult → Type 0
Close bs cs = (bs ≡ cs) ⊎ ((indices bs ≡ indices cs) × (twice (indices bs) ≡ true))

Close-insert :
    (b : BatchReviewResult) (bs cs : List BatchReviewResult)
    → Close bs cs
    → Close (insert_batch b bs) (insert_batch b cs)
unfolding Close
Close-insert b bs cs (inl e) = inl (ap (insert_batch b) e)
Close-insert b bs cs (inr (e, h)) = inr (
  indices-insert b bs ∙ ap (insert_index b.batch_index) e ∙ sym (indices-insert b cs),
  rw (indices-insert b bs) (twice-insert b.batch_index (indices bs) h),
)

indices-insert_two :
    (a b : BatchReviewResult) (bs : List BatchReviewResult)
    → indices (insert_batch a (insert_batch b bs))
      ≡ insert_index a.batch_index (insert_index b.batch_index (indices bs))
indices-insert_two a b bs =
    indices-insert a (insert_batch b bs) ∙ ap (insert_index a.batch_index) (indices-insert b bs)

Close-exchange :
    (a b : BatchReviewResult) (bs : List BatchReviewResult)
    → Close (insert_batch a (insert_batch b bs)) (insert_batch b (insert_batch a bs))
unfolding Close
Close-exchange a b bs = elim (Bool-cases (a.batch_index == b.batch_index)) [
  | inl e ↦
      let same = (==_iff a.batch_index b.batch_index).0 e in
      inr (
        indices-insert_two a b bs
            ∙ insert_index_comm a.batch_index b.batch_index (indices bs)
            ∙ sym (indices-insert_two b a bs),
        ap twice (indices-insert_two a b bs)
            ∙ ap (λ i. twice (insert_index i (insert_index b.batch_index (indices bs)))) same
            ∙ twice-insert_same b.batch_index (indices bs),
      )
  | inr e ↦ inl (insert_batch_comm a b bs e)
]

Close-trans : (bs cs ds : List BatchReviewResult) → Close bs cs → Close cs ds → Close bs ds
unfolding Close
Close-trans bs cs ds (inl e) (inl f) = inl (e ∙ f)
Close-trans bs cs ds (inl e) (inr (f, h)) = inr (ap indices e ∙ f, rw e h)
Close-trans bs cs ds (inr (e, h)) (inl f) = inr (e ∙ ap indices f, h)
Close-trans bs cs ds (inr (e, h)) (inr (f, g)) = inr (e ∙ f, h)

sort_batches-Close :
    (bs cs : List BatchReviewResult) → Reordered bs cs → Close (sort_batches bs) (sort_batches cs)
unfolding Close
sort_batches-Close _ _ (unchanged bs) = inl refl
sort_batches-Close _ _ (behind b {bs} {cs} r) =
    Close-insert b (sort_batches bs) (sort_batches cs) (sort_batches-Close bs cs r)
sort_batches-Close _ _ (exchanged a b bs) = Close-exchange a b (sort_batches bs)
sort_batches-Close _ _ (both {bs} {cs} {ds} r q) =
    Close-trans (sort_batches bs) (sort_batches cs) (sort_batches ds) (sort_batches-Close bs cs r)
      (sort_batches-Close cs ds q)

empty-Reordered : (bs cs : List BatchReviewResult) → Reordered bs cs → is_empty bs ≡ is_empty cs
empty-Reordered _ _ (unchanged bs) = refl
empty-Reordered _ _ (behind b r) = refl
empty-Reordered _ _ (exchanged a b bs) = refl
empty-Reordered _ _ (both {bs} {cs} {ds} r q) = empty-Reordered bs cs r ∙ empty-Reordered cs ds q

-- The last check of the order, on two sorted lists.
abbrev checked : List BatchReviewResult → Result (List BatchReviewResult)
checked ordered = if is_range 0 ordered then ok ordered else err application_validation

checked-Close : (bs cs : List BatchReviewResult) → Close bs cs → checked bs ≡ checked cs
unfolding Close
checked-Close bs cs (inl e) = ap checked e
checked-Close bs cs (inr (e, h)) =
    rw (twice-is_range 0 bs h, twice-is_range 0 cs (sym (ap twice e) ∙ h))

validate_and_order-Reordered :
    (bs cs : List BatchReviewResult)
    → Reordered bs cs
    → validate_and_order bs ≡ validate_and_order cs
unfolding validate_and_order
validate_and_order-Reordered bs cs r =
    ap (λ b. raise_if b application_validation >> checked (sort_batches bs))
      (empty-Reordered bs cs r)
    ∙ ap (λ c. raise_if (is_empty cs) application_validation >> c)
        (checked-Close (sort_batches bs) (sort_batches cs) (sort_batches-Close bs cs r))

-- Merging does not depend on the order in which the results of the batches are given: results in
-- another order give the same content, or raise the same exception, also when an index is missing
-- or stands twice.
pub merge-Reordered : (bs cs : List BatchReviewResult) → Reordered bs cs → merge bs ≡ merge cs
unfolding merge
merge-Reordered bs cs r = rw (validate_and_order-Reordered bs cs r)
