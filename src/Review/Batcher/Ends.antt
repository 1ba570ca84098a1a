-- ===== src/Review/Batcher/Ends.antt =====
-- Where a review batch ends (backend/app/application/services/meeting_review_batcher.py).
use ai_meeting_copilot.Prelude.{
  ℕ, suc, ◌+◌, ◌≤◌, ◌<◌, ◌≡◌, refl, ◌⊎◌, inl, inr, false, List, [], ◌∷◌, arith, ltb, leb, lt→ltb,
  Bool-cases, length, take,
}
use ai_meeting_copilot.Review.Batcher.{characters, texts_of, next_end_from, TranscriptReadItem}

-- Behind the first entry the loop takes k more entries, and stays within the budget.
more_entries :
    (m s n e : ℕ) (es : List TranscriptReadItem)
    → s < e
    → n ≤ m
    → (k : ℕ) × (next_end_from m s n e es ≡ e + k)
      × (k ≤ length es)
      × (n + characters (texts_of (take k es)) ≤ m)
unfolding next_end_from
more_entries m s n e [] h b = (0, omega arith, omega arith, omega arith)
more_entries m s n e (x ∷ es) h b = elim (Bool-cases (ltb m (n + length x.text))) [
  | inl full ↦ (0, rw (lt→ltb s e h, full) (omega arith), omega arith, omega arith)
  | inr fits ↦ elim (Bool-cases (leb m (n + length x.text))) [
    | inl exact ↦ (1, rw (lt→ltb s e h, fits, exact) (omega arith), omega arith, ground arith)
    | inr below ↦
        let (k, p, q, r) =
          more_entries m s (n + length x.text) (suc e) es (omega arith) (ground arith) in
        (suc k, rw (lt→ltb s e h, fits, below) (omega (arith, p)), omega arith, omega arith)
  ]
]

-- A batch takes at least one entry of what is left, and more than one only within the budget.
pub first_entries :
    (m e : ℕ) (es : List TranscriptReadItem)
    → 0 < length es
    → (k : ℕ) × (next_end_from m e 0 e es ≡ e + suc k)
      × (suc k ≤ length es)
      × ((k ≡ 0) ⊎ (characters (texts_of (take (suc k) es)) ≤ m))
unfolding next_end_from
first_entries m e [] h = absurd (omega arith)
first_entries m e (x ∷ es) h = elim (Bool-cases (leb m (0 + length x.text))) [
  | inl full ↦ (0, rw (same_not_ltb e, full) (omega arith), omega arith, inl refl)
  | inr below ↦
      let (k, p, q, r) =
        more_entries m e (0 + length x.text) (suc e) es (omega arith) (ground arith) in
      (k, rw (same_not_ltb e, below) (omega (arith, p)), omega arith, inr (omega arith))
]
  where
    same_not_ltb : (a : ℕ) → ltb a a ≡ false
    same_not_ltb a = ground arith
