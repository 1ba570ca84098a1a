-- ===== src/Live/Deduplicator/Overlap.antt =====
-- The search for an overlap of tokens
-- (backend/app/application/services/transcript_deduplicator.py).
use ai_meeting_copilot.Prelude.{
  ℕ, zero, suc, ◌≤◌, ◌<◌, ◌≡◌, refl, ◌≢◌, inl, inr, true, false, List, [], ◌∷◌, arith, ◌==◌, ==_iff,
  ==_refl, Bool-cases, and_both, and_intro, take, take_last, Text, ◌=ᵗ◌,
}
use ai_meeting_copilot.Live.Deduplicator.{same_tokens, overlap_size}
use mathlib.Core.Path.{subst, ap₂}

pub =ᵗ-eq : (s t : Text) → (s =ᵗ t) ≡ true → s ≡ t
=ᵗ-eq [] [] h = refl
=ᵗ-eq [] (d ∷ t) h = cc
=ᵗ-eq (c ∷ s) [] h = cc
=ᵗ-eq (c ∷ s) (d ∷ t) h =
    let (a, b) = and_both (c == d) _ h in ap₂ ◌∷◌ ((==_iff c d).0 a) (=ᵗ-eq s t b)

pub =ᵗ-refl : (s : Text) → (s =ᵗ s) ≡ true
=ᵗ-refl [] = refl
=ᵗ-refl (c ∷ s) = and_intro (c == c) _ (==_refl c) (=ᵗ-refl s)

same_tokens-eq : (s t : List Text) → same_tokens s t ≡ true → s ≡ t
same_tokens-eq [] [] h = refl
same_tokens-eq [] (d ∷ t) h = cc
same_tokens-eq (c ∷ s) [] h = cc
same_tokens-eq (c ∷ s) (d ∷ t) h =
    let (a, b) = and_both (c =ᵗ d) _ h in ap₂ ◌∷◌ (=ᵗ-eq c d a) (same_tokens-eq s t b)

same_tokens_refl : (s : List Text) → same_tokens s s ≡ true
same_tokens_refl [] = refl
same_tokens_refl (c ∷ s) = and_intro (c =ᵗ c) _ (=ᵗ-refl c) (same_tokens_refl s)

-- The last k tokens before are the first k tokens now.
abbrev pub Overlaps : ℕ → List Text → List Text → Type 0
Overlaps k previous current = take_last k previous ≡ take k current

-- An overlap, unless it is 0, with no larger overlap within the bound.
pub record IsLargest (bound : ℕ) (previous current : List Text) (k : ℕ) : Type 0 where
  pub within : k ≤ bound
  pub overlap : k ≢ 0 → Overlaps k previous current
  pub largest : (j : ℕ) → k < j → j ≤ bound → ¬ Overlaps j previous current

-- The search returns the largest number within its bound for which the last tokens before are the
-- first tokens now, or 0 if there is none.
pub overlap_size-IsLargest :
    (bound : ℕ) (previous current : List Text)
    → IsLargest bound previous current (overlap_size bound previous current)
unfolding overlap_size
overlap_size-IsLargest zero previous current = record {
  within = omega arith;
  overlap = λ h. absurd (h refl);
  largest = λ j a b. absurd (omega arith);
}
overlap_size-IsLargest (suc k) previous current =
    elim (Bool-cases (same_tokens (take_last (suc k) previous) (take (suc k) current))) [
      | inl found ↦ rw found (record {
        within = omega arith;
        overlap = λ h. same_tokens-eq _ _ found;
        largest = λ j a b. absurd (omega arith);
      })
      | inr missing ↦
          let ih = overlap_size-IsLargest k previous current in
          rw missing (record {
            within = omega (arith, ih.within);
            overlap = ih.overlap;
            largest = λ j a b o. larger ih j a b o missing;
          })
    ]
  where
    larger :
        IsLargest k previous current (overlap_size k previous current)
        → (j : ℕ) → overlap_size k previous current < j
        → j ≤ suc k
        → Overlaps j previous current
        → same_tokens (take_last (suc k) previous) (take (suc k) current) ≡ false
        → ⊥
    larger ih j a b o missing = elim (Bool-cases (j == suc k)) [
      | inl top ↦ cc (
          subst (λ n. same_tokens (take_last n previous) (take n current) ≡ true)
            ((==_iff j (suc k)).0 top) (rw o (same_tokens_refl (take j current))))
      | inr below ↦ ih.largest j a (ground arith) o
    ]
