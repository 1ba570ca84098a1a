-- ===== src/Review/Generation/Kept.antt =====
-- The calls of the provider in
-- backend/app/application/use_cases/generate_meeting_review.py, which leave the table alone.
use ai_meeting_copilot.Prelude.{
  ℕ, ◌≡◌, refl, ◌∙◌, inl, inr, List, [], ◌∷◌, Bool-cases, Result, err, ok, is_empty,
}
use ai_meeting_copilot.Exec.{Exec, lift, ◌>>=◌}
use ai_meeting_copilot.Exec.Ends.{Ends, bind-Ends, weaken-Ends}
use ai_meeting_copilot.Review.Batcher.{TranscriptReviewBatch, build_batches}
use ai_meeting_copilot.Review.Artifact.{content_post_init}
use ai_meeting_copilot.Review.Merger.{merge}
use ai_meeting_copilot.Review.Generation.{
  MeetingReviewGenerationRequest, MeetingDetail, Services, Settings, Desk, request_post_init,
  outside, external, ask, review_batches, empty_content, generate_content,
}

-- The table is as it was, whether the call returns or raises.
unfoldable pub Keeps : {W A : Type 0} → Exec (Desk W) A → Desk W → Type 0
Keeps p s = Ends (λ _ t. t.artifacts ≡ s.artifacts) (λ _ t. t.artifacts ≡ s.artifacts) (p s)

module _ {W A : Type 0} where
  lift-Keeps : (c : Result A) (s : Desk W) → Keeps (lift c) s
  unfolding Keeps
  lift-Keeps (ok a) s = record { holds = refl }
  lift-Keeps (err e) s = record { holds = refl }

  external-Keeps : (call : W → Result A × W) (s : Desk W) → Keeps (external call) s
  unfolding Keeps external
  external-Keeps call s = go (call s.world)
    where
      go :
          (c : Result A × W)
          → Ends (λ _ t. t.artifacts ≡ s.artifacts) (λ _ t. t.artifacts ≡ s.artifacts) (outside s c)
      go (ok a, w) = record { holds = refl }
      go (err e, w) = record { holds = refl }

module _ {W A B : Type 0} where
  bind-Keeps :
      (p : Exec (Desk W) A) (f : A → Exec (Desk W) B) (s : Desk W)
      → Keeps p s
      → ((a : A) (t : Desk W) → Keeps (f a) t)
      → Keeps (p >>= f) s
  unfolding Keeps
  bind-Keeps p f s h next =
      bind-Ends p f s h (λ a t k. weaken-Ends (f a t) (next a t) (λ b u l. l ∙ k) (λ e u l. l ∙ k))
        (λ e t k. k)

module _ {W : Type 0} (services : Services W) (settings : Settings) where
  ask-Keeps : (r : MeetingReviewGenerationRequest) (s : Desk W) → Keeps (ask services settings r) s
  unfolding ask
  ask-Keeps r s =
      bind-Keeps (lift (request_post_init r)) _ s (lift-Keeps (request_post_init r) s)
        (λ q t. external-Keeps (services.generate_review q) t)

  review_batches-Keeps :
      (meeting : ℕ) (bs : List TranscriptReviewBatch) (s : Desk W)
      → Keeps (review_batches services settings meeting bs) s
  unfolding review_batches
  review_batches-Keeps meeting [] s = lift-Keeps (ok []) s
  review_batches-Keeps meeting (b ∷ bs) s = bind-Keeps _ _ s (ask-Keeps _ s) (λ content t.
      bind-Keeps _ _ t (review_batches-Keeps meeting bs t) (λ results u. lift-Keeps (ok _) u))

  pub generate_content-Keeps :
      (detail : MeetingDetail) (s : Desk W) → Keeps (generate_content services settings detail) s
  unfolding generate_content
  generate_content-Keeps detail s = elim (Bool-cases (is_empty detail.transcript)) [
    | inl e ↦ rw e (lift-Keeps (content_post_init (empty_content services settings)) s)
    | inr e ↦ rw e (
        bind-Keeps _ _ s
          (lift-Keeps (build_batches settings.max_characters settings.overlap detail.transcript) s)
          (λ batches t.
            bind-Keeps _ _ t (review_batches-Keeps detail.meeting_id batches t) (λ results u.
              bind-Keeps _ _ u (lift-Keeps (merge results) u) (λ content v. ask-Keeps _ v))))
  ]
