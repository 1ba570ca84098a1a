-- ===== src/Review/Translation/Aligned.antt =====
-- What the loop of `_translate_segments` returns, and that it can be reused
-- (backend/app/application/use_cases/generate_meeting_translation.py).
use mathlib.Core.Path.{subst}
use ai_meeting_copilot.Prelude.{
  suc, ◌≡◌, refl, sym, ap, ◌∙◌, inl, inr, Bool, true, false, ◌&&◌, List, [], ◌∷◌, ==_refl,
  Bool-cases, length, ok-injective, application_validation, Result, err, ok,
}
use ai_meeting_copilot.Exec.{Exec, lift, ◌>>=◌}
use ai_meeting_copilot.Exec.Ends.{Ends, bind-Ends, weaken-Ends}
use ai_meeting_copilot.Review.Batcher.{TranscriptReadItem, not_blank}
use ai_meeting_copilot.Review.Translation.{
  TranslationArtifactSegment, TranslationServices, TranslationSettings, TranslationDesk,
  segment_post_init, translation_request, all_match,
}
use ai_meeting_copilot.Live.Deduplicator.Overlap.{=ᵗ-refl}
use ai_meeting_copilot.Review.Translation.Execution.{
  called, call_out, translate_segment, translate_segments,
}

-- One segment for each entry of the transcript, with its id and its text, and with a translation.
abbrev pub Aligned : List TranslationArtifactSegment → List TranscriptReadItem → Type 0
Aligned [] [] = Unit
Aligned (s ∷ ss) (t ∷ ts) =
    (s.transcript_id ≡ t.transcript_id)
    × (s.source_text ≡ t.text)
    × (not_blank s.translated_text ≡ true)
    × Aligned ss ts
Aligned _ _ = ⊥

pub Aligned-length :
    (ss : List TranslationArtifactSegment) (ts : List TranscriptReadItem)
    → Aligned ss ts
    → length ss ≡ length ts
Aligned-length [] [] h = refl
Aligned-length (s ∷ ss) [] h = absurd h
Aligned-length [] (t ∷ ts) h = absurd h
Aligned-length (s ∷ ss) (t ∷ ts) h = ap suc (Aligned-length ss ts h.3)

pub Aligned-all_match :
    (ss : List TranslationArtifactSegment) (ts : List TranscriptReadItem)
    → Aligned ss ts
    → all_match ss ts ≡ ok true
unfolding all_match
Aligned-all_match [] [] h = refl
Aligned-all_match (s ∷ ss) [] h = absurd h
Aligned-all_match [] (t ∷ ts) h = absurd h
Aligned-all_match (s ∷ ss) (t ∷ ts) h =
    rw (h.0, h.1, ==_refl t.transcript_id, =ᵗ-refl t.text) (Aligned-all_match ss ts h.3)

-- The table is as it was, whether the computation returns or raises; if it returns, `Q` holds.
unfoldable pub Keeping :
    {W A : Type 0} → (A → Type 0) → Exec (TranslationDesk W) A → TranslationDesk W → Type 0
Keeping Q p s =
    Ends (λ a t. Q a × (t.translations ≡ s.translations)) (λ _ t. t.translations ≡ s.translations)
      (p s)

module _ {W A : Type 0} {Q : A → Type 0} where
  lift-Keeping :
      (c : Result A) (s : TranslationDesk W) → ((a : A) → c ≡ ok a → Q a) → Keeping Q (lift c) s
  unfolding Keeping
  lift-Keeping (ok a) s h = record { holds = (h a refl, refl) }
  lift-Keeping (err e) s h = record { holds = refl }

module _ {W A : Type 0} where
  call-Keeping :
      (call : W → Result A × W) (s : TranslationDesk W)
      → Keeping (λ (a : A). Unit {0}) (call_out call) s
  unfolding Keeping call_out
  call-Keeping call s = go (call s.world)
    where
      go :
          (c : Result A × W)
          → Ends
              (λ (a : A) t. Unit {0} × (t.translations ≡ s.translations))
              (λ _ t. t.translations ≡ s.translations)
              (called s c)
      go (ok a, w) = record { holds = (tt, refl) }
      go (err e, w) = record { holds = refl }

module _ {W A B : Type 0} (Q : A → Type 0) (R : B → Type 0) where
  bind-Keeping :
      (p : Exec (TranslationDesk W) A) (f : A → Exec (TranslationDesk W) B) (s : TranslationDesk W)
      → Keeping Q p s
      → ((a : A) (t : TranslationDesk W) → Q a → Keeping R (f a) t)
      → Keeping R (p >>= f) s
  unfolding Keeping
  bind-Keeping p f s h next =
      bind-Ends p f s h
        (λ a t (q, k). weaken-Ends (f a t) (next a t q) (λ b u (r, l). (r, l ∙ k)) (λ e u l. l ∙ k))
        (λ e t k. k)

and_right : (a b : Bool) → a && b ≡ true → b ≡ true
and_right true b h = h
and_right false b h = cc

err_not_ok : (s : TranslationArtifactSegment) → err application_validation ≡ ok s → ⊥
err_not_ok s h = cc

segment_post_init-ok :
    (s s' : TranslationArtifactSegment)
    → segment_post_init s ≡ ok s'
    → (s' ≡ s) × (not_blank s.translated_text ≡ true)
unfolding segment_post_init
segment_post_init-ok s s' h =
    elim (Bool-cases (not_blank s.source_text && not_blank s.translated_text)) [
      | inl e ↦ (sym (ok-injective s s' (rw e at h)), and_right (not_blank s.source_text) _ e)
      | inr e ↦ absurd (err_not_ok s' (rw e at h))
    ]

module _ {W : Type 0} (services : TranslationServices W) (settings : TranslationSettings) where
  abbrev IsSegmentOf : TranscriptReadItem → TranslationArtifactSegment → Type 0
  IsSegmentOf t s =
      (s.transcript_id ≡ t.transcript_id)
      × (s.source_text ≡ t.text)
      × (not_blank s.translated_text ≡ true)

  translate_segment-Keeping :
      (t : TranscriptReadItem) (s : TranslationDesk W)
      → Keeping (IsSegmentOf t) (translate_segment services settings t) s
  unfolding translate_segment
  translate_segment-Keeping t s =
      bind-Keeping (λ _. Unit {0}) (IsSegmentOf t) _ _ s
        (lift-Keeping (translation_request t.text) s (λ a e. tt))
        (λ request u _.
          bind-Keeping (λ _. Unit {0}) (IsSegmentOf t) _ _ u
            (call-Keeping (services.translate request) u)
            (λ translated v _. lift-Keeping _ v (λ segment e.
              let (f, g) = segment_post_init-ok _ segment e in
              (
                ap (λ x. x.transcript_id) f,
                ap (λ x. x.source_text) f,
                ap (λ x. not_blank x.translated_text) f ∙ g,
              ))))

  pub translate_segments-Keeping :
      (ts : List TranscriptReadItem) (s : TranslationDesk W)
      → Keeping (λ ss. Aligned ss ts) (translate_segments services settings ts) s
  unfolding translate_segments
  translate_segments-Keeping [] s =
      lift-Keeping (ok []) s (λ a e. subst (λ ss. Aligned ss []) (ok-injective [] a e) tt)
  translate_segments-Keeping (t ∷ ts) s =
      bind-Keeping (IsSegmentOf t) (λ ss. Aligned ss (t ∷ ts)) _ _ s (translate_segment-Keeping t s)
        (λ segment u h.
          bind-Keeping (λ ss. Aligned ss ts) (λ ss. Aligned ss (t ∷ ts)) _ _ u
            (translate_segments-Keeping ts u)
            (λ segments v k. lift-Keeping (ok (segment ∷ segments)) v (λ a e.
              subst (λ ss. Aligned ss (t ∷ ts)) (ok-injective (segment ∷ segments) a e)
                (h.0, h.1, h.2, k))))
