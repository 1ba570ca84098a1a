-- ===== src/Recording/Work/Marks.antt =====
-- The deletion transitions of Recording/Deletion on a row that is honest about what is left.
use mathlib.Core.Path.{subst}
use ai_meeting_copilot.Prelude.{
  ℕ, ◌≡◌, refl, sym, ◌∙◌, inl, inr, true, some, List, Bool-cases, ok-injective, Error,
  invalid_state_transition, Result, err, ok, DateTime, pos,
}
use ai_meeting_copilot.Recording.Metadata.{
  RecordingMetadataRecord, is_deleted, RecordingState, FailureCode,
}
use ai_meeting_copilot.Recording.Stored.{IsStored, SameRecording}
use ai_meeting_copilot.Recording.Rows.{get_by_id, some-injective}
use ai_meeting_copilot.Recording.Work.{Resources}
use ai_meeting_copilot.Recording.Work.Ends.{IsSettled, IsHonest}
use ai_meeting_copilot.Recording.Deletion.{
  is_active, is_approved, mark_deleting, mark_deleted, mark_deletion_failed, mark_storage_missing,
}
use ai_meeting_copilot.Recording.Deletion.Outcomes.{
  active_refused, mark_deleting-IsStored, mark_deleted-IsStored, mark_deletion_failed-IsStored,
  mark_storage_missing-IsStored,
}
use ai_meeting_copilot.Recording.Work.Steps.{Marked}

err_not_ok : {A : Type 0} (c : Result A) (e : Error) (a : A) → c ≡ err e → c ≡ ok a → ⊥
err_not_ok c e a g h = cc

epoch : DateTime
epoch = record { instant = 0; offset = some (pos 0) }

epoch_utc : epoch.offset ≡ some (pos 0)
unfolding epoch
epoch_utc = refl

deleted_refused :
    (r : RecordingMetadataRecord) (code : FailureCode)
    → is_approved code ≡ true
    → is_deleted r.metadata.state ≡ true
    → mark_deletion_failed r code ≡ err invalid_state_transition
unfolding mark_deletion_failed
deleted_refused r code p d = rw (p, d)

missing_not_deleted :
    (s : RecordingState) → s ≡ RecordingState.missing → s ≡ RecordingState.deleted → ⊥
missing_not_deleted s a b = cc

module _ {W : Type 0} (R : Resources W) (w : W) (r : RecordingMetadataRecord)
    (h : IsHonest R w r) where
  -- A copy that is deleted only if the storage and the key store have answered for it, and of the same
  -- recording.
  marked :
      (r' : RecordingMetadataRecord)
      → IsStored r'
      → SameRecording r r'
      → (r'.metadata.state ≡ RecordingState.deleted → IsSettled R w r)
      → Marked R w r r'
  marked r' s m d = record {
    honest = record {
      stored = s;
      erased = λ e. record { recording = rw m.recording (d e).recording; key = rw m.key (d e).key };
    };
    same = m;
  }

  pub mark_deleting-Marked :
      (r' : RecordingMetadataRecord) → mark_deleting r ≡ ok r' → Marked R w r r'
  mark_deleting-Marked r' g = elim (Bool-cases (is_active r.metadata.state)) [
    | inl a ↦ absurd (err_not_ok _ _ r' (active_refused r epoch a epoch_utc).0 g)
    | inr a ↦
        let (x, e, s, m, k, _) = mark_deleting-IsStored r h.stored a in
        subst (Marked R w r) (ok-injective x r' (sym e ∙ g))
          (marked x s m λ d. h.erased (sym k ∙ d))
  ]

  pub mark_deleted-Marked :
      (t : DateTime) (r' : RecordingMetadataRecord)
      → t.offset ≡ some (pos 0)
      → IsSettled R w r
      → mark_deleted r t ≡ ok r'
      → Marked R w r r' × (r'.metadata.state ≡ RecordingState.deleted)
  mark_deleted-Marked t r' u gone g = elim (Bool-cases (is_active r.metadata.state)) [
    | inl a ↦ absurd (err_not_ok _ _ r' (active_refused r t a u).1 g)
    | inr a ↦
        let (x, e, s, m, k, _, _) = mark_deleted-IsStored r t h.stored a u in
        subst (λ y. Marked R w r y × (y.metadata.state ≡ RecordingState.deleted))
          (ok-injective x r' (sym e ∙ g)) (marked x s m (λ _. gone), k)
  ]

  pub mark_deletion_failed-Marked :
      (code : FailureCode) (r' : RecordingMetadataRecord)
      → is_approved code ≡ true
      → mark_deletion_failed r code ≡ ok r'
      → Marked R w r r' × (r'.failure_code ≡ some code)
  mark_deletion_failed-Marked code r' p g = elim (Bool-cases (is_deleted r.metadata.state)) [
    | inl d ↦ absurd (err_not_ok _ _ r' (deleted_refused r code p d) g)
    | inr a ↦
        let (x, e, s, m, k, _, c) = mark_deletion_failed-IsStored r code h.stored p a in
        subst (λ y. Marked R w r y × (y.failure_code ≡ some code)) (ok-injective x r' (sym e ∙ g))
          (marked x s m (λ d. h.erased (sym k ∙ d)), c)
  ]

  pub mark_storage_missing-Marked :
      (r' : RecordingMetadataRecord) → mark_storage_missing r ≡ ok r' → Marked R w r r'
  mark_storage_missing-Marked r' g = elim (Bool-cases (is_active r.metadata.state)) [
    | inl a ↦ absurd (err_not_ok _ _ r' (active_refused r epoch a epoch_utc).2 g)
    | inr a ↦
        let (x, e, s, m, k) = mark_storage_missing-IsStored r h.stored a in
        subst (Marked R w r) (ok-injective x r' (sym e ∙ g)) (
          marked x s m λ d. elim k [
            | inl (gone, _) ↦ h.erased gone
            | inr (lost, _) ↦ absurd (missing_not_deleted x.metadata.state lost d)
          ])
  ]

-- Marking the row that is read by an id as deleted, once the storage and the key store have answered for it.
pub mark_deleted-found :
    {W : Type 0} (R : Resources W) (w : W) (id : ℕ) (rows : List RecordingMetadataRecord)
    (r : RecordingMetadataRecord) (t : DateTime)
    → t.offset ≡ some (pos 0)
    → get_by_id id rows ≡ some r
    → IsSettled R w r
    → (x x' : RecordingMetadataRecord) → get_by_id id rows ≡ some x
    → IsHonest R w x
    → mark_deleted x t ≡ ok x'
    → Marked R w x x' × (x'.metadata.state ≡ RecordingState.deleted)
mark_deleted-found R w id rows r t u f gone x x' e i g =
    mark_deleted-Marked R w x i t x' u (subst (IsSettled R w) (some-injective r x (sym f ∙ e)) gone)
      g
