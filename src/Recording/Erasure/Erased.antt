-- ===== src/Recording/Erasure/Erased.antt =====
-- What is left of a recording after `DeleteMeetingAudioUseCase.execute` of
-- backend/app/application/use_cases/delete_meeting_audio.py.
use ai_meeting_copilot.Prelude.{
  ℕ, ◌≡◌, refl, ◌∙◌, true, Error, recording_segment_not_found, recording_key_not_found,
  cancelled_error, Text,
}
use ai_meeting_copilot.Recording.Metadata.{
  RecordingMetadataRecord, FailureCode, storage_delete_failed, key_delete_failed,
}
use ai_meeting_copilot.Exec.Ends.{Ends, bind-Ends, attempt-Ends, weaken-Ends}
use ai_meeting_copilot.Recording.Work.{System, Resources}
use ai_meeting_copilot.Recording.Work.Ends.{IsSettled, Lawful, Safe}
use ai_meeting_copilot.Recording.Deletion.{is_approved, mark_deletion_failed}
use ai_meeting_copilot.Recording.Work.Steps.{Later}
use ai_meeting_copilot.Recording.Work.Queries.{transit-Ends}
use ai_meeting_copilot.Recording.Work.Marks.{mark_deletion_failed-Marked}
use ai_meeting_copilot.Recording.Work.Gone.{
  Gone, Refused, Later-trans, absent-Gone, delete_recording-Ends, delete_key-Ends,
}
use ai_meeting_copilot.Recording.Erasure.{
  mark_failure, refuse, storage_handler, key_handler, delete_external,
}

module _ {W : Type 0} (R : Resources W) (L : Lawful R) where
  pub mark_failure-Ends :
      (id : ℕ) (code : FailureCode) (s : System W)
      → is_approved code ≡ true
      → Safe R s
      → Ends (λ _ t. Later R s t) (λ _ t. Later R s t) (mark_failure R id code s)
  unfolding mark_failure
  mark_failure-Ends id code s p h =
      bind-Ends _ _ s
        (transit-Ends R L id s h (λ r. mark_deletion_failed r code)
          λ r r' e i g. (mark_deletion_failed-Marked R s.now.world r i code r' p g).0)
        (λ o t k. record { holds = k.later }) (λ e t k. k.later)

  refuse-Ends :
      {A : Type 0} (Q : A → System W → Type 0) (id : ℕ) (code : FailureCode) (e : Error)
      (s t : System W)
      → is_approved code ≡ true
      → Later R s t
      → Ends Q (λ _ u. Later R s u) (refuse R id code e t)
  refuse-Ends Q id code e s t p k =
      bind-Ends _ _ t (mark_failure-Ends id code t p k.safe)
        (λ _ u l. record { holds = Later-trans R s t u k l }) (λ _ u l. Later-trans R s t u k l)

  storage_handler-Ends :
      (id : ℕ) (e : Error) (s t : System W)
      → Refused R (λ w. R.is_recording_open w id) recording_segment_not_found s e t
      → Ends
          (λ _ u. Gone R (λ w. R.is_recording_open w id) s u)
          (λ _ u. Later R s u)
          (storage_handler R id e t)
  storage_handler-Ends id cancelled_error s t k = record { holds = k.later }
  storage_handler-Ends id recording_segment_not_found s t k = record { holds = absent-Gone R k }
  storage_handler-Ends id e s t k = refuse-Ends _ id storage_delete_failed _ s t refl k.later

  key_handler-Ends :
      (id : ℕ) (key : Text) (e : Error) (s t : System W)
      → Refused R (λ w. R.is_key_open w key) recording_key_not_found s e t
      → Ends
          (λ _ u. Gone R (λ w. R.is_key_open w key) s u)
          (λ _ u. Later R s u)
          (key_handler R id e t)
  key_handler-Ends id key cancelled_error s t k = record { holds = k.later }
  key_handler-Ends id key recording_key_not_found s t k = record { holds = absent-Gone R k }
  key_handler-Ends id key e s t k = refuse-Ends _ id key_delete_failed _ s t refl k.later

  -- Neither the storage nor the key store holds anything of the recording, and the table is as
  -- it was.
  pub record Emptied (r : RecordingMetadataRecord) (s t : System W) : Type 0 where
    pub later : Later R s t
    pub rows : t.now.rows ≡ s.now.rows
    pub erased : IsSettled R t.now.world r

  emptied :
      (r : RecordingMetadataRecord) (s t u : System W)
      → Gone R (λ w. R.is_recording_open w r.metadata.recording_id) s t
      → Gone R (λ w. R.is_key_open w r.key_reference) t u
      → Emptied r s u
  emptied r s t u k l = record {
    later = Later-trans R s t u k.later l.later;
    rows = l.rows ∙ k.rows;
    erased = record { recording = l.later.fewer.recordings _ k.gone; key = l.gone };
  }

  pub delete_external-Ends :
      (r : RecordingMetadataRecord) (s : System W)
      → Safe R s
      → Ends (λ _ t. Emptied r s t) (λ _ t. Later R s t) (delete_external R r s)
  unfolding delete_external
  delete_external-Ends r s h =
      let id = r.metadata.recording_id in
      bind-Ends _ _ s
        (attempt-Ends {V = λ _ t. Gone R (λ w. R.is_recording_open w id) s t} _
          (storage_handler R id) s (delete_recording-Ends R L id s h) (λ x t k. k)
          (λ e t k. storage_handler-Ends id e s t k))
        (λ x t k.
          weaken-Ends _
            (attempt-Ends {V = λ _ u. Gone R (λ w. R.is_key_open w r.key_reference) t u} _
              (key_handler R id) t (delete_key-Ends R L r t k.later.safe) (λ y u l. l)
              (λ e u l. key_handler-Ends id r.key_reference e t u l))
            (λ y u l. emptied r s t u k l) (λ e u l. Later-trans R s t u k.later l))
        (λ e t k. k)
