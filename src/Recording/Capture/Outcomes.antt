-- ===== src/Recording/Capture/Outcomes.antt =====
-- The records that finalizing and failing a recording save (finalize_recording.py and
-- mark_recording_failed.py of backend/app/application/use_cases).
use ai_meeting_copilot.Prelude.{
  ◌≡◌, refl, ap, ◌≢◌, ◌⊎◌, inl, inr, true, false, ◌&&◌, none, some, List, [], arith, ==_iff,
  Bool-cases, and_both, length, ok, pos,
}
use ai_meeting_copilot.Recording.Metadata.{
  is_deleted, is_deleted_status, is_blank_code, is_playback_supported, RecordingState, completed,
  RecordingDeletionStatus, FailureCode, nanoseconds, RecordingMetadataRecord,
}
use ai_meeting_copilot.Recording.Validity.{IsValid}
use ai_meeting_copilot.Recording.Stored.{
  record_check-not_blank, rebuild-ok, IsStored-rebuilt, not_deleted, moved-IsValid, IsStored,
  SameRecording,
}
use ai_meeting_copilot.Recording.Deletion.{is_active}
use ai_meeting_copilot.Recording.Timing.{
  total_samples_for_contiguous_timing, RecordingSegmentTiming,
}
use ai_meeting_copilot.Recording.Timing.Contiguous.{Contiguous, samples, total_samples-ok_iff}
use ai_meeting_copilot.Recording.Capture.{
  is_failed, same_code, mark_recording_failed, is_close, duration_of, completed_metadata,
  finalize_recording, FinalizeRecordingCommand,
}
use ai_meeting_copilot.Recording.Seek.{is_playable}

active_not_deleted : (s : RecordingState) → is_active s ≡ true → s ≢ RecordingState.deleted
active_not_deleted s h e = cc (ap is_active e)

-- Finalizing a stored recording of the segmented format, that is being captured with consent,
-- over a contiguous timeline, with the right number of segments and a duration close to the total
-- of the timeline, succeeds: the record obeys the lifecycle rules again and keeps its identity,
-- has the duration and the number of segments of the timeline, and can be played back.
pub finalize_recording-IsStored :
    (c : FinalizeRecordingCommand) (ts : List RecordingSegmentTiming) (r : RecordingMetadataRecord)
    → IsStored r
    → is_active r.metadata.state ≡ true
    → r.metadata.consent_confirmed ≡ true
    → is_playback_supported r.metadata.container_format ≡ true
    → ts ≢ []
    → Contiguous c.recording_id 0 0 ts
    → c.segment_count ≡ length ts
    → is_close c.duration_seconds (duration_of (samples ts)) ≡ true
    → (r' : RecordingMetadataRecord) × (finalize_recording c ts (some r) ≡ ok r')
      × IsStored r'
      × SameRecording r r'
      × (is_playable r'.metadata ≡ true)
      × (r'.metadata.duration_seconds ≡ some (nanoseconds (pos (duration_of (samples ts)))))
      × (r'.metadata.segment_count ≡ length ts)
unfolding finalize_recording
finalize_recording-IsStored c ts r s a consent f n k count close =
    let m = r.metadata in
    let seconds = nanoseconds (pos (duration_of (samples ts))) in
    let total : total_samples_for_contiguous_timing c.recording_id ts ≡ ok (samples ts) =
      (total_samples-ok_iff c.recording_id ts (samples ts)).1 (n, k, refl) in
    let here = active_not_deleted _ a in
    let v : IsValid (completed_metadata m seconds (length ts) c.has_gaps) =
      moved-IsValid m completed m.capture_anchor_utc (some seconds) (length ts) c.has_gaps s.valid
        here (λ e. cc) (λ e. cc) s.valid.anchor_utc (λ x e. (duration_of (samples ts), cc)) in
    let b = record_check-not_blank r s.named in
    let m' = completed_metadata m seconds (length ts) c.has_gaps in
    (
      record r { metadata = m' },
      rw (a, f, total, (==_iff c.segment_count (length ts)).1 count, close)
          (rebuild-ok r m' r.failure_code s.named b v),
      IsStored-rebuilt r m' r.failure_code s.named b v,
      record {
        recording = refl;
        meeting = refl;
        created = refl;
        policy = refl;
        token = refl;
        key = refl;
        index = refl;
      },
      rw (not_deleted_status _ (s.valid.retained here), consent, f) refl,
      refl,
      refl,
    )
  where
    not_deleted_status :
        (d : RecordingDeletionStatus)
        → d ≢ RecordingDeletionStatus.deleted
        → is_deleted_status d ≡ false
    not_deleted_status d h = ground arith

-- A failure that is reported of a stored recording that is not deleted is recorded: either the
-- same failure was there before and nothing is saved, or the saved record obeys the lifecycle
-- rules again, keeps its identity, and is failed with this code.
pub mark_recording_failed-IsStored :
    (code : FailureCode) (r : RecordingMetadataRecord)
    → IsStored r
    → is_deleted r.metadata.state ≡ false
    → is_blank_code (some code) ≡ false
    → ((mark_recording_failed code (some r) ≡ ok none)
        × (is_failed r.metadata.state ≡ true)
        × (same_code r.failure_code code ≡ true))
      ⊎ ((r' : RecordingMetadataRecord) × (mark_recording_failed code (some r) ≡ ok (some r'))
          × IsStored r'
          × SameRecording r r'
          × (r'.metadata.state ≡ RecordingState.failed)
          × (r'.failure_code ≡ some code))
unfolding mark_recording_failed
mark_recording_failed-IsStored code r s d b =
    elim (Bool-cases (is_failed r.metadata.state && same_code r.failure_code code)) [
      | inl again ↦ let (p, q) = and_both _ _ again in inl (rw (d, again) refl, p, q)
      | inr fresh ↦
          let m = r.metadata in
          let v : IsValid (record m { state = RecordingState.failed }) =
            moved-IsValid m RecordingState.failed m.capture_anchor_utc m.duration_seconds
              m.segment_count m.has_gaps s.valid (not_deleted _ d) (λ e. cc) (λ e. cc)
              s.valid.anchor_utc s.valid.duration in
          let m' = record m { state = RecordingState.failed } in
          inr (
            record r { metadata = m'; failure_code = some code },
            rw (d, fresh) (rw (rebuild-ok r m' (some code) s.named b v) refl),
            IsStored-rebuilt r m' (some code) s.named b v,
            record {
              recording = refl;
              meeting = refl;
              created = refl;
              policy = refl;
              token = refl;
              key = refl;
              index = refl;
            },
            refl,
            refl,
          )
    ]
