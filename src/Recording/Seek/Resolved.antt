-- ===== src/Recording/Seek/Resolved.antt =====
-- The whole use case of a seek, over any floats
-- (backend/app/application/use_cases/resolve_recording_seek.py).
use ai_meeting_copilot.Prelude.{
  ℕ, ◌≡◌, refl, ◌≢◌, inl, inr, true, false, Option, none, some, List, [], arith, ltb, if◌then◌else◌,
  ltb→lt, Bool-cases, Result-cases, application_validation, recording_playback_unavailable, Result,
  ok, err,
}
use ai_meeting_copilot.Recording.Metadata.{RecordingMetadataRecord}
use ai_meeting_copilot.Recording.Timing.{
  total_samples_for_contiguous_timing, RecordingSegmentTiming,
}
use ai_meeting_copilot.Recording.Timing.Contiguous.{Contiguous, samples, total_samples-ok_iff}
use ai_meeting_copilot.Recording.Seek.{
  seek_resolution_post_init, is_playable, resolve_seek, RecordingSeekTarget,
  RecordingSeekResolution, SecondsOps,
}
use ai_meeting_copilot.Recording.Seek.Found.{find_target-IsTarget, find_target-past_end, IsTarget}

-- A result that is the segment and the offset of this sample.
abbrev pub Locates : ℕ → List RecordingSegmentTiming → ℕ → Result RecordingSeekResolution → Type 0
Locates id ts target result =
    (r : RecordingSeekTarget) × (result ≡ ok (record { target = some r; at_end = false }))
    × IsTarget id ts target r

module _ {F : Type 0} (ops : SecondsOps F) where
  open ops use {of_samples, greater, equal, floor_samples}

  -- The result of a seek on a playable recording with a contiguous timeline of this total.
  abbrev pub Resolves :
      ℕ → List RecordingSegmentTiming → F → Result RecordingSeekResolution → Type 0
  Resolves id ts seconds result =
      if greater seconds (of_samples (samples ts))
      then result ≡ err application_validation
      else if equal seconds (of_samples (samples ts))
      then result ≡ ok (record { target = none; at_end = true })
      else if ltb (floor_samples seconds) (samples ts)
      then Locates id ts (floor_samples seconds) result
      else result ≡ err recording_playback_unavailable

  -- On a playable recording with a contiguous timeline that is not empty, a seek behind the end is
  -- refused as invalid, a seek to the end reports the end, any other whose sample lies below the
  -- total returns the segment and offset of that sample, and one whose sample, by rounding, does
  -- not lie below the total is refused as unavailable.
  pub resolve_seek-Resolves :
      (r : RecordingMetadataRecord) (ts : List RecordingSegmentTiming) (seconds : F)
      → is_playable r.metadata ≡ true
      → ts ≢ []
      → Contiguous r.metadata.recording_id 0 0 ts
      → Resolves r.metadata.recording_id ts seconds (resolve_seek ops (some r) ts seconds)
  unfolding resolve_seek seek_resolution_post_init
  resolve_seek-Resolves r ts seconds p n c =
      let id = r.metadata.recording_id in
      let total : total_samples_for_contiguous_timing id ts ≡ ok (samples ts) =
        (total_samples-ok_iff id ts (samples ts)).1 (n, c, refl) in
      elim (Bool-cases (greater seconds (of_samples (samples ts)))) [
        | inl late ↦ rw (p, total, late) refl
        | inr in_time ↦ elim (Bool-cases (equal seconds (of_samples (samples ts)))) [
          | inl end ↦ rw (p, total, in_time, end) refl
          | inr before ↦ elim (Bool-cases (ltb (floor_samples seconds) (samples ts))) [
            | inl inside ↦
                let (t, e, k) =
                  find_target-IsTarget id ts (floor_samples seconds) c (ltb→lt _ _ inside) in
                rw (p, total, in_time, before, inside) (t, rw e, k)
            | inr rounded ↦
                rw (p, total, in_time, before, rounded)
                  (rw (find_target-past_end id ts (floor_samples seconds) c (ground arith)))
          ]
        ]
      ]

  -- A seek that succeeds does so on a playable recording with a contiguous timeline.
  pub resolve_seek_sound :
      (o : Option RecordingMetadataRecord) (ts : List RecordingSegmentTiming) (seconds : F)
      (s : RecordingSeekResolution)
      → resolve_seek ops o ts seconds ≡ ok s
      → (r : RecordingMetadataRecord) × (o ≡ some r)
        × (is_playable r.metadata ≡ true)
        × Contiguous r.metadata.recording_id 0 0 ts
  unfolding resolve_seek
  resolve_seek_sound none ts seconds s h = cc
  resolve_seek_sound (some r) ts seconds s h = elim (Bool-cases (is_playable r.metadata)) [
    | inl p ↦ elim (Result-cases (total_samples_for_contiguous_timing r.metadata.recording_id ts)) [
      | inl (n, e) ↦ (r, refl, p, ((total_samples-ok_iff r.metadata.recording_id ts n).0 e).1)
      | inr (x, e) ↦ cc (rw (p, e) at h)
    ]
    | inr p ↦ cc (rw p at h)
  ]
