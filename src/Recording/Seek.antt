-- ===== src/Recording/Seek.antt =====
-- Resolving a playback time to a sample of a segment
-- (backend/app/application/use_cases/resolve_recording_seek.py and
-- backend/app/application/dto/recordings/seek.py).
pub mod Found
pub mod Resolved
use ai_meeting_copilot.Prelude.{
  ℕ, zero, suc, ◌+◌, ◌-◌, ◌*◌, ◌/◌, Bool, true, false, not, ◌&&◌, ◌||◌, Option, none, some, List,
  arith, ltb, leb, ◌==◌, if◌then◌else◌, is_some, length, get_elem?, ◌>>=◌, ◌>>◌, raise_if,
  application_validation, recording_playback_unavailable, other_error, Result, ok, err,
}
use ai_meeting_copilot.Recording.Metadata.{
  is_completed, is_deleted_status, is_playback_supported, recording, RecordingMetadata,
  RecordingMetadataRecord,
}
use ai_meeting_copilot.Recording.Timing.{
  total_samples_for_contiguous_timing, RecordingSegmentTiming,
}

-- `resolved_seconds` is left out: it is `target_sample` over the sample rate.
pub record RecordingSeekTarget : Type 0 where
  pub recording_id : ℕ
  pub segment_index : ℕ
  pub segment_start_sample : ℕ
  pub segment_sample_count : ℕ
  pub target_sample : ℕ
  pub offset_samples : ℕ

-- `RecordingSeekTarget.__post_init__`
unfoldable pub seek_target_post_init : RecordingSeekTarget → Result RecordingSeekTarget
seek_target_post_init t =
    if t.segment_sample_count == 0 || leb t.segment_sample_count t.offset_samples
    then err application_validation
    else ok t

pub record RecordingSeekResolution : Type 0 where
  pub target : Option RecordingSeekTarget
  pub at_end : Bool

-- `RecordingSeekResolution.__post_init__`: at the end exactly without a target.
unfoldable pub seek_resolution_post_init : RecordingSeekResolution → Result RecordingSeekResolution
seek_resolution_post_init r =
    if is_some r.target
    then if r.at_end then err application_validation else ok r
    else if r.at_end
    then ok r
    else err application_validation

-- The result for the row that holds the sample.
abbrev pub target_in : ℕ → RecordingSegmentTiming → ℕ → RecordingSeekTarget
target_in id t target = record {
  recording_id = id;
  segment_index = t.segment_index;
  segment_start_sample = t.start_sample;
  segment_sample_count = t.sample_count;
  target_sample = target;
  offset_samples = target - t.start_sample;
}

-- The loop of `_find_target` with fuel. `bound` is `high + 1`, since `high` may become -1; with
-- it the middle is (low + bound - 1) // 2. A read out of range cannot happen and is an error.
unfoldable pub find_target_from :
    ℕ → ℕ → List RecordingSegmentTiming → ℕ → ℕ → ℕ → Result RecordingSeekTarget
find_target_from zero id timings target low bound = err other_error
find_target_from (suc fuel) id timings target low bound =
    let middle = (low + bound - 1) / 2 in
    let left = find_target_from fuel id timings target low middle in
    let right = find_target_from fuel id timings target (middle + 1) bound in
    if leb bound low then err recording_playback_unavailable else elim (get_elem? timings middle) [
      | none ↦ err other_error
      | some t ↦
          if ltb target t.start_sample
          then left
          else if leb (t.start_sample + t.sample_count) target
          then right
          else seek_target_post_init (target_in id t target)
    ]

unfoldable pub find_target : ℕ → List RecordingSegmentTiming → ℕ → Result RecordingSeekTarget
unfolding find_target_from
find_target id timings target =
    find_target_from (suc (length timings)) id timings target 0 (length timings)

-- The floats of a seek: `n / 16000`, the two comparisons, and `floor(s * 16000)`.
pub record SecondsOps (F : Type 0) : Type 0 where
  pub of_samples : ℕ → F
  pub greater : F → F → Bool
  pub equal : F → F → Bool
  pub floor_samples : F → ℕ

-- The test that the recording can be played back.
abbrev pub is_playable : RecordingMetadata → Bool
is_playable m =
    is_completed m.state
    && not (is_deleted_status m.deletion_status)
    && m.consent_confirmed
    && is_playback_supported m.container_format

module _ {F : Type 0} (ops : SecondsOps F) where
  open ops use {of_samples, greater, equal, floor_samples}

  -- `execute`, from the record and the rows that its unit of work reads.
  unfoldable pub resolve_seek :
      Option RecordingMetadataRecord
      → List RecordingSegmentTiming
      → F
      → Result RecordingSeekResolution
  resolve_seek none timings seconds = err recording_playback_unavailable
  resolve_seek (some r) timings seconds = do
    let m = r.metadata
    raise_if (not (is_playable m)) recording_playback_unavailable
    total ← total_samples_for_contiguous_timing m.recording_id timings
    let duration = of_samples total
    raise_if (greater seconds duration) application_validation
    (if equal seconds duration
        then seek_resolution_post_init (record { target = none; at_end = true })
        else (find_target m.recording_id timings (floor_samples seconds) >>= λ t.
            seek_resolution_post_init (record { target = some t; at_end = false })))
