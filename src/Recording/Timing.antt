-- ===== src/Recording/Timing.antt =====
-- The playback timeline of a recording: one row for each segment
-- (backend/app/application/dto/recordings/segment_timing.py and
-- backend/app/application/services/recording_timing.py).
pub mod Contiguous
use ai_meeting_copilot.Prelude.{
  ℕ, ◌+◌, Bool, not, ◌&&◌, ◌||◌, Option, none, some, List, [], ◌∷◌, arith, ◌==◌, if◌then◌else◌,
  application_validation, Result, ok, err,
}

pub record RecordingSegmentTiming : Type 0 where
  pub recording_id : ℕ
  pub segment_index : ℕ
  pub sample_count : ℕ
  pub start_sample : ℕ

-- `RecordingSegmentTiming.__post_init__`; the other checks hold of every natural number.
unfoldable pub timing_post_init : RecordingSegmentTiming → Result RecordingSegmentTiming
timing_post_init t = if t.sample_count == 0 then err application_validation else ok t

-- The test of one row against the row before it.
abbrev pub follows : Option RecordingSegmentTiming → RecordingSegmentTiming → Bool
follows none t = t.segment_index == 0 && t.start_sample == 0
follows (some p) t =
    t.segment_index == p.segment_index + 1 && t.start_sample == p.start_sample + p.sample_count

-- The loop of `total_samples_for_contiguous_timing`, from the row before and the samples so far.
unfoldable pub add_timings :
    ℕ → Option RecordingSegmentTiming → ℕ → List RecordingSegmentTiming → Result ℕ
add_timings id previous total [] = ok total
add_timings id previous total (t ∷ ts) =
    let rest = add_timings id (some t) (total + t.sample_count) ts in
    if not (t.recording_id == id) || t.sample_count == 0
    then err application_validation
    else if follows previous t
    then rest
    else err application_validation

unfoldable pub total_samples_for_contiguous_timing : ℕ → List RecordingSegmentTiming → Result ℕ
unfolding add_timings
total_samples_for_contiguous_timing id [] = err application_validation
total_samples_for_contiguous_timing id (t ∷ ts) = add_timings id none 0 (t ∷ ts)
