-- ===== src/Tests/Seeks.antt =====
-- The theorems about the playback timeline and the seek at concrete inputs.
use ai_meeting_copilot.Prelude.{
  ℕ, ◌*◌, ◌/◌, ◌≡◌, refl, ◌≢◌, ◌↔◌, true, none, some, List, [], ◌∷◌, arith, ltb, ◌==◌, ok,
}
use ai_meeting_copilot.Recording.Timing.{
  total_samples_for_contiguous_timing, RecordingSegmentTiming,
}
use ai_meeting_copilot.Recording.Timing.Contiguous.{Contiguous, samples, total_samples-ok_iff}
use ai_meeting_copilot.Recording.Seek.{
  find_target, resolve_seek, RecordingSeekTarget, RecordingSeekResolution, SecondsOps,
}
use ai_meeting_copilot.Recording.Seek.Found.{find_target-IsTarget, IsTarget}
use ai_meeting_copilot.Recording.Seek.Resolved.{Resolves, resolve_seek-Resolves}
use ai_meeting_copilot.Tests.Recordings.{stored}

abbrev first : RecordingSegmentTiming
first = record { recording_id = 7; segment_index = 0; sample_count = 80000; start_sample = 0 }

abbrev second : RecordingSegmentTiming
second = record { recording_id = 7; segment_index = 1; sample_count = 100; start_sample = 80000 }

abbrev pub timeline : List RecordingSegmentTiming
timeline = first ∷ second ∷ []

pub timeline-Contiguous : Contiguous 7 0 0 timeline
timeline-Contiguous = (refl, omega arith, refl, refl, (refl, omega arith, refl, refl, tt))

-- Exact seconds: a number of nanoseconds.
abbrev exact : SecondsOps ℕ
exact = record {
  of_samples = λ n. n * 62500;
  greater = λ a b. ltb b a;
  equal = λ a b. a == b;
  floor_samples = λ s. s / 62500;
}

total_samples-ok_iff_example :
    (total_samples_for_contiguous_timing 7 timeline ≡ ok 80100)
    ↔ ((timeline ≢ []) × Contiguous 7 0 0 timeline × (80100 ≡ samples timeline))
total_samples-ok_iff_example = total_samples-ok_iff 7 timeline 80100

find_target-IsTarget_example :
    (r : RecordingSeekTarget) × (find_target 7 timeline 80050 ≡ ok r) × IsTarget 7 timeline 80050 r
find_target-IsTarget_example =
    find_target-IsTarget 7 timeline 80050 timeline-Contiguous (omega arith)

resolve_seek-Resolves_example :
    Resolves exact 7 timeline 5003125000 (resolve_seek exact (some stored) timeline 5003125000)
resolve_seek-Resolves_example =
    resolve_seek-Resolves exact stored timeline 5003125000 refl (λ e. cc) timeline-Contiguous

abbrev at_the_end : RecordingSeekResolution
at_the_end = record { target = none; at_end = true }
