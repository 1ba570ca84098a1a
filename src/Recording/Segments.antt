-- ===== src/Recording/Segments.antt =====
-- Writing one segment of a recording
-- (backend/app/application/use_cases/write_recording_segment.py, with the table of timings of
-- backend/app/infrastructure/persistence/sqlalchemy/recording_segment_timing_repository.py).
pub mod Writing
pub mod Timings
pub mod Checks
pub mod Kept
pub mod Units
pub mod Written
use ai_meeting_copilot.Prelude.{
  ℕ, suc, ◌+◌, Bool, true, not, ◌&&◌, ◌||◌, Option, none, some, List, [], ◌∷◌, map, arith, leb,
  ◌==◌, if◌then◌else◌, length, get_last?, ◌>>=◌, ◌>>◌, raise_if, invalid_state_transition,
  lookup_error, recording_segment_lifecycle, Result, err, ok, Text,
}
use ai_meeting_copilot.Recording.Metadata.{
  RecordingMetadata, RecordingMetadataRecord, is_recording, record_post_init, is_playback_supported,
  recording,
}
use ai_meeting_copilot.Recording.Timing.{RecordingSegmentTiming, timing_post_init}
use ai_meeting_copilot.Recording.Work.{key_reference_post_init}

pub record WriteRecordingSegmentCommand : Type 0 where
  pub recording_id : ℕ
  pub segment_index : ℕ
  pub wav_bytes : List ℕ

pub record WriteRecordingSegmentResult : Type 0 where
  pub recording_id : ℕ
  pub segment_index : ℕ

-- The rows of one recording in the table of timings.
unfoldable pub timings_of : ℕ → List RecordingSegmentTiming → List RecordingSegmentTiming
timings_of id [] = []
timings_of id (t ∷ ts) =
    let rest = timings_of id ts in if t.recording_id == id then t ∷ rest else rest

unfoldable pub insert_timing :
    RecordingSegmentTiming → List RecordingSegmentTiming → List RecordingSegmentTiming
insert_timing t [] = t ∷ []
insert_timing t (x ∷ xs) =
    let rest = insert_timing t xs in
    if leb t.segment_index x.segment_index then t ∷ x ∷ xs else x ∷ rest

unfoldable pub order_timings : List RecordingSegmentTiming → List RecordingSegmentTiming
order_timings [] = []
order_timings (t ∷ ts) = insert_timing t (order_timings ts)

-- `recording_segment_timings.list_for_recording`
unfoldable pub list_for_recording : ℕ → List RecordingSegmentTiming → List RecordingSegmentTiming
list_for_recording id ts = order_timings (timings_of id ts)

-- `recording_segment_timings.save`, by the primary key of recording and index
unfoldable pub save_timing :
    RecordingSegmentTiming → List RecordingSegmentTiming → List RecordingSegmentTiming
save_timing t [] = t ∷ []
save_timing t (x ∷ xs) =
    let rest = save_timing t xs in
    if (x.recording_id == t.recording_id) && (x.segment_index == t.segment_index)
    then t ∷ xs
    else x ∷ rest

-- `_validate_recording`
abbrev pub validate_recording : RecordingMetadata → Result (Unit {0})
validate_recording m =
    if is_recording m.state
    then raise_if (not (is_playback_supported m.container_format)) recording_segment_lifecycle
    else err invalid_state_transition

-- `indexes == tuple(range(…))`, from the first index on
unfoldable pub counts_from : ℕ → List ℕ → Bool
counts_from start [] = true
counts_from start (i ∷ is) = i == start && counts_from (suc start) is

-- `_expected_next_index`
unfoldable pub expected_next_index : List ℕ → Result ℕ
expected_next_index is =
    if counts_from 0 is then ok (length is) else err recording_segment_lifecycle

-- `_expected_next_timing_index`, `_start_sample` and `_last_contiguous_timing`
abbrev pub expected_next_timing_index : Option RecordingSegmentTiming → ℕ
expected_next_timing_index none = 0
expected_next_timing_index (some p) = p.segment_index + 1

abbrev pub start_sample_after : Option RecordingSegmentTiming → ℕ
start_sample_after none = 0
start_sample_after (some p) = p.start_sample + p.sample_count

unfoldable pub last_contiguous_timing :
    List RecordingSegmentTiming → Result (Option RecordingSegmentTiming)
last_contiguous_timing ts =
    if counts_from 0 (map (λ t. t.segment_index) ts)
    then ok (get_last? ts)
    else err recording_segment_lifecycle

-- What the first unit of work learns.
pub record Checked : Type 0 where
  pub key_reference : Text
  pub metadata_index : ℕ
  pub start_sample : ℕ

abbrev pub differ : ℕ → ℕ → ℕ → Bool
differ i j k = not (i == k) || not (j == k)

-- The checks of the first unit of work.
unfoldable pub check_row :
    WriteRecordingSegmentCommand
    → List RecordingSegmentTiming
    → Option RecordingMetadataRecord
    → Result Checked
check_row c ts none = err lookup_error
check_row c ts (some r) = do
  validate_recording r.metadata
  reference ← key_reference_post_init r.key_reference
  previous ← last_contiguous_timing (list_for_recording c.recording_id ts)
  let expected = expected_next_timing_index previous
  raise_if (differ c.segment_index r.current_segment_index expected) recording_segment_lifecycle
  ok (record {
    key_reference = reference;
    metadata_index = r.current_segment_index;
    start_sample = start_sample_after previous;
  })

-- The checks of the last unit of work, and the two rows that it saves.
unfoldable pub rows_to_save :
    WriteRecordingSegmentCommand
    → ℕ
    → ℕ
    → List RecordingSegmentTiming
    → Option RecordingMetadataRecord
    → Result (RecordingMetadataRecord × RecordingSegmentTiming)
rows_to_save c sample_count start_sample ts none = err lookup_error
rows_to_save c sample_count start_sample ts (some r) = do
  validate_recording r.metadata
  previous ← last_contiguous_timing (list_for_recording c.recording_id ts)
  let expected = expected_next_timing_index previous
  raise_if (not (r.current_segment_index == c.segment_index) || not (expected == c.segment_index))
      recording_segment_lifecycle
  r' ← record_post_init (record r { current_segment_index = c.segment_index + 1 })
  t ← timing_post_init (record {
    recording_id = c.recording_id;
    segment_index = c.segment_index;
    sample_count = sample_count;
    start_sample = start_sample;
  })
  ok (r', t)
