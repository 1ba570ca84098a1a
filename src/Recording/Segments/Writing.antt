-- ===== src/Recording/Segments/Writing.antt =====
-- The transactions and the calls of the storage in
-- backend/app/application/use_cases/write_recording_segment.py.
use ai_meeting_copilot.Prelude.{
  ℕ, List, raise_if, recording_segment_lifecycle, Result, err, ok, Text,
}
use ai_meeting_copilot.Exec.{Exec, lift, attempt, ◌>>=◌, ◌>>◌, unless_cancelled}
use ai_meeting_copilot.Recording.Metadata.{RecordingMetadataRecord}
use ai_meeting_copilot.Recording.Timing.{RecordingSegmentTiming}
use ai_meeting_copilot.Recording.Rows.{get_by_id, save}
use ai_meeting_copilot.Recording.Segments.{
  WriteRecordingSegmentCommand, WriteRecordingSegmentResult, Checked, save_timing,
  expected_next_index, differ, check_row, rows_to_save,
}

-- `RecordingStorage` with its segment writer, and the commit, on a world of the parameter's
-- choice. A segment is named by its recording and its index. `segments` says which completed
-- segments there are; the program asks `list_segments`.
pub record SegmentStorage (W : Type 0) : Type 0 where
  pub list_segments : ℕ → W → Result (List ℕ) × W
  pub create_segment_writer : ℕ → ℕ → Text → W → Result (Unit {0}) × W
  pub write : ℕ → ℕ → List ℕ → W → Result (Unit {0}) × W
  pub finalize : ℕ → ℕ → W → Result (Unit {0}) × W
  pub abort : ℕ → ℕ → W → Result (Unit {0}) × W
  pub delete_segment : ℕ → ℕ → W → Result (Unit {0}) × W
  pub commit : W → Result (Unit {0}) × W
  pub segments : W → ℕ → List ℕ

-- The two tables, and the world outside.
pub record Shelf (W : Type 0) : Type 0 where
  pub rows : List RecordingMetadataRecord
  pub timings : List RecordingSegmentTiming
  pub world : W

module _ {W A : Type 0} where
  -- A call that ended; the tables are the same.
  abbrev pub called : Shelf W → Result A × W → Result A × Shelf W
  called s (r, w) = (r, record s { world = w })

  unfoldable pub from_storage : (W → Result A × W) → Exec (Shelf W) A
  from_storage call s = called s (call s.world)

module _ {W : Type 0} (storage : SegmentStorage W) (validate_wav : List ℕ → Result ℕ)
    (c : WriteRecordingSegmentCommand) where
  abbrev id : ℕ
  id = c.recording_id

  abbrev index : ℕ
  index = c.segment_index

  -- The first unit of work, which only reads.
  unfoldable pub check_recording : Exec (Shelf W) Checked
  check_recording s = lift (check_row c s.timings (get_by_id id s.rows)) s

  -- The comparison with the completed segments.
  unfoldable pub check_segments : Checked → Exec (Shelf W) (Unit {0})
  check_segments k = do
    found ← from_storage (storage.list_segments id)
    expected ← lift (expected_next_index found)
    lift (raise_if (differ index k.metadata_index expected) recording_segment_lifecycle)

  -- The file of the segment.
  unfoldable pub write_file : Checked → Exec (Shelf W) (Unit {0})
  write_file k = do
    from_storage (storage.create_segment_writer id index k.key_reference)
    attempt
        (from_storage (storage.write id index c.wav_bytes)
          >> from_storage (storage.finalize id index))
        (λ e. from_storage (storage.abort id index) >> lift (err e))

  abbrev pub committed :
      Shelf W
      → RecordingMetadataRecord × RecordingSegmentTiming
      → Result (Unit {0}) × W
      → Result (Unit {0}) × Shelf W
  committed s (r, t) (ok done, w) =
      (ok done, record { rows = save r s.rows; timings = save_timing t s.timings; world = w })
  committed s saved (err e, w) = (err e, record s { world = w })

  abbrev pub save_rows :
      RecordingMetadataRecord × RecordingSegmentTiming → Exec (Shelf W) (Unit {0})
  save_rows saved s = committed s saved (storage.commit s.world)

  -- The last unit of work.
  unfoldable pub record_segment : ℕ → ℕ → Exec (Shelf W) (Unit {0})
  record_segment sample_count start_sample s =
      (do
        saved ← lift (rows_to_save c sample_count start_sample s.timings (get_by_id id s.rows))
        save_rows saved)
        s

  -- `with suppress(Exception)`
  unfoldable pub remove_segment : Exec (Shelf W) (Unit {0})
  remove_segment =
      attempt (from_storage (storage.delete_segment id index)) (unless_cancelled (lift (ok tt)))

  -- `execute`
  unfoldable pub write_segment : Exec (Shelf W) WriteRecordingSegmentResult
  write_segment = do
    sample_count ← lift (validate_wav c.wav_bytes)
    k ← check_recording
    check_segments k
    write_file k
    attempt (record_segment sample_count k.start_sample) (λ e. remove_segment >> lift (err e))
    lift (ok (record { recording_id = id; segment_index = index }))
