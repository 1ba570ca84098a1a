-- ===== src/Tests/Segments.antt =====
-- The theorem about the writing of a segment at a recording of one segment.
use ai_meeting_copilot.Prelude.{
  ℕ, ◌-◌, ◌/◌, ◌≡◌, refl, sym, ap, ◌∙◌, inl, inr, List, [], ◌∷◌, ◌++◌, arith, is_space, ◌==◌,
  if◌then◌else◌, ==_refl, length, take, length-append, take_append, ok-injective, Result, ok, codes,
}
use ai_meeting_copilot.Exec.{attempt, ◌>>=◌}
use ai_meeting_copilot.Exec.Ends.{Ends}
use ai_meeting_copilot.Recording.Metadata.{
  RecordingMetadataRecord, record_post_init, RecordingState,
}
use ai_meeting_copilot.Recording.Rows.{get_by_id}
use ai_meeting_copilot.Recording.Work.{key_reference_post_init}
use ai_meeting_copilot.Recording.Timing.{timing_post_init}
use ai_meeting_copilot.Recording.Segments.{
  WriteRecordingSegmentCommand, timings_of, insert_timing, order_timings, list_for_recording,
  counts_from, expected_next_index, last_contiguous_timing, check_row, rows_to_save,
}
use ai_meeting_copilot.Recording.Segments.Writing.{
  SegmentStorage, Shelf, from_storage, check_recording, check_segments, write_file, record_segment,
  write_segment,
}
use ai_meeting_copilot.Recording.Segments.Kept.{LawfulStorage, Untouched}
use ai_meeting_copilot.Recording.Segments.Written.{Written, write_segment-Ends}
use ai_meeting_copilot.Tests.Recordings.{stored}

-- The completed segments of each recording.
abbrev Folder : Type 0
Folder = ℕ → List ℕ

abbrev change : ℕ → (List ℕ → List ℕ) → Folder → Folder
change id f w j = if j == id then f (w j) else w j

abbrev drop_last : List ℕ → List ℕ
drop_last is = take (length is - 1) is

abbrev folder : SegmentStorage Folder
folder = record {
  list_segments = λ id w. (ok (w id), w);
  create_segment_writer = λ id index key w. (ok tt, w);
  write = λ id index bytes w. (ok tt, w);
  finalize = λ id index w. (ok tt, change id (λ is. is ++ (index ∷ [])) w);
  abort = λ id index w. (ok tt, w);
  delete_segment = λ id index w. (ok tt, change id drop_last w);
  commit = λ w. (ok tt, w);
  segments = λ w id. w id;
}

change_self : (id : ℕ) (f : List ℕ → List ℕ) (w : Folder) → change id f w id ≡ f (w id)
change_self id f w = rw (==_refl id) refl

drop_last-append : (is : List ℕ) (i : ℕ) → drop_last (is ++ (i ∷ [])) ≡ is
drop_last-append is i =
    ap (λ n. take n (is ++ (i ∷ []))) (omega (arith, length-append is (i ∷ [])))
    ∙ take_append is (i ∷ [])

folder-Lawful : LawfulStorage folder
folder-Lawful = record {
  listed = λ id w is e. ok-injective is (w id) (sym e);
  list_keeps = λ id w. refl;
  create_keeps = λ id index key w. refl;
  write_keeps = λ id index bytes w. refl;
  finalized = λ id index w e. change_self id (λ is. is ++ (index ∷ [])) w;
  finalize_keeps = λ id index w. inr (change_self id (λ is. is ++ (index ∷ [])) w);
  abort_keeps = λ id index w. refl;
  deleted =
      λ id index w is e _. change_self id drop_last w ∙ ap drop_last e ∙ drop_last-append is index;
  delete_keeps = λ id index w is e.
      inl (change_self id drop_last w ∙ ap drop_last e ∙ drop_last-append is index);
  commit_keeps = λ id w. refl;
}

abbrev active : RecordingMetadataRecord
active = record stored {
  metadata = record stored.metadata { state = RecordingState.recording };
  key_reference = codes "key-of-recording-1";
  current_segment_index = 1;
}

abbrev one_segment : Shelf Folder
one_segment = record {
  rows = active ∷ [];
  timings =
      record {
        recording_id = active.metadata.recording_id;
        segment_index = 0;
        sample_count = 16000;
        start_sample = 0;
      }
      ∷ [];
  world = λ j. if j == active.metadata.recording_id then 0 ∷ [] else [];
}

abbrev second : WriteRecordingSegmentCommand
second = record {
  recording_id = active.metadata.recording_id;
  segment_index = 1;
  wav_bytes = 82 ∷ 73 ∷ 70 ∷ 70 ∷ [];
}

-- A validation that counts a sample for each two bytes.
abbrev validate : List ℕ → Result ℕ
validate bytes = ok (length bytes / 2)

write_segment-Ends_example :
    Ends
      (λ _. Written folder validate second one_segment)
      (λ e. Untouched folder second one_segment)
      (write_segment folder validate second one_segment)
unfolding timings_of
write_segment-Ends_example =
    write_segment-Ends folder validate second one_segment folder-Lawful
      (refl, omega arith, refl, refl, tt)

-- The second segment is written.
second_written :
    (write_segment folder validate second one_segment).0
    ≡ ok (record { recording_id = second.recording_id; segment_index = 1 })
unfolding write_segment check_recording check_segments write_file record_segment from_storage
    attempt ◌>>=◌ get_by_id timings_of list_for_recording order_timings insert_timing
    last_contiguous_timing counts_from expected_next_index check_row rows_to_save
    key_reference_post_init record_post_init timing_post_init is_space
second_written = refl
