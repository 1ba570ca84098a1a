-- ===== src/Recording/Segments/Units.antt =====
-- The units of work, the comparison with the completed segments and the removal
-- (backend/app/application/use_cases/write_recording_segment.py).
use ai_meeting_copilot.Prelude.{
  ℕ, ◌+◌, ◌<◌, ◌≡◌, refl, sym, ap, ◌∙◌, some, List, [], ◌∷◌, ◌++◌, length, raise_if, Error,
  recording_segment_lifecycle, Result, err, ok,
}
use ai_meeting_copilot.Exec.{lift}
use ai_meeting_copilot.Exec.Ends.{Ends, bind-Ends, attempt-Ends, unless_cancelled-Ends}
use ai_meeting_copilot.Recording.Metadata.{RecordingMetadataRecord}
use ai_meeting_copilot.Recording.Rows.{get_by_id, save}
use ai_meeting_copilot.Recording.Timing.{RecordingSegmentTiming}
use ai_meeting_copilot.Recording.Timing.Contiguous.{Contiguous, samples}
use ai_meeting_copilot.Recording.Segments.{
  WriteRecordingSegmentCommand, Checked, timings_of, save_timing, expected_next_index, differ,
  check_row, rows_to_save,
}
use ai_meeting_copilot.Recording.Segments.Checks.{
  differ-false, check_row-ok, rows_to_save-ok, raise_if-passed, found_row, saved_row,
}
use ai_meeting_copilot.Recording.Segments.Writing.{
  SegmentStorage, Shelf, from_storage, check_recording, check_segments, committed, save_rows,
  record_segment, remove_segment,
}
use ai_meeting_copilot.Recording.Segments.Kept.{
  LawfulStorage, Untouched, Listed, Longer, files, lift-end, list-end, delete-end,
}

module _ {W : Type 0} (storage : SegmentStorage W) (validate_wav : List ℕ → Result ℕ)
    (c : WriteRecordingSegmentCommand) (s : Shelf W) where
  -- What the first unit of work has found.
  pub record Started (k : Checked) : Type 0 where
    pub row : RecordingMetadataRecord
    pub found : get_by_id c.recording_id s.rows ≡ some row
    pub current : c.segment_index ≡ row.current_segment_index
    pub timed : c.segment_index ≡ length (timings_of c.recording_id s.timings)
    pub start : k.start_sample ≡ samples (timings_of c.recording_id s.timings)

  pub check_recording-end :
      Contiguous c.recording_id 0 0 (timings_of c.recording_id s.timings)
      → Ends
          (λ k t. Started k × Listed storage c s t)
          (λ e. Listed storage c s)
          (check_recording storage validate_wav c s)
  unfolding check_recording
  check_recording-end h =
      let same : Listed storage c s s = record {
        kept = record { rows_kept = refl; timings_kept = refl };
        listed = refl;
      } in
      lift-end s (check_row c s.timings (get_by_id c.recording_id s.rows))
        (λ k e.
          let (r, f, g) = found_row c s.timings (get_by_id c.recording_id s.rows) k e in
          let (a, b, d) = check_row-ok c s.timings r k h g in
          (record { row = r; found = f; current = a; timed = b; start = d }, same))
        (λ e. same)

  module _ (L : LawfulStorage storage) where
    pub check_segments-end :
        (k : Checked) (t : Shelf W)
        → Listed storage c s t
        → Ends
            (λ _ u.
              Listed storage c s u
              × (expected_next_index (files storage c s s) ≡ ok c.segment_index))
            (λ e. Listed storage c s)
            (check_segments storage validate_wav c k t)
    unfolding check_segments
    check_segments-end k t h =
        bind-Ends (from_storage (storage.list_segments c.recording_id)) _ t
          (list-end storage L c s t h)
          (λ found u (g, e).
            bind-Ends (lift (expected_next_index found)) _ u
              (lift-end
                {Q = λ n v.
                  Listed storage c s v × (expected_next_index (files storage c s s) ≡ ok n)}
                {F = λ _. Listed storage c s} u (expected_next_index found)
                (λ n i. (g, ap expected_next_index (sym e) ∙ i)) (λ x. g))
              (λ n v (l, i).
                lift-end v
                  (raise_if (differ c.segment_index k.metadata_index n) recording_segment_lifecycle)
                  (λ u' p.
                    let (a, b) =
                      differ-false c.segment_index k.metadata_index n
                        (raise_if-passed _ recording_segment_lifecycle u' p) in
                    (l, i ∙ ap ok (sym b)))
                  (λ x. l))
              (λ x v l. l))
          (λ x u l. l)

  committed-end :
      {Q : Unit {0} → Shelf W → Type 0} {F : Error → Shelf W → Type 0} (t : Shelf W)
      (r : RecordingMetadataRecord) (x : RecordingSegmentTiming) (d : Result (Unit {0}) × W)
      → ((u : Unit {0})
          → Q u (record { rows = save r t.rows; timings = save_timing x t.timings; world = d.1 }))
      → ((e : Error) → F e (record t { world = d.1 }))
      → Ends Q F (committed storage validate_wav c t (r, x) d)
  committed-end t r x (ok u, w) returned raised = record { holds = returned u }
  committed-end t r x (err e, w) returned raised = record { holds = raised e }

  abbrev pub new_timing : ℕ → ℕ → RecordingSegmentTiming
  new_timing n start = record {
    recording_id = c.recording_id;
    segment_index = c.segment_index;
    sample_count = n;
    start_sample = start;
  }

  -- The last unit of work has saved the two rows.
  pub record Recorded (n start : ℕ) (t : Shelf W) : Type 0 where
    pub row : RecordingMetadataRecord
    pub found : get_by_id c.recording_id s.rows ≡ some row
    pub rows : t.rows ≡ save (record row { current_segment_index = c.segment_index + 1 }) s.rows
    pub timings : t.timings ≡ save_timing (new_timing n start) s.timings
    pub positive : 0 < n
    pub stored : files storage c s t ≡ files storage c s s ++ (c.segment_index ∷ [])

  module _ (L : LawfulStorage storage) where
    save_rows-end :
        (n start : ℕ) (saved : RecordingMetadataRecord × RecordingSegmentTiming) (t : Shelf W)
        → Contiguous c.recording_id 0 0 (timings_of c.recording_id s.timings)
        → rows_to_save c n start s.timings (get_by_id c.recording_id s.rows) ≡ ok saved
        → Longer storage c s t
        → Ends
            (λ _. Recorded n start)
            (λ e. Longer storage c s)
            (save_rows storage validate_wav c saved t)
    save_rows-end n start (r', x) t h g l =
        let (r, f, g') =
          saved_row c n start s.timings (get_by_id c.recording_id s.rows) (r', x) g in
        let (a, b, p) = rows_to_save-ok c n start s.timings r r' x h g' in
        let still = L.commit_keeps c.recording_id t.world ∙ l.longer in
        committed-end t r' x (storage.commit t.world)
          (λ _. record {
            row = r;
            found = f;
            rows = ap (save r') l.kept.rows_kept ∙ ap (λ y. save y s.rows) a;
            timings = ap (save_timing x) l.kept.timings_kept ∙ ap (λ y. save_timing y s.timings) b;
            positive = p;
            stored = still;
          })
          (λ e. record {
            kept = record { rows_kept = l.kept.rows_kept; timings_kept = l.kept.timings_kept };
            longer = still;
          })

    pub record_segment-end :
        (n start : ℕ) (t : Shelf W)
        → Contiguous c.recording_id 0 0 (timings_of c.recording_id s.timings)
        → Longer storage c s t
        → Ends
            (λ _. Recorded n start)
            (λ e. Longer storage c s)
            (record_segment storage validate_wav c n start t)
    unfolding record_segment
    record_segment-end n start t h l =
        bind-Ends (lift (rows_to_save c n start t.timings (get_by_id c.recording_id t.rows))) _ t
          (lift-end
            {Q = λ saved u.
              Longer storage c s u
              × (rows_to_save c n start s.timings (get_by_id c.recording_id s.rows) ≡ ok saved)}
            {F = λ _. Longer storage c s} t _
            (λ saved e. (
              l,
              ap (λ y. rows_to_save c n start y (get_by_id c.recording_id s.rows))
                    (sym l.kept.timings_kept)
                  ∙ ap (λ y. rows_to_save c n start t.timings (get_by_id c.recording_id y))
                      (sym l.kept.rows_kept)
                  ∙ e,
            ))
            (λ x. l))
          (λ saved u (g, e). save_rows-end n start saved u h e g) (λ x u l. l)

    pub remove_segment-end :
        (t : Shelf W)
        → Longer storage c s t
        → Ends
            (λ _. Untouched storage c s)
            (λ e. Untouched storage c s)
            (remove_segment storage validate_wav c t)
    unfolding remove_segment
    remove_segment-end t l =
        attempt-Ends (from_storage (storage.delete_segment c.recording_id c.segment_index)) _ t
          (delete-end storage L c s t l) (λ _ u g. g)
          (λ e u g. unless_cancelled-Ends (lift (ok tt)) e u (record { holds = g }) g)
