-- ===== src/Recording/Segments/Written.antt =====
-- The whole of `WriteRecordingSegmentUseCase.execute`
-- (backend/app/application/use_cases/write_recording_segment.py).
use mathlib.Core.Path.{subst}
use ai_meeting_copilot.Prelude.{
  ℕ, suc, ◌+◌, ◌≡◌, refl, sym, ap, ◌∙◌, some, List, [], ◌∷◌, ◌++◌, arith, length, length-append,
  Result, err, ok,
}
use ai_meeting_copilot.Exec.{lift, attempt, ◌>>◌}
use ai_meeting_copilot.Exec.Ends.{Ends, bind-Ends, attempt-Ends}
use ai_meeting_copilot.Recording.Metadata.{RecordingMetadataRecord}
use ai_meeting_copilot.Recording.Rows.{get_by_id, save, get_by_id-save}
use ai_meeting_copilot.Recording.Work.Steps.{get_by_id-id}
use ai_meeting_copilot.Recording.Timing.Contiguous.{Contiguous, samples, Contiguous-append}
use ai_meeting_copilot.Recording.Segments.{
  WriteRecordingSegmentCommand, WriteRecordingSegmentResult, Checked, timings_of, counts_from,
  expected_next_index,
}
use ai_meeting_copilot.Recording.Segments.Timings.{save-behind}
use ai_meeting_copilot.Recording.Segments.Checks.{counts_from-append, expected_next_index-ok}
use ai_meeting_copilot.Recording.Segments.Writing.{
  SegmentStorage, Shelf, check_recording, check_segments, write_file, record_segment,
  remove_segment, write_segment,
}
use ai_meeting_copilot.Recording.Segments.Kept.{
  LawfulStorage, Agree, Untouched, Listed, Longer, files, Listed-Untouched, lift-end,
  write_file-end,
}
use ai_meeting_copilot.Recording.Segments.Units.{
  Started, Recorded, check_recording-end, check_segments-end, new_timing, record_segment-end,
  remove_segment-end,
}

module _ {W : Type 0} (storage : SegmentStorage W) (validate_wav : List ℕ → Result ℕ)
    (c : WriteRecordingSegmentCommand) (s : Shelf W) where
  -- The segment is written: its index is the number of segments that row, timings and storage
  -- agreed on; they agree on one more, and the new timing begins where the last one ended.
  pub record Written (t : Shelf W) : Type 0 where
    pub sample_count : ℕ
    pub valid : validate_wav c.wav_bytes ≡ ok sample_count
    pub before : Agree storage c.recording_id c.segment_index s
    pub after : Agree storage c.recording_id (suc c.segment_index) t
    pub timed :
        timings_of c.recording_id t.timings
        ≡ timings_of c.recording_id s.timings
          ++ (record {
            recording_id = c.recording_id;
            segment_index = c.segment_index;
            sample_count = sample_count;
            start_sample = samples (timings_of c.recording_id s.timings);
          }
              ∷ [])
    pub stored : files storage c s t ≡ files storage c s s ++ (c.segment_index ∷ [])

  module _ (L : LawfulStorage storage) where
    Recorded-timed :
        (n : ℕ) (k : Checked) (t : Shelf W)
        → Contiguous c.recording_id 0 0 (timings_of c.recording_id s.timings)
        → Started storage validate_wav c s k
        → Recorded storage validate_wav c s n k.start_sample t
        → timings_of c.recording_id t.timings
          ≡ timings_of c.recording_id s.timings
            ++ (new_timing storage validate_wav c s n
                  (samples (timings_of c.recording_id s.timings))
                ∷ [])
    Recorded-timed n k t h a d =
        let ts = timings_of c.recording_id s.timings in
        ap (timings_of c.recording_id) d.timings
        ∙ save-behind c.recording_id 0 0 (new_timing storage validate_wav c s n k.start_sample)
            s.timings refl h (omega (arith, a.timed))
        ∙ ap (λ y. ts ++ (new_timing storage validate_wav c s n y ∷ [])) a.start

    Recorded-found :
        (n start : ℕ) (t : Shelf W) (d : Recorded storage validate_wav c s n start t)
        → get_by_id c.recording_id t.rows
          ≡ some (record d.row { current_segment_index = c.segment_index + 1 })
    Recorded-found n start t d =
        let r : RecordingMetadataRecord = record d.row {
          current_segment_index = c.segment_index + 1;
        } in
        ap (get_by_id c.recording_id) d.rows
        ∙ ap (λ y. get_by_id y (save r s.rows))
            (sym (get_by_id-id c.recording_id s.rows d.row d.found))
        ∙ get_by_id-save r s.rows

    Recorded-Agree :
        (n : ℕ) (k : Checked) (t : Shelf W)
        → Contiguous c.recording_id 0 0 (timings_of c.recording_id s.timings)
        → Started storage validate_wav c s k
        → expected_next_index (files storage c s s) ≡ ok c.segment_index
        → Recorded storage validate_wav c s n k.start_sample t
        → Agree storage c.recording_id (suc c.segment_index) t
    Recorded-Agree n k t h a i d =
        let (counted, complete) = expected_next_index-ok (files storage c s s) c.segment_index i in
        let ts = timings_of c.recording_id s.timings in
        let new = new_timing storage validate_wav c s n (samples ts) in
        let timed = Recorded-timed n k t h a d in
        let whole =
          Contiguous-append c.recording_id 0 0 ts new h refl d.positive (omega (arith, a.timed))
            (omega arith) in
        record {
          row = record d.row { current_segment_index = c.segment_index + 1 };
          found = Recorded-found n k.start_sample t d;
          current = omega arith;
          contiguous = subst (Contiguous c.recording_id 0 0) (sym timed) whole;
          timed = ap length timed ∙ length-append ts (new ∷ []) ∙ omega (arith, a.timed);
          counted =
              ap (counts_from 0) d.stored
              ∙ counts_from-append 0 c.segment_index (files storage c s s) counted
                  (omega (arith, complete));
          complete =
              ap length d.stored
              ∙ length-append (files storage c s s) (c.segment_index ∷ [])
              ∙ omega (arith, complete);
        }

    Recorded-Written :
        (n : ℕ) (k : Checked) (t : Shelf W)
        → validate_wav c.wav_bytes ≡ ok n
        → Contiguous c.recording_id 0 0 (timings_of c.recording_id s.timings)
        → Started storage validate_wav c s k
        → expected_next_index (files storage c s s) ≡ ok c.segment_index
        → Recorded storage validate_wav c s n k.start_sample t
        → Written t
    Recorded-Written n k t v h a i d =
        let (counted, complete) = expected_next_index-ok (files storage c s s) c.segment_index i in
        record {
          sample_count = n;
          valid = v;
          before = record {
            row = a.row;
            found = a.found;
            current = sym a.current;
            contiguous = h;
            timed = sym a.timed;
            counted = counted;
            complete = sym complete;
          };
          after = Recorded-Agree n k t h a i d;
          timed = Recorded-timed n k t h a d;
          stored = d.stored;
        }

    abbrev written_result : WriteRecordingSegmentResult
    written_result = record { recording_id = c.recording_id; segment_index = c.segment_index }

    written :
        (t : Shelf W)
        → Written t
        → Ends
            (λ _. Written)
            (λ e. Untouched storage c s)
            (lift {A = WriteRecordingSegmentResult} (ok written_result) t)
    written t h = record { holds = h }

    save_segment-end :
        (n : ℕ) (k : Checked) (t : Shelf W)
        → validate_wav c.wav_bytes ≡ ok n
        → Contiguous c.recording_id 0 0 (timings_of c.recording_id s.timings)
        → Started storage validate_wav c s k
        → expected_next_index (files storage c s s) ≡ ok c.segment_index
        → Longer storage c s t
        → Ends
            (λ _. Written)
            (λ e. Untouched storage c s)
            ((attempt
                  (record_segment storage validate_wav c n k.start_sample)
                  (λ e. remove_segment storage validate_wav c >> lift (err e))
                >> lift (ok written_result))
              t)
    save_segment-end n k t v h a i l =
        bind-Ends
          (attempt (record_segment storage validate_wav c n k.start_sample)
            (λ e. remove_segment storage validate_wav c >> lift (err e)))
          _ t
          (attempt-Ends {V = λ _. Recorded storage validate_wav c s n k.start_sample}
            {E = λ _. Untouched storage c s} _ _ t
            (record_segment-end storage validate_wav c s L n k.start_sample t h l) (λ _ u d. d)
            (λ e u g.
              bind-Ends (remove_segment storage validate_wav c) _ u
                (remove_segment-end storage validate_wav c s L u g) (λ _ y z. record { holds = z })
                (λ x y z. z)))
          (λ _ u d. written u (Recorded-Written n k u v h a i d)) (λ x y z. z)

    -- Writing a segment, on tables whose timings of the recording have no gap: when it returns,
    -- the row, the timings and the storage agreed on the index of the segment and agree on one
    -- more; when it raises, both tables are as before, and so are the completed segments, except
    -- that the new one may have stayed behind if its finalization or its removal raised.
    pub write_segment-Ends :
        Contiguous c.recording_id 0 0 (timings_of c.recording_id s.timings)
        → Ends {A = WriteRecordingSegmentResult}
            (λ _. Written)
            (λ e. Untouched storage c s)
            (write_segment storage validate_wav c s)
    unfolding write_segment
    write_segment-Ends h =
        let same : Listed storage c s s = record {
          kept = record { rows_kept = refl; timings_kept = refl };
          listed = refl;
        } in
        let untouched =
          λ (u : Shelf W) (l : Listed storage c s u). Listed-Untouched storage c s u l in
        bind-Ends (lift (validate_wav c.wav_bytes)) _ s
          (lift-end {Q = λ n u. (validate_wav c.wav_bytes ≡ ok n) × (u ≡ s)}
            {F = λ _. Listed storage c s} s _ (λ n v. (v, refl)) (λ x. same))
          (λ n u (v, q).
            bind-Ends (check_recording storage validate_wav c) _ u
              (subst
                (λ z.
                  Ends (λ k t. Started storage validate_wav c s k × Listed storage c s t)
                    (λ e. Listed storage c s) (check_recording storage validate_wav c z))
                (sym q) (check_recording-end storage validate_wav c s h))
              (λ k t (a, l).
                bind-Ends (check_segments storage validate_wav c k) _ t
                  (check_segments-end storage validate_wav c s L k t l)
                  (λ _ t' (l', i).
                    bind-Ends (write_file storage validate_wav c k) _ t'
                      (write_file-end storage L c s k validate_wav t' l')
                      (λ _ t'' g. save_segment-end n k t'' v h a i g) (λ x y z. z))
                  (λ x. untouched))
              (λ x. untouched))
          (λ x. untouched)
