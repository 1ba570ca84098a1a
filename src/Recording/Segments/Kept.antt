-- ===== src/Recording/Segments/Kept.antt =====
-- What the calls outside leave of the tables and of the completed segments
-- (backend/app/application/use_cases/write_recording_segment.py).
use ai_meeting_copilot.Prelude.{
  ℕ, ◌≡◌, refl, ap, ◌∙◌, ◌⊎◌, inl, inr, true, some, List, [], ◌∷◌, ◌++◌, length, Error, Result, err,
  ok, Text,
}
use ai_meeting_copilot.Exec.{lift}
use ai_meeting_copilot.Exec.Ends.{Ends, bind-Ends, attempt-Ends}
use ai_meeting_copilot.Recording.Metadata.{RecordingMetadataRecord}
use ai_meeting_copilot.Recording.Rows.{get_by_id}
use ai_meeting_copilot.Recording.Timing.Contiguous.{Contiguous}
use ai_meeting_copilot.Recording.Segments.{
  WriteRecordingSegmentCommand, Checked, timings_of, counts_from,
}
use ai_meeting_copilot.Recording.Segments.Writing.{
  SegmentStorage, Shelf, called, from_storage, write_file,
}

module _ {W : Type 0} (storage : SegmentStorage W) where
  -- What the calls of the storage leave of the completed segments. A finalization that raises may
  -- have completed the segment, and a removal that raises may have removed it.
  pub record LawfulStorage : Type 0 where
    pub listed :
        (id : ℕ) (w : W) (is : List ℕ)
        → (storage.list_segments id w).0 ≡ ok is
        → is ≡ storage.segments w id
    pub list_keeps :
        (id : ℕ) (w : W)
        → storage.segments (storage.list_segments id w).1 id ≡ storage.segments w id
    pub create_keeps :
        (id index : ℕ) (key : Text) (w : W)
        → storage.segments (storage.create_segment_writer id index key w).1 id
          ≡ storage.segments w id
    pub write_keeps :
        (id index : ℕ) (bytes : List ℕ) (w : W)
        → storage.segments (storage.write id index bytes w).1 id ≡ storage.segments w id
    pub finalized :
        (id index : ℕ) (w : W)
        → (storage.finalize id index w).0 ≡ ok tt
        → storage.segments (storage.finalize id index w).1 id
          ≡ storage.segments w id ++ (index ∷ [])
    pub finalize_keeps :
        (id index : ℕ) (w : W)
        → (storage.segments (storage.finalize id index w).1 id ≡ storage.segments w id)
          ⊎ (storage.segments (storage.finalize id index w).1 id
              ≡ storage.segments w id ++ (index ∷ []))
    pub abort_keeps :
        (id index : ℕ) (w : W)
        → storage.segments (storage.abort id index w).1 id ≡ storage.segments w id
    pub deleted :
        (id index : ℕ) (w : W) (is : List ℕ)
        → storage.segments w id ≡ is ++ (index ∷ [])
        → (storage.delete_segment id index w).0 ≡ ok tt
        → storage.segments (storage.delete_segment id index w).1 id ≡ is
    pub delete_keeps :
        (id index : ℕ) (w : W) (is : List ℕ)
        → storage.segments w id ≡ is ++ (index ∷ [])
        → (storage.segments (storage.delete_segment id index w).1 id ≡ is)
          ⊎ (storage.segments (storage.delete_segment id index w).1 id ≡ is ++ (index ∷ []))
    pub commit_keeps :
        (id : ℕ) (w : W) → storage.segments (storage.commit w).1 id ≡ storage.segments w id

  -- The row of a recording, its timings and its completed segments all count `n` segments, and
  -- the timings have no gap.
  pub record Agree (id n : ℕ) (s : Shelf W) : Type 0 where
    pub row : RecordingMetadataRecord
    pub found : get_by_id id s.rows ≡ some row
    pub current : row.current_segment_index ≡ n
    pub contiguous : Contiguous id 0 0 (timings_of id s.timings)
    pub timed : length (timings_of id s.timings) ≡ n
    pub counted : counts_from 0 (storage.segments s.world id) ≡ true
    pub complete : length (storage.segments s.world id) ≡ n

  module _ (c : WriteRecordingSegmentCommand) (s : Shelf W) where
    -- The tables are the ones of `s`.
    pub record Kept (t : Shelf W) : Type 0 where
      pub rows_kept : t.rows ≡ s.rows
      pub timings_kept : t.timings ≡ s.timings

    abbrev pub files : Shelf W → List ℕ
    files t = storage.segments t.world c.recording_id

    -- Some finalization or removal of the segment raised.
    abbrev pub Failing : Type 0
    Failing =
        (e : Error) × (w : W) × (((storage.finalize c.recording_id c.segment_index w).0 ≡ err e)
          ⊎ ((storage.delete_segment c.recording_id c.segment_index w).0 ≡ err e))

    -- The completed segments are the ones of `s`; the new one is among them only if its
    -- finalization or its removal raised.
    pub record Untouched (t : Shelf W) : Type 0 where
      pub kept : Kept t
      pub files_kept :
          (files t ≡ files s) ⊎ ((files t ≡ files s ++ (c.segment_index ∷ [])) × Failing)

    pub record Listed (t : Shelf W) : Type 0 where
      pub kept : Kept t
      pub listed : files t ≡ files s

    pub record Longer (t : Shelf W) : Type 0 where
      pub kept : Kept t
      pub longer : files t ≡ files s ++ (c.segment_index ∷ [])

    pub Listed-Untouched : (t : Shelf W) → Listed t → Untouched t
    Listed-Untouched t h = record { kept = h.kept; files_kept = inl h.listed }

module _ {W A : Type 0} where
  -- How a call outside ends: the tables are kept.
  pub called-end :
      {Q : A → Shelf W → Type 0} {F : Error → Shelf W → Type 0} (s : Shelf W) (c : Result A × W)
      → ((a : A) → c.0 ≡ ok a → Q a (record s { world = c.1 }))
      → ((e : Error) → c.0 ≡ err e → F e (record s { world = c.1 }))
      → Ends Q F (called s c)
  called-end s (ok a, w) returned raised = record { holds = returned a refl }
  called-end s (err e, w) returned raised = record { holds = raised e refl }

  pub lift-end :
      {Q : A → Shelf W → Type 0} {F : Error → Shelf W → Type 0} (s : Shelf W) (r : Result A)
      → ((a : A) → r ≡ ok a → Q a s)
      → ((e : Error) → F e s)
      → Ends Q F (lift r s)
  lift-end s (ok a) returned raised = record { holds = returned a refl }
  lift-end s (err e) returned raised = record { holds = raised e }

module _ {W : Type 0} (storage : SegmentStorage W) (L : LawfulStorage storage)
    (c : WriteRecordingSegmentCommand) (s : Shelf W) where
  -- A call that leaves the completed segments as they are.
  pub quiet-end :
      {A : Type 0} (call : W → Result A × W) (t : Shelf W)
      → storage.segments (call t.world).1 c.recording_id ≡ storage.segments t.world c.recording_id
      → Listed storage c s t
      → Ends (λ (a : A). Listed storage c s) (λ e. Listed storage c s) (from_storage call t)
  unfolding from_storage
  quiet-end call t e h =
      let kept : Listed storage c s (record t { world = (call t.world).1 }) = record {
        kept = record { rows_kept = h.kept.rows_kept; timings_kept = h.kept.timings_kept };
        listed = e ∙ h.listed;
      } in
      called-end t (call t.world) (λ a _. kept) (λ e _. kept)

  pub list-end :
      (t : Shelf W)
      → Listed storage c s t
      → Ends
          (λ is u. Listed storage c s u × (is ≡ files storage c s s))
          (λ e. Listed storage c s)
          (from_storage (storage.list_segments c.recording_id) t)
  unfolding from_storage
  list-end t h =
      let kept : Listed storage c s
          (record t { world = (storage.list_segments c.recording_id t.world).1 }) =
        record {
          kept = record { rows_kept = h.kept.rows_kept; timings_kept = h.kept.timings_kept };
          listed = L.list_keeps c.recording_id t.world ∙ h.listed;
        } in
      called-end t (storage.list_segments c.recording_id t.world)
        (λ is e. (kept, L.listed c.recording_id t.world is e ∙ h.listed)) (λ e _. kept)

  pub finalize-end :
      (t : Shelf W)
      → Listed storage c s t
      → Ends
          (λ _. Longer storage c s)
          (λ e. Untouched storage c s)
          (from_storage (storage.finalize c.recording_id c.segment_index) t)
  unfolding from_storage
  finalize-end t h =
      let kept : Kept storage c s
          (record t { world = (storage.finalize c.recording_id c.segment_index t.world).1 }) =
        record { rows_kept = h.kept.rows_kept; timings_kept = h.kept.timings_kept } in
      called-end t (storage.finalize c.recording_id c.segment_index t.world)
        (λ a e. record {
          kept = kept;
          longer =
              L.finalized c.recording_id c.segment_index t.world e
              ∙ ap (λ l. l ++ (c.segment_index ∷ [])) h.listed;
        })
        (λ x x_eq. record {
          kept = kept;
          files_kept = elim (L.finalize_keeps c.recording_id c.segment_index t.world) [
            | inl e ↦ inl (e ∙ h.listed)
            | inr e ↦
                inr (e ∙ ap (λ l. l ++ (c.segment_index ∷ [])) h.listed, (x, t.world, inl x_eq))
          ];
        })

  -- A call after the finalization that leaves the completed segments as they are.
  pub abort-end :
      (t : Shelf W)
      → Untouched storage c s t
      → Ends
          (λ _. Untouched storage c s)
          (λ e. Untouched storage c s)
          (from_storage (storage.abort c.recording_id c.segment_index) t)
  unfolding from_storage
  abort-end t h =
      let e = L.abort_keeps c.recording_id c.segment_index t.world in
      let kept : Untouched storage c s
          (record t { world = (storage.abort c.recording_id c.segment_index t.world).1 }) =
        record {
          kept = record { rows_kept = h.kept.rows_kept; timings_kept = h.kept.timings_kept };
          files_kept = elim h.files_kept [ inl g ↦ inl (e ∙ g) | inr g ↦ inr (e ∙ g.0, g.1) ];
        } in
      called-end t (storage.abort c.recording_id c.segment_index t.world) (λ a _. kept)
        (λ e _. kept)

  pub delete-end :
      (t : Shelf W)
      → Longer storage c s t
      → Ends
          (λ _. Untouched storage c s)
          (λ e. Untouched storage c s)
          (from_storage (storage.delete_segment c.recording_id c.segment_index) t)
  unfolding from_storage
  delete-end t h =
      let kept : Kept storage c s
          (record t { world = (storage.delete_segment c.recording_id c.segment_index t.world).1 }) =
        record { rows_kept = h.kept.rows_kept; timings_kept = h.kept.timings_kept } in
      called-end t (storage.delete_segment c.recording_id c.segment_index t.world)
        (λ a e. record {
          kept = kept;
          files_kept =
              inl
                (L.deleted c.recording_id c.segment_index t.world (files storage c s s) h.longer e);
        })
        (λ x x_eq. record {
          kept = kept;
          files_kept =
              elim (L.delete_keeps c.recording_id c.segment_index t.world (files storage c s s)
                h.longer) [ inl e ↦ inl e | inr e ↦ inr (e, (x, t.world, inr x_eq)) ];
        })

  -- The file of the segment is written, or the tables are as before.
  pub write_file-end :
      (k : Checked) (validate_wav : List ℕ → Result ℕ) (t : Shelf W)
      → Listed storage c s t
      → Ends
          (λ _. Longer storage c s)
          (λ e. Untouched storage c s)
          (write_file storage validate_wav c k t)
  unfolding write_file
  write_file-end k validate_wav t h =
      bind-Ends
        (from_storage
          (storage.create_segment_writer c.recording_id c.segment_index k.key_reference))
        _ t
        (quiet-end (storage.create_segment_writer c.recording_id c.segment_index k.key_reference) t
          (L.create_keeps c.recording_id c.segment_index k.key_reference t.world) h)
        (λ _ u g.
          attempt-Ends _ _ u
            (bind-Ends (from_storage (storage.write c.recording_id c.segment_index c.wav_bytes)) _ u
              (quiet-end (storage.write c.recording_id c.segment_index c.wav_bytes) u
                (L.write_keeps c.recording_id c.segment_index c.wav_bytes u.world) g)
              (λ _ v. finalize-end v) (λ e v. Listed-Untouched storage c s v))
            (λ _ v x. x)
            (λ e v x.
              bind-Ends (from_storage (storage.abort c.recording_id c.segment_index)) _ v
                (abort-end v x) (λ _ z y. record { holds = y }) (λ e z y. y)))
        (λ e u. Listed-Untouched storage c s u)
