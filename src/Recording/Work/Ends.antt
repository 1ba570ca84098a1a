-- ===== src/Recording/Work/Ends.antt =====
-- What stays true at every moment of the computations of Recording/Work.
use ai_meeting_copilot.Prelude.{
  ℕ, ◌≡◌, sym, ◌∙◌, ◌≢◌, false, List, [], ◌∷◌, recording_segment_not_found, recording_key_not_found,
  err, ok, Text,
}
use ai_meeting_copilot.Recording.Metadata.{RecordingMetadataRecord, RecordingState}
use ai_meeting_copilot.Recording.Stored.{IsStored}
use ai_meeting_copilot.Recording.Rows.{save, All, save-All}
use ai_meeting_copilot.Recording.Work.{Moment, System, Resources, moments, advance}

module _ {W : Type 0} (R : Resources W) where
  -- Nothing that was answered is open again.
  pub record Fewer (v w : W) : Type 0 where
    pub recordings : (id : ℕ) → R.is_recording_open v id ≡ false → R.is_recording_open w id ≡ false
    pub keys : (key : Text) → R.is_key_open v key ≡ false → R.is_key_open w key ≡ false

  -- The same is open.
  pub record Same (v w : W) : Type 0 where
    pub recordings : (id : ℕ) → R.is_recording_open v id ≡ R.is_recording_open w id
    pub keys : (key : Text) → R.is_key_open v key ≡ R.is_key_open w key

  -- The storage has answered that the audio of a record is deleted or not there, and the key store
  -- that its key is.
  pub record IsSettled (w : W) (r : RecordingMetadataRecord) : Type 0 where
    pub recording : R.is_recording_open w r.metadata.recording_id ≡ false
    pub key : R.is_key_open w r.key_reference ≡ false

  -- A record that obeys the lifecycle rules, and is settled if it says that it is deleted.
  pub record IsHonest (w : W) (r : RecordingMetadataRecord) : Type 0 where
    pub stored : IsStored r
    pub erased : r.metadata.state ≡ RecordingState.deleted → IsSettled w r

  unfoldable pub IsSound : Moment W → Type 0
  IsSound m = All (IsHonest m.world) m.rows

  -- Every row is honest at this moment and was so at every moment before.
  unfoldable pub Safe : System W → Type 0
  Safe s = All IsSound (moments s)

  -- An answer of the storage or the key store that something is deleted or not there is kept, no
  -- call takes one back, and a call answers only for what it is asked. Recording/Work/Observed shows
  -- this of all services.
  pub record Lawful : Type 0 where
    pub recording_deleted :
        (id : ℕ) (w : W)
        → (R.delete_recording id w).0 ≡ ok tt
        → R.is_recording_open (R.delete_recording id w).1 id ≡ false
    pub recording_not_found :
        (id : ℕ) (w : W)
        → (R.delete_recording id w).0 ≡ err recording_segment_not_found
        → R.is_recording_open (R.delete_recording id w).1 id ≡ false
    pub key_deleted :
        (key : Text) (w : W)
        → (R.delete_key key w).0 ≡ ok tt
        → R.is_key_open (R.delete_key key w).1 key ≡ false
    pub key_not_found :
        (key : Text) (w : W)
        → (R.delete_key key w).0 ≡ err recording_key_not_found
        → R.is_key_open (R.delete_key key w).1 key ≡ false
    pub delete_recording_fewer : (id : ℕ) (w : W) → Fewer w (R.delete_recording id w).1
    pub delete_key_fewer : (key : Text) (w : W) → Fewer w (R.delete_key key w).1
    pub other_recordings :
        (id : ℕ) (w : W) (j : ℕ)
        → j ≢ id
        → R.is_recording_open w j ≡ R.is_recording_open (R.delete_recording id w).1 j
    pub key_deletion_recordings :
        (key : Text) (w : W) (j : ℕ)
        → R.is_recording_open w j ≡ R.is_recording_open (R.delete_key key w).1 j
    pub recording_exists_same : (id : ℕ) (w : W) → Same w (R.recording_exists id w).1
    pub key_exists_same : (key : Text) (w : W) → Same w (R.key_exists key w).1
    pub query_same : (w : W) → Same w (R.query w).1
    pub commit_same : (w : W) → Same w (R.commit w).1

  pub Same-Fewer : (v w : W) → Same v w → Fewer v w
  Same-Fewer v w f = record {
    recordings = λ id h. sym (f.recordings id) ∙ h;
    keys = λ key h. sym (f.keys key) ∙ h;
  }

  pub Fewer-refl : (w : W) → Fewer w w
  Fewer-refl w = record { recordings = λ id h. h; keys = λ key h. h }

  pub Fewer-trans : (u v w : W) → Fewer u v → Fewer v w → Fewer u w
  Fewer-trans u v w f g = record {
    recordings = λ id h. g.recordings id (f.recordings id h);
    keys = λ key h. g.keys key (f.keys key h);
  }

  pub IsSettled-Fewer :
      (v w : W) (r : RecordingMetadataRecord) → Fewer v w → IsSettled v r → IsSettled w r
  IsSettled-Fewer v w r f e = record {
    recording = f.recordings _ e.recording;
    key = f.keys _ e.key;
  }

  IsHonest-Fewer :
      (v w : W) (rows : List RecordingMetadataRecord)
      → Fewer v w
      → All (IsHonest v) rows
      → All (IsHonest w) rows
  unfolding All
  IsHonest-Fewer v w [] f a = tt
  IsHonest-Fewer v w (r ∷ rs) f (h, a) = (
    record { stored = h.stored; erased = λ d. IsSettled-Fewer v w r f (h.erased d) },
    IsHonest-Fewer v w rs f a,
  )

  pub now_sound : (s : System W) → Safe s → All (IsHonest s.now.world) s.now.rows
  unfolding All Safe IsSound
  now_sound s h = h.0

  -- A call that brings nothing back and leaves the table alone keeps every moment sound.
  pub quiet-Safe :
      (s : System W) (w : W)
      → Safe s
      → Fewer s.now.world w
      → Safe (advance s (record { rows = s.now.rows; world = w }))
  unfolding All Safe IsSound
  quiet-Safe s w h f = (IsHonest-Fewer s.now.world w s.now.rows f h.0, h)

  -- So does writing an honest row.
  pub saved-Safe :
      (s : System W) (w : W) (r : RecordingMetadataRecord)
      → Safe s
      → Fewer s.now.world w
      → IsHonest w r
      → Safe (advance s (record { rows = save r s.now.rows; world = w }))
  unfolding All Safe IsSound
  saved-Safe s w r h f g =
      (save-All (IsHonest w) r s.now.rows g (IsHonest-Fewer s.now.world w s.now.rows f h.0), h)
