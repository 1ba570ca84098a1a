-- ===== src/Recording/Cleanup/Record.antt =====
-- The cleanup of one recording, `_cleanup_record` of
-- backend/app/application/services/recording_retention_cleanup.py.
use mathlib.Core.Path.{subst}
use ai_meeting_copilot.Prelude.{
  ℕ, ◌≡◌, refl, sym, ap, ◌∙◌, inl, Bool, true, false, Option, none, some, Error,
  recording_segment_not_found, recording_key_not_found, cancelled_error, DateTime, pos,
}
use ai_meeting_copilot.Recording.Metadata.{
  RecordingMetadataRecord, storage_delete_failed, key_delete_failed, reconciliation_failed,
}
use ai_meeting_copilot.Exec.Ends.{Ends, try_else-Ends, unless_cancelled-Ends}
use ai_meeting_copilot.Recording.Rows.{get_by_id}
use ai_meeting_copilot.Recording.Work.{System, Resources}
use ai_meeting_copilot.Recording.Work.Ends.{Lawful, Safe}
use ai_meeting_copilot.Recording.Work.Observed.{
  RecordingServices, Observed, observed, observed-Lawful,
}
use ai_meeting_copilot.Recording.Deletion.{mark_deleting}
use ai_meeting_copilot.Recording.Work.Steps.{Later, Transited, get_by_id-id}
use ai_meeting_copilot.Recording.Work.Queries.{transit-Ends}
use ai_meeting_copilot.Recording.Work.Marks.{mark_deleting-Marked}
use ai_meeting_copilot.Recording.Work.Gone.{
  Gone, Refused, Later-trans, absent-Gone, delete_recording-Ends, delete_key-Ends,
}
use ai_meeting_copilot.Recording.CleanupResult.{missing}
use ai_meeting_copilot.Recording.Cleanup.{
  finalize_item, key_failed, cleanup_key, storage_failed_as, cleanup_found, cleanup_record,
}
use ai_meeting_copilot.Recording.Cleanup.Cleaned.{
  Cleaned, Stopped, Emptied, item-Ends, fail-Ends, finalize_item-Ends,
}

module _ {W : Type 0} (R : Resources W) (L : Lawful R) (id : ℕ) (s : System W) where
  -- The storage holds nothing of the row that was marked as being deleted.
  record Silent (r : RecordingMetadataRecord) (t : System W) : Type 0 where
    later : Later R s t
    found : get_by_id id t.now.rows ≡ some r
    gone : R.is_recording_open t.now.world id ≡ false

  emptied :
      (r : RecordingMetadataRecord) (t u : System W)
      → Silent r t
      → Gone R (λ w. R.is_key_open w r.key_reference) t u
      → Emptied R L id s r u
  emptied r t u k l = record {
    later = Later-trans R s t u k.later l.later;
    found = ap (get_by_id id) l.rows ∙ k.found;
    erased = record {
      recording =
          subst (λ i. R.is_recording_open u.now.world i ≡ false)
            (sym (get_by_id-id id t.now.rows r k.found)) (l.later.fewer.recordings id k.gone);
      key = l.gone;
    };
  }

  key_failed-Ends :
      (now : DateTime) (gone : Bool) (r : RecordingMetadataRecord) (e : Error) (t u : System W)
      → now.offset ≡ some (pos 0)
      → Silent r t
      → Refused R (λ w. R.is_key_open w r.key_reference) recording_key_not_found t e u
      → Ends
          (Cleaned R L id s)
          (Stopped R L id s)
          (key_failed R id (finalize_item R id now gone) e u)
  key_failed-Ends now gone r cancelled_error t u z k l = record {
    holds = record { later = Later-trans R s t u k.later l.later; cancelled = refl };
  }
  key_failed-Ends now gone r recording_key_not_found t u z k l =
      finalize_item-Ends R L id s now gone r u z (emptied r t u k (absent-Gone R l))
  key_failed-Ends now gone r e t u z k l =
      fail-Ends R L id s key_delete_failed u refl (Later-trans R s t u k.later l.later)

  cleanup_key-Ends :
      (now : DateTime) (gone : Bool) (r : RecordingMetadataRecord) (t : System W)
      → now.offset ≡ some (pos 0)
      → Silent r t
      → Ends (Cleaned R L id s) (Stopped R L id s) (cleanup_key R id now r gone t)
  cleanup_key-Ends now gone r t z k =
      try_else-Ends _ _ _ t (delete_key-Ends R L r t k.later.safe)
        (λ _ u l. finalize_item-Ends R L id s now gone r u z (emptied r t u k l))
        (λ e u l. key_failed-Ends now gone r e t u z k l)

  silent :
      (r : RecordingMetadataRecord) (t u : System W)
      → Later R s t
      → get_by_id id t.now.rows ≡ some r
      → Gone R (λ w. R.is_recording_open w id) t u
      → Silent r u
  silent r t u k f l = record {
    later = Later-trans R s t u k l.later;
    found = ap (get_by_id id) l.rows ∙ f;
    gone = l.gone;
  }

  storage_failed_as-Ends :
      (now : DateTime) (r : RecordingMetadataRecord) (e : Error) (t u : System W)
      → now.offset ≡ some (pos 0)
      → Later R s t
      → get_by_id id t.now.rows ≡ some r
      → Refused R (λ w. R.is_recording_open w id) recording_segment_not_found t e u
      → Ends
          (Cleaned R L id s)
          (Stopped R L id s)
          (storage_failed_as R id (cleanup_key R id now r true) e u)
  storage_failed_as-Ends now r cancelled_error t u z k f l = record {
    holds = record { later = Later-trans R s t u k l.later; cancelled = refl };
  }
  storage_failed_as-Ends now r recording_segment_not_found t u z k f l =
      cleanup_key-Ends now true r u z (silent r t u k f (absent-Gone R l))
  storage_failed_as-Ends now r e t u z k f l =
      fail-Ends R L id s storage_delete_failed u refl (Later-trans R s t u k l.later)

  cleanup_found-Ends :
      (now : DateTime) (o : Option RecordingMetadataRecord) (t : System W)
      → now.offset ≡ some (pos 0)
      → Transited R id mark_deleting s o t
      → Ends (Cleaned R L id s) (Stopped R L id s) (cleanup_found R id now o t)
  cleanup_found-Ends now none t z k =
      item-Ends R L id s missing t k.later (λ e. cc)
        (λ e. inl (ap (get_by_id id) k.outcome.1 ∙ k.outcome.0))
  cleanup_found-Ends now (some r) t z k =
      let f = k.outcome.read_back in
      try_else-Ends _ _ _ t (delete_recording-Ends R L id t k.later.safe)
        (λ _ u l. cleanup_key-Ends now false r u z (silent r t u k.later f l))
        (λ e u l. storage_failed_as-Ends now r e t u z k.later f l)

  pub cleanup_record-end :
      (now : DateTime)
      → now.offset ≡ some (pos 0)
      → Safe R s
      → Ends (Cleaned R L id s) (Stopped R L id s) (cleanup_record R now id s)
  unfolding cleanup_record
  cleanup_record-end now z h =
      try_else-Ends _ _ _ s
        (transit-Ends R L id s h mark_deleting
          λ x x' e i g. mark_deleting-Marked R s.now.world x i x' g)
        (λ o t k. cleanup_found-Ends now o t z k)
        (λ e t k.
          unless_cancelled-Ends _ e t (fail-Ends R L id s reconciliation_failed t refl k.later)
            (record { later = k.later; cancelled = refl }))

-- Cleaning up one recording at a UTC time, whatever the storage, the key store and the database
-- answer or raise. Suppose that every row obeys the lifecycle rules, and that of every deleted row
-- the storage has answered that its audio is deleted or not there, and the key store that its key
-- is. Then this holds at every moment, and nothing is raised but a cancellation. The item is of this
-- recording; if it says that the recording was deleted, its row is deleted and the storage and the
-- key store have so answered for it; if it says that the recording was missing, this holds too or
-- there is no row.
pub cleanup_record-Ends :
    {V : Type 0} (S : RecordingServices V) (id : ℕ) (s : System (Observed V)) (now : DateTime)
    → now.offset ≡ some (pos 0)
    → Safe (observed S) s
    → Ends
        (Cleaned (observed S) (observed-Lawful S) id s)
        (Stopped (observed S) (observed-Lawful S) id s)
        (cleanup_record (observed S) now id s)
cleanup_record-Ends S id s now z h =
    cleanup_record-end (observed S) (observed-Lawful S) id s now z h
