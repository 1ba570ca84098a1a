-- ===== src/Tests/Maintenance.antt =====
-- The theorems about the deletion of recordings at a table, a storage and a key store of one
-- recording.
use ai_meeting_copilot.Prelude.{
  ℕ, ◌≡◌, refl, sym, Bool, true, false, none, some, [], ◌∷◌, is_space, ◌==◌, if◌then◌else◌,
  recording_segment_not_found, recording_key_not_found, err, ok, Text, codes, ◌=ᵗ◌,
}
use ai_meeting_copilot.Recording.Metadata.{
  RecordingMetadataRecord, metadata_post_init, record_post_init,
}
use ai_meeting_copilot.Exec.{attempt, ◌>>=◌}
use ai_meeting_copilot.Exec.Ends.{Ends}
use ai_meeting_copilot.Recording.Deletion.{rebuild, mark_deleting, mark_deleted}
use ai_meeting_copilot.Recording.Stored.{IsStored}
use ai_meeting_copilot.Recording.Rows.{get_by_id, get_by_meeting_id, save, All, some-injective}
use ai_meeting_copilot.Recording.Work.{
  System, Resources, external, save_and_commit, transit, key_reference_post_init, delete_key_of,
}
use ai_meeting_copilot.Recording.Work.Ends.{Lawful, IsSound, Safe}
use ai_meeting_copilot.Recording.Work.Observed.{
  RecordingServices, Observed, observed, observed-Lawful,
}
use ai_meeting_copilot.Recording.Cleanup.{cleanup_record, run_once}
use ai_meeting_copilot.Recording.Cleanup.Cleaned.{Cleaned, Stopped}
use ai_meeting_copilot.Recording.Cleanup.Record.{cleanup_record-Ends}
use ai_meeting_copilot.Recording.Cleanup.Once.{ReportedOnce, IsInterrupted, run_once-Ends}
use ai_meeting_copilot.Recording.Reconcile.{reconcile}
use ai_meeting_copilot.Recording.Reconcile.Record.{IsOther}
use ai_meeting_copilot.Recording.Reconcile.Whole.{Reconciled, IsBrokenOff, reconcile-Ends}
use ai_meeting_copilot.Recording.Erasure.{
  mark_row_deleting, mark_row_deleted, delete_external, delete_meeting_audio,
}
use ai_meeting_copilot.Recording.Erasure.Removed.{Reported, IsKeyed, delete_meeting_audio-Ends}
use ai_meeting_copilot.Tests.Recordings.{at, stored, stored-IsStored}

-- Which recordings and which keys there are. The storage keeps its files and answers all the same.
record Disk : Type 0 where
  recordings : ℕ → Bool
  keys : Text → Bool

abbrev remove_key : Text → Disk → Disk
remove_key key w = record w { keys = λ k. if k =ᵗ key then false else w.keys k }

abbrev disk : RecordingServices Disk
disk = record {
  delete_recording =
      λ id w. (if w.recordings id then ok tt else err recording_segment_not_found, w);
  delete_key =
      λ key w. (if w.keys key then ok tt else err recording_key_not_found, remove_key key w);
  recording_exists = λ id w. (ok (w.recordings id), w);
  key_exists = λ key w. (ok (w.keys key), w);
  query = λ w. (ok tt, w);
  commit = λ w. (ok tt, w);
}

abbrev watched : Resources (Observed Disk)
watched = observed disk

abbrev watched-Lawful : Lawful watched
watched-Lawful = observed-Lawful disk

abbrev kept_row : RecordingMetadataRecord
kept_row = record stored { key_reference = codes "0123456789abcdef" }

abbrev one_row : System (Observed Disk)
one_row = record {
  now = record {
    rows = kept_row ∷ [];
    world = record {
      world = record { recordings = λ id. id == 7; keys = λ key. true };
      open_recordings = λ id. true;
      open_keys = λ key. true;
    };
  };
  past = [];
}

kept_row-IsStored : IsStored kept_row
unfolding is_space
kept_row-IsStored = record { named = refl; valid = stored-IsStored.valid }

one_row-Safe : Safe watched one_row
unfolding Safe IsSound All
one_row-Safe = ((record { stored = kept_row-IsStored; erased = λ e. cc }, tt), tt)

if_row : (b : Bool) (x r : RecordingMetadataRecord) → (if b then some x else none) ≡ some r → x ≡ r
if_row true x r h = some-injective x r h
if_row false x r h = cc

one_row-IsKeyed : IsKeyed watched one_row.now.rows
unfolding IsKeyed get_by_meeting_id get_by_id
one_row-IsKeyed meeting r h = rw (sym (if_row (1 == meeting) kept_row r h))

delete_meeting_audio-Ends_example :
    Ends
      (λ result t. Reported watched 1 one_row result t)
      (λ _ t. Safe watched t)
      (delete_meeting_audio watched (at 2000) 1 one_row)
delete_meeting_audio-Ends_example =
    delete_meeting_audio-Ends disk (at 2000) 1 one_row one_row-Safe one_row-IsKeyed

cleanup_record-Ends_example :
    Ends
      (Cleaned watched watched-Lawful 7 one_row)
      (Stopped watched watched-Lawful 7 one_row)
      (cleanup_record watched (at 2000) 7 one_row)
cleanup_record-Ends_example = cleanup_record-Ends disk 7 one_row (at 2000) refl one_row-Safe

run_once-Ends_example :
    Ends
      (λ result t. ReportedOnce watched watched-Lawful (at 700000) one_row result t)
      (λ e t. IsInterrupted watched watched-Lawful (at 700000) one_row e t)
      (run_once watched (at 700000) one_row)
run_once-Ends_example = run_once-Ends disk (at 700000) one_row refl one_row-Safe

one_row-IsOther : All (IsOther 7) one_row.now.rows
unfolding All
one_row-IsOther = ((λ e. cc), tt)

reconcile-Ends_example :
    Ends
      (λ result t. Reconciled watched watched-Lawful 7 one_row result t)
      (λ e t. IsBrokenOff watched watched-Lawful 7 one_row e t)
      (reconcile watched (at 2000) one_row)
reconcile-Ends_example = reconcile-Ends disk 7 (at 2000) one_row refl one_row-Safe one_row-IsOther

-- A run that deletes the audio of the meeting.
deletes :
    (delete_meeting_audio watched (at 2000) 1 one_row).0
    ≡ ok (record { meeting_id = 1; recording_id = some 7; deleted = true; already_absent = false })
unfolding delete_meeting_audio ◌>>=◌ get_by_meeting_id mark_row_deleting transit get_by_id
    mark_deleting rebuild metadata_post_init record_post_init is_space save_and_commit
    delete_external external attempt delete_key_of key_reference_post_init mark_row_deleted
    mark_deleted save
deletes = refl
