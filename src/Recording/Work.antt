-- ===== src/Recording/Work.antt =====
-- What the deletion, the cleanup and the reconciliation of recordings work on: the table behind
-- the units of work, the storage and the key store (backend/app/application/interfaces), as
-- computations that may raise and keep what was done before they raise.
pub mod Ends
pub mod Observed
pub mod Steps
pub mod Queries
pub mod Marks
pub mod Gone
use ai_meeting_copilot.Prelude.{
  ℕ, Bool, true, false, not, ◌&&◌, ◌||◌, Option, none, some, List, ◌∷◌, arith, leb, ◌==◌,
  if◌then◌else◌, length, all, Error, application_validation, recording_playback_unavailable,
  recording_storage_error, recording_segment_not_found, recording_segment_lifecycle,
  recording_key_store_error, recording_key_not_found, Result, err, ok, Text,
}
use ai_meeting_copilot.Exec.{Exec, lift, ◌>>=◌, ◌>>◌}
use ai_meeting_copilot.Recording.Metadata.{RecordingMetadataRecord}
use ai_meeting_copilot.Recording.Rows.{get_by_id, save}

-- What a table and the world outside hold between two effects: what is left if the process stops.
pub record Moment (W : Type 0) : Type 0 where
  pub rows : List RecordingMetadataRecord
  pub world : W

-- The moment now, and the moments before it, the last one first.
pub record System (W : Type 0) : Type 0 where
  pub now : Moment W
  pub past : List (Moment W)

abbrev pub moments : {W : Type 0} → System W → List (Moment W)
moments s = s.now ∷ s.past

-- The time at which a call ends is a moment of its own.
abbrev pub advance : {W : Type 0} → System W → Moment W → System W
advance s m = record { now = m; past = s.now ∷ s.past }

-- `RecordingStorage`, `RecordingKeyStore`, a query of the table and `UnitOfWork.commit`, on a world
-- of the parameter's choice. `is_recording_open` and `is_key_open` say of which recordings and keys
-- nobody has answered yet that they are deleted or not there; the program does not see them.
pub record Resources (W : Type 0) : Type 0 where
  pub delete_recording : ℕ → W → Result (Unit {0}) × W
  pub delete_key : Text → W → Result (Unit {0}) × W
  pub recording_exists : ℕ → W → Result Bool × W
  pub key_exists : Text → W → Result Bool × W
  pub query : W → Result (Unit {0}) × W
  pub commit : W → Result (Unit {0}) × W
  pub is_recording_open : W → ℕ → Bool
  pub is_key_open : W → Text → Bool

abbrev pub Run : Type 0 → Type 0 → Type 0
Run W A = Exec (System W) A

module _ {W A : Type 0} where
  abbrev pub outside : System W → Result A × W → Result A × System W
  outside s (r, w) = (r, advance s (record { rows = s.now.rows; world = w }))

  -- A call of the storage or of the key store.
  unfoldable pub external : (W → Result A × W) → Run W A
  external call s = outside s (call s.now.world)

module _ {W : Type 0} (R : Resources W) where
  abbrev pub committed :
      System W → List RecordingMetadataRecord → Result (Unit {0}) × W → Result (Unit {0}) × System W
  committed s rows (ok done, w) = (ok done, advance s (record { rows = rows; world = w }))
  committed s rows (err e, w) = (err e, advance s (record { rows = s.now.rows; world = w }))

  -- `recordings.save(r); commit()`: the table changes if the commit does not raise.
  unfoldable pub save_and_commit : RecordingMetadataRecord → Run W (Unit {0})
  save_and_commit r s = committed s (save r s.now.rows) (R.commit s.now.world)

  abbrev pub save_result : Result RecordingMetadataRecord → Run W (Option RecordingMetadataRecord)
  save_result (err e) = lift (err e)
  save_result (ok r) = save_and_commit r >> lift (ok (some r))

  abbrev pub transit_row :
      (RecordingMetadataRecord → Result RecordingMetadataRecord)
      → Option RecordingMetadataRecord
      → Run W (Option RecordingMetadataRecord)
  transit_row f none = lift (ok none)
  transit_row f (some r) = save_result (f r)

  -- One unit of work: a record is read by its id, changed, saved and committed; none without it.
  unfoldable pub transit :
      ℕ
      → (RecordingMetadataRecord → Result RecordingMetadataRecord)
      → Run W (Option RecordingMetadataRecord)
  transit id f = external R.query >> (λ s. transit_row f (get_by_id id s.now.rows) s)

-- `isinstance(error, …)` for the exceptions of the storage and of the key store
abbrev pub is_storage_error : Error → Bool
is_storage_error recording_storage_error = true
is_storage_error recording_segment_not_found = true
is_storage_error recording_segment_lifecycle = true
is_storage_error recording_playback_unavailable = true
is_storage_error _ = false

abbrev pub is_key_store_error : Error → Bool
is_key_store_error recording_key_store_error = true
is_key_store_error recording_key_not_found = true
is_key_store_error _ = false

-- `[a-zA-Z0-9_-]`
abbrev is_reference_code : ℕ → Bool
is_reference_code c =
    (leb 97 c && leb c 122)
    || (leb 65 c && leb c 90)
    || (leb 48 c && leb c 57)
    || c == 95
    || c == 45

abbrev pub is_reference : Text → Bool
is_reference t = leb 16 (length t) && leb (length t) 128 && all is_reference_code t

-- `RecordingKeyReference.__post_init__`
unfoldable pub key_reference_post_init : Text → Result Text
key_reference_post_init t = if is_reference t then ok t else err application_validation

module _ {W : Type 0} (R : Resources W) where
  -- `delete_key(RecordingKeyReference(value=…))`
  unfoldable pub delete_key_of : RecordingMetadataRecord → Run W (Unit {0})
  delete_key_of r = do
    reference ← lift (key_reference_post_init r.key_reference)
    external (R.delete_key reference)
