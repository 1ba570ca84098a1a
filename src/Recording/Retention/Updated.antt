-- ===== src/Recording/Retention/Updated.antt =====
-- The record that a change of the retention saves
-- (backend/app/application/use_cases/update_audio_retention.py).
use ai_meeting_copilot.Prelude.{
  ◌≤◌, ◌≡◌, refl, ap, ◌≢◌, inl, inr, Bool, true, false, ◌&&◌, ◌||◌, Option, some, arith,
  if◌then◌else◌, Bool-cases, ok, is_utc_offset, pos, DateTime,
}
use ai_meeting_copilot.Recording.Metadata.{
  is_deleted, is_manual, is_blank_code, record_check, RecordingState, RecordingDeletionStatus,
  not_scheduled, scheduled, RecordingRetentionPolicy, RecordingMetadata, RecordingMetadataRecord,
}
use ai_meeting_copilot.Recording.Validity.{IsValid}
use ai_meeting_copilot.Recording.Stored.{
  record_check-not_blank, rebuild-ok, IsStored-rebuilt, not_deleted, IsStored,
}
use ai_meeting_copilot.Recording.Expiry.{expiry-IsExpiry, IsExpiry}
use ai_meeting_copilot.Recording.Retention.{
  deletion_status_for, is_failed_status, is_scheduling_code, kept_code, update_audio_retention,
}

retained-IsValid :
    (m : RecordingMetadata) (policy : RecordingRetentionPolicy) (now : DateTime)
    (e : Option DateTime) (protected : Bool) (d : RecordingDeletionStatus)
    → IsValid m
    → m.state ≢ RecordingState.deleted
    → IsExpiry policy now e
    → m.created_at.instant ≤ now.instant
    → d ≢ RecordingDeletionStatus.deleted
    → IsValid (record m {
      retention_policy = policy;
      expires_at = e;
      protected = protected;
      deletion_status = d;
    })
retained-IsValid m policy now e protected d v s x h n = record {
  created_utc = v.created_utc;
  expires_utc = x.utc;
  anchor_utc = v.anchor_utc;
  consent_utc = v.consent_utc;
  deleted_utc = v.deleted_utc;
  duration = v.duration;
  version = v.version;
  consent = v.consent;
  recorded = v.recorded;
  kept = x.kept;
  timed = λ p _. let (t, a, b) = x.timed p in (t, a, omega (arith, b));
  erased = λ e. absurd (s e);
  retained = λ _. n;
}

not_erased :
    (policy : RecordingRetentionPolicy) (protected : Bool)
    → deletion_status_for policy protected ≢ RecordingDeletionStatus.deleted
not_erased policy protected e = elim (Bool-cases (protected || is_manual policy)) [
  | inl h ↦ cc (rw h at e)
  | inr h ↦ cc (rw h at e)
]

kept_code-not_blank :
    (r : RecordingMetadataRecord) → record_check r ≡ true → is_blank_code (kept_code r) ≡ false
kept_code-not_blank r h =
    elim (Bool-cases
      (is_failed_status r.metadata.deletion_status && is_scheduling_code r.failure_code)) [
        | inl cleared ↦ rw cleared
        | inr kept ↦ rw kept (record_check-not_blank r h)
      ]

-- Changing the retention of a stored recording that is not deleted succeeds at every UTC time of
-- the clock that is not before the creation: the record obeys the lifecycle rules again, its
-- state and consent are as before, it has the policy and protection asked for, a deletion is
-- scheduled unless the policy is manual or the recording is protected, and the expiry is one,
-- seven or thirty days behind the time of the change, as the policy says, and none under manual
-- retention.
pub update_audio_retention-IsStored :
    (policy : RecordingRetentionPolicy) (protected : Bool) (now : DateTime)
    (r : RecordingMetadataRecord)
    → IsStored r
    → is_deleted r.metadata.state ≡ false
    → now.offset ≡ some (pos 0)
    → r.metadata.created_at.instant ≤ now.instant
    → (r' : RecordingMetadataRecord) × (update_audio_retention policy protected now (some r)
        ≡ ok r')
      × IsStored r'
      × (r'.metadata.state ≡ r.metadata.state)
      × (r'.metadata.consent_confirmed ≡ r.metadata.consent_confirmed)
      × (r'.metadata.retention_policy ≡ policy)
      × (r'.metadata.protected ≡ protected)
      × (r'.metadata.deletion_status
          ≡ (if protected || is_manual policy then not_scheduled else scheduled))
      × IsExpiry policy now r'.metadata.expires_at
unfolding update_audio_retention
update_audio_retention-IsStored policy protected now r s d u h =
    let (e, found, x) = expiry-IsExpiry policy now u in
    let m = r.metadata in
    let m' = record m {
      retention_policy = policy;
      expires_at = e;
      protected = protected;
      deletion_status = deletion_status_for policy protected;
    } in
    let v =
      retained-IsValid m policy now e protected (deletion_status_for policy protected) s.valid
        (not_deleted _ d) x h (not_erased policy protected) in
    let b = kept_code-not_blank r s.named in
    (
      record r { metadata = m'; failure_code = kept_code r },
      rw (ap is_utc_offset u, d, found) (rebuild-ok r m' (kept_code r) s.named b v),
      IsStored-rebuilt r m' (kept_code r) s.named b v,
      refl,
      refl,
      refl,
      refl,
      refl,
      x,
    )
