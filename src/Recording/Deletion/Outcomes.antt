-- ===== src/Recording/Deletion/Outcomes.antt =====
-- The results of the transitions of
-- backend/app/application/services/recording_deletion_state.py on stored records.
use ai_meeting_copilot.Prelude.{
  ◌≡◌, refl, ap, ◌≢◌, ◌⊎◌, inl, inr, true, false, ◌&&◌, none, some, arith, ==_refl, Bool-cases,
  and_both, invalid_state_transition, err, ok, is_utc_offset, pos, DateTime,
}
use ai_meeting_copilot.Recording.Metadata.{
  is_deleted, is_blank_code, RecordingState, RecordingDeletionStatus, FailureCode, storage_missing,
  RecordingMetadata, RecordingMetadataRecord,
}
use ai_meeting_copilot.Recording.Validity.{IsValid}
use ai_meeting_copilot.Recording.Stored.{
  record_check-not_blank, rebuild-ok, IsStored-rebuilt, not_deleted, deleted_state, same, IsStored,
  SameRecording,
}
use ai_meeting_copilot.Recording.Deletion.{
  is_active, is_approved, mark_deleting, same_time, erased_metadata, mark_deleted,
  mark_deletion_failed, mark_storage_missing,
}

status-IsValid :
    (m : RecordingMetadata) (d : RecordingDeletionStatus)
    → IsValid m
    → m.state ≢ RecordingState.deleted
    → d ≢ RecordingDeletionStatus.deleted
    → IsValid (record m { deletion_status = d })
status-IsValid m d v s n = record {
  created_utc = v.created_utc;
  expires_utc = v.expires_utc;
  anchor_utc = v.anchor_utc;
  consent_utc = v.consent_utc;
  deleted_utc = v.deleted_utc;
  duration = v.duration;
  version = v.version;
  consent = v.consent;
  recorded = v.recorded;
  kept = v.kept;
  timed = v.timed;
  erased = λ e. absurd (s e);
  retained = λ _. n;
}

missing-IsValid :
    (m : RecordingMetadata)
    → IsValid m
    → m.state ≢ RecordingState.deleted
    → IsValid (record m {
      state = RecordingState.missing;
      deletion_status = RecordingDeletionStatus.failed;
    })
missing-IsValid m v s = record {
  created_utc = v.created_utc;
  expires_utc = v.expires_utc;
  anchor_utc = v.anchor_utc;
  consent_utc = v.consent_utc;
  deleted_utc = v.deleted_utc;
  duration = v.duration;
  version = v.version;
  consent = v.consent;
  recorded = λ e. cc;
  kept = v.kept;
  timed = λ p _. v.timed p s;
  erased = λ e. cc;
  retained = λ _ e. cc;
}

erased-IsValid :
    (m : RecordingMetadata) (t : DateTime)
    → IsValid m
    → t.offset ≡ some (pos 0)
    → IsValid (erased_metadata m t)
erased-IsValid m t v u = record {
  created_utc = v.created_utc;
  expires_utc = λ s e. cc;
  anchor_utc = v.anchor_utc;
  consent_utc = v.consent_utc;
  deleted_utc = λ s e. cc;
  duration = v.duration;
  version = v.version;
  consent = v.consent;
  recorded = λ e. cc;
  kept = λ _. refl;
  timed = λ _ n. absurd (n refl);
  erased = λ _. (refl, λ e. cc);
  retained = λ n. absurd (n refl);
}

approved-not_blank : (c : FailureCode) → is_approved c ≡ true → is_blank_code (some c) ≡ false
approved-not_blank c h = ground arith

utc_offset : (t : DateTime) → t.offset ≡ some (pos 0) → is_utc_offset t.offset ≡ true
utc_offset t u = ap is_utc_offset u

-- A recording that is being captured is refused by every transition that ends in deletion.
pub active_refused :
    (r : RecordingMetadataRecord) (t : DateTime)
    → is_active r.metadata.state ≡ true
    → t.offset ≡ some (pos 0)
    → (mark_deleting r ≡ err invalid_state_transition)
      × (mark_deleted r t ≡ err invalid_state_transition)
      × (mark_storage_missing r ≡ err invalid_state_transition)
unfolding mark_deleting mark_deleted mark_storage_missing
active_refused r t h u = (rw h, rw (u, h), rw h)

-- Marking a stored recording that is not being captured as being deleted succeeds: the record
-- obeys the lifecycle rules again, keeps its identity and its state, and is under deletion unless
-- it was deleted before, when it is returned as it was.
pub mark_deleting-IsStored :
    (r : RecordingMetadataRecord)
    → IsStored r
    → is_active r.metadata.state ≡ false
    → (r' : RecordingMetadataRecord) × (mark_deleting r ≡ ok r')
      × IsStored r'
      × SameRecording r r'
      × (r'.metadata.state ≡ r.metadata.state)
      × ((r.metadata.state ≡ RecordingState.deleted) × (r' ≡ r)
          ⊎ (r'.metadata.deletion_status ≡ RecordingDeletionStatus.deleting))
unfolding mark_deleting
mark_deleting-IsStored r s a = elim (Bool-cases (is_deleted r.metadata.state)) [
  | inl gone ↦ (r, rw (a, gone), s, same r, refl, inl (deleted_state _ gone, refl))
  | inr here ↦
      let m = r.metadata in
      let m' = record m { deletion_status = RecordingDeletionStatus.deleting } in
      let v =
        status-IsValid m RecordingDeletionStatus.deleting s.valid (not_deleted _ here) (λ e. cc) in
      let b = record_check-not_blank r s.named in
      (
        record r { metadata = m' },
        rw (a, here) (rebuild-ok r m' r.failure_code s.named b v),
        IsStored-rebuilt r m' r.failure_code s.named b v,
        record {
          recording = refl;
          meeting = refl;
          created = refl;
          policy = refl;
          token = refl;
          key = refl;
          index = refl;
        },
        refl,
        inr refl,
      )
]

-- Marking a stored recording that is not being captured as deleted succeeds at every UTC time:
-- the record obeys the lifecycle rules again, keeps its identity, and is deleted at that instant.
pub mark_deleted-IsStored :
    (r : RecordingMetadataRecord) (t : DateTime)
    → IsStored r
    → is_active r.metadata.state ≡ false
    → t.offset ≡ some (pos 0)
    → (r' : RecordingMetadataRecord) × (mark_deleted r t ≡ ok r')
      × IsStored r'
      × SameRecording r r'
      × (r'.metadata.state ≡ RecordingState.deleted)
      × (r'.metadata.deletion_status ≡ RecordingDeletionStatus.deleted)
      × (same_time r'.metadata.deleted_at t ≡ true)
unfolding mark_deleted
mark_deleted-IsStored r t s a u =
    elim (Bool-cases (is_deleted r.metadata.state && same_time r.metadata.deleted_at t)) [
      | inl gone ↦
          let (d, e) = and_both (is_deleted r.metadata.state) _ gone in
          let f = deleted_state _ d in
          (r, rw (utc_offset t u, a, gone), s, same r, f, (s.valid.erased f).0, e)
      | inr here ↦
          let m' = erased_metadata r.metadata t in
          let v = erased-IsValid r.metadata t s.valid u in
          (
            record r { metadata = m'; failure_code = none },
            rw (utc_offset t u, a, here) (rebuild-ok r m' none s.named refl v),
            IsStored-rebuilt r m' none s.named refl v,
            record {
              recording = refl;
              meeting = refl;
              created = refl;
              policy = refl;
              token = refl;
              key = refl;
              index = refl;
            },
            refl,
            refl,
            ==_refl t.instant,
          )
    ]

-- Recording a failure of the deletion succeeds for the approved codes on every stored recording
-- that is not deleted, one that is being captured included.
pub mark_deletion_failed-IsStored :
    (r : RecordingMetadataRecord) (code : FailureCode)
    → IsStored r
    → is_approved code ≡ true
    → is_deleted r.metadata.state ≡ false
    → (r' : RecordingMetadataRecord) × (mark_deletion_failed r code ≡ ok r')
      × IsStored r'
      × SameRecording r r'
      × (r'.metadata.state ≡ r.metadata.state)
      × (r'.metadata.deletion_status ≡ RecordingDeletionStatus.failed)
      × (r'.failure_code ≡ some code)
unfolding mark_deletion_failed
mark_deletion_failed-IsStored r code s a h =
    let m = r.metadata in
    let m' = record m { deletion_status = RecordingDeletionStatus.failed } in
    let v = status-IsValid m RecordingDeletionStatus.failed s.valid (not_deleted _ h) (λ e. cc) in
    let b = approved-not_blank code a in
    (
      record r { metadata = m'; failure_code = some code },
      rw (a, h) (rebuild-ok r m' (some code) s.named b v),
      IsStored-rebuilt r m' (some code) s.named b v,
      record {
        recording = refl;
        meeting = refl;
        created = refl;
        policy = refl;
        token = refl;
        key = refl;
        index = refl;
      },
      refl,
      refl,
      refl,
    )

-- Marking the storage of a stored recording as missing succeeds unless it is being captured: the
-- record obeys the lifecycle rules again and keeps its identity; unless it was deleted before,
-- its state is missing and the failure is recorded.
pub mark_storage_missing-IsStored :
    (r : RecordingMetadataRecord)
    → IsStored r
    → is_active r.metadata.state ≡ false
    → (r' : RecordingMetadataRecord) × (mark_storage_missing r ≡ ok r')
      × IsStored r'
      × SameRecording r r'
      × ((r.metadata.state ≡ RecordingState.deleted) × (r' ≡ r)
          ⊎ (r'.metadata.state ≡ RecordingState.missing) × (r'.failure_code ≡ some storage_missing))
unfolding mark_storage_missing
mark_storage_missing-IsStored r s a = elim (Bool-cases (is_deleted r.metadata.state)) [
  | inl gone ↦ (r, rw (a, gone), s, same r, inl (deleted_state _ gone, refl))
  | inr here ↦
      let m = r.metadata in
      let m' = record m {
        state = RecordingState.missing;
        deletion_status = RecordingDeletionStatus.failed;
      } in
      let v = missing-IsValid m s.valid (not_deleted _ here) in
      (
        record r { metadata = m'; failure_code = some storage_missing },
        rw (a, here) (rebuild-ok r m' (some storage_missing) s.named refl v),
        IsStored-rebuilt r m' (some storage_missing) s.named refl v,
        record {
          recording = refl;
          meeting = refl;
          created = refl;
          policy = refl;
          token = refl;
          key = refl;
          index = refl;
        },
        inr (refl, refl),
      )
]
