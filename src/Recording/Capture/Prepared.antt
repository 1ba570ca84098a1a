-- ===== src/Recording/Capture/Prepared.antt =====
-- Preparing a recording and then starting it (prepare_recording_session.py and
-- mark_recording_started.py of backend/app/application/use_cases).
use ai_meeting_copilot.Prelude.{
  ℕ, ◌≡◌, refl, sym, ap, ◌∙◌, ◌≢◌, inl, inr, Bool, true, false, not, ◌&&◌, Option, none, some,
  arith, Bool-cases, is_some, raise_if-ok, ok, is_utc_offset, pos, DateTime, Text, is_blank,
}
use ai_meeting_copilot.Recording.Metadata.{
  is_manual, record_check, record_post_init, RecordingState, pending, RecordingDeletionStatus,
  RecordingRetentionPolicy, RecordingMetadataRecord,
}
use ai_meeting_copilot.Recording.Validity.{is_utc_zero, metadata_post_init-ok_iff, IsValid}
use ai_meeting_copilot.Recording.Stored.{
  rebuild-ok, IsStored-rebuilt, moved-IsValid, IsStored, SameRecording,
}
use ai_meeting_copilot.Recording.Expiry.{expiry-IsExpiry, IsExpiry}
use ai_meeting_copilot.Recording.Capture.{
  is_consent, prepare_command_post_init, is_taken, first_status, prepared_metadata,
  prepare_recording_session, mark_recording_started, PrepareRecordingSessionCommand,
}
use ai_meeting_copilot.Meeting.{active}

-- What the checks of an enabled command say about its consent.
command_consent :
    (c : PrepareRecordingSessionCommand)
    → prepare_command_post_init c ≡ ok c
    → c.recording_enabled ≡ true
    → (c.consent_confirmed ≡ true)
      × (t : DateTime) × (c.consent_confirmed_at ≡ some t)
      × (t.offset ≡ some (pos 0))
unfolding prepare_command_post_init
command_consent c h e =
    let (a, h1) = raise_if-ok _ _ _ c h in
    let (b, _) = raise_if-ok _ _ _ c h1 in
    let confirmed : c.consent_confirmed ≡ true =
      given c.recording_enabled c.consent_confirmed e b in
    let (t, at, u) = at_time c.consent_confirmed c.consent_confirmed_at confirmed a in
    (confirmed, t, at, u)
  where
    given :
        (enabled confirmed : Bool)
        → enabled ≡ true
        → (enabled && not confirmed) ≡ false
        → confirmed ≡ true
    given enabled confirmed e b = ground arith

    at_time :
        (confirmed : Bool) (at : Option DateTime)
        → confirmed ≡ true
        → not (is_consent confirmed at) ≡ false
        → (t : DateTime) × (at ≡ some t) × (t.offset ≡ some (pos 0))
    at_time true none e h = cc
    at_time true (some t) e h = (t, refl, (is_utc_zero t.offset).0 (ground arith))
    at_time false at e h = cc

prepared-IsValid :
    (c : PrepareRecordingSessionCommand) (now : DateTime) (id : ℕ) (e : Option DateTime)
    → now.offset ≡ some (pos 0)
    → c.consent_confirmed ≡ true
    → (t : DateTime) → c.consent_confirmed_at ≡ some t
    → t.offset ≡ some (pos 0)
    → IsExpiry c.retention_policy now e
    → IsValid (prepared_metadata c now id e)
prepared-IsValid c now id e u confirmed t at k x = record {
  created_utc = u;
  expires_utc = x.utc;
  anchor_utc = λ s e. cc;
  consent_utc = λ s e. cc;
  deleted_utc = λ s e. cc;
  duration = λ s e. cc;
  version = omega arith;
  consent = confirmed ∙ sym (ap is_some at);
  recorded = λ e. cc;
  kept = x.kept;
  timed = λ p _. x.timed p;
  erased = λ e. cc;
  retained = λ _. first c.retention_policy;
}
  where
    first : (p : RecordingRetentionPolicy) → first_status p ≢ RecordingDeletionStatus.deleted
    first p e = elim (Bool-cases (is_manual p)) [ inl h ↦ cc (rw h at e) | inr h ↦ cc (rw h at e) ]

-- For a command that passed its checks and enables the recording of an active meeting that has no
-- other recording, at a UTC time, with a token and the key that the key store created, the
-- preparation saves a pending record that obeys the lifecycle rules, and starting that recording
-- at a UTC anchor then succeeds and saves one that is recording and obeys them as well.
pub prepare_recording_session-starts :
    (c : PrepareRecordingSessionCommand) (now anchor : DateTime)
    (existing : Option RecordingMetadataRecord) (id : ℕ) (key token : Text)
    → prepare_command_post_init c ≡ ok c
    → c.recording_enabled ≡ true
    → now.offset ≡ some (pos 0)
    → anchor.offset ≡ some (pos 0)
    → is_taken existing ≡ false
    → is_blank key ≡ false
    → is_blank token ≡ false
    → (r : RecordingMetadataRecord) × (r' : RecordingMetadataRecord) × (prepare_recording_session c
          now
          (some active)
          existing
          id
          (ok key)
          token
        ≡ ok (some r))
      × IsStored r
      × (r.metadata.state ≡ pending)
      × (mark_recording_started anchor (some r) ≡ ok r')
      × IsStored r'
      × SameRecording r r'
      × (r'.metadata.state ≡ RecordingState.recording)
unfolding prepare_recording_session mark_recording_started record_post_init
prepare_recording_session-starts c now anchor existing id key token h enabled u w free k l =
    let (confirmed, t, at, o) = command_consent c h enabled in
    let (e, found, x) = expiry-IsExpiry c.retention_policy now u in
    let v = prepared-IsValid c now id e u confirmed t at o x in
    let m = prepared_metadata c now id e in
    let r : RecordingMetadataRecord = record {
      metadata = m;
      storage_directory_token = token;
      key_reference = key;
      current_segment_index = 0;
      failure_code = none;
    } in
    let named : record_check r ≡ true = rw (k, l) refl in
    let m' = record m { state = RecordingState.recording; capture_anchor_utc = some anchor } in
    let v' : IsValid m' =
      moved-IsValid m RecordingState.recording (some anchor) none 0 false v (λ e. cc) (λ e. cc)
        (λ _. confirmed) (λ s e. cc) (λ s e. cc) in
    let built = (metadata_post_init-ok_iff m).1 v in
    (
      r,
      record r { metadata = m' },
      rw (enabled, ap is_utc_offset u, free, found, built, k, l) refl,
      record { named = named; valid = v },
      refl,
      rw (ap not confirmed) (rebuild-ok r m' none named refl v'),
      IsStored-rebuilt r m' none named refl v',
      record {
        recording = refl;
        meeting = refl;
        created = refl;
        policy = refl;
        token = refl;
        key = refl;
        index = refl;
      },
      refl,
    )
