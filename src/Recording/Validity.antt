-- ===== src/Recording/Validity.antt =====
-- The lifecycle rules of recording metadata, stated without the checks of
-- backend/app/application/dto/recordings/recording.py, and the checks against them.
use ai_meeting_copilot.Prelude.{
  ℕ, zero, suc, ◌<◌, ◌≡◌, refl, ◌≢◌, ◌↔◌, inl, inr, Bool, true, not, Option, none, some, arith,
  ◌==◌, Bool-cases, Option-cases, is_some, and_both, and_intro, application_validation, Result, ok,
  err, is_utc_offset, is_utc, ℤ, pos, negsuc, DateTime,
}
use ai_meeting_copilot.Recording.Metadata.{
  is_absent_or_utc, is_valid_duration, consent_check, recording_check, expiry_check, deletion_check,
  metadata_check, metadata_post_init, RecordingState, RecordingDeletionStatus,
  RecordingRetentionPolicy, manual, Seconds, nanoseconds, not_finite, RecordingMetadata,
}

-- A time that is there is in UTC.
abbrev pub InUtc : Option DateTime → Type 0
InUtc o = (t : DateTime) → o ≡ some t → t.offset ≡ some (pos 0)

-- The lifecycle rules of one recording's metadata.
pub record IsValid (m : RecordingMetadata) : Type 0 where
  pub created_utc : m.created_at.offset ≡ some (pos 0)
  pub expires_utc : InUtc m.expires_at
  pub anchor_utc : InUtc m.capture_anchor_utc
  pub consent_utc : InUtc m.consent_confirmed_at
  pub deleted_utc : InUtc m.deleted_at
  pub duration : (s : Seconds) → m.duration_seconds ≡ some s → (n : ℕ) × (s ≡ nanoseconds (pos n))
  pub version : 0 < m.encryption_format_version
  pub consent : m.consent_confirmed ≡ is_some m.consent_confirmed_at
  pub recorded : m.state ≡ RecordingState.recording → m.consent_confirmed ≡ true
  pub kept : m.retention_policy ≡ manual → m.expires_at ≡ none
  pub timed :
      m.retention_policy ≢ manual
      → m.state ≢ RecordingState.deleted
      → (t : DateTime) × (m.expires_at ≡ some t) × (m.created_at.instant < t.instant)
  pub erased :
      m.state ≡ RecordingState.deleted
      → (m.deletion_status ≡ RecordingDeletionStatus.deleted) × (m.deleted_at ≢ none)
  pub retained :
      m.state ≢ RecordingState.deleted → m.deletion_status ≢ RecordingDeletionStatus.deleted

pub is_utc_zero : (o : Option ℤ) → (is_utc_offset o ≡ true) ↔ (o ≡ some (pos 0))
is_utc_zero none = (λ h. cc, λ h. cc)
is_utc_zero (some (pos zero)) = (λ h. refl, λ h. refl)
is_utc_zero (some (pos (suc n))) = (λ h. cc, λ h. ground arith)
is_utc_zero (some (negsuc n)) = (λ h. cc, λ h. ground arith)

InUtc-sound : (o : Option DateTime) → is_absent_or_utc o ≡ true → InUtc o
InUtc-sound none h t e = cc
InUtc-sound (some s) h t e = ground (arith, (is_utc_zero s.offset).0 h)

InUtc-complete : (o : Option DateTime) → InUtc o → is_absent_or_utc o ≡ true
InUtc-complete none h = refl
InUtc-complete (some s) h = (is_utc_zero s.offset).1 (h s refl)

duration_sound :
    (d : Option Seconds)
    → is_valid_duration d ≡ true
    → (s : Seconds) → d ≡ some s
    → (n : ℕ) × (s ≡ nanoseconds (pos n))
duration_sound none h s e = cc
duration_sound (some (nanoseconds (pos n))) h s e = (n, ground arith)
duration_sound (some (nanoseconds (negsuc n))) h s e = cc
duration_sound (some not_finite) h s e = cc

timed_sound :
    (m : RecordingMetadata)
    → expiry_check m.retention_policy m.state m.expires_at m.created_at ≡ true
    → m.retention_policy ≢ manual
    → m.state ≢ RecordingState.deleted
    → (t : DateTime) × (m.expires_at ≡ some t) × (m.created_at.instant < t.instant)
timed_sound m h p s = elim (Option-cases m.expires_at) [
  | inl e ↦ absurd (ground arith)
  | inr (t, e) ↦ (t, e, ground arith)
]

-- The conjuncts of the checks, one field each.
record Checked (m : RecordingMetadata) : Type 0 where
  created : is_utc m.created_at ≡ true
  expires : is_absent_or_utc m.expires_at ≡ true
  anchor : is_absent_or_utc m.capture_anchor_utc ≡ true
  consent_time : is_absent_or_utc m.consent_confirmed_at ≡ true
  deleted_time : is_absent_or_utc m.deleted_at ≡ true
  length_rule : is_valid_duration m.duration_seconds ≡ true
  version_rule : not (m.encryption_format_version == 0) ≡ true
  consent_rule : consent_check m.consent_confirmed m.consent_confirmed_at ≡ true
  recording_rule : recording_check m.state m.consent_confirmed ≡ true
  expiry_rule : expiry_check m.retention_policy m.state m.expires_at m.created_at ≡ true
  deletion_rule : deletion_check m.state m.deletion_status m.deleted_at ≡ true

metadata_check-Checked : (m : RecordingMetadata) → metadata_check m ≡ true → Checked m
metadata_check-Checked m h =
    let (h6, q6) = and_both _ _ h in
    let (h5, q5) = and_both _ _ h6 in
    let (h4, q4) = and_both _ _ h5 in
    let (h3, q3) = and_both _ _ h4 in
    let (h2, q2) = and_both _ _ h3 in
    let (t, q1) = and_both _ _ h2 in
    let (t4, p5) = and_both _ _ t in
    let (t3, p4) = and_both _ _ t4 in
    let (t2, p3) = and_both _ _ t3 in
    let (p1, p2) = and_both _ _ t2 in
    record {
      created = p1;
      expires = p2;
      anchor = p3;
      consent_time = p4;
      deleted_time = p5;
      length_rule = q1;
      version_rule = q2;
      consent_rule = q3;
      recording_rule = q4;
      expiry_rule = q5;
      deletion_rule = q6;
    }

Checked-metadata_check : (m : RecordingMetadata) → Checked m → metadata_check m ≡ true
Checked-metadata_check m c =
    let t =
      and_intro _ _
        (and_intro _ _ (and_intro _ _ (and_intro _ _ c.created c.expires) c.anchor) c.consent_time)
        c.deleted_time in
    let u =
      and_intro _ _ (and_intro _ _ (and_intro _ _ t c.length_rule) c.version_rule) c.consent_rule in
    and_intro _ _ (and_intro _ _ (and_intro _ _ u c.recording_rule) c.expiry_rule) c.deletion_rule

consent_sound : (c : Bool) (o : Option DateTime) → consent_check c o ≡ true → c ≡ is_some o
consent_sound c o h = ground arith

recorded_sound :
    (s : RecordingState) (c : Bool)
    → recording_check s c ≡ true
    → s ≡ RecordingState.recording
    → c ≡ true
recorded_sound s c h e = ground arith

kept_sound :
    (p : RecordingRetentionPolicy) (s : RecordingState) (o : Option DateTime) (c : DateTime)
    → expiry_check p s o c ≡ true
    → p ≡ manual
    → o ≡ none
kept_sound p s o c h e = ground arith

erased_sound :
    (s : RecordingState) (d : RecordingDeletionStatus) (o : Option DateTime)
    → deletion_check s d o ≡ true
    → s ≡ RecordingState.deleted
    → (d ≡ RecordingDeletionStatus.deleted) × (o ≢ none)
erased_sound s d o h e = (ground arith, ground arith)

retained_sound :
    (s : RecordingState) (d : RecordingDeletionStatus) (o : Option DateTime)
    → deletion_check s d o ≡ true
    → s ≢ RecordingState.deleted
    → d ≢ RecordingDeletionStatus.deleted
retained_sound s d o h e = ground arith

positive_sound : (n : ℕ) → not (n == 0) ≡ true → 0 < n
positive_sound n h = ground arith

-- Metadata that passes the checks at construction obeys the lifecycle rules.
pub metadata_check-IsValid : (m : RecordingMetadata) → metadata_check m ≡ true → IsValid m
metadata_check-IsValid m h =
    let c = metadata_check-Checked m h in
    record {
      created_utc = (is_utc_zero m.created_at.offset).0 c.created;
      expires_utc = InUtc-sound m.expires_at c.expires;
      anchor_utc = InUtc-sound m.capture_anchor_utc c.anchor;
      consent_utc = InUtc-sound m.consent_confirmed_at c.consent_time;
      deleted_utc = InUtc-sound m.deleted_at c.deleted_time;
      duration = duration_sound m.duration_seconds c.length_rule;
      version = positive_sound _ c.version_rule;
      consent = consent_sound _ _ c.consent_rule;
      recorded = recorded_sound _ _ c.recording_rule;
      kept = kept_sound _ _ _ _ c.expiry_rule;
      timed = timed_sound m c.expiry_rule;
      erased = erased_sound _ _ _ c.deletion_rule;
      retained = retained_sound _ _ _ c.deletion_rule;
    }

not-err :
    (m : RecordingMetadata)
    → ◌≡◌ {A = Result RecordingMetadata} (err application_validation) (ok m)
    → ⊥
not-err m h = cc

positive_complete : (n : ℕ) → 0 < n → not (n == 0) ≡ true
positive_complete n h = ground arith

consent_complete : (c : Bool) (o : Option DateTime) → c ≡ is_some o → consent_check c o ≡ true
consent_complete c o h = ground arith

duration_complete :
    (d : Option Seconds)
    → ((s : Seconds) → d ≡ some s → (n : ℕ) × (s ≡ nanoseconds (pos n)))
    → is_valid_duration d ≡ true
duration_complete none f = refl
duration_complete (some s) f = let (n, e) = f s refl in rw e

expiry_complete :
    (m : RecordingMetadata)
    → IsValid m
    → (p : RecordingRetentionPolicy) → m.retention_policy ≡ p
    → (s : RecordingState) → m.state ≡ s
    → expiry_check p s m.expires_at m.created_at ≡ true
expiry_complete m v manual e s f = rw (v.kept e)
expiry_complete m v p e RecordingState.deleted f = refl
expiry_complete m v p e s f = let (t, a, b) = v.timed (λ x. cc) (λ x. cc) in rw a (ground arith)

deletion_complete :
    (m : RecordingMetadata)
    → IsValid m
    → (s : RecordingState) → m.state ≡ s
    → deletion_check s m.deletion_status m.deleted_at ≡ true
deletion_complete m v RecordingState.deleted f = let (a, b) = v.erased f in ground arith
deletion_complete m v s f = let a = v.retained (λ x. cc) in ground arith

recording_complete :
    (s : RecordingState) (c : Bool)
    → (s ≡ RecordingState.recording → c ≡ true)
    → recording_check s c ≡ true
recording_complete RecordingState.recording c h = rw (h refl)
recording_complete s c h = refl

IsValid-metadata_check : (m : RecordingMetadata) → IsValid m → metadata_check m ≡ true
IsValid-metadata_check m v = Checked-metadata_check m (record {
  created = (is_utc_zero m.created_at.offset).1 v.created_utc;
  expires = InUtc-complete m.expires_at v.expires_utc;
  anchor = InUtc-complete m.capture_anchor_utc v.anchor_utc;
  consent_time = InUtc-complete m.consent_confirmed_at v.consent_utc;
  deleted_time = InUtc-complete m.deleted_at v.deleted_utc;
  length_rule = duration_complete m.duration_seconds v.duration;
  version_rule = positive_complete _ v.version;
  consent_rule = consent_complete _ _ v.consent;
  recording_rule = recording_complete _ _ v.recorded;
  expiry_rule = expiry_complete m v _ refl _ refl;
  deletion_rule = deletion_complete m v _ refl;
})

-- Building metadata succeeds, and gives the value asked for, exactly when the value obeys the
-- lifecycle rules: UTC times, a finite non-negative duration, a positive format version, consent
-- with its time, no expiry under manual retention, a later expiry under timed retention unless
-- deleted, and the deleted status with a time exactly in the deleted state.
pub metadata_post_init-ok_iff : (m : RecordingMetadata) → (metadata_post_init m ≡ ok m) ↔ IsValid m
unfolding metadata_post_init
metadata_post_init-ok_iff m = elim (Bool-cases (metadata_check m)) [
  | inl good ↦ (λ h. metadata_check-IsValid m good, λ v. rw good)
  | inr bad ↦ (λ h. absurd (not-err m (rw bad at h)), λ v. cc (IsValid-metadata_check m v))
]
