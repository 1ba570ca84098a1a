-- ===== src/Meeting.antt =====
-- The meeting aggregate and its transcript entries
-- (backend/app/domain/entities/meeting.py, transcript_entry.py and aggregate_root.py). Identities
-- are numbers, and what `uuid4` and `datetime.now(UTC)` return is an argument.
pub mod Lifecycle
use ai_meeting_copilot.Prelude.{
  ℕ, ◌<◌, Bool, true, false, not, Option, none, some, List, [], ◌∷◌, ◌++◌, arith, ltb,
  if◌then◌else◌, ◌>>=◌, ◌>>◌, raise_if, validation_error, invariant_violation,
  invalid_state_transition, Result, ok, err, is_utc, DateTime, Text, is_blank,
}

pub data MeetingStatus : Type 0 where
  draft active ended : MeetingStatus

pub record TranscriptEntry : Type 0 where
  pub id : ℕ
  pub speaker : Text
  pub text : Text
  pub timestamp : DateTime

-- `TranscriptEntry.__init__`
unfoldable pub make_entry : ℕ → Text → Text → DateTime → Result TranscriptEntry
make_entry id speaker text timestamp = do
  raise_if (is_blank speaker) validation_error
  raise_if (is_blank text) validation_error
  raise_if (not (is_utc timestamp)) validation_error
  ok (record { id = id; speaker = speaker; text = text; timestamp = timestamp })

-- backend/app/domain/events/meeting_events.py
pub data DomainEvent : Type 0 where
  meeting_created : ℕ → Text → DomainEvent
  meeting_started : ℕ → DateTime → DomainEvent
  meeting_ended : ℕ → DateTime → DomainEvent
  meeting_renamed : ℕ → Text → Text → DomainEvent
  transcript_added : ℕ → ℕ → Text → DomainEvent

pub record Meeting : Type 0 where
  pub id : ℕ
  pub name : Text
  pub status : MeetingStatus
  pub started_at : Option DateTime
  pub ended_at : Option DateTime
  pub transcripts : List TranscriptEntry
  pub pending_events : List DomainEvent

-- `AggregateRoot.record_event`
abbrev pub record_event : DomainEvent → Meeting → Meeting
record_event e m = record m { pending_events = m.pending_events ++ (e ∷ []) }

-- `AggregateRoot.pull_domain_events`
unfoldable pub pull_domain_events : Meeting → List DomainEvent × Meeting
pull_domain_events m = (m.pending_events, record m { pending_events = [] })

-- `Meeting._validate_name`
abbrev pub validate_name : Text → Result Text
validate_name name = if is_blank name then err validation_error else ok name

-- `Meeting.__init__`
unfoldable pub init : ℕ → Text → Result Meeting
init id name = do
  valid ← validate_name name
  ok (record {
    id = id;
    name = valid;
    status = draft;
    started_at = none;
    ended_at = none;
    transcripts = [];
    pending_events = [];
  })

-- `Meeting.create`
unfoldable pub create : ℕ → Text → Result Meeting
unfolding init
create id name = do m ← init id name; ok (record_event (meeting_created m.id m.name) m)

-- `value is not None and value is not UTC` raises.
abbrev pub is_absent_or_utc : Option DateTime → Bool
is_absent_or_utc none = true
is_absent_or_utc (some t) = is_utc t

-- `Meeting._validate_rehydrated_lifecycle`, behind the checks of the two times.
abbrev pub lifecycle_check : MeetingStatus → Option DateTime → Option DateTime → Result (Unit {0})
lifecycle_check draft none none = ok tt
lifecycle_check draft none (some e) = err invariant_violation
lifecycle_check draft (some s) e = err invariant_violation
lifecycle_check active (some s) none = ok tt
lifecycle_check active (some s) (some e) = err invariant_violation
lifecycle_check active none e = err invariant_violation
lifecycle_check ended (some s) (some e) = raise_if (ltb e.instant s.instant) invariant_violation
lifecycle_check ended (some s) none = err invariant_violation
lifecycle_check ended none e = err invariant_violation

-- `Meeting.rehydrate`
unfoldable pub rehydrate :
    ℕ
    → Text
    → MeetingStatus
    → Option DateTime
    → Option DateTime
    → List TranscriptEntry
    → Result Meeting
unfolding init
rehydrate id name status started finished transcripts = do
  raise_if (not (is_absent_or_utc started)) validation_error
  raise_if (not (is_absent_or_utc finished)) validation_error
  lifecycle_check status started finished
  m ← init id name
  ok (record m {
    status = status;
    started_at = started;
    ended_at = finished;
    transcripts = transcripts;
  })

abbrev pub is_draft : MeetingStatus → Bool
is_draft draft = true
is_draft _ = false

abbrev pub is_active : MeetingStatus → Bool
is_active active = true
is_active _ = false

abbrev pub is_ended : MeetingStatus → Bool
is_ended ended = true
is_ended _ = false

-- `Meeting.start`, at the time that the clock shows.
unfoldable pub start : DateTime → Meeting → Result Meeting
start now m = do
  raise_if (not (is_draft m.status)) invalid_state_transition
  ok (record_event (meeting_started m.id now) (record m { status = active; started_at = some now }))

-- `started_at is None or ended_at < started_at`
abbrev pub cannot_end : Option DateTime → DateTime → Bool
cannot_end none now = true
cannot_end (some s) now = ltb now.instant s.instant

-- `Meeting.end`
unfoldable pub finish : DateTime → Meeting → Result Meeting
finish now m = do
  raise_if (not (is_active m.status)) invalid_state_transition
  raise_if (cannot_end m.started_at now) invariant_violation
  ok (record_event (meeting_ended m.id now) (record m { status = ended; ended_at = some now }))

-- `Meeting.rename`
unfoldable pub rename : Text → Meeting → Result Meeting
rename new_name m = do
  raise_if (is_ended m.status) invalid_state_transition
  valid ← validate_name new_name
  ok (record_event (meeting_renamed m.id m.name valid) (record m { name = valid }))

-- `Meeting.add_transcript`, with the identity that `uuid4` returns.
unfoldable pub add_transcript :
    ℕ → Text → Text → DateTime → Meeting → Result (TranscriptEntry × Meeting)
unfolding make_entry
add_transcript id speaker text timestamp m = do
  raise_if (is_ended m.status) invalid_state_transition
  entry ← make_entry id speaker text timestamp
  ok (
    entry,
    record_event (transcript_added m.id entry.id entry.speaker)
        (record m { transcripts = m.transcripts ++ (entry ∷ []) }),
  )
