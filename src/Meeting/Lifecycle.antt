-- ===== src/Meeting/Lifecycle.antt =====
-- The invariant of a meeting, one call of an operation as a step, and rehydration
-- (backend/app/domain/entities/meeting.py).
use mathlib.Core.Path.{subst}
use ai_meeting_copilot.Prelude.{
  ℕ, ◌≤◌, ◌≡◌, refl, sym, ap, inl, inr, true, false, not, Option, none, some, [], arith, ltb,
  Bool-cases, ok-injective, raise_if-ok, >>=-eq-ok, ok, is_utc_offset, pos, DateTime, Text,
  is_blank,
}
use ai_meeting_copilot.Meeting.{
  make_entry, pull_domain_events, validate_name, is_absent_or_utc, lifecycle_check, rehydrate,
  is_draft, is_active, start, cannot_end, finish, rename, add_transcript, MeetingStatus, draft,
  active, ended, TranscriptEntry, Meeting,
}

-- The times that a status goes with.
abbrev pub Timed : MeetingStatus → Option DateTime → Option DateTime → Type 0
Timed draft s e = (s ≡ none) × (e ≡ none)
Timed active s e = (t : DateTime) × (s ≡ some t) × (t.offset ≡ some (pos 0)) × (e ≡ none)
Timed ended s e =
    (t : DateTime) × (u : DateTime) × (s ≡ some t)
    × (e ≡ some u)
    × (t.offset ≡ some (pos 0))
    × (u.offset ≡ some (pos 0))
    × (t.instant ≤ u.instant)

-- What holds of every meeting.
pub record IsValid (m : Meeting) : Type 0 where
  pub named : is_blank m.name ≡ false
  pub timed : Timed m.status m.started_at m.ended_at

-- One call of an operation that succeeds.
pub data Step (m : Meeting) (m' : Meeting) : Type 0 where
  started : (now : DateTime) → now.offset ≡ some (pos 0) → start now m ≡ ok m' → Step m m'
  finished : (now : DateTime) → now.offset ≡ some (pos 0) → finish now m ≡ ok m' → Step m m'
  renamed : (name : Text) → rename name m ≡ ok m' → Step m m'
  added :
      (id : ℕ) (speaker text : Text) (at : DateTime) (e : TranscriptEntry)
      → add_transcript id speaker text at m ≡ ok (e, m')
      → Step m m'
  pulled : m' ≡ (pull_domain_events m).1 → Step m m'

draft_of : (s : MeetingStatus) → not (is_draft s) ≡ false → s ≡ draft
draft_of s h = ground arith

active_of : (s : MeetingStatus) → not (is_active s) ≡ false → s ≡ active
active_of s h = ground arith

started_before :
    (s : Option DateTime) (now : DateTime)
    → cannot_end s now ≡ false
    → (t : DateTime) × (s ≡ some t) × (t.instant ≤ now.instant)
started_before none now h = cc
started_before (some t) now h = (t, refl, ground arith)

not_started :
    (m : Meeting) → m.status ≡ draft → IsValid m → (m.started_at ≡ none) × (m.ended_at ≡ none)
not_started m e v = subst (λ s. Timed s m.started_at m.ended_at) e v.timed

running : (m : Meeting) → m.status ≡ active → IsValid m → Timed active m.started_at m.ended_at
running m e v = subst (λ s. Timed s m.started_at m.ended_at) e v.timed

start-IsValid :
    (now : DateTime) (m m' : Meeting)
    → IsValid m
    → now.offset ≡ some (pos 0)
    → start now m ≡ ok m'
    → IsValid m'
unfolding start
start-IsValid now m m' v u h =
    let (d, e) = raise_if-ok _ _ _ m' h in
    let n = not_started m (draft_of m.status d) v in
    subst IsValid (ok-injective _ m' e) (record { named = v.named; timed = (now, refl, u, n.1) })

finish-IsValid :
    (now : DateTime) (m m' : Meeting)
    → IsValid m
    → now.offset ≡ some (pos 0)
    → finish now m ≡ ok m'
    → IsValid m'
unfolding finish
finish-IsValid now m m' v u h =
    let (d, h2) = raise_if-ok _ _ _ m' h in
    let (c, e) = raise_if-ok _ _ _ m' h2 in
    let (t, st, z, n) = running m (active_of m.status d) v in
    let (t2, st2, le) = started_before m.started_at now c in
    subst IsValid (ok-injective _ m' e)
      (record { named = v.named; timed = (t, now, st, refl, z, u, ground arith) })

valid_name : (name valid : Text) → validate_name name ≡ ok valid → (is_blank valid ≡ false)
valid_name name valid h = elim (Bool-cases (is_blank name)) [
  | inl blank ↦ cc (rw blank at h)
  | inr full ↦ subst (λ s. is_blank s ≡ false) (ok-injective name valid (rw full at h)) full
]

rename-IsValid : (name : Text) (m m' : Meeting) → IsValid m → rename name m ≡ ok m' → IsValid m'
unfolding rename
rename-IsValid name m m' v h =
    let (d, h2) = raise_if-ok _ _ _ m' h in
    let (n, a, e) = >>=-eq-ok (validate_name name) _ m' h2 in
    subst IsValid (ok-injective _ m' e) (record { named = valid_name name n a; timed = v.timed })

add_transcript-IsValid :
    (id : ℕ) (speaker text : Text) (at : DateTime) (x : TranscriptEntry) (m m' : Meeting)
    → IsValid m
    → add_transcript id speaker text at m ≡ ok (x, m')
    → IsValid m'
unfolding add_transcript
add_transcript-IsValid id speaker text at x m m' v h =
    let (d, h2) = raise_if-ok _ _ _ (x, m') h in
    let (n, a, e) = >>=-eq-ok (make_entry id speaker text at) _ (x, m') h2 in
    subst IsValid (ap (λ (p : TranscriptEntry × Meeting). p.1) (ok-injective _ (x, m') e))
      (record { named = v.named; timed = v.timed })

-- Every operation that succeeds on a valid meeting, at a UTC time of the clock, leaves it valid:
-- named, without times as a draft, with only a start while active, and with an end no earlier
-- than its start once ended.
pub Step-IsValid : (m m' : Meeting) → IsValid m → Step m m' → IsValid m'
unfolding pull_domain_events
Step-IsValid m m' v (started now u h) = start-IsValid now m m' v u h
Step-IsValid m m' v (finished now u h) = finish-IsValid now m m' v u h
Step-IsValid m m' v (renamed name h) = rename-IsValid name m m' v h
Step-IsValid m m' v (added id speaker text at e h) =
    add_transcript-IsValid id speaker text at e m m' v h
Step-IsValid m m' v (pulled h) = subst IsValid (sym h) (record { named = v.named; timed = v.timed })

absent_utc :
    (o : Option DateTime)
    → ((t : DateTime) → o ≡ some t → t.offset ≡ some (pos 0))
    → is_absent_or_utc o ≡ true
absent_utc none h = refl
absent_utc (some t) h = ap is_utc_offset (h t refl)

Timed-utc :
    (s : MeetingStatus) (a b : Option DateTime)
    → Timed s a b
    → (is_absent_or_utc a ≡ true) × (is_absent_or_utc b ≡ true) × (lifecycle_check s a b ≡ ok tt)
Timed-utc draft a b (p, q) = (rw p, rw q, rw (p, q))
Timed-utc active a b (t, p, u, q) = (rw p (ap is_utc_offset u), rw q, rw (p, q))
Timed-utc ended a b (t, x, p, q, u, w, l) =
    (rw p (ap is_utc_offset u), rw q (ap is_utc_offset w), rw (p, q) (rw (not_before l)))
  where
    not_before : t.instant ≤ x.instant → ltb x.instant t.instant ≡ false
    not_before k = ground arith

-- What is read back from the fields of a valid meeting is that meeting, with no pending events.
pub rehydrate-IsValid :
    (m : Meeting)
    → IsValid m
    → rehydrate m.id m.name m.status m.started_at m.ended_at m.transcripts
      ≡ ok (record m { pending_events = [] })
unfolding rehydrate
rehydrate-IsValid m v =
    let (a, b, c) = Timed-utc m.status m.started_at m.ended_at v.timed in rw (a, b, c, v.named)
