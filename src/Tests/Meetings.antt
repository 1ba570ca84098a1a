-- ===== src/Tests/Meetings.antt =====
-- The theorems about meetings at concrete inputs.
use ai_meeting_copilot.Prelude.{
  ◌≡◌, refl, none, some, [], ◌∷◌, arith, ok, pos, DateTime, codes, is_space,
}
use ai_meeting_copilot.Meeting.{
  rehydrate, start, draft, active, ended, meeting_started, meeting_ended, Meeting,
}
use ai_meeting_copilot.Meeting.Lifecycle.{Step-IsValid, rehydrate-IsValid, IsValid, started}

abbrev noon : DateTime
noon = record { instant = 43200; offset = some (pos 0) }

abbrev one_hour_later : DateTime
one_hour_later = record { instant = 46800; offset = some (pos 0) }

abbrev planned : Meeting
planned = record {
  id = 1;
  name = codes "Weekly review";
  status = draft;
  started_at = none;
  ended_at = none;
  transcripts = [];
  pending_events = [];
}

abbrev running : Meeting
running = record planned {
  status = active;
  started_at = some noon;
  pending_events = meeting_started 1 noon ∷ [];
}

abbrev over : Meeting
over = record planned {
  status = ended;
  started_at = some noon;
  ended_at = some one_hour_later;
  pending_events = meeting_started 1 noon ∷ meeting_ended 1 one_hour_later ∷ [];
}

planned-IsValid : IsValid planned
unfolding is_space
planned-IsValid = record { named = refl; timed = (refl, refl) }

over-IsValid : IsValid over
unfolding is_space
over-IsValid = record {
  named = refl;
  timed = (noon, one_hour_later, refl, refl, refl, refl, omega arith);
}

Step-IsValid_example : IsValid running
unfolding start
Step-IsValid_example = Step-IsValid planned running planned-IsValid (started noon refl refl)

rehydrate-IsValid_example :
    rehydrate 1 (codes "Weekly review") ended (some noon) (some one_hour_later) []
    ≡ ok (record over { pending_events = [] })
rehydrate-IsValid_example = rehydrate-IsValid over over-IsValid
