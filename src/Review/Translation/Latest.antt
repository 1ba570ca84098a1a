-- ===== src/Review/Translation/Latest.antt =====
-- The latest completed translation of a meeting
-- (backend/app/infrastructure/persistence/sqlalchemy/meeting_translation_repository.py).
use ai_meeting_copilot.Prelude.{
  ℕ, ◌<◌, ◌≡◌, refl, inl, inr, Bool, true, ◌&&◌, some, List, [], ◌∷◌, ◌++◌, arith, ◌==◌, Bool-cases,
  DateTime,
}
use ai_meeting_copilot.Review.Translation.{
  MeetingTranslationArtifact, is_completed_translation, is_newer, newest, get_latest_completed,
}

abbrev pub is_completed_of : ℕ → MeetingTranslationArtifact → Bool
is_completed_of meeting a = (a.meeting_id == meeting) && is_completed_translation a.status

-- The completed translations of a meeting are older than a time.
unfoldable pub Earlier : ℕ → DateTime → List MeetingTranslationArtifact → Type 0
Earlier meeting created [] = Unit
Earlier meeting created (a ∷ rows) =
    (is_completed_of meeting a ≡ true → a.created_at.instant < created.instant)
    × Earlier meeting created rows

newest-is_newer :
    (a x : MeetingTranslationArtifact)
    → a.created_at.instant < x.created_at.instant
    → newest a (some x) ≡ some x
newest-is_newer a x h = rw (is_newer_of_lt a x h)
  where
    is_newer_of_lt :
        (b y : MeetingTranslationArtifact)
        → b.created_at.instant < y.created_at.instant
        → is_newer y b ≡ true
    is_newer_of_lt b y l = ground arith

pub get_latest_completed-last :
    (x : MeetingTranslationArtifact) (rows : List MeetingTranslationArtifact)
    → is_completed_of x.meeting_id x ≡ true
    → Earlier x.meeting_id x.created_at rows
    → get_latest_completed x.meeting_id (rows ++ (x ∷ [])) ≡ some x
unfolding get_latest_completed Earlier
get_latest_completed-last x [] c h = rw c refl
get_latest_completed-last x (a ∷ rows) c h = elim (Bool-cases (is_completed_of x.meeting_id a)) [
  | inl e ↦ rw (get_latest_completed-last x rows c h.1, e) (newest-is_newer a x (h.0 e))
  | inr e ↦ rw (get_latest_completed-last x rows c h.1, e) refl
]
