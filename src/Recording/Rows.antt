-- ===== src/Recording/Rows.antt =====
-- The table of recordings, as the use cases see it through their repository
-- (backend/app/infrastructure/persistence/sqlalchemy/recording_repository.py).
pub mod Ordered
use mathlib.Core.Path.{subst}
use ai_meeting_copilot.Prelude.{
  ℕ, ◌≡◌, ap, ◌⊎◌, inl, inr, Bool, true, false, not, ◌&&◌, ◌||◌, Option, none, some, List, [], ◌∷◌,
  leb, ◌==◌, if◌then◌else◌, ==_refl, Bool-cases, DateTime,
}
use ai_meeting_copilot.Recording.Metadata.{RecordingMetadataRecord, is_deleted, is_deleted_status}

-- `_session.get(RecordingMetadataModel, …)`, from the primary key
unfoldable pub get_by_id : ℕ → List RecordingMetadataRecord → Option RecordingMetadataRecord
get_by_id id [] = none
get_by_id id (r ∷ rs) = if r.metadata.recording_id == id then some r else get_by_id id rs

unfoldable pub get_by_meeting_id : ℕ → List RecordingMetadataRecord → Option RecordingMetadataRecord
get_by_meeting_id id [] = none
get_by_meeting_id id (r ∷ rs) =
    if r.metadata.meeting_id == id then some r else get_by_meeting_id id rs

-- The row of the recording is written over, or added when there is none.
unfoldable pub save :
    RecordingMetadataRecord → List RecordingMetadataRecord → List RecordingMetadataRecord
save r [] = r ∷ []
save r (x ∷ xs) =
    let rest = save r xs in
    if x.metadata.recording_id == r.metadata.recording_id then r ∷ xs else x ∷ rest

-- `order_by(first, recording_id)` between two rows
abbrev before : ℕ → ℕ → ℕ → ℕ → Bool
before t i u j = not (leb u t) || (t == u && leb i j)

abbrev instant_of : Option DateTime → ℕ
instant_of none = 0
instant_of (some t) = t.instant

abbrev pub created_before : RecordingMetadataRecord → RecordingMetadataRecord → Bool
created_before r s =
    before r.metadata.created_at.instant r.metadata.recording_id s.metadata.created_at.instant
      s.metadata.recording_id

abbrev expires_before : RecordingMetadataRecord → RecordingMetadataRecord → Bool
expires_before r s =
    before (instant_of r.metadata.expires_at) r.metadata.recording_id
      (instant_of s.metadata.expires_at) s.metadata.recording_id

abbrev pub insert_row :
    (RecordingMetadataRecord → RecordingMetadataRecord → Bool)
    → RecordingMetadataRecord
    → List RecordingMetadataRecord
    → List RecordingMetadataRecord
insert_row le r [] = r ∷ []
insert_row le r (x ∷ xs) = let rest = insert_row le r xs in if le r x then r ∷ x ∷ xs else x ∷ rest

abbrev pub order_rows :
    (RecordingMetadataRecord → RecordingMetadataRecord → Bool)
    → List RecordingMetadataRecord
    → List RecordingMetadataRecord
order_rows le [] = []
order_rows le (r ∷ rs) = insert_row le r (order_rows le rs)

unfoldable pub list_all : List RecordingMetadataRecord → List RecordingMetadataRecord
list_all rows = order_rows created_before rows

-- `expires_at IS NOT NULL AND expires_at <= as_of`
abbrev is_due : Option DateTime → DateTime → Bool
is_due none now = false
is_due (some t) now = leb t.instant now.instant

-- The `where` of `list_expired`.
abbrev pub is_expired : DateTime → RecordingMetadataRecord → Bool
is_expired now r =
    is_due r.metadata.expires_at now
    && not r.metadata.protected
    && not (is_deleted r.metadata.state)
    && not (is_deleted_status r.metadata.deletion_status)

abbrev select_expired : DateTime → List RecordingMetadataRecord → List RecordingMetadataRecord
select_expired now [] = []
select_expired now (r ∷ rs) =
    let rest = select_expired now rs in if is_expired now r then r ∷ rest else rest

unfoldable pub list_expired : DateTime → List RecordingMetadataRecord → List RecordingMetadataRecord
list_expired now rows = order_rows expires_before (select_expired now rows)

-- What holds of every row.
unfoldable pub All {ℓ κ} : {A : Type ℓ} → (A → Type κ) → List A → Type κ
All P [] = Unit
All P (x ∷ xs) = P x × All P xs

if_some :
    (b : Bool) (x r : RecordingMetadataRecord) (o : Option RecordingMetadataRecord)
    → (if b then some x else o) ≡ some r
    → (x ≡ r) ⊎ (o ≡ some r)
if_some true x r o h = inl cc
if_some false x r o h = inr h

-- A property of every row holds of the row that is read by its id.
pub get_by_id-All {κ} :
    (P : RecordingMetadataRecord → Type κ) (id : ℕ) (rows : List RecordingMetadataRecord)
    (r : RecordingMetadataRecord)
    → All P rows
    → get_by_id id rows ≡ some r
    → P r
unfolding get_by_id All
get_by_id-All P id [] r a h = cc
get_by_id-All P id (x ∷ xs) r (p, a) h =
    elim (if_some (x.metadata.recording_id == id) x r (get_by_id id xs) h) [
      | inl e ↦ subst P e p
      | inr e ↦ get_by_id-All P id xs r a e
    ]

pub save-All {κ} :
    (P : RecordingMetadataRecord → Type κ) (r : RecordingMetadataRecord)
    (rows : List RecordingMetadataRecord)
    → P r
    → All P rows
    → All P (save r rows)
unfolding save All
save-All P r [] p a = (p, tt)
save-All P r (x ∷ xs) p (q, a) =
    elim (Bool-cases (x.metadata.recording_id == r.metadata.recording_id)) [
      | inl e ↦ rw e (p, a)
      | inr n ↦ rw n (q, save-All P r xs p a)
    ]

-- What is read back after a row was written.
pub get_by_id-save :
    (r : RecordingMetadataRecord) (rows : List RecordingMetadataRecord)
    → get_by_id r.metadata.recording_id (save r rows) ≡ some r
unfolding get_by_id save
get_by_id-save r [] = rw (==_refl r.metadata.recording_id)
get_by_id-save r (x ∷ xs) = elim (Bool-cases (x.metadata.recording_id == r.metadata.recording_id)) [
  | inl e ↦ rw (e, ==_refl r.metadata.recording_id)
  | inr n ↦ rw n (rw n (get_by_id-save r xs))
]

or_row : Option RecordingMetadataRecord → RecordingMetadataRecord → RecordingMetadataRecord
or_row none r = r
or_row (some x) r = x

pub some-injective :
    (r r' : RecordingMetadataRecord)
    → ◌≡◌ {A = Option RecordingMetadataRecord} (some r) (some r')
    → r ≡ r'
unfolding or_row
some-injective r r' h = ap (λ o. or_row o r) h

pub none_not_some :
    (o : Option RecordingMetadataRecord) (r : RecordingMetadataRecord) → o ≡ none → o ≡ some r → ⊥
none_not_some o r g h = cc
