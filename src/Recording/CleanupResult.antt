-- ===== src/Recording/CleanupResult.antt =====
-- The results of a cleanup (backend/app/application/dto/recordings/cleanup.py).
use ai_meeting_copilot.Prelude.{
  ℕ, ◌+◌, ◌≡◌, refl, Bool, true, false, not, ◌&&◌, ◌||◌, Option, none, some, List, [], ◌∷◌, arith,
  leb, ◌==◌, if◌then◌else◌, ==_refl, length, application_validation, Result, err, ok, Text, codes,
  strip, ◌=ᵗ◌,
}

pub data RecordingCleanupOutcome : Type 0 where
  deleted skipped failed missing : RecordingCleanupOutcome

pub record RecordingCleanupItemResult : Type 0 where
  pub recording_id : ℕ
  pub outcome : RecordingCleanupOutcome
  pub message : Option Text

pub record RecordingCleanupResult : Type 0 where
  pub checked_count : ℕ
  pub deleted_count : ℕ
  pub skipped_count : ℕ
  pub failed_count : ℕ
  pub missing_count : ℕ
  pub items : List RecordingCleanupItemResult

abbrev allowed_messages : List Text
allowed_messages =
    codes "Recording deleted."
    ∷ codes "Recording skipped."
    ∷ codes "Recording cleanup failed."
    ∷ codes "Recording storage was missing."
    ∷ codes "Recording is protected."
    ∷ codes "Recording is not expired."
    ∷ codes "Recording uses manual retention."
    ∷ []

abbrev is_in : Text → List Text → Bool
is_in t [] = false
is_in t (x ∷ xs) = t =ᵗ x || is_in t xs

-- `RecordingCleanupItemResult.__post_init__`
unfoldable pub item_post_init : RecordingCleanupItemResult → Result RecordingCleanupItemResult
item_post_init i = elim i.message [
  | none ↦ ok i
  | some m ↦
      let message = strip m in
      if not (leb (length message) 120) || not (is_in message allowed_messages)
      then err application_validation
      else ok (record i { message = some message })
]

abbrev pub same_outcome : RecordingCleanupOutcome → RecordingCleanupOutcome → Bool
same_outcome deleted deleted = true
same_outcome skipped skipped = true
same_outcome failed failed = true
same_outcome missing missing = true
same_outcome _ _ = false

-- `sum(item.outcome is outcome for item in items)`
abbrev pub count : RecordingCleanupOutcome → List RecordingCleanupItemResult → ℕ
count o [] = 0
count o (i ∷ is) = (if same_outcome i.outcome o then 1 else 0) + count o is

-- The last check of `RecordingCleanupResult.__post_init__`.
unfoldable pub result_post_init : RecordingCleanupResult → Result RecordingCleanupResult
result_post_init r =
    if (r.checked_count == length r.items)
      && (count deleted r.items == r.deleted_count)
      && (count skipped r.items == r.skipped_count)
      && (count failed r.items == r.failed_count)
      && (count missing r.items == r.missing_count)
    then ok r
    else err application_validation

-- `RecordingCleanupResult.from_items`
unfoldable pub from_items : List RecordingCleanupItemResult → Result RecordingCleanupResult
from_items is = result_post_init (record {
  checked_count = length is;
  deleted_count = count deleted is;
  skipped_count = count skipped is;
  failed_count = count failed is;
  missing_count = count missing is;
  items = is;
})

-- The items that the cleanup and the reconciliation build.
abbrev message_of : RecordingCleanupOutcome → Text
message_of deleted = codes "Recording deleted."
message_of skipped = codes "Recording skipped."
message_of failed = codes "Recording cleanup failed."
message_of missing = codes "Recording storage was missing."

unfoldable pub item_of : ℕ → RecordingCleanupOutcome → Result RecordingCleanupItemResult
item_of id o =
    item_post_init (record { recording_id = id; outcome = o; message = some (message_of o) })

count_one :
    (o : RecordingCleanupOutcome)
    → (if same_outcome o deleted then 1 else 0)
        + (if same_outcome o skipped then 1 else 0)
        + (if same_outcome o failed then 1 else 0)
        + (if same_outcome o missing then 1 else 0)
      ≡ 1
count_one deleted = refl
count_one skipped = refl
count_one failed = refl
count_one missing = refl

count_sum :
    (is : List RecordingCleanupItemResult)
    → count deleted is + count skipped is + count failed is + count missing is ≡ length is
count_sum [] = refl
count_sum (i ∷ is) = omega (arith, count_one i.outcome, count_sum is)

-- The result that is built of a list of items: it passes its own checks, and its counts add up.
pub from_items-ok :
    (is : List RecordingCleanupItemResult)
    → (result : RecordingCleanupResult) × (from_items is ≡ ok result)
      × (result.items ≡ is)
      × (result.checked_count ≡ length is)
      × (result.deleted_count ≡ count deleted is)
      × (result.deleted_count + result.skipped_count + result.failed_count + result.missing_count
          ≡ result.checked_count)
unfolding from_items result_post_init
from_items-ok is = (
  _,
  rw (
    ==_refl (length is),
    ==_refl (count deleted is),
    ==_refl (count skipped is),
    ==_refl (count failed is),
    ==_refl (count missing is),
  ),
  refl,
  refl,
  refl,
  count_sum is,
)
