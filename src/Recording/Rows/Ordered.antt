-- ===== src/Recording/Rows/Ordered.antt =====
-- The order of the queries of
-- backend/app/infrastructure/persistence/sqlalchemy/recording_repository.py.
use ai_meeting_copilot.Prelude.{inl, inr, Bool, List, [], ◌∷◌, Bool-cases}
use ai_meeting_copilot.Recording.Metadata.{RecordingMetadataRecord}
use ai_meeting_copilot.Recording.Rows.{created_before, insert_row, order_rows, list_all, All}

-- A property of every row holds of every row in the order of the query.
insert_row-All :
    (P : RecordingMetadataRecord → Type 0)
    (le : RecordingMetadataRecord → RecordingMetadataRecord → Bool) (r : RecordingMetadataRecord)
    (rows : List RecordingMetadataRecord)
    → P r
    → All P rows
    → All P (insert_row le r rows)
unfolding All
insert_row-All P le r [] p a = (p, tt)
insert_row-All P le r (x ∷ xs) p (q, a) = elim (Bool-cases (le r x)) [
  | inl e ↦ rw e (p, (q, a))
  | inr e ↦ rw e (q, insert_row-All P le r xs p a)
]

order_rows-All :
    (P : RecordingMetadataRecord → Type 0)
    (le : RecordingMetadataRecord → RecordingMetadataRecord → Bool)
    (rows : List RecordingMetadataRecord)
    → All P rows
    → All P (order_rows le rows)
unfolding All
order_rows-All P le [] a = tt
order_rows-All P le (r ∷ rs) (p, a) =
    insert_row-All P le r (order_rows le rs) p (order_rows-All P le rs a)

pub list_all-All :
    (P : RecordingMetadataRecord → Type 0) (rows : List RecordingMetadataRecord)
    → All P rows
    → All P (list_all rows)
unfolding list_all
list_all-All P rows = order_rows-All P created_before rows
