-- ===== src/Recording/Erasure/Rewritten.antt =====
-- The two marks of a deletion, in front of the calls outside and behind them
-- (backend/app/application/use_cases/delete_meeting_audio.py).
use mathlib.Core.Path.{subst}
use ai_meeting_copilot.Prelude.{◌≡◌, sym, ◌∙◌, Option, none, some, ok, DateTime, pos}
use ai_meeting_copilot.Recording.Metadata.{RecordingMetadataRecord, RecordingState}
use ai_meeting_copilot.Exec.{lift}
use ai_meeting_copilot.Exec.Ends.{Ends, bind-Ends}
use ai_meeting_copilot.Recording.Stored.{SameRecording}
use ai_meeting_copilot.Recording.Rows.{get_by_id, get_by_id-All, some-injective, none_not_some}
use ai_meeting_copilot.Recording.Work.{System, Resources}
use ai_meeting_copilot.Recording.Work.Ends.{IsSettled, IsHonest, Lawful, Safe, now_sound}
use ai_meeting_copilot.Recording.Deletion.{mark_deleting, mark_deleted}
use ai_meeting_copilot.Recording.Work.Steps.{Later, Marked, Transited}
use ai_meeting_copilot.Recording.Work.Queries.{transit-Ends}
use ai_meeting_copilot.Recording.Work.Marks.{mark_deleting-Marked, mark_deleted-found}
use ai_meeting_copilot.Recording.Erasure.{require_row, mark_row_deleting, mark_row_deleted}

same_trans :
    (r r' r'' : RecordingMetadataRecord)
    → SameRecording r r'
    → SameRecording r' r''
    → SameRecording r r''
same_trans r r' r'' a b = record {
  recording = b.recording ∙ a.recording;
  meeting = b.meeting ∙ a.meeting;
  created = b.created ∙ a.created;
  policy = b.policy ∙ a.policy;
  token = b.token ∙ a.token;
  key = b.key ∙ a.key;
  index = b.index ∙ a.index;
}

module _ {W : Type 0} (R : Resources W) where
  pub IsSettled-same :
      (w : W) (r r' : RecordingMetadataRecord)
      → SameRecording r r'
      → IsSettled R w r
      → IsSettled R w r'
  IsSettled-same w r r' m e = record {
    recording = rw m.recording e.recording;
    key = rw m.key e.key;
  }

  -- The row of the recording was changed and is read back.
  pub record Changed (r : RecordingMetadataRecord) (t : System W) : Type 0 where
    pub row : RecordingMetadataRecord
    pub read_back : get_by_id r.metadata.recording_id t.now.rows ≡ some row
    pub same_recording : SameRecording r row

  module _ (L : Lawful R) (r : RecordingMetadataRecord) where
    pub record Begun (s t : System W) : Type 0 where
      pub later : Later R s t
      pub changed : Changed r t

    pub mark_row_deleting-Ends :
        (s : System W)
        → Safe R s
        → get_by_id r.metadata.recording_id s.now.rows ≡ some r
        → Ends (λ _ t. Begun s t) (λ _ t. Safe R t) (mark_row_deleting R r s)
    unfolding mark_row_deleting
    mark_row_deleting-Ends s h f =
        let id = r.metadata.recording_id in
        bind-Ends _ _ s
          (transit-Ends R L id s h mark_deleting
            λ x x' e i g. mark_deleting-Marked R s.now.world x i x' g)
          begun (λ e t k. k.later.safe)
      where
        begun :
            (o : Option RecordingMetadataRecord) (t : System W)
            → Transited R r.metadata.recording_id mark_deleting s o t
            → Ends (λ _ t. Begun s t) (λ _ t. Safe R t) (require_row R o t)
        begun none t k = record { holds = k.later.safe }
        begun (some r') t k =
            let saved = k.outcome in
            let same = some-injective saved.row r (sym saved.found ∙ f) in
            record {
              holds = record {
                later = k.later;
                changed = record {
                  row = r';
                  read_back = saved.read_back;
                  same_recording = subst (λ x. SameRecording x r') same saved.marked.same;
                };
              };
            }

    pub record Finished (t u : System W) : Type 0 where
      pub later : Later R t u
      pub row : RecordingMetadataRecord
      pub read_back : get_by_id r.metadata.recording_id u.now.rows ≡ some row
      pub same_recording : SameRecording r row
      pub deleted : row.metadata.state ≡ RecordingState.deleted

    pub mark_row_deleted-Ends :
        (now : DateTime) (s : System W)
        → now.offset ≡ some (pos 0)
        → Safe R s
        → Changed r s
        → IsSettled R s.now.world r
        → Ends
            (λ _ t. Finished s t)
            (λ _ t. Safe R t)
            (mark_row_deleted R r.metadata.recording_id now s)
    unfolding mark_row_deleted
    mark_row_deleted-Ends now s u h c gone =
        let id = r.metadata.recording_id in
        bind-Ends _ _ s
          (transit-Ends R L id s h (λ x. mark_deleted x now) λ x x' e i g. (mark x x' e i g).0)
          finished (λ e t k. k.later.safe)
      where
        mark :
            (x x' : RecordingMetadataRecord)
            → get_by_id r.metadata.recording_id s.now.rows ≡ some x
            → IsHonest R s.now.world x
            → mark_deleted x now ≡ ok x'
            → Marked R s.now.world x x' × (x'.metadata.state ≡ RecordingState.deleted)
        mark =
            mark_deleted-found R s.now.world r.metadata.recording_id s.now.rows c.row now u
              c.read_back (IsSettled-same s.now.world r c.row c.same_recording gone)

        finished :
            (o : Option RecordingMetadataRecord) (t : System W)
            → Transited R r.metadata.recording_id (λ x. mark_deleted x now) s o t
            → Ends (λ _ t. Finished s t) (λ _ t. Safe R t) (lift (ok tt) t)
        finished none t k = absurd (none_not_some _ c.row k.outcome.0 c.read_back)
        finished (some r') t k =
            let saved = k.outcome in
            let same = some-injective saved.row c.row (sym saved.found ∙ c.read_back) in
            let i =
              get_by_id-All (IsHonest R s.now.world) _ s.now.rows saved.row (now_sound R s h)
                saved.found in
            record {
              holds = record {
                later = k.later;
                row = r';
                read_back = saved.read_back;
                same_recording =
                    same_trans r c.row r' c.same_recording
                      (subst (λ x. SameRecording x r') same saved.marked.same);
                deleted = (mark saved.row r' saved.found i saved.changed).1;
              };
            }
