-- ===== src/Recording/Erasure/Removed.antt =====
-- The whole of `DeleteMeetingAudioUseCase.execute` of
-- backend/app/application/use_cases/delete_meeting_audio.py.
use mathlib.Core.Path.{subst}
use ai_meeting_copilot.Prelude.{
  ℕ, ◌≡◌, refl, sym, ap, ◌∙◌, inl, inr, true, false, Option, none, some, List, Bool-cases, ok,
  DateTime, is_utc_offset, pos,
}
use ai_meeting_copilot.Recording.Metadata.{RecordingMetadataRecord, is_deleted, RecordingState}
use ai_meeting_copilot.Exec.{lift, ◌>>=◌}
use ai_meeting_copilot.Exec.Ends.{Ends, bind-Ends, weaken-Ends}
use ai_meeting_copilot.Recording.Validity.{is_utc_zero}
use ai_meeting_copilot.Recording.Stored.{SameRecording, same}
use ai_meeting_copilot.Recording.Rows.{get_by_id, get_by_meeting_id}
use ai_meeting_copilot.Recording.Work.{System, Resources, external}
use ai_meeting_copilot.Recording.Work.Ends.{Same, IsSettled, Lawful, Safe, IsSettled-Fewer}
use ai_meeting_copilot.Recording.Work.Observed.{
  RecordingServices, Observed, observed, observed-Lawful,
}
use ai_meeting_copilot.Recording.Work.Queries.{Queried, Same-along, query-Ends}
use ai_meeting_copilot.Recording.Erasure.{
  DeleteMeetingAudioResult, absent, delete_row, delete_found, delete_meeting_audio,
}
use ai_meeting_copilot.Recording.Erasure.Erased.{Emptied, delete_external-Ends}
use ai_meeting_copilot.Recording.Erasure.Rewritten.{
  Finished, IsSettled-same, mark_row_deleting-Ends, mark_row_deleted-Ends,
}

module _ {W : Type 0} (R : Resources W) where
  -- The row of a meeting that was there is deleted now, and the storage and the key store have
  -- answered for it.
  pub record IsRemoved (meeting : ℕ) (s t : System W) : Type 0 where
    pub row : RecordingMetadataRecord
    pub marked : RecordingMetadataRecord
    pub found : get_by_meeting_id meeting s.now.rows ≡ some row
    pub same : SameRecording row marked
    pub read_back : get_by_id row.metadata.recording_id t.now.rows ≡ some marked
    pub deleted : marked.metadata.state ≡ RecordingState.deleted
    pub erased : IsSettled R t.now.world marked

  -- What a completed deletion reports of the row that it found, and what is left of it.
  pub record IsReported (meeting : ℕ) (s : System W) (result : DeleteMeetingAudioResult)
      (t : System W) : Type 0 where
    pub same_meeting : result.meeting_id ≡ meeting
    pub unchanged :
        result.deleted ≡ false → (t.now.rows ≡ s.now.rows) × Same R s.now.world t.now.world
    pub gone : result.deleted ≡ true → IsRemoved meeting s t

  -- A meeting's recording is the one with its id: what the primary key of the table says.
  unfoldable pub IsKeyed : List RecordingMetadataRecord → Type 0
  IsKeyed rows =
      (meeting : ℕ) (r : RecordingMetadataRecord)
      → get_by_meeting_id meeting rows ≡ some r
      → get_by_id r.metadata.recording_id rows ≡ some r

  reported :
      (L : Lawful R) (meeting : ℕ) (r : RecordingMetadataRecord) (s t u v : System W)
      → get_by_meeting_id meeting s.now.rows ≡ some r
      → Emptied R L r t u
      → Finished R L r u v
      → IsRemoved meeting s v
  reported L meeting r s t u v f k l = record {
    row = r;
    marked = l.row;
    found = f;
    same = l.same_recording;
    read_back = l.read_back;
    deleted = l.deleted;
    erased =
        IsSettled-same R v.now.world r l.row l.same_recording
          (IsSettled-Fewer R u.now.world v.now.world r l.later.fewer k.erased);
  }

  pub record Reported (meeting : ℕ) (s : System W) (result : DeleteMeetingAudioResult)
      (t : System W) : Type 0 where
    pub safe : Safe R t
    pub report : IsReported meeting s result t

  module _ (L : Lawful R) (now : DateTime) (meeting : ℕ) (s : System W) (h : Safe R s) where
    delete_row-Ends :
        (r : RecordingMetadataRecord)
        → now.offset ≡ some (pos 0)
        → get_by_meeting_id meeting s.now.rows ≡ some r
        → get_by_id r.metadata.recording_id s.now.rows ≡ some r
        → Ends
            (λ result t. Reported meeting s result t)
            (λ _ t. Safe R t)
            (delete_row R meeting now r s)
    delete_row-Ends r utc f g =
        bind-Ends _ _ s (mark_row_deleting-Ends R L r s h g)
          (λ _ t k.
            bind-Ends _ _ t (delete_external-Ends R L r t k.later.safe)
              (λ _ u l.
                bind-Ends _ _ u
                  (mark_row_deleted-Ends R L r now u utc l.later.safe
                    (record {
                      row = k.changed.row;
                      read_back =
                          ap (get_by_id r.metadata.recording_id) l.rows ∙ k.changed.read_back;
                      same_recording = k.changed.same_recording;
                    })
                    l.erased)
                  (λ _ v m. record {
                    holds = record {
                      safe = m.later.safe;
                      report = record {
                        same_meeting = refl;
                        unchanged = λ e. cc;
                        gone = λ e. reported L meeting r s t u v f l m;
                      };
                    };
                  })
                  (λ e v m. m))
              (λ e u l. l.safe))
          (λ e t k. k)

    nothing_done :
        (id : Option ℕ)
        → Ends
            (λ result t. Reported meeting s result t)
            (λ _ t. Safe R t)
            (lift (ok (absent R meeting id)) s)
    nothing_done id = record {
      holds = record {
        safe = h;
        report = record {
          same_meeting = refl;
          unchanged = λ e. (refl, record { recordings = λ j. refl; keys = λ key. refl });
          gone = λ e. cc;
        };
      };
    }

    delete_found-Ends :
        (o : Option RecordingMetadataRecord)
        → now.offset ≡ some (pos 0)
        → IsKeyed s.now.rows
        → get_by_meeting_id meeting s.now.rows ≡ o
        → Ends
            (λ result t. Reported meeting s result t)
            (λ _ t. Safe R t)
            (delete_found R meeting now o s)
    unfolding IsKeyed
    delete_found-Ends none utc keyed f = nothing_done none
    delete_found-Ends (some r) utc keyed f = elim (Bool-cases (is_deleted r.metadata.state)) [
      | inl e ↦ rw e (nothing_done (some r.metadata.recording_id))
      | inr e ↦ rw e (delete_row-Ends r utc f (keyed meeting r f))
    ]

  Reported-before :
      (meeting : ℕ) (result : DeleteMeetingAudioResult) (s t u : System W)
      → Queried R s t
      → Reported meeting t result u
      → Reported meeting s result u
  Reported-before meeting result s t u q k =
      let r = k.report in
      record {
        safe = k.safe;
        report = record {
          same_meeting = r.same_meeting;
          unchanged = λ e.
              let (rows, same) = r.unchanged e in
              (rows ∙ q.rows, Same-along R s.now.world t.now.world u.now.world q.untouched same);
          gone = λ e.
              let g = r.gone e in
              record {
                row = g.row;
                marked = g.marked;
                found = ap (get_by_meeting_id meeting) (sym q.rows) ∙ g.found;
                same = g.same;
                read_back = g.read_back;
                deleted = g.deleted;
                erased = g.erased;
              };
        };
      }

  deletion-end :
      (now : DateTime) (meeting : ℕ) (s : System W)
      → Lawful R
      → Safe R s
      → IsKeyed s.now.rows
      → Ends
          (λ result t. Reported meeting s result t)
          (λ _ t. Safe R t)
          (delete_meeting_audio R now meeting s)
  unfolding delete_meeting_audio ◌>>=◌
  deletion-end now meeting s L h keyed = elim (Bool-cases (is_utc_offset now.offset)) [
    | inl e ↦ rw e (
        bind-Ends (external R.query)
          (λ _ t. delete_found R meeting now (get_by_meeting_id meeting t.now.rows) t) s
          (query-Ends R L s h)
          (λ _ t q.
            weaken-Ends _
              (delete_found-Ends L now meeting t q.later.safe _ ((is_utc_zero _).0 e)
                (subst IsKeyed (sym q.rows) keyed) refl)
              (λ result u k. Reported-before meeting result s t u q k) (λ _ u k. k))
          (λ _ t q. q.0.later.safe))
    | inr e ↦ rw e (record { holds = h })
  ]

-- Deleting the audio of a meeting, whatever the storage, the key store and the database answer or
-- raise. Suppose that every row obeys the lifecycle rules, that of every deleted row the storage
-- has answered that its audio is deleted or not there, and the key store that its key is, and that
-- the row found by a meeting is the one found by its recording's id. Then the first two hold at every
-- moment of the run and at its end, whether it returns or raises. If it returns that it deleted, the
-- row of the meeting's recording is deleted and is of the same recording, and the storage and the
-- key store have so answered for it; if it returns that it did not, the rows and the answers are as
-- they were.
pub delete_meeting_audio-Ends :
    {V : Type 0} (S : RecordingServices V) (now : DateTime) (meeting : ℕ) (s : System (Observed V))
    → Safe (observed S) s
    → IsKeyed (observed S) s.now.rows
    → Ends
        (λ result t. Reported (observed S) meeting s result t)
        (λ _ t. Safe (observed S) t)
        (delete_meeting_audio (observed S) now meeting s)
delete_meeting_audio-Ends S now meeting s h keyed =
    deletion-end (observed S) now meeting s (observed-Lawful S) h keyed
