-- ===== src/Live/Chunk/Persisted.antt =====
-- The entries that the processing of a chunk persists
-- (backend/app/application/use_cases/process_live_audio_chunk.py).
use mathlib.Core.Path.{subst}
use ai_meeting_copilot.Prelude.{
  ℕ, suc, ◌≡◌, refl, sym, ap, ◌∙◌, ◌≢◌, inl, inr, true, false, Option, none, some, List, [], ◌∷◌,
  ◌++◌, map, Option-cases, append_nil, append_assoc, Result, ok, err, is_utc, DateTime, Text,
  is_blank,
}
use ai_meeting_copilot.Meeting.{
  record_event, is_ended, MeetingStatus, draft, active, ended, TranscriptEntry, transcript_added,
  Meeting,
}
use ai_meeting_copilot.Live.Deduplicator.{deduplicate}
use ai_meeting_copilot.Live.Deduplicator.Results.{deduplicate-IsTail}
use ai_meeting_copilot.Live.Chunk.{
  segment_post_init, speaker_or_unknown, Stored, add_transcript_execute, segment_time,
  process_segments, chunk_result, execute, CapturedAudioChunk, TranscriptionSegment,
  ProcessedTranscriptSegment, LiveTranscriptionChunkResult,
}

-- The persisted entry of an accepted segment.
abbrev pub entry_of : ProcessedTranscriptSegment → TranscriptEntry
entry_of s = record {
  id = s.transcript_id;
  speaker = s.speaker;
  text = s.text;
  timestamp = s.timestamp;
}

-- A meeting that can receive entries, and whose transcript is the given one.
abbrev pub OpenWith : Stored → List TranscriptEntry → Type 0
OpenWith stored entries =
    (m : Meeting) × (stored ≡ some m) × (m.status ≢ ended) × (m.transcripts ≡ entries)

-- Speakers that are there are not blank.
abbrev pub HaveSpeakers : List TranscriptionSegment → Type 0
HaveSpeakers [] = Unit {0}
HaveSpeakers (s ∷ ss) = (is_blank (speaker_or_unknown s.speaker) ≡ false) × HaveSpeakers ss

-- The processing returned these segments, and the transcript afterwards is the one before with
-- their entries behind it.
abbrev pub Persists :
    List TranscriptEntry → Result (List ProcessedTranscriptSegment) × Stored → Type 0
Persists before r =
    (accepted : List ProcessedTranscriptSegment) × (r.0 ≡ ok accepted)
    × OpenWith r.1 (before ++ map entry_of accepted)

saves :
    (id : ℕ) (speaker text : Text) (at : DateTime) (stored : Stored) (before : List TranscriptEntry)
    → OpenWith stored before
    → is_blank speaker ≡ false
    → is_blank text ≡ false
    → is_utc at ≡ true
    → (saved : Stored) × (add_transcript_execute id speaker text at stored ≡ ok (id, saved))
      × OpenWith saved
          (before ++ (record { id = id; speaker = speaker; text = text; timestamp = at } ∷ []))
unfolding add_transcript_execute
saves id speaker text at stored before (m, e, o, t) s x u =
    let entry : TranscriptEntry = record {
      id = id;
      speaker = speaker;
      text = text;
      timestamp = at;
    } in
    let m' =
      record_event (transcript_added m.id id speaker)
        (record m { transcripts = m.transcripts ++ (entry ∷ []) }) in
    (
      some m',
      rw e (rw (not_ended m.status o, s, x, u)),
      (m', refl, o, ap (λ ts. ts ++ (entry ∷ [])) t),
    )
  where
    not_ended : (s : MeetingStatus) → s ≢ ended → is_ended s ≡ false
    not_ended draft h = refl
    not_ended active h = refl
    not_ended ended h = absurd (h refl)

builds :
    (s : ProcessedTranscriptSegment)
    → is_blank s.text ≡ false
    → is_utc s.timestamp ≡ true
    → is_blank s.speaker ≡ false
    → segment_post_init s ≡ ok s
unfolding segment_post_init
builds s a b c = rw (a, b, c)

module _ (lower : Text → Text) (max_overlap : ℕ) (uuid : ℕ → ℕ) where
  skip_step :
      (chunk : CapturedAudioChunk) (s : TranscriptionSegment) (ss : List TranscriptionSegment)
      (previous : Option Text) (n : ℕ) (stored : Stored)
      → deduplicate lower max_overlap previous s.text ≡ none
      → process_segments lower max_overlap uuid chunk (s ∷ ss) previous n stored
        ≡ process_segments lower max_overlap uuid chunk ss previous n stored
  unfolding process_segments
  skip_step chunk s ss previous n stored d = rw (d, process_segments)

  -- The segment that a text is accepted as.
  abbrev accepted_as :
      CapturedAudioChunk → TranscriptionSegment → ℕ → Text → ProcessedTranscriptSegment
  accepted_as chunk s n text = record {
    transcript_id = uuid n;
    text = text;
    timestamp = segment_time lower max_overlap uuid chunk s;
    source = chunk.source;
    speaker = speaker_or_unknown s.speaker;
  }

  accept_step :
      (chunk : CapturedAudioChunk) (s : TranscriptionSegment) (ss : List TranscriptionSegment)
      (previous : Option Text) (n : ℕ) (stored saved : Stored) (text : Text)
      (found : List ProcessedTranscriptSegment)
      → deduplicate lower max_overlap previous s.text ≡ some text
      → add_transcript_execute
          (uuid n)
          (speaker_or_unknown s.speaker)
          text
          (segment_time lower max_overlap uuid chunk s)
          stored
        ≡ ok (uuid n, saved)
      → segment_post_init (accepted_as chunk s n text) ≡ ok (accepted_as chunk s n text)
      → (process_segments lower max_overlap uuid chunk ss (some text) (suc n) saved).0 ≡ ok found
      → process_segments lower max_overlap uuid chunk (s ∷ ss) previous n stored ≡ (
        ok (accepted_as chunk s n text ∷ found),
        (process_segments lower max_overlap uuid chunk ss (some text) (suc n) saved).1,
      )
  unfolding process_segments
  accept_step chunk s ss previous n stored saved text found d a b f =
      rw (d, process_segments) (rw (a, process_segments) (rw (b, process_segments) (rw f)))

  -- On a meeting that has not ended, for a chunk with a UTC time and segments without blank
  -- speakers, the processing succeeds, and the transcript afterwards is the one before with one
  -- entry for each accepted segment behind it, in order, of its identity, speaker, text and time.
  pub process_segments-Persists :
      (chunk : CapturedAudioChunk) (ss : List TranscriptionSegment) (previous : Option Text) (n : ℕ)
      (stored : Stored) (before : List TranscriptEntry)
      → is_utc chunk.capture_started_at ≡ true
      → HaveSpeakers ss
      → OpenWith stored before
      → Persists before (process_segments lower max_overlap uuid chunk ss previous n stored)
  process_segments-Persists chunk [] previous n stored before u h (m, e, o, t) =
      unfold process_segments in ([], refl, (m, e, o, t ∙ sym (append_nil before)))
  process_segments-Persists chunk (s ∷ ss) previous n stored before u h o =
      elim (Option-cases (deduplicate lower max_overlap previous s.text)) [
        | inl dropped ↦
            subst (Persists before) (sym (skip_step chunk s ss previous n stored dropped))
              (process_segments-Persists chunk ss previous n stored before u h.1 o)
        | inr (text, accepted) ↦
            let segment = accepted_as chunk s n text in
            let full = (deduplicate-IsTail lower max_overlap previous s.text text accepted).0 in
            let (saved, e, o1) =
              saves (uuid n) segment.speaker text segment.timestamp stored before o h.0 full u in
            let (found, f, o2) =
              process_segments-Persists chunk ss (some text) (suc n) saved
                (before ++ (entry_of segment ∷ [])) u h.1 o1 in
            subst (Persists before)
              (sym (
                accept_step chunk s ss previous n stored saved text found accepted e
                  (builds segment full u h.0) f))
              (
                segment ∷ found,
                refl,
                subst (OpenWith _)
                    (append_assoc before (entry_of segment ∷ []) (map entry_of found)) o2,
              )
      ]

  -- What the use case has to return and to persist, by the provider's answer.
  abbrev pub Answers :
      CapturedAudioChunk
      → List TranscriptEntry
      → Result (List TranscriptionSegment)
      → Result LiveTranscriptionChunkResult × Stored
      → Type 0
  Answers chunk before (err e) r = (r.0 ≡ err e) × OpenWith r.1 before
  Answers chunk before (ok ss) r =
      (accepted : List ProcessedTranscriptSegment) × (r.0
        ≡ ok (chunk_result lower max_overlap uuid chunk accepted))
      × OpenWith r.1 (before ++ map entry_of accepted)

  -- A whole chunk, on a meeting that has not ended, with a UTC time and segments without blank
  -- speakers: the use case returns the provider's error and persists nothing, or it returns the
  -- segments whose entries it persisted, in order, and reports silence exactly if there are none.
  pub execute-Answers :
      (answer : Result (List TranscriptionSegment)) (chunk : CapturedAudioChunk)
      (previous : Option Text) (stored : Stored) (before : List TranscriptEntry)
      → is_utc chunk.capture_started_at ≡ true
      → ((ss : List TranscriptionSegment) → answer ≡ ok ss → HaveSpeakers ss)
      → OpenWith stored before
      → Answers chunk before answer (execute lower max_overlap uuid answer chunk previous stored)
  execute-Answers (err e) chunk previous stored before u h o = unfold execute in (refl, o)
  execute-Answers (ok []) chunk previous stored before u h (m, e, o, t) =
      unfold execute in ([], refl, (m, e, o, t ∙ sym (append_nil before)))
  execute-Answers (ok (s ∷ ss)) chunk previous stored before u h o =
      let (accepted, e, o1) =
        process_segments-Persists chunk (s ∷ ss) previous 0 stored before u (h (s ∷ ss) refl) o in
      unfold execute in (accepted, rw e, o1)
