-- ===== src/Lib.antt =====
-- Verification of the Python backend of AI Meeting Copilot (backend/app).
--
-- The backend records meetings, transcribes captured audio chunk by chunk, keeps the transcript
-- with the meeting, and works on it afterwards: review batches, reply suggestions, playback and
-- deletion of the recording. The parts that are modelled, with the files that model them:
--
--   Meeting      the meeting aggregate: `Meeting`, `TranscriptEntry` and the recorded events
--                (backend/app/domain/entities, backend/app/domain/events). `Meeting.end` is
--                `finish`. Meeting/Lifecycle has its invariant.
--   Live         what happens to an audio chunk: Live/Buffer is `BoundedAudioChunkBuffer`
--                (backend/app/infrastructure/audio), Live/Chunk the use cases
--                `ProcessLiveAudioChunkUseCase` and `AddTranscriptUseCase`
--                (backend/app/application/use_cases), which call Live/Deduplicator,
--                `TranscriptDeduplicator` (backend/app/application/services), and the meeting.
--                Live/Session is `BufferedLiveTranscriptionSession`, which passes each chunk
--                through the buffer to a processor; the processor is a parameter there.
--   Recording    Recording/Metadata has the records and checks of
--                backend/app/application/dto/recordings, Recording/Deletion the transitions of
--                backend/app/application/services/recording_deletion_state.py, Recording/Timing
--                the playback timeline (recording_timing.py), Recording/Capture the use cases
--                that prepare, start, finalize and fail a recording, Recording/Retention
--                `UpdateAudioRetentionUseCase`, and Recording/Seek `ResolveRecordingSeekUseCase`
--                (backend/app/application/use_cases). Recording/Validity and Recording/Stored say
--                what a stored record satisfies. Recording/Erasure is `DeleteMeetingAudioUseCase`,
--                Recording/Cleanup `RecordingRetentionCleanupService` and Recording/Reconcile
--                `RecordingStorageReconciler` (backend/app/application/services); they work on
--                Recording/Rows, the table of recordings, and on the interfaces of the storage and
--                the key store, both in Recording/Work. Recording/Segments is
--                `WriteRecordingSegmentUseCase` with the table of timings.
--   Review       Review/Batcher is `MeetingReviewBatcher`
--                (backend/app/application/services/meeting_review_batcher.py), Review/Merger
--                `MeetingReviewMerger`, Review/Artifact the artifact and its content, and
--                Review/Generation `GenerateMeetingReviewUseCase`, which calls the batcher, the
--                provider and the merger. Review/Translation is the artifact of a translation and
--                `GenerateMeetingTranslationUseCase`; Review/Table is the keyed table of artifacts.
--   Assist       Assist/Context is `RecentTranscriptContext` and `ReplyContext`
--                (backend/app/application/services/recent_transcript_context.py,
--                backend/app/application/dto/assist_mode). Assist/Gate is
--                `LiveTranscriptionPriorityGate` with the tasks that wait on it, and
--                Assist/Orchestrator `AssistModeOrchestrator`, which calls both
--                (live_transcription_priority_gate.py and assist_mode_orchestrator.py there).
--                Assist/Task has coroutines that are cut at their suspension points.
--   Protocol     Protocol/Frame has the binary frames of audio
--                (backend/app/api/live_transcription/binary_frames.py).
--   Exec         computations on a state that may raise, for the use cases with several
--                transactions.
--   Prelude      what the others share: exceptions as values, Python's text and datetime values,
--                lists measured by native numbers.
--   Tests        the theorems at concrete inputs.
--
-- How the code is read. A Python `int` is a natural number where the code checks that it is not
-- negative, and it has no width. UUIDs are numbers; what `uuid4`, the clock, the speech provider
-- and `str.lower` return is an argument. A `datetime` is an instant in microseconds with the offset
-- from UTC, if it has one. Text is a list of code points. A call that may raise returns a
-- `Result`; the exception keeps its class and loses its message. A use case takes what its unit
-- of work reads and returns what it saves; where it raises, nothing is saved after the last
-- commit. The workers that delete, the writing of a segment and the generation of a review or of a
-- translation have several transactions: they are computations on a table and a world outside, in
-- which every call and every commit may raise, and what was done before stays done. For the
-- deletion each of these steps is recorded as a moment, so that a theorem about all moments covers
-- a process that stops in between. There the storage, the key store, the query of the rows and the
-- commit are any functions on the world: that a recording is deleted means that the storage and the
-- key store have answered so, or that it is not there (Recording/Work/Observed). Elsewhere the
-- storage, the provider and the commit are records of functions on the world, with their documented
-- behaviour as named laws. JSON, UUID texts and ISO times of a frame are such a record too. A method
-- that holds a lock from start to end is one step. The float operations of a seek are a record of
-- operations over any type of seconds, so that rounding is not assumed away; a duration elsewhere
-- counts nanoseconds or is not finite, and is compared exactly. The floats of the gate are such a
-- record too.
--
-- Concurrency. The gate and the orchestrator run on one event loop, so that a task is interrupted
-- only where it awaits. A schedule is a sequence of steps, each a part of one task between two
-- suspensions. For the gate one waiting task is followed through all schedules of the others, which
-- share the gate: they may clear its activity event, and setting it wakes the inner task.
-- A session of the orchestrator has any number of callers and its worker; what a task awaits is
-- answered by any value or exception at any time, a cancellation included, so that the theorems do
-- not depend on when a cancelled task ends. The task of a translation calls its use case in a step
-- of its own behind the one that created it, at any time, unless it is cancelled before.
--
-- Loops. Most are structural recursions. The binary search of a seek runs on fuel of one more than
-- the number of rows, and the loop of the batcher on one more than the number of entries; running
-- out is an error of its own. That is enough because each round of the search drops a row, and
-- each round of the batcher starts at a later entry.
--
-- Not modelled: routes, persistence, AI providers, configuration and logging (I/O and calls of
-- libraries), the tools that measure transcription quality, and the desktop application. The
-- format of recording files and their encryption and the control messages of the wire protocol are
-- left out. Of the orchestrator the throughput diagnostics are left out.
pub mod Prelude
pub mod Exec
pub mod Meeting
pub mod Live
pub mod Recording
pub mod Review
pub mod Assist
pub mod Protocol
mod Tests
