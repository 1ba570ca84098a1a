-- ===== src/Tests/Orchestrators.antt =====
-- The theorems about the orchestrator of assist mode at a session with one segment.
use ai_meeting_copilot.Exec
use ai_meeting_copilot.Assist
use ai_meeting_copilot.Prelude.{
  ℕ, ◌≤◌, ◌≡◌, refl, true, false, none, some, [], ◌∷◌, map, arith, ok, pos, codes,
}
use ai_meeting_copilot.Exec.{attempt}
use ai_meeting_copilot.Live.Chunk.{microphone, processing}
use ai_meeting_copilot.Tests.Gates.{clock}
use ai_meeting_copilot.Assist.Context.{TranscriptSegment, trim_count, trim_text, add}
use ai_meeting_copilot.Assist.Gate.{LiveTranscriptionPriorityGate}
use ai_meeting_copilot.Assist.Task.{call, recover, Task, returns, await}
use ai_meeting_copilot.Assist.Orchestrator.{
  AssistModeConfiguration, QueuedAssistSegment, AssistModeOrchestrator, update_without_payload,
  configuration_post_init, fresh_orchestrator, new_orchestrator, queue_segment, translation,
  processing, running,
}
use ai_meeting_copilot.Assist.Orchestrator.Sound.{IsSound}
use ai_meeting_copilot.Assist.Orchestrator.Work.{
  Program, publish, start_race, run_translation_capability, publish_update, wait_for_admission,
  race,
}
use ai_meeting_copilot.Assist.Orchestrator.Session.{
  System, process_segment, enqueue, start, stop, body, next_round, run_caller, run_worker,
  set_queue, new_session, Worker, at_work, starts, stops, enqueues, invoke, begin_worker, dequeue,
  proceed, begin_translation, Reach, here, next,
}
use ai_meeting_copilot.Assist.Orchestrator.Queue.{with_received, queue_segment-newest}
use ai_meeting_copilot.Assist.Orchestrator.Lists.{Every}
use ai_meeting_copilot.Assist.Orchestrator.Safe.{IsCallAllowed, race_count, translation_count}
use ai_meeting_copilot.Assist.Orchestrator.Silent.{IsSilent}
use ai_meeting_copilot.Assist.Orchestrator.Whole.{session-IsSafe, stop-IsFinal}

abbrev spoken : TranscriptSegment
spoken = record {
  transcript_id = 7;
  meeting_id = 1;
  text = codes "When do we start?";
  timestamp = record { instant = 43200; offset = some (pos 0) };
  source = microphone;
  speaker = codes "Anna";
}

abbrev translating : AssistModeConfiguration
translating = record {
  translation_enabled = true;
  simplification_enabled = false;
  simplification_level = none;
  reply_coaching_enabled = true;
  max_queue_size = 8;
}

abbrev quiet_gate : LiveTranscriptionPriorityGate ℕ
quiet_gate = record {
  active_stt_count = 0;
  stt_start_generation = 3;
  last_stt_started_at = none;
  stt_start_intervals = [];
  upstream_pending_stt_chunks = 0;
  idle_event = true;
  backlog_cleared_event = true;
  activity_event = false;
}

abbrev orchestrator : AssistModeOrchestrator ℕ
orchestrator = fresh_orchestrator translating quiet_gate

translating-valid : configuration_post_init translating ≡ ok translating
unfolding configuration_post_init
translating-valid = refl

orchestrator-made : new_orchestrator translating true false true quiet_gate ≡ ok orchestrator
unfolding new_orchestrator
orchestrator-made = refl

abbrev with_segment : System ℕ
with_segment =
    let y = run_caller [] [] (body starts) (new_session orchestrator) in
    run_caller [] y.callers (body (enqueues spoken)) y

with_segment-Reach : Reach clock (new_session orchestrator) with_segment
with_segment-Reach = next (next here (invoke starts)) (invoke (enqueues spoken))

queued : QueuedAssistSegment
queued = record { ordinal = 1; segment = spoken }

abbrev with_worker : System ℕ
with_worker = next_round with_segment

-- The worker waits for the admission of the translation, then for the sink, then for the race.
abbrev translating_segment : System ℕ
translating_segment = run_worker (process_segment queued) (set_queue [] with_worker.now) with_worker

translating_segment-Reach : Reach clock (new_session orchestrator) translating_segment
unfolding start enqueue queue_segment attempt Assist.Task.◌>>=◌ Exec.◌>>=◌ queued
translating_segment-Reach =
    next (next with_segment-Reach (begin_worker {y = with_segment} refl refl))
      (dequeue {y = with_worker} queued [] refl refl)

-- The gate and the sink answer.
abbrev answered : Program ℕ (Unit {0}) → Program ℕ (Unit {0})
answered (await (wait_for_admission n) k) = k (ok tt)
answered (await (publish_update u) k) = k (ok tt)
answered p = p

abbrev work_of : Worker ℕ → Program ℕ (Unit {0})
work_of (at_work p) = p
work_of _ = returns tt

abbrev after_answer : System ℕ → System ℕ
after_answer y = run_worker (answered (work_of y.worker)) y.now y

abbrev racing_segment : System ℕ
racing_segment = after_answer (after_answer translating_segment)

racing_segment-Reach : Reach clock (new_session orchestrator) racing_segment
unfolding start enqueue queue_segment attempt Assist.Task.◌>>=◌ Exec.◌>>=◌ queued process_segment
    add trim_count trim_text run_translation_capability publish start_race recover
racing_segment-Reach =
    next
      (next translating_segment-Reach
        (proceed {y = translating_segment} (wait_for_admission none) _ (ok tt) refl))
      (proceed {y = after_answer translating_segment}
        (publish_update (update_without_payload 7 translation processing)) _ (ok tt) refl)

session-IsSafe_example :
    IsSound racing_segment.now
    × Every IsCallAllowed racing_segment.calls
    × (translation_count racing_segment ≤ race_count racing_segment.calls)
session-IsSafe_example =
    session-IsSafe clock translating true false true quiet_gate orchestrator translating-valid
      orchestrator-made racing_segment-Reach

racing_segment-calls :
    map (λ call. call.0) racing_segment.calls
    ≡ race 1 3
      ∷ publish_update (update_without_payload 7 translation processing)
      ∷ wait_for_admission none
      ∷ []
unfolding start enqueue queue_segment attempt Assist.Task.◌>>=◌ Exec.◌>>=◌ queued process_segment
    add trim_count trim_text run_translation_capability publish start_race recover
racing_segment-calls = refl

abbrev stopped_session : System ℕ
stopped_session = run_caller [] racing_segment.callers (body stops) racing_segment

racing_segment-created : racing_segment.created ≡ 1 ∷ []
unfolding start enqueue queue_segment attempt Assist.Task.◌>>=◌ Exec.◌>>=◌ queued process_segment
    add trim_count trim_text run_translation_capability publish start_race recover
racing_segment-created = refl

stopped_session-created : stopped_session.created ≡ 1 ∷ []
unfolding start enqueue queue_segment attempt Assist.Task.◌>>=◌ Exec.◌>>=◌ queued process_segment
    add trim_count trim_text run_translation_capability publish start_race recover stop
stopped_session-created = refl

-- The task of the translation begins after the stop.
abbrev late_session : System ℕ
late_session = record stopped_session { created = []; translated = 1 ∷ [] }

late_session-Reach : Reach clock stopped_session late_session
unfolding start enqueue queue_segment attempt Assist.Task.◌>>=◌ Exec.◌>>=◌ queued process_segment
    add trim_count trim_text run_translation_capability publish start_race recover stop
late_session-Reach = next here (begin_translation {y = stopped_session} 1 [] [] refl)

stop-IsFinal_example : IsSilent racing_segment late_session
stop-IsFinal_example =
    stop-IsFinal clock translating true false true quiet_gate orchestrator {y = racing_segment}
      translating-valid orchestrator-made racing_segment-Reach late_session-Reach

abbrev heard : ℕ → QueuedAssistSegment
heard n = record { ordinal = n; segment = record spoken { transcript_id = n } }

-- A session whose queue of two is full.
abbrev full_session : AssistModeOrchestrator ℕ
full_session = record orchestrator {
  configuration = record translating { max_queue_size = 2 };
  queue = heard 1 ∷ heard 2 ∷ [];
  state = running;
  received_segment_count = 2;
  latest_translation_ordinal = some 2;
}

full_session-IsSound : IsSound full_session
full_session-IsSound = record {
  positive = omega arith;
  idle = λ e. cc;
  bounded = omega arith;
  climbs = (omega arith, (omega arith, omega arith));
  terminated = λ e. cc;
  latest = omega arith;
  fits = record { few = omega arith; short = omega arith };
  few = omega arith;
}

queue_segment-newest_example : queue_segment spoken full_session ≡ (
  ok (some (heard 1)),
  with_received (heard 2 ∷ record { ordinal = 3; segment = spoken } ∷ []) full_session,
)
queue_segment-newest_example = queue_segment-newest spoken full_session full_session-IsSound refl
