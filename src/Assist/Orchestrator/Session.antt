-- ===== src/Assist/Orchestrator/Session.antt =====
-- A session of the orchestrator: its public methods, the loop of its worker and the changes of its
-- gate, in any order (backend/app/application/services/assist_mode_orchestrator.py).
use ai_meeting_copilot.Prelude.{
  ℕ, ◌≡◌, Bool, true, false, not, ◌&&◌, ◌||◌, Option, none, some, List, [], ◌∷◌, ◌++◌,
  if◌then◌else◌, is_some, Error, runtime_error, Result, err, ok, ℤ,
}
use ai_meeting_copilot.Assist.Context.{TranscriptSegment, ReplyContext, add, build_reply_context}
use ai_meeting_copilot.Assist.Gate.{
  ClockOps, LiveTranscriptionPriorityGate, set_upstream_pending_stt_chunks, stt_finished,
  stt_started,
}
use ai_meeting_copilot.Assist.Task.{
  perform, gets, modify, call, ◌>>=◌, ◌>>◌, recover, suppressed, advance, returns, raises, change,
  await,
}
use ai_meeting_copilot.Assist.Orchestrator.{
  QueuedAssistSegment, AssistModeOrchestrator, is_running, is_failed, is_translation_only,
  enabled_capabilities, queue_segment, simplification, reply_coaching, stopped, running,
  failed_state, stopping,
}
use ai_meeting_copilot.Assist.Orchestrator.Work.{
  ReplyOf, Program, session_running, branch_on, clear_pending_queue, publish_dropped,
  publish_generic_failure, run_capability, run_translation_capability, Wait, race, worker_end,
}

module _ {T : Type 0} where
  abbrev pub set_context :
      List TranscriptSegment → AssistModeOrchestrator T → AssistModeOrchestrator T
  set_context c s = record s { context = c }

  abbrev pub coach : TranscriptSegment → ℕ → Option ReplyContext → Program T (Unit {0})
  coach segment ordinal none = returns tt
  coach segment ordinal (some _) = run_capability segment reply_coaching ordinal

  -- The capabilities of `_process_segment`, in their order
  abbrev pub translate_step : QueuedAssistSegment → Program T (Unit {0})
  translate_step q =
      branch_on (λ s. s.configuration.translation_enabled)
        (run_translation_capability q.segment.transcript_id q.ordinal) (returns tt)

  abbrev pub coach_step : QueuedAssistSegment → Program T (Unit {0})
  coach_step q =
      branch_on (λ s. s.configuration.reply_coaching_enabled)
        (perform (λ s. (build_reply_context s.context, s)) >>= coach q.segment q.ordinal)
        (returns tt)

  abbrev pub simplify_step : QueuedAssistSegment → Program T (Unit {0})
  simplify_step q =
      branch_on
        (λ s.
          s.configuration.simplification_enabled && is_some s.configuration.simplification_level)
        (run_capability q.segment simplification q.ordinal) (returns tt)

  abbrev pub process_added :
      QueuedAssistSegment → Result (List TranscriptSegment) → Program T (Unit {0})
  process_added q (err e) = publish_generic_failure q.segment.transcript_id reply_coaching
  process_added q (ok c) =
      modify (set_context c) >> (translate_step q >> (coach_step q >> simplify_step q))

  -- `_process_segment`
  unfoldable pub process_segment : QueuedAssistSegment → Program T (Unit {0})
  process_segment q = change (λ s. s) (λ s. process_added q (add q.segment s.context))

  -- `enqueue`, with the value that it returns
  abbrev pub report_dropped : Option QueuedAssistSegment → Program T Bool
  report_dropped none = gets session_running
  report_dropped (some d) =
      branch_on (λ s. is_translation_only s.configuration) (gets session_running)
        (gets (λ s. enabled_capabilities s.configuration) >>= λ capabilities.
          publish_dropped d.segment capabilities >>= λ published.
          if published then gets session_running else returns false)

  unfoldable pub enqueue : TranscriptSegment → Program T Bool
  enqueue segment = perform (queue_segment segment) >>= report_dropped

  -- `start`
  abbrev pub start_session : AssistModeOrchestrator T → AssistModeOrchestrator T
  start_session s = record s { state = running; has_worker = true }

  unfoldable pub start : Program T (Unit {0})
  start = branch_on session_running (returns tt) (
      branch_on (λ s. s.is_terminated || is_failed s.state) (raises runtime_error)
        (modify start_session))

  -- `stop`
  abbrev pub begin_stop : AssistModeOrchestrator T → AssistModeOrchestrator T
  begin_stop s =
      clear_pending_queue (record s {
        is_terminated = true;
        state = if is_running s.state then stopping else s.state;
      })

  abbrev pub end_stop : AssistModeOrchestrator T → AssistModeOrchestrator T
  end_stop s = record s {
    context = [];
    state = if is_failed s.state then failed_state else stopped;
  }

  abbrev pub join_worker : Program T (Unit {0})
  join_worker =
      change (λ s. record s { has_worker = false })
        (λ s.
          if s.has_worker && not s.is_worker_done
          then recover (call worker_end) suppressed
          else returns tt)

  unfoldable pub stop : Program T (Unit {0})
  stop =
      branch_on (λ s. s.is_terminated) (returns tt)
        (modify begin_stop >> (join_worker >> modify end_stop))

-- The loop of `_run_worker`: not begun, in `self._queue.get()`, in `_process_segment`, ended.
pub data Worker (T : Type 0) : Type 0 where
  not_begun waiting ended : Worker T
  at_work : Program T (Unit {0}) → Worker T

pub data Method : Type 0 where
  starts stops : Method
  enqueues : TranscriptSegment → Method

abbrev pub body : {T : Type 0} → Method → Program T (Unit {0})
body starts = start
body stops = stop
body (enqueues segment) = enqueue segment >> returns tt

-- The calls that the methods made, the newest first, each with the state in which it was made; the
-- ordinals of the translations whose task is created and has not begun (`operation_task`), and of
-- those whose task has called the use case, the newest first.
pub record System (T : Type 0) : Type 0 where
  pub now : AssistModeOrchestrator T
  pub callers : List (Program T (Unit {0}))
  pub worker : Worker T
  pub calls : List (Wait × AssistModeOrchestrator T)
  pub created : List ℕ
  pub translated : List ℕ

module _ {T : Type 0} where
  abbrev pub called :
      Program T (Unit {0})
      → AssistModeOrchestrator T
      → List (Wait × AssistModeOrchestrator T)
      → List (Wait × AssistModeOrchestrator T)
  called (await w k) s calls = (w, s) ∷ calls
  called _ s calls = calls

  -- `operation_task` is created where a race begins.
  abbrev pub created_by : Program T (Unit {0}) → List ℕ → List ℕ
  created_by (await (race n g) k) created = n ∷ created
  created_by _ created = created

  abbrev pub with_gate :
      LiveTranscriptionPriorityGate T → AssistModeOrchestrator T → AssistModeOrchestrator T
  with_gate g s = record s { priority_gate = g }

  -- The test of the loop, and its end
  abbrev pub next_round : System T → System T
  next_round y =
      if is_running y.now.state
      then record y { worker = waiting }
      else record y { worker = ended; now = record (y.now) { is_worker_done = true } }

  abbrev pub end_worker : System T → System T
  end_worker y = record y { worker = ended; now = record (y.now) { is_worker_done = true } }

  -- A part of a caller, or of the worker, up to its next suspension
  abbrev pub run_caller :
      List (Program T (Unit {0}))
      → List (Program T (Unit {0}))
      → Program T (Unit {0})
      → System T
      → System T
  run_caller before after p y = record y {
    now = (advance p y.now).1;
    callers = before ++ ((advance p y.now).0 ∷ after);
    calls = called (advance p y.now).0 (advance p y.now).1 y.calls;
    created = created_by (advance p y.now).0 y.created;
  }

  abbrev pub run_worker : Program T (Unit {0}) → AssistModeOrchestrator T → System T → System T
  run_worker p s y = record y {
    now = (advance p s).1;
    worker = at_work (advance p s).0;
    calls = called (advance p s).0 (advance p s).1 y.calls;
    created = created_by (advance p s).0 y.created;
  }

  abbrev pub set_queue :
      List QueuedAssistSegment → AssistModeOrchestrator T → AssistModeOrchestrator T
  set_queue qs s = record s { queue = qs }

-- What may come next. A reply may be any, at any time; a task that was created begins at any time,
-- with the call of its use case, unless it is cancelled before.
pub data Step {T : Type 0} (ops : ClockOps T) : System T → System T → Type 0 where
  invoke : {y : System T} (m : Method) → Step ops y (run_caller [] y.callers (body m) y)
  resume :
      {y : System T} (before after : List (Program T (Unit {0}))) (w : Wait)
      (k : Result (ReplyOf w) → Program T (Unit {0})) (x : Result (ReplyOf w))
      → y.callers ≡ before ++ (await w k ∷ after)
      → Step ops y (run_caller before after (k x) y)
  begin_worker :
      {y : System T} → y.worker ≡ not_begun → y.now.has_worker ≡ true → Step ops y (next_round y)
  dequeue :
      {y : System T} (q : QueuedAssistSegment) (qs : List QueuedAssistSegment)
      → y.worker ≡ waiting
      → y.now.queue ≡ q ∷ qs
      → Step ops y (run_worker (process_segment q) (set_queue qs y.now) y)
  cancel_waiting : {y : System T} → y.worker ≡ waiting → Step ops y (end_worker y)
  proceed :
      {y : System T} (w : Wait) (k : Result (ReplyOf w) → Program T (Unit {0}))
      (x : Result (ReplyOf w))
      → y.worker ≡ at_work (await w k)
      → Step ops y (run_worker (k x) y.now y)
  continue_worker : {y : System T} → y.worker ≡ at_work (returns tt) → Step ops y (next_round y)
  crash : {y : System T} (e : Error) → y.worker ≡ at_work (raises e) → Step ops y (end_worker y)
  begin_translation :
      {y : System T} (n : ℕ) (before after : List ℕ)
      → y.created ≡ before ++ (n ∷ after)
      → Step ops y (record y { created = before ++ after; translated = n ∷ y.translated })
  cancel_translation :
      {y : System T} (n : ℕ) (before after : List ℕ)
      → y.created ≡ before ++ (n ∷ after)
      → Step ops y (record y { created = before ++ after })
  begin_stt :
      {y : System T} (at : T)
      → Step ops y (record y { now = with_gate (stt_started ops at y.now.priority_gate) y.now })
  end_stt :
      {y : System T}
      → Step ops y (record y { now = with_gate (stt_finished y.now.priority_gate) y.now })
  report_upstream :
      {y : System T} (n : ℤ)
      → Step ops y (record y {
        now = with_gate (set_upstream_pending_stt_chunks n y.now.priority_gate) y.now;
      })
  clear_activity :
      {y : System T}
      → Step ops y (record y {
        now = with_gate (record (y.now.priority_gate) { activity_event = false }) y.now;
      })

pub data Reach {T : Type 0} (ops : ClockOps T) (x : System T) : System T → Type 0 where
  here : Reach ops x x
  next : {y z : System T} → Reach ops x y → Step ops y z → Reach ops x z

-- A session before any call
abbrev pub new_session : {T : Type 0} → AssistModeOrchestrator T → System T
new_session s = record {
  now = s;
  callers = [];
  worker = not_begun;
  calls = [];
  created = [];
  translated = [];
}
