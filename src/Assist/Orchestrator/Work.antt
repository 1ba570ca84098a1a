-- ===== src/Assist/Orchestrator/Work.antt =====
-- The methods of the orchestrator as tasks, cut where they await
-- (backend/app/application/services/assist_mode_orchestrator.py). Log lines and throughput
-- diagnostics are left out.
use ai_meeting_copilot.Prelude.{
  ℕ, Bool, true, false, not, ◌||◌, Option, none, some, List, [], ◌∷◌, ◌++◌, ltb, ◌==◌,
  if◌then◌else◌, take_last, Error, cancelled_error, Result, err, ok,
}
use ai_meeting_copilot.Assist.Context.{TranscriptSegment}
use ai_meeting_copilot.Assist.Task.{
  gets, modify, call, ◌>>=◌, ◌>>◌, recover, finally_do, re_raise_cancelled, suppressed, Task,
  returns, raises, change,
}
use ai_meeting_copilot.Assist.Orchestrator.{
  AssistUpdate, AssistModeOrchestrator, is_ready, update_without_payload, is_running, is_some_equal,
  estimated_translation_duration_ms, set_latest, AssistCapability, translation, processing, failed,
  unavailable, failed_state,
}

-- What a method awaits: the sink, the gate, a use case, the race of a translation against the next
-- start of speech recognition, the end of a task of that race, and the end of the worker. A `race`
-- creates the two tasks and waits for the first to end: the use case is called by the first step of
-- its task, which is a step of the session of its own.
pub data Wait : Type 0 where
  publish_update : AssistUpdate → Wait
  wait_for_admission : Option ℕ → Wait
  operation : AssistCapability → ℕ → Wait
  race : (ordinal stt_start_generation : ℕ) → Wait
  race_task : Wait
  worker_end : Wait

-- The operation is completed, with its update unless that is of another type, and with the
-- milliseconds since its start; or recognition has started.
pub data RaceEnd : Type 0 where
  completed : Result (Option AssistUpdate) → ℕ → RaceEnd
  stt_start : RaceEnd

abbrev pub ReplyOf : Wait → Type 0
ReplyOf (operation c n) = AssistUpdate
ReplyOf (race n g) = RaceEnd
ReplyOf _ = Unit

abbrev pub Program : Type 0 → Type 0 → Type 0
Program T A = Task (AssistModeOrchestrator T) Wait ReplyOf A

abbrev pub duration_history_size : ℕ
duration_history_size = 4

module _ {T : Type 0} where
  abbrev pub session_running : AssistModeOrchestrator T → Bool
  session_running s = is_running s.state

  -- `if condition: p else: q`, on the state
  abbrev pub branch_on :
      {A : Type 0} → (AssistModeOrchestrator T → Bool) → Program T A → Program T A → Program T A
  branch_on c p q = change (λ s. s) (λ s. if c s then p else q)

  abbrev pub clear_pending_queue : AssistModeOrchestrator T → AssistModeOrchestrator T
  clear_pending_queue s = record s { queue = [] }

  abbrev pub fail_session : AssistModeOrchestrator T → AssistModeOrchestrator T
  fail_session s = clear_pending_queue (record s { state = failed_state })

  -- `_publish`
  unfoldable pub publish : AssistUpdate → Program T Bool
  publish u =
      branch_on session_running
        (recover (call (publish_update u) >> gets session_running)
          (re_raise_cancelled (modify fail_session >> returns false)))
        (returns false)

  abbrev pub publish_if_running : AssistUpdate → Program T (Unit {0})
  publish_if_running u = branch_on session_running (publish u >> returns tt) (returns tt)

  -- `_publish_dropped`, for the capabilities that are left
  abbrev pub publish_dropped : TranscriptSegment → List AssistCapability → Program T Bool
  publish_dropped segment [] = returns true
  publish_dropped segment (c ∷ cs) =
      let rest = publish_dropped segment cs in
      publish (update_without_payload segment.transcript_id c unavailable) >>= λ published.
      if published then rest else returns false

  -- `_publish_generic_failure` and `_publish_translation_unavailable`
  abbrev pub publish_generic_failure : ℕ → AssistCapability → Program T (Unit {0})
  publish_generic_failure id c = publish_if_running (update_without_payload id c failed)

  abbrev pub publish_translation_unavailable : ℕ → Program T (Unit {0})
  publish_translation_unavailable id =
      publish_if_running (update_without_payload id translation unavailable)

  -- `_run_capability`
  abbrev pub operate : ℕ → AssistCapability → ℕ → Program T (Option AssistUpdate)
  operate id c ordinal =
      recover (call (operation c ordinal) >>= λ u. returns (some u))
        (re_raise_cancelled (publish_generic_failure id c >> returns none))

  abbrev pub publish_some : Option AssistUpdate → Program T (Unit {0})
  publish_some none = returns tt
  publish_some (some u) = publish_if_running u

  unfoldable pub run_capability : TranscriptSegment → AssistCapability → ℕ → Program T (Unit {0})
  run_capability segment c ordinal =
      publish (update_without_payload segment.transcript_id c processing) >>= λ published.
      if published then operate segment.transcript_id c ordinal >>= publish_some else returns tt

  -- `_publish_translation_result`: a ready update adds its duration
  abbrev pub keep_duration : Bool → ℕ → AssistModeOrchestrator T → AssistModeOrchestrator T
  keep_duration is_kept elapsed s = record s {
    completed_translation_durations_ms =
        if is_kept
        then take_last duration_history_size
            (s.completed_translation_durations_ms ++ (elapsed ∷ []))
        else s.completed_translation_durations_ms;
  }

  abbrev pub publish_translation_result : AssistUpdate → ℕ → Program T (Unit {0})
  publish_translation_result u elapsed =
      modify (keep_duration (is_ready u.state) elapsed) >> publish_if_running u

  -- The end of the operation, behind `operation_task.result()`
  abbrev pub operation_ended : ℕ → Result (Option AssistUpdate) → ℕ → Program T (Unit {0})
  operation_ended id (err cancelled_error) elapsed = raises cancelled_error
  operation_ended id (ok (some u)) elapsed = publish_translation_result u elapsed
  operation_ended id _ elapsed = publish_generic_failure id translation

  abbrev pub end_race_task : Program T (Unit {0})
  end_race_task = recover (call race_task) suppressed

  abbrev pub race_ended : ℕ → RaceEnd → Program T (Unit {0})
  race_ended id (completed r elapsed) = end_race_task >> operation_ended id r elapsed
  race_ended id stt_start = end_race_task >> publish_translation_unavailable id

  abbrev pub race_cancelled : Error → Program T (Unit {0})
  race_cancelled cancelled_error = end_race_task >> (end_race_task >> raises cancelled_error)
  race_cancelled e = raises e

  abbrev pub is_newest : ℕ → AssistModeOrchestrator T → Bool
  is_newest ordinal s = is_some_equal s.latest_translation_ordinal ordinal

  abbrev pub forget_latest : ℕ → AssistModeOrchestrator T → AssistModeOrchestrator T
  forget_latest ordinal s =
      set_latest (if is_newest ordinal s then none else s.latest_translation_ordinal) s

  abbrev pub set_active : Option ℕ → AssistModeOrchestrator T → AssistModeOrchestrator T
  set_active o s = record s { active_translation_ordinal = o }

  -- The `try` of `_run_translation_capability` with its handlers
  abbrev pub run_race : ℕ → ℕ → ℕ → Program T (Unit {0})
  run_race id ordinal generation =
      finally_do (recover (call (race ordinal generation) >>= race_ended id) race_cancelled)
        (modify (λ s. forget_latest ordinal (set_active none s)))

  abbrev pub has_stt_priority : ℕ → AssistModeOrchestrator T → Bool
  has_stt_priority generation s =
      ltb 0 s.priority_gate.active_stt_count
      || not (s.priority_gate.stt_start_generation == generation)

  -- Behind the update that says `processing`
  unfoldable pub start_race : ℕ → ℕ → ℕ → Program T (Unit {0})
  start_race id ordinal generation =
      branch_on (has_stt_priority generation)
        (publish_translation_unavailable id >> modify (forget_latest ordinal))
        (branch_on (is_newest ordinal)
          (modify (set_active (some ordinal)) >> run_race id ordinal generation)
          (publish_translation_unavailable id))

  abbrev pub announce : ℕ → ℕ → Program T (Unit {0})
  announce id ordinal = gets (λ s. s.priority_gate.stt_start_generation) >>= λ generation.
      publish (update_without_payload id translation processing) >>= λ published.
      if published then start_race id ordinal generation else returns tt

  -- `_run_translation_capability`
  unfoldable pub run_translation_capability : ℕ → ℕ → Program T (Unit {0})
  run_translation_capability id ordinal =
      branch_on (is_newest ordinal)
        (gets (λ s. estimated_translation_duration_ms s.completed_translation_durations_ms)
          >>= λ estimated.
              call (wait_for_admission estimated)
              >> branch_on session_running
                  (branch_on (is_newest ordinal) (announce id ordinal)
                    (publish_translation_unavailable id))
                  (returns tt))
        (publish_translation_unavailable id)
