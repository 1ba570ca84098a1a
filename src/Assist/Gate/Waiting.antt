-- ===== src/Assist/Gate/Waiting.antt =====
-- The tasks that wait for the gate, between one suspension and the next
-- (backend/app/application/services/live_transcription_priority_gate.py).
use ai_meeting_copilot.Prelude.{
  ℕ, zero, suc, ◌≡◌, Bool, true, false, not, ◌&&◌, Option, none, some, ltb, ◌==◌, if◌then◌else◌, ℤ,
}
use ai_meeting_copilot.Assist.Gate.{
  ClockOps, TranslationAdmission, LiveTranscriptionPriorityGate, is_backlog, new_gate,
  set_upstream_pending_stt_chunks, stt_finished, stt_started, at_most, translation_admission,
  TranslationAdmissionReason,
}

pub data Watch : Type 0 where
  fresh asleep woken finished : Watch

-- Where `wait_for_translation_admission` is suspended: on one of the two events, on the race of a
-- start after a generation against a deadline, or nowhere any more.
pub data Position (T : Type 0) : Type 0 where
  awaiting_idle awaiting_backlog : Position T
  racing : ℕ → T → Position T
  admitted : TranslationAdmission T → Position T

-- Its local variables.
pub record Waiter (T : Type 0) : Type 0 where
  pub position : Position T
  pub was_deferred : Bool
  pub deferred_idle_window_ms : ℕ
  pub deferred_reason : Option TranslationAdmissionReason

abbrev pub or_reason :
    Option TranslationAdmissionReason
    → TranslationAdmissionReason
    → Option TranslationAdmissionReason
or_reason none r = some r
or_reason (some q) r = some q

-- The task of `wait_for_stt_start_after(generation)` after a part of its loop: it waits on the
-- activity event, or it has returned.
abbrev pub watch_from : {T : Type 0} → ℕ → LiveTranscriptionPriorityGate T → Watch
watch_from generation g = if g.stt_start_generation == generation then asleep else finished

abbrev pub without_activity :
    {T : Type 0} → LiveTranscriptionPriorityGate T → LiveTranscriptionPriorityGate T
without_activity g = record g { activity_event = false }

-- The task runs until it is suspended or returns; while it is asleep it does not run.
unfoldable pub run_watch :
    {T : Type 0}
    → ℕ
    → Watch
    → LiveTranscriptionPriorityGate T
    → Watch × LiveTranscriptionPriorityGate T
run_watch generation fresh g = (
  watch_from generation g,
  if g.stt_start_generation == generation then without_activity g else g,
)
run_watch generation woken g = (watch_from generation g, without_activity g)
run_watch generation asleep g = (asleep, g)
run_watch generation finished g = (finished, g)

-- Setting the activity event wakes the task that waits on it, which stays woken when another task
-- clears the event before it runs.
abbrev pub wake : Watch → Watch
wake asleep = woken
wake w = w

abbrev pub notified : {T : Type 0} (before after : LiveTranscriptionPriorityGate T) → Watch → Watch
notified before after w = if after.activity_event && not before.activity_event then wake w else w

module _ {T : Type 0} (ops : ClockOps T) (estimated : ℕ) where
  open ops use {nought, lt}

  -- The local variables after a backlog was met.
  abbrev pub defer_for_backlog : TranslationAdmission T → Waiter T → Waiter T
  defer_for_backlog a w = record w {
    was_deferred = true;
    deferred_reason = or_reason w.deferred_reason a.reason;
  }

  -- The end of an iteration: the admission is returned, or the race begins.
  abbrev pub admit_or_race :
      LiveTranscriptionPriorityGate T → TranslationAdmission T → Waiter T → Waiter T
  admit_or_race g a w =
      if at_most ops a.wait_seconds nought
      then record w {
        position = admitted (record a {
          wait_seconds = nought;
          was_deferred = w.was_deferred;
          deferred_idle_window_ms = w.deferred_idle_window_ms;
          deferred_reason = w.deferred_reason;
        });
      }
      else record {
        position = racing g.stt_start_generation a.wait_seconds;
        was_deferred = true;
        deferred_idle_window_ms = a.idle_window_ms;
        deferred_reason = some a.reason;
      }

  -- The loop of `wait_for_translation_admission`, from its head to the next suspension. A wait on
  -- an event that is set does not suspend; `none` means that the rounds ran out.
  unfoldable pub run_loop : ℕ → T → LiveTranscriptionPriorityGate T → Waiter T → Option (Waiter T)
  run_loop zero now g w = none
  run_loop (suc rounds) now g w =
      if ltb 0 g.active_stt_count
      then (if g.idle_event
          then run_loop rounds now g w
          else some (record w { position = awaiting_idle }))
      else elim (translation_admission ops estimated now g) [
        | none ↦ run_loop rounds now g w
        | some a ↦
            if is_backlog a.reason
            then (if g.backlog_cleared_event
                then run_loop rounds now g (defer_for_backlog a w)
                else some (record (defer_for_backlog a w) { position = awaiting_backlog }))
            else some (admit_or_race g a w)
      ]

  -- `wait_for_translation_admission` begins.
  abbrev pub new_waiter : Waiter T
  new_waiter = record {
    position = awaiting_idle;
    was_deferred = false;
    deferred_idle_window_ms = 0;
    deferred_reason = none;
  }

  -- The gate, the one task that waits for it, and the inner task of its race.
  pub record System : Type 0 where
    pub gate : LiveTranscriptionPriorityGate T
    pub waiter : Waiter T
    pub watch : Watch

  abbrev pub change_gate : LiveTranscriptionPriorityGate T → System → System
  change_gate g s = record s { gate = g; watch = notified s.gate g s.watch }

  abbrev pub begin : System
  begin = record { gate = new_gate; waiter = new_waiter; watch = fresh }

  abbrev pub IsAdmitted : Position T → Type 0
  IsAdmitted (admitted a) = Unit
  IsAdmitted _ = ⊥

  -- What can happen next: speech recognition starts or ends, the source reports its backlog, the
  -- inner task of a race runs, another task that waits for a start clears the activity event of the
  -- shared gate, or the waiting task runs, whose next race has a new inner task. The last may run
  -- at any time, so that every schedule of the event loop is among the sequences of steps.
  pub data Step (s : System) : System → Type 0 where
    start : (now : T) → Step s (change_gate (stt_started ops now s.gate) s)
    finish : Step s (change_gate (stt_finished s.gate) s)
    clear : Step s (record s { gate = without_activity s.gate })
    report :
        (pending : ℤ) → Step s (record s { gate = set_upstream_pending_stt_chunks pending s.gate })
    watch :
        (generation : ℕ) (wait : T)
        → s.waiter.position ≡ racing generation wait
        → Step s (record s {
          gate = (run_watch generation s.watch s.gate).1;
          watch = (run_watch generation s.watch s.gate).0;
        })
    resume :
        (now : T) (rounds : ℕ) (w : Waiter T)
        → ¬ IsAdmitted s.waiter.position
        → run_loop rounds now s.gate s.waiter ≡ some w
        → Step s (record s { waiter = w; watch = fresh })

  pub data Reach (s : System) : System → Type 0 where
    here : Reach s s
    next : {t u : System} → Reach s t → Step t u → Reach s u
