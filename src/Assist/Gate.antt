-- ===== src/Assist/Gate.antt =====
-- The gate between speech recognition and translation
-- (backend/app/application/services/live_transcription_priority_gate.py).
pub mod Waiting
pub mod Sound
pub mod Admitted
pub mod Safety
pub mod Justified
pub mod Progress
use ai_meeting_copilot.Prelude.{
  ℕ, zero, suc, ◌+◌, ◌-◌, ◌*◌, ◌/◌, max, Bool, true, false, not, ◌&&◌, Option, none, some, List, [],
  ◌∷◌, ◌++◌, arith, ltb, leb, ◌==◌, if◌then◌else◌, take_last, ℤ, pos, negsuc,
}

-- The operations on the floats of the clock, in seconds. `milliseconds x` is
-- `max(0, int(x * 1_000))`, and `of_milliseconds n` is `n / 1_000`.
pub record ClockOps (T : Type 0) : Type 0 where
  pub nought : T
  pub add : T → T → T
  pub sub : T → T → T
  pub lt : T → T → Bool
  pub milliseconds : T → ℕ
  pub of_milliseconds : ℕ → T

pub data TranslationAdmissionReason : Type 0 where
  probe predicted_window extended_idle upstream_backlog : TranslationAdmissionReason

pub record TranslationAdmission (T : Type 0) : Type 0 where
  pub reason : TranslationAdmissionReason
  pub idle_window_ms : ℕ
  pub wait_seconds : T
  pub was_deferred : Bool
  pub deferred_idle_window_ms : ℕ
  pub deferred_reason : Option TranslationAdmissionReason
  pub extended_idle_margin_ms : ℕ

pub record LiveTranscriptionPriorityGate (T : Type 0) : Type 0 where
  pub active_stt_count : ℕ
  pub stt_start_generation : ℕ
  pub last_stt_started_at : Option T
  pub stt_start_intervals : List T
  pub upstream_pending_stt_chunks : ℕ
  pub idle_event : Bool
  pub backlog_cleared_event : Bool
  pub activity_event : Bool

abbrev pub cadence_history_size : ℕ
cadence_history_size = 4

abbrev pub is_backlog : TranslationAdmissionReason → Bool
is_backlog upstream_backlog = true
is_backlog _ = false

module _ {T : Type 0} where
  unfoldable pub new_gate : LiveTranscriptionPriorityGate T
  new_gate = record {
    active_stt_count = 0;
    stt_start_generation = 0;
    last_stt_started_at = none;
    stt_start_intervals = [];
    upstream_pending_stt_chunks = 0;
    idle_event = true;
    backlog_cleared_event = true;
    activity_event = false;
  }

  unfoldable pub set_upstream_pending_stt_chunks :
      ℤ → LiveTranscriptionPriorityGate T → LiveTranscriptionPriorityGate T
  set_upstream_pending_stt_chunks (negsuc n) g = g
  set_upstream_pending_stt_chunks (pos n) g = record g {
    upstream_pending_stt_chunks = n;
    backlog_cleared_event = n == 0;
  }

  unfoldable pub stt_finished : LiveTranscriptionPriorityGate T → LiveTranscriptionPriorityGate T
  stt_finished g = if g.active_stt_count == 0 then g else record g {
    active_stt_count = g.active_stt_count - 1;
    idle_event = if g.active_stt_count - 1 == 0 then true else g.idle_event;
    activity_event = true;
  }

  -- `TranslationAdmission` with the defaults of its last fields
  abbrev pub admission : TranslationAdmissionReason → ℕ → T → ℕ → TranslationAdmission T
  admission reason window wait margin = record {
    reason = reason;
    idle_window_ms = window;
    wait_seconds = wait;
    was_deferred = false;
    deferred_idle_window_ms = 0;
    deferred_reason = none;
    extended_idle_margin_ms = margin;
  }

module _ {T : Type 0} (ops : ClockOps T) where
  open ops use {nought, add, sub, lt, milliseconds, of_milliseconds}

  abbrev pub with_interval : Option T → T → List T → List T
  with_interval none now intervals = intervals
  with_interval (some previous) now intervals =
      if lt nought (sub now previous)
      then take_last cadence_history_size (intervals ++ (sub now previous ∷ []))
      else intervals

  unfoldable pub stt_started : T → LiveTranscriptionPriorityGate T → LiveTranscriptionPriorityGate T
  stt_started now g = record g {
    last_stt_started_at = some now;
    stt_start_intervals = with_interval g.last_stt_started_at now g.stt_start_intervals;
    active_stt_count = g.active_stt_count + 1;
    stt_start_generation = g.stt_start_generation + 1;
    idle_event = false;
    activity_event = true;
  }

  -- `min` and `max` of Python: the first of equal values.
  abbrev pub shortest : T → List T → T
  shortest best [] = best
  shortest best (x ∷ xs) = shortest (if lt x best then x else best) xs

  abbrev pub longest : T → List T → T
  longest best [] = best
  longest best (x ∷ xs) = longest (if lt best x then x else best) xs

  abbrev pub at_most : T → T → Bool
  at_most x y = not (lt y x)

  -- The margin, and the boundary behind which an idle source has paused.
  abbrev pub idle_margin : ℕ → T → List T → ℕ
  idle_margin estimated x xs = max (milliseconds (sub (longest x xs) (shortest x xs))) estimated

  abbrev pub idle_boundary : ℕ → T → T → List T → T
  idle_boundary estimated last x xs =
      add (add last (longest x xs)) (of_milliseconds (idle_margin estimated x xs))

  -- The forecast of `translation_admission` from the cadence.
  unfoldable pub forecast : ℕ → T → T → T → List T → TranslationAdmission T
  forecast estimated now last x xs =
      let remaining = sub (add last (shortest x xs)) now in
      let boundary = idle_boundary estimated last x xs in
      let margin = idle_margin estimated x xs in
      let window = milliseconds remaining in
      if at_most remaining nought && at_most boundary now
      then admission extended_idle 0 nought margin
      else if leb estimated window
      then admission predicted_window window nought margin
      else admission predicted_window window
          (if lt nought (sub boundary now) then sub boundary now else nought) margin

  abbrev pub cadence_forecast : ℕ → T → Option T → List T → TranslationAdmission T
  cadence_forecast zero now last intervals = admission probe 0 nought 0
  cadence_forecast (suc n) now none intervals = admission probe 0 nought 0
  cadence_forecast (suc n) now (some last) [] = admission probe 0 nought 0
  cadence_forecast (suc n) now (some last) (x ∷ xs) = forecast (suc n) now last x xs

  -- `translation_admission`, at the time that the clock shows. An estimate that is absent or not
  -- positive is 0.
  unfoldable pub translation_admission :
      ℕ → T → LiveTranscriptionPriorityGate T → Option (TranslationAdmission T)
  translation_admission estimated now g =
      if ltb 0 g.active_stt_count
      then none
      else if ltb 0 g.upstream_pending_stt_chunks
      then some (admission upstream_backlog 0 nought 0)
      else some (cadence_forecast estimated now g.last_stt_started_at g.stt_start_intervals)
