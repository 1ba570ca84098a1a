-- ===== src/Assist/Orchestrator/Races.antt =====
-- The race of a translation against the next start of speech recognition
-- (backend/app/application/services/assist_mode_orchestrator.py).
use ai_meeting_copilot.Prelude.{
  ℕ, ◌-◌, ◌≤◌, Bool, true, false, Option, none, some, List, [], ◌∷◌, ◌++◌, arith, if◌then◌else◌,
  length, take_last, length-drop, Error, cancelled_error, Result, err, ok,
}
use ai_meeting_copilot.Assist.Task.{
  modify, call, ◌>>=◌, ◌>>◌, recover, finally_do, suppressed, returns, raises,
}
use ai_meeting_copilot.Assist.Task.Runs.{Runs-recover}
use ai_meeting_copilot.Assist.Orchestrator.{
  AssistUpdate, AssistModeOrchestrator, is_ready, update_without_payload, translation, failed,
  unavailable,
}
use ai_meeting_copilot.Assist.Orchestrator.Sound.{IsAtMost, IsSound}
use ai_meeting_copilot.Assist.Orchestrator.Work.{
  Program, duration_history_size, publish_if_running, publish_translation_unavailable,
  keep_duration, operation_ended, end_race_task, race_ended, race_cancelled, is_newest,
  forget_latest, set_active, run_race, race, race_task, RaceEnd, completed, stt_start,
}
use ai_meeting_copilot.Assist.Orchestrator.Kept.{
  MayRace, Allows, Stays, Kept, Whatever, call-Kept, call_then-Kept, suppressed-Kept,
}
use ai_meeting_copilot.Assist.Orchestrator.Published.{bind-Kept, then-Kept, publish_if_running-Kept}

last_durations :
    (b : Bool) (ds : List ℕ) (d : ℕ)
    → length ds ≤ 4
    → length (if b then take_last duration_history_size (ds ++ (d ∷ [])) else ds) ≤ 4
last_durations true ds d h =
    omega (arith, length-drop (length (ds ++ (d ∷ [])) - 4) (ds ++ (d ∷ [])))
last_durations false ds d h = h

forgotten : (b : Bool) (n : ℕ) (o : Option ℕ) → IsAtMost n o → IsAtMost n (if b then none else o)
forgotten true n o h = tt
forgotten false n o h = h

module _ {T : Type 0} where
  pub modify_then-Kept :
      {A : Type 0} (Post : A → AssistModeOrchestrator T → Type 0) (s : AssistModeOrchestrator T)
      (f : AssistModeOrchestrator T → AssistModeOrchestrator T) (p : Program T A)
      → Stays s (f s)
      → Kept (f s) p Post
      → Kept s (modify f >> p) Post
  unfolding ◌>>=◌
  modify_then-Kept Post s f p stays k = (stays, k)

  finally_do-Kept :
      {A : Type 0} (s : AssistModeOrchestrator T) (p : Program T A) (c : Program T (Unit {0}))
      → Kept s p Whatever
      → ((t : AssistModeOrchestrator T) → IsSound t → Kept t c Whatever)
      → Kept s (finally_do p c) Whatever
  finally_do-Kept s p c k n =
      bind-Kept Whatever s (recover p (λ e. c >>= λ _. raises e)) (λ a. c >>= λ _. returns a)
        (Runs-recover IsSound Allows Stays Whatever s p (λ e. c >>= λ _. raises e) k
          (λ e t h. then-Kept t c (raises e) (n t h) (λ _ q. q)))
        (λ a t h _. then-Kept t c (returns a) (n t h) (λ _ q. (q, tt)))

  pub modify-Kept :
      (s : AssistModeOrchestrator T) (f : AssistModeOrchestrator T → AssistModeOrchestrator T)
      → Stays s (f s)
      → IsSound (f s)
      → Kept s (modify f) Whatever
  modify-Kept s f stays h = (stays, (h, tt))

  pub forget_latest-IsSound :
      (ordinal : ℕ) (s : AssistModeOrchestrator T) → IsSound s → IsSound (forget_latest ordinal s)
  forget_latest-IsSound ordinal s h = record {
    positive = h.positive;
    idle = h.idle;
    bounded = h.bounded;
    climbs = h.climbs;
    terminated = h.terminated;
    latest =
        forgotten (is_newest ordinal s) s.received_segment_count s.latest_translation_ordinal
          h.latest;
    fits = h.fits;
    few = h.few;
  }

  keep_duration-IsSound :
      (b : Bool) (elapsed : ℕ) (s : AssistModeOrchestrator T)
      → IsSound s
      → IsSound (keep_duration b elapsed s)
  keep_duration-IsSound b elapsed s h = record {
    positive = h.positive;
    idle = h.idle;
    bounded = h.bounded;
    climbs = h.climbs;
    terminated = h.terminated;
    latest = h.latest;
    fits = h.fits;
    few = last_durations b s.completed_translation_durations_ms elapsed h.few;
  }

  end_race_task-Kept : (s : AssistModeOrchestrator T) → IsSound s → Kept s end_race_task Whatever
  end_race_task-Kept s h =
      Runs-recover IsSound Allows Stays Whatever s (call race_task) suppressed
        (call-Kept s race_task h tt) (λ e t keeps. suppressed-Kept t e keeps)

  operation_ended-Kept :
      (s : AssistModeOrchestrator T) (id : ℕ) (r : Result (Option AssistUpdate)) (elapsed : ℕ)
      → IsSound s
      → Kept s (operation_ended id r elapsed) Whatever
  operation_ended-Kept s id (err cancelled_error) elapsed h = h
  operation_ended-Kept s id (ok (some u)) elapsed h =
      modify_then-Kept Whatever s (keep_duration (is_ready u.state) elapsed) (publish_if_running u)
        (λ r. r)
        (publish_if_running-Kept (keep_duration (is_ready u.state) elapsed s) u
          (keep_duration-IsSound (is_ready u.state) elapsed s h))
  operation_ended-Kept s id _ elapsed h =
      publish_if_running-Kept s (update_without_payload id translation failed) h

  race_ended-Kept :
      (s : AssistModeOrchestrator T) (id : ℕ) (r : RaceEnd)
      → IsSound s
      → Kept s (race_ended id r) Whatever
  race_ended-Kept s id (completed r elapsed) h =
      then-Kept s end_race_task (operation_ended id r elapsed) (end_race_task-Kept s h)
        (λ t keeps. operation_ended-Kept t id r elapsed keeps)
  race_ended-Kept s id stt_start h =
      then-Kept s end_race_task (publish_translation_unavailable id) (end_race_task-Kept s h)
        (λ t keeps.
          publish_if_running-Kept t (update_without_payload id translation unavailable) keeps)

  race_cancelled-Kept :
      (s : AssistModeOrchestrator T) (e : Error) → IsSound s → Kept s (race_cancelled e) Whatever
  race_cancelled-Kept s cancelled_error h =
      then-Kept s end_race_task (end_race_task >> raises cancelled_error) (end_race_task-Kept s h)
        (λ t keeps.
          then-Kept t end_race_task (raises cancelled_error) (end_race_task-Kept t keeps)
            (λ _ q. q))
  race_cancelled-Kept s _ h = h

  pub run_race-Kept :
      (s : AssistModeOrchestrator T) (id ordinal generation : ℕ)
      → IsSound s
      → MayRace ordinal generation s
      → Kept s (run_race id ordinal generation) Whatever
  run_race-Kept s id ordinal generation h may =
      finally_do-Kept s (recover (call (race ordinal generation) >>= race_ended id) race_cancelled)
        (modify (λ t. forget_latest ordinal (set_active none t)))
        (Runs-recover IsSound Allows Stays Whatever s
          (call (race ordinal generation) >>= race_ended id) race_cancelled
          (call_then-Kept Whatever s (race ordinal generation) (race_ended id) h may
            (λ r t keeps. race_ended-Kept t id r keeps))
          (λ e t keeps. race_cancelled-Kept t e keeps))
        (λ t keeps.
          modify-Kept t (λ r. forget_latest ordinal (set_active none r)) (λ r. r)
            (forget_latest-IsSound ordinal (set_active none t) keeps))
