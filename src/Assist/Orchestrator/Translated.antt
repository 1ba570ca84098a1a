-- ===== src/Assist/Orchestrator/Translated.antt =====
-- The translation of a segment by the orchestrator
-- (backend/app/application/services/assist_mode_orchestrator.py).
use ai_meeting_copilot.Prelude.{
  ℕ, ◌≡◌, refl, ap, true, false, not, ◌||◌, Option, none, some, arith, ltb, ◌==◌,
}
use ai_meeting_copilot.Assist.Task.{gets, modify, ◌>>=◌, returns}
use ai_meeting_copilot.Assist.Orchestrator.{
  AssistModeOrchestrator, update_without_payload, is_running, is_some_equal,
  estimated_translation_duration_ms, translation, processing, unavailable,
}
use ai_meeting_copilot.Assist.Orchestrator.Sound.{IsSound}
use ai_meeting_copilot.Assist.Orchestrator.Work.{
  Program, session_running, publish_translation_unavailable, is_newest, forget_latest, set_active,
  run_race, has_stt_priority, start_race, announce, run_translation_capability, wait_for_admission,
}
use ai_meeting_copilot.Assist.Orchestrator.Kept.{Kept, Whatever, branch_on-Kept, call_then-Kept}
use ai_meeting_copilot.Assist.Orchestrator.Published.{
  then-Kept, publish_if_running-Kept, publish_then-Kept,
}
use ai_meeting_copilot.Assist.Orchestrator.Races.{
  modify_then-Kept, modify-Kept, forget_latest-IsSound, run_race-Kept,
}

is_some_equal-some : (o : Option ℕ) (n : ℕ) → is_some_equal o n ≡ true → o ≡ some n
is_some_equal-some none n h = cc
is_some_equal-some (some m) n h = let e : m ≡ n = ground arith in ap some e

no_priority : (n m g : ℕ) → (ltb 0 n || not (m == g)) ≡ false → (n ≡ 0) × (m ≡ g)
no_priority n m g h = (ground arith, ground arith)

module _ {T : Type 0} where
  unavailable-Kept :
      (s : AssistModeOrchestrator T) (id : ℕ)
      → IsSound s
      → Kept s (publish_translation_unavailable id) Whatever
  unavailable-Kept s id h =
      publish_if_running-Kept s (update_without_payload id translation unavailable) h

  start_race-Kept :
      (s : AssistModeOrchestrator T) (id ordinal generation : ℕ)
      → IsSound s
      → is_running s.state ≡ true
      → Kept s (start_race id ordinal generation) Whatever
  unfolding start_race
  start_race-Kept s id ordinal generation h run =
      branch_on-Kept Whatever s (has_stt_priority generation) _ _
        (λ _.
          then-Kept s (publish_translation_unavailable id) (modify (forget_latest ordinal))
            (unavailable-Kept s id h)
            (λ t keeps.
              modify-Kept t (forget_latest ordinal) (λ r. r)
                (forget_latest-IsSound ordinal t keeps)))
        (λ free.
          branch_on-Kept Whatever s (is_newest ordinal) _ _
            (λ new.
              modify_then-Kept Whatever s (set_active (some ordinal))
                (run_race id ordinal generation) (λ r. r)
                (run_race-Kept (set_active (some ordinal) s) id ordinal generation h (
                  let (idle, same) =
                    no_priority s.priority_gate.active_stt_count
                      s.priority_gate.stt_start_generation generation free in
                  (
                    run,
                    is_some_equal-some s.latest_translation_ordinal ordinal new,
                    refl,
                    idle,
                    same,
                  ))))
            (λ _. unavailable-Kept s id h))

  pub gets_then-Kept :
      {A B : Type 0} (s : AssistModeOrchestrator T) (g : AssistModeOrchestrator T → A)
      (f : A → Program T B)
      → Kept s (f (g s)) Whatever
      → Kept s (gets g >>= f) Whatever
  unfolding ◌>>=◌
  gets_then-Kept s g f k = (λ r. r, k)

  announce-Kept :
      (s : AssistModeOrchestrator T) (id ordinal : ℕ)
      → IsSound s
      → Kept s (announce id ordinal) Whatever
  announce-Kept s id ordinal h =
      gets_then-Kept s (λ t. t.priority_gate.stt_start_generation) _
        (publish_then-Kept s (update_without_payload id translation processing)
          (start_race id ordinal s.priority_gate.stt_start_generation) (returns tt) h
          (λ t keeps run.
            start_race-Kept t id ordinal s.priority_gate.stt_start_generation keeps run)
          (λ t keeps. (keeps, tt)))

  -- The translation of a segment keeps what holds of the session, and calls only what it may.
  pub run_translation_capability-Kept :
      (s : AssistModeOrchestrator T) (id ordinal : ℕ)
      → IsSound s
      → Kept s (run_translation_capability id ordinal) Whatever
  unfolding run_translation_capability
  run_translation_capability-Kept s id ordinal h =
      branch_on-Kept Whatever s (is_newest ordinal) _ _
        (λ _.
          gets_then-Kept s
            (λ t. estimated_translation_duration_ms t.completed_translation_durations_ms) _
            (call_then-Kept Whatever s
              (wait_for_admission
                (estimated_translation_duration_ms s.completed_translation_durations_ms))
              _ h tt
              (λ _ t keeps.
                branch_on-Kept Whatever t session_running _ (returns tt)
                  (λ _.
                    branch_on-Kept Whatever t (is_newest ordinal) (announce id ordinal)
                      (publish_translation_unavailable id) (λ _. announce-Kept t id ordinal keeps)
                      (λ _. unavailable-Kept t id keeps))
                  (λ _. (keeps, tt)))))
        (λ _. unavailable-Kept s id h)
