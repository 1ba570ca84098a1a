-- ===== src/Assist/Orchestrator/Processed.antt =====
-- The work on one segment
-- (backend/app/application/services/assist_mode_orchestrator.py).
use ai_meeting_copilot.Prelude.{
  ℕ, ◌≡◌, refl, ◌&&◌, Option, none, some, List, is_some, Result, err, ok,
}
use ai_meeting_copilot.Exec.{Exec}
use ai_meeting_copilot.Assist.Context.{TranscriptSegment, ReplyContext, add, build_reply_context}
use ai_meeting_copilot.Assist.Context.Longest.{Fits}
use ai_meeting_copilot.Assist.Task.{perform, ◌>>◌, returns}
use ai_meeting_copilot.Assist.Orchestrator.{
  QueuedAssistSegment, AssistModeOrchestrator, update_without_payload, simplification,
  reply_coaching, failed,
}
use ai_meeting_copilot.Assist.Orchestrator.Sound.{IsSound}
use ai_meeting_copilot.Assist.Orchestrator.Session.{
  set_context, coach, translate_step, coach_step, simplify_step, process_added, process_segment,
}
use ai_meeting_copilot.Assist.Orchestrator.Queue.{add-Fits}
use ai_meeting_copilot.Assist.Orchestrator.Kept.{
  Stays, Kept, Whatever, branch_on-Kept, of_result-Kept,
}
use ai_meeting_copilot.Assist.Orchestrator.Published.{
  bind-Kept, then-Kept, publish_if_running-Kept, run_capability-Kept,
}
use ai_meeting_copilot.Assist.Orchestrator.Races.{modify_then-Kept}
use ai_meeting_copilot.Assist.Orchestrator.Translated.{run_translation_capability-Kept}

module _ {T : Type 0} where
  set_context-IsSound :
      (c : List TranscriptSegment) (s : AssistModeOrchestrator T)
      → Fits c
      → IsSound s
      → IsSound (set_context c s)
  set_context-IsSound c s f h = record {
    positive = h.positive;
    idle = h.idle;
    bounded = h.bounded;
    climbs = h.climbs;
    terminated = h.terminated;
    latest = h.latest;
    fits = f;
    few = h.few;
  }

  pub perform-Kept :
      {A : Type 0} (s : AssistModeOrchestrator T) (p : Exec (AssistModeOrchestrator T) A)
      → Stays s (p s).1
      → IsSound (p s).1
      → Kept s (perform p) Whatever
  perform-Kept s p stays h = (stays, of_result-Kept (p s).1 (p s).0 h)

  coach-Kept :
      (s : AssistModeOrchestrator T) (segment : TranscriptSegment) (ordinal : ℕ)
      (o : Option ReplyContext)
      → IsSound s
      → Kept s (coach segment ordinal o) Whatever
  coach-Kept s segment ordinal none h = (h, tt)
  coach-Kept s segment ordinal (some c) h = run_capability-Kept s segment reply_coaching ordinal h

  coach_step-Kept :
      (s : AssistModeOrchestrator T) (q : QueuedAssistSegment)
      → IsSound s
      → Kept s (coach_step q) Whatever
  coach_step-Kept s q h =
      branch_on-Kept Whatever s (λ t. t.configuration.reply_coaching_enabled) _ (returns tt)
        (λ _.
          bind-Kept Whatever s (perform (λ t. (build_reply_context t.context, t)))
            (coach q.segment q.ordinal)
            (perform-Kept s (λ t. (build_reply_context t.context, t)) (λ r. r) h)
            (λ o t keeps _. coach-Kept t q.segment q.ordinal o keeps))
        (λ _. (h, tt))

  steps-Kept :
      (s : AssistModeOrchestrator T) (q : QueuedAssistSegment)
      → IsSound s
      → Kept s (translate_step q >> (coach_step q >> simplify_step q)) Whatever
  steps-Kept s q h =
      then-Kept s (translate_step q) (coach_step q >> simplify_step q)
        (branch_on-Kept Whatever s (λ t. t.configuration.translation_enabled) _ (returns tt)
          (λ _. run_translation_capability-Kept s q.segment.transcript_id q.ordinal h)
          (λ _. (h, tt)))
        (λ t keeps. then-Kept t (coach_step q) (simplify_step q) (coach_step-Kept t q keeps) (λ r k.
          branch_on-Kept Whatever r
            (λ v.
              v.configuration.simplification_enabled
              && is_some v.configuration.simplification_level)
            _ (returns tt) (λ _. run_capability-Kept r q.segment simplification q.ordinal k)
            (λ _. (k, tt))))

  process_added-Kept :
      (s : AssistModeOrchestrator T) (q : QueuedAssistSegment) (r : Result (List TranscriptSegment))
      → IsSound s
      → ((c : List TranscriptSegment) → r ≡ ok c → Fits c)
      → Kept s (process_added q r) Whatever
  process_added-Kept s q (err e) h f =
      publish_if_running-Kept s
        (update_without_payload q.segment.transcript_id reply_coaching failed) h
  process_added-Kept s q (ok c) h f =
      modify_then-Kept Whatever s (set_context c) _ (λ r. r)
        (steps-Kept (set_context c s) q (set_context-IsSound c s (f c refl) h))

  pub process_segment-Kept :
      (s : AssistModeOrchestrator T) (q : QueuedAssistSegment)
      → IsSound s
      → Kept s (process_segment q) Whatever
  unfolding process_segment
  process_segment-Kept s q h = (
    λ r. r,
    process_added-Kept s q (add q.segment s.context) h (λ c e. add-Fits q.segment s.context c e),
  )
