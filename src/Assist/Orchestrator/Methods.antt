-- ===== src/Assist/Orchestrator/Methods.antt =====
-- The public methods of the orchestrator
-- (backend/app/application/services/assist_mode_orchestrator.py).
use mathlib.Core.Path.{subst}
use ai_meeting_copilot.Prelude.{
  ℕ, zero, suc, ◌+◌, ◌-◌, ◌≤◌, ◌≡◌, refl, sym, inl, inr, Bool, true, false, not, ◌&&◌, ◌||◌, Option,
  none, some, List, [], ◌∷◌, ◌++◌, arith, if◌then◌else◌, Bool-cases, length, drop, take_last,
  length-drop, runtime_error, cancelled_error, Result, err, ok,
}
use ai_meeting_copilot.Assist.Context.{TranscriptSegment}
use ai_meeting_copilot.Assist.Task.{
  of_result, perform, gets, modify, call, recover, suppressed, returns, raises,
}
use ai_meeting_copilot.Assist.Orchestrator.{
  QueuedAssistSegment, AssistModeOrchestrator, is_running, is_failed, is_translation_only,
  enabled_capabilities, queue_segment, AssistModeLifecycleState, stopped, running, failed_state,
  stopping,
}
use ai_meeting_copilot.Assist.Orchestrator.Sound.{
  capacity, Climbs, Climbs-append, Climbs-tail, IsAtMost, IsSound,
}
use ai_meeting_copilot.Assist.Orchestrator.Work.{session_running, publish_dropped, worker_end}
use ai_meeting_copilot.Assist.Orchestrator.Session.{
  report_dropped, enqueue, start_session, start, begin_stop, end_stop, join_worker, stop, body,
  Method, starts, stops, enqueues,
}
use ai_meeting_copilot.Assist.Orchestrator.Queue.{
  next_segment, with_received, newest, queue_segment-newest,
}
use ai_meeting_copilot.Assist.Orchestrator.Kept.{Stays, Kept, Whatever, if-Kept, branch_on-Kept}
use ai_meeting_copilot.Assist.Orchestrator.Published.{bind-Kept, then-Kept, publish_dropped-Kept}
use ai_meeting_copilot.Assist.Orchestrator.Races.{modify_then-Kept, modify-Kept}
use ai_meeting_copilot.Assist.Orchestrator.Translated.{gets_then-Kept}
use ai_meeting_copilot.Assist.Orchestrator.Processed.{perform-Kept}

Climbs-drop :
    (n low high : ℕ) (qs : List QueuedAssistSegment)
    → Climbs low qs high
    → Climbs low (drop n qs) high
Climbs-drop zero low high qs h = h
Climbs-drop (suc n) low high [] h = h
Climbs-drop (suc n) low high (q ∷ qs) h = Climbs-drop n low high qs (Climbs-tail low high q qs h)

take_last-within : (n : ℕ) (qs : List QueuedAssistSegment) → length (take_last n qs) ≤ n
take_last-within n qs = omega (arith, length-drop (length qs - n) qs)

IsAtMost-next :
    (b : Bool) (n : ℕ) (o : Option ℕ)
    → IsAtMost n o
    → IsAtMost (n + 1) (if b then some (n + 1) else o)
IsAtMost-next true n o h = omega arith
IsAtMost-next false n none h = tt
IsAtMost-next false n (some m) h = omega (arith, h)

not_running_after :
    (st : AssistModeLifecycleState) → is_running (if is_running st then stopping else st) ≡ false
not_running_after stopped = refl
not_running_after running = refl
not_running_after failed_state = refl
not_running_after stopping = refl

ended_state : (b : Bool) → is_running (if b then failed_state else stopped) ≡ false
ended_state true = refl
ended_state false = refl

module _ {T : Type 0} where
  with_received-IsSound :
      (segment : TranscriptSegment) (s : AssistModeOrchestrator T)
      → IsSound s
      → is_running s.state ≡ true
      → IsSound (with_received (newest segment s) s)
  with_received-IsSound segment s h run = record {
    positive = h.positive;
    idle = λ e. cc;
    bounded =
        take_last-within (capacity s.configuration) (s.queue ++ (next_segment segment s ∷ []));
    climbs =
        Climbs-drop (length (s.queue ++ (next_segment segment s ∷ [])) - capacity s.configuration) 0
          (s.received_segment_count + 1) (s.queue ++ (next_segment segment s ∷ []))
          (Climbs-append 0 s.received_segment_count s.queue (next_segment segment s) refl h.climbs);
    terminated = h.terminated;
    latest =
        IsAtMost-next s.configuration.translation_enabled s.received_segment_count
          s.latest_translation_ordinal h.latest;
    fits = h.fits;
    few = h.few;
  }

  queue_segment-IsSound :
      (segment : TranscriptSegment) (s : AssistModeOrchestrator T)
      → IsSound s
      → IsSound (queue_segment segment s).1 × Stays s (queue_segment segment s).1
  unfolding queue_segment
  queue_segment-IsSound segment s h = elim (Bool-cases (is_running s.state)) [
    | inl run ↦
        subst (λ z. IsSound z.1 × Stays s z.1) (sym (queue_segment-newest segment s h run))
          (with_received-IsSound segment s h run, λ r. r)
    | inr e ↦ rw e (h, λ r. r)
  ]

  answer-Kept : (s : AssistModeOrchestrator T) → IsSound s → Kept s (gets session_running) Whatever
  answer-Kept s h = (λ r. r, (h, tt))

  report_dropped-Kept :
      (s : AssistModeOrchestrator T) (o : Option QueuedAssistSegment)
      → IsSound s
      → Kept s (report_dropped o) Whatever
  report_dropped-Kept s none h = answer-Kept s h
  report_dropped-Kept s (some d) h =
      branch_on-Kept Whatever s (λ t. is_translation_only t.configuration) _ _
        (λ _. answer-Kept s h)
        (λ _.
          gets_then-Kept s (λ t. enabled_capabilities t.configuration) _
            (bind-Kept Whatever s (publish_dropped d.segment (enabled_capabilities s.configuration))
              (λ published. if published then gets session_running else returns false)
              (publish_dropped-Kept s d.segment (enabled_capabilities s.configuration) h)
              (λ b t keeps _.
                if-Kept Whatever t b (gets session_running) (returns false)
                  (λ _. answer-Kept t keeps) (λ _. (keeps, tt)))))

  enqueue-Kept :
      (s : AssistModeOrchestrator T) (segment : TranscriptSegment)
      → IsSound s
      → Kept s (enqueue segment) Whatever
  unfolding enqueue
  enqueue-Kept s segment h =
      let (sound, stays) = queue_segment-IsSound segment s h in
      bind-Kept Whatever s (perform (queue_segment segment)) report_dropped
        (perform-Kept s (queue_segment segment) stays sound)
        (λ o t keeps _. report_dropped-Kept t o keeps)

  start_session-IsSound :
      (s : AssistModeOrchestrator T)
      → IsSound s
      → (s.is_terminated || is_failed s.state) ≡ false
      → IsSound (start_session s)
  start_session-IsSound s h e = record {
    positive = h.positive;
    idle = λ r. cc;
    bounded = h.bounded;
    climbs = h.climbs;
    terminated = λ r. absurd (ground arith);
    latest = h.latest;
    fits = h.fits;
    few = h.few;
  }

  start-Kept : (s : AssistModeOrchestrator T) → IsSound s → Kept s start Whatever
  unfolding start
  start-Kept s h =
      branch_on-Kept Whatever s session_running (returns tt) _ (λ _. (h, tt))
        (λ _.
          branch_on-Kept Whatever s (λ t. t.is_terminated || is_failed t.state)
            (raises runtime_error) (modify start_session) (λ _. h)
            (λ e. modify-Kept s start_session (λ r. r) (start_session-IsSound s h e)))

  begin_stop-IsSound : (s : AssistModeOrchestrator T) → IsSound s → IsSound (begin_stop s)
  begin_stop-IsSound s h = record {
    positive = h.positive;
    idle = λ _. refl;
    bounded = omega arith;
    climbs = omega arith;
    terminated = λ _. not_running_after s.state;
    latest = h.latest;
    fits = h.fits;
    few = h.few;
  }

  end_stop-IsSound :
      (s : AssistModeOrchestrator T) → IsSound s → s.is_terminated ≡ true → IsSound (end_stop s)
  end_stop-IsSound s h e = record {
    positive = h.positive;
    idle = λ _. h.idle (h.terminated e);
    bounded = h.bounded;
    climbs = h.climbs;
    terminated = λ _. ended_state (is_failed s.state);
    latest = h.latest;
    fits = record { few = omega arith; short = omega arith };
    few = h.few;
  }

  joined-Kept :
      (s : AssistModeOrchestrator T) (x : Result (Unit {0}))
      → IsSound s
      → s.is_terminated ≡ true
      → Kept s (recover (of_result x) suppressed) (λ _ t. t.is_terminated ≡ true)
  unfolding recover
  joined-Kept s (ok a) h e = (h, e)
  joined-Kept s (err cancelled_error) h e = (h, e)
  joined-Kept s (err _) h e = h

  -- While a stopping session waits for its worker, it stays terminated.
  join_worker-Kept :
      (s : AssistModeOrchestrator T)
      → IsSound s
      → s.is_terminated ≡ true
      → s.queue ≡ []
      → Kept s join_worker (λ _ t. t.is_terminated ≡ true)
  unfolding recover
  join_worker-Kept s h e q = (
    λ r. r,
    if-Kept (λ _ t. t.is_terminated ≡ true) (record s { has_worker = false })
        (s.has_worker && not s.is_worker_done) (recover (call worker_end) suppressed) (returns tt)
        (λ _. (h, (e, q), λ x t keeps stays. joined-Kept t x keeps (stays e))) (λ _. (h, e)),
  )

  stop-Kept : (s : AssistModeOrchestrator T) → IsSound s → Kept s stop Whatever
  unfolding stop
  stop-Kept s h =
      branch_on-Kept Whatever s (λ t. t.is_terminated) (returns tt) _ (λ _. (h, tt))
        (λ _.
          modify_then-Kept Whatever s begin_stop _ (λ _. refl)
            (bind-Kept (λ _ t. t.is_terminated ≡ true) (begin_stop s) join_worker
              (λ _. modify end_stop)
              (join_worker-Kept (begin_stop s) (begin_stop-IsSound s h) refl refl)
              (λ _ t keeps e. modify-Kept t end_stop (λ r. r) (end_stop-IsSound t keeps e))))

  pub body-Kept : (s : AssistModeOrchestrator T) (m : Method) → IsSound s → Kept s (body m) Whatever
  body-Kept s starts h = start-Kept s h
  body-Kept s stops h = stop-Kept s h
  body-Kept s (enqueues segment) h =
      then-Kept s (enqueue segment) (returns tt) (enqueue-Kept s segment h) (λ t k. (k, tt))
