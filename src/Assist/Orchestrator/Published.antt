-- ===== src/Assist/Orchestrator/Published.antt =====
-- The updates of the orchestrator and its capabilities other than translation
-- (backend/app/application/services/assist_mode_orchestrator.py).
use ai_meeting_copilot.Prelude.{
  ℕ, ◌≡◌, refl, true, false, Option, none, some, List, [], ◌∷◌, if◌then◌else◌, ok,
}
use ai_meeting_copilot.Assist.Context.{TranscriptSegment}
use ai_meeting_copilot.Assist.Task.{call, ◌>>=◌, ◌>>◌, re_raise_cancelled, returns}
use ai_meeting_copilot.Assist.Task.Runs.{Runs-bind, Runs-recover}
use ai_meeting_copilot.Assist.Orchestrator.{
  AssistUpdate, AssistModeOrchestrator, is_ready, assist_update_post_init, update_without_payload,
  is_running, AssistCapability, AssistState, processing, failed, unavailable,
}
use ai_meeting_copilot.Assist.Orchestrator.Sound.{IsSound}
use ai_meeting_copilot.Assist.Orchestrator.Work.{
  Program, session_running, publish, publish_if_running, publish_dropped, publish_generic_failure,
  operate, publish_some, run_capability, operation,
}
use ai_meeting_copilot.Assist.Orchestrator.Kept.{
  Allows, Stays, Kept, Whatever, if-Kept, branch_on-Kept, call_then-Kept, re_raise_cancelled-Kept,
  publish-Kept,
}

-- The updates that the orchestrator makes itself pass the check of their constructor.
update_without_payload-valid :
    (id : ℕ) (c : AssistCapability) (st : AssistState)
    → is_ready st ≡ false
    → assist_update_post_init (update_without_payload id c st) ≡ ok (update_without_payload id c st)
unfolding assist_update_post_init
update_without_payload-valid id c st e = rw e refl

module _ {T : Type 0} where
  pub bind-Kept :
      {A B : Type 0} (Mid : A → AssistModeOrchestrator T → Type 0) (s : AssistModeOrchestrator T)
      (p : Program T A) (f : A → Program T B)
      → Kept s p Mid
      → ((a : A) (t : AssistModeOrchestrator T) → IsSound t → Mid a t → Kept t (f a) Whatever)
      → Kept s (p >>= f) Whatever
  bind-Kept Mid s p f k n = Runs-bind IsSound Allows Stays Mid Whatever s p f k n

  pub then-Kept :
      {A B : Type 0} (s : AssistModeOrchestrator T) (p : Program T A) (q : Program T B)
      → Kept s p Whatever
      → ((t : AssistModeOrchestrator T) → IsSound t → Kept t q Whatever)
      → Kept s (p >> q) Whatever
  then-Kept s p q k n = bind-Kept Whatever s p (λ _. q) k (λ _ t h _. n t h)

  pub publish_if_running-Kept :
      (s : AssistModeOrchestrator T) (u : AssistUpdate)
      → IsSound s
      → Kept s (publish_if_running u) Whatever
  publish_if_running-Kept s u h =
      branch_on-Kept Whatever s session_running (publish u >> returns tt) (returns tt)
        (λ _.
          bind-Kept (λ b t. b ≡ true → is_running t.state ≡ true) s (publish u) (λ _. returns tt)
            (publish-Kept s u h) (λ _ t keeps _. (keeps, tt)))
        (λ _. (h, tt))

  pub publish_then-Kept :
      {A : Type 0} (s : AssistModeOrchestrator T) (u : AssistUpdate) (p q : Program T A)
      → IsSound s
      → ((t : AssistModeOrchestrator T) → IsSound t → is_running t.state ≡ true → Kept t p Whatever)
      → ((t : AssistModeOrchestrator T) → IsSound t → Kept t q Whatever)
      → Kept s (publish u >>= λ b. if b then p else q) Whatever
  publish_then-Kept s u p q h k n =
      bind-Kept (λ b t. b ≡ true → is_running t.state ≡ true) s (publish u)
        (λ b. if b then p else q) (publish-Kept s u h)
        (λ b t keeps e. if-Kept Whatever t b p q (λ r. k t keeps (e r)) (λ _. n t keeps))

  pub publish_dropped-Kept :
      (s : AssistModeOrchestrator T) (segment : TranscriptSegment) (cs : List AssistCapability)
      → IsSound s
      → Kept s (publish_dropped segment cs) Whatever
  publish_dropped-Kept s segment [] h = (h, tt)
  publish_dropped-Kept s segment (c ∷ cs) h =
      publish_then-Kept s (update_without_payload segment.transcript_id c unavailable)
        (publish_dropped segment cs) (returns false) h
        (λ t keeps _. publish_dropped-Kept t segment cs keeps) (λ t keeps. (keeps, tt))

  publish_some-Kept :
      (s : AssistModeOrchestrator T) (o : Option AssistUpdate)
      → IsSound s
      → Kept s (publish_some o) Whatever
  publish_some-Kept s none h = (h, tt)
  publish_some-Kept s (some u) h = publish_if_running-Kept s u h

  operate-Kept :
      (s : AssistModeOrchestrator T) (id : ℕ) (c : AssistCapability) (ordinal : ℕ)
      → IsSound s
      → is_running s.state ≡ true
      → Kept s (operate id c ordinal) Whatever
  operate-Kept s id c ordinal h run =
      Runs-recover IsSound Allows Stays Whatever s
        (call (operation c ordinal) >>= λ u. returns (some u))
        (re_raise_cancelled (publish_generic_failure id c >> returns none))
        (call_then-Kept Whatever s (operation c ordinal) (λ u. returns (some u)) h run
          (λ _ t keeps. (keeps, tt)))
        (λ e t keeps.
          re_raise_cancelled-Kept Whatever t (publish_generic_failure id c >> returns none) e keeps
            (then-Kept t (publish_generic_failure id c) (returns none)
              (publish_if_running-Kept t (update_without_payload id c failed) keeps)
              (λ _ k. (k, tt))))

  pub run_capability-Kept :
      (s : AssistModeOrchestrator T) (segment : TranscriptSegment) (c : AssistCapability)
      (ordinal : ℕ)
      → IsSound s
      → Kept s (run_capability segment c ordinal) Whatever
  unfolding run_capability
  run_capability-Kept s segment c ordinal h =
      publish_then-Kept s (update_without_payload segment.transcript_id c processing)
        (operate segment.transcript_id c ordinal >>= publish_some) (returns tt) h
        (λ t keeps run.
          bind-Kept Whatever t (operate segment.transcript_id c ordinal) publish_some
            (operate-Kept t segment.transcript_id c ordinal keeps run)
            (λ o r k _. publish_some-Kept r o k))
        (λ t keeps. (keeps, tt))
