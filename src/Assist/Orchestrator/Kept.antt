-- ===== src/Assist/Orchestrator/Kept.antt =====
-- What every method of the orchestrator keeps, and when it may call what it calls
-- (backend/app/application/services/assist_mode_orchestrator.py).
use ai_meeting_copilot.Prelude.{
  ℕ, ◌≡◌, refl, Bool, true, false, some, [], arith, if◌then◌else◌, Error, cancelled_error, Result,
  err, ok,
}
use ai_meeting_copilot.Assist.Task.{
  of_result, gets, modify, call, ◌>>=◌, ◌>>◌, re_raise_cancelled, suppressed, returns,
}
use ai_meeting_copilot.Assist.Task.Runs.{Runs, Runs-bind, Runs-recover}
use ai_meeting_copilot.Assist.Orchestrator.{AssistUpdate, AssistModeOrchestrator, is_running}
use ai_meeting_copilot.Assist.Orchestrator.Sound.{IsSound}
use ai_meeting_copilot.Assist.Orchestrator.Work.{
  ReplyOf, Program, session_running, branch_on, clear_pending_queue, fail_session, publish, Wait,
  publish_update, operation, race, worker_end,
}

abbrev pub MayRace : {T : Type 0} → ℕ → ℕ → AssistModeOrchestrator T → Type 0
MayRace ordinal generation s =
    (is_running s.state ≡ true)
    × (s.latest_translation_ordinal ≡ some ordinal)
    × (s.active_translation_ordinal ≡ some ordinal)
    × (s.priority_gate.active_stt_count ≡ 0)
    × (s.priority_gate.stt_start_generation ≡ generation)

-- A session calls the sink and the use cases only while it runs, starts a translation only for
-- the newest segment while no speech is recognised, and waits for the worker when it is terminated.
abbrev pub Allows : {T : Type 0} → Wait → AssistModeOrchestrator T → Type 0
Allows (publish_update u) s = is_running s.state ≡ true
Allows (operation c n) s = is_running s.state ≡ true
Allows (race ordinal generation) s = MayRace ordinal generation s
Allows worker_end s = (s.is_terminated ≡ true) × (s.queue ≡ [])
Allows _ s = Unit

-- A terminated session stays terminated.
abbrev pub Stays : {T : Type 0} → AssistModeOrchestrator T → AssistModeOrchestrator T → Type 0
Stays s t = s.is_terminated ≡ true → t.is_terminated ≡ true

module _ {T : Type 0} where
  abbrev pub Kept :
      {A : Type 0}
      → AssistModeOrchestrator T
      → Program T A
      → (A → AssistModeOrchestrator T → Type 0)
      → Type 0
  Kept s p Post = Runs IsSound Allows Stays s p Post

  abbrev pub Whatever : {A : Type 0} → A → AssistModeOrchestrator T → Type 0
  Whatever a s = Unit

  pub if-Kept :
      {A : Type 0} (Post : A → AssistModeOrchestrator T → Type 0) (s : AssistModeOrchestrator T)
      (b : Bool) (p q : Program T A)
      → (b ≡ true → Kept s p Post)
      → (b ≡ false → Kept s q Post)
      → Kept s (if b then p else q) Post
  if-Kept Post s true p q h n = h refl
  if-Kept Post s false p q h n = n refl

  pub branch_on-Kept :
      {A : Type 0} (Post : A → AssistModeOrchestrator T → Type 0) (s : AssistModeOrchestrator T)
      (c : AssistModeOrchestrator T → Bool) (p q : Program T A)
      → (c s ≡ true → Kept s p Post)
      → (c s ≡ false → Kept s q Post)
      → Kept s (branch_on c p q) Post
  branch_on-Kept Post s c p q h n = (λ r. r, if-Kept Post s (c s) p q h n)

  pub of_result-Kept :
      {A : Type 0} (s : AssistModeOrchestrator T) (r : Result A)
      → IsSound s
      → Kept s (of_result r) Whatever
  of_result-Kept s (ok a) h = (h, tt)
  of_result-Kept s (err e) h = h

  pub call-Kept :
      (s : AssistModeOrchestrator T) (w : Wait) → IsSound s → Allows w s → Kept s (call w) Whatever
  call-Kept s w h a = (h, a, λ x t keeps _. of_result-Kept t x keeps)

  pub call_then-Kept :
      {A : Type 0} (Post : A → AssistModeOrchestrator T → Type 0) (s : AssistModeOrchestrator T)
      (w : Wait) (f : ReplyOf w → Program T A)
      → IsSound s
      → Allows w s
      → ((a : ReplyOf w) (t : AssistModeOrchestrator T) → IsSound t → Kept t (f a) Post)
      → Kept s (call w >>= f) Post
  call_then-Kept Post s w f h a k =
      Runs-bind IsSound Allows Stays Whatever Post s (call w) f (call-Kept s w h a)
        (λ x t keeps _. k x t keeps)

  pub re_raise_cancelled-Kept :
      {A : Type 0} (Post : A → AssistModeOrchestrator T → Type 0) (s : AssistModeOrchestrator T)
      (q : Program T A) (e : Error)
      → IsSound s
      → Kept s q Post
      → Kept s (re_raise_cancelled q e) Post
  re_raise_cancelled-Kept Post s q cancelled_error h k = h
  re_raise_cancelled-Kept Post s q _ h k = k

  pub suppressed-Kept :
      (s : AssistModeOrchestrator T) (e : Error) → IsSound s → Kept s (suppressed e) Whatever
  suppressed-Kept s cancelled_error h = (h, tt)
  suppressed-Kept s _ h = h

  pub clear-IsSound : (s : AssistModeOrchestrator T) → IsSound s → IsSound (clear_pending_queue s)
  clear-IsSound s h = record {
    positive = h.positive;
    idle = λ _. refl;
    bounded = omega arith;
    climbs = omega arith;
    terminated = h.terminated;
    latest = h.latest;
    fits = h.fits;
    few = h.few;
  }

  pub fail_session-IsSound : (s : AssistModeOrchestrator T) → IsSound s → IsSound (fail_session s)
  fail_session-IsSound s h = record {
    positive = h.positive;
    idle = λ _. refl;
    bounded = omega arith;
    climbs = omega arith;
    terminated = λ _. refl;
    latest = h.latest;
    fits = h.fits;
    few = h.few;
  }

  pub publish-Kept :
      (s : AssistModeOrchestrator T) (u : AssistUpdate)
      → IsSound s
      → Kept s (publish u) (λ b t. b ≡ true → is_running t.state ≡ true)
  unfolding publish ◌>>=◌
  publish-Kept s u h =
      let Post : Bool → AssistModeOrchestrator T → Type 0 =
        λ b t. b ≡ true → is_running t.state ≡ true in
      branch_on-Kept Post s session_running _ (returns false)
        (λ e.
          Runs-recover IsSound Allows Stays Post s (call (publish_update u) >> gets session_running)
            (re_raise_cancelled (modify fail_session >> returns false))
            (call_then-Kept Post s (publish_update u) (λ _. gets session_running) h e
              (λ _ t keeps. (λ r. r, (keeps, λ r. r))))
            (λ e t keeps.
              re_raise_cancelled-Kept Post t (modify fail_session >> returns false) e keeps
                (λ r. r, (fail_session-IsSound t keeps, λ r. cc))))
        (λ e. (h, λ r. cc))
