-- ===== src/Assist/Orchestrator/Whole.antt =====
-- Every session of an orchestrator that was made from a valid configuration
-- (backend/app/application/services/assist_mode_orchestrator.py).
use mathlib.Core.Path.{subst}
use ai_meeting_copilot.Prelude.{
  ℕ, ◌≤◌, ◌<◌, ◌≡◌, refl, ◌∙◌, Bool, true, false, not, ◌&&◌, ◌||◌, [], arith, ◌==◌, if◌then◌else◌,
  ok-injective, Error, application_validation, Result, err, ok,
}
use ai_meeting_copilot.Assist.Gate.{ClockOps, LiveTranscriptionPriorityGate}
use ai_meeting_copilot.Assist.Orchestrator.{
  AssistModeConfiguration, AssistModeOrchestrator, is_level_allowed, configuration_post_init,
  fresh_orchestrator, new_orchestrator,
}
use ai_meeting_copilot.Assist.Orchestrator.Sound.{IsSound}
use ai_meeting_copilot.Assist.Orchestrator.Session.{
  System, body, run_caller, new_session, stops, invoke, Reach, next,
}
use ai_meeting_copilot.Assist.Orchestrator.Lists.{Every}
use ai_meeting_copilot.Assist.Orchestrator.Safe.{
  IsSafe, IsCallAllowed, race_count, translation_count, Reach-IsSafe,
}
use ai_meeting_copilot.Assist.Orchestrator.Silent.{IsSilent, stop-IsSilent, Reach-IsSilent}

accepted_value :
    {A : Type 0} (refused : Bool) (e : Error) (a b : A)
    → ◌≡◌ {A = Result A} (if refused then err e else ok a) (ok b)
    → (refused ≡ false) × (a ≡ b)
accepted_value true e a b h = cc
accepted_value false e a b h = (refl, ok-injective a b h)

positive_of : (b : Bool) (n : ℕ) → (b || (n == 0)) ≡ false → 0 < n
positive_of b n h = ground arith

configuration-positive :
    (c : AssistModeConfiguration) → configuration_post_init c ≡ ok c → 0 < c.max_queue_size
unfolding configuration_post_init
configuration-positive c h =
    positive_of (c.simplification_enabled && not (is_level_allowed c.simplification_level))
      c.max_queue_size
      (accepted_value
        (c.simplification_enabled && not (is_level_allowed c.simplification_level)
          || (c.max_queue_size == 0))
        application_validation c c h).0

fresh-IsSafe :
    {T : Type 0} (c : AssistModeConfiguration) (gate : LiveTranscriptionPriorityGate T)
    → 0 < c.max_queue_size
    → IsSafe (new_session (fresh_orchestrator c gate))
fresh-IsSafe c gate h = record {
  sound = record {
    positive = h;
    idle = λ _. refl;
    bounded = omega arith;
    climbs = omega arith;
    terminated = λ e. cc;
    latest = tt;
    fits = record { few = omega arith; short = omega arith };
    few = omega arith;
  };
  callers = tt;
  worker = tt;
  calls = tt;
  raced = omega arith;
}

pub new-IsSafe :
    {T : Type 0} (c : AssistModeConfiguration)
    (has_translation has_simplification has_replies : Bool) (gate : LiveTranscriptionPriorityGate T)
    (s : AssistModeOrchestrator T)
    → configuration_post_init c ≡ ok c
    → new_orchestrator c has_translation has_simplification has_replies gate ≡ ok s
    → IsSafe (new_session s)
unfolding new_orchestrator
new-IsSafe c a b d gate s h e =
    let (free, same) =
      accepted_value
        (c.translation_enabled && not a
          || (c.simplification_enabled && not b)
          || (c.reply_coaching_enabled && not d))
        application_validation (fresh_orchestrator c gate) s e in
    subst (λ t. IsSafe (new_session t)) same (fresh-IsSafe c gate (configuration-positive c h))

-- In every session of an orchestrator that was made from a valid configuration, whatever is
-- called in whatever order, whatever is answered and however recognition goes on: only a running
-- session has a queue, whose size is bounded and whose ordinals climb to the number of segments
-- received; a terminated session does not run; the retained context is within its limits. Every
-- call of a method was made in such a state: an update was published and a capability other than a
-- translation called only while the session ran; a race of a translation was begun, and its task
-- created, only for the newest segment, as the one active translation, in a running session while
-- no speech was recognised, and it runs against the next start from then on; the end of the worker
-- was awaited only by a terminated session without a queue. The translations that have been called
-- and the tasks of translations that have not begun are together no more than the races.
pub session-IsSafe :
    {T : Type 0} (ops : ClockOps T) (c : AssistModeConfiguration)
    (has_translation has_simplification has_replies : Bool) (gate : LiveTranscriptionPriorityGate T)
    (s : AssistModeOrchestrator T) {y : System T}
    → configuration_post_init c ≡ ok c
    → new_orchestrator c has_translation has_simplification has_replies gate ≡ ok s
    → Reach ops (new_session s) y
    → IsSound y.now × Every IsCallAllowed y.calls × (translation_count y ≤ race_count y.calls)
session-IsSafe ops c a b d gate s valid made reach =
    let safe = Reach-IsSafe ops (new-IsSafe c a b d gate s valid made) reach in
    (safe.sound, safe.calls, safe.raced)

-- In every session of an orchestrator that was made from a valid configuration, once `stop` has
-- been called no method calls the sink or a capability or begins a race any more, whatever other
-- calls and tasks are under way, and the session stays terminated. Only the task of a translation
-- that was created before the stop and had not begun may still call its use case: from then on, the
-- translations called and the tasks not begun are together no more than at the stop.
pub stop-IsFinal :
    {T : Type 0} (ops : ClockOps T) (c : AssistModeConfiguration)
    (has_translation has_simplification has_replies : Bool) (gate : LiveTranscriptionPriorityGate T)
    (s : AssistModeOrchestrator T) {y z : System T}
    → configuration_post_init c ≡ ok c
    → new_orchestrator c has_translation has_simplification has_replies gate ≡ ok s
    → Reach ops (new_session s) y
    → Reach ops (run_caller [] y.callers (body stops) y) z
    → IsSilent y z
stop-IsFinal ops c a b d gate s {y} valid made reach after =
    let safe =
      Reach-IsSafe ops (new-IsSafe c a b d gate s valid made) (next reach (invoke stops)) in
    let (ended_now, same, few) = stop-IsSilent y in
    let (ended_later, kept, fewer) = Reach-IsSilent ops safe ended_now after in
    (ended_later, kept ∙ same, omega (arith, few, fewer))
