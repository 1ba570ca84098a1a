-- ===== src/Assist/Orchestrator/Silent.antt =====
-- A session of the orchestrator after `stop`
-- (backend/app/application/services/assist_mode_orchestrator.py).
-- The calls of the sink and of the capabilities
use ai_meeting_copilot.Prelude.{
  ℕ, ◌+◌, ◌≤◌, ◌≡◌, refl, ◌∙◌, inl, inr, Bool, true, false, not, ◌&&◌, List, [], ◌∷◌, arith,
  if◌then◌else◌, Bool-cases, length,
}
use ai_meeting_copilot.Assist.Gate.{ClockOps}
use ai_meeting_copilot.Assist.Task.{◌>>=◌, recover, advance, returns, raises, change, await}
use ai_meeting_copilot.Assist.Task.Runs.{Awaits}
use ai_meeting_copilot.Assist.Orchestrator.{AssistModeOrchestrator, is_running}
use ai_meeting_copilot.Assist.Orchestrator.Sound.{IsSound}
use ai_meeting_copilot.Assist.Orchestrator.Work.{
  Program, Wait, publish_update, wait_for_admission, operation, race, race_task, worker_end,
}
use ai_meeting_copilot.Assist.Orchestrator.Session.{
  System, process_segment, stop, body, called, created_by, next_round, run_caller, set_queue, stops,
  Step, invoke, resume, begin_worker, dequeue, cancel_waiting, proceed, continue_worker, crash,
  begin_translation, cancel_translation, begin_stt, end_stt, report_upstream, clear_activity, Reach,
  here, next,
}
use ai_meeting_copilot.Assist.Orchestrator.Kept.{Allows, Stays, Kept, Whatever}
use ai_meeting_copilot.Assist.Orchestrator.Processed.{process_segment-Kept}
use ai_meeting_copilot.Assist.Orchestrator.Methods.{body-Kept}
use ai_meeting_copilot.Assist.Orchestrator.Lists.{length-created}
use ai_meeting_copilot.Assist.Orchestrator.Safe.{
  IsSafe, translation_count, reached, resumed-Kept, proceeding-Kept, set_queue-IsSound,
  Reach-IsSafe,
}

abbrev pub is_outward : Wait → Bool
is_outward (publish_update u) = true
is_outward (operation c n) = true
is_outward (race n g) = true
is_outward _ = false

module _ {T : Type 0} where
  abbrev pub outward : List (Wait × AssistModeOrchestrator T) → List Wait
  outward [] = []
  outward ((w, s) ∷ calls) = if is_outward w then w ∷ outward calls else outward calls

  -- The session is terminated; no method has called the sink or a capability or begun a race since,
  -- and the translations that have been called since are of tasks that were created before.
  abbrev pub IsSilent : System T → System T → Type 0
  IsSilent y z =
      (z.now.is_terminated ≡ true)
      × (outward z.calls ≡ outward y.calls)
      × (translation_count z ≤ translation_count y)

  terminated-not_outward :
      (w : Wait) (s : AssistModeOrchestrator T)
      → IsSound s
      → Allows w s
      → s.is_terminated ≡ true
      → is_outward w ≡ false
  terminated-not_outward (publish_update u) s h a e =
      let off : is_running s.state ≡ false = h.terminated e in cc
  terminated-not_outward (operation c n) s h a e =
      let off : is_running s.state ≡ false = h.terminated e in cc
  terminated-not_outward (race n g) s h a e =
      let off : is_running s.state ≡ false = h.terminated e in
      let on : is_running s.state ≡ true = a.0 in cc
  terminated-not_outward (wait_for_admission n) s h a e = refl
  terminated-not_outward race_task s h a e = refl
  terminated-not_outward worker_end s h a e = refl

  called-outward :
      (p : Program T (Unit {0})) (s : AssistModeOrchestrator T)
      (calls : List (Wait × AssistModeOrchestrator T))
      → IsSound s
      → Awaits IsSound Allows Stays p s
      → s.is_terminated ≡ true
      → outward (called p s calls) ≡ outward calls
  called-outward (returns a) s calls h a' e = refl
  called-outward (raises r) s calls h a e = refl
  called-outward (change g c) s calls h a e = refl
  called-outward (await w c) s calls h a e = rw (terminated-not_outward w s h a e) refl

  called-created :
      (p : Program T (Unit {0})) (s : AssistModeOrchestrator T) (created : List ℕ)
      → IsSound s
      → Awaits IsSound Allows Stays p s
      → s.is_terminated ≡ true
      → created_by p created ≡ created
  called-created (returns a) s created h a' e = refl
  called-created (raises r) s created h a e = refl
  called-created (change g c) s created h a e = refl
  called-created (await (race n g) c) s created h a e =
      let on : true ≡ false = terminated-not_outward (race n g) s h a e in cc
  called-created (await (publish_update u) c) s created h a e = refl
  called-created (await (operation b n) c) s created h a e = refl
  called-created (await (wait_for_admission n) c) s created h a e = refl
  called-created (await race_task c) s created h a e = refl
  called-created (await worker_end c) s created h a e = refl

  -- A part of a task that begins in a terminated session
  part-silent :
      (p : Program T (Unit {0})) (s : AssistModeOrchestrator T)
      (calls : List (Wait × AssistModeOrchestrator T)) (created : List ℕ) (n : ℕ)
      → s.is_terminated ≡ true
      → Kept s p Whatever
      → ((advance p s).1.is_terminated ≡ true)
        × (outward (called (advance p s).0 (advance p s).1 calls) ≡ outward calls)
        × (n + length (created_by (advance p s).0 created) ≤ n + length created)
  part-silent p s calls created n e k =
      let (sound, awaits, resumable, stays) = reached s p k in
      (
        stays e,
        called-outward (advance p s).0 (advance p s).1 calls sound awaits (stays e),
        rw (called-created (advance p s).0 (advance p s).1 created sound awaits (stays e))
            (omega arith),
      )

  next_round-IsSilent : (y : System T) → y.now.is_terminated ≡ true → IsSilent y (next_round y)
  next_round-IsSilent y e = elim (Bool-cases (is_running y.now.state)) [
    | inl r ↦ rw r (e, refl, omega arith)
    | inr r ↦ rw r (e, refl, omega arith)
  ]

  -- The call of `stop` itself
  pub stop-IsSilent : (y : System T) → IsSilent y (run_caller [] y.callers (body stops) y)
  unfolding stop ◌>>=◌ recover
  stop-IsSilent y = elim (Bool-cases y.now.is_terminated) [
    | inl e ↦ rw e (refl, refl, omega arith)
    | inr e ↦ rw e (elim (Bool-cases (y.now.has_worker && not y.now.is_worker_done)) [
      | inl r ↦ rw (advance, r) (refl, refl, omega arith)
      | inr r ↦ rw (advance, r) (refl, refl, omega arith)
    ])
  ]

module _ {T : Type 0} (ops : ClockOps T) where
  Step-IsSilent :
      {y z : System T} → Step ops y z → IsSafe y → y.now.is_terminated ≡ true → IsSilent y z
  Step-IsSilent {y} (invoke m) h e =
      part-silent (body m) y.now y.calls y.created (length y.translated) e
        (body-Kept y.now m h.sound)
  Step-IsSilent {y} (resume before after w k x r) h e =
      part-silent (k x) y.now y.calls y.created (length y.translated) e
        (resumed-Kept y h before after w k x r)
  Step-IsSilent {y} (begin_worker r d) h e = next_round-IsSilent y e
  Step-IsSilent {y} (dequeue q qs r d) h e =
      part-silent (process_segment q) (set_queue qs y.now) y.calls y.created (length y.translated) e
        (process_segment-Kept (set_queue qs y.now) q (set_queue-IsSound y.now q qs h.sound d))
  Step-IsSilent {y} (cancel_waiting r) h e = (e, refl, omega arith)
  Step-IsSilent {y} (proceed w k x r) h e =
      part-silent (k x) y.now y.calls y.created (length y.translated) e
        (proceeding-Kept y h w k x r)
  Step-IsSilent {y} (continue_worker r) h e = next_round-IsSilent y e
  Step-IsSilent {y} (crash d r) h e = (e, refl, omega arith)
  Step-IsSilent {y} (begin_translation n before after d) h e =
      (e, refl, omega (arith, length-created n y.created before after d))
  Step-IsSilent {y} (cancel_translation n before after d) h e =
      (e, refl, omega (arith, length-created n y.created before after d))
  Step-IsSilent {y} (begin_stt now) h e = (e, refl, omega arith)
  Step-IsSilent {y} end_stt h e = (e, refl, omega arith)
  Step-IsSilent {y} (report_upstream n) h e = (e, refl, omega arith)
  Step-IsSilent {y} clear_activity h e = (e, refl, omega arith)

  pub Reach-IsSilent :
      {y z : System T} → IsSafe y → y.now.is_terminated ≡ true → Reach ops y z → IsSilent y z
  Reach-IsSilent h e here = (e, refl, omega arith)
  Reach-IsSilent h e (next r step) =
      let (stopped_before, same, few) = Reach-IsSilent h e r in
      let (stopped_now, kept, fewer) = Step-IsSilent step (Reach-IsSafe ops h r) stopped_before in
      (stopped_now, kept ∙ same, omega (arith, few, fewer))
