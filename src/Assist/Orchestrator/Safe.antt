-- ===== src/Assist/Orchestrator/Safe.antt =====
-- Every session of the orchestrator, in every order of its steps
-- (backend/app/application/services/assist_mode_orchestrator.py).
use mathlib.Core.Path.{subst}
use ai_meeting_copilot.Prelude.{
  ℕ, ◌+◌, ◌≤◌, ◌≡◌, sym, ◌∙◌, inl, inr, true, false, List, [], ◌∷◌, ◌++◌, arith, Bool-cases, length,
  Result,
}
use ai_meeting_copilot.Assist.Gate.{
  ClockOps, set_upstream_pending_stt_chunks, stt_finished, stt_started,
}
use ai_meeting_copilot.Assist.Task.{advance, returns, raises, change, await}
use ai_meeting_copilot.Assist.Task.Runs.{
  IsResumable, Awaits, Reaches, advance-Reaches, IsResumable-later,
}
use ai_meeting_copilot.Assist.Orchestrator.{QueuedAssistSegment, AssistModeOrchestrator, is_running}
use ai_meeting_copilot.Assist.Orchestrator.Sound.{capacity, Climbs, Climbs-tail, IsSound}
use ai_meeting_copilot.Assist.Orchestrator.Work.{
  ReplyOf, Program, Wait, publish_update, wait_for_admission, operation, race, race_task,
  worker_end,
}
use ai_meeting_copilot.Assist.Orchestrator.Session.{
  System, process_segment, body, called, created_by, with_gate, next_round, end_worker, run_caller,
  run_worker, set_queue, Worker, not_begun, waiting, ended, at_work, Step, invoke, resume,
  begin_worker, dequeue, cancel_waiting, proceed, continue_worker, crash, begin_translation,
  cancel_translation, begin_stt, end_stt, report_upstream, clear_activity, Reach, here, next,
}
use ai_meeting_copilot.Assist.Orchestrator.Kept.{Allows, Stays, Kept, Whatever}
use ai_meeting_copilot.Assist.Orchestrator.Processed.{process_segment-Kept}
use ai_meeting_copilot.Assist.Orchestrator.Methods.{body-Kept}
use ai_meeting_copilot.Assist.Orchestrator.Lists.{
  Every, Every-split, Every-append, Every-map, length-created,
}

module _ {T : Type 0} where
  abbrev pub IsTaskSafe : AssistModeOrchestrator T → Program T (Unit {0}) → Type 0
  IsTaskSafe s p = IsResumable IsSound Allows Stays p s

  abbrev pub IsWorkerSafe : AssistModeOrchestrator T → Worker T → Type 0
  IsWorkerSafe s (at_work p) = IsTaskSafe s p
  IsWorkerSafe s _ = Unit

  abbrev pub IsCallAllowed : Wait × AssistModeOrchestrator T → Type 0
  IsCallAllowed (w, s) = IsSound s × Allows w s

  abbrev pub race_count : List (Wait × AssistModeOrchestrator T) → ℕ
  race_count [] = 0
  race_count ((race n g, s) ∷ calls) = 1 + race_count calls
  race_count (_ ∷ calls) = race_count calls

  -- The translations that have been called, and those whose task has not begun
  abbrev pub translation_count : System T → ℕ
  translation_count y = length y.translated + length y.created

  -- The state is sound, the tasks may go on, every call was allowed when it was made, and every
  -- translation is one of a race.
  pub record IsSafe (y : System T) : Type 0 where
    pub sound : IsSound y.now
    pub callers : Every (IsTaskSafe y.now) y.callers
    pub worker : IsWorkerSafe y.now y.worker
    pub calls : Every IsCallAllowed y.calls
    pub raced : translation_count y ≤ race_count y.calls

  later :
      (s t : AssistModeOrchestrator T) (p : Program T (Unit {0}))
      → Stays s t
      → IsTaskSafe s p
      → IsTaskSafe t p
  later s t p stays h = IsResumable-later IsSound Allows Stays s t p (λ r f e. f (stays e)) h

  worker-later :
      (s t : AssistModeOrchestrator T) (w : Worker T)
      → Stays s t
      → IsWorkerSafe s w
      → IsWorkerSafe t w
  worker-later s t (at_work p) stays h = later s t p stays h
  worker-later s t not_begun stays h = tt
  worker-later s t waiting stays h = tt
  worker-later s t ended stays h = tt

  called-Every :
      (p : Program T (Unit {0})) (s : AssistModeOrchestrator T)
      (calls : List (Wait × AssistModeOrchestrator T))
      → IsSound s
      → Awaits IsSound Allows Stays p s
      → Every IsCallAllowed calls
      → Every IsCallAllowed (called p s calls)
  called-Every (returns a) s calls h a' k = k
  called-Every (raises e) s calls h a k = k
  called-Every (change g c) s calls h a k = k
  called-Every (await w c) s calls h a k = ((h, a), k)

  created-raced :
      (p : Program T (Unit {0})) (s : AssistModeOrchestrator T)
      (calls : List (Wait × AssistModeOrchestrator T)) (created : List ℕ) (n : ℕ)
      → n + length created ≤ race_count calls
      → n + length (created_by p created) ≤ race_count (called p s calls)
  created-raced (returns a) s calls created n h = h
  created-raced (raises e) s calls created n h = h
  created-raced (change g c) s calls created n h = h
  created-raced (await (race m g) c) s calls created n h = omega (arith, h)
  created-raced (await (publish_update u) c) s calls created n h = h
  created-raced (await (operation a m) c) s calls created n h = h
  created-raced (await (wait_for_admission m) c) s calls created n h = h
  created-raced (await race_task c) s calls created n h = h
  created-raced (await worker_end c) s calls created n h = h

  pub reached :
      (s : AssistModeOrchestrator T) (p : Program T (Unit {0}))
      → Kept s p Whatever
      → Reaches IsSound Allows Stays s (advance p s)
  reached s p h = advance-Reaches IsSound Allows Stays (λ _ r. r) (λ s t r f g e. g (f e)) s p h

  moved :
      (y : System T) (s : AssistModeOrchestrator T)
      → IsSafe y
      → IsSound s
      → Stays y.now s
      → IsSafe (record y { now = s })
  moved y s h sound stays = record {
    sound = sound;
    callers =
        Every-map (IsTaskSafe y.now) (IsTaskSafe s) y.callers (λ p. later y.now s p stays)
          h.callers;
    worker = worker-later y.now s y.worker stays h.worker;
    calls = h.calls;
    raced = h.raced;
  }

  run_caller-IsSafe :
      (before after : List (Program T (Unit {0}))) (p : Program T (Unit {0})) (y : System T)
      → IsSafe y
      → Every (IsTaskSafe y.now) before
      → Every (IsTaskSafe y.now) after
      → Kept y.now p Whatever
      → IsSafe (run_caller before after p y)
  run_caller-IsSafe before after p y h b a k =
      let (sound, awaits, resumable, stays) = reached y.now p k in
      let z = (advance p y.now).1 in
      record {
        sound = sound;
        callers =
            Every-append (IsTaskSafe z) before ((advance p y.now).0 ∷ after)
              (Every-map (IsTaskSafe y.now) (IsTaskSafe z) before (λ q. later y.now z q stays) b)
              (
                resumable,
                Every-map (IsTaskSafe y.now) (IsTaskSafe z) after (λ q. later y.now z q stays) a,
              );
        worker = worker-later y.now z y.worker stays h.worker;
        calls = called-Every (advance p y.now).0 z y.calls sound awaits h.calls;
        raced = created-raced (advance p y.now).0 z y.calls y.created (length y.translated) h.raced;
      }

  run_worker-IsSafe :
      (p : Program T (Unit {0})) (s : AssistModeOrchestrator T) (y : System T)
      → IsSafe y
      → Stays y.now s
      → Kept s p Whatever
      → IsSafe (run_worker p s y)
  run_worker-IsSafe p s y h begun k =
      let (sound, awaits, resumable, stays) = reached s p k in
      let z = (advance p s).1 in
      record {
        sound = sound;
        callers =
            Every-map (IsTaskSafe y.now) (IsTaskSafe z) y.callers
              (λ q. later y.now z q (λ e. stays (begun e))) h.callers;
        worker = resumable;
        calls = called-Every (advance p s).0 z y.calls sound awaits h.calls;
        raced = created-raced (advance p s).0 z y.calls y.created (length y.translated) h.raced;
      }

  end_worker-IsSafe : (y : System T) → IsSafe y → IsSafe (end_worker y)
  end_worker-IsSafe y h = record {
    sound = h.sound;
    callers = (moved y (record (y.now) { is_worker_done = true }) h h.sound (λ r. r)).callers;
    worker = tt;
    calls = h.calls;
    raced = h.raced;
  }

  next_round-IsSafe : (y : System T) → IsSafe y → IsSafe (next_round y)
  next_round-IsSafe y h = elim (Bool-cases (is_running y.now.state)) [
    | inl e ↦ rw e (record {
      sound = h.sound;
      callers = h.callers;
      worker = tt;
      calls = h.calls;
      raced = h.raced;
    })
    | inr e ↦ rw e (end_worker-IsSafe y h)
  ]

  pub resumed-Kept :
      (y : System T) (h : IsSafe y) (before after : List (Program T (Unit {0}))) (w : Wait)
      (k : Result (ReplyOf w) → Program T (Unit {0})) (x : Result (ReplyOf w))
      → y.callers ≡ before ++ (await w k ∷ after)
      → Kept y.now (k x) Whatever
  resumed-Kept y h before after w k x e =
      let (b, a) =
        Every-split (IsTaskSafe y.now) before (await w k ∷ after)
          (subst (Every (IsTaskSafe y.now)) e h.callers) in
      a.0 x y.now h.sound (λ r. r)

  pub proceeding-Kept :
      (y : System T) (h : IsSafe y) (w : Wait) (k : Result (ReplyOf w) → Program T (Unit {0}))
      (x : Result (ReplyOf w))
      → y.worker ≡ at_work (await w k)
      → Kept y.now (k x) Whatever
  proceeding-Kept y h w k x e = subst (IsWorkerSafe y.now) e h.worker x y.now h.sound (λ r. r)

  pub set_queue-IsSound :
      (s : AssistModeOrchestrator T) (q : QueuedAssistSegment) (qs : List QueuedAssistSegment)
      → IsSound s
      → s.queue ≡ q ∷ qs
      → IsSound (set_queue qs s)
  set_queue-IsSound s q qs h e = record {
    positive = h.positive;
    idle = λ r. let none_left : q ∷ qs ≡ [] = sym e ∙ h.idle r in cc;
    bounded = omega (arith, subst (λ l. length l ≤ capacity s.configuration) e h.bounded);
    climbs =
        Climbs-tail 0 s.received_segment_count q qs
          (subst (λ l. Climbs 0 l s.received_segment_count) e h.climbs);
    terminated = h.terminated;
    latest = h.latest;
    fits = h.fits;
    few = h.few;
  }

module _ {T : Type 0} (ops : ClockOps T) where
  pub Step-IsSafe : {y z : System T} → Step ops y z → IsSafe y → IsSafe z
  Step-IsSafe {y} (invoke m) h =
      run_caller-IsSafe [] y.callers (body m) y h tt h.callers (body-Kept y.now m h.sound)
  Step-IsSafe {y} (resume before after w k x e) h =
      let (b, a) =
        Every-split (IsTaskSafe y.now) before (await w k ∷ after)
          (subst (Every (IsTaskSafe y.now)) e h.callers) in
      run_caller-IsSafe before after (k x) y h b a.1 (resumed-Kept y h before after w k x e)
  Step-IsSafe {y} (begin_worker e r) h = next_round-IsSafe y h
  Step-IsSafe {y} (dequeue q qs e r) h =
      run_worker-IsSafe (process_segment q) (set_queue qs y.now) y h (λ s. s)
        (process_segment-Kept (set_queue qs y.now) q (set_queue-IsSound y.now q qs h.sound r))
  Step-IsSafe {y} (cancel_waiting e) h = end_worker-IsSafe y h
  Step-IsSafe {y} (proceed w k x e) h =
      run_worker-IsSafe (k x) y.now y h (λ s. s) (proceeding-Kept y h w k x e)
  Step-IsSafe {y} (continue_worker e) h = next_round-IsSafe y h
  Step-IsSafe {y} (crash r e) h = end_worker-IsSafe y h
  Step-IsSafe {y} (begin_translation n before after e) h = record {
    sound = h.sound;
    callers = h.callers;
    worker = h.worker;
    calls = h.calls;
    raced = omega (arith, h.raced, length-created n y.created before after e);
  }
  Step-IsSafe {y} (cancel_translation n before after e) h = record {
    sound = h.sound;
    callers = h.callers;
    worker = h.worker;
    calls = h.calls;
    raced = omega (arith, h.raced, length-created n y.created before after e);
  }
  Step-IsSafe {y} (begin_stt now) h =
      moved y (with_gate (stt_started ops now y.now.priority_gate) y.now) h h.sound (λ r. r)
  Step-IsSafe {y} end_stt h =
      moved y (with_gate (stt_finished y.now.priority_gate) y.now) h h.sound (λ r. r)
  Step-IsSafe {y} (report_upstream n) h =
      moved y (with_gate (set_upstream_pending_stt_chunks n y.now.priority_gate) y.now) h h.sound
        (λ r. r)
  Step-IsSafe {y} clear_activity h =
      moved y (with_gate (record (y.now.priority_gate) { activity_event = false }) y.now) h h.sound
        (λ r. r)

  pub Reach-IsSafe : {x y : System T} → IsSafe x → Reach ops x y → IsSafe y
  Reach-IsSafe h here = h
  Reach-IsSafe h (next r step) = Step-IsSafe step (Reach-IsSafe h r)
