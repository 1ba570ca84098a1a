-- ===== src/Assist/Gate/Safety.antt =====
-- What holds of the gate and of the task that waits for it, in every schedule
-- (backend/app/application/services/live_transcription_priority_gate.py).
use mathlib.Core.Path.{subst}
use ai_meeting_copilot.Prelude.{
  ℕ, zero, suc, ◌≡◌, refl, sym, inl, inr, some, ltb, Bool-cases, is_some,
}
use ai_meeting_copilot.Assist.Gate.{
  ClockOps, LiveTranscriptionPriorityGate, cadence_forecast, upstream_backlog,
}
use ai_meeting_copilot.Assist.Gate.Waiting.{
  Step, start, finish, clear, report, watch, resume, Reach, here, next, Waiter, System, run_watch,
  run_loop, begin, fresh,
}
use ai_meeting_copilot.Assist.Gate.Sound.{
  IsSound, new_gate-IsSound, finish-IsSound, report-IsSound, watch-IsSound, clear-IsSound,
  start-IsSound,
}
use ai_meeting_copilot.Assist.Gate.Admitted.{
  IsWaiter, Races, run_watch-Watches, finish-Races, report-Races, clear-Races, start-Races,
  deferred_some, admit_or_race-IsWaiter, settled, run_loop-settles,
}

module _ {T : Type 0} (ops : ClockOps T) (estimated : ℕ) where
  open ops use {nought, sub, add, lt, milliseconds}

  settled-IsWaiter :
      (now : T) (g : LiveTranscriptionPriorityGate T) (w : Waiter T)
      → w.was_deferred ≡ is_some w.deferred_reason
      → IsWaiter g (settled ops estimated now g w) fresh
  settled-IsWaiter now g w h = elim (Bool-cases (ltb 0 g.active_stt_count)) [
    | inl e ↦ rw e (record { deferred = h; races = tt })
    | inr e ↦ rw e (elim (Bool-cases (ltb 0 g.upstream_pending_stt_chunks)) [
      | inl p ↦ rw p (record {
        deferred = sym (deferred_some ops estimated w.deferred_reason upstream_backlog);
        races = tt;
      })
      | inr p ↦ rw p (
          admit_or_race-IsWaiter ops estimated g
            (cadence_forecast ops estimated now g.last_stt_started_at g.stt_start_intervals) w h)
    ])
  ]

  -- The gate and its waiting task.
  pub record IsFine (s : System ops estimated) : Type 0 where
    pub sound : IsSound ops s.gate
    pub waiter : IsWaiter s.gate s.waiter s.watch

  pub resumed :
      (rounds : ℕ) (now : T) (g : LiveTranscriptionPriorityGate T) (w w' : Waiter T)
      → IsSound ops g
      → run_loop ops estimated rounds now g w ≡ some w'
      → settled ops estimated now g w ≡ w'
  unfolding run_loop
  resumed zero now g w w' h e = cc
  resumed (suc rounds) now g w w' h e = cc (run_loop-settles ops estimated rounds now g w h)

  pub Step-IsFine : {s t : System ops estimated} → Step ops estimated s t → IsFine s → IsFine t
  Step-IsFine {s} (start now) h = record {
    sound = start-IsSound ops now s.gate h.sound;
    waiter = record {
      deferred = h.waiter.deferred;
      races = start-Races ops now s.gate s.watch s.waiter.position h.waiter.races;
    };
  }
  Step-IsFine {s} finish h = record {
    sound = finish-IsSound ops s.gate h.sound;
    waiter = record {
      deferred = h.waiter.deferred;
      races = finish-Races s.gate s.watch s.waiter.position h.waiter.races;
    };
  }
  Step-IsFine {s} (report n) h = record {
    sound = report-IsSound ops n s.gate h.sound;
    waiter = record {
      deferred = h.waiter.deferred;
      races = report-Races n s.gate s.watch s.waiter.position h.waiter.races;
    };
  }
  Step-IsFine {s} clear h = record {
    sound = clear-IsSound ops s.gate h.sound;
    waiter = record {
      deferred = h.waiter.deferred;
      races = clear-Races s.gate s.watch s.waiter.position h.waiter.races;
    };
  }
  Step-IsFine {s} (watch generation wait e) h = record {
    sound = watch-IsSound ops generation s.watch s.gate h.sound;
    waiter = record {
      deferred = h.waiter.deferred;
      races =
          subst
            (Races (run_watch generation s.watch s.gate).1 (run_watch generation s.watch s.gate).0)
            (sym e)
            (run_watch-Watches s.gate generation s.watch
              (subst (Races s.gate s.watch) e h.waiter.races));
    };
  }
  Step-IsFine {s} (resume now rounds w m e) h = record {
    sound = h.sound;
    waiter =
        subst (λ v. IsWaiter s.gate v fresh) (resumed rounds now s.gate s.waiter w h.sound e)
          (settled-IsWaiter now s.gate s.waiter h.waiter.deferred);
  }

  -- In every schedule of recognitions, reports of the source, wake-ups, readings of the clock and
  -- other tasks that clear the activity event: the idle event is set exactly while nothing is
  -- recognised, the backlog event exactly while the source has no backlog, the history has at most
  -- four intervals, all positive; a task says that it was deferred exactly if it has a reason; and
  -- no start is missed in a race: while its inner task sleeps none has come and the event is not
  -- set, and it returns only after one.
  pub Reach-IsFine :
      {s : System ops estimated} → Reach ops estimated (begin ops estimated) s → IsFine s
  Reach-IsFine here = record {
    sound = new_gate-IsSound ops;
    waiter = record { deferred = refl; races = tt };
  }
  Reach-IsFine (next r st) = Step-IsFine st (Reach-IsFine r)

  -- The loop of `wait_for_translation_admission` never spins: in every schedule, whenever the task
  -- runs, one round of the loop ends it or suspends it, at the place that the counters say, with
  -- any number of rounds allowed and at any time of the clock.
  pub Reach-settles :
      {s : System ops estimated} (now : T) (rounds : ℕ)
      → Reach ops estimated (begin ops estimated) s
      → run_loop ops estimated (suc rounds) now s.gate s.waiter
        ≡ some (settled ops estimated now s.gate s.waiter)
  Reach-settles {s} now rounds r =
      run_loop-settles ops estimated rounds now s.gate s.waiter (Reach-IsFine r).sound
