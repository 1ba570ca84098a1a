-- ===== src/Assist/Gate/Progress.antt =====
-- That the task which waits for an admission can always be admitted
-- (backend/app/application/services/live_transcription_priority_gate.py).
use mathlib.Core.Path.{subst}
use ai_meeting_copilot.Prelude.{
  ℕ, zero, suc, ◌≡◌, refl, sym, ap, ◌∙◌, inl, inr, true, false, ◌&&◌, Option, none, some, List, [],
  ◌∷◌, arith, leb, ◌==◌, Bool-cases, pos,
}
use ai_meeting_copilot.Assist.Gate.{
  ClockOps, TranslationAdmission, LiveTranscriptionPriorityGate, set_upstream_pending_stt_chunks,
  stt_finished, shortest, at_most, idle_boundary, forecast, cadence_forecast,
}
use ai_meeting_copilot.Assist.Gate.Waiting.{
  finish, report, Reach, here, next, Waiter, System, admit_or_race, run_loop, change_gate, begin,
  IsAdmitted,
}
use ai_meeting_copilot.Assist.Gate.Sound.{report-IsSound}
use ai_meeting_copilot.Assist.Gate.Admitted.{settled, run_loop-settles}
use ai_meeting_copilot.Assist.Gate.Safety.{IsFine, Step-IsFine, Reach-IsFine}

module _ {T : Type 0} (ops : ClockOps T) (estimated : ℕ) where
  open ops use {nought, sub, add, lt, milliseconds}

  -- Two facts of floats: zero is not below itself, and the difference to a time that has been
  -- reached is not positive.
  pub record IsOrdered : Type 0 where
    pub irreflexive : lt nought nought ≡ false
    pub reached : (now b : T) → lt now b ≡ false → lt nought (sub b now) ≡ false

  -- The pause has lasted until the boundary, if there is one.
  abbrev pub HasPaused : T → ℕ → Option T → List T → Type 0
  HasPaused now zero last xs = Unit
  HasPaused now (suc n) none xs = Unit
  HasPaused now (suc n) (some last) [] = Unit
  HasPaused now (suc n) (some last) (x ∷ xs) = lt now (idle_boundary ops (suc n) last x xs) ≡ false

  forecast-no_wait :
      (n : ℕ) (now last x : T) (xs : List T)
      → lt nought nought ≡ false
      → lt nought (sub (idle_boundary ops n last x xs) now) ≡ false
      → at_most ops (forecast ops n now last x xs).wait_seconds nought ≡ true
  unfolding forecast
  forecast-no_wait n now last x xs z b =
      rw b
        (elim (Bool-cases (
          at_most ops (sub (add last (shortest ops x xs)) now) nought
          && at_most ops (idle_boundary ops n last x xs) now)) [
            | inl p ↦ rw (p, z) refl
            | inr p ↦
                elim (Bool-cases (leb n (milliseconds (sub (add last (shortest ops x xs)) now)))) [
                  | inl q ↦ rw (p, q, z) refl
                  | inr q ↦ rw (p, q, z) refl
                ]
          ])

  cadence-no_wait :
      (now : T) (n : ℕ) (last : Option T) (xs : List T)
      → IsOrdered
      → HasPaused now n last xs
      → at_most ops (cadence_forecast ops n now last xs).wait_seconds nought ≡ true
  cadence-no_wait now zero last xs o h = rw o.irreflexive refl
  cadence-no_wait now (suc n) none xs o h = rw o.irreflexive refl
  cadence-no_wait now (suc n) (some last) [] o h = rw o.irreflexive refl
  cadence-no_wait now (suc n) (some last) (x ∷ xs) o h =
      forecast-no_wait (suc n) now last x xs o.irreflexive (o.reached now _ h)

  -- A system behind some steps, with the waiting task and the cadence as they were.
  record Later (s t : System ops estimated) : Type 0 where
    reach : Reach ops estimated s t
    fine : IsFine ops estimated t
    waiter : t.waiter ≡ s.waiter
    last : t.gate.last_stt_started_at ≡ s.gate.last_stt_started_at
    intervals : t.gate.stt_start_intervals ≡ s.gate.stt_start_intervals

  finish_fields :
      (g : LiveTranscriptionPriorityGate T) (k : ℕ)
      → g.active_stt_count ≡ suc k
      → ((stt_finished g).active_stt_count ≡ k)
        × ((stt_finished g).last_stt_started_at ≡ g.last_stt_started_at)
        × ((stt_finished g).stt_start_intervals ≡ g.stt_start_intervals)
  unfolding stt_finished
  finish_fields g k e = ground arith

  -- Every recognition ends.
  finish_all :
      (k : ℕ) (s t : System ops estimated)
      → t.gate.active_stt_count ≡ k
      → Later s t
      → (u : System ops estimated) × Later s u × (u.gate.active_stt_count ≡ 0)
  finish_all zero s t e l = (t, l, e)
  finish_all (suc k) s t e l =
      let (a, b, c) = finish_fields t.gate k e in
      finish_all k s (change_gate ops estimated (stt_finished t.gate) t) a (record {
        reach = next l.reach finish;
        fine = Step-IsFine ops estimated finish l.fine;
        waiter = l.waiter;
        last = b ∙ l.last;
        intervals = c ∙ l.intervals;
      })

  clear_fields :
      (g : LiveTranscriptionPriorityGate T)
      → ((set_upstream_pending_stt_chunks (pos 0) g).active_stt_count ≡ g.active_stt_count)
        × ((set_upstream_pending_stt_chunks (pos 0) g).upstream_pending_stt_chunks ≡ 0)
        × ((set_upstream_pending_stt_chunks (pos 0) g).last_stt_started_at ≡ g.last_stt_started_at)
        × ((set_upstream_pending_stt_chunks (pos 0) g).stt_start_intervals ≡ g.stt_start_intervals)
  unfolding set_upstream_pending_stt_chunks
  clear_fields g = (refl, refl, refl, refl)

  admit_now :
      (g : LiveTranscriptionPriorityGate T) (b : TranslationAdmission T) (w : Waiter T)
      → at_most ops b.wait_seconds nought ≡ true
      → IsAdmitted ops estimated (admit_or_race ops estimated g b w).position
  admit_now g b w h = rw h tt

  settled-IsAdmitted :
      (now : T) (g : LiveTranscriptionPriorityGate T) (w : Waiter T)
      → g.active_stt_count ≡ 0
      → g.upstream_pending_stt_chunks ≡ 0
      → IsOrdered
      → HasPaused now estimated g.last_stt_started_at g.stt_start_intervals
      → IsAdmitted ops estimated (settled ops estimated now g w).position
  settled-IsAdmitted now g w a p o h =
      rw (a, p)
        (admit_now g
          (cadence_forecast ops estimated now g.last_stt_started_at g.stt_start_intervals) w
          (cadence-no_wait now estimated g.last_stt_started_at g.stt_start_intervals o h))

  -- A system in which the waiting task has its events set and is admitted as soon as it runs.
  pub record IsReady (now : T) (s : System ops estimated) : Type 0 where
    pub idle : s.gate.idle_event ≡ true
    pub cleared : s.gate.backlog_cleared_event ≡ true
    pub admitted_next :
        (rounds : ℕ)
        → (w : Waiter T) × (run_loop ops estimated (suc rounds) now s.gate s.waiter ≡ some w)
          × IsAdmitted ops estimated w.position

  -- A waiting translation cannot be locked out: from every state that a schedule reaches there is a
  -- continuation, in which the recognitions end and the source reports that it has no backlog,
  -- after which both events of the task are set and, at a time of the clock at or behind the
  -- boundary of an extended pause where a cadence has been observed, the task is admitted when it
  -- runs.
  pub Reach-IsReady :
      {s : System ops estimated} (now : T)
      → IsOrdered
      → Reach ops estimated (begin ops estimated) s
      → HasPaused now estimated s.gate.last_stt_started_at s.gate.stt_start_intervals
      → (t : System ops estimated) × Reach ops estimated s t × (t.waiter ≡ s.waiter) × IsReady now t
  Reach-IsReady {s} now o r h =
      let (u, l, a) = finish_all s.gate.active_stt_count s s refl (record {
        reach = here;
        fine = Reach-IsFine ops estimated r;
        waiter = refl;
        last = refl;
        intervals = refl;
      }) in
      let t : System ops estimated = record u {
        gate = set_upstream_pending_stt_chunks (pos 0) u.gate;
      } in
      let (x, y, p, q) = clear_fields u.gate in
      let sound = report-IsSound ops (pos 0) u.gate l.fine.sound in
      (
        t,
        next l.reach (report (pos 0)),
        l.waiter,
        record {
          idle = sound.idle ∙ ap (λ n. n == 0) (x ∙ a);
          cleared = sound.cleared ∙ ap (λ n. n == 0) y;
          admitted_next = λ rounds. (
            settled ops estimated now t.gate t.waiter,
            run_loop-settles ops estimated rounds now t.gate t.waiter sound,
            settled-IsAdmitted now t.gate t.waiter (x ∙ a) y o (
                subst (λ last. HasPaused now estimated last t.gate.stt_start_intervals)
                  (sym (p ∙ l.last))
                  (subst (HasPaused now estimated s.gate.last_stt_started_at)
                    (sym (q ∙ l.intervals)) h)),
          );
        },
      )
