-- ===== src/Assist/Gate/Admitted.antt =====
-- The task that waits for an admission, over all schedules
-- (backend/app/application/services/live_transcription_priority_gate.py).
use ai_meeting_copilot.Prelude.{
  ℕ, zero, suc, ◌≤◌, ◌<◌, ◌≡◌, refl, inl, inr, Bool, true, false, Option, none, some, List, [], ◌∷◌,
  arith, ltb, ◌==◌, if◌then◌else◌, Bool-cases, is_some, ℤ, pos, negsuc,
}
use ai_meeting_copilot.Assist.Gate.{
  ClockOps, TranslationAdmission, LiveTranscriptionPriorityGate, is_backlog,
  set_upstream_pending_stt_chunks, stt_finished, stt_started, at_most, forecast, cadence_forecast,
  translation_admission, TranslationAdmissionReason, upstream_backlog,
}
use ai_meeting_copilot.Assist.Gate.Waiting.{
  Waiter, or_reason, watch_from, without_activity, run_watch, notified, admit_or_race, run_loop,
  Watch, fresh, asleep, woken, finished, Position, awaiting_idle, awaiting_backlog, racing,
  admitted,
}
use ai_meeting_copilot.Assist.Gate.Sound.{IsSound}

module _ {T : Type 0} where
  -- What the inner task of a race knows of the starts after its generation.
  abbrev pub Watches : LiveTranscriptionPriorityGate T → ℕ → Watch → Type 0
  Watches g generation fresh = generation ≤ g.stt_start_generation
  Watches g generation asleep = (generation ≡ g.stt_start_generation) × (g.activity_event ≡ false)
  Watches g generation woken = generation ≤ g.stt_start_generation
  Watches g generation finished = generation < g.stt_start_generation

  abbrev pub Races : LiveTranscriptionPriorityGate T → Watch → Position T → Type 0
  Races g w (racing generation wait) = Watches g generation w
  Races g w _ = Unit

  watch_from-Watches :
      (g : LiveTranscriptionPriorityGate T) (generation : ℕ)
      → generation ≤ g.stt_start_generation
      → Watches
          (if g.stt_start_generation == generation then without_activity g else g)
          generation
          (watch_from generation g)
  watch_from-Watches g generation h = elim (Bool-cases (g.stt_start_generation == generation)) [
    | inl e ↦ rw e (ground arith, refl)
    | inr e ↦ rw e (ground arith)
  ]

  woken-Watches :
      (g : LiveTranscriptionPriorityGate T) (generation : ℕ)
      → generation ≤ g.stt_start_generation
      → Watches (without_activity g) generation (watch_from generation g)
  woken-Watches g generation h = elim (Bool-cases (g.stt_start_generation == generation)) [
    | inl e ↦ rw e (ground arith, refl)
    | inr e ↦ rw e (ground arith)
  ]

  pub run_watch-Watches :
      (g : LiveTranscriptionPriorityGate T) (generation : ℕ) (w : Watch)
      → Watches g generation w
      → Watches (run_watch generation w g).1 generation (run_watch generation w g).0
  unfolding run_watch
  run_watch-Watches g generation fresh h = watch_from-Watches g generation h
  run_watch-Watches g generation asleep h = h
  run_watch-Watches g generation woken h = woken-Watches g generation h
  run_watch-Watches g generation finished h = h

  pub finish-Races :
      (g : LiveTranscriptionPriorityGate T) (w : Watch) (p : Position T)
      → Races g w p
      → Races (stt_finished g) (notified g (stt_finished g) w) p
  unfolding stt_finished
  finish-Races g fresh (racing generation wait) h = ground arith
  finish-Races g asleep (racing generation wait) h = elim (Bool-cases (g.active_stt_count == 0)) [
    | inl e ↦ rw (e, h.1) (h.0, refl)
    | inr e ↦ rw (e, h.1) (ground arith)
  ]
  finish-Races g woken (racing generation wait) h = ground arith
  finish-Races g finished (racing generation wait) h = ground arith
  finish-Races g w awaiting_idle h = tt
  finish-Races g w awaiting_backlog h = tt
  finish-Races g w (admitted a) h = tt

  pub report-Races :
      (n : ℤ) (g : LiveTranscriptionPriorityGate T) (w : Watch) (p : Position T)
      → Races g w p
      → Races (set_upstream_pending_stt_chunks n g) w p
  unfolding set_upstream_pending_stt_chunks
  report-Races (negsuc n) g w p h = h
  report-Races (pos n) g fresh (racing generation wait) h = h
  report-Races (pos n) g asleep (racing generation wait) h = h
  report-Races (pos n) g woken (racing generation wait) h = h
  report-Races (pos n) g finished (racing generation wait) h = h
  report-Races (pos n) g w awaiting_idle h = tt
  report-Races (pos n) g w awaiting_backlog h = tt
  report-Races (pos n) g w (admitted a) h = tt

  pub clear-Races :
      (g : LiveTranscriptionPriorityGate T) (w : Watch) (p : Position T)
      → Races g w p
      → Races (without_activity g) w p
  clear-Races g fresh (racing generation wait) h = h
  clear-Races g asleep (racing generation wait) h = (h.0, refl)
  clear-Races g woken (racing generation wait) h = h
  clear-Races g finished (racing generation wait) h = h
  clear-Races g w awaiting_idle h = tt
  clear-Races g w awaiting_backlog h = tt
  clear-Races g w (admitted a) h = tt

  pub start-Races :
      (ops : ClockOps T) (now : T) (g : LiveTranscriptionPriorityGate T) (w : Watch)
      (p : Position T)
      → Races g w p
      → Races (stt_started ops now g) (notified g (stt_started ops now g) w) p
  unfolding stt_started
  start-Races ops now g fresh (racing generation wait) h = ground arith
  start-Races ops now g asleep (racing generation wait) h = rw h.1 (omega (arith, h.0))
  start-Races ops now g woken (racing generation wait) h = ground arith
  start-Races ops now g finished (racing generation wait) h = ground arith
  start-Races ops now g w awaiting_idle h = tt
  start-Races ops now g w awaiting_backlog h = tt
  start-Races ops now g w (admitted a) h = tt

  -- The local variables agree, and so does a race with the gate.
  pub record IsWaiter (g : LiveTranscriptionPriorityGate T) (w : Waiter T) (v : Watch)
      : Type 0 where
    pub deferred : w.was_deferred ≡ is_some w.deferred_reason
    pub races : Races g v w.position

module _ {T : Type 0} (ops : ClockOps T) (estimated : ℕ) where
  open ops use {nought, lt}

  pub deferred_some :
      (o : Option TranslationAdmissionReason) (r : TranslationAdmissionReason)
      → is_some (or_reason o r) ≡ true
  deferred_some none r = refl
  deferred_some (some q) r = refl

  pub admit_or_race-IsWaiter :
      (g : LiveTranscriptionPriorityGate T) (a : TranslationAdmission T) (w : Waiter T)
      → w.was_deferred ≡ is_some w.deferred_reason
      → IsWaiter g (admit_or_race ops estimated g a w) fresh
  admit_or_race-IsWaiter g a w h = elim (Bool-cases (at_most ops a.wait_seconds nought)) [
    | inl e ↦ rw e (record { deferred = h; races = tt })
    | inr e ↦ rw e (record { deferred = refl; races = omega arith })
  ]

  forecast_not_backlog :
      (now last x : T) (xs : List T) (n : ℕ)
      → is_backlog (forecast ops n now last x xs).reason ≡ false
  unfolding forecast
  forecast_not_backlog now last x xs n = ground arith

  cadence_not_backlog :
      (now : T) (n : ℕ) (last : Option T) (xs : List T)
      → is_backlog (cadence_forecast ops n now last xs).reason ≡ false
  cadence_not_backlog now zero last xs = refl
  cadence_not_backlog now (suc n) none xs = refl
  cadence_not_backlog now (suc n) (some last) [] = refl
  cadence_not_backlog now (suc n) (some last) (x ∷ xs) = forecast_not_backlog now last x xs (suc n)

  -- Where the loop of `wait_for_translation_admission` leaves the task, told without a loop.
  abbrev pub settled : T → LiveTranscriptionPriorityGate T → Waiter T → Waiter T
  settled now g w =
      if ltb 0 g.active_stt_count
      then record w { position = awaiting_idle }
      else if ltb 0 g.upstream_pending_stt_chunks
      then record w {
        position = awaiting_backlog;
        was_deferred = true;
        deferred_reason = or_reason w.deferred_reason upstream_backlog;
      }
      else admit_or_race ops estimated g
          (cadence_forecast ops estimated now g.last_stt_started_at g.stt_start_intervals) w

  zero_of_positive : (b : Bool) (n : ℕ) → b ≡ (n == 0) → ltb 0 n ≡ true → b ≡ false
  zero_of_positive b n h e = ground arith

  pub run_loop-settles :
      (rounds : ℕ) (now : T) (g : LiveTranscriptionPriorityGate T) (w : Waiter T)
      → IsSound ops g
      → run_loop ops estimated (suc rounds) now g w ≡ some (settled now g w)
  unfolding run_loop translation_admission
  run_loop-settles rounds now g w h = elim (Bool-cases (ltb 0 g.active_stt_count)) [
    | inl e ↦ rw (e, zero_of_positive g.idle_event g.active_stt_count h.idle e) refl
    | inr e ↦ rw e (elim (Bool-cases (ltb 0 g.upstream_pending_stt_chunks)) [
      | inl p ↦
          rw (p, zero_of_positive g.backlog_cleared_event g.upstream_pending_stt_chunks h.cleared p)
            refl
      | inr p ↦
          rw (p, cadence_not_backlog now estimated g.last_stt_started_at g.stt_start_intervals) refl
    ])
  ]
