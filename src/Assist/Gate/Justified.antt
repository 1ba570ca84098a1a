-- ===== src/Assist/Gate/Justified.antt =====
-- When a translation is admitted
-- (backend/app/application/services/live_transcription_priority_gate.py).
use mathlib.Core.Path.{subst}
use ai_meeting_copilot.Prelude.{
  ℕ, zero, suc, ◌≤◌, ◌≡◌, refl, sym, ap, ◌∙◌, ◌⊎◌, inl, inr, Bool, true, false, not, ◌&&◌, Option,
  none, some, List, [], ◌∷◌, arith, ltb, leb, if◌then◌else◌, Bool-cases, is_some,
}
use ai_meeting_copilot.Assist.Gate.{
  ClockOps, TranslationAdmission, LiveTranscriptionPriorityGate, shortest, at_most, idle_boundary,
  forecast, cadence_forecast, probe, predicted_window,
}
use ai_meeting_copilot.Assist.Gate.Waiting.{
  Step, start, finish, clear, report, watch, resume, Reach, Waiter, System, admit_or_race, begin,
  IsAdmitted, Position, awaiting_idle, awaiting_backlog, racing, admitted,
}
use ai_meeting_copilot.Assist.Gate.Admitted.{settled}
use ai_meeting_copilot.Assist.Gate.Safety.{resumed, Reach-IsFine}

module _ {T : Type 0} (ops : ClockOps T) (estimated : ℕ) where
  open ops use {nought, sub, add, lt, milliseconds}

  -- A cadence has been observed: the last start, and at least one interval.
  abbrev pub Observed : T → T → List T → LiveTranscriptionPriorityGate T → Type 0
  Observed last x xs g = (g.last_stt_started_at ≡ some last) × (g.stt_start_intervals ≡ x ∷ xs)

  abbrev pub Unobserved : LiveTranscriptionPriorityGate T → Type 0
  Unobserved g = (estimated ≡ 0) ⊎ ((g.last_stt_started_at ≡ none) ⊎ (g.stt_start_intervals ≡ []))

  -- Why a translation may run at a time.
  pub data IsJustified (now : T) (g : LiveTranscriptionPriorityGate T) (a : TranslationAdmission T)
      : Type 0 where
    no_cadence : a.reason ≡ probe → Unobserved g → IsJustified now g a
    window :
        (last x : T) (xs : List T)
        → Observed last x xs g
        → a.reason ≡ predicted_window
        → a.idle_window_ms ≡ milliseconds (sub (add last (shortest ops x xs)) now)
        → estimated ≤ a.idle_window_ms
        → IsJustified now g a
    paused :
        (last x : T) (xs : List T)
        → Observed last x xs g
        → (lt now (idle_boundary ops estimated last x xs) ≡ false)
          ⊎ (lt nought (sub (idle_boundary ops estimated last x xs) now) ≡ false)
        → IsJustified now g a

  pub record IsAdmissible (now : T) (g : LiveTranscriptionPriorityGate T)
      (a : TranslationAdmission T) : Type 0 where
    pub idle : g.active_stt_count ≡ 0
    pub no_backlog : g.upstream_pending_stt_chunks ≡ 0
    pub justified : IsJustified now g a
    pub no_wait : a.wait_seconds ≡ nought
    pub deferred : a.was_deferred ≡ is_some a.deferred_reason

  true_ne_not : (b : Bool) → b ≡ true → not b ≡ true → ⊥
  true_ne_not true e h = cc
  true_ne_not false e h = cc

  not_waiting :
      (d : T) → at_most ops (if lt nought d then d else nought) nought ≡ true → lt nought d ≡ false
  not_waiting d h = elim (Bool-cases (lt nought d)) [
    | inl e ↦ absurd (true_ne_not (lt nought d) e (rw e at h))
    | inr e ↦ e
  ]

  -- What a forecast says when it does not make the task wait.
  forecast-IsJustified :
      (n : ℕ) (now last x : T) (xs : List T) (g : LiveTranscriptionPriorityGate T)
      → estimated ≡ suc n
      → Observed last x xs g
      → at_most ops (forecast ops (suc n) now last x xs).wait_seconds nought ≡ true
      → IsJustified now g (forecast ops (suc n) now last x xs)
  unfolding forecast
  forecast-IsJustified n now last x xs g e o h =
      elim (Bool-cases (
        at_most ops (sub (add last (shortest ops x xs)) now) nought
        && at_most ops (idle_boundary ops (suc n) last x xs) now)) [
          | inl p ↦ rw p (paused last x xs o (inl rw e (ground arith)))
          | inr p ↦
              elim (Bool-cases
                (leb (suc n) (milliseconds (sub (add last (shortest ops x xs)) now)))) [
                  | inl q ↦ rw (p, q) (window last x xs o refl refl rw e (ground arith))
                  | inr q ↦
                      rw (p, q) (paused last x xs o (inr rw e (not_waiting _ (rw (p, q) at h))))
                ]
        ]

  cadence-IsJustified :
      (now : T) (g : LiveTranscriptionPriorityGate T) (n : ℕ) (last : Option T) (xs : List T)
      → estimated ≡ n
      → g.last_stt_started_at ≡ last
      → g.stt_start_intervals ≡ xs
      → at_most ops (cadence_forecast ops n now last xs).wait_seconds nought ≡ true
      → IsJustified now g (cadence_forecast ops n now last xs)
  cadence-IsJustified now g zero last xs e a b h = no_cadence refl (inl e)
  cadence-IsJustified now g (suc n) none xs e a b h = no_cadence refl (inr (inl a))
  cadence-IsJustified now g (suc n) (some last) [] e a b h = no_cadence refl (inr (inr b))
  cadence-IsJustified now g (suc n) (some last) (x ∷ xs) e a b h =
      forecast-IsJustified n now last x xs g e (a, b) h

  returned_or : TranslationAdmission T → Position T → TranslationAdmission T
  returned_or a (admitted b) = b
  returned_or a _ = a

  -- What `wait_for_translation_admission` returns.
  abbrev returned : TranslationAdmission T → Waiter T → TranslationAdmission T
  returned b v = record b {
    wait_seconds = nought;
    was_deferred = v.was_deferred;
    deferred_idle_window_ms = v.deferred_idle_window_ms;
    deferred_reason = v.deferred_reason;
  }

  returned-IsJustified :
      (now : T) (g : LiveTranscriptionPriorityGate T) (b : TranslationAdmission T) (v : Waiter T)
      → IsJustified now g b
      → IsJustified now g (returned b v)
  returned-IsJustified now g b v (no_cadence e u) = no_cadence e u
  returned-IsJustified now g b v (window last x xs o e w l) = window last x xs o e w l
  returned-IsJustified now g b v (paused last x xs o p) = paused last x xs o p

  admitted_eq :
      (b w : TranslationAdmission T) (v : Waiter T)
      → admitted (returned b v) ≡ admitted w
      → returned b v ≡ w
  unfolding returned_or
  admitted_eq b w v h = ap (returned_or w) h

  racing_not_admitted : (w : TranslationAdmission T) (n : ℕ) (d : T) → racing n d ≡ admitted w → ⊥
  racing_not_admitted w n d h = cc

  admit_or_race-IsAdmissible :
      (now : T) (g : LiveTranscriptionPriorityGate T) (b w : TranslationAdmission T) (v : Waiter T)
      → v.was_deferred ≡ is_some v.deferred_reason
      → g.active_stt_count ≡ 0
      → g.upstream_pending_stt_chunks ≡ 0
      → (at_most ops b.wait_seconds nought ≡ true → IsJustified now g b)
      → (admit_or_race ops estimated g b v).position ≡ admitted w
      → IsAdmissible now g w
  admit_or_race-IsAdmissible now g b w v d i c j h =
      elim (Bool-cases (at_most ops b.wait_seconds nought)) [
        | inl e ↦ subst (IsAdmissible now g) (admitted_eq b w v (rw e at h)) (record {
          idle = i;
          no_backlog = c;
          justified = returned-IsJustified now g b v (j e);
          no_wait = refl;
          deferred = d;
        })
        | inr e ↦ absurd (racing_not_admitted w _ _ (rw e at h))
      ]

  idle_not_admitted : (w : TranslationAdmission T) → awaiting_idle ≡ admitted w → ⊥
  idle_not_admitted w h = cc

  backlog_not_admitted : (w : TranslationAdmission T) → awaiting_backlog ≡ admitted w → ⊥
  backlog_not_admitted w h = cc

  settled-IsAdmissible :
      (now : T) (g : LiveTranscriptionPriorityGate T) (w : Waiter T) (a : TranslationAdmission T)
      → w.was_deferred ≡ is_some w.deferred_reason
      → (settled ops estimated now g w).position ≡ admitted a
      → IsAdmissible now g a
  settled-IsAdmissible now g w a d h = elim (Bool-cases (ltb 0 g.active_stt_count)) [
    | inl e ↦ absurd (idle_not_admitted a (rw e at h))
    | inr e ↦ elim (Bool-cases (ltb 0 g.upstream_pending_stt_chunks)) [
      | inl p ↦ absurd (backlog_not_admitted a (rw (e, p) at h))
      | inr p ↦
          admit_or_race-IsAdmissible now g
            (cadence_forecast ops estimated now g.last_stt_started_at g.stt_start_intervals) a w d
            (ground arith) (ground arith)
            (cadence-IsJustified now g estimated g.last_stt_started_at g.stt_start_intervals refl
              refl refl)
            (rw (e, p) at h)
    ]
  ]

  still_waiting :
      (p : Position T) (a : TranslationAdmission T)
      → ¬ IsAdmitted ops estimated p
      → p ≡ admitted a
      → ⊥
  still_waiting p a m h = m (subst (IsAdmitted ops estimated) (sym h) tt)

  -- The step is a run of the waiting task in which the clock shows this time.
  abbrev pub ReadsClock : {s t : System ops estimated} → Step ops estimated s t → T → Type 0
  ReadsClock (resume now rounds w m e) time = time ≡ now
  ReadsClock _ time = ⊥

  -- In every schedule, a translation is admitted only by a run of the waiting task, and at the time
  -- that the clock shows it nothing is recognised, the source has no backlog, and there is one of
  -- three reasons: no cadence has been observed or the duration is unknown; the time until the
  -- earliest expected start is at least the estimated duration; or the boundary of an extended
  -- pause, the latest expected start with its margin, has been reached. The admission has no wait
  -- left, and says that it was deferred exactly if it has a reason for it.
  pub admitted-IsAdmissible :
      {s t : System ops estimated} (a : TranslationAdmission T)
      → Reach ops estimated (begin ops estimated) s
      → ¬ IsAdmitted ops estimated s.waiter.position
      → (step : Step ops estimated s t) → t.waiter.position ≡ admitted a
      → (now : T) × ReadsClock step now × IsAdmissible now s.gate a
  admitted-IsAdmissible {s} a r m (start now) h = absurd (still_waiting s.waiter.position a m h)
  admitted-IsAdmissible {s} a r m finish h = absurd (still_waiting s.waiter.position a m h)
  admitted-IsAdmissible {s} a r m clear h = absurd (still_waiting s.waiter.position a m h)
  admitted-IsAdmissible {s} a r m (report n) h = absurd (still_waiting s.waiter.position a m h)
  admitted-IsAdmissible {s} a r m (watch generation wait e) h =
      absurd (still_waiting s.waiter.position a m h)
  admitted-IsAdmissible {s} a r m (resume now rounds w _ e) h = (
    now,
    refl,
    settled-IsAdmissible now s.gate s.waiter a (Reach-IsFine ops estimated r).waiter.deferred (
        ap (λ v. v.position)
          (resumed ops estimated rounds now s.gate s.waiter w (Reach-IsFine ops estimated r).sound
            e)
        ∙ h),
  )
