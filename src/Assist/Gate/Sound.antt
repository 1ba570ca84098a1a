-- ===== src/Assist/Gate/Sound.antt =====
-- What holds of the gate and of the task that waits for it, at every time
-- (backend/app/application/services/live_transcription_priority_gate.py).
use ai_meeting_copilot.Prelude.{
  ℕ, zero, suc, ◌-◌, ◌≤◌, ◌≡◌, refl, inl, inr, true, Option, none, some, List, [], ◌∷◌, ◌++◌, arith,
  ◌==◌, Bool-cases, length, drop, length-drop, ℤ, pos, negsuc,
}
use ai_meeting_copilot.Assist.Gate.{
  ClockOps, LiveTranscriptionPriorityGate, cadence_history_size, new_gate,
  set_upstream_pending_stt_chunks, stt_finished, with_interval, stt_started,
}
use ai_meeting_copilot.Assist.Gate.Waiting.{
  without_activity, run_watch, Watch, fresh, asleep, woken, finished,
}

module _ {T : Type 0} (ops : ClockOps T) where
  open ops use {nought, lt}

  abbrev pub Positive : List T → Type 0
  Positive [] = Unit
  Positive (x ∷ xs) = (lt nought x ≡ true) × Positive xs

  -- The events say what the counters say, and the history is short and of positive intervals.
  pub record IsSound (g : LiveTranscriptionPriorityGate T) : Type 0 where
    pub idle : g.idle_event ≡ (g.active_stt_count == 0)
    pub cleared : g.backlog_cleared_event ≡ (g.upstream_pending_stt_chunks == 0)
    pub bounded : length g.stt_start_intervals ≤ cadence_history_size
    pub positive : Positive g.stt_start_intervals

  Positive-drop : (n : ℕ) (xs : List T) → Positive xs → Positive (drop n xs)
  Positive-drop zero xs h = h
  Positive-drop (suc n) [] h = tt
  Positive-drop (suc n) (x ∷ xs) h = Positive-drop n xs h.1

  Positive-append :
      (xs : List T) (x : T) → Positive xs → lt nought x ≡ true → Positive (xs ++ (x ∷ []))
  Positive-append [] x h e = (e, tt)
  Positive-append (y ∷ xs) x h e = (h.0, Positive-append xs x h.1 e)

  pub new_gate-IsSound : IsSound new_gate
  unfolding new_gate
  new_gate-IsSound = record { idle = refl; cleared = refl; bounded = omega arith; positive = tt }

  pub finish-IsSound : (g : LiveTranscriptionPriorityGate T) → IsSound g → IsSound (stt_finished g)
  unfolding stt_finished
  finish-IsSound g h = ground arith

  pub report-IsSound :
      (n : ℤ) (g : LiveTranscriptionPriorityGate T)
      → IsSound g
      → IsSound (set_upstream_pending_stt_chunks n g)
  unfolding set_upstream_pending_stt_chunks
  report-IsSound (negsuc n) g h = h
  report-IsSound (pos n) g h = record {
    idle = h.idle;
    cleared = refl;
    bounded = h.bounded;
    positive = h.positive;
  }

  pub watch-IsSound :
      (generation : ℕ) (w : Watch) (g : LiveTranscriptionPriorityGate T)
      → IsSound g
      → IsSound (run_watch generation w g).1
  unfolding run_watch
  watch-IsSound generation fresh g h = ground arith
  watch-IsSound generation asleep g h = h
  watch-IsSound generation woken g h = ground arith
  watch-IsSound generation finished g h = h

  pub clear-IsSound :
      (g : LiveTranscriptionPriorityGate T) → IsSound g → IsSound (without_activity g)
  clear-IsSound g h = record {
    idle = h.idle;
    cleared = h.cleared;
    bounded = h.bounded;
    positive = h.positive;
  }

  with_interval-bounded :
      (last : Option T) (now : T) (xs : List T)
      → length xs ≤ cadence_history_size
      → Positive xs
      → (length (with_interval ops last now xs) ≤ cadence_history_size)
        × Positive (with_interval ops last now xs)
  with_interval-bounded none now xs h p = (h, p)
  with_interval-bounded (some last) now xs h p = elim (Bool-cases (lt nought (ops.sub now last))) [
    | inl e ↦ rw e (
      omega (
        arith,
        length-drop (length (xs ++ (ops.sub now last ∷ [])) - cadence_history_size)
            (xs ++ (ops.sub now last ∷ [])),
      ),
      Positive-drop _ _ (Positive-append xs (ops.sub now last) p e),
    )
    | inr e ↦ rw e (h, p)
  ]

  pub start-IsSound :
      (now : T) (g : LiveTranscriptionPriorityGate T) → IsSound g → IsSound (stt_started ops now g)
  unfolding stt_started
  start-IsSound now g h =
      let (b, p) =
        with_interval-bounded g.last_stt_started_at now g.stt_start_intervals h.bounded
          h.positive in
      record { idle = ground arith; cleared = h.cleared; bounded = b; positive = p }
