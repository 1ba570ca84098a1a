-- ===== src/Tests/Gates.antt =====
-- The theorems about the gate at a clock that counts milliseconds.
use ai_meeting_copilot.Prelude.{ℕ, ◌+◌, ◌-◌, ◌≡◌, refl, false, some, arith, ltb}
use ai_meeting_copilot.Assist.Gate.{
  ClockOps, TranslationAdmission, LiveTranscriptionPriorityGate, new_gate, stt_finished, admission,
  stt_started, forecast, translation_admission, predicted_window,
}
use ai_meeting_copilot.Assist.Gate.Waiting.{
  Step, start, finish, resume, Reach, here, next, Waiter, System, run_loop, new_waiter, begin,
  fresh, admitted,
}
use ai_meeting_copilot.Assist.Gate.Admitted.{settled}
use ai_meeting_copilot.Assist.Gate.Safety.{IsFine, Reach-IsFine, Reach-settles}
use ai_meeting_copilot.Assist.Gate.Justified.{IsAdmissible, ReadsClock, admitted-IsAdmissible}
use ai_meeting_copilot.Assist.Gate.Progress.{IsOrdered, IsReady, Reach-IsReady}

abbrev pub clock : ClockOps ℕ
clock = record {
  nought = 0;
  add = λ a b. a + b;
  sub = λ a b. a - b;
  lt = ltb;
  milliseconds = λ a. a;
  of_milliseconds = λ a. a;
}

reached : (now b : ℕ) → ltb now b ≡ false → ltb 0 (b - now) ≡ false
reached now b h = ground arith

clock-IsOrdered : IsOrdered clock 500
clock-IsOrdered = record { irreflexive = refl; reached = reached }

-- Recognition starts at 1000 and at 3000, and ends each time.
abbrev gate_after : LiveTranscriptionPriorityGate ℕ
gate_after = stt_finished (stt_started clock 3000 (stt_finished (stt_started clock 1000 new_gate)))

abbrev after : System clock 500
after = record { gate = gate_after; waiter = new_waiter clock 500; watch = fresh }

after_reached : Reach clock 500 (begin clock 500) after
unfolding stt_finished stt_started new_gate
after_reached = next (next (next (next here (start 1000)) finish) (start 3000)) finish

Reach-IsFine_example : IsFine clock 500 after
Reach-IsFine_example = Reach-IsFine clock 500 after_reached

Reach-settles_example :
    run_loop clock 500 8 3100 after.gate after.waiter
    ≡ some (settled clock 500 3100 after.gate after.waiter)
Reach-settles_example = Reach-settles clock 500 3100 7 after_reached

abbrev window_admission : TranslationAdmission ℕ
window_admission = admission predicted_window 1900 0 500

abbrev admitted_waiter : Waiter ℕ
admitted_waiter = record (new_waiter clock 500) { position = admitted window_admission }

admitted_at_once : run_loop clock 500 1 3100 gate_after after.waiter ≡ some admitted_waiter
unfolding run_loop translation_admission forecast stt_finished stt_started new_gate
admitted_at_once = refl

abbrev admitting : Step clock 500 after (record after { waiter = admitted_waiter; watch = fresh })
admitting = resume 3100 1 admitted_waiter (λ h. h) admitted_at_once

admitted-IsAdmissible_example :
    (now : ℕ) × ReadsClock clock 500 admitting now
    × IsAdmissible clock 500 now gate_after window_admission
admitted-IsAdmissible_example =
    admitted-IsAdmissible clock 500 window_admission after_reached (λ h. h) admitting refl

Reach-IsReady_example :
    (t : System clock 500) × Reach clock 500 after t
    × (t.waiter ≡ new_waiter clock 500)
    × IsReady clock 500 9000 t
unfolding stt_finished stt_started new_gate
Reach-IsReady_example = Reach-IsReady clock 500 9000 clock-IsOrdered after_reached refl
