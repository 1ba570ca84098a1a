-- ===== src/Assist/Orchestrator/Sound.antt =====
-- What holds of the orchestrator between two steps
-- (backend/app/application/services/assist_mode_orchestrator.py).
use ai_meeting_copilot.Prelude.{
  ℕ, ◌+◌, ◌≤◌, ◌<◌, ◌≡◌, Bool, true, false, Option, none, some, List, [], ◌∷◌, ◌++◌, arith,
  if◌then◌else◌, length,
}
use ai_meeting_copilot.Assist.Context.{TranscriptSegment}
use ai_meeting_copilot.Assist.Context.Longest.{Fits}
use ai_meeting_copilot.Assist.Orchestrator.{
  AssistModeConfiguration, QueuedAssistSegment, AssistModeOrchestrator, is_running,
  is_translation_only, AssistModeLifecycleState,
}

-- How many segments may wait: the newest, when only translations are made.
abbrev pub capacity : AssistModeConfiguration → ℕ
capacity c = if is_translation_only c then 1 else c.max_queue_size

-- Ordinals that climb, each above the one bound and the last at most the other
abbrev pub Climbs : ℕ → List QueuedAssistSegment → ℕ → Type 0
Climbs low [] high = low ≤ high
Climbs low (q ∷ qs) high = (low < q.ordinal) × Climbs q.ordinal qs high

pub Climbs-weaken :
    (low lower high : ℕ) (qs : List QueuedAssistSegment)
    → lower ≤ low
    → Climbs low qs high
    → Climbs lower qs high
Climbs-weaken low lower high [] l h = omega arith
Climbs-weaken low lower high (q ∷ qs) l h = (omega (arith, h.0), h.1)

pub Climbs-append :
    (low high : ℕ) (qs : List QueuedAssistSegment) (q : QueuedAssistSegment)
    → q.ordinal ≡ high + 1
    → Climbs low qs high
    → Climbs low (qs ++ (q ∷ [])) (high + 1)
Climbs-append low high [] q e h = (omega arith, omega arith)
Climbs-append low high (p ∷ qs) q e h = (h.0, Climbs-append p.ordinal high qs q e h.1)

pub Climbs-tail :
    (low high : ℕ) (q : QueuedAssistSegment) (qs : List QueuedAssistSegment)
    → Climbs low (q ∷ qs) high
    → Climbs low qs high
Climbs-tail low high q qs h = Climbs-weaken q.ordinal low high qs (omega (arith, h.0)) h.1

pub Climbs-below : (low high : ℕ) (qs : List QueuedAssistSegment) → Climbs low qs high → low ≤ high
Climbs-below low high [] h = h
Climbs-below low high (q ∷ qs) h = omega (arith, h.0, Climbs-below q.ordinal high qs h.1)

abbrev pub IsAtMost : ℕ → Option ℕ → Type 0
IsAtMost n none = Unit
IsAtMost n (some m) = m ≤ n

-- What holds of a session between two steps: only a running session has a queue, whose size is
-- bounded and whose ordinals climb to the number of segments received; a terminated session does
-- not run; the newest translation was received; the context and the durations are bounded.
pub record IsSoundSession (configuration : AssistModeConfiguration)
    (state : AssistModeLifecycleState) (queue : List QueuedAssistSegment) (is_terminated : Bool)
    (received_segment_count : ℕ) (latest_ordinal : Option ℕ) (context : List TranscriptSegment)
    (durations : List ℕ) : Type 0 where
  pub positive : 0 < configuration.max_queue_size
  pub idle : is_running state ≡ false → queue ≡ []
  pub bounded : length queue ≤ capacity configuration
  pub climbs : Climbs 0 queue received_segment_count
  pub terminated : is_terminated ≡ true → is_running state ≡ false
  pub latest : IsAtMost received_segment_count latest_ordinal
  pub fits : Fits context
  pub few : length durations ≤ 4

abbrev pub IsSound : {T : Type 0} → AssistModeOrchestrator T → Type 0
IsSound s =
    IsSoundSession s.configuration s.state s.queue s.is_terminated s.received_segment_count
      s.latest_translation_ordinal s.context s.completed_translation_durations_ms
