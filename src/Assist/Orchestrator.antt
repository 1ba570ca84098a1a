-- ===== src/Assist/Orchestrator.antt =====
-- The orchestrator of the enrichment of transcript segments: its data and the parts of its methods
-- between two suspensions (backend/app/application/services/assist_mode_orchestrator.py,
-- backend/app/application/dto/assist_mode/assist_update.py, backend/app/application/dto/ai/simplification.py).
pub mod Work
pub mod Session
pub mod Sound
pub mod Queue
pub mod Kept
pub mod Published
pub mod Races
pub mod Translated
pub mod Processed
pub mod Methods
pub mod Lists
pub mod Safe
pub mod Silent
pub mod Whole
use ai_meeting_copilot.Prelude.{
  ℕ, ◌+◌, max, Bool, true, false, not, ◌&&◌, ◌||◌, Option, none, some, List, [], ◌∷◌, ◌++◌, arith,
  ltb, leb, ◌==◌, if◌then◌else◌, is_some, length, application_validation, runtime_error,
  other_error, Result, err, ok, Text, is_blank,
}
use ai_meeting_copilot.Exec.{Exec, lift, attempt, ◌>>=◌, ◌>>◌}
use ai_meeting_copilot.Assist.Context.{TranscriptSegment}
use ai_meeting_copilot.Assist.Gate.{LiveTranscriptionPriorityGate}

pub data AssistCapability : Type 0 where
  translation simplification reply_coaching : AssistCapability

pub data AssistState : Type 0 where
  processing ready failed unavailable : AssistState

-- `AssistUpdate`; of the reply suggestions their number
pub record AssistUpdate : Type 0 where
  pub transcript_id : ℕ
  pub capability : AssistCapability
  pub state : AssistState
  pub translated_text : Option Text
  pub simplified_text : Option Text
  pub reply_suggestions : Option ℕ

abbrev pub is_blank_text : Option Text → Bool
is_blank_text none = false
is_blank_text (some t) = is_blank t

abbrev pub is_ready : AssistState → Bool
is_ready ready = true
is_ready _ = false

abbrev pub has_expected_payload : AssistUpdate → AssistCapability → Bool
has_expected_payload u translation = is_some u.translated_text
has_expected_payload u simplification = is_some u.simplified_text
has_expected_payload u reply_coaching = is_some u.reply_suggestions

abbrev pub has_valid_suggestions : Option ℕ → Bool
has_valid_suggestions none = true
has_valid_suggestions (some n) = ltb 0 n && leb n 2

-- `AssistUpdate.__post_init__`
unfoldable pub assist_update_post_init : AssistUpdate → Result AssistUpdate
assist_update_post_init u =
    if is_blank_text u.translated_text
      || is_blank_text u.simplified_text
      || not (has_valid_suggestions u.reply_suggestions)
      || (is_ready u.state && not (has_expected_payload u u.capability))
    then err application_validation
    else ok u

-- `AssistUpdate` with the defaults of its last fields
abbrev pub update_without_payload : ℕ → AssistCapability → AssistState → AssistUpdate
update_without_payload id capability state = record {
  transcript_id = id;
  capability = capability;
  state = state;
  translated_text = none;
  simplified_text = none;
  reply_suggestions = none;
}

pub data GermanLevel : Type 0 where
  level_a2 level_b1 level_b2 level_c1 : GermanLevel

pub record AssistModeConfiguration : Type 0 where
  pub translation_enabled : Bool
  pub simplification_enabled : Bool
  pub simplification_level : Option GermanLevel
  pub reply_coaching_enabled : Bool
  pub max_queue_size : ℕ

abbrev pub is_level_allowed : Option GermanLevel → Bool
is_level_allowed (some level_b1) = true
is_level_allowed (some level_b2) = true
is_level_allowed _ = false

-- `AssistModeConfiguration.__post_init__`
unfoldable pub configuration_post_init : AssistModeConfiguration → Result AssistModeConfiguration
configuration_post_init c =
    if c.simplification_enabled && not (is_level_allowed c.simplification_level)
      || (c.max_queue_size == 0)
    then err application_validation
    else ok c

pub data AssistModeLifecycleState : Type 0 where
  stopped running failed_state stopping : AssistModeLifecycleState

pub record QueuedAssistSegment : Type 0 where
  pub ordinal : ℕ
  pub segment : TranscriptSegment

-- `AssistModeOrchestrator`; of the worker whether there is a reference to it and whether the task
-- is done
pub record AssistModeOrchestrator (T : Type 0) : Type 0 where
  pub configuration : AssistModeConfiguration
  pub context : List TranscriptSegment
  pub queue : List QueuedAssistSegment
  pub has_worker : Bool
  pub is_worker_done : Bool
  pub state : AssistModeLifecycleState
  pub is_terminated : Bool
  pub received_segment_count : ℕ
  pub priority_gate : LiveTranscriptionPriorityGate T
  pub latest_translation_ordinal : Option ℕ
  pub active_translation_ordinal : Option ℕ
  pub completed_translation_durations_ms : List ℕ

abbrev pub is_running : AssistModeLifecycleState → Bool
is_running running = true
is_running _ = false

abbrev pub is_failed : AssistModeLifecycleState → Bool
is_failed failed_state = true
is_failed _ = false

abbrev pub is_some_equal : Option ℕ → ℕ → Bool
is_some_equal none n = false
is_some_equal (some m) n = m == n

-- `_translation_only_session`
abbrev pub is_translation_only : AssistModeConfiguration → Bool
is_translation_only c =
    c.translation_enabled && not c.simplification_enabled && not c.reply_coaching_enabled

-- `_enabled_capabilities`
abbrev pub included : Bool → AssistCapability → List AssistCapability
included b c = if b then c ∷ [] else []

unfoldable pub enabled_capabilities : AssistModeConfiguration → List AssistCapability
enabled_capabilities c =
    included c.translation_enabled translation
    ++ (included c.reply_coaching_enabled reply_coaching
        ++ included c.simplification_enabled simplification)

-- `_estimated_translation_duration_ms`
abbrev pub slowest : List ℕ → ℕ
slowest [] = 0
slowest (n ∷ ns) = max n (slowest ns)

abbrev pub estimated_translation_duration_ms : List ℕ → Option ℕ
estimated_translation_duration_ms [] = none
estimated_translation_duration_ms (n ∷ ns) = some (slowest (n ∷ ns))

module _ {T : Type 0} where
  abbrev pub fresh_orchestrator :
      AssistModeConfiguration → LiveTranscriptionPriorityGate T → AssistModeOrchestrator T
  fresh_orchestrator c gate = record {
    configuration = c;
    context = [];
    queue = [];
    has_worker = false;
    is_worker_done = false;
    state = stopped;
    is_terminated = false;
    received_segment_count = 0;
    priority_gate = gate;
    latest_translation_ordinal = none;
    active_translation_ordinal = none;
    completed_translation_durations_ms = [];
  }

  -- `AssistModeOrchestrator.__init__`, from the use cases that are given and the gate
  unfoldable pub new_orchestrator :
      AssistModeConfiguration
      → (has_translation has_simplification has_replies : Bool) → LiveTranscriptionPriorityGate T
      → Result (AssistModeOrchestrator T)
  new_orchestrator c has_translation has_simplification has_replies gate =
      if c.translation_enabled && not has_translation
        || (c.simplification_enabled && not has_simplification)
        || (c.reply_coaching_enabled && not has_replies)
      then err application_validation
      else ok (fresh_orchestrator c gate)

  -- `asyncio.Queue.put_nowait`, which raises `QueueFull`, and `get_nowait`
  abbrev pub put_nowait : QueuedAssistSegment → Exec (AssistModeOrchestrator T) (Unit {0})
  put_nowait q s =
      if leb s.configuration.max_queue_size (length s.queue)
      then (err other_error, s)
      else (ok tt, record s { queue = s.queue ++ (q ∷ []) })

  abbrev pub take_head :
      List QueuedAssistSegment → Exec (AssistModeOrchestrator T) (Option QueuedAssistSegment)
  take_head [] s = (ok none, s)
  take_head (q ∷ qs) s = (ok (some q), record s { queue = qs })

  abbrev pub get_nowait : Exec (AssistModeOrchestrator T) (Option QueuedAssistSegment)
  get_nowait s = take_head s.queue s

  abbrev pub set_latest : Option ℕ → AssistModeOrchestrator T → AssistModeOrchestrator T
  set_latest o s = record s { latest_translation_ordinal = o }

  -- `_record_translation_pending`, when the translation is enabled
  abbrev pub record_translation_pending : Exec (AssistModeOrchestrator T) (Unit {0})
  record_translation_pending s = (
    ok tt,
    set_latest
        (if s.configuration.translation_enabled
          then some s.received_segment_count
          else s.latest_translation_ordinal)
        s,
  )

  abbrev pub received : Exec (AssistModeOrchestrator T) (Unit {0})
  received s = (ok tt, record s { received_segment_count = s.received_segment_count + 1 })

  abbrev pub put_or_drop :
      QueuedAssistSegment → Exec (AssistModeOrchestrator T) (Option QueuedAssistSegment)
  unfolding attempt
  put_or_drop q =
      attempt (put_nowait q >> lift (ok none))
        (λ _. do dropped ← get_nowait; put_nowait q; lift (ok dropped))

  -- `enqueue` up to its first suspension: the segment that was dropped
  unfoldable pub queue_segment :
      TranscriptSegment → Exec (AssistModeOrchestrator T) (Option QueuedAssistSegment)
  unfolding ◌>>=◌
  queue_segment segment s =
      let count = s.received_segment_count + 1 in
      let q : QueuedAssistSegment = record { ordinal = count; segment = segment } in
      if not (is_running s.state)
      then (err runtime_error, s)
      else if is_translation_only s.configuration
      then (received
            >> record_translation_pending
            >> (get_nowait >>= λ dropped. put_nowait q >> lift (ok dropped)))
          s
      else (received >> record_translation_pending >> put_or_drop q) s
