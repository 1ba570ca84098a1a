-- ===== src/Assist/Orchestrator/Queue.antt =====
-- The queue of the orchestrator
-- (backend/app/application/services/assist_mode_orchestrator.py).
use mathlib.Core.Path.{subst}
use ai_meeting_copilot.Prelude.{
  ℕ, suc, ◌+◌, ◌-◌, ◌≤◌, ◌<◌, ◌≡◌, refl, sym, ◌∙◌, ◌⊎◌, inl, inr, true, false, Option, none, some,
  List, [], ◌∷◌, ◌++◌, arith, ltb, leb, if◌then◌else◌, Bool-cases, length, get_elem?, take_last,
  length-append, ok-injective, raise_if-ok, application_validation, ok,
}
use ai_meeting_copilot.Exec.{attempt, ◌>>=◌}
use ai_meeting_copilot.Assist.Context.{TranscriptSegment, trim_count, trim_text, add}
use ai_meeting_copilot.Assist.Context.Longest.{Fits, add-longest}
use ai_meeting_copilot.Assist.Orchestrator.{
  QueuedAssistSegment, AssistModeOrchestrator, is_running, is_translation_only, queue_segment,
}
use ai_meeting_copilot.Assist.Orchestrator.Sound.{capacity, IsSound}

module _ {T : Type 0} where
  -- The new segment in a session.
  abbrev pub next_segment : TranscriptSegment → AssistModeOrchestrator T → QueuedAssistSegment
  next_segment segment s = record { ordinal = s.received_segment_count + 1; segment = segment }

  -- A session with one more segment received, and with that queue
  abbrev pub with_received :
      List QueuedAssistSegment → AssistModeOrchestrator T → AssistModeOrchestrator T
  with_received qs s = record s {
    received_segment_count = s.received_segment_count + 1;
    latest_translation_ordinal =
        if s.configuration.translation_enabled
        then some (s.received_segment_count + 1)
        else s.latest_translation_ordinal;
    queue = qs;
  }

  abbrev pub newest : TranscriptSegment → AssistModeOrchestrator T → List QueuedAssistSegment
  newest segment s = take_last (capacity s.configuration) (s.queue ++ (next_segment segment s ∷ []))

  -- The segment that has no place any more
  abbrev pub displaced : AssistModeOrchestrator T → Option QueuedAssistSegment
  displaced s =
      if leb (capacity s.configuration) (length s.queue) then get_elem? s.queue 0 else none

pub at_most_one {ℓ} :
    {A : Type ℓ} (xs : List A) → length xs ≤ 1 → (xs ≡ []) ⊎ ((x : A) × (xs ≡ x ∷ []))
at_most_one [] h = inl refl
at_most_one (x ∷ []) h = inr (x, refl)
at_most_one (x ∷ y ∷ ys) h = absurd (omega (arith, h))

pub head_and_tail {ℓ} :
    {A : Type ℓ} (xs : List A) → 0 < length xs → (x : A) × (ys : List A) × (xs ≡ x ∷ ys)
head_and_tail [] h = absurd (omega (arith, h))
head_and_tail (x ∷ xs) h = (x, xs, refl)

pub take_last-all {ℓ} : {A : Type ℓ} (n : ℕ) (xs : List A) → length xs ≤ n → take_last n xs ≡ xs
take_last-all n xs h = let e : length xs - n ≡ 0 = omega (arith, h) in rw e refl

pub take_last-tail {ℓ} :
    {A : Type ℓ} (n : ℕ) (x : A) (xs : List A) → length xs ≡ n → take_last n (x ∷ xs) ≡ xs
take_last-tail n x xs h = let e : suc (length xs) - n ≡ 1 = omega (arith, h) in rw e refl

pub positive-leb : (n : ℕ) → 0 < n → leb n 0 ≡ false
positive-leb n h = ground arith

leb-at_most : (n m : ℕ) → leb n m ≡ true → n ≤ m
leb-at_most n m h = ground arith

leb-above : (n m : ℕ) → leb n m ≡ false → m < n
leb-above n m h = ground arith

leb-below : (n m : ℕ) → suc m ≤ n → leb n m ≡ false
leb-below n m h = ground arith

leb-positive : (n m : ℕ) → 0 < n → leb n m ≡ true → 0 < m
leb-positive n m p h = ground arith

module _ {T : Type 0} where
  -- A running session in a sound state takes every segment, and `QueueFull` is never raised: the
  -- queue is then the newest segments for which there is room, the count of received segments is
  -- one larger, the translation that is wanted is that of the new segment if translation is
  -- enabled, and the segment that has lost its place is returned.
  pub queue_segment-newest :
      (segment : TranscriptSegment) (s : AssistModeOrchestrator T)
      → IsSound s
      → is_running s.state ≡ true
      → queue_segment segment s ≡ (ok (displaced s), with_received (newest segment s) s)
  unfolding queue_segment ◌>>=◌ attempt
  queue_segment-newest segment s h run =
      rw run (elim (Bool-cases (is_translation_only s.configuration)) [
        | inl only ↦
            rw only
              (elim (at_most_one s.queue (
                subst (λ b. length s.queue ≤ (if b then 1 else s.configuration.max_queue_size)) only
                  h.bounded)) [
                    | inl nothing ↦
                        rw (nothing, positive-leb s.configuration.max_queue_size h.positive) refl
                    | inr (q, one) ↦
                        rw (one, positive-leb s.configuration.max_queue_size h.positive) refl
                  ])
        | inr other ↦
            let b : length s.queue ≤ s.configuration.max_queue_size =
              subst (λ b. length s.queue ≤ (if b then 1 else s.configuration.max_queue_size)) other
                h.bounded in
            rw other (elim (Bool-cases (leb s.configuration.max_queue_size (length s.queue))) [
              | inl full ↦
                  let (q, qs, e) = head_and_tail s.queue (leb-positive _ _ h.positive full) in
                  let exact : length (qs ++ (next_segment segment s ∷ []))
                      ≡ s.configuration.max_queue_size =
                    omega (
                      arith,
                      length-append qs (next_segment segment s ∷ []),
                      subst (λ l. length l ≤ s.configuration.max_queue_size) e b,
                      leb-at_most _ _ (
                          subst (λ l. leb s.configuration.max_queue_size (length l) ≡ true) e full),
                    ) in
                  let room : leb s.configuration.max_queue_size (length qs) ≡ false =
                    leb-below _ _ (subst (λ l. length l ≤ s.configuration.max_queue_size) e b) in
                  rw full (
                    rw e (
                      rw
                        (
                          room,
                          take_last-tail s.configuration.max_queue_size q
                              (qs ++ (next_segment segment s ∷ [])) exact,
                        )
                        refl))
              | inr free ↦
                  let fits : length (s.queue ++ (next_segment segment s ∷ []))
                      ≤ s.configuration.max_queue_size =
                    omega (
                      arith,
                      length-append s.queue (next_segment segment s ∷ []),
                      leb-above _ _ free,
                    ) in
                  rw
                    (
                      free,
                      take_last-all s.configuration.max_queue_size
                          (s.queue ++ (next_segment segment s ∷ [])) fits,
                    )
                    refl
            ])
      ])

not-longer : (n : ℕ) → ltb 1200 n ≡ false → n ≤ 1200
not-longer n h = ground arith

pub add-Fits :
    (s : TranscriptSegment) (retained c : List TranscriptSegment) → add s retained ≡ ok c → Fits c
unfolding add
add-Fits s retained c h =
    let (within, trimmed) =
      raise_if-ok (ltb 1200 (length s.text)) application_validation
        (ok (trim_text (trim_count (retained ++ (s ∷ []))))) c h in
    let (d, k, e, p, fits, most) = add-longest s retained (not-longer (length s.text) within) in
    subst Fits (ok-injective (k ++ (s ∷ [])) c (sym e ∙ h)) fits
