-- ===== src/Recording/Seek/Found.antt =====
-- The binary search of a seek on a contiguous timeline
-- (backend/app/application/use_cases/resolve_recording_seek.py).
use native.Mathlib.Numerals.{add-one}
use ai_meeting_copilot.Prelude.{
  ℕ, zero, suc, ◌+◌, ◌-◌, ◌/◌, ◌≤◌, ◌<◌, ◌≡◌, refl, ap, ◌∙◌, inl, inr, true, false, ◌||◌, some,
  List, [], ◌∷◌, arith, ltb, leb, ◌==◌, if◌then◌else◌, ltb→lt, leb→le, Bool-cases, length,
  get_elem?, application_validation, recording_playback_unavailable, ok, err,
}
use ai_meeting_copilot.Recording.Timing.{RecordingSegmentTiming}
use ai_meeting_copilot.Recording.Timing.Contiguous.{Contiguous, samples}
use ai_meeting_copilot.Recording.Seek.{
  seek_target_post_init, target_in, find_target_from, find_target, RecordingSeekTarget,
}

-- Where the k-th row begins.
abbrev start_of : ℕ → List RecordingSegmentTiming → ℕ
start_of zero ts = 0
start_of (suc k) [] = 0
start_of (suc k) (t ∷ ts) = t.sample_count + start_of k ts

start_of_mono : (a b : ℕ) (ts : List RecordingSegmentTiming) → a ≤ b → start_of a ts ≤ start_of b ts
start_of_mono zero b ts h = omega arith
start_of_mono (suc a) zero ts h = absurd (omega arith)
start_of_mono (suc a) (suc b) [] h = omega arith
start_of_mono (suc a) (suc b) (t ∷ ts) h = omega (arith, start_of_mono a b ts (omega arith))

start_of-length : (ts : List RecordingSegmentTiming) → start_of (length ts) ts ≡ samples ts
start_of-length [] = refl
start_of-length (t ∷ ts) = omega (arith, start_of-length ts)

-- The k-th row of a contiguous timeline.
row :
    (id i s k : ℕ) (ts : List RecordingSegmentTiming)
    → Contiguous id i s ts
    → k < length ts
    → (t : RecordingSegmentTiming) × (get_elem? ts k ≡ some t)
      × (t.segment_index ≡ i + k)
      × (t.start_sample ≡ s + start_of k ts)
      × (start_of (suc k) ts ≡ start_of k ts + t.sample_count)
      × (0 < t.sample_count)
row id i s k [] c h = absurd (omega arith)
row id i s zero (t ∷ ts) c h = (t, refl, omega arith, omega arith, omega arith, c.1)
row id i s (suc k) (t ∷ ts) c h =
    let (u, a, b, d, e, f) = row id (suc i) (s + t.sample_count) k ts c.4 (omega arith) in
    (u, a, omega arith, omega arith, omega arith, f)

-- What a seek has to return: the row with the sample's segment index holds the sample, and the
-- offset is counted from where that row begins.
pub record IsTarget (id : ℕ) (ts : List RecordingSegmentTiming) (target : ℕ)
    (r : RecordingSeekTarget) : Type 0 where
  pub recording : r.recording_id ≡ id
  pub sample : r.target_sample ≡ target
  pub segment :
      (t : RecordingSegmentTiming) × (get_elem? ts r.segment_index ≡ some t)
      × (t.start_sample ≡ r.segment_start_sample)
      × (t.sample_count ≡ r.segment_sample_count)
  pub offset : r.segment_start_sample + r.offset_samples ≡ target
  pub inside : r.offset_samples < r.segment_sample_count

leb-false : (a b : ℕ) → a < b → leb b a ≡ false
leb-false a b p = ground arith

le_leb : (a b : ℕ) → a ≤ b → leb a b ≡ true
le_leb a b p = ground arith

le_not_before :
    (target : ℕ) (t : RecordingSegmentTiming)
    → t.start_sample + t.sample_count ≤ target
    → ltb target t.start_sample ≡ false
le_not_before target t p = ground arith

start_of-narrow :
    (ts : List RecordingSegmentTiming) (target a b : ℕ)
    → start_of a ts ≤ target
    → target < start_of b ts
    → a < b
start_of-narrow ts target a b p q = elim (Bool-cases (ltb a b)) [
  | inl yes_lt ↦ ltb→lt a b yes_lt
  | inr not_lt ↦ absurd (omega (arith, start_of_mono b a ts (ground arith)))
]

module _ (id : ℕ) (ts : List RecordingSegmentTiming) (c : Contiguous id 0 0 ts) (target : ℕ) where
  -- With this fuel and these bounds the search succeeds.
  abbrev Finds : ℕ → ℕ → ℕ → Type 0
  Finds fuel low bound =
      (r : RecordingSeekTarget) × (find_target_from fuel id ts target low bound ≡ ok r)
      × IsTarget id ts target r

  -- One round, from what the search does with the two halves.
  probe :
      (fuel low bound : ℕ) (t : RecordingSegmentTiming)
      → low < bound
      → let middle = (low + bound - 1) / 2 in
        get_elem? ts middle ≡ some t
        → t.segment_index ≡ middle
        → 0 < t.sample_count
        → (target < t.start_sample → Finds fuel low middle)
        → (t.start_sample + t.sample_count ≤ target → Finds fuel (middle + 1) bound)
        → Finds (suc fuel) low bound
  unfolding find_target_from seek_target_post_init
  probe fuel low bound t between e i p left right = elim (Bool-cases (ltb target t.start_sample)) [
    | inl before ↦
        let (r, g, k) = left (ltb→lt _ _ before) in
        (r, rw (leb-false low bound between, e, before) g, k)
    | inr not_before ↦ elim (Bool-cases (leb (t.start_sample + t.sample_count) target)) [
      | inl after ↦
          let (r, g, k) = right (leb→le _ _ after) in
          (r, rw (leb-false low bound between, e, not_before, after) g, k)
      | inr not_after ↦ (
        target_in id t target,
        rw (leb-false low bound between, e, not_before, not_after) (inside not_before not_after),
        record {
          recording = refl;
          sample = refl;
          segment = (t, ap (get_elem? ts) i ∙ e, refl, refl);
          offset = ground arith;
          inside = ground arith;
        },
      )
    ]
  ]
    where
      inside :
          ltb target t.start_sample ≡ false
          → leb (t.start_sample + t.sample_count) target ≡ false
          → (if t.sample_count == 0 || leb t.sample_count (target - t.start_sample)
              then err application_validation
              else ok (target_in id t target))
            ≡ ok (target_in id t target)
      inside a b = ground arith

  loop-Finds :
      (fuel low bound : ℕ)
      → bound ≤ length ts
      → bound < low + fuel
      → start_of low ts ≤ target
      → target < start_of bound ts
      → Finds fuel low bound
  loop-Finds zero low bound h f l u =
      absurd (omega (arith, start_of_mono bound low ts (omega arith)))
  loop-Finds (suc fuel) low bound h f l u =
      let between : low < bound = start_of-narrow ts target low bound l u in
      let found : (t : RecordingSegmentTiming) × (get_elem? ts ((low + bound - 1) / 2) ≡ some t)
          × (t.segment_index ≡ 0 + (low + bound - 1) / 2)
          × (t.start_sample ≡ 0 + start_of ((low + bound - 1) / 2) ts)
          × (start_of (suc ((low + bound - 1) / 2)) ts
              ≡ start_of ((low + bound - 1) / 2) ts + t.sample_count)
          × (0 < t.sample_count) =
        row id 0 0 ((low + bound - 1) / 2) ts c (omega arith) in
      probe fuel low bound found.0 between found.1 (omega (arith, found.2)) found.5
        (λ b.
          loop-Finds fuel low ((low + bound - 1) / 2) (omega arith) (omega arith) l
            (omega (arith, found.3)))
        (λ a.
          loop-Finds fuel ((low + bound - 1) / 2 + 1) bound h (omega arith)
            (rw add-one (omega (arith, found.3, found.4))) u)

-- On a contiguous timeline the binary search finds the segment of every sample below the total,
-- without running out of fuel and without an error: it returns the row that holds the sample, and
-- the offset within it.
pub find_target-IsTarget :
    (id : ℕ) (ts : List RecordingSegmentTiming) (target : ℕ)
    → Contiguous id 0 0 ts
    → target < samples ts
    → (r : RecordingSeekTarget) × (find_target id ts target ≡ ok r) × IsTarget id ts target r
unfolding find_target
find_target-IsTarget id ts target c h =
    loop-Finds id ts c target (suc (length ts)) 0 (length ts) (omega arith) (omega arith)
      (omega arith) (omega (arith, start_of-length ts))

module _ (id : ℕ) (ts : List RecordingSegmentTiming) (c : Contiguous id 0 0 ts) (target : ℕ)
    (past : samples ts ≤ target) where
  -- Every row that the search reads lies before the sample.
  row_before :
      (k : ℕ)
      → k < length ts
      → (t : RecordingSegmentTiming) × (get_elem? ts k ≡ some t)
        × (t.start_sample + t.sample_count ≤ target)
  row_before k h =
      let (t, e, i, s, n, p) = row id 0 0 k ts c h in
      (t, e, omega (arith, start_of_mono (suc k) (length ts) ts h, start_of-length ts))

  loop_misses :
      (fuel low bound : ℕ)
      → low ≤ bound
      → bound ≤ length ts
      → bound < low + fuel
      → find_target_from fuel id ts target low bound ≡ err recording_playback_unavailable
  unfolding find_target_from
  loop_misses zero low bound o h f = absurd (omega arith)
  loop_misses (suc fuel) low bound o h f = elim (Bool-cases (leb bound low)) [
    | inl done ↦ rw done
    | inr more ↦
        let found : (t : RecordingSegmentTiming) × (get_elem? ts ((low + bound - 1) / 2) ≡ some t)
            × (t.start_sample + t.sample_count ≤ target) =
          row_before ((low + bound - 1) / 2) (ground arith) in
        rw (more, found.1, le_not_before target found.0 found.2, le_leb _ _ found.2)
          (loop_misses fuel ((low + bound - 1) / 2 + 1) bound (ground arith) h (ground arith))
  ]

-- On a contiguous timeline a sample at or behind the total is refused as unavailable, without
-- running out of fuel.
pub find_target-past_end :
    (id : ℕ) (ts : List RecordingSegmentTiming) (target : ℕ)
    → Contiguous id 0 0 ts
    → samples ts ≤ target
    → find_target id ts target ≡ err recording_playback_unavailable
unfolding find_target
find_target-past_end id ts target c h =
    loop_misses id ts c target h (suc (length ts)) 0 (length ts) (omega arith) (omega arith)
      (omega arith)
