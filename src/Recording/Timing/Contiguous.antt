-- ===== src/Recording/Timing/Contiguous.antt =====
-- Contiguous timelines, and their validation
-- (backend/app/application/services/recording_timing.py).
use ai_meeting_copilot.Prelude.{
  ℕ, suc, ◌+◌, ◌<◌, ◌≡◌, refl, ap, ◌∙◌, ◌≢◌, ◌↔◌, true, Option, none, some, List, [], ◌∷◌, ◌++◌,
  arith, length, ok,
}
use ai_meeting_copilot.Recording.Timing.{
  follows, add_timings, total_samples_for_contiguous_timing, RecordingSegmentTiming,
}

-- From a segment index and a start on: rows of one recording, none empty, each right behind the
-- one before.
abbrev pub Contiguous : ℕ → ℕ → ℕ → List RecordingSegmentTiming → Type 0
Contiguous id index start [] = Unit {0}
Contiguous id index start (t ∷ ts) =
    (t.recording_id ≡ id)
    × (0 < t.sample_count)
    × (t.segment_index ≡ index)
    × (t.start_sample ≡ start)
    × Contiguous id (suc index) (start + t.sample_count) ts

abbrev pub samples : List RecordingSegmentTiming → ℕ
samples [] = 0
samples (t ∷ ts) = t.sample_count + samples ts

-- Where a row has to begin that comes after `previous`.
abbrev next_index : Option RecordingSegmentTiming → ℕ
next_index none = 0
next_index (some p) = suc p.segment_index

abbrev next_start : Option RecordingSegmentTiming → ℕ
next_start none = 0
next_start (some p) = p.start_sample + p.sample_count

follows-eq :
    (p : Option RecordingSegmentTiming) (t : RecordingSegmentTiming)
    → follows p t ≡ true
    → (t.segment_index ≡ next_index p) × (t.start_sample ≡ next_start p)
follows-eq none t h = ground arith
follows-eq (some p) t h = ground arith

eq-follows :
    (p : Option RecordingSegmentTiming) (t : RecordingSegmentTiming)
    → t.segment_index ≡ next_index p
    → t.start_sample ≡ next_start p
    → follows p t ≡ true
eq-follows none t h k = ground arith
eq-follows (some p) t h k = ground arith

add_timings_sound :
    (id : ℕ) (p : Option RecordingSegmentTiming) (n : ℕ) (ts : List RecordingSegmentTiming) (m : ℕ)
    → add_timings id p n ts ≡ ok m
    → Contiguous id (next_index p) (next_start p) ts × (m ≡ n + samples ts)
unfolding add_timings
add_timings_sound id p n [] m h = (tt, ground arith)
add_timings_sound id p n (t ∷ ts) m h =
    ground (arith, follows-eq p t, add_timings_sound id (some t) (n + t.sample_count) ts m)

add_timings_complete :
    (id : ℕ) (p : Option RecordingSegmentTiming) (n : ℕ) (ts : List RecordingSegmentTiming)
    → Contiguous id (next_index p) (next_start p) ts
    → add_timings id p n ts ≡ ok (n + samples ts)
unfolding add_timings
add_timings_complete id p n [] h = ground arith
add_timings_complete id p n (t ∷ ts) h =
    ground (arith, eq-follows p t, add_timings_complete id (some t) (n + t.sample_count) ts)

-- The validation returns a sample count exactly for a timeline that is not empty and contiguous
-- from segment 0 and sample 0 on, and the count is the sum over its rows.
pub total_samples-ok_iff :
    (id : ℕ) (ts : List RecordingSegmentTiming) (n : ℕ)
    → (total_samples_for_contiguous_timing id ts ≡ ok n)
      ↔ ((ts ≢ []) × Contiguous id 0 0 ts × (n ≡ samples ts))
unfolding total_samples_for_contiguous_timing
total_samples-ok_iff id [] n = (λ h. cc, λ h. absurd (h.0 refl))
total_samples-ok_iff id (t ∷ ts) n = (
  λ h. let (c, e) = add_timings_sound id none 0 (t ∷ ts) n h in (λ e. cc, c, omega (arith, e)),
  λ h. add_timings_complete id none 0 (t ∷ ts) h.1 ∙ ap ok (omega (arith, h.2)),
)

-- Rows appended to a contiguous timeline, in the one place where they fit.
pub Contiguous-append :
    (id i s : ℕ) (ts : List RecordingSegmentTiming) (t : RecordingSegmentTiming)
    → Contiguous id i s ts
    → t.recording_id ≡ id
    → 0 < t.sample_count
    → t.segment_index ≡ i + length ts
    → t.start_sample ≡ s + samples ts
    → Contiguous id i s (ts ++ (t ∷ []))
Contiguous-append id i s [] t h a b c d = (a, b, omega arith, omega arith, tt)
Contiguous-append id i s (x ∷ ts) t h a b c d = (
  h.0,
  h.1,
  h.2,
  h.3,
  Contiguous-append id (suc i) (s + x.sample_count) ts t h.4 a b (omega arith) (omega arith),
)
