-- ===== src/Recording/Segments/Timings.antt =====
-- The timings of one recording, read in order and appended to
-- (backend/app/application/use_cases/write_recording_segment.py).
use ai_meeting_copilot.Prelude.{
  ℕ, suc, ◌+◌, ◌≤◌, ◌≡◌, refl, ap, ◌∙◌, true, List, [], ◌∷◌, ◌++◌, map, arith, length, get_last?,
}
use ai_meeting_copilot.Recording.Timing.{RecordingSegmentTiming}
use ai_meeting_copilot.Recording.Timing.Contiguous.{Contiguous, samples}
use ai_meeting_copilot.Recording.Segments.{
  timings_of, insert_timing, order_timings, save_timing, counts_from, expected_next_timing_index,
  start_sample_after,
}

pub insert-head :
    (id k : ℕ) (t : RecordingSegmentTiming) (ts : List RecordingSegmentTiming) (s : ℕ)
    → t.segment_index ≡ k
    → Contiguous id (suc k) s ts
    → insert_timing t ts ≡ t ∷ ts
unfolding insert_timing
insert-head id k t [] s e h = refl
insert-head id k t (x ∷ xs) s e h = ground arith

pub order-Contiguous :
    (id k s : ℕ) (ts : List RecordingSegmentTiming) → Contiguous id k s ts → order_timings ts ≡ ts
unfolding order_timings
order-Contiguous id k s [] h = refl
order-Contiguous id k s (t ∷ ts) h =
    ap (insert_timing t) (order-Contiguous id (suc k) (s + t.sample_count) ts h.4)
    ∙ insert-head id k t ts (s + t.sample_count) h.2 h.4

pub counts-Contiguous :
    (id k s : ℕ) (ts : List RecordingSegmentTiming)
    → Contiguous id k s ts
    → counts_from k (map (λ t. t.segment_index) ts) ≡ true
unfolding counts_from
counts-Contiguous id k s [] h = refl
counts-Contiguous id k s (t ∷ ts) h =
    ground (arith, counts-Contiguous id (suc k) (s + t.sample_count) ts h.4)

-- Where the row behind the last one begins.
pub behind-last :
    (id k s : ℕ) (t : RecordingSegmentTiming) (ts : List RecordingSegmentTiming)
    → Contiguous id k s (t ∷ ts)
    → (expected_next_timing_index (get_last? (t ∷ ts)) ≡ k + length (t ∷ ts))
      × (start_sample_after (get_last? (t ∷ ts)) ≡ s + samples (t ∷ ts))
behind-last id k s t [] h = (omega arith, omega arith)
behind-last id k s t (x ∷ xs) h =
    let (a, b) = behind-last id (suc k) (s + t.sample_count) x xs h.4 in (omega arith, omega arith)

pub save-behind :
    (id k s : ℕ) (t : RecordingSegmentTiming) (ts : List RecordingSegmentTiming)
    → t.recording_id ≡ id
    → Contiguous id k s (timings_of id ts)
    → k + length (timings_of id ts) ≤ t.segment_index
    → timings_of id (save_timing t ts) ≡ timings_of id ts ++ (t ∷ [])
unfolding timings_of save_timing
save-behind id k s t [] e h l = ground arith
save-behind id k s t (x ∷ xs) e h l =
    ground (arith, save-behind id (suc k) (s + x.sample_count) t xs e, save-behind id k s t xs e)
