-- ===== src/Recording/Segments/Checks.antt =====
-- What the two units of work learn and save when their checks pass
-- (backend/app/application/use_cases/write_recording_segment.py).
use ai_meeting_copilot.Prelude.{
  ℕ, suc, ◌+◌, ◌<◌, ◌≡◌, refl, sym, ap, ◌∙◌, Bool, true, false, not, ◌||◌, Option, none, some, List,
  [], ◌∷◌, ◌++◌, arith, ◌==◌, if◌then◌else◌, length, get_last?, ◌>>=◌, ◌>>◌, raise_if, ok-injective,
  raise_if-ok, Error, application_validation, recording_segment_lifecycle, Result, err, ok, Text,
}
use ai_meeting_copilot.Recording.Metadata.{RecordingMetadataRecord, record_post_init}
use ai_meeting_copilot.Recording.Work.{key_reference_post_init}
use ai_meeting_copilot.Recording.Timing.{RecordingSegmentTiming, timing_post_init}
use ai_meeting_copilot.Recording.Timing.Contiguous.{Contiguous, samples}
use ai_meeting_copilot.Recording.Segments.{
  WriteRecordingSegmentCommand, Checked, timings_of, list_for_recording, validate_recording,
  counts_from, expected_next_index, expected_next_timing_index, start_sample_after,
  last_contiguous_timing, differ, check_row, rows_to_save,
}
use ai_meeting_copilot.Recording.Segments.Timings.{order-Contiguous, counts-Contiguous, behind-last}

last_contiguous_timing_lem :
    (id : ℕ) (ts : List RecordingSegmentTiming)
    → Contiguous id 0 0 (timings_of id ts)
    → last_contiguous_timing (list_for_recording id ts) ≡ ok (get_last? (timings_of id ts))
unfolding last_contiguous_timing list_for_recording
last_contiguous_timing_lem id ts h =
    rw (order-Contiguous id 0 0 (timings_of id ts) h, counts-Contiguous id 0 0 (timings_of id ts) h)
      refl

last-Contiguous :
    (id : ℕ) (ts : List RecordingSegmentTiming)
    → Contiguous id 0 0 ts
    → (expected_next_timing_index (get_last? ts) ≡ length ts)
      × (start_sample_after (get_last? ts) ≡ samples ts)
last-Contiguous id [] h = (refl, refl)
last-Contiguous id (t ∷ ts) h = let (a, b) = behind-last id 0 0 t ts h in (omega arith, omega arith)

both :
    {R T : Type 0} (r : Result R) (t : Result T) (k : R × T)
    → (r >>= λ r'. t >>= λ t'. ok (r', t')) ≡ ok k
    → (r ≡ ok k.0) × (t ≡ ok k.1)
both (err e) t k h = cc
both (ok r) (err e) k h = cc
both (ok r) (ok t) k h = let e = ok-injective (r, t) k h in (ap (λ y. ok y.0) e, ap (λ y. ok y.1) e)

pub checked_eq-ok :
    {A : Type 0} (b : Bool) (x : Error) (a a' : A)
    → (if b then ok a else err x) ≡ ok a'
    → (b ≡ true) × (a' ≡ a)
checked_eq-ok true x a a' h = (refl, sym (ok-injective a a' h))
checked_eq-ok false x a a' h = cc

refused_eq-ok :
    {A : Type 0} (b : Bool) (x : Error) (a a' : A)
    → (if b then err x else ok a) ≡ ok a'
    → (b ≡ false) × (a' ≡ a)
refused_eq-ok true x a a' h = cc
refused_eq-ok false x a a' h = (refl, sym (ok-injective a a' h))

pub differ-false : (i j k : ℕ) → differ i j k ≡ false → (i ≡ j) × (i ≡ k)
differ-false i j k h = ground arith

module _ {P : Type 0} where
  read_steps :
      (v : Result (Unit {0})) (q : Result Text) (p : Result P) (b : P → Bool) (x : Error)
      (f : Text → P → Checked) (p0 : P) (k : Checked)
      → p ≡ ok p0
      → (v >> (q >>= λ reference. p >>= λ a. raise_if (b a) x >> ok (f reference a))) ≡ ok k
      → (b p0 ≡ false) × (reference : Text) × (f reference p0 ≡ k)
  read_steps (err e) q p b x f p0 k h g = cc
  read_steps (ok u) (err e) p b x f p0 k h g = cc
  read_steps (ok u) (ok reference) p b x f p0 k h g =
      let (e, g') =
        raise_if-ok (b p0) x (ok (f reference p0)) k
          (ap (λ y. y >>= λ a. raise_if (b a) x >> ok (f reference a)) (sym h) ∙ g) in
      (e, reference, ok-injective (f reference p0) k g')

  write_steps :
      {R T : Type 0} (v : Result (Unit {0})) (p : Result P) (b : P → Bool) (x : Error)
      (r : Result R) (t : Result T) (p0 : P) (k : R × T)
      → p ≡ ok p0
      → (v >> (p >>= λ a. raise_if (b a) x >> (r >>= λ r'. t >>= λ t'. ok (r', t')))) ≡ ok k
      → (r ≡ ok k.0) × (t ≡ ok k.1)
  write_steps (err e) p b x r t p0 k h g = cc
  write_steps {R} {T} (ok u) p b x r t p0 k h g =
      let (e, g') = raise_if-ok (b p0) x (r >>= λ r'. t >>= λ t'. ok (r', t')) k (
        ap (λ y. y >>= λ a. raise_if (b a) x >> (r >>= λ r'. t >>= λ t'. ok (r', t'))) (sym h)
        ∙ g) in
      both r t k g'

pub check_row-ok :
    (c : WriteRecordingSegmentCommand) (ts : List RecordingSegmentTiming)
    (r : RecordingMetadataRecord) (k : Checked)
    → Contiguous c.recording_id 0 0 (timings_of c.recording_id ts)
    → check_row c ts (some r) ≡ ok k
    → (c.segment_index ≡ r.current_segment_index)
      × (c.segment_index ≡ length (timings_of c.recording_id ts))
      × (k.start_sample ≡ samples (timings_of c.recording_id ts))
unfolding check_row
check_row-ok c ts r k h e =
    let (d, reference, f) =
      read_steps (validate_recording r.metadata) (key_reference_post_init r.key_reference)
        (last_contiguous_timing (list_for_recording c.recording_id ts))
        (λ a. differ c.segment_index r.current_segment_index (expected_next_timing_index a))
        recording_segment_lifecycle
        (λ ref a. record {
          key_reference = ref;
          metadata_index = r.current_segment_index;
          start_sample = start_sample_after a;
        })
        (get_last? (timings_of c.recording_id ts)) k
        (last_contiguous_timing_lem c.recording_id ts h) e in
    let (x, y) = differ-false c.segment_index r.current_segment_index _ d in
    let (a, b) = last-Contiguous c.recording_id (timings_of c.recording_id ts) h in
    (x, y ∙ a, ap (λ z. z.start_sample) (sym f) ∙ b)

pub rows_to_save-ok :
    (c : WriteRecordingSegmentCommand) (n start : ℕ) (ts : List RecordingSegmentTiming)
    (r r' : RecordingMetadataRecord) (t : RecordingSegmentTiming)
    → Contiguous c.recording_id 0 0 (timings_of c.recording_id ts)
    → rows_to_save c n start ts (some r) ≡ ok (r', t)
    → (r' ≡ record r { current_segment_index = c.segment_index + 1 })
      × (t ≡ record {
        recording_id = c.recording_id;
        segment_index = c.segment_index;
        sample_count = n;
        start_sample = start;
      })
      × (0 < n)
unfolding rows_to_save record_post_init timing_post_init
rows_to_save-ok c n start ts r r' t h e =
    let (x, y) =
      write_steps (validate_recording r.metadata)
        (last_contiguous_timing (list_for_recording c.recording_id ts))
        (λ a.
          not (r.current_segment_index == c.segment_index)
          || not (expected_next_timing_index a == c.segment_index))
        recording_segment_lifecycle
        (record_post_init (record r { current_segment_index = c.segment_index + 1 }))
        (timing_post_init (record {
          recording_id = c.recording_id;
          segment_index = c.segment_index;
          sample_count = n;
          start_sample = start;
        }))
        (get_last? (timings_of c.recording_id ts)) (r', t)
        (last_contiguous_timing_lem c.recording_id ts h) e in
    let (z, w) = refused_eq-ok (n == 0) application_validation _ t y in
    ((checked_eq-ok _ application_validation _ r' x).1, w, ground arith)

pub raise_if-passed : (b : Bool) (x : Error) (u : Unit {0}) → raise_if b x ≡ ok u → b ≡ false
raise_if-passed true x u h = cc
raise_if-passed false x u h = refl

pub counts_from-append :
    (k i : ℕ) (is : List ℕ)
    → counts_from k is ≡ true
    → i ≡ k + length is
    → counts_from k (is ++ (i ∷ [])) ≡ true
unfolding counts_from
counts_from-append k i [] h e = ground arith
counts_from-append k i (j ∷ is) h e = ground (arith, counts_from-append (suc k) i is)

pub expected_next_index-ok :
    (is : List ℕ) (n : ℕ)
    → expected_next_index is ≡ ok n
    → (counts_from 0 is ≡ true) × (n ≡ length is)
unfolding expected_next_index
expected_next_index-ok is n h =
    checked_eq-ok (counts_from 0 is) recording_segment_lifecycle (length is) n h

pub found_row :
    (c : WriteRecordingSegmentCommand) (ts : List RecordingSegmentTiming)
    (o : Option RecordingMetadataRecord) (k : Checked)
    → check_row c ts o ≡ ok k
    → (r : RecordingMetadataRecord) × (o ≡ some r) × (check_row c ts (some r) ≡ ok k)
unfolding check_row
found_row c ts none k h = cc
found_row c ts (some r) k h = (r, refl, h)

pub saved_row :
    (c : WriteRecordingSegmentCommand) (n start : ℕ) (ts : List RecordingSegmentTiming)
    (o : Option RecordingMetadataRecord) (saved : RecordingMetadataRecord × RecordingSegmentTiming)
    → rows_to_save c n start ts o ≡ ok saved
    → (r : RecordingMetadataRecord) × (o ≡ some r) × (rows_to_save c n start ts (some r) ≡ ok saved)
unfolding rows_to_save
saved_row c n start ts none saved h = cc
saved_row c n start ts (some r) saved h = (r, refl, h)
