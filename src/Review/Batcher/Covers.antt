-- ===== src/Review/Batcher/Covers.antt =====
-- The batches of a transcript as slices of it
-- (backend/app/application/services/meeting_review_batcher.py).
use mathlib.Core.Path.{subst}
use ai_meeting_copilot.Prelude.{
  ℕ, zero, suc, ◌+◌, ◌-◌, ◌≤◌, ◌<◌, max, ◌≡◌, refl, sym, ap, ◌∙◌, ◌⊎◌, inl, inr, true, false, not,
  List, [], ◌∷◌, arith, leb, ◌==◌, leb→le, ==_iff, ==_refl, Bool-cases, and_both, and_intro, length,
  take, drop, slice, all, length-take, length-drop, length-map, ok, is_empty,
}
use ai_meeting_copilot.Review.Batcher.{
  not_blank, characters, batch_post_init, ids, texts_of, next_end_from, next_end_index, batch_of,
  next_start, build_from, build_batches, TranscriptReadItem, TranscriptReviewBatch,
}
use ai_meeting_copilot.Review.Batcher.Ends.{first_entries}

-- One batch of a transcript from a start on: the ids and texts of the entries from its start to
-- its end, and within the budget or a single entry.
pub record IsBatch (max_characters : ℕ) (transcript : List TranscriptReadItem) (start index : ℕ)
    (b : TranscriptReviewBatch) : Type 0 where
  pub number : b.batch_index ≡ index
  pub first : b.start_transcript_index ≡ start
  pub ordered : start ≤ b.end_transcript_index
  pub within : b.end_transcript_index < length transcript
  pub entry_ids : b.transcript_ids ≡ ids (slice start (suc b.end_transcript_index) transcript)
  pub entry_texts : b.texts ≡ texts_of (slice start (suc b.end_transcript_index) transcript)
  pub counted : b.total_characters ≡ characters b.texts
  pub budget : (b.end_transcript_index ≡ start) ⊎ (b.total_characters ≤ max_characters)

module _ (max_characters overlap : ℕ) (transcript : List TranscriptReadItem) where
  -- Batches from a start and a number on. The next batch begins behind the start of this one and
  -- not behind its end plus one, so no entry is left out between them.
  abbrev pub Chain : ℕ → ℕ → List TranscriptReviewBatch → Type 0
  Chain start index [] = ⊥
  Chain start index (b ∷ []) =
      IsBatch max_characters transcript start index b
      × (suc b.end_transcript_index ≡ length transcript)
  Chain start index (b ∷ c ∷ bs) =
      IsBatch max_characters transcript start index b
      × (start < c.start_transcript_index)
      × (c.start_transcript_index ≤ suc b.end_transcript_index)
      × (suc b.end_transcript_index ≤ c.start_transcript_index + overlap)
      × Chain c.start_transcript_index (suc index) (c ∷ bs)

-- Entries with text, as `TranscriptReadItem` checks.
abbrev pub HaveText : List TranscriptReadItem → Type 0
HaveText es = all not_blank (texts_of es) ≡ true

length_slice :
    (start k : ℕ) (es : List TranscriptReadItem)
    → k ≤ length (drop start es)
    → length (take k (drop start es)) ≡ k
length_slice start k es h = omega (arith, length-take k (drop start es))

HaveText-take : (k : ℕ) (es : List TranscriptReadItem) → HaveText es → HaveText (take k es)
HaveText-take zero es h = refl
HaveText-take (suc k) [] h = refl
HaveText-take (suc k) (e ∷ es) h =
    let (a, b) = and_both _ _ h in and_intro _ _ a (HaveText-take k es b)

HaveText-drop : (k : ℕ) (es : List TranscriptReadItem) → HaveText es → HaveText (drop k es)
HaveText-drop zero es h = h
HaveText-drop (suc k) [] h = refl
HaveText-drop (suc k) (e ∷ es) h = HaveText-drop k es (and_both _ _ h).1

not_empty {ℓ} : {A : Type ℓ} (xs : List A) → 0 < length xs → not (is_empty xs) ≡ true
not_empty [] h = absurd (omega arith)
not_empty (x ∷ xs) h = refl

last_index : (start k : ℕ) → start + suc k ≡ suc (start + suc k - 1)
last_index start k = omega arith

leb-true : (a b : ℕ) → a ≤ b → leb a b ≡ true
leb-true a b h = ground arith

-- The batch that ends behind k + 1 entries passes its check at construction.
batch_of-ok :
    (es : List TranscriptReadItem) (start k index : ℕ)
    → HaveText es
    → suc k ≤ length (drop start es)
    → batch_post_init (batch_of es start (start + suc k) index)
      ≡ ok (batch_of es start (start + suc k) index)
unfolding batch_of batch_post_init
batch_of-ok es start k index t h =
    let entries = slice start (start + suc k) es in
    let n : length entries ≡ suc k =
      length_slice start (start + suc k - start) es (omega arith) ∙ omega arith in
    let a = leb-true start (start + suc k - 1) (omega arith) in
    let b =
      not_empty (ids entries) (
        rw (length-map (λ (e : TranscriptReadItem). e.transcript_id) entries) (omega (arith, n))) in
    let c = (==_iff (length (ids entries)) (length (texts_of entries))).1 (
      length-map (λ (e : TranscriptReadItem). e.transcript_id) entries
      ∙ sym (length-map (λ (e : TranscriptReadItem). e.text) entries)) in
    let d = HaveText-take (start + suc k - start) (drop start es) (HaveText-drop start es t) in
    let e = ==_refl (characters (texts_of entries)) in
    rw (and_intro _ _ (and_intro _ _ (and_intro _ _ (and_intro _ _ a b) c) d) e) refl

batch_of-IsBatch :
    (m : ℕ) (es : List TranscriptReadItem) (start k index : ℕ)
    → suc k ≤ length (drop start es)
    → ((k ≡ 0) ⊎ (characters (texts_of (take (suc k) (drop start es))) ≤ m))
    → IsBatch m es start index (batch_of es start (start + suc k) index)
unfolding batch_of
batch_of-IsBatch m es start k index h small = record {
  number = refl;
  first = refl;
  ordered = omega arith;
  within = omega (arith, length-drop start es);
  entry_ids = ap (λ n. ids (slice start n es)) (last_index start k);
  entry_texts = ap (λ n. texts_of (slice start n es)) (last_index start k);
  counted = refl;
  budget = within_budget small;
}
  where
    cut : start + suc k - start ≡ suc k
    cut = omega arith

    within_budget :
        ((k ≡ 0) ⊎ (characters (texts_of (take (suc k) (drop start es))) ≤ m))
        → (start + suc k - 1 ≡ start)
          ⊎ (characters (texts_of (take (start + suc k - start) (drop start es))) ≤ m)
    within_budget (inl z) = inl (omega arith)
    within_budget (inr c) = inr (rw cut c)

-- What one round of the loop does.
record Round (m : ℕ) (es : List TranscriptReadItem) (start index : ℕ) : Type 0 where
  more : ℕ
  stop : next_end_index m es start ≡ start + suc more
  ends : suc (batch_of es start (start + suc more) index).end_transcript_index ≡ start + suc more
  within : start + suc more ≤ length es
  built :
      batch_post_init (batch_of es start (start + suc more) index)
      ≡ ok (batch_of es start (start + suc more) index)
  batch : IsBatch m es start index (batch_of es start (start + suc more) index)

round :
    (m : ℕ) (es : List TranscriptReadItem) (start index : ℕ)
    → HaveText es
    → start < length es
    → Round m es start index
unfolding next_end_index batch_of
round m es start index t h =
    let left : length (drop start es) ≡ length es - start = length-drop start es in
    let found : (k : ℕ) × (next_end_from m start 0 start (drop start es) ≡ start + suc k)
        × (suc k ≤ length (drop start es))
        × ((k ≡ 0) ⊎ (characters (texts_of (take (suc k) (drop start es))) ≤ m)) =
      first_entries m start (drop start es) (omega (arith, left)) in
    record {
      more = found.0;
      stop = found.1;
      ends = sym (last_index start found.0);
      within = omega (arith, left, found.2);
      built = batch_of-ok es start found.0 index t found.2;
      batch = batch_of-IsBatch m es start found.0 index found.2 found.3;
    }

module _ (m overlap : ℕ) (es : List TranscriptReadItem) (t : HaveText es) where
  head_first :
      (start index : ℕ) (b : TranscriptReviewBatch) (bs : List TranscriptReviewBatch)
      → Chain m overlap es start index (b ∷ bs)
      → b.start_transcript_index ≡ start
  head_first start index b [] k = k.0.first
  head_first start index b (c ∷ bs) k = k.0.first

  -- The chain of a batch and those behind it.
  Chain-cons :
      (start index : ℕ) (b : TranscriptReviewBatch) (bs : List TranscriptReviewBatch)
      → IsBatch m es start index b
      → Chain m overlap es
          (next_start m overlap es start (suc b.end_transcript_index))
          (suc index)
          bs
      → Chain m overlap es start index (b ∷ bs)
  Chain-cons start index b [] h c = absurd c
  Chain-cons start index b (c ∷ bs) h k =
      let e : c.start_transcript_index ≡ max (start + 1) (suc b.end_transcript_index - overlap) =
        head_first _ _ c bs k in
      let o = h.ordered in
      (
        h,
        omega (arith, e),
        omega (arith, e, o),
        omega (arith, e),
        subst (λ s. Chain m overlap es s (suc index) (c ∷ bs)) (sym e) k,
      )

  build_from-Chain :
      (fuel start index : ℕ)
      → start < length es
      → length es < start + fuel
      → (bs : List TranscriptReviewBatch) × (build_from m overlap es fuel start index ≡ ok bs)
        × Chain m overlap es start index bs
  unfolding build_from
  build_from-Chain zero start index h f = absurd (omega arith)
  build_from-Chain (suc fuel) start index h f =
      let r = round m es start index t h in
      let b = batch_of es start (start + suc r.more) index in
      elim (Bool-cases (start + suc r.more == length es)) [
        | inl last ↦ (
          b ∷ [],
          rw (leb-false start (length es) h, r.stop, r.built, last),
          (r.batch, r.ends ∙ (==_iff _ _).0 last),
        )
        | inr more ↦
            let inside : start + suc r.more < length es = strictly _ _ r.within more in
            let later : (bs : List TranscriptReviewBatch) × (build_from m overlap es fuel
                    (next_start m overlap es start (start + suc r.more)) (suc index)
                  ≡ ok bs)
                × Chain m overlap es (next_start m overlap es start (start + suc r.more))
                    (suc index) bs =
              build_from-Chain fuel (next_start m overlap es start (start + suc r.more)) (suc index)
                (omega arith) (omega arith) in
            (
              b ∷ later.0,
              rw (leb-false start (length es) h, r.stop, r.built, more, later.1),
              Chain-cons start index b later.0 r.batch (
                  subst
                    (λ n. Chain m overlap es (next_start m overlap es start n) (suc index) later.0)
                    (sym r.ends) later.2),
            )
      ]
    where
      leb-false : (a b : ℕ) → a < b → leb b a ≡ false
      leb-false a b p = ground arith

      strictly : (a b : ℕ) → a ≤ b → (a == b) ≡ false → a < b
      strictly a b p e = ground arith

-- Every transcript that is not empty, of entries with text, is divided without an error and
-- without running out of fuel: the batches are whole slices numbered from 0, the first starts at
-- entry 0, each next one starts behind the start of the one before and no later than behind its
-- end, overlapping it by at most the configured number of entries, the last ends with the
-- transcript, and a batch larger than the budget holds a single entry.
pub build_batches-Chain :
    (m overlap : ℕ) (es : List TranscriptReadItem)
    → HaveText es
    → 0 < length es
    → (bs : List TranscriptReviewBatch) × (build_batches m overlap es ≡ ok bs)
      × Chain m overlap es 0 0 bs
unfolding build_batches
build_batches-Chain m overlap es t h =
    build_from-Chain m overlap es t (suc (length es)) 0 0 h (omega arith)

-- Some batch holds the entry with this index.
abbrev pub Holds : ℕ → List TranscriptReviewBatch → Type 0
Holds i [] = ⊥
Holds i (b ∷ bs) = ((b.start_transcript_index ≤ i) × (i ≤ b.end_transcript_index)) ⊎ Holds i bs

Chain-Holds :
    (m overlap : ℕ) (es : List TranscriptReadItem) (start index : ℕ)
    (bs : List TranscriptReviewBatch)
    → Chain m overlap es start index bs
    → (i : ℕ) → start ≤ i
    → i < length es
    → Holds i bs
Chain-Holds m overlap es start index [] c i p q = absurd c
Chain-Holds m overlap es start index (b ∷ []) c i p q = inl (omega (arith, c.0.first), omega arith)
Chain-Holds m overlap es start index (b ∷ d ∷ bs) c i p q =
    elim (Bool-cases (leb i b.end_transcript_index)) [
      | inl inside ↦ inl (omega (arith, c.0.first), leb→le _ _ inside)
      | inr behind ↦ inr (
          Chain-Holds m overlap es d.start_transcript_index (suc index) (d ∷ bs) c.4 i
            (ground (arith, c.2)) q)
    ]

-- No entry of a transcript is left out of the batches.
pub build_batches-Holds :
    (m overlap : ℕ) (es : List TranscriptReadItem)
    → HaveText es
    → (i : ℕ) → i < length es
    → (bs : List TranscriptReviewBatch) × (build_batches m overlap es ≡ ok bs) × Holds i bs
build_batches-Holds m overlap es t i h =
    let (bs, e, c) = build_batches-Chain m overlap es t (omega arith) in
    (bs, e, Chain-Holds m overlap es 0 0 bs c i (omega arith) h)
