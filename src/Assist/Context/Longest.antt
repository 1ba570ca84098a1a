-- ===== src/Assist/Context/Longest.antt =====
-- The part of the transcript that the context retains
-- (backend/app/application/services/recent_transcript_context.py).
use ai_meeting_copilot.Prelude.{
  suc, ◌≤◌, ◌<◌, ◌≡◌, refl, sym, ap, ◌∙◌, inl, inr, true, false, List, [], ◌∷◌, ◌++◌, arith, ltb,
  Bool-cases, length, length-append, append_assoc, ok,
}
use ai_meeting_copilot.Assist.Context.{
  join_texts, combined_text_length, trim_count, trim_text, add, TranscriptSegment,
}

-- Within the limits on the number of segments and on their joined text.
pub record Fits (ss : List TranscriptSegment) : Type 0 where
  pub few : length ss ≤ 7
  pub short : combined_text_length ss ≤ 1200

trim_count-last :
    (s : TranscriptSegment) (ss : List TranscriptSegment)
    → (d : List TranscriptSegment) × (k : List TranscriptSegment) × (trim_count (ss ++ (s ∷ []))
        ≡ k ++ (s ∷ []))
      × (d ++ k ≡ ss)
      × (length (k ++ (s ∷ [])) ≤ 7)
unfolding trim_count
trim_count-last s [] = ([], [], refl, refl, omega arith)
trim_count-last s (x ∷ ss) = elim (Bool-cases (ltb 7 (suc (length (ss ++ (s ∷ [])))))) [
  | inl many ↦
      let (d, k, e, p, h) = trim_count-last s ss in (x ∷ d, k, rw (many, e), ap (◌∷◌ x) p, h)
  | inr few ↦ ([], x ∷ ss, rw few, refl, ground arith)
]

trim_text-last :
    (s : TranscriptSegment) (ss : List TranscriptSegment)
    → length s.text ≤ 1200
    → (d : List TranscriptSegment) × (k : List TranscriptSegment) × (trim_text (ss ++ (s ∷ []))
        ≡ k ++ (s ∷ []))
      × (d ++ k ≡ ss)
      × (combined_text_length (k ++ (s ∷ [])) ≤ 1200)
unfolding trim_text
trim_text-last s [] h = ([], [], refl, refl, h)
trim_text-last s (x ∷ ss) h =
    let all_of = (x ∷ ss) ++ (s ∷ []) in
    elim (Bool-cases (ltb 1200 (combined_text_length all_of))) [
      | inl long ↦
          let (d, k, e, p, l) = trim_text-last s ss h in
          (x ∷ d, k, rw (several, long, e), ap (◌∷◌ x) p, l)
      | inr short ↦ ([], x ∷ ss, rw (several, short), refl, ground arith)
    ]
  where
    several : ltb 1 (suc (length (ss ++ (s ∷ [])))) ≡ true
    several = rw (length-append ss (s ∷ [])) (ground arith)

-- A list within one limit is not cut by its loop, whatever stood before it.
trim_count_few : (t : List TranscriptSegment) → length t ≤ 7 → trim_count t ≡ t
unfolding trim_count
trim_count_few [] h = refl
trim_count_few (s ∷ ss) h = ground arith

trim_count_many :
    (x : TranscriptSegment) (xs : List TranscriptSegment)
    → ltb 7 (suc (length xs)) ≡ true
    → trim_count xs ≡ trim_count (x ∷ xs)
unfolding trim_count
trim_count_many x xs h = rw h

trim_count-keeps :
    (d t : List TranscriptSegment)
    → length t ≤ 7
    → (d' : List TranscriptSegment) × (d' ++ t ≡ trim_count (d ++ t))
trim_count-keeps [] t h = ([], sym (trim_count_few t h))
trim_count-keeps (x ∷ d) t h = elim (Bool-cases (ltb 7 (suc (length (d ++ t))))) [
  | inl many ↦ let (d', e) = trim_count-keeps d t h in (d', e ∙ trim_count_many x (d ++ t) many)
  | inr few ↦ (x ∷ d, unfold trim_count in rw few)
]

trim_text_short : (t : List TranscriptSegment) → combined_text_length t ≤ 1200 → trim_text t ≡ t
unfolding trim_text
trim_text_short [] h = refl
trim_text_short (s ∷ ss) h = elim (Bool-cases (ltb 1 (suc (length ss)))) [
  | inl several ↦ rw (several, not_long h)
  | inr one ↦ rw one
]
  where
    not_long :
        combined_text_length (s ∷ ss) ≤ 1200 → ltb 1200 (combined_text_length (s ∷ ss)) ≡ false
    not_long k = ground arith

trim_text_long :
    (x : TranscriptSegment) (xs : List TranscriptSegment)
    → ltb 1 (suc (length xs)) ≡ true
    → ltb 1200 (combined_text_length (x ∷ xs)) ≡ true
    → trim_text xs ≡ trim_text (x ∷ xs)
unfolding trim_text
trim_text_long x xs h k = rw (h, k)

trim_text-keeps :
    (d t : List TranscriptSegment)
    → combined_text_length t ≤ 1200
    → 0 < length t
    → (d' : List TranscriptSegment) × (d' ++ t ≡ trim_text (d ++ t))
trim_text-keeps [] t h p = ([], sym (trim_text_short t h))
trim_text-keeps (x ∷ d) t h p = elim (Bool-cases (ltb 1200 (combined_text_length ((x ∷ d) ++ t)))) [
  | inl long ↦
      let (d', e) = trim_text-keeps d t h p in (d', e ∙ trim_text_long x (d ++ t) (several p) long)
  | inr short ↦ (x ∷ d, unfold trim_text in rw (several p, short))
]
  where
    several : 0 < length t → ltb 1 (suc (length (d ++ t))) ≡ true
    several p = rw (length-append d t) (ground arith)

length_from_end : (d t xs : List TranscriptSegment) → d ++ t ≡ xs → length t ≤ length xs
length_from_end d t xs e = omega (arith, length-append d t, ap length e)

-- What joining texts costs grows with each of them.
combined-cons :
    (x : TranscriptSegment) (ss : List TranscriptSegment)
    → combined_text_length ss ≤ combined_text_length (x ∷ ss)
combined-cons x [] = omega arith
combined-cons x (s ∷ ss) = omega (arith, length-append x.text (10 ∷ join_texts (s ∷ ss)))

-- Adding a segment whose text is within the limit succeeds: what is retained is the newest part
-- of the segments before with the new one behind it, it is within both limits, and no longer
-- part at the end of the segments is.
pub add-longest :
    (s : TranscriptSegment) (retained : List TranscriptSegment)
    → length s.text ≤ 1200
    → (d : List TranscriptSegment) × (k : List TranscriptSegment) × (add s retained
        ≡ ok (k ++ (s ∷ [])))
      × (d ++ k ≡ retained)
      × Fits (k ++ (s ∷ []))
      × ((d' t : List TranscriptSegment)
          → d' ++ t ≡ retained ++ (s ∷ [])
          → Fits t
          → length t ≤ length (k ++ (s ∷ [])))
unfolding add
add-longest s retained h =
    let (d1, k1, e1, p1, l1) = trim_count-last s retained in
    let (d2, k2, e2, p2, l2) = trim_text-last s k1 h in
    let few : length (k2 ++ (s ∷ [])) ≤ 7 =
      omega (
        arith,
        length-append k2 (s ∷ []),
        length-append k1 (s ∷ []),
        length_from_end d2 k2 k1 p2,
      ) in
    (
      d1 ++ d2,
      k2,
      rw (not_long h) (rw (e1, e2)),
      append_assoc d1 d2 k2 ∙ ap (d1 ++◌) p2 ∙ p1,
      record { few = few; short = l2 },
      λ d' t e f. longest d' t k1 k2 e f e1 e2,
    )
  where
    not_long : length s.text ≤ 1200 → ltb 1200 (length s.text) ≡ false
    not_long k = ground arith

    longest :
        (d' t k1 k2 : List TranscriptSegment)
        → d' ++ t ≡ retained ++ (s ∷ [])
        → Fits t
        → trim_count (retained ++ (s ∷ [])) ≡ k1 ++ (s ∷ [])
        → trim_text (k1 ++ (s ∷ [])) ≡ k2 ++ (s ∷ [])
        → length t ≤ length (k2 ++ (s ∷ []))
    longest d' [] k1 k2 e f e1 e2 = omega arith
    longest d' (x ∷ t) k1 k2 e f e1 e2 =
        let (a, p) = trim_count-keeps d' (x ∷ t) f.few in
        let q : a ++ (x ∷ t) ≡ k1 ++ (s ∷ []) = p ∙ ap trim_count e ∙ e1 in
        let (b, r) = trim_text-keeps a (x ∷ t) f.short (omega arith) in
        length_from_end b (x ∷ t) (k2 ++ (s ∷ [])) (r ∙ ap trim_text q ∙ e2)
