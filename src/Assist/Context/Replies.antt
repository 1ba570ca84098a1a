-- ===== src/Assist/Context/Replies.antt =====
-- The context of a request for replies
-- (backend/app/application/dto/assist_mode/reply_context.py).
use mathlib.Core.Path.{subst}
use ai_meeting_copilot.Prelude.{
  ℕ, zero, suc, ◌-◌, ◌≤◌, ◌≡◌, refl, ap, ◌∙◌, ◌⊎◌, inl, inr, Bool, false, not, ◌||◌, some, List, [],
  ◌∷◌, ◌++◌, arith, is_space, ltb, if◌then◌else◌, Bool-cases, length, take, drop, take_last,
  get_last?, length-append, append_assoc, take-append-drop, length-drop, take_append, ok-injective,
  >>=-eq-ok, ok, is_utc, Text, drop_while, drop_while_end, strip, is_blank,
}
use ai_meeting_copilot.Assist.Context.{
  transcript_segment_post_init, combined_text_length, trim_previous, reply_context_post_init,
  conversation_text, build_reply_context, TranscriptSegment, ReplyContext,
}
use ai_meeting_copilot.Assist.Context.Longest.{Fits}

get_last?-append :
    (k : List TranscriptSegment) (s : TranscriptSegment) → get_last? (k ++ (s ∷ [])) ≡ some s
get_last?-append [] s = refl
get_last?-append (x ∷ []) s = refl
get_last?-append (x ∷ y ∷ k) s = get_last?-append (y ∷ k) s

drop_none : (n : ℕ) (xs : List TranscriptSegment) → n ≡ 0 → drop n xs ≡ xs
drop_none zero xs h = refl
drop_none (suc n) xs h = absurd (omega arith)

trim_previous_short :
    (s : TranscriptSegment) (k : List TranscriptSegment)
    → combined_text_length (k ++ (s ∷ [])) ≤ 1200
    → trim_previous s k ≡ k
unfolding trim_previous
trim_previous_short s [] h = refl
trim_previous_short s (x ∷ k) h = rw (not_long h)
  where
    not_long :
        combined_text_length ((x ∷ k) ++ (s ∷ [])) ≤ 1200
        → ltb 1200 (combined_text_length ((x ∷ k) ++ (s ∷ []))) ≡ false
    not_long h = ground arith

reply_context_post_init-exact :
    (k : List TranscriptSegment) (s : TranscriptSegment)
    → Fits (k ++ (s ∷ []))
    → reply_context_post_init s k
      ≡ ok (record { newest_finalized_segment = s; previous_finalized_segments = k })
unfolding reply_context_post_init
reply_context_post_init-exact k s f =
    let few : length k - 6 ≡ 0 = omega (arith, length-append k (s ∷ []), f.few) in
    rw (drop_none (length k - 6) k few)
      (rw (trim_previous_short s k f.short) (rw (not_long f.short)))
  where
    not_long :
        combined_text_length (k ++ (s ∷ [])) ≤ 1200
        → ltb 1200 (combined_text_length (k ++ (s ∷ []))) ≡ false
    not_long h = ground arith

-- For a retained context within its limits the request holds all of it: the newest segment, and
-- all the others in their order; no text is trimmed and nothing raises.
pub build_reply_context-exact :
    (k : List TranscriptSegment) (s : TranscriptSegment)
    → Fits (k ++ (s ∷ []))
    → build_reply_context (k ++ (s ∷ []))
      ≡ ok (some (record { newest_finalized_segment = s; previous_finalized_segments = k }))
unfolding build_reply_context
build_reply_context-exact k s f =
    let len : length (k ++ (s ∷ [])) - 1 ≡ length k = omega (arith, length-append k (s ∷ [])) in
    rw (get_last?-append k s, build_reply_context)
      (rw (len, take_append k (s ∷ []), reply_context_post_init-exact k s f))

length-drop_while : (p : ℕ → Bool) (s : Text) → length (drop_while p s) ≤ length s
length-drop_while p [] = omega arith
length-drop_while p (c ∷ s) = elim (Bool-cases (p c)) [
  | inl h ↦ rw h (omega (arith, length-drop_while p s))
  | inr h ↦ rw h (omega arith)
]

length-drop_while_end : (p : ℕ → Bool) (s : Text) → length (drop_while_end p s) ≤ length s
length-drop_while_end p [] = omega arith
length-drop_while_end p (c ∷ s) = cases (drop_while_end p s) (length-drop_while_end p s)
  where
    cases :
        (t : Text)
        → length t ≤ length s
        → length (elim t as (λ _. Text) [ [] ↦ if p c then [] else c ∷ [] | d ∷ u ↦ c ∷ d ∷ u ])
          ≤ suc (length s)
    cases [] h = elim (Bool-cases (p c)) [ inl e ↦ rw e (omega arith) | inr e ↦ rw e (omega arith) ]
    cases (d ∷ u) h = omega arith

length-strip : (s : Text) → length (strip s) ≤ length s
length-strip s =
    omega
      (arith, length-drop_while is_space s, length-drop_while_end is_space (drop_while is_space s))

-- The loop stops at the first history that fits, or with none left.
trim_previous-end :
    (s : TranscriptSegment) (ss : List TranscriptSegment)
    → (d : List TranscriptSegment) × (d ++ trim_previous s ss ≡ ss)
      × ((trim_previous s ss ≡ []) ⊎ (combined_text_length (trim_previous s ss ++ (s ∷ [])) ≤ 1200))
unfolding trim_previous
trim_previous-end s [] = ([], refl, inl refl)
trim_previous-end s (x ∷ ss) =
    elim (Bool-cases (ltb 1200 (combined_text_length ((x ∷ ss) ++ (s ∷ []))))) [
      | inl long ↦
          let (d, e, h) = trim_previous-end s ss in (x ∷ d, rw long (ap (◌∷◌ x) e), rw long h)
      | inr short ↦ ([], rw short refl, inr (rw short (ground arith)))
    ]

transcript_segment_post_init-eq :
    (s t : TranscriptSegment) → transcript_segment_post_init s ≡ ok t → s ≡ t
unfolding transcript_segment_post_init
transcript_segment_post_init-eq s t h =
    elim (Bool-cases (is_blank s.text || not (is_utc s.timestamp) || is_blank s.speaker)) [
      | inl bad ↦ cc (rw bad at h)
      | inr good ↦ ok-injective s t (rw good at h)
    ]

strip_short :
    (s t : TranscriptSegment)
    → record s { text = strip (take_last 1200 s.text) } ≡ t
    → length t.text ≤ 1200
strip_short s t e =
    subst (λ (t : TranscriptSegment). length t.text ≤ 1200) e
      (omega
        (arith, length-strip (take_last 1200 s.text), length-drop (length s.text - 1200) s.text))

alone_short :
    (ss : List TranscriptSegment) (s : TranscriptSegment)
    → ss ≡ []
    → length s.text ≤ 1200
    → combined_text_length (ss ++ (s ∷ [])) ≤ 1200
alone_short ss s e h = rw e h

-- Within the limits on the text and the number of segments, with a history that ends this one.
pub record Bounded (previous : List TranscriptSegment) (c : ReplyContext) : Type 0 where
  pub short : length (conversation_text c) ≤ 1200
  pub few : length c.previous_finalized_segments ≤ 6
  pub tail : (d : List TranscriptSegment) × (d ++ c.previous_finalized_segments ≡ previous)

-- Every context of a request is within the limits: its text has at most 1,200 characters, and
-- its history is the newest part, at most 6 segments, of the history that was given.
pub reply_context_post_init-Bounded :
    (newest : TranscriptSegment) (previous : List TranscriptSegment) (c : ReplyContext)
    → reply_context_post_init newest previous ≡ ok c
    → Bounded previous c
unfolding reply_context_post_init
reply_context_post_init-Bounded newest previous c h =
    let given = take_last 6 previous in
    let kept = trim_previous newest given in
    let (d, e, stops) = trim_previous-end newest given in
    let few : length kept ≤ 6 =
      omega
        (arith, length-append d kept, ap length e, length-drop (length previous - 6) previous) in
    let tail : (take (length previous - 6) previous ++ d) ++ kept ≡ previous =
      append_assoc (take (length previous - 6) previous) d kept
      ∙ ap (take (length previous - 6) previous ++◌) e
      ∙ take-append-drop (length previous - 6) previous in
    let context : TranscriptSegment → ReplyContext =
      λ s. record { newest_finalized_segment = s; previous_finalized_segments = kept } in
    elim (Bool-cases (ltb 1200 (combined_text_length (kept ++ (newest ∷ []))))) [
      | inr short ↦
          subst (Bounded previous) (ok-injective (context newest) c (rw short at h)) (record {
            short = ground arith;
            few = few;
            tail = (take (length previous - 6) previous ++ d, tail);
          })
      | inl long ↦
          let cut = record newest { text = strip (take_last 1200 newest.text) } in
          let found : (s : TranscriptSegment) × (transcript_segment_post_init cut ≡ ok s)
              × (ok (context s) ≡ ok c) =
            >>=-eq-ok (transcript_segment_post_init cut) (λ s. ok (context s)) c (rw long at h) in
          let same : cut ≡ found.0 = transcript_segment_post_init-eq cut found.0 found.1 in
          let none_left : kept ≡ [] = elim stops [ inl e ↦ e | inr fits ↦ absurd (ground arith) ] in
          subst (Bounded previous) (ok-injective (context found.0) c found.2) (record {
            short = alone_short kept found.0 none_left (strip_short newest found.0 same);
            few = few;
            tail = (take (length previous - 6) previous ++ d, tail);
          })
    ]
