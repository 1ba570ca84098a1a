-- ===== src/Live/Deduplicator/Results.antt =====
-- The texts that deduplication accepts and drops
-- (backend/app/application/services/transcript_deduplicator.py).
use mathlib.Core.Path.{subst}
use ai_meeting_copilot.Prelude.{
  ℕ, ◌≤◌, ◌<◌, min, ◌≡◌, refl, sym, ap, ◌∙◌, ◌≢◌, ◌⊎◌, inl, inr, Bool, false, ◌||◌, Option, none,
  some, List, [], ◌∷◌, map, arith, ◌==◌, ==_iff, ==_refl, Bool-cases, length, take, drop, take_last,
  Text, is_space, drop_while, drop_while_end, strip, is_empty, is_blank,
}
use ai_meeting_copilot.Live.Deduplicator.{
  words_from, overlap_size, or_none, end_of, normalized_current_tokens, normalized_tokens,
  remove_overlap, deduplicate,
}
use ai_meeting_copilot.Live.Deduplicator.Overlap.{overlap_size-IsLargest}

head_drop_while :
    (p : ℕ → Bool) (s : Text) (c : ℕ) (t : Text) → drop_while p s ≡ c ∷ t → p c ≡ false
head_drop_while p [] c t h = cc
head_drop_while p (d ∷ s) c t h = elim (Bool-cases (p d)) [
  | inl skip ↦ head_drop_while p s c t (rw skip at h)
  | inr stop ↦ same_head d c s t stop (rw stop at h)
]
  where
    same_head : (d c : ℕ) (s t : Text) → p d ≡ false → d ∷ s ≡ c ∷ t → p c ≡ false
    same_head d c s t e k = cc

head_drop_while_end :
    (p : ℕ → Bool) (s : Text) (c : ℕ) (t : Text)
    → drop_while_end p s ≡ c ∷ t
    → (u : Text) × (s ≡ c ∷ u)
head_drop_while_end p [] c t h = cc
head_drop_while_end p (d ∷ s) c t h = (s, ground arith)

List-cases {ℓ} : {A : Type ℓ} (xs : List A) → (xs ≡ []) ⊎ ((y : A) × (ys : List A) × (xs ≡ y ∷ ys))
List-cases [] = inl refl
List-cases (x ∷ xs) = inr (x, xs, refl)

some_inj {ℓ} : {A : Type ℓ} {a b : A} → some a ≡ some b → a ≡ b
some_inj h = cc

-- A text that begins with no white space is not blank.
begins_not_blank : (c : ℕ) (s : Text) → is_space c ≡ false → is_blank (c ∷ s) ≡ false
begins_not_blank c s h = elim (List-cases (drop_while_end is_space s)) [
  | inl e ↦ rw (h, e, h)
  | inr (d, u, e) ↦ rw (h, e)
]

-- What `strip` leaves is not blank.
strip-not_blank : (s : Text) (c : ℕ) (t : Text) → strip s ≡ c ∷ t → is_blank (c ∷ t) ≡ false
strip-not_blank s c t h =
    let (u, e) = head_drop_while_end is_space (drop_while is_space s) c t h in
    begins_not_blank c t (head_drop_while is_space s c u e)

or_none-some : (s : Text) {r : Text} → or_none s ≡ some r → (r ≡ s) × (r ≢ [])
or_none-some [] h = cc
or_none-some (c ∷ s) h = (cc, λ e. cc)

or_none-strip :
    (s : Text) {r : Text} → or_none (strip s) ≡ some r → (is_blank r ≡ false) × (r ≡ strip s)
or_none-strip s {r} h = let (e, n) = or_none-some (strip s) h in (go r e n, e)
  where
    go : (r : Text) → r ≡ strip s → r ≢ [] → is_blank r ≡ false
    go [] e n = absurd (n refl)
    go (c ∷ t) e n = strip-not_blank s c t (sym e)

-- The text without the overlap: all of it, or what follows some position.
abbrev pub IsTail : Text → Text → Type 0
IsTail current r = (r ≡ strip current) ⊎ ((n : ℕ) × (r ≡ strip (drop n (strip current))))

not_empty_strip : (s : Text) → is_empty (strip s) ≡ false → is_blank (strip s) ≡ false
not_empty_strip s h = go (strip s) refl h
  where
    go : (t : Text) → t ≡ strip s → is_empty t ≡ false → is_blank t ≡ false
    go [] e n = cc
    go (c ∷ t) e n = strip-not_blank s c t (sym e)

kept :
    (current : Text) {r : Text}
    → is_empty (strip current) ≡ false
    → some (strip current) ≡ some r
    → (is_blank r ≡ false) × IsTail current r
kept current {r} n h =
    let e : strip current ≡ r = some_inj h in
    (subst (λ s. is_blank s ≡ false) e (not_empty_strip current n), inl (sym e))

take_all {ℓ κ} :
    {A : Type ℓ} {B : Type κ} (f : A → B) (xs : List A) → take (length xs) (map f xs) ≡ map f xs
take_all f [] = refl
take_all f (x ∷ xs) = ap (◌∷◌ (f x)) (take_all f xs)

not_empty : {A : Type 0} (xs : List A) → 0 < length xs → is_empty xs ≡ false
not_empty [] h = absurd (omega arith)
not_empty (x ∷ xs) h = refl

module _ (lower : Text → Text) (max_overlap : ℕ) where
  remove_overlap-IsTail :
      (current : Text) (previous : List Text) (tokens : List (Text × ℕ × ℕ)) (r : Text)
      → is_empty (strip current) ≡ false
      → remove_overlap lower max_overlap (strip current) previous tokens ≡ some r
      → (is_blank r ≡ false) × IsTail current r
  unfolding remove_overlap
  remove_overlap-IsTail current previous tokens r n h =
      let words = map (λ (w : Text × ℕ × ℕ). w.0) tokens in
      let size =
        overlap_size (min max_overlap (min (length previous) (length tokens))) previous words in
      elim (Bool-cases (is_empty previous || is_empty tokens)) [
        | inl nothing ↦ kept current n (rw nothing at h)
        | inr words_left ↦ elim (Bool-cases (size == 0)) [
          | inl no_overlap ↦ kept current n (rw (words_left, no_overlap) at h)
          | inr overlap ↦ elim (Bool-cases (size == length tokens)) [
            | inl whole ↦ cc (rw (words_left, overlap, whole) at h)
            | inr part ↦
                let (b, e) =
                  or_none-strip (drop (end_of size tokens) (strip current))
                    (rw (words_left, overlap, part) at h) in
                (b, inr (end_of size tokens, e))
          ]
        ]
      ]

  -- What is accepted of a text is not blank, and is the stripped text or a stripped tail of it.
  pub deduplicate-IsTail :
      (previous : Option Text) (current r : Text)
      → deduplicate lower max_overlap previous current ≡ some r
      → (is_blank r ≡ false) × IsTail current r
  unfolding deduplicate
  deduplicate-IsTail none current r h = let (a, b) = or_none-strip current h in (a, inl b)
  deduplicate-IsTail (some previous) current r h = elim (Bool-cases (is_empty (strip current))) [
    | inl nothing ↦ cc (rw nothing at h)
    | inr text ↦ elim (Bool-cases (is_blank previous)) [
      | inl fresh ↦ kept current text (rw (text, fresh) at h)
      | inr before ↦
          remove_overlap-IsTail current (normalized_tokens lower previous) _ r text
            (rw (text, before) at h)
    ]
  ]

  whole_overlap :
      (previous : List Text) (tokens : List (Text × ℕ × ℕ))
      → let words = map (λ (w : Text × ℕ × ℕ). w.0) tokens in
        0 < length tokens
        → length tokens ≤ max_overlap
        → length tokens ≤ length previous
        → take_last (length tokens) previous ≡ words
        → overlap_size (min max_overlap (min (length previous) (length tokens))) previous words
          ≡ length tokens
  whole_overlap previous tokens p m l e =
      let words = map (λ (w : Text × ℕ × ℕ). w.0) tokens in
      let bound : min max_overlap (min (length previous) (length tokens)) ≡ length tokens =
        omega arith in
      let best = overlap_size-IsLargest (length tokens) previous words in
      rw bound (elim (Bool-cases (overlap_size (length tokens) previous words == length tokens)) [
        | inl found ↦ (==_iff _ _).0 found
        | inr less ↦ absurd (
            best.largest (length tokens) (below _ _ best.within less) (omega arith)
              (e ∙ sym (take_all (λ (w : Text × ℕ × ℕ). w.0) tokens)))
      ])
    where
      below : (a b : ℕ) → a ≤ b → (a == b) ≡ false → a < b
      below a b h k = ground arith

  repeated :
      (trimmed : Text) (previous : List Text) (tokens : List (Text × ℕ × ℕ))
      → let words = map (λ (w : Text × ℕ × ℕ). w.0) tokens in
        0 < length tokens
        → length tokens ≤ max_overlap
        → length tokens ≤ length previous
        → take_last (length tokens) previous ≡ words
        → remove_overlap lower max_overlap trimmed previous tokens ≡ none
  unfolding remove_overlap
  repeated trimmed previous tokens p m l e = rw (
    not_empty previous (omega arith),
    not_empty tokens p,
    whole_overlap previous tokens p m l e,
    positive (length tokens) p,
    ==_refl (length tokens),
  )
    where
      positive : (n : ℕ) → 0 < n → (n == 0) ≡ false
      positive n h = ground arith

  -- A text is dropped if all its words are the last words before it, up to case and punctuation
  -- and within the limit.
  pub deduplicate_repeated :
      (previous current : Text)
      → is_blank previous ≡ false
      → let tokens = normalized_current_tokens lower (words_from 0 [] (strip current)) in
        0 < length tokens
        → length tokens ≤ max_overlap
        → length tokens ≤ length (normalized_tokens lower previous)
        → take_last (length tokens) (normalized_tokens lower previous)
          ≡ map (λ (w : Text × ℕ × ℕ). w.0) tokens
        → deduplicate lower max_overlap (some previous) current ≡ none
  unfolding deduplicate
  deduplicate_repeated previous current b p m l e = elim (Bool-cases (is_empty (strip current))) [
    | inl nothing ↦ rw nothing
    | inr text ↦
        rw (text, b)
          (repeated (strip current) (normalized_tokens lower previous)
            (normalized_current_tokens lower (words_from 0 [] (strip current))) p m l e)
  ]
