-- ===== src/Live/Deduplicator.antt =====
-- Removing the words that a chunk repeats from the text before it
-- (backend/app/application/services/transcript_deduplicator.py). `str.lower` is an argument, as
-- it depends on the Unicode tables of the interpreter.
pub mod Overlap
pub mod Results
use ai_meeting_copilot.Prelude.{
  ℕ, zero, suc, ◌-◌, min, Bool, true, false, ◌&&◌, ◌||◌, Option, none, some, List, [], ◌∷◌, ◌++◌,
  map, arith, leb, ◌==◌, if◌then◌else◌, length, take, drop, take_last, application_validation,
  Result, ok, err, Text, is_space, strip_by, strip, is_empty, is_blank, ◌=ᵗ◌,
}

-- `c in string.punctuation`
unfoldable pub is_punctuation : ℕ → Bool
is_punctuation c =
    (leb 33 c && leb c 47)
    || (leb 58 c && leb c 64)
    || (leb 91 c && leb c 96)
    || (leb 123 c && leb c 126)

-- The matches of `\S+` from a position on, with their spans; `word` is the part of a match read
-- so far. `text.split()` are the matches without their spans.
unfoldable pub words_from : ℕ → Text → Text → List (Text × ℕ × ℕ)
words_from position word [] =
    if is_empty word then [] else (word, position - length word, position) ∷ []
words_from position word (c ∷ s) =
    let space = words_from (suc position) [] s in
    let letter = words_from (suc position) (word ++ (c ∷ [])) s in
    if is_space c
    then if is_empty word then space else (word, position - length word, position) ∷ space
    else letter

-- `TranscriptDeduplicator.__init__`
unfoldable pub deduplicator_init : ℕ → Result ℕ
deduplicator_init max_overlap =
    if max_overlap == 0 then err application_validation else ok max_overlap

-- Equal lists of tokens.
abbrev pub same_tokens : List Text → List Text → Bool
same_tokens [] [] = true
same_tokens [] (t ∷ ts) = false
same_tokens (s ∷ ss) [] = false
same_tokens (s ∷ ss) (t ∷ ts) = s =ᵗ t && same_tokens ss ts

-- The loop over `range(maximum_overlap, 0, -1)`: the first size at which the last tokens before
-- are the first tokens now, or 0.
unfoldable pub overlap_size : ℕ → List Text → List Text → ℕ
overlap_size zero previous current = 0
overlap_size (suc k) previous current =
    let rest = overlap_size k previous current in
    if same_tokens (take_last (suc k) previous) (take (suc k) current) then suc k else rest

-- `text or None`
abbrev pub or_none : Text → Option Text
or_none [] = none
or_none (c ∷ s) = some (c ∷ s)

-- The end of the span of the n-th token, counted from 1.
abbrev pub end_of : ℕ → List (Text × ℕ × ℕ) → ℕ
end_of n [] = 0
end_of zero (w ∷ ws) = 0
end_of (suc zero) (w ∷ ws) = w.2
end_of (suc (suc n)) (w ∷ ws) = end_of (suc n) ws

module _ (lower : Text → Text) where
  -- `token.lower().strip(string.punctuation)`
  abbrev pub normalize : Text → Text
  normalize token = strip_by is_punctuation (lower token)

  -- Both comprehensions drop the tokens that normalize to nothing.
  unfoldable pub normalized_current_tokens : List (Text × ℕ × ℕ) → List (Text × ℕ × ℕ)
  normalized_current_tokens [] = []
  normalized_current_tokens ((w, start, end_index) ∷ ws) =
      let rest = normalized_current_tokens ws in
      if is_empty (normalize w) then rest else (normalize w, start, end_index) ∷ rest

  unfoldable pub normalized_tokens : Text → List Text
  unfolding words_from normalized_current_tokens
  normalized_tokens text =
      map (λ (w : Text × ℕ × ℕ). w.0) (normalized_current_tokens (words_from 0 [] text))

  module _ (max_overlap : ℕ) where
    -- `deduplicate` behind its first two tests, on the trimmed text and both lists of tokens.
    unfoldable pub remove_overlap : Text → List Text → List (Text × ℕ × ℕ) → Option Text
    unfolding overlap_size
    remove_overlap trimmed previous current =
        let tokens = map (λ (w : Text × ℕ × ℕ). w.0) current in
        let size =
          overlap_size (min max_overlap (min (length previous) (length current))) previous tokens in
        if is_empty previous || is_empty current
        then some trimmed
        else if size == 0
        then some trimmed
        else if size == length current
        then none
        else or_none (strip (drop (end_of size current) trimmed))

    unfoldable pub deduplicate : Option Text → Text → Option Text
    unfolding remove_overlap normalized_tokens
    deduplicate none current = or_none (strip current)
    deduplicate (some previous) current =
        let trimmed = strip current in
        if is_empty trimmed
        then none
        else if is_blank previous
        then some trimmed
        else remove_overlap trimmed (normalized_tokens previous)
            (normalized_current_tokens (words_from 0 [] trimmed))
