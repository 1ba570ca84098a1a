-- ===== src/Protocol/Frame/Bytes.antt =====
-- Lengths and slices of the frames of backend/app/api/live_transcription/binary_frames.py.
use ai_meeting_copilot.Prelude.{
  ℕ, zero, suc, ◌+◌, ◌*◌, ◌/◌, ◌%◌, ◌≤◌, ◌<◌, ◌≡◌, refl, ap, Bool, true, false, not, ◌&&◌, List, [],
  ◌∷◌, ◌++◌, arith, ltb, ◌==◌, and_both, length, drop, length-append, Text, codes,
}
use ai_meeting_copilot.Protocol.Frame.{
  strip_prefix, utc_suffix, replace_utc_from, replace_utc, normalize_timestamp,
}

-- The two bytes of a length, read back.
pub big_endian : (n : ℕ) → n / 256 * 256 + n % 256 ≡ n
big_endian n = omega arith

pub drop_append : {A : Type 0} (xs ys : List A) → drop (length xs) (xs ++ ys) ≡ ys
drop_append [] ys = refl
drop_append (x ∷ xs) ys = drop_append xs ys

pub ltb-false : (a b : ℕ) → b ≤ a → ltb a b ≡ false
ltb-false a b h = ground arith

-- A time stamp without a plus sign, followed by the offset of UTC, is written with a Z.
unfoldable pub no_plus : Text → Bool
no_plus [] = true
no_plus (c ∷ s) = not (c == 43) && no_plus s

abbrev with_offset : Text → Text
with_offset s = s ++ utc_suffix

plus_false : (c : ℕ) → not (c == 43) ≡ true → (43 == c) ≡ false
plus_false c h = ground arith

replace_from :
    (fuel : ℕ) (s : Text)
    → no_plus s ≡ true
    → length s < fuel
    → replace_utc_from fuel (with_offset s) ≡ s ++ codes "Z"
unfolding replace_utc_from strip_prefix no_plus
replace_from zero s h f = absurd (none_below (length s) f)
  where
    none_below : (n : ℕ) → n < 0 → ⊥
    none_below n p = omega arith
replace_from (suc zero) [] h f = refl
replace_from (suc (suc fuel)) [] h f = refl
replace_from (suc fuel) (c ∷ s) h f =
    let (p, q) = and_both (not (c == 43)) (no_plus s) h in
    rw (replace_utc_from, plus_false c p) (ap (◌∷◌ c) (replace_from fuel s q (omega (arith, f))))

pub replace_utc_lem : (s : Text) → no_plus s ≡ true → replace_utc (s ++ utc_suffix) ≡ s ++ codes "Z"
unfolding replace_utc
replace_utc_lem s h =
    replace_from (length (with_offset s)) s h (omega (arith, length-append s utc_suffix))

pub normalize_timestamp_lem : (s : Text) → normalize_timestamp (s ++ codes "Z") ≡ s ++ utc_suffix
unfolding normalize_timestamp
normalize_timestamp_lem [] = refl
normalize_timestamp_lem (c ∷ []) = refl
normalize_timestamp_lem (c ∷ d ∷ s) = ap (◌∷◌ c) (normalize_timestamp_lem (d ∷ s))
