-- ===== src/Prelude/Texts.antt =====
-- Python's `str` as a list of code points, with the methods that the program calls.
use Prim.Native.Nat.{ℕ}
use Prim.Native.Char.{code}
use Prim.Native.String.{String}
use mathlib.Core.Bool.{Bool, true, false, ◌&&◌, ◌||◌}
use mathlib.Core.List.{List, [], ◌∷◌}
use ai_meeting_copilot.Prelude.Tests.{leb, ◌==◌, if◌then◌else◌}

abbrev pub Text : Type 0
Text = List ℕ

-- A literal, as its code points.
abbrev pub codes : String → Text
codes String.[] = []
codes (String.◌∷◌ c s) = code c ∷ codes s

-- `str.isspace` of one code point: what `strip`, `split` and `\s` treat as white space.
unfoldable pub is_space : ℕ → Bool
is_space c =
    (leb 9 c && leb c 13)
    || (leb 28 c && leb c 32)
    || (c == 133)
    || (c == 160)
    || (c == 5760)
    || (leb 8192 c && leb c 8202)
    || (c == 8232)
    || (c == 8233)
    || (c == 8239)
    || (c == 8287)
    || (c == 12288)

abbrev pub drop_while : (ℕ → Bool) → Text → Text
drop_while p [] = []
drop_while p (c ∷ s) = if p c then drop_while p s else c ∷ s

-- Drops what the test accepts at the right end.
abbrev pub drop_while_end : (ℕ → Bool) → Text → Text
drop_while_end p [] = []
drop_while_end p (c ∷ s) = elim (drop_while_end p s) [
  | [] ↦ if p c then [] else c ∷ []
  | d ∷ t ↦ c ∷ d ∷ t
]

-- `s.strip(chars)`
abbrev pub strip_by : (ℕ → Bool) → Text → Text
strip_by p s = drop_while_end p (drop_while p s)

-- `s.strip()`
abbrev pub strip : Text → Text
strip s = strip_by is_space s

-- `not s`
abbrev pub is_empty {ℓ} : {A : Type ℓ} → List A → Bool
is_empty [] = true
is_empty (x ∷ xs) = false

-- `not s.strip()`
abbrev pub is_blank : Text → Bool
is_blank s = is_empty (strip s)

infix 50 ◌=ᵗ◌
abbrev pub ◌=ᵗ◌ : Text → Text → Bool
[] =ᵗ [] = true
[] =ᵗ (d ∷ t) = false
(c ∷ s) =ᵗ [] = false
(c ∷ s) =ᵗ (d ∷ t) = c == d && s =ᵗ t
