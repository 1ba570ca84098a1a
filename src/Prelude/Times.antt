-- ===== src/Prelude/Times.antt =====
-- Python's `datetime`, as the program uses it: an instant, and the offset from UTC unless the
-- value is naive. Two aware values compare by their instants.
use Prim.Native.Nat.{ℕ, zero, suc}
use mathlib.Core.Bool.{Bool, true, false}
use mathlib.Core.Option.{Option, none, some}

-- `negsuc n` is -(n + 1).
pub data ℤ : Type 0 where
  pos : ℕ → ℤ
  negsuc : ℕ → ℤ

-- `instant` counts microseconds, `offset` is `utcoffset()` and none for a naive value.
pub record DateTime : Type 0 where
  pub instant : ℕ
  pub offset : Option ℤ

-- `value.utcoffset() == timedelta(0)`
abbrev pub is_zero_offset : ℤ → Bool
is_zero_offset (pos zero) = true
is_zero_offset (pos (suc n)) = false
is_zero_offset (negsuc n) = false

-- not (`value.tzinfo is None or value.utcoffset() != timedelta(0)`)
abbrev pub is_utc_offset : Option ℤ → Bool
is_utc_offset none = false
is_utc_offset (some z) = is_zero_offset z

abbrev pub is_utc : DateTime → Bool
is_utc t = is_utc_offset t.offset
