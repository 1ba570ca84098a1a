-- ===== src/Recording/Expiry.antt =====
-- The expiry of a retention policy (backend/app/application/dto/recordings/retention.py).
use ai_meeting_copilot.Prelude.{
  ℕ, ◌+◌, ◌*◌, ◌<◌, ◌≡◌, refl, ap, ◌≢◌, Option, none, some, arith, ok, is_utc_offset, pos, DateTime,
}
use ai_meeting_copilot.Recording.Metadata.{
  microseconds_per_day, expiry, RecordingRetentionPolicy, one_day, seven_days, thirty_days, manual,
}
use ai_meeting_copilot.Recording.Validity.{InUtc}

-- How long a recording is kept under a policy, in microseconds.
abbrev pub lifetime : RecordingRetentionPolicy → Option ℕ
lifetime one_day = some 86400000000
lifetime seven_days = some 604800000000
lifetime thirty_days = some 2592000000000
lifetime manual = none

abbrev pub end_of_life : DateTime → Option ℕ → Option DateTime
end_of_life t none = none
end_of_life t (some n) = some (record t { instant = t.instant + n })

-- The expiry of a policy at a time: behind its lifetime, and none under manual retention.
pub record IsExpiry (policy : RecordingRetentionPolicy) (t : DateTime) (e : Option DateTime)
    : Type 0 where
  pub exact : e ≡ end_of_life t (lifetime policy)
  pub utc : InUtc e
  pub kept : policy ≡ manual → e ≡ none
  pub timed : policy ≢ manual → (x : DateTime) × (e ≡ some x) × (t.instant < x.instant)

later-IsExpiry :
    (policy : RecordingRetentionPolicy) (t : DateTime) (n : ℕ)
    → t.offset ≡ some (pos 0)
    → policy ≢ manual
    → 0 < n
    → lifetime policy ≡ some n
    → IsExpiry policy t (some (record t { instant = t.instant + n }))
later-IsExpiry policy t n u p h l = record {
  exact = rw l refl;
  utc = λ s e. cc;
  kept = λ e. absurd (p e);
  timed = λ _. (record t { instant = t.instant + n }, refl, omega arith);
}

pub expiry-IsExpiry :
    (policy : RecordingRetentionPolicy) (t : DateTime)
    → t.offset ≡ some (pos 0)
    → (e : Option DateTime) × (expiry policy t ≡ ok e) × IsExpiry policy t e
unfolding expiry
expiry-IsExpiry one_day t u = (
  _,
  rw (ap is_utc_offset u),
  later-IsExpiry one_day t (1 * microseconds_per_day) u (λ e. cc) (omega arith) refl,
)
expiry-IsExpiry seven_days t u = (
  _,
  rw (ap is_utc_offset u),
  later-IsExpiry seven_days t (7 * microseconds_per_day) u (λ e. cc) (omega arith) refl,
)
expiry-IsExpiry thirty_days t u = (
  _,
  rw (ap is_utc_offset u),
  later-IsExpiry thirty_days t (30 * microseconds_per_day) u (λ e. cc) (omega arith) refl,
)
expiry-IsExpiry manual t u = (
  none,
  rw (ap is_utc_offset u),
  record { exact = refl; utc = λ s e. cc; kept = λ _. refl; timed = λ n. absurd (n refl) },
)
