-- ===== src/Prelude/Results.antt =====
-- The exception classes that the program raises (backend/app/domain/exceptions.py and
-- backend/app/application/exceptions), without their messages, and computations that may raise.
use mathlib.Core.Path.{◌≡◌, refl, ap}
use mathlib.Core.Logic.{◌⊎◌, inl, inr}
use mathlib.Core.Bool.{Bool, true, false}

pub data Error : Type 0 where
  validation_error : Error
  invariant_violation : Error
  invalid_state_transition : Error
  application_validation : Error
  lookup_error : Error
  runtime_error : Error
  recording_playback_unavailable : Error
  recording_storage_error : Error
  recording_segment_not_found : Error
  recording_segment_lifecycle : Error
  recording_key_store_error : Error
  recording_key_not_found : Error
  cancelled_error : Error
  provider_error : Error
  other_error : Error

-- What a call returns, or the class of what it raises.
pub data Result {ℓ} (A : Type ℓ) : Type ℓ where
  err : Error → Result A
  ok : A → Result A

infixl 5 ◌>>=◌ ◌>>◌
-- The statements behind a call run with its value, unless it raises.
abbrev pub ◌>>=◌ {ℓ κ} : {V : Type ℓ} {W : Type κ} → Result V → (V → Result W) → Result W
err raised >>= next = err raised
ok value >>= next = next value

-- The same without a value: a check before the rest.
abbrev pub ◌>>◌ {ℓ} : {V : Type ℓ} → Result (Unit {0}) → Result V → Result V
check >> rest = check >>= λ _. rest

-- `if refused: raise e`
abbrev pub raise_if : Bool → Error → Result (Unit {0})
raise_if true e = err e
raise_if false e = ok tt

pub Result-cases {ℓ} :
    {V : Type ℓ} (r : Result V) → ((v : V) × (r ≡ ok v)) ⊎ ((raised : Error) × (r ≡ err raised))
Result-cases (err raised) = inr (raised, refl)
Result-cases (ok v) = inl (v, refl)

or_else {ℓ} : {A : Type ℓ} → A → Result A → A
or_else d (ok a) = a
or_else d (err e) = d

pub ok-injective {ℓ} : {A : Type ℓ} (a b : A) → ◌≡◌ {A = Result A} (ok a) (ok b) → a ≡ b
unfolding or_else
ok-injective a b h = ap (or_else a) h

-- What a check that passed says, and what comes behind it.
pub raise_if-ok {ℓ} :
    {A : Type ℓ} (b : Bool) (e : Error) (r : Result A) (a : A)
    → (raise_if b e >> r) ≡ ok a
    → (b ≡ false) × (r ≡ ok a)
raise_if-ok true e r a h = cc
raise_if-ok false e r a h = (refl, h)

pub >>=-eq-ok {ℓ κ} :
    {A : Type ℓ} {B : Type κ} (m : Result A) (f : A → Result B) (b : B)
    → (m >>= f) ≡ ok b
    → (a : A) × (m ≡ ok a) × (f a ≡ ok b)
>>=-eq-ok (ok a) f b h = (a, refl, h)
>>=-eq-ok (err e) f b h = cc
