-- ===== src/Recording/Work/Observed.antt =====
-- Any storage, key store and database, observed from outside: which deletions they have answered
-- (backend/app/application/interfaces).
use ai_meeting_copilot.Prelude.{
  ℕ, ◌≡◌, refl, sym, ◌∙◌, ◌≢◌, inl, inr, Bool, true, false, ◌==◌, if◌then◌else◌, ==_iff, ==_refl,
  Bool-cases, Error, recording_segment_not_found, recording_key_not_found, Result, err, ok, Text,
  ◌=ᵗ◌,
}
use ai_meeting_copilot.Recording.Work.{Resources}
use ai_meeting_copilot.Recording.Work.Ends.{Lawful}
use ai_meeting_copilot.Live.Deduplicator.Overlap.{=ᵗ-refl}

-- What the services do is not restricted: `delete_recording` may return while files are left.
pub record RecordingServices (V : Type 0) : Type 0 where
  pub delete_recording : ℕ → V → Result (Unit {0}) × V
  pub delete_key : Text → V → Result (Unit {0}) × V
  pub recording_exists : ℕ → V → Result Bool × V
  pub key_exists : Text → V → Result Bool × V
  pub query : V → Result (Unit {0}) × V
  pub commit : V → Result (Unit {0}) × V

-- The world of the services, with the recordings and keys that are not answered for.
pub record Observed (V : Type 0) : Type 0 where
  pub world : V
  pub open_recordings : ℕ → Bool
  pub open_keys : Text → Bool

-- The call returned, or it raised that the thing is not there.
abbrev pub is_answer : Error → Result (Unit {0}) → Bool
is_answer not_found (ok done) = true
is_answer recording_segment_not_found (err recording_segment_not_found) = true
is_answer recording_key_not_found (err recording_key_not_found) = true
is_answer _ (err e) = false

module _ {V : Type 0} where
  abbrev pub close_recording : ℕ → Observed V → Observed V
  close_recording id o = record o {
    open_recordings = λ j. if j == id then false else o.open_recordings j;
  }

  abbrev pub close_key : Text → Observed V → Observed V
  close_key key o = record o { open_keys = λ k. if k =ᵗ key then false else o.open_keys k }

  abbrev pub with_world : {A : Type 0} → Observed V → Result A × V → Result A × Observed V
  with_world o (r, v) = (r, record o { world = v })

  abbrev pub behind : {A : Type 0} → Observed V → Result A × V → Observed V
  behind o c = record o { world = c.1 }

  abbrev pub is_recording_answer : Result (Unit {0}) × V → Bool
  is_recording_answer c = is_answer recording_segment_not_found c.0

  abbrev pub is_key_answer : Result (Unit {0}) × V → Bool
  is_key_answer c = is_answer recording_key_not_found c.0

  abbrev pub answer_recording :
      ℕ → Observed V → Result (Unit {0}) × V → Result (Unit {0}) × Observed V
  answer_recording id o c =
      (c.0, if is_recording_answer c then close_recording id (behind o c) else behind o c)

  abbrev pub answer_key : Text → Observed V → Result (Unit {0}) × V → Result (Unit {0}) × Observed V
  answer_key key o c = (c.0, if is_key_answer c then close_key key (behind o c) else behind o c)

  abbrev pub observed : RecordingServices V → Resources (Observed V)
  observed S = record {
    delete_recording = λ id o. answer_recording id o (S.delete_recording id o.world);
    delete_key = λ key o. answer_key key o (S.delete_key key o.world);
    recording_exists = λ id o. with_world o (S.recording_exists id o.world);
    key_exists = λ key o. with_world o (S.key_exists key o.world);
    query = λ o. with_world o (S.query o.world);
    commit = λ o. with_world o (S.commit o.world);
    is_recording_open = λ o id. o.open_recordings id;
    is_key_open = λ o key. o.open_keys key;
  }

if_false : (b c : Bool) → c ≡ false → (if b then false else c) ≡ false
if_false true c h = refl
if_false false c h = h

kept_apart : (b c : Bool) → b ≡ false → c ≡ (if b then false else c)
kept_apart true c h = cc
kept_apart false c h = refl

unequal : (j id : ℕ) → j ≢ id → (j == id) ≡ false
unequal j id n = elim (Bool-cases (j == id)) [ inl e ↦ absurd (n ((==_iff j id).0 e)) | inr e ↦ e ]

module _ {V : Type 0} where
  closed_if :
      (b : Bool) (id j : ℕ) (o : Observed V)
      → o.open_recordings j ≡ false
      → (if b then close_recording id o else o).open_recordings j ≡ false
  closed_if true id j o h = if_false (j == id) (o.open_recordings j) h
  closed_if false id j o h = h

  keys_if :
      (b : Bool) (id : ℕ) (key : Text) (o : Observed V)
      → o.open_keys key ≡ (if b then close_recording id o else o).open_keys key
  keys_if true id key o = refl
  keys_if false id key o = refl

  closed_key_if :
      (b : Bool) (key k : Text) (o : Observed V)
      → o.open_keys k ≡ false
      → (if b then close_key key o else o).open_keys k ≡ false
  closed_key_if true key k o h = if_false (k =ᵗ key) (o.open_keys k) h
  closed_key_if false key k o h = h

  recordings_if :
      (b : Bool) (key : Text) (j : ℕ) (o : Observed V)
      → o.open_recordings j ≡ (if b then close_key key o else o).open_recordings j
  recordings_if true key j o = refl
  recordings_if false key j o = refl

  others_if :
      (b : Bool) (id j : ℕ) (o : Observed V)
      → j ≢ id
      → o.open_recordings j ≡ (if b then close_recording id o else o).open_recordings j
  others_if true id j o n = kept_apart (j == id) (o.open_recordings j) (unequal j id n)
  others_if false id j o n = refl

  pub observed-Lawful : (S : RecordingServices V) → Lawful (observed S)
  observed-Lawful S = record {
    recording_deleted = λ id o h. rw (h, ==_refl id) refl;
    recording_not_found = λ id o h. rw (h, ==_refl id) refl;
    key_deleted = λ key o h. rw (h, =ᵗ-refl key) refl;
    key_not_found = λ key o h. rw (h, =ᵗ-refl key) refl;
    delete_recording_fewer = λ id o. record {
      recordings = λ j h.
          closed_if (is_recording_answer (S.delete_recording id o.world)) id j
            (behind o (S.delete_recording id o.world)) h;
      keys = λ key h.
          sym (
            keys_if (is_recording_answer (S.delete_recording id o.world)) id key
              (behind o (S.delete_recording id o.world)))
          ∙ h;
    };
    delete_key_fewer = λ key o. record {
      recordings = λ j h.
          sym (
            recordings_if (is_key_answer (S.delete_key key o.world)) key j
              (behind o (S.delete_key key o.world)))
          ∙ h;
      keys = λ k h.
          closed_key_if (is_key_answer (S.delete_key key o.world)) key k
            (behind o (S.delete_key key o.world)) h;
    };
    other_recordings = λ id o j n.
        others_if (is_recording_answer (S.delete_recording id o.world)) id j
          (behind o (S.delete_recording id o.world)) n;
    key_deletion_recordings = λ key o j.
        recordings_if (is_key_answer (S.delete_key key o.world)) key j
          (behind o (S.delete_key key o.world));
    recording_exists_same = λ id o. record { recordings = λ j. refl; keys = λ k. refl };
    key_exists_same = λ key o. record { recordings = λ j. refl; keys = λ k. refl };
    query_same = λ o. record { recordings = λ j. refl; keys = λ k. refl };
    commit_same = λ o. record { recordings = λ j. refl; keys = λ k. refl };
  }
