-- ===== src/Recording/Work/Gone.antt =====
-- The calls of the storage and of the key store that delete, and what they leave.
use mathlib.Core.Path.{subst}
use ai_meeting_copilot.Prelude.{
  ℕ, ◌≡◌, refl, ap, ◌∙◌, inl, inr, Bool, false, Bool-cases, Error, recording_segment_not_found,
  recording_key_not_found, Result, err, ok,
}
use ai_meeting_copilot.Recording.Metadata.{RecordingMetadataRecord}
use ai_meeting_copilot.Exec.{◌>>=◌}
use ai_meeting_copilot.Exec.Ends.{Ends}
use ai_meeting_copilot.Recording.Work.{
  System, Resources, external, is_reference, key_reference_post_init, delete_key_of,
}
use ai_meeting_copilot.Recording.Work.Ends.{Fewer, Lawful, Safe, Fewer-refl, Fewer-trans}
use ai_meeting_copilot.Recording.Work.Steps.{Later, Answered, external-Ends}

module _ {W : Type 0} (R : Resources W) where
  pub Later-trans : (s t u : System W) → Later R s t → Later R t u → Later R s u
  Later-trans s t u f g = record {
    safe = g.safe;
    fewer = Fewer-trans R s.now.world t.now.world u.now.world f.fewer g.fewer;
  }

  -- What a call deletes is not there any more, and the table is as it was.
  pub record Gone (has : W → Bool) (s t : System W) : Type 0 where
    pub later : Later R s t
    pub rows : t.now.rows ≡ s.now.rows
    pub gone : has t.now.world ≡ false

  -- The call raised; it is answered for as well if the call says that it was not there.
  pub record Refused (has : W → Bool) (not_found : Error) (s : System W) (e : Error) (t : System W)
      : Type 0 where
    pub later : Later R s t
    pub rows : t.now.rows ≡ s.now.rows
    pub missing : e ≡ not_found → has t.now.world ≡ false

  pub absent-Gone :
      {has : W → Bool} {e : Error} {s t : System W} → Refused has e s e t → Gone has s t
  absent-Gone k = record { later = k.later; rows = k.rows; gone = k.missing refl }

  pub still : (s : System W) → Safe R s → Later R s s
  still s h = record { safe = h; fewer = Fewer-refl R s.now.world }

  call-Ends :
      (call : W → Result (Unit {0}) × W) (has : W → Bool) (not_found : Error) (s : System W)
      → Safe R s
      → Fewer R s.now.world (call s.now.world).1
      → ((call s.now.world).0 ≡ ok tt → has (call s.now.world).1 ≡ false)
      → ((call s.now.world).0 ≡ err not_found → has (call s.now.world).1 ≡ false)
      → Ends (λ _ t. Gone has s t) (λ e t. Refused has not_found s e t) (external call s)
  call-Ends call has not_found s h f done lost = go _ (external-Ends R call s h f)
    where
      go :
          (c : Result (Unit {0}) × System W)
          → Ends (λ a t. Answered R call (ok a) s t) (λ e t. Answered R call (err e) s t) c
          → Ends (λ _ t. Gone has s t) (λ e t. Refused has not_found s e t) c
      go (ok tt, t) g =
          let k = g.holds in
          record {
            holds = record {
              later = k.later;
              rows = k.rows;
              gone = subst (λ w. has w ≡ false) k.world (done k.answered);
            };
          }
      go (err e, t) g =
          let k = g.holds in
          record {
            holds = record {
              later = k.later;
              rows = k.rows;
              missing =
                  λ q. subst (λ w. has w ≡ false) k.world (lost (k.answered ∙ ap (λ x. err x) q));
            };
          }

  module _ (L : Lawful R) where
    pub delete_recording-Ends :
        (id : ℕ) (s : System W)
        → Safe R s
        → Ends
            (λ _ t. Gone (λ w. R.is_recording_open w id) s t)
            (λ e t. Refused (λ w. R.is_recording_open w id) recording_segment_not_found s e t)
            (external (R.delete_recording id) s)
    delete_recording-Ends id s h =
        call-Ends (R.delete_recording id) (λ w. R.is_recording_open w id)
          recording_segment_not_found s h (L.delete_recording_fewer id s.now.world)
          (L.recording_deleted id s.now.world) (L.recording_not_found id s.now.world)

    pub delete_key-Ends :
        (r : RecordingMetadataRecord) (s : System W)
        → Safe R s
        → Ends
            (λ _ t. Gone (λ w. R.is_key_open w r.key_reference) s t)
            (λ e t. Refused (λ w. R.is_key_open w r.key_reference) recording_key_not_found s e t)
            (delete_key_of R r s)
    unfolding delete_key_of ◌>>=◌ key_reference_post_init
    delete_key-Ends r s h = elim (Bool-cases (is_reference r.key_reference)) [
      | inl e ↦ rw e (
          call-Ends (R.delete_key r.key_reference) (λ w. R.is_key_open w r.key_reference)
            recording_key_not_found s h (L.delete_key_fewer r.key_reference s.now.world)
            (L.key_deleted r.key_reference s.now.world)
            (L.key_not_found r.key_reference s.now.world))
      | inr e ↦
          rw e (record { holds = record { later = still s h; rows = refl; missing = λ q. cc } })
    ]
