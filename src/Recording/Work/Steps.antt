-- ===== src/Recording/Work/Steps.antt =====
-- The two effects of Recording/Work, a call outside and a unit of work, and where they lead.
use mathlib.Core.Path.{subst}
use ai_meeting_copilot.Prelude.{
  ℕ, ◌≡◌, refl, ap, ◌∙◌, ◌⊎◌, inl, inr, Bool, true, false, Option, none, some, List, [], ◌∷◌, ◌==◌,
  if◌then◌else◌, ==_iff, Result, err, ok,
}
use ai_meeting_copilot.Recording.Metadata.{RecordingMetadataRecord}
use ai_meeting_copilot.Exec.{lift, continue, ◌>>=◌}
use ai_meeting_copilot.Exec.Ends.{Ends}
use ai_meeting_copilot.Recording.Stored.{SameRecording}
use ai_meeting_copilot.Recording.Rows.{get_by_id, save, get_by_id-All, get_by_id-save}
use ai_meeting_copilot.Recording.Work.{
  System, Resources, outside, external, committed, save_and_commit, save_result, transit_row,
}
use ai_meeting_copilot.Recording.Work.Ends.{
  Fewer, Same, IsHonest, Lawful, Safe, Same-Fewer, Fewer-refl, IsSettled-Fewer, now_sound,
  quiet-Safe, saved-Safe,
}

if_found :
    (b : Bool) (x r : RecordingMetadataRecord) (o : Option RecordingMetadataRecord)
    → (if b then some x else o) ≡ some r
    → ((b ≡ true) × (x ≡ r)) ⊎ (o ≡ some r)
if_found true x r o h = inl (refl, cc)
if_found false x r o h = inr h

pub get_by_id-id :
    (id : ℕ) (rows : List RecordingMetadataRecord) (r : RecordingMetadataRecord)
    → get_by_id id rows ≡ some r
    → r.metadata.recording_id ≡ id
unfolding get_by_id
get_by_id-id id [] r h = cc
get_by_id-id id (x ∷ xs) r h =
    elim (if_found (x.metadata.recording_id == id) x r (get_by_id id xs) h) [
      | inl (e, f) ↦ subst (λ y. y.metadata.recording_id ≡ id) f ((==_iff _ id).0 e)
      | inr e ↦ get_by_id-id id xs r e
    ]

module _ {W : Type 0} (R : Resources W) where
  -- A later moment of a run: it is safe again, and nothing came back.
  pub record Later (s t : System W) : Type 0 where
    pub safe : Safe R t
    pub fewer : Fewer R s.now.world t.now.world

  -- A call outside: what it answers, and the table as it was.
  pub record Answered {A : Type 0} (call : W → Result A × W) (answer : Result A) (s t : System W)
      : Type 0 where
    pub later : Later s t
    pub rows : t.now.rows ≡ s.now.rows
    pub answered : (call s.now.world).0 ≡ answer
    pub world : (call s.now.world).1 ≡ t.now.world

  pub external-Ends :
      {A : Type 0} (call : W → Result A × W) (s : System W)
      → Safe R s
      → Fewer R s.now.world (call s.now.world).1
      → Ends (λ a t. Answered call (ok a) s t) (λ e t. Answered call (err e) s t) (external call s)
  unfolding external
  external-Ends {A} call s h f = go (call s.now.world) refl f
    where
      go :
          (c : Result A × W)
          → call s.now.world ≡ c
          → Fewer R s.now.world c.1
          → Ends (λ a t. Answered call (ok a) s t) (λ e t. Answered call (err e) s t) (outside s c)
      go (ok a, w) e g = record {
        holds = record {
          later = record { safe = quiet-Safe R s w h g; fewer = g };
          rows = refl;
          answered = ap (λ c. c.0) e;
          world = ap (λ c. c.1) e;
        };
      }
      go (err x, w) e g = record {
        holds = record {
          later = record { safe = quiet-Safe R s w h g; fewer = g };
          rows = refl;
          answered = ap (λ c. c.0) e;
          world = ap (λ c. c.1) e;
        };
      }

  -- A transition of one row that keeps it honest and keeps its identity.
  pub record Marked (w : W) (r r' : RecordingMetadataRecord) : Type 0 where
    pub honest : IsHonest R w r'
    pub same : SameRecording r r'

  -- The row was found and its changed copy was written.
  pub record Saved (id : ℕ) (f : RecordingMetadataRecord → Result RecordingMetadataRecord)
      (r' : RecordingMetadataRecord) (s t : System W) : Type 0 where
    pub row : RecordingMetadataRecord
    pub found : get_by_id id s.now.rows ≡ some row
    pub changed : f row ≡ ok r'
    pub marked : Marked s.now.world row r'
    pub written : t.now.rows ≡ save r' s.now.rows
    pub read_back : get_by_id id t.now.rows ≡ some r'

  -- A unit of work that did not raise wrote the changed copy of the row, or there is no row.
  abbrev pub Effect :
      ℕ
      → (RecordingMetadataRecord → Result RecordingMetadataRecord)
      → System W
      → Option RecordingMetadataRecord
      → System W
      → Type 0
  Effect id f s none t = (get_by_id id s.now.rows ≡ none) × (t.now.rows ≡ s.now.rows)
  Effect id f s (some r') t = Saved id f r' s t

  -- One that raised left the table as it was.
  pub record Raised (s t : System W) : Type 0 where
    pub later : Later s t
    pub untouched : Same R s.now.world t.now.world
    pub rows : t.now.rows ≡ s.now.rows

  pub record Transited (id : ℕ) (f : RecordingMetadataRecord → Result RecordingMetadataRecord)
      (s : System W) (o : Option RecordingMetadataRecord) (t : System W) : Type 0 where
    pub later : Later s t
    pub untouched : Same R s.now.world t.now.world
    pub outcome : Effect id f s o t

  module _ (L : Lawful R) (id : ℕ) (s : System W) (h : Safe R s) where
    save_and_commit-Ends :
        (f : RecordingMetadataRecord → Result RecordingMetadataRecord)
        (r r' : RecordingMetadataRecord)
        → get_by_id id s.now.rows ≡ some r
        → f r ≡ ok r'
        → Marked s.now.world r r'
        → Ends (λ o t. Transited id f s o t) (λ e t. Raised s t) (save_result R (ok r') s)
    unfolding save_and_commit ◌>>=◌
    save_and_commit-Ends f r r' e g m = go (R.commit s.now.world) (L.commit_same s.now.world)
      where
        honest : (w : W) → Fewer R s.now.world w → IsHonest R w r'
        honest w l = record {
          stored = m.honest.stored;
          erased = λ d. IsSettled-Fewer R s.now.world w r' l (m.honest.erased d);
        }

        back : get_by_id id (save r' s.now.rows) ≡ some r'
        back =
            subst (λ i. get_by_id i (save r' s.now.rows) ≡ some r')
              (m.same.recording ∙ get_by_id-id id s.now.rows r e) (get_by_id-save r' s.now.rows)

        go :
            (c : Result (Unit {0}) × W)
            → Same R s.now.world c.1
            → Ends
                (λ o t. Transited id f s o t)
                (λ e t. Raised s t)
                (continue (λ _. lift (ok (some r'))) (committed R s (save r' s.now.rows) c))
        go (ok done, w) u =
            let l = Same-Fewer R s.now.world w u in
            record {
              holds = record {
                later = record { safe = saved-Safe R s w r' h l (honest w l); fewer = l };
                untouched = u;
                outcome = record {
                  row = r;
                  found = e;
                  changed = g;
                  marked = m;
                  written = refl;
                  read_back = back;
                };
              };
            }
        go (err x, w) u =
            let l = Same-Fewer R s.now.world w u in
            record {
              holds = record {
                later = record { safe = quiet-Safe R s w h l; fewer = l };
                untouched = u;
                rows = refl;
              };
            }

    -- The rest of a unit of work, behind its query.
    pub transit_row-Ends :
        (f : RecordingMetadataRecord → Result RecordingMetadataRecord)
        → ((r r' : RecordingMetadataRecord)
            → get_by_id id s.now.rows ≡ some r
            → IsHonest R s.now.world r
            → f r ≡ ok r'
            → Marked s.now.world r r')
        → Ends
            (λ o t. Transited id f s o t)
            (λ e t. Raised s t)
            (transit_row R f (get_by_id id s.now.rows) s)
    transit_row-Ends f mark = go (get_by_id id s.now.rows) refl
      where
        still : Later s s
        still = record { safe = h; fewer = Fewer-refl R s.now.world }

        here : Same R s.now.world s.now.world
        here = record { recordings = λ j. refl; keys = λ key. refl }

        change :
            (r : RecordingMetadataRecord)
            → get_by_id id s.now.rows ≡ some r
            → (c : Result RecordingMetadataRecord) → f r ≡ c
            → Ends (λ o t. Transited id f s o t) (λ e t. Raised s t) (save_result R c s)
        change r e (ok r') g = save_and_commit-Ends f r r' e g (
            mark r r' e (get_by_id-All (IsHonest R s.now.world) id s.now.rows r (now_sound R s h) e)
              g)
        change r e (err x) g = record {
          holds = record { later = still; untouched = here; rows = refl };
        }

        go :
            (o : Option RecordingMetadataRecord)
            → get_by_id id s.now.rows ≡ o
            → Ends (λ o t. Transited id f s o t) (λ e t. Raised s t) (transit_row R f o s)
        go none e = record {
          holds = record { later = still; untouched = here; outcome = (e, refl) };
        }
        go (some r) e = change r e (f r) refl
