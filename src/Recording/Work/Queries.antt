-- ===== src/Recording/Work/Queries.antt =====
-- The queries of the workers, and a unit of work that begins with one
-- (backend/app/application/services).
use mathlib.Core.Path.{subst}
use ai_meeting_copilot.Prelude.{ℕ, ◌≡◌, sym, ap, ◌∙◌, Option, none, some, Error, Result, err, ok}
use ai_meeting_copilot.Recording.Metadata.{RecordingMetadataRecord}
use ai_meeting_copilot.Exec.Ends.{Ends, bind-Ends, weaken-Ends}
use ai_meeting_copilot.Recording.Rows.{get_by_id, save}
use ai_meeting_copilot.Recording.Work.{System, Resources, external, transit_row, transit}
use ai_meeting_copilot.Recording.Work.Ends.{
  Same, IsHonest, Lawful, Safe, Same-Fewer, Fewer-trans, IsSettled-Fewer,
}
use ai_meeting_copilot.Recording.Work.Steps.{
  Later, Answered, Marked, Raised, Transited, external-Ends, Effect, transit_row-Ends,
}

module _ {W : Type 0} (R : Resources W) where
  Same-back : (v w : W) → Same R v w → Same R w v
  Same-back v w e = record {
    recordings = λ j. sym (e.recordings j);
    keys = λ key. sym (e.keys key);
  }

  pub Same-along : (u v w : W) → Same R u v → Same R v w → Same R u w
  Same-along u v w e f = record {
    recordings = λ j. e.recordings j ∙ f.recordings j;
    keys = λ key. e.keys key ∙ f.keys key;
  }

  IsHonest-Same :
      (v w : W) (r : RecordingMetadataRecord) → Same R v w → IsHonest R v r → IsHonest R w r
  IsHonest-Same v w r e h = record {
    stored = h.stored;
    erased = λ d. IsSettled-Fewer R v w r (Same-Fewer R v w e) (h.erased d);
  }

  -- A query: the table is read as it is, or nothing happens.
  pub record Queried (s t : System W) : Type 0 where
    pub later : Later R s t
    pub rows : t.now.rows ≡ s.now.rows
    pub untouched : Same R s.now.world t.now.world

  pub query-Ends :
      (L : Lawful R) (s : System W)
      → Safe R s
      → Ends
          (λ _ t. Queried s t)
          (λ e t. Queried s t × ((R.query s.now.world).0 ≡ err e))
          (external R.query s)
  query-Ends L s h =
      let u = L.query_same s.now.world in
      weaken-Ends _ (external-Ends R R.query s h (Same-Fewer R s.now.world _ u))
        (λ a t k. queried a t k u) (λ e t k. (queried_err e t k u, k.answered))
    where
      queried :
          (a : Unit {0}) (t : System W)
          → Answered R R.query (ok a) s t
          → Same R s.now.world (R.query s.now.world).1
          → Queried s t
      queried a t k u = record {
        later = k.later;
        rows = k.rows;
        untouched = subst (Same R s.now.world) k.world u;
      }

      queried_err :
          (e : Error) (t : System W)
          → Answered R R.query (err e) s t
          → Same R s.now.world (R.query s.now.world).1
          → Queried s t
      queried_err e t k u = record {
        later = k.later;
        rows = k.rows;
        untouched = subst (Same R s.now.world) k.world u;
      }

  along-Later : (s t u : System W) → Later R s t → Later R t u → Later R s u
  along-Later s t u f g = record {
    safe = g.safe;
    fewer = Fewer-trans R s.now.world t.now.world u.now.world f.fewer g.fewer;
  }

  module _ (id : ℕ) (f : RecordingMetadataRecord → Result RecordingMetadataRecord) (s t : System W)
      (q : Queried s t) where
    behind-Effect :
        (o : Option RecordingMetadataRecord) (u : System W)
        → Effect R id f t o u
        → Effect R id f s o u
    behind-Effect none u e = (ap (get_by_id id) (sym q.rows) ∙ e.0, e.1 ∙ q.rows)
    behind-Effect (some r') u e = record {
      row = e.row;
      found = ap (get_by_id id) (sym q.rows) ∙ e.found;
      changed = e.changed;
      marked = record {
        honest =
            IsHonest-Same t.now.world s.now.world r' (Same-back s.now.world t.now.world q.untouched)
              e.marked.honest;
        same = e.marked.same;
      };
      written = e.written ∙ ap (save r') q.rows;
      read_back = e.read_back;
    }

    behind_transit :
        (o : Option RecordingMetadataRecord) (u : System W)
        → Transited R id f t o u
        → Transited R id f s o u
    behind_transit o u k = record {
      later = along-Later s t u q.later k.later;
      untouched = Same-along s.now.world t.now.world u.now.world q.untouched k.untouched;
      outcome = behind-Effect o u k.outcome;
    }

    behind_raise : (u : System W) → Raised R t u → Raised R s u
    behind_raise u k = record {
      later = along-Later s t u q.later k.later;
      untouched = Same-along s.now.world t.now.world u.now.world q.untouched k.untouched;
      rows = k.rows ∙ q.rows;
    }

  -- A unit of work with a transition that keeps the row that it finds honest.
  pub transit-Ends :
      (L : Lawful R) (id : ℕ) (s : System W)
      → Safe R s
      → (f : RecordingMetadataRecord → Result RecordingMetadataRecord)
      → ((r r' : RecordingMetadataRecord)
          → get_by_id id s.now.rows ≡ some r
          → IsHonest R s.now.world r
          → f r ≡ ok r'
          → Marked R s.now.world r r')
      → Ends (λ o t. Transited R id f s o t) (λ e t. Raised R s t) (transit R id f s)
  unfolding transit
  transit-Ends L id s h f mark =
      bind-Ends (external R.query) (λ _ t. transit_row R f (get_by_id id t.now.rows) t) s
        (query-Ends L s h)
        (λ _ t q.
          let back = Same-back s.now.world t.now.world q.untouched in
          weaken-Ends _
            (transit_row-Ends R L id t q.later.safe f (λ r r' e i g.
              let m =
                mark r r' (ap (get_by_id id) (sym q.rows) ∙ e)
                  (IsHonest-Same t.now.world s.now.world r back i) g in
              record {
                honest = IsHonest-Same s.now.world t.now.world r' q.untouched m.honest;
                same = m.same;
              }))
            (λ o u k. behind_transit id f s t q o u k) (λ e u k. behind_raise id f s t q u k))
        (λ e t q. record { later = q.0.later; untouched = q.0.untouched; rows = q.0.rows })
