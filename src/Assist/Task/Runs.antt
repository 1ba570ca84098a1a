-- ===== src/Assist/Task/Runs.antt =====
-- What a task keeps at each suspension, whatever the other tasks do in between
-- (backend/app/application/services/assist_mode_orchestrator.py).
use ai_meeting_copilot.Prelude.{Error, Result}
use ai_meeting_copilot.Assist.Task.{Task, returns, raises, change, await, ◌>>=◌, recover, advance}

module _ {S W : Type 0} {ReplyOf : W → Type 0} (Keeps : S → Type 0) (Allows : W → S → Type 0)
    (Stays : S → S → Type 0) where
  -- From the state, the task ends and suspends in states that keep the invariant, awaits only what
  -- the state allows, and returns what the last argument says. What stays of a state stays over
  -- each of its changes; between a suspension and its reply the state becomes any that keeps the
  -- invariant and in which that stays.
  abbrev pub Runs : {A : Type 0} → S → Task S W ReplyOf A → (A → S → Type 0) → Type 0
  Runs s (returns a) Post = Keeps s × Post a s
  Runs s (raises e) Post = Keeps s
  Runs s (change g k) Post = Stays s (g s) × Runs (g s) (k s) Post
  Runs s (await w k) Post =
      Keeps s
      × Allows w s
      × ((x : Result (ReplyOf w)) (t : S) → Keeps t → Stays s t → Runs t (k x) Post)

  pub Runs-bind :
      {A B : Type 0} (Mid : A → S → Type 0) (Post : B → S → Type 0) (s : S) (p : Task S W ReplyOf A)
      (f : A → Task S W ReplyOf B)
      → Runs s p Mid
      → ((a : A) (t : S) → Keeps t → Mid a t → Runs t (f a) Post)
      → Runs s (p >>= f) Post
  unfolding ◌>>=◌
  Runs-bind Mid Post s (returns a) f h next = next a s h.0 h.1
  Runs-bind Mid Post s (raises e) f h next = h
  Runs-bind Mid Post s (change g k) f h next = (h.0, Runs-bind Mid Post (g s) (k s) f h.1 next)
  Runs-bind Mid Post s (await w k) f h next =
      (h.0, h.1, λ x t keeps stays. Runs-bind Mid Post t (k x) f (h.2 x t keeps stays) next)

  pub Runs-recover :
      {A : Type 0} (Post : A → S → Type 0) (s : S) (p : Task S W ReplyOf A)
      (h : Error → Task S W ReplyOf A)
      → Runs s p Post
      → ((e : Error) (t : S) → Keeps t → Runs t (h e) Post)
      → Runs s (recover p h) Post
  unfolding recover
  Runs-recover Post s (returns a) h r next = r
  Runs-recover Post s (raises e) h r next = next e s r
  Runs-recover Post s (change g k) h r next = (r.0, Runs-recover Post (g s) (k s) h r.1 next)
  Runs-recover Post s (await w k) h r next =
      (r.0, r.1, λ x t keeps stays. Runs-recover Post t (k x) h (r.2 x t keeps stays) next)

  -- A suspended task that runs on from every state that keeps the invariant and what stays.
  abbrev pub IsResumable : {A : Type 0} → Task S W ReplyOf A → S → Type 0
  IsResumable (await w k) s =
      (x : Result (ReplyOf w)) (t : S) → Keeps t → Stays s t → Runs t (k x) (λ _ _. Unit)
  IsResumable _ s = Unit

  -- The call that a task is suspended on
  abbrev pub Awaits : {A : Type 0} → Task S W ReplyOf A → S → Type 0
  Awaits (await w k) s = Allows w s
  Awaits _ s = Unit

  -- What a part of a task reaches
  abbrev pub Reaches : {A : Type 0} → S → Task S W ReplyOf A × S → Type 0
  Reaches s (p, t) = Keeps t × Awaits p t × IsResumable p t × Stays s t

  module _ (same : (s : S) → Stays s s)
      (along : (s t r : S) → Stays s t → Stays t r → Stays s r) where
    pub advance-Reaches :
        {A : Type 0} (s : S) (p : Task S W ReplyOf A)
        → Runs s p (λ _ _. Unit)
        → Reaches s (advance p s)
    advance-Reaches s (returns a) h = (h.0, tt, tt, same s)
    advance-Reaches s (raises e) h = (h, tt, tt, same s)
    advance-Reaches s (change g k) h =
        let (keeps, awaits, resumable, stays) = advance-Reaches (g s) (k s) h.1 in
        (keeps, awaits, resumable, along s (g s) (advance (k s) (g s)).1 h.0 stays)
    advance-Reaches s (await w k) h = (h.0, h.1, h.2, same s)

  -- A suspended task runs on from what was reached before, when that has stayed.
  pub IsResumable-later :
      {A : Type 0} (s t : S) (p : Task S W ReplyOf A)
      → ((r : S) → Stays t r → Stays s r)
      → IsResumable p s
      → IsResumable p t
  IsResumable-later s t (returns a) later h = tt
  IsResumable-later s t (raises e) later h = tt
  IsResumable-later s t (change g k) later h = tt
  IsResumable-later s t (await w k) later h = λ x r keeps stays. h x r keeps (later r stays)
