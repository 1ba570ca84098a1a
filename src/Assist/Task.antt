-- ===== src/Assist/Task.antt =====
-- Coroutines of one event loop, cut at their suspension points: between two suspensions a task
-- reads and changes the shared state with no other task in between (async def, await and
-- try/except/finally of backend/app/application/services/assist_mode_orchestrator.py).
pub mod Runs
use ai_meeting_copilot.Prelude.{not, arith, Error, cancelled_error, Result, err, ok}
use ai_meeting_copilot.Exec.{Exec, handle}

-- A task returns, raises, goes on with a change of the state and what it read before, or awaits
-- a reply; a cancelled await raises `cancelled_error`.
pub data Task (S W : Type 0) (ReplyOf : W → Type 0) (A : Type 0) : Type 0 where
  returns : A → Task S W ReplyOf A
  raises : Error → Task S W ReplyOf A
  change : (S → S) → (S → Task S W ReplyOf A) → Task S W ReplyOf A
  await : (w : W) → (Result (ReplyOf w) → Task S W ReplyOf A) → Task S W ReplyOf A

module _ {S W : Type 0} {ReplyOf : W → Type 0} where
  abbrev pub of_result : {A : Type 0} → Result A → Task S W ReplyOf A
  of_result (ok a) = returns a
  of_result (err e) = raises e

  -- Statements without an await
  abbrev pub perform : {A : Type 0} → Exec S A → Task S W ReplyOf A
  perform p = change (λ s. (p s).1) (λ s. of_result (p s).0)

  -- An expression that reads the state
  abbrev pub gets : {A : Type 0} → (S → A) → Task S W ReplyOf A
  gets f = change (λ s. s) (λ s. returns (f s))

  abbrev pub modify : (S → S) → Task S W ReplyOf (Unit {0})
  modify f = change f (λ _. returns tt)

  abbrev pub call : (w : W) → Task S W ReplyOf (ReplyOf w)
  call w = await w of_result

  infixl 5 ◌>>=◌ ◌>>◌
  unfoldable pub ◌>>=◌ :
      {A B : Type 0} → Task S W ReplyOf A → (A → Task S W ReplyOf B) → Task S W ReplyOf B
  returns a >>= f = f a
  raises e >>= f = raises e
  change g k >>= f = change g (λ s. k s >>= f)
  await w k >>= f = await w (λ x. k x >>= f)

  abbrev pub ◌>>◌ : {A B : Type 0} → Task S W ReplyOf A → Task S W ReplyOf B → Task S W ReplyOf B
  p >> q = p >>= λ _. q

  -- `try: p; except …`, where the handler raises again what it does not handle
  unfoldable pub recover :
      {A : Type 0} → Task S W ReplyOf A → (Error → Task S W ReplyOf A) → Task S W ReplyOf A
  recover (returns a) h = returns a
  recover (raises e) h = h e
  recover (change g k) h = change g (λ s. recover (k s) h)
  recover (await w k) h = await w (λ x. recover (k x) h)

  -- `try: p; finally: c`
  abbrev pub finally_do :
      {A : Type 0} → Task S W ReplyOf A → Task S W ReplyOf (Unit {0}) → Task S W ReplyOf A
  finally_do p c = recover p (λ e. c >>= λ _. raises e) >>= λ a. c >>= λ _. returns a

  -- `except asyncio.CancelledError: raise` in front of `except Exception: q`
  abbrev pub re_raise_cancelled : {A : Type 0} → Task S W ReplyOf A → Error → Task S W ReplyOf A
  re_raise_cancelled q cancelled_error = raises cancelled_error
  re_raise_cancelled q e = q

  -- `with suppress(asyncio.CancelledError)`
  abbrev pub suppressed : Error → Task S W ReplyOf (Unit {0})
  suppressed cancelled_error = returns tt
  suppressed e = raises e

  -- The task up to its next suspension or its end.
  abbrev pub advance : {A : Type 0} → Task S W ReplyOf A → S → Task S W ReplyOf A × S
  advance (change g k) s = advance (k s) (g s)
  advance (returns a) s = (returns a, s)
  advance (raises e) s = (raises e, s)
  advance (await w k) s = (await w k, s)
