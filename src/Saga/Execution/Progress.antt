-- ===== src/Saga/Execution/Progress.antt =====
-- The progress of an execution from step to step.
use minos_python.Base.{
  ℕ, ◌+◌, ◌≤◌, ◌<◌, ◌≡◌, refl, ap, ◌∙◌, ◌≢◌, true, false, Option, none, some, List, [], ◌∷◌, arith,
  length, length-drop, Result, return, raise,
}
use minos_python.Saga.Types.{
  SagaStatus, created, running, paused, finished, errored, is_saga_status, Response, Error,
  failed_step, paused_step, Program,
}
use minos_python.Saga.Execution.{
  StepClass, SagaExecution, Session, with_status, execute_one, execute_all, clear_paused, resume,
  pending_steps, run, execute_at, execute,
}
use minos_python.Saga.Execution.Outcome.{
  IsOther, advanced, suspended, failed, aborted, execute_one-Advanced,
}

module _ (p : Program) (c : StepClass p) where
  -- How an exception `e` leaves an execution that was at `s`, had the given status, and has yet to
  -- reach `total` executed steps.
  pub data Halted (total : ℕ) (status : SagaStatus) (s : Session p c) (e : Error) (s' : Session p c)
      : Type 0 where
    at_pause :
        (x : c.Step)
        → e ≡ paused_step
        → s'.self.steps ≡ s.self.steps
        → length s'.self.executed_steps < total
        → s'.self.status ≡ paused
        → s'.self.paused ≡ some x
        → Halted total status s e s'
    at_failure :
        (x : ℕ)
        → e ≡ failed_step x
        → s'.self.status ≡ errored
        → s'.self.already_rollback ≡ true
        → Halted total status s e s'
    at_error : IsOther e → s'.self.status ≡ status → Halted total status s e s'

  -- How a run of `n` steps from `s` ends.
  pub data Ran (n : ℕ) (s : Session p c) (r : Result Error Unit) (s' : Session p c) : Type 0 where
    ran_all :
        r ≡ return tt
        → s'.self.steps ≡ s.self.steps
        → length s'.self.executed_steps ≡ length s.self.executed_steps + n
        → s'.self.status ≡ s.self.status
        → s'.self.paused ≡ s.self.paused
        → Ran n s r s'
    ran_part :
        (e : Error)
        → r ≡ raise e
        → Halted (length s.self.executed_steps + n) s.self.status s e s'
        → Ran n s r s'

  Halted-from :
      {total total' : ℕ} {status status' : SagaStatus} (s m : Session p c) {e : Error}
      {s' : Session p c}
      → m.self.steps ≡ s.self.steps
      → total ≤ total'
      → status ≡ status'
      → Halted total status m e s'
      → Halted total' status' s e s'
  Halted-from s m b d f (at_pause x a b' d' e' f') =
      at_pause x a (b' ∙ b) (omega (arith, d, d')) e' f'
  Halted-from s m b d f (at_failure x a b' d') = at_failure x a b' d'
  Halted-from s m b d f (at_error a b') = at_error a (b' ∙ f)

  execute_all-Ran :
      (ds : List c.Definition) (s : Session p c)
      → let (r, s') = execute_all p c false ds s in Ran (length ds) s r s'
  unfolding execute_all
  execute_all-Ran [] s = ran_all refl refl (omega arith) refl refl
  execute_all-Ran (d ∷ ds) s =
      let m = (execute_one p c false none (c.from_definition d) s).1 in
      elim (execute_one-Advanced p c none (c.from_definition d) s) [
        | advanced a b n e f ↦ rw a (elim (execute_all-Ran ds m) [
          | ran_all a' b' n' e' f' ↦ ran_all a' (b' ∙ b) (omega (arith, n, n')) (e' ∙ e) (f' ∙ f)
          | ran_part x a' h ↦ ran_part x a' (Halted-from s m b (omega (arith, n)) e h)
        ])
        | suspended x a b f k ↦
            rw a (ran_part paused_step refl (at_pause x refl k.steps (omega (arith, k.count)) b f))
        | failed e a b f k ↦ rw a (ran_part (failed_step e) refl (at_failure e refl b f))
        | aborted e a o b k ↦ rw a (ran_part e refl (at_error o b))
      ]

  abbrev pub waiting : Option c.Step → ℕ
  waiting none = 0
  waiting (some x) = 1

  -- There is a definition for each executed step and for the paused one.
  abbrev pub Fits : Session p c → Type 0
  Fits s = length s.self.executed_steps + waiting s.self.paused ≤ length s.self.steps

  -- How the paused step ends; it is no longer kept, unless it has paused the execution again.
  pub data Resumed (n : ℕ) (s : Session p c) (r : Result Error Unit) (s' : Session p c)
      : Type 0 where
    resumed :
        r ≡ return tt
        → s'.self.steps ≡ s.self.steps
        → length s'.self.executed_steps ≡ length s.self.executed_steps + n
        → s'.self.status ≡ s.self.status
        → s'.self.paused ≡ none
        → Resumed n s r s'
    halted :
        (e : Error)
        → r ≡ raise e
        → Halted (length s.self.executed_steps + n) s.self.status s e s'
        → Resumed n s r s'

  cleared :
      (s : Session p c) (status : SagaStatus)
      → s.self.status ≡ status
      → is_saga_status status paused ≡ false
      → (clear_paused p c s).self ≡ record (s.self) { paused = none }
  cleared s status e h =
      let is : is_saga_status s.self.status paused ≡ false =
        ap (λ st. is_saga_status st paused) e ∙ h in
      rw is

  kept : (s : Session p c) → s.self.status ≡ paused → (clear_paused p c s).self ≡ s.self
  kept s e =
      let is : is_saga_status s.self.status paused ≡ true = ap (λ st. is_saga_status st paused) e in
      rw is

  resume-Resumed :
      (response : Option Response) (s : Session p c) (o : Option c.Step)
      → s.self.paused ≡ o
      → s.self.status ≡ running
      → let (r, s') = resume p c false response o s in Resumed (waiting o) s r s'
  unfolding resume
  resume-Resumed response s none e st = resumed refl refl (omega arith) refl e
  resume-Resumed response s (some x) e st =
      let m = (execute_one p c false response x s).1 in
      elim (execute_one-Advanced p c response x s) [
        | advanced a b n f g ↦
            let q = cleared m running (f ∙ st) refl in
            rw a (
              resumed refl (ap (λ (z : SagaExecution p c). z.steps) q ∙ b)
                (ap (λ (z : SagaExecution p c). length z.executed_steps) q ∙ n)
                (ap (λ (z : SagaExecution p c). z.status) q ∙ f)
                (ap (λ (z : SagaExecution p c). z.paused) q))
        | suspended y a b f k ↦ rw a (
            halted paused_step refl (
              at_pause y refl (ap (λ (z : SagaExecution p c). z.steps) (kept m b) ∙ k.steps)
                (omega (
                  arith,
                  k.count,
                  ap (λ (z : SagaExecution p c). length z.executed_steps) (kept m b),
                ))
                (ap (λ (z : SagaExecution p c). z.status) (kept m b) ∙ b)
                (ap (λ (z : SagaExecution p c). z.paused) (kept m b) ∙ f)))
        | failed y a b f k ↦
            let q = cleared m errored b refl in
            rw a (
              halted (failed_step y) refl (
                at_failure y refl (ap (λ (z : SagaExecution p c). z.status) q ∙ b)
                  (ap (λ (z : SagaExecution p c). z.already_rollback) q ∙ f)))
        | aborted y a o b k ↦
            let q = cleared m running (b ∙ st) refl in
            rw a (halted y refl (at_error o (ap (λ (z : SagaExecution p c). z.status) q ∙ b)))
      ]

  -- How an execution ends.
  pub data Executed (s : Session p c) (r : Result Error p.Context) (s' : Session p c) : Type 0 where
    completed :
        r ≡ return s'.self.context
        → s'.self.steps ≡ s.self.steps
        → length s'.self.executed_steps ≡ length s.self.steps
        → s'.self.status ≡ finished
        → s'.self.paused ≡ none
        → Executed s r s'
    incomplete :
        (e : Error) → r ≡ raise e → Halted (length s.self.steps) running s e s' → Executed s r s'

  -- The rest of the run, after the paused step.
  run-Executed :
      (response : Option Response) (s : Session p c)
      → Fits s
      → let (r, s') = run p c response false s in Executed s r s'
  unfolding run
  run-Executed response s fits =
      let z = with_status p c running s in
      let m = (resume p c false response z.self.paused z).1 in
      elim (resume-Resumed response z z.self.paused refl refl) [
        | halted e a h ↦ rw a (incomplete e refl (Halted-from s z refl fits refl h))
        | resumed a b n f g ↦
            let ds = pending_steps p c m in
            let total : length m.self.executed_steps + length ds ≡ length s.self.steps = omega (
              arith,
              n,
              fits,
              length-drop (length m.self.executed_steps) m.self.steps,
              ap (λ (l : List c.Definition). length l) b,
            ) in
            elim (execute_all-Ran ds m) [
              | ran_part e a' h ↦
                  rw (a, a') (incomplete e refl (Halted-from s m b (omega (arith, total)) f h))
              | ran_all a' b' n' f' g' ↦
                  rw (a, a') (completed refl (b' ∙ b) (n' ∙ total) refl (g' ∙ g))
            ]
      ]

  execute_at-Executed :
      (response : Option Response) (status : SagaStatus) (s : Session p c)
      → status ≢ finished
      → status ≢ errored
      → Fits s
      → let (r, s') = execute_at p c status response false s in Executed s r s'
  unfolding execute_at
  execute_at-Executed response created s nf ne fits = run-Executed response s fits
  execute_at-Executed response running s nf ne fits = run-Executed response s fits
  execute_at-Executed response paused s nf ne fits = run-Executed response s fits
  execute_at-Executed response finished s nf ne fits = absurd (nf refl)
  execute_at-Executed response errored s nf ne fits = absurd (ne refl)

  -- An execution that is neither finished nor errored, and has no more executed and paused steps than
  -- defined ones, ends in one of four ways if it is run without autocommit. It returns its context,
  -- finished, with one executed step for each defined one. It raises a pause, with the step that
  -- waits kept and fewer steps executed. It raises the failure of a step, errored, and has been
  -- rolled back. Or it raises an exception that is neither failure nor pause, and is left with the
  -- status running.
  pub execute-Executed :
      (response : Option Response) (s : Session p c)
      → s.self.status ≢ finished
      → s.self.status ≢ errored
      → Fits s
      → let (r, s') = execute p c response false s in Executed s r s'
  unfolding execute
  execute-Executed response s nf ne fits = execute_at-Executed response s.self.status s nf ne fits
