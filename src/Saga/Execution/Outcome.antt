-- ===== src/Saga/Execution/Outcome.antt =====
-- How an execution can end, in every program and for every kind of step.
use minos_python.Base.{
  ℕ, suc, ◌+◌, ◌≡◌, refl, subst, ap, ◌∙◌, inl, inr, Bool, true, false, Option, none, some, List, [],
  ◌∷◌, arith, length, length-append, Bool-cases, Result, return, raise,
}
use minos_python.Saga.Types.{
  paused, errored, Response, Error, failed_step, paused_step, rollback_step, rollback_execution,
  already_executed, failed_commit, executor, value_error, uncaught, is_step_exception, Arguments,
  Program,
}
use minos_python.Saga.Execution.{
  StepClass, Session, Unwinding, unwind, unwind_step, settle, unwound, arguments, conclude_rollback,
  rollback_unless, rollback, after_step, execute_one,
}

-- An exception that is neither a failure nor a pause of a step.
abbrev pub IsOther : Error → Type 0
IsOther (failed_step e) = ⊥
IsOther paused_step = ⊥
IsOther _ = Unit

raise_injective : {E A : Type 0} {x y : E} → ◌≡◌ {A = Result E A} (raise x) (raise y) → x ≡ y
raise_injective q = cc

not_step-IsOther : (e : Error) → is_step_exception e ≡ false → IsOther e
not_step-IsOther (failed_step e) h = cc
not_step-IsOther paused_step h = cc
not_step-IsOther rollback_step h = cc
not_step-IsOther rollback_execution h = tt
not_step-IsOther already_executed h = tt
not_step-IsOther (failed_commit e) h = tt
not_step-IsOther (executor e) h = tt
not_step-IsOther value_error h = tt
not_step-IsOther (uncaught e) h = tt

module _ (p : Program) (c : StepClass p) where
  -- The number of executed steps, the identifier and the definition are the same.
  pub record Keeps (s s' : Session p c) : Type 0 where
    pub uuid : s'.self.uuid ≡ s.self.uuid
    pub steps : s'.self.steps ≡ s.self.steps
    pub count : length s'.self.executed_steps ≡ length s.self.executed_steps

  -- What is true of the result of the loop of `rollback`.
  pub record IsUnwound (xs : List c.Step) (u : Unwinding p c) : Type 0 where
    pub count : length u.steps ≡ length xs
    pub not_step : (e : Error) → u.result ≡ raise e → is_step_exception e ≡ false

  settle-IsUnwound :
      (raised : Bool) (u : Unwinding p c) (x y : c.Step) (w : p.World) (xs : List c.Step)
      (r : Result Error p.Context)
      → IsUnwound xs u
      → IsUnwound (y ∷ xs) (settle p c raised u x w r)
  settle-IsUnwound raised u x y w xs (return z) h = record {
    count = ap suc h.count;
    not_step = λ e q. cc;
  }
  settle-IsUnwound raised u x y w xs (raise e) h = elim (Bool-cases (is_step_exception e)) [
    | inl step ↦ rw step (record { count = ap suc h.count; not_step = λ e' q. cc })
    | inr other ↦ rw other (record {
      count = ap suc h.count;
      not_step = λ e' q. subst (λ z. is_step_exception z ≡ false) (raise_injective q) other;
    })
  ]

  unwind_step-IsUnwound :
      (args : Arguments) (x : c.Step) (xs : List c.Step) (u : Unwinding p c) (r : Result Error Bool)
      → u.result ≡ r
      → IsUnwound xs u
      → IsUnwound (x ∷ xs) (unwind_step p c args x u r)
  unwind_step-IsUnwound args x xs u (raise e) q h = record {
    count = ap suc h.count;
    not_step = λ e' q'. h.not_step e' (q ∙ q');
  }
  unwind_step-IsUnwound args x xs u (return raised) q h =
      let (r, x', w) = c.rollback args u.context x u.world in
      settle-IsUnwound raised u x' x w xs r h

  unwind-IsUnwound :
      (args : Arguments) (context : p.Context) (w : p.World) (xs : List c.Step)
      → IsUnwound xs (unwind p c args context w xs)
  unfolding unwind
  unwind-IsUnwound args context w [] = record { count = refl; not_step = λ e q. cc }
  unwind-IsUnwound args context w (x ∷ xs) =
      let u = unwind p c args context w xs in
      unwind_step-IsUnwound args x xs u u.result refl (unwind-IsUnwound args context w xs)

  -- How a rollback without a rejection ends: it returns, and is marked as performed; or it raises
  -- an exception that is no failure and no pause of a step.
  pub data RolledBack (s : Session p c) (r : Result Error Unit) (s' : Session p c) : Type 0 where
    performed :
        r ≡ return tt
        → s.self.already_rollback ≡ false
        → s'.self.already_rollback ≡ true
        → Keeps s s'
        → s'.self.status ≡ s.self.status
        → RolledBack s r s'
    stopped :
        (e : Error)
        → r ≡ raise e
        → IsOther e
        → Keeps s s'
        → s'.self.status ≡ s.self.status
        → RolledBack s r s'

  Keeps-unwound :
      (s : Session p c) (u : Unwinding p c)
      → IsUnwound s.self.executed_steps u
      → Keeps s (unwound p c u s)
  Keeps-unwound s u h = record { uuid = refl; steps = refl; count = h.count }

  conclude_rollback-cases :
      (s : Session p c) (u : Unwinding p c) (r : Result Error Bool)
      → u.result ≡ r
      → IsUnwound s.self.executed_steps u
      → s.self.already_rollback ≡ false
      → let (r', s') = conclude_rollback p c false r (unwound p c u s) in RolledBack s r' s'
  unfolding conclude_rollback
  conclude_rollback-cases s u (raise e) q h fresh =
      stopped e refl (not_step-IsOther e (h.not_step e q)) (Keeps-unwound s u h) refl
  conclude_rollback-cases s u (return true) q h fresh =
      stopped rollback_execution refl tt (record { uuid = refl; steps = refl; count = h.count })
        refl
  conclude_rollback-cases s u (return false) q h fresh =
      performed refl fresh refl (record { uuid = refl; steps = refl; count = h.count }) refl

  rollback_unless-cases :
      (s : Session p c) (b : Bool)
      → s.self.already_rollback ≡ b
      → let (r, s') = rollback_unless p c false b s in RolledBack s r s'
  unfolding rollback_unless
  rollback_unless-cases s true q =
      stopped rollback_execution refl tt (record { uuid = refl; steps = refl; count = refl }) refl
  rollback_unless-cases s false q =
      let u = unwind p c (arguments p c s none) s.self.context s.world s.self.executed_steps in
      conclude_rollback-cases s u u.result refl
        (unwind-IsUnwound (arguments p c s none) s.self.context s.world s.self.executed_steps) q

  -- A rollback without autoreject either returns, was not performed before and is marked as performed
  -- now, or raises an exception that is neither the failure nor the pause of a step. Either way the
  -- number of executed steps, the definition and the status are as they were.
  pub rollback-RolledBack :
      (s : Session p c) → let (r, s') = rollback p c false s in RolledBack s r s'
  unfolding rollback
  rollback-RolledBack s = rollback_unless-cases s s.self.already_rollback refl

  -- How one step of an execution ends.
  pub data Advanced (s : Session p c) (r : Result Error Unit) (s' : Session p c) : Type 0 where
    advanced :
        r ≡ return tt
        → s'.self.steps ≡ s.self.steps
        → length s'.self.executed_steps ≡ length s.self.executed_steps + 1
        → s'.self.status ≡ s.self.status
        → s'.self.paused ≡ s.self.paused
        → Advanced s r s'
    suspended :
        (x : c.Step)
        → r ≡ raise paused_step
        → s'.self.status ≡ paused
        → s'.self.paused ≡ some x
        → Keeps s s'
        → Advanced s r s'
    failed :
        (e : ℕ)
        → r ≡ raise (failed_step e)
        → s'.self.status ≡ errored
        → s'.self.already_rollback ≡ true
        → Keeps s s'
        → Advanced s r s'
    aborted :
        (e : Error)
        → r ≡ raise e
        → IsOther e
        → s'.self.status ≡ s.self.status
        → Keeps s s'
        → Advanced s r s'

  unchanged : (e : Error) (s : Session p c) → IsOther e → Advanced s (raise e) s
  unchanged e s other =
      aborted e refl other refl (record { uuid = refl; steps = refl; count = refl })

  after_step-Advanced :
      (r : Result Error p.Context) (x : c.Step) (s : Session p c)
      → let (r', s') = after_step p c false r x s in Advanced s r' s'
  unfolding after_step
  after_step-Advanced (return z) x s =
      advanced refl refl (length-append s.self.executed_steps (x ∷ []) ∙ omega arith) refl refl
  after_step-Advanced (raise (failed_step e)) x s = elim (rollback-RolledBack s) [
    | performed returned _ marked keeps same ↦ rw returned (
        failed e refl refl marked
          (record { uuid = keeps.uuid; steps = keeps.steps; count = keeps.count }))
    | stopped e' raised other keeps same ↦ rw raised (aborted e' refl other same keeps)
  ]
  after_step-Advanced (raise paused_step) x s =
      suspended x refl refl refl (record { uuid = refl; steps = refl; count = refl })
  after_step-Advanced (raise rollback_step) x s = unchanged rollback_step s tt
  after_step-Advanced (raise rollback_execution) x s = unchanged rollback_execution s tt
  after_step-Advanced (raise already_executed) x s = unchanged already_executed s tt
  after_step-Advanced (raise (failed_commit e)) x s = unchanged (failed_commit e) s tt
  after_step-Advanced (raise (executor e)) x s = unchanged (executor e) s tt
  after_step-Advanced (raise value_error) x s = unchanged value_error s tt
  after_step-Advanced (raise (uncaught e)) x s = unchanged (uncaught e) s tt

  -- Executing one step, without autocommit, ends in one of four ways. The step is added to the executed ones, and the
  -- status is kept. Or it pauses: the execution is paused at some step. Or it fails: the execution
  -- is errored and marked as rolled back. Or an exception that is neither failure nor pause is
  -- raised, and the status is kept. In the last three cases the number of executed steps is as it was.
  pub execute_one-Advanced :
      (response : Option Response) (x : c.Step) (s : Session p c)
      → let (r, s') = execute_one p c false response x s in Advanced s r s'
  unfolding execute_one
  execute_one-Advanced response x s =
      let (r, x', w) = c.execute (arguments p c s response) s.self.context x s.world in
      from_world w (after_step-Advanced r x' (record s { world = w }))
    where
      from_world :
          (w : p.World) {r : Result Error Unit} {s' : Session p c}
          → Advanced (record s { world = w }) r s'
          → Advanced s r s'
      from_world w (advanced a b d e f) = advanced a b d e f
      from_world w (suspended y a b d k) =
          suspended y a b d (record { uuid = k.uuid; steps = k.steps; count = k.count })
      from_world w (failed e a b d k) =
          failed e a b d (record { uuid = k.uuid; steps = k.steps; count = k.count })
      from_world w (aborted e a b d k) =
          aborted e a b d (record { uuid = k.uuid; steps = k.steps; count = k.count })
