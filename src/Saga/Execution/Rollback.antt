-- ===== src/Saga/Execution/Rollback.antt =====
-- What a rollback compensates.
use minos_python.Base.{
  ◌≡◌, refl, sym, ap, subst, ◌∙◌, Bool, true, false, none, List, [], ◌∷◌, ◌++◌, All, inl, inr,
  Bool-cases, Result, return, raise,
}
use minos_python.Saga.Types.{Error, is_step_exception, Arguments, Program}
use minos_python.Saga.Execution.{
  StepClass, Session, Unwinding, settle, unwind_step, unwind, unwound, arguments, conclude_rollback,
  rollback_unless, rollback,
}

-- What a saga relies on: a step whose rollback returned is marked as rolled back.
pub record StepLaws (p : Program) (c : StepClass p) : Type 1 where
  pub IsRolledBack : c.Step → Type 0
  pub rollback-IsRolledBack :
      (args : Arguments) (context : p.Context) (x : c.Step) (w : p.World) (new : p.Context)
      → (c.rollback args context x w).0 ≡ return new
      → IsRolledBack (c.rollback args context x w).1

module _ (p : Program) (c : StepClass p) (laws : StepLaws p c) where
  settle-rolled :
      (raised : Bool) (u : Unwinding p c) (x : c.Step) (w : p.World) (r : Result Error p.Context)
      → (settle p c raised u x w r).result ≡ return false
      → (new : p.Context) × (r ≡ return new) × (raised ≡ false)
  settle-rolled raised u x w (return z) h = (z, refl, cc)
  settle-rolled raised u x w (raise e) h = elim (Bool-cases (is_step_exception e)) [
    | inl step ↦ absurd (cc (rw step at h))
    | inr other ↦ absurd (cc (rw other at h))
  ]

  unwind_step-rolled :
      (args : Arguments) (x : c.Step) (u : Unwinding p c) (r : Result Error Bool)
      → u.result ≡ r
      → (u.result ≡ return false → All laws.IsRolledBack u.steps)
      → (unwind_step p c args x u r).result ≡ return false
      → All laws.IsRolledBack (unwind_step p c args x u r).steps
  unwind_step-rolled args x u (raise e) q behind h = cc
  unwind_step-rolled args x u (return raised) q behind h =
      let (r, x', w) = c.rollback args u.context x u.world in
      let (new, ok, clean) = settle-rolled raised u x' w r h in
      rw ok
        (laws.rollback-IsRolledBack args u.context x u.world new ok, behind (q ∙ ap return clean))

  unwind-rolled :
      (args : Arguments) (context : p.Context) (w : p.World) (xs : List c.Step)
      → (unwind p c args context w xs).result ≡ return false
      → All laws.IsRolledBack (unwind p c args context w xs).steps
  unfolding unwind
  unwind-rolled args context w [] h = tt
  unwind-rolled args context w (x ∷ xs) h =
      let u = unwind p c args context w xs in
      unwind_step-rolled args x u u.result refl (unwind-rolled args context w xs) h

  conclude-rolled :
      (s : Session p c) (r : Result Error Bool)
      → (conclude_rollback p c false r s).0 ≡ return tt
      → (r ≡ return false)
        × ((conclude_rollback p c false r s).1.self.executed_steps ≡ s.self.executed_steps)
        × ((conclude_rollback p c false r s).1.self.already_rollback ≡ true)
  unfolding conclude_rollback
  conclude-rolled s (raise e) h = cc
  conclude-rolled s (return true) h = cc
  conclude-rolled s (return false) h = (refl, refl, refl)

  rollback_unless-rolled :
      (s : Session p c) (b : Bool)
      → (rollback_unless p c false b s).0 ≡ return tt
      → All laws.IsRolledBack (rollback_unless p c false b s).1.self.executed_steps
        × ((rollback_unless p c false b s).1.self.already_rollback ≡ true)
  unfolding rollback_unless
  rollback_unless-rolled s true h = cc
  rollback_unless-rolled s false h =
      let args = arguments p c s none in
      let u = unwind p c args s.self.context s.world s.self.executed_steps in
      let (clean, same, marked) = conclude-rolled (unwound p c u s) u.result h in
      (
        subst (All laws.IsRolledBack) (sym same)
            (unwind-rolled args s.self.context s.world s.self.executed_steps clean),
        marked,
      )

  -- A rollback without autoreject that returns has rolled back every executed step, in the sense of
  -- the law that the steps obey, and is marked as performed.
  pub rollback-compensates :
      (s : Session p c)
      → (rollback p c false s).0 ≡ return tt
      → All laws.IsRolledBack (rollback p c false s).1.self.executed_steps
        × ((rollback p c false s).1.self.already_rollback ≡ true)
  unfolding rollback
  rollback-compensates s h = rollback_unless-rolled s s.self.already_rollback h

module _ (p : Program) (c : StepClass p) where
  -- A loop that has ended leaves the steps before alone.
  unwind-stays :
      (args : Arguments) (context : p.Context) (w : p.World) (xs ys : List c.Step) (e : Error)
      → (unwind p c args context w ys).result ≡ raise e
      → ((unwind p c args context w (xs ++ ys)).result ≡ raise e)
        × ((unwind p c args context w (xs ++ ys)).steps
            ≡ xs ++ (unwind p c args context w ys).steps)
  unfolding unwind
  unwind-stays args context w [] ys e h = (h, refl)
  unwind-stays args context w (x ∷ xs) ys e h =
      let (ended, steps) = unwind-stays args context w xs ys e h in
      rw ended (refl, ap (λ l. x ∷ l) steps)

  unwind-ends :
      (args : Arguments) (context : p.Context) (w : p.World) (y : c.Step) (ys : List c.Step)
      (raised : Bool) (e : Error)
      → let u = unwind p c args context w ys in
        u.result ≡ return raised
        → (c.rollback args u.context y u.world).0 ≡ raise e
        → is_step_exception e ≡ false
        → (unwind p c args context w (y ∷ ys)).result ≡ raise e
  unfolding unwind
  unwind-ends args context w y ys raised e behind bad other = rw (behind, bad, other)

  conclude-raises :
      (autoreject : Bool) (s : Session p c) (r : Result Error Bool) (e : Error)
      → r ≡ raise e
      → conclude_rollback p c autoreject r s ≡ (raise e, s)
  unfolding conclude_rollback
  conclude-raises autoreject s r e q = rw q

  escape-state :
      (autoreject : Bool) (s : Session p c) (zs : List c.Step) (e : Error)
      → let u = unwind p c (arguments p c s none) s.self.context s.world zs in
        s.self.already_rollback ≡ false
        → s.self.executed_steps ≡ zs
        → u.result ≡ raise e
        → rollback p c autoreject s ≡ (raise e, unwound p c u s)
  unfolding rollback rollback_unless
  escape-state autoreject s zs e fresh executed result =
      let args = arguments p c s none in
      ap (λ b. rollback_unless p c autoreject b s) fresh
      ∙ ap
          (λ l.
            let u = unwind p c args s.self.context s.world l in
            conclude_rollback p c autoreject u.result (unwound p c u s))
          executed
      ∙ conclude-raises autoreject (unwound p c (unwind p c args s.self.context s.world zs) s) _ e
          result

  -- When the rollback of a step raises an exception that is not one of a step, the rollback of the
  -- execution ends there: the steps executed before are left as they were, and the execution is not
  -- marked as rolled back.
  pub rollback-escapes :
      (autoreject : Bool) (s : Session p c) (xs ys : List c.Step) (y : c.Step) (raised : Bool)
      (e : Error)
      → let args = arguments p c s none in
        let u = unwind p c args s.self.context s.world ys in
        s.self.already_rollback ≡ false
        → s.self.executed_steps ≡ xs ++ (y ∷ ys)
        → u.result ≡ return raised
        → (c.rollback args u.context y u.world).0 ≡ raise e
        → is_step_exception e ≡ false
        → let (r, s') = rollback p c autoreject s in
          (r ≡ raise e)
          × (s'.self.executed_steps ≡ xs ++ (unwind p c args s.self.context s.world (y ∷ ys)).steps)
          × (s'.self.already_rollback ≡ false)
  unfolding rollback
  rollback-escapes autoreject s xs ys y raised e fresh executed behind bad other =
      let args = arguments p c s none in
      let ended = unwind-ends args s.self.context s.world y ys raised e behind bad other in
      let (result, steps) = unwind-stays args s.self.context s.world xs (y ∷ ys) e ended in
      let whole = escape-state autoreject s (xs ++ (y ∷ ys)) e fresh executed result in
      (
        ap (λ z. z.0) whole,
        ap (λ (z : Result Error Unit × Session p c). z.1.self.executed_steps) whole ∙ steps,
        ap (λ (z : Result Error Unit × Session p c). z.1.self.already_rollback) whole ∙ fresh,
      )

  unwind-last :
      (args : Arguments) (context : p.Context) (w : p.World) (y : c.Step) (e : Error)
      → (c.rollback args context y w).0 ≡ raise e
      → (unwind p c args context w (y ∷ [])).steps ≡ (c.rollback args context y w).1 ∷ []
  unfolding unwind
  unwind-last args context w y e bad = rw bad

  -- The case in which it is the step executed last.
  pub rollback-escapes_last :
      (autoreject : Bool) (s : Session p c) (xs : List c.Step) (y : c.Step) (e : Error)
      → let args = arguments p c s none in
        s.self.already_rollback ≡ false
        → s.self.executed_steps ≡ xs ++ (y ∷ [])
        → (c.rollback args s.self.context y s.world).0 ≡ raise e
        → is_step_exception e ≡ false
        → let (r, s') = rollback p c autoreject s in
          (r ≡ raise e)
          × (s'.self.executed_steps ≡ xs ++ ((c.rollback args s.self.context y s.world).1 ∷ []))
          × (s'.self.already_rollback ≡ false)
  unfolding unwind
  rollback-escapes_last autoreject s xs y e fresh executed bad other =
      let (ends, steps, unmarked) =
        rollback-escapes autoreject s xs [] y false e fresh executed refl bad other in
      (
        ends,
        steps
            ∙ ap (λ l. xs ++ l) (unwind-last (arguments p c s none) s.self.context s.world y e bad),
        unmarked,
      )
