-- ===== src/Saga/Manager/Closing.antt =====
-- How a commit and a rejection end, as the manager sees them.
use minos_python.Base.{
  ◌≡◌, ◌≢◌, ◌⊎◌, refl, sym, ap, ◌∙◌, true, false, Result, return, raise, inl, inr, Bool-cases,
  Result-cases,
}
use minos_python.Saga.Types.{
  finished, is_saga_status, Error, failed_step, paused_step, rollback_step, rollback_execution,
  already_executed, failed_commit, executor, value_error, uncaught, Program,
}
use minos_python.Saga.Commit.Protocol as Protocol
use minos_python.Saga.Execution.{
  StepClass, Session, commit, reject, commit_failed, or_failed, pairs, rollback, suppress_rollback,
}
use minos_python.Saga.Execution.Outcome.{IsOther, performed, stopped, rollback-RolledBack}
use minos_python.Saga.Manager.{of_saga, is_failed, is_pause}

pub other-pause : (e : Error) → IsOther e → is_pause (of_saga e) ≡ false
other-pause (failed_step x) h = elim h [ ]
other-pause paused_step h = elim h [ ]
other-pause rollback_step h = refl
other-pause rollback_execution h = refl
other-pause already_executed h = refl
other-pause (failed_commit x) h = refl
other-pause (executor x) h = refl
other-pause value_error h = refl
other-pause (uncaught x) h = refl

pub suppress_rollback-cases :
    (p : Program) (c : StepClass p) (r : Result Error Unit)
    → (suppress_rollback p c r ≡ return tt)
      ⊎ ((e : Error) × (r ≡ raise e) × (suppress_rollback p c r ≡ raise e))
suppress_rollback-cases p c (return u) = inl refl
suppress_rollback-cases p c (raise rollback_execution) = inl refl
suppress_rollback-cases p c (raise e) = inr (e, refl, refl)

module _ (p : Program) (c : StepClass p) where
  pub commit_failed-raises : (x : Error) (s : Session p c) → (commit_failed p c x s).0 ≢ return tt
  unfolding commit_failed
  commit_failed-raises x s h =
      elim (Result-cases (suppress_rollback p c (rollback p c false s).0)) [
        | inl (u, e) ↦ cc (rw e at h)
        | inr (y, e) ↦ cc (rw e at h)
      ]

  pub or_failed-kept :
      (r : Result Error Unit) (z : Session p c)
      → (or_failed p c r z).0 ≡ return tt
      → (or_failed p c r z).1.self ≡ z.self
  or_failed-kept (return u) z h = refl
  or_failed-kept (raise x) z h = absurd (commit_failed-raises x z h)

  -- A commit that returns leaves the execution as it is.
  pub commit-kept :
      (s : Session p c)
      → s.self.status ≡ finished
      → (commit p c s).0 ≡ return tt
      → (commit p c s).1.self ≡ s.self
  unfolding commit
  commit-kept s done h =
      let test : is_saga_status s.self.status finished ≡ true =
        ap (λ st. is_saga_status st finished) done in
      rw test (or_failed-kept _ _ (rw test at h))

  pub rollback-pause :
      (s : Session p c) (e : Error)
      → (rollback p c false s).0 ≡ raise e
      → is_pause (of_saga e) ≡ false
  rollback-pause s e h = elim (rollback-RolledBack p c s) [
    | performed returned _ marked keeps same ↦ absurd (cc (returned, h))
    | stopped e' raised other keeps same ↦
        let q : e' ≡ e = cc (raised, h) in
        ap (λ x. is_pause (of_saga x)) (sym q) ∙ other-pause e' other
  ]

  pub commit_failed-pause :
      (y x : Error) (s : Session p c)
      → (commit_failed p c y s).0 ≡ raise x
      → is_pause (of_saga x) ≡ false
  unfolding commit_failed
  commit_failed-pause y x s h = elim (suppress_rollback-cases p c (rollback p c false s).0) [
    | inl quiet ↦
        let q : failed_commit y ≡ x = cc (rw quiet at h) in ap (λ e. is_pause (of_saga e)) (sym q)
    | inr (e, raised, passed) ↦
        let q : e ≡ x = cc (rw passed at h) in
        ap (λ z. is_pause (of_saga z)) (sym q) ∙ rollback-pause s e raised
  ]

  pub or_failed-pause :
      (r : Result Error Unit) (z : Session p c) (x : Error)
      → (or_failed p c r z).0 ≡ raise x
      → is_pause (of_saga x) ≡ false
  or_failed-pause (return u) z x h = absurd (cc h)
  or_failed-pause (raise y) z x h = commit_failed-pause y x z h

  -- A commit does not pause.
  pub commit-pause :
      (s : Session p c) (x : Error) → (commit p c s).0 ≡ raise x → is_pause (of_saga x) ≡ false
  unfolding commit
  commit-pause s x h = elim (Bool-cases (is_saga_status s.self.status finished)) [
    | inr other ↦
        let q : value_error ≡ x = cc (rw other at h) in ap (λ e. is_pause (of_saga e)) (sym q)
    | inl done ↦ or_failed-pause _ _ x (rw done at h)
  ]

  pub reject-kept : (s : Session p c) → (reject p c s).1.self ≡ s.self
  unfolding reject
  reject-kept s = refl

  pub reject-failed :
      (s : Session p c) (x : Error) → (reject p c s).0 ≡ raise x → is_failed (of_saga x) ≡ true
  unfolding reject
  reject-failed s x h = elim (Result-cases (Protocol.reject p (pairs p c s) s.world).0) [
    | inl (u, e) ↦ absurd (cc (rw e at h))
    | inr (y, e) ↦
        let q : failed_commit y ≡ x = cc (rw e at h) in ap (λ z. is_failed (of_saga z)) (sym q)
  ]
