-- ===== src/Saga/Manager/Disk.antt =====
-- A run of an execution that pauses on disk: what is stored in the end.
use minos_python.Base.{
  ℕ, ◌≡◌, ◌<◌, ap, Bool, true, false, not, ◌&&◌, Option, none, some, length, if◌then◌else◌, Result,
  return, raise,
}
use minos_python.Saga.Storage.{Repository}
use minos_python.Saga.Types.{paused, finished, is_saga_status, Program}
use minos_python.Saga.Execution.{StepClass, SagaExecution}
use minos_python.Saga.Manager.{ManagerError, is_failed, Message, Managed, delete_finished}

module _ (p : Program) (c : StepClass p) (db : Repository (SagaExecution p c))
    (receive : p.World → Result ℕ Message × p.World) where
  abbrev Stored : Managed p c db receive → Option (SagaExecution p c) → Type 0
  Stored m o = db.load m.session.self.uuid m.storage ≡ o

  -- How a run that pauses on disk ends, from `m`.
  pub data Settled (raise_on_error : Bool) (m : Managed p c db receive)
      (r : Result ManagerError Unit) (m' : Managed p c db receive) : Type 0 where
    finishes :
        r ≡ return tt
        → m'.session.self.status ≡ finished
        → length m'.session.self.executed_steps ≡ length m.session.self.steps
        → Stored m' none
        → Settled raise_on_error m r m'
    waits :
        (x : c.Step)
        → r ≡ return tt
        → m'.session.self.status ≡ paused
        → m'.session.self.paused ≡ some x
        → length m'.session.self.executed_steps < length m.session.self.steps
        → Stored m' (some m'.session.self)
        → Settled raise_on_error m r m'
    fails :
        (e : ManagerError)
        → is_failed e ≡ true
        → r ≡ (if raise_on_error then raise e else return tt)
        → Stored m' (
            if not raise_on_error && is_saga_status m'.session.self.status finished
            then none
            else some m'.session.self)
        → Settled raise_on_error m r m'
    breaks :
        (e : ManagerError)
        → is_failed e ≡ false
        → r ≡ raise e
        → m'.storage ≡ m.storage
        → Settled raise_on_error m r m'

  delete_finished-Stored :
      (n : Managed p c db receive)
      → n.session.self.status ≡ finished
      → (delete_finished p c db receive n).session ≡ n.session
  delete_finished-Stored n done =
      let test : is_saga_status n.session.self.status finished ≡ true =
        ap (λ st. is_saga_status st finished) done in
      rw test
