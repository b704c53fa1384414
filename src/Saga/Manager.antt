-- ===== src/Saga/Manager.antt =====
-- `SagaManager` (manager.py) over the stored executions (executions/repositories/).
--
-- The repository of executions is a parameter (Saga/Storage). The loops that wait for messages take fuel;
-- `none` means that it has run out. The header of related services and the user of the request are
-- left out.
pub mod Closing
pub mod Disk
pub mod Waiting
use minos_python.Base.{
  ℕ, zero, suc, Bool, true, false, not, ◌||◌, Option, none, some, List, [], ◌∷◌, ◌==◌,
  if◌then◌else◌, Result, return, raise,
}
use minos_python.Saga.Storage.{Repository}
use minos_python.Saga.Types.{
  Uuid, SagaStatus, created, paused, finished, errored, is_saga_status, Response, Error,
  failed_step, paused_step, failed_commit, Program,
}
use minos_python.Saga.Execution.{
  StepClass, SagaExecution, Session, execute, commit, reject, with_status,
}

pub data ManagerError : Type 0 where
  of_saga : Error → ManagerError
  failed_execution : ℕ → ManagerError
  execution_not_found : ManagerError

-- `isinstance(exc, SagaFailedExecutionException)`
abbrev pub is_failed : ManagerError → Bool
is_failed (of_saga (failed_step x)) = true
is_failed (of_saga (failed_commit x)) = true
is_failed (of_saga _) = false
is_failed (failed_execution x) = true
is_failed execution_not_found = false

abbrev pub is_pause : ManagerError → Bool
is_pause (of_saga paused_step) = true
is_pause _ = false

-- A message that the broker client receives: the identifier in its header `saga`, if it has one (a
-- text that is no UUID is left out), and the response made of it.
pub record Message : Type 0 where
  pub saga : Option Uuid
  pub response : Response

-- `"saga" in message.headers and UUID(message.headers["saga"]) == execution.uuid`
abbrev pub is_for : Uuid → Option Uuid → Bool
is_for u none = false
is_for u (some v) = v == u

module _ (p : Program) (c : StepClass p) (db : Repository (SagaExecution p c))
    (receive : p.World → Result ℕ Message × p.World) where
  -- The execution in its world, and the executions that are stored.
  pub record Managed : Type 0 where
    pub session : Session p c
    pub storage : db.Content

  -- `self.storage.store(execution)`
  abbrev pub store : Managed → Managed
  store m = record m { storage = db.store m.session.self.uuid m.session.self m.storage }

  abbrev pub Outcome : Type 0
  Outcome = Result ManagerError Unit × Managed

  abbrev pub of_session : {A : Type 0} → Managed → Result Error A × Session p c → Outcome
  of_session m (return a, s) = (return tt, record m { session = s })
  of_session m (raise x, s) = (raise (of_saga x), record m { session = s })

  abbrev pub do_execute : Option Response → Managed → Outcome
  do_execute response m = of_session m (execute p c response false m.session)

  abbrev pub do_commit : Bool → Managed → Outcome
  do_commit true m = of_session m (commit p c m.session)
  do_commit false m = (return tt, m)

  abbrev pub do_reject : Bool → Managed → Outcome
  do_reject true m = of_session m (reject p c m.session)
  do_reject false m = (return tt, m)

  -- `except SagaFailedExecutionException as exc: if autocommit: reject; raise exc`
  abbrev pub raise_after : ManagerError → Outcome → Outcome
  raise_after e (return _, m) = (raise e, m)
  raise_after e (raise x, m) = (raise x, m)

  abbrev pub reject_failed : Bool → ManagerError → Managed → Outcome
  reject_failed autocommit e m =
      if is_failed e then raise_after e (do_reject autocommit m) else (raise e, m)

  abbrev pub handle_failed : Bool → Outcome → Outcome
  handle_failed autocommit (return _, m) = (return tt, m)
  handle_failed autocommit (raise e, m) = reject_failed autocommit e m

  -- `except SagaPausedExecutionStepException: await self.storage.store(execution)`
  abbrev pub handle_paused : Bool → Outcome → Outcome
  handle_paused autocommit (return _, m) = (return tt, m)
  handle_paused autocommit (raise e, m) =
      if is_pause e then (return tt, store m) else reject_failed autocommit e m

  -- `if autocommit: await execution.commit()`, unless an exception was raised before.
  abbrev pub commit_after : Bool → Outcome → Outcome
  commit_after autocommit (raise e, m) = (raise e, m)
  commit_after autocommit (return _, m) = do_commit autocommit m

  -- `_run_with_pause_on_disk`
  unfoldable pub run_with_pause_on_disk : Option Response → Bool → Managed → Outcome
  run_with_pause_on_disk response autocommit m =
      handle_paused autocommit (commit_after autocommit (do_execute response m))

  abbrev pub with_world : p.World → Managed → Managed
  with_world w m = record m { session = record (m.session) { world = w } }

  abbrev pub fail_receiving : Managed → Managed
  fail_receiving m = record m { session = with_status p c errored m.session }

  -- `_get_response`
  unfoldable pub get_response : ℕ → Managed → Option (Result ManagerError Response × Managed)
  get_response zero m = none
  get_response (suc fuel) m =
      let (r, w) = receive m.session.world in
      let next = get_response fuel (with_world w m) in
      elim r [
        | raise x ↦ some (raise (failed_execution x), fail_receiving (with_world w m))
        | return message ↦
            if is_for m.session.self.uuid message.saga
            then some (return message.response, with_world w m)
            else next
      ]

  abbrev pub is_open : SagaStatus → Bool
  is_open status = is_saga_status status created || is_saga_status status paused

  -- How the loop goes on after it has waited for a response.
  abbrev pub continue_with :
      (Option Response → Managed → Option Outcome)
      → Option (Result ManagerError Response × Managed)
      → Option Outcome
  continue_with again none = none
  continue_with again (some (raise e, m)) = some (raise e, m)
  continue_with again (some (return response, m)) = again (some response) (store m)

  abbrev pub continue_after :
      ℕ → (Option Response → Managed → Option Outcome) → Option Response → Outcome → Option Outcome
  continue_after fuel again response (return _, m) = again response (store m)
  continue_after fuel again response (raise e, m) =
      if is_pause e then continue_with again (get_response fuel m) else some (raise e, m)

  -- `while execution.status in (SagaStatus.Created, SagaStatus.Paused)`
  unfoldable pub run_rounds : ℕ → Option Response → Managed → Option Outcome
  unfolding get_response
  run_rounds zero response m = none
  run_rounds (suc fuel) response m = elim (is_open m.session.self.status) [
    | true ↦ continue_after fuel (λ r n. run_rounds fuel r n) response (do_execute response m)
    | false ↦ some (return tt, m)
  ]

  abbrev pub handle_rounds : Bool → Option Outcome → Option Outcome
  handle_rounds autocommit none = none
  handle_rounds autocommit (some o) = some (handle_failed autocommit (commit_after autocommit o))

  -- `_run_with_pause_on_memory`
  unfoldable pub run_with_pause_on_memory : ℕ → Option Response → Bool → Managed → Option Outcome
  unfolding run_rounds
  run_with_pause_on_memory fuel response autocommit m =
      handle_rounds autocommit (run_rounds fuel response m)

  -- `if execution.status == SagaStatus.Finished: await self.storage.delete(execution)`
  abbrev pub delete_finished : Managed → Managed
  delete_finished m =
      if is_saga_status m.session.self.status finished
      then record m { storage = db.delete m.session.self.uuid m.storage }
      else m

  -- `if raise_on_error: raise exc`, and the end of `_run` otherwise.
  abbrev pub after_failure : Bool → ManagerError → Managed → Outcome
  after_failure true e m = (raise e, m)
  after_failure false e m = (return tt, delete_finished m)

  abbrev pub store_failed : Bool → ManagerError → Managed → Outcome
  store_failed raise_on_error e m =
      if is_failed e then after_failure raise_on_error e (store m) else (raise e, m)

  -- `_run`, by how the execution ran.
  unfoldable pub conclude_run : Bool → Outcome → Outcome
  conclude_run raise_on_error (return _, m) = (return tt, delete_finished m)
  conclude_run raise_on_error (raise e, m) = store_failed raise_on_error e m

  -- `_run` with `pause_on_disk`.
  unfoldable pub run_on_disk : Option Response → Bool → Bool → Managed → Outcome
  unfolding run_with_pause_on_disk conclude_run
  run_on_disk response autocommit raise_on_error m =
      conclude_run raise_on_error (run_with_pause_on_disk response autocommit m)

  abbrev pub conclude_some : Bool → Option Outcome → Option Outcome
  conclude_some raise_on_error none = none
  conclude_some raise_on_error (some o) = some (conclude_run raise_on_error o)

  -- `_run` without `pause_on_disk`.
  unfoldable pub run_in_memory : ℕ → Option Response → Bool → Bool → Managed → Option Outcome
  unfolding run_with_pause_on_memory conclude_run
  run_in_memory fuel response autocommit raise_on_error m =
      conclude_some raise_on_error (run_with_pause_on_memory fuel response autocommit m)

  abbrev pub run_loaded : (Managed → Outcome) → Managed → Option (SagaExecution p c) → Outcome
  run_loaded f m none = (raise execution_not_found, m)
  run_loaded f m (some x) = f (record m { session = record (m.session) { self = x } })

  -- `_load_and_run` with `pause_on_disk`; `u` is the identifier in the response.
  unfoldable pub load_and_run : Uuid → Response → Bool → Bool → Managed → Outcome
  unfolding run_on_disk
  load_and_run u response autocommit raise_on_error m =
      run_loaded (run_on_disk (some response) autocommit raise_on_error) m (db.load u m.storage)
