-- ===== src/Saga/Steps.antt =====
-- The executions of local and remote steps (executions/steps/local.py and remote.py), with their
-- executors (executions/executors/), and the interface by which a saga uses its steps.
pub mod Responses
use minos_python.Base.{
  ℕ, Bool, true, false, not, Option, none, some, List, [], ◌∷◌, if◌then◌else◌, get_or, Result,
  return, raise, Action, ◌>>=◌, ◌>>◌, pure, throw, get, modify, raise_if,
}
use minos_python.Saga.Types.{
  StepStatus, step_created, running_on_execute, finished_on_execute, errored_on_execute,
  paused_by_on_execute, errored_by_on_execute, running_on_success, errored_on_success,
  running_on_error, errored_on_error, step_finished, is_created, ResponseStatus, success, error,
  system_error, Response, Error, failed_step, paused_step, rollback_step, add_services,
  LeafDefinition, local, remote, Arguments, Program,
}

-- `SagaStepExecution` of a local or a remote step.
pub record LeafExecution : Type 0 where
  pub definition : LeafDefinition
  pub status : StepStatus
  pub related_services : List ℕ
  pub already_rollback : Bool

-- `from_definition`
abbrev pub new_leaf : LeafDefinition → LeafExecution
new_leaf d = record {
  definition = d;
  status = step_created;
  related_services = [];
  already_rollback = false;
}

module _ (p : Program) where
  open p use {Context, World}

  -- The state that a step runs in: the step itself and the world.
  pub record StepScope : Type 0 where
    pub self : LeafExecution
    pub world : World

  -- `except ExecutorException as exc: raise SagaFailedExecutionStepException(exc.exception)`
  abbrev pub as_failed : {A : Type 0} → Result ℕ A → Result Error A
  as_failed (return a) = return a
  as_failed (raise x) = raise (failed_step x)

  abbrev pub on_world : {A : Type 0} → (World → Result ℕ A × World) → Action StepScope Error A
  on_world m s = let (r, w) = m s.world in (as_failed r, record s { world = w })

  -- `LocalExecutor.exec`
  unfoldable pub exec_local : Option ℕ → Arguments → Context → Action StepScope Error Context
  exec_local none args context = pure context
  exec_local (some op) args context = do
    new ← on_world (p.run_local op args context)
    pure (get_or new context)

  -- `RequestExecutor.exec`
  unfoldable pub exec_request : Option ℕ → Arguments → Context → Action StepScope Error Unit
  exec_request none args context = pure tt
  exec_request (some op) args context = on_world (p.run_request op args context)

  -- `ResponseExecutor.exec`: an exception that is returned counts as raised.
  unfoldable pub exec_response :
      Option ℕ → Arguments → Context → Response → Action StepScope Error Context
  exec_response none args context response = pure context
  exec_response (some op) args context response = do
    new ← on_world (p.run_response op args context response)
    λ s. (as_failed new, s)

  abbrev pub set_status : StepStatus → StepScope → StepScope
  set_status status s = record s { self = record (s.self) { status = status } }

  abbrev pub relate : List ℕ → StepScope → StepScope
  relate names s = record s {
    self = record (s.self) { related_services = add_services names s.self.related_services };
  }

  -- `try: … except SagaFailedExecutionStepException: self.status = …; <handler>; raise exc`; an
  -- exception of the handler takes the place of the first.
  abbrev pub on_failed :
      {A : Type 0}
      → StepStatus
      → Action StepScope Error Unit
      → Result Error A
      → Action StepScope Error A
  on_failed status handler (raise (failed_step x)) =
      (modify (set_status status) >> handler) >> throw (failed_step x)
  on_failed status handler other = λ s. (other, s)

  abbrev pub catching :
      {A : Type 0}
      → Action StepScope Error A
      → StepStatus
      → Action StepScope Error Unit
      → Action StepScope Error A
  catching body status handler s = let (r, s') = body s in on_failed status handler r s'

  -- The guards of both `rollback` methods.
  abbrev pub rollback_guards : Action StepScope Error Unit
  rollback_guards = do
    s ← get
    raise_if (is_created s.self.status) rollback_step
    raise_if s.self.already_rollback rollback_step

  abbrev pub mark_rollback : StepScope → StepScope
  mark_rollback s = record s { self = record (s.self) { already_rollback = true } }

  -- `RemoteSagaStepExecution.rollback`
  unfoldable pub rollback_remote : Option ℕ → Arguments → Context → Action StepScope Error Context
  rollback_remote on_failure args context = do
    rollback_guards
    exec_request on_failure args context
    modify mark_rollback
    pure context

  -- `LocalSagaStepExecution.rollback`
  unfoldable pub rollback_local : Option ℕ → Arguments → Context → Action StepScope Error Context
  rollback_local on_failure args context = do
    rollback_guards
    modify (relate (p.service_name ∷ []))
    new ← exec_local on_failure args context
    modify mark_rollback
    pure new

  -- `LocalSagaStepExecution.execute`
  unfoldable pub execute_local : Option ℕ → Arguments → Context → Action StepScope Error Context
  execute_local on_execute args context s =
      if not (is_created s.self.status)
      then (return context, s)
      else (do
        modify (set_status running_on_execute)
        modify (relate (p.service_name ∷ []))
        new ← catching (exec_local on_execute args context) errored_on_execute (pure tt)
        modify (set_status step_finished)
        pure new)
          s

  -- `_execute_on_execute`
  unfoldable pub execute_on_execute : Option ℕ → Arguments → Context → Action StepScope Error Unit
  execute_on_execute on_execute args context s =
      if not (is_created s.self.status)
      then (return tt, s)
      else (do
        modify (set_status running_on_execute)
        modify (relate (p.service_name ∷ []))
        catching (exec_request on_execute args context) errored_on_execute (pure tt)
        modify (set_status finished_on_execute))
          s

  -- `_execute_on_success` and `_execute_on_error`, which differ in the operation and the statuses.
  unfoldable pub execute_on_response :
      StepStatus
      → StepStatus
      → Option ℕ
      → Option ℕ
      → Arguments
      → Context
      → Response
      → Action StepScope Error Context
  execute_on_response start bad operation on_failure args context response = do
    modify (set_status start)
    modify (relate (p.service_name ∷ []))
    catching (exec_response operation args context response) bad
        (rollback_remote on_failure args context >> pure tt)

  -- `RemoteSagaStepExecution.execute` once a response is there.
  unfoldable pub consume :
      (on_success on_error on_failure : Option ℕ)
      → Arguments
      → Context
      → Response
      → ResponseStatus
      → Action StepScope Error Context
  consume on_success on_error on_failure args context response system_error =
      modify (set_status errored_by_on_execute)
      >> throw (failed_step (p.response_exception response))
  consume on_success on_error on_failure args context response success = do
    new ←
        execute_on_response running_on_success errored_on_success on_success on_failure args context
          response
    modify (set_status step_finished)
    pure new
  consume on_success on_error on_failure args context response error = do
    new ←
        execute_on_response running_on_error errored_on_error on_error on_failure args context
          response
    modify (set_status step_finished)
    pure new

  unfoldable pub await_response :
      (on_success on_error on_failure : Option ℕ)
      → Arguments
      → Context
      → Option Response
      → Action StepScope Error Context
  await_response on_success on_error on_failure args context none =
      modify (set_status paused_by_on_execute) >> throw paused_step
  await_response on_success on_error on_failure args context (some response) =
      modify (relate response.related_services)
      >> consume on_success on_error on_failure args context response response.status

  -- `RemoteSagaStepExecution.execute`
  unfoldable pub execute_remote :
      (on_execute on_success on_error on_failure : Option ℕ)
      → Arguments
      → Context
      → Action StepScope Error Context
  execute_remote on_execute on_success on_error on_failure args context =
      execute_on_execute on_execute args context
      >> await_response on_success on_error on_failure args context args.response

  unfoldable pub execute_leaf :
      LeafDefinition → Arguments → Context → Action StepScope Error Context
  execute_leaf (local on_execute on_failure) = execute_local on_execute
  execute_leaf (remote on_execute on_success on_error on_failure) =
      execute_remote on_execute on_success on_error on_failure

  unfoldable pub rollback_leaf :
      LeafDefinition → Arguments → Context → Action StepScope Error Context
  rollback_leaf (local on_execute on_failure) = rollback_local on_failure
  rollback_leaf (remote on_execute on_success on_error on_failure) = rollback_remote on_failure
