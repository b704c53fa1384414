-- ===== src/Saga/Types.antt =====
-- The data of the saga package: statuses (executions/status.py), responses (messages.py), exceptions
-- (exceptions.py), step definitions (definitions/) and what an execution takes from outside.
--
-- Service names, operations and the exceptions of callbacks are only stored and compared, so they
-- stand for themselves as numbers; a set of service names is a list without repetition.
use minos_python.Base.{
  ℕ, Bool, true, false, Option, List, [], ◌∷◌, ◌++◌, ◌==◌, if◌then◌else◌, contains, Result,
}

abbrev pub Uuid : Type 0
Uuid = ℕ

-- `class SagaStatus(Enum)`
pub data SagaStatus : Type 0 where
  created running paused finished errored : SagaStatus

abbrev pub saga_rank : SagaStatus → ℕ
saga_rank created = 0
saga_rank running = 1
saga_rank paused = 2
saga_rank finished = 3
saga_rank errored = 4

abbrev pub is_saga_status : SagaStatus → SagaStatus → Bool
is_saga_status a b = saga_rank a == saga_rank b

-- `class SagaStepStatus(Enum)`
pub data StepStatus : Type 0 where
  step_created running_on_execute finished_on_execute errored_on_execute : StepStatus
  paused_by_on_execute errored_by_on_execute : StepStatus
  running_on_failure paused_on_failure errored_on_failure : StepStatus
  running_on_success errored_on_success running_on_error errored_on_error : StepStatus
  step_finished : StepStatus

-- `status == SagaStepStatus.Created`
abbrev pub is_created : StepStatus → Bool
is_created step_created = true
is_created _ = false

-- `class SagaResponseStatus(IntEnum)`
pub data ResponseStatus : Type 0 where
  success error system_error : ResponseStatus

pub record Response : Type 0 where
  pub content : ℕ
  pub status : ResponseStatus
  pub related_services : List ℕ

-- The exceptions of the package that an execution meets. `uncaught` is any exception that is none of
-- these, `executor` is `ExecutorException`.
pub data Error : Type 0 where
  failed_step : ℕ → Error
  paused_step : Error
  rollback_step : Error
  rollback_execution : Error
  already_executed : Error
  failed_commit : Error → Error
  executor : ℕ → Error
  value_error : Error
  uncaught : ℕ → Error

-- `isinstance(exc, SagaStepExecutionException)`
abbrev pub is_step_exception : Error → Bool
is_step_exception (failed_step x) = true
is_step_exception paused_step = true
is_step_exception rollback_step = true
is_step_exception _ = false

-- `services.add(name)`
abbrev pub add_service : ℕ → List ℕ → List ℕ
add_service n ns = if contains n ns then ns else ns ++ (n ∷ [])

-- `services |= others`
abbrev pub add_services : List ℕ → List ℕ → List ℕ
add_services [] ns = ns
add_services (m ∷ ms) ns = add_services ms (add_service m ns)

-- `LocalSagaStep` and `RemoteSagaStep` with their operations.
pub data LeafDefinition : Type 0 where
  local : (on_execute on_failure : Option ℕ) → LeafDefinition
  remote : (on_execute on_success on_error on_failure : Option ℕ) → LeafDefinition

-- The named arguments that an execution hands to its steps.
pub record Arguments : Type 0 where
  pub execution_uuid : Uuid
  pub user : Option Uuid
  pub response : Option Response

-- The two-phase commit messages, by their topic.
pub data Topic : Type 0 where
  reserve_transaction commit_transaction reject_transaction : Topic

-- What an execution takes from outside. A callback runs inside its transaction and may raise
-- (`Executor.exec_function`), with the effects on the world that it has: `run_local` may return
-- `None`, `run_response` may return an exception instead of a context, `run_request` builds the
-- request and publishes it. `send` publishes a commit message, and `receive_many` waits for a number
-- of replies and tells of each whether it is ok.
pub record Program : Type 1 where
  pub Context : Type 0
  pub World : Type 0
  pub service_name : ℕ
  pub run_local : ℕ → Arguments → Context → World → Result ℕ (Option Context) × World
  pub run_request : ℕ → Arguments → Context → World → Result ℕ Unit × World
  pub run_response :
      ℕ → Arguments → Context → Response → World → Result ℕ (Result ℕ Context) × World
  pub run_condition : ℕ → Arguments → Context → World → Result ℕ Bool × World
  pub send : Topic → Uuid × ℕ → World → Result ℕ Unit × World
  pub receive_many : ℕ → World → Result ℕ (List Bool) × World
  -- the exception built from the content of a response with status SYSTEM_ERROR
  pub response_exception : Response → ℕ
