-- ===== src/Saga/Execution.antt =====
-- `SagaExecution` (executions/saga.py), over any kind of step.
--
-- A saga uses its steps through an interface, so that local, remote and conditional steps, whose
-- inner execution is again a `SagaExecution`, are all instances of it.

pub mod Outcome
pub mod Progress
pub mod Rollback
use minos_python.Base.{
  ℕ, Bool, true, false, not, ◌&&◌, ◌||◌, Option, none, some, List, [], ◌∷◌, ◌++◌, if◌then◌else◌,
  drop, length, Result, return, raise, Action, ◌>>=◌, ◌>>◌, pure, throw, get, modify, raise_if,
  when,
}
use minos_python.Saga.Types.{
  Uuid, SagaStatus, created, running, paused, finished, errored, is_saga_status, Response, Error,
  failed_step, paused_step, rollback_execution, already_executed, failed_commit, value_error,
  is_step_exception, Arguments, Program,
}
use minos_python.Saga.Commit.Transactions.{Pair, transactions}
use minos_python.Saga.Commit.Protocol as Protocol

-- What `SagaExecution` uses of `SagaStep` and `SagaStepExecution`. A method changes the step, also
-- when it raises; `touched` are the transactions that the committer finds in the step.
pub record StepClass (p : Program) : Type 1 where
  pub Definition : Type 0
  pub Step : Type 0
  pub from_definition : Definition → Step
  pub execute : Arguments → p.Context → Step → p.World → Result Error p.Context × Step × p.World
  pub rollback : Arguments → p.Context → Step → p.World → Result Error p.Context × Step × p.World
  pub touched : Uuid → Step → List Pair

module _ (p : Program) (c : StepClass p) where
  open p use {Context, World}
  open c use {Definition, Step}

  pub record SagaExecution : Type 0 where
    pub uuid : Uuid
    pub steps : List Definition
    pub executed_steps : List Step
    pub context : Context
    pub status : SagaStatus
    pub already_rollback : Bool
    pub paused : Option Step
    pub user : Option Uuid

  -- The state that a method runs in: the execution and the world.
  pub record Session : Type 0 where
    pub self : SagaExecution
    pub world : World

  abbrev pub with_status : SagaStatus → Session → Session
  with_status status s = record s { self = record (s.self) { status = status } }

  abbrev pub arguments : Session → Option Response → Arguments
  arguments s response = record {
    execution_uuid = s.self.uuid;
    user = s.self.user;
    response = response;
  }

  -- The transactions that the committer of this execution deals with.
  abbrev pub touched_all : Uuid → List Step → List Pair
  touched_all u [] = []
  touched_all u (x ∷ xs) = c.touched u x ++ touched_all u xs

  abbrev pub pairs : Session → List Pair
  pairs s = transactions (touched_all s.self.uuid s.self.executed_steps)

  abbrev pub on_world : Action World Error Unit → Action Session Error Unit
  on_world m s = let (r, w) = m s.world in (r, record s { world = w })

  -- `reject`: any exception of the committer becomes a `SagaFailedCommitCallbackException`.
  abbrev pub as_failed_commit : Result Error Unit → Result Error Unit
  as_failed_commit (return a) = return a
  as_failed_commit (raise x) = raise (failed_commit x)

  unfoldable pub reject : Action Session Error Unit
  reject s = let (r, s') = on_world (Protocol.reject p (pairs s)) s in (as_failed_commit r, s')

  -- The loop of `rollback` over `reversed(self.executed_steps)`: the last step first. The result is
  -- the steps as they are then, with `raised_exception` or the exception that ended the loop.
  pub record Unwinding : Type 0 where
    pub result : Result Error Bool
    pub steps : List Step
    pub context : Context
    pub world : World

  -- The body of the loop, by how the rollback of one step ended: an exception of a step is noted,
  -- any other ends the loop.
  abbrev pub settle : Bool → Unwinding → Step → World → Result Error Context → Unwinding
  settle raised u x w (return context) = record {
    result = return raised;
    steps = x ∷ u.steps;
    context = context;
    world = w;
  }
  settle raised u x w (raise e) = record {
    result = if is_step_exception e then return true else raise e;
    steps = x ∷ u.steps;
    context = u.context;
    world = w;
  }

  -- One step of the loop, by how it stands after the steps behind: a loop that ended stays ended.
  abbrev pub unwind_step : Arguments → Step → Unwinding → Result Error Bool → Unwinding
  unwind_step args x u (raise e) = record {
    result = raise e;
    steps = x ∷ u.steps;
    context = u.context;
    world = u.world;
  }
  unwind_step args x u (return raised) =
      let (r, x', w) = c.rollback args u.context x u.world in settle raised u x' w r

  unfoldable pub unwind : Arguments → Context → World → List Step → Unwinding
  unwind args context w [] = record {
    result = return false;
    steps = [];
    context = context;
    world = w;
  }
  unwind args context w (x ∷ xs) = let u = unwind args context w xs in unwind_step args x u u.result

  abbrev pub unwound : Unwinding → Session → Session
  unwound u s = record {
    self = record (s.self) { executed_steps = u.steps; context = u.context };
    world = u.world;
  }

  abbrev pub mark_rollback : Session → Session
  mark_rollback s = record s { self = record (s.self) { already_rollback = true } }

  -- `if autoreject: try: await self.reject() except SagaFailedCommitCallbackException: …`; the
  -- result is `raised_exception`.
  abbrev pub try_reject : Bool → Bool → Action Session Error Bool
  try_reject false raised s = (return raised, s)
  try_reject true raised s =
      let (r, s') = reject s in (return (elim r [ return _ ↦ raised | raise _ ↦ true ]), s')

  -- The end of `rollback`, by how the loop ended.
  unfoldable pub conclude_rollback : Bool → Result Error Bool → Action Session Error Unit
  conclude_rollback autoreject (raise e) s = (raise e, s)
  conclude_rollback autoreject (return raised) s =
      (do
        raised' ← try_reject autoreject raised
        modify mark_rollback
        raise_if raised' rollback_execution)
        s

  -- `rollback`, by `self.already_rollback`.
  unfoldable pub rollback_unless : Bool → Bool → Action Session Error Unit
  rollback_unless autoreject true s = (raise rollback_execution, s)
  rollback_unless autoreject false s =
      let u = unwind (arguments s none) s.self.context s.world s.self.executed_steps in
      conclude_rollback autoreject u.result (unwound u s)

  -- `rollback`
  unfoldable pub rollback : Bool → Action Session Error Unit
  rollback autoreject s = rollback_unless autoreject s.self.already_rollback s

  -- `with suppress(SagaRollbackExecutionException)`
  abbrev pub suppress_rollback : Result Error Unit → Result Error Unit
  suppress_rollback (raise rollback_execution) = return tt
  suppress_rollback r = r

  -- The handler of `commit`.
  unfoldable pub commit_failed : Error → Action Session Error Unit
  commit_failed x = do
    (λ s. let (r, s') = rollback false s in (suppress_rollback r, s'))
    modify (with_status errored)
    throw (failed_commit x)

  abbrev pub or_failed : Result Error Unit → Action Session Error Unit
  or_failed (return a) = pure tt
  or_failed (raise x) = commit_failed x

  -- `commit`
  unfoldable pub commit : Action Session Error Unit
  commit = do
    s ← get
    raise_if (not (is_saga_status s.self.status finished)) value_error
    (λ z. let (r, z') = on_world (Protocol.commit p (pairs z)) z in or_failed r z')

  -- How `_execute_one` goes on after the step.
  unfoldable pub after_step : Bool → Result Error Context → Step → Action Session Error Unit
  after_step autocommit (return context) x = modify (λ s. record s {
    self = record (s.self) {
      context = context;
      executed_steps = s.self.executed_steps ++ (x ∷ []);
    };
  })
  after_step autocommit (raise (failed_step e)) x = do
    rollback autocommit
    modify (with_status errored)
    throw (failed_step e)
  after_step autocommit (raise paused_step) x = do
    modify (λ s. record s { self = record (s.self) { paused = some x; status = paused } })
    throw paused_step
  after_step autocommit (raise e) x = throw e

  -- `_execute_one`
  unfoldable pub execute_one : Bool → Option Response → Step → Action Session Error Unit
  execute_one autocommit response x s =
      let (r, x', w) = c.execute (arguments s response) s.self.context x s.world in
      after_step autocommit r x' (record s { world = w })

  -- `for step in self._pending_steps`
  unfoldable pub execute_all : Bool → List Definition → Action Session Error Unit
  execute_all autocommit [] = pure tt
  execute_all autocommit (d ∷ ds) =
      execute_one autocommit none (c.from_definition d) >> execute_all autocommit ds

  -- `finally: if self.status != SagaStatus.Paused: self.paused_step = None`
  abbrev pub clear_paused : Session → Session
  clear_paused s =
      if is_saga_status s.self.status paused
      then s
      else record s { self = record (s.self) { paused = none } }

  -- The paused step, if there is one, takes the response.
  unfoldable pub resume : Bool → Option Response → Option Step → Action Session Error Unit
  resume autocommit response none s = (return tt, s)
  resume autocommit response (some x) s =
      let (r, s') = execute_one autocommit response x s in (r, clear_paused s')

  abbrev pub pending_steps : Session → List Definition
  pending_steps s = drop (length s.self.executed_steps) s.self.steps

  -- `execute` for a status that allows it.
  unfoldable pub run : Option Response → Bool → Action Session Error Context
  run response autocommit = do
    modify (with_status running)
    s ← get
    resume autocommit response s.self.paused
    s₁ ← get
    execute_all autocommit (pending_steps s₁)
    modify (with_status finished)
    when autocommit commit
    s₂ ← get
    pure s₂.self.context

  -- `execute`, by the status that it finds.
  unfoldable pub execute_at : SagaStatus → Option Response → Bool → Action Session Error Context
  execute_at finished response autocommit s = (raise already_executed, s)
  execute_at errored none autocommit s = (raise already_executed, s)
  execute_at errored (some response) autocommit s = (return s.self.context, s)
  execute_at _ response autocommit s = run response autocommit s

  -- `execute`
  unfoldable pub execute : Option Response → Bool → Action Session Error Context
  unfolding execute_at
  execute response autocommit s = execute_at s.self.status response autocommit s
