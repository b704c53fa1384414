-- ===== src/Saga/Conditional.antt =====
-- `ConditionalSagaStepExecution` (executions/steps/conditional.py) over any kind of step: the steps
-- of the inner sagas are of the class `c`, and the class that results has those steps and
-- conditional ones. So a saga with conditionals nested n deep is n layers over `leaf_class`.
pub mod Rollback
use minos_python.Base.{
  ℕ, Bool, true, false, not, Option, none, some, List, [], ◌∷◌, if◌then◌else◌, Result, return,
  raise, Action, and_then, ◌>>=◌, ◌>>◌, pure, throw, get, modify, raise_if, when,
}
use minos_python.Saga.Types.{
  Uuid, SagaStatus, created, StepStatus, step_created, running_on_execute, paused_by_on_execute,
  errored_by_on_execute, step_finished, is_created, Error, failed_step, paused_step, rollback_step,
  already_executed, executor, add_service, Arguments, Program,
}
use minos_python.Saga.Commit.Transactions.{Pair}
use minos_python.Saga.Execution.{StepClass, SagaExecution, Session, touched_all, execute, rollback}

module _ (p : Program) (c : StepClass p) where
  open p use {Context, World}

  -- `ConditionalSagaStep`: the alternatives with their conditions, and the `else_then` saga.
  pub record ConditionalDefinition : Type 0 where
    pub if_then : List (ℕ × List c.Definition)
    pub else_then : Option (List c.Definition)

  pub record ConditionalStep : Type 0 where
    pub definition : ConditionalDefinition
    pub status : StepStatus
    pub related_services : List ℕ
    pub already_rollback : Bool
    pub inner : Option (SagaExecution p c)

  pub record ConditionalScope : Type 0 where
    pub self : ConditionalStep
    pub world : World

  abbrev pub set_status : StepStatus → ConditionalScope → ConditionalScope
  set_status status s = record s { self = record (s.self) { status = status } }

  abbrev pub set_inner : Option (SagaExecution p c) → ConditionalScope → ConditionalScope
  set_inner inner s = record s { self = record (s.self) { inner = inner } }

  -- The loop over the alternatives: the saga of the first whose condition holds. The exception of a
  -- condition is an `ExecutorException`, as `Executor.exec` is called directly.
  unfoldable pub choose :
      Arguments
      → Context
      → List (ℕ × List c.Definition)
      → Action ConditionalScope Error (Option (List c.Definition))
  choose args context [] s = (return none, s)
  choose args context ((op, saga) ∷ l) s =
      let (r, w) = p.run_condition op args context s.world in
      let rest = choose args context l (record s { world = w }) in
      elim r [
        | raise x ↦ (raise (executor x), record s { world = w })
        | return b ↦ if b then (return (some saga), record s { world = w }) else rest
      ]

  abbrev pub or_else :
      Option (List c.Definition) → Option (List c.Definition) → Option (List c.Definition)
  or_else none o = o
  or_else (some saga) o = some saga

  -- `SagaExecution.from_definition` in the context of the outer execution.
  abbrev pub new_execution :
      Arguments → Context → Option (List c.Definition) → Option (SagaExecution p c)
  new_execution args context none = none
  new_execution args context (some saga) = some (record {
    uuid = args.execution_uuid;
    steps = saga;
    executed_steps = [];
    context = context;
    status = created;
    already_rollback = false;
    paused = none;
    user = args.user;
  })

  -- `_create_inner`
  unfoldable pub create_inner :
      Arguments → Context → Action ConditionalScope Error (Option (SagaExecution p c))
  create_inner args context = do
    modify (λ s. record s {
      self = record (s.self) {
        related_services = add_service p.service_name s.self.related_services;
      };
    })
    s ← get
    saga ← choose args context s.self.definition.if_then
    pure (new_execution args context (or_else saga s.self.definition.else_then))

  -- The outer identifier, user and context are handed to the inner execution.
  abbrev pub adopt : Arguments → Context → SagaExecution p c → SagaExecution p c
  adopt args context e = record e {
    uuid = args.execution_uuid;
    user = elim args.user [ none ↦ e.user | some u ↦ some u ];
    context = context;
  }

  -- The handlers of `_execute_inner`; `SagaExecutionAlreadyExecutedException` is suppressed.
  unfoldable pub after_inner :
      Result Error Context → Context → Action ConditionalScope Error Context
  after_inner (return _) context s = (return context, s)
  after_inner (raise already_executed) context s = (return context, s)
  after_inner (raise paused_step) context s = (raise paused_step, set_status paused_by_on_execute s)
  after_inner (raise (failed_step x)) context s =
      (raise (failed_step x), set_status errored_by_on_execute s)
  after_inner (raise x) context s = (raise x, s)

  -- `_execute_inner`, if there is an inner execution.
  unfoldable pub execute_inner :
      Arguments → Context → Option (SagaExecution p c) → Action ConditionalScope Error Context
  execute_inner args context none s = (return context, s)
  execute_inner args context (some e) s =
      let (r, z) =
        execute p c args.response false (record { self = adopt args context e; world = s.world }) in
      after_inner r z.self.context (set_inner (some z.self) (record s { world = z.world }))

  -- `execute`
  unfoldable pub execute_conditional : Arguments → Context → Action ConditionalScope Error Context
  execute_conditional args context = do
    s ← get
    when (is_created s.self.status) (do inner ← create_inner args context; modify (set_inner inner))
    modify (set_status running_on_execute)
    s₁ ← get
    new ← execute_inner args context s₁.self.inner
    modify (set_status step_finished)
    pure new

  -- `_rollback_inner`, if there is an inner execution.
  unfoldable pub rollback_inner :
      Arguments → Context → Option (SagaExecution p c) → Action ConditionalScope Error Context
  rollback_inner args context none s = (return context, s)
  rollback_inner args context (some e) s =
      let (r, z) = rollback p c false (record { self = adopt args context e; world = s.world }) in
      (
        elim r [ return _ ↦ return z.self.context | raise x ↦ raise x ],
        set_inner (some z.self) (record s { world = z.world }),
      )

  abbrev pub mark_rollback : ConditionalScope → ConditionalScope
  mark_rollback s = record s { self = record (s.self) { already_rollback = true } }

  -- `rollback`, by `self.already_rollback`, for a step that was executed.
  unfoldable pub rollback_unless :
      Bool → Arguments → Context → Action ConditionalScope Error Context
  rollback_unless true args context s = (raise rollback_step, s)
  rollback_unless false args context s =
      (do new ← rollback_inner args context s.self.inner; modify mark_rollback; pure new) s

  -- `rollback`
  unfoldable pub rollback_conditional : Arguments → Context → Action ConditionalScope Error Context
  rollback_conditional args context s =
      if is_created s.self.status
      then (raise rollback_step, s)
      else rollback_unless s.self.already_rollback args context s

  pub data NodeDefinition : Type 0 where
    plain : c.Definition → NodeDefinition
    conditional : ConditionalDefinition → NodeDefinition

  pub data NodeStep : Type 0 where
    plain_step : c.Step → NodeStep
    conditional_step : ConditionalStep → NodeStep

  -- `SagaStepExecution.from_definition`
  abbrev pub new_node : NodeDefinition → NodeStep
  new_node (plain d) = plain_step (c.from_definition d)
  new_node (conditional d) = conditional_step (record {
    definition = d;
    status = step_created;
    related_services = [];
    already_rollback = false;
    inner = none;
  })

  abbrev pub execute_node :
      Arguments → Context → NodeStep → World → Result Error Context × NodeStep × World
  execute_node args context (plain_step x) w =
      let (r, x', w') = c.execute args context x w in (r, plain_step x', w')
  execute_node args context (conditional_step x) w =
      let (r, s) = execute_conditional args context (record { self = x; world = w }) in
      (r, conditional_step s.self, s.world)

  abbrev pub rollback_node :
      Arguments → Context → NodeStep → World → Result Error Context × NodeStep × World
  rollback_node args context (plain_step x) w =
      let (r, x', w') = c.rollback args context x w in (r, plain_step x', w')
  rollback_node args context (conditional_step x) w =
      let (r, s) = rollback_conditional args context (record { self = x; world = w }) in
      (r, conditional_step s.self, s.world)

  -- `_fn` of the committer: a conditional step stands for its inner execution.
  abbrev pub touched_inner : Option (SagaExecution p c) → List Pair
  touched_inner none = []
  touched_inner (some e) = touched_all p c e.uuid e.executed_steps

  abbrev pub touched_node : Uuid → NodeStep → List Pair
  touched_node u (plain_step x) = c.touched u x
  touched_node u (conditional_step x) = touched_inner x.inner

abbrev pub conditional_class : (p : Program) → StepClass p → StepClass p
conditional_class p c = record {
  Definition = NodeDefinition p c;
  Step = NodeStep p c;
  from_definition = new_node p c;
  execute = execute_node p c;
  rollback = rollback_node p c;
  touched = touched_node p c;
}
