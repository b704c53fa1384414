-- ===== src/Saga/Tests.antt =====
-- Instances of the theorems about the saga package, in a program whose operation 9 raises, and whose
-- other operations add their number to the context; its world counts the calls.
mod Manager
use minos_python.Base.{
  ℕ, ◌+◌, ◌≡◌, refl, Bool, true, false, ◌==◌, if◌then◌else◌, none, some, List, [], ◌∷◌, ◌++◌, arith,
  return, raise, All,
}
use minos_python.Saga.Types.{
  created, running, step_created, step_finished, StepStatus, rollback_execution, LeafDefinition,
  local, remote, Program,
}
use minos_python.Saga.Definitions.{
  new_saga, Check, validate_leaf, validate_saga, validate_step, on_failure, on_success, call_step,
  local_kind, remote_kind, operation, given_step, add_step, commit_saga, FluentCall, configure, add,
  via_step, fluent, build,
}
use minos_python.Saga.Definitions.Building.{build-valid}
use minos_python.Saga.Steps.{
  LeafExecution, rollback_leaf, rollback_local, rollback_remote, exec_local, exec_request,
}
use minos_python.Saga.Steps.{StepScope, execute_on_response, exec_response, consume, await_response}
use minos_python.Saga.Steps.Responses.{Answered, reply, await_response-Answered}
use minos_python.Saga.Types.{Arguments, Response, success, finished_on_execute}
use minos_python.Saga.Commit.Transactions.{
  Pair, Ascending, has_pair, transactions, transactions-exact,
}
use minos_python.Saga.Commit.Protocol.{Decided, logged, commit-Decided}
use minos_python.Saga.Commit.Protocol as Protocol
use minos_python.Saga.Execution.{
  SagaExecution, Session, unwind, conclude_rollback, rollback_unless, rollback, execute_one,
  execute,
}
use minos_python.Saga.Execution.Outcome.{
  RolledBack, Advanced, rollback-RolledBack, execute_one-Advanced,
}
use minos_python.Saga.Execution.Progress.{Executed, execute-Executed}
use minos_python.Saga.Execution.Rollback.{rollback-compensates}
use minos_python.Saga.Leaf.{leaf_class}
use minos_python.Saga.Conditional.{
  ConditionalStep, NodeStep, plain_step, conditional_step, conditional_class,
}
use minos_python.Saga.Conditional.Rollback.{leaf_laws, rollback-conditional_escapes}

abbrev pub sample : Program
sample = record {
  Context = ℕ;
  World = ℕ;
  service_name = 1;
  run_local = λ op args c w. (if op == 9 then raise 99 else return (some (c + op)), w + 1);
  run_request = λ op args c w. (if op == 9 then raise 99 else return tt, w + 1);
  run_response =
      λ op args c response w. (if op == 9 then raise 99 else return (return (c + op)), w + 1);
  run_condition = λ op args c w. (return (op == 1), w + 1);
  send = λ topic a w. (return tt, w + 1);
  receive_many = λ n w. (return (true ∷ false ∷ []), w + 1);
  response_exception = λ response. 77;
}

-- The validation of sagas without conditional steps.
abbrev check_none : Check Unit
check_none x = return tt

-- `Saga().local_step(2).on_failure(3).remote_step(4).on_success(5).commit()`
abbrev calls : List (FluentCall Unit)
calls = configure (on_failure 3) ∷ add remote_kind (operation 4) ∷ configure (on_success 5) ∷ []

build-returns : (build check_none local_kind (operation 2) calls new_saga).0 ≡ return tt
unfolding build add_step given_step via_step commit_saga fluent call_step validate_step
    validate_leaf
build-returns = refl

build-valid_example :
    let s = (build check_none local_kind (operation 2) calls new_saga).1 in
    (validate_saga (validate_step check_none) s ≡ return tt) × (s.committed ≡ true)
build-valid_example = build-valid check_none local_kind (operation 2) calls build-returns

abbrev two_pairs : List Pair
two_pairs = (5, 1) ∷ (5, 2) ∷ []

commit-Decided_example :
    let (r, w') = Protocol.commit (logged sample) two_pairs (0, []) in
    Decided sample two_pairs 0 [] r w'.1
commit-Decided_example = commit-Decided sample two_pairs 0 []

transactions-exact_example :
    Ascending (transactions ((5, 2) ∷ (5, 1) ∷ (5, 2) ∷ []))
    × ((c : Pair)
        → has_pair c (transactions ((5, 2) ∷ (5, 1) ∷ (5, 2) ∷ []))
          ≡ has_pair c ((5, 2) ∷ (5, 1) ∷ (5, 2) ∷ []))
transactions-exact_example = transactions-exact ((5, 2) ∷ (5, 1) ∷ (5, 2) ∷ [])

abbrev leaf : LeafDefinition → StepStatus → LeafExecution
leaf d status = record {
  definition = d;
  status = status;
  related_services = 1 ∷ [];
  already_rollback = false;
}

abbrev pub failing_response : Response
failing_response = record { content = 0; status = success; related_services = 2 ∷ [] }

abbrev waiting_step : StepScope sample
waiting_step = record {
  self = leaf (remote (some 4) (some 9) none (some 6)) finished_on_execute;
  world = 0;
}

abbrev resumed : Arguments
resumed = record { execution_uuid = 5; user = none; response = some failing_response }

await_response-Answered_example :
    let (r, s') =
      await_response sample (some 9) none (some 6) resumed 0 (some failing_response) waiting_step in
    Answered sample
      (reply sample resumed 0 failing_response 0 (some 9))
      (rollback_remote sample (some 6) resumed 0)
      failing_response
      success
      waiting_step
      r
      s'
await_response-Answered_example =
    await_response-Answered sample (some 9) none (some 6) resumed 0 failing_response waiting_step

-- The callback fails, and the step rolls itself back.
waiting-undone :
    let s' =
      (await_response sample
        (some 9)
        none
        (some 6)
        resumed
        0
        (some failing_response)
        waiting_step).1 in
    (s'.self.already_rollback ≡ true) × (s'.world ≡ 2)
unfolding await_response consume execute_on_response exec_response rollback_remote exec_request
waiting-undone = (refl, refl)

-- A saga of three steps, of which the second waits for a response and the third fails.
abbrev definitions : List LeafDefinition
definitions =
    local (some 2) (some 3) ∷ remote (some 4) (some 5) none (some 6) ∷ local (some 9) none ∷ []

abbrev execution : List LeafExecution → Bool → SagaExecution sample (leaf_class sample)
execution executed rolled = record {
  uuid = 5;
  steps = definitions;
  executed_steps = executed;
  context = 0;
  status = created;
  already_rollback = rolled;
  paused = none;
  user = none;
}

abbrev pub session : List LeafExecution → Session sample (leaf_class sample)
session executed = record { self = execution executed false; world = 0 }

-- The first two steps have been executed.
abbrev executed_steps : List LeafExecution
executed_steps =
    leaf (local (some 2) (some 3)) step_finished
    ∷ leaf (remote (some 4) (some 5) none (some 6)) step_finished
    ∷ []

execute-Executed_example :
    let (r, s') = execute sample (leaf_class sample) none false (session []) in
    Executed sample (leaf_class sample) (session []) r s'
execute-Executed_example =
    execute-Executed sample (leaf_class sample) none (session []) (λ e. cc e) (λ e. cc e)
      (omega arith)

execute_one-Advanced_example :
    let x = leaf (local (some 2) (some 3)) step_created in
    let (r, s') = execute_one sample (leaf_class sample) false none x (session []) in
    Advanced sample (leaf_class sample) (session []) r s'
execute_one-Advanced_example =
    execute_one-Advanced sample (leaf_class sample) none
      (leaf (local (some 2) (some 3)) step_created) (session [])

rollback-RolledBack_example :
    let (r, s') = rollback sample (leaf_class sample) false (session executed_steps) in
    RolledBack sample (leaf_class sample) (session executed_steps) r s'
rollback-RolledBack_example =
    rollback-RolledBack sample (leaf_class sample) (session executed_steps)

rollback-returns :
    (rollback sample (leaf_class sample) false (session executed_steps)).0 ≡ return tt
unfolding rollback rollback_unless unwind conclude_rollback rollback_leaf rollback_local
    rollback_remote exec_request exec_local
rollback-returns = refl

rollback-compensates_example :
    let (r, s') = rollback sample (leaf_class sample) false (session executed_steps) in
    All (λ (x : LeafExecution). x.already_rollback ≡ true) s'.self.executed_steps
    × (s'.self.already_rollback ≡ true)
rollback-compensates_example =
    rollback-compensates sample (leaf_class sample) (leaf_laws sample) (session executed_steps)
      rollback-returns

-- A conditional step whose inner execution has been rolled back by itself.
abbrev conditional : ConditionalStep sample (leaf_class sample)
conditional = record {
  definition = record { if_then = (1, definitions) ∷ []; else_then = none };
  status = step_finished;
  related_services = 1 ∷ [];
  already_rollback = false;
  inner = some (execution executed_steps true);
}

abbrev nodes : List (NodeStep sample (leaf_class sample))
nodes = plain_step (leaf (local (some 2) (some 3)) step_finished) ∷ []

abbrev outer : Session sample (conditional_class sample (leaf_class sample))
outer = record {
  self = record {
    uuid = 5;
    steps = [];
    executed_steps = nodes ++ (conditional_step conditional ∷ []);
    context = 0;
    status = running;
    already_rollback = false;
    paused = none;
    user = none;
  };
  world = 0;
}

-- Its second rollback raises.
inner-raises :
    (rollback sample (leaf_class sample) false (record {
      self = record (execution executed_steps true) { uuid = 5; context = 0 };
      world = 0;
    })).0
    ≡ raise rollback_execution
unfolding rollback rollback_unless
inner-raises = refl

rollback-conditional_escapes_example :
    let (r, s') = rollback sample (conditional_class sample (leaf_class sample)) true outer in
    (r ≡ raise rollback_execution)
    × ((y : ConditionalStep sample (leaf_class sample)) × (s'.self.executed_steps
          ≡ nodes ++ (conditional_step y ∷ [])))
    × (s'.self.already_rollback ≡ false)
rollback-conditional_escapes_example =
    rollback-conditional_escapes sample (leaf_class sample) true outer nodes conditional
      (execution executed_steps true) refl refl refl refl refl inner-raises
