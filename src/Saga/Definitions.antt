-- ===== src/Saga/Definitions.antt =====
-- The definition of sagas (definitions/saga.py and definitions/steps/): the methods that build a saga
-- and its steps, and their validation.
--
-- A saga holds its steps, so the step that a method returned last is the last one of the saga, and a
-- call on it changes it there. The sagas of the alternatives of a conditional step have steps of a
-- type `D`, with the validation `check`: a saga with conditional steps nested n deep is n layers of
-- `StepDefinition`. An operation stands for its callback with its parameters.
pub mod Building
use minos_python.Base.{
  ℕ, Bool, true, false, not, ◌&&◌, Option, none, some, List, [], ◌∷◌, ◌++◌, if◌then◌else◌, is_empty,
  Result, return, raise, Action, ◌>>=◌, ◌>>◌, pure, throw, get, modify, raise_if,
}
use minos_python.Saga.Types.{LeafDefinition, local, remote}

-- The exceptions of the builders; `no_attribute` is Python's own, for a method of another class.
pub data DefinitionError : Type 0 where
  empty_saga not_committed empty_step : DefinitionError
  multiple_on_execute multiple_on_failure multiple_on_success multiple_on_error : DefinitionError
  multiple_else_then already_on_saga undefined_on_execute already_committed : DefinitionError
  type_error no_attribute : DefinitionError

-- `Saga`
pub record SagaDefinition (D : Type 0) : Type 0 where
  pub steps : List D
  pub committed : Bool

-- `Saga()`
abbrev pub new_saga : {D : Type 0} → SagaDefinition D
new_saga = record { steps = []; committed = false }

-- `ConditionalSagaStep`
pub record Alternatives (D : Type 0) : Type 0 where
  pub if_then : List (ℕ × SagaDefinition D)
  pub else_then : Option (SagaDefinition D)

-- `SagaStep`
pub data StepDefinition (D : Type 0) : Type 0 where
  leaf : LeafDefinition → StepDefinition D
  conditional : Alternatives D → StepDefinition D

abbrev pub Check : Type 0 → Type 0
Check A = A → Result DefinitionError Unit

abbrev pub and_check :
    Result DefinitionError Unit → Result DefinitionError Unit → Result DefinitionError Unit
and_check (return a) r = r
and_check (raise e) r = raise e

-- `for x in l: x.validate()`
abbrev pub check_all : {A : Type 0} → Check A → List A → Result DefinitionError Unit
check_all check [] = return tt
check_all check (x ∷ l) = and_check (check x) (check_all check l)

abbrev pub is_unset : {A : Type 0} → Option A → Bool
is_unset none = true
is_unset (some a) = false

-- `validate` of a local and of a remote step.
unfoldable pub validate_leaf : Check LeafDefinition
validate_leaf (local on_execute on_failure) =
    if is_unset on_execute && is_unset on_failure
    then raise empty_step
    else if is_unset on_execute
    then raise undefined_on_execute
    else return tt
validate_leaf (remote on_execute on_success on_error on_failure) =
    if is_unset on_execute && (is_unset on_failure && (is_unset on_success && is_unset on_error))
    then raise empty_step
    else if is_unset on_execute
    then raise undefined_on_execute
    else return tt

-- `Saga.validate`
unfoldable pub validate_saga : {D : Type 0} → Check D → Check (SagaDefinition D)
validate_saga check s =
    if is_empty s.steps
    then raise empty_saga
    else and_check (check_all check s.steps)
        (if s.committed then return tt else raise not_committed)

module _ {D : Type 0} (check : Check D) where
  abbrev pub validate_else : Check (Option (SagaDefinition D))
  validate_else none = return tt
  validate_else (some s) = validate_saga check s

  -- `ConditionalSagaStep.validate`
  unfoldable pub validate_alternatives : Check (Alternatives D)
  validate_alternatives a =
      if is_empty a.if_then && is_unset a.else_then
      then raise empty_step
      else and_check (check_all (λ (x : ℕ × SagaDefinition D). validate_saga check x.1) a.if_then)
          (validate_else a.else_then)

  -- `SagaStep.validate`
  unfoldable pub validate_step : Check (StepDefinition D)
  validate_step (leaf d) = validate_leaf d
  validate_step (conditional a) = validate_alternatives a

-- The methods that set an operation or an alternative of a step.
pub data StepCall (D : Type 0) : Type 0 where
  on_execute on_failure on_success on_error : ℕ → StepCall D
  if_then : ℕ → SagaDefinition D → StepCall D
  else_then : SagaDefinition D → StepCall D

-- `if self.on_…_operation is not None: raise …`, and the assignment.
abbrev pub set_once : {A B : Type 0} → Option A → DefinitionError → B → Result DefinitionError B
set_once none e b = return b
set_once (some a) e b = raise e

unfoldable pub call_step :
    {D : Type 0} → StepCall D → StepDefinition D → Result DefinitionError (StepDefinition D)
call_step (on_execute op) (leaf (local e f)) =
    set_once e multiple_on_execute (leaf (local (some op) f))
call_step (on_failure op) (leaf (local e f)) =
    set_once f multiple_on_failure (leaf (local e (some op)))
call_step (on_execute op) (leaf (remote e su er f)) =
    set_once e multiple_on_execute (leaf (remote (some op) su er f))
call_step (on_failure op) (leaf (remote e su er f)) =
    set_once f multiple_on_failure (leaf (remote e su er (some op)))
call_step (on_success op) (leaf (remote e su er f)) =
    set_once su multiple_on_success (leaf (remote e (some op) er f))
call_step (on_error op) (leaf (remote e su er f)) =
    set_once er multiple_on_error (leaf (remote e su (some op) f))
call_step (if_then op s) (conditional a) =
    return (conditional (record a { if_then = a.if_then ++ ((op, s) ∷ []) }))
call_step (else_then s) (conditional a) =
    set_once a.else_then multiple_else_then (conditional (record a { else_then = some s }))
call_step _ _ = raise no_attribute

pub data Kind : Type 0 where
  local_kind remote_kind conditional_kind : Kind

-- `isinstance(step, step_cls)`
abbrev pub is_kind : {D : Type 0} → Kind → StepDefinition D → Bool
is_kind local_kind (leaf (local e f)) = true
is_kind remote_kind (leaf (remote e su er f)) = true
is_kind conditional_kind (conditional a) = true
is_kind _ _ = false

-- What `local_step`, `remote_step` and `conditional_step` are given: nothing, an operation, or a
-- step, which may belong to a saga already.
pub data Given (D : Type 0) : Type 0 where
  nothing : Given D
  operation : ℕ → Given D
  existing : StepDefinition D → (has_saga : Bool) → Given D

abbrev pub fresh : {D : Type 0} → Kind → Option ℕ → StepDefinition D
fresh local_kind op = leaf (local op none)
fresh remote_kind op = leaf (remote op none none none)
fresh conditional_kind op = conditional (record { if_then = []; else_then = none })

-- The step that `_add_step` adds. The signature of `conditional_step` excludes operations.
unfoldable pub given_step :
    {D : Type 0} → Kind → Given D → Result DefinitionError (StepDefinition D)
given_step kind nothing = return (fresh kind none)
given_step conditional_kind (operation op) = raise type_error
given_step kind (operation op) = return (fresh kind (some op))
given_step kind (existing x has_saga) =
    if is_kind kind x
    then (if has_saga then raise already_on_saga else return x)
    else raise type_error

-- A method of a saga.
abbrev pub Build : Type 0 → Type 0
Build D = Action (SagaDefinition (StepDefinition D)) DefinitionError Unit

module _ {D : Type 0} where
  -- `self.steps.append(step)`
  abbrev pub append_step : Result DefinitionError (StepDefinition D) → Build D
  append_step (raise e) s = (raise e, s)
  append_step (return x) s = (return tt, record s { steps = s.steps ++ (x ∷ []) })

  -- `_add_step`
  unfoldable pub add_step : Kind → Given D → Build D
  add_step kind given = do
    s ← get
    raise_if s.committed already_committed
    append_step (given_step kind given)

  -- `Saga.commit`
  unfoldable pub commit_saga : Build D
  commit_saga = do
    s ← get
    raise_if s.committed already_committed
    modify (λ z. record z { committed = true })

  -- The last step, changed by a call.
  abbrev pub update_last :
      (StepDefinition D → Result DefinitionError (StepDefinition D))
      → List (StepDefinition D)
      → Result DefinitionError (List (StepDefinition D))
  update_last f [] = raise no_attribute
  update_last f (x ∷ []) = elim (f x) [ return y ↦ return (y ∷ []) | raise e ↦ raise e ]
  update_last f (x ∷ y ∷ l) = elim (update_last f (y ∷ l)) [
    | return l' ↦ return (x ∷ l')
    | raise e ↦ raise e
  ]

  abbrev pub with_steps : Result DefinitionError (List (StepDefinition D)) → Build D
  with_steps (raise e) s = (raise e, s)
  with_steps (return l) s = (return tt, record s { steps = l })

  abbrev pub last_step : List (StepDefinition D) → Option (StepDefinition D)
  last_step [] = none
  last_step (x ∷ []) = some x
  last_step (x ∷ y ∷ l) = last_step (y ∷ l)

-- A call on the step that was returned last.
pub data FluentCall (D : Type 0) : Type 0 where
  configure : StepCall D → FluentCall D
  add : Kind → Given D → FluentCall D

module _ {D : Type 0} (check : Check D) where
  abbrev pub checked : Option (StepDefinition D) → Result DefinitionError Unit
  checked none = raise no_attribute
  checked (some x) = validate_step check x

  -- `self.validate()`, and then the method of `self.saga`, which `_add_step` has set.
  unfoldable pub via_step : Build D → Build D
  via_step call = do (λ s. (checked (last_step s.steps), s)); call

  unfoldable pub fluent : FluentCall D → Build D
  fluent (configure c) s = with_steps (update_last (call_step c) s.steps) s
  fluent (add kind given) s = via_step (add_step kind given) s

  abbrev pub fluent_all : List (FluentCall D) → Build D
  fluent_all [] = pure tt
  fluent_all (c ∷ cs) = fluent c >> fluent_all cs

  -- A chain of calls: a step is added to a saga, calls follow on the step returned last, and the
  -- saga is committed by way of that step.
  unfoldable pub build : Kind → Given D → List (FluentCall D) → Build D
  build kind given cs = (add_step kind given >> fluent_all cs) >> via_step commit_saga
