-- ===== src/Saga/Conditional/Rollback.antt =====
-- The rollback of a conditional step, and the laws of both kinds of step.
use minos_python.Base.{
  ◌≡◌, refl, ap, ◌∙◌, inl, inr, Bool, true, false, none, some, List, [], ◌∷◌, ◌++◌, arith,
  Bool-cases, return, raise, Result-cases,
}
use minos_python.Saga.Types.{
  is_created, Error, rollback_execution, LeafDefinition, local, remote, Arguments, Program,
}
use minos_python.Saga.Steps.{StepScope, rollback_local, rollback_remote, rollback_leaf}
use minos_python.Saga.Execution.{StepClass, SagaExecution, Session, arguments, rollback}
use minos_python.Saga.Execution.Rollback.{StepLaws, rollback-escapes_last}
use minos_python.Saga.Leaf.{leaf_class}
use minos_python.Saga.Conditional.{
  ConditionalStep, ConditionalScope, adopt, rollback_inner, rollback_unless, rollback_conditional,
  NodeStep, plain_step, conditional_step, rollback_node, conditional_class,
}

module _ (p : Program) where
  -- A local or remote step is rolled back when it is marked so.
  pub rollback_leaf-marks :
      (d : LeafDefinition) (args : Arguments) (context new : p.Context) (s : StepScope p)
      → (rollback_leaf p d args context s).0 ≡ return new
      → (rollback_leaf p d args context s).1.self.already_rollback ≡ true
  unfolding rollback_leaf rollback_local rollback_remote
  rollback_leaf-marks (local e f) args context new s h = ground arith
  rollback_leaf-marks (remote e su er f) args context new s h = ground arith

  abbrev pub leaf_laws : StepLaws p (leaf_class p)
  leaf_laws = record {
    IsRolledBack = λ x. x.already_rollback ≡ true;
    rollback-IsRolledBack = λ args context x w new h.
        rollback_leaf-marks x.definition args context new (record { self = x; world = w }) h;
  }

module _ (p : Program) (c : StepClass p) where
  rollback_unless-marks :
      (b : Bool) (args : Arguments) (context new : p.Context) (s : ConditionalScope p c)
      → (rollback_unless p c b args context s).0 ≡ return new
      → (rollback_unless p c b args context s).1.self.already_rollback ≡ true
  unfolding rollback_unless
  rollback_unless-marks true args context new s h = cc
  rollback_unless-marks false args context new s h =
      elim (Result-cases (rollback_inner p c args context s.self.inner s).0) [
        | inl (z, ok) ↦ rw ok
        | inr (e, bad) ↦ absurd (cc (rw bad at h))
      ]

  pub rollback_conditional-marks :
      (args : Arguments) (context new : p.Context) (s : ConditionalScope p c)
      → (rollback_conditional p c args context s).0 ≡ return new
      → (rollback_conditional p c args context s).1.self.already_rollback ≡ true
  unfolding rollback_conditional
  rollback_conditional-marks args context new s h = elim (Bool-cases (is_created s.self.status)) [
    | inl fresh ↦ absurd (cc (rw fresh at h))
    | inr started ↦
        rw started
          (rollback_unless-marks s.self.already_rollback args context new s (rw started at h))
  ]

  abbrev pub NodeIsRolledBack : StepLaws p c → NodeStep p c → Type 0
  NodeIsRolledBack laws (plain_step x) = laws.IsRolledBack x
  NodeIsRolledBack laws (conditional_step x) = x.already_rollback ≡ true

  pub rollback_node-marks :
      (laws : StepLaws p c) (args : Arguments) (context : p.Context) (x : NodeStep p c)
      (w : p.World) (new : p.Context)
      → (rollback_node p c args context x w).0 ≡ return new
      → NodeIsRolledBack laws (rollback_node p c args context x w).1
  rollback_node-marks laws args context (plain_step x) w new h =
      laws.rollback-IsRolledBack args context x w new h
  rollback_node-marks laws args context (conditional_step x) w new h =
      rollback_conditional-marks args context new (record { self = x; world = w }) h

  rollback_inner-raises :
      (args : Arguments) (context : p.Context) (s : ConditionalScope p c) (e : SagaExecution p c)
      (x : Error)
      → (rollback p c false (record { self = adopt p c args context e; world = s.world })).0
        ≡ raise x
      → (rollback_inner p c args context (some e) s).0 ≡ raise x
  unfolding rollback_inner
  rollback_inner-raises args context s e x bad = rw (rollback_inner, bad)

  rollback_unless-raises :
      (args : Arguments) (context : p.Context) (s : ConditionalScope p c) (e : SagaExecution p c)
      (x : Error)
      → s.self.inner ≡ some e
      → (rollback p c false (record { self = adopt p c args context e; world = s.world })).0
        ≡ raise x
      → (rollback_unless p c false args context s).0 ≡ raise x
  unfolding rollback_unless
  rollback_unless-raises args context s e x inner bad =
      let raised : (rollback_inner p c args context s.self.inner s).0 ≡ raise x =
        ap (λ o. (rollback_inner p c args context o s).0) inner
        ∙ rollback_inner-raises args context s e x bad in
      rw raised

  -- The rollback of a conditional step passes on what the rollback of its inner execution raises.
  rollback_conditional-raises :
      (args : Arguments) (context : p.Context) (s : ConditionalScope p c) (e : SagaExecution p c)
      (x : Error)
      → is_created s.self.status ≡ false
      → s.self.already_rollback ≡ false
      → s.self.inner ≡ some e
      → (rollback p c false (record { self = adopt p c args context e; world = s.world })).0
        ≡ raise x
      → (rollback_conditional p c args context s).0 ≡ raise x
  unfolding rollback_conditional
  rollback_conditional-raises args context s e x started fresh inner bad = rw started (
      ap (λ b. (rollback_unless p c b args context s).0) fresh
      ∙ rollback_unless-raises args context s e x inner bad)

abbrev pub node_laws :
    (p : Program) (c : StepClass p) → StepLaws p c → StepLaws p (conditional_class p c)
node_laws p c laws = record {
  IsRolledBack = NodeIsRolledBack p c laws;
  rollback-IsRolledBack = rollback_node-marks p c laws;
}

module _ (p : Program) (c : StepClass p) where
  -- If the rollback of the inner execution of the last executed step, a conditional one, cannot be
  -- completed, then the rollback of the saga raises at once: no step before it is compensated, and
  -- the saga is not marked as rolled back. (Of a local or remote step the exception is noted, and
  -- the loop goes on.)
  pub rollback-conditional_escapes :
      (autoreject : Bool) (s : Session p (conditional_class p c)) (xs : List (NodeStep p c))
      (x : ConditionalStep p c) (e : SagaExecution p c)
      → s.self.already_rollback ≡ false
      → s.self.executed_steps ≡ xs ++ (conditional_step x ∷ [])
      → is_created x.status ≡ false
      → x.already_rollback ≡ false
      → x.inner ≡ some e
      → (rollback p c false (record {
        self = adopt p c (arguments p (conditional_class p c) s none) s.self.context e;
        world = s.world;
      })).0
        ≡ raise rollback_execution
      → let (r, s') = rollback p (conditional_class p c) autoreject s in
        (r ≡ raise rollback_execution)
        × ((y : ConditionalStep p c) × (s'.self.executed_steps ≡ xs ++ (conditional_step y ∷ [])))
        × (s'.self.already_rollback ≡ false)
  rollback-conditional_escapes autoreject s xs x e fresh executed started live inner bad =
      let args = arguments p (conditional_class p c) s none in
      let raised =
        rollback_conditional-raises p c args s.self.context (record { self = x; world = s.world }) e
          rollback_execution started live inner bad in
      let (ends, steps, unmarked) =
        rollback-escapes_last p (conditional_class p c) autoreject s xs (conditional_step x)
          rollback_execution fresh executed raised refl in
      (
        ends,
        (
          (rollback_conditional p c args s.self.context
              (record { self = x; world = s.world })).1.self,
          steps,
        ),
        unmarked,
      )
