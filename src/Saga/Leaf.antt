-- ===== src/Saga/Leaf.antt =====
-- Local and remote steps as steps of a saga.
use minos_python.Base.{ℕ, map}
use minos_python.Saga.Types.{LeafDefinition, Program}
use minos_python.Saga.Steps.{LeafExecution, new_leaf, execute_leaf, rollback_leaf}
use minos_python.Saga.Execution.{StepClass}

abbrev pub leaf_class : (p : Program) → StepClass p
leaf_class p = record {
  Definition = LeafDefinition;
  Step = LeafExecution;
  from_definition = new_leaf;
  execute = λ args context x w.
      let (r, s) = execute_leaf p x.definition args context (record { self = x; world = w }) in
      (r, s.self, s.world);
  rollback = λ args context x w.
      let (r, s) = rollback_leaf p x.definition args context (record { self = x; world = w }) in
      (r, s.self, s.world);
  touched = λ u x. map (λ (n : ℕ). (u, n)) x.related_services;
}
