-- ===== src/Saga/Tests/Manager.antt =====
-- Instances of the theorems about the manager of sagas: an execution that pauses at its second step,
-- and a response that comes after one message for another saga.
use minos_python.Base.{ℕ, ◌+◌, ◌≡◌, refl, ◌==◌, if◌then◌else◌, some, [], arith, Result, return}
use minos_python.Saga.Storage.{in_memory}
use minos_python.Saga.Leaf.{leaf_class}
use minos_python.Saga.Manager.{Message, Managed, with_world, get_response}
use minos_python.Saga.Manager.Waiting.{now, later, get_response-Arrives}
use minos_python.Saga.Tests.{sample, session, failing_response}

abbrev arriving : ℕ → Result ℕ Message × ℕ
arriving w =
    (return (record { saga = some (if w == 0 then 3 else 5); response = failing_response }), w + 1)

abbrev managed : Managed sample (leaf_class sample) in_memory arriving
managed = record { session = session []; storage = [] }

get_response-Arrives_example :
    get_response sample (leaf_class sample) in_memory arriving 2 managed
    ≡ some (
      return failing_response,
      with_world sample (leaf_class sample) in_memory arriving 2 managed,
    )
get_response-Arrives_example =
    get_response-Arrives sample (leaf_class sample) in_memory arriving managed failing_response 2 1
      2 (omega arith)
      (later (record { saga = some 3; response = failing_response }) refl (λ e. cc e)
        (now (record { saga = some 5; response = failing_response }) refl refl refl))
