-- ===== src/Saga/Storage.antt =====
-- The repository of executions (executions/repositories/): what the manager calls, and what it relies
-- on. Behind the methods of `DatabaseSagaExecutionRepository` stands a key-value database, whose keys
-- are the identifiers of executions.
use minos_python.Base.{
  ◌≡◌, refl, Option, none, some, List, [], ◌∷◌, ◌==◌, ==_refl, if◌then◌else◌, Bool-cases, inl, inr,
}
use minos_python.Saga.Types.{Uuid}

-- `_store`, `_load` and `_delete`; `none` stands for the exception of a key that is not there.
pub record Repository (A : Type 0) : Type 1 where
  pub Content : Type 0
  pub store : Uuid → A → Content → Content
  pub load : Uuid → Content → Option A
  pub delete : Uuid → Content → Content
  pub load-store : (u : Uuid) (x : A) (db : Content) → load u (store u x db) ≡ some x
  pub load-delete : (u : Uuid) (db : Content) → load u (delete u db) ≡ none

-- A repository in memory: the values by their keys.
module _ {A : Type 0} where
  abbrev pub find_value : Uuid → List (Uuid × A) → Option A
  find_value u [] = none
  find_value u ((k, x) ∷ xs) = if k == u then some x else find_value u xs

  abbrev pub put_value : Uuid → A → List (Uuid × A) → List (Uuid × A)
  put_value u x [] = (u, x) ∷ []
  put_value u x ((k, y) ∷ ys) = if k == u then (u, x) ∷ ys else (k, y) ∷ put_value u x ys

  abbrev pub remove_value : Uuid → List (Uuid × A) → List (Uuid × A)
  remove_value u [] = []
  remove_value u ((k, x) ∷ xs) = if k == u then remove_value u xs else (k, x) ∷ remove_value u xs

  pub find-put_value :
      (u : Uuid) (x : A) (xs : List (Uuid × A)) → find_value u (put_value u x xs) ≡ some x
  find-put_value u x [] = rw (==_refl u)
  find-put_value u x ((k, y) ∷ ys) = elim (Bool-cases (k == u)) [
    | inl same ↦ rw (same, ==_refl u)
    | inr other ↦ rw other (rw other (find-put_value u x ys))
  ]

  pub find-remove_value :
      (u : Uuid) (xs : List (Uuid × A)) → find_value u (remove_value u xs) ≡ none
  find-remove_value u [] = refl
  find-remove_value u ((k, x) ∷ xs) = elim (Bool-cases (k == u)) [
    | inl same ↦ rw same (find-remove_value u xs)
    | inr other ↦ rw other (rw other (find-remove_value u xs))
  ]

  abbrev pub in_memory : Repository A
  in_memory = record {
    Content = List (Uuid × A);
    store = put_value;
    load = find_value;
    delete = remove_value;
    load-store = find-put_value;
    load-delete = find-remove_value;
  }
