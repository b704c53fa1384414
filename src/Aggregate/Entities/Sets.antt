-- ===== src/Aggregate/Entities/Sets.antt =====
-- `IncrementalSet` and `IncrementalSetDiff` (collections.py) and `EntitySet`
-- (entities/collections.py).
--
-- A value object is only compared, so it is a number; an entity is its identifier with the content of
-- its fields. A Python set is a list without repetition, a dictionary a list of pairs by key.
pub mod Diffs
use minos_python.Base.{
  ℕ, Bool, true, false, not, ◌&&◌, Option, none, some, List, [], ◌∷◌, ◌++◌, map, ◌==◌,
  if◌then◌else◌, select_if, contains,
}
use minos_python.Aggregate.Store.{Uuid, EventAction, create, update, delete}

pub record ValueEntity : Type 0 where
  pub uuid : Uuid
  pub content : ℕ

-- `IncrementalSet.add`
abbrev pub add_value : ℕ → List ℕ → List ℕ
add_value x xs = if contains x xs then xs else xs ++ (x ∷ [])

-- `IncrementalSet.discard`
abbrev pub discard_value : ℕ → List ℕ → List ℕ
discard_value x xs = select_if (λ y. not (x == y)) xs

-- `EntitySet.get`, of which `EntitySet.__contains__` is the test.
abbrev pub find_entity : Uuid → List ValueEntity → Option ValueEntity
find_entity u [] = none
find_entity u (e ∷ es) = if e.uuid == u then some e else find_entity u es

abbrev pub is_some : {A : Type 0} → Option A → Bool
is_some none = false
is_some (some a) = true

abbrev pub has_entity : Uuid → List ValueEntity → Bool
has_entity u es = is_some (find_entity u es)

-- `EntitySet.add`
abbrev pub add_entity : ValueEntity → List ValueEntity → List ValueEntity
add_entity e [] = e ∷ []
add_entity e (x ∷ es) = if x.uuid == e.uuid then e ∷ es else x ∷ add_entity e es

-- `EntitySet.discard`
abbrev pub discard_entity : ValueEntity → List ValueEntity → List ValueEntity
discard_entity e es = select_if (λ (x : ValueEntity). not (x.uuid == e.uuid)) es

-- `IncrementalSetDiffEntry`
pub record SetChange (T : Type 0) : Type 0 where
  pub action : EventAction
  pub entity : T

abbrev pub changed : {T : Type 0} → EventAction → T → SetChange T
changed action entity = record { action = action; entity = entity }

-- `new - old`, for sets of value objects and for entity sets.
abbrev pub minus : List ℕ → List ℕ → List ℕ
minus new old = select_if (λ x. not (contains x old)) new

abbrev pub minus_entities : List ValueEntity → List ValueEntity → List ValueEntity
minus_entities new old = select_if (λ (e : ValueEntity). not (has_entity e.uuid old)) new

-- `value == old.get(value.uuid)`, for a value that is in `old`.
abbrev pub is_same : ValueEntity → Option ValueEntity → Bool
is_same e none = false
is_same e (some o) = e.uuid == o.uuid && e.content == o.content

-- The values of `old & new` that are not the same: `&` takes them from `new`.
abbrev pub modified : List ValueEntity → List ValueEntity → List ValueEntity
modified new old =
    select_if
      (λ (e : ValueEntity). has_entity e.uuid old && not (is_same e (find_entity e.uuid old))) new

-- `IncrementalSetDiff._diff` with no `get_fn`.
unfoldable pub value_diff : List ℕ → List ℕ → List (SetChange ℕ)
value_diff new old = map (changed create) (minus new old) ++ map (changed delete) (minus old new)

-- `IncrementalSetDiff._diff` with a `get_fn`.
unfoldable pub entity_diff : List ValueEntity → List ValueEntity → List (SetChange ValueEntity)
entity_diff new old =
    map (changed create) (minus_entities new old)
    ++ (map (changed delete) (minus_entities old new) ++ map (changed update) (modified new old))

-- How `RootEntity.apply_diff` changes a container.
abbrev pub apply_change :
    {T : Type 0} → (T → List T → List T) → (T → List T → List T) → SetChange T → List T → List T
apply_change add discard c l = elim c.action [
  | create ↦ add c.entity l
  | update ↦ add c.entity l
  | delete ↦ discard c.entity l
]

abbrev pub apply_changes :
    {T : Type 0}
    → (T → List T → List T)
    → (T → List T → List T)
    → List (SetChange T)
    → List T
    → List T
apply_changes add discard [] l = l
apply_changes add discard (c ∷ cs) l = apply_changes add discard cs (apply_change add discard c l)

unfoldable pub apply_value_diff : List (SetChange ℕ) → List ℕ → List ℕ
apply_value_diff = apply_changes add_value discard_value

unfoldable pub apply_entity_diff :
    List (SetChange ValueEntity) → List ValueEntity → List ValueEntity
apply_entity_diff = apply_changes add_entity discard_entity
