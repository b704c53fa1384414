-- ===== src/Aggregate/Entities/Events.antt =====
-- `FieldDiff` and `FieldDiffContainer` (events/fields.py) and `Event` (events/models.py).
--
-- A field holds a value of a type without operations (a number here), a set of value objects or a set
-- of entities. Two instances of one class hold values of one kind under one name. The four fields that
-- `Event` leaves out of a difference are fields of the record `RootEntity`, so `fields` are the others,
-- in the order of the class.
pub mod Grouping
use minos_python.Base.{
  ℕ, Bool, true, false, not, ◌&&◌, ◌||◌, Option, none, some, List, [], ◌∷◌, ◌++◌, map, ◌==◌, ltb,
  if◌then◌else◌, is_empty, any_of, Result, return, raise,
}
use minos_python.Aggregate.Store.{Uuid, EventAction, create, update, delete}
use minos_python.Aggregate.Entities.Sets.{
  ValueEntity, SetChange, minus, minus_entities, modified, value_diff, entity_diff,
}

pub data FieldValue : Type 0 where
  scalar : ℕ → FieldValue
  value_set : List ℕ → FieldValue
  entity_set : List ValueEntity → FieldValue

abbrev pub Fields : Type 0
Fields = List (ℕ × FieldValue)

pub record RootEntity : Type 0 where
  pub uuid : Uuid
  pub name : ℕ
  pub version : ℕ
  pub created_at : ℕ
  pub updated_at : ℕ
  pub fields : Fields

-- `FieldDiff`, and `IncrementalFieldDiff` with a value object or an entity.
pub data FieldDiff : Type 0 where
  plain : (name : ℕ) (value : FieldValue) → FieldDiff
  of_value : (name : ℕ) (change : SetChange ℕ) → FieldDiff
  of_entity : (name : ℕ) (change : SetChange ValueEntity) → FieldDiff

abbrev pub name_of : FieldDiff → ℕ
name_of (plain n v) = n
name_of (of_value n c) = n
name_of (of_entity n c) = n

abbrev pub is_incremental : FieldDiff → Bool
is_incremental (plain n v) = false
is_incremental (of_value n c) = true
is_incremental (of_entity n c) = true

pub record Event : Type 0 where
  pub uuid : Uuid
  pub name : ℕ
  pub version : ℕ
  pub action : EventAction
  pub created_at : ℕ
  pub fields_diff : List FieldDiff

-- The Python exceptions of this part.
pub data ModelError : Type 0 where
  value_error attribute_error key_error type_error : ModelError

abbrev pub Groups : Type 0
Groups = List (ℕ × List FieldDiff)

-- `mapper[field.value.name].append(name)`
abbrev pub append_to : FieldDiff → Groups → Groups
append_to d [] = (name_of d, d ∷ []) ∷ []
append_to d ((k, ds) ∷ gs) =
    if k == name_of d then (k, ds ++ (d ∷ [])) ∷ gs else (k, ds) ∷ append_to d gs

abbrev pub group_from : Groups → List FieldDiff → Groups
group_from gs [] = gs
group_from gs (d ∷ ds) = group_from (append_to d gs) ds

-- One name has diffs of one class.
abbrev pub mixes_types : List FieldDiff → Bool
mixes_types ds = any_of is_incremental ds && any_of (λ d. not (is_incremental d)) ds

abbrev pub is_many : List FieldDiff → Bool
is_many [] = false
is_many (d ∷ ds) = not (is_empty ds)

abbrev pub is_refused : List FieldDiff → Bool
is_refused ds = mixes_types ds || (is_many ds && any_of (λ d. not (is_incremental d)) ds)

-- `_build_mapper`: the checks in order over the names.
abbrev pub check_groups : Groups → Result ModelError Unit
check_groups [] = return tt
check_groups ((k, ds) ∷ gs) = if is_refused ds then raise value_error else check_groups gs

unfoldable pub build_mapper : List FieldDiff → Result ModelError Groups
build_mapper ds = elim (check_groups (group_from [] ds)) [
  | return _ ↦ return (group_from [] ds)
  | raise e ↦ raise e
]

-- `FieldDiffContainer(diffs)`
unfoldable pub new_container : List FieldDiff → Result ModelError (List FieldDiff)
unfolding build_mapper
new_container ds = elim (build_mapper ds) [ return _ ↦ return ds | raise e ↦ raise e ]

abbrev pub chain_groups : Groups → List FieldDiff
chain_groups [] = []
chain_groups ((k, ds) ∷ gs) = ds ++ chain_groups gs

-- `FieldDiffContainer.flatten_values`
abbrev pub flatten_values : List FieldDiff → List FieldDiff
flatten_values ds = chain_groups (group_from [] ds)

abbrev pub find_field : ℕ → Fields → Option FieldValue
find_field n [] = none
find_field n ((k, v) ∷ fs) = if k == n then some v else find_field n fs

-- `==` of the values of two fields: sets and dictionaries are compared by their members.
abbrev pub value_eq : FieldValue → FieldValue → Bool
value_eq (scalar a) (scalar b) = a == b
value_eq (value_set a) (value_set b) = is_empty (minus a b) && is_empty (minus b a)
value_eq (entity_set a) (entity_set b) =
    is_empty (minus_entities a b) && is_empty (minus_entities b a) && is_empty (modified a b)
value_eq _ _ = false

-- The body of the loop of `FieldDiffContainer._diff`, for a field that differs.
abbrev pub changes_of : ℕ → FieldValue → Option FieldValue → Result ModelError (List FieldDiff)
changes_of n (scalar a) old = return (plain n (scalar a) ∷ [])
changes_of n (value_set a) none = raise key_error
changes_of n (value_set a) (some (value_set b)) = return (map (of_value n) (value_diff a b))
changes_of n (value_set a) (some _) = raise type_error
changes_of n (entity_set a) none = raise key_error
changes_of n (entity_set a) (some (entity_set b)) = return (map (of_entity n) (entity_diff a b))
changes_of n (entity_set a) (some _) = raise type_error

abbrev pub is_unchanged : FieldValue → Option FieldValue → Bool
is_unchanged v none = false
is_unchanged v (some w) = value_eq v w

abbrev pub field_changes : ℕ → FieldValue → Option FieldValue → Result ModelError (List FieldDiff)
field_changes n v old = if is_unchanged v old then return [] else changes_of n v old

abbrev pub extend :
    List FieldDiff → Result ModelError (List FieldDiff) → Result ModelError (List FieldDiff)
extend ds (return es) = return (ds ++ es)
extend ds (raise e) = raise e

abbrev pub chain_changes :
    Result ModelError (List FieldDiff)
    → Result ModelError (List FieldDiff)
    → Result ModelError (List FieldDiff)
chain_changes (return ds) rest = extend ds rest
chain_changes (raise e) rest = raise e

-- `FieldDiffContainer._diff`
unfoldable pub diff_fields : Fields → Fields → Result ModelError (List FieldDiff)
diff_fields [] b = return []
diff_fields ((n, v) ∷ a) b = chain_changes (field_changes n v (find_field n b)) (diff_fields a b)

abbrev pub fill_container : Result ModelError (List FieldDiff) → Result ModelError (List FieldDiff)
fill_container (return ds) = new_container ds
fill_container (raise e) = raise e

-- `FieldDiffContainer.from_difference`
unfoldable pub container_from_difference : Fields → Fields → Result ModelError (List FieldDiff)
unfolding diff_fields new_container
container_from_difference a b = fill_container (diff_fields a b)

-- `FieldDiffContainer.from_model`
abbrev pub diffs_of_model : Fields → List FieldDiff
diffs_of_model [] = []
diffs_of_model ((n, v) ∷ fs) = plain n v ∷ diffs_of_model fs

unfoldable pub container_from_model : Fields → Result ModelError (List FieldDiff)
unfolding new_container
container_from_model fs = new_container (diffs_of_model fs)

-- An event with the metadata of an instance.
abbrev pub event_of : RootEntity → EventAction → List FieldDiff → Event
event_of r action ds = record {
  uuid = r.uuid;
  name = r.name;
  version = r.version;
  action = action;
  created_at = r.updated_at;
  fields_diff = ds;
}

abbrev pub with_diffs :
    RootEntity → EventAction → Result ModelError (List FieldDiff) → Result ModelError Event
with_diffs r action (return ds) = return (event_of r action ds)
with_diffs r action (raise e) = raise e

-- The last of `sorted([a, b], key=attrgetter("version"))`.
abbrev pub latest : RootEntity → RootEntity → RootEntity
latest a b = if ltb b.version a.version then a else b

-- `Event.from_difference`
unfoldable pub event_from_difference :
    RootEntity → RootEntity → EventAction → Result ModelError Event
unfolding container_from_difference
event_from_difference a b action =
    if not (a.uuid == b.uuid)
    then raise value_error
    else with_diffs (latest a b) action (container_from_difference a.fields b.fields)

-- `Event.from_root_entity`
unfoldable pub event_from_root_entity : RootEntity → EventAction → Result ModelError Event
unfolding container_from_model
event_from_root_entity r action = with_diffs r action (container_from_model r.fields)

-- `Event.from_deleted_root_entity`
unfoldable pub event_from_deleted : RootEntity → EventAction → Event
event_from_deleted r action = event_of r action []

-- `Event.decompose`: a container of one diff is never refused.
unfoldable pub decompose : Event → List Event
decompose e = map (λ d. record e { fields_diff = d ∷ [] }) (flatten_values e.fields_diff)
