-- ===== src/Aggregate/Entities/Root.antt =====
-- `RootEntity.diff`, `apply_diff` and `_update_from_repository_entry` (entities/models.py).
mod Values
mod Blocks
pub mod Differences
pub mod Decomposing
use minos_python.Base.{
  ℕ, Bool, true, false, not, Option, none, some, List, [], ◌∷◌, ◌==◌, if◌then◌else◌, Result, return,
  raise, Action, pure, throw, get, modify, raise_if, ◌>>=◌, ◌>>◌,
}
use minos_python.Aggregate.Store.{EventAction, create, update, delete, StoredEvent}
use minos_python.Aggregate.Entities.Sets.{
  SetChange, apply_change, add_value, discard_value, add_entity, discard_entity,
}
use minos_python.Aggregate.Entities.Events.{
  FieldValue, scalar, value_set, entity_set, Fields, RootEntity, FieldDiff, plain, of_value,
  of_entity, name_of, Event, ModelError, value_error, attribute_error, find_field, flatten_values,
  event_from_difference,
}

abbrev pub set_field : ℕ → FieldValue → Fields → Fields
set_field n v [] = []
set_field n v ((k, w) ∷ fs) = if k == n then (k, v) ∷ fs else (k, w) ∷ set_field n v fs

-- What one diff makes of the value of its field. A method that the value lacks is an
-- `AttributeError`.
abbrev pub change_value : FieldDiff → FieldValue → Option FieldValue
change_value (plain n v) w = some v
change_value (of_value n c) (value_set xs) =
    some (value_set (apply_change add_value discard_value c xs))
change_value (of_value n c) _ = none
change_value (of_entity n c) (entity_set es) =
    some (entity_set (apply_change add_entity discard_entity c es))
change_value (of_entity n c) _ = none

abbrev pub changed_value : FieldDiff → Option FieldValue → Option FieldValue
changed_value d none = none
changed_value d (some w) = change_value d w

abbrev pub assign : ℕ → Option FieldValue → Action RootEntity ModelError Unit
assign n none = throw attribute_error
assign n (some v) = modify (λ (r : RootEntity). record r { fields = set_field n v r.fields })

-- The body of the loop of `RootEntity.apply_diff`.
abbrev pub apply_field : FieldDiff → Action RootEntity ModelError Unit
apply_field d = do r ← get; assign (name_of d) (changed_value d (find_field (name_of d) r.fields))

abbrev pub apply_fields : List FieldDiff → Action RootEntity ModelError Unit
apply_fields [] = pure tt
apply_fields (d ∷ ds) = do apply_field d; apply_fields ds

-- `RootEntity.apply_diff`
unfoldable pub apply_diff : Event → Action RootEntity ModelError Unit
apply_diff e = do
  r ← get
  raise_if (not (r.uuid == e.uuid)) value_error
  apply_fields (flatten_values e.fields_diff)
  modify (λ (s : RootEntity). record s { version = e.version; updated_at = e.created_at })

-- `for entry in entries: instance.apply_diff(entry.event)`
abbrev pub apply_events : List Event → Action RootEntity ModelError Unit
apply_events [] = pure tt
apply_events (e ∷ es) = do apply_diff e; apply_events es

-- `RootEntity.diff`
unfoldable pub diff : RootEntity → RootEntity → Result ModelError Event
unfolding event_from_difference
diff a b = event_from_difference a b update

abbrev pub is_create : EventAction → Bool
is_create create = true
is_create update = false
is_create delete = false

-- `RootEntity._update_from_repository_entry`
unfoldable pub update_from_repository_entry : StoredEvent → RootEntity → RootEntity
update_from_repository_entry entry r = record r {
  uuid = entry.uuid;
  version = entry.version;
  created_at = if is_create entry.action then entry.created_at else r.created_at;
  updated_at = entry.created_at;
}
