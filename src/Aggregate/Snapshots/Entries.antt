-- ===== src/Aggregate/Snapshots/Entries.antt =====
-- `SnapshotEntry` (snapshots/entries.py), `RootEntity.from_diff` (entities/models.py) and
-- `_build_instance` (snapshots/repositories/memory.py).
--
-- A query names fields by numbers, the first ones those that every entity has. `content` stands for
-- the schema and the data of an entry, which the Avro codec makes of the fields.
use minos_python.Base.{
  ℕ, Bool, true, false, Option, none, some, List, [], ◌∷◌, map, ◌==◌, ◌||◌, if◌then◌else◌, Result,
  return, raise,
}
use minos_python.Aggregate.Store.{
  Uuid, null_uuid, EventAction, create, update, delete, StoredEvent, Error,
}
use minos_python.Aggregate.Entities.Events.{
  scalar, value_set, Fields, find_field, RootEntity, FieldDiff, Groups, Event, ModelError,
  build_mapper,
}
use minos_python.Aggregate.Entities.Root.{apply_events}
use minos_python.Aggregate.Queries.{Attributes}

-- The model classes: the Avro codec of the diffs, the constructor of an entity's class, which is given
-- the values of the diffs by name, `fullmatch` of the module `re`, and `NULL_DATETIME`.
pub record Classes : Type 0 where
  pub encode : List FieldDiff → ℕ
  pub null_datetime : ℕ
  pub decode : ℕ → List FieldDiff
  pub construct : ℕ → Groups → Result ModelError Fields
  pub like : ℕ → ℕ → Bool

-- `SnapshotEntry`
pub record SnapshotEntry : Type 0 where
  pub uuid : Uuid
  pub name : ℕ
  pub version : ℕ
  pub content : Option Fields
  pub created_at : ℕ
  pub updated_at : ℕ
  pub transaction_uuid : Uuid

pub data ReadError : Type 0 where
  index_error : ReadError
  already_deleted : ReadError
  not_found : ReadError
  of_model : ModelError → ReadError
  of_store : Error → ReadError

-- `EventEntry.event`
abbrev pub event_of_entry : Classes → StoredEvent → Event
event_of_entry c e = record {
  uuid = e.uuid;
  name = e.name;
  version = e.version;
  action = e.action;
  created_at = e.created_at;
  fields_diff = c.decode e.payload;
}

abbrev pub constructed : Event → Result ModelError Fields → Result ModelError RootEntity
constructed e (raise x) = raise x
constructed e (return fields) = return record {
  uuid = e.uuid;
  name = e.name;
  version = e.version;
  created_at = e.created_at;
  updated_at = e.created_at;
  fields = fields;
}

abbrev pub construct_from : Classes → ℕ → Result ModelError Groups → Result ModelError Fields
construct_from c name (raise x) = raise x
construct_from c name (return groups) = c.construct name groups

-- `RootEntity.from_diff`
unfoldable pub from_diff : Classes → Event → Result ModelError RootEntity
unfolding build_mapper
from_diff c e = constructed e (construct_from c e.name (build_mapper e.fields_diff))

-- `SnapshotEntry.from_event_entry`
abbrev pub from_event_entry : StoredEvent → SnapshotEntry
from_event_entry e = record {
  uuid = e.uuid;
  name = e.name;
  version = e.version;
  content = none;
  created_at = e.created_at;
  updated_at = e.created_at;
  transaction_uuid = e.transaction_uuid;
}

-- `SnapshotEntry.from_root_entity`
abbrev pub from_root_entity : RootEntity → SnapshotEntry
from_root_entity r = record {
  uuid = r.uuid;
  name = r.name;
  version = r.version;
  content = some r.fields;
  created_at = r.created_at;
  updated_at = r.updated_at;
  transaction_uuid = null_uuid;
}

abbrev pub last_of : StoredEvent → List StoredEvent → StoredEvent
last_of e [] = e
last_of e (x ∷ l) = last_of x l

abbrev pub is_delete : EventAction → Bool
is_delete create = false
is_delete update = false
is_delete delete = true

abbrev pub applied : Result ModelError Unit × RootEntity → Result ReadError SnapshotEntry
applied (return _, r) = return (from_root_entity r)
applied (raise x, r) = raise (of_model x)

abbrev pub built_on : List Event → Result ModelError RootEntity → Result ReadError SnapshotEntry
built_on es (raise x) = raise (of_model x)
built_on es (return r) = applied (apply_events es r)

-- `_build_instance`: `entries[-1]` of an empty list is an `IndexError`.
unfoldable pub build_instance : Classes → List StoredEvent → Result ReadError SnapshotEntry
unfolding from_diff
build_instance c [] = raise index_error
build_instance c (e ∷ l) =
    if is_delete (last_of e l).action
    then return (from_event_entry (last_of e l))
    else built_on (map (event_of_entry c) l) (from_diff c (event_of_entry c e))

-- `SnapshotEntry.build`
abbrev pub build_with : SnapshotEntry → Option Fields → Result ReadError RootEntity
build_with e none = raise already_deleted
build_with e (some fields) = return record {
  uuid = e.uuid;
  name = e.name;
  version = e.version;
  created_at = e.created_at;
  updated_at = e.updated_at;
  fields = fields;
}

abbrev pub build : SnapshotEntry → Result ReadError RootEntity
build e = build_with e e.content

-- The fields that every entity has, by number. A snapshot entry has four others: its transaction (4),
-- its name (5), and its schema (6) and data (7), which are `None` in a deleted entry. `None` is not
-- equal to a scalar and has no order with it, as a set, so the empty set stands for it.
abbrev pub uuid_field : ℕ
uuid_field = 0

abbrev pub base_attributes : Uuid → ℕ → ℕ → ℕ → Attributes → Attributes
base_attributes uuid version created_at updated_at others n =
    if n == uuid_field
    then some (scalar uuid)
    else if n == 1
    then some (scalar version)
    else if n == 2
    then some (scalar created_at)
    else if n == 3
    then some (scalar updated_at)
    else others n

abbrev pub entity_attributes : RootEntity → Attributes
entity_attributes r =
    base_attributes r.uuid r.version r.created_at r.updated_at (λ n. find_field n r.fields)

abbrev pub entry_attributes : SnapshotEntry → Attributes
entry_attributes e = base_attributes e.uuid e.version e.created_at e.updated_at (λ n.
    if n == 4
    then some (scalar e.transaction_uuid)
    else if n == 5
    then some (scalar e.name)
    else if n == 6 || n == 7
    then some (value_set [])
    else none)

-- The built instance, or the entry itself if it is deleted.
abbrev pub readable : SnapshotEntry → Result ReadError RootEntity → Attributes
readable e (return r) = entity_attributes r
readable e (raise x) = entry_attributes e

abbrev pub attributes_of : SnapshotEntry → Attributes
attributes_of e = readable e (build e)

abbrev pub lift_model : {A : Type 0} → Result ModelError A → Result ReadError A
lift_model (return a) = return a
lift_model (raise x) = raise (of_model x)

abbrev pub is_deleted : SnapshotEntry → Bool
is_deleted e = elim e.content [ none ↦ true | some _ ↦ false ]
