-- ===== src/Aggregate/Persistence.antt =====
-- The methods of `RootEntity` that write and read it (entities/models.py), over the event repository
-- and the snapshot, with `EventEntry.from_event` (events/entries.py).
--
-- `chain` is `uuids` of the transaction in use. The arguments of a call are the four fields that every
-- entity has, where they are given, and the others by name.
pub mod Saving
use minos_python.Base.{
  ℕ, Bool, true, false, not, ◌||◌, Option, none, some, List, [], ◌∷◌, ◌==◌, if◌then◌else◌, get_or,
  is_empty, Result, return, raise, Action, ◌>>=◌, ◌>>◌, pure, throw, get, modify, raise_if,
}
use minos_python.Aggregate.Store.{
  Uuid, null_uuid, EventAction, create, update, delete, EventEntry, StoredEvent, TransactionEntry,
  Store, Environment, Error, event_repository,
}
use minos_python.Aggregate.Events.Repository as Events
use minos_python.Aggregate.Entities.Events.{
  FieldValue, Fields, find_field, RootEntity, FieldDiff, Event, ModelError, attribute_error,
  event_from_root_entity, event_from_deleted,
}
use minos_python.Aggregate.Entities.Root.{set_field, diff, update_from_repository_entry}
use minos_python.Aggregate.Snapshots.Entries.{Classes, ReadError, of_model, of_store}
use minos_python.Aggregate.Snapshots.Reading.{get_entity}

-- `EventEntry.from_event`
abbrev pub transaction_of : Option TransactionEntry → Uuid
transaction_of none = null_uuid
transaction_of (some t) = t.uuid

unfoldable pub from_event : Classes → Event → Option TransactionEntry → EventEntry
from_event c e transaction = record {
  uuid = e.uuid;
  name = e.name;
  version = none;
  payload = c.encode e.fields_diff;
  id = none;
  action = some e.action;
  created_at = none;
  transaction_uuid = transaction_of transaction;
}

-- An entity with the repositories that its methods call.
pub record Session : Type 0 where
  pub self : RootEntity
  pub store : Store

-- The keyword arguments of `create` and `update`.
pub record Arguments : Type 0 where
  pub uuid : Option Uuid
  pub version : Option ℕ
  pub created_at : Option ℕ
  pub updated_at : Option ℕ
  pub fields : Fields

abbrev pub is_given : Option ℕ → Bool
is_given none = false
is_given (some n) = true

abbrev pub M : Type 0 → Type 0
M = Action Session ReadError

abbrev pub of_result : {A : Type 0} → Result ModelError A → M A
of_result (return a) = pure a
of_result (raise x) = throw (of_model x)

abbrev pub of_reading : {A : Type 0} → Result ReadError A → M A
of_reading (return a) = pure a
of_reading (raise x) = throw x

abbrev pub submitted :
    Result Error StoredEvent × Store → RootEntity → Result ReadError StoredEvent × Session
submitted (return e, store) self = (return e, record { self = self; store = store })
submitted (raise x, store) self = (raise (of_store x), record { self = self; store = store })

-- `self._event_repository.submit(event)`
unfoldable pub submit_event : Classes → Environment → Event → M StoredEvent
unfolding from_event
submit_event c env e s =
    submitted (Events.submit env (from_event c e s.store.context) none s.store) s.self

-- `instance._update_from_repository_entry(entry)`
abbrev pub follow : StoredEvent → M Unit
follow entry =
    modify (λ (s : Session). record s { self = update_from_repository_entry entry s.self })

-- The instance that `cls(*args, **kwargs)` builds, once the class has accepted the fields.
abbrev pub new_instance : Classes → ℕ → Fields → RootEntity
new_instance c name fields = record {
  uuid = null_uuid;
  name = name;
  version = 0;
  created_at = c.null_datetime;
  updated_at = c.null_datetime;
  fields = fields;
}

abbrev pub create_instance : Classes → Environment → RootEntity → M RootEntity
create_instance c env entity = do
  event ← of_result (event_from_root_entity entity create)
  entry ← submit_event c env event
  pure (update_from_repository_entry entry entity)

-- `create`
unfoldable pub create_entity : Classes → Environment → ℕ → Arguments → M RootEntity
unfolding submit_event event_from_root_entity update_from_repository_entry
create_entity c env name args = do
  raise_if (is_given args.uuid) (of_store event_repository)
  raise_if (is_given args.version) (of_store event_repository)
  raise_if (is_given args.created_at) (of_store event_repository)
  raise_if (is_given args.updated_at) (of_store event_repository)
  create_instance c env (new_instance c name args.fields)

-- `setattr(self, key, value)`
abbrev pub set_attribute : ℕ → FieldValue → Option FieldValue → M Unit
set_attribute n v none = throw (of_model attribute_error)
set_attribute n v (some old) =
    modify (λ (s : Session). record s {
      self = record (s.self) { fields = set_field n v s.self.fields };
    })

abbrev pub set_attributes : Fields → M Unit
set_attributes [] = pure tt
set_attributes ((n, v) ∷ fs) = do
  s ← get
  set_attribute n v (find_field n s.self.fields)
  set_attributes fs

abbrev pub submit_changes : Classes → Environment → Event → Bool → M Unit
submit_changes c env event true = pure tt
submit_changes c env event false = do entry ← submit_event c env event; follow entry

-- `update`: an identifier among the arguments is not refused.
unfoldable pub update_entity : Classes → Environment → Option (List Uuid) → Arguments → M Unit
unfolding submit_event get_entity diff
update_entity c env chain args = do
  raise_if (is_given args.version) (of_store event_repository)
  raise_if (is_given args.created_at) (of_store event_repository)
  raise_if (is_given args.updated_at) (of_store event_repository)
  modify
      (λ (s : Session). record s { self = record (s.self) { uuid = get_or args.uuid s.self.uuid } })
  set_attributes args.fields
  s ← get
  previous ← of_reading (get_entity c s.self.name s.self.uuid chain s.store)
  event ← of_result (diff s.self previous)
  submit_changes c env event (is_empty event.fields_diff)

abbrev pub only_fields : Fields → Arguments
only_fields fields = record {
  uuid = none;
  version = none;
  created_at = none;
  updated_at = none;
  fields = fields;
}

abbrev pub differs : Bool → Bool → Bool
differs true b = not b
differs false b = b

abbrev pub save_as : Classes → Environment → Option (List Uuid) → RootEntity → Bool → M Unit
save_as c env chain self true = do
  new ← create_entity c env self.name (only_fields self.fields)
  modify (λ (s : Session). record s { self = new })
save_as c env chain self false = update_entity c env chain (only_fields self.fields)

-- `save`
unfoldable pub save_entity : Classes → Environment → Option (List Uuid) → M Unit
unfolding create_entity update_entity
save_entity c env chain = do
  s ← get
  raise_if (differs (s.self.uuid == null_uuid) (s.self.version == 0)) (of_store event_repository)
  save_as c env chain s.self (s.self.uuid == null_uuid)

-- `refresh`
unfoldable pub refresh_entity : Classes → Option (List Uuid) → M Unit
unfolding get_entity
refresh_entity c chain = do
  s ← get
  new ← of_reading (get_entity c s.self.name s.self.uuid chain s.store)
  modify (λ (t : Session). record t { self = new })

-- `delete`
unfoldable pub delete_entity : Classes → Environment → M Unit
unfolding submit_event
delete_entity c env = do
  s ← get
  entry ← submit_event c env (event_from_deleted s.self delete)
  follow entry
