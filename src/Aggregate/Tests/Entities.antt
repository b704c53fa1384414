-- ===== src/Aggregate/Tests/Entities.antt =====
-- Instances of the theorems about entities, their events, queries and nested transactions.
use minos_python.Base.{
  ℕ, ◌+◌, Bool, ◌≡◌, ◌≢◌, refl, true, false, none, some, List, [], ◌∷◌, arith, contains, return,
}
use minos_python.Aggregate.Store.{
  Uuid, create, update, pending, StoredEvent, TransactionEntry, Store, Environment,
}
use minos_python.Aggregate.Entities.Sets.{
  ValueEntity, find_entity, entity_diff, apply_entity_diff, changed,
}
use minos_python.Aggregate.Entities.Sets.Diffs.{apply_entity_diff-entity_diff}
use minos_python.Aggregate.Entities.Events.{
  scalar, value_set, entity_set, RootEntity, plain, of_value, of_entity, Event, find_field, latest,
  decompose,
}
use minos_python.Aggregate.Entities.Root.{diff, apply_diff, apply_events}
use minos_python.Aggregate.Entities.Root.Differences.{Becomes, apply_diff-diff}
use minos_python.Aggregate.Entities.Root.Decomposing.{outcome, apply_events-decompose}
use minos_python.Aggregate.Queries.{Conditions, compares, lower, equal, no_parts, part}
use minos_python.Aggregate.Queries.Laws.{Connectives, evaluate-Connectives}
use minos_python.Aggregate.Events.Repository as Events
use minos_python.Aggregate.Snapshots.{
  arrange, insert_entry, sort_entries, selected, get_event_entries, get_transaction_uuids,
}
use minos_python.Aggregate.Snapshots.Entries.{Classes, SnapshotEntry}
use minos_python.Aggregate.Snapshots.Reading.{Query, find_entries, named_uuids, sort_keyed}
use minos_python.Aggregate.Snapshots.Reading.Found.{Found, find_entries-Found}
use minos_python.Aggregate.Snapshots.Reading.Invisible.{find_entries-invisible}
use minos_python.Aggregate.Transactions.Repository.{get_transaction}
use minos_python.Aggregate.Transactions.Nesting.{uuids}
use minos_python.Aggregate.Transactions.Nesting.Ending.{uuids_total}
use minos_python.Aggregate.Persistence.{Session, save_entity}
use minos_python.Aggregate.Persistence.Saving.{Created, save_entity-Created}

abbrev entity : ℕ → ℕ → ValueEntity
entity uuid content = record { uuid = uuid; content = content }

abbrev new_cars : List ValueEntity
new_cars = entity 1 10 ∷ entity 2 21 ∷ []

abbrev old_cars : List ValueEntity
old_cars = entity 2 20 ∷ entity 3 30 ∷ []

apply_entity_diff-entity_diff_example :
    find_entity 2 (apply_entity_diff (entity_diff new_cars old_cars) old_cars)
    ≡ find_entity 2 new_cars
apply_entity_diff-entity_diff_example =
    apply_entity_diff-entity_diff new_cars old_cars 2 (refl, (refl, tt)) (refl, (refl, tt))

-- An entity with a number, a set of value objects and a set of entities.
abbrev old_owner : RootEntity
old_owner = record {
  uuid = 7;
  name = 1;
  version = 1;
  created_at = 50;
  updated_at = 50;
  fields =
      (5, scalar 3) ∷ (6, value_set (6 ∷ 7 ∷ [])) ∷ (8, entity_set old_cars) ∷ (9, scalar 4) ∷ [];
}

abbrev new_owner : RootEntity
new_owner = record old_owner {
  version = 2;
  updated_at = 60;
  fields =
      (5, scalar 4) ∷ (6, value_set (5 ∷ 6 ∷ [])) ∷ (8, entity_set new_cars) ∷ (9, scalar 4) ∷ [];
}

apply_diff-diff_example :
    (e : Event) × (s : RootEntity) × (diff new_owner old_owner ≡ return e)
    × (apply_diff e old_owner ≡ (return tt, s))
    × ((n : ℕ)
        → Becomes
            (find_field n new_owner.fields)
            (find_field n old_owner.fields)
            (find_field n s.fields))
    × (s.version ≡ (latest new_owner old_owner).version)
    × (s.updated_at ≡ (latest new_owner old_owner).updated_at)
apply_diff-diff_example =
    apply_diff-diff new_owner old_owner refl
      (tt, refl, (tt, refl, (((refl, (refl, tt)), (refl, (refl, tt))), refl, (tt, refl, tt))))

abbrev owner_event : Event
owner_event = record {
  uuid = 7;
  name = 1;
  version = 2;
  action = update;
  created_at = 60;
  fields_diff =
      of_value 6 (changed create 5)
      ∷ plain 5 (scalar 4)
      ∷ of_entity 8 (changed create (entity 1 10))
      ∷ [];
}

apply_events-decompose_example :
    outcome (apply_events (decompose owner_event) old_owner)
    ≡ outcome (apply_diff owner_event old_owner)
apply_events-decompose_example = apply_events-decompose owner_event old_owner refl

abbrev parts : Conditions
parts = part (compares lower 5 4) (part (compares equal 6 2) no_parts)

abbrev like : ℕ → ℕ → Bool
like p v = false

evaluate-Connectives_example : Connectives like (λ n. find_field n old_owner.fields) parts
evaluate-Connectives_example = evaluate-Connectives like (λ n. find_field n old_owner.fields) parts

abbrev classes : Classes
classes = record {
  encode = λ ds. 9;
  null_datetime = 999;
  decode = λ n. plain 5 (scalar n) ∷ [];
  construct = λ name groups. return ((5, scalar 2) ∷ []);
  like = like;
}

abbrev env : Environment
env = record { current_datetime = λ n. 100 + n; uuid4 = λ n. 1000 + n; decompose = λ e. [] }

abbrev creation : Uuid → ℕ → Uuid → StoredEvent
creation uuid id transaction = record {
  uuid = uuid;
  name = 1;
  version = 1;
  payload = 5;
  id = id;
  action = create;
  created_at = 50;
  transaction_uuid = transaction;
}

abbrev store : List StoredEvent → Store
store events = record {
  events = events;
  generated = 2;
  next_versions = λ n u t. 0;
  transactions = [];
  context = none;
  published = [];
  ticks = 0;
}

-- The entities 7 and 8, in the order of their scalar field, up to one of them.
abbrev cheapest : Query
cheapest = record {
  name = 1;
  condition = compares lower 5 4;
  ordering = some (record { by = 0; reverse = true });
  limit = some 1;
  exclude_deleted = true;
}

abbrev found_entry : SnapshotEntry
found_entry = record {
  uuid = 8;
  name = 1;
  version = 1;
  content = some ((5, scalar 2) ∷ []);
  created_at = 50;
  updated_at = 50;
  transaction_uuid = 0;
}

abbrev two_created : Store
two_created = store (creation 7 1 0 ∷ creation 8 2 0 ∷ [])

cheapest-result : find_entries classes cheapest none two_created ≡ return (found_entry ∷ [])
unfolding find_entries Events.select Events.fn_filter get_transaction_uuids get_event_entries
    arrange sort_entries selected insert_entry sort_keyed
cheapest-result = refl

find_entries-Found_example : Found classes cheapest none two_created (found_entry ∷ [])
find_entries-Found_example =
    find_entries-Found classes cheapest none two_created (found_entry ∷ []) cheapest-result

-- The entity 8 has been created in a transaction only.
abbrev one_hidden : Store
one_hidden = store (creation 7 1 0 ∷ creation 8 2 2 ∷ [])

hidden-named : contains 8 (named_uuids 1 one_hidden) ≡ true
unfolding named_uuids Events.select Events.fn_filter
hidden-named = refl

hidden-empty : get_event_entries 1 8 (0 ∷ []) one_hidden ≡ []
unfolding get_event_entries arrange sort_entries selected Events.select Events.fn_filter
hidden-empty = refl

chain-none : (get_transaction_uuids none one_hidden).0 ≡ return (0 ∷ [])
unfolding get_transaction_uuids
chain-none = refl

find_entries-invisible_example :
    find_entries classes cheapest none one_hidden ≢ return (found_entry ∷ [])
find_entries-invisible_example =
    find_entries-invisible classes cheapest none one_hidden (0 ∷ []) 8 (found_entry ∷ []) chain-none
      hidden-named hidden-empty

-- The transaction 3 inside of the transaction 2.
abbrev nested : Uuid → Uuid → TransactionEntry
nested uuid destination = record {
  uuid = uuid;
  status = pending;
  event_offset = none;
  destination_uuid = destination;
  updated_at = none;
  autocommit = true;
}

abbrev nested_store : Store
nested_store = record (store []) { transactions = nested 2 0 ∷ nested 3 2 ∷ [] }

nested-uuids : uuids 4 none (nested 3 2) nested_store ≡ some (return (0 ∷ 2 ∷ 3 ∷ []))
unfolding uuids get_transaction
nested-uuids = refl

uuids_total_example : uuids 4 none (nested 3 2) nested_store ≢ none
uuids_total_example =
    uuids_total (λ u. u) nested_store none (nested 3 2)
      ((λ h. omega arith), ((λ h. omega arith), tt)) (λ h. omega arith) tt

abbrev unsaved : Session
unsaved = record {
  self = record {
    uuid = 0;
    name = 1;
    version = 0;
    created_at = 999;
    updated_at = 999;
    fields = (5, scalar 3) ∷ (6, value_set []) ∷ [];
  };
  store = store [];
}

save_entity-Created_example :
    Created classes env unsaved
      (save_entity classes env none unsaved).0
      (save_entity classes env none unsaved).1
save_entity-Created_example =
    save_entity-Created classes env none unsaved refl refl (refl, (refl, tt))
