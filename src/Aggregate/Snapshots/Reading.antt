-- ===== src/Aggregate/Snapshots/Reading.antt =====
-- Reading entities from the in-memory snapshot: `_get` and `_find_entries`
-- (snapshots/repositories/memory.py), `get_entry` and `get` (snapshots/repositories/abc.py).
--
-- The order in which a Python set is iterated over is that of the first events here. Queries order by
-- scalar fields.
pub mod Sorting
pub mod Meaning
pub mod Found
pub mod Invisible
use minos_python.Base.{
  ℕ, ◌-◌, zero, suc, Bool, true, false, not, ◌&&◌, ◌||◌, Option, none, some, List, [], ◌∷◌, map,
  ◌==◌, ltb, if◌then◌else◌, contains, Result, return, raise, Action, ◌>>=◌, ◌>>◌, pure, throw,
}
use minos_python.Aggregate.Store.{
  Uuid, null_uuid, EventAction, create, update, delete, StoredEvent, Store, Error,
}
use minos_python.Aggregate.Events.Repository as Events
use minos_python.Aggregate.Entities.Events.{
  FieldValue, scalar, value_set, entity_set, Fields, find_field, RootEntity, FieldDiff, Groups,
  Event, ModelError, type_error, attribute_error, build_mapper,
}
use minos_python.Aggregate.Entities.Root.{apply_events}
use minos_python.Aggregate.Queries.{
  Condition, compares, equal, always, Attributes, get_field, evaluate, OrderBy,
}
use minos_python.Aggregate.Snapshots.{get_event_entries, get_transaction_uuids}
use minos_python.Aggregate.Snapshots.Entries.{
  Classes, SnapshotEntry, ReadError, event_of_entry, constructed, construct_from, from_diff,
  from_event_entry, from_root_entity, last_of, is_delete, applied, built_on, build_instance,
  build_with, build, uuid_field, base_attributes, entity_attributes, entry_attributes, readable,
  attributes_of, lift_model, is_deleted, index_error, already_deleted, not_found, of_model,
  of_store,
}

-- The condition of the loop of `_find_entries`, whether the entry is built or already deleted.
unfoldable pub meets : Classes → Condition → Bool → SnapshotEntry → Result ReadError Bool
unfolding evaluate
meets c condition exclude_deleted e =
    if is_deleted e && exclude_deleted
    then return false
    else lift_model (evaluate c.like (attributes_of e) condition)

-- `{v.uuid async for v in self._event_repository.select(name=name)}`
abbrev pub add_uuid : List Uuid → List Uuid → List Uuid
add_uuid seen [] = []
add_uuid seen (u ∷ us) = if contains u seen then add_uuid seen us else u ∷ add_uuid (u ∷ seen) us

unfoldable pub named_uuids : ℕ → Store → List Uuid
named_uuids name s = add_uuid [] (
    map (λ (e : StoredEvent). e.uuid)
      (Events.select (record Events.no_event_filter { name = some name }) s))

-- `_get`, once the chain of transactions is known.
unfoldable pub get_visible : Classes → ℕ → List Uuid → Store → Uuid → Result ReadError SnapshotEntry
unfolding build_instance
get_visible c name us s uuid = build_instance c (get_event_entries name uuid us s)

abbrev pub with_chain :
    {A : Type 0} → Result Error (List Uuid) → (List Uuid → Result ReadError A) → Result ReadError A
with_chain (raise x) f = raise (of_store x)
with_chain (return us) f = f us

-- `_get`: `chain` is `transaction.uuids`.
unfoldable pub get_snapshot :
    Classes → ℕ → Option (List Uuid) → Store → Uuid → Result ReadError SnapshotEntry
unfolding get_visible
get_snapshot c name chain s uuid =
    with_chain (get_transaction_uuids chain s).0 (λ us. get_visible c name us s uuid)

abbrev pub keep_entry :
    SnapshotEntry
    → Result ReadError Bool
    → Result ReadError (List SnapshotEntry)
    → Result ReadError (List SnapshotEntry)
keep_entry e (raise x) rest = raise x
keep_entry e (return b) (raise x) = raise x
keep_entry e (return b) (return l) = return (if b then e ∷ l else l)

abbrev pub collect_entry :
    Classes
    → Condition
    → Bool
    → Result ReadError SnapshotEntry
    → Result ReadError (List SnapshotEntry)
    → Result ReadError (List SnapshotEntry)
collect_entry c condition exclude_deleted (raise x) rest = raise x
collect_entry c condition exclude_deleted (return e) rest =
    keep_entry e (meets c condition exclude_deleted e) rest

-- The loop of `_find_entries`.
abbrev pub collect_entries :
    Classes
    → Condition
    → Bool
    → (Uuid → Result ReadError SnapshotEntry)
    → List Uuid
    → Result ReadError (List SnapshotEntry)
collect_entries c condition exclude_deleted get [] = return []
collect_entries c condition exclude_deleted get (u ∷ us) =
    collect_entry c condition exclude_deleted (get u)
      (collect_entries c condition exclude_deleted get us)

-- The key by which `_cmp` compares an entry.
abbrev pub scalar_key : Result ModelError FieldValue → Result ReadError ℕ
scalar_key (raise x) = raise (of_model x)
scalar_key (return (scalar n)) = return n
scalar_key (return _) = raise (of_model type_error)

abbrev pub key_of : ℕ → SnapshotEntry → Result ReadError ℕ
key_of by e = scalar_key (get_field by (attributes_of e))

abbrev pub Keyed : Type 0
Keyed = ℕ × SnapshotEntry

abbrev pub pair_key :
    SnapshotEntry
    → Result ReadError ℕ
    → Result ReadError (List Keyed)
    → Result ReadError (List Keyed)
pair_key e (raise x) rest = raise x
pair_key e (return k) (raise x) = raise x
pair_key e (return k) (return l) = return ((k, e) ∷ l)

abbrev pub with_keys : ℕ → List SnapshotEntry → Result ReadError (List Keyed)
with_keys by [] = return []
with_keys by (e ∷ l) = pair_key e (key_of by e) (with_keys by l)

-- `a` may stand before `b`.
abbrev pub in_order : Bool → ℕ → ℕ → Bool
in_order reverse a b = if reverse then not (ltb a b) else not (ltb b a)

abbrev pub insert_keyed : Bool → Keyed → List Keyed → List Keyed
insert_keyed reverse x [] = x ∷ []
insert_keyed reverse x (y ∷ l) =
    if in_order reverse x.0 y.0 then x ∷ y ∷ l else y ∷ insert_keyed reverse x l

-- `entries.sort(key=cmp_to_key(_cmp), reverse=…)`: Python's sort is not under the repository, so any
-- stable sort serves.
unfoldable pub sort_keyed : Bool → List Keyed → List Keyed
sort_keyed reverse [] = []
sort_keyed reverse (x ∷ l) = insert_keyed reverse x (sort_keyed reverse l)

abbrev pub sort_by : OrderBy → Result ReadError (List Keyed) → Result ReadError (List SnapshotEntry)
sort_by o (raise x) = raise x
sort_by o (return l) = return (map (λ (k : Keyed). k.1) (sort_keyed o.reverse l))

-- No key is computed where there is nothing to compare.
abbrev pub order_entries :
    Option OrderBy → List SnapshotEntry → Result ReadError (List SnapshotEntry)
order_entries none l = return l
order_entries (some o) [] = return []
order_entries (some o) (e ∷ []) = return (e ∷ [])
order_entries (some o) (e ∷ f ∷ l) = sort_by o (with_keys o.by (e ∷ f ∷ l))

-- `entries[:limit]`
abbrev pub take_some : ℕ → List SnapshotEntry → List SnapshotEntry
take_some zero l = []
take_some (suc n) [] = []
take_some (suc n) (e ∷ l) = e ∷ take_some n l

abbrev pub limited : Option ℕ → List SnapshotEntry → List SnapshotEntry
limited none l = l
limited (some n) l = take_some n l

-- The arguments of `find_entries`.
pub record Query : Type 0 where
  pub name : ℕ
  pub condition : Condition
  pub ordering : Option OrderBy
  pub limit : Option ℕ
  pub exclude_deleted : Bool

abbrev pub cut_all :
    Query → Result ReadError (List SnapshotEntry) → Result ReadError (List SnapshotEntry)
cut_all q (raise x) = raise x
cut_all q (return l) = return (limited q.limit l)

abbrev pub finish :
    Query → Result ReadError (List SnapshotEntry) → Result ReadError (List SnapshotEntry)
finish q (raise x) = raise x
finish q (return l) = cut_all q (order_entries q.ordering l)

-- `find_entries`: `_synchronize` does nothing in memory.
unfoldable pub find_entries :
    Classes → Query → Option (List Uuid) → Store → Result ReadError (List SnapshotEntry)
unfolding get_snapshot named_uuids meets
find_entries c q chain s = finish q (
    collect_entries c q.condition q.exclude_deleted (get_snapshot c q.name chain s)
      (named_uuids q.name s))

abbrev pub first_entry : Result ReadError (List SnapshotEntry) → Result ReadError SnapshotEntry
first_entry (raise x) = raise x
first_entry (return []) = raise not_found
first_entry (return (e ∷ l)) = return e

-- `get_entry`
unfoldable pub get_entry :
    Classes → ℕ → Uuid → Option (List Uuid) → Store → Result ReadError SnapshotEntry
unfolding find_entries
get_entry c name uuid chain s = first_entry (
    find_entries c
      (record {
        name = name;
        condition = compares equal uuid_field uuid;
        ordering = none;
        limit = none;
        exclude_deleted = false;
      })
      chain s)

abbrev pub build_result : Result ReadError SnapshotEntry → Result ReadError RootEntity
build_result (raise x) = raise x
build_result (return e) = build e

-- `get`
unfoldable pub get_entity :
    Classes → ℕ → Uuid → Option (List Uuid) → Store → Result ReadError RootEntity
unfolding get_entry
get_entity c name uuid chain s = build_result (get_entry c name uuid chain s)
