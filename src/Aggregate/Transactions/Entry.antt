-- ===== src/Aggregate/Transactions/Entry.antt =====
-- The methods of `TransactionEntry` (transactions/entries.py): saving, reserving, committing and
-- rejecting one transaction, and its use as a context manager.
--
-- A method runs on the entry and the repositories, as one step. `reserve` holds the locks of both
-- repositories; `commit` and `reject` hold that of the transactions only, so what other callers submit
-- to the event repository between the copies of a commit is left out.
pub mod Saving
pub mod Closing
pub mod Copying
pub mod Committing
pub mod Versions
pub mod Validation
pub mod Context
use minos_python.Base.{
  ℕ, ◌+◌, Bool, true, false, not, ◌&&◌, Option, none, some, List, [], ◌∷◌, ◌++◌, map, ◌==◌, ltb,
  if◌then◌else◌, get_or, select_if, is_empty, contains, Action, ◌>>=◌, ◌>>◌, pure, throw, get,
  modify, raise_if, when,
}
use minos_python.Aggregate.Store.{
  Uuid, null_uuid, TransactionStatus, pending, reserving, reserved, committing, committed, rejected,
  is_status, status_in, EventEntry, StoredEvent, TransactionEntry, Store, Environment, Error,
  event_conflict, value_error, Scope, on_store,
}
use minos_python.Aggregate.Transactions.Repository.{no_filter}
use minos_python.Aggregate.Transactions.Repository
use minos_python.Aggregate.Events.Repository.{offset, no_event_filter}
use minos_python.Aggregate.Events.Repository as Events

-- `if event_offset is not None: …` and `if status is not None: …` of `save`.
abbrev pub assign : Option ℕ → Option TransactionStatus → Scope → Scope
assign event_offset status s = record s {
  self = record (s.self) {
    event_offset = elim event_offset [ none ↦ s.self.event_offset | some n ↦ some n ];
    status = get_or status s.self.status;
  };
}

unfoldable pub save : Environment → Option ℕ → Option TransactionStatus → Action Scope Error Unit
save env event_offset status = do modify (assign event_offset status); Repository.submit env

-- The statuses with which the transaction of the destination is closed for `validate`.
abbrev pub closed_statuses : List TransactionStatus
closed_statuses = reserving ∷ reserved ∷ committing ∷ committed ∷ rejected ∷ []

abbrev pub occupied_statuses : List TransactionStatus
occupied_statuses = reserving ∷ reserved ∷ committing ∷ committed ∷ []

-- `entries[uuid] = version`, unless a greater version is there.
abbrev pub record_version : List (Uuid × ℕ) → Uuid → ℕ → List (Uuid × ℕ)
record_version [] u v = (u, v) ∷ []
record_version ((u', w) ∷ d) u v =
    if u' == u
    then (if ltb v w then (u', w) ∷ d else (u', v) ∷ d)
    else (u', w) ∷ record_version d u v

-- The loop that fills `entries`.
abbrev pub latest_versions : List (Uuid × ℕ) → List StoredEvent → List (Uuid × ℕ)
latest_versions d [] = d
latest_versions d (e ∷ es) = latest_versions (record_version d e.uuid e.version) es

-- The inner loop over the entries of one version: `none` is `return False`, otherwise
-- `transaction_uuids` with the identifiers that were added.
abbrev pub collect : Uuid → Uuid → List Uuid → List StoredEvent → Option (List Uuid)
collect self destination acc [] = some acc
collect self destination acc (e ∷ es) =
    let rest =
      collect self destination
        (if e.transaction_uuid == self then acc else acc ++ (e.transaction_uuid ∷ [])) es in
    if e.transaction_uuid == destination then none else rest

-- The outer loop over `entries.items()`.
unfoldable pub collect_all : Store → Uuid → Uuid → List Uuid → List (Uuid × ℕ) → Option (List Uuid)
collect_all s self destination acc [] = some acc
collect_all s self destination acc ((u, v) ∷ d) =
    elim (collect self destination acc
      (Events.select (record no_event_filter { uuid = some u; version = some v }) s)) [
        | none ↦ none
        | some acc' ↦ collect_all s self destination acc' d
      ]

abbrev pub own_events : Uuid → Store → List StoredEvent
own_events u s = Events.select (record no_event_filter { transaction_uuid = some u }) s

-- The last test of `validate`: no other transaction that wrote one of the versions is about to
-- commit, or has committed, to the same destination.
unfoldable pub has_no_rival : Store → Uuid → Option (List Uuid) → Bool
has_no_rival s destination none = false
has_no_rival s destination (some []) = true
has_no_rival s destination (some (u ∷ us)) = is_empty (
    Repository.select
      (record no_filter {
        destination_uuid = some destination;
        uuid_in = some (u ∷ us);
        among = some occupied_statuses;
      })
      s)

-- `validate`
unfoldable pub validate : TransactionEntry → Store → Bool
validate t s =
    if is_empty (
      Repository.select
        (record no_filter { uuid = some t.destination_uuid; among = some closed_statuses }) s)
    then has_no_rival s t.destination_uuid
        (collect_all s t.uuid t.destination_uuid [] (latest_versions [] (own_events t.uuid s)))
    else false

-- `reserve`
unfoldable pub reserve : Environment → Action Scope Error Unit
reserve env = do
  s ← get
  raise_if (not (is_status s.self.status pending)) value_error
  save env none (some reserving)
  s' ← get
  let committable = validate s'.self s'.store
  let event_offset = 1 + offset s'.store
  save env (some event_offset) (some (if committable then reserved else rejected))
  raise_if (not committable) (event_conflict event_offset)

-- `EventEntry.from_another(entry, transaction_uuid=destination)`
abbrev pub from_another : StoredEvent → Uuid → EventEntry
from_another e destination = record {
  uuid = e.uuid;
  name = e.name;
  version = some e.version;
  payload = e.payload;
  id = none;
  action = some e.action;
  created_at = some e.created_at;
  transaction_uuid = destination;
}

-- The loop of `_commit` over the entries of the transaction.
unfoldable pub copy_entries : Environment → Uuid → Uuid → List StoredEvent → Action Store Error Unit
copy_entries env self destination [] = pure tt
copy_entries env self destination (e ∷ es) =
    Events.submit env (from_another e destination) (some self)
    >> copy_entries env self destination es

-- `_commit`
unfoldable pub commit_entries : Environment → Action Scope Error Unit
commit_entries env = do
  s ← get
  on_store (copy_entries env s.self.uuid s.self.destination_uuid (own_events s.self.uuid s.store))

-- `commit`
unfoldable pub commit : Environment → Action Scope Error Unit
commit env = do
  s ← get
  when (is_status s.self.status pending) (reserve env)
  s₁ ← get
  raise_if (not (is_status s₁.self.status reserved)) value_error
  save env none (some committing)
  commit_entries env
  s₂ ← get
  save env (some (1 + offset s₂.store)) (some committed)

-- `reject`
unfoldable pub reject : Environment → Action Scope Error Unit
reject env = do
  s ← get
  raise_if (not (status_in s.self.status (pending ∷ reserved ∷ []))) value_error
  save env (some (1 + offset s.store)) (some rejected)

-- `getattr(outer, "uuid", NULL_UUID)`
abbrev pub outer_uuid : Option TransactionEntry → Uuid
outer_uuid none = null_uuid
outer_uuid (some t) = t.uuid

abbrev set_context : Option TransactionEntry → Scope → Scope
set_context c s = record s { store = record (s.store) { context = c } }

-- `__aenter__`; the result is the token, which holds the value that the variable had.
unfoldable pub enter : Environment → Action Scope Error (Option TransactionEntry)
enter env = do
  s ← get
  raise_if (not (is_status s.self.status pending)) value_error
  raise_if (not (outer_uuid s.store.context == s.self.destination_uuid)) value_error
  modify (set_context (some s.self))
  save env none none
  pure s.store.context

-- `__aexit__`, which is given the token.
unfoldable pub exit : Environment → Option TransactionEntry → Action Scope Error Unit
exit env token = do
  modify (set_context token)
  s ← get
  when (s.self.autocommit && is_status s.self.status pending) (commit env)
