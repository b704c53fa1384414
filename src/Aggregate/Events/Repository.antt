-- ===== src/Aggregate/Events/Repository.antt =====
-- events/repositories/memory.py and the `submit` and `validate` of abc.py.
--
-- `write_lock` makes `validate` and `_submit` one step, so a call is a function of the store.
pub mod Blocking
pub mod Outcome
pub mod Numbering
use minos_python.Base.{
  ℕ, ◌+◌, Bool, true, not, ◌&&◌, Option, none, some, List, [], ◌∷◌, ◌++◌, map, ◌==◌, ltb, leb,
  if◌then◌else◌, unset_or, get_or, select_if, is_empty, contains, length, Result, return, raise,
  Action, ◌>>=◌, ◌>>◌, pure, throw, get, modify, raise_if, when,
}
use minos_python.Aggregate.Store.{
  Uuid, null_uuid, EventAction, create, update, delete, reserving, reserved, committing, EventEntry,
  StoredEvent, TransactionEntry, Notification, Store, Environment, Error, event_repository,
  event_conflict,
}
use minos_python.Aggregate.Transactions.Repository.{no_filter, select as select_transactions}

-- `_offset`
abbrev pub offset : Store → ℕ
offset s = length s.events

-- The arguments of `select`; `none` is `None`.
pub record EventFilter : Type 0 where
  pub uuid : Option Uuid
  pub name : Option ℕ
  pub version : Option ℕ
  pub version_lt : Option ℕ
  pub version_gt : Option ℕ
  pub version_le : Option ℕ
  pub version_ge : Option ℕ
  pub id : Option ℕ
  pub id_lt : Option ℕ
  pub id_gt : Option ℕ
  pub id_le : Option ℕ
  pub id_ge : Option ℕ
  pub transaction_uuid : Option Uuid
  pub transaction_uuid_ne : Option Uuid
  pub transaction_uuid_in : Option (List Uuid)

abbrev pub no_event_filter : EventFilter
no_event_filter = record {
  uuid = none;
  name = none;
  version = none;
  version_lt = none;
  version_gt = none;
  version_le = none;
  version_ge = none;
  id = none;
  id_lt = none;
  id_gt = none;
  id_le = none;
  id_ge = none;
  transaction_uuid = none;
  transaction_uuid_ne = none;
  transaction_uuid_in = none;
}

-- `_fn_filter`
unfoldable pub fn_filter : EventFilter → StoredEvent → Bool
fn_filter f e =
    unset_or f.uuid (λ u. u == e.uuid)
    && (unset_or f.name (λ n. n == e.name)
        && (unset_or f.version (λ v. v == e.version)
            && (unset_or f.version_lt (λ v. not (leb v e.version))
                && (unset_or f.version_gt (λ v. not (leb e.version v))
                    && (unset_or f.version_le (λ v. not (ltb v e.version))
                        && (unset_or f.version_ge (λ v. not (ltb e.version v))
                            && (unset_or f.id (λ i. i == e.id)
                                && (unset_or f.id_lt (λ i. not (leb i e.id))
                                    && (unset_or f.id_gt (λ i. not (leb e.id i))
                                        && (unset_or f.id_le (λ i. not (ltb i e.id))
                                            && (unset_or f.id_ge (λ i. not (ltb e.id i))
                                                && (unset_or f.transaction_uuid
                                                      (λ u. u == e.transaction_uuid)
                                                    && (unset_or f.transaction_uuid_ne
                                                          (λ u. not (u == e.transaction_uuid))
                                                        && unset_or f.transaction_uuid_in (
                                                            contains
                                                            e.transaction_uuid))))))))))))))

unfoldable pub select : EventFilter → Store → List StoredEvent
select f s = select_if (fn_filter f) s.events

-- `self._next_versions[key] += 1`
abbrev pub bump : (ℕ → Uuid → Uuid → ℕ) → ℕ → Uuid → Uuid → ℕ → Uuid → Uuid → ℕ
bump f n u t n' u' t' = if n == n' && (u == u' && t == t') then f n u t + 1 else f n' u' t'

-- The version that comes next for the entity of an entry, within the transaction of the entry.
abbrev pub next_version : EventEntry → Store → ℕ
next_version entry s = s.next_versions entry.name entry.uuid entry.transaction_uuid + 1

-- The counters after an attempt to store an entry, successful or not.
abbrev pub counted : EventEntry → Store → ℕ → Uuid → Uuid → ℕ
counted entry s = bump s.next_versions entry.name entry.uuid entry.transaction_uuid

-- What an entry becomes: `_submit` fills what is `None`.
abbrev pub as_stored : Environment → EventEntry → EventAction → Store → StoredEvent
as_stored env entry action s = record {
  uuid = entry.uuid;
  name = entry.name;
  version = get_or entry.version (next_version entry s);
  payload = entry.payload;
  id = s.generated + 1;
  action = action;
  created_at = get_or entry.created_at (env.current_datetime s.ticks);
  transaction_uuid = entry.transaction_uuid;
}

-- `_submit` once the entry has its identifier.
unfoldable pub store_entry : Environment → EventEntry → EventAction → Action Store Error StoredEvent
store_entry env entry action s =
    let tried : Store = record s { next_versions = counted entry s; ticks = s.ticks + 1 } in
    let stored : StoredEvent = as_stored env entry action s in
    if ltb stored.version (next_version entry s)
    then (raise (event_conflict (offset s)), tried)
    else (return stored, record tried { events = s.events ++ (stored ∷ []); generated = stored.id })

-- `if entry.uuid == NULL_UUID: entry.uuid = uuid4()`
abbrev pub with_uuid : Environment → EventEntry → Store → EventEntry
with_uuid env entry s = record entry {
  uuid = if entry.uuid == null_uuid then env.uuid4 s.ticks else entry.uuid;
}

unfoldable pub submit_entry :
    Environment → EventEntry → EventAction → Action Store Error StoredEvent
submit_entry env entry action s = store_entry env (with_uuid env entry s) action s

-- The identifiers of the transactions that are about to write to the destination of the entry.
unfoldable pub blocking_uuids : Uuid → Option Uuid → Store → List Uuid
unfolding select_transactions
blocking_uuids destination ne s =
    map (λ (t : TransactionEntry). t.uuid)
      (select_transactions
        (record no_filter {
          destination_uuid = some destination;
          uuid_ne = ne;
          among = some (reserving ∷ reserved ∷ committing ∷ []);
        })
        s)

-- `validate`
unfoldable pub validate : EventEntry → Option Uuid → Store → Bool
unfolding blocking_uuids select
validate entry ne s =
    let uuids = blocking_uuids entry.transaction_uuid ne s in
    if is_empty uuids
    then true
    else is_empty (
        select (record no_event_filter { uuid = some entry.uuid; transaction_uuid_in = some uuids })
          s)

-- `_send_events`: one message for the event, and one for each field that an update changed. The
-- publisher is taken to accept every message and the payload to decode; an exception of either would
-- be raised by `submit` after the event is stored.
abbrev pub notifications : Environment → StoredEvent → List Notification
notifications env e =
    record { name = e.name; action = e.action; field = none; event = e } ∷ elim e.action [
      | update ↦
          map
            (λ (d : ℕ × Option ℕ). record {
              name = e.name;
              action = update;
              field = some d;
              event = e;
            })
            (env.decompose e)
      | _ ↦ []
    ]

unfoldable pub send_events : Environment → StoredEvent → Action Store Error Unit
send_events env e = modify (λ s. record s { published = s.published ++ notifications env e })

-- `submit` of an entry whose action is known.
unfoldable pub submit_checked :
    Environment → EventEntry → EventAction → Option Uuid → Action Store Error StoredEvent
submit_checked env entry action ne = do
  s ← get
  raise_if (not (validate entry ne s)) (event_conflict (offset s))
  stored ← submit_entry env entry action
  when (stored.transaction_uuid == null_uuid) (send_events env stored)
  pure stored

-- `submit` by the action of the entry: `if not isinstance(entry.action, Action)`.
unfoldable pub submit_action :
    Environment → EventEntry → Option Uuid → Option EventAction → Action Store Error StoredEvent
submit_action env entry ne none = throw event_repository
submit_action env entry ne (some action) = submit_checked env entry action ne

-- `submit` of an entry; `ne` is the argument `transaction_uuid_ne`.
unfoldable pub submit : Environment → EventEntry → Option Uuid → Action Store Error StoredEvent
unfolding submit_action
submit env entry ne = submit_action env entry ne entry.action

-- `create`, `update` and `delete`
unfoldable pub submit_as : EventAction → Environment → EventEntry → Action Store Error StoredEvent
submit_as action env entry = submit env (record entry { action = some action }) none
