-- ===== src/Aggregate/Store.antt =====
-- The data of the aggregate package (actions.py, events/entries.py, transactions/entries.py and the
-- attributes of the two in-memory repositories).
--
-- A UUID is its 128-bit integer, so `NULL_UUID` is 0. Names of root entities and avro-encoded bytes
-- are only stored and compared, so they stand for themselves as numbers.
use minos_python.Base.{ℕ, Bool, true, false, Option, List, [], ◌∷◌, ◌==◌, if◌then◌else◌, Action}

abbrev pub Uuid : Type 0
Uuid = ℕ

abbrev pub null_uuid : Uuid
null_uuid = 0

-- `class Action(str, Enum)`
pub data EventAction : Type 0 where
  create update delete : EventAction

-- `class TransactionStatus(str, Enum)`
pub data TransactionStatus : Type 0 where
  pending reserving reserved committing committed rejected : TransactionStatus

abbrev pub rank : TransactionStatus → ℕ
rank pending = 0
rank reserving = 1
rank reserved = 2
rank committing = 3
rank committed = 4
rank rejected = 5

-- `status == other`
abbrev pub is_status : TransactionStatus → TransactionStatus → Bool
is_status a b = rank a == rank b

-- `status in statuses`
abbrev pub status_in : TransactionStatus → List TransactionStatus → Bool
status_in a [] = false
status_in a (b ∷ bs) = if is_status a b then true else status_in a bs

-- An entry as a caller builds it. `data` is a reserved word of the prover's language.
pub record EventEntry : Type 0 where
  pub uuid : Uuid
  pub name : ℕ
  pub version : Option ℕ
  pub payload : ℕ
  pub id : Option ℕ
  pub action : Option EventAction
  pub created_at : Option ℕ
  pub transaction_uuid : Uuid

-- An entry of the storage: `_submit` has filled what was `None`.
pub record StoredEvent : Type 0 where
  pub uuid : Uuid
  pub name : ℕ
  pub version : ℕ
  pub payload : ℕ
  pub id : ℕ
  pub action : EventAction
  pub created_at : ℕ
  pub transaction_uuid : Uuid

pub record TransactionEntry : Type 0 where
  pub uuid : Uuid
  pub status : TransactionStatus
  pub event_offset : Option ℕ
  pub destination_uuid : Uuid
  pub updated_at : Option ℕ
  pub autocommit : Bool

-- What `_send_events` publishes: the name of the entity, its action, and for the message about one
-- field its name with the action of an incremental diff.
pub record Notification : Type 0 where
  pub name : ℕ
  pub action : EventAction
  pub field : Option (ℕ × Option ℕ)
  pub event : StoredEvent

-- The attributes of `InMemoryEventRepository` (`_storage`, `_id_generator`, `_next_versions`) and of
-- `InMemoryTransactionRepository` (`_storage`), the context variable of the current transaction, the
-- messages handed to the broker publisher, and how often the environment was asked for a value.
pub record Store : Type 0 where
  pub events : List StoredEvent
  pub generated : ℕ
  pub next_versions : ℕ → Uuid → Uuid → ℕ
  pub transactions : List TransactionEntry
  pub context : Option TransactionEntry
  pub published : List Notification
  pub ticks : ℕ

-- What the code takes from outside, by the number of the question: `current_datetime()` and
-- `uuid4()`; and the field diffs of an event, by name and incremental action. Events are decoded and
-- decomposed in Entities/Events; here their payload is a number, so this is left to a parameter.
pub record Environment : Type 0 where
  pub current_datetime : ℕ → ℕ
  pub uuid4 : ℕ → Uuid
  pub decompose : StoredEvent → List (ℕ × Option ℕ)

-- The exceptions that the modelled code raises.
pub data Error : Type 0 where
  event_repository : Error
  event_conflict : (offset : ℕ) → Error
  transaction_conflict : Error
  transaction_not_found : Error
  value_error : Error

-- A method of a transaction entry changes the entry and the repositories.
pub record Scope : Type 0 where
  pub self : TransactionEntry
  pub store : Store

-- A call of a repository's method from a method of a transaction entry.
abbrev pub on_store : {A : Type 0} → Action Store Error A → Action Scope Error A
on_store m s = let (r, store) = m s.store in (r, record s { store = store })
