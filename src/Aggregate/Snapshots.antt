-- ===== src/Aggregate/Snapshots.antt =====
-- The in-memory snapshot (snapshots/repositories/memory.py): which events an entity is built from, as
-- it is seen inside a chain of transactions.
--
-- A chain of transactions is the tuple of their identifiers, from the outermost (`NULL_UUID`) to the
-- one in use. Snapshots/Entries builds an instance from these events.
pub mod Visible
pub mod Chain
pub mod Entries
pub mod Reading
use minos_python.Base.{
  ℕ, ◌+◌, Bool, true, false, not, ◌&&◌, ◌||◌, Option, none, some, List, [], ◌∷◌, ◌==◌, ltb,
  if◌then◌else◌, select_if, any_of, contains, ◌++◌, Result, return, raise, Action,
}
use minos_python.Aggregate.Store.{
  Uuid, null_uuid, rejected, is_status, StoredEvent, TransactionEntry, Store, Error,
}
use minos_python.Aggregate.Transactions.Repository.{get_transaction}
use minos_python.Aggregate.Events.Repository as Events

-- `transaction_uuids.index(u)`: of an identifier that is there, as it is in the code.
abbrev pub index_of : Uuid → List Uuid → ℕ
index_of u [] = 0
index_of u (v ∷ us) = if u == v then 0 else index_of u us + 1

-- `<` on the keys `(e.version, transaction_uuids.index(e.transaction_uuid))`.
abbrev pub is_before : List Uuid → StoredEvent → StoredEvent → Bool
is_before us a b =
    ltb a.version b.version
    || (a.version == b.version
        && ltb (index_of a.transaction_uuid us) (index_of b.transaction_uuid us))

-- `entries.sort(key=…)`: Python's sort is not under the repository, so any stable sort serves.
unfoldable pub insert_entry : List Uuid → StoredEvent → List StoredEvent → List StoredEvent
insert_entry us e [] = e ∷ []
insert_entry us e (x ∷ l) = if is_before us x e then x ∷ insert_entry us e l else e ∷ x ∷ l

unfoldable pub sort_entries : List Uuid → List StoredEvent → List StoredEvent
sort_entries us [] = []
sort_entries us (e ∷ l) = insert_entry us e (sort_entries us l)

-- `len({e.transaction_uuid for e in entries}) > 1`
abbrev pub several_transactions : List StoredEvent → Bool
several_transactions [] = false
several_transactions (e ∷ l) =
    any_of (λ (x : StoredEvent). not (x.transaction_uuid == e.transaction_uuid)) l

-- One step of the loop that goes through the entries from the last one: an entry is kept if its
-- version is less than that of the one kept before, which stands next to it in the end.
abbrev pub keep_before : StoredEvent → List StoredEvent → List StoredEvent
keep_before e [] = e ∷ []
keep_before e (x ∷ l) = if ltb e.version x.version then e ∷ x ∷ l else x ∷ l

unfoldable pub keep_last : List StoredEvent → List StoredEvent
keep_last [] = []
keep_last (e ∷ l) = keep_before e (keep_last l)

-- The events of an entity in the transactions of the chain, in the order of the storage.
unfoldable pub selected : ℕ → Uuid → List Uuid → Store → List StoredEvent
selected name uuid us s =
    select_if (λ (e : StoredEvent). contains e.transaction_uuid us)
      (Events.select (record Events.no_event_filter { name = some name; uuid = some uuid }) s)

-- `_get_event_entries`, on the selected events.
unfoldable pub arrange : List Uuid → List StoredEvent → List StoredEvent
arrange us l =
    let entries = sort_entries us l in
    if several_transactions entries then keep_last entries else entries

unfoldable pub get_event_entries : ℕ → Uuid → List Uuid → Store → List StoredEvent
get_event_entries name uuid us s = arrange us (selected name uuid us s)

-- The body of the loop, by what the repository has of the last transaction; `rest` is how the loop
-- goes on without it.
abbrev pub keep_live :
    Result Error TransactionEntry
    → Result Error (List Uuid) × Store
    → List Uuid
    → Action Store Error (List Uuid)
keep_live (raise x) rest us s = (raise x, s)
keep_live (return t) rest us s = if is_status t.status rejected then rest else (return us, s)

-- The loop of `_get_transaction_uuids`, on a chain that begins with the transaction in use: rejected
-- transactions are left out up to the first one that is not.
unfoldable pub live_uuids : List Uuid → Action Store Error (List Uuid)
live_uuids [] s = (return [], s)
live_uuids (u ∷ []) s = (return (u ∷ []), s)
live_uuids (u ∷ v ∷ us) s = keep_live (get_transaction u s).0 (live_uuids (v ∷ us) s) (u ∷ v ∷ us) s

-- `us[::-1]`
abbrev pub reversed : List Uuid → List Uuid
reversed [] = []
reversed (u ∷ us) = reversed us ++ (u ∷ [])

abbrev pub reversed_result : Result Error (List Uuid) → Result Error (List Uuid)
reversed_result (return us) = return (reversed us)
reversed_result (raise x) = raise x

-- `_get_transaction_uuids`, from the tuple `transaction.uuids` if there is a transaction.
unfoldable pub get_transaction_uuids : Option (List Uuid) → Action Store Error (List Uuid)
get_transaction_uuids none s = (return (null_uuid ∷ []), s)
get_transaction_uuids (some chain) s =
    let (r, s') = live_uuids (reversed chain) s in (reversed_result r, s')
