-- ===== src/Aggregate/Transactions/Repository.antt =====
-- transactions/repositories/memory.py and the `select` and `get` of abc.py.
--
-- The filters on ranges of `event_offset` and on `updated_at` are not modelled: no caller in the
-- package passes them.
pub mod Table
pub mod Lifecycle
use minos_python.Base.{
  ℕ, ◌+◌, Bool, true, false, not, ◌&&◌, Option, none, some, List, [], ◌∷◌, ◌==◌, if◌then◌else◌,
  unset_or, select_if, contains, Result, return, raise, Action,
}
use minos_python.Aggregate.Store.{
  Uuid, TransactionStatus, pending, reserving, reserved, committing, committed, rejected, is_status,
  status_in, TransactionEntry, Store, Environment, Error, transaction_conflict,
  transaction_not_found, Scope,
}

-- `self._storage.get(uuid)`
abbrev pub find_transaction : Uuid → List TransactionEntry → Option TransactionEntry
find_transaction u [] = none
find_transaction u (t ∷ ts) = if t.uuid == u then some t else find_transaction u ts

-- `self._storage[t.uuid] = t`: a `dict` keeps the place of a key that it has.
abbrev pub put_transaction : TransactionEntry → List TransactionEntry → List TransactionEntry
put_transaction t [] = t ∷ []
put_transaction t (x ∷ ts) = if x.uuid == t.uuid then t ∷ ts else x ∷ put_transaction t ts

-- The condition under which `_submit` raises, by the status stored before and the new one.
unfoldable pub is_invalid : TransactionStatus → TransactionStatus → Bool
is_invalid pending new = not (status_in new (pending ∷ reserving ∷ rejected ∷ []))
is_invalid reserving new = not (status_in new (reserved ∷ rejected ∷ []))
is_invalid reserved new = not (status_in new (committing ∷ rejected ∷ []))
is_invalid committing new = not (status_in new (committed ∷ []))
is_invalid committed new = true
is_invalid rejected new = true

-- `uuid in self._storage` and the status is invalid with respect to the stored one.
abbrev pub is_refused : Option TransactionEntry → TransactionStatus → Bool
is_refused none new = false
is_refused (some old) new = is_invalid old.status new

-- The copy that the storage keeps is built without `autocommit`, which is `True` by default.
abbrev pub stored_copy : TransactionEntry → TransactionEntry
stored_copy t = record t { autocommit = true }

-- `_submit`: the object itself gets the time also when the status is refused.
unfoldable pub submit : Environment → Action Scope Error Unit
submit env s =
    let now = env.current_datetime s.store.ticks in
    let t : TransactionEntry = record (s.self) { updated_at = some now } in
    let store : Store = record (s.store) { ticks = s.store.ticks + 1 } in
    if is_refused (find_transaction t.uuid store.transactions) t.status
    then (raise transaction_conflict, record { self = t; store = store })
    else (
      return tt,
      record {
        self = t;
        store = record store { transactions = put_transaction (stored_copy t) store.transactions };
      },
    )

-- The arguments of `select`; `none` is `None`.
pub record TransactionFilter : Type 0 where
  pub uuid : Option Uuid
  pub uuid_ne : Option Uuid
  pub uuid_in : Option (List Uuid)
  pub destination_uuid : Option Uuid
  pub status : Option TransactionStatus
  pub among : Option (List TransactionStatus)
  pub event_offset : Option ℕ

abbrev pub no_filter : TransactionFilter
no_filter = record {
  uuid = none;
  uuid_ne = none;
  uuid_in = none;
  destination_uuid = none;
  status = none;
  among = none;
  event_offset = none;
}

abbrev pub has_offset : Option ℕ → ℕ → Bool
has_offset none n = false
has_offset (some m) n = n == m

-- `_fn_filter`
unfoldable pub fn_filter : TransactionFilter → TransactionEntry → Bool
fn_filter f t =
    unset_or f.uuid (λ u. u == t.uuid)
    && (unset_or f.uuid_ne (λ u. not (u == t.uuid))
        && (unset_or f.uuid_in (contains t.uuid)
            && (unset_or f.destination_uuid (λ u. u == t.destination_uuid)
                && (unset_or f.status (λ st. is_status st t.status)
                    && (unset_or f.among (status_in t.status)
                        && unset_or f.event_offset (has_offset t.event_offset))))))

unfoldable pub select : TransactionFilter → Store → List TransactionEntry
select f s = select_if (fn_filter f) s.transactions

abbrev pub first_found : List TransactionEntry → Result Error TransactionEntry
first_found [] = raise transaction_not_found
first_found (t ∷ ts) = return t

-- `get`: the first entry of the selection by identifier.
unfoldable pub get_transaction : Uuid → Action Store Error TransactionEntry
unfolding select fn_filter
get_transaction u s = (first_found (select (record no_filter { uuid = some u }) s), s)
