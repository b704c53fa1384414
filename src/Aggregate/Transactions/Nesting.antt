-- ===== src/Aggregate/Transactions/Nesting.antt =====
-- `TransactionEntry.uuids` and `destination` (transactions/entries.py): the chain of transactions
-- from the outermost one.
--
-- `token` is the old value that the context variable had when the transaction was entered: `none` if
-- there is none. Entries that the repository gives were not entered. The loop takes fuel; `none` means
-- that it has run out.
pub mod Ending
use minos_python.Base.{
  ℕ, ◌<◌, ◌+◌, zero, suc, ◌≡◌, ◌≢◌, refl, ap, ◌∙◌, Bool, true, false, Option, none, some, List, [],
  ◌∷◌, ◌++◌, ◌==◌, if◌then◌else◌, All, Result, return, raise, arith, inl, inr, Bool-cases,
  Result-cases,
}
use minos_python.Aggregate.Store.{Uuid, null_uuid, TransactionEntry, Store, Error}
use minos_python.Aggregate.Transactions.Repository.{
  get_transaction, select, fn_filter, first_found, no_filter,
}

abbrev pub found_destination :
    Result Error TransactionEntry → Result Error (Option TransactionEntry)
found_destination (return t) = return (some t)
found_destination (raise x) = raise x

abbrev pub outer_transaction :
    Option (Option TransactionEntry) → Uuid → Store → Result Error (Option TransactionEntry)
outer_transaction (some old) u s = return old
outer_transaction none u s = found_destination (get_transaction u s).0

-- `destination`
abbrev pub destination :
    Option (Option TransactionEntry)
    → TransactionEntry
    → Store
    → Result Error (Option TransactionEntry)
destination token t s =
    if t.destination_uuid == null_uuid
    then return none
    else outer_transaction token t.destination_uuid s

abbrev pub append_uuid :
    Uuid → Option (Result Error (List Uuid)) → Option (Result Error (List Uuid))
append_uuid u none = none
append_uuid u (some (raise x)) = some (raise x)
append_uuid u (some (return us)) = some (return (us ++ (u ∷ [])))

-- `while current is not None`
abbrev pub go_on :
    (TransactionEntry → Option (Result Error (List Uuid)))
    → Result Error (Option TransactionEntry)
    → Option (Result Error (List Uuid))
go_on f (raise x) = some (raise x)
go_on f (return none) = some (return [])
go_on f (return (some d)) = f d

-- The loop of `uuids`: the identifiers from the outermost transaction to this one.
unfoldable pub walk :
    ℕ
    → Option (Option TransactionEntry)
    → TransactionEntry
    → Store
    → Option (Result Error (List Uuid))
walk zero token t s = none
walk (suc n) token t s = append_uuid t.uuid (go_on (λ d. walk n none d s) (destination token t s))

abbrev pub with_null : Option (Result Error (List Uuid)) → Option (Result Error (List Uuid))
with_null none = none
with_null (some (raise x)) = some (raise x)
with_null (some (return us)) = some (return (null_uuid ∷ us))

-- `uuids`
unfoldable pub uuids :
    ℕ
    → Option (Option TransactionEntry)
    → TransactionEntry
    → Store
    → Option (Result Error (List Uuid))
unfolding walk
uuids fuel token t s = with_null (walk fuel token t s)
