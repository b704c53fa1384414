-- ===== src/Aggregate/Events/Repository/Blocking.antt =====
-- What `validate` of the event repository decides.
use minos_python.Base.{
  ◌≡◌, refl, ◌∙◌, ap, sym, Bool, true, false, not, ◌&&◌, Option, none, some, List, [], ◌∷◌, map,
  ◌==◌, unset_or, if◌then◌else◌, is_empty, select_if, any_of, contains, any_of-congr, any_of-false,
  is_empty-select_if, arith,
}
use minos_python.Aggregate.Store.{
  Uuid, reserving, reserved, committing, status_in, EventEntry, StoredEvent, TransactionEntry,
  Store,
}
use minos_python.Aggregate.Transactions.Repository as Transactions
use minos_python.Aggregate.Events.Repository.{
  select, fn_filter, no_event_filter, blocking_uuids, validate,
}

-- The transaction is about to write to the destination, and is not the one to be skipped.
abbrev pub claims : Uuid → Option Uuid → TransactionEntry → Bool
claims destination ne x =
    destination == x.destination_uuid
    && (unset_or ne (λ u. not (u == x.uuid))
        && status_in x.status (reserving ∷ reserved ∷ committing ∷ []))

-- Such a transaction has an event of the entity `u`.
abbrev pub is_blocked : Uuid → Uuid → Option Uuid → List TransactionEntry → List StoredEvent → Bool
is_blocked u destination ne transactions events =
    any_of
      (λ (e : StoredEvent).
        u == e.uuid
        && any_of
            (λ (x : TransactionEntry). claims destination ne x && e.transaction_uuid == x.uuid)
            transactions)
      events

contains-selected :
    (p q : TransactionEntry → Bool) (v : Uuid) (l : List TransactionEntry)
    → ((x : TransactionEntry) → p x ≡ q x)
    → contains v (map (λ (x : TransactionEntry). x.uuid) (select_if p l))
      ≡ any_of (λ (x : TransactionEntry). q x && v == x.uuid) l
contains-selected p q v [] same = refl
contains-selected p q v (x ∷ l) same = ground (arith, same x, contains-selected p q v l same)

contains-blocking_uuids :
    (v destination : Uuid) (ne : Option Uuid) (s : Store)
    → contains v (blocking_uuids destination ne s)
      ≡ any_of (λ (x : TransactionEntry). claims destination ne x && v == x.uuid) s.transactions
unfolding blocking_uuids Transactions.select Transactions.fn_filter
contains-blocking_uuids v destination none s =
    contains-selected _ _ v s.transactions (λ x. ground arith)
contains-blocking_uuids v destination (some u) s =
    contains-selected _ _ v s.transactions (λ x. ground arith)

decided :
    (u : Uuid) (us : List Uuid) (s : Store)
    → (if is_empty us
        then true
        else is_empty
            (select (record no_event_filter { uuid = some u; transaction_uuid_in = some us }) s))
      ≡ not (any_of (λ (e : StoredEvent). u == e.uuid && contains e.transaction_uuid us) s.events)
unfolding select fn_filter
decided u [] s =
    ap not (sym (any_of-congr _ (λ e. false) s.events (λ e. ground arith) ∙ any_of-false s.events))
decided u (v ∷ vs) s =
    is_empty-select_if _ s.events ∙ ap not (any_of-congr _ _ s.events (λ e. ground arith))

pub validate-is_blocked :
    (entry : EventEntry) (ne : Option Uuid) (s : Store)
    → validate entry ne s
      ≡ not (is_blocked entry.uuid entry.transaction_uuid ne s.transactions s.events)
unfolding validate
validate-is_blocked entry ne s =
    decided entry.uuid (blocking_uuids entry.transaction_uuid ne s) s
    ∙ ap not (
        any_of-congr _ _ s.events (λ e.
          ap (λ b. (entry.uuid == e.uuid) && b)
            (contains-blocking_uuids e.transaction_uuid entry.transaction_uuid ne s)))
