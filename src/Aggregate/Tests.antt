-- ===== src/Aggregate/Tests.antt =====
-- Instances of the theorems about the aggregate package: one event of a transaction on top of the
-- null transaction, in the states that the methods meet.
mod Entities
use minos_python.Base.{
  ℕ, ◌+◌, ◌≡◌, refl, ◌≢◌, ◌⊎◌, true, false, not, ◌&&◌, none, some, List, [], ◌∷◌, arith, return,
  raise, All,
}
use minos_python.Aggregate.Store.{
  create, update, TransactionStatus, pending, reserving, reserved, committing, committed, rejected,
  EventEntry, StoredEvent, TransactionEntry, Store, Environment, Scope, event_conflict,
  transaction_conflict,
}
use minos_python.Aggregate.Events.Repository as Events
use minos_python.Aggregate.Events.Repository.Outcome.{Submitted, submit-Submitted}
use minos_python.Aggregate.Events.Repository.Numbering.{
  IsNumbered, IsVersioned, SameSlot, submit-IsNumbered, submit-IsVersioned, store_entry-skips,
}
use minos_python.Aggregate.Snapshots.{
  selected, sort_entries, insert_entry, keep_last, arrange, get_event_entries, live_uuids,
  get_transaction_uuids,
}
use minos_python.Aggregate.Snapshots.Chain.{Searched, get_transaction_uuids-Searched}
use minos_python.Aggregate.Snapshots.Visible.{Visible, in_chain, get_event_entries-Visible}
use minos_python.Aggregate.Transactions.Repository as Transactions
use minos_python.Aggregate.Transactions.Repository.Lifecycle.{
  begin_reserve, begin_commit, drop_pending, update_pending, Admits, FoundAt, submit_all,
  Moves-not-IsFinal, submit-cases, stamped, submit_all-FoundAt, submit_all-final,
}
use minos_python.Aggregate.Transactions.Entry.{
  own_events, validate, copy_entries, commit, reserve, reject, enter, exit,
}
use minos_python.Aggregate.Transactions.Entry.Saving.{IsSynced}
use minos_python.Aggregate.Transactions.Entry.Closing.{
  Reserved, Rejected, Closes, while_reserving, reserve-Reserved, reject-Rejected,
}
use minos_python.Aggregate.Transactions.Entry.Copying.{HasUuid, Copied, copy_entries-Copied}
use minos_python.Aggregate.Transactions.Entry.Committing.{
  Committed, commit-Committed, commit-pending,
}
use minos_python.Aggregate.Transactions.Entry.Validation.{
  Validated, validate_lem, validate-collision,
}
use minos_python.Aggregate.Transactions.Entry.Context.{enter-exit, enter-refused}

abbrev env : Environment
env = record {
  current_datetime = λ n. 100 + n;
  uuid4 = λ n. 1000 + n;
  decompose = λ e. (1, some 0) ∷ (2, none) ∷ [];
}

-- The first version of the entity 7, written in the transaction 2.
abbrev written_event : StoredEvent
written_event = record {
  uuid = 7;
  name = 1;
  version = 1;
  payload = 5;
  id = 1;
  action = create;
  created_at = 50;
  transaction_uuid = 2;
}

abbrev next_entry : EventEntry
next_entry = record {
  uuid = 7;
  name = 1;
  version = none;
  payload = 6;
  id = none;
  action = some update;
  created_at = none;
  transaction_uuid = 0;
}

abbrev transaction : TransactionStatus → TransactionEntry
transaction status = record {
  uuid = 2;
  status = status;
  event_offset = none;
  destination_uuid = 0;
  updated_at = none;
  autocommit = true;
}

abbrev store : TransactionStatus → Store
store status = record {
  events = written_event ∷ [];
  generated = 1;
  next_versions = Events.bump (λ n u t. 0) 1 7 2;
  transactions = transaction status ∷ [];
  context = none;
  published = [];
  ticks = 0;
}

abbrev scope : TransactionStatus → Scope
scope status = record { self = transaction status; store = store status }

-- The first version in the destination as well, and a second one: two transactions.
abbrev layered : Store
layered = record (store pending) {
  events =
      written_event
      ∷ record written_event { id = 2; transaction_uuid = 0 }
      ∷ record written_event { id = 3; version = 2; transaction_uuid = 0 }
      ∷ [];
}

get_event_entries-Visible_example :
    Visible
      (0 ∷ 2 ∷ [])
      (in_chain 1 7 (0 ∷ 2 ∷ []) layered)
      (get_event_entries 1 7 (0 ∷ 2 ∷ []) layered)
get_event_entries-Visible_example = get_event_entries-Visible 1 7 (0 ∷ 2 ∷ []) layered

-- The version of the inner transaction stands for that of the outer one.
layered-entries :
    get_event_entries 1 7 (0 ∷ 2 ∷ []) layered
    ≡ written_event ∷ record written_event { id = 3; version = 2; transaction_uuid = 0 } ∷ []
unfolding get_event_entries arrange selected sort_entries insert_entry keep_last Events.select
    Events.fn_filter
layered-entries = refl

-- The transaction in use is rejected.
get_transaction_uuids-Searched_example :
    Searched
      (store rejected)
      (0 ∷ 2 ∷ [])
      (get_transaction_uuids (some (0 ∷ 2 ∷ [])) (store rejected)).0
get_transaction_uuids-Searched_example = get_transaction_uuids-Searched (store rejected) (0 ∷ []) 2

rejected-uuids : (get_transaction_uuids (some (0 ∷ 2 ∷ [])) (store rejected)).0 ≡ return (0 ∷ [])
unfolding get_transaction_uuids live_uuids Transactions.get_transaction Transactions.select
    Transactions.fn_filter
rejected-uuids = refl

submit-Submitted_example :
    let (r, s') = Events.submit env next_entry none (store pending) in
    Submitted env next_entry none (store pending) r s'
submit-Submitted_example = submit-Submitted env next_entry none (store pending)

submit-IsNumbered_example : IsNumbered (Events.submit env next_entry none (store pending)).1
submit-IsNumbered_example =
    submit-IsNumbered env next_entry none (store pending)
      (record { numbered = (refl, tt); generated = refl })

submit-IsVersioned_example : IsVersioned (Events.submit env next_entry none (store pending)).1
submit-IsVersioned_example =
    submit-IsVersioned env next_entry none (store pending)
      (record { covered = (omega arith, tt); distinct = (tt, tt) }) (omega arith)

store_entry-skips_example :
    let skipping : EventEntry = record next_entry { version = some 2 } in
    let (r, s₁) = Events.store_entry env skipping update (store pending) in
    let (r', s₂) = Events.store_entry env next_entry update s₁ in
    (d : StoredEvent) × (e : StoredEvent) × (r ≡ return d) × (r' ≡ return e) × SameSlot d e
store_entry-skips_example = store_entry-skips env next_entry update (store pending)

submit-cases_example :
    let (r, s') = Transactions.submit env (scope pending) in
    (Admits (some (transaction pending)) pending
      × (r ≡ return tt)
      × (Transactions.find_transaction 2 s'.store.transactions ≡ some (stamped env (scope pending)))
      × ((u : ℕ)
          → u ≢ 2
          → Transactions.find_transaction u s'.store.transactions
            ≡ Transactions.find_transaction u (transaction pending ∷ [])))
    ⊎ (¬ Admits (some (transaction pending)) pending)
      × (r ≡ raise transaction_conflict)
      × (s'.store.transactions ≡ transaction pending ∷ [])
submit-cases_example = submit-cases env (scope pending)

-- Two callers, of which the second is refused.
abbrev callers : List TransactionEntry
callers = transaction reserving ∷ transaction committed ∷ []

submit_all-FoundAt_example : FoundAt 2 (submit_all env callers (store pending)) pending
submit_all-FoundAt_example =
    submit_all-FoundAt env 2 callers (store pending) (transaction pending) refl

submit_all-final_example :
    Transactions.find_transaction 2 (submit_all env callers (store rejected)).transactions
    ≡ some (transaction rejected)
submit_all-final_example =
    submit_all-final env 2 callers (store rejected) (transaction rejected) refl tt

reserve-Reserved_example :
    let (r, s') = reserve env (scope pending) in Reserved env (scope pending) r s'
reserve-Reserved_example = reserve-Reserved env (scope pending) refl

reject-Rejected_example : let (r, s') = reject env (scope pending) in Rejected (scope pending) r s'
reject-Rejected_example = reject-Rejected env (scope pending)

written-HasUuid : All HasUuid (written_event ∷ [])
written-HasUuid = (λ e. absurd (omega (arith, e)), tt)

copy_entries-Copied_example :
    let (r, s') = copy_entries env 2 0 (written_event ∷ []) (store committing) in
    Copied 2 0 (written_event ∷ []) (store committing) r s'
copy_entries-Copied_example =
    copy_entries-Copied env 2 0 (written_event ∷ []) (store committing) written-HasUuid

own-HasUuid : (status : TransactionStatus) → All HasUuid (own_events 2 (store status))
unfolding Events.select Events.fn_filter
own-HasUuid status = written-HasUuid

commit-Committed_example :
    let (r, s') = commit env (scope reserved) in Committed (scope reserved) r s'
commit-Committed_example =
    commit-Committed env (scope reserved) refl begin_commit (own-HasUuid reserved)

commit-pending_example :
    let (r, s') = commit env (scope pending) in
    let m = while_reserving env (scope pending) in
    (validate m.self m.store ≡ false)
      × (r ≡ raise (event_conflict 2))
      × Closes rejected (scope pending) s'
    ⊎ (validate m.self m.store ≡ true) × Committed (scope pending) r s'
commit-pending_example = commit-pending env (scope pending) refl begin_reserve (own-HasUuid pending)

validate_lem_example :
    Validated
      (transaction reserving)
      (store reserving)
      (validate (transaction reserving) (store reserving))
validate_lem_example = validate_lem (transaction reserving) (store reserving)

-- The destination has a first version of the entity as well.
abbrev collided : Store
collided = record (store pending) {
  events = record written_event { transaction_uuid = 0 } ∷ record written_event { id = 2 } ∷ [];
}

validate-collision_example : validate (transaction pending) collided ≡ false
validate-collision_example =
    validate-collision (transaction pending) collided 7 1 [] (record written_event { id = 2 } ∷ [])
      (record written_event { transaction_uuid = 0 }) refl refl refl refl refl

abbrev manual : TransactionStatus → Scope
manual status = record {
  self = record (transaction pending) { autocommit = false };
  store = store status;
}

enter-exit_example :
    let (r, m) = enter env (manual pending) in
    let (r', s') = exit env none m in
    (r ≡ return none)
    × (m.store.context ≡ some (manual pending).self)
    × IsSynced m
    × (m.self.status ≡ pending)
    × (r' ≡ return tt)
    × (s'.store.context ≡ none)
enter-exit_example = enter-exit env (manual pending) (refl, refl) update_pending refl

enter-refused_example :
    let (r, s') = enter env (manual committed) in
    (r ≡ raise transaction_conflict) × (s'.store.context ≡ some (manual committed).self)
enter-refused_example =
    enter-refused env (manual committed) (refl, refl) (λ m. Moves-not-IsFinal m tt)
