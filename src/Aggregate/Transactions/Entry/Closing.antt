-- ===== src/Aggregate/Transactions/Entry/Closing.antt =====
-- Reserving and rejecting a transaction: every way in which the two methods can end.
use minos_python.Base.{
  ℕ, ◌+◌, ◌≡◌, refl, ◌∙◌, ap, inl, inr, true, false, Option, none, some, [], ◌∷◌, Bool-cases,
  Result, return, raise, length,
}
use minos_python.Aggregate.Store.{
  TransactionStatus, pending, reserving, reserved, rejected, is_status, status_in, Environment,
  Error, event_conflict, transaction_conflict, value_error, Scope,
}
use minos_python.Aggregate.Events.Repository.{offset}
use minos_python.Aggregate.Transactions.Repository.Lifecycle.{end_reserve, drop_reserving}
use minos_python.Aggregate.Transactions.Entry.{save, validate, reserve, reject}
use minos_python.Aggregate.Transactions.Entry.Saving.{
  SameEvents, SameOthers, IsSynced, MayBecome, SameEvents-trans, SameOthers-trans, IsSaved,
  save-IsSaved, synced-MayBecome, save_refused, save_status, save-SameEvents, MayBecome-cases,
}

-- The transaction has come to a status, with the offset that follows the last event, in the object
-- and in the repository; no event and no other transaction has changed.
pub record Closes (status : TransactionStatus) (s s' : Scope) : Type 0 where
  pub status_now : s'.self.status ≡ status
  pub offset_now : s'.self.event_offset ≡ some (1 + offset s.store)
  pub synced : IsSynced s'
  pub same_events : SameEvents s.store s'.store
  pub same_others : SameOthers s s'

-- The transaction while it is being validated.
abbrev pub while_reserving : Environment → Scope → Scope
while_reserving env s = (save env none (some reserving) s).1

-- The repository refuses the transaction, since the status that is stored for it does not admit the
-- given one: nothing that is stored has changed, but the object has the status.
pub record Stale (status : TransactionStatus) (s : Scope) (r : Result Error Unit) (s' : Scope)
    : Type 0 where
  pub not_admitted : ¬ MayBecome s status
  pub raised : r ≡ raise transaction_conflict
  pub transactions : s'.store.transactions ≡ s.store.transactions
  pub events : s'.store.events ≡ s.store.events
  pub status_now : s'.self.status ≡ status

save-Stale :
    (env : Environment) (event_offset : Option ℕ) (status : TransactionStatus) (s : Scope)
    → ¬ MayBecome s status
    → let (r, s') = save env event_offset (some status) s in Stale status s r s'
save-Stale env event_offset status s may_not =
    let (raised, same) = save_refused env event_offset (some status) s may_not in
    record {
      not_admitted = may_not;
      raised = raised;
      transactions = same;
      events = (save-SameEvents env event_offset (some status) s).events;
      status_now = save_status env event_offset (some status) s;
    }

-- How `reserve` ends for a pending transaction.
pub data Reserved (env : Environment) (s : Scope) (r : Result Error Unit) (s' : Scope)
    : Type 0 where
  is_reserved :
      validate (while_reserving env s).self (while_reserving env s).store ≡ true
      → r ≡ return tt
      → Closes reserved s s'
      → Reserved env s r s'
  is_rejected :
      validate (while_reserving env s).self (while_reserving env s).store ≡ false
      → r ≡ raise (event_conflict (1 + offset s.store))
      → Closes rejected s s'
      → Reserved env s r s'
  is_stale : Stale reserving s r s' → Reserved env s r s'

Closes-then :
    (status : TransactionStatus) (s m s' : Scope) {st : Option TransactionStatus}
    → IsSaved none st s m
    → IsSaved (some (1 + offset m.store)) (some status) m s'
    → Closes status s s'
Closes-then status s m s' a b = record {
  status_now = b.status_now;
  offset_now = b.offset_now ∙ ap (λ l. some (1 + length l)) a.same_events.events;
  synced = b.synced;
  same_events = SameEvents-trans a.same_events b.same_events;
  same_others = SameOthers-trans a.same_others b.same_others;
}

reserve_admitted :
    (env : Environment) (s : Scope)
    → s.self.status ≡ pending
    → MayBecome s reserving
    → let (r, s') = reserve env s in Reserved env s r s'
unfolding reserve
reserve_admitted env s e may =
    let is : is_status s.self.status pending ≡ true = ap (λ st. is_status st pending) e in
    let (returned, a) = save-IsSaved env none (some reserving) s may in
    let m = while_reserving env s in
    elim (Bool-cases (validate m.self m.store)) [
      | inl good ↦
          let (returned', b) =
            save-IsSaved env (some (1 + offset m.store)) (some reserved) m
              (synced-MayBecome m a.synced a.status_now end_reserve) in
          rw (is, returned, good, returned')
            (is_reserved good refl (Closes-then reserved s m _ a b))
      | inr bad ↦
          let (returned', b) =
            save-IsSaved env (some (1 + offset m.store)) (some rejected) m
              (synced-MayBecome m a.synced a.status_now drop_reserving) in
          rw (is, returned, bad, returned')
            (is_rejected bad (ap (λ l. raise (event_conflict (1 + length l))) a.same_events.events)
              (Closes-then rejected s m _ a b))
    ]

-- Reserving a pending transaction settles it if the repository admits it as reserving: it is reserved
-- if `validate` holds, and otherwise rejected, with a conflict raised; either way the object and the
-- repository agree. If the stored status does not admit it, a conflict of transactions is raised,
-- nothing that is stored changes, and the object is left reserving.
pub reserve-Reserved :
    (env : Environment) (s : Scope)
    → s.self.status ≡ pending
    → let (r, s') = reserve env s in Reserved env s r s'
unfolding reserve
reserve-Reserved env s e =
    let is : is_status s.self.status pending ≡ true = ap (λ st. is_status st pending) e in
    elim (MayBecome-cases s reserving) [
      | inl may ↦ reserve_admitted env s e may
      | inr may_not ↦
          let stale = save-Stale env none reserving s may_not in
          rw (is, stale.raised)
            (is_stale (record {
              not_admitted = may_not;
              raised = refl;
              transactions = stale.transactions;
              events = stale.events;
              status_now = stale.status_now;
            }))
    ]

-- How `reject` ends.
pub data Rejected (s : Scope) (r : Result Error Unit) (s' : Scope) : Type 0 where
  is_closed :
      status_in s.self.status (pending ∷ reserved ∷ []) ≡ true
      → r ≡ return tt
      → Closes rejected s s'
      → Rejected s r s'
  is_refused :
      status_in s.self.status (pending ∷ reserved ∷ []) ≡ true
      → Stale rejected s r s'
      → Rejected s r s'
  is_kept :
      status_in s.self.status (pending ∷ reserved ∷ []) ≡ false
      → r ≡ raise value_error
      → s' ≡ s
      → Rejected s r s'

-- A pending or reserved transaction is rejected, if the repository admits it as rejected; otherwise a
-- conflict of transactions is raised and nothing that is stored changes. A transaction of another
-- status is left alone with a `ValueError`.
pub reject-Rejected :
    (env : Environment) (s : Scope) → let (r, s') = reject env s in Rejected s r s'
unfolding reject
reject-Rejected env s = elim (Bool-cases (status_in s.self.status (pending ∷ reserved ∷ []))) [
  | inl open_status ↦ elim (MayBecome-cases s rejected) [
    | inr may_not ↦
        rw open_status
          (is_refused open_status (save-Stale env (some (1 + offset s.store)) rejected s may_not))
    | inl may ↦
        let (returned, a) = save-IsSaved env (some (1 + offset s.store)) (some rejected) s may in
        rw open_status (
          is_closed open_status returned (record {
            status_now = a.status_now;
            offset_now = a.offset_now;
            synced = a.synced;
            same_events = a.same_events;
            same_others = a.same_others;
          }))
  ]
  | inr other ↦ rw other (is_kept other refl refl)
]
