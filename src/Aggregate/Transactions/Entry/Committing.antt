-- ===== src/Aggregate/Transactions/Entry/Committing.antt =====
-- Committing a transaction: every way in which `commit` can end.
use minos_python.Base.{
  ℕ, ◌+◌, ◌≡◌, refl, sym, subst, ◌∙◌, ap, ◌⊎◌, inl, inr, true, false, none, some, List, ◌∷◌, ◌++◌,
  All, Result, return, raise, length, and_then,
}
use mathlib.Core.Path.{subst₂}
use minos_python.Aggregate.Store.{
  Uuid, pending, reserving, reserved, committing, committed, rejected, is_status, StoredEvent,
  TransactionEntry, Store, Environment, Error, event_conflict, Scope,
}
use minos_python.Aggregate.Events.Repository.{offset, select}
use minos_python.Aggregate.Transactions.Repository.Lifecycle.{begin_commit, end_commit}
use minos_python.Aggregate.Transactions.Entry.{
  save, own_events, validate, reserve, copy_entries, commit_entries, commit,
}
use minos_python.Aggregate.Transactions.Entry.Saving.{
  SameEvents, SameOthers, IsSynced, MayBecome, IsSaved, save-IsSaved, synced-MayBecome,
}
use minos_python.Aggregate.Transactions.Entry.Closing.{
  Closes, while_reserving, is_reserved, is_rejected, is_stale, reserve-Reserved,
}
use minos_python.Aggregate.Transactions.Entry.Copying.{
  HasUuid, AreCopies, Refused, counted_all, Copied, copied_all, copied_part, copy_entries-Copied,
}

-- How `commit` ends for a reserved transaction. `completed`: all of its events stand at the end of
-- the storage again, in the destination. `interrupted`: an event was refused; those before it stay
-- copied, and the transaction stays committing.
pub data Committed (s : Scope) (r : Result Error Unit) (s' : Scope) : Type 0 where
  completed :
      (new : List StoredEvent)
      → r ≡ return tt
      → AreCopies s.self.destination_uuid (own_events s.self.uuid s.store) new
      → s'.store.events ≡ s.store.events ++ new
      → s'.self.status ≡ committed
      → s'.self.event_offset ≡ some (1 + offset s'.store)
      → IsSynced s'
      → Committed s r s'
  interrupted :
      (done rest new : List StoredEvent) (d : StoredEvent) (at : ℕ)
      → r ≡ raise (event_conflict at)
      → own_events s.self.uuid s.store ≡ done ++ (d ∷ rest)
      → Refused s.self.uuid s.self.destination_uuid
          (counted_all s.store.next_versions s.self.destination_uuid done)
          s'.store.transactions
          (s.store.events ++ new)
          d
      → AreCopies s.self.destination_uuid done new
      → s'.store.events ≡ s.store.events ++ new
      → s'.self.status ≡ committing
      → IsSynced s'
      → Committed s r s'

-- The events of a transaction depend only on the events that are stored.
own_events_of : (u : Uuid) (s s' : Store) → s'.events ≡ s.events → own_events u s' ≡ own_events u s
unfolding select
own_events_of u s s' e = rw e

-- A transaction whose entry in the repository is intact is still synced when events were copied.
IsSynced-store :
    (s : Scope) (store : Store)
    → store.transactions ≡ s.store.transactions
    → IsSynced s
    → IsSynced (record s { store = store })
IsSynced-store s store e synced = rw e synced

commit_entries-copies :
    (env : Environment) (s : Scope)
    → commit_entries env s ≡ (
        let (r, store) =
          copy_entries env s.self.uuid s.self.destination_uuid
            (own_events s.self.uuid s.store)
            s.store in
        (r, record s { store = store }))
unfolding commit_entries
commit_entries-copies env s = refl

Refused-at :
    (self destination : Uuid) (done : List StoredEvent) (d : StoredEvent)
    {f g : ℕ → Uuid → Uuid → ℕ} {ts ts' : List TransactionEntry} {l l' : List StoredEvent}
    → l ≡ l'
    → f ≡ g
    → ts ≡ ts'
    → Refused self destination (counted_all f destination done) ts l d
    → Refused self destination (counted_all g destination done) ts' l' d
Refused-at self destination done d {f} {g} {ts} {ts'} {l} {l'} events counters transactions why =
    subst (λ h. Refused self destination (counted_all h destination done) ts' l' d) counters
      (subst₂ (λ xs es. Refused self destination (counted_all f destination done) xs es d)
        transactions events why)

-- The last save of `commit`, for a loop that ended as `copied`.
finish :
    (env : Environment) (s m : Scope) (r : Result Error Unit) (store : Store)
    → IsSaved none (some committing) s m
    → Copied s.self.uuid s.self.destination_uuid (own_events s.self.uuid s.store) m.store r store
    → let (r', s') =
        and_then r
          (λ _ (z : Scope). save env (some (1 + offset z.store)) (some committed) z)
          (record m { store = store }) in
      Committed s r' s'
finish env s m r store a (copied_all new returned copies events keeps) =
    let z : Scope = record m { store = store } in
    let (returned', b) = save-IsSaved env (some (1 + offset store)) (some committed) z (
      synced-MayBecome z (IsSynced-store m store keeps.transactions a.synced) a.status_now
        end_commit) in
    rw returned (
      completed new returned' copies
        (b.same_events.events ∙ events ∙ ap (λ l. l ++ new) a.same_events.events) b.status_now
        (b.offset_now ∙ ap (λ l. some (1 + length l)) (sym b.same_events.events)) b.synced)
finish env s m r store a (copied_part done rest new d at raised split why copies events keeps) =
    rw raised (
      interrupted done rest new d at refl split
        (Refused-at s.self.uuid s.self.destination_uuid done d
          (ap (λ l. l ++ new) a.same_events.events) a.same_events.next_versions
          (sym keeps.transactions) why)
        copies (events ∙ ap (λ l. l ++ new) a.same_events.events) a.status_now
        (IsSynced-store m store keeps.transactions a.synced))

-- Committing a reserved transaction, where the stored status admits committing and its events have
-- identifiers, ends in one of two ways. It copies all of its events to its destination and ends
-- committed, with the offset that follows the last event, in the object and in the repository. Or it
-- stops with a conflict at an event that is refused, since its version is below the next one of the
-- destination after the copies before it, or since another transaction that is about to write to the
-- destination has an event of its entity; the transaction is then left committing with the events
-- before that one copied.
pub commit-Committed :
    (env : Environment) (s : Scope)
    → s.self.status ≡ reserved
    → MayBecome s committing
    → All HasUuid (own_events s.self.uuid s.store)
    → let (r, s') = commit env s in Committed s r s'
unfolding commit
commit-Committed env s e may ids =
    let not_pending : is_status s.self.status pending ≡ false = ap (λ st. is_status st pending) e in
    let is : is_status s.self.status reserved ≡ true = ap (λ st. is_status st reserved) e in
    let (returned, a) = save-IsSaved env none (some committing) s may in
    let m = (save env none (some committing) s).1 in
    let same : own_events m.self.uuid m.store ≡ own_events s.self.uuid s.store =
      ap (λ u. own_events u m.store) a.same_others.uuid
      ∙ own_events_of s.self.uuid s.store m.store a.same_events.events in
    let c =
      copy_entries env m.self.uuid m.self.destination_uuid (own_events m.self.uuid m.store)
        m.store in
    let copied =
      copy_entries-Copied env m.self.uuid m.self.destination_uuid (own_events m.self.uuid m.store)
        m.store (subst (All HasUuid) (sym same) ids) in
    rw (not_pending, is, returned, commit_entries-copies env m)
      (finish env s m c.0 c.1 a (
        subst
          (λ u. Copied u s.self.destination_uuid (own_events s.self.uuid s.store) m.store c.0 c.1)
          a.same_others.uuid
          (subst₂ (λ u ds. Copied m.self.uuid u ds m.store c.0 c.1) a.same_others.destination same
            copied)))

Committed-from :
    (s m : Scope) (r : Result Error Unit) (s' : Scope)
    → SameEvents s.store m.store
    → SameOthers s m
    → Committed m r s'
    → Committed s r s'
Committed-from s m r s' ev ot (completed new returned copies events st off synced) =
    let same : own_events m.self.uuid m.store ≡ own_events s.self.uuid s.store =
      ap (λ u. own_events u m.store) ot.uuid
      ∙ own_events_of s.self.uuid s.store m.store ev.events in
    completed new returned (subst₂ (λ u ds. AreCopies u ds new) ot.destination same copies)
      (events ∙ ap (λ l. l ++ new) ev.events) st off synced
Committed-from s m r s' ev ot
      (interrupted done rest new d at raised split why copies events st synced) =
    let same : own_events m.self.uuid m.store ≡ own_events s.self.uuid s.store =
      ap (λ u. own_events u m.store) ot.uuid
      ∙ own_events_of s.self.uuid s.store m.store ev.events in
    interrupted done rest new d at raised (sym same ∙ split)
      (subst₂
        (λ u v.
          Refused u v (counted_all s.store.next_versions v done) s'.store.transactions
            (s.store.events ++ new) d)
        ot.uuid ot.destination
        (Refused-at m.self.uuid m.self.destination_uuid done d (ap (λ l. l ++ new) ev.events)
          ev.next_versions refl why))
      (subst (λ u. AreCopies u done new) ot.destination copies)
      (events ∙ ap (λ l. l ++ new) ev.events) st synced

-- Committing a pending transaction, where the stored status admits reserving and its events have
-- identifiers, reserves it first: if `validate` fails, it is rejected with a conflict, and no event
-- was copied; otherwise the commit ends in one of the two ways of a reserved transaction.
pub commit-pending :
    (env : Environment) (s : Scope)
    → s.self.status ≡ pending
    → MayBecome s reserving
    → All HasUuid (own_events s.self.uuid s.store)
    → let (r, s') = commit env s in
      let m = while_reserving env s in
      (validate m.self m.store ≡ false)
        × (r ≡ raise (event_conflict (1 + offset s.store)))
        × Closes rejected s s'
      ⊎ (validate m.self m.store ≡ true) × Committed s r s'
unfolding commit
commit-pending env s e may ids =
    let is : is_status s.self.status pending ≡ true = ap (λ st. is_status st pending) e in
    elim (reserve-Reserved env s e) [
      | is_stale stale ↦ absurd (stale.not_admitted may)
      | is_rejected bad raised closes ↦ rw (is, raised) (inl (bad, refl, closes))
      | is_reserved good returned closes ↦
          let m = (reserve env s).1 in
          let same : own_events m.self.uuid m.store ≡ own_events s.self.uuid s.store =
            ap (λ u. own_events u m.store) closes.same_others.uuid
            ∙ own_events_of s.self.uuid s.store m.store closes.same_events.events in
          let c =
            commit-Committed env m closes.status_now
              (synced-MayBecome m closes.synced closes.status_now begin_commit)
              (subst (All HasUuid) (sym same) ids) in
          let not_pending : is_status m.self.status pending ≡ false =
            ap (λ st. is_status st pending) closes.status_now in
          rw (is, returned)
            (inr (
              good,
              Committed-from s m _ _ closes.same_events closes.same_others (rw not_pending at c),
            ))
    ]
