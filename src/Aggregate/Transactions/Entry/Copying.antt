-- ===== src/Aggregate/Transactions/Entry/Copying.antt =====
-- The loop of `_commit`: the events of a transaction are submitted again to its destination.
use minos_python.Base.{
  ℕ, ◌≡◌, refl, sym, ◌∙◌, ap, subst, ◌+◌, ◌<◌, ◌⊎◌, inl, inr, true, ◌≢◌, some, List, [], ◌∷◌, ◌++◌,
  append-nil, append_assoc, All, ==_ne, Result, return, raise,
}
use mathlib.Core.Path.{subst₂}
use minos_python.Aggregate.Store.{
  EventAction, Uuid, null_uuid, TransactionEntry, StoredEvent, Store, Environment, Error,
  event_conflict,
}
use minos_python.Aggregate.Events.Repository.{bump, with_uuid, submit}
use minos_python.Aggregate.Events.Repository.Blocking.{is_blocked}
use minos_python.Aggregate.Events.Repository.Outcome.{
  IsStored, accepted, too_low, blocked, no_action, submit-Submitted,
}
use minos_python.Aggregate.Transactions.Entry.{from_another, copy_entries}

-- `e` is the entry `d`, in the transaction `destination`.
pub record IsCopy (destination : Uuid) (d e : StoredEvent) : Type 0 where
  pub uuid : e.uuid ≡ d.uuid
  pub name : e.name ≡ d.name
  pub version : e.version ≡ d.version
  pub payload : e.payload ≡ d.payload
  pub action : e.action ≡ d.action
  pub transaction_uuid : e.transaction_uuid ≡ destination

abbrev pub AreCopies : Uuid → List StoredEvent → List StoredEvent → Type 0
AreCopies destination [] [] = Unit
AreCopies destination [] (e ∷ es) = ⊥
AreCopies destination (d ∷ ds) [] = ⊥
AreCopies destination (d ∷ ds) (e ∷ es) = IsCopy destination d e × AreCopies destination ds es

abbrev pub HasUuid : StoredEvent → Type 0
HasUuid e = e.uuid ≢ null_uuid

-- What the loop does to the rest of the store.
pub record KeepsTransactions (s s' : Store) : Type 0 where
  pub transactions : s'.transactions ≡ s.transactions
  pub context : s'.context ≡ s.context

-- The counters of versions after copies of the events `ds`.
abbrev pub counted_all : (ℕ → Uuid → Uuid → ℕ) → Uuid → List StoredEvent → ℕ → Uuid → Uuid → ℕ
counted_all f destination [] = f
counted_all f destination (d ∷ ds) = counted_all (bump f d.name d.uuid destination) destination ds

-- Why a copy of `d` is refused: its version is below the next one of the destination, or another
-- transaction that is about to write to the destination has an event of the entity.
abbrev pub Refused :
    Uuid
    → Uuid
    → (ℕ → Uuid → Uuid → ℕ)
    → List TransactionEntry
    → List StoredEvent
    → StoredEvent
    → Type 0
Refused self destination counters transactions events d =
    (d.version < counters d.name d.uuid destination + 1)
    ⊎ (is_blocked d.uuid destination (some self) transactions events ≡ true)

-- How the loop over `ds` ends: `new` are copies of a first part of `ds`, added in order; it is the
-- whole of `ds` exactly if the loop returns.
pub data Copied (self destination : Uuid) (ds : List StoredEvent) (s : Store)
    (r : Result Error Unit) (s' : Store) : Type 0 where
  copied_all :
      (new : List StoredEvent)
      → r ≡ return tt
      → AreCopies destination ds new
      → s'.events ≡ s.events ++ new
      → KeepsTransactions s s'
      → Copied self destination ds s r s'
  copied_part :
      (done rest new : List StoredEvent) (d : StoredEvent) (at : ℕ)
      → r ≡ raise (event_conflict at)
      → ds ≡ done ++ (d ∷ rest)
      → Refused self destination
          (counted_all s.next_versions destination done)
          s.transactions
          (s.events ++ new)
          d
      → AreCopies destination done new
      → s'.events ≡ s.events ++ new
      → KeepsTransactions s s'
      → Copied self destination ds s r s'

uuid_kept :
    (env : Environment) (d : StoredEvent) (destination : Uuid) (s : Store)
    → HasUuid d
    → (with_uuid env (from_another d destination) s).uuid ≡ d.uuid
uuid_kept env d destination s h = rw (==_ne d.uuid null_uuid h)

IsStored-IsCopy :
    (env : Environment) (destination : Uuid) (d e : StoredEvent) (s : Store) (action : EventAction)
    → HasUuid d
    → some d.action ≡ some action
    → IsStored env (with_uuid env (from_another d destination) s) action s e
    → IsCopy destination d e
IsStored-IsCopy env destination d e s action h acted is = record {
  uuid = is.uuid ∙ uuid_kept env d destination s h;
  name = is.name;
  version = is.version;
  payload = is.payload;
  action = cc (is.action_kept);
  transaction_uuid = is.transaction_uuid;
}

Copied-cons :
    (self destination : Uuid) (d e : StoredEvent) (ds : List StoredEvent) (s m : Store)
    (r : Result Error Unit) (s' : Store)
    → IsCopy destination d e
    → m.events ≡ s.events ++ (e ∷ [])
    → m.next_versions ≡ bump s.next_versions d.name d.uuid destination
    → m.transactions ≡ s.transactions
    → m.context ≡ s.context
    → Copied self destination ds m r s'
    → Copied self destination (d ∷ ds) s r s'
Copied-cons self destination d e ds s m r s' copy added counted kept same
      (copied_all new returned copies events keeps) =
    copied_all (e ∷ new) returned (copy, copies)
      (events ∙ ap (λ l. l ++ new) added ∙ append_assoc s.events (e ∷ []) new)
      (record { transactions = keeps.transactions ∙ kept; context = keeps.context ∙ same })
Copied-cons self destination d e ds s m r s' copy added counted kept same
      (copied_part done rest new x at raised split why copies events keeps) =
    let stored : m.events ++ new ≡ s.events ++ (e ∷ new) =
      ap (λ l. l ++ new) added ∙ append_assoc s.events (e ∷ []) new in
    copied_part (d ∷ done) rest (e ∷ new) x at raised (ap (λ l. d ∷ l) split)
      (subst
        (λ f.
          Refused self destination (counted_all f destination done) s.transactions
            (s.events ++ (e ∷ new)) x)
        counted
        (subst₂
          (λ ts l. Refused self destination (counted_all m.next_versions destination done) ts l x)
          kept stored why))
      (copy, copies) (events ∙ stored)
      (record { transactions = keeps.transactions ∙ kept; context = keeps.context ∙ same })

module _ (env : Environment) (self destination : Uuid) where
  stopped :
      (d : StoredEvent) (ds : List StoredEvent) (s s' : Store) (r : Result Error Unit) (at : ℕ)
      → r ≡ raise (event_conflict at)
      → Refused self destination s.next_versions s.transactions s.events d
      → s'.events ≡ s.events
      → KeepsTransactions s s'
      → Copied self destination (d ∷ ds) s r s'
  stopped d ds s s' r at raised why events keeps =
      copied_part [] ds [] d at raised refl
        (subst (λ l. Refused self destination s.next_versions s.transactions l d)
          (sym (append-nil s.events)) why)
        tt (events ∙ sym (append-nil s.events)) keeps

  -- The loop copies the events in order. It returns if all of them are copied; otherwise it stops with
  -- a conflict at one whose version is below the next one of the destination, after the copies before
  -- it, or whose entity has an event in another transaction that is about to write to the destination.
  -- It touches neither the transactions nor the context. The events have identifiers.
  pub copy_entries-Copied :
      (ds : List StoredEvent) (s : Store)
      → All HasUuid ds
      → let (r, s') = copy_entries env self destination ds s in Copied self destination ds s r s'
  unfolding copy_entries
  copy_entries-Copied [] s h =
      copied_all [] refl tt (sym (append-nil s.events))
        (record { transactions = refl; context = refl })
  copy_entries-Copied (d ∷ ds) s h =
      let kept = uuid_kept env d destination s h.0 in
      elim (submit-Submitted env (from_another d destination) (some self) s) [
        | accepted action e acted _ returned is added ↦
            let m = (submit env (from_another d destination) (some self) s).1 in
            rw returned (
              Copied-cons self destination d e ds s m _ _
                (IsStored-IsCopy env destination d e s action h.0 acted is) added.events
                (added.counters ∙ ap (λ u. bump s.next_versions d.name u destination) kept)
                added.transactions added.context (copy_entries-Copied ds m h.1))
        | too_low _ low raised refused ↦
            let below : d.version < s.next_versions d.name d.uuid destination + 1 =
              subst (λ u. d.version < s.next_versions d.name u destination + 1) kept low in
            rw raised (
              stopped d ds s _ _ _ refl (inl below) refused.events
                (record { transactions = refused.transactions; context = refused.context }))
        | blocked why raised same ↦
            rw (raised, same)
              (stopped d ds s s _ _ refl (inr why) refl
                (record { transactions = refl; context = refl }))
        | no_action missing _ _ ↦ cc
      ]
