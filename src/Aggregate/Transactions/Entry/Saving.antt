-- ===== src/Aggregate/Transactions/Entry/Saving.antt =====
-- What `save` does to the transaction and to the repositories.
use minos_python.Base.{
  ℕ, ◌≡◌, refl, sym, subst, ap, ◌∙◌, ◌≢◌, ◌⊎◌, inl, inr, Option, some, Bool-cases, get_or, return,
  raise,
}
use minos_python.Aggregate.Store.{
  Uuid, TransactionStatus, TransactionEntry, Store, Environment, transaction_conflict, Scope,
}
use minos_python.Aggregate.Transactions.Repository.{
  find_transaction, stored_copy, is_refused, submit,
}
use minos_python.Aggregate.Transactions.Repository.Lifecycle.{
  Moves, Admits, Admits-cases, submit-cases,
}
use minos_python.Aggregate.Transactions.Entry.{assign, save}

-- The event repository, the context and the messages are as they were.
pub record SameEvents (s s' : Store) : Type 0 where
  pub events : s'.events ≡ s.events
  pub generated : s'.generated ≡ s.generated
  pub next_versions : s'.next_versions ≡ s.next_versions
  pub context : s'.context ≡ s.context
  pub published : s'.published ≡ s.published

-- The transaction is the same one, and no other stored transaction has changed.
pub record SameOthers (s s' : Scope) : Type 0 where
  pub uuid : s'.self.uuid ≡ s.self.uuid
  pub destination : s'.self.destination_uuid ≡ s.self.destination_uuid
  pub autocommit : s'.self.autocommit ≡ s.self.autocommit
  pub others :
      (u : Uuid)
      → u ≢ s.self.uuid
      → find_transaction u s'.store.transactions ≡ find_transaction u s.store.transactions

-- The repository holds a copy of the transaction.
abbrev pub IsSynced : Scope → Type 0
IsSynced s = find_transaction s.self.uuid s.store.transactions ≡ some (stored_copy s.self)

-- The status that is stored for the transaction admits the given one.
abbrev pub MayBecome : Scope → TransactionStatus → Type 0
MayBecome s new = Admits (find_transaction s.self.uuid s.store.transactions) new

pub SameEvents-trans : {s t u : Store} → SameEvents s t → SameEvents t u → SameEvents s u
SameEvents-trans a b = record {
  events = b.events ∙ a.events;
  generated = b.generated ∙ a.generated;
  next_versions = b.next_versions ∙ a.next_versions;
  context = b.context ∙ a.context;
  published = b.published ∙ a.published;
}

pub SameOthers-trans : {s t u : Scope} → SameOthers s t → SameOthers t u → SameOthers s u
SameOthers-trans a b = record {
  uuid = b.uuid ∙ a.uuid;
  destination = b.destination ∙ a.destination;
  autocommit = b.autocommit ∙ a.autocommit;
  others = λ v ne. b.others v (λ e. ne (e ∙ a.uuid)) ∙ a.others v ne;
}

submit-SameEvents : (env : Environment) (s : Scope) → SameEvents s.store (submit env s).1.store
unfolding submit
submit-SameEvents env s =
    elim (Bool-cases
      (is_refused (find_transaction s.self.uuid s.store.transactions) s.self.status)) [
        | inl bad ↦ rw bad (record {
          events = refl;
          generated = refl;
          next_versions = refl;
          context = refl;
          published = refl;
        })
        | inr good ↦ rw good (record {
          events = refl;
          generated = refl;
          next_versions = refl;
          context = refl;
          published = refl;
        })
      ]

submit-self :
    (env : Environment) (s : Scope)
    → (submit env s).1.self
      ≡ record (s.self) { updated_at = some (env.current_datetime s.store.ticks) }
unfolding submit
submit-self env s =
    elim (Bool-cases
      (is_refused (find_transaction s.self.uuid s.store.transactions) s.self.status)) [
        | inl bad ↦ rw bad
        | inr good ↦ rw good
      ]

-- A save that the stored status admits.
pub record IsSaved (event_offset : Option ℕ) (status : Option TransactionStatus) (s s' : Scope)
    : Type 0 where
  pub status_now : s'.self.status ≡ get_or status s.self.status
  pub offset_now : s'.self.event_offset ≡ (assign event_offset status s).self.event_offset
  pub synced : IsSynced s'
  pub same_events : SameEvents s.store s'.store
  pub same_others : SameOthers s s'

pub save-IsSaved :
    (env : Environment) (event_offset : Option ℕ) (status : Option TransactionStatus) (s : Scope)
    → MayBecome s (get_or status s.self.status)
    → ((save env event_offset status s).0 ≡ return tt)
      × IsSaved event_offset status s (save env event_offset status s).1
unfolding save
save-IsSaved env event_offset status s may =
    let a = assign event_offset status s in
    let self = submit-self env a in
    elim (submit-cases env a) [
      | inr (refused, _, _) ↦ absurd (refused may)
      | inl (_, returned, found, kept) ↦ (
        returned,
        record {
          status_now = ap (λ (t : TransactionEntry). t.status) self;
          offset_now = ap (λ (t : TransactionEntry). t.event_offset) self;
          synced = rw self found;
          same_events = submit-SameEvents env a;
          same_others = record {
            uuid = ap (λ (t : TransactionEntry). t.uuid) self;
            destination = ap (λ (t : TransactionEntry). t.destination_uuid) self;
            autocommit = ap (λ (t : TransactionEntry). t.autocommit) self;
            others = kept;
          };
        },
      )
    ]

-- A save that the stored status does not admit changes no stored transaction.
pub save_refused :
    (env : Environment) (event_offset : Option ℕ) (status : Option TransactionStatus) (s : Scope)
    → ¬ MayBecome s (get_or status s.self.status)
    → ((save env event_offset status s).0 ≡ raise transaction_conflict)
      × ((save env event_offset status s).1.store.transactions ≡ s.store.transactions)
unfolding save
save_refused env event_offset status s may_not =
    elim (submit-cases env (assign event_offset status s)) [
      | inr (_, raised, same) ↦ (raised, same)
      | inl (may, _, _, _) ↦ absurd (may_not may)
    ]

-- Whatever becomes of a save, the status is assigned to the object.
pub save_status :
    (env : Environment) (event_offset : Option ℕ) (status : Option TransactionStatus) (s : Scope)
    → (save env event_offset status s).1.self.status ≡ get_or status s.self.status
unfolding save
save_status env event_offset status s =
    ap (λ (t : TransactionEntry). t.status) (submit-self env (assign event_offset status s))

-- A save is admitted by the stored status or it is not.
pub MayBecome-cases :
    (s : Scope) (status : TransactionStatus) → MayBecome s status ⊎ (¬ MayBecome s status)
MayBecome-cases s status =
    elim (Admits-cases (find_transaction s.self.uuid s.store.transactions) status) [
      | inl (may, _) ↦ inl may
      | inr (may_not, _) ↦ inr may_not
    ]

pub synced-MayBecome :
    (s : Scope) {old new : TransactionStatus}
    → IsSynced s
    → s.self.status ≡ old
    → Moves old new
    → MayBecome s new
synced-MayBecome s {old} {new} synced e m = rw synced (subst (λ st. Moves st new) (sym e) m)

-- Whatever becomes of a save, no event is touched.
pub save-SameEvents :
    (env : Environment) (event_offset : Option ℕ) (status : Option TransactionStatus) (s : Scope)
    → SameEvents s.store (save env event_offset status s).1.store
unfolding save
save-SameEvents env event_offset status s = submit-SameEvents env (assign event_offset status s)
