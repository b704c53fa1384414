-- ===== src/Aggregate/Events/Repository/Outcome.antt =====
-- What a submission does to the store, on each of its branches.
use minos_python.Base.{
  ℕ, ◌+◌, ◌≤◌, ◌≡◌, refl, ap, ◌∙◌, when, ◌⊎◌, inl, inr, true, false, Option, none, some, List, [],
  ◌∷◌, ◌++◌, arith, ltb→le, ltb→lt, ◌<◌, sym, append-nil, ◌==◌, ltb, if◌then◌else◌, get_or,
  Bool-cases, Result, return, raise,
}
use minos_python.Aggregate.Store.{
  Uuid, null_uuid, EventAction, EventEntry, StoredEvent, Notification, Store, Environment, Error,
  event_repository, event_conflict,
}
use minos_python.Aggregate.Events.Repository.Blocking.{is_blocked, validate-is_blocked}
use minos_python.Aggregate.Events.Repository.{
  offset, next_version, counted, as_stored, store_entry, with_uuid, submit_entry, notifications,
  send_events, submit_checked, submit_action, submit,
}

-- The messages for an entry that was stored: none inside a transaction.
abbrev pub sent : Environment → StoredEvent → List Notification
sent env e = if e.transaction_uuid == null_uuid then notifications env e else []

-- `e` is what `entry`, whose identifier is set, becomes when it is stored in `s`.
pub record IsStored (env : Environment) (entry : EventEntry) (action : EventAction) (s : Store)
    (e : StoredEvent) : Type 0 where
  pub uuid : e.uuid ≡ entry.uuid
  pub name : e.name ≡ entry.name
  pub payload : e.payload ≡ entry.payload
  pub transaction_uuid : e.transaction_uuid ≡ entry.transaction_uuid
  pub action_kept : e.action ≡ action
  pub version : e.version ≡ get_or entry.version (next_version entry s)
  pub fits : next_version entry s ≤ e.version
  pub id : e.id ≡ s.generated + 1

-- The store after the entry was added.
pub record IsAdded (entry : EventEntry) (s : Store) (messages : List Notification) (e : StoredEvent)
    (s' : Store) : Type 0 where
  pub events : s'.events ≡ s.events ++ (e ∷ [])
  pub generated : s'.generated ≡ s.generated + 1
  pub counters : s'.next_versions ≡ counted entry s
  pub transactions : s'.transactions ≡ s.transactions
  pub context : s'.context ≡ s.context
  pub published : s'.published ≡ s.published ++ messages

-- The store after a refused attempt: `counters` tells whether the attempt was counted.
pub record IsRefused (counters : ℕ → Uuid → Uuid → ℕ) (s s' : Store) : Type 0 where
  pub events : s'.events ≡ s.events
  pub generated : s'.generated ≡ s.generated
  pub counters_now : s'.next_versions ≡ counters
  pub transactions : s'.transactions ≡ s.transactions
  pub context : s'.context ≡ s.context
  pub published : s'.published ≡ s.published

store_entry-cases :
    (env : Environment) (entry : EventEntry) (action : EventAction) (s : Store)
    → let (r, s') = store_entry env entry action s in
      ((e : StoredEvent) × (r ≡ return e) × IsStored env entry action s e × IsAdded entry s [] e s')
      ⊎ (get_or entry.version (next_version entry s) < next_version entry s)
        × (r ≡ raise (event_conflict (offset s)))
        × IsRefused (counted entry s) s s'
unfolding store_entry
store_entry-cases env entry action s =
    let e = as_stored env entry action s in
    elim (Bool-cases (ltb e.version (next_version entry s))) [
      | inl low ↦ rw low (inr (ltb→lt _ _ low, refl, refused))
      | inr high ↦ rw high (inl (e, refl, stored high, added))
    ]
  where
    refused :
        IsRefused
          (counted entry s)
          s
          (record s { next_versions = counted entry s; ticks = s.ticks + 1 })
    refused = ground arith

    stored :
        ltb (get_or entry.version (next_version entry s)) (next_version entry s) ≡ false
        → IsStored env entry action s (as_stored env entry action s)
    stored high = record {
      uuid = refl;
      name = refl;
      payload = refl;
      transaction_uuid = refl;
      action_kept = refl;
      version = refl;
      fits = ltb→le _ _ high;
      id = refl;
    }

    added : IsAdded entry s [] (as_stored env entry action s) (record s {
      events = s.events ++ (as_stored env entry action s ∷ []);
      generated = s.generated + 1;
      next_versions = counted entry s;
      ticks = s.ticks + 1;
    })
    added = record {
      events = refl;
      generated = refl;
      counters = refl;
      transactions = refl;
      context = refl;
      published = sym (append-nil s.published);
    }

-- What a call of `submit` can do: it stores the entry, numbers it, and sends the messages of an entry
-- outside of every transaction; or its version is too low, and only the counter of versions has
-- moved; or `validate` refuses it; or it has no action.
pub data Submitted (env : Environment) (entry : EventEntry) (ne : Option Uuid) (s : Store)
    (r : Result Error StoredEvent) (s' : Store) : Type 0 where
  accepted :
      (action : EventAction) (e : StoredEvent)
      → entry.action ≡ some action
      → is_blocked entry.uuid entry.transaction_uuid ne s.transactions s.events ≡ false
      → r ≡ return e
      → IsStored env (with_uuid env entry s) action s e
      → IsAdded (with_uuid env entry s) s (sent env e) e s'
      → Submitted env entry ne s r s'
  too_low :
      is_blocked entry.uuid entry.transaction_uuid ne s.transactions s.events ≡ false
      → get_or entry.version (next_version (with_uuid env entry s) s)
        < next_version (with_uuid env entry s) s
      → r ≡ raise (event_conflict (offset s))
      → IsRefused (counted (with_uuid env entry s) s) s s'
      → Submitted env entry ne s r s'
  blocked :
      is_blocked entry.uuid entry.transaction_uuid ne s.transactions s.events ≡ true
      → r ≡ raise (event_conflict (offset s))
      → s' ≡ s
      → Submitted env entry ne s r s'
  no_action :
      entry.action ≡ none → r ≡ raise event_repository → s' ≡ s → Submitted env entry ne s r s'

-- Sending messages touches nothing else.
announced :
    (env : Environment) (entry : EventEntry) (s : Store) (e : StoredEvent) (m : Store)
    → IsAdded entry s [] e m
    → IsAdded entry s (sent env e) e (record m { published = m.published ++ sent env e })
announced env entry s e m a = record {
  events = a.events;
  generated = a.generated;
  counters = a.counters;
  transactions = a.transactions;
  context = a.context;
  published = ap (λ l. l ++ sent env e) (a.published ∙ append-nil s.published);
}

unsent :
    (env : Environment) (e : StoredEvent) (m : Store)
    → (when (e.transaction_uuid == null_uuid) (send_events env e) m)
      ≡ (return tt, record m { published = m.published ++ sent env e })
unfolding send_events
unsent env e m = elim (Bool-cases (e.transaction_uuid == null_uuid)) [
  | inl root ↦ rw root
  | inr inner ↦ rw inner (rw (append-nil m.published))
]

submit_checked-cases :
    (env : Environment) (entry : EventEntry) (action : EventAction) (ne : Option Uuid) (s : Store)
    → entry.action ≡ some action
    → let (r, s') = submit_checked env entry action ne s in Submitted env entry ne s r s'
unfolding submit_checked submit_entry
submit_checked-cases env entry action ne s e =
    let valid = validate-is_blocked entry ne s in
    elim (Bool-cases (is_blocked entry.uuid entry.transaction_uuid ne s.transactions s.events)) [
      | inl bad ↦ rw (valid, bad) (blocked bad refl refl)
      | inr good ↦ elim (store_entry-cases env (with_uuid env entry s) action s) [
        | inr (low, raised, refused) ↦ rw (valid, good, raised) (too_low good low refl refused)
        | inl (stored, returned, is, added) ↦
            let m = (store_entry env (with_uuid env entry s) action s).1 in
            rw (valid, good, returned, unsent env stored m)
              (accepted action stored e good refl is
                (announced env (with_uuid env entry s) s stored m added))
      ]
    ]

submit_action-cases :
    (env : Environment) (entry : EventEntry) (ne : Option Uuid) (s : Store)
    (action : Option EventAction)
    → entry.action ≡ action
    → let (r, s') = submit_action env entry ne action s in Submitted env entry ne s r s'
unfolding submit_action
submit_action-cases env entry ne s none e = no_action e refl refl
submit_action-cases env entry ne s (some action) e = submit_checked-cases env entry action ne s e

-- Every call of `submit` ends in one of four ways. The entry is not blocked, its version is not below
-- the next one of its slot, and it is added with the next identifier; an entry outside of every
-- transaction is also announced. Or it is not blocked but its version is below the next one: a
-- conflict is raised, and only the counter of its slot has moved. Or it is blocked, since a
-- transaction that is about to write to its destination, other than the one to be skipped, has an
-- event of its entity, and a conflict is raised; or it has no action; and nothing has changed.
pub submit-Submitted :
    (env : Environment) (entry : EventEntry) (ne : Option Uuid) (s : Store)
    → let (r, s') = submit env entry ne s in Submitted env entry ne s r s'
unfolding submit
submit-Submitted env entry ne s = submit_action-cases env entry ne s entry.action refl
