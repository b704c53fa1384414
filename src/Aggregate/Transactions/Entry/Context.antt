-- ===== src/Aggregate/Transactions/Entry/Context.antt =====
-- A transaction as a context manager: what the context variable holds.
use minos_python.Base.{◌≡◌, refl, ap, ◌∙◌, true, false, none, some, arith, ◌==◌, return, raise}
use minos_python.Aggregate.Store.{pending, is_status, Environment, transaction_conflict, Scope}
use minos_python.Aggregate.Transactions.Entry.{save, outer_uuid, set_context, enter, exit}
use minos_python.Aggregate.Transactions.Entry.Saving.{
  IsSynced, MayBecome, save-IsSaved, save_refused, save-SameEvents,
}

-- The entry may be entered: it is pending, on top of its destination.
abbrev pub IsEnterable : Scope → Type 0
IsEnterable s = (s.self.status ≡ pending) × (outer_uuid s.store.context ≡ s.self.destination_uuid)

enterable :
    (s : Scope)
    → IsEnterable s
    → (is_status s.self.status pending ≡ true)
      × ((outer_uuid s.store.context == s.self.destination_uuid) ≡ true)
enterable s (e, f) = (ap (λ st. is_status st pending) e, ground arith)

-- A transaction that is entered and left again, without autocommit, is the current one in between,
-- is stored as pending, and leaves behind the context that it found.
pub enter-exit :
    (env : Environment) (s : Scope)
    → IsEnterable s
    → MayBecome s pending
    → s.self.autocommit ≡ false
    → let (r, m) = enter env s in
      let (r', s') = exit env s.store.context m in
      (r ≡ return s.store.context)
      × (m.store.context ≡ some s.self)
      × IsSynced m
      × (m.self.status ≡ pending)
      × (r' ≡ return tt)
      × (s'.store.context ≡ s.store.context)
unfolding enter exit
enter-exit env s ok may manual =
    let (is, on_top) = enterable s ok in
    let z = set_context (some s.self) s in
    let (returned, a) = save-IsSaved env none none z (rw ok.0 may) in
    let auto : (save env none none z).1.self.autocommit ≡ false =
      a.same_others.autocommit ∙ manual in
    rw (is, on_top, returned, auto)
      (refl, a.same_events.context, a.synced, a.status_now ∙ ok.0, refl, refl)

-- When the repository refuses the transaction that is being entered, the exception leaves the
-- context variable at that transaction: `__aexit__` is not called, and nothing resets it.
pub enter-refused :
    (env : Environment) (s : Scope)
    → IsEnterable s
    → ¬ MayBecome s pending
    → let (r, s') = enter env s in
      (r ≡ raise transaction_conflict) × (s'.store.context ≡ some s.self)
unfolding enter
enter-refused env s ok may_not =
    let (is, on_top) = enterable s ok in
    let z = set_context (some s.self) s in
    let (raised, _) = save_refused env none none z (rw ok.0 may_not) in
    rw (is, on_top, raised) (refl, (save-SameEvents env none none z).context)
