-- ===== src/Aggregate/Transactions/Repository/Lifecycle.antt =====
-- The life of a stored transaction: which changes of status the repository takes.
use native.Mathlib.Decide.{ℕ_discrete}
use minos_python.Base.{
  ◌≡◌, refl, ◌≢◌, ◌⊎◌, subst, ap, sym, ◌∙◌, inl, inr, true, false, Option, none, some, List, [],
  ◌∷◌, Bool-cases, return, raise,
}
use minos_python.Aggregate.Store.{
  Uuid, TransactionStatus, pending, reserving, reserved, committing, committed, rejected,
  TransactionEntry, Store, Environment, transaction_conflict, Scope,
}
use minos_python.Aggregate.Transactions.Repository.{
  find_transaction, is_invalid, is_refused, stored_copy, submit,
}
use minos_python.Aggregate.Transactions.Repository.Table.{find-put_self, find-put_ne}

-- The documented life: a pending transaction is reserved and then committed, and may be rejected at
-- any time before it is committing.
pub data Moves : TransactionStatus → TransactionStatus → Type 0 where
  update_pending : Moves pending pending
  begin_reserve : Moves pending reserving
  drop_pending : Moves pending rejected
  end_reserve : Moves reserving reserved
  drop_reserving : Moves reserving rejected
  begin_commit : Moves reserved committing
  drop_reserved : Moves reserved rejected
  end_commit : Moves committing committed

-- What may be stored over what is there.
abbrev pub Admits : Option TransactionEntry → TransactionStatus → Type 0
Admits none new = Unit
Admits (some old) new = Moves old.status new

valid-Moves : (a b : TransactionStatus) → is_invalid a b ≡ false → Moves a b
unfolding is_invalid
valid-Moves pending pending h = update_pending
valid-Moves pending reserving h = begin_reserve
valid-Moves pending rejected h = drop_pending
valid-Moves reserving reserved h = end_reserve
valid-Moves reserving rejected h = drop_reserving
valid-Moves reserved committing h = begin_commit
valid-Moves reserved rejected h = drop_reserved
valid-Moves committing committed h = end_commit
valid-Moves _ _ h = cc

Moves-valid : {a b : TransactionStatus} → Moves a b → is_invalid a b ≡ false
unfolding is_invalid
Moves-valid update_pending = refl
Moves-valid begin_reserve = refl
Moves-valid drop_pending = refl
Moves-valid end_reserve = refl
Moves-valid drop_reserving = refl
Moves-valid begin_commit = refl
Moves-valid drop_reserved = refl
Moves-valid end_commit = refl

pub Admits-cases :
    (o : Option TransactionEntry) (new : TransactionStatus)
    → Admits o new × (is_refused o new ≡ false) ⊎ ¬ Admits o new × (is_refused o new ≡ true)
Admits-cases none new = inl (tt, refl)
Admits-cases (some old) new = elim (Bool-cases (is_invalid old.status new)) [
  | inl bad ↦ inr (λ m. cc (Moves-valid m), bad)
  | inr good ↦ inl (valid-Moves old.status new good, good)
]

-- The entry that a call stores: the given one, with the time of the call.
abbrev pub stamped : Environment → Scope → TransactionEntry
stamped env s =
    stored_copy (record (s.self) { updated_at = some (env.current_datetime s.store.ticks) })

-- A call of `_submit` whose status the documented life admits returns, the entry is found under its
-- identifier, and no other identifier is touched; any other call raises and stores nothing.
pub submit-cases :
    (env : Environment) (s : Scope)
    → let (r, s') = submit env s in
      let old = find_transaction s.self.uuid s.store.transactions in
      Admits old s.self.status
        × (r ≡ return tt)
        × (find_transaction s.self.uuid s'.store.transactions ≡ some (stamped env s))
        × ((u : Uuid)
            → u ≢ s.self.uuid
            → find_transaction u s'.store.transactions ≡ find_transaction u s.store.transactions)
      ⊎ (¬ Admits old s.self.status)
        × (r ≡ raise transaction_conflict)
        × (s'.store.transactions ≡ s.store.transactions)
unfolding submit
submit-cases env s =
    elim (Admits-cases (find_transaction s.self.uuid s.store.transactions) s.self.status) [
      | inl (m, good) ↦ rw good (
          inl (
            m,
            refl,
            find-put_self (stamped env s) s.store.transactions,
            λ u ne. find-put_ne u (stamped env s) s.store.transactions ne,
          ))
      | inr (n, bad) ↦ rw bad (inr (n, refl, refl))
    ]

-- Whatever a list of callers submit, one after another; an exception stops only its own caller.
abbrev pub submit_all : Environment → List TransactionEntry → Store → Store
submit_all env [] s = s
submit_all env (t ∷ ts) s = submit_all env ts (submit env (record { self = t; store = s })).1.store

-- Some number of admitted changes.
pub data Reaches (a : TransactionStatus) : TransactionStatus → Type 0 where
  here : Reaches a a
  next : {b c : TransactionStatus} → Reaches a b → Moves b c → Reaches a c

Reaches-trans : {a b c : TransactionStatus} → Reaches a b → Reaches b c → Reaches a c
Reaches-trans r here = r
Reaches-trans r (next q m) = next (Reaches-trans r q) m

-- What has become of an entry with status `a`.
abbrev pub FoundAt : Uuid → Store → TransactionStatus → Type 0
FoundAt u s a =
    (t : TransactionEntry) × (find_transaction u s.transactions ≡ some t) × Reaches a t.status

Admits-found :
    (u v : Uuid) (ts : List TransactionEntry) (new : TransactionStatus) {old : TransactionEntry}
    → find_transaction u ts ≡ some old
    → u ≡ v
    → Admits (find_transaction v ts) new
    → Moves old.status new
Admits-found u v ts new {old} e same m =
    subst (λ o. Admits o new) {y = some old} (ap (λ w. find_transaction w ts) (sym same) ∙ e) m

submit-FoundAt :
    (env : Environment) (u : Uuid) (t : TransactionEntry) (s : Store) (old : TransactionEntry)
    → find_transaction u s.transactions ≡ some old
    → FoundAt u (submit env (record { self = t; store = s })).1.store old.status
submit-FoundAt env u t s old e = elim (submit-cases env (record { self = t; store = s })) [
  | inl (m, _, found, kept) ↦ elim (ℕ_discrete u t.uuid) [
    | yes same ↦ (
      stamped env (record { self = t; store = s }),
      rw same found,
      next here (Admits-found u t.uuid s.transactions t.status e same m),
    )
    | no other ↦ (old, kept u other ∙ e, here)
  ]
  | inr (_, _, unchanged) ↦ (old, rw unchanged e, here)
]

-- Whoever submits whatever, a stored transaction is never lost, and its status follows the
-- documented life: it is reached from the earlier one by admitted changes.
pub submit_all-FoundAt :
    (env : Environment) (u : Uuid) (ts : List TransactionEntry) (s : Store) (old : TransactionEntry)
    → find_transaction u s.transactions ≡ some old
    → FoundAt u (submit_all env ts s) old.status
submit_all-FoundAt env u [] s old e = (old, e, here)
submit_all-FoundAt env u (t ∷ ts) s old e =
    let (mid, found, r) = submit-FoundAt env u t s old e in
    let (last, found', r') =
      submit_all-FoundAt env u ts (submit env (record { self = t; store = s })).1.store mid found in
    (last, found', Reaches-trans r r')

abbrev pub IsFinal : TransactionStatus → Type 0
IsFinal committed = Unit
IsFinal rejected = Unit
IsFinal _ = ⊥

pub Moves-not-IsFinal : {a b : TransactionStatus} → Moves a b → ¬ IsFinal a
Moves-not-IsFinal update_pending h = h
Moves-not-IsFinal begin_reserve h = h
Moves-not-IsFinal drop_pending h = h
Moves-not-IsFinal end_reserve h = h
Moves-not-IsFinal drop_reserving h = h
Moves-not-IsFinal begin_commit h = h
Moves-not-IsFinal drop_reserved h = h
Moves-not-IsFinal end_commit h = h

submit-final :
    (env : Environment) (u : Uuid) (t : TransactionEntry) (s : Store) (old : TransactionEntry)
    → find_transaction u s.transactions ≡ some old
    → IsFinal old.status
    → find_transaction u (submit env (record { self = t; store = s })).1.store.transactions
      ≡ some old
submit-final env u t s old e final = elim (submit-cases env (record { self = t; store = s })) [
  | inl (m, _, found, kept) ↦ elim (ℕ_discrete u t.uuid) [
    | yes same ↦
        absurd (Moves-not-IsFinal (Admits-found u t.uuid s.transactions t.status e same m) final)
    | no other ↦ kept u other ∙ e
  ]
  | inr (_, _, unchanged) ↦ rw unchanged e
]

-- A committed or rejected transaction stays exactly as it was stored, whatever is submitted.
pub submit_all-final :
    (env : Environment) (u : Uuid) (ts : List TransactionEntry) (s : Store) (old : TransactionEntry)
    → find_transaction u s.transactions ≡ some old
    → IsFinal old.status
    → find_transaction u (submit_all env ts s).transactions ≡ some old
submit_all-final env u [] s old e final = e
submit_all-final env u (t ∷ ts) s old e final =
    submit_all-final env u ts (submit env (record { self = t; store = s })).1.store old
      (submit-final env u t s old e final) final
