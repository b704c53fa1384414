-- ===== src/Aggregate/Transactions/Entry/Validation.antt =====
-- What `validate` decides, without its early returns and its accumulated set of identifiers.
use minos_python.Base.{
  ℕ, ◌≡◌, refl, sym, ap, append-nil, ◌∙◌, Bool, true, false, not, ◌&&◌, ◌||◌, none, some, List, [],
  ◌∷◌, ◌++◌, map, arith, inl, inr, ◌==◌, Bool-cases, if◌then◌else◌, is_empty, select_if, any_of,
  contains, any_of-congr, any_of-select_if, any_of-append, is_empty-select_if, any_of-middle,
  any_of-false, append_assoc,
}
use mathlib.Core.Path.{ap₂}
use minos_python.Aggregate.Store.{Uuid, StoredEvent, TransactionEntry, Store, status_in}
use minos_python.Aggregate.Events.Repository as Events
use minos_python.Aggregate.Transactions.Repository as Repository
use minos_python.Aggregate.Transactions.Entry.Versions.{
  greatest, version_of, IsKeyed, written, version_of-written, written-IsKeyed, version_of_middle,
}
use minos_python.Aggregate.Transactions.Entry.{
  closed_statuses, occupied_statuses, collect, collect_all, has_no_rival, validate,
}

-- The event is for version `v` of the entity `u`.
abbrev pub is_at : Uuid × ℕ → StoredEvent → Bool
is_at (u, v) e = u == e.uuid && v == e.version

-- The transaction of the destination has begun to close.
abbrev pub is_closed : Uuid → Store → Bool
is_closed destination s =
    any_of (λ (x : TransactionEntry). destination == x.uuid && status_in x.status closed_statuses)
      s.transactions

-- The destination has an event for one of the versions.
abbrev pub collides : Uuid → List (Uuid × ℕ) → Store → Bool
collides destination d s =
    any_of
      (λ (p : Uuid × ℕ).
        any_of (λ (e : StoredEvent). is_at p e && e.transaction_uuid == destination) s.events)
      d

-- The transaction `x`, other than `self`, has an event for one of the versions.
abbrev pub competes : Uuid → Uuid → List (Uuid × ℕ) → Store → Bool
competes self x d s =
    any_of
      (λ (p : Uuid × ℕ).
        any_of
          (λ (e : StoredEvent).
            is_at p e && (not (e.transaction_uuid == self) && x == e.transaction_uuid))
          s.events)
      d

-- A transaction with the same destination competes, and is about to commit or has committed.
abbrev pub has_rival : Uuid → Uuid → List (Uuid × ℕ) → Store → Bool
has_rival self destination d s =
    any_of
      (λ (x : TransactionEntry).
        competes self x.uuid d s
        && (destination == x.destination_uuid && status_in x.status occupied_statuses))
      s.transactions

-- The events for one version, under a further test.
any_of-at :
    (p : Uuid × ℕ) (q : StoredEvent → Bool) (s : Store)
    → any_of q
        (Events.select (record Events.no_event_filter { uuid = some p.0; version = some p.1 }) s)
      ≡ any_of (λ (e : StoredEvent). is_at p e && q e) s.events
unfolding Events.select Events.fn_filter
any_of-at p q s =
    any_of-select_if q
      (Events.fn_filter (record Events.no_event_filter { uuid = some p.0; version = some p.1 }))
      s.events
    ∙ any_of-congr _ _ s.events (λ e. ground arith)

module _ (self destination : Uuid) where
  -- The identifiers that the inner loop adds.
  abbrev others : List StoredEvent → List Uuid
  others es =
      map (λ (e : StoredEvent). e.transaction_uuid)
        (select_if (λ (e : StoredEvent). not (e.transaction_uuid == self)) es)

  collect_lem :
      (acc : List Uuid) (es : List StoredEvent)
      → collect self destination acc es ≡ (
          if any_of (λ (e : StoredEvent). e.transaction_uuid == destination) es
          then none
          else some (acc ++ others es))
  collect_lem acc [] = ap some (sym (append-nil acc))
  collect_lem acc (e ∷ es) = ground (
    arith,
    collect_lem acc es,
    collect_lem (acc ++ (e.transaction_uuid ∷ [])) es,
    append_assoc acc (e.transaction_uuid ∷ []) (others es),
  )

  contains-others :
      (x : Uuid) (es : List StoredEvent)
      → contains x (others es)
        ≡ any_of
            (λ (e : StoredEvent). not (e.transaction_uuid == self) && x == e.transaction_uuid)
            es
  contains-others x [] = refl
  contains-others x (e ∷ es) = ground (arith, contains-others x es)

  -- The events that the code selects for one version.
  abbrev selected : Store → Uuid × ℕ → List StoredEvent
  selected s p =
      Events.select (record Events.no_event_filter { uuid = some p.0; version = some p.1 }) s

  all_others : Store → List (Uuid × ℕ) → List Uuid
  all_others s [] = []
  all_others s (p ∷ d) = others (selected s p) ++ all_others s d

  collect_all_lem :
      (s : Store) (acc : List Uuid) (d : List (Uuid × ℕ))
      → collect_all s self destination acc d
        ≡ (if collides destination d s then none else some (acc ++ all_others s d))
  unfolding collect_all all_others
  collect_all_lem s acc [] = ap some (sym (append-nil acc))
  collect_all_lem s acc (p ∷ d) =
      let here = any_of-at p (λ (e : StoredEvent). e.transaction_uuid == destination) s in
      let step = collect_lem acc (selected s p) in
      elim (Bool-cases
        (any_of (λ (e : StoredEvent). is_at p e && e.transaction_uuid == destination) s.events)) [
          | inl hit ↦ rw (step, here, hit, collect_all)
          | inr miss ↦
              rw (step, here, miss, collect_all)
                (collect_all_lem s (acc ++ others (selected s p)) d
                  ∙ rw (append_assoc acc (others (selected s p)) (all_others s d)))
        ]

  contains-all_others :
      (s : Store) (x : Uuid) (d : List (Uuid × ℕ))
      → contains x (all_others s d) ≡ competes self x d s
  unfolding all_others
  contains-all_others s x [] = refl
  contains-all_others s x (p ∷ d) =
      any_of-append (λ m. x == m) (others (selected s p)) (all_others s d)
      ∙ ap₂ (λ a b. a || b)
          (contains-others x (selected s p)
            ∙ any_of-at p
                (λ (e : StoredEvent). not (e.transaction_uuid == self) && x == e.transaction_uuid)
                s)
          (contains-all_others s x d)

is_closed-select :
    (destination : Uuid) (s : Store)
    → is_empty (
        Repository.select
          (record Repository.no_filter { uuid = some destination; among = some closed_statuses })
          s)
      ≡ not (is_closed destination s)
unfolding Repository.select Repository.fn_filter
is_closed-select destination s =
    is_empty-select_if _ s.transactions
    ∙ ap not (any_of-congr _ _ s.transactions (λ x. ground arith))

rival-select :
    (destination : Uuid) (us : List Uuid) (s : Store)
    → has_no_rival s destination (some us)
      ≡ not (
          any_of
            (λ (x : TransactionEntry).
              contains x.uuid us
              && (destination == x.destination_uuid && status_in x.status occupied_statuses))
            s.transactions)
unfolding has_no_rival Repository.select Repository.fn_filter
rival-select destination [] s = ap not (sym (any_of-false s.transactions))
rival-select destination (u ∷ us) s =
    is_empty-select_if _ s.transactions
    ∙ ap not (any_of-congr _ _ s.transactions (λ x. ground arith))

-- What `validate` decides, and about which versions.
pub record Validated (t : TransactionEntry) (s : Store) (answer : Bool) : Type 0 where
  pub decided :
      answer
      ≡ not (is_closed t.destination_uuid s)
        && (not (collides t.destination_uuid (written t s) s)
            && not (has_rival t.uuid t.destination_uuid (written t s) s))
  pub versions : (u : Uuid) → version_of u (written t s) ≡ greatest t.uuid u s.events
  pub once : IsKeyed (written t s)

validate-decided :
    (t : TransactionEntry) (s : Store)
    → validate t s
      ≡ not (is_closed t.destination_uuid s)
        && (not (collides t.destination_uuid (written t s) s)
            && not (has_rival t.uuid t.destination_uuid (written t s) s))
unfolding validate has_no_rival
validate-decided t s =
    let d = written t s in
    elim (Bool-cases (is_closed t.destination_uuid s)) [
      | inl closed ↦ rw (is_closed-select t.destination_uuid s, closed)
      | inr opened ↦
          rw
            (
              is_closed-select t.destination_uuid s,
              opened,
              collect_all_lem t.uuid t.destination_uuid s [] d,
            )
            (decide d)
    ]
  where
    decide :
        (d : List (Uuid × ℕ))
        → has_no_rival s t.destination_uuid (
            if collides t.destination_uuid d s
            then none
            else some (all_others t.uuid t.destination_uuid s d))
          ≡ not (collides t.destination_uuid d s) && not (has_rival t.uuid t.destination_uuid d s)
    decide d = elim (Bool-cases (collides t.destination_uuid d s)) [
      | inl hit ↦ rw hit
      | inr miss ↦ rw miss (
          rival-select t.destination_uuid (all_others t.uuid t.destination_uuid s d) s
          ∙ ap not (
              any_of-congr _ _ s.transactions
                (λ x. rw (contains-all_others t.uuid t.destination_uuid s x.uuid d))))
    ]

-- A transaction is committable exactly if its destination has not begun to close, the destination has
-- no event for any of the versions that are looked at, and no rival has: a transaction with the same
-- destination that is about to commit or has committed. The versions that are looked at are, for each
-- entity, the greatest one that the transaction wrote, and no other.
pub validate_lem : (t : TransactionEntry) (s : Store) → Validated t s (validate t s)
validate_lem t s = record {
  decided = validate-decided t s;
  versions = version_of-written t s;
  once = written-IsKeyed t s;
}

-- A transaction is not committable if the greatest version that it wrote for an entity is one that its
-- destination has for that entity.
pub validate-collision :
    (t : TransactionEntry) (s : Store) (u : Uuid) (v : ℕ) (earlier later : List StoredEvent)
    (e : StoredEvent)
    → greatest t.uuid u s.events ≡ some v
    → s.events ≡ earlier ++ (e ∷ later)
    → e.uuid ≡ u
    → e.version ≡ v
    → e.transaction_uuid ≡ t.destination_uuid
    → validate t s ≡ false
validate-collision t s u v earlier later e wrote stored eu ev et =
    let (before, after, split) =
      version_of_middle u v (written t s) (version_of-written t s u ∙ wrote) in
    let here : is_at (u, v) e && e.transaction_uuid == t.destination_uuid ≡ true = ground arith in
    let hit : any_of
          (λ (x : StoredEvent). is_at (u, v) x && x.transaction_uuid == t.destination_uuid) s.events
        ≡ true =
      rw stored (any_of-middle _ earlier e later here) in
    let collision : collides t.destination_uuid (written t s) s ≡ true = rw split (
      any_of-middle
        (λ (p : Uuid × ℕ).
          any_of (λ (x : StoredEvent). is_at p x && x.transaction_uuid == t.destination_uuid)
            s.events)
        before (u, v) after hit) in
    ground (arith, validate-decided t s, collision)
