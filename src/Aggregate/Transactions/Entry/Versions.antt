-- ===== src/Aggregate/Transactions/Entry/Versions.antt =====
-- Which versions `validate` of a transaction looks at.
use minos_python.Base.{
  ℕ, ◌≡◌, refl, ap, ◌∙◌, Bool, ◌&&◌, Option, none, some, List, [], ◌∷◌, ◌++◌, arith, inl, inr, ◌==◌,
  ltb, select_if, Bool-cases, if◌then◌else◌,
}
use minos_python.Aggregate.Store.{Uuid, StoredEvent, TransactionEntry, Store}
use minos_python.Aggregate.Events.Repository as Events
use minos_python.Aggregate.Transactions.Entry.{record_version, latest_versions, own_events}

-- The greater of a version and one that may be there.
abbrev pub larger : ℕ → Option ℕ → Option ℕ
larger v none = some v
larger v (some w) = some (if ltb v w then w else v)

-- The greatest version of the entity `u` among the events of the transaction `t`.
abbrev pub greatest : Uuid → Uuid → List StoredEvent → Option ℕ
greatest t u [] = none
greatest t u (e ∷ es) =
    if e.transaction_uuid == t && e.uuid == u
    then larger e.version (greatest t u es)
    else greatest t u es

abbrev pub version_of : Uuid → List (Uuid × ℕ) → Option ℕ
version_of u [] = none
version_of u ((u', v) ∷ d) = if u' == u then some v else version_of u d

-- Each entity is there once.
abbrev pub IsKeyed : List (Uuid × ℕ) → Type 0
IsKeyed [] = Unit
IsKeyed ((u, v) ∷ d) = (version_of u d ≡ none) × IsKeyed d

-- The versions that `validate` looks at.
abbrev pub written : TransactionEntry → Store → List (Uuid × ℕ)
written t s = latest_versions [] (own_events t.uuid s)

abbrev merge : Option ℕ → Option ℕ → Option ℕ
merge none b = b
merge (some w) b = larger w b

abbrev top : Uuid → List StoredEvent → Option ℕ
top u [] = none
top u (e ∷ es) = if e.uuid == u then larger e.version (top u es) else top u es

version_of-record_version :
    (x : Uuid) (d : List (Uuid × ℕ)) (u : Uuid) (v : ℕ)
    → version_of x (record_version d u v)
      ≡ (if u == x then larger v (version_of x d) else version_of x d)
version_of-record_version x [] u v = refl
version_of-record_version x ((u', w) ∷ d) u v = ground (arith, version_of-record_version x d u v)

record_version-IsKeyed :
    (d : List (Uuid × ℕ)) (u : Uuid) (v : ℕ) → IsKeyed d → IsKeyed (record_version d u v)
record_version-IsKeyed [] u v h = (refl, tt)
record_version-IsKeyed ((u', w) ∷ d) u v h = elim (Bool-cases (u' == u)) [
  | inl same ↦ elim (Bool-cases (ltb v w)) [ inl lt ↦ rw (same, lt) h | inr ge ↦ rw (same, ge) h ]
  | inr other ↦
      rw other
        (ground (arith, version_of-record_version u' d u v, h.0), record_version-IsKeyed d u v h.1)
]

latest_versions-IsKeyed :
    (d : List (Uuid × ℕ)) (es : List StoredEvent) → IsKeyed d → IsKeyed (latest_versions d es)
latest_versions-IsKeyed d [] h = h
latest_versions-IsKeyed d (e ∷ es) h =
    latest_versions-IsKeyed (record_version d e.uuid e.version) es
      (record_version-IsKeyed d e.uuid e.version h)

merge-larger : (v : ℕ) (a b : Option ℕ) → merge (larger v a) b ≡ merge a (larger v b)
merge-larger v none b = refl
merge-larger v (some w) none = ground arith
merge-larger v (some w) (some u) = ground arith

merge-none : (o : Option ℕ) → o ≡ merge o none
merge-none none = refl
merge-none (some w) = refl

version_of-latest_versions :
    (x : Uuid) (d : List (Uuid × ℕ)) (es : List StoredEvent)
    → version_of x (latest_versions d es) ≡ merge (version_of x d) (top x es)
version_of-latest_versions x d [] = merge-none (version_of x d)
version_of-latest_versions x d (e ∷ es) =
    let step = version_of-record_version x d e.uuid e.version in
    version_of-latest_versions x (record_version d e.uuid e.version) es
    ∙ ap (λ o. merge o (top x es)) step
    ∙ elim (Bool-cases (e.uuid == x)) [
      | inl same ↦ rw same (merge-larger e.version (version_of x d) (top x es))
      | inr other ↦ rw other refl
    ]

top-select_if :
    (t u : Uuid) (f : StoredEvent → Bool) (es : List StoredEvent)
    → ((e : StoredEvent) → f e ≡ (e.transaction_uuid == t))
    → top u (select_if f es) ≡ greatest t u es
top-select_if t u f [] same = refl
top-select_if t u f (e ∷ es) same = ground (arith, same e, top-select_if t u f es same)

top-greatest : (t u : Uuid) (s : Store) → top u (own_events t s) ≡ greatest t u s.events
unfolding Events.select Events.fn_filter
top-greatest t u s = top-select_if t u _ s.events (λ e. ground arith)

-- For each entity, the greatest version that the transaction wrote.
pub version_of-written :
    (t : TransactionEntry) (s : Store) (u : Uuid)
    → version_of u (written t s) ≡ greatest t.uuid u s.events
version_of-written t s u =
    version_of-latest_versions u [] (own_events t.uuid s) ∙ top-greatest t.uuid u s

pub written-IsKeyed : (t : TransactionEntry) (s : Store) → IsKeyed (written t s)
written-IsKeyed t s = latest_versions-IsKeyed [] (own_events t.uuid s) tt

pub version_of_middle :
    (u : Uuid) (v : ℕ) (d : List (Uuid × ℕ))
    → version_of u d ≡ some v
    → (before after : List (Uuid × ℕ)) × (d ≡ before ++ ((u, v) ∷ after))
version_of_middle u v [] h = absurd (cc h)
version_of_middle u v ((u', w) ∷ d) h = elim (Bool-cases (u' == u)) [
  | inl same ↦
      let here : w ≡ v = cc (rw same at h) in
      let key : u' ≡ u = ground (arith, same) in
      ([], d, ap (λ x. (x, w) ∷ d) key ∙ ap (λ y. (u, y) ∷ d) here)
  | inr other ↦
      let (before, after, split) = version_of_middle u v d (rw other at h) in
      ((u', w) ∷ before, after, ap (λ l. (u', w) ∷ l) split)
]
