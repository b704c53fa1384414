-- ===== src/Aggregate/Snapshots/Reading/Meaning.antt =====
-- What the parts of a query mean: the identifiers of a name, the entries that are kept, the limit.
use minos_python.Base.{
  ℕ, zero, suc, ◌≡◌, ◌≢◌, ◌≤◌, ◌⊎◌, ◌∙◌, length, refl, sym, ap, Bool, true, false, not, ◌&&◌, ◌||◌,
  Option, none, some, List, [], ◌∷◌, ◌++◌, map, ◌==◌, any_of, contains, if◌then◌else◌, select_if,
  Result, return, raise, arith, inl, inr, Bool-cases,
}
use minos_python.Aggregate.Store.{Uuid, StoredEvent, Store}
use minos_python.Aggregate.Entities.Events.{Fields, ModelError}
use minos_python.Aggregate.Queries.{Condition, evaluate}
use minos_python.Aggregate.Events.Repository as Events
use minos_python.Aggregate.Snapshots.Entries.{
  SnapshotEntry, Classes, attributes_of, is_deleted, lift_model,
}
use minos_python.Aggregate.Snapshots.Reading.{add_uuid, named_uuids, meets, take_some, limited}

-- Each identifier is there once.
abbrev pub Once : List Uuid → Type 0
Once [] = Unit
Once (u ∷ us) = (contains u us ≡ false) × Once us

contains_same :
    (v u : Uuid) (seen : List Uuid) → (v == u) ≡ true → contains v seen ≡ contains u seen
contains_same v u seen same = ap (λ x. contains x seen) (ground (arith, same))

dropped :
    (v u : Uuid) (seen : List Uuid) (b : Bool)
    → contains u seen ≡ true
    → b && not (contains v seen) ≡ ((v == u) || b) && not (contains v seen)
dropped v u seen b old = elim (Bool-cases (v == u)) [
  | inl same ↦ rw (same, contains_same v u seen same, old) (ground arith)
  | inr other ↦ rw other refl
]

taken :
    (v u : Uuid) (seen : List Uuid) (b : Bool)
    → contains u seen ≡ false
    → (v == u) || (b && not ((v == u) || contains v seen))
      ≡ ((v == u) || b) && not (contains v seen)
taken v u seen b new = elim (Bool-cases (v == u)) [
  | inl same ↦ rw (same, contains_same v u seen same, new) refl
  | inr other ↦ rw other refl
]

contains-add_uuid :
    (v : Uuid) (seen us : List Uuid)
    → contains v (add_uuid seen us) ≡ contains v us && not (contains v seen)
contains-add_uuid v seen [] = refl
contains-add_uuid v seen (u ∷ us) = elim (Bool-cases (contains u seen)) [
  | inl old ↦ rw old (contains-add_uuid v seen us ∙ dropped v u seen (contains v us) old)
  | inr new ↦ rw new (
      ap (λ b. (v == u) || b) (contains-add_uuid v (u ∷ seen) us)
      ∙ taken v u seen (contains v us) new)
]

add_uuid-Once : (seen us : List Uuid) → Once (add_uuid seen us)
add_uuid-Once seen [] = tt
add_uuid-Once seen (u ∷ us) = elim (Bool-cases (contains u seen)) [
  | inl old ↦ rw old (add_uuid-Once seen us)
  | inr new ↦ rw new (contains-add_uuid u (u ∷ seen) us ∙ ground arith, add_uuid-Once (u ∷ seen) us)
]

contains-selected :
    (f g : StoredEvent → Bool) (u : Uuid) (l : List StoredEvent)
    → ((e : StoredEvent) → f e ≡ g e)
    → contains u (map (λ (e : StoredEvent). e.uuid) (select_if f l))
      ≡ any_of (λ (e : StoredEvent). g e && u == e.uuid) l
contains-selected f g u [] same = refl
contains-selected f g u (e ∷ l) same = ground (arith, same e, contains-selected f g u l same)

and_true : (b : Bool) → b && true ≡ b
and_true true = refl
and_true false = refl

-- The identifiers that a query goes through are those that have an event of the name.
pub contains-named_uuids :
    (u : Uuid) (name : ℕ) (s : Store)
    → contains u (named_uuids name s)
      ≡ any_of (λ (e : StoredEvent). e.name == name && u == e.uuid) s.events
unfolding named_uuids Events.select Events.fn_filter
contains-named_uuids u name s =
    contains-add_uuid u [] _
    ∙ and_true _
    ∙ contains-selected _ (λ (e : StoredEvent). e.name == name) u s.events (λ e. ground arith)

pub named_uuids-Once : (name : ℕ) (s : Store) → Once (named_uuids name s)
unfolding named_uuids
named_uuids-Once name s = add_uuid-Once [] _

-- Whether an entry is kept: not if it is deleted and deleted ones are excluded, and otherwise as the
-- condition says.
pub data Decides (c : Classes) (condition : Condition) (exclude_deleted : Bool) (e : SnapshotEntry)
    (b : Bool) : Type 0 where
  hidden :
      exclude_deleted ≡ true
      → e.content ≡ none
      → b ≡ false
      → Decides c condition exclude_deleted e b
  shown :
      (exclude_deleted ≡ false) ⊎ (e.content ≢ none)
      → evaluate c.like (attributes_of e) condition ≡ return b
      → Decides c condition exclude_deleted e b

lift_model-eq-return :
    (b : Bool) (r : Result ModelError Bool) → lift_model {A = Bool} r ≡ return b → r ≡ return b
lift_model-eq-return b (return a) h = cc h
lift_model-eq-return b (raise x) h = absurd (cc h)

meets_if :
    (c : Classes) (condition : Condition) (exclude : Bool) (e : SnapshotEntry) (b : Bool)
    → is_deleted e && exclude ≡ b
    → meets c condition exclude e
      ≡ (if b then return false else lift_model (evaluate c.like (attributes_of e) condition))
unfolding meets
meets_if c condition exclude e b q =
    ap (λ x. if x then return false else lift_model (evaluate c.like (attributes_of e) condition)) q

and_false : (b : Bool) → b && false ≡ false
and_false true = refl
and_false false = refl

pub meets-Decides :
    (c : Classes) (condition : Condition) (exclude : Bool) (e : SnapshotEntry) (b : Bool)
    → meets c condition exclude e ≡ return b
    → Decides c condition exclude e b
meets-Decides c condition false e b h = shown (inl refl) (
    lift_model-eq-return b _
      (sym (meets_if c condition false e false (and_false (is_deleted e))) ∙ h))
meets-Decides c condition true e b h = by_content e.content refl
  where
    by_content : (o : Option Fields) → e.content ≡ o → Decides c condition true e b
    by_content none gone =
        let deleted : is_deleted e && true ≡ true =
          ap (λ o. (elim o [ none ↦ true | some _ ↦ false ]) && true) gone in
        hidden refl gone (cc (sym (meets_if c condition true e true deleted) ∙ h))
    by_content (some fields) there =
        let kept : is_deleted e && true ≡ false =
          ap (λ o. (elim o [ none ↦ true | some _ ↦ false ]) && true) there in
        shown (inr (λ z. cc (z, there)))
          (lift_model-eq-return b _ (sym (meets_if c condition true e false kept) ∙ h))

-- The first entries, as many as the limit says.
pub data Cut (limit : Option ℕ) (all l : List SnapshotEntry) : Type 0 where
  whole : limit ≡ none → l ≡ all → Cut limit all l
  first :
      (n : ℕ) (rest : List SnapshotEntry)
      → limit ≡ some n
      → all ≡ l ++ rest
      → length l ≤ n
      → (rest ≡ []) ⊎ (length l ≡ n)
      → Cut limit all l

take_some-first :
    (n : ℕ) (l : List SnapshotEntry)
    → (rest : List SnapshotEntry) × (l ≡ take_some n l ++ rest)
      × (length (take_some n l) ≤ n)
      × ((rest ≡ []) ⊎ (length (take_some n l) ≡ n))
take_some-first zero l = (l, refl, omega arith, inr refl)
take_some-first (suc n) [] = ([], refl, omega arith, inl refl)
take_some-first (suc n) (e ∷ l) =
    let (rest, split, below, all) = take_some-first n l in
    (
      rest,
      ap (λ m. e ∷ m) split,
      omega (arith, below),
      elim all [ inl none_left ↦ inl none_left | inr full ↦ inr (ap suc full) ],
    )

pub limited-Cut : (limit : Option ℕ) (l : List SnapshotEntry) → Cut limit l (limited limit l)
limited-Cut none l = whole refl refl
limited-Cut (some n) l =
    let (rest, split, below, all) = take_some-first n l in first n rest refl split below all
