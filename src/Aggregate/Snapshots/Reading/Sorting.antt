-- ===== src/Aggregate/Snapshots/Reading/Sorting.antt =====
-- The order of the entries that a query keeps.
use minos_python.Base.{
  ℕ, ◌≡◌, ◌≤◌, refl, sym, ap, ◌∙◌, Bool, true, false, List, [], ◌∷◌, map, All, Result, return,
  raise, arith, inl, inr, Bool-cases, Result-cases,
}
use mathlib.Core.List.{Perm}
use mathlib.Core.List.Perm
use minos_python.Aggregate.Entities.Events.{ModelError, FieldValue, scalar, value_set, entity_set}
use minos_python.Aggregate.Queries.{get_field}
use minos_python.Aggregate.Snapshots.Entries.{SnapshotEntry, attributes_of}
use minos_python.Aggregate.Snapshots.Reading.{
  Keyed, in_order, insert_keyed, sort_keyed, key_of, scalar_key, pair_key, with_keys,
}

abbrev pub entries_of : List Keyed → List SnapshotEntry
entries_of = map (λ (k : Keyed). k.1)

-- Each entry may stand before the next one.
abbrev pub IsSorted : Bool → List Keyed → Type 0
IsSorted reverse [] = Unit
IsSorted reverse (x ∷ []) = Unit
IsSorted reverse (x ∷ y ∷ l) = (in_order reverse x.0 y.0 ≡ true) × IsSorted reverse (y ∷ l)

abbrev pub HasKey : ℕ → Keyed → Type 0
HasKey by k = key_of by k.1 ≡ return k.0

insert_keyed-Perm :
    (reverse : Bool) (x : Keyed) (l : List Keyed)
    → Perm (x.1 ∷ entries_of l) (entries_of (insert_keyed reverse x l))
insert_keyed-Perm reverse x [] = Perm.refl _
insert_keyed-Perm reverse x (y ∷ l) = elim (Bool-cases (in_order reverse x.0 y.0)) [
  | inl first ↦ rw first (Perm.refl _)
  | inr after ↦
      rw after (Perm.trans (Perm.swap _ _ _) (Perm.cons _ (insert_keyed-Perm reverse x l)))
]

pub sort_keyed-Perm :
    (reverse : Bool) (l : List Keyed) → Perm (entries_of l) (entries_of (sort_keyed reverse l))
unfolding sort_keyed
sort_keyed-Perm reverse [] = Perm.refl _
sort_keyed-Perm reverse (x ∷ l) =
    Perm.trans (Perm.cons _ (sort_keyed-Perm reverse l))
      (insert_keyed-Perm reverse x (sort_keyed reverse l))

in_order_total :
    (reverse : Bool) (a b : ℕ) → in_order reverse a b ≡ false → in_order reverse b a ≡ true
in_order_total true a b h = ground arith
in_order_total false a b h = ground arith

insert_keyed-IsSorted :
    (reverse : Bool) (x : Keyed) (l : List Keyed)
    → IsSorted reverse l
    → IsSorted reverse (insert_keyed reverse x l)
insert_keyed-IsSorted reverse x [] h = tt
insert_keyed-IsSorted reverse x (y ∷ []) h = elim (Bool-cases (in_order reverse x.0 y.0)) [
  | inl first ↦ rw first (first, tt)
  | inr after ↦ rw after (in_order_total reverse x.0 y.0 after, tt)
]
insert_keyed-IsSorted reverse x (y ∷ z ∷ l) h = elim (Bool-cases (in_order reverse x.0 y.0)) [
  | inl first ↦ rw first (first, h)
  | inr after ↦ rw after (
      insert_after reverse x y z l (in_order_total reverse x.0 y.0 after) h.0
        (insert_keyed-IsSorted reverse x (z ∷ l) h.1))
]
  where
    insert_after :
        (reverse : Bool) (x y z : Keyed) (l : List Keyed)
        → in_order reverse y.0 x.0 ≡ true
        → in_order reverse y.0 z.0 ≡ true
        → IsSorted reverse (insert_keyed reverse x (z ∷ l))
        → IsSorted reverse (y ∷ insert_keyed reverse x (z ∷ l))
    insert_after reverse x y z l before next sorted = elim (Bool-cases (in_order reverse x.0 z.0)) [
      | inl first ↦ rw first (before, rw first at sorted)
      | inr after ↦ rw after (next, rw after at sorted)
    ]

pub sort_keyed-IsSorted :
    (reverse : Bool) (l : List Keyed) → IsSorted reverse (sort_keyed reverse l)
unfolding sort_keyed
sort_keyed-IsSorted reverse [] = tt
sort_keyed-IsSorted reverse (x ∷ l) =
    insert_keyed-IsSorted reverse x (sort_keyed reverse l) (sort_keyed-IsSorted reverse l)

insert_keyed-All :
    (P : Keyed → Type 0) (reverse : Bool) (x : Keyed) (l : List Keyed)
    → P x
    → All P l
    → All P (insert_keyed reverse x l)
insert_keyed-All P reverse x [] p h = (p, tt)
insert_keyed-All P reverse x (y ∷ l) p h = elim (Bool-cases (in_order reverse x.0 y.0)) [
  | inl first ↦ rw first (p, h)
  | inr after ↦ rw after (h.0, insert_keyed-All P reverse x l p h.1)
]

pub sort_keyed-All :
    (P : Keyed → Type 0) (reverse : Bool) (l : List Keyed) → All P l → All P (sort_keyed reverse l)
unfolding sort_keyed
sort_keyed-All P reverse [] h = tt
sort_keyed-All P reverse (x ∷ l) h =
    insert_keyed-All P reverse x (sort_keyed reverse l) h.0 (sort_keyed-All P reverse l h.1)

pub with_keys_lem :
    (by : ℕ) (l : List SnapshotEntry) (ks : List Keyed)
    → with_keys by l ≡ return ks
    → (entries_of ks ≡ l) × All (HasKey by) ks
with_keys_lem by [] ks h = let k : ks ≡ [] = cc h in rw k (refl, tt)
with_keys_lem by (e ∷ l) ks h = elim (Result-cases (key_of by e)) [
  | inr (x, fails) ↦ absurd (cc (ap (λ k. pair_key e k (with_keys by l)) (sym fails) ∙ h))
  | inl (k, found) ↦ elim (Result-cases (with_keys by l)) [
    | inr (x, fails) ↦ absurd (cc h)
    | inl (rest, keyed) ↦
        let all : ks ≡ (k, e) ∷ rest = cc h in
        let (same, keys) = with_keys_lem by l rest keyed in
        rw all (ap (λ m. e ∷ m) same, (found, keys))
  ]
]

-- The entry has the scalar in the field.
abbrev pub HasScalar : ℕ → Keyed → Type 0
HasScalar by k = get_field by (attributes_of k.1) ≡ return (scalar k.0)

abbrev pub Precedes : Bool → ℕ → ℕ → Type 0
Precedes false a b = a ≤ b
Precedes true a b = b ≤ a

-- The scalars go up, or down if the order is reversed.
abbrev pub Ordered : Bool → List Keyed → Type 0
Ordered reverse [] = Unit
Ordered reverse (x ∷ []) = Unit
Ordered reverse (x ∷ y ∷ l) = Precedes reverse x.0 y.0 × Ordered reverse (y ∷ l)

in_order-Precedes : (reverse : Bool) (a b : ℕ) → in_order reverse a b ≡ true → Precedes reverse a b
in_order-Precedes true a b h = ground (arith, h)
in_order-Precedes false a b h = ground (arith, h)

pub IsSorted-Ordered : (reverse : Bool) (l : List Keyed) → IsSorted reverse l → Ordered reverse l
IsSorted-Ordered reverse [] h = tt
IsSorted-Ordered reverse (x ∷ []) h = tt
IsSorted-Ordered reverse (x ∷ y ∷ l) h =
    (in_order-Precedes reverse x.0 y.0 h.0, IsSorted-Ordered reverse (y ∷ l) h.1)

pub scalar_key-eq-return :
    (r : Result ModelError FieldValue) (n : ℕ) → scalar_key r ≡ return n → r ≡ return (scalar n)
scalar_key-eq-return (raise x) n h = absurd (cc h)
scalar_key-eq-return (return (scalar m)) n h =
    let same : m ≡ n = cc h in ap (λ k. return (scalar k)) same
scalar_key-eq-return (return (value_set xs)) n h = absurd (cc h)
scalar_key-eq-return (return (entity_set es)) n h = absurd (cc h)
