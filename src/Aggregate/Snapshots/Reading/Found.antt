-- ===== src/Aggregate/Snapshots/Reading/Found.antt =====
-- What `find_entries` returns: the entries that meet the condition, arranged and cut.
use minos_python.Base.{
  ◌&&◌, ◌==◌, any_of, contains, ◌≡◌, ◌≤◌, length, refl, sym, ap, subst, ◌∙◌, Bool, Option, none,
  some, List, [], ◌∷◌, if◌then◌else◌, All, All-map, Result, return, raise, arith, inl, inr,
  Result-cases,
}
use mathlib.Core.List.{Perm}
use minos_python.Aggregate.Store.{Uuid, StoredEvent, Store}
use minos_python.Aggregate.Snapshots.Reading.Meaning.{
  Once, contains-named_uuids, named_uuids-Once, Decides, meets-Decides, Cut, limited-Cut,
}
use minos_python.Aggregate.Queries.{OrderBy, Condition, get_field}
use minos_python.Aggregate.Snapshots.Entries.{SnapshotEntry, ReadError, Classes, attributes_of}
use minos_python.Aggregate.Snapshots.Reading.{
  Query, Keyed, sort_keyed, with_keys, meets, keep_entry, collect_entry, collect_entries,
  order_entries, sort_by, limited, cut_all, finish, find_entries, get_snapshot, named_uuids,
}
use minos_python.Aggregate.Snapshots.Reading.Sorting.{
  entries_of, HasKey, HasScalar, Ordered, sort_keyed-Perm, sort_keyed-IsSorted, sort_keyed-All,
  with_keys_lem, IsSorted-Ordered, scalar_key-eq-return,
}

-- The entries that the loop has built, in the order of the identifiers.
abbrev pub Gives : (Uuid → Result ReadError SnapshotEntry) → List Uuid → List SnapshotEntry → Type 0
Gives get [] [] = Unit
Gives get (u ∷ us) (e ∷ es) = (get u ≡ return e) × Gives get us es
Gives get _ _ = ⊥

-- `l` are the entries of `es` that meet the condition; for each it could be told.
abbrev pub Meeting :
    (SnapshotEntry → Bool → Type 0) → List SnapshotEntry → List SnapshotEntry → Type 0
Meeting test [] l = l ≡ []
Meeting test (e ∷ es) l =
    (rest : List SnapshotEntry) × (b : Bool) × test e b
    × Meeting test es rest
    × (l ≡ (if b then e ∷ rest else rest))

-- How the entries that are kept are put in order.
pub data Arranged (o : Option OrderBy) (kept l : List SnapshotEntry) : Type 0 where
  unordered : o ≡ none → l ≡ kept → Arranged o kept l
  short : length kept ≤ 1 → l ≡ kept → Arranged o kept l
  ordered :
      (by : OrderBy) (keyed : List Keyed)
      → o ≡ some by
      → entries_of keyed ≡ l
      → All (HasScalar by.by) keyed
      → Ordered by.reverse keyed
      → Perm kept l
      → Arranged o kept l

-- The result of a query: the entry of each identifier, those that meet the condition, in order and
-- up to the limit.
pub record Found (c : Classes) (q : Query) (chain : Option (List Uuid)) (s : Store)
    (l : List SnapshotEntry) : Type 0 where
  pub built : List SnapshotEntry
  pub kept : List SnapshotEntry
  pub arranged : List SnapshotEntry
  pub named :
      (u : Uuid)
      → contains u (named_uuids q.name s)
        ≡ any_of (λ (e : StoredEvent). e.name == q.name && u == e.uuid) s.events
  pub once : Once (named_uuids q.name s)
  pub gives : Gives (get_snapshot c q.name chain s) (named_uuids q.name s) built
  pub meeting : Meeting (Decides c q.condition q.exclude_deleted) built kept
  pub order : Arranged q.ordering kept arranged
  pub cut : Cut q.limit arranged l

sort_by-Arranged :
    (o : OrderBy) (kept l : List SnapshotEntry)
    → sort_by o (with_keys o.by kept) ≡ return l
    → Arranged (some o) kept l
sort_by-Arranged o kept l h = elim (Result-cases (with_keys o.by kept)) [
  | inr (x, fails) ↦ absurd (cc (h, ap (sort_by o) fails))
  | inl (ks, keyed) ↦
      let (same, keys) = with_keys_lem o.by kept ks keyed in
      let is : entries_of (sort_keyed o.reverse ks) ≡ l = cc (h, ap (sort_by o) keyed) in
      ordered o (sort_keyed o.reverse ks) refl is
        (sort_keyed-All (HasScalar o.by) o.reverse ks (
          All-map (HasKey o.by) (HasScalar o.by) ks
            (λ k h. scalar_key-eq-return (get_field o.by (attributes_of k.1)) k.0 h) keys))
        (IsSorted-Ordered o.reverse (sort_keyed o.reverse ks) (sort_keyed-IsSorted o.reverse ks))
        (subst (λ m. Perm m l) same
          (subst (Perm (entries_of ks)) is (sort_keyed-Perm o.reverse ks)))
]

order_entries-Arranged :
    (o : Option OrderBy) (kept l : List SnapshotEntry)
    → order_entries o kept ≡ return l
    → Arranged o kept l
order_entries-Arranged none kept l h = unordered refl (cc h)
order_entries-Arranged (some o) [] l h = short (omega arith) (cc h)
order_entries-Arranged (some o) (e ∷ []) l h = short (omega arith) (cc h)
order_entries-Arranged (some o) (e ∷ f ∷ es) l h = sort_by-Arranged o (e ∷ f ∷ es) l h

keep_entry-eq-return :
    (e : SnapshotEntry) (m : Result ReadError Bool) (r : Result ReadError (List SnapshotEntry))
    (l : List SnapshotEntry)
    → keep_entry e m r ≡ return l
    → (b : Bool) × (rest : List SnapshotEntry) × (m ≡ return b)
      × (r ≡ return rest)
      × (l ≡ (if b then e ∷ rest else rest))
keep_entry-eq-return e (raise x) r l h = absurd (cc h)
keep_entry-eq-return e (return b) (raise x) l h = absurd (cc h)
keep_entry-eq-return e (return b) (return rest) l h = (b, rest, refl, refl, cc h)

collect_entries-Meeting :
    (c : Classes) (condition : Condition) (exclude : Bool)
    (get : Uuid → Result ReadError SnapshotEntry) (us : List Uuid) (l : List SnapshotEntry)
    → collect_entries c condition exclude get us ≡ return l
    → (es : List SnapshotEntry) × Gives get us es × Meeting (Decides c condition exclude) es l
collect_entries-Meeting c condition exclude get [] l h = ([], tt, cc h)
collect_entries-Meeting c condition exclude get (u ∷ us) l h =
    let rest = collect_entries c condition exclude get us in
    elim (Result-cases (get u)) [
      | inr (x, fails) ↦ absurd (cc (h, ap (λ g. collect_entry c condition exclude g rest) fails))
      | inl (e, got) ↦
          let (b, kept, told, more, is) =
            keep_entry-eq-return e (meets c condition exclude e) rest l
              (sym (ap (λ g. collect_entry c condition exclude g rest) got) ∙ h) in
          let (es, gives, meeting) = collect_entries-Meeting c condition exclude get us kept more in
          (e ∷ es, (got, gives), (kept, b, meets-Decides c condition exclude e b told, meeting, is))
    ]

finish-eq-return :
    (q : Query) (r : Result ReadError (List SnapshotEntry)) (l : List SnapshotEntry)
    → finish q r ≡ return l
    → (kept arranged : List SnapshotEntry) × (r ≡ return kept)
      × (order_entries q.ordering kept ≡ return arranged)
      × (l ≡ limited q.limit arranged)
finish-eq-return q (raise x) l h = absurd (cc h)
finish-eq-return q (return kept) l h = elim (Result-cases (order_entries q.ordering kept)) [
  | inr (x, fails) ↦ absurd (cc (h, ap (cut_all q) fails))
  | inl (arranged, done) ↦ (kept, arranged, refl, done, cc (h, ap (cut_all q) done))
]

-- A query that returns implements its specification. It builds the entry of each identifier that has
-- an event of the name, each once, as `_get` does. It keeps those that meet the condition, with the
-- deleted ones left out if they are excluded, and puts them in the order of the field asked for. It
-- returns the first ones: as many as the limit says, or all if there are fewer or there is no limit.
pub find_entries-Found :
    (c : Classes) (q : Query) (chain : Option (List Uuid)) (s : Store) (l : List SnapshotEntry)
    → find_entries c q chain s ≡ return l
    → Found c q chain s l
unfolding find_entries
find_entries-Found c q chain s l h =
    let get = get_snapshot c q.name chain s in
    let (kept, arranged, collected, done, cut) = finish-eq-return q _ l h in
    let (built, gives, meeting) =
      collect_entries-Meeting c q.condition q.exclude_deleted get (named_uuids q.name s) kept
        collected in
    record {
      built = built;
      kept = kept;
      arranged = arranged;
      gives = gives;
      meeting = meeting;
      order = order_entries-Arranged q.ordering kept arranged done;
      named = λ u. contains-named_uuids u q.name s;
      once = named_uuids-Once q.name s;
      cut = subst (Cut q.limit arranged) (sym cut) (limited-Cut q.limit arranged);
    }
