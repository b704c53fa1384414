-- ===== src/Aggregate/Snapshots/Reading/Invisible.antt =====
-- Queries where some entity has events only in transactions that are not visible.
use minos_python.Base.{
  ℕ, ◌≡◌, ◌≢◌, ap, ◌∙◌, true, Option, List, [], ◌∷◌, contains, ◌==◌, Result, return, raise, arith,
  inl, inr, Bool-cases,
}
use minos_python.Aggregate.Store.{Uuid, Store}
use minos_python.Aggregate.Snapshots.{get_event_entries, get_transaction_uuids}
use minos_python.Aggregate.Snapshots.Entries.{
  SnapshotEntry, ReadError, Classes, build_instance, index_error,
}
use minos_python.Aggregate.Snapshots.Reading.{
  Query, find_entries, get_snapshot, get_visible, named_uuids, with_chain,
}
use minos_python.Aggregate.Snapshots.Reading.Found.{Gives, find_entries-Found}

Gives-contains :
    (get : Uuid → Result ReadError SnapshotEntry) (us : List Uuid) (es : List SnapshotEntry)
    (u : Uuid)
    → Gives get us es
    → contains u us ≡ true
    → (e : SnapshotEntry) × (get u ≡ return e)
Gives-contains get [] es u h c = absurd (cc c)
Gives-contains get (v ∷ us) [] u h c = elim h [ ]
Gives-contains get (v ∷ us) (e ∷ es) u h c = elim (Bool-cases (u == v)) [
  | inl same ↦ let p : u ≡ v = ground arith in (e, ap get p ∙ h.0)
  | inr other ↦ Gives-contains get us es u h.1 (ground arith)
]

get_snapshot-invisible :
    (c : Classes) (name : ℕ) (chain : Option (List Uuid)) (s : Store) (us : List Uuid) (u : Uuid)
    → (get_transaction_uuids chain s).0 ≡ return us
    → get_event_entries name u us s ≡ []
    → get_snapshot c name chain s u ≡ raise index_error
unfolding get_snapshot get_visible build_instance
get_snapshot-invisible c name chain s us u known empty =
    ap (λ r. with_chain r (λ vs. get_visible c name vs s u)) known ∙ ap (build_instance c) empty

-- No query over a name returns while an entity of that name has events, but none of them in the
-- transactions that the query sees, as when another transaction has created it.
pub find_entries-invisible :
    (c : Classes) (q : Query) (chain : Option (List Uuid)) (s : Store) (us : List Uuid) (u : Uuid)
    (l : List SnapshotEntry)
    → (get_transaction_uuids chain s).0 ≡ return us
    → contains u (named_uuids q.name s) ≡ true
    → get_event_entries q.name u us s ≡ []
    → find_entries c q chain s ≢ return l
find_entries-invisible c q chain s us u l known named empty h =
    let found = find_entries-Found c q chain s l h in
    let (e, got) = Gives-contains _ (named_uuids q.name s) found.built u found.gives named in
    cc (got, get_snapshot-invisible c q.name chain s us u known empty)
