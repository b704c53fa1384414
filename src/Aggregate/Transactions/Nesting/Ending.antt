-- ===== src/Aggregate/Transactions/Nesting/Ending.antt =====
-- The walk from a transaction to the outermost one ends.
use minos_python.Base.{
  ℕ, ◌<◌, suc, zero, ◌≡◌, ◌≢◌, refl, ap, sym, subst, ◌∙◌, Option, none, some, List, [], ◌∷◌, ◌==◌,
  All, select_if, Result, return, raise, arith, inl, inr, Bool-cases, Result-cases,
}
use minos_python.Aggregate.Store.{Uuid, null_uuid, TransactionEntry, Store, Error}
use minos_python.Aggregate.Transactions.Repository.{
  get_transaction, select, fn_filter, first_found, no_filter,
}
use minos_python.Aggregate.Transactions.Nesting.{
  found_destination, outer_transaction, destination, append_uuid, go_on, walk, with_null, uuids,
}

-- The destination of a transaction has a lower rank, unless it is the null transaction.
abbrev pub Descends : (Uuid → ℕ) → TransactionEntry → Type 0
Descends rank t = t.destination_uuid ≢ null_uuid → rank t.destination_uuid < rank t.uuid

-- The transaction that was in use before has a lower rank as well.
abbrev pub DescendsTo : (Uuid → ℕ) → TransactionEntry → Option (Option TransactionEntry) → Type 0
DescendsTo rank t none = Unit
DescendsTo rank t (some none) = Unit
DescendsTo rank t (some (some d)) = Descends rank d × (rank d.uuid < rank t.uuid)

select_first :
    (P : TransactionEntry → Type 0) (u : Uuid) (ts : List TransactionEntry) (t : TransactionEntry)
    → All P ts
    → first_found (select_if (fn_filter (record no_filter { uuid = some u })) ts) ≡ return t
    → P t × (t.uuid ≡ u)
unfolding fn_filter
select_first P u [] t h e = absurd (cc e)
select_first P u (x ∷ ts) t h e = elim (Bool-cases (u == x.uuid)) [
  | inl same ↦
      let q : x ≡ t = cc (rw same at e) in
      let here : x.uuid ≡ u = ground arith in
      (subst P q h.0, sym (ap (λ (r : TransactionEntry). r.uuid) q) ∙ here)
  | inr other ↦ select_first P u ts t h.1 (rw other at e)
]

go_on_total :
    (f : TransactionEntry → Option (Result Error (List Uuid)))
    (o : Result Error (Option TransactionEntry))
    → ((d : TransactionEntry) → o ≡ return (some d) → f d ≢ none)
    → go_on f o ≢ none
go_on_total f (raise x) h k = cc k
go_on_total f (return none) h k = cc k
go_on_total f (return (some d)) h k = h d refl k

module _ (rank : Uuid → ℕ) (s : Store) (descending : All (Descends rank) s.transactions) where
  outer-Descends :
      (u : Uuid) (d : TransactionEntry)
      → found_destination (get_transaction u s).0 ≡ return (some d)
      → Descends rank d × (d.uuid ≡ u)
  unfolding get_transaction select
  outer-Descends u d h = elim (Result-cases (get_transaction u s).0) [
    | inr (x, e) ↦ absurd (cc (h, ap found_destination e))
    | inl (t, e) ↦
        let q : t ≡ d = cc (h, ap found_destination e) in
        select_first (Descends rank) u s.transactions d descending (e ∙ ap return q)
  ]

  destination-Descends :
      (token : Option (Option TransactionEntry)) (t d : TransactionEntry)
      → Descends rank t
      → DescendsTo rank t token
      → destination token t s ≡ return (some d)
      → Descends rank d × (rank d.uuid < rank t.uuid)
  destination-Descends token t d h g e = elim (Bool-cases (t.destination_uuid == null_uuid)) [
    | inl top ↦ absurd (cc (rw top at e))
    | inr inner ↦ from_token token t d h g (ground arith) (rw inner at e)
  ]
    where
      from_token :
          (token : Option (Option TransactionEntry)) (t d : TransactionEntry)
          → Descends rank t
          → DescendsTo rank t token
          → t.destination_uuid ≢ null_uuid
          → outer_transaction token t.destination_uuid s ≡ return (some d)
          → Descends rank d × (rank d.uuid < rank t.uuid)
      from_token none t d h g inner e =
          let (descends, same) = outer-Descends t.destination_uuid d e in
          (descends, subst (λ k. rank k < rank t.uuid) (sym same) (h inner))
      from_token (some none) t d h g inner e = absurd (cc e)
      from_token (some (some o)) t d h g inner e =
          let q : o ≡ d = cc e in
          subst (λ (k : TransactionEntry). Descends rank k × (rank k.uuid < rank t.uuid)) q g

  append_uuid_total :
      (u : Uuid) (o : Option (Result Error (List Uuid))) → o ≢ none → append_uuid u o ≢ none
  append_uuid_total u none h e = h e
  append_uuid_total u (some (raise x)) h e = cc e
  append_uuid_total u (some (return us)) h e = cc e

  walk_total :
      (n : ℕ) (token : Option (Option TransactionEntry)) (t : TransactionEntry)
      → rank t.uuid < n
      → Descends rank t
      → DescendsTo rank t token
      → walk n token t s ≢ none
  unfolding walk
  walk_total zero token t low h g = absurd (omega arith)
  walk_total (suc n) token t low h g = append_uuid_total t.uuid _ (
      go_on_total (λ d. walk n none d s) (destination token t s)
        (λ d e.
          let (descends, lower) = destination-Descends token t d h g e in
          walk_total n none d (omega arith) descends tt))

-- The loop of `uuids` ends: where each stored transaction, the one that is asked and the one that was
-- in use before it lead to destinations of lower rank, as many rounds as the rank of the transaction
-- and one more are enough.
pub uuids_total :
    (rank : Uuid → ℕ) (s : Store) (token : Option (Option TransactionEntry)) (t : TransactionEntry)
    → All (Descends rank) s.transactions
    → Descends rank t
    → DescendsTo rank t token
    → uuids (suc (rank t.uuid)) token t s ≢ none
unfolding uuids
uuids_total rank s token t stored h g e =
    ends (walk (suc (rank t.uuid)) token t s)
      (walk_total rank s stored (suc (rank t.uuid)) token t (omega arith) h g) e
  where
    ends : (o : Option (Result Error (List Uuid))) → o ≢ none → with_null o ≢ none
    ends none k e = k e
    ends (some (raise x)) k e = cc e
    ends (some (return us)) k e = cc e
