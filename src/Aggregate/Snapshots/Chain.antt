-- ===== src/Aggregate/Snapshots/Chain.antt =====
-- Which transactions of a chain are live.
use minos_python.Base.{
  ◌≡◌, refl, subst, sym, ◌∙◌, ap, true, false, some, List, [], ◌∷◌, ◌++◌, append-nil, append_assoc,
  All, All-append, Bool-cases, inl, inr, Result, return, raise, Result-cases,
}
use minos_python.Aggregate.Store.{Uuid, rejected, is_status, TransactionEntry, Store, Error}
use minos_python.Aggregate.Transactions.Repository.{get_transaction}
use minos_python.Aggregate.Snapshots.{live_uuids, reversed, reversed_result, get_transaction_uuids}

-- The repository has the transaction as a rejected one.
abbrev pub IsRejected : Store → Uuid → Type 0
IsRejected s u =
    (t : TransactionEntry) × ((get_transaction u s).0 ≡ return t)
    × (is_status t.status rejected ≡ true)

-- The repository has the transaction, and it is not rejected.
abbrev pub IsLive : Store → Uuid → Type 0
IsLive s u =
    (t : TransactionEntry) × ((get_transaction u s).0 ≡ return t)
    × (is_status t.status rejected ≡ false)

-- How the search ends, for a chain with the transaction in use at its end: `gone` are the rejected
-- transactions that are left out.
pub data Searched (s : Store) (chain : List Uuid) (r : Result Error (List Uuid)) : Type 0 where
  found :
      (rest : List Uuid) (u : Uuid) (gone : List Uuid)
      → chain ≡ (rest ++ (u ∷ [])) ++ gone
      → r ≡ return (rest ++ (u ∷ []))
      → IsLive s u
      → All (IsRejected s) gone
      → Searched s chain r
  outermost :
      (u : Uuid) (gone : List Uuid)
      → chain ≡ u ∷ gone
      → r ≡ return (u ∷ [])
      → All (IsRejected s) gone
      → Searched s chain r
  missing :
      (rest : List Uuid) (u : Uuid) (gone : List Uuid) (x : Error)
      → chain ≡ (rest ++ (u ∷ [])) ++ gone
      → r ≡ raise x
      → (get_transaction u s).0 ≡ raise x
      → All (IsRejected s) gone
      → Searched s chain r

-- One more rejected transaction at the end of the chain.
Searched-snoc :
    (s : Store) (chain : List Uuid) (r : Result Error (List Uuid)) (v : Uuid)
    → IsRejected s v
    → Searched s chain r
    → Searched s (chain ++ (v ∷ [])) r
Searched-snoc s chain r v bad (found rest u gone split returned live all) =
    found rest u (gone ++ (v ∷ []))
      (ap (λ l. l ++ (v ∷ [])) split ∙ append_assoc (rest ++ (u ∷ [])) gone (v ∷ [])) returned live
      (All-append (IsRejected s) gone (v ∷ []) all (bad, tt))
Searched-snoc s chain r v bad (outermost u gone split returned all) =
    outermost u (gone ++ (v ∷ [])) (ap (λ l. l ++ (v ∷ [])) split) returned
      (All-append (IsRejected s) gone (v ∷ []) all (bad, tt))
Searched-snoc s chain r v bad (missing rest u gone x split raised none all) =
    missing rest u (gone ++ (v ∷ [])) x
      (ap (λ l. l ++ (v ∷ [])) split ∙ append_assoc (rest ++ (u ∷ [])) gone (v ∷ [])) raised none
      (All-append (IsRejected s) gone (v ∷ []) all (bad, tt))

live_uuids-Searched :
    (s : Store) (u : Uuid) (us : List Uuid)
    → Searched s (reversed (u ∷ us)) (reversed_result (live_uuids (u ∷ us) s).0)
unfolding live_uuids
live_uuids-Searched s u [] = outermost u [] refl refl tt
live_uuids-Searched s u (v ∷ us) = elim (Result-cases (get_transaction u s).0) [
  | inr (x, raised) ↦
      rw raised (
        missing (reversed (v ∷ us)) u [] x (sym (append-nil (reversed (u ∷ v ∷ us)))) refl raised
          tt)
  | inl (t, got) ↦ elim (Bool-cases (is_status t.status rejected)) [
    | inl bad ↦
        rw (got, bad)
          (Searched-snoc s (reversed (v ∷ us)) _ u (t, got, bad) (live_uuids-Searched s v us))
    | inr good ↦
        rw (got, good)
          (found (reversed (v ∷ us)) u [] (sym (append-nil (reversed (u ∷ v ∷ us)))) refl
            (t, got, good) tt)
  ]
]

reversed-snoc : (l : List Uuid) (u : Uuid) → reversed (l ++ (u ∷ [])) ≡ u ∷ reversed l
reversed-snoc [] u = refl
reversed-snoc (v ∷ l) u = ap (λ k. k ++ (v ∷ [])) (reversed-snoc l u)

reversed-reversed : (l : List Uuid) → reversed (reversed l) ≡ l
reversed-reversed [] = refl
reversed-reversed (u ∷ l) = reversed-snoc (reversed l) u ∙ ap (λ k. u ∷ k) (reversed-reversed l)

-- For a chain that ends with the transaction in use, an entity is looked for in the chain up to its
-- last transaction that is not rejected, all behind that one being rejected, or in the outermost one
-- alone if all behind it are rejected. If the repository raises when it is asked for a transaction,
-- all behind which are rejected, its exception is passed on.
pub get_transaction_uuids-Searched :
    (s : Store) (outer : List Uuid) (u : Uuid)
    → let chain = outer ++ (u ∷ []) in Searched s chain (get_transaction_uuids (some chain) s).0
unfolding get_transaction_uuids
get_transaction_uuids-Searched s outer u =
    let back : reversed (u ∷ reversed outer) ≡ outer ++ (u ∷ []) =
      ap (λ l. l ++ (u ∷ [])) (reversed-reversed outer) in
    subst (λ l. Searched s (outer ++ (u ∷ [])) (reversed_result (live_uuids l s).0))
      (sym (reversed-snoc outer u))
      (subst (λ l. Searched s l (reversed_result (live_uuids (u ∷ reversed outer) s).0)) back
        (live_uuids-Searched s u (reversed outer)))
