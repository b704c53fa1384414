-- ===== src/Aggregate/Snapshots/Visible.antt =====
-- Which events of an entity are seen inside a chain of transactions.
use minos_python.Base.{
  ℕ, ◌<◌, ◌≤◌, ◌≡◌, refl, subst, select_if, any_of-congr, ◌⊎◌, inl, inr, Bool, true, false, not,
  ◌&&◌, List, [], ◌∷◌, arith, ◌==◌, ltb, ltb→lt, any_of, All, All-map, Bool-cases,
}
use minos_python.Aggregate.Events.Repository as Events
use minos_python.Aggregate.Store.{Uuid, StoredEvent, Store}
use minos_python.Aggregate.Snapshots.{
  index_of, is_before, insert_entry, sort_entries, several_transactions, keep_before, keep_last,
  selected, arrange, get_event_entries,
}

abbrev pub Member : StoredEvent → List StoredEvent → Type 0
Member e [] = ⊥
Member e (x ∷ l) = (e ≡ x) ⊎ Member e l

-- The versions go up.
abbrev pub Strict : List StoredEvent → Type 0
Strict [] = Unit
Strict (e ∷ l) = All (λ x. e.version < x.version) l × Strict l

-- The versions do not go down.
abbrev pub Rising : List StoredEvent → Type 0
Rising [] = Unit
Rising (e ∷ l) = All (λ x. e.version ≤ x.version) l × Rising l

module _ (us : List Uuid) where
  -- No event comes before one that stands in front of it.
  abbrev pub Sorted : List StoredEvent → Type 0
  Sorted [] = Unit
  Sorted (e ∷ l) = All (λ x. is_before us x e ≡ false) l × Sorted l

  Sorted-Rising : (l : List StoredEvent) → Sorted l → Rising l
  Sorted-Rising [] h = tt
  Sorted-Rising (e ∷ l) h = (All-map _ _ l (λ x g. ground (arith, g)) h.0, Sorted-Rising l h.1)

  -- Some event of the list has the same version, in the same or a deeper transaction.
  abbrev pub is_covered : List StoredEvent → StoredEvent → Bool
  is_covered l e =
      any_of
        (λ (x : StoredEvent).
          x.version == e.version
          && not (ltb (index_of x.transaction_uuid us) (index_of e.transaction_uuid us)))
        l

  insert_entry-All :
      (P : StoredEvent → Type 0) (e : StoredEvent) (l : List StoredEvent)
      → P e
      → All P l
      → All P (insert_entry us e l)
  unfolding insert_entry
  insert_entry-All P e [] h hs = (h, tt)
  insert_entry-All P e (x ∷ l) h hs = elim (Bool-cases (is_before us x e)) [
    | inl lt ↦ rw lt (hs.0, insert_entry-All P e l h hs.1)
    | inr ge ↦ rw ge (h, hs)
  ]

  All-insert_entry :
      (P : StoredEvent → Type 0) (e : StoredEvent) (l : List StoredEvent)
      → All P (insert_entry us e l)
      → P e × All P l
  unfolding insert_entry
  All-insert_entry P e [] h = h
  All-insert_entry P e (x ∷ l) h = elim (Bool-cases (is_before us x e)) [
    | inl lt ↦
        let g : P x × All P (insert_entry us e l) = rw lt at h in
        let (a, b) = All-insert_entry P e l g.1 in (a, (g.0, b))
    | inr ge ↦ rw ge at h
  ]

  sort_entries-All :
      (P : StoredEvent → Type 0) (l : List StoredEvent) → All P l → All P (sort_entries us l)
  unfolding sort_entries
  sort_entries-All P [] h = tt
  sort_entries-All P (e ∷ l) h =
      insert_entry-All P e (sort_entries us l) h.0 (sort_entries-All P l h.1)

  All-sort_entries :
      (P : StoredEvent → Type 0) (l : List StoredEvent) → All P (sort_entries us l) → All P l
  unfolding sort_entries
  All-sort_entries P [] h = tt
  All-sort_entries P (e ∷ l) h =
      let (a, b) = All-insert_entry P e (sort_entries us l) h in (a, All-sort_entries P l b)

  is_before-asym : (a b : StoredEvent) → is_before us a b ≡ true → is_before us b a ≡ false
  is_before-asym a b h = ground arith

  -- What is not before `x` is not before an event that `x` is not before.
  not_before_trans :
      (e x y : StoredEvent)
      → is_before us x e ≡ false
      → is_before us y x ≡ false
      → is_before us y e ≡ false
  not_before_trans e x y h g = ground arith

  insert_entry-Sorted :
      (e : StoredEvent) (l : List StoredEvent) → Sorted l → Sorted (insert_entry us e l)
  unfolding insert_entry
  insert_entry-Sorted e [] h = (tt, tt)
  insert_entry-Sorted e (x ∷ l) h = elim (Bool-cases (is_before us x e)) [
    | inl lt ↦ rw lt (
      insert_entry-All (λ y. is_before us y x ≡ false) e l (is_before-asym x e lt) h.0,
      insert_entry-Sorted e l h.1,
    )
    | inr ge ↦ rw ge ((ge, All-map _ _ l (λ y g. not_before_trans e x y ge g) h.0), h)
  ]

  sort_entries-Sorted : (l : List StoredEvent) → Sorted (sort_entries us l)
  unfolding sort_entries
  sort_entries-Sorted [] = tt
  sort_entries-Sorted (e ∷ l) = insert_entry-Sorted e (sort_entries us l) (sort_entries-Sorted l)

  keep_before-All :
      (P : StoredEvent → Type 0) (e : StoredEvent) (l : List StoredEvent)
      → P e
      → All P l
      → All P (keep_before e l)
  keep_before-All P e [] h hs = (h, tt)
  keep_before-All P e (x ∷ l) h hs = elim (Bool-cases (ltb e.version x.version)) [
    | inl lt ↦ rw lt (h, hs)
    | inr ge ↦ rw ge hs
  ]

  keep_last-All : (P : StoredEvent → Type 0) (l : List StoredEvent) → All P l → All P (keep_last l)
  unfolding keep_last
  keep_last-All P [] h = tt
  keep_last-All P (e ∷ l) h = keep_before-All P e (keep_last l) h.0 (keep_last-All P l h.1)

  keep_before-Strict :
      (e : StoredEvent) (l : List StoredEvent) → Strict l → Strict (keep_before e l)
  keep_before-Strict e [] h = (tt, tt)
  keep_before-Strict e (x ∷ l) h = elim (Bool-cases (ltb e.version x.version)) [
    | inl lt ↦
        let below : e.version < x.version = ltb→lt _ _ lt in
        rw lt ((below, All-map _ _ l (λ y g. omega (arith, below, g)) h.0), h)
    | inr ge ↦ rw ge h
  ]

  keep_last-Strict : (l : List StoredEvent) → Strict (keep_last l)
  unfolding keep_last
  keep_last-Strict [] = tt
  keep_last-Strict (e ∷ l) = keep_before-Strict e (keep_last l) (keep_last-Strict l)

  keep_before-covers :
      (e d : StoredEvent) (l : List StoredEvent)
      → is_covered l d ≡ true
      → is_covered (keep_before e l) d ≡ true
  keep_before-covers e d [] h = cc
  keep_before-covers e d (x ∷ l) h = elim (Bool-cases (ltb e.version x.version)) [
    | inl lt ↦ rw lt (ground (arith, h))
    | inr ge ↦ rw ge h
  ]

  keep_before-covers_self :
      (e : StoredEvent) (l : List StoredEvent)
      → All (λ x. is_before us x e ≡ false) l
      → is_covered (keep_before e l) e ≡ true
  keep_before-covers_self e [] h = ground arith
  keep_before-covers_self e (x ∷ l) h = elim (Bool-cases (ltb e.version x.version)) [
    | inl lt ↦ rw lt (ground arith)
    | inr ge ↦ rw ge (ground (arith, h.0))
  ]

  keep_last-covers :
      (l : List StoredEvent) → Sorted l → All (λ d. is_covered (keep_last l) d ≡ true) l
  unfolding keep_last
  keep_last-covers [] h = tt
  keep_last-covers (e ∷ l) h = (
    keep_before-covers_self e (keep_last l) (keep_last-All _ l h.0),
    All-map _ _ l (λ d g. keep_before-covers e d (keep_last l) g) (keep_last-covers l h.1),
  )

  self-covers : (l : List StoredEvent) → All (λ d. is_covered l d ≡ true) l
  self-covers [] = tt
  self-covers (e ∷ l) = (ground arith, All-map _ _ l (λ d g. ground (arith, g)) (self-covers l))

  All-Member : (l : List StoredEvent) → All (λ x. Member x l) l
  All-Member [] = tt
  All-Member (e ∷ l) = (inl refl, All-map _ _ l (λ x m. inr m) (All-Member l))

  -- What is seen of the selected events: none but them; for each of them an event of the same version
  -- from the same or a deeper transaction; in order, with each version once if they come from more
  -- than one transaction.
  pub data Visible (from : List StoredEvent) (seen : List StoredEvent) : Type 0 where
    of_one :
        several_transactions seen ≡ false
        → All (λ x. Member x from) seen
        → All (λ d. is_covered seen d ≡ true) from
        → Rising seen
        → Visible from seen
    of_several :
        All (λ x. Member x from) seen
        → All (λ d. is_covered seen d ≡ true) from
        → Strict seen
        → Visible from seen

  arrange-Visible : (l : List StoredEvent) → Visible l (arrange us l)
  unfolding arrange
  arrange-Visible l =
      let entries = sort_entries us l in
      let members = sort_entries-All (λ x. Member x l) l (All-Member l) in
      elim (Bool-cases (several_transactions entries)) [
        | inl several ↦ rw several (
            of_several (keep_last-All _ entries members)
              (All-sort_entries _ l (keep_last-covers entries (sort_entries-Sorted l)))
              (keep_last-Strict entries))
        | inr single ↦ rw single (
            of_one single members (All-sort_entries _ l (self-covers entries))
              (Sorted-Rising entries (sort_entries-Sorted l)))
      ]

-- The stored events of the entity, in the transactions of the chain.
abbrev pub in_chain : ℕ → Uuid → List Uuid → Store → List StoredEvent
in_chain name uuid us s =
    select_if
      (λ (e : StoredEvent).
        e.name == name && (e.uuid == uuid && any_of (λ u. u == e.transaction_uuid) us))
      s.events

select_if_twice :
    (f g h : StoredEvent → Bool) (l : List StoredEvent)
    → ((e : StoredEvent) → f e && g e ≡ h e)
    → select_if g (select_if f l) ≡ select_if h l
select_if_twice f g h [] same = refl
select_if_twice f g h (e ∷ l) same = ground (arith, same e, select_if_twice f g h l same)

selected-in_chain :
    (name : ℕ) (uuid : Uuid) (us : List Uuid) (s : Store)
    → selected name uuid us s ≡ in_chain name uuid us s
unfolding selected Events.select Events.fn_filter
selected-in_chain name uuid us s = select_if_twice _ _ _ s.events (λ e. ground (
  arith,
  any_of-congr (λ u. e.transaction_uuid == u) (λ u. u == e.transaction_uuid) us (λ u. ground arith),
))

-- Inside a chain of transactions an entity is built from events of the entity in the chain only. Each
-- such event is there itself, or an event of its version from the same or a deeper transaction stands
-- for it. If the events are of several transactions, each version is there once and the versions go
-- up; if they are of one, the versions do not go down.
pub get_event_entries-Visible :
    (name : ℕ) (uuid : Uuid) (us : List Uuid) (s : Store)
    → Visible us (in_chain name uuid us s) (get_event_entries name uuid us s)
unfolding get_event_entries
get_event_entries-Visible name uuid us s =
    subst (λ l. Visible us l (arrange us (selected name uuid us s)))
      (selected-in_chain name uuid us s) (arrange-Visible us (selected name uuid us s))
