-- ===== src/Saga/Commit/Transactions.antt =====
-- The property `transactions`: each pair of an execution and a service once, in order.
use minos_python.Base.{
  ℕ, ◌≡◌, refl, ◌∙◌, inl, inr, Bool, true, false, ◌&&◌, ◌||◌, List, [], ◌∷◌, ◌++◌, arith, ◌==◌, ltb,
  if◌then◌else◌, any_of, any_of-append, All, All-map, Bool-cases,
}
use minos_python.Saga.Types.{Uuid}

abbrev pub Pair : Type 0
Pair = Uuid × ℕ

abbrev pub same_pair : Pair → Pair → Bool
same_pair (u, n) (v, m) = u == v && n == m

-- `a < b` on tuples.
abbrev pub pair_ltb : Pair → Pair → Bool
pair_ltb (u, n) (v, m) = ltb u v || (u == v && ltb n m)

abbrev pub has_pair : Pair → List Pair → Bool
has_pair a = any_of (same_pair a)

-- The loop of `_fn`: a pair is appended unless it is in `uniques`.
unfoldable pub add_unique : List Pair → List Pair → List Pair
add_unique acc [] = acc
add_unique acc (a ∷ l) = add_unique (if has_pair a acc then acc else acc ++ (a ∷ [])) l

-- `list.sort()`: Python's sort is not under the repository, so any sort serves; this one inserts.
unfoldable pub insert_pair : Pair → List Pair → List Pair
insert_pair a [] = a ∷ []
insert_pair a (b ∷ l) = if pair_ltb a b then a ∷ b ∷ l else b ∷ insert_pair a l

unfoldable pub sort_pairs : List Pair → List Pair
sort_pairs [] = []
sort_pairs (a ∷ l) = insert_pair a (sort_pairs l)

-- `transactions`, from the pairs in the order in which `_fn` meets them.
unfoldable pub transactions : List Pair → List Pair
transactions l = sort_pairs (add_unique [] l)

-- Each pair is less than all that follow.
abbrev pub Ascending : List Pair → Type 0
Ascending [] = Unit
Ascending (a ∷ l) = All (λ b. pair_ltb a b ≡ true) l × Ascending l

pair_ltb_trans : (a b c : Pair) → pair_ltb a b ≡ true → pair_ltb b c ≡ true → pair_ltb a c ≡ true
pair_ltb_trans (u, n) (v, m) (w, k) h g = ground arith

pair_ltb-total : (a b : Pair) → pair_ltb a b ≡ false → same_pair a b ≡ false → pair_ltb b a ≡ true
pair_ltb-total (u, n) (v, m) h g = ground arith

-- A list that holds each of its pairs once.
abbrev Unique : List Pair → Type 0
Unique [] = Unit
Unique (a ∷ l) = (has_pair a l ≡ false) × Unique l

insert_pair-All :
    (P : Pair → Type 0) (a : Pair) (l : List Pair) → P a → All P l → All P (insert_pair a l)
unfolding insert_pair
insert_pair-All P a [] h hs = (h, tt)
insert_pair-All P a (b ∷ l) h hs = elim (Bool-cases (pair_ltb a b)) [
  | inl lt ↦ rw lt (h, hs)
  | inr ge ↦ rw ge (hs.0, insert_pair-All P a l h hs.1)
]

insert_pair-Ascending :
    (a : Pair) (l : List Pair) → has_pair a l ≡ false → Ascending l → Ascending (insert_pair a l)
unfolding insert_pair
insert_pair-Ascending a [] new h = (tt, tt)
insert_pair-Ascending a (b ∷ l) new h = elim (Bool-cases (pair_ltb a b)) [
  | inl lt ↦ rw lt ((lt, All-map _ _ l (λ c g. pair_ltb_trans a b c lt g) h.0), h)
  | inr ge ↦ rw ge (
    insert_pair-All _ a l (pair_ltb-total a b ge (ground arith)) h.0,
    insert_pair-Ascending a l (ground arith) h.1,
  )
]

has_pair-insert :
    (c a : Pair) (l : List Pair) → has_pair c (insert_pair a l) ≡ same_pair c a || has_pair c l
unfolding insert_pair
has_pair-insert c a [] = refl
has_pair-insert c a (b ∷ l) = ground (arith, has_pair-insert c a l)

has_pair-sort : (c : Pair) (l : List Pair) → has_pair c (sort_pairs l) ≡ has_pair c l
unfolding sort_pairs
has_pair-sort c [] = refl
has_pair-sort c (a ∷ l) = rw (has_pair-insert c a (sort_pairs l), has_pair-sort c l)

sort_pairs-Ascending : (l : List Pair) → Unique l → Ascending (sort_pairs l)
unfolding sort_pairs
sort_pairs-Ascending [] h = tt
sort_pairs-Ascending (a ∷ l) h =
    insert_pair-Ascending a (sort_pairs l) (rw (has_pair-sort a l) h.0) (sort_pairs-Ascending l h.1)

same_pair_comm : (a b : Pair) → same_pair a b ≡ same_pair b a
same_pair_comm (u, n) (v, m) = ground arith

Unique-snoc : (l : List Pair) (a : Pair) → Unique l → has_pair a l ≡ false → Unique (l ++ (a ∷ []))
Unique-snoc [] a h new = (refl, tt)
Unique-snoc (b ∷ l) a h new = (
  ground (arith, any_of-append (same_pair b) l (a ∷ []), same_pair_comm a b),
  Unique-snoc l a h.1 (ground arith),
)

add_unique-Unique : (acc l : List Pair) → Unique acc → Unique (add_unique acc l)
unfolding add_unique
add_unique-Unique acc [] h = h
add_unique-Unique acc (a ∷ l) h = elim (Bool-cases (has_pair a acc)) [
  | inl old ↦ rw old (add_unique-Unique acc l h)
  | inr new ↦ rw new (add_unique-Unique (acc ++ (a ∷ [])) l (Unique-snoc acc a h new))
]

has_pair-same : (c a : Pair) (l : List Pair) → same_pair c a ≡ true → has_pair c l ≡ has_pair a l
has_pair-same (u, n) (v, m) [] h = refl
has_pair-same (u, n) (v, m) ((w, k) ∷ l) h = ground (arith, has_pair-same (u, n) (v, m) l h)

has_pair-add_unique :
    (c : Pair) (acc l : List Pair) → has_pair c (add_unique acc l) ≡ has_pair c acc || has_pair c l
unfolding add_unique
has_pair-add_unique c acc [] = ground arith
has_pair-add_unique c acc (a ∷ l) = elim (Bool-cases (has_pair a acc)) [
  | inl old ↦ rw (old, has_pair-add_unique c acc l) (ground (arith, has_pair-same c a acc))
  | inr new ↦
      rw (new, has_pair-add_unique c (acc ++ (a ∷ [])) l, any_of-append (same_pair c) acc (a ∷ []))
        (ground arith)
]

-- The committer deals with every pair that the steps name, with no other, and with each once: the
-- list is strictly ascending.
pub transactions-exact :
    (l : List Pair)
    → Ascending (transactions l) × ((c : Pair) → has_pair c (transactions l) ≡ has_pair c l)
unfolding transactions
transactions-exact l = (
  sort_pairs-Ascending (add_unique [] l) (add_unique-Unique [] l tt),
  λ c. has_pair-sort c (add_unique [] l) ∙ has_pair-add_unique c [] l,
)
