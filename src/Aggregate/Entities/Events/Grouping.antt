-- ===== src/Aggregate/Entities/Events/Grouping.antt =====
-- A container of diffs that come in blocks, one for each name: it is accepted, and gives its diffs in
-- the order in which they were put in.
use minos_python.Base.{
  ℕ, ◌≡◌, refl, sym, ap, ◌∙◌, Bool, true, false, ◌||◌, List, [], ◌∷◌, ◌++◌, append-nil,
  append_assoc, arith, ◌==◌, ==_refl, All, return,
}
use minos_python.Aggregate.Entities.Events.{
  FieldDiff, name_of, Groups, append_to, group_from, is_refused, check_groups, build_mapper,
  new_container, chain_groups, flatten_values,
}

abbrev pub has_key : ℕ → Groups → Bool
has_key n [] = false
has_key n ((k, ds) ∷ gs) = (k == n) || has_key n gs

abbrev pub IsBlock : ℕ → List FieldDiff → Type 0
IsBlock n ds = All (λ d. name_of d ≡ n) ds × (is_refused ds ≡ false)

-- The diffs of each name are a block, and the names are distinct.
abbrev pub IsBlocks : Groups → Type 0
IsBlocks [] = Unit
IsBlocks ((k, ds) ∷ bs) = IsBlock k ds × (has_key k bs ≡ false) × IsBlocks bs

-- Without the empty blocks.
abbrev keep_filled : Groups → Groups
keep_filled [] = []
keep_filled ((k, []) ∷ bs) = keep_filled bs
keep_filled ((k, d ∷ ds) ∷ bs) = (k, d ∷ ds) ∷ keep_filled bs

abbrev IsNew : Groups → Groups → Type 0
IsNew gs [] = Unit
IsNew gs ((k, ds) ∷ bs) = (has_key k gs ≡ false) × IsNew gs bs

group_from-append :
    (gs : Groups) (ds es : List FieldDiff)
    → group_from gs (ds ++ es) ≡ group_from (group_from gs ds) es
group_from-append gs [] es = refl
group_from-append gs (d ∷ ds) es = group_from-append (append_to d gs) ds es

append_to_other :
    (d : FieldDiff) (n k : ℕ) (ds : List FieldDiff) (gs : Groups)
    → name_of d ≡ n
    → (k == n) ≡ false
    → append_to d ((k, ds) ∷ gs) ≡ (k, ds) ∷ append_to d gs
append_to_other d n k ds gs e other =
    let h : (k == name_of d) ≡ false = ap (λ m. k == m) e ∙ other in rw h

append_to_new :
    (d : FieldDiff) (n : ℕ) (gs : Groups)
    → name_of d ≡ n
    → has_key n gs ≡ false
    → append_to d gs ≡ gs ++ ((n, d ∷ []) ∷ [])
append_to_new d n [] e h = rw e
append_to_new d n ((k, ds) ∷ gs) e h =
    append_to_other d n k ds gs e (ground arith)
    ∙ ap (λ g. (k, ds) ∷ g) (append_to_new d n gs e (ground arith))

append_to_last :
    (d : FieldDiff) (n : ℕ) (gs : Groups) (xs : List FieldDiff)
    → name_of d ≡ n
    → has_key n gs ≡ false
    → append_to d (gs ++ ((n, xs) ∷ [])) ≡ gs ++ ((n, xs ++ (d ∷ [])) ∷ [])
append_to_last d n [] xs e h =
    let same : (n == name_of d) ≡ true = ap (λ m. n == m) e ∙ ==_refl n in rw same
append_to_last d n ((k, ds) ∷ gs) xs e h =
    append_to_other d n k ds (gs ++ ((n, xs) ∷ [])) e (ground arith)
    ∙ ap (λ g. (k, ds) ∷ g) (append_to_last d n gs xs e (ground arith))

group_block :
    (n : ℕ) (gs : Groups) (xs ds : List FieldDiff)
    → All (λ d. name_of d ≡ n) ds
    → has_key n gs ≡ false
    → group_from (gs ++ ((n, xs) ∷ [])) ds ≡ gs ++ ((n, xs ++ ds) ∷ [])
group_block n gs xs [] h new = rw append-nil
group_block n gs xs (d ∷ ds) h new =
    ap (λ g. group_from g ds) (append_to_last d n gs xs h.0 new)
    ∙ group_block n gs (xs ++ (d ∷ [])) ds h.1 new
    ∙ ap (λ l. gs ++ ((n, l) ∷ [])) (append_assoc xs (d ∷ []) ds)

has_key-append : (n : ℕ) (gs hs : Groups) → has_key n (gs ++ hs) ≡ has_key n gs || has_key n hs
has_key-append n [] hs = refl
has_key-append n ((k, ds) ∷ gs) hs = ground (arith, has_key-append n gs hs)

IsNew-append :
    (gs : Groups) (n : ℕ) (xs : List FieldDiff) (bs : Groups)
    → IsNew gs bs
    → has_key n bs ≡ false
    → IsNew (gs ++ ((n, xs) ∷ [])) bs
IsNew-append gs n xs [] new h = tt
IsNew-append gs n xs ((k, ds) ∷ bs) new h = (
  has_key-append k gs ((n, xs) ∷ []) ∙ ground (arith, new.0),
  IsNew-append gs n xs bs new.1 (ground arith),
)

group_blocks :
    (gs bs : Groups)
    → IsBlocks bs
    → IsNew gs bs
    → group_from gs (chain_groups bs) ≡ gs ++ keep_filled bs
group_blocks gs [] h new = sym (append-nil gs)
group_blocks gs ((k, []) ∷ bs) h new = group_blocks gs bs h.2 new.1
group_blocks gs ((k, d ∷ ds) ∷ bs) h new =
    group_from-append (append_to d gs) ds (chain_groups bs)
    ∙ ap (λ g. group_from (group_from g ds) (chain_groups bs)) (append_to_new d k gs h.0.0.0 new.0)
    ∙ ap (λ g. group_from g (chain_groups bs)) (group_block k gs (d ∷ []) ds h.0.0.1 new.0)
    ∙ group_blocks (gs ++ ((k, d ∷ ds) ∷ [])) bs h.2 (IsNew-append gs k (d ∷ ds) bs new.1 h.1)
    ∙ append_assoc gs ((k, d ∷ ds) ∷ []) (keep_filled bs)

IsNew-nil : (bs : Groups) → IsNew [] bs
IsNew-nil [] = tt
IsNew-nil ((k, ds) ∷ bs) = (refl, IsNew-nil bs)

chain-keep_filled : (bs : Groups) → chain_groups (keep_filled bs) ≡ chain_groups bs
chain-keep_filled [] = refl
chain-keep_filled ((k, []) ∷ bs) = chain-keep_filled bs
chain-keep_filled ((k, d ∷ ds) ∷ bs) = ap (λ l. (d ∷ ds) ++ l) (chain-keep_filled bs)

check-keep_filled : (bs : Groups) → IsBlocks bs → check_groups (keep_filled bs) ≡ return tt
check-keep_filled [] h = refl
check-keep_filled ((k, []) ∷ bs) h = check-keep_filled bs h.2
check-keep_filled ((k, d ∷ ds) ∷ bs) h = rw h.0.1 (check-keep_filled bs h.2)

group_blocks_nil : (bs : Groups) → IsBlocks bs → group_from [] (chain_groups bs) ≡ keep_filled bs
group_blocks_nil bs h = group_blocks [] bs h (IsNew-nil bs)

pub flatten-blocks :
    (bs : Groups) → IsBlocks bs → flatten_values (chain_groups bs) ≡ chain_groups bs
flatten-blocks bs h = ap chain_groups (group_blocks_nil bs h) ∙ chain-keep_filled bs

pub new_container-blocks :
    (bs : Groups) → IsBlocks bs → new_container (chain_groups bs) ≡ return (chain_groups bs)
unfolding new_container build_mapper
new_container-blocks bs h =
    let accepted : check_groups (group_from [] (chain_groups bs)) ≡ return tt =
      ap check_groups (group_blocks_nil bs h) ∙ check-keep_filled bs h in
    rw (accepted, new_container, build_mapper)
