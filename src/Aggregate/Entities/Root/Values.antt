-- ===== src/Aggregate/Entities/Root/Values.antt =====
-- What the diffs of one field do to its old value: they lead to the new one.
use minos_python.Base.{
  ℕ, ◌≡◌, refl, sym, ◌∙◌, true, false, not, Option, none, some, List, [], ◌∷◌, map, arith, contains,
  is_empty, any_of, All, return, inl, inr, Bool-cases,
}
use minos_python.Aggregate.Entities.Sets.{
  ValueEntity, SetChange, minus, minus_entities, modified, value_diff, entity_diff, find_entity,
  apply_change, apply_value_diff, apply_entity_diff, add_value, discard_value, add_entity,
  discard_entity,
}
use minos_python.Aggregate.Entities.Sets.Diffs.{
  IsKeyed, apply_value_diff-value_diff, apply_entity_diff-entity_diff,
}
use minos_python.Aggregate.Entities.Events.{
  FieldValue, scalar, value_set, entity_set, FieldDiff, plain, of_value, of_entity, name_of,
  is_incremental, value_eq, field_changes,
}
use minos_python.Aggregate.Entities.Events.Grouping.{IsBlock}
use minos_python.Aggregate.Entities.Root.{change_value}

-- The same number, or sets with the same members.
abbrev pub SameMembers : FieldValue → FieldValue → Type 0
SameMembers (scalar a) (scalar b) = a ≡ b
SameMembers (value_set a) (value_set b) = (x : ℕ) → contains x a ≡ contains x b
SameMembers (entity_set a) (entity_set b) = (u : ℕ) → find_entity u a ≡ find_entity u b
SameMembers _ _ = ⊥

-- Two values of one kind; the entities of a set have distinct identifiers.
abbrev pub SameKind : FieldValue → FieldValue → Type 0
SameKind (scalar a) (scalar b) = Unit
SameKind (value_set a) (value_set b) = Unit
SameKind (entity_set a) (entity_set b) = IsKeyed a × IsKeyed b
SameKind _ _ = ⊥

abbrev pub apply_all : List FieldDiff → FieldValue → Option FieldValue
apply_all [] w = some w
apply_all (d ∷ ds) w = elim (change_value d w) [ none ↦ none | some w' ↦ apply_all ds w' ]

abbrev pub continue : List FieldDiff → Option FieldValue → Option FieldValue
continue ds none = none
continue ds (some w) = apply_all ds w

is_empty-nil : {A : Type 0} (xs : List A) → is_empty xs ≡ true → xs ≡ []
is_empty-nil [] h = refl
is_empty-nil (x ∷ xs) h = cc

apply_all-of_value :
    (n : ℕ) (cs : List (SetChange ℕ)) (xs : List ℕ)
    → apply_all (map (of_value n) cs) (value_set xs) ≡ some (value_set (apply_value_diff cs xs))
unfolding apply_value_diff
apply_all-of_value n [] xs = refl
apply_all-of_value n (c ∷ cs) xs =
    apply_all-of_value n cs (apply_change add_value discard_value c xs)

apply_all-of_entity :
    (n : ℕ) (cs : List (SetChange ValueEntity)) (es : List ValueEntity)
    → apply_all (map (of_entity n) cs) (entity_set es) ≡ some (entity_set (apply_entity_diff cs es))
unfolding apply_entity_diff
apply_all-of_entity n [] es = refl
apply_all-of_entity n (c ∷ cs) es =
    apply_all-of_entity n cs (apply_change add_entity discard_entity c es)

none_plain :
    {T : Type 0} (f : SetChange T → FieldDiff) (cs : List (SetChange T))
    → ((c : SetChange T) → is_incremental (f c) ≡ true)
    → any_of (λ d. not (is_incremental d)) (map f cs) ≡ false
none_plain f [] h = refl
none_plain f (c ∷ cs) h = rw (h c) (none_plain f cs h)

All-named :
    {T : Type 0} (n : ℕ) (f : SetChange T → FieldDiff) (cs : List (SetChange T))
    → ((c : SetChange T) → name_of (f c) ≡ n)
    → All (λ d. name_of d ≡ n) (map f cs)
All-named n f [] h = tt
All-named n f (c ∷ cs) h = (h c, All-named n f cs h)

incremental-IsBlock :
    {T : Type 0} (n : ℕ) (f : SetChange T → FieldDiff) (cs : List (SetChange T))
    → ((c : SetChange T) → name_of (f c) ≡ n)
    → ((c : SetChange T) → is_incremental (f c) ≡ true)
    → IsBlock n (map f cs)
incremental-IsBlock n f cs named incremental =
    (All-named n f cs named, ground (arith, none_plain f cs incremental))

-- What the diffs of one field do to its old value.
pub record Leads (n : ℕ) (v w : FieldValue) : Type 0 where
  pub diffs : List FieldDiff
  pub computed : field_changes n v (some w) ≡ return diffs
  pub block : IsBlock n diffs
  pub result : FieldValue
  pub applied : apply_all diffs w ≡ some result
  pub same : SameMembers v result

value_eq-SameMembers : (v w : FieldValue) → SameKind v w → value_eq v w ≡ true → SameMembers v w
unfolding value_diff entity_diff apply_value_diff apply_entity_diff
value_eq-SameMembers (scalar a) (scalar b) k h = ground arith
value_eq-SameMembers (value_set a) (value_set b) k h = λ x.
    let p : minus a b ≡ [] = is_empty-nil (minus a b) (ground arith) in
    let q : minus b a ≡ [] = is_empty-nil (minus b a) (ground arith) in
    let nothing : value_diff a b ≡ [] = rw (p, q) in
    sym (apply_value_diff-value_diff a b x) ∙ rw (nothing, apply_value_diff)
value_eq-SameMembers (entity_set a) (entity_set b) k h = λ u.
    let p : minus_entities a b ≡ [] = is_empty-nil (minus_entities a b) (ground arith) in
    let q : minus_entities b a ≡ [] = is_empty-nil (minus_entities b a) (ground arith) in
    let m : modified a b ≡ [] = is_empty-nil (modified a b) (ground arith) in
    let nothing : entity_diff a b ≡ [] = rw (p, q, m) in
    sym (apply_entity_diff-entity_diff a b u k.0 k.1) ∙ rw (nothing, apply_entity_diff)
value_eq-SameMembers (scalar a) (value_set b) k h = elim k [ ]
value_eq-SameMembers (scalar a) (entity_set b) k h = elim k [ ]
value_eq-SameMembers (value_set a) (scalar b) k h = elim k [ ]
value_eq-SameMembers (value_set a) (entity_set b) k h = elim k [ ]
value_eq-SameMembers (entity_set a) (scalar b) k h = elim k [ ]
value_eq-SameMembers (entity_set a) (value_set b) k h = elim k [ ]

differing-Leads : (n : ℕ) (v w : FieldValue) → SameKind v w → value_eq v w ≡ false → Leads n v w
differing-Leads n (scalar a) (scalar b) k h = record {
  diffs = plain n (scalar a) ∷ [];
  computed = rw h;
  block = ((refl, tt), refl);
  result = scalar a;
  applied = refl;
  same = refl;
}
differing-Leads n (value_set a) (value_set b) k h = record {
  diffs = map (of_value n) (value_diff a b);
  computed = rw h;
  block = incremental-IsBlock n (of_value n) (value_diff a b) (λ c. refl) (λ c. refl);
  result = value_set (apply_value_diff (value_diff a b) b);
  applied = apply_all-of_value n (value_diff a b) b;
  same = λ x. sym (apply_value_diff-value_diff a b x);
}
differing-Leads n (entity_set a) (entity_set b) k h = record {
  diffs = map (of_entity n) (entity_diff a b);
  computed = rw h;
  block = incremental-IsBlock n (of_entity n) (entity_diff a b) (λ c. refl) (λ c. refl);
  result = entity_set (apply_entity_diff (entity_diff a b) b);
  applied = apply_all-of_entity n (entity_diff a b) b;
  same = λ u. sym (apply_entity_diff-entity_diff a b u k.0 k.1);
}
differing-Leads n (scalar a) (value_set b) k h = elim k [ ]
differing-Leads n (scalar a) (entity_set b) k h = elim k [ ]
differing-Leads n (value_set a) (scalar b) k h = elim k [ ]
differing-Leads n (value_set a) (entity_set b) k h = elim k [ ]
differing-Leads n (entity_set a) (scalar b) k h = elim k [ ]
differing-Leads n (entity_set a) (value_set b) k h = elim k [ ]

pub field-Leads : (n : ℕ) (v w : FieldValue) → SameKind v w → Leads n v w
field-Leads n v w k = elim (Bool-cases (value_eq v w)) [
  | inl equal ↦ record {
    diffs = [];
    computed = rw equal;
    block = (tt, refl);
    result = w;
    applied = refl;
    same = value_eq-SameMembers v w k equal;
  }
  | inr other ↦ differing-Leads n v w k other
]
