-- ===== src/Aggregate/Entities/Root/Blocks.antt =====
-- `apply_diff` on a block of diffs of one field.
use minos_python.Base.{
  ℕ, ◌≡◌, refl, sym, ap, ◌∙◌, some, List, [], ◌∷◌, ◌++◌, arith, ◌==◌, ==_refl, if◌then◌else◌, All,
  ◌>>◌, inl, inr, Option-cases,
}
use minos_python.Aggregate.Entities.Events.{
  FieldValue, Fields, RootEntity, FieldDiff, name_of, find_field,
}
use minos_python.Aggregate.Entities.Root.{
  set_field, change_value, changed_value, assign, apply_fields,
}
use minos_python.Aggregate.Entities.Root.Values.{apply_all, continue}

pub find-set_field :
    (n m : ℕ) (v w : FieldValue) (fs : Fields)
    → find_field n fs ≡ some w
    → find_field m (set_field n v fs) ≡ (if n == m then some v else find_field m fs)
find-set_field n m v w [] h = cc
find-set_field n m v w ((k, u) ∷ fs) h = ground (arith, find-set_field n m v w fs)

set_field_self :
    (n : ℕ) (w : FieldValue) (fs : Fields) → find_field n fs ≡ some w → set_field n w fs ≡ fs
set_field_self n w [] h = refl
set_field_self n w ((k, u) ∷ fs) h = ground (arith, set_field_self n w fs)

set_field_twice :
    (n : ℕ) (v w : FieldValue) (fs : Fields) → set_field n v (set_field n w fs) ≡ set_field n v fs
set_field_twice n v w [] = refl
set_field_twice n v w ((k, u) ∷ fs) = ground (arith, set_field_twice n v w fs)

unfoldable pub with_fields : RootEntity → Fields → RootEntity
with_fields r fs = record r { fields = fs }

apply_fields-step :
    (d : FieldDiff) (n : ℕ) (ds : List FieldDiff) (r : RootEntity) (w w' : FieldValue)
    → name_of d ≡ n
    → find_field n r.fields ≡ some w
    → change_value d w ≡ some w'
    → apply_fields (d ∷ ds) r ≡ apply_fields ds (with_fields r (set_field n w' r.fields))
unfolding with_fields
apply_fields-step d n ds r w w' named found changes =
    let value : changed_value d (find_field (name_of d) r.fields) ≡ some w' =
      ap (λ k. changed_value d (find_field k r.fields)) named
      ∙ ap (changed_value d) found
      ∙ changes in
    ap (λ o. (assign (name_of d) o >> apply_fields ds) r) value
    ∙ ap (λ k. apply_fields ds (with_fields r (set_field k w' r.fields))) named

pub apply_fields-block :
    (n : ℕ) (ds es : List FieldDiff) (r : RootEntity) (w w' : FieldValue)
    → All (λ d. name_of d ≡ n) ds
    → find_field n r.fields ≡ some w
    → apply_all ds w ≡ some w'
    → apply_fields (ds ++ es) r ≡ apply_fields es (with_fields r (set_field n w' r.fields))
unfolding with_fields
apply_fields-block n [] es r w w' named found h =
    ap (λ fs. apply_fields es (with_fields r fs))
      (sym (set_field_self n w r.fields found) ∙ ap (λ v. set_field n v r.fields) (cc h))
apply_fields-block n (d ∷ ds) es r w w' named found h = elim (Option-cases (change_value d w)) [
  | inl fails ↦ absurd (cc (h, ap (continue ds) fails))
  | inr (v, changes) ↦
      let rest : apply_all ds v ≡ some w' = sym (ap (continue ds) changes) ∙ h in
      let r₁ = with_fields r (set_field n v r.fields) in
      let here : find_field n r₁.fields ≡ some v =
        find-set_field n n v w r.fields found ∙ rw (==_refl n) in
      apply_fields-step d n (ds ++ es) r w v named.0 found changes
      ∙ apply_fields-block n ds es r₁ v w' named.1 here rest
      ∙ ap (λ fs. apply_fields es (with_fields r fs)) (set_field_twice n w' v r.fields)
]
