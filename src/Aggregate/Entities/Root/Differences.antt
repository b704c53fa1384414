-- ===== src/Aggregate/Entities/Root/Differences.antt =====
-- The difference of two versions of a root entity leads from the old one to the new one.
use minos_python.Base.{
  ℕ, ◌≡◌, refl, sym, ap, subst, ◌∙◌, true, Option, none, some, List, [], ◌∷◌, ◌++◌, arith, ◌==◌,
  ==_refl, if◌then◌else◌, ltb, Result, return, and_then, inl, inr, Bool-cases, Option-cases, modify,
}
use minos_python.Aggregate.Store.{update}
use minos_python.Aggregate.Entities.Sets.{is_some}
use minos_python.Aggregate.Entities.Events.{
  FieldValue, Fields, RootEntity, FieldDiff, Groups, Event, ModelError, find_field, field_changes,
  extend, chain_changes, diff_fields, container_from_difference, chain_groups, flatten_values,
  fill_container, with_diffs, event_from_difference, event_of, latest,
}
use minos_python.Aggregate.Entities.Events.Grouping.{
  has_key, IsBlocks, flatten-blocks, new_container-blocks,
}
use minos_python.Aggregate.Entities.Root.{set_field, apply_fields, apply_diff, diff}
use minos_python.Aggregate.Entities.Root.Values.{SameMembers, SameKind, Leads, field-Leads}
use minos_python.Aggregate.Entities.Root.Blocks.{find-set_field, with_fields, apply_fields-block}

abbrev KindOf : FieldValue → Option FieldValue → Type 0
KindOf v none = ⊥
KindOf v (some w) = SameKind v w

-- Every field of the first instance is in the second, with a value of its kind; names are distinct.
abbrev pub IsCovered : Fields → Fields → Type 0
IsCovered [] b = Unit
IsCovered ((n, v) ∷ a) b = KindOf v (find_field n b) × (find_field n a ≡ none) × IsCovered a b

-- A field of the new instance, the field of that name in the old one, and what it has become.
abbrev pub Becomes : Option FieldValue → Option FieldValue → Option FieldValue → Type 0
Becomes none w w' = w' ≡ w
Becomes (some v) w none = ⊥
Becomes (some v) w (some v') = SameMembers v v'

abbrev Ready : Fields → Fields → RootEntity → Type 0
Ready a b r = (m : ℕ) → is_some (find_field m a) ≡ true → find_field m r.fields ≡ find_field m b

record Applied (a : Fields) (ds : List FieldDiff) (r : RootEntity) : Type 0 where
  fields : Fields
  runs : apply_fields ds r ≡ (return tt, with_fields r fields)
  becomes : (m : ℕ) → Becomes (find_field m a) (find_field m r.fields) (find_field m fields)

record Differs (a b : Fields) : Type 0 where
  blocks : Groups
  computed : diff_fields a b ≡ return (chain_groups blocks)
  distinct : IsBlocks blocks
  keys : (m : ℕ) → has_key m blocks ≡ is_some (find_field m a)
  applied : (r : RootEntity) → Ready a b r → Applied a (chain_groups blocks) r

nil-Differs : (b : Fields) → Differs [] b
unfolding diff_fields with_fields
nil-Differs b = record {
  blocks = [];
  computed = refl;
  distinct = tt;
  keys = λ m. refl;
  applied = λ r ready. record { fields = r.fields; runs = refl; becomes = λ m. refl };
}

others_ready :
    (n : ℕ) (v v' : FieldValue) (a b fs : Fields) (m : ℕ) {after : Option FieldValue}
    → find_field n a ≡ none
    → (is_some (find_field m ((n, v) ∷ a)) ≡ true → find_field m fs ≡ find_field m b)
    → after ≡ (if n == m then some v' else find_field m fs)
    → is_some (find_field m a) ≡ true
    → after ≡ find_field m b
others_ready n v v' a b fs m new ready set has = elim (Bool-cases (n == m)) [
  | inl same ↦
      let e : n ≡ m = ground arith in
      absurd (cc (has, ap (λ k. is_some (find_field k a)) (sym e), ap is_some new))
  | inr other ↦ set ∙ rw other (ready (rw other has))
]

cons-Becomes :
    (n : ℕ) (v v' : FieldValue) (a : Fields) (m : ℕ) (old between after : Option FieldValue)
    → find_field n a ≡ none
    → SameMembers v v'
    → between ≡ (if n == m then some v' else old)
    → Becomes (find_field m a) between after
    → Becomes (find_field m ((n, v) ∷ a)) old after
cons-Becomes n v v' a m old between after new same set becomes = elim (Bool-cases (n == m)) [
  | inl here ↦
      let e : n ≡ m = ground arith in
      let kept : after ≡ between =
        subst (λ o. Becomes o between after) (sym (ap (λ k. find_field k a) e) ∙ new) becomes in
      let now : after ≡ some v' = kept ∙ set ∙ rw here in
      rw here (subst (λ o. Becomes (some v) old o) (sym now) same)
  | inr other ↦
      let moved : between ≡ old = set ∙ rw other in
      rw other (subst (λ o. Becomes (find_field m a) o after) moved becomes)
]

-- The first field has its new value after its diffs, and the diffs of the others keep it.
cons-Applied :
    (n : ℕ) (v w : FieldValue) (a b : Fields) (r : RootEntity) (here : Leads n v w)
    (rest : Differs a b)
    → find_field n b ≡ some w
    → find_field n a ≡ none
    → Ready ((n, v) ∷ a) b r
    → Applied ((n, v) ∷ a) (here.diffs ++ chain_groups rest.blocks) r
unfolding with_fields
cons-Applied n v w a b r here rest old new ready =
    let found : find_field n r.fields ≡ some w = ready n (rw (==_refl n)) ∙ old in
    let r₁ = with_fields r (set_field n here.result r.fields) in
    let set : (m : ℕ)
        → find_field m r₁.fields ≡ (if n == m then some here.result else find_field m r.fields) =
      λ m. find-set_field n m here.result w r.fields found in
    let others =
      rest.applied r₁ (λ m. others_ready n v here.result a b r.fields m new (ready m) (set m)) in
    record {
      fields = others.fields;
      runs =
          apply_fields-block n here.diffs (chain_groups rest.blocks) r w here.result here.block.0
            found here.applied
          ∙ others.runs;
      becomes = λ m.
          cons-Becomes n v here.result a m (find_field m r.fields) (find_field m r₁.fields)
            (find_field m others.fields) new here.same (set m) (others.becomes m);
    }

cons-Differs :
    (n : ℕ) (v w : FieldValue) (a b : Fields)
    → SameKind v w
    → find_field n b ≡ some w
    → find_field n a ≡ none
    → Differs a b
    → Differs ((n, v) ∷ a) b
unfolding diff_fields
cons-Differs n v w a b kind old new rest =
    let here = field-Leads n v w kind in
    record {
      blocks = (n, here.diffs) ∷ rest.blocks;
      computed =
          ap (λ o. chain_changes (field_changes n v o) (diff_fields a b)) old
          ∙ ap (λ c. chain_changes c (diff_fields a b)) here.computed
          ∙ ap (extend here.diffs) rest.computed;
      distinct = (here.block, rest.keys n ∙ ap is_some new, rest.distinct);
      keys = λ m. ground (arith, rest.keys m);
      applied = λ r ready. cons-Applied n v w a b r here rest old new ready;
    }

covered-Differs : (a b : Fields) → IsCovered a b → Differs a b
covered-Differs [] b h = nil-Differs b
covered-Differs ((n, v) ∷ a) b h = elim (Option-cases (find_field n b)) [
  | inl missing ↦ absurd (subst (KindOf v) missing h.0)
  | inr (w, found) ↦
      cons-Differs n v w a b (subst (KindOf v) found h.0) found h.1 (covered-Differs a b h.2)
]

container-Differs :
    (a b : Fields) (d : Differs a b)
    → container_from_difference a b ≡ return (chain_groups d.blocks)
unfolding container_from_difference
container-Differs a b d = ap fill_container d.computed ∙ new_container-blocks d.blocks d.distinct

uuid-latest : (a b : RootEntity) → a.uuid ≡ b.uuid → (latest a b).uuid ≡ b.uuid
uuid-latest a b same = elim (Bool-cases (ltb b.version a.version)) [
  | inl later ↦ rw later same
  | inr sooner ↦ rw sooner
]

diff-runs :
    (a b : RootEntity) (ds : List FieldDiff)
    → a.uuid ≡ b.uuid
    → container_from_difference a.fields b.fields ≡ return ds
    → diff a b ≡ return (event_of (latest a b) update ds)
unfolding diff event_from_difference
diff-runs a b ds same computed =
    let equal : (a.uuid == b.uuid) ≡ true = ground arith in
    rw equal (ap (with_diffs (latest a b) update) computed)

apply_diff-runs :
    (e : Event) (r : RootEntity) (fs : Fields)
    → (r.uuid == e.uuid) ≡ true
    → apply_fields (flatten_values e.fields_diff) r ≡ (return tt, with_fields r fs)
    → apply_diff e r
      ≡ (return tt, record r { version = e.version; updated_at = e.created_at; fields = fs })
unfolding apply_diff with_fields
apply_diff-runs e r fs same runs = rw same (
    ap
      (λ (q : Result ModelError Unit × RootEntity).
        and_then q.0
          (λ _.
            modify
              (λ (s : RootEntity). record s { version = e.version; updated_at = e.created_at }))
          q.1)
      runs)

-- `apply_diff` of a difference: every field of the newer instance has its value, as a set of members
-- where it is a set, and every other field is as it was. The version and the time of the update are
-- those of the instance with the larger version. The two instances have one identifier; the names
-- of the fields of the newer one are distinct, and the older one has these fields with values of the
-- same kind, entity sets with distinct identifiers.
pub apply_diff-diff :
    (a b : RootEntity)
    → a.uuid ≡ b.uuid
    → IsCovered a.fields b.fields
    → (e : Event) × (s : RootEntity) × (diff a b ≡ return e)
      × (apply_diff e b ≡ (return tt, s))
      × ((n : ℕ) → Becomes (find_field n a.fields) (find_field n b.fields) (find_field n s.fields))
      × (s.version ≡ (latest a b).version)
      × (s.updated_at ≡ (latest a b).updated_at)
unfolding diff event_from_difference apply_diff with_fields
apply_diff-diff a b same covered =
    let d = covered-Differs a.fields b.fields covered in
    let done = d.applied b (λ m h. refl) in
    let e = event_of (latest a b) update (chain_groups d.blocks) in
    let s = record b {
      version = (latest a b).version;
      updated_at = (latest a b).updated_at;
      fields = done.fields;
    } in
    (
      e,
      s,
      diff-runs a b (chain_groups d.blocks) same (container-Differs a.fields b.fields d),
      apply_diff-runs e b done.fields (rw (uuid-latest a b same, ==_refl b.uuid))
          (ap (λ ds. apply_fields ds b) (flatten-blocks d.blocks d.distinct) ∙ done.runs),
      done.becomes,
      refl,
      refl,
    )
