-- ===== src/Aggregate/Entities/Sets/Diffs.antt =====
-- The difference of two sets leads from the old one to the new one.
use minos_python.Base.{
  ℕ, ◌≡◌, refl, sym, ap, ◌∙◌, Bool, true, false, not, ◌&&◌, ◌||◌, Option, none, some, List, [], ◌∷◌,
  ◌++◌, map, arith, ◌==◌, if◌then◌else◌, select_if, any_of-append, contains, inl, inr, Bool-cases,
  Option-cases,
}
use minos_python.Aggregate.Store.{Uuid, EventAction, create, update, delete}
use minos_python.Aggregate.Entities.Sets.{
  ValueEntity, add_value, discard_value, find_entity, is_some, has_entity, add_entity,
  discard_entity, SetChange, changed, minus, minus_entities, is_same, modified, value_diff,
  entity_diff, apply_change, apply_changes, apply_value_diff, apply_entity_diff,
}

apply_changes-append :
    {T : Type 0} (add discard : T → List T → List T) (cs ds : List (SetChange T)) (l : List T)
    → apply_changes add discard (cs ++ ds) l
      ≡ apply_changes add discard ds (apply_changes add discard cs l)
apply_changes-append add discard [] ds l = refl
apply_changes-append add discard (c ∷ cs) ds l =
    apply_changes-append add discard cs ds (apply_change add discard c l)

contains-select_if :
    (p : ℕ → Bool) (x : ℕ) (xs : List ℕ) → contains x (select_if p xs) ≡ contains x xs && p x
contains-select_if p x [] = refl
contains-select_if p x (y ∷ ys) = elim (Bool-cases (x == y)) [
  | inl same ↦
      let e : x ≡ y = ground arith in
      rw (same, ap p e) (ground (arith, contains-select_if p x ys, ap p e))
  | inr other ↦ ground (arith, contains-select_if p x ys)
]

contains-created :
    (x : ℕ) (vs xs : List ℕ)
    → contains x (apply_changes add_value discard_value (map (changed create) vs) xs)
      ≡ contains x xs || contains x vs
contains-created x [] xs = ground arith
contains-created x (v ∷ vs) xs =
    contains-created x vs (add_value v xs) ∙ ground (arith, any_of-append (λ m. x == m) xs (v ∷ []))

contains-deleted :
    (x : ℕ) (vs xs : List ℕ)
    → contains x (apply_changes add_value discard_value (map (changed delete) vs) xs)
      ≡ contains x xs && not (contains x vs)
contains-deleted x [] xs = ground arith
contains-deleted x (v ∷ vs) xs =
    contains-deleted x vs (discard_value v xs)
    ∙ ground (arith, contains-select_if (λ y. not (v == y)) x xs)

-- The difference of two sets of value objects, applied to the old one, gives the members of the new
-- one.
pub apply_value_diff-value_diff :
    (new old : List ℕ) (x : ℕ)
    → contains x (apply_value_diff (value_diff new old) old) ≡ contains x new
unfolding apply_value_diff value_diff
apply_value_diff-value_diff new old x =
    let mid = apply_changes add_value discard_value (map (changed create) (minus new old)) old in
    let deletes = map (changed delete) (minus old new) in
    ap (contains x) (
      apply_changes-append add_value discard_value (map (changed create) (minus new old)) deletes
        old)
    ∙ contains-deleted x (minus old new) mid
    ∙ ground (
      arith,
      contains-created x (minus new old) old,
      contains-select_if (λ y. not (contains y old)) x new,
      contains-select_if (λ y. not (contains y new)) x old,
    )

-- No two entities of the list have the same identifier.
abbrev pub IsKeyed : List ValueEntity → Type 0
IsKeyed [] = Unit
IsKeyed (e ∷ es) = (has_entity e.uuid es ≡ false) × IsKeyed es

abbrev or_else : Option ValueEntity → Option ValueEntity → Option ValueEntity
or_else none o = o
or_else (some e) o = some e

abbrev keep_if : (ValueEntity → Bool) → Option ValueEntity → Option ValueEntity
keep_if p none = none
keep_if p (some e) = if p e then some e else none

find-has : (u : Uuid) (es : List ValueEntity) → has_entity u es ≡ false → find_entity u es ≡ none
find-has u es h = elim (Option-cases (find_entity u es)) [
  | inl e ↦ e
  | inr (a, e) ↦ absurd (cc (ap is_some e))
]

find-add :
    (u : Uuid) (e : ValueEntity) (es : List ValueEntity)
    → find_entity u (add_entity e es) ≡ (if e.uuid == u then some e else find_entity u es)
find-add u e [] = refl
find-add u e (x ∷ es) = ground (arith, find-add u e es)

find-discard :
    (u : Uuid) (e : ValueEntity) (es : List ValueEntity)
    → find_entity u (discard_entity e es) ≡ (if e.uuid == u then none else find_entity u es)
find-discard u e [] = ground arith
find-discard u e (x ∷ es) = ground (arith, find-discard u e es)

find_uuid :
    (u : Uuid) (es : List ValueEntity) (e : ValueEntity) → find_entity u es ≡ some e → e.uuid ≡ u
find_uuid u [] e h = cc
find_uuid u (x ∷ es) e h = ground (arith, find_uuid u es e)

find-select_if-none :
    (u : Uuid) (p : ValueEntity → Bool) (es : List ValueEntity)
    → find_entity u es ≡ none
    → find_entity u (select_if p es) ≡ none
find-select_if-none u p [] h = refl
find-select_if-none u p (x ∷ es) h = ground (arith, find-select_if-none u p es)

find-select_if :
    (u : Uuid) (p : ValueEntity → Bool) (es : List ValueEntity)
    → IsKeyed es
    → find_entity u (select_if p es) ≡ keep_if p (find_entity u es)
find-select_if u p [] h = refl
find-select_if u p (x ∷ es) h = elim (Bool-cases (x.uuid == u)) [
  | inl same ↦
      let e : x.uuid ≡ u = ground arith in
      let gone : find_entity u es ≡ none =
        find-has u es (ap (λ v. has_entity v es) (sym e) ∙ h.0) in
      ground (arith, find-select_if-none u p es gone)
  | inr other ↦ ground (arith, find-select_if u p es h.1)
]

IsKeyed-select_if :
    (p : ValueEntity → Bool) (es : List ValueEntity) → IsKeyed es → IsKeyed (select_if p es)
IsKeyed-select_if p [] h = tt
IsKeyed-select_if p (x ∷ es) h = elim (Bool-cases (p x)) [
  | inl yes_p ↦ rw yes_p (
    ap is_some (find-select_if-none x.uuid p es (find-has x.uuid es h.0)),
    IsKeyed-select_if p es h.1,
  )
  | inr no_p ↦ rw no_p (IsKeyed-select_if p es h.1)
]

find-added :
    (action : EventAction) (u : Uuid) (l es : List ValueEntity)
    → ((e : ValueEntity) (xs : List ValueEntity)
        → apply_change add_entity discard_entity (changed action e) xs ≡ add_entity e xs)
    → IsKeyed l
    → find_entity u (apply_changes add_entity discard_entity (map (changed action) l) es)
      ≡ or_else (find_entity u l) (find_entity u es)
find-added action u [] es adds h = refl
find-added action u (e ∷ l) es adds h =
    ap (λ k. find_entity u (apply_changes add_entity discard_entity (map (changed action) l) k))
      (adds e es)
    ∙ find-added action u l (add_entity e es) adds h.1
    ∙ ap (or_else (find_entity u l)) (find-add u e es)
    ∙ elim (Bool-cases (e.uuid == u)) [
      | inl same ↦
          let q : e.uuid ≡ u = ground arith in
          rw (same, find-has u l (ap (λ v. has_entity v l) (sym q) ∙ h.0))
      | inr other ↦ rw other
    ]

find-deleted :
    (u : Uuid) (l es : List ValueEntity)
    → find_entity u (apply_changes add_entity discard_entity (map (changed delete) l) es)
      ≡ (if has_entity u l then none else find_entity u es)
find-deleted u [] es = refl
find-deleted u (e ∷ l) es =
    find-deleted u l (discard_entity e es) ∙ ground (arith, find-discard u e es)

same_entity : (e o : ValueEntity) → e.uuid ≡ o.uuid → e.content ≡ o.content → e ≡ o
same_entity e o h g = ground arith

-- The part of the difference that `find-entity_diff` puts together, at one identifier.
joined :
    (new old : List ValueEntity) (u : Uuid)
    → or_else
        (keep_if
          (λ (e : ValueEntity). has_entity e.uuid old && not (is_same e (find_entity e.uuid old)))
          (find_entity u new))
        (if is_some (keep_if (λ (e : ValueEntity). not (has_entity e.uuid new)) (find_entity u old))
          then none
          else or_else
              (keep_if (λ (e : ValueEntity). not (has_entity e.uuid old)) (find_entity u new))
              (find_entity u old))
      ≡ find_entity u new
joined new old u = elim (Option-cases (find_entity u new)) [
  | inl gone ↦ elim (Option-cases (find_entity u old)) [
    | inl none_old ↦ rw (gone, none_old)
    | inr (o, found) ↦
        let q = find_uuid u old o found in
        let lost : has_entity o.uuid new ≡ false = rw (q, gone) in rw (gone, found, lost)
  ]
  | inr (e, got) ↦
      let q = find_uuid u new e got in
      elim (Option-cases (find_entity u old)) [
        | inl none_old ↦
            let new_one : find_entity e.uuid old ≡ none = rw (q, none_old) in
            rw (got, none_old, new_one)
        | inr (o, found) ↦
            let q' = find_uuid u old o found in
            let both : find_entity e.uuid old ≡ some o = rw (q, found) in
            let here : has_entity o.uuid new ≡ true = rw (q', got) in
            elim (Bool-cases (is_same e (some o))) [
              | inl same ↦ rw (got, found, both, here, same) (ap some (ground arith))
              | inr other ↦ rw (got, found, both, here, other)
            ]
      ]
]

-- The difference of two entity sets, applied to the old one, gives the new one: under every
-- identifier there is the same entity, or none. The entities of each set have distinct identifiers.
pub apply_entity_diff-entity_diff :
    (new old : List ValueEntity) (u : Uuid)
    → IsKeyed new
    → IsKeyed old
    → find_entity u (apply_entity_diff (entity_diff new old) old) ≡ find_entity u new
unfolding apply_entity_diff entity_diff
apply_entity_diff-entity_diff new old u keyed keyed_old =
    let creates = map (changed create) (minus_entities new old) in
    let deletes = map (changed delete) (minus_entities old new) in
    let updates = map (changed update) (modified new old) in
    let s₁ = apply_changes add_entity discard_entity creates old in
    let s₂ = apply_changes add_entity discard_entity deletes s₁ in
    ap (find_entity u) (
      apply_changes-append add_entity discard_entity creates (deletes ++ updates) old
      ∙ apply_changes-append add_entity discard_entity deletes updates s₁)
    ∙ find-added update u (modified new old) s₂ (λ e xs. refl) (IsKeyed-select_if _ new keyed)
    ∙ rw
        (
          find-deleted u (minus_entities old new) s₁,
          find-added create u (minus_entities new old) old (λ e xs. refl)
              (IsKeyed-select_if _ new keyed),
          find-select_if u
              (λ (e : ValueEntity).
                has_entity e.uuid old && not (is_same e (find_entity e.uuid old)))
              new keyed,
          find-select_if u (λ (e : ValueEntity). not (has_entity e.uuid new)) old keyed_old,
          find-select_if u (λ (e : ValueEntity). not (has_entity e.uuid old)) new keyed,
        )
        (joined new old u)
