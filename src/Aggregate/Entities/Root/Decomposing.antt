-- ===== src/Aggregate/Entities/Root/Decomposing.antt =====
-- The events of `Event.decompose`, applied one after the other.
use minos_python.Base.{
  ℕ, ◌≡◌, refl, ap, ◌∙◌, true, false, not, Option, none, some, List, [], ◌∷◌, map, arith, ◌==◌,
  is_empty, Result, return, raise, and_then, Action, pure, modify, raise_if, ◌>>◌, inl, inr,
  Bool-cases,
}
use minos_python.Aggregate.Entities.Events.{
  FieldValue, RootEntity, FieldDiff, name_of, Groups, append_to, group_from, chain_groups, Event,
  ModelError, value_error, attribute_error, find_field, flatten_values, decompose,
}
use minos_python.Aggregate.Entities.Root.{
  set_field, changed_value, assign, apply_fields, apply_diff, apply_events,
}

-- The entity after a call that returns, or the exception.
abbrev pub outcome : Result ModelError Unit × RootEntity → Result ModelError RootEntity
outcome (return _, r) = return r
outcome (raise x, r) = raise x

abbrev stamp : Event → RootEntity → RootEntity
stamp e r = record r { version = e.version; updated_at = e.created_at }

abbrev one : Event → FieldDiff → Event
one e d = record e { fields_diff = d ∷ [] }

abbrev rest_of : Event → List FieldDiff → Action RootEntity ModelError Unit
rest_of e ds = apply_fields ds >> modify (stamp e)

abbrev put : ℕ → FieldValue → RootEntity → RootEntity
put n v r = record r { fields = set_field n v r.fields }

abbrev new_value : FieldDiff → RootEntity → Option FieldValue
new_value d r = changed_value d (find_field (name_of d) r.fields)

abbrev assigned : Event → ℕ → Option FieldValue → RootEntity → Result ModelError Unit × RootEntity
assigned e n none r = (raise attribute_error, r)
assigned e n (some v) r = (return tt, stamp e (put n v r))

assign-assigned :
    (e : Event) (n : ℕ) (o : Option FieldValue) (r : RootEntity)
    → ((assign n o >> pure tt) >> modify (stamp e)) r ≡ assigned e n o r
assign-assigned e n none r = refl
assign-assigned e n (some v) r = refl

apply_diff-one :
    (e : Event) (d : FieldDiff) (r : RootEntity)
    → (r.uuid == e.uuid) ≡ true
    → apply_diff (one e d) r ≡ assigned e (name_of d) (new_value d r) r
unfolding apply_diff
apply_diff-one e d r same =
    let flat : flatten_values (d ∷ []) ≡ d ∷ [] = refl in
    rw same (assign-assigned e (name_of d) (new_value d r) r)

-- The first event, before or after the entity has its new version, and then the others.
first_event :
    (e : Event) (n : ℕ) (o : Option FieldValue) (ds : List FieldDiff)
    (k : Action RootEntity ModelError Unit) (r r₀ : RootEntity)
    → stamp e r₀ ≡ stamp e r
    → ((v : FieldValue) → outcome (k (stamp e (put n v r))) ≡ outcome (rest_of e ds (put n v r)))
    → outcome (and_then (assigned e n o r₀).0 (λ _. k) (assigned e n o r₀).1)
      ≡ outcome (((assign n o >> apply_fields ds) >> modify (stamp e)) r)
first_event e n none ds k r r₀ same rest = refl
first_event e n (some v) ds k r r₀ same rest =
    ap (λ (s : RootEntity). outcome (k (put n v s))) same ∙ rest v

-- The diffs that remain, where the entity has its new version already.
apply_events-one :
    (e : Event) (ds : List FieldDiff) (r : RootEntity)
    → (r.uuid == e.uuid) ≡ true
    → outcome (apply_events (map (one e) ds) (stamp e r)) ≡ outcome (rest_of e ds r)
apply_events-one e [] r same = refl
apply_events-one e (d ∷ ds) r same =
    let k = apply_events (map (one e) ds) in
    ap (λ (q : Result ModelError Unit × RootEntity). outcome (and_then q.0 (λ _. k) q.1))
      (apply_diff-one e d (stamp e r) same)
    ∙ first_event e (name_of d) (new_value d r) ds k r (stamp e r) refl
        (λ v. apply_events-one e ds (put (name_of d) v r) same)

apply_events-ones :
    (e : Event) (d : FieldDiff) (ds : List FieldDiff) (r : RootEntity)
    → (r.uuid == e.uuid) ≡ true
    → outcome (apply_events (map (one e) (d ∷ ds)) r) ≡ outcome (rest_of e (d ∷ ds) r)
apply_events-ones e d ds r same =
    let k = apply_events (map (one e) ds) in
    ap (λ (q : Result ModelError Unit × RootEntity). outcome (and_then q.0 (λ _. k) q.1))
      (apply_diff-one e d r same)
    ∙ first_event e (name_of d) (new_value d r) ds k r r refl
        (λ v. apply_events-one e ds (put (name_of d) v r) same)

append_to_filled : (d : FieldDiff) (gs : Groups) → is_empty (chain_groups (append_to d gs)) ≡ false
append_to_filled d [] = refl
append_to_filled d ((k, []) ∷ gs) = ground (arith, append_to_filled d gs)
append_to_filled d ((k, x ∷ ds) ∷ gs) = ground arith

group_from_filled :
    (gs : Groups) (ds : List FieldDiff)
    → is_empty (chain_groups gs) ≡ false
    → is_empty (chain_groups (group_from gs ds)) ≡ false
group_from_filled gs [] h = h
group_from_filled gs (d ∷ ds) h = group_from_filled (append_to d gs) ds (append_to_filled d gs)

flatten_filled : (ds : List FieldDiff) → is_empty ds ≡ false → is_empty (flatten_values ds) ≡ false
flatten_filled [] h = absurd (cc h)
flatten_filled (d ∷ ds) h = group_from_filled (append_to d []) ds refl

apply_diff-other :
    (e : Event) (r : RootEntity)
    → (r.uuid == e.uuid) ≡ false
    → apply_diff e r ≡ (raise value_error, r)
unfolding apply_diff
apply_diff-other e r other = rw other

outcome-apply_events :
    (e : Event) (ds : List FieldDiff) (r : RootEntity)
    → is_empty ds ≡ false
    → outcome (apply_events (map (one e) ds) r)
      ≡ outcome ((raise_if (not (r.uuid == e.uuid)) value_error >> rest_of e ds) r)
outcome-apply_events e [] r h = absurd (cc h)
outcome-apply_events e (d ∷ ds) r h = elim (Bool-cases (r.uuid == e.uuid)) [
  | inl same ↦ apply_events-ones e d ds r same ∙ rw same
  | inr other ↦
      ap
        (λ (q : Result ModelError Unit × RootEntity).
          outcome (and_then q.0 (λ _. apply_events (map (one e) ds)) q.1))
        (apply_diff-other (one e d) r other)
      ∙ rw other
]

-- The events into which an event is decomposed, applied one after the other, give what the event
-- gives: the same entity, or the same exception. The event has at least one diff.
pub apply_events-decompose :
    (e : Event) (r : RootEntity)
    → is_empty e.fields_diff ≡ false
    → outcome (apply_events (decompose e) r) ≡ outcome (apply_diff e r)
unfolding decompose apply_diff
apply_events-decompose e r h =
    outcome-apply_events e (flatten_values e.fields_diff) r (flatten_filled e.fields_diff h)
