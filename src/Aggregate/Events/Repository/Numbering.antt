-- ===== src/Aggregate/Events/Repository/Numbering.antt =====
-- The identifiers and versions that the repository gives out.
use minos_python.Base.{
  ℕ, suc, ◌+◌, ◌≤◌, ◌<◌, ◌≡◌, refl, ap, Option, none, some, List, [], ◌∷◌, ◌++◌, arith, get_or,
  length, length-append, All, All-append, All-map, return,
}
use native.Mathlib.Nat.{le_trans}
use minos_python.Aggregate.Store.{Uuid, EventAction, EventEntry, StoredEvent, Store, Environment}
use minos_python.Aggregate.Events.Repository.{
  bump, next_version, counted, as_stored, store_entry, with_uuid, submit,
}
use minos_python.Aggregate.Events.Repository.Outcome.{
  IsStored, accepted, too_low, blocked, no_action, submit-Submitted,
}

-- The entries carry the identifiers n + 1, n + 2, … in the order of the storage.
abbrev pub Numbered : ℕ → List StoredEvent → Type 0
Numbered n [] = Unit
Numbered n (e ∷ es) = (e.id ≡ suc n) × Numbered (suc n) es

-- Two entries for one version of one entity in one transaction.
abbrev pub SameSlot : StoredEvent → StoredEvent → Type 0
SameSlot d e =
    (d.name ≡ e.name)
    × (d.uuid ≡ e.uuid)
    × (d.transaction_uuid ≡ e.transaction_uuid)
    × (d.version ≡ e.version)

abbrev pub Distinct : List StoredEvent → Type 0
Distinct [] = Unit
Distinct (e ∷ es) = All (λ d. ¬ SameSlot e d) es × Distinct es

-- No stored version is above the counter of its slot.
abbrev pub Covered : (ℕ → Uuid → Uuid → ℕ) → StoredEvent → Type 0
Covered f e = e.version ≤ f e.name e.uuid e.transaction_uuid

-- The identifiers are 1, 2, … and the generator is at the last of them.
pub record IsNumbered (s : Store) : Type 0 where
  pub numbered : Numbered 0 s.events
  pub generated : s.generated ≡ length s.events

pub record IsVersioned (s : Store) : Type 0 where
  pub covered : All (Covered s.next_versions) s.events
  pub distinct : Distinct s.events

Numbered-append :
    (n : ℕ) (es : List StoredEvent) (e : StoredEvent)
    → Numbered n es
    → e.id ≡ n + length es + 1
    → Numbered n (es ++ (e ∷ []))
Numbered-append n [] e h id = (omega arith, tt)
Numbered-append n (d ∷ es) e h id = (h.0, Numbered-append (suc n) es e h.1 (omega arith))

-- A submission, however it ends, keeps the identifiers consecutive.
pub submit-IsNumbered :
    (env : Environment) (entry : EventEntry) (ne : Option Uuid) (s : Store)
    → IsNumbered s
    → IsNumbered (submit env entry ne s).1
submit-IsNumbered env entry ne s h = elim (submit-Submitted env entry ne s) [
  | accepted action e _ _ _ is added ↦ record {
    numbered =
        rw added.events
          (Numbered-append 0 s.events e h.numbered (omega (arith, is.id, h.generated)));
    generated =
        rw (added.generated, added.events)
          (omega (arith, h.generated, length-append s.events (e ∷ [])));
  }
  | too_low _ _ _ refused ↦ record {
    numbered = rw refused.events h.numbered;
    generated = rw (refused.generated, refused.events) h.generated;
  }
  | blocked _ _ same ↦ rw same h
  | no_action _ _ same ↦ rw same h
]

bump-ge :
    (f : ℕ → Uuid → Uuid → ℕ) (n : ℕ) (u t : Uuid) (n' : ℕ) (u' t' : Uuid)
    → f n' u' t' ≤ bump f n u t n' u' t'
bump-ge f n u t n' u' t' = ground arith

bump_self : (f : ℕ → Uuid → Uuid → ℕ) (n : ℕ) (u t : Uuid) → bump f n u t n u t ≡ f n u t + 1
bump_self f n u t = ground arith

Distinct-append :
    (es : List StoredEvent) (e : StoredEvent)
    → Distinct es
    → All (λ d. ¬ SameSlot d e) es
    → Distinct (es ++ (e ∷ []))
Distinct-append [] e h new = (tt, tt)
Distinct-append (d ∷ es) e h new =
    (All-append (λ x. ¬ SameSlot d x) es (e ∷ []) h.0 (new.0, tt), Distinct-append es e h.1 new.1)

-- A version above the counter of its slot has not been given out.
not-SameSlot :
    (f : ℕ → Uuid → Uuid → ℕ) (e d : StoredEvent)
    → f e.name e.uuid e.transaction_uuid < e.version
    → Covered f d
    → ¬ SameSlot d e
not-SameSlot f e d above h (name, uuid, transaction, version) = absurd (
    omega (
      arith,
      h,
      ap (λ n. f n d.uuid d.transaction_uuid) name,
      ap (λ u. f e.name u d.transaction_uuid) uuid,
      ap (λ t. f e.name e.uuid t) transaction,
    ))

-- The entry leaves its version to the repository, or names the one that comes next.
abbrev pub LeavesNoGap : EventEntry → Store → Type 0
LeavesNoGap entry s = get_or entry.version (next_version entry s) ≤ next_version entry s

module _ (env : Environment) (entry : EventEntry) (action : EventAction) (s : Store)
    (e : StoredEvent) (is : IsStored env entry action s e) where
  slot-next : s.next_versions e.name e.uuid e.transaction_uuid + 1 ≡ next_version entry s
  slot-next = rw (is.name, is.uuid, is.transaction_uuid)

  IsStored-above : s.next_versions e.name e.uuid e.transaction_uuid < e.version
  IsStored-above = omega (arith, slot-next, is.fits)

  IsStored-Covered : LeavesNoGap entry s → Covered (counted entry s) e
  IsStored-Covered gap =
      rw
        (
          is.name,
          is.uuid,
          is.transaction_uuid,
          bump_self s.next_versions entry.name entry.uuid entry.transaction_uuid,
        )
        (omega (arith, gap, is.version))

-- As long as no submitted entry skips a version, every version of an entity is given out once in
-- each transaction, and the counters stay at or above all versions, however a submission ends.
pub submit-IsVersioned :
    (env : Environment) (entry : EventEntry) (ne : Option Uuid) (s : Store)
    → IsVersioned s
    → LeavesNoGap (with_uuid env entry s) s
    → IsVersioned (submit env entry ne s).1
submit-IsVersioned env entry ne s h gap = elim (submit-Submitted env entry ne s) [
  | accepted action e _ _ _ is added ↦
      let filled = with_uuid env entry s in
      record {
        covered =
            rw (added.events, added.counters)
              (All-append (Covered (counted filled s)) s.events (e ∷ [])
                (All-map _ _ s.events
                  (λ d c. le_trans c (
                    bump-ge s.next_versions filled.name filled.uuid filled.transaction_uuid d.name
                      d.uuid d.transaction_uuid))
                  h.covered)
                (IsStored-Covered env filled action s e is gap, tt));
        distinct = rw added.events (
            Distinct-append s.events e h.distinct (
              All-map _ _ s.events
                (λ d c.
                  not-SameSlot s.next_versions e d (IsStored-above env filled action s e is) c)
                h.covered));
      }
  | too_low _ _ _ refused ↦
      let filled = with_uuid env entry s in
      record {
        covered =
            rw (refused.events, refused.counters_now)
              (All-map _ _ s.events
                (λ d c. le_trans c (
                  bump-ge s.next_versions filled.name filled.uuid filled.transaction_uuid d.name
                    d.uuid d.transaction_uuid))
                h.covered);
        distinct = rw refused.events h.distinct;
      }
  | blocked _ _ same ↦ rw same h
  | no_action _ _ same ↦ rw same h
]

-- An entry that skips one version is accepted, and the next entry that leaves its version to the
-- repository is given the same version again: whatever the store, one slot is then taken twice.
pub store_entry-skips :
    (env : Environment) (entry : EventEntry) (action : EventAction) (s : Store)
    → let skipping : EventEntry = record entry { version = some (next_version entry s + 1) } in
      let automatic : EventEntry = record entry { version = none } in
      let (r, s₁) = store_entry env skipping action s in
      let (r', s₂) = store_entry env automatic action s₁ in
      (d : StoredEvent) × (e : StoredEvent) × (r ≡ return d) × (r' ≡ return e) × SameSlot d e
unfolding store_entry
store_entry-skips env entry action s =
    let skipping : EventEntry = record entry { version = some (next_version entry s + 1) } in
    let automatic : EventEntry = record entry { version = none } in
    let s₁ = (store_entry env skipping action s).1 in
    (
      as_stored env skipping action s,
      as_stored env automatic action s₁,
      ground arith,
      ground arith,
      (refl, refl, refl, ground arith),
    )
