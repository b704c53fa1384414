-- ===== src/Aggregate/Persistence/Saving.antt =====
-- Saving an entity that has not been stored yet.
use minos_python.Base.{
  ℕ, ◌≡◌, refl, sym, ap, ◌∙◌, true, Option, none, List, [], ◌∷◌, ◌++◌, ◌==◌, arith, if◌then◌else◌,
  Result, return, raise, pure, modify, and_then, ◌>>=◌,
}
use minos_python.Aggregate.Store.{
  Uuid, null_uuid, create, StoredEvent, Store, Environment, Error, event_conflict,
}
use minos_python.Aggregate.Events.Repository as Events
use minos_python.Aggregate.Events.Repository.Outcome.{
  Submitted, submit-Submitted, accepted, too_low, blocked, no_action,
}
use minos_python.Aggregate.Entities.Events.{
  Fields, find_field, RootEntity, plain, Event, Groups, chain_groups, event_of, diffs_of_model,
  new_container, container_from_model, event_from_root_entity, with_diffs,
}
use minos_python.Aggregate.Entities.Events.Grouping.{has_key, IsBlocks, new_container-blocks}
use minos_python.Aggregate.Entities.Root.{is_create, update_from_repository_entry}
use minos_python.Aggregate.Entities.Sets.{is_some}
use minos_python.Aggregate.Snapshots.Entries.{Classes, ReadError, of_store}
use minos_python.Aggregate.Persistence.{
  transaction_of, from_event, Session, submitted, submit_event, new_instance, create_entity,
  save_entity, of_result,
}

-- The names are distinct.
abbrev pub IsDict : Fields → Type 0
IsDict [] = Unit
IsDict ((n, v) ∷ fs) = (find_field n fs ≡ none) × IsDict fs

model_blocks : Fields → Groups
model_blocks [] = []
model_blocks ((n, v) ∷ fs) = (n, plain n v ∷ []) ∷ model_blocks fs

chain-model_blocks : (fs : Fields) → chain_groups (model_blocks fs) ≡ diffs_of_model fs
unfolding model_blocks
chain-model_blocks [] = refl
chain-model_blocks ((n, v) ∷ fs) = ap (λ l. plain n v ∷ l) (chain-model_blocks fs)

has_key-model_blocks :
    (n : ℕ) (fs : Fields) → has_key n (model_blocks fs) ≡ is_some (find_field n fs)
unfolding model_blocks
has_key-model_blocks n [] = refl
has_key-model_blocks n ((k, v) ∷ fs) = ground (arith, has_key-model_blocks n fs)

model_blocks-IsBlocks : (fs : Fields) → IsDict fs → IsBlocks (model_blocks fs)
unfolding model_blocks
model_blocks-IsBlocks [] h = tt
model_blocks-IsBlocks ((n, v) ∷ fs) h =
    (((refl, tt), refl), has_key-model_blocks n fs ∙ ap is_some h.0, model_blocks-IsBlocks fs h.1)

-- An entity with distinct field names has a creation event.
event_from_root_entity-IsDict :
    (r : RootEntity)
    → IsDict r.fields
    → event_from_root_entity r create ≡ return (event_of r create (diffs_of_model r.fields))
unfolding event_from_root_entity container_from_model
event_from_root_entity-IsDict r h = ap (with_diffs r create) (
    sym (ap new_container (chain-model_blocks r.fields))
    ∙ new_container-blocks (model_blocks r.fields) (model_blocks-IsBlocks r.fields h)
    ∙ ap return (chain-model_blocks r.fields))

-- What saving a new entity does: its creation is stored as the next event, with all its fields, in the
-- transaction in use, and the entity takes the identifier, the version and the time of that event; or
-- a conflict is raised, and the entity and the stored events are as before.
pub data Created (c : Classes) (env : Environment) (s : Session) (r : Result ReadError Unit)
    (s' : Session) : Type 0 where
  stored :
      (e : StoredEvent)
      → r ≡ return tt
      → s'.store.events ≡ s.store.events ++ (e ∷ [])
      → e.action ≡ create
      → e.uuid ≡ env.uuid4 s.store.ticks
      → e.payload ≡ c.encode (diffs_of_model s.self.fields)
      → e.transaction_uuid ≡ transaction_of s.store.context
      → s'.self ≡ record (s.self) {
        uuid = e.uuid;
        version = e.version;
        created_at = e.created_at;
        updated_at = e.created_at;
      }
      → Created c env s r s'
  refused :
      (offset : ℕ)
      → r ≡ raise (of_store (event_conflict offset))
      → s'.store.events ≡ s.store.events
      → s'.self ≡ s.self
      → Created c env s r s'

abbrev creation : Classes → Session → Event
creation c s =
    let r = new_instance c s.self.name s.self.fields in
    event_of r create (diffs_of_model s.self.fields)

-- `save_entity` from the answer of the repository on.
abbrev saved_from :
    Classes → Session → Result Error StoredEvent × Store → Result ReadError Unit × Session
saved_from c s answer =
    let (r, s₁) = submitted answer s.self in
    and_then r
      (λ e. modify (λ (t : Session). record t {
        self = update_from_repository_entry e (new_instance c s.self.name s.self.fields);
      }))
      s₁

abbrev replace_self : RootEntity → Session → Session
replace_self r s = record s { self = r }

-- To return the entity that was created and to assign it is to assign it at once.
assign_created :
    (c : Classes) (s : Session) (answer : Result Error StoredEvent × Store)
    → let r = new_instance c s.self.name s.self.fields in
      let (a, s₁) = submitted answer s.self in
      let (b, s₂) = and_then {B = RootEntity} a (λ e. pure (update_from_repository_entry e r)) s₁ in
      and_then b (λ new. modify (replace_self new)) s₂ ≡ saved_from c s answer
assign_created c s (return e, t) = refl
assign_created c s (raise x, t) = refl

save_entity-new :
    (c : Classes) (env : Environment) (chain : Option (List Uuid)) (s : Session)
    → (s.self.uuid == null_uuid) ≡ true
    → (s.self.version == 0) ≡ true
    → IsDict s.self.fields
    → save_entity c env chain s
      ≡ saved_from c s
          (Events.submit env (from_event c (creation c s) s.store.context) none s.store)
unfolding save_entity create_entity submit_event
save_entity-new c env chain s unsaved first dict =
    let r = new_instance c s.self.name s.self.fields in
    rw (unsaved, first)
      (ap
          (λ q.
            let (b, s₂) =
              (of_result q >>= λ event.
              submit_event c env event >>= λ entry. pure (update_from_repository_entry entry r))
                s in
            and_then b (λ new. modify (replace_self new)) s₂)
          (event_from_root_entity-IsDict r dict)
        ∙ assign_created c s
            (Events.submit env (from_event c (creation c s) s.store.context) none s.store))

saved_from-Created :
    (c : Classes) (env : Environment) (s : Session) (r : Result Error StoredEvent) (s₁ : Store)
    → Submitted env (from_event c (creation c s) s.store.context) none s.store r s₁
    → let (a, s') = saved_from c s (r, s₁) in Created c env s a s'
unfolding from_event update_from_repository_entry
saved_from-Created c env s r s₁ (accepted action e has valid returned is added) =
    let acts : e.action ≡ create = is.action_kept ∙ cc has in
    rw returned (
      stored e refl added.events acts is.uuid is.payload is.transaction_uuid (
        ap
          (λ a. record (s.self) {
            uuid = e.uuid;
            version = e.version;
            created_at = if is_create a then e.created_at else c.null_datetime;
            updated_at = e.created_at;
          })
          acts))
saved_from-Created c env s r s₁ (too_low valid low raised is) =
    rw raised (refused _ refl is.events refl)
saved_from-Created c env s r s₁ (blocked valid raised same) =
    rw raised (refused _ refl (ap (λ (t : Store). t.events) same) refl)
saved_from-Created c env s r s₁ (no_action none_given raised same) = absurd (cc none_given)

-- Saving an entity without identifier and version, with distinct names of its fields, creates it or
-- raises a conflict.
pub save_entity-Created :
    (c : Classes) (env : Environment) (chain : Option (List Uuid)) (s : Session)
    → s.self.uuid ≡ null_uuid
    → s.self.version ≡ 0
    → IsDict s.self.fields
    → let (r, s') = save_entity c env chain s in Created c env s r s'
save_entity-Created c env chain s unsaved first dict =
    rw (save_entity-new c env chain s (ground arith) (ground arith) dict) (
      saved_from-Created c env s _ _
        (submit-Submitted env (from_event c (creation c s) s.store.context) none s.store))
