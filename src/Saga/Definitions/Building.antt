-- ===== src/Saga/Definitions/Building.antt =====
-- What a chain of calls builds, and which sagas are valid.
use minos_python.Base.{
  ◌≡◌, refl, sym, ap, subst, ◌∙◌, Bool, true, false, some, List, [], ◌∷◌, ◌++◌, is_empty, All,
  All-append, inl, inr, Result, return, raise, Result-cases, Action, and_then, and_then-eq-return,
  raise_if, modify,
}
use minos_python.Saga.Definitions.{
  DefinitionError, already_committed, SagaDefinition, new_saga, StepDefinition, Check, check_all,
  validate_saga, validate_step, call_step, Kind, Given, given_step, append_step, add_step,
  commit_saga, update_last, with_steps, last_step, FluentCall, configure, add, checked, via_step,
  fluent, fluent_all, build, Build,
}

check_all-All :
    {A : Type 0} (check : Check A) (l : List A)
    → All (λ x. check x ≡ return tt) l
    → check_all check l ≡ return tt
check_all-All check [] h = refl
check_all-All check (x ∷ l) h = rw (h.0, check_all-All check l h.1)

-- A method that returned has passed its guard.
guard-returns :
    {S : Type 0} (b : Bool) (e : DefinitionError) (k : Action S DefinitionError Unit) (s : S)
    → (and_then (raise_if b e s).0 (λ _. k) (raise_if b e s).1).0 ≡ return tt
    → and_then (raise_if b e s).0 (λ _. k) (raise_if b e s).1 ≡ k s
guard-returns true e k s r = cc
guard-returns false e k s r = refl

module _ {D : Type 0} (check : Check D) where
  abbrev pub IsValidStep : StepDefinition D → Type 0
  IsValidStep x = validate_step check x ≡ return tt

  -- All steps but the last one have passed their validation.
  pub record IsChain (s : SagaDefinition (StepDefinition D)) : Type 0 where
    pub done : List (StepDefinition D)
    pub current : StepDefinition D
    pub steps : s.steps ≡ done ++ (current ∷ [])
    pub valid : All IsValidStep done

  last_step-snoc :
      (l : List (StepDefinition D)) (x : StepDefinition D) → last_step (l ++ (x ∷ [])) ≡ some x
  last_step-snoc [] x = refl
  last_step-snoc (y ∷ []) x = refl
  last_step-snoc (y ∷ z ∷ l) x = last_step-snoc (z ∷ l) x

  update_last-snoc :
      (f : StepDefinition D → Result DefinitionError (StepDefinition D))
      (l : List (StepDefinition D)) (x : StepDefinition D)
      → update_last f (l ++ (x ∷ []))
        ≡ elim (f x) [ return y ↦ return (l ++ (y ∷ [])) | raise e ↦ raise e ]
  update_last-snoc f [] x = refl
  update_last-snoc f (y ∷ []) x = elim (Result-cases (f x)) [
    | inl (z, ok) ↦ rw ok
    | inr (e, bad) ↦ rw bad
  ]
  update_last-snoc f (y ∷ z ∷ l) x = elim (Result-cases (f x)) [
    | inl (w, ok) ↦ rw (update_last-snoc f (z ∷ l) x, ok)
    | inr (e, bad) ↦ rw (update_last-snoc f (z ∷ l) x, bad)
  ]

  via_step-returns :
      (call : Build D) (s : SagaDefinition (StepDefinition D)) (h : IsChain s)
      → (via_step check call s).0 ≡ return tt
      → IsValidStep h.current × (via_step check call s ≡ call s)
  unfolding via_step
  via_step-returns call s h r =
      let last : checked check (last_step s.steps) ≡ validate_step check h.current =
        ap (λ l. checked check (last_step l)) h.steps
        ∙ ap (checked check) (last_step-snoc h.done h.current) in
      elim (Result-cases (validate_step check h.current)) [
        | inl (a, ok) ↦ (ok, rw (last, ok))
        | inr (e, bad) ↦ absurd (cc (rw (last, bad) at r))
      ]

  append_step-IsChain :
      (g : Result DefinitionError (StepDefinition D)) (s : SagaDefinition (StepDefinition D))
      → All IsValidStep s.steps
      → (append_step g s).0 ≡ return tt
      → IsChain (append_step g s).1
  append_step-IsChain (return x) s h r = record {
    done = s.steps;
    current = x;
    steps = refl;
    valid = h;
  }
  append_step-IsChain (raise e) s h r = cc

  add_step-IsChain :
      (kind : Kind) (given : Given D) (s : SagaDefinition (StepDefinition D))
      → All IsValidStep s.steps
      → (add_step kind given s).0 ≡ return tt
      → IsChain (add_step kind given s).1
  unfolding add_step
  add_step-IsChain kind given s h r =
      let same =
        guard-returns s.committed already_committed (append_step (given_step kind given)) s r in
      rw same (append_step-IsChain (given_step kind given) s h (rw same at r))

  every_valid :
      (s : SagaDefinition (StepDefinition D)) (h : IsChain s)
      → IsValidStep h.current
      → All IsValidStep s.steps
  every_valid s h ok =
      subst (All IsValidStep) (sym h.steps)
        (All-append IsValidStep h.done (h.current ∷ []) h.valid (ok, tt))

  configured :
      (r : Result DefinitionError (StepDefinition D)) (s : SagaDefinition (StepDefinition D))
      (done : List (StepDefinition D))
      → let m =
          with_steps (elim r [ return y ↦ return (done ++ (y ∷ [])) | raise e ↦ raise e ]) s in
        All IsValidStep done → m.0 ≡ return tt → IsChain m.1
  configured (return y) s done valid r = record {
    done = done;
    current = y;
    steps = refl;
    valid = valid;
  }
  configured (raise e) s done valid r = cc

  fluent-IsChain :
      (c : FluentCall D) (s : SagaDefinition (StepDefinition D))
      → IsChain s
      → (fluent check c s).0 ≡ return tt
      → IsChain (fluent check c s).1
  unfolding fluent
  fluent-IsChain (configure c) s h r =
      let q =
        ap (update_last (call_step c)) h.steps ∙ update_last-snoc (call_step c) h.done h.current in
      rw q (configured (call_step c h.current) s h.done h.valid (rw q at r))
  fluent-IsChain (add kind given) s h r =
      let (ok, same) = via_step-returns (add_step kind given) s h r in
      rw same (add_step-IsChain kind given s (every_valid s h ok) (rw same at r))

  fluent_all-IsChain :
      (cs : List (FluentCall D)) (s : SagaDefinition (StepDefinition D))
      → IsChain s
      → (fluent_all check cs s).0 ≡ return tt
      → IsChain (fluent_all check cs s).1
  fluent_all-IsChain [] s h r = h
  fluent_all-IsChain (c ∷ cs) s h r =
      let m = (fluent check c s).1 in
      let (a, ok, rest) = and_then-eq-return (fluent check c s).0 (λ _. fluent_all check cs) m r in
      rw ok (fluent_all-IsChain cs m (fluent-IsChain c s h ok) rest)

  commit_saga-returns :
      (s : SagaDefinition (StepDefinition D))
      → (commit_saga s).0 ≡ return tt
      → (commit_saga s).1 ≡ record s { committed = true }
  unfolding commit_saga
  commit_saga-returns s r =
      ap (λ (z : Result DefinitionError Unit × SagaDefinition (StepDefinition D)). z.1)
        (guard-returns s.committed already_committed (modify (λ z. record z { committed = true })) s
          r)

  is_empty-snoc :
      (l : List (StepDefinition D)) (x : StepDefinition D) → is_empty (l ++ (x ∷ [])) ≡ false
  is_empty-snoc [] x = refl
  is_empty-snoc (y ∷ l) x = refl

  committed-valid :
      (s : SagaDefinition (StepDefinition D))
      → IsChain s
      → All IsValidStep s.steps
      → validate_saga (validate_step check) (record s { committed = true }) ≡ return tt
  unfolding validate_saga
  committed-valid s h ok =
      let some_step = ap is_empty h.steps ∙ is_empty-snoc h.done h.current in
      rw (some_step, check_all-All (validate_step check) s.steps ok)

  via_step-commit :
      (s : SagaDefinition (StepDefinition D))
      → IsChain s
      → (via_step check commit_saga s).0 ≡ return tt
      → (validate_saga (validate_step check) (via_step check commit_saga s).1 ≡ return tt)
        × ((via_step check commit_saga s).1.committed ≡ true)
  via_step-commit s h r =
      let (ok, same) = via_step-returns commit_saga s h r in
      let end = commit_saga-returns s (rw same at r) in
      rw (same, end) (committed-valid s h (every_valid s h ok), refl)

  -- A saga that a chain of calls builds, from `Saga()` to the `commit` of its last step, is committed
  -- and valid, so that it can be executed, whatever the calls, if none of them raised.
  pub build-valid :
      (kind : Kind) (given : Given D) (cs : List (FluentCall D))
      → let (r, s) = build check kind given cs new_saga in
        r ≡ return tt → (validate_saga (validate_step check) s ≡ return tt) × (s.committed ≡ true)
  unfolding build
  build-valid kind given cs r =
      let a = add_step kind given new_saga in
      let b = and_then a.0 (λ _. fluent_all check cs) a.1 in
      let (u, chained, finished) = and_then-eq-return b.0 (λ _. via_step check commit_saga) b.1 r in
      let (v, added, called) = and_then-eq-return a.0 (λ _. fluent_all check cs) a.1 chained in
      let chain =
        fluent_all-IsChain cs a.1 (add_step-IsChain kind given new_saga tt added) called in
      rw (added, called) (via_step-commit (fluent_all check cs a.1).1 chain (rw added at finished))
