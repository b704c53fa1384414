-- ===== src/Aggregate/Queries/Laws.antt =====
-- Negation of conditions.
use minos_python.Base.{ℕ, ◌≡◌, refl, ap, ◌∙◌, Bool, true, false, Result, return, raise}
use minos_python.Aggregate.Entities.Events.{ModelError}
use minos_python.Aggregate.Queries.{
  negation, conjunction, disjunction, Conditions, no_parts, part, Attributes, and_also, or_else,
  negate, evaluate, evaluate_all, evaluate_any,
}

abbrev pub negations : Conditions → Conditions
negations no_parts = no_parts
negations (part c cs) = part (negation c) (negations cs)

negate-and_also :
    (a b c : Result ModelError Bool) → negate b ≡ c → negate (and_also a b) ≡ or_else (negate a) c
negate-and_also (return true) b c h = h
negate-and_also (return false) b c h = refl
negate-and_also (raise e) b c h = refl

negate-or_else :
    (a b c : Result ModelError Bool) → negate b ≡ c → negate (or_else a b) ≡ and_also (negate a) c
negate-or_else (return true) b c h = refl
negate-or_else (return false) b c h = h
negate-or_else (raise e) b c h = refl

module _ (like : ℕ → ℕ → Bool) (attributes : Attributes) where
  negate-evaluate_all :
      (cs : Conditions)
      → negate (evaluate_all like attributes cs) ≡ evaluate_any like attributes (negations cs)
  unfolding evaluate
  negate-evaluate_all no_parts = refl
  negate-evaluate_all (part c cs) =
      negate-and_also (evaluate like attributes c) _ _ (negate-evaluate_all cs)

  negate-evaluate_any :
      (cs : Conditions)
      → negate (evaluate_any like attributes cs) ≡ evaluate_all like attributes (negations cs)
  unfolding evaluate
  negate-evaluate_any no_parts = refl
  negate-evaluate_any (part c cs) =
      negate-or_else (evaluate like attributes c) _ _ (negate-evaluate_any cs)

-- Every part has the given truth value.
abbrev pub AllEvaluate : (like : ℕ → ℕ → Bool) → Attributes → Bool → Conditions → Type 0
AllEvaluate like attributes b no_parts = Unit
AllEvaluate like attributes b (part c cs) =
    (evaluate like attributes c ≡ return b) × AllEvaluate like attributes b cs

and_also-true :
    (a b : Result ModelError Bool)
    → and_also a b ≡ return true
    → (a ≡ return true) × (b ≡ return true)
and_also-true (return true) b h = (refl, h)
and_also-true (return false) b h = absurd (cc h)
and_also-true (raise e) b h = absurd (cc h)

or_else-false :
    (a b : Result ModelError Bool)
    → or_else a b ≡ return false
    → (a ≡ return false) × (b ≡ return false)
or_else-false (return true) b h = absurd (cc h)
or_else-false (return false) b h = (refl, h)
or_else-false (raise e) b h = absurd (cc h)

-- What a conjunction and a disjunction mean, and how negation goes through them.
pub record Connectives (like : ℕ → ℕ → Bool) (attributes : Attributes) (cs : Conditions)
    : Type 0 where
  pub all_true :
      evaluate like attributes (conjunction cs) ≡ return true → AllEvaluate like attributes true cs
  pub true_all :
      AllEvaluate like attributes true cs → evaluate like attributes (conjunction cs) ≡ return true
  pub all_false :
      evaluate like attributes (disjunction cs) ≡ return false
      → AllEvaluate like attributes false cs
  pub false_all :
      AllEvaluate like attributes false cs
      → evaluate like attributes (disjunction cs) ≡ return false
  pub negated_all :
      evaluate like attributes (negation (conjunction cs))
      ≡ evaluate like attributes (disjunction (negations cs))
  pub negated_any :
      evaluate like attributes (negation (disjunction cs))
      ≡ evaluate like attributes (conjunction (negations cs))

module _ (like : ℕ → ℕ → Bool) (attributes : Attributes) where
  evaluate_all-true :
      (cs : Conditions)
      → evaluate_all like attributes cs ≡ return true
      → AllEvaluate like attributes true cs
  unfolding evaluate
  evaluate_all-true no_parts h = tt
  evaluate_all-true (part c cs) h =
      let (first, rest) = and_also-true (evaluate like attributes c) _ h in
      (first, evaluate_all-true cs rest)

  true-evaluate_all :
      (cs : Conditions)
      → AllEvaluate like attributes true cs
      → evaluate_all like attributes cs ≡ return true
  unfolding evaluate
  true-evaluate_all no_parts h = refl
  true-evaluate_all (part c cs) h =
      ap (λ a. and_also a (evaluate_all like attributes cs)) h.0 ∙ true-evaluate_all cs h.1

  evaluate_any-false :
      (cs : Conditions)
      → evaluate_any like attributes cs ≡ return false
      → AllEvaluate like attributes false cs
  unfolding evaluate
  evaluate_any-false no_parts h = tt
  evaluate_any-false (part c cs) h =
      let (first, rest) = or_else-false (evaluate like attributes c) _ h in
      (first, evaluate_any-false cs rest)

  false-evaluate_any :
      (cs : Conditions)
      → AllEvaluate like attributes false cs
      → evaluate_any like attributes cs ≡ return false
  unfolding evaluate
  false-evaluate_any no_parts h = refl
  false-evaluate_any (part c cs) h =
      ap (λ a. or_else a (evaluate_any like attributes cs)) h.0 ∙ false-evaluate_any cs h.1

-- A conjunction is true exactly if each of its parts is, and a disjunction is false exactly if each
-- of its parts is. The negation of a conjunction is the disjunction of the negations, and the
-- negation of a disjunction their conjunction: the same truth value, or the same exception.
pub evaluate-Connectives :
    (like : ℕ → ℕ → Bool) (attributes : Attributes) (cs : Conditions)
    → Connectives like attributes cs
unfolding evaluate
evaluate-Connectives like attributes cs = record {
  all_true = evaluate_all-true like attributes cs;
  true_all = true-evaluate_all like attributes cs;
  all_false = evaluate_any-false like attributes cs;
  false_all = false-evaluate_any like attributes cs;
  negated_all = negate-evaluate_all like attributes cs;
  negated_any = negate-evaluate_any like attributes cs;
}
