-- ===== src/Aggregate/Queries.antt =====
-- Conditions and orderings (queries.py).
--
-- The fields of a value are a function from names. A parameter is a scalar, as a number; a set field
-- has no order with it and is not equal to it. `like` is `fullmatch` of the module `re` with the
-- pattern that the parameter stands for.
pub mod Laws
use minos_python.Base.{
  ℕ, Bool, true, false, not, Option, none, some, List, [], ◌∷◌, ◌==◌, ltb, leb, contains, Result,
  return, raise,
}
use minos_python.Aggregate.Entities.Events.{
  FieldValue, scalar, value_set, entity_set, ModelError, attribute_error, type_error,
}

pub data Comparison : Type 0 where
  lower lower_equal greater greater_equal equal not_equal : Comparison

mutual
  pub data Condition : Type 0 where
    always never : Condition
    conjunction disjunction : Conditions → Condition
    negation : Condition → Condition
    compares : Comparison → (field parameter : ℕ) → Condition
    is_in : (field : ℕ) → (parameter : List ℕ) → Condition
    is_like : (field parameter : ℕ) → Condition

  pub data Conditions : Type 0 where
    no_parts : Conditions
    part : Condition → Conditions → Conditions

-- What `attrgetter` finds under a name.
abbrev pub Attributes : Type 0
Attributes = ℕ → Option FieldValue

-- `_get_field(value)`
abbrev pub get_field : ℕ → Attributes → Result ModelError FieldValue
get_field n attributes = elim (attributes n) [ none ↦ raise attribute_error | some v ↦ return v ]

abbrev pub compare_with : Comparison → ℕ → ℕ → Bool
compare_with lower v p = ltb v p
compare_with lower_equal v p = leb v p
compare_with greater v p = ltb p v
compare_with greater_equal v p = leb p v
compare_with equal v p = v == p
compare_with not_equal v p = not (v == p)

-- The operator between a set and a scalar.
abbrev pub compare_set : Comparison → Result ModelError Bool
compare_set equal = return false
compare_set not_equal = return true
compare_set _ = raise type_error

abbrev pub compare_value : Comparison → ℕ → Result ModelError FieldValue → Result ModelError Bool
compare_value c p (raise e) = raise e
compare_value c p (return (scalar v)) = return (compare_with c v p)
compare_value c p (return (value_set xs)) = compare_set c
compare_value c p (return (entity_set es)) = compare_set c

abbrev pub value_in : List ℕ → Result ModelError FieldValue → Result ModelError Bool
value_in ps (raise e) = raise e
value_in ps (return (scalar v)) = return (contains v ps)
value_in ps (return _) = return false

abbrev pub value_like : (ℕ → ℕ → Bool) → ℕ → Result ModelError FieldValue → Result ModelError Bool
value_like like p (raise e) = raise e
value_like like p (return (scalar v)) = return (like p v)
value_like like p (return _) = raise type_error

-- `all` and `any` go on to the rest only where the first part does not decide.
abbrev pub and_also : Result ModelError Bool → Result ModelError Bool → Result ModelError Bool
and_also (raise e) rest = raise e
and_also (return true) rest = rest
and_also (return false) rest = return false

abbrev pub or_else : Result ModelError Bool → Result ModelError Bool → Result ModelError Bool
or_else (raise e) rest = raise e
or_else (return true) rest = return true
or_else (return false) rest = rest

abbrev pub negate : Result ModelError Bool → Result ModelError Bool
negate (raise e) = raise e
negate (return b) = return (not b)

module _ (like : ℕ → ℕ → Bool) (attributes : Attributes) where
  unfoldable mutual
    -- `_Condition.evaluate`
    pub evaluate : Condition → Result ModelError Bool
    evaluate always = return true
    evaluate never = return false
    evaluate (conjunction cs) = evaluate_all cs
    evaluate (disjunction cs) = evaluate_any cs
    evaluate (negation c) = negate (evaluate c)
    evaluate (compares c n p) = compare_value c p (get_field n attributes)
    evaluate (is_in n ps) = value_in ps (get_field n attributes)
    evaluate (is_like n p) = value_like like p (get_field n attributes)

    pub evaluate_all : Conditions → Result ModelError Bool
    evaluate_all no_parts = return true
    evaluate_all (part c cs) = and_also (evaluate c) (evaluate_all cs)

    pub evaluate_any : Conditions → Result ModelError Bool
    evaluate_any no_parts = return false
    evaluate_any (part c cs) = or_else (evaluate c) (evaluate_any cs)

-- `_Ordering`
pub record OrderBy : Type 0 where
  pub by : ℕ
  pub reverse : Bool
