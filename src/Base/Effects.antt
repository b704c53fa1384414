-- ===== src/Base/Effects.antt =====
-- A method call: explicit state and exceptions. What was assigned before a `raise` stays assigned.
use mathlib.Core.Path.{◌≡◌, refl}
use mathlib.Core.Logic.{◌⊎◌, inl, inr}
use mathlib.Core.Bool.{Bool, true, false}

pub data Result (E A : Type 0) : Type 0 where
  return : A → Result E A
  raise : E → Result E A

abbrev pub Action : Type 0 → Type 0 → Type 0 → Type 0
Action S E A = S → Result E A × S

module _ {S E : Type 0} where
  abbrev pub pure : {A : Type 0} → A → Action S E A
  pure a s = (return a, s)

  abbrev pub throw : {A : Type 0} → E → Action S E A
  throw e s = (raise e, s)

  abbrev pub get : Action S E S
  get s = (return s, s)

  abbrev pub modify : (S → S) → Action S E Unit
  modify f s = (return tt, f s)

  -- `if c: raise e`
  abbrev pub raise_if : Bool → E → Action S E Unit
  raise_if true e s = (raise e, s)
  raise_if false e s = (return tt, s)

  -- `if c: body`
  abbrev pub when : Bool → Action S E Unit → Action S E Unit
  when true body s = body s
  when false body s = (return tt, s)

module _ {S E A B : Type 0} where
  abbrev pub and_then : Result E A → (A → Action S E B) → Action S E B
  and_then (return a) f s = f a s
  and_then (raise e) f s = (raise e, s)

  infixl 5 ◌>>=◌ ◌>>◌
  abbrev pub ◌>>=◌ : Action S E A → (A → Action S E B) → Action S E B
  ◌>>=◌ m f s = let (r, s') = m s in and_then r f s'

  abbrev pub ◌>>◌ : Action S E A → Action S E B → Action S E B
  ◌>>◌ m k s = let (r, s') = m s in and_then r (λ _. k) s'

  pub and_then-eq-return :
      (r : Result E A) (f : A → Action S E B) (s : S) {b : B}
      → (and_then r f s).0 ≡ return b
      → (a : A) × (r ≡ return a) × ((f a s).0 ≡ return b)
  and_then-eq-return (return a) f s e = (a, refl, e)
  and_then-eq-return (raise x) f s e = cc

pub Result-cases :
    {E A : Type 0} (r : Result E A) → ((a : A) × (r ≡ return a)) ⊎ ((e : E) × (r ≡ raise e))
Result-cases (return a) = inl (a, refl)
Result-cases (raise e) = inr (e, refl)
