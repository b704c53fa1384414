-- ===== src/Base/Lists.antt =====
-- Lists measured by native numbers, and lists filtered by a Boolean test.
use Prim.Native.Nat.{ℕ, zero, suc, ◌+◌, ◌-◌}
use mathlib.Core.Path.{◌≡◌, refl, ap₂}
use mathlib.Core.Bool.{Bool, true, false, not, ◌&&◌, ◌||◌}
use mathlib.Core.List.{List, [], ◌∷◌, ◌++◌}
use native.Mathlib.Omega.{arith}
use minos_python.Base.Tests.{◌==◌, if◌then◌else◌}

module _ {ℓ} {A : Type ℓ} where
  abbrev pub length : List A → ℕ
  length [] = 0
  length (x ∷ xs) = suc (length xs)

  -- Python's `filter(test, xs)`.
  abbrev pub select_if : (A → Bool) → List A → List A
  select_if test [] = []
  select_if test (x ∷ xs) = if test x then x ∷ select_if test xs else select_if test xs

  -- Whether an iterable has a first item: `await iterable.__anext__()` does not raise.
  abbrev pub is_empty : List A → Bool
  is_empty [] = true
  is_empty (x ∷ xs) = false

  abbrev pub any_of : (A → Bool) → List A → Bool
  any_of test [] = false
  any_of test (x ∷ xs) = test x || any_of test xs

  abbrev pub drop : ℕ → List A → List A
  drop zero xs = xs
  drop (suc n) [] = []
  drop (suc n) (x ∷ xs) = drop n xs

  abbrev pub All {κ} : (A → Type κ) → List A → Type κ
  All P [] = Unit
  All P (x ∷ xs) = P x × All P xs

  pub length-append : (xs ys : List A) → length (xs ++ ys) ≡ length xs + length ys
  length-append [] ys = omega arith
  length-append (x ∷ xs) ys = omega (arith, length-append xs ys)

  pub select_if-append :
      (test : A → Bool) (xs ys : List A)
      → select_if test (xs ++ ys) ≡ select_if test xs ++ select_if test ys
  select_if-append test [] ys = refl
  select_if-append test (x ∷ xs) ys = ground (arith, select_if-append test xs ys)

  pub All-append {κ} : (P : A → Type κ) (xs ys : List A) → All P xs → All P ys → All P (xs ++ ys)
  All-append P [] ys hx hy = hy
  All-append P (x ∷ xs) ys hx hy = (hx.0, All-append P xs ys hx.1 hy)

  pub All-map {κ μ} :
      (P : A → Type κ) (Q : A → Type μ) (xs : List A) → ((x : A) → P x → Q x) → All P xs → All Q xs
  All-map P Q [] f h = tt
  All-map P Q (x ∷ xs) f h = (f x h.0, All-map P Q xs f h.1)

-- `x in xs`, for numbers.
abbrev pub contains : ℕ → List ℕ → Bool
contains n = any_of (λ m. n == m)

module _ {ℓ} {A : Type ℓ} where
  pub any_of-congr :
      (p q : A → Bool) (xs : List A) → ((x : A) → p x ≡ q x) → any_of p xs ≡ any_of q xs
  any_of-congr p q [] h = refl
  any_of-congr p q (x ∷ xs) h = ap₂ (λ a b. a || b) (h x) (any_of-congr p q xs h)

  pub any_of-select_if :
      (p q : A → Bool) (xs : List A) → any_of p (select_if q xs) ≡ any_of (λ x. q x && p x) xs
  any_of-select_if p q [] = refl
  any_of-select_if p q (x ∷ xs) = ground (arith, any_of-select_if p q xs)

  pub any_of-append :
      (p : A → Bool) (xs ys : List A) → any_of p (xs ++ ys) ≡ any_of p xs || any_of p ys
  any_of-append p [] ys = refl
  any_of-append p (x ∷ xs) ys = ground (arith, any_of-append p xs ys)

  pub is_empty-select_if :
      (p : A → Bool) (xs : List A) → is_empty (select_if p xs) ≡ not (any_of p xs)
  is_empty-select_if p [] = refl
  is_empty-select_if p (x ∷ xs) = ground (arith, is_empty-select_if p xs)

  -- A test that holds at one place of a list.
  pub any_of-middle :
      (p : A → Bool) (xs : List A) (x : A) (ys : List A)
      → p x ≡ true
      → any_of p (xs ++ (x ∷ ys)) ≡ true
  any_of-middle p [] x ys h = rw h
  any_of-middle p (w ∷ xs) x ys h = ground (arith, any_of-middle p xs x ys h)

pub any_of-false {ℓ} : {A : Type ℓ} (xs : List A) → any_of (λ x. false) xs ≡ false
any_of-false [] = refl
any_of-false (x ∷ xs) = any_of-false xs

pub length-drop {ℓ} : {A : Type ℓ} (n : ℕ) (xs : List A) → length (drop n xs) ≡ length xs - n
length-drop zero xs = omega arith
length-drop (suc n) [] = omega arith
length-drop (suc n) (x ∷ xs) = omega (arith, length-drop n xs)
