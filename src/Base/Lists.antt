-- ===== src/Base/Lists.antt =====
-- Lists measured and indexed by native numbers, and the comprehensions of the source with a
-- Boolean test.
use Prim.Native.Nat.{ℕ, zero, suc, ◌+◌}
use mathlib.Core.Path.{◌≡◌, refl, ap}
use mathlib.Core.Logic.{◌⊎◌, inl, inr}
use mathlib.Core.Bool.{Bool, true, false, ◌&&◌, ◌||◌}
use mathlib.Core.List.{List, [], ◌∷◌, ◌++◌, map}
use mathlib.Core.Option.{Option, none, some}
use native.Mathlib.Omega.{arith}
use godot_dn_dsimulator.Base.Tests.{if◌then◌else◌, Bool-cases}

module _ {ℓ} {A : Type ℓ} where
  abbrev pub length : List A → ℕ
  length [] = 0
  length (x ∷ xs) = suc (length xs)

  abbrev pub get_elem? : List A → ℕ → Option A
  get_elem? [] i = none
  get_elem? (x ∷ xs) zero = some x
  get_elem? (x ∷ xs) (suc i) = get_elem? xs i

  abbrev pub take : ℕ → List A → List A
  take zero xs = []
  take (suc n) [] = []
  take (suc n) (x ∷ xs) = x ∷ take n xs

  -- `tuple(x for x in xs if keep(x))`
  abbrev pub filter : (A → Bool) → List A → List A
  filter keep [] = []
  filter keep (x ∷ xs) = if keep x then x ∷ filter keep xs else filter keep xs

  -- `next((x for x in xs if test(x)), None)`
  abbrev pub find? : (A → Bool) → List A → Option A
  find? test [] = none
  find? test (x ∷ xs) = if test x then some x else find? test xs

  abbrev pub any : (A → Bool) → List A → Bool
  any test [] = false
  any test (x ∷ xs) = test x || any test xs

  abbrev pub all : (A → Bool) → List A → Bool
  all test [] = true
  all test (x ∷ xs) = test x && all test xs

  -- a predicate of every entry, which computes to a tuple
  abbrev pub All {κ} : (A → Type κ) → List A → Type κ
  All P [] = Unit
  All P (x ∷ xs) = P x × All P xs

  pub length-append : (xs ys : List A) → length (xs ++ ys) ≡ length xs + length ys
  length-append [] ys = omega arith
  length-append (x ∷ xs) ys = omega (arith, length-append xs ys)

module _ {ℓ κ} {A : Type ℓ} {B : Type κ} where
  pub length-map : (f : A → B) (xs : List A) → length (map f xs) ≡ length xs
  length-map f [] = refl
  length-map f (x ∷ xs) = ap suc (length-map f xs)

-- `a` stands in a list
pub data In {ℓ} {A : Type ℓ} (a : A) : List A → Type ℓ where
  here : {xs : List A} → In a (a ∷ xs)
  there : {x : A} {xs : List A} → In a xs → In a (x ∷ xs)

module _ {ℓ} {A : Type ℓ} where
  pub All-In {κ} : (P : A → Type κ) (xs : List A) {a : A} → All P xs → In a xs → P a
  All-In P [] h i = elim i [ ]
  All-In P (x ∷ xs) h here = h.0
  All-In P (x ∷ xs) h (there i) = All-In P xs h.1 i

  pub In-All {κ} : (P : A → Type κ) (xs : List A) → ((a : A) → In a xs → P a) → All P xs
  In-All P [] h = tt
  In-All P (x ∷ xs) h = (h x here, In-All P xs (λ a i. h a (there i)))

  pub In-any :
      (test : A → Bool) (xs : List A) → any test xs ≡ true → (a : A) × In a xs × (test a ≡ true)
  In-any test [] h = absurd (cc h)
  In-any test (x ∷ xs) h = elim (Bool-cases (test x)) [
    | inl first ↦ (x, here, first)
    | inr other ↦ let (a, i, t) = In-any test xs (ground arith) in (a, there i, t)
  ]

  pub In-cons : {a x : A} {xs : List A} → In a (x ∷ xs) → (a ≡ x) ⊎ In a xs
  In-cons here = inl refl
  In-cons (there i) = inr i

module _ {ℓ κ} {A : Type ℓ} {B : Type κ} where
  pub In-map : (f : A → B) (xs : List A) {a : A} → In a xs → In (f a) (map f xs)
  In-map f [] i = elim i [ ]
  In-map f (x ∷ xs) here = here
  In-map f (x ∷ xs) (there i) = there (In-map f xs i)

  pub In-map_cases :
      (f : A → B) (xs : List A) {b : B} → In b (map f xs) → (a : A) × In a xs × (b ≡ f a)
  In-map_cases f [] i = elim i [ ]
  In-map_cases f (x ∷ xs) i = elim (In-cons i) [
    | inl e ↦ (x, here, e)
    | inr j ↦ let (a, k, e) = In-map_cases f xs j in (a, there k, e)
  ]
