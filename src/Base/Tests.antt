-- ===== src/Base/Tests.antt =====
-- Boolean tests on the native numbers, the conditional, and lemmas by which tactics read them.
use Prim.Native.Nat.{ℕ, ◌≤◌, ◌<◌, compare, Ordering}
use mathlib.Core.Path.{◌≡◌, refl}
use mathlib.Core.Logic.{◌↔◌, ◌⊎◌, inl, inr}
use mathlib.Core.Bool.{Bool, true, false}
use mathlib.Core.Option.{Option, none, some}
use native.Mathlib.Omega.{arith}

abbrev pub ltb : ℕ → ℕ → Bool
ltb a b = elim (compare a b) [ Ordering.lt ↦ true | _ ↦ false ]

abbrev pub leb : ℕ → ℕ → Bool
leb a b = elim (compare a b) [ Ordering.gt ↦ false | _ ↦ true ]

infix 50 ◌==◌
abbrev pub ◌==◌ : ℕ → ℕ → Bool
a == b = elim (compare a b) [ Ordering.eq ↦ true | _ ↦ false ]

infix 1 if◌then◌else◌
abbrev pub if◌then◌else◌ {ℓ} : {A : Type ℓ} → Bool → A → A → A
if true then x else y = x
if false then x else y = y

pub ltb→lt : (a b : ℕ) → ltb a b ≡ true → a < b
ltb→lt a b h = ground arith

pub lt→ltb : (a b : ℕ) → a < b → ltb a b ≡ true
lt→ltb a b h = ground arith

pub leb→le : (a b : ℕ) → leb a b ≡ true → a ≤ b
leb→le a b h = ground arith

pub le→leb : (a b : ℕ) → a ≤ b → leb a b ≡ true
le→leb a b h = ground arith

pub ==_iff : (a b : ℕ) → ((a == b) ≡ true) ↔ (a ≡ b)
==_iff a b = ground arith

-- To split on a computed value and keep the equation.
pub Bool-cases : (b : Bool) → (b ≡ true) ⊎ (b ≡ false)
Bool-cases true = inl refl
Bool-cases false = inr refl

pub Option-cases {ℓ} : {A : Type ℓ} (o : Option A) → (o ≡ none) ⊎ ((a : A) × (o ≡ some a))
Option-cases none = inl refl
Option-cases (some a) = inr (a, refl)

module _ {ℓ} {A : Type ℓ} where
  -- Inversion of a conditional, and of one that fails unless its test holds.
  pub if-eq :
      (b : Bool) (x y : A) {z : A}
      → (if b then x else y) ≡ z
      → ((b ≡ true) × (x ≡ z)) ⊎ ((b ≡ false) × (y ≡ z))
  if-eq true x y e = inl (refl, e)
  if-eq false x y e = inr (refl, e)

  pub if_some :
      (b : Bool) (a : A) (o : Option A) {x : A}
      → (if b then some a else o) ≡ some x
      → (a ≡ x) ⊎ ((b ≡ false) × (o ≡ some x))
  if_some true a o e = inl (cc)
  if_some false a o e = inr (refl, e)

  pub some_if :
      (b : Bool) (a : A) (o : Option A)
      → (b ≡ true) ⊎ ((x : A) × (o ≡ some x))
      → (x : A) × ((if b then some a else o) ≡ some x)
  some_if true a o h = (a, refl)
  some_if false a o (inl h) = absurd (cc h)
  some_if false a o (inr h) = h
