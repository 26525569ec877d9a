-- ===== src/Base/Sort.antt =====
-- Python's `sorted`: a stable sort by a Boolean comparison. Keys that are tuples compare by their
-- first difference (`lex`).
use Prim.Native.Nat.{suc}
use mathlib.Core.Path.{◌≡◌, refl, ap, sym, subst, ◌∙◌}
use mathlib.Core.Logic.{◌⊎◌, inl, inr}
use mathlib.Core.Bool.{Bool, true, false, ◌&&◌}
use mathlib.Core.List.{List, [], ◌∷◌, Perm}
use mathlib.Core.List.Perm
use native.Mathlib.Omega.{arith}
use godot_dn_dsimulator.Base.Tests.{if◌then◌else◌, Bool-cases}
use godot_dn_dsimulator.Base.Lists.{All, all, length, In, here, there, In-cons}

module _ {ℓ} {A : Type ℓ} where
  -- `x` goes before what is not smaller, so equal items keep their order
  unfoldable pub insert : (A → A → Bool) → A → List A → List A
  insert le x [] = x ∷ []
  insert le x (y ∷ ys) = if le x y then x ∷ y ∷ ys else y ∷ insert le x ys

  unfoldable pub sort : (A → A → Bool) → List A → List A
  unfolding insert
  sort le [] = []
  sort le (x ∷ xs) = insert le x (sort le xs)

  -- the order of pairs of keys
  abbrev pub lex : (A → A → Bool) → (A → A → Bool) → A → A → Bool
  lex first second a b = first a b && (if first b a then second a b else true)

  abbrev pub IsLeast : (A → A → Bool) → A → List A → Type 0
  IsLeast le x = All (λ y. le x y ≡ true)

  -- ascending: each entry is at most every later one
  abbrev pub IsSorted : (A → A → Bool) → List A → Type 0
  IsSorted le [] = Unit
  IsSorted le (x ∷ xs) = IsLeast le x xs × IsSorted le xs

  pub insert-perm : (le : A → A → Bool) (x : A) (xs : List A) → Perm (insert le x xs) (x ∷ xs)
  unfolding insert
  insert-perm le x [] = Perm.refl (x ∷ [])
  insert-perm le x (y ∷ ys) = elim (Bool-cases (le x y)) [
    | inl first ↦ rw first (Perm.refl (x ∷ y ∷ ys))
    | inr later ↦ rw later (Perm.trans (Perm.cons y (insert-perm le x ys)) (Perm.swap x y ys))
  ]

  -- Sorting loses nothing and adds nothing.
  pub sort-perm : (le : A → A → Bool) (xs : List A) → Perm (sort le xs) xs
  unfolding sort
  sort-perm le [] = Perm.refl []
  sort-perm le (x ∷ xs) = Perm.trans (insert-perm le x (sort le xs)) (Perm.cons x (sort-perm le xs))

  -- What holds of every entry still does after sorting.
  pub All-insert {κ} :
      (P : A → Type κ) (le : A → A → Bool) (x : A) (xs : List A)
      → P x
      → All P xs
      → All P (insert le x xs)
  unfolding insert
  All-insert P le x [] p h = (p, tt)
  All-insert P le x (y ∷ ys) p h = elim (Bool-cases (le x y)) [
    | inl first ↦ rw first (p, h)
    | inr later ↦ rw later (h.0, All-insert P le x ys p h.1)
  ]

  pub All-sort {κ} :
      (P : A → Type κ) (le : A → A → Bool) (xs : List A) → All P xs → All P (sort le xs)
  unfolding sort
  All-sort P le [] h = tt
  All-sort P le (x ∷ xs) h = All-insert P le x (sort le xs) h.0 (All-sort P le xs h.1)

  pub In-insert : (le : A → A → Bool) (x : A) (xs : List A) → In x (insert le x xs)
  unfolding insert
  In-insert le x [] = here
  In-insert le x (y ∷ ys) = elim (Bool-cases (le x y)) [
    | inl first ↦ rw first here
    | inr later ↦ rw later (there (In-insert le x ys))
  ]

  pub In-insert_old :
      (le : A → A → Bool) (x : A) (xs : List A) {a : A} → In a xs → In a (insert le x xs)
  unfolding insert
  In-insert_old le x [] i = elim i [ ]
  In-insert_old le x (y ∷ ys) here = elim (Bool-cases (le x y)) [
    | inl first ↦ rw first (there here)
    | inr later ↦ rw later here
  ]
  In-insert_old le x (y ∷ ys) (there i) = elim (Bool-cases (le x y)) [
    | inl first ↦ rw first (there (there i))
    | inr later ↦ rw later (there (In-insert_old le x ys i))
  ]

  pub In-sort : (le : A → A → Bool) (xs : List A) {a : A} → In a xs → In a (sort le xs)
  unfolding sort
  In-sort le [] i = elim i [ ]
  In-sort le (x ∷ xs) here = In-insert le x (sort le xs)
  In-sort le (x ∷ xs) (there i) = In-insert_old le x (sort le xs) (In-sort le xs i)

  In-insert_cases :
      (le : A → A → Bool) (x : A) (xs : List A) {a : A} → In a (insert le x xs) → In a (x ∷ xs)
  unfolding insert
  In-insert_cases le x [] i = i
  In-insert_cases le x (y ∷ ys) {a} i = elim (Bool-cases (le x y)) [
    | inl first ↦ rw first at i
    | inr later ↦
        let j : In a (y ∷ insert le x ys) = rw later at i in
        elim (In-cons j) [
          | inl e ↦ subst (λ b. In b (x ∷ y ∷ ys)) (sym e) (there here)
          | inr k ↦ swapped (In-insert_cases le x ys k)
        ]
  ]
    where
      swapped : {a : A} → In a (x ∷ ys) → In a (x ∷ y ∷ ys)
      swapped here = here
      swapped (there k) = there (there k)

  pub In-sort_cases : (le : A → A → Bool) (xs : List A) {a : A} → In a (sort le xs) → In a xs
  unfolding sort
  In-sort_cases le [] i = i
  In-sort_cases le (x ∷ xs) i = elim (In-cons (In-insert_cases le x (sort le xs) i)) [
    | inl e ↦ subst (λ b. In b (x ∷ xs)) (sym e) here
    | inr j ↦ there (In-sort_cases le xs j)
  ]

  pub length-insert :
      (le : A → A → Bool) (x : A) (xs : List A) → length (insert le x xs) ≡ length (x ∷ xs)
  unfolding insert
  length-insert le x [] = refl
  length-insert le x (y ∷ ys) = ground (arith, length-insert le x ys)

  pub length-sort : (le : A → A → Bool) (xs : List A) → length (sort le xs) ≡ length xs
  unfolding sort
  length-sort le [] = refl
  length-sort le (x ∷ xs) = length-insert le x (sort le xs) ∙ ap suc (length-sort le xs)

  all-insert :
      (test : A → Bool) (le : A → A → Bool) (x : A) (xs : List A)
      → all test (insert le x xs) ≡ all test (x ∷ xs)
  unfolding insert
  all-insert test le x [] = refl
  all-insert test le x (y ∷ ys) = ground (arith, all-insert test le x ys)

  pub all-sort :
      (test : A → Bool) (le : A → A → Bool) (xs : List A) → all test (sort le xs) ≡ all test xs
  unfolding sort
  all-sort test le [] = refl
  all-sort test le (x ∷ xs) = ground (arith, all-insert test le x (sort le xs), all-sort test le xs)

  -- A list in order is left as it is.
  pub sort-IsSorted_self : (le : A → A → Bool) (xs : List A) → IsSorted le xs → sort le xs ≡ xs
  unfolding sort
  sort-IsSorted_self le [] h = refl
  sort-IsSorted_self le (x ∷ xs) h =
      ap (insert le x) (sort-IsSorted_self le xs h.1) ∙ insert-least x xs h.0
    where
      insert-least : (x : A) (xs : List A) → IsLeast le x xs → insert le x xs ≡ x ∷ xs
      insert-least x [] h = refl
      insert-least x (y ∷ ys) h = rw (h.0)

-- A comparison that `sorted` can rely on.
pub record TotalPreorder {ℓ} {A : Type ℓ} (le : A → A → Bool) : Type ℓ where
  pub total : (a b : A) → (le a b ≡ true) ⊎ (le b a ≡ true)
  pub trans : (a b c : A) → le a b ≡ true → le b c ≡ true → le a c ≡ true

module _ {ℓ} {A : Type ℓ} {le : A → A → Bool} (o : TotalPreorder le) where
  IsLeast-trans : (x y : A) (ys : List A) → le x y ≡ true → IsLeast le y ys → IsLeast le x ys
  IsLeast-trans x y [] h k = tt
  IsLeast-trans x y (z ∷ zs) h k = (o.trans x y z h k.0, IsLeast-trans x y zs h k.1)

  pub insert-IsSorted : (x : A) (xs : List A) → IsSorted le xs → IsSorted le (insert le x xs)
  unfolding insert
  insert-IsSorted x [] h = (tt, tt)
  insert-IsSorted x (y ∷ ys) h = elim (Bool-cases (le x y)) [
    | inl first ↦ rw first ((first, IsLeast-trans x y ys first h.0), h)
    | inr later ↦
        rw later
          (All-insert (λ z. le y z ≡ true) le x ys (above later) h.0, insert-IsSorted x ys h.1)
  ]
    where
      above : le x y ≡ false → le y x ≡ true
      above later = elim (o.total x y) [ inl p ↦ cc | inr p ↦ p ]

  -- The result is in ascending order.
  pub sort-IsSorted : (xs : List A) → IsSorted le (sort le xs)
  unfolding sort
  sort-IsSorted [] = tt
  sort-IsSorted (x ∷ xs) = insert-IsSorted x (sort le xs) (sort-IsSorted xs)

pub lex-TotalPreorder {ℓ} :
    {A : Type ℓ} (first second : A → A → Bool)
    → TotalPreorder first
    → TotalPreorder second
    → TotalPreorder (lex first second)
lex-TotalPreorder first second o p = record {
  total = λ a b. ground (arith, o.total a b, p.total a b);
  trans = λ a b c h k. ground (
    arith,
    o.trans a b c,
    o.trans c b a,
    o.trans b c a,
    o.trans c a b,
    o.trans b a c,
    p.trans a b c,
  );
}

pub TotalPreorder-on {ℓ κ} :
    {A : Type ℓ} {B : Type κ} (f : A → B) (le : B → B → Bool)
    → TotalPreorder le
    → TotalPreorder (λ (a b : A). le (f a) (f b))
TotalPreorder-on f le o = record {
  total = λ a b. o.total (f a) (f b);
  trans = λ a b c. o.trans (f a) (f b) (f c);
}
