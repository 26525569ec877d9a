-- ===== src/Base/Keyed.antt =====
-- Tuples of records with a text key: the searches, replacements, uniqueness tests and sorts that the
-- source writes as comprehensions over `item.some_id`.
use godot_dn_dsimulator.Base.Tests.{if◌then◌else◌, if_some}
use godot_dn_dsimulator.Base.Lists.{All}
use godot_dn_dsimulator.Base.Text.{
  Text, text_eq, text_leb, text_eq_iff, text_eq_comm, text_leb_total, text_leb_trans,
}
use godot_dn_dsimulator.Base.Sort.{insert, sort, TotalPreorder, TotalPreorder-on}
use mathlib.Core.Path.{◌≡◌, refl, subst}
use mathlib.Core.Logic.{inl, inr}
use mathlib.Core.Bool.{Bool, true, false, not, ◌&&◌, ◌||◌}
use mathlib.Core.Option.{Option, none, some}
use mathlib.Core.List.{List, [], ◌∷◌}
use native.Mathlib.Omega.{arith}

pub text_order : TotalPreorder text_leb
text_order = record { total = text_leb_total; trans = text_leb_trans }

module _ {ℓ} {A : Type ℓ} (key : A → Text) where
  -- `next((x for x in xs if x.key == k), None)`
  unfoldable pub find_key : Text → List A → Option A
  find_key k [] = none
  find_key k (x ∷ xs) = if text_eq (key x) k then some x else find_key k xs

  -- `any(x.key == k for x in xs)`
  unfoldable pub has_key : Text → List A → Bool
  has_key k [] = false
  has_key k (x ∷ xs) = text_eq (key x) k || has_key k xs

  -- `len(keys) == len(set(keys))`
  unfoldable pub unique_keys : List A → Bool
  unfolding has_key
  unique_keys [] = true
  unique_keys (x ∷ xs) = not (has_key (key x) xs) && unique_keys xs

  -- `tuple(x for x in xs if x.key != k)`
  unfoldable pub remove_key : Text → List A → List A
  remove_key k [] = []
  remove_key k (x ∷ xs) = if text_eq (key x) k then remove_key k xs else x ∷ remove_key k xs

  -- `tuple(updated if x.key == updated.key else x for x in xs)`
  unfoldable pub replace_key : A → List A → List A
  replace_key u [] = []
  replace_key u (x ∷ xs) = (if text_eq (key x) (key u) then u else x) ∷ replace_key u xs

  -- `by_key = dict(...); by_key[u.key] = u; tuple(by_key.values())`, for a tuple with unique keys
  unfoldable pub put_key : A → List A → List A
  put_key u [] = u ∷ []
  put_key u (x ∷ xs) = if text_eq (key x) (key u) then u ∷ xs else x ∷ put_key u xs

  abbrev pub key_leb : A → A → Bool
  key_leb a b = text_leb (key a) (key b)

  pub key_order : TotalPreorder key_leb
  key_order = TotalPreorder-on key text_leb text_order

  -- An entry that is found has the key that was asked for.
  pub find_key-key :
      (k : Text) (xs : List A) (found : A) → find_key k xs ≡ some found → key found ≡ k
  unfolding find_key
  find_key-key k [] found e = cc
  find_key-key k (x ∷ xs) found e = ground (arith, text_eq_iff (key x) k, find_key-key k xs found)

  pub All-find_key {κ} :
      (P : A → Type κ) (k : Text) (xs : List A) (found : A)
      → All P xs
      → find_key k xs ≡ some found
      → P found
  unfolding find_key
  All-find_key P k [] found h e = absurd (cc)
  All-find_key P k (x ∷ xs) found h e = elim (if_some (text_eq (key x) k) x (find_key k xs) e) [
    | inl here ↦ subst P here h.0
    | inr (_, later) ↦ All-find_key P k xs found h.1 later
  ]

  pub has_key-find_key :
      (k : Text) (xs : List A)
      → has_key k xs ≡ elim (find_key k xs) [ none ↦ false | some _ ↦ true ]
  unfolding has_key find_key
  has_key-find_key k [] = refl
  has_key-find_key k (x ∷ xs) = ground (arith, has_key-find_key k xs)

  pub has_key-insert :
      (le : A → A → Bool) (k : Text) (x : A) (xs : List A)
      → has_key k (insert le x xs) ≡ (text_eq (key x) k || has_key k xs)
  unfolding has_key insert
  has_key-insert le k x [] = refl
  has_key-insert le k x (y ∷ ys) = ground (arith, has_key-insert le k x ys)

  pub has_key-sort :
      (le : A → A → Bool) (k : Text) (xs : List A) → has_key k (sort le xs) ≡ has_key k xs
  unfolding has_key sort
  has_key-sort le k [] = refl
  has_key-sort le k (x ∷ xs) =
      ground (arith, has_key-insert le k x (sort le xs), has_key-sort le k xs)

  find_key-insert :
      (le : A → A → Bool) (k : Text) (x : A) (xs : List A)
      → has_key (key x) xs ≡ false
      → find_key k (insert le x xs) ≡ (if text_eq (key x) k then some x else find_key k xs)
  unfolding find_key insert has_key
  find_key-insert le k x [] h = refl
  find_key-insert le k x (y ∷ ys) h = ground (
    arith,
    find_key-insert le k x ys,
    text_eq_iff (key y) k,
    text_eq_iff (key x) k,
    text_eq_iff (key y) (key x),
  )

  -- Sorting entries with unique keys changes what no search finds.
  pub find_key-sort :
      (le : A → A → Bool) (k : Text) (xs : List A)
      → unique_keys xs ≡ true
      → find_key k (sort le xs) ≡ find_key k xs
  unfolding find_key sort unique_keys
  find_key-sort le k [] h = refl
  find_key-sort le k (x ∷ xs) h = ground (
    arith,
    find_key-insert le k x (sort le xs),
    has_key-sort le (key x) xs,
    find_key-sort le k xs,
  )

  unique_keys-insert :
      (le : A → A → Bool) (x : A) (xs : List A)
      → unique_keys (insert le x xs) ≡ unique_keys (x ∷ xs)
  unfolding unique_keys insert
  unique_keys-insert le x [] = refl
  unique_keys-insert le x (y ∷ ys) = ground (
    arith,
    unique_keys-insert le x ys,
    has_key-insert le (key y) x ys,
    text_eq_comm (key x) (key y),
  )

  pub unique_keys-sort :
      (le : A → A → Bool) (xs : List A) → unique_keys (sort le xs) ≡ unique_keys xs
  unfolding unique_keys sort
  unique_keys-sort le [] = refl
  unique_keys-sort le (x ∷ xs) = ground (
    arith,
    unique_keys-insert le x (sort le xs),
    has_key-sort le (key x) xs,
    unique_keys-sort le xs,
  )

  -- An assignment is read back, and leaves every other key alone.
  pub find_key-put_key :
      (k : Text) (u : A) (xs : List A)
      → find_key k (put_key u xs) ≡ (if text_eq (key u) k then some u else find_key k xs)
  unfolding find_key put_key
  find_key-put_key k u [] = refl
  find_key-put_key k u (x ∷ xs) = ground (
    arith,
    find_key-put_key k u xs,
    text_eq_iff (key x) k,
    text_eq_iff (key x) (key u),
    text_eq_iff (key u) k,
  )

  pub has_key-put_key :
      (k : Text) (u : A) (xs : List A)
      → has_key k (put_key u xs) ≡ (text_eq (key u) k || has_key k xs)
  unfolding has_key put_key
  has_key-put_key k u [] = refl
  has_key-put_key k u (x ∷ xs) = ground (
    arith,
    has_key-put_key k u xs,
    text_eq_iff (key x) k,
    text_eq_iff (key x) (key u),
    text_eq_iff (key u) k,
  )

  pub unique_keys-put_key :
      (u : A) (xs : List A) → unique_keys xs ≡ true → unique_keys (put_key u xs) ≡ true
  unfolding unique_keys put_key
  unique_keys-put_key u [] h = refl
  unique_keys-put_key u (x ∷ xs) h = ground (
    arith,
    unique_keys-put_key u xs,
    has_key-put_key (key x) u xs,
    text_eq_iff (key x) (key u),
    text_eq_comm (key x) (key u),
  )

  pub has_key-replace_key :
      (k : Text) (u : A) (xs : List A) → has_key k (replace_key u xs) ≡ has_key k xs
  unfolding has_key replace_key
  has_key-replace_key k u [] = refl
  has_key-replace_key k u (x ∷ xs) = ground (
    arith,
    has_key-replace_key k u xs,
    text_eq_iff (key x) k,
    text_eq_iff (key x) (key u),
    text_eq_iff (key u) k,
  )

  pub find_key-replace_key :
      (k : Text) (u : A) (xs : List A)
      → find_key k (replace_key u xs)
        ≡ (if text_eq (key u) k && has_key k xs then some u else find_key k xs)
  unfolding find_key replace_key has_key
  find_key-replace_key k u [] = ground arith
  find_key-replace_key k u (x ∷ xs) = ground (
    arith,
    find_key-replace_key k u xs,
    text_eq_iff (key x) k,
    text_eq_iff (key x) (key u),
    text_eq_iff (key u) k,
  )

  pub unique_keys-replace_key :
      (u : A) (xs : List A) → unique_keys (replace_key u xs) ≡ unique_keys xs
  unfolding unique_keys replace_key
  unique_keys-replace_key u [] = refl
  unique_keys-replace_key u (x ∷ xs) = ground (
    arith,
    unique_keys-replace_key u xs,
    has_key-replace_key (key x) u xs,
    has_key-replace_key (key u) u xs,
    text_eq_iff (key x) (key u),
  )

  pub find_key-remove_key :
      (k j : Text) (xs : List A)
      → find_key j (remove_key k xs) ≡ (if text_eq k j then none else find_key j xs)
  unfolding find_key remove_key
  find_key-remove_key k j [] = ground arith
  find_key-remove_key k j (x ∷ xs) = ground (
    arith,
    find_key-remove_key k j xs,
    text_eq_iff (key x) k,
    text_eq_iff (key x) j,
    text_eq_iff k j,
  )

  pub has_key-remove_key :
      (k j : Text) (xs : List A) → has_key j (remove_key k xs) ≡ (not (text_eq k j) && has_key j xs)
  unfolding has_key remove_key
  has_key-remove_key k j [] = ground arith
  has_key-remove_key k j (x ∷ xs) = ground (
    arith,
    has_key-remove_key k j xs,
    text_eq_iff (key x) k,
    text_eq_iff (key x) j,
    text_eq_iff k j,
  )

  pub unique_keys-remove_key :
      (k : Text) (xs : List A) → unique_keys xs ≡ true → unique_keys (remove_key k xs) ≡ true
  unfolding unique_keys remove_key
  unique_keys-remove_key k [] h = refl
  unique_keys-remove_key k (x ∷ xs) h =
      ground (arith, unique_keys-remove_key k xs, has_key-remove_key k (key x) xs)
