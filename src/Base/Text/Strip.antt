-- ===== src/Base/Text/Strip.antt =====
-- `strip` of a text that is not blank.
use mathlib.Core.Path.{◌≡◌, refl, ap, ◌∙◌}
use mathlib.Core.Bool.{false}
use mathlib.Core.List.{[], ◌∷◌, ◌++◌, reverse, reverse-cons}
use native.Mathlib.Omega.{arith}
use Prim.Native.Nat.{ℕ}
use godot_dn_dsimulator.Base.Tests.{Bool-cases}
use mathlib.Core.Logic.{inl, inr}
use godot_dn_dsimulator.Base.Text.{Text, is_space, is_blank, is_empty, lstrip, strip}

lstrip-first :
    (s : Text)
    → is_blank s ≡ false
    → (c : ℕ) × (r : Text) × (lstrip s ≡ c ∷ r) × (is_space c ≡ false)
unfolding lstrip is_blank
lstrip-first [] h = cc
lstrip-first (c ∷ s) h = elim (Bool-cases (is_space c)) [
  | inl space ↦
      let (d, r, e, solid) = lstrip-first s (ground (arith, space)) in (d, r, rw (space, e), solid)
  | inr solid ↦ (c, s, rw solid, solid)
]

lstrip-last :
    (s : Text) (c : ℕ)
    → is_space c ≡ false
    → (d : ℕ) × (r : Text) × (lstrip (s ++ (c ∷ [])) ≡ d ∷ r)
unfolding lstrip
lstrip-last [] c solid = (c, [], rw solid)
lstrip-last (e ∷ s) c solid = elim (Bool-cases (is_space e)) [
  | inl space ↦ let (d, r, h) = lstrip-last s c solid in (d, r, rw (space, h))
  | inr other ↦ (e, s ++ (c ∷ []), rw other)
]

is_empty-snoc : (s : Text) (c : ℕ) → is_empty (s ++ (c ∷ [])) ≡ false
unfolding is_empty
is_empty-snoc [] c = refl
is_empty-snoc (d ∷ s) c = refl

-- A text that is not blank is not empty after `strip`.
pub is_empty-strip : (s : Text) → is_blank s ≡ false → is_empty (strip s) ≡ false
unfolding strip
is_empty-strip s h =
    let (c, r, first, solid) = lstrip-first s h in
    let (d, t, last) = lstrip-last (reverse r) c solid in
    ap (λ x. is_empty (reverse (lstrip (reverse x)))) first
    ∙ ap (λ x. is_empty (reverse (lstrip x))) (reverse-cons c r)
    ∙ ap (λ x. is_empty (reverse x)) last
    ∙ ap is_empty (reverse-cons d t)
    ∙ is_empty-snoc (reverse t) d
