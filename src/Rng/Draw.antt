-- ===== src/Rng/Draw.antt =====
-- What a draw returns: bounds of `randbelow` and `roll_die`, and the generator that is left.
use mathlib.Core.Path.{subst}
use native.Mathlib.Nat.{mod-lt}
use godot_dn_dsimulator.Base.{
  ℕ, zero, suc, ◌-◌, ◌%◌, ◌^◌, ◌≤◌, ◌<◌, ◌≡◌, refl, ◌∙◌, inl, inr, some, arith, ok, out_of_fuel,
  leb, ltb, if-eq, if_some, ok-injective, or_raise-eq-ok, >>=-eq-ok, ◌&&◌, ap, sym, ◌==◌,
}
use godot_dn_dsimulator.Base.Int.{pos}
use godot_dn_dsimulator.Rng.{DeterministicRng, next_uint32, draw, draw_fuel, randbelow, roll_die}
use godot_dn_dsimulator.Rng.Words.{IsValid, next_uint32-IsValid, output-lt}

pub next_uint32-lt : (r : DeterministicRng) → (next_uint32 r).0 < 2 ^ 32
unfolding next_uint32
next_uint32-lt r = output-lt r.state

-- The value is below the bound, and the generator stays valid with its increment.
abbrev pub IsDraw : ℕ → DeterministicRng → ℕ × DeterministicRng → Type 0
IsDraw n r (v, r') = (v < n) × (IsValid r → IsValid r') × (r'.increment ≡ r.increment)

increment-next_uint32 : (r : DeterministicRng) → (next_uint32 r).1.increment ≡ r.increment
unfolding next_uint32
increment-next_uint32 r = refl

IsDraw-first :
    (n : ℕ) (r : DeterministicRng) → 0 < n → IsDraw n r ((next_uint32 r).0 % n, (next_uint32 r).1)
IsDraw-first n r h = (mod-lt _ h, next_uint32-IsValid, increment-next_uint32 r)

IsDraw-later :
    (n : ℕ) (r : DeterministicRng) (x : ℕ × DeterministicRng)
    → IsDraw n (next_uint32 r).1 x
    → IsDraw n r x
IsDraw-later n r x (below, valid, same) =
    (below, (λ v. valid (next_uint32-IsValid v)), same ∙ increment-next_uint32 r)

draw-IsDraw :
    (fuel threshold n : ℕ) (r : DeterministicRng) (x : ℕ × DeterministicRng)
    → 0 < n
    → draw fuel threshold n r ≡ some x
    → IsDraw n r x
unfolding draw
draw-IsDraw zero t n r x h e = cc
draw-IsDraw (suc fuel) t n r x h e =
    elim (if_some (leb t (next_uint32 r).0) _ (draw fuel t n (next_uint32 r).1) e) [
      | inl accepted ↦ subst (IsDraw n r) accepted (IsDraw-first n r h)
      | inr (_, rejected) ↦ IsDraw-later n r x (draw-IsDraw fuel t n (next_uint32 r).1 x h rejected)
    ]

IsDraw-whole : (n : ℕ) (r : DeterministicRng) → n ≡ 2 ^ 32 → IsDraw n r (next_uint32 r)
IsDraw-whole n r e = (omega (arith, next_uint32-lt r), next_uint32-IsValid, increment-next_uint32 r)

pub randbelow-IsDraw :
    (n : ℕ) (r : DeterministicRng) (x : ℕ × DeterministicRng)
    → randbelow (pos n) r ≡ ok x
    → IsDraw n r x
unfolding randbelow
randbelow-IsDraw n r x e = elim (if-eq (leb 1 n && leb n (2 ^ 32)) _ _ e) [
  | inl (in_range, e') ↦ elim (if-eq (n == 2 ^ 32) _ _ e') [
    | inl (whole, e'') ↦ subst (IsDraw n r) (ok-injective e'') (IsDraw-whole n r (ground arith))
    | inr (_, e'') ↦
        draw-IsDraw draw_fuel ((2 ^ 32 - n) % n) n r x (ground arith)
          (or_raise-eq-ok _ out_of_fuel e'')
  ]
  | inr (_, failed) ↦ cc
]

pair_of :
    {a b : ℕ} {r s : DeterministicRng}
    → ◌≡◌ {A = ℕ × DeterministicRng} (a, r) (b, s)
    → (a ≡ b) × (r ≡ s)
pair_of e = (ap (λ p. p.0) e, ap (λ p. p.1) e)

-- A die shows a face from 1 to its number of sides, and the draw leaves a valid generator with the
-- same increment.
pub roll_die_bounds :
    (sides : ℕ) (r r' : DeterministicRng) (face : ℕ)
    → IsValid r
    → roll_die (pos sides) r ≡ ok (face, r')
    → (1 ≤ face) × (face ≤ sides) × IsValid r' × (r'.increment ≡ r.increment)
unfolding roll_die
roll_die_bounds sides r r' face v e = elim (if-eq (ltb sides 2) _ _ e) [
  | inl (_, failed) ↦ cc
  | inr (_, drawn) ↦
      let ((value, r''), e', last) = >>=-eq-ok (randbelow (pos sides) r) _ drawn in
      let (below, valid, same) = randbelow-IsDraw sides r (value, r'') e' in
      let (face_eq, r_eq) = pair_of (ok-injective last) in
      (
        omega arith,
        omega arith,
        subst IsValid r_eq (valid v),
        ap (λ q. q.increment) (sym r_eq) ∙ same,
      )
]
