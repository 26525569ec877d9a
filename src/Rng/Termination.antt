-- ===== src/Rng/Termination.antt =====
-- rng.py: the rejection loop of `randbelow`, and the state whose output is the largest word.
use mathlib.Core.Path.{subst}
use native.Mathlib.Nat.{mod-lt}
use godot_dn_dsimulator.Base.{
  ℕ, zero, suc, ◌+◌, ◌-◌, ◌*◌, ◌/◌, ◌%◌, ◌^◌, ◌≤◌, ◌<◌, ◌≡◌, refl, ap, ◌∙◌, inl, inr, false, some,
  arith, ltb, ok, Returns, Returns-if, Returns-or_raise, out_of_fuel, some_if, leb, ◌==◌, le→leb,
}
use godot_dn_dsimulator.Base.Int.{pos}
use godot_dn_dsimulator.Rng.{
  DeterministicRng, modulus, advance, output, next_uint32, draw, draw_fuel, randbelow, roll_die,
}
use godot_dn_dsimulator.Rng.Period.{iterate, affine, reach}
use godot_dn_dsimulator.Rng.Words.{IsValid}
use godot_dn_dsimulator.Rng.Draw.{roll_die_bounds}

-- a state with the largest output
abbrev top_state : ℕ
top_state = 576458553280167936

output-top_state : output top_state ≡ 2 ^ 32 - 1
unfolding output
output-top_state = refl

-- `multiplier = 1 + 4 * quarter`
abbrev quarter : ℕ
quarter = 1591034055961698251

advance-affine : (v x : ℕ) → advance (1 + 2 * v) (x % modulus) ≡ affine quarter v x % modulus
unfolding advance
advance-affine v x = omega arith

-- the masked steps of the generator are the steps of the affine map, reduced
iterate-advance :
    (n v x : ℕ)
    → iterate n (advance (1 + 2 * v)) (x % modulus) ≡ iterate n (affine quarter v) x % modulus
unfolding iterate
iterate-advance zero v x = refl
iterate-advance (suc n) v x =
    ap (iterate n (advance (1 + 2 * v))) (advance-affine v x)
    ∙ iterate-advance n v (affine quarter v x)

-- the loop returns once a state whose output passes the threshold comes up
draw-some :
    (n fuel t ub : ℕ) (r : DeterministicRng)
    → n < fuel
    → t ≤ output (iterate n (advance r.increment) r.state)
    → (x : ℕ × DeterministicRng) × (draw fuel t ub r ≡ some x)
unfolding draw iterate next_uint32
draw-some n zero t ub r h accepted = elim h [ ]
draw-some zero (suc fuel) t ub r h accepted =
    some_if (leb t (output r.state)) _ _ (inl (le→leb _ _ accepted))
draw-some (suc n) (suc fuel) t ub r h accepted =
    some_if (leb t (output r.state)) _ _
      (inr (draw-some n fuel t ub (next_uint32 r).1 (omega arith) accepted))

reaches_top :
    (r : DeterministicRng)
    → IsValid r
    → (n : ℕ) × (n < modulus) × (iterate n (advance r.increment) r.state ≡ top_state)
reaches_top r v =
    let w : ℕ = r.increment / 2 in
    let (n, below, here) = reach quarter w 64 r.state top_state in
    let odd : 1 + 2 * w ≡ r.increment = omega (arith, v.increment_odd) in
    let word : r.state % modulus ≡ r.state = omega (arith, v.state_word) in
    (
      n,
      below,
      subst (λ i. iterate n (advance i) r.state ≡ top_state) odd
          (subst (λ s. iterate n (advance (1 + 2 * w)) s ≡ top_state) word
            (iterate-advance n w r.state ∙ here)),
    )

pub draw_total :
    (t ub : ℕ) (r : DeterministicRng)
    → IsValid r
    → t < 2 ^ 32
    → (x : ℕ × DeterministicRng) × (draw draw_fuel t ub r ≡ some x)
draw_total t ub r v h =
    let (n, below, here) = reaches_top r v in
    draw-some n draw_fuel t ub r below (omega (arith, ap output here, output-top_state))

-- Every draw from a valid generator returns: `randbelow` at a bound from 1 to `2 ^ 32` never runs
-- for ever.
pub randbelow_total :
    (n : ℕ) (r : DeterministicRng) → IsValid r → 1 ≤ n → n ≤ 2 ^ 32 → Returns (randbelow (pos n) r)
unfolding randbelow
randbelow_total n r v low high =
    rw (le→leb 1 n low, le→leb n (2 ^ 32) high)
      (Returns-if (n == 2 ^ 32) _ _ (next_uint32 r, refl)
        (Returns-or_raise _ out_of_fuel
          (draw_total ((2 ^ 32 - n) % n) n r v (omega (arith, mod-lt (2 ^ 32 - n) low)))))

roll_die_total :
    (sides : ℕ) (r : DeterministicRng)
    → IsValid r
    → 2 ≤ sides
    → sides ≤ 2 ^ 32
    → Returns (roll_die (pos sides) r)
unfolding roll_die
roll_die_total sides r v low high =
    let ((value, r'), e) = randbelow_total sides r v (omega arith) high in
    let passes : ltb sides 2 ≡ false = ground arith in ((value + 1, r'), rw (passes, e))

-- Rolling a die with 2 to `2 ^ 32` sides on a valid generator returns a face from 1 to the number of
-- sides, and leaves a valid generator with the same increment.
pub roll_die_returns :
    (sides : ℕ) (r : DeterministicRng)
    → IsValid r
    → 2 ≤ sides
    → sides ≤ 2 ^ 32
    → (face : ℕ) × (r' : DeterministicRng) × (roll_die (pos sides) r ≡ ok (face, r'))
      × (1 ≤ face)
      × (face ≤ sides)
      × IsValid r'
      × (r'.increment ≡ r.increment)
roll_die_returns sides r v low high =
    let ((face, r'), e) = roll_die_total sides r v low high in
    let (least, most, valid, same) = roll_die_bounds sides r r' face v e in
    (face, r', e, least, most, valid, same)
