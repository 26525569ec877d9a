-- ===== src/Spatial/Steps/Estimate.antt =====
-- The distance on the grid as an estimate of the cost of movement.
use mathlib.Core.Path.{subst}
use native.Mathlib.Nat.{div-lt_iff_lt-mul, lt-div-mul-add}
use godot_dn_dsimulator.Base.{
  ℕ, ◌+◌, ◌-◌, ◌*◌, ◌/◌, ◌≤◌, ◌<◌, ◌≡◌, ap, ◌∙◌, Bool, true, false, not, ◌&&◌, ◌||◌, List, [], ◌∷◌,
  arith, any, max, if◌then◌else◌, Bool-cases, inl, inr, ok, >>=-eq-ok, ok-injective, guard,
  validation_error,
}
use godot_dn_dsimulator.Base.Int.{ℤ, ◌+ℤ◌, +ℤ_parts, eq_of_parts}
use godot_dn_dsimulator.Actors.Kinds.{MovementMode}
use godot_dn_dsimulator.Spatial.Model.{TerrainCell}
use godot_dn_dsimulator.Spatial.Model.{
  GridCell, GridOffset, offset, same_offset, SquareGridSpace, contains, terrain_at, cell_at,
}
use godot_dn_dsimulator.Spatial.State.{no_offset}
use godot_dn_dsimulator.Spatial.Policy.{MovementPolicy}
use godot_dn_dsimulator.Spatial.Geometry.{abs_diff, abs_diff_ℤ, ceil_div, rise, grid_steps}
use godot_dn_dsimulator.Spatial.Steps.{is_near, is_fly, shifted, footing, footing_cost}

ceil-le : (a c n : ℕ) → 1 ≤ c → a ≤ n * c → ceil_div a c ≤ n
ceil-le a c n h le =
    let below : (a + c - 1) / c < n + 1 = (div-lt_iff_lt-mul h).1 (grind arith) in omega arith

le-ceil : (a c : ℕ) → 1 ≤ c → a ≤ ceil_div a c * c
le-ceil a c h = let above : a + c - 1 < (a + c - 1) / c * c + c = lt-div-mul-add h in omega arith

ceil-add : (a b e c : ℕ) → 1 ≤ c → a ≤ b + e → ceil_div a c ≤ ceil_div b c + ceil_div e c
ceil-add a b e c h le =
    ceil-le a c (ceil_div b c + ceil_div e c) h (grind (arith, le-ceil b c h, le-ceil e c h))

abs_diff-triangle : (a b c : ℤ) → abs_diff_ℤ c a ≤ abs_diff_ℤ b a + abs_diff_ℤ c b
abs_diff-triangle a b c = omega arith

rise-triangle : (s : SquareGridSpace) (u v d : GridCell) → rise s u d ≤ rise s u v + rise s v d
unfolding rise
rise-triangle s u v d = omega arith

max_add :
    (a b c a₁ b₁ c₁ a₂ b₂ c₂ : ℕ)
    → a ≤ a₁ + a₂
    → b ≤ b₁ + b₂
    → c ≤ c₁ + c₂
    → max (max a b) c ≤ max (max a₁ b₁) c₁ + max (max a₂ b₂) c₂
max_add a b c a₁ b₁ c₁ a₂ b₂ c₂ p q r = omega arith

-- The distance on the grid satisfies the triangle inequality, with the rise between the cells.
pub grid_steps-triangle :
    (s : SquareGridSpace) (u v d : GridCell)
    → 1 ≤ s.cell_size_feet
    → grid_steps s u d ≤ grid_steps s u v + grid_steps s v d
unfolding grid_steps
grid_steps-triangle s u v d sized =
    max_add _ _ _ _ _ _ _ _ _ (abs_diff-triangle u.x v.x d.x) (abs_diff-triangle u.y v.y d.y) (
      ceil-add (rise s u d) (rise s u v) (rise s v d) s.cell_size_feet sized
        (rise-triangle s u v d))

pub grid_steps_self :
    (s : SquareGridSpace) (d : GridCell) → 1 ≤ s.cell_size_feet → grid_steps s d d ≡ 0
unfolding grid_steps rise
grid_steps_self s d sized =
    let flat : ceil_div (rise s d d) s.cell_size_feet ≤ 0 =
      ceil-le (rise s d d) s.cell_size_feet 0 sized (omega arith) in
    omega arith

pub shifted_self :
    (u : GridCell) (o : GridOffset) → same_offset no_offset o ≡ true → shifted u o ≡ u
unfolding same_offset offset
shifted_self u o same = ground (
  arith,
  +ℤ_parts u.x o.dx,
  +ℤ_parts u.y o.dy,
  eq_of_parts (u.x +ℤ o.dx) u.x,
  eq_of_parts (u.y +ℤ o.dy) u.y,
)

cell_at-eq-ok :
    (s : SquareGridSpace) (c : GridCell) {t : _} → cell_at s c ≡ ok t → terrain_at s c ≡ t
unfolding cell_at
cell_at-eq-ok s c h =
    let (_, _, e) = >>=-eq-ok (guard (contains s c) validation_error) _ h in ok-injective e

rise_lem :
    (s : SquareGridSpace) (u v : GridCell) (from to : TerrainCell)
    → terrain_at s u ≡ from
    → terrain_at s v ≡ to
    → rise s u v ≡ abs_diff to.elevation_feet from.elevation_feet
unfolding rise
rise_lem s u v from to ef et =
    ap (λ (t : TerrainCell). abs_diff t.elevation_feet (terrain_at s u).elevation_feet) et
    ∙ ap (λ (t : TerrainCell). abs_diff to.elevation_feet t.elevation_feet) ef

-- The loop over the footprint only raises what it has found, and has seen the cell of the anchor.
footing-le :
    (s : SquareGridSpace) (u v : GridCell) (most : ℕ) (difficult : Bool) (os : List GridOffset)
    (m : ℕ) (d : Bool)
    → footing s u v most difficult os ≡ ok (m, d)
    → most ≤ m
unfolding footing
footing-le s u v most difficult [] m d h =
    let e : most ≡ m = ap (λ p. p.0) (ok-injective h) in omega arith
footing-le s u v most difficult (o ∷ os) m d h =
    let (from, _, h₁) = >>=-eq-ok (cell_at s (shifted u o)) _ h in
    let (to, _, h₂) = >>=-eq-ok (cell_at s (shifted v o)) _ h₁ in
    omega (
      arith,
      footing-le s u v
          (max most (ceil_div (abs_diff to.elevation_feet from.elevation_feet) s.cell_size_feet))
          (difficult || to.difficult) os m d h₂,
    )

footing_anchor :
    (s : SquareGridSpace) (u v : GridCell) (most : ℕ) (difficult : Bool) (os : List GridOffset)
    (m : ℕ) (d : Bool)
    → footing s u v most difficult os ≡ ok (m, d)
    → any (same_offset no_offset) os ≡ true
    → ceil_div (rise s u v) s.cell_size_feet ≤ m
unfolding footing
footing_anchor s u v most difficult [] m d h anchored = absurd (cc anchored)
footing_anchor s u v most difficult (o ∷ os) m d h anchored =
    let (from, from_u, h₁) = >>=-eq-ok (cell_at s (shifted u o)) _ h in
    let (to, to_v, h₂) = >>=-eq-ok (cell_at s (shifted v o)) _ h₁ in
    elim (Bool-cases (same_offset no_offset o)) [
      | inl here ↦
          let rises : rise s u v ≡ abs_diff to.elevation_feet from.elevation_feet =
            rise_lem s u v from to
              (subst (λ c. terrain_at s c ≡ from) (shifted_self u o here)
                (cell_at-eq-ok s (shifted u o) from_u))
              (subst (λ c. terrain_at s c ≡ to) (shifted_self v o here)
                (cell_at-eq-ok s (shifted v o) to_v)) in
          let le =
            footing-le s u v
              (max most
                (ceil_div (abs_diff to.elevation_feet from.elevation_feet) s.cell_size_feet))
              (difficult || to.difficult) os m d h₂ in
          rw rises (omega arith)
      | inr other ↦
          footing_anchor s u v
            (max most (ceil_div (abs_diff to.elevation_feet from.elevation_feet) s.cell_size_feet))
            (difficult || to.difficult) os m d h₂ (ground arith)
    ]

near_steps :
    (s : SquareGridSpace) (u v : GridCell) (m : ℕ)
    → is_near u v ≡ true
    → ceil_div (rise s u v) s.cell_size_feet ≤ m
    → grid_steps s u v ≤ max 1 m
unfolding grid_steps
near_steps s u v m near le =
    three_at_most (abs_diff_ℤ v.x u.x) (abs_diff_ℤ v.y u.y) (ceil_div (rise s u v) s.cell_size_feet)
      m (ground arith) (ground arith) le
  where
    three_at_most : (a b c m : ℕ) → a ≤ 1 → b ≤ 1 → c ≤ m → max (max a b) c ≤ max 1 m
    three_at_most a b c m p q r = omega arith

le-dearer : (a n k : ℕ) (b : Bool) → a ≤ n → 1 ≤ k → a ≤ (if b then n * k else n)
le-dearer a n k true le h = grind arith
le-dearer a n k false le h = le

-- A step to a near cell covers the distance on the grid that it spans.
pub grid_steps-footing :
    (s : SquareGridSpace) (mode : MovementMode) (policy : MovementPolicy) (os : List GridOffset)
    (u v : GridCell) (walked : ℕ × Bool)
    → 1 ≤ policy.difficult_multiplier
    → any (same_offset no_offset) os ≡ true
    → is_near u v ≡ true
    → footing s u v 0 false os ≡ ok walked
    → grid_steps s u v * s.cell_size_feet ≤ footing_cost s mode policy walked
unfolding footing_cost
grid_steps-footing s mode policy os u v (m, d) harder anchored near foots =
    let steps : grid_steps s u v ≤ max 1 m =
      near_steps s u v m near (footing_anchor s u v 0 false os m d foots anchored) in
    let covered : grid_steps s u v * s.cell_size_feet ≤ max 1 m * s.cell_size_feet = grind arith in
    le-dearer (grid_steps s u v * s.cell_size_feet) (max 1 m * s.cell_size_feet)
      policy.difficult_multiplier (d && not (is_fly mode && policy.flying_ignores_difficult))
      covered harder

pub footing_cost_pos :
    (s : SquareGridSpace) (mode : MovementMode) (policy : MovementPolicy) (walked : ℕ × Bool)
    → 1 ≤ s.cell_size_feet
    → 1 ≤ policy.difficult_multiplier
    → 1 ≤ footing_cost s mode policy walked
unfolding footing_cost
footing_cost_pos s mode policy (m, d) sized harder =
    le-dearer 1 (max 1 m * s.cell_size_feet) policy.difficult_multiplier
      (d && not (is_fly mode && policy.flying_ignores_difficult)) (grind arith) harder
