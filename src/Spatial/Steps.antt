-- ===== src/Spatial/Steps.antt =====
-- spatial/movement.py: which steps are legal, and what they cost.
pub mod Neighbors
pub mod Legal
pub mod Estimate
pub mod Total
use godot_dn_dsimulator.Base.{
  ℕ, ◌*◌, Bool, true, false, not, ◌&&◌, ◌||◌, Option, none, some, List, [], ◌∷◌, leb, max,
  if◌then◌else◌, any, Result, ok, err, validation_error, guard, ◌>>=◌, ◌>>◌,
}
use godot_dn_dsimulator.Base.Int.{pos, eqb_ℤ, ◌-ℤ◌}
use godot_dn_dsimulator.Base.Text.{Text, text_eq}
use godot_dn_dsimulator.Actors.Kinds.{MovementMode, mode_value, walk, fly}
use godot_dn_dsimulator.Spatial.Model.{
  GridCell, GridOffset, offset, same_cell, SquareGridSpace, contains, cell_at,
}
use godot_dn_dsimulator.Spatial.State.{
  SpatialPlacement, SpatialState, occupied_cells, placement, is_occupiable,
}
use godot_dn_dsimulator.Spatial.Policy.{MovementPolicy}
use godot_dn_dsimulator.Spatial.Geometry.{abs_diff, abs_diff_ℤ, ceil_div}

-- `first and second`, where the second test is made only if the first holds
infixr 6 ◌and_then◌
abbrev pub ◌and_then◌ : Result Bool → Result Bool → Result Bool
ok true and_then second = second
ok false and_then second = ok false
err e and_then second = err e

-- `mode in modes`
unfoldable pub has_mode : MovementMode → List MovementMode → Bool
has_mode mode modes = any (λ m. text_eq (mode_value mode) (mode_value m)) modes

-- `all(mode in state.space.cell(cell).allowed_modes for cell in cells)`
unfoldable pub all_allow : SquareGridSpace → MovementMode → List GridCell → Result Bool
all_allow s mode [] = ok true
all_allow s mode (c ∷ cs) = do
  terrain ← cell_at s c
  ok (has_mode mode terrain.allowed_modes) and_then all_allow s mode cs

-- `_terrain_allows`
unfoldable pub terrain_allows :
    SpatialState → SpatialPlacement → GridCell → MovementMode → Result Bool
terrain_allows s p anchor mode =
    ok (is_occupiable s p anchor p.entity_id)
    and_then all_allow s.space mode (occupied_cells p anchor)

abbrev pub shifted : GridCell → GridOffset → GridCell
shifted c o = offset c o.dx o.dy

-- the loop of `_walk_step_is_legal` over the footprint
unfoldable pub walk_step_is_legal :
    SquareGridSpace → GridCell → GridCell → MovementPolicy → List GridOffset → Result Bool
walk_step_is_legal s source target policy [] = ok true
walk_step_is_legal s source target policy (o ∷ os) = do
  from ← cell_at s (shifted source o)
  to ← cell_at s (shifted target o)
  ok (leb (abs_diff to.elevation_feet from.elevation_feet) policy.max_walk_step_feet)
      and_then walk_step_is_legal s source target policy os

abbrev pub is_walk : MovementMode → Bool
is_walk walk = true
is_walk _ = false

abbrev pub is_fly : MovementMode → Bool
is_fly fly = true
is_fly _ = false

-- `_terrain_allows`, and `_walk_step_is_legal` for a walk
unfoldable pub walks :
    SpatialState
    → SpatialPlacement
    → GridCell
    → GridCell
    → MovementMode
    → MovementPolicy
    → Result Bool
walks s p source target mode policy =
    if is_walk mode then walk_step_is_legal s.space source target policy p.footprint else ok true

-- `dx != 0 and dy != 0`
abbrev pub is_diagonal : GridCell → GridCell → Bool
is_diagonal a b = not (eqb_ℤ a.x b.x) && not (eqb_ℤ a.y b.y)

-- `abs(dx) <= 1 and abs(dy) <= 1`
abbrev pub is_near : GridCell → GridCell → Bool
is_near a b = leb (abs_diff_ℤ b.x a.x) 1 && leb (abs_diff_ℤ b.y a.y) 1

-- the cells beside a diagonal step
abbrev pub horizontal : GridCell → GridCell → GridCell
horizontal a b = offset a (b.x -ℤ a.x) (pos 0)

abbrev pub vertical : GridCell → GridCell → GridCell
vertical a b = offset a (pos 0) (b.y -ℤ a.y)

-- the tests on the corners of a diagonal step
unfoldable pub corners_are_free :
    SpatialState
    → SpatialPlacement
    → GridCell
    → GridCell
    → MovementMode
    → MovementPolicy
    → Result Bool
corners_are_free s p source target mode policy =
    terrain_allows s p (horizontal source target) mode
    and_then terrain_allows s p (vertical source target) mode
    and_then walks s p source (horizontal source target) mode policy
    and_then walks s p source (vertical source target) mode policy

-- the tests of `step_is_legal` on two different cells
unfoldable pub move_is_legal :
    SpatialState
    → SpatialPlacement
    → GridCell
    → GridCell
    → MovementMode
    → MovementPolicy
    → Result Bool
move_is_legal s p source target mode policy =
    ok (is_near source target)
    and_then ok (not (is_diagonal source target) || policy.allow_diagonal)
    and_then ok (contains s.space target)
    and_then terrain_allows s p target mode
    and_then walks s p source target mode policy
    and_then (if is_diagonal source target && policy.prevent_corner_cutting
        then corners_are_free s p source target mode policy
        else ok true)

unfoldable pub step_is_legal :
    SpatialState → Text → GridCell → GridCell → MovementMode → MovementPolicy → Result Bool
step_is_legal s entity_id source target mode policy = do
  p ← placement s entity_id
  if same_cell source target then ok true else move_is_legal s p source target mode policy

-- the loop of `step_cost` over the footprint: the greatest rise in steps, and difficult terrain
unfoldable pub footing :
    SquareGridSpace → GridCell → GridCell → ℕ → Bool → List GridOffset → Result (ℕ × Bool)
footing s source target most difficult [] = ok (most, difficult)
footing s source target most difficult (o ∷ os) = do
  from ← cell_at s (shifted source o)
  to ← cell_at s (shifted target o)
  footing s source target
      (max most (ceil_div (abs_diff to.elevation_feet from.elevation_feet) s.cell_size_feet))
      (difficult || to.difficult) os

-- the cost of a step from what its footing is
unfoldable pub footing_cost : SquareGridSpace → MovementMode → MovementPolicy → ℕ × Bool → ℕ
footing_cost s mode policy (most, difficult) =
    if difficult && not (is_fly mode && policy.flying_ignores_difficult)
    then max 1 most * s.cell_size_feet * policy.difficult_multiplier
    else max 1 most * s.cell_size_feet

unfoldable pub move_cost :
    SpatialState → Text → GridCell → GridCell → MovementMode → MovementPolicy → Result ℕ
move_cost s entity_id source target mode policy = do
  p ← placement s entity_id
  found ← footing s.space source target 0 false p.footprint
  ok (footing_cost s.space mode policy found)

unfoldable pub step_cost :
    SpatialState → Text → GridCell → GridCell → MovementMode → MovementPolicy → Result ℕ
step_cost s entity_id source target mode policy = do
  legal ← step_is_legal s entity_id source target mode policy
  guard legal validation_error
  if same_cell source target then ok 0 else move_cost s entity_id source target mode policy

-- the two calls that every loop over steps makes: `none` for a step that is not legal
unfoldable pub try_step :
    SpatialState → Text → MovementMode → MovementPolicy → GridCell → GridCell → Result (Option ℕ)
try_step s entity_id mode policy source target = do
  legal ← step_is_legal s entity_id source target mode policy
  if legal
      then (do cost ← step_cost s entity_id source target mode policy; ok (some cost))
      else ok none
