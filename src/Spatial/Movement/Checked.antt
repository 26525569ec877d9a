-- ===== src/Spatial/Movement/Checked.antt =====
-- An entity of a state that the constructors have checked stands in the space.
use mathlib.Core.Path.{subst}
use godot_dn_dsimulator.Base.{
  ◌≤◌, ◌≡◌, refl, Bool, true, false, not, some, List, [], ◌∷◌, arith, ok, >>=-eq-ok, ok-injective,
  Bool-cases, inl, inr, any, all, guard, guard-eq-ok, validation_error, or_raise-eq-ok, leb,
}
use godot_dn_dsimulator.Base.Text.{Text, text_eq, is_blank}
use godot_dn_dsimulator.Base.Keyed.{find_key}
use godot_dn_dsimulator.Spatial.Model.{
  GridCell, same_offset, SquareGridSpace, contains, square_grid_space, unique_terrain,
}
use godot_dn_dsimulator.Spatial.State.{
  SpatialPlacement, SpatialState, entity_key, placement, occupy, occupy_all, occupied_cells,
  spatial_state, no_offset,
}
use godot_dn_dsimulator.Spatial.State.Occupancy.{occupy_open, occupy-cons}
use godot_dn_dsimulator.Spatial.State.Room.{cells_of}
use godot_dn_dsimulator.Spatial.State.Vacancy.{spatial_state-IsState}
use godot_dn_dsimulator.Spatial.Policy.{MovementPolicy, movement_policy}
use godot_dn_dsimulator.Spatial.Movement.Sound.{IsPlaced}

contains-occupy :
    (s : SquareGridSpace) (blocks : Bool) (occupancy cs occupancy' : List GridCell)
    → occupy s blocks occupancy cs ≡ ok occupancy'
    → all (contains s) cs ≡ true
contains-occupy s false occupancy cs occupancy' h = (occupy_open s occupancy cs occupancy' h).1
contains-occupy s true occupancy [] occupancy' h = refl
contains-occupy s true occupancy (c ∷ cs) occupancy' h =
    let (may, h₁) = occupy-cons s true occupancy c cs occupancy' h in
    let later = contains-occupy s true (c ∷ occupancy) cs occupancy' h₁ in
    let here : contains s c ≡ true = may.inside in ground arith

found-inside :
    (s : SquareGridSpace) (id : Text) (p : SpatialPlacement) (ps : List SpatialPlacement)
    (occupancy occupancy' : List GridCell)
    → occupy_all s occupancy ps ≡ ok occupancy'
    → find_key entity_key id ps ≡ some p
    → all (contains s) (cells_of p) ≡ true
unfolding occupy_all find_key
found-inside s id p [] occupancy occupancy' h found = absurd (cc found)
found-inside s id p (q ∷ ps) occupancy occupancy' h found =
    let (o, here, later) = >>=-eq-ok (occupy s q.blocks_movement occupancy (cells_of q)) _ h in
    elim (Bool-cases (text_eq q.entity_id id)) [
      | inl same ↦
          let found' : some q ≡ some p = rw same at found in
          let e : q ≡ p = cc found' in
          subst (λ x. all (contains s) (cells_of x) ≡ true) e
            (contains-occupy s q.blocks_movement occupancy (cells_of q) o here)
      | inr other ↦
          let found' : find_key entity_key id ps ≡ some p = rw other at found in
          found-inside s id p ps o occupancy' later found'
    ]

-- What the constructors have checked is what the theorems about the searches ask for: the state, its
-- space and the policy are results of their constructors, the entity is in the state, and its
-- footprint has the anchor, which the constructor of placements has checked.
pub spatial_state-IsPlaced :
    (raw s : SpatialState) (raw_space : SquareGridSpace) (raw_policy policy : MovementPolicy)
    (entity_id : Text) (p : SpatialPlacement)
    → spatial_state raw ≡ ok s
    → square_grid_space raw_space ≡ ok s.space
    → movement_policy raw_policy ≡ ok policy
    → placement s entity_id ≡ ok p
    → any (same_offset no_offset) p.footprint ≡ true
    → IsPlaced s entity_id policy p
unfolding square_grid_space movement_policy occupied_cells
spatial_state-IsPlaced raw s raw_space raw_policy policy entity_id p built spaced ruled found
      anchored =
    let (o, roomy) = (spatial_state-IsState raw s built).roomy in
    let at : find_key entity_key entity_id s.placements ≡ some p =
      unfold placement in or_raise-eq-ok _ _ found in
    let (_, harder, r) =
      >>=-eq-ok (guard (leb 1 raw_policy.difficult_multiplier) validation_error) _ ruled in
    let (_, _, h₁) =
      >>=-eq-ok (guard (not (is_blank raw_space.space_id)) validation_error) _ spaced in
    let (_, _, h₂) = >>=-eq-ok (guard (leb 1 raw_space.width) validation_error) _ h₁ in
    let (_, _, h₃) = >>=-eq-ok (guard (leb 1 raw_space.height) validation_error) _ h₂ in
    let (_, sized, h₄) = >>=-eq-ok (guard (leb 1 raw_space.cell_size_feet) validation_error) _ h₃ in
    let (_, _, h₅) =
      >>=-eq-ok (guard (unique_terrain raw_space [] raw_space.terrain) validation_error) _ h₄ in
    let big = guard-eq-ok (leb 1 raw_space.cell_size_feet) validation_error sized in
    let hard = guard-eq-ok (leb 1 raw_policy.difficult_multiplier) validation_error harder in
    let big' : 1 ≤ raw_space.cell_size_feet = ground arith in
    let hard' : 1 ≤ raw_policy.difficult_multiplier = ground arith in
    record {
      found = found;
      anchored = anchored;
      inside = found-inside s.space entity_id p s.placements [] o roomy at;
      sized = subst (λ (x : SquareGridSpace). 1 ≤ x.cell_size_feet) (ok-injective h₅) big';
      harder = subst (λ (x : MovementPolicy). 1 ≤ x.difficult_multiplier) (ok-injective r) hard';
    }
