-- ===== src/Spatial/Movement/Sound.antt =====
-- The searches of `find_path` and `reachable_cells` meet what a search must satisfy.
use mathlib.Core.Path.{subst}
use native.Mathlib.Nat.{mul-le-mul_right}
use godot_dn_dsimulator.Base.{
  ℕ, ◌+◌, ◌*◌, ◌≤◌, ◌≡◌, refl, sym, true, ◌&&◌, Option, some, List, arith, any, ok, >>=-eq-ok,
  ok-injective, guard, validation_error,
}
use godot_dn_dsimulator.Base.Text.{Text}
use godot_dn_dsimulator.Actors.Kinds.{MovementMode}
use godot_dn_dsimulator.Spatial.Model.{GridCell, same_offset, contains}
use godot_dn_dsimulator.Spatial.State.{
  SpatialPlacement, SpatialState, placement, no_offset, has_cell,
}
use godot_dn_dsimulator.Spatial.Policy.{MovementPolicy}
use godot_dn_dsimulator.Spatial.Geometry.{
  grid_steps, metric_distance, distance_between_cells, neighboring_cells,
}
use godot_dn_dsimulator.Spatial.Search.Table.{same_cell_iff}
use godot_dn_dsimulator.Spatial.Search.Walks.{IsSound}
use godot_dn_dsimulator.Spatial.Steps.{try_step}
use godot_dn_dsimulator.Spatial.Steps.Neighbors.{neighbor_other}
use godot_dn_dsimulator.Spatial.Steps.Legal.{legal-IsStep, try_step-eq-some, step_cost-footing}
use godot_dn_dsimulator.Spatial.Steps.Estimate.{
  grid_steps-triangle, grid_steps_self, grid_steps-footing, footing_cost_pos,
}
use godot_dn_dsimulator.Spatial.Steps.Total.{IsInside}
use godot_dn_dsimulator.Spatial.Movement.{heuristic, path_search, reach_search}

-- An entity in a space, with a policy: what the constructors of the space, of the placement, of the
-- state and of the policy have checked.
pub record IsPlaced (s : SpatialState) (entity_id : Text) (policy : MovementPolicy)
    (p : SpatialPlacement) : Type 0 where
  pub found : placement s entity_id ≡ ok p
  pub anchored : any (same_offset no_offset) p.footprint ≡ true
  pub inside : IsInside s.space p.footprint p.anchor
  pub sized : 1 ≤ s.space.cell_size_feet
  pub harder : 1 ≤ policy.difficult_multiplier

weigh : (a b c k n : ℕ) → a ≤ b + c → b * n ≤ k → a * n ≤ k + c * n
weigh a b c k n le covers = let weighed : a * n ≤ (b + c) * n = mul-le-mul_right n le in grind arith

module _ (s : SpatialState) (entity_id : Text) (mode : MovementMode) (policy : MovementPolicy)
    (p : SpatialPlacement) (v : IsPlaced s entity_id policy p) where
  -- a step between neighbours costs at least the distance on the grid, and something
  pub stepped_cost :
      (a b : GridCell) (k : ℕ) (around : List GridCell)
      → neighboring_cells s.space a policy.allow_diagonal ≡ ok around
      → has_cell b around ≡ true
      → try_step s entity_id mode policy a b ≡ ok (some k)
      → (grid_steps s.space a b * s.space.cell_size_feet ≤ k) × (1 ≤ k)
  stepped_cost a b k around ns near tried =
      let (legal, costed) = try_step-eq-some s entity_id mode policy p v.found a b k tried in
      let other = neighbor_other s.space a policy.allow_diagonal around ns b near in
      let step = legal-IsStep s entity_id mode policy p v.found a b legal other in
      let (walked, foots, cost) =
        step_cost-footing s entity_id mode policy p v.found a b k costed other in
      (
        subst (λ n. grid_steps s.space a b * s.space.cell_size_feet ≤ n) cost
            (grid_steps-footing s.space mode policy p.footprint a b walked v.harder v.anchored
              step.near foots),
        subst (λ n. 1 ≤ n) cost (footing_cost_pos s.space mode policy walked v.sized v.harder),
      )

  -- the estimate in feet
  abbrev pub estimate : GridCell → GridCell → ℕ
  estimate destination c = grid_steps s.space c destination * s.space.cell_size_feet

  pub path_search-IsSound :
      (destination : GridCell) (budget : Option ℕ)
      → IsSound (path_search s entity_id destination mode budget policy) (estimate destination)
  unfolding path_search heuristic distance_between_cells metric_distance
  path_search-IsSound destination budget = record {
    measured = λ c n h.
        let (_, _, e) =
          >>=-eq-ok (guard (contains s.space c && contains s.space destination) validation_error) _
            h in
        sym (ok-injective e);
    consistent = λ a b k edge.
        let (covers, _) = stepped_cost a b k edge.around edge.neighbors edge.near edge.step in
        let triangle = grid_steps-triangle s.space a b destination v.sized in
        weigh _ _ _ k s.space.cell_size_feet triangle covers;
    arrived = λ d stops.
        let e : d ≡ destination = (same_cell_iff d destination).0 stops in
        subst (λ x. grid_steps s.space x destination * s.space.cell_size_feet ≡ 0) (sym e)
          (rw (grid_steps_self s.space destination v.sized) (omega arith));
    positive = λ a b k edge. (stepped_cost a b k edge.around edge.neighbors edge.near edge.step).1;
  }

  pub reach_search-IsSound :
      (budget : ℕ) → IsSound (reach_search s entity_id mode budget policy) (λ c. 0)
  unfolding reach_search
  reach_search-IsSound budget = record {
    measured = λ c n h. sym (ok-injective h);
    consistent = λ a b k edge. omega arith;
    arrived = λ d stops. refl;
    positive = λ a b k edge. (stepped_cost a b k edge.around edge.neighbors edge.near edge.step).1;
  }
