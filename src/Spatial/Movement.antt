-- ===== src/Spatial/Movement.antt =====
-- spatial/movement.py: the check of a path, and the searches, which take fuel.
pub mod Sound
pub mod Total
pub mod Paths
pub mod Accepted
pub mod Cheapest
pub mod Ends
pub mod Reach
pub mod Checked
use godot_dn_dsimulator.Base.{
  ℕ, zero, suc, ◌+◌, ◌*◌, Bool, true, false, not, ◌&&◌, ◌||◌, Option, none, some, List, [], ◌∷◌,
  leb, ltb, ◌==◌, max, if◌then◌else◌, any, map, Result, ok, err, validation_error, guard, ◌>>=◌,
  ◌>>◌,
}
use godot_dn_dsimulator.Base.Int.{pos, eqb_ℤ, ◌-ℤ◌}
use godot_dn_dsimulator.Base.Text.{Text, text_eq}
use godot_dn_dsimulator.Base.Sort.{sort, lex}
use godot_dn_dsimulator.Actors.Kinds.{MovementMode, mode_value, walk, fly}
use godot_dn_dsimulator.Actors.Model.{ActorState, MovementSpeed}
use godot_dn_dsimulator.Actors.Model as Actor
use godot_dn_dsimulator.Spatial.Model.{
  GridCell, GridOffset, offset, same_cell, cell_leb, SquareGridSpace, contains, cell_at,
  TerrainCell,
}
use godot_dn_dsimulator.Spatial.State.{
  SpatialPlacement, SpatialState, occupied_cells, placement, is_occupiable,
}
use godot_dn_dsimulator.Spatial.Policy.{MovementPolicy, PathResult, ReachableCell}
use godot_dn_dsimulator.Spatial.Geometry.{
  abs_diff, abs_diff_ℤ, ceil_div, distance_between_cells, grid, neighboring_cells,
}
use godot_dn_dsimulator.Spatial.Search.{
  Search, Visit, Progress, find_visit, explore, begin, walk_back,
}
use godot_dn_dsimulator.Spatial.Steps.{terrain_allows, try_step}

pub record MovementCapability : Type 0 where
  pub mode : MovementMode
  pub speed_feet : ℕ

-- `movement_capabilities`
unfoldable pub movement_capabilities : ActorState → List MovementCapability
movement_capabilities actor =
    map (λ (item : MovementSpeed). record { mode = item.mode; speed_feet = item.feet })
      actor.movement

-- `budget_feet is not None and total > budget_feet`
abbrev pub exceeds : Option ℕ → ℕ → Bool
exceeds none total = false
exceeds (some budget) total = ltb budget total

-- the rest of a round of the loop of `validate_path`, and the later rounds
abbrev pub count_step : Option ℕ → ℕ → Option ℕ → (ℕ → Result (Bool × ℕ)) → Result (Bool × ℕ)
count_step budget total none later = ok (false, total)
count_step budget total (some cost) later =
    if exceeds budget (total + cost) then ok (false, total + cost) else later (total + cost)

-- the loop of `validate_path` over `zip(path, path[1:])`
unfoldable pub validate_steps :
    SpatialState
    → Text
    → MovementMode
    → MovementPolicy
    → Option ℕ
    → GridCell
    → List GridCell
    → ℕ
    → Result (Bool × ℕ)
validate_steps s entity_id mode policy budget source [] total = ok (true, total)
validate_steps s entity_id mode policy budget source (target ∷ path) total = do
  cost ← try_step s entity_id mode policy source target
  count_step budget total cost (validate_steps s entity_id mode policy budget target path)

abbrev pub illegal : List GridCell → ℕ → PathResult
illegal path cost = record { legal = false; path = path; cost_feet = cost }

unfoldable pub validate_from :
    SpatialState
    → Text
    → MovementMode
    → MovementPolicy
    → Option ℕ
    → SpatialPlacement
    → List GridCell
    → Result PathResult
validate_from s entity_id mode policy budget p [] = ok (illegal [] 0)
validate_from s entity_id mode policy budget p (c ∷ path) =
    if same_cell c p.anchor
    then (do
      (legal, total) ← validate_steps s entity_id mode policy budget c path 0
      ok (record { legal = legal; path = c ∷ path; cost_feet = total }))
    else ok (illegal (c ∷ path) 0)

unfoldable pub validate_path :
    SpatialState
    → Text
    → List GridCell
    → MovementMode
    → Option ℕ
    → MovementPolicy
    → Result PathResult
validate_path s entity_id path mode budget policy = do
  p ← placement s entity_id
  validate_from s entity_id mode policy budget p path

-- `_heuristic`
unfoldable pub heuristic : SpatialState → GridCell → GridCell → Result ℕ
heuristic s source target = distance_between_cells s.space source target grid

-- what `find_path` searches
unfoldable pub path_search :
    SpatialState → Text → GridCell → MovementMode → Option ℕ → MovementPolicy → Search
path_search s entity_id destination mode budget policy = record {
  neighbors = λ c. neighboring_cells s.space c policy.allow_diagonal;
  step = try_step s entity_id mode policy;
  heuristic = λ c. heuristic s c destination;
  stops = λ c. same_cell c destination;
  budget = budget;
}

-- what is returned once the search is over
unfoldable pub found_path : GridCell → GridCell → List Visit → Option Visit → Result PathResult
found_path start destination table none = ok (illegal [] 0)
found_path start destination table (some v) = do
  path ← walk_back start (suc v.cost) table destination (destination ∷ [])
  ok (record { legal = true; path = path; cost_feet = v.cost })

unfoldable pub search_path :
    ℕ
    → SpatialState
    → Text
    → GridCell
    → GridCell
    → MovementMode
    → Option ℕ
    → MovementPolicy
    → Result PathResult
search_path fuel s entity_id start destination mode budget policy = do
  h ← heuristic s start destination
  g ← explore (path_search s entity_id destination mode budget policy) fuel (begin start h)
  found_path start destination g.table (find_visit destination g.table)

unfoldable pub path_to :
    ℕ
    → SpatialState
    → Text
    → SpatialPlacement
    → GridCell
    → MovementMode
    → Option ℕ
    → MovementPolicy
    → Result PathResult
path_to fuel s entity_id p destination mode budget policy =
    if not (contains s.space destination)
    then ok (illegal [] 0)
    else if same_cell destination p.anchor
    then ok (record { legal = true; path = p.anchor ∷ []; cost_feet = 0 })
    else do
      open_to ← terrain_allows s p destination mode
      if open_to
          then search_path fuel s entity_id p.anchor destination mode budget policy
          else ok (illegal [] 0)

unfoldable pub find_path :
    ℕ
    → SpatialState
    → Text
    → GridCell
    → MovementMode
    → Option ℕ
    → MovementPolicy
    → Result PathResult
find_path fuel s entity_id destination mode budget policy = do
  p ← placement s entity_id
  path_to fuel s entity_id p destination mode budget policy

-- what `reachable_cells` searches: no estimate, so the entries order as the pairs `(cost, cell)`
unfoldable pub reach_search : SpatialState → Text → MovementMode → ℕ → MovementPolicy → Search
reach_search s entity_id mode budget policy = record {
  neighbors = λ c. neighboring_cells s.space c policy.allow_diagonal;
  step = try_step s entity_id mode policy;
  heuristic = λ c. ok 0;
  stops = λ c. false;
  budget = some budget;
}

-- the order of `(cost, cell)`
abbrev pub visit_leb : Visit → Visit → Bool
visit_leb = lex (λ a b. leb a.cost b.cost) (λ a b. cell_leb a.cell b.cell)

abbrev pub reachable : Visit → ReachableCell
reachable v = record { cell = v.cell; cost_feet = v.cost }

unfoldable pub reachable_cells :
    ℕ → SpatialState → Text → MovementMode → ℕ → MovementPolicy → Result (List ReachableCell)
reachable_cells fuel s entity_id mode budget policy = do
  p ← placement s entity_id
  g ← explore (reach_search s entity_id mode budget policy) fuel (begin p.anchor 0)
  ok (map reachable (sort visit_leb g.table))

-- the budget of an actor: the speed, if no other is given
abbrev pub budget_or : Option ℕ → ℕ → ℕ
budget_or none speed = speed
budget_or (some budget) speed = budget

-- `speed is None or speed <= 0`, or the speed
abbrev pub usable_speed : Option ℕ → Option ℕ
usable_speed none = none
usable_speed (some speed) = if leb 1 speed then some speed else none

unfoldable pub path_at_speed :
    ℕ
    → SpatialState
    → ActorState
    → GridCell
    → MovementMode
    → Option ℕ
    → MovementPolicy
    → Option ℕ
    → Result PathResult
path_at_speed fuel s actor destination mode budget policy none = ok (illegal [] 0)
path_at_speed fuel s actor destination mode budget policy (some speed) =
    find_path fuel s actor.actor_id destination mode (some (budget_or budget speed)) policy

unfoldable pub find_actor_path :
    ℕ
    → SpatialState
    → ActorState
    → GridCell
    → MovementMode
    → Option ℕ
    → MovementPolicy
    → Result PathResult
find_actor_path fuel s actor destination mode budget policy = do
  p ← placement s actor.actor_id
  guard (text_eq actor.actor_id p.entity_id) validation_error
  path_at_speed fuel s actor destination mode budget policy
      (usable_speed (Actor.movement_speed actor mode))
