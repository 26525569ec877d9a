-- ===== src/Spatial/Tests.antt =====
-- A small map with an entity, runs of the searches on it, and the instances of the theorems.
mod Moves
use godot_dn_dsimulator.Spatial.Movement.{found_path}
use godot_dn_dsimulator.Base.Int.{◌-ℤ◌}
use godot_dn_dsimulator.Spatial.Search.{improve, put_visit, relax_cost, relax_step, walk_back}
use godot_dn_dsimulator.Spatial.Steps.{corners_are_free, footing, footing_cost}
use godot_dn_dsimulator.Spatial.Steps.{
  move_cost, move_is_legal, step_cost, step_is_legal, try_step, walk_step_is_legal, walks,
}
use godot_dn_dsimulator.Spatial.Model.{cell_leb}
use godot_dn_dsimulator.Spatial.Geometry.{distance_between_cells}
use godot_dn_dsimulator.Spatial.Movement.{heuristic, path_search, search_path}
use godot_dn_dsimulator.Actors.Kinds.{mode_value}
use godot_dn_dsimulator.Base.Sort.{sort}
use godot_dn_dsimulator.Spatial.Geometry.{neighboring_cells}
use godot_dn_dsimulator.Spatial.Search.{begin, expand, explore, find_visit, pop, relax}
use godot_dn_dsimulator.Base.Int.{◌+ℤ◌}
use godot_dn_dsimulator.Spatial.State.{is_occupiable, occupied_cells}
use godot_dn_dsimulator.Spatial.Steps.{all_allow, has_mode, terrain_allows}
use godot_dn_dsimulator.Spatial.Model.{
  cell_at, contains, find_terrain, offset, same_cell, same_offset, terrain_at,
}
use godot_dn_dsimulator.Spatial.Movement.{path_to, reach_search}
use godot_dn_dsimulator.Base.Text.{text_eq}
use godot_dn_dsimulator.Base.Keyed.{find_key}
use godot_dn_dsimulator.Base.{ℕ, ◌≡◌, refl, true, false, List, [], ◌∷◌, some, ok, arith}
use godot_dn_dsimulator.Base.Int.{pos}
use godot_dn_dsimulator.Base.Text.{text}
use godot_dn_dsimulator.Actors.Kinds.{walk}
use godot_dn_dsimulator.Spatial.Model.{
  GridCell, SquareGridSpace, TerrainCell, no_cover, open_terrain,
}
use godot_dn_dsimulator.Spatial.State.{SpatialPlacement, SpatialState, no_offset, placement}
use godot_dn_dsimulator.Spatial.Policy.{PathResult, ReachableCell, default_policy}
use godot_dn_dsimulator.Spatial.Movement.{find_path, reachable_cells, illegal}
use godot_dn_dsimulator.Spatial.Movement.Sound.{IsPlaced}
use godot_dn_dsimulator.Spatial.Movement.Cheapest.{IsCheapest, find_path-IsCheapest}
use godot_dn_dsimulator.Spatial.Movement.Ends.{Settles, find_path-Settles}
use godot_dn_dsimulator.Spatial.Movement.Reach.{IsReach, reachable_cells-IsReach}

abbrev cell : ℕ → ℕ → GridCell
cell x y = record { x = pos x; y = pos y }

-- a room of three cells by two, with mud between the hero and the far corner
abbrev mud : TerrainCell
mud = record (open_terrain (cell 1 0)) { terrain_id = text "mud"; difficult = true }

abbrev room : SquareGridSpace
room = record {
  space_id = text "room";
  width = 3;
  height = 2;
  cell_size_feet = 5;
  terrain = mud ∷ [];
}

abbrev hero : SpatialPlacement
hero = record {
  entity_id = text "hero";
  anchor = cell 0 0;
  footprint = no_offset ∷ [];
  height_feet = 5;
  blocks_movement = true;
  blocks_los = false;
  cover = no_cover;
  tags = [];
}

abbrev scene : SpatialState
scene = record { space = room; placements = hero ∷ []; sequence = 0 }

-- the hero walks around the mud
abbrev around : PathResult
around = record { legal = true; path = cell 0 0 ∷ cell 1 1 ∷ cell 2 0 ∷ []; cost_feet = 10 }

placed_hero : placement scene (text "hero") ≡ ok hero
unfolding placement find_key text_eq
placed_hero = refl

found_around : find_path 20 scene (text "hero") (cell 2 0) walk (some 30) default_policy ≡ ok around
unfolding find_path placement find_key text_eq path_to contains same_cell terrain_allows
    is_occupiable occupied_cells offset ◌+ℤ◌ terrain_at find_terrain all_allow cell_at has_mode
    mode_value search_path heuristic distance_between_cells explore pop begin find_visit path_search
    expand neighboring_cells relax sort cell_leb try_step step_is_legal move_is_legal walks
    walk_step_is_legal step_cost move_cost footing relax_step relax_cost footing_cost improve
    put_visit corners_are_free ◌-ℤ◌ found_path walk_back
found_around = refl

-- ten feet are not enough for the far corner with the mud on the way, five are not for any way
too_far :
    find_path 20 scene (text "hero") (cell 2 0) walk (some 5) default_policy ≡ ok (illegal [] 0)
unfolding find_path placement find_key text_eq path_to contains same_cell terrain_allows
    is_occupiable occupied_cells offset ◌+ℤ◌ terrain_at find_terrain all_allow cell_at has_mode
    mode_value search_path heuristic distance_between_cells explore pop begin find_visit path_search
    expand neighboring_cells relax sort cell_leb try_step step_is_legal move_is_legal walks
    walk_step_is_legal step_cost move_cost footing relax_step relax_cost footing_cost improve
    corners_are_free ◌-ℤ◌ put_visit found_path
too_far = refl

abbrev five_feet : List ReachableCell
five_feet =
    record { cell = cell 0 0; cost_feet = 0 }
    ∷ record { cell = cell 0 1; cost_feet = 5 }
    ∷ record { cell = cell 1 1; cost_feet = 5 }
    ∷ []

reached_five : reachable_cells 20 scene (text "hero") walk 5 default_policy ≡ ok five_feet
unfolding reachable_cells placement find_key text_eq explore pop begin find_visit same_cell
    reach_search expand neighboring_cells contains relax sort offset ◌+ℤ◌ cell_leb try_step
    step_is_legal move_is_legal terrain_allows is_occupiable occupied_cells terrain_at find_terrain
    all_allow cell_at has_mode mode_value walks walk_step_is_legal step_cost move_cost footing
    relax_step relax_cost footing_cost improve corners_are_free ◌-ℤ◌ put_visit
reached_five = refl

hero-IsPlaced : IsPlaced scene (text "hero") default_policy hero
unfolding same_offset contains offset ◌+ℤ◌
hero-IsPlaced = record {
  found = placed_hero;
  anchored = refl;
  inside = refl;
  sized = ground arith;
  harder = ground arith;
}

find_path-IsCheapest_example :
    IsCheapest scene
      (text "hero")
      walk
      default_policy
      (some 30)
      hero
      hero-IsPlaced
      (cell 2 0)
      around
find_path-IsCheapest_example =
    find_path-IsCheapest scene (text "hero") walk default_policy (some 30) hero hero-IsPlaced
      (cell 2 0) 20 around found_around

find_path-Settles_example :
    Settles (λ n. find_path n scene (text "hero") (cell 2 0) walk (some 30) default_policy)
find_path-Settles_example =
    find_path-Settles scene (text "hero") walk default_policy hero hero-IsPlaced (cell 2 0)
      (some 30)

reachable_cells-IsReach_example :
    IsReach scene (text "hero") walk default_policy 5 hero hero-IsPlaced five_feet
reachable_cells-IsReach_example =
    reachable_cells-IsReach scene (text "hero") walk default_policy 5 hero hero-IsPlaced 20
      five_feet reached_five
