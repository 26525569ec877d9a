-- ===== src/Spatial/Tests/Moves.antt =====
-- A move on the small map, and the instances of the theorems about moves.
use godot_dn_dsimulator.Spatial.Model.{same_offset, unique_terrain}
use godot_dn_dsimulator.Spatial.Model.{terrain_at}
use godot_dn_dsimulator.Base.Text.{is_blank, text_eq}
use godot_dn_dsimulator.Spatial.Events.{apply_spatial_event}
use godot_dn_dsimulator.Spatial.Runtime.{transition_along, transitions_for}
use godot_dn_dsimulator.Base.Int.{◌-ℤ◌}
use godot_dn_dsimulator.Spatial.Steps.{
  all_allow, corners_are_free, footing, footing_cost, has_mode, move_cost, step_cost,
  walk_step_is_legal, walks,
}
use godot_dn_dsimulator.Base.Sort.{sort}
use godot_dn_dsimulator.Base.Int.{◌+ℤ◌}
use godot_dn_dsimulator.Spatial.Steps.{move_is_legal, step_is_legal, terrain_allows, try_step}
use godot_dn_dsimulator.Spatial.Model.{
  cell_at, contains, find_terrain, offset, same_cell, terrain_at,
}
use godot_dn_dsimulator.Actors.Model.{ActorState, movement_speed}
use godot_dn_dsimulator.Spatial.Movement.{
  find_actor_path, path_at_speed, validate_from, validate_path, validate_steps,
}
use godot_dn_dsimulator.Base.Text.{text, text_eq_refl}
use godot_dn_dsimulator.Base.Keyed.{find_key, unique_keys}
use godot_dn_dsimulator.Spatial.State.{is_occupiable, occupied_cells, occupy, occupy_all, placement}
use godot_dn_dsimulator.Base.{◌≡◌, refl, true, false, [], ◌∷◌, none, some, ok, Returns}
use godot_dn_dsimulator.Base.Text.{text}
use godot_dn_dsimulator.Actors.Kinds.{walk}
use godot_dn_dsimulator.Actors.Model.{ActorState, movement_speed}
use godot_dn_dsimulator.Combat.Skirmish.{person}
use godot_dn_dsimulator.Spatial.State.{SpatialState, spatial_state}
use godot_dn_dsimulator.Spatial.State.Vacancy.{with_anchor-Returns, IsState, spatial_state-IsState}
use godot_dn_dsimulator.Spatial.Policy.{default_policy}
use godot_dn_dsimulator.Spatial.Movement.{usable_speed, find_actor_path, path_at_speed}
use godot_dn_dsimulator.Spatial.Model.{square_grid_space}
use godot_dn_dsimulator.Spatial.Policy.{movement_policy}
use godot_dn_dsimulator.Spatial.Movement.Sound.{IsPlaced}
use godot_dn_dsimulator.Spatial.Movement.Checked.{spatial_state-IsPlaced}
use godot_dn_dsimulator.Spatial.Movement.Accepted.{IsPath}
use godot_dn_dsimulator.Spatial.Movement.Ends.{Settles}
use godot_dn_dsimulator.Spatial.Events.{SpatialEvent, replay_spatial}
use godot_dn_dsimulator.Spatial.Runtime.{
  SpatialMoveTransition, move_entity, unchecked_event, transition_for_path,
}
use godot_dn_dsimulator.Spatial.Runtime.Recorded.{move_event_lem, read_move_lem}
use godot_dn_dsimulator.Spatial.Runtime.{transition_along, transitions_for}
use godot_dn_dsimulator.Spatial.Events.{apply_spatial_event, apply_move, joins}
use godot_dn_dsimulator.Base.Text.{is_blank}
use godot_dn_dsimulator.Spatial.State.{with_anchor}
use godot_dn_dsimulator.Spatial.Runtime.Arrival.{Arrives, move_entity-Arrives}
use godot_dn_dsimulator.Spatial.Runtime.Completes.{move_entity-Settles}
use godot_dn_dsimulator.Spatial.Runtime.Replay.{arrived, then_moved, entity_moved, Journey-Replays}
use godot_dn_dsimulator.Spatial.Tests.{
  cell, room, hero, scene, around, hero-IsPlaced, placed_hero, found_around,
}
use godot_dn_dsimulator.Actors.Kinds as Kinds

abbrev walker : ActorState
walker = person (text "hero") Kinds.hero 12

abbrev trip_event : SpatialEvent
trip_event = unchecked_event scene (text "hero") walk 10 (cell 0 0) (cell 1 1 ∷ cell 2 0 ∷ []) []

abbrev after_trip : SpatialState
after_trip = record {
  space = room;
  placements = record hero { anchor = cell 2 0 } ∷ [];
  sequence = 1;
}

abbrev trip : SpatialMoveTransition
trip = record { state = after_trip; event = trip_event; path = around; threat_transitions = [] }

path_is_valid :
    validate_path scene (text "hero") (cell 0 0 ∷ cell 1 1 ∷ cell 2 0 ∷ []) walk none default_policy
    ≡ ok around
unfolding validate_path placement find_key text_eq validate_from same_cell validate_steps try_step
    step_is_legal move_is_legal contains terrain_allows is_occupiable occupied_cells offset ◌+ℤ◌
    terrain_at find_terrain all_allow cell_at has_mode Kinds.mode_value walks walk_step_is_legal
    corners_are_free ◌-ℤ◌ step_cost move_cost footing footing_cost
path_is_valid = refl

anchored : with_anchor scene (text "hero") (cell 2 0) 1 ≡ ok after_trip
unfolding with_anchor find_key text_eq is_occupiable occupied_cells contains offset ◌+ℤ◌ terrain_at
    find_terrain same_cell spatial_state unique_keys occupy_all occupy cell_at sort
anchored = refl

applied : apply_spatial_event scene trip_event default_policy ≡ ok after_trip
unfolding apply_spatial_event apply_move joins same_cell
applied =
    rw
      (
        text_eq_refl (text "entity.moved"),
        placed_hero,
        read_move_lem scene (text "hero") walk 10 (cell 0 0) (cell 1 1 ∷ cell 2 0 ∷ []) [],
        path_is_valid,
      )
      anchored

named : is_blank (text "hero") ≡ false
unfolding is_blank
named = refl

transited : transition_for_path default_policy scene (text "hero") walk around [] ≡ ok trip
unfolding transition_for_path transition_along transitions_for
transited =
    rw
      (
        move_event_lem scene (text "hero") walk 10 (cell 0 0) (cell 1 1 ∷ cell 2 0 ∷ []) [] named,
        applied,
      )
      refl

speed_of_walker : usable_speed (movement_speed walker walk) ≡ some 30
unfolding movement_speed find_key text_eq Kinds.mode_value
speed_of_walker = refl

walked : move_entity 20 default_policy scene walker (cell 2 0) walk none [] ≡ ok trip
unfolding move_entity find_actor_path path_at_speed
walked = rw (placed_hero, text_eq_refl (text "hero"), speed_of_walker, found_around) transited

scene_valid : spatial_state scene ≡ ok scene
unfolding spatial_state unique_keys occupy_all occupy occupied_cells contains offset ◌+ℤ◌ cell_at
    terrain_at find_terrain same_cell sort
scene_valid = refl

scene-IsState : IsState scene
scene-IsState = spatial_state-IsState scene scene scene_valid

room_valid : square_grid_space room ≡ ok room
unfolding square_grid_space is_blank unique_terrain contains sort
room_valid = refl

policy_valid : movement_policy default_policy ≡ ok default_policy
unfolding movement_policy
policy_valid = refl

spatial_state-IsPlaced_example : IsPlaced scene (text "hero") default_policy hero
unfolding same_offset
spatial_state-IsPlaced_example =
    spatial_state-IsPlaced scene scene room default_policy default_policy (text "hero") hero
      scene_valid room_valid policy_valid placed_hero refl

occupiable : is_occupiable scene hero (cell 2 0) (text "hero") ≡ true
unfolding is_occupiable occupied_cells contains offset ◌+ℤ◌ terrain_at find_terrain same_cell
occupiable = refl

with_anchor-Returns_example : Returns (with_anchor scene (text "hero") (cell 2 0) 1)
with_anchor-Returns_example =
    with_anchor-Returns scene (text "hero") hero (cell 2 0) 1 scene-IsState placed_hero occupiable

move_entity-Arrives_example :
    Arrives default_policy scene walker walk none hero hero-IsPlaced (cell 2 0) trip
move_entity-Arrives_example =
    move_entity-Arrives default_policy scene walker walk none hero hero-IsPlaced (cell 2 0) 20 []
      trip walked

Journey-Replays_example : replay_spatial scene (trip_event ∷ []) ≡ ok after_trip
Journey-Replays_example = Journey-Replays (
    then_moved {s = scene} {s' = after_trip} {events = []} trip
      (entity_moved 20 walker (cell 2 0) walk none [] trip walked) arrived)

around-IsPath :
    IsPath scene
      (text "hero")
      walk
      default_policy
      (some 30)
      hero
      hero-IsPlaced
      (cell 2 0)
      (cell 0 0 ∷ cell 1 1 ∷ cell 2 0 ∷ [])
      10
unfolding validate_path placement find_key text_eq validate_from same_cell validate_steps try_step
    step_is_legal move_is_legal contains terrain_allows is_occupiable occupied_cells offset ◌+ℤ◌
    terrain_at find_terrain all_allow cell_at has_mode Kinds.mode_value walks walk_step_is_legal
    corners_are_free ◌-ℤ◌ step_cost move_cost footing footing_cost
around-IsPath = record {
  steps = cell 1 1 ∷ cell 2 0 ∷ [];
  starts = refl;
  ends = refl;
  accepted = refl;
}

move_entity-Settles_example :
    Settles (λ n. move_entity n default_policy scene walker (cell 2 0) walk none [])
unfolding is_blank movement_speed find_key text_eq Kinds.mode_value same_cell
move_entity-Settles_example =
    move_entity-Settles default_policy scene walker walk none hero hero-IsPlaced (cell 2 0) 30
      (cell 0 0 ∷ cell 1 1 ∷ cell 2 0 ∷ []) 10 scene-IsState named speed_of_walker refl
      around-IsPath
