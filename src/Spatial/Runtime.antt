-- ===== src/Spatial/Runtime.antt =====
-- spatial/runtime.py, spatial/navigation.py and spatial/integration.py: moves, proposed or searched,
-- alone or in an encounter. A search takes fuel.
pub mod Recorded
pub mod Moves
pub mod Arrival
pub mod Completes
pub mod Replay
use godot_dn_dsimulator.Base.{
  ℕ, ◌+◌, Bool, true, false, not, Option, none, some, List, [], ◌∷◌, map, filter, if◌then◌else◌,
  Result, ok, err, validation_error, guard, or_raise, ◌>>=◌, ◌>>◌,
}
use godot_dn_dsimulator.Base.Int.{pos}
use godot_dn_dsimulator.Base.Text.{Text, text, text_eq, is_blank}
use godot_dn_dsimulator.Base.Keyed.{find_key}
use godot_dn_dsimulator.Actors.Kinds.{MovementMode, mode_value}
use godot_dn_dsimulator.Actors.Model.{ActorState}
use godot_dn_dsimulator.Actors.Model as Actor
use godot_dn_dsimulator.Combat.Encounter.{EncounterState, combatant}
use godot_dn_dsimulator.Combat.Wounds.{CombatTransition}
use godot_dn_dsimulator.Combat.Turns.{spend_movement}
use godot_dn_dsimulator.Spatial.Model.{GridCell, same_cell}
use godot_dn_dsimulator.Spatial.State.{SpatialPlacement, SpatialState, entity_key, placement}
use godot_dn_dsimulator.Spatial.Policy.{MovementPolicy, PathResult, ThreatTransition}
use godot_dn_dsimulator.Spatial.Movement.{
  illegal, validate_path, find_actor_path, usable_speed, budget_or,
}
use godot_dn_dsimulator.Spatial.Events.{
  SpatialEvent, string, integer, pair, pairs, strings, spatial_event, cell_pair, last_cell,
  apply_spatial_event,
}
use godot_dn_dsimulator.Spatial.Threats.{ThreatDefinition, path_threat_transitions}

pub record NavigationPathProposal : Type 0 where
  pub adapter_id : Text
  pub space_id : Text
  pub entity_id : Text
  pub movement_mode : MovementMode
  pub cells : List GridCell
  pub observation_revision : ℕ

abbrev pub has_cells : List GridCell → Bool
has_cells [] = false
has_cells (c ∷ cs) = true

unfoldable pub navigation_path_proposal : NavigationPathProposal → Result NavigationPathProposal
navigation_path_proposal n = do
  guard (not (is_blank n.adapter_id)) validation_error
  guard (not (is_blank n.space_id)) validation_error
  guard (not (is_blank n.entity_id)) validation_error
  guard (has_cells n.cells) validation_error
  ok n

-- `proposal.cells[0] != placement.anchor`; the constructor refuses a proposal without cells
abbrev pub starts_at : List GridCell → GridCell → Bool
starts_at [] anchor = false
starts_at (c ∷ cs) anchor = same_cell c anchor

unfoldable pub validate_placed :
    SpatialState
    → NavigationPathProposal
    → Option ℕ
    → MovementPolicy
    → Option SpatialPlacement
    → Result PathResult
validate_placed s n budget policy none = ok (illegal n.cells 0)
validate_placed s n budget policy (some p) =
    if starts_at n.cells p.anchor
    then validate_path s n.entity_id n.cells n.movement_mode budget policy
    else ok (illegal n.cells 0)

unfoldable pub validate_navigation_proposal :
    SpatialState → NavigationPathProposal → Option ℕ → MovementPolicy → Result PathResult
validate_navigation_proposal s n budget policy =
    if text_eq n.space_id s.space.space_id
    then validate_placed s n budget policy (find_key entity_key n.entity_id s.placements)
    else ok (illegal n.cells 0)

pub record SpatialMoveTransition : Type 0 where
  pub state : SpatialState
  pub event : SpatialEvent
  pub path : PathResult
  pub threat_transitions : List ThreatTransition

-- `path_threat_transitions(...) if threats else ()`
unfoldable pub transitions_for :
    SpatialState → Text → List GridCell → List ThreatDefinition → Result (List ThreatTransition)
transitions_for s entity_id path [] = ok []
transitions_for s entity_id path (t ∷ ts) = path_threat_transitions s entity_id path (t ∷ ts)

-- the sources of the threats that are entered
abbrev pub entries : List ThreatTransition → List Text
entries ts = map (λ t. t.source_entity_id) (filter (λ t. t.entered) ts)

-- and of those that are left
abbrev pub exits : List ThreatTransition → List Text
exits ts = map (λ t. t.source_entity_id) (filter (λ t. t.exited) ts)

-- the arguments of the constructor of the event in `_transition_for_path`
abbrev pub unchecked_event :
    SpatialState
    → Text
    → MovementMode
    → ℕ
    → GridCell
    → List GridCell
    → List ThreatTransition
    → SpatialEvent
unchecked_event s entity_id mode cost c path transitions = record {
  sequence = s.sequence + 1;
  event_type = text "entity.moved";
  entity_id = entity_id;
  payload =
      (text "cost_feet", integer (pos cost))
      ∷ (text "from_anchor", pair (cell_pair c))
      ∷ (text "movement_mode", string (mode_value mode))
      ∷ (text "path", pairs (map cell_pair (c ∷ path)))
      ∷ (text "threat_entries", strings (entries transitions))
      ∷ (text "threat_exits", strings (exits transitions))
      ∷ (text "to_anchor", pair (cell_pair (last_cell c path)))
      ∷ [];
  schema_version = 1;
}

-- the event of `_transition_for_path` on a path of at least one cell
unfoldable pub move_event :
    SpatialState
    → Text
    → MovementMode
    → ℕ
    → GridCell
    → List GridCell
    → List ThreatTransition
    → Result SpatialEvent
move_event s entity_id mode cost c path transitions =
    spatial_event (unchecked_event s entity_id mode cost c path transitions)

-- `_transition_for_path` behind its check of the path
unfoldable pub transition_along :
    MovementPolicy
    → SpatialState
    → Text
    → MovementMode
    → PathResult
    → List ThreatDefinition
    → List GridCell
    → Result SpatialMoveTransition
transition_along policy s entity_id mode result threats [] = err validation_error
transition_along policy s entity_id mode result threats (c ∷ path) = do
  transitions ← transitions_for s entity_id (c ∷ path) threats
  event ← move_event s entity_id mode result.cost_feet c path transitions
  s' ← apply_spatial_event s event policy
  ok (record { state = s'; event = event; path = result; threat_transitions = transitions })

-- `_transition_for_path`
unfoldable pub transition_for_path :
    MovementPolicy
    → SpatialState
    → Text
    → MovementMode
    → PathResult
    → List ThreatDefinition
    → Result SpatialMoveTransition
transition_for_path policy s entity_id mode result threats = do
  guard result.legal validation_error
  transition_along policy s entity_id mode result threats result.path

-- `SpatialRuntime.move_entity`
unfoldable pub move_entity :
    ℕ
    → MovementPolicy
    → SpatialState
    → ActorState
    → GridCell
    → MovementMode
    → Option ℕ
    → List ThreatDefinition
    → Result SpatialMoveTransition
move_entity fuel policy s actor destination mode budget threats = do
  p ← placement s actor.actor_id
  guard (text_eq actor.actor_id p.entity_id) validation_error
  result ← find_actor_path fuel s actor destination mode budget policy
  guard result.legal validation_error
  transition_for_path policy s actor.actor_id mode result threats

-- `SpatialRuntime.move_from_navigation_proposal`
unfoldable pub move_from_navigation_proposal :
    MovementPolicy
    → SpatialState
    → ActorState
    → NavigationPathProposal
    → Option ℕ
    → List ThreatDefinition
    → Result SpatialMoveTransition
move_from_navigation_proposal policy s actor n budget threats = do
  guard (text_eq n.entity_id actor.actor_id) validation_error
  speed ← or_raise (usable_speed (Actor.movement_speed actor n.movement_mode)) validation_error
  result ← validate_navigation_proposal s n (some (budget_or budget speed)) policy
  guard result.legal validation_error
  transition_for_path policy s actor.actor_id n.movement_mode result threats

unfoldable pub validate_at_speed :
    MovementPolicy
    → SpatialState
    → ActorState
    → List GridCell
    → MovementMode
    → Option ℕ
    → Option ℕ
    → Result PathResult
validate_at_speed policy s actor path mode budget none = ok (illegal path 0)
validate_at_speed policy s actor path mode budget (some speed) =
    validate_path s actor.actor_id path mode (some (budget_or budget speed)) policy

-- `SpatialRuntime.validate_proposed_path`
unfoldable pub validate_proposed_path :
    MovementPolicy
    → SpatialState
    → ActorState
    → List GridCell
    → MovementMode
    → Option ℕ
    → Result PathResult
validate_proposed_path policy s actor path mode budget =
    validate_at_speed policy s actor path mode budget
      (usable_speed (Actor.movement_speed actor mode))

pub record CombatSpatialMoveTransition : Type 0 where
  pub spatial : SpatialMoveTransition
  pub combat : CombatTransition

-- `move_in_encounter`
unfoldable pub move_in_encounter :
    ℕ
    → MovementPolicy
    → SpatialState
    → EncounterState
    → Text
    → GridCell
    → MovementMode
    → List ThreatDefinition
    → Result CombatSpatialMoveTransition
move_in_encounter fuel policy s encounter actor_id destination mode threats = do
  c ← combatant encounter actor_id
  spatial ←
      move_entity fuel policy s c.actor destination mode (some c.economy.movement_remaining) threats
  combat ← spend_movement encounter actor_id (pos spatial.path.cost_feet)
  ok (record { spatial = spatial; combat = combat })
