-- ===== src/Spatial/Runtime/Replay.antt =====
-- Logs of moves, replayed.
use mathlib.Core.Path.{subst}
use godot_dn_dsimulator.Base.{
  ℕ, ◌≡◌, refl, ap, Option, some, List, [], ◌∷◌, ok, >>=-eq-ok, ok-injective, guard,
  validation_error, or_raise,
}
use godot_dn_dsimulator.Base.Text.{Text, text_eq}
use godot_dn_dsimulator.Base.Int.{pos}
use godot_dn_dsimulator.Actors.Kinds.{MovementMode}
use godot_dn_dsimulator.Actors.Model.{ActorState}
use godot_dn_dsimulator.Actors.Model as Actor
use godot_dn_dsimulator.Combat.Encounter.{EncounterState, combatant}
use godot_dn_dsimulator.Combat.Turns.{spend_movement}
use godot_dn_dsimulator.Spatial.Model.{GridCell}
use godot_dn_dsimulator.Spatial.State.{SpatialState, placement}
use godot_dn_dsimulator.Spatial.Policy.{MovementPolicy, default_policy}
use godot_dn_dsimulator.Spatial.Movement.{find_actor_path, usable_speed, budget_or}
use godot_dn_dsimulator.Spatial.Events.{SpatialEvent, apply_spatial_event, replay_spatial}
use godot_dn_dsimulator.Spatial.Threats.{ThreatDefinition}
use godot_dn_dsimulator.Spatial.Runtime.{
  SpatialMoveTransition, CombatSpatialMoveTransition, NavigationPathProposal, move_entity,
  move_from_navigation_proposal, move_in_encounter, validate_navigation_proposal,
}
use godot_dn_dsimulator.Spatial.Runtime.Moves.{transition_for_path-IsMoved}

-- what a command of the runtime returned
pub data Command (policy : MovementPolicy) (s : SpatialState) : SpatialMoveTransition → Type 0 where
  entity_moved :
      (fuel : ℕ) (actor : ActorState) (destination : GridCell) (mode : MovementMode)
      (budget : Option ℕ) (threats : List ThreatDefinition) (t : SpatialMoveTransition)
      → move_entity fuel policy s actor destination mode budget threats ≡ ok t
      → Command policy s t
  proposal_followed :
      (actor : ActorState) (n : NavigationPathProposal) (budget : Option ℕ)
      (threats : List ThreatDefinition) (t : SpatialMoveTransition)
      → move_from_navigation_proposal policy s actor n budget threats ≡ ok t
      → Command policy s t
  combatant_moved :
      (fuel : ℕ) (encounter : EncounterState) (id : Text) (destination : GridCell)
      (mode : MovementMode) (threats : List ThreatDefinition) (t : CombatSpatialMoveTransition)
      → move_in_encounter fuel policy s encounter id destination mode threats ≡ ok t
      → Command policy s t.spatial

module _ (policy : MovementPolicy) (s : SpatialState) where
  entity-Recorded :
      (fuel : ℕ) (actor : ActorState) (destination : GridCell) (mode : MovementMode)
      (budget : Option ℕ) (threats : List ThreatDefinition) (t : SpatialMoveTransition)
      → move_entity fuel policy s actor destination mode budget threats ≡ ok t
      → apply_spatial_event s t.event policy ≡ ok t.state
  unfolding move_entity
  entity-Recorded fuel actor destination mode budget threats t h =
      let (p, _, h₁) = >>=-eq-ok (placement s actor.actor_id) _ h in
      let (_, _, h₂) =
        >>=-eq-ok (guard (text_eq actor.actor_id p.entity_id) validation_error) _ h₁ in
      let (r, _, h₃) =
        >>=-eq-ok (find_actor_path fuel s actor destination mode budget policy) _ h₂ in
      let (_, _, h₄) = >>=-eq-ok (guard r.legal validation_error) _ h₃ in
      let (_, _, _, _, _, _, applied) =
        transition_for_path-IsMoved policy s actor.actor_id mode r threats t h₄ in
      applied

  -- the event of a command leads to the state that the command returned
  command-Recorded :
      {t : SpatialMoveTransition}
      → Command policy s t
      → apply_spatial_event s t.event policy ≡ ok t.state
  unfolding move_from_navigation_proposal move_in_encounter
  command-Recorded (entity_moved fuel actor destination mode budget threats t h) =
      entity-Recorded fuel actor destination mode budget threats t h
  command-Recorded (proposal_followed actor n budget threats t h) =
      let (_, _, h₁) =
        >>=-eq-ok (guard (text_eq n.entity_id actor.actor_id) validation_error) _ h in
      let (speed, _, h₂) =
        >>=-eq-ok
          (or_raise (usable_speed (Actor.movement_speed actor n.movement_mode)) validation_error) _
          h₁ in
      let (r, _, h₃) =
        >>=-eq-ok (validate_navigation_proposal s n (some (budget_or budget speed)) policy) _ h₂ in
      let (_, _, h₄) = >>=-eq-ok (guard r.legal validation_error) _ h₃ in
      let (_, _, _, _, _, _, applied) =
        transition_for_path-IsMoved policy s actor.actor_id n.movement_mode r threats t h₄ in
      applied
  command-Recorded (combatant_moved fuel encounter id destination mode threats t h) =
      let (c, _, h₁) = >>=-eq-ok (combatant encounter id) _ h in
      let (moved, walked, h₂) =
        >>=-eq-ok
          (move_entity fuel policy s c.actor destination mode (some c.economy.movement_remaining)
            threats)
          _ h₁ in
      let (combat, _, h₃) =
        >>=-eq-ok (spend_movement encounter id (pos moved.path.cost_feet)) _ h₂ in
      let same : moved ≡ t.spatial =
        ap (λ (x : CombatSpatialMoveTransition). x.spatial) (ok-injective h₃) in
      subst (λ (x : SpatialMoveTransition). apply_spatial_event s x.event policy ≡ ok x.state) same
        (entity-Recorded fuel c.actor destination mode (some c.economy.movement_remaining) threats
          moved walked)

-- commands under the default policy, one after another, with the log of their events
pub data Journey : SpatialState → List SpatialEvent → SpatialState → Type 0 where
  arrived : {s : SpatialState} → Journey s [] s
  then_moved :
      {s s' : SpatialState} {events : List SpatialEvent} (t : SpatialMoveTransition)
      → Command default_policy s t
      → Journey t.state events s'
      → Journey s (t.event ∷ events) s'

-- The log of any moves under the default policy, searched, proposed or in an encounter, replays: from
-- the state before the first, `replay_spatial` leads to the state after the last.
pub Journey-Replays :
    {s s' : SpatialState} {events : List SpatialEvent}
    → Journey s events s'
    → replay_spatial s events ≡ ok s'
unfolding replay_spatial
Journey-Replays arrived = refl
Journey-Replays (then_moved t command later) =
    rw (command-Recorded default_policy _ command) (Journey-Replays later)
