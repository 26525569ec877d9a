-- ===== src/Spatial/Runtime/Arrival.antt =====
-- Where `SpatialRuntime.move_entity` takes an entity, and at what cost.
use mathlib.Core.Path.{subst}
use godot_dn_dsimulator.Base.{
  ℕ, suc, ◌≡◌, refl, sym, ap, ◌∙◌, true, Option, some, none, List, [], ◌∷◌, ok, >>=-eq-ok,
  ok-injective, guard, guard-eq-ok, validation_error,
}
use godot_dn_dsimulator.Base.Text.{text_eq}
use godot_dn_dsimulator.Actors.Kinds.{MovementMode}
use godot_dn_dsimulator.Actors.Model.{ActorState}
use godot_dn_dsimulator.Actors.Model as Actor
use godot_dn_dsimulator.Spatial.Model.{GridCell}
use godot_dn_dsimulator.Spatial.State.{SpatialPlacement, SpatialState, placement}
use godot_dn_dsimulator.Spatial.State.Moved.{HasMoved}
use godot_dn_dsimulator.Spatial.Policy.{MovementPolicy, PathResult}
use godot_dn_dsimulator.Spatial.Movement.{find_actor_path, path_at_speed, usable_speed, budget_or}
use godot_dn_dsimulator.Spatial.Movement.Sound.{IsPlaced}
use godot_dn_dsimulator.Spatial.Movement.Paths.{last_of}
use godot_dn_dsimulator.Spatial.Movement.Cheapest.{
  IsCheapest, cheapest, none_found, find_path-IsCheapest,
}
use godot_dn_dsimulator.Spatial.Events.{apply_spatial_event, last_cell}
use godot_dn_dsimulator.Spatial.Threats.{ThreatDefinition}
use godot_dn_dsimulator.Spatial.Runtime.{SpatialMoveTransition, move_entity, transition_for_path}
use godot_dn_dsimulator.Spatial.Runtime.Moves.{transition_for_path-IsMoved}

pub last_cell-last_of : (c : GridCell) (path : List GridCell) → last_cell c path ≡ last_of c path
last_cell-last_of c [] = refl
last_cell-last_of c (d ∷ path) = last_cell-last_of d path

module _ (policy : MovementPolicy) (s : SpatialState) (actor : ActorState) (mode : MovementMode)
    (budget : Option ℕ) (p : SpatialPlacement) (v : IsPlaced s actor.actor_id policy p)
    (destination : GridCell) where
  -- What a move may return: the entity stands at the destination, the other entities stand where they
  -- stood, the path is a cheapest one within the budget or the speed, and the event leads to the state.
  pub record Arrives (t : SpatialMoveTransition) : Type 0 where
    pub speed : ℕ
    pub fast : usable_speed (Actor.movement_speed actor mode) ≡ some speed
    pub legal : t.path.legal ≡ true
    pub shortest :
        IsCheapest s actor.actor_id mode policy
          (some (budget_or budget speed))
          p
          v
          destination
          t.path
    pub moves : HasMoved s actor.actor_id p destination (suc s.sequence) t.state
    pub recorded : apply_spatial_event s t.event policy ≡ ok t.state

  -- the path of a legal result ends at the destination
  legal_ends :
      (most : Option ℕ) (r : PathResult) (c : GridCell) (path : List GridCell)
      → IsCheapest s actor.actor_id mode policy most p v destination r
      → r.legal ≡ true
      → r.path ≡ c ∷ path
      → last_cell c path ≡ destination
  legal_ends most _ c path (cheapest cells cost is_path least) legal e =
      let same : p.anchor ∷ is_path.steps ≡ c ∷ path = sym is_path.starts ∙ e in
      let ended : last_of p.anchor is_path.steps ≡ destination = is_path.ends in
      let there : last_of c path ≡ destination = cc in last_cell-last_of c path ∙ there
  legal_ends most _ c path (none_found cost none_at) legal e = absurd (cc legal)

  -- Whatever `move_entity` returns: the entity stands at the destination, every other entity and the
  -- space are as before, the sequence is one higher, the path is legal and as cheap as any that the
  -- check accepts within the budget, or else the speed, and the event applied to the state before
  -- gives the state after. The entity stands in the space, and the space and the policy have passed
  -- their checks.
  pub move_entity-Arrives :
      (fuel : ℕ) (threats : List ThreatDefinition) (t : SpatialMoveTransition)
      → move_entity fuel policy s actor destination mode budget threats ≡ ok t
      → Arrives t
  unfolding move_entity find_actor_path path_at_speed
  move_entity-Arrives fuel threats t h =
      let (p₁, _, h₁) = >>=-eq-ok (placement s actor.actor_id) _ h in
      let (_, _, h₂) =
        >>=-eq-ok (guard (text_eq actor.actor_id p₁.entity_id) validation_error) _ h₁ in
      let (r, searched, h₃) =
        >>=-eq-ok (find_actor_path fuel s actor destination mode budget policy) _ h₂ in
      let (_, legal, h₄) = >>=-eq-ok (guard r.legal validation_error) _ h₃ in
      let is_legal = guard-eq-ok r.legal validation_error legal in
      let (p₂, _, s₁) = >>=-eq-ok (placement s actor.actor_id) _ searched in
      let (_, _, s₂) =
        >>=-eq-ok (guard (text_eq actor.actor_id p₂.entity_id) validation_error) _ s₁ in
      arrives r is_legal h₄ (usable_speed (Actor.movement_speed actor mode)) refl s₂
    where
      arrives :
          (r : PathResult)
          → r.legal ≡ true
          → transition_for_path policy s actor.actor_id mode r threats ≡ ok t
          → (speed : Option ℕ) → usable_speed (Actor.movement_speed actor mode) ≡ speed
          → path_at_speed fuel s actor destination mode budget policy speed ≡ ok r
          → Arrives t
      arrives r legal made none fast h =
          unfold path_at_speed in
          absurd (cc (sym legal ∙ ap (λ (x : PathResult). x.legal) (ok-injective (sym h))))
      arrives r legal made (some speed) fast h =
          unfold path_at_speed in
          let shortest =
            find_path-IsCheapest s actor.actor_id mode policy (some (budget_or budget speed)) p v
              destination fuel r h in
          let (c, path, e, _, same, moved, applied) =
            transition_for_path-IsMoved policy s actor.actor_id mode r threats t made in
          let there = legal_ends (some (budget_or budget speed)) r c path shortest legal e in
          let entity : moved.entity ≡ p = ok-injective (sym moved.stood ∙ v.found) in
          record {
            speed = speed;
            fast = fast;
            legal = ap (λ (x : PathResult). x.legal) same ∙ legal;
            shortest =
                subst
                  (IsCheapest s actor.actor_id mode policy (some (budget_or budget speed)) p v
                    destination)
                  (sym same) shortest;
            moves =
                subst (λ x. HasMoved s actor.actor_id x destination (suc s.sequence) t.state) entity
                  (subst (λ x. HasMoved s actor.actor_id moved.entity x (suc s.sequence) t.state)
                    there moved.moves);
            recorded = applied;
          }
