-- ===== src/Spatial/Runtime/Completes.antt =====
-- When `SpatialRuntime.move_entity` returns.
use mathlib.Core.Path.{subst}
use godot_dn_dsimulator.Base.{
  ℕ, ◌+◌, ◌≡◌, refl, sym, ap, ◌∙◌, Bool, true, false, Option, none, some, List, [], ◌∷◌, arith, ok,
  >>=-eq-ok, ok-injective, Returns, inl, inr, ◌==◌, if-eq, or_raise-eq-ok,
}
use godot_dn_dsimulator.Base.Text.{Text, text, text_eq, text_eq_refl, is_blank}
use godot_dn_dsimulator.Base.Keyed.{find_key-key}
use godot_dn_dsimulator.Actors.Kinds.{MovementMode}
use godot_dn_dsimulator.Actors.Model.{ActorState}
use godot_dn_dsimulator.Actors.Model as Actor
use godot_dn_dsimulator.Spatial.Model.{GridCell, same_cell}
use godot_dn_dsimulator.Spatial.State.{
  SpatialPlacement, SpatialState, entity_key, placement, occupied_cells, is_occupiable,
}
use godot_dn_dsimulator.Spatial.State.Vacancy.{IsState, with_anchor-Returns}
use godot_dn_dsimulator.Spatial.Policy.{MovementPolicy, PathResult}
use godot_dn_dsimulator.Spatial.Search.Table.{same_cell_refl}
use godot_dn_dsimulator.Spatial.Steps.{try_step, terrain_allows, all_allow}
use godot_dn_dsimulator.Spatial.Steps.Legal.{and_then-true}
use godot_dn_dsimulator.Spatial.Movement.{
  validate_path, validate_from, validate_steps, count_step, exceeds, find_actor_path, path_at_speed,
  usable_speed, budget_or,
}
use godot_dn_dsimulator.Spatial.Movement.Sound.{IsPlaced}
use godot_dn_dsimulator.Spatial.Movement.Accepted.{IsPath, IsPath-steps}
use godot_dn_dsimulator.Spatial.Movement.Cheapest.{
  IsCheapest, cheapest, none_found, find_path-IsCheapest, IsPath_last,
}
use godot_dn_dsimulator.Spatial.Movement.Ends.{Settles, find_path-Settles}
use godot_dn_dsimulator.Spatial.Events.{last_cell, joins, apply_move, apply_spatial_event}
use godot_dn_dsimulator.Spatial.Runtime.{
  move_entity, unchecked_event, transitions_for, transition_along, transition_for_path,
}
use godot_dn_dsimulator.Spatial.Runtime.Recorded.{move_event_lem, read_move_lem}
use godot_dn_dsimulator.Spatial.Runtime.Arrival.{last_cell-last_of}

module _ (policy : MovementPolicy) (s : SpatialState) (id : Text) (mode : MovementMode) where
  -- a path that is accepted within a budget is accepted without one
  unbounded :
      (budget : Option ℕ) (c : GridCell) (path : List GridCell) (total t : ℕ)
      → validate_steps s id mode policy budget c path total ≡ ok (true, t)
      → validate_steps s id mode policy none c path total ≡ ok (true, t)
  unfolding validate_steps
  unbounded budget c [] total t h = h
  unbounded budget c (d ∷ path) total t h =
      let (o, tried, h₁) = >>=-eq-ok (try_step s id mode policy c d) _ h in
      let (k, e, later) = counted o h₁ in
      let tried' : try_step s id mode policy c d ≡ ok (some k) = tried ∙ ap ok e in
      rw tried' (unbounded budget d path (total + k) t later)
    where
      counted :
          (o : Option ℕ)
          → count_step budget total o (validate_steps s id mode policy budget d path) ≡ ok (true, t)
          → (k : ℕ) × (o ≡ some k)
            × (validate_steps s id mode policy budget d path (total + k) ≡ ok (true, t))
      counted none h = absurd (cc (ap (λ (x : Bool × ℕ). x.0) (ok-injective h)))
      counted (some k) h =
          elim (if-eq (exceeds budget (total + k)) (ok (false, total + k))
            (validate_steps s id mode policy budget d path (total + k)) h) [
              | inl (_, over) ↦ absurd (cc (ap (λ (x : Bool × ℕ). x.0) (ok-injective over)))
              | inr (_, under) ↦ (k, refl, under)
            ]

  -- what makes an event of a move apply
  record Fits (p : SpatialPlacement) (c : GridCell) (path : List GridCell) (cost : ℕ) : Type 0 where
    stood : placement s id ≡ ok p
    starts : p.anchor ≡ c
    walked : validate_steps s id mode policy none c path 0 ≡ ok (true, cost)
    vacant : is_occupiable s p (last_cell c path) id ≡ true

  valid :
      (p : SpatialPlacement) (c : GridCell) (path : List GridCell) (cost : ℕ)
      → Fits p c path cost
      → validate_path s id (c ∷ path) mode none policy
        ≡ ok (record { legal = true; path = c ∷ path; cost_feet = cost })
  unfolding validate_path validate_from
  valid p c path cost f = rw (f.stood, f.starts, same_cell_refl c, f.walked) refl

  applies :
      (p : SpatialPlacement) (c : GridCell) (path : List GridCell) (cost : ℕ)
      → IsState s
      → Fits p c path cost
      → Returns (apply_spatial_event s (unchecked_event s id mode cost c path []) policy)
  unfolding apply_spatial_event apply_move joins
  applies p c path cost state f =
      let (s', there) =
        with_anchor-Returns s id p (last_cell c path) (s.sequence + 1) state f.stood f.vacant in
      let here : same_cell p.anchor c ≡ true = rw (f.starts) (same_cell_refl c) in
      let counted : (s.sequence + 1 == s.sequence + 1) ≡ true = ground arith in
      let priced : (cost == cost) ≡ true = ground arith in
      (
        s',
        rw
            (
              counted,
              text_eq_refl (text "entity.moved"),
              f.stood,
              read_move_lem s id mode cost c path [],
              here,
              same_cell_refl c,
              same_cell_refl (last_cell c path),
              valid p c path cost f,
              priced,
            )
            there,
      )

  transition-Returns :
      (p : SpatialPlacement) (c : GridCell) (path : List GridCell) (cost : ℕ)
      → IsState s
      → is_blank id ≡ false
      → Fits p c path cost
      → Returns (
          transition_for_path policy s id mode
            (record { legal = true; path = c ∷ path; cost_feet = cost })
            [])
  unfolding transition_for_path transition_along transitions_for
  transition-Returns p c path cost state named f =
      let (s', applied) = applies p c path cost state f in
      let result : PathResult = record { legal = true; path = c ∷ path; cost_feet = cost } in
      (
        record {
          state = s';
          event = unchecked_event s id mode cost c path [];
          path = result;
          threat_transitions = [];
        },
        rw (move_event_lem s id mode cost c path [] named, applied) refl,
      )

module _ (policy : MovementPolicy) (s : SpatialState) (actor : ActorState) (mode : MovementMode)
    (budget : Option ℕ) (p : SpatialPlacement) (v : IsPlaced s actor.actor_id policy p)
    (destination : GridCell) (speed : ℕ) where
  -- the budget of the search
  abbrev most : Option ℕ
  most = some (budget_or budget speed)

  path-Fits :
      (cells : List GridCell) (cost : ℕ)
      → same_cell destination p.anchor ≡ false
      → IsPath s actor.actor_id mode policy most p v destination cells cost
      → (path : List GridCell) × (cells ≡ p.anchor ∷ path)
        × Fits policy s actor.actor_id mode p p.anchor path cost
  path-Fits cells cost other is_path =
      let (_, allows) =
        IsPath_last s actor.actor_id mode policy most p v destination cells cost is_path other in
      (
        is_path.steps,
        is_path.starts,
        record {
          stood = v.found;
          starts = refl;
          walked =
              unbounded policy s actor.actor_id mode most p.anchor is_path.steps 0 cost
                (IsPath-steps s actor.actor_id mode policy most p v destination cells cost is_path);
          vacant =
              subst (λ x. is_occupiable s p x actor.actor_id ≡ true)
                (sym (last_cell-last_of p.anchor is_path.steps ∙ is_path.ends)) (free allows);
        },
      )
    where
      free :
          terrain_allows s p destination mode ≡ ok true
          → is_occupiable s p destination actor.actor_id ≡ true
      free allows =
          unfold terrain_allows in
          let named : p.entity_id ≡ actor.actor_id =
            unfold placement in
            find_key-key entity_key actor.actor_id s.placements p (or_raise-eq-ok _ _ v.found) in
          let (vacant, _) =
            and_then-true (ok (is_occupiable s p destination p.entity_id))
              (all_allow s.space mode (occupied_cells p destination)) allows in
          subst (λ x. is_occupiable s p destination x ≡ true) named (ok-injective vacant)

  -- a legal result of the search is carried out
  carried_out :
      (r : PathResult)
      → IsState s
      → is_blank actor.actor_id ≡ false
      → same_cell destination p.anchor ≡ false
      → IsCheapest s actor.actor_id mode policy most p v destination r
      → (cells : List GridCell) (cost : ℕ)
      → IsPath s actor.actor_id mode policy most p v destination cells cost
      → (r.legal ≡ true) × Returns (transition_for_path policy s actor.actor_id mode r [])
  carried_out _ state named other (cheapest cells cost is_path least) cells' cost' is_path' =
      let (path, e, fits) = path-Fits cells cost other is_path in
      (
        refl,
        subst
            (λ x. Returns (
              transition_for_path policy s actor.actor_id mode
                (record { legal = true; path = x; cost_feet = cost }) []))
            (sym e)
            (transition-Returns policy s actor.actor_id mode p p.anchor path cost state named fits),
      )
  carried_out _ state named other (none_found cost none_at) cells' cost' is_path' =
      absurd (none_at cells' cost' is_path')

  -- A move of an entity to another cell, where no threats are given, always succeeds if a path leads
  -- there: if the actor can move at all and the check accepts a path to the destination within the
  -- budget or the speed, then with some fuel, and with any more, `move_entity` returns one and the
  -- same transition. The state, the space, the placement and the policy have passed their checks.
  pub move_entity-Settles :
      (cells : List GridCell) (cost : ℕ)
      → IsState s
      → is_blank actor.actor_id ≡ false
      → usable_speed (Actor.movement_speed actor mode) ≡ some speed
      → same_cell destination p.anchor ≡ false
      → IsPath s actor.actor_id mode policy most p v destination cells cost
      → Settles (λ n. move_entity n policy s actor destination mode budget [])
  unfolding move_entity find_actor_path path_at_speed
  move_entity-Settles cells cost state named fast other is_path =
      let (fuel, r, settled) =
        find_path-Settles s actor.actor_id mode policy p v destination most in
      let shortest =
        find_path-IsCheapest s actor.actor_id mode policy most p v destination fuel r
          (settled fuel (omega arith)) in
      let (legal, (t, made)) = carried_out r state named other shortest cells cost is_path in
      let same : text_eq actor.actor_id p.entity_id ≡ true =
        unfold placement in
        subst (λ x. text_eq actor.actor_id x ≡ true)
          (sym (find_key-key entity_key actor.actor_id s.placements p (or_raise-eq-ok _ _ v.found)))
          (text_eq_refl actor.actor_id) in
      (fuel, t, λ n le. rw (v.found, same, fast, settled n le, legal) made)
