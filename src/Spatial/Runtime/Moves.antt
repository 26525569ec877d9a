-- ===== src/Spatial/Runtime/Moves.antt =====
-- What a move of the runtime leaves in the state.
use mathlib.Core.Path.{subst}
use godot_dn_dsimulator.Base.{
  ℕ, suc, ◌+◌, ◌≡◌, refl, sym, ap, ◌∙◌, Bool, true, none, List, [], ◌∷◌, arith, ok, >>=-eq-ok,
  ok-injective, guard, guard-eq-ok, validation_error, Bool-cases, inl, inr, ◌==◌, if-eq, ◌>>=◌,
}
use godot_dn_dsimulator.Base.Text.{Text, text, text_eq, is_blank}
use godot_dn_dsimulator.Actors.Kinds.{MovementMode}
use godot_dn_dsimulator.Spatial.Model.{GridCell, same_cell}
use godot_dn_dsimulator.Spatial.State.{SpatialPlacement, SpatialState, placement}
use godot_dn_dsimulator.Spatial.State.Moved.{HasMoved, with_anchor-HasMoved}
use godot_dn_dsimulator.Spatial.Policy.{MovementPolicy, PathResult, ThreatTransition}
use godot_dn_dsimulator.Spatial.Search.Table.{same_cell_iff}
use godot_dn_dsimulator.Spatial.Movement.{validate_path, validate_from, validate_steps, illegal}
use godot_dn_dsimulator.Spatial.Events.{
  SpatialEvent, last_cell, joins, read_move, apply_move, apply_spatial_event,
}
use godot_dn_dsimulator.Spatial.Threats.{ThreatDefinition}
use godot_dn_dsimulator.Spatial.Runtime.{
  SpatialMoveTransition, move_event, unchecked_event, transitions_for, transition_along,
  transition_for_path,
}
use godot_dn_dsimulator.Spatial.Runtime.Recorded.{move_event_lem, move_event_blank, read_move_lem}

module _ (policy : MovementPolicy) (s : SpatialState) (id : Text) (mode : MovementMode) where
  -- an event is only recorded for an entity with a name
  move_event-eq-ok :
      (cost : ℕ) (c : GridCell) (path : List GridCell) (ts : List ThreatTransition)
      {e : SpatialEvent}
      → move_event s id mode cost c path ts ≡ ok e
      → e ≡ unchecked_event s id mode cost c path ts
  unfolding move_event
  move_event-eq-ok cost c path ts h = elim (Bool-cases (is_blank id)) [
    | inr named ↦ ok-injective (sym h ∙ move_event_lem s id mode cost c path ts named)
    | inl blank ↦ absurd (cc (sym h ∙ move_event_blank s id mode cost c path ts blank))
  ]

  -- what holds once the event of a move is applied
  pub record IsMoved (c : GridCell) (path : List GridCell) (cost : ℕ) (s' : SpatialState)
      : Type 0 where
    pub entity : SpatialPlacement
    pub stood : placement s id ≡ ok entity
    pub starts : entity.anchor ≡ c
    pub legal :
        validate_path s id (c ∷ path) mode none policy
        ≡ ok (record { legal = true; path = c ∷ path; cost_feet = cost })
    pub moves : HasMoved s id entity (last_cell c path) (suc s.sequence) s'

  validate_path-path :
      (path : List GridCell) (r : PathResult)
      → validate_path s id path mode none policy ≡ ok r
      → r.path ≡ path
  unfolding validate_path validate_from
  validate_path-path path r h =
      let (p, _, h₁) = >>=-eq-ok (placement s id) _ h in from_path p path h₁
    where
      from_path :
          (p : SpatialPlacement) (path : List GridCell)
          → validate_from s id mode policy none p path ≡ ok r
          → r.path ≡ path
      from_path p [] h = ap (λ (x : PathResult). x.path) (ok-injective (sym h))
      from_path p (c ∷ path) h =
          unfold validate_from in
          elim (if-eq (same_cell c p.anchor)
            (validate_steps s id mode policy none c path 0 >>= λ (o : Bool × ℕ).
              ok (record { legal = o.0; path = c ∷ path; cost_feet = o.1 }))
            (ok (illegal (c ∷ path) 0)) h) [
              | inl (_, h₁) ↦
                  let (o, _, h₂) = >>=-eq-ok (validate_steps s id mode policy none c path 0) _ h₁ in
                  ap (λ (x : PathResult). x.path) (ok-injective (sym h₂))
              | inr (_, h₁) ↦ ap (λ (x : PathResult). x.path) (ok-injective (sym h₁))
            ]

  applied_move-IsMoved :
      (cost : ℕ) (c : GridCell) (path : List GridCell) (ts : List ThreatTransition)
      (s' : SpatialState) (p : SpatialPlacement)
      → placement s id ≡ ok p
      → apply_move s (unchecked_event s id mode cost c path ts) policy p (record {
        from_anchor = c;
        to_anchor = last_cell c path;
        path = c ∷ path;
        mode = mode;
        cost_feet = cost;
      })
        ≡ ok s'
      → IsMoved c path cost s'
  unfolding apply_move
  applied_move-IsMoved cost c path ts s' p stood h =
      let (_, same, h₁) = >>=-eq-ok (guard (same_cell p.anchor c) validation_error) _ h in
      let (_, _, h₂) =
        >>=-eq-ok (guard (joins (c ∷ path) c (last_cell c path)) validation_error) _ h₁ in
      let (r, valid, h₃) = >>=-eq-ok (validate_path s id (c ∷ path) mode none policy) _ h₂ in
      let (_, legal, h₄) = >>=-eq-ok (guard r.legal validation_error) _ h₃ in
      let (_, priced, h₅) = >>=-eq-ok (guard (r.cost_feet == cost) validation_error) _ h₄ in
      let is_legal : r.legal ≡ true = guard-eq-ok r.legal validation_error legal in
      let is_cost : (r.cost_feet == cost) ≡ true =
        guard-eq-ok (r.cost_feet == cost) validation_error priced in
      record {
        entity = p;
        stood = stood;
        starts =
            (same_cell_iff p.anchor c).0 (guard-eq-ok (same_cell p.anchor c) validation_error same);
        legal =
            valid
            ∙ ap ok (result_eq r is_legal (validate_path-path (c ∷ path) r valid) (ground arith));
        moves =
            subst (λ n. HasMoved s id p (last_cell c path) n s') (omega arith)
              (with_anchor-HasMoved s id (last_cell c path) (s.sequence + 1) p s' stood h₅);
      }
    where
      result_eq :
          (r : PathResult)
          → r.legal ≡ true
          → r.path ≡ c ∷ path
          → r.cost_feet ≡ cost
          → r ≡ record { legal = true; path = c ∷ path; cost_feet = cost }
      result_eq r a b d = rw (a, b, d) refl

  applied-IsMoved :
      (cost : ℕ) (c : GridCell) (path : List GridCell) (ts : List ThreatTransition)
      (s' : SpatialState)
      → apply_spatial_event s (unchecked_event s id mode cost c path ts) policy ≡ ok s'
      → IsMoved c path cost s'
  unfolding apply_spatial_event apply_move
  applied-IsMoved cost c path ts s' h =
      let e = unchecked_event s id mode cost c path ts in
      let (_, _, h₁) = >>=-eq-ok (guard (e.sequence == s.sequence + 1) validation_error) _ h in
      let (_, _, h₂) =
        >>=-eq-ok (guard (text_eq e.event_type (text "entity.moved")) validation_error) _ h₁ in
      let (p, stood, h₃) = >>=-eq-ok (placement s id) _ h₂ in
      let (m, reads, h₄) = >>=-eq-ok (read_move e) _ h₃ in
      let same : m ≡ _ = ok-injective (sym reads ∙ read_move_lem s id mode cost c path ts) in
      applied_move-IsMoved cost c path ts s' p stood
        (subst (λ x. apply_move s e policy p x ≡ ok s') same h₄)

  -- a transition along a path takes the entity to its last cell
  pub transition_for_path-IsMoved :
      (result : PathResult) (threats : List ThreatDefinition) (t : SpatialMoveTransition)
      → transition_for_path policy s id mode result threats ≡ ok t
      → (c : GridCell) × (path : List GridCell) × (result.path ≡ c ∷ path)
        × (result.legal ≡ true)
        × (t.path ≡ result)
        × IsMoved c path result.cost_feet t.state
        × (apply_spatial_event s t.event policy ≡ ok t.state)
  unfolding transition_for_path transition_along
  transition_for_path-IsMoved result threats t h =
      let (_, legal, h₁) = >>=-eq-ok (guard result.legal validation_error) _ h in
      along result.path refl (guard-eq-ok result.legal validation_error legal) h₁
    where
      along :
          (cells : List GridCell)
          → result.path ≡ cells
          → result.legal ≡ true
          → transition_along policy s id mode result threats cells ≡ ok t
          → (c : GridCell) × (path : List GridCell) × (result.path ≡ c ∷ path)
            × (result.legal ≡ true)
            × (t.path ≡ result)
            × IsMoved c path result.cost_feet t.state
            × (apply_spatial_event s t.event policy ≡ ok t.state)
      along [] e legal h = unfold transition_along in absurd (cc h)
      along (c ∷ path) e legal h =
          unfold transition_along in
          let (ts, _, h₁) = >>=-eq-ok (transitions_for s id (c ∷ path) threats) _ h in
          let (event, made, h₂) =
            >>=-eq-ok (move_event s id mode result.cost_feet c path ts) _ h₁ in
          let (s', applied, h₃) = >>=-eq-ok (apply_spatial_event s event policy) _ h₂ in
          let is_event = move_event-eq-ok result.cost_feet c path ts made in
          let applied' = subst (λ x. apply_spatial_event s x policy ≡ ok s') is_event applied in
          let moved = applied-IsMoved result.cost_feet c path ts s' applied' in
          (
            c,
            path,
            e,
            legal,
            ap (λ (x : SpatialMoveTransition). x.path) (ok-injective (sym h₃)),
            subst (IsMoved c path result.cost_feet)
                (ap (λ (x : SpatialMoveTransition). x.state) (ok-injective h₃)) moved,
            subst (λ (x : SpatialMoveTransition). apply_spatial_event s x.event policy ≡ ok x.state)
                (ok-injective h₃) applied,
          )
