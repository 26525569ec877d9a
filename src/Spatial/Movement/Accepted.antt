-- ===== src/Spatial/Movement/Accepted.antt =====
-- The paths to a cell that `validate_path` accepts.
use mathlib.Core.Path.{subst}
use godot_dn_dsimulator.Base.{
  ℕ, ◌≡◌, refl, sym, ap, ◌∙◌, Bool, true, Option, some, none, List, ◌∷◌, arith, ok, >>=-eq-ok,
  ok-injective, ◌>>=◌,
}
use godot_dn_dsimulator.Base.Text.{Text}
use godot_dn_dsimulator.Actors.Kinds.{MovementMode}
use godot_dn_dsimulator.Spatial.Model.{GridCell}
use godot_dn_dsimulator.Spatial.State.{SpatialPlacement, SpatialState}
use godot_dn_dsimulator.Spatial.Policy.{MovementPolicy, PathResult}
use godot_dn_dsimulator.Spatial.Search.{Search, is_within}
use godot_dn_dsimulator.Spatial.Search.Table.{same_cell_refl}
use godot_dn_dsimulator.Spatial.Search.Walks.{Walk, stay, Chain, last, step}
use godot_dn_dsimulator.Spatial.Steps.{try_step}
use godot_dn_dsimulator.Spatial.Movement.{validate_steps, validate_from, validate_path}
use godot_dn_dsimulator.Spatial.Movement.Sound.{IsPlaced}
use godot_dn_dsimulator.Spatial.Movement.Paths.{last_of, Chain-validate_steps, validate_steps-Walk}
use godot_dn_dsimulator.Spatial.Geometry.{neighboring_cells}

module _ (s : SpatialState) (entity_id : Text) (mode : MovementMode) (policy : MovementPolicy)
    (budget : Option ℕ) (p : SpatialPlacement) (v : IsPlaced s entity_id policy p)
    (destination : GridCell) where
  -- the check accepts a path to the destination, at a cost
  pub record IsPath (path : List GridCell) (cost : ℕ) : Type 0 where
    pub steps : List GridCell
    pub starts : path ≡ p.anchor ∷ steps
    pub ends : last_of p.anchor steps ≡ destination
    pub accepted :
        validate_path s entity_id path mode budget policy
        ≡ ok (record { legal = true; path = path; cost_feet = cost })

  validate_path_lem :
      (c : GridCell) (path : List GridCell)
      → validate_path s entity_id (c ∷ path) mode budget policy
        ≡ validate_from s entity_id mode policy budget p (c ∷ path)
  unfolding validate_path
  validate_path_lem c path = rw (v.found)

  -- its steps pass the checks one after another
  pub IsPath-steps :
      (path : List GridCell) (cost : ℕ) (is_path : IsPath path cost)
      → validate_steps s entity_id mode policy budget p.anchor is_path.steps 0 ≡ ok (true, cost)
  unfolding validate_from
  IsPath-steps path cost is_path =
      let accepted =
        subst
          (λ x.
            validate_path s entity_id x mode budget policy
            ≡ ok (record { legal = true; path = x; cost_feet = cost }))
          is_path.starts is_path.accepted in
      let from = sym (validate_path_lem p.anchor is_path.steps) ∙ accepted in
      let from' : (validate_steps s entity_id mode policy budget p.anchor is_path.steps 0 >>= λ r.
      ok (record { legal = r.0; path = p.anchor ∷ is_path.steps; cost_feet = r.1 }))
          ≡ ok (record { legal = true; path = p.anchor ∷ is_path.steps; cost_feet = cost }) =
        rw (same_cell_refl p.anchor) at from in
      let (outcome, stepped, e) =
        >>=-eq-ok (validate_steps s entity_id mode policy budget p.anchor is_path.steps 0) _
          from' in
      let is_legal : outcome.0 ≡ true = ap (λ (r : PathResult). r.legal) (ok-injective e) in
      let is_cost : outcome.1 ≡ cost = ap (λ (r : PathResult). r.cost_feet) (ok-injective e) in
      stepped ∙ ap ok (pair_eq outcome is_legal is_cost)
    where
      pair_eq : (x : Bool × ℕ) → x.0 ≡ true → x.1 ≡ cost → x ≡ (true, cost)
      pair_eq (b, n) e f = rw (e, f)

module _ (s : SpatialState) (entity_id : Text) (mode : MovementMode) (policy : MovementPolicy)
    (budget : Option ℕ) (p : SpatialPlacement) (v : IsPlaced s entity_id policy p)
    (destination : GridCell) (q : Search)
    (neighbors : (c : GridCell) → q.neighbors c ≡ neighboring_cells s.space c policy.allow_diagonal)
    (steps : (c d : GridCell) → q.step c d ≡ try_step s entity_id mode policy c d) where
  -- an accepted path is a walk of the search
  pub IsPath-Walk :
      (path : List GridCell) (cost : ℕ)
      → IsPath s entity_id mode policy budget p v destination path cost
      → Walk q p.anchor destination cost × (is_within budget cost ≡ true)
  IsPath-Walk path cost is_path =
      let (walk, within) =
        validate_steps-Walk s entity_id mode policy p v q neighbors steps budget p.anchor
          is_path.steps 0 cost v.inside stay (free budget)
          (IsPath-steps s entity_id mode policy budget p v destination path cost is_path) in
      (subst (λ x. Walk q p.anchor x cost) is_path.ends walk, within)
    where
      free : (budget : Option ℕ) → is_within budget 0 ≡ true
      free none = refl
      free (some b) = ground arith

  Chain-last :
      {d c : GridCell} {path : List GridCell} {n : ℕ} → Chain q d c path n → last_of c path ≡ d
  Chain-last last = refl
  Chain-last (step edge chain e) = Chain-last chain

  -- a path of legal steps within the budget is accepted
  pub Chain-IsPath :
      (rest : List GridCell) (cost : ℕ)
      → Chain q destination p.anchor rest cost
      → is_within budget cost ≡ true
      → IsPath s entity_id mode policy budget p v destination (p.anchor ∷ rest) cost
  unfolding validate_from
  Chain-IsPath rest cost chain within = record {
    steps = rest;
    starts = refl;
    ends = Chain-last chain;
    accepted =
        validate_path_lem s entity_id mode policy budget p v destination p.anchor rest
        ∙ rw (same_cell_refl p.anchor) (
            ap
              (λ r. r >>= λ x. ok (record { legal = x.0; path = p.anchor ∷ rest; cost_feet = x.1 }))
              (Chain-validate_steps s entity_id mode policy p v q neighbors steps budget 0 cost
                chain (omega arith) within));
  }
