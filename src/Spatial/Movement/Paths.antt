-- ===== src/Spatial/Movement/Paths.antt =====
-- Paths that the check accepts, as the walks of a search.
use mathlib.Core.Path.{subst}
use godot_dn_dsimulator.Base.{
  ℕ, ◌+◌, ◌≡◌, refl, sym, ap, ◌∙◌, Bool, true, false, Option, some, none, List, [], ◌∷◌, arith,
  if-eq, Bool-cases, inl, inr, Result, ok, >>=-eq-ok, ok-injective, guard, validation_error,
}
use godot_dn_dsimulator.Base.Text.{Text}
use godot_dn_dsimulator.Actors.Kinds.{MovementMode}
use godot_dn_dsimulator.Spatial.Model.{GridCell, same_cell}
use godot_dn_dsimulator.Spatial.State.{SpatialPlacement, SpatialState}
use godot_dn_dsimulator.Spatial.Policy.{MovementPolicy}
use godot_dn_dsimulator.Spatial.Geometry.{neighboring_cells}
use godot_dn_dsimulator.Spatial.Search.{Search, is_within}
use godot_dn_dsimulator.Spatial.Search.Table.{same_cell_iff}
use godot_dn_dsimulator.Spatial.Search.Walks.{Walk, go, Chain, last, step}
use godot_dn_dsimulator.Spatial.Search.Best.{is_within_le}
use godot_dn_dsimulator.Spatial.Steps.{step_is_legal, step_cost, try_step}
use godot_dn_dsimulator.Spatial.Steps.Neighbors.{near-neighbor}
use godot_dn_dsimulator.Spatial.Steps.Legal.{legal-IsStep, try_step-eq-some}
use godot_dn_dsimulator.Spatial.Movement.{exceeds, count_step, validate_steps}
use godot_dn_dsimulator.Spatial.Movement.Sound.{IsPlaced}
use godot_dn_dsimulator.Spatial.Movement.Total.{Inside, surrounded, kept}

-- the last cell of a path
abbrev pub last_of : GridCell → List GridCell → GridCell
last_of c [] = c
last_of c (d ∷ path) = last_of d path

exceeds_within : (budget : Option ℕ) (n : ℕ) → is_within budget n ≡ true → exceeds budget n ≡ false
exceeds_within none n w = refl
exceeds_within (some b) n w = ground arith

within_exceeds : (budget : Option ℕ) (n : ℕ) → exceeds budget n ≡ false → is_within budget n ≡ true
within_exceeds none n e = refl
within_exceeds (some b) n e = ground arith

module _ (s : SpatialState) (entity_id : Text) (mode : MovementMode) (policy : MovementPolicy)
    (p : SpatialPlacement) (v : IsPlaced s entity_id policy p) (q : Search)
    (neighbors : (c : GridCell) → q.neighbors c ≡ neighboring_cells s.space c policy.allow_diagonal)
    (steps : (c d : GridCell) → q.step c d ≡ try_step s entity_id mode policy c d) where
  -- The check accepts a path of legal steps within the budget, with its cost.
  pub Chain-validate_steps :
      (budget : Option ℕ) {d c : GridCell} {path : List GridCell} {n : ℕ} (total t : ℕ)
      → Chain q d c path n
      → total + n ≡ t
      → is_within budget t ≡ true
      → validate_steps s entity_id mode policy budget c path total ≡ ok (true, t)
  unfolding validate_steps
  Chain-validate_steps budget total t last e within = ap (λ x. ok (true, x)) (omega arith)
  Chain-validate_steps budget total t (step {u = c} {v = d} {k = k} edge chain sum) e within =
      let tried : try_step s entity_id mode policy c d ≡ ok (some k) =
        sym (steps c d) ∙ edge.step in
      let under : exceeds budget (total + k) ≡ false =
        exceeds_within budget (total + k)
          (is_within_le budget (total + k) t (omega arith) within) in
      rw (tried, under) (Chain-validate_steps budget (total + k) t chain (omega arith) within)

  -- a step that the check accepts, as a part of a walk
  accepted :
      {a : GridCell} (c d : GridCell) (total k : ℕ)
      → Inside s entity_id mode policy p v c
      → Walk q a c total
      → try_step s entity_id mode policy c d ≡ ok (some k)
      → Walk q a d (total + k)
  accepted {a} c d total k inside walk tried = elim (Bool-cases (same_cell c d)) [
    | inl same ↦
        let (_, costed) = try_step-eq-some s entity_id mode policy p v.found c d k tried in
        let free : k ≡ 0 = no_cost costed same in
        let e : c ≡ d = (same_cell_iff c d).0 same in
        subst (λ x. Walk q a x (total + k)) e (subst (Walk q a c) (omega arith) walk)
    | inr other ↦
        let (legal, _) = try_step-eq-some s entity_id mode policy p v.found c d k tried in
        let moves = legal-IsStep s entity_id mode policy p v.found c d legal other in
        let (around, ns, _) = surrounded s entity_id mode policy p v c inside in
        go walk
          (record {
            around = around;
            neighbors = neighbors c ∙ ns;
            near =
                near-neighbor s.space c policy.allow_diagonal around ns d moves.inside moves.near
                  other moves.diagonal;
            step = steps c d ∙ tried;
          })
          refl
  ]
    where
      no_cost : step_cost s entity_id c d mode policy ≡ ok k → same_cell c d ≡ true → k ≡ 0
      no_cost costed same =
          unfold step_cost in
          let (legal, _, rest) = >>=-eq-ok (step_is_legal s entity_id c d mode policy) _ costed in
          let (_, _, rest') = >>=-eq-ok (guard legal validation_error) _ rest in
          let free : ok 0 ≡ ok k = rw same at rest' in sym (ok-injective free)

  -- A path that the check accepts is a walk of its cost, within the budget.
  pub validate_steps-Walk :
      (budget : Option ℕ) {a : GridCell} (c : GridCell) (path : List GridCell) (total t : ℕ)
      → Inside s entity_id mode policy p v c
      → Walk q a c total
      → is_within budget total ≡ true
      → validate_steps s entity_id mode policy budget c path total ≡ ok (true, t)
      → Walk q a (last_of c path) t × (is_within budget t ≡ true)
  unfolding validate_steps
  validate_steps-Walk budget {a} c [] total t inside walk within h =
      let e : total ≡ t = ap (λ x. x.1) (ok-injective h) in
      (subst (Walk q a c) e walk, subst (λ x. is_within budget x ≡ true) e within)
  validate_steps-Walk budget {a} c (d ∷ path) total t inside walk within h =
      let (o, tried, rest) = >>=-eq-ok (try_step s entity_id mode policy c d) _ h in
      let (k, e, under, rest') =
        counted o (validate_steps s entity_id mode policy budget d path) rest in
      let tried' : try_step s entity_id mode policy c d ≡ ok (some k) = tried ∙ ap ok e in
      validate_steps-Walk budget d path (total + k) t
        (kept s entity_id mode policy p v c d k inside tried')
        (accepted c d total k inside walk tried') (within_exceeds budget (total + k) under) rest'
    where
      counted :
          (o : Option ℕ) (later : ℕ → Result (Bool × ℕ))
          → count_step budget total o later ≡ ok (true, t)
          → (k : ℕ) × (o ≡ some k)
            × (exceeds budget (total + k) ≡ false)
            × (later (total + k) ≡ ok (true, t))
      counted none later h = absurd (cc (ap (λ x. x.0) (ok-injective h)))
      counted (some k) later h =
          elim (if-eq (exceeds budget (total + k)) (ok (false, total + k)) (later (total + k)) h) [
            | inl (_, over) ↦ absurd (cc (ap (λ x. x.0) (ok-injective over)))
            | inr (under, rest) ↦ (k, refl, under, rest)
          ]
