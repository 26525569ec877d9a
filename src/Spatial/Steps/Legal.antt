-- ===== src/Spatial/Steps/Legal.antt =====
-- What a legal step between two cells is.
use mathlib.Core.Path.{subst}
use godot_dn_dsimulator.Base.{
  ℕ, ◌≡◌, refl, sym, ap, ◌∙◌, Bool, true, false, not, ◌||◌, some, none, if-eq, inl, inr, Result, ok,
  err, >>=-eq-ok, ok-injective, guard, validation_error, ◌>>=◌,
}
use godot_dn_dsimulator.Base.Text.{Text}
use godot_dn_dsimulator.Actors.Kinds.{MovementMode}
use godot_dn_dsimulator.Spatial.Model.{GridCell, same_cell, contains}
use godot_dn_dsimulator.Spatial.State.{
  SpatialPlacement, SpatialState, placement, occupied_cells, is_occupiable,
}
use godot_dn_dsimulator.Spatial.Policy.{MovementPolicy}
use godot_dn_dsimulator.Spatial.Steps.{
  ◌and_then◌, terrain_allows, all_allow, is_diagonal, is_near, move_is_legal, step_is_legal,
  footing, footing_cost, move_cost, step_cost, try_step,
}

pub and_then-true : (m n : Result Bool) → (m and_then n) ≡ ok true → (m ≡ ok true) × (n ≡ ok true)
and_then-true (ok true) n h = (refl, h)
and_then-true (ok false) n h = absurd (cc h)
and_then-true (err e) n h = absurd (cc h)

module _ (s : SpatialState) (entity_id : Text) (mode : MovementMode) (policy : MovementPolicy)
    (p : SpatialPlacement) (found : placement s entity_id ≡ ok p) where
  -- a step to another cell that is legal
  pub record IsStep (u v : GridCell) : Type 0 where
    pub near : is_near u v ≡ true
    pub diagonal : (not (is_diagonal u v) || policy.allow_diagonal) ≡ true
    pub inside : contains s.space v ≡ true
    pub allows : terrain_allows s p v mode ≡ ok true
    pub free : is_occupiable s p v p.entity_id ≡ true

  move-IsStep : (u v : GridCell) → move_is_legal s p u v mode policy ≡ ok true → IsStep u v
  unfolding move_is_legal terrain_allows
  move-IsStep u v legal =
      let (near, l₁) = and_then-true (ok (is_near u v)) _ legal in
      let (diagonal, l₂) =
        and_then-true (ok (not (is_diagonal u v) || policy.allow_diagonal)) _ l₁ in
      let (inside, l₃) = and_then-true (ok (contains s.space v)) _ l₂ in
      let (allows, _) = and_then-true (terrain_allows s p v mode) _ l₃ in
      let (free, _) =
        and_then-true (ok (is_occupiable s p v p.entity_id))
          (all_allow s.space mode (occupied_cells p v)) allows in
      record {
        near = ok-injective near;
        diagonal = ok-injective diagonal;
        inside = ok-injective inside;
        allows = allows;
        free = ok-injective free;
      }

  pub legal-IsStep :
      (u v : GridCell)
      → step_is_legal s entity_id u v mode policy ≡ ok true
      → same_cell u v ≡ false
      → IsStep u v
  unfolding step_is_legal
  legal-IsStep u v legal other = move-IsStep u v (sym (rw (found, other) refl) ∙ legal)

  -- the step that is tried is legal, and costs what its footing costs
  pub try_step-eq-some :
      (u v : GridCell) (k : ℕ)
      → try_step s entity_id mode policy u v ≡ ok (some k)
      → (step_is_legal s entity_id u v mode policy ≡ ok true)
        × (step_cost s entity_id u v mode policy ≡ ok k)
  unfolding try_step
  try_step-eq-some u v k tried =
      let (legal, asked, rest) = >>=-eq-ok (step_is_legal s entity_id u v mode policy) _ tried in
      elim (if-eq legal (step_cost s entity_id u v mode policy >>= λ cost. ok (some cost)) (ok none)
        rest) [
          | inl (yes_legal, costs) ↦
              let (cost, costed, e) = >>=-eq-ok (step_cost s entity_id u v mode policy) _ costs in
              (asked ∙ ap ok yes_legal, costed ∙ ap ok (some_injective (ok-injective e)))
          | inr (_, nothing) ↦ absurd (cc nothing)
        ]
    where
      some_injective : {a b : ℕ} → some a ≡ some b → a ≡ b
      some_injective e = cc

  pub step_cost-footing :
      (u v : GridCell) (k : ℕ)
      → step_cost s entity_id u v mode policy ≡ ok k
      → same_cell u v ≡ false
      → (walked : ℕ × Bool) × (footing s.space u v 0 false p.footprint ≡ ok walked)
        × (footing_cost s.space mode policy walked ≡ k)
  unfolding step_cost move_cost
  step_cost-footing u v k costed other =
      let (legal, _, rest) = >>=-eq-ok (step_is_legal s entity_id u v mode policy) _ costed in
      let (_, _, rest') = >>=-eq-ok (guard legal validation_error) _ rest in
      let moves : (placement s entity_id >>= λ p'.
      footing s.space u v 0 false p'.footprint >>= λ walked.
      ok (footing_cost s.space mode policy walked))
          ≡ ok k =
        rw other at rest' in
      let (p', found', rest'') = >>=-eq-ok (placement s entity_id) _ moves in
      let same : p' ≡ p = ok-injective (sym found' ∙ found) in
      let (walked, foots, cost) = >>=-eq-ok (footing s.space u v 0 false p'.footprint) _ rest'' in
      (
        walked,
        subst (λ (x : SpatialPlacement). footing s.space u v 0 false x.footprint ≡ ok walked) same
            foots,
        ok-injective cost,
      )
