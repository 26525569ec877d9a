-- ===== src/Rules/Requirements.antt =====
-- rules/requirements.py: what a subject must have before an action, an effect or a reaction.
use godot_dn_dsimulator.Base.{◌≡◌, refl, arith}
use godot_dn_dsimulator.Base.{
  ℕ, Bool, true, false, not, Option, none, some, List, [], ◌∷◌, all, Result, ok, validation_error,
  guard, ◌>>◌, map, filter,
}
use godot_dn_dsimulator.Base.Int.{pos, leb_ℤ}
use godot_dn_dsimulator.Base.Text.{Text, is_blank}
use godot_dn_dsimulator.Rules.Primitives.{ResourcePool}
use godot_dn_dsimulator.Rules.State.{RuleSubjectState, resource, has_condition}
use godot_dn_dsimulator.Rules.Runtime.{RulesetCapabilities, supports}
use godot_dn_dsimulator.Rules.Targets.{has_tag}

pub data RequirementKind : Type 0 where
  tag_present tag_absent resource_at_least condition_present condition_absent capability :
      RequirementKind

pub record Requirement : Type 0 where
  pub requirement_id : Text
  pub kind : RequirementKind
  pub key : Text
  pub minimum : ℕ

unfoldable pub requirement : Requirement → Result Requirement
requirement r = do
  guard (not (is_blank r.requirement_id)) validation_error
  guard (not (is_blank r.key)) validation_error
  ok r

pub record RequirementResult : Type 0 where
  pub passed : Bool
  pub failed_requirement_ids : List Text

abbrev pub holds_at_least : Option ResourcePool → ℕ → Bool
holds_at_least none minimum = false
holds_at_least (some pool) minimum = leb_ℤ (pos minimum) pool.current

-- the tests on `requirement.kind`
unfoldable pub passes_kind :
    RequirementKind → Text → ℕ → RuleSubjectState → RulesetCapabilities → Bool
passes_kind tag_present key minimum s c = has_tag s.tags key
passes_kind tag_absent key minimum s c = not (has_tag s.tags key)
passes_kind condition_present key minimum s c = has_condition s key
passes_kind condition_absent key minimum s c = not (has_condition s key)
passes_kind capability key minimum s c = supports c key
passes_kind resource_at_least key minimum s c = holds_at_least (resource s key) minimum

unfoldable pub requirement_passes : Requirement → RuleSubjectState → RulesetCapabilities → Bool
unfolding passes_kind
requirement_passes r s c = passes_kind r.kind r.key r.minimum s c

abbrev pub no_items {ℓ} : {A : Type ℓ} → List A → Bool
no_items [] = true
no_items (x ∷ xs) = false

abbrev pub requirement_id_of : Requirement → Text
requirement_id_of r = r.requirement_id

unfoldable pub evaluate_requirements :
    List Requirement → RuleSubjectState → RulesetCapabilities → RequirementResult
evaluate_requirements requirements s c =
    let failed =
      map requirement_id_of (filter (λ r. not (requirement_passes r s c)) requirements) in
    record { passed = no_items failed; failed_requirement_ids = failed }

-- The requirements pass together just if each of them passes.
pub evaluate_requirements-all :
    (requirements : List Requirement) (s : RuleSubjectState) (c : RulesetCapabilities)
    → (evaluate_requirements requirements s c).passed
      ≡ all (λ r. requirement_passes r s c) requirements
unfolding evaluate_requirements
evaluate_requirements-all [] s c = refl
evaluate_requirements-all (r ∷ rs) s c = ground (arith, evaluate_requirements-all rs s c)
