-- ===== src/Rules/Facade.antt =====
-- rules/runtime.py: the calls of `RulesRuntime` beside the d20 test, each behind the capabilities
-- that it needs.
use godot_dn_dsimulator.Base.{
  Bool, true, false, Option, none, some, List, [], ◌∷◌, Result, ok, err, validation_error, guard,
  ◌>>◌,
}
use godot_dn_dsimulator.Base.Int.{ℤ}
use godot_dn_dsimulator.Base.Text.{Text, text}
use godot_dn_dsimulator.Rng.{DeterministicRng}
use godot_dn_dsimulator.Rules.Primitives.{AbilityScore, D20TestKind, saving_throw, ResourceCost}
use godot_dn_dsimulator.Rules.State.{RuleSubjectState, RuleWorldState}
use godot_dn_dsimulator.Rules.Modifiers.{RuleModifier}
use godot_dn_dsimulator.Rules.Resources.{ResourceSpendResult, spend_costs}
use godot_dn_dsimulator.Rules.Runtime.{
  RulesetCapabilities, require, ResolutionContext, D20Outcome, resolve_d20,
}
use godot_dn_dsimulator.Rules.Targets.{TargetSelector, select_targets}
use godot_dn_dsimulator.Rules.Requirements.{Requirement, RequirementResult, evaluate_requirements}
use godot_dn_dsimulator.Rules.Effects.{RuleEffect, EffectBatchResult, apply_effects}
use godot_dn_dsimulator.Rules.Hooks.{ReactionHook, ReactionMatch, RuleEventView, collect_reactions}

abbrev pub is_save : D20TestKind → Bool
is_save saving_throw = true
is_save _ = false

abbrev pub is_some {ℓ} : {A : Type ℓ} → Option A → Bool
is_some none = false
is_some (some a) = true

-- the two checks of `resolve_save`
unfoldable pub check_save : ResolutionContext → Result (Unit {0})
check_save c = do
  guard (is_save c.test_kind) validation_error
  guard (is_some c.difficulty_class) validation_error

unfoldable pub after_check :
    Result (Unit {0})
    → DeterministicRng
    → Result D20Outcome × DeterministicRng
    → Result D20Outcome × DeterministicRng
after_check (err e) rng outcome = (err e, rng)
after_check (ok _) rng outcome = outcome

-- `RulesRuntime.resolve_save`
unfoldable pub resolve_save :
    RulesetCapabilities
    → DeterministicRng
    → ResolutionContext
    → AbilityScore
    → ℤ
    → List RuleModifier
    → ℤ
    → ℤ
    → Result D20Outcome × DeterministicRng
unfolding check_save after_check
resolve_save capabilities rng c score bonus modifiers advantages disadvantages =
    after_check (check_save c) rng
      (resolve_d20 capabilities rng c score bonus modifiers advantages disadvantages)

-- `RulesRuntime.spend_resources`
unfoldable pub spend_resources :
    RulesetCapabilities → RuleSubjectState → List ResourceCost → Result ResourceSpendResult
spend_resources capabilities s costs = do
  require capabilities (text "resources" ∷ [])
  spend_costs s costs

-- `RulesRuntime.check_requirements`
unfoldable pub check_requirements :
    RulesetCapabilities → RuleSubjectState → List Requirement → Result RequirementResult
check_requirements capabilities s requirements = do
  require capabilities (text "requirements" ∷ [])
  ok (evaluate_requirements requirements s capabilities)

-- `RulesRuntime.targets`
unfoldable pub targets :
    RulesetCapabilities → RuleWorldState → Text → TargetSelector → Result (List RuleSubjectState)
targets capabilities world source_id s = do
  require capabilities (text "target_selectors" ∷ [])
  select_targets s world source_id

-- `RulesRuntime.apply_effects`
unfoldable pub run_effects :
    RulesetCapabilities → RuleWorldState → Text → List RuleEffect → Result EffectBatchResult
run_effects capabilities world source_id effects = do
  require capabilities (text "effects" ∷ text "conditions" ∷ [])
  apply_effects world source_id effects

-- `RulesRuntime.reactions`
unfoldable pub reactions :
    RulesetCapabilities
    → RuleEventView
    → List ReactionHook
    → RuleWorldState
    → Result (List ReactionMatch)
reactions capabilities e hooks world = do
  require capabilities (text "reactions" ∷ [])
  collect_reactions e hooks world capabilities
