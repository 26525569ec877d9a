-- ===== src/Rules/Runtime.antt =====
-- rules/capabilities.py, and the d20 tests of rules/runtime.py. A call that rolls returns its result
-- beside the generator that it leaves, on its error paths too.
use godot_dn_dsimulator.Base.{
  ℕ, zero, suc, Bool, not, Option, none, some, List, [], ◌∷◌, all, any, min, max, Result, ok, err,
  validation_error, guard, ◌>>=◌, ◌>>◌,
}
use godot_dn_dsimulator.Base.Int.{ℤ, pos, ◌+ℤ◌, leb_ℤ}
use godot_dn_dsimulator.Base.Text.{Text, text, text_eq, is_blank, is_empty}
use godot_dn_dsimulator.Rng.{DeterministicRng}
use godot_dn_dsimulator.Dice.{DiceExpression, roll_expression, algorithm}
use godot_dn_dsimulator.Rules.Primitives.{
  Ability, ability_value, AbilityScore, ability_modifier, ProficiencyRank, apply_rank, D20TestKind,
  attack_roll, RollMode, normal, advantage, disadvantage, from_sources, DifficultyClass,
}
use godot_dn_dsimulator.Rules.Modifiers.{RuleModifier, ModifierResolution, resolve_modifiers}
use godot_dn_dsimulator.Rules.State.{is_named}

pub record RulesetCapabilities : Type 0 where
  pub ruleset_id : Text
  pub ruleset_version : Text
  pub supported : List Text

unfoldable pub ruleset_capabilities : RulesetCapabilities → Result RulesetCapabilities
ruleset_capabilities c = do
  guard (not (is_blank c.ruleset_id)) validation_error
  guard (not (is_blank c.ruleset_version)) validation_error
  guard (all (λ name. not (is_empty name)) c.supported) validation_error
  ok c

-- `RulesetCapabilities.supports`
unfoldable pub supports : RulesetCapabilities → Text → Bool
supports c capability = any (text_eq capability) c.supported

-- `RulesetCapabilities.require`
unfoldable pub require : RulesetCapabilities → List Text → Result (Unit {0})
require c names = guard (all (supports c) names) validation_error

abbrev pub core_capabilities : RulesetCapabilities
core_capabilities = record {
  ruleset_id = text "wotc-srd-5.2.1-en";
  ruleset_version = text "5.2.1";
  supported =
      text "d20_tests"
      ∷ text "advantage_disadvantage"
      ∷ text "modifier_pipeline"
      ∷ text "resources"
      ∷ text "requirements"
      ∷ text "target_selectors"
      ∷ text "effects"
      ∷ text "durations"
      ∷ text "conditions"
      ∷ text "reactions"
      ∷ [];
}

pub record ResolutionContext : Type 0 where
  pub context_id : Text
  pub test_kind : D20TestKind
  pub actor_id : Text
  pub ability : Ability
  pub proficiency_rank : ProficiencyRank
  pub difficulty_class : Option DifficultyClass
  pub target_id : Option Text
  pub reason : Text
  pub tags : List Text

unfoldable pub resolution_context : ResolutionContext → Result ResolutionContext
resolution_context c = do
  guard (not (is_blank c.context_id)) validation_error
  guard (not (is_blank c.actor_id)) validation_error
  guard (is_named c.target_id) validation_error
  guard (not (is_blank c.reason)) validation_error
  ok c

pub record D20Outcome : Type 0 where
  pub context : ResolutionContext
  pub roll_mode : RollMode
  pub raw_rolls : List ℕ
  pub selected_roll : ℕ
  pub ability_modifier : ℤ
  pub proficiency_modifier : ℤ
  pub modifier_resolution : ModifierResolution
  pub total : ℤ
  pub success : Option Bool
  pub rng_algorithm : Text

abbrev pub d20 : DiceExpression
d20 = record { count = 1; sides = 20; modifier = pos 0 }

-- `raw_rolls[0]` of a roll of one die
abbrev pub first_face : List ℕ → ℕ
first_face [] = 0
first_face (face ∷ _) = face

-- one roll of the die
unfoldable pub roll_d20 : ResolutionContext → DeterministicRng → Result (ℕ × DeterministicRng)
roll_d20 c rng = do
  (roll, rng') ← roll_expression d20 rng c.reason (some c.actor_id) c.target_id
  ok (first_face roll.raw_rolls, rng')

abbrev pub roll_count : RollMode → ℕ
roll_count normal = 1
roll_count _ = 2

-- the comprehension over `range(roll_count)`, with the generator that is left if a roll raises
unfoldable pub roll_d20s :
    ℕ → ResolutionContext → DeterministicRng → Result (List ℕ × DeterministicRng)
roll_d20s zero c rng = ok ([], rng)
roll_d20s (suc n) c rng = do
  (face, rng') ← roll_d20 c rng
  (faces, rng'') ← roll_d20s n c rng'
  ok (face ∷ faces, rng'')

-- the faces' choice by the mode
unfoldable pub select_roll : RollMode → List ℕ → ℕ
select_roll mode [] = 0
select_roll mode (a ∷ []) = a
select_roll advantage (a ∷ b ∷ _) = max a b
select_roll disadvantage (a ∷ b ∷ _) = min a b
select_roll normal (a ∷ b ∷ _) = a

abbrev pub decide : Option DifficultyClass → D20TestKind → ℤ → Option Bool
decide none kind total = none
decide (some dc) attack_roll total = none
decide (some dc) _ total = some (leb_ℤ dc.value total)

-- what is done with the rolls
unfoldable pub outcome_of :
    ResolutionContext → AbilityScore → ℤ → List RuleModifier → RollMode → List ℕ → Result D20Outcome
outcome_of c score bonus modifiers mode faces = do
  proficiency ← apply_rank c.proficiency_rank bonus
  resolved ←
      resolve_modifiers (pos (select_roll mode faces) +ℤ ability_modifier score +ℤ proficiency)
        modifiers
  ok (record {
    context = c;
    roll_mode = mode;
    raw_rolls = faces;
    selected_roll = select_roll mode faces;
    ability_modifier = ability_modifier score;
    proficiency_modifier = proficiency;
    modifier_resolution = resolved;
    total = resolved.final_value;
    success = decide c.difficulty_class c.test_kind resolved.final_value;
    rng_algorithm = algorithm;
  })

-- the checks before a die is rolled, and the mode
unfoldable pub d20_mode :
    RulesetCapabilities → ResolutionContext → AbilityScore → ℤ → ℤ → Result RollMode
d20_mode capabilities c score advantages disadvantages = do
  require capabilities (text "d20_tests" ∷ text "modifier_pipeline" ∷ [])
  guard (text_eq (ability_value score.ability) (ability_value c.ability)) validation_error
  mode ← from_sources advantages disadvantages
  require capabilities (needed mode)
  ok mode
  where
    needed : RollMode → List Text
    needed normal = []
    needed _ = text "advantage_disadvantage" ∷ []

unfoldable pub finish_d20 :
    DeterministicRng
    → ResolutionContext
    → AbilityScore
    → ℤ
    → List RuleModifier
    → RollMode
    → Result (List ℕ × DeterministicRng)
    → Result D20Outcome × DeterministicRng
finish_d20 rng c score bonus modifiers mode (err e) = (err e, rng)
finish_d20 rng c score bonus modifiers mode (ok (faces, rng')) =
    (outcome_of c score bonus modifiers mode faces, rng')

unfoldable pub in_mode :
    DeterministicRng
    → ResolutionContext
    → AbilityScore
    → ℤ
    → List RuleModifier
    → Result RollMode
    → Result D20Outcome × DeterministicRng
unfolding finish_d20
in_mode rng c score bonus modifiers (err e) = (err e, rng)
in_mode rng c score bonus modifiers (ok mode) =
    finish_d20 rng c score bonus modifiers mode (roll_d20s (roll_count mode) c rng)

-- `RulesRuntime.resolve_d20`
unfoldable pub resolve_d20 :
    RulesetCapabilities
    → DeterministicRng
    → ResolutionContext
    → AbilityScore
    → ℤ
    → List RuleModifier
    → ℤ
    → ℤ
    → Result D20Outcome × DeterministicRng
unfolding in_mode
resolve_d20 capabilities rng c score bonus modifiers advantages disadvantages =
    in_mode rng c score bonus modifiers (d20_mode capabilities c score advantages disadvantages)
