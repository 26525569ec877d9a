-- ===== src/Rules/Tests.antt =====
-- Costs that are spent, time that passes and a d20 test, and the instances of the theorems.
mod Reactions
use godot_dn_dsimulator.Rules.Modifiers.{apply_modifiers, group_by_key, resolution, select_groups}
use godot_dn_dsimulator.Rules.State.{advance_condition, advance_duration, same_unit}
use godot_dn_dsimulator.Base.{ℕ, ◌+◌, ◌≡◌, refl, List, [], ◌∷◌, none, some, ok}
use godot_dn_dsimulator.Base.Int.{pos, negsuc, ◌-ℤ◌, ◌+ℤ◌}
use godot_dn_dsimulator.Base.Text.{text, text_eq, text_leb, is_blank}
use godot_dn_dsimulator.Base.Sort.{sort, insert}
use godot_dn_dsimulator.Base.Keyed.{find_key, has_key, unique_keys, put_key}
use godot_dn_dsimulator.Rng.{DeterministicRng, from_seed}
use godot_dn_dsimulator.Rng.Words as Words
use godot_dn_dsimulator.Dice.Roll.{IsFace}
use godot_dn_dsimulator.Rules.Primitives.{
  ResourceCost, dexterity, AbilityScore, ability_modifier, no_rank, ability_check, advantage,
  ability_value, from_sources, with_delta, resource_pool, resource_cost,
  proficiency_bonus_for_level,
}
use godot_dn_dsimulator.Rules.State.{
  RuleSubjectState, rule_subject, resource, ConditionInstance, rounds, advance_conditions,
}
use godot_dn_dsimulator.Rules.Resources.{
  ResourceSpendResult, spend_costs, spend_all, spend_one, aggregate,
}
use godot_dn_dsimulator.Rules.Runtime.{
  ResolutionContext, core_capabilities, d20_mode, require, supports, select_roll, outcome_of,
  resolve_d20,
}
use godot_dn_dsimulator.Rules.Spending.{total_cost, Paid, spend_costs-Paid}
use godot_dn_dsimulator.Rules.Durations.{passes, advance_condition_durations-passes}
use godot_dn_dsimulator.Rules.Rolling.{IsOutcomeOf, resolve_d20_rolls}
use godot_dn_dsimulator.Rules.Modifiers.{ModifierResolution, resolve_modifiers}
use godot_dn_dsimulator.Rules.Primitives.{apply_rank}
use godot_dn_dsimulator.Rules.Runtime.{D20Outcome}
use godot_dn_dsimulator.Rules.State.{with_conditions, advance_condition_durations}
use godot_dn_dsimulator.Dice.{roll_dice}

-- a score of 7 has the modifier -2: the quotient is rounded down
low_score : ability_modifier (record { ability = dexterity; score = pos 7 }) ≡ negsuc 1
unfolding ability_modifier ◌-ℤ◌
low_score = refl

ninth_level : proficiency_bonus_for_level (pos 9) ≡ ok 4
unfolding proficiency_bonus_for_level
ninth_level = refl

abbrev monk : RuleSubjectState
monk = record {
  subject_id = text "monk";
  tags = [];
  resources =
      record { resource_id = text "ki"; current = pos 5; maximum = pos 5; minimum = pos 0 } ∷ [];
  conditions = [];
}

abbrev spent_result : ResourceSpendResult
spent_result = record {
  subject = record monk {
    resources =
        record { resource_id = text "ki"; current = pos 2; maximum = pos 5; minimum = pos 0 } ∷ [];
  };
  spent = record { resource_id = text "ki"; amount = 3 } ∷ [];
}

abbrev ki_costs : List ResourceCost
ki_costs =
    record { resource_id = text "ki"; amount = 1 }
    ∷ record { resource_id = text "ki"; amount = 2 }
    ∷ []

ki_spent : spend_costs monk ki_costs ≡ ok spent_result
unfolding spend_costs spend_all spend_one aggregate rule_subject with_delta resource_pool
    resource_cost sort insert find_key has_key unique_keys put_key text_eq text_leb is_blank ◌+ℤ◌
ki_spent = refl

spend_costs-Paid_example :
    Paid
      (resource monk (text "ki"))
      (resource spent_result.subject (text "ki"))
      (total_cost (text "ki") ki_costs)
spend_costs-Paid_example = spend_costs-Paid monk ki_costs spent_result (text "ki") ki_spent

abbrev poisoned : List ConditionInstance
poisoned =
    record {
      condition_id = text "condition:poisoned";
      source_id = none;
      duration = some (record { unit = rounds; remaining = some 4 });
      stacks = 1;
    }
    ∷ []

abbrev ill : RuleSubjectState
ill = record monk { conditions = poisoned }

-- the poison lasts for three rounds more, and ends at the fourth
poison_lasts :
    advance_conditions rounds 3 poisoned
    ≡ record {
      condition_id = text "condition:poisoned";
      source_id = none;
      duration = some (record { unit = rounds; remaining = some 1 });
      stacks = 1;
    }
      ∷ []
unfolding advance_conditions advance_condition same_unit advance_duration
poison_lasts = refl

poison_ends : advance_conditions rounds 4 poisoned ≡ []
unfolding advance_conditions advance_condition same_unit advance_duration
poison_ends = refl

advance_condition_durations-passes_example :
    advance_condition_durations ill rounds (pos 4) ≡ with_conditions ill (passes rounds 4 poisoned)
advance_condition_durations-passes_example = advance_condition_durations-passes ill rounds (pos 4)

abbrev dodge : ResolutionContext
dodge = record {
  context_id = text "dodge";
  test_kind = ability_check;
  actor_id = text "monk";
  ability = dexterity;
  proficiency_rank = no_rank;
  difficulty_class = none;
  target_id = none;
  reason = text "Dodge";
  tags = [];
}

abbrev nimble : AbilityScore
nimble = record { ability = dexterity; score = pos 16 }

dodge_mode : d20_mode core_capabilities dodge nimble (pos 1) (pos 0) ≡ ok advantage
unfolding d20_mode require supports text_eq ability_value from_sources
dodge_mode = refl

dodge_skill : apply_rank no_rank (pos 2) ≡ ok (pos 0)
unfolding apply_rank
dodge_skill = refl

abbrev unmodified : ModifierResolution
unmodified = record { base_value = pos 0; final_value = pos 0; applied = []; suppressed = [] }

no_modifiers : resolve_modifiers (pos 0) [] ≡ ok unmodified
unfolding resolve_modifiers select_groups group_by_key sort resolution apply_modifiers
no_modifiers = refl

resolve_d20_rolls_example :
    (faces : List ℕ) × (rng' : DeterministicRng) × (o : D20Outcome) × (resolve_d20 core_capabilities
        (from_seed (pos 1) (pos 54))
        dodge
        nimble
        (pos 2)
        []
        (pos 1)
        (pos 0)
      ≡ (ok o, rng'))
    × (roll_dice 2 20 (from_seed (pos 1) (pos 54)) ≡ ok (faces, rng'))
    × IsOutcomeOf dodge nimble (pos 0) [] advantage faces o
    × Words.IsValid rng'
resolve_d20_rolls_example =
    resolve_d20_rolls core_capabilities (from_seed (pos 1) (pos 54)) dodge nimble (pos 2) (pos 0)
      (pos 0) [] unmodified (pos 1) (pos 0) advantage dodge_mode dodge_skill no_modifiers
      (Words.from_seed-IsValid (pos 1) (pos 54)) (unfold is_blank in refl)
