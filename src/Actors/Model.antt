-- ===== src/Actors/Model.antt =====
-- actors/model.py: the actor that heroes, other characters and creatures share.
use godot_dn_dsimulator.Base.{
  ℕ, Bool, true, not, ◌&&◌, Option, none, some, List, [], ◌∷◌, leb, all, Result, ok, err,
  validation_error, key_error, guard, or_raise, ◌>>=◌, ◌>>◌,
}
use godot_dn_dsimulator.Base.Int.{ℤ, pos, negsuc, ◌+ℤ◌, leb_ℤ}
use godot_dn_dsimulator.Base.Text.{Text, text, text_eq, text_leb, is_blank}
use godot_dn_dsimulator.Base.Sort.{sort, lex}
use godot_dn_dsimulator.Base.Keyed.{find_key, has_key, unique_keys, key_leb}
use godot_dn_dsimulator.Rules.Primitives.{
  Ability, ability_value, abilities, AbilityScore, ability_modifier, ProficiencyRank, no_rank,
  apply_rank, ResourcePool, resource_key,
}
use godot_dn_dsimulator.Rules.State.{
  ConditionInstance, condition_leb, Duration, unit_value, RuleSubjectState, rule_subject,
}
use godot_dn_dsimulator.Actors.Kinds.{
  ActorKind, hero, npc, creature, SizeCategory, MovementMode, mode_value, Skill, skill_value,
  skill_ability,
}
use godot_dn_dsimulator.Actors.Inventory.{
  InventoryEntry, entry_key, EquipmentAssignment, slot_key, validate_inventory_equipment,
}

pub record HitPoints : Type 0 where
  pub current : ℕ
  pub maximum : ℕ
  pub temporary : ℕ

-- the constructor of `HitPoints`, called with integers
unfoldable pub hit_points : ℤ → ℕ → ℤ → Result HitPoints
hit_points (pos current) maximum (pos temporary) = do
  guard (leb 1 maximum) validation_error
  guard (leb current maximum) validation_error
  ok (record { current = current; maximum = maximum; temporary = temporary })
hit_points _ maximum _ = err validation_error

pub record DefenseState : Type 0 where
  pub armor_class : ℕ

unfoldable pub defense_state : DefenseState → Result DefenseState
defense_state d = do guard (leb d.armor_class 1000) validation_error; ok d

pub record MovementSpeed : Type 0 where
  pub mode : MovementMode
  pub feet : ℕ

pub record Sense : Type 0 where
  pub sense_id : Text
  pub range_feet : Option ℕ

pub record SkillProficiency : Type 0 where
  pub skill : Skill
  pub rank : ProficiencyRank

pub record SaveProficiency : Type 0 where
  pub ability : Ability
  pub rank : ProficiencyRank

pub record TrainingProficiency : Type 0 where
  pub proficiency_id : Text
  pub rank : ProficiencyRank

pub record ActorState : Type 0 where
  pub actor_id : Text
  pub name : Text
  pub kind : ActorKind
  pub size : SizeCategory
  pub proficiency_bonus : ℤ
  pub abilities : List AbilityScore
  pub hit_points : HitPoints
  pub defense : DefenseState
  pub level : Option ℤ
  pub skills : List SkillProficiency
  pub saves : List SaveProficiency
  pub proficiencies : List TrainingProficiency
  pub movement : List MovementSpeed
  pub senses : List Sense
  pub inventory : List InventoryEntry
  pub equipment : List EquipmentAssignment
  pub resources : List ResourcePool
  pub conditions : List ConditionInstance
  pub selected_options : List Text
  pub tags : List Text

abbrev pub score_key : AbilityScore → Text
score_key s = ability_value s.ability

abbrev skill_key : SkillProficiency → Text
skill_key p = skill_value p.skill

abbrev save_key : SaveProficiency → Text
save_key p = ability_value p.ability

abbrev proficiency_key : TrainingProficiency → Text
proficiency_key p = p.proficiency_id

abbrev mode_key : MovementSpeed → Text
mode_key s = mode_value s.mode

abbrev sense_key : Sense → Text
sense_key s = s.sense_id

abbrev itself : Text → Text
itself s = s

-- the unit, and the time that remains, of a duration: `""` and -1 where there is none
abbrev unit_of : Option Duration → Text
unit_of none = []
unit_of (some d) = unit_value d.unit

abbrev remaining_of : Option Duration → ℤ
remaining_of none = negsuc 0
remaining_of (some d) = elim d.remaining [ none ↦ negsuc 0 | some n ↦ pos n ]

-- the order of an actor's conditions
unfoldable pub actor_condition_leb : ConditionInstance → ConditionInstance → Bool
actor_condition_leb = lex condition_leb (
    lex (λ a b. text_leb (unit_of a.duration) (unit_of b.duration))
      (λ a b. leb_ℤ (remaining_of a.duration) (remaining_of b.duration)))

-- `_validate_collections`
unfoldable pub validate_collections : ActorState → Result (Unit {0})
validate_collections a = do
  guard
      (unique_keys score_key a.abilities
        && all (λ ability. has_key score_key (ability_value ability) a.abilities) abilities)
      validation_error
  guard (unique_keys skill_key a.skills) validation_error
  guard (unique_keys save_key a.saves) validation_error
  guard (unique_keys proficiency_key a.proficiencies) validation_error
  guard (unique_keys mode_key a.movement) validation_error
  guard (unique_keys sense_key a.senses) validation_error
  guard (unique_keys resource_key a.resources) validation_error
  guard (unique_keys itself a.selected_options) validation_error
  guard (all (λ option. not (is_blank option)) a.selected_options) validation_error
  guard (all (λ tag. not (is_blank tag)) a.tags) validation_error
  validate_inventory_equipment a.inventory a.equipment

abbrev is_level : Option ℤ → Bool
is_level none = true
is_level (some n) = leb_ℤ (pos 1) n && leb_ℤ n (pos 20)

-- the sorts of `__post_init__`
unfoldable pub sort_collections : ActorState → ActorState
sort_collections a = record a {
  abilities = sort (key_leb score_key) a.abilities;
  skills = sort (key_leb skill_key) a.skills;
  saves = sort (key_leb save_key) a.saves;
  proficiencies = sort (key_leb proficiency_key) a.proficiencies;
  movement = sort (key_leb mode_key) a.movement;
  senses = sort (key_leb sense_key) a.senses;
  inventory = sort (key_leb entry_key) a.inventory;
  equipment = sort (key_leb slot_key) a.equipment;
  resources = sort (key_leb resource_key) a.resources;
  conditions = sort actor_condition_leb a.conditions;
  selected_options = sort text_leb a.selected_options;
}

-- `ActorState.__post_init__`
unfoldable pub actor_state : ActorState → Result ActorState
actor_state a = do
  guard (not (is_blank a.actor_id)) validation_error
  guard (not (is_blank a.name)) validation_error
  guard (leb_ℤ (pos 0) a.proficiency_bonus && leb_ℤ a.proficiency_bonus (pos 20)) validation_error
  guard (is_level a.level) validation_error
  validate_collections a
  ok (sort_collections a)

-- `ActorState.ability_score`: `next` without a default; the constructor forbids that none is found
unfoldable pub score_of : ActorState → Ability → Result AbilityScore
score_of a ability = or_raise (find_key score_key (ability_value ability) a.abilities) key_error

-- `ActorState.skill_rank`
unfoldable pub skill_rank : ActorState → Skill → ProficiencyRank
skill_rank a skill = elim (find_key skill_key (skill_value skill) a.skills) [
  | none ↦ no_rank
  | some p ↦ p.rank
]

-- `ActorState.save_rank`
unfoldable pub save_rank : ActorState → Ability → ProficiencyRank
save_rank a ability = elim (find_key save_key (ability_value ability) a.saves) [
  | none ↦ no_rank
  | some p ↦ p.rank
]

-- `ActorState.skill_modifier`
unfoldable pub skill_modifier : ActorState → Skill → Result ℤ
skill_modifier a skill = do
  score ← score_of a (skill_ability skill)
  bonus ← apply_rank (skill_rank a skill) a.proficiency_bonus
  ok (ability_modifier score +ℤ bonus)

-- `ActorState.save_modifier`
unfoldable pub save_modifier : ActorState → Ability → Result ℤ
save_modifier a ability = do
  score ← score_of a ability
  bonus ← apply_rank (save_rank a ability) a.proficiency_bonus
  ok (ability_modifier score +ℤ bonus)

-- `ActorState.proficiency_rank`
unfoldable pub proficiency_rank_of : ActorState → Text → ProficiencyRank
proficiency_rank_of a proficiency_id =
    elim (find_key proficiency_key proficiency_id a.proficiencies) [
      | none ↦ no_rank
      | some p ↦ p.rank
    ]

-- `ActorState.movement_speed`
unfoldable pub movement_speed : ActorState → MovementMode → Option ℕ
movement_speed a mode = elim (find_key mode_key (mode_value mode) a.movement) [
  | none ↦ none
  | some s ↦ some s.feet
]

-- `ActorState.to_rule_subject`; the tags are a set, so a tag that is there twice is no matter
unfoldable pub to_rule_subject : ActorState → Result RuleSubjectState
to_rule_subject a = rule_subject (record {
  subject_id = a.actor_id;
  tags = kind_tag a.kind ∷ a.tags;
  resources = a.resources;
  conditions = a.conditions;
})
  where
    kind_tag : ActorKind → Text
    kind_tag hero = text "actor-kind:hero"
    kind_tag npc = text "actor-kind:npc"
    kind_tag creature = text "actor-kind:creature"

-- `ActorState.with_rule_subject`
unfoldable pub with_rule_subject : ActorState → RuleSubjectState → Result ActorState
with_rule_subject a s = do
  guard (text_eq s.subject_id a.actor_id) validation_error
  actor_state (record a { resources = s.resources; conditions = s.conditions })
