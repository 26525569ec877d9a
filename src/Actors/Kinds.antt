-- ===== src/Actors/Kinds.antt =====
-- actors/model.py: the kinds, sizes, movement modes and skills, with the values of their members.
use godot_dn_dsimulator.Base.Text.{Text, text}
use godot_dn_dsimulator.Rules.Primitives.{
  Ability, strength, dexterity, intelligence, wisdom, charisma,
}

pub data ActorKind : Type 0 where
  hero npc creature : ActorKind

unfoldable pub kind_value : ActorKind → Text
kind_value hero = text "hero"
kind_value npc = text "npc"
kind_value creature = text "creature"

pub data SizeCategory : Type 0 where
  tiny small medium large huge gargantuan : SizeCategory

pub data MovementMode : Type 0 where
  walk climb swim fly burrow : MovementMode

unfoldable pub mode_value : MovementMode → Text
mode_value walk = text "walk"
mode_value climb = text "climb"
mode_value swim = text "swim"
mode_value fly = text "fly"
mode_value burrow = text "burrow"

pub data Skill : Type 0 where
  acrobatics animal_handling arcana athletics deception history insight intimidation investigation :
      Skill
  medicine nature perception performance persuasion religion sleight_of_hand stealth survival :
      Skill

unfoldable pub skill_value : Skill → Text
skill_value acrobatics = text "acrobatics"
skill_value animal_handling = text "animal_handling"
skill_value arcana = text "arcana"
skill_value athletics = text "athletics"
skill_value deception = text "deception"
skill_value history = text "history"
skill_value insight = text "insight"
skill_value intimidation = text "intimidation"
skill_value investigation = text "investigation"
skill_value medicine = text "medicine"
skill_value nature = text "nature"
skill_value perception = text "perception"
skill_value performance = text "performance"
skill_value persuasion = text "persuasion"
skill_value religion = text "religion"
skill_value sleight_of_hand = text "sleight_of_hand"
skill_value stealth = text "stealth"
skill_value survival = text "survival"

-- `SKILL_ABILITIES`
unfoldable pub skill_ability : Skill → Ability
skill_ability acrobatics = dexterity
skill_ability animal_handling = wisdom
skill_ability arcana = intelligence
skill_ability athletics = strength
skill_ability deception = charisma
skill_ability history = intelligence
skill_ability insight = wisdom
skill_ability intimidation = charisma
skill_ability investigation = intelligence
skill_ability medicine = wisdom
skill_ability nature = intelligence
skill_ability perception = wisdom
skill_ability performance = charisma
skill_ability persuasion = charisma
skill_ability religion = intelligence
skill_ability sleight_of_hand = dexterity
skill_ability stealth = dexterity
skill_ability survival = wisdom
