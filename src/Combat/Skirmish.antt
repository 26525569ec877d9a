-- ===== src/Combat/Skirmish.antt =====
-- A fight of two on a bridge.
use godot_dn_dsimulator.Combat.Model.{allows}
use godot_dn_dsimulator.Combat.Encounter.{known_initiative, is_encounter}
use godot_dn_dsimulator.Combat.Encounter.{fits_initiative, fits_turn, full_initiative}
use godot_dn_dsimulator.Base.{ℕ, ◌≡◌, refl, true, false, [], ◌∷◌, arith, none}
use godot_dn_dsimulator.Base.Int.{pos}
use godot_dn_dsimulator.Base.Text.{Text, text, text_eq, is_blank}
use godot_dn_dsimulator.Base.Keyed.{unique_keys}
use godot_dn_dsimulator.Rules.Primitives.{
  strength, dexterity, constitution, intelligence, wisdom, charisma,
}
use godot_dn_dsimulator.Actors.Kinds.{ActorKind, hero, creature, medium, walk}
use godot_dn_dsimulator.Actors.Model.{ActorState}
use godot_dn_dsimulator.Combat.Model.{
  active, conscious, unconscious, character, monster, CombatantState, allows,
}
use godot_dn_dsimulator.Combat.Encounter.{EncounterState, is_encounter, known_initiative}
use godot_dn_dsimulator.Combat.Vitality.{IsSound}
use godot_dn_dsimulator.Combat.Construct.{IsValid}

abbrev pub person : Text → ActorKind → ℕ → ActorState
person id kind hp = record {
  actor_id = id;
  name = id;
  kind = kind;
  size = medium;
  proficiency_bonus = pos 2;
  abilities =
      record { ability = charisma; score = pos 10 }
      ∷ record { ability = constitution; score = pos 10 }
      ∷ record { ability = dexterity; score = pos 14 }
      ∷ record { ability = intelligence; score = pos 10 }
      ∷ record { ability = strength; score = pos 16 }
      ∷ record { ability = wisdom; score = pos 10 }
      ∷ [];
  hit_points = record { current = hp; maximum = 12; temporary = 3 };
  defense = record { armor_class = 13 };
  level = none;
  skills = [];
  saves = [];
  proficiencies = [];
  movement = record { mode = walk; feet = 30 } ∷ [];
  senses = [];
  inventory = [];
  equipment = [];
  resources = [];
  conditions = [];
  selected_options = [];
  tags = [];
}

abbrev pub goblin : CombatantState
goblin = record {
  actor = person (text "goblin") creature 7;
  defenses = record { resistances = text "fire" ∷ []; immunities = []; vulnerabilities = [] };
  life_state = conscious;
  death_saves = record { successes = 0; failures = 0 };
  economy = record {
    action_available = false;
    bonus_action_available = false;
    reaction_available = true;
    movement_remaining = 0;
  };
  zero_hp_rule = monster;
}

abbrev pub fighter : CombatantState
fighter = record {
  actor = person (text "hero") hero 12;
  defenses = record { resistances = []; immunities = []; vulnerabilities = [] };
  life_state = conscious;
  death_saves = record { successes = 0; failures = 0 };
  economy = record {
    action_available = true;
    bonus_action_available = true;
    reaction_available = true;
    movement_remaining = 30;
  };
  zero_hp_rule = character;
}

abbrev pub fallen : CombatantState
fallen = record fighter {
  actor = person (text "hero") hero 0;
  life_state = unconscious;
  death_saves = record { successes = 1; failures = 2 };
}

abbrev pub skirmish : EncounterState
skirmish = record {
  encounter_id = text "bridge";
  status = active;
  combatants = goblin ∷ fighter ∷ [];
  initiative =
      record {
        actor_id = text "hero";
        total = pos 18;
        dexterity_modifier = pos 2;
        raw_roll = pos 16;
      }
      ∷ record {
        actor_id = text "goblin";
        total = pos 9;
        dexterity_modifier = pos 2;
        raw_roll = pos 7;
      }
      ∷ [];
  round_number = 1;
  turn_index = 0;
  reaction_windows =
      record {
        window_id = text "w";
        trigger = text "leaves reach";
        source_actor_id = text "goblin";
        eligible_actor_ids = text "hero" ∷ [];
      }
      ∷ [];
  condition_rules = [];
  event_sequence = 4;
}

pub goblin-IsSound : IsSound goblin
unfolding allows
goblin-IsSound = record {
  within = omega arith;
  maximum_least = omega arith;
  allowed = refl;
  successes_most = omega arith;
  failures_most = omega arith;
}

fighter-IsSound : IsSound fighter
unfolding allows
fighter-IsSound = record {
  within = omega arith;
  maximum_least = omega arith;
  allowed = refl;
  successes_most = omega arith;
  failures_most = omega arith;
}

pub fallen-IsSound : IsSound fallen
unfolding allows
fallen-IsSound = record {
  within = omega arith;
  maximum_least = omega arith;
  allowed = refl;
  successes_most = omega arith;
  failures_most = omega arith;
}

skirmish_passes : is_encounter skirmish ≡ true
unfolding is_encounter is_blank unique_keys text_eq fits_initiative known_initiative full_initiative
    fits_turn
skirmish_passes = refl

pub skirmish-IsValid : IsValid skirmish
skirmish-IsValid = record {
  encounter = skirmish_passes;
  sound = (goblin-IsSound, (fighter-IsSound, tt));
}
