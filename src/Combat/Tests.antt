-- ===== src/Combat/Tests.antt =====
-- The commands of a fight on a bridge, and the instances of the theorems.
use godot_dn_dsimulator.Base.Text.{is_space, strip, is_empty}
use godot_dn_dsimulator.Base.Keyed.{remove_key, put_key}
use godot_dn_dsimulator.Actors.Kinds.{kind_value, skill_value, skill_ability}
use godot_dn_dsimulator.Actors.Model.{
  hit_points, defense_state, actor_condition_leb, validate_collections, sort_collections, score_of,
  skill_rank, save_rank, skill_modifier, save_modifier, proficiency_rank_of, movement_speed,
  to_rule_subject, with_rule_subject,
}
use godot_dn_dsimulator.Actors.Inventory.{
  inventory_entry, equipment_assignment, validate_inventory_equipment,
}
use godot_dn_dsimulator.Combat.Model.{
  resource_value, action_resource, life_value, life_state, death_saves, defense_profile, spend,
  spend_feet, condition_rule_state, allows, combatant_state, zero_hp_rule_of, walking_speed,
  combatant_has_condition, with_actor, initiative_entry, reaction_window, actor_with_hit_points,
  actor_with_conditions,
}
use godot_dn_dsimulator.Combat.Encounter.{
  combat_event, value_of, known_initiative, is_encounter, encounter_state, current_actor_id,
  combatant, replace_combatant, condition_rule, next_sequence,
}
use godot_dn_dsimulator.Combat.Damage.{damage_packet, adjusted}
use godot_dn_dsimulator.Combat.Reducer.{
  int_value, str_value, strings_value, synced_conditions, sync_unconscious_condition, event_kind,
  apply_initiative_rolled, ordered, apply_encounter_started, fresh_economy, apply_turn_started,
  apply_action_spent, apply_movement_spent, apply_hit_points, apply_temporary_hp,
  apply_window_opened, apply_window_closed, apply_condition_applied, apply_condition_removed,
  apply_kind,
}
use godot_dn_dsimulator.Combat.Wounds.{
  new_event, apply_one, emit, assert_active, life_after, damaged, damage_payload, damage_target,
  apply_damage, healed, healing_payload, heal, temporary_after, grant_temporary_hp, settle_save,
  death_save, death_save_payload, death_save_target, death_save_rolled, death_save_event,
}
use godot_dn_dsimulator.Combat.Turns.{
  is_current, assert_current_actor, condition_blocks, condition_blocks_movement, spent_event,
  spend_action, spend_movement, start_turn_event, lives_at, next_living_from, next_living_turn,
  needs_death_save, save_if, turn_actor, pass_turn, finish_turn, end_turn, open_reaction_window,
  spend_reaction, close_reaction_window, apply_condition, remove_condition, end_encounter,
}
use godot_dn_dsimulator.Combat.Encounter.{fits_initiative, fits_turn, full_initiative}
use godot_dn_dsimulator.Base.{
  ◌≡◌, ◌≢◌, refl, true, false, List, [], ◌∷◌, arith, none, some, Result, ok, err, Returns,
}
use godot_dn_dsimulator.Base.Int.{pos}
use godot_dn_dsimulator.Base.Text.{text, text_eq, text_leb, is_blank}
use godot_dn_dsimulator.Base.Sort.{sort, insert}
use godot_dn_dsimulator.Base.Keyed.{find_key, has_key, unique_keys, replace_key}
use godot_dn_dsimulator.Rules.Primitives.{ability_value}
use godot_dn_dsimulator.Actors.Kinds.{mode_value}
use godot_dn_dsimulator.Actors.Model.{actor_state}
use godot_dn_dsimulator.Combat.Model.{ended, action, unconscious, dead, allows}
use godot_dn_dsimulator.Combat.Encounter.{
  CombatEvent, EncounterState, is_encounter, known_initiative, combatant,
}
use godot_dn_dsimulator.Combat.Damage.{DamagePacket, DamageAdjustment, adjust_damage}
use godot_dn_dsimulator.Combat.Reducer.{replay_combat, apply_combat_event}
use godot_dn_dsimulator.Combat.Wounds.{
  CombatTransition, apply_damage, heal, damaged, healed, death_save,
}
use godot_dn_dsimulator.Combat.Turns.{
  spend_action, spend_reaction, open_reaction_window, next_living_turn, lives_at,
}
use godot_dn_dsimulator.Combat.Vitality.{
  IsSoundAfter, IsAccounted, damaged-IsAccounted, damaged-IsSoundAfter, death_save-IsSoundAfter,
}
use godot_dn_dsimulator.Combat.DeathSaves.{resolve_saves, resolve_saves-ends}
use godot_dn_dsimulator.Combat.TurnOrder.{
  IsNextTurn, next_living_turn-IsNextTurn, next_living_turn_total,
}
use godot_dn_dsimulator.Combat.Construct.{IsValid}
use godot_dn_dsimulator.Combat.Soundness.{apply_combat_event-IsValid}
use godot_dn_dsimulator.Combat.Outcome.{Shows}
use godot_dn_dsimulator.Combat.Vitals.{points_after, apply_damage-Shows, heal-Shows}
use godot_dn_dsimulator.Combat.Economy.{spend_action-once, spend_reaction-once}
use godot_dn_dsimulator.Combat.Recovery.{
  Fight, created, commanded, spent, Fight-Replays, Fight-IsValid,
}
use godot_dn_dsimulator.Combat.Skirmish.{
  goblin, fighter, fallen, skirmish, goblin-IsSound, fallen-IsSound, skirmish-IsValid,
}

abbrev taken : Result CombatTransition → CombatTransition
taken (ok t) = t
taken (err e) = record { state = skirmish; events = [] }

abbrev taken_damage :
    Result (CombatTransition × DamageAdjustment) → CombatTransition × DamageAdjustment
taken_damage (ok p) = p
taken_damage (err e) = (
  record { state = skirmish; events = [] },
  record {
    raw_amount = 0;
    adjusted_amount = 0;
    immune = true;
    resistant = true;
    vulnerable = true;
  },
)

abbrev after_action : CombatTransition
after_action = taken (spend_action skirmish (text "hero") action)

abbrev sword : DamagePacket
sword = record { amount = 9; damage_type = text "slashing" }

abbrev blow : CombatTransition × DamageAdjustment
blow = taken_damage (apply_damage skirmish (text "goblin") sword (some (text "hero")) false none)

abbrev bandage : CombatTransition
bandage = taken (heal skirmish (text "goblin") (pos 3) none)

abbrev parry : CombatTransition
parry = taken (spend_reaction skirmish (text "w") (text "hero"))

-- what the four commands return
runs :
    (spend_action skirmish (text "hero") action ≡ ok after_action)
    × (apply_damage skirmish (text "goblin") sword (some (text "hero")) false none
        ≡ ok (blow.0, blow.1))
    × (heal skirmish (text "goblin") (pos 3) none ≡ ok bandage)
    × (spend_reaction skirmish (text "w") (text "hero") ≡ ok parry)
unfolding text_eq text_leb is_space strip is_blank is_empty insert sort find_key has_key unique_keys
    remove_key replace_key put_key kind_value mode_value skill_value skill_ability hit_points
    defense_state actor_condition_leb validate_collections sort_collections actor_state score_of
    skill_rank save_rank skill_modifier save_modifier proficiency_rank_of movement_speed
    to_rule_subject with_rule_subject inventory_entry equipment_assignment
    validate_inventory_equipment resource_value action_resource life_value life_state death_saves
    defense_profile spend spend_feet condition_rule_state allows combatant_state zero_hp_rule_of
    walking_speed combatant_has_condition with_actor initiative_entry reaction_window
    actor_with_hit_points actor_with_conditions combat_event value_of known_initiative
    full_initiative fits_initiative fits_turn is_encounter encounter_state current_actor_id
    combatant replace_combatant condition_rule next_sequence damage_packet adjusted adjust_damage
    int_value str_value strings_value synced_conditions sync_unconscious_condition event_kind
    apply_initiative_rolled ordered apply_encounter_started fresh_economy apply_turn_started
    apply_action_spent apply_movement_spent apply_hit_points apply_temporary_hp apply_window_opened
    apply_window_closed apply_condition_applied apply_condition_removed apply_kind
    apply_combat_event replay_combat new_event apply_one emit assert_active life_after damaged
    damage_payload damage_target apply_damage healed healing_payload heal temporary_after
    grant_temporary_hp settle_save death_save death_save_payload death_save_target death_save_rolled
    death_save_event is_current assert_current_actor condition_blocks condition_blocks_movement
    spent_event spend_action spend_movement start_turn_event lives_at next_living_from
    next_living_turn needs_death_save save_if turn_actor pass_turn finish_turn end_turn
    open_reaction_window spend_reaction close_reaction_window apply_condition remove_condition
    end_encounter ability_value
runs = (refl, refl, refl, refl)

goblin_found : combatant skirmish (text "goblin") ≡ ok goblin
unfolding combatant find_key text_eq
goblin_found = refl

-- nine points of slashing damage go through three temporary hit points and leave one
blow_leaves : (damaged goblin 9 false).hp_after ≡ 1
unfolding damaged
blow_leaves = refl

-- twenty points kill a monster outright
blow_kills : (damaged goblin 20 false).life ≡ dead
unfolding damaged life_after
blow_kills = refl

-- and leave a character unconscious
blow_fells : (damaged fighter 20 false).life ≡ unconscious
unfolding damaged life_after
blow_fells = refl

one_action : Fight skirmish after_action.events after_action.state
one_action =
    commanded created after_action after_action.events after_action.state
      (spent (text "hero") action (runs.0)) refl refl

Fight-Replays_example : replay_combat skirmish after_action.events ≡ ok after_action.state
Fight-Replays_example = Fight-Replays one_action

Fight-IsValid_example : IsValid after_action.state
Fight-IsValid_example = Fight-IsValid one_action skirmish-IsValid

abbrev spent_event_of : List CombatEvent → CombatEvent
spent_event_of [] = record {
  sequence = 5;
  event_type = text "encounter.ended";
  actor_id = none;
  target_id = none;
  payload = [];
  schema_version = 1;
  rng_after = none;
}
spent_event_of (e ∷ _) = e

abbrev ending : CombatEvent
ending = spent_event_of []

abbrev over : EncounterState
over = record skirmish { status = ended; reaction_windows = []; event_sequence = 5 }

ends_it : apply_combat_event skirmish ending ≡ ok over
unfolding text_eq text_leb is_space strip is_blank is_empty insert sort find_key has_key unique_keys
    remove_key replace_key put_key kind_value mode_value skill_value skill_ability hit_points
    defense_state actor_condition_leb validate_collections sort_collections actor_state score_of
    skill_rank save_rank skill_modifier save_modifier proficiency_rank_of movement_speed
    to_rule_subject with_rule_subject inventory_entry equipment_assignment
    validate_inventory_equipment resource_value action_resource life_value life_state death_saves
    defense_profile spend spend_feet condition_rule_state allows combatant_state zero_hp_rule_of
    walking_speed combatant_has_condition with_actor initiative_entry reaction_window
    actor_with_hit_points actor_with_conditions combat_event value_of known_initiative
    full_initiative fits_initiative fits_turn is_encounter encounter_state current_actor_id
    combatant replace_combatant condition_rule next_sequence damage_packet adjusted adjust_damage
    int_value str_value strings_value synced_conditions sync_unconscious_condition event_kind
    apply_initiative_rolled ordered apply_encounter_started fresh_economy apply_turn_started
    apply_action_spent apply_movement_spent apply_hit_points apply_temporary_hp apply_window_opened
    apply_window_closed apply_condition_applied apply_condition_removed apply_kind
    apply_combat_event replay_combat new_event apply_one emit assert_active life_after damaged
    damage_payload damage_target apply_damage healed healing_payload heal temporary_after
    grant_temporary_hp settle_save death_save death_save_payload death_save_target death_save_rolled
    death_save_event is_current assert_current_actor condition_blocks condition_blocks_movement
    spent_event spend_action spend_movement start_turn_event lives_at next_living_from
    next_living_turn needs_death_save save_if turn_actor pass_turn finish_turn end_turn
    open_reaction_window spend_reaction close_reaction_window apply_condition remove_condition
    end_encounter ability_value
ends_it = refl

apply_combat_event-IsValid_example : IsValid over
apply_combat_event-IsValid_example =
    apply_combat_event-IsValid skirmish over ending skirmish-IsValid ends_it

damaged-IsAccounted_example : IsAccounted goblin 9 (damaged goblin 9 false)
damaged-IsAccounted_example = damaged-IsAccounted goblin 9 false

damaged-IsSoundAfter_example : IsSoundAfter goblin (damaged goblin 9 false)
damaged-IsSoundAfter_example = damaged-IsSoundAfter goblin 9 false goblin-IsSound

death_save-IsSoundAfter_example : IsSoundAfter fallen (death_save fallen 7)
death_save-IsSoundAfter_example = death_save-IsSoundAfter fallen 7 refl fallen-IsSound

resolve_saves-ends_example :
    (resolve_saves fallen (12 ∷ 3 ∷ 4 ∷ 15 ∷ 9 ∷ [])).life_state ≢ unconscious
resolve_saves-ends_example = resolve_saves-ends fallen 12 3 4 15 9 (omega arith) (omega arith)

apply_damage-Shows_example :
    Shows skirmish blow.0.state
      (text "goblin")
      (points_after goblin
        (damaged goblin (adjust_damage sword goblin.defenses).adjusted_amount false))
      (damaged goblin (adjust_damage sword goblin.defenses).adjusted_amount false).life
      (damaged goblin (adjust_damage sword goblin.defenses).adjusted_amount false).saves
apply_damage-Shows_example =
    apply_damage-Shows skirmish (text "goblin") sword (some (text "hero")) false none goblin blow.0
      blow.1 goblin_found (runs.1)

heal-Shows_example :
    Shows skirmish bandage.state
      (text "goblin")
      (points_after goblin (healed goblin 3))
      (healed goblin 3).life
      (healed goblin 3).saves
heal-Shows_example = heal-Shows skirmish (text "goblin") 3 none goblin bandage goblin_found (runs.2)

spend_action-once_example : spend_action after_action.state (text "hero") action ≢ ok after_action
spend_action-once_example =
    spend_action-once skirmish after_action after_action (text "hero") action (runs.0)

spend_reaction-once_example : spend_reaction parry.state (text "w") (text "hero") ≢ ok parry
spend_reaction-once_example =
    spend_reaction-once skirmish parry parry (text "hero") (text "w") (text "w") (runs.3)

turn_passes : next_living_turn skirmish ≡ ok (1, 1)
unfolding next_living_turn next_living_from lives_at combatant find_key text_eq
turn_passes = refl

next_living_turn-IsNextTurn_example : IsNextTurn skirmish (1, 1)
next_living_turn-IsNextTurn_example =
    next_living_turn-IsNextTurn skirmish (1, 1) (omega arith) turn_passes

known : known_initiative skirmish.initiative skirmish.combatants ≡ true
unfolding known_initiative has_key text_eq
known = refl

goblin_lives : lives_at skirmish 1 ≡ ok true
unfolding lives_at combatant find_key text_eq
goblin_lives = refl

next_living_turn_total_example : Returns (next_living_turn skirmish)
next_living_turn_total_example =
    next_living_turn_total skirmish 1 known (omega arith) (omega arith) goblin_lives
