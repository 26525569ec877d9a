-- ===== src/Combat/Reducer.antt =====
-- combat/reducer.py: one event applied to an encounter, and a log replayed.
use godot_dn_dsimulator.Base.{
  ℕ, ◌+◌, true, Option, none, some, List, [], ◌∷◌, ◌++◌, ◌==◌, if◌then◌else◌, Result, ok, err,
  validation_error, assertion_error, key_error, guard, or_raise, fold_result, ◌>>=◌, ◌>>◌,
}
use godot_dn_dsimulator.Base.Int.{ℤ, pos, negsuc}
use godot_dn_dsimulator.Base.Text.{Text, text, text_eq}
use godot_dn_dsimulator.Base.Keyed.{find_key, remove_key}
use godot_dn_dsimulator.Rules.State.{ConditionInstance, condition_instance, condition_key}
use godot_dn_dsimulator.Combat.Model.{
  active, ended, ActionEconomy, action_resource, spend, spend_feet, life_state, is_down,
  death_saves, CombatantState, combatant_state, with_actor, walking_speed, InitiativeEntry,
  initiative_key, initiative_entry, reaction_window, window_key, actor_with_hit_points,
  actor_with_conditions,
}
use godot_dn_dsimulator.Combat.Encounter.{
  EventValue, string, integer, strings, CombatEvent, value_of, EncounterState, encounter_state,
  combatant, replace_combatant,
}

abbrev as_int : EventValue → Result ℤ
as_int (integer n) = ok n
as_int _ = err validation_error

abbrev as_string : EventValue → Result Text
as_string (string s) = ok s
as_string _ = err validation_error

abbrev as_strings : EventValue → Result (List Text)
as_strings (strings ss) = ok ss
as_strings _ = err validation_error

-- `_int`
unfoldable pub int_value : CombatEvent → Text → Result ℤ
int_value e key = value_of e key >>= as_int

-- `_str`
unfoldable pub str_value : CombatEvent → Text → Result Text
str_value e key = value_of e key >>= as_string

-- `_strings`
unfoldable pub strings_value : CombatEvent → Text → Result (List Text)
strings_value e key = value_of e key >>= as_strings

-- an integer that a constructor refuses when it is negative
abbrev pub non_negative : ℤ → Result ℕ
non_negative (pos n) = ok n
non_negative (negsuc _) = err validation_error

abbrev pub unconscious_condition : Text
unconscious_condition = text "condition:unconscious"

abbrev unconscious_instance : ConditionInstance
unconscious_instance = record {
  condition_id = unconscious_condition;
  source_id = some (text "combat:v0.5");
  duration = none;
  stacks = 1;
}

-- the conditions with the one for unconsciousness as the life state asks
unfoldable pub synced_conditions : CombatantState → List ConditionInstance
synced_conditions c =
    if is_down c.life_state
    then remove_key condition_key unconscious_condition c.actor.conditions
      ++ (unconscious_instance ∷ [])
    else remove_key condition_key unconscious_condition c.actor.conditions

-- `_sync_unconscious_condition`
unfoldable pub sync_unconscious_condition : EncounterState → Text → Result EncounterState
sync_unconscious_condition s actor_id = do
  c ← combatant s actor_id
  actor ← actor_with_conditions c.actor (synced_conditions c)
  c' ← with_actor c actor
  replace_combatant s c'

-- the events that the reducer knows; three types set hit points in the same way
pub data EventKind : Type 0 where
  initiative_rolled encounter_started encounter_ended turn_started action_spent : EventKind
  movement_spent hit_points_changed temporary_hp_changed window_opened window_closed : EventKind
  condition_applied condition_removed attack_resolved : EventKind

-- the tests on `event.event_type`
unfoldable pub event_kind : Text → Option EventKind
event_kind t =
    if text_eq t (text "initiative.rolled")
    then some initiative_rolled
    else if text_eq t (text "encounter.started")
    then some encounter_started
    else if text_eq t (text "encounter.ended")
    then some encounter_ended
    else if text_eq t (text "turn.started")
    then some turn_started
    else if text_eq t (text "action.spent")
    then some action_spent
    else if text_eq t (text "movement.spent")
    then some movement_spent
    else if text_eq t (text "damage.applied")
    then some hit_points_changed
    else if text_eq t (text "healing.applied")
    then some hit_points_changed
    else if text_eq t (text "death_save.resolved")
    then some hit_points_changed
    else if text_eq t (text "temporary_hp.changed")
    then some temporary_hp_changed
    else if text_eq t (text "reaction.window.opened")
    then some window_opened
    else if text_eq t (text "reaction.window.closed")
    then some window_closed
    else if text_eq t (text "condition.applied")
    then some condition_applied
    else if text_eq t (text "condition.removed")
    then some condition_removed
    else if text_eq t (text "attack.resolved")
    then some attack_resolved
    else none

unfoldable pub apply_initiative_rolled : EncounterState → CombatEvent → Result EncounterState
apply_initiative_rolled s e = do
  actor_id ← or_raise e.actor_id assertion_error
  total ← int_value e (text "total")
  dexterity_modifier ← int_value e (text "dexterity_modifier")
  raw_roll ← int_value e (text "raw_roll")
  entry ← initiative_entry (record {
    actor_id = actor_id;
    total = total;
    dexterity_modifier = dexterity_modifier;
    raw_roll = raw_roll;
  })
  encounter_state (record s {
    initiative = remove_key initiative_key entry.actor_id s.initiative ++ (entry ∷ []);
  })

-- `tuple(by_id[actor_id] for actor_id in order)`
unfoldable pub ordered : List InitiativeEntry → List Text → Result (List InitiativeEntry)
ordered initiative [] = ok []
ordered initiative (actor_id ∷ rest) = do
  entry ← or_raise (find_key initiative_key actor_id initiative) key_error
  entries ← ordered initiative rest
  ok (entry ∷ entries)

unfoldable pub apply_encounter_started : EncounterState → CombatEvent → Result EncounterState
apply_encounter_started s e = do
  order ← strings_value e (text "order")
  initiative ← ordered s.initiative order
  encounter_state
      (record s { status = active; round_number = 1; turn_index = 0; initiative = initiative })

-- the economy of a turn that starts
unfoldable pub fresh_economy : CombatantState → ActionEconomy
fresh_economy c = record {
  action_available = true;
  bonus_action_available = true;
  reaction_available = true;
  movement_remaining = walking_speed c;
}

unfoldable pub apply_turn_started : EncounterState → CombatEvent → Result EncounterState
apply_turn_started s e = do
  actor_id ← or_raise e.actor_id assertion_error
  turn_index ← int_value e (text "turn_index")
  round_number ← int_value e (text "round_number")
  c ← combatant s actor_id
  c' ← combatant_state (record c { economy = fresh_economy c })
  s' ← replace_combatant s c'
  turn ← non_negative turn_index
  round ← non_negative round_number
  encounter_state (record s' { round_number = round; turn_index = turn })

unfoldable pub apply_action_spent : EncounterState → CombatEvent → Result EncounterState
apply_action_spent s e = do
  actor_id ← or_raise e.actor_id assertion_error
  name ← str_value e (text "resource")
  resource ← action_resource name
  c ← combatant s actor_id
  economy ← spend c.economy resource
  c' ← combatant_state (record c { economy = economy })
  replace_combatant s c'

unfoldable pub apply_movement_spent : EncounterState → CombatEvent → Result EncounterState
apply_movement_spent s e = do
  actor_id ← or_raise e.actor_id assertion_error
  c ← combatant s actor_id
  feet ← int_value e (text "feet")
  economy ← spend_feet c.economy feet
  c' ← combatant_state (record c { economy = economy })
  replace_combatant s c'

unfoldable pub apply_hit_points : EncounterState → CombatEvent → Result EncounterState
apply_hit_points s e = do
  target_id ← or_raise e.target_id assertion_error
  c ← combatant s target_id
  hp_after ← int_value e (text "hp_after")
  temporary_after ← int_value e (text "temporary_after")
  actor ← actor_with_hit_points c.actor hp_after temporary_after
  life ← (str_value e (text "life_state") >>= life_state)
  successes ← int_value e (text "death_successes")
  failures ← int_value e (text "death_failures")
  saves ← death_saves successes failures
  c' ← combatant_state (record c { actor = actor; life_state = life; death_saves = saves })
  s' ← replace_combatant s c'
  sync_unconscious_condition s' target_id

unfoldable pub apply_temporary_hp : EncounterState → CombatEvent → Result EncounterState
apply_temporary_hp s e = do
  target_id ← or_raise e.target_id assertion_error
  c ← combatant s target_id
  temporary_after ← int_value e (text "temporary_after")
  actor ← actor_with_hit_points c.actor (pos c.actor.hit_points.current) temporary_after
  c' ← with_actor c actor
  replace_combatant s c'

unfoldable pub apply_window_opened : EncounterState → CombatEvent → Result EncounterState
apply_window_opened s e = do
  actor_id ← or_raise e.actor_id assertion_error
  window_id ← str_value e (text "window_id")
  trigger ← str_value e (text "trigger")
  eligible ← strings_value e (text "eligible_actor_ids")
  window ← reaction_window (record {
    window_id = window_id;
    trigger = trigger;
    source_actor_id = actor_id;
    eligible_actor_ids = eligible;
  })
  encounter_state (record s { reaction_windows = s.reaction_windows ++ (window ∷ []) })

unfoldable pub apply_window_closed : EncounterState → CombatEvent → Result EncounterState
apply_window_closed s e = do
  window_id ← str_value e (text "window_id")
  encounter_state
      (record s { reaction_windows = remove_key window_key window_id s.reaction_windows })

-- a source that is not a string counts as none
abbrev source_of : EventValue → Option Text
source_of (string s) = some s
source_of _ = none

unfoldable pub apply_condition_applied : EncounterState → CombatEvent → Result EncounterState
apply_condition_applied s e = do
  target_id ← or_raise e.target_id assertion_error
  c ← combatant s target_id
  condition_id ← str_value e (text "condition_id")
  source ← value_of e (text "source_id")
  instance_ ← condition_instance (record {
    condition_id = condition_id;
    source_id = source_of source;
    duration = none;
    stacks = 1;
  })
  actor ←
      actor_with_conditions c.actor
        (remove_key condition_key condition_id c.actor.conditions ++ (instance_ ∷ []))
  c' ← with_actor c actor
  replace_combatant s c'

unfoldable pub apply_condition_removed : EncounterState → CombatEvent → Result EncounterState
apply_condition_removed s e = do
  target_id ← or_raise e.target_id assertion_error
  c ← combatant s target_id
  condition_id ← str_value e (text "condition_id")
  actor ← actor_with_conditions c.actor (remove_key condition_key condition_id c.actor.conditions)
  c' ← with_actor c actor
  replace_combatant s c'

-- the branches of `apply_combat_event`, whose state has the event's sequence number already
unfoldable pub apply_kind : EventKind → EncounterState → CombatEvent → Result EncounterState
apply_kind initiative_rolled s e = apply_initiative_rolled s e
apply_kind encounter_started s e = apply_encounter_started s e
apply_kind encounter_ended s e =
    encounter_state (record s { status = ended; reaction_windows = [] })
apply_kind turn_started s e = apply_turn_started s e
apply_kind action_spent s e = apply_action_spent s e
apply_kind movement_spent s e = apply_movement_spent s e
apply_kind hit_points_changed s e = apply_hit_points s e
apply_kind temporary_hp_changed s e = apply_temporary_hp s e
apply_kind window_opened s e = apply_window_opened s e
apply_kind window_closed s e = apply_window_closed s e
apply_kind condition_applied s e = apply_condition_applied s e
apply_kind condition_removed s e = apply_condition_removed s e
apply_kind attack_resolved s e = ok s

unfoldable pub apply_combat_event : EncounterState → CombatEvent → Result EncounterState
apply_combat_event s e = do
  guard (e.sequence == s.event_sequence + 1) validation_error
  s' ← encounter_state (record s { event_sequence = e.sequence })
  kind ← or_raise (event_kind e.event_type) validation_error
  apply_kind kind s' e

unfoldable pub replay_combat : EncounterState → List CombatEvent → Result EncounterState
replay_combat = fold_result apply_combat_event
