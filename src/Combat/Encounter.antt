-- ===== src/Combat/Encounter.antt =====
-- combat/model.py: events and the state of an encounter.
use godot_dn_dsimulator.Base.{
  ℕ, ◌+◌, Bool, true, false, not, ◌&&◌, Option, none, some, List, [], ◌∷◌, leb, ltb, ◌==◌,
  if◌then◌else◌, all, length, get_elem?, Result, ok, validation_error, guard, or_raise, ◌>>=◌, ◌>>◌,
}
use godot_dn_dsimulator.Base.Int.{ℤ}
use godot_dn_dsimulator.Base.Text.{Text, is_blank}
use godot_dn_dsimulator.Base.Sort.{sort}
use godot_dn_dsimulator.Base.Keyed.{find_key, has_key, unique_keys, replace_key, key_leb}
use godot_dn_dsimulator.Simulation.Model.{RngCheckpoint, entry_key}
use godot_dn_dsimulator.Combat.Model.{
  EncounterStatus, preparing, active, ended, is_active, CombatConditionRule, rule_key,
  CombatantState, combatant_key, InitiativeEntry, initiative_key, ReactionWindow, window_key,
}

pub data EventValue : Type 0 where
  no_value : EventValue
  string : Text → EventValue
  integer : ℤ → EventValue
  boolean : Bool → EventValue
  strings : List Text → EventValue

abbrev pub EventPayload : Type 0
EventPayload = List (Text × EventValue)

pub record CombatEvent : Type 0 where
  pub sequence : ℕ
  pub event_type : Text
  pub actor_id : Option Text
  pub target_id : Option Text
  pub payload : EventPayload
  pub schema_version : ℕ
  pub rng_after : Option RngCheckpoint

-- `COMBAT_EVENT_SCHEMA_VERSION`
abbrev pub combat_event_schema_version : ℕ
combat_event_schema_version = 1

-- `CombatEvent.__post_init__`
unfoldable pub combat_event : CombatEvent → Result CombatEvent
combat_event e = do
  guard (leb 1 e.sequence) validation_error
  guard (e.schema_version == combat_event_schema_version) validation_error
  guard (not (is_blank e.event_type)) validation_error
  guard (unique_keys entry_key e.payload) validation_error
  ok (record e { payload = sort (key_leb entry_key) e.payload })

abbrev entry_value : Text × EventValue → Result EventValue
entry_value p = ok (p.1)

-- `CombatEvent.value`
unfoldable pub value_of : CombatEvent → Text → Result EventValue
value_of e key = or_raise (find_key entry_key key e.payload) validation_error >>= entry_value

pub record EncounterState : Type 0 where
  pub encounter_id : Text
  pub status : EncounterStatus
  pub combatants : List CombatantState
  pub initiative : List InitiativeEntry
  pub round_number : ℕ
  pub turn_index : ℕ
  pub reaction_windows : List ReactionWindow
  pub condition_rules : List CombatConditionRule
  pub event_sequence : ℕ

abbrev pub is_nonempty {ℓ} : {A : Type ℓ} → List A → Bool
is_nonempty [] = false
is_nonempty (_ ∷ _) = true

-- every entry of the initiative is a combatant
unfoldable pub known_initiative : List InitiativeEntry → List CombatantState → Bool
known_initiative initiative combatants =
    all (λ e. has_key combatant_key e.actor_id combatants) initiative

-- every combatant has an entry in the initiative
unfoldable pub full_initiative : List InitiativeEntry → List CombatantState → Bool
full_initiative initiative combatants =
    all (λ c. has_key initiative_key c.actor.actor_id initiative) combatants

unfoldable pub fits_initiative : EncounterStatus → List InitiativeEntry → List CombatantState → Bool
fits_initiative preparing initiative combatants = known_initiative initiative combatants
fits_initiative active initiative combatants =
    known_initiative initiative combatants && full_initiative initiative combatants
fits_initiative ended initiative combatants =
    known_initiative initiative combatants && full_initiative initiative combatants

-- a turn index in an initiative that has entries points at one
unfoldable pub fits_turn : ℕ → List InitiativeEntry → Bool
fits_turn turn_index [] = true
fits_turn turn_index (e ∷ es) = ltb turn_index (length (e ∷ es))

-- the checks of `EncounterState.__post_init__`
unfoldable pub is_encounter : EncounterState → Bool
is_encounter s =
    not (is_blank s.encounter_id)
    && is_nonempty s.combatants
    && unique_keys combatant_key s.combatants
    && unique_keys initiative_key s.initiative
    && fits_initiative s.status s.initiative s.combatants
    && fits_turn s.turn_index s.initiative
    && unique_keys window_key s.reaction_windows
    && unique_keys rule_key s.condition_rules

-- `EncounterState.__post_init__`
unfoldable pub encounter_state : EncounterState → Result EncounterState
encounter_state s = do
  guard (is_encounter s) validation_error
  ok (record s {
    combatants = sort (key_leb combatant_key) s.combatants;
    reaction_windows = sort (key_leb window_key) s.reaction_windows;
    condition_rules = sort (key_leb rule_key) s.condition_rules;
  })

-- `EncounterState.current_actor_id`
unfoldable pub current_actor_id : EncounterState → Option Text
current_actor_id s =
    if is_active s.status
    then elim (get_elem? s.initiative s.turn_index) [ none ↦ none | some e ↦ some e.actor_id ]
    else none

-- `EncounterState.combatant`
unfoldable pub combatant : EncounterState → Text → Result CombatantState
combatant s actor_id = or_raise (find_key combatant_key actor_id s.combatants) validation_error

-- `EncounterState.replace_combatant`
unfoldable pub replace_combatant : EncounterState → CombatantState → Result EncounterState
replace_combatant s updated = do
  guard (has_key combatant_key updated.actor.actor_id s.combatants) validation_error
  encounter_state (record s { combatants = replace_key combatant_key updated s.combatants })

-- `EncounterState.condition_rule`
unfoldable pub condition_rule : EncounterState → Text → Option CombatConditionRule
condition_rule s condition_id = find_key rule_key condition_id s.condition_rules

-- `EncounterState.next_sequence`
unfoldable pub next_sequence : EncounterState → ℕ
next_sequence s = s.event_sequence + 1
