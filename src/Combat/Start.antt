-- ===== src/Combat/Start.antt =====
-- combat/runtime.py: encounters are created and started, with an initiative roll for each combatant.
use godot_dn_dsimulator.Base.{
  ℕ, Bool, Option, none, some, List, [], ◌∷◌, ◌++◌, map, Result, ok, err, validation_error,
  if◌then◌else◌, ◌>>=◌, true, false,
}
use godot_dn_dsimulator.Base.Int.{ℤ, pos, leb_ℤ}
use godot_dn_dsimulator.Base.Text.{Text, text, text_leb}
use godot_dn_dsimulator.Base.Sort.{sort, lex}
use godot_dn_dsimulator.Base.Keyed.{find_key}
use godot_dn_dsimulator.Rng.{DeterministicRng}
use godot_dn_dsimulator.Simulation.Model.{entry_key}
use godot_dn_dsimulator.Simulation.Engine.{checkpoint}
use godot_dn_dsimulator.Rules.Primitives.{
  AbilityScore, ability_modifier, dexterity, no_rank, ability_check,
}
use godot_dn_dsimulator.Rules.Runtime.{
  RulesetCapabilities, ResolutionContext, resolution_context, D20Outcome, resolve_d20,
}
use godot_dn_dsimulator.Actors.Model.{ActorState, score_of}
use godot_dn_dsimulator.Combat.Model.{
  EncounterStatus, preparing, conscious, DefenseProfile, ZeroHitPointRule, zero_hp_rule_of,
  CombatConditionRule, CombatantState, combatant_state,
}
use godot_dn_dsimulator.Combat.Encounter.{
  integer, strings, CombatEvent, EncounterState, encounter_state,
}
use godot_dn_dsimulator.Combat.Reducer.{apply_combat_event}
use godot_dn_dsimulator.Combat.Wounds.{CombatTransition, new_event}
use godot_dn_dsimulator.Combat.Turns.{start_turn_event}

-- `defense_map.get(actor_id, DefenseProfile())`
abbrev defenses_of : Option (Text × DefenseProfile) → DefenseProfile
defenses_of none = record { resistances = []; immunities = []; vulnerabilities = [] }
defenses_of (some p) = p.1

abbrev rule_given : Option (Text × ZeroHitPointRule) → Option ZeroHitPointRule
rule_given none = none
rule_given (some p) = some p.1

-- a combatant as `create_encounter` makes it
unfoldable pub new_combatant :
    List (Text × DefenseProfile)
    → List (Text × ZeroHitPointRule)
    → ActorState
    → Result CombatantState
new_combatant defenses rules actor = combatant_state (record {
  actor = actor;
  defenses = defenses_of (find_key entry_key actor.actor_id defenses);
  life_state = conscious;
  death_saves = record { successes = 0; failures = 0 };
  economy = record {
    action_available = false;
    bonus_action_available = false;
    reaction_available = true;
    movement_remaining = 0;
  };
  zero_hp_rule = zero_hp_rule_of actor.kind (rule_given (find_key entry_key actor.actor_id rules));
})

unfoldable pub new_combatants :
    List (Text × DefenseProfile)
    → List (Text × ZeroHitPointRule)
    → List ActorState
    → Result (List CombatantState)
new_combatants defenses rules [] = ok []
new_combatants defenses rules (a ∷ as_) = do
  c ← new_combatant defenses rules a
  cs ← new_combatants defenses rules as_
  ok (c ∷ cs)

-- `CombatRuntime.create_encounter`
unfoldable pub create_encounter :
    Text
    → List ActorState
    → List (Text × DefenseProfile)
    → List (Text × ZeroHitPointRule)
    → List CombatConditionRule
    → Result EncounterState
create_encounter encounter_id actors defenses rules condition_rules = do
  combatants ← new_combatants defenses rules actors
  encounter_state (record {
    encounter_id = encounter_id;
    status = preparing;
    combatants = combatants;
    initiative = [];
    round_number = 0;
    turn_index = 0;
    reaction_windows = [];
    condition_rules = condition_rules;
    event_sequence = 0;
  })

-- a row of `initiative_rows`, by which the order is sorted
pub record InitiativeRow : Type 0 where
  pub actor_id : Text
  pub total : ℤ
  pub dexterity_modifier : ℤ
  pub raw_roll : ℕ

-- the order of `(-total, -dexterity_modifier, actor_id)`
abbrev pub row_leb : InitiativeRow → InitiativeRow → Bool
row_leb =
    lex (λ a b. leb_ℤ b.total a.total)
      (lex (λ a b. leb_ℤ b.dexterity_modifier a.dexterity_modifier)
        (λ a b. text_leb a.actor_id b.actor_id))

-- what is asked of the rules for an initiative roll
unfoldable pub initiative_request :
    EncounterState → CombatantState → Result (ResolutionContext × AbilityScore)
initiative_request s c = do
  score ← score_of c.actor dexterity
  context ← resolution_context (record {
    context_id = text "initiative:" ++ (s.encounter_id ++ (text ":" ++ c.actor.actor_id));
    test_kind = ability_check;
    actor_id = c.actor.actor_id;
    ability = dexterity;
    proficiency_rank = no_rank;
    difficulty_class = none;
    target_id = none;
    reason = text "Initiative";
    tags = [];
  })
  ok (context, score)

unfoldable pub initiative_row : CombatantState → AbilityScore → D20Outcome → InitiativeRow
initiative_row c score outcome = record {
  actor_id = c.actor.actor_id;
  total = outcome.total;
  dexterity_modifier = ability_modifier score;
  raw_roll = outcome.selected_roll;
}

unfoldable pub initiative_event :
    EncounterState → InitiativeRow → DeterministicRng → Result CombatEvent
initiative_event current row rng = do
  after ← checkpoint rng
  new_event current (text "initiative.rolled") (some row.actor_id) none
      ((text "total", integer row.total)
        ∷ (text "dexterity_modifier", integer row.dexterity_modifier)
        ∷ (text "raw_roll", integer (pos row.raw_roll))
        ∷ [])
      (some after)

-- the loop's variables
pub record Rolling : Type 0 where
  pub current : EncounterState
  pub events : List CombatEvent
  pub rows : List InitiativeRow

unfoldable pub record_row : Rolling → InitiativeRow → DeterministicRng → Result Rolling
record_row r row rng = do
  event ← initiative_event r.current row rng
  current ← apply_combat_event r.current event
  ok (record { current = current; events = r.events ++ (event ∷ []); rows = r.rows ++ (row ∷ []) })

abbrev pub with_outcome :
    Rolling
    → CombatantState
    → AbilityScore
    → Result D20Outcome × DeterministicRng
    → Result Rolling × DeterministicRng
with_outcome r c score (err e, rng) = (err e, rng)
with_outcome r c score (ok outcome, rng) = (record_row r (initiative_row c score outcome) rng, rng)

abbrev pub with_request :
    RulesetCapabilities
    → Rolling
    → CombatantState
    → DeterministicRng
    → Result (ResolutionContext × AbilityScore)
    → Result Rolling × DeterministicRng
with_request capabilities r c rng (err e) = (err e, rng)
with_request capabilities r c rng (ok (context, score)) =
    with_outcome r c score
      (resolve_d20 capabilities rng context score c.actor.proficiency_bonus [] (pos 0) (pos 0))

-- one round of the loop over the combatants
unfoldable pub roll_initiative :
    RulesetCapabilities
    → EncounterState
    → Rolling
    → CombatantState
    → DeterministicRng
    → Result Rolling × DeterministicRng
roll_initiative capabilities s r c rng = with_request capabilities r c rng (initiative_request s c)

unfoldable pub roll_initiatives :
    RulesetCapabilities
    → EncounterState
    → Result Rolling × DeterministicRng
    → List CombatantState
    → Result Rolling × DeterministicRng
roll_initiatives capabilities s (err e, rng) cs = (err e, rng)
roll_initiatives capabilities s (ok r, rng) [] = (ok r, rng)
roll_initiatives capabilities s (ok r, rng) (c ∷ cs) =
    roll_initiatives capabilities s (roll_initiative capabilities s r c rng) cs

-- the event that fixes the order of initiative
unfoldable pub started_event : Rolling → Result CombatEvent
started_event r =
    new_event r.current (text "encounter.started") none none
      ((text "order", strings (map (λ row. row.actor_id) (sort row_leb r.rows))) ∷ []) none

-- the part of `start_encounter` behind the rolls
unfoldable pub begin_turns : Rolling → Result CombatTransition
begin_turns r = do
  started ← started_event r
  current ← apply_combat_event r.current started
  turn ← start_turn_event current 0 1
  current' ← apply_combat_event current turn
  ok (record { state = current'; events = r.events ++ (started ∷ turn ∷ []) })

abbrev pub is_preparing : EncounterStatus → Bool
is_preparing preparing = true
is_preparing _ = false

abbrev pub after_rolls :
    Result Rolling × DeterministicRng → Result CombatTransition × DeterministicRng
after_rolls (rolled, rng) = (rolled >>= begin_turns, rng)

-- `CombatRuntime.start_encounter`
unfoldable pub start_encounter :
    RulesetCapabilities
    → EncounterState
    → DeterministicRng
    → Result CombatTransition × DeterministicRng
start_encounter capabilities s rng =
    if is_preparing s.status
    then after_rolls (
        roll_initiatives capabilities s (ok (record { current = s; events = []; rows = [] }), rng)
          s.combatants)
    else (err validation_error, rng)
