-- ===== src/Combat/Attacks.antt =====
-- combat/attacks.py, and `perform_attack` of combat/runtime.py.
use godot_dn_dsimulator.Base.{
  ℕ, Bool, true, false, not, ◌&&◌, ◌||◌, Option, none, some, List, [], ◌∷◌, ◌++◌, ◌==◌,
  if◌then◌else◌, Result, ok, err, validation_error, guard, ◌>>=◌, ◌>>◌,
}
use godot_dn_dsimulator.Base.Int.{ℤ, pos, ◌+ℤ◌, leb_ℤ, eqb_ℤ, pos_part}
use godot_dn_dsimulator.Base.Text.{Text, text, is_blank}
use godot_dn_dsimulator.Base.Decimal.{show}
use godot_dn_dsimulator.Rng.{DeterministicRng}
use godot_dn_dsimulator.Dice.{DiceExpression, dice_expression, roll_expression, sum}
use godot_dn_dsimulator.Simulation.Engine.{checkpoint}
use godot_dn_dsimulator.Rules.Primitives.{
  Ability, AbilityScore, ability_modifier, ProficiencyRank, attack_roll,
}
use godot_dn_dsimulator.Rules.Modifiers.{RuleModifier}
use godot_dn_dsimulator.Rules.Runtime.{
  RulesetCapabilities, ResolutionContext, resolution_context, D20Outcome, resolve_d20,
}
use godot_dn_dsimulator.Actors.Model.{score_of}
use godot_dn_dsimulator.Combat.Model.{ActionResource, is_dead, CombatantState}
use godot_dn_dsimulator.Combat.Encounter.{
  string, integer, boolean, CombatEvent, EncounterState, combatant, next_sequence,
}
use godot_dn_dsimulator.Combat.Damage.{damage_packet, DamageAdjustment}
use godot_dn_dsimulator.Combat.Reducer.{apply_combat_event}
use godot_dn_dsimulator.Combat.Wounds.{CombatTransition, new_event, apply_damage}
use godot_dn_dsimulator.Combat.Turns.{
  assert_current_actor, condition_blocks, is_reaction, spend_action,
}

pub record AttackDefinition : Type 0 where
  pub attack_id : Text
  pub ability : Ability
  pub proficiency_rank : ProficiencyRank
  pub damage_dice : DiceExpression
  pub damage_type : Text
  pub damage_bonus : ℤ
  pub add_ability_to_damage : Bool
  pub action_resource : ActionResource

unfoldable pub attack_definition : AttackDefinition → Result AttackDefinition
attack_definition a = do
  guard (not (is_blank a.attack_id)) validation_error
  guard (eqb_ℤ a.damage_dice.modifier (pos 0)) validation_error
  guard (not (is_blank a.damage_type)) validation_error
  guard (not (is_reaction a.action_resource)) validation_error
  ok a

pub record AttackModifiers : Type 0 where
  pub attack_roll : List RuleModifier
  pub advantage_sources : ℤ
  pub disadvantage_sources : ℤ

pub record AttackResult : Type 0 where
  pub attack_id : Text
  pub attacker_id : Text
  pub target_id : Text
  pub d20 : D20Outcome
  pub target_armor_class : ℕ
  pub hit : Bool
  pub critical : Bool
  pub damage_raw_rolls : List ℕ
  pub damage_before_defenses : ℕ
  pub damage_adjustment : Option DamageAdjustment

-- what `perform_attack` has before it rolls
pub record PreparedAttack : Type 0 where
  pub attacker : CombatantState
  pub target : CombatantState
  pub spent : CombatTransition
  pub context : ResolutionContext
  pub score : AbilityScore

unfoldable pub prepare_attack :
    EncounterState → Text → Text → AttackDefinition → Result PreparedAttack
prepare_attack s attacker_id target_id attack = do
  attacker ← assert_current_actor s attacker_id
  target ← combatant s target_id
  guard (not (is_dead target.life_state)) validation_error
  guard (not (condition_blocks s attacker attack.action_resource)) validation_error
  spent ← spend_action s attacker_id attack.action_resource
  context ← resolution_context (record {
    context_id =
        text "attack:"
        ++ (s.encounter_id
            ++ (text ":" ++ (attack.attack_id ++ (text ":" ++ show (next_sequence s)))));
    test_kind = attack_roll;
    actor_id = attacker_id;
    ability = attack.ability;
    proficiency_rank = attack.proficiency_rank;
    difficulty_class = none;
    target_id = some target_id;
    reason = attack.attack_id;
    tags = [];
  })
  score ← score_of attacker.actor attack.ability
  ok (record {
    attacker = attacker;
    target = target;
    spent = spent;
    context = context;
    score = score;
  })

-- a natural 20 hits and is critical, a natural 1 misses, else the total must reach the armor class
unfoldable pub hits : ℕ → ℤ → ℕ → Bool
hits natural total armor_class =
    natural == 20 || (not (natural == 1) && leb_ℤ (pos armor_class) total)

-- the attack's event and the state after it
unfoldable pub attack_event :
    PreparedAttack
    → Text
    → Text
    → AttackDefinition
    → D20Outcome
    → DeterministicRng
    → Result CombatEvent
attack_event p attacker_id target_id attack outcome rng = do
  after ← checkpoint rng
  let ac = p.target.actor.defense.armor_class
  new_event p.spent.state (text "attack.resolved") (some attacker_id) (some target_id)
      ((text "attack_id", string attack.attack_id)
        ∷ (text "natural_roll", integer (pos outcome.selected_roll))
        ∷ (text "total", integer outcome.total)
        ∷ (text "target_armor_class", integer (pos ac))
        ∷ (text "hit", boolean (hits outcome.selected_roll outcome.total ac))
        ∷ (text "critical", boolean (outcome.selected_roll == 20))
        ∷ [])
      (some after)

-- the damage dice, once or twice
unfoldable pub roll_damage :
    AttackDefinition → Text → Text → Bool → DeterministicRng → Result (List ℕ × DeterministicRng)
roll_damage attack attacker_id target_id critical rng = do
  base ← dice_expression (pos attack.damage_dice.count) (pos attack.damage_dice.sides) (pos 0)
  (roll, rng') ←
      roll_expression base rng (attack.attack_id ++ text ":damage") (some attacker_id)
        (some target_id)
  more base roll.raw_rolls rng' critical
  where
    more : DiceExpression → List ℕ → DeterministicRng → Bool → Result (List ℕ × DeterministicRng)
    more base raw rng' false = ok (raw, rng')
    more base raw rng' true = do
      (roll, rng'') ←
          roll_expression base rng' (attack.attack_id ++ text ":critical-damage") (some attacker_id)
            (some target_id)
      ok (raw ++ roll.raw_rolls, rng'')

-- `max(0, sum(damage_raw) + ability_bonus + attack.damage_bonus)`
unfoldable pub damage_before : AttackDefinition → AbilityScore → List ℕ → ℕ
damage_before attack score raw = pos_part (
    pos (sum raw)
    +ℤ (if attack.add_ability_to_damage then ability_modifier score else pos 0)
    +ℤ attack.damage_bonus)

-- what is known once the event of the attack has been applied
pub record StruckAttack : Type 0 where
  pub prepared : PreparedAttack
  pub outcome : D20Outcome
  pub current : EncounterState
  pub events : List CombatEvent

unfoldable pub attack_result :
    Text
    → Text
    → AttackDefinition
    → StruckAttack
    → List ℕ
    → ℕ
    → Option DamageAdjustment
    → AttackResult
attack_result attacker_id target_id attack a raw before adjustment =
    let ac = a.prepared.target.actor.defense.armor_class in
    record {
      attack_id = attack.attack_id;
      attacker_id = attacker_id;
      target_id = target_id;
      d20 = a.outcome;
      target_armor_class = ac;
      hit = hits a.outcome.selected_roll a.outcome.total ac;
      critical = a.outcome.selected_roll == 20;
      damage_raw_rolls = raw;
      damage_before_defenses = before;
      damage_adjustment = adjustment;
    }

-- the damage of a hit
unfoldable pub deal_damage :
    Text
    → Text
    → AttackDefinition
    → StruckAttack
    → List ℕ
    → DeterministicRng
    → Result (CombatTransition × AttackResult)
deal_damage attacker_id target_id attack a raw rng = do
  let before = damage_before attack a.prepared.score raw
  packet ← damage_packet (record { amount = before; damage_type = attack.damage_type })
  after ← checkpoint rng
  (t, adjustment) ←
      apply_damage a.current target_id packet (some attacker_id) (a.outcome.selected_roll == 20)
        (some after)
  ok (
    record { state = t.state; events = a.events ++ t.events },
    attack_result attacker_id target_id attack a raw before (some adjustment),
  )

abbrev pub with_damage :
    Text
    → Text
    → AttackDefinition
    → StruckAttack
    → DeterministicRng
    → Result (List ℕ × DeterministicRng)
    → Result (CombatTransition × AttackResult) × DeterministicRng
with_damage attacker_id target_id attack a rng (err e) = (err e, rng)
with_damage attacker_id target_id attack a rng (ok (raw, rng')) =
    (deal_damage attacker_id target_id attack a raw rng', rng')

-- the end of `perform_attack`: damage if the attack hits
unfoldable pub resolve_hit :
    Text
    → Text
    → AttackDefinition
    → StruckAttack
    → DeterministicRng
    → Bool
    → Result (CombatTransition × AttackResult) × DeterministicRng
resolve_hit attacker_id target_id attack a rng false = (
  ok (
    record { state = a.current; events = a.events },
    attack_result attacker_id target_id attack a [] 0 none,
  ),
  rng,
)
resolve_hit attacker_id target_id attack a rng true =
    with_damage attacker_id target_id attack a rng
      (roll_damage attack attacker_id target_id (a.outcome.selected_roll == 20) rng)

unfoldable pub strike :
    PreparedAttack
    → Text
    → Text
    → AttackDefinition
    → D20Outcome
    → DeterministicRng
    → Result StruckAttack
strike p attacker_id target_id attack outcome rng = do
  event ← attack_event p attacker_id target_id attack outcome rng
  current ← apply_combat_event p.spent.state event
  ok (record {
    prepared = p;
    outcome = outcome;
    current = current;
    events = p.spent.events ++ (event ∷ []);
  })

abbrev pub with_strike :
    Text
    → Text
    → AttackDefinition
    → DeterministicRng
    → Result StruckAttack
    → Result (CombatTransition × AttackResult) × DeterministicRng
with_strike attacker_id target_id attack rng (err e) = (err e, rng)
with_strike attacker_id target_id attack rng (ok a) =
    resolve_hit attacker_id target_id attack a rng
      (hits a.outcome.selected_roll a.outcome.total a.prepared.target.actor.defense.armor_class)

abbrev pub with_d20 :
    PreparedAttack
    → Text
    → Text
    → AttackDefinition
    → Result D20Outcome × DeterministicRng
    → Result (CombatTransition × AttackResult) × DeterministicRng
with_d20 p attacker_id target_id attack (err e, rng) = (err e, rng)
with_d20 p attacker_id target_id attack (ok outcome, rng) =
    with_strike attacker_id target_id attack rng (strike p attacker_id target_id attack outcome rng)

abbrev pub with_prepared :
    RulesetCapabilities
    → Text
    → Text
    → AttackDefinition
    → AttackModifiers
    → DeterministicRng
    → Result PreparedAttack
    → Result (CombatTransition × AttackResult) × DeterministicRng
with_prepared capabilities attacker_id target_id attack m rng (err e) = (err e, rng)
with_prepared capabilities attacker_id target_id attack m rng (ok p) =
    with_d20 p attacker_id target_id attack (
      resolve_d20 capabilities rng p.context p.score p.attacker.actor.proficiency_bonus
        m.attack_roll m.advantage_sources m.disadvantage_sources)

-- `CombatRuntime.perform_attack`
unfoldable pub perform_attack :
    RulesetCapabilities
    → EncounterState
    → Text
    → Text
    → AttackDefinition
    → AttackModifiers
    → DeterministicRng
    → Result (CombatTransition × AttackResult) × DeterministicRng
perform_attack capabilities s attacker_id target_id attack m rng =
    with_prepared capabilities attacker_id target_id attack m rng
      (prepare_attack s attacker_id target_id attack)
