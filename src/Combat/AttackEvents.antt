-- ===== src/Combat/AttackEvents.antt =====
-- `perform_attack` of combat/runtime.py: its events, replayed by combat/reducer.py.
use mathlib.Core.Path.{subst}
use godot_dn_dsimulator.Base.{
  ℕ, ◌≡◌, refl, ap, ◌∙◌, Bool, true, false, not, List, arith, some, Result, ok, err,
  validation_error, >>=-eq-ok, ok-injective, ◌==◌, guard,
}
use godot_dn_dsimulator.Base.Text.{Text}
use godot_dn_dsimulator.Rng.{DeterministicRng}
use godot_dn_dsimulator.Simulation.Engine.{checkpoint}
use godot_dn_dsimulator.Rules.Runtime.{RulesetCapabilities, D20Outcome, resolve_d20}
use godot_dn_dsimulator.Combat.Model.{is_dead}
use godot_dn_dsimulator.Combat.Encounter.{EncounterState, combatant}
use godot_dn_dsimulator.Combat.Damage.{damage_packet}
use godot_dn_dsimulator.Combat.Reducer.{apply_combat_event, replay_combat}
use godot_dn_dsimulator.Combat.Wounds.{CombatTransition, apply_damage}
use godot_dn_dsimulator.Combat.Turns.{assert_current_actor, condition_blocks, spend_action}
use godot_dn_dsimulator.Combat.Attacks.{
  AttackDefinition, AttackModifiers, AttackResult, PreparedAttack, StruckAttack, prepare_attack,
  attack_event, strike, deal_damage, roll_damage, damage_before, with_damage, resolve_hit,
  with_strike, with_d20, with_prepared, perform_attack,
}
use godot_dn_dsimulator.Combat.Emission.{
  replay_combat-append, replay_combat-snoc, spend_action-Emits, apply_damage-Emits,
}

prepare_attack-Emits :
    (s : EncounterState) (attacker_id target_id : Text) (attack : AttackDefinition)
    (p : PreparedAttack)
    → prepare_attack s attacker_id target_id attack ≡ ok p
    → replay_combat s p.spent.events ≡ ok p.spent.state
unfolding prepare_attack
prepare_attack-Emits s attacker_id target_id attack p h =
    let (attacker, _, h1) = >>=-eq-ok (assert_current_actor s attacker_id) _ h in
    let (target, _, h2) = >>=-eq-ok (combatant s target_id) _ h1 in
    let (_, _, h3) = >>=-eq-ok (guard (not (is_dead target.life_state)) validation_error) _ h2 in
    let (_, _, h4) =
      >>=-eq-ok (guard (not (condition_blocks s attacker attack.action_resource)) validation_error)
        _ h3 in
    let (spent, emitted, h5) = >>=-eq-ok (spend_action s attacker_id attack.action_resource) _ h4 in
    let same : spent ≡ p.spent = ground (arith, h5) in
    subst (λ (x : CombatTransition). replay_combat s x.events ≡ ok x.state) same
      (spend_action-Emits s attacker_id attack.action_resource spent emitted)

strike-Emits :
    (s : EncounterState) (p : PreparedAttack) (attacker_id target_id : Text)
    (attack : AttackDefinition) (outcome : D20Outcome) (rng : DeterministicRng) (a : StruckAttack)
    → replay_combat s p.spent.events ≡ ok p.spent.state
    → strike p attacker_id target_id attack outcome rng ≡ ok a
    → replay_combat s a.events ≡ ok a.current
unfolding strike
strike-Emits s p attacker_id target_id attack outcome rng a before h =
    let (event, _, h1) = >>=-eq-ok (attack_event p attacker_id target_id attack outcome rng) _ h in
    let (current, one, built) = >>=-eq-ok (apply_combat_event p.spent.state event) _ h1 in
    subst (λ (x : StruckAttack). replay_combat s x.events ≡ ok x.current) (ok-injective built)
      (replay_combat-snoc p.spent.events event s p.spent.state current before one)

deal_damage-Emits :
    (s : EncounterState) (attacker_id target_id : Text) (attack : AttackDefinition)
    (a : StruckAttack) (raw : List ℕ) (rng : DeterministicRng) (t : CombatTransition)
    (result : AttackResult)
    → replay_combat s a.events ≡ ok a.current
    → deal_damage attacker_id target_id attack a raw rng ≡ ok (t, result)
    → replay_combat s t.events ≡ ok t.state
unfolding deal_damage
deal_damage-Emits s attacker_id target_id attack a raw rng t result before h =
    let amount : ℕ = damage_before attack a.prepared.score raw in
    let (packet, _, h1) =
      >>=-eq-ok (damage_packet (record { amount = amount; damage_type = attack.damage_type })) _
        h in
    let (after, _, h2) = >>=-eq-ok (checkpoint rng) _ h1 in
    let ((u, adjustment), dealt, built) =
      >>=-eq-ok
        (apply_damage a.current target_id packet (some attacker_id) (a.outcome.selected_roll == 20)
          (some after))
        _ h2 in
    subst (λ (x : CombatTransition). replay_combat s x.events ≡ ok x.state)
      (ap (λ p. p.0) (ok-injective built))
      (replay_combat-append a.events u.events s a.current before
        ∙ apply_damage-Emits a.current target_id packet (some attacker_id) _ (some after) u
            adjustment dealt)

resolve_hit-Emits :
    (s : EncounterState) (attacker_id target_id : Text) (attack : AttackDefinition)
    (a : StruckAttack) (rng rng' : DeterministicRng) (hit : Bool) (t : CombatTransition)
    (result : AttackResult)
    → replay_combat s a.events ≡ ok a.current
    → resolve_hit attacker_id target_id attack a rng hit ≡ (ok (t, result), rng')
    → replay_combat s t.events ≡ ok t.state
unfolding resolve_hit
resolve_hit-Emits s attacker_id target_id attack a rng rng' false t result before h =
    subst (λ (x : CombatTransition). replay_combat s x.events ≡ ok x.state)
      (ap (λ p. p.0) (ok-injective (ap (λ p. p.0) h))) before
resolve_hit-Emits s attacker_id target_id attack a rng rng' true t result before h =
    damaged_by (roll_damage attack attacker_id target_id (a.outcome.selected_roll == 20) rng) h
  where
    damaged_by :
        (rolled : Result (List ℕ × DeterministicRng))
        → with_damage attacker_id target_id attack a rng rolled ≡ (ok (t, result), rng')
        → replay_combat s t.events ≡ ok t.state
    damaged_by (err e) k = absurd (cc)
    damaged_by (ok (raw, rng₀)) k =
        deal_damage-Emits s attacker_id target_id attack a raw rng₀ t result before
          (ap (λ p. p.0) k)

with_strike-Emits :
    (s : EncounterState) (attacker_id target_id : Text) (attack : AttackDefinition)
    (rng rng' : DeterministicRng) (struck : Result StruckAttack) (t : CombatTransition)
    (result : AttackResult)
    → ((a : StruckAttack) → struck ≡ ok a → replay_combat s a.events ≡ ok a.current)
    → with_strike attacker_id target_id attack rng struck ≡ (ok (t, result), rng')
    → replay_combat s t.events ≡ ok t.state
with_strike-Emits s attacker_id target_id attack rng rng' (err e) t result before h = absurd (cc)
with_strike-Emits s attacker_id target_id attack rng rng' (ok a) t result before h =
    resolve_hit-Emits s attacker_id target_id attack a rng rng' _ t result (before a refl) h

with_d20-Emits :
    (s : EncounterState) (p : PreparedAttack) (attacker_id target_id : Text)
    (attack : AttackDefinition) (rolled : Result D20Outcome × DeterministicRng)
    (rng' : DeterministicRng) (t : CombatTransition) (result : AttackResult)
    → replay_combat s p.spent.events ≡ ok p.spent.state
    → with_d20 p attacker_id target_id attack rolled ≡ (ok (t, result), rng')
    → replay_combat s t.events ≡ ok t.state
with_d20-Emits s p attacker_id target_id attack (err e, rng) rng' t result before h = absurd (cc)
with_d20-Emits s p attacker_id target_id attack (ok outcome, rng) rng' t result before h =
    with_strike-Emits s attacker_id target_id attack rng rng' _ t result
      (λ a. strike-Emits s p attacker_id target_id attack outcome rng a before) h

with_prepared-Emits :
    (capabilities : RulesetCapabilities) (s : EncounterState) (attacker_id target_id : Text)
    (attack : AttackDefinition) (m : AttackModifiers) (rng rng' : DeterministicRng)
    (prepared : Result PreparedAttack) (t : CombatTransition) (result : AttackResult)
    → prepare_attack s attacker_id target_id attack ≡ prepared
    → with_prepared capabilities attacker_id target_id attack m rng prepared
      ≡ (ok (t, result), rng')
    → replay_combat s t.events ≡ ok t.state
with_prepared-Emits capabilities s attacker_id target_id attack m rng rng' (err e) t result made h =
    absurd (cc)
with_prepared-Emits capabilities s attacker_id target_id attack m rng rng' (ok p) t result made h =
    with_d20-Emits s p attacker_id target_id attack
      (resolve_d20 capabilities rng p.context p.score p.attacker.actor.proficiency_bonus
        m.attack_roll m.advantage_sources m.disadvantage_sources)
      rng' t result (prepare_attack-Emits s attacker_id target_id attack p made) h

pub perform_attack-Emits :
    (capabilities : RulesetCapabilities) (s : EncounterState) (attacker_id target_id : Text)
    (attack : AttackDefinition) (m : AttackModifiers) (rng rng' : DeterministicRng)
    (t : CombatTransition) (result : AttackResult)
    → perform_attack capabilities s attacker_id target_id attack m rng ≡ (ok (t, result), rng')
    → replay_combat s t.events ≡ ok t.state
unfolding perform_attack
perform_attack-Emits capabilities s attacker_id target_id attack m rng rng' t result h =
    with_prepared-Emits capabilities s attacker_id target_id attack m rng rng' _ t result refl h
