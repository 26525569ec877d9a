-- ===== src/Combat/Vitals.antt =====
-- combat/runtime.py and combat/reducer.py: damage and healing from the command to the state.
use mathlib.Core.Path.{subst}
use godot_dn_dsimulator.Base.{
  ℕ, ◌+◌, ◌≡◌, refl, ap, ◌∙◌, sym, Bool, true, not, arith, Option, none, some, ok, validation_error,
  ◌>>=◌, >>=-eq-ok, guard, or_raise, ok-injective, ◌==◌,
}
use godot_dn_dsimulator.Base.Int.{pos}
use godot_dn_dsimulator.Base.Text.{Text, text, text_eq}
use godot_dn_dsimulator.Base.Sort.{sort}
use godot_dn_dsimulator.Base.Keyed.{find_key, unique_keys, key_leb, find_key-sort}
use godot_dn_dsimulator.Simulation.Model.{RngCheckpoint, entry_key}
use godot_dn_dsimulator.Actors.Model.{HitPoints}
use godot_dn_dsimulator.Combat.Model.{
  LifeState, conscious, unconscious, stable, dead, life_state, life_value, CombatantState, is_dead,
}
use godot_dn_dsimulator.Combat.Encounter.{
  EventValue, string, integer, EventPayload, CombatEvent, combat_event, value_of, EncounterState,
  encounter_state, combatant,
}
use godot_dn_dsimulator.Combat.Damage.{DamagePacket, DamageAdjustment, adjust_damage}
use godot_dn_dsimulator.Combat.Reducer.{
  int_value, str_value, hit_points_changed, event_kind, apply_kind, apply_hit_points,
  apply_combat_event,
}
use godot_dn_dsimulator.Combat.Wounds.{
  CombatTransition, Condition, new_event, apply_one, emit, assert_active, damaged, damage_payload,
  damage_target, apply_damage, healed, healing_payload, heal,
}
use godot_dn_dsimulator.Combat.Lookup.{combatant-encounter_state}
use godot_dn_dsimulator.Combat.Outcome.{Shows, Carries, apply_hit_points-Shows}

life_state-life_value : (life : LifeState) → life_state (life_value life) ≡ ok life
unfolding life_state life_value text_eq
life_state-life_value conscious = refl
life_state-life_value unconscious = refl
life_state-life_value stable = refl
life_state-life_value dead = refl

-- what a payload says under a key
abbrev pub Says : EventPayload → Text → EventValue → Type 0
Says payload key v = find_key entry_key key payload ≡ some (key, v)

-- The vitals that a payload says.
pub record SaysVitals (payload : EventPayload) (after : Condition) : Type 0 where
  pub hp : Says payload (text "hp_after") (integer (pos after.hp_after))
  pub temporary : Says payload (text "temporary_after") (integer (pos after.temporary_after))
  pub life : Says payload (text "life_state") (string (life_value after.life))
  pub successes : Says payload (text "death_successes") (integer (pos after.saves.successes))
  pub failures : Says payload (text "death_failures") (integer (pos after.saves.failures))

-- the event that its constructor accepts has the sorted payload
pub combat_event-eq-ok :
    (given e : CombatEvent)
    → combat_event given ≡ ok e
    → (unique_keys entry_key given.payload ≡ true)
      × (record given { payload = sort (key_leb entry_key) given.payload } ≡ e)
unfolding combat_event
combat_event-eq-ok given e h = ground arith

pub value_of-combat_event :
    (given e : CombatEvent) (key : Text) (v : EventValue)
    → combat_event given ≡ ok e
    → Says given.payload key v
    → value_of e key ≡ ok v
unfolding value_of
value_of-combat_event given e key v h says =
    let (unique, made) = combat_event-eq-ok given e h in
    let found = find_key-sort entry_key (key_leb entry_key) key given.payload unique in
    subst (λ (x : CombatEvent). value_of x key ≡ ok v) made (unfold value_of in rw (found, says))

combat_event-Carries :
    (given e : CombatEvent) (id : Text) (after : Condition)
    → combat_event given ≡ ok e
    → given.target_id ≡ some id
    → SaysVitals given.payload after
    → Carries e id after.hp_after after.temporary_after after.life after.saves
unfolding int_value str_value
combat_event-Carries given e id after h target says =
    let made = (combat_event-eq-ok given e h).1 in
    record {
      target = ap (λ (x : CombatEvent). x.target_id) (sym made) ∙ target;
      hp_after = rw (value_of-combat_event given e (text "hp_after") _ h says.hp);
      temporary_after =
          rw (value_of-combat_event given e (text "temporary_after") _ h says.temporary);
      life_after = rw (
        value_of-combat_event given e (text "life_state") _ h says.life,
        life_state-life_value after.life,
      );
      successes = rw (value_of-combat_event given e (text "death_successes") _ h says.successes);
      failures = rw (value_of-combat_event given e (text "death_failures") _ h says.failures);
    }

-- the hit points of a combatant after something happened to it
abbrev pub points_after : CombatantState → Condition → HitPoints
points_after c after = record {
  current = after.hp_after;
  maximum = c.actor.hit_points.maximum;
  temporary = after.temporary_after;
}

apply_combat_event-Shows :
    (s t : EncounterState) (e : CombatEvent) (id : Text) (c : CombatantState) (after : Condition)
    → event_kind e.event_type ≡ some hit_points_changed
    → Carries e id after.hp_after after.temporary_after after.life after.saves
    → combatant s id ≡ ok c
    → apply_combat_event s e ≡ ok t
    → Shows s t id (points_after c after) after.life after.saves
unfolding apply_combat_event apply_kind combatant
apply_combat_event-Shows s t e id c after kind carries at h =
    let (_, _, h1) = >>=-eq-ok (guard (e.sequence == s.event_sequence + 1) validation_error) _ h in
    let (s', numbered, h2) =
      >>=-eq-ok (encounter_state (record s { event_sequence = e.sequence })) _ h1 in
    let applied : apply_hit_points s' e ≡ ok t =
      ap (λ k. or_raise k validation_error >>= λ k'. apply_kind k' s' e) (sym kind) ∙ h2 in
    let same = λ (other : Text).
      combatant-encounter_state (record s { event_sequence = e.sequence }) s' other numbered in
    let shows =
      apply_hit_points-Shows s' t e id c after.hp_after after.temporary_after after.life after.saves
        carries (same id ∙ at) applied in
    record {
      shown = shows.shown;
      found = shows.found;
      same_hp = shows.same_hp;
      same_life = shows.same_life;
      same_saves = shows.same_saves;
      others = λ other apart. shows.others other apart ∙ same other;
    }

emit-Shows :
    (s : EncounterState) (given : CombatEvent) (t : CombatTransition) (id : Text)
    (c : CombatantState) (after : Condition)
    → event_kind given.event_type ≡ some hit_points_changed
    → given.target_id ≡ some id
    → SaysVitals given.payload after
    → combatant s id ≡ ok c
    → emit s (combat_event given) ≡ ok t
    → Shows s t.state id (points_after c after) after.life after.saves
unfolding emit apply_one
emit-Shows s given t id c after kind target says at h =
    let (e, made, h1) = >>=-eq-ok (combat_event given) (apply_one s) h in
    let (u, applied, built) = >>=-eq-ok (apply_combat_event s e) _ h1 in
    let same : event_kind e.event_type ≡ some hit_points_changed =
      ap (λ (x : CombatEvent). event_kind x.event_type) (sym (combat_event-eq-ok given e made).1)
      ∙ kind in
    subst
      (λ (x : CombatTransition). Shows s x.state id (points_after c after) after.life after.saves)
      (ok-injective built)
      (apply_combat_event-Shows s u e id c after same
        (combat_event-Carries given e id after made target says) at applied)

damage_payload-SaysVitals :
    (packet : DamagePacket) (amount : ℕ) (after : Condition) (critical : Bool)
    → SaysVitals (damage_payload packet amount after critical) after
unfolding damage_payload find_key text_eq
damage_payload-SaysVitals packet amount after critical = record {
  hp = refl;
  temporary = refl;
  life = refl;
  successes = refl;
  failures = refl;
}

healing_payload-SaysVitals :
    (amount : ℕ) (after : Condition) → SaysVitals (healing_payload amount after) after
unfolding healing_payload find_key text_eq
healing_payload-SaysVitals amount after = record {
  hp = refl;
  temporary = refl;
  life = refl;
  successes = refl;
  failures = refl;
}

damage_kind : event_kind (text "damage.applied") ≡ some hit_points_changed
unfolding event_kind text_eq
damage_kind = refl

healing_kind : event_kind (text "healing.applied") ≡ some hit_points_changed
unfolding event_kind text_eq
healing_kind = refl

-- After damage the target has exactly the hit points, the life state and the death saves that the
-- resolution of the adjusted damage gives, and every other combatant is found as before.
pub apply_damage-Shows :
    (s : EncounterState) (id : Text) (packet : DamagePacket) (source : Option Text)
    (critical : Bool) (rng_after : Option RngCheckpoint) (c : CombatantState) (t : CombatTransition)
    (adjustment : DamageAdjustment)
    → combatant s id ≡ ok c
    → apply_damage s id packet source critical rng_after ≡ ok (t, adjustment)
    → let after = damaged c (adjust_damage packet c.defenses).adjusted_amount critical in
      Shows s t.state id (points_after c after) after.life after.saves
unfolding apply_damage damage_target new_event
apply_damage-Shows s id packet source critical rng_after c t adjustment at h =
    let (_, _, h1) = >>=-eq-ok (assert_active s) _ h in
    let (c', found, h2) = >>=-eq-ok (combatant s id) _ h1 in
    let (_, _, h3) = >>=-eq-ok (guard (not (is_dead c'.life_state)) validation_error) _ h2 in
    let (u, emitted, built) =
      >>=-eq-ok (damage_target s id packet source critical rng_after c') _ h3 in
    let same : c' ≡ c = ok-injective (sym found ∙ at) in
    let amount : ℕ = (adjust_damage packet c.defenses).adjusted_amount in
    emit-Shows s _ t id c (damaged c amount critical) damage_kind refl
      (damage_payload-SaysVitals packet amount (damaged c amount critical) critical) at
      (ap (damage_target s id packet source critical rng_after) (sym same)
        ∙ emitted
        ∙ ap ok (ap (λ p. p.0) (ok-injective built)))

-- After healing the target has exactly the hit points, the life state and the death saves that the
-- resolution of the healing gives, and every other combatant is found as before.
pub heal-Shows :
    (s : EncounterState) (id : Text) (amount : ℕ) (source : Option Text) (c : CombatantState)
    (t : CombatTransition)
    → combatant s id ≡ ok c
    → heal s id (pos amount) source ≡ ok t
    → Shows s t.state id
        (points_after c (healed c amount))
        (healed c amount).life
        (healed c amount).saves
unfolding heal new_event
heal-Shows s id amount source c t at h =
    let (_, _, h1) = >>=-eq-ok (assert_active s) _ h in
    let (c', found, h2) = >>=-eq-ok (combatant s id) _ h1 in
    let (_, _, emitted) = >>=-eq-ok (guard (not (is_dead c'.life_state)) validation_error) _ h2 in
    let same : c ≡ c' = ok-injective (sym at ∙ found) in
    emit-Shows s _ t id c (healed c amount) healing_kind refl
      (healing_payload-SaysVitals amount (healed c amount)) at
      (ap
          (λ (x : CombatantState). emit s (
            new_event s (text "healing.applied") source (some id)
              (healing_payload amount (healed x amount)) none))
          same
        ∙ emitted)
