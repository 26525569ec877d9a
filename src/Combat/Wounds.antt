-- ===== src/Combat/Wounds.antt =====
-- combat/runtime.py: events, damage, healing, temporary hit points and death saves. A command that
-- rolls returns its result beside the generator that it leaves.
use godot_dn_dsimulator.Base.{
  ℕ, ◌+◌, ◌-◌, min, Bool, true, false, not, ◌&&◌, Option, none, some, List, [], ◌∷◌, leb, ltb, ◌==◌,
  if◌then◌else◌, Result, ok, err, validation_error, guard, ◌>>=◌, ◌>>◌,
}
use godot_dn_dsimulator.Base.Int.{ℤ, pos, negsuc}
use godot_dn_dsimulator.Base.Text.{Text, text}
use godot_dn_dsimulator.Rng.{DeterministicRng, roll_die}
use godot_dn_dsimulator.Simulation.Model.{RngCheckpoint}
use godot_dn_dsimulator.Simulation.Engine.{checkpoint}
use godot_dn_dsimulator.Combat.Model.{
  is_active, is_dead, LifeState, conscious, unconscious, stable, dead, life_value, ZeroHitPointRule,
  character, monster, TemporaryHitPointChoice, keep_current, take_new, DeathSaveTrack,
  CombatantState,
}
use godot_dn_dsimulator.Combat.Encounter.{
  EventPayload, string, integer, boolean, CombatEvent, combat_event, combat_event_schema_version,
  EncounterState, combatant, next_sequence,
}
use godot_dn_dsimulator.Combat.Damage.{DamagePacket, DamageAdjustment, adjust_damage}
use godot_dn_dsimulator.Combat.Reducer.{apply_combat_event}

pub record CombatTransition : Type 0 where
  pub state : EncounterState
  pub events : List CombatEvent

-- `_event`
unfoldable pub new_event :
    EncounterState
    → Text
    → Option Text
    → Option Text
    → EventPayload
    → Option RngCheckpoint
    → Result CombatEvent
new_event s event_type actor_id target_id payload rng_after = combat_event (record {
  sequence = next_sequence s;
  event_type = event_type;
  actor_id = actor_id;
  target_id = target_id;
  payload = payload;
  schema_version = combat_event_schema_version;
  rng_after = rng_after;
})

-- `CombatTransition(self._apply(state, event), (event,))`
unfoldable pub apply_one : EncounterState → CombatEvent → Result CombatTransition
apply_one s e = do s' ← apply_combat_event s e; ok (record { state = s'; events = e ∷ [] })

unfoldable pub emit : EncounterState → Result CombatEvent → Result CombatTransition
emit s event = event >>= apply_one s

-- `_assert_active`
unfoldable pub assert_active : EncounterState → Result (Unit {0})
assert_active s = guard (is_active s.status) validation_error

-- what damage or healing makes of a combatant
pub record Condition : Type 0 where
  pub hp_after : ℕ
  pub temporary_after : ℕ
  pub life : LifeState
  pub saves : DeathSaveTrack

-- the failures that damage at 0 hit points adds
abbrev failed_by : Bool → ℕ
failed_by true = 2
failed_by false = 1

abbrev no_saves : DeathSaveTrack
no_saves = record { successes = 0; failures = 0 }

-- damage at 0 hit points that does not kill at once: only characters fail death saves
abbrev pub fail_saves :
    ZeroHitPointRule → LifeState → DeathSaveTrack → Bool → LifeState × DeathSaveTrack
fail_saves monster life saves critical = (life, saves)
fail_saves character life saves critical =
    let failures = min 3 (saves.failures + failed_by critical) in
    (if leb 3 failures then dead else unconscious, record saves { failures = failures })

-- a fall to 0 hit points
abbrev pub fall : ZeroHitPointRule → ℕ → ℕ → DeathSaveTrack → LifeState × DeathSaveTrack
fall monster leftover maximum saves = (dead, saves)
fall character leftover maximum saves =
    if leb maximum leftover then (dead, saves) else (unconscious, no_saves)

-- the life state and the death saves after damage
unfoldable pub life_after : CombatantState → ℕ → ℕ → ℕ → ℕ → Bool → LifeState × DeathSaveTrack
life_after c amount hp_after leftover maximum critical =
    if (c.actor.hit_points.current == 0) && ltb 0 amount
    then if leb maximum amount
      then (dead, c.death_saves)
      else fail_saves c.zero_hp_rule c.life_state c.death_saves critical
    else if ltb 0 c.actor.hit_points.current && (hp_after == 0)
    then fall c.zero_hp_rule leftover maximum c.death_saves
    else (c.life_state, c.death_saves)

-- temporary hit points absorb first; subtraction stops at 0, as the source's `max(0, ...)` does
unfoldable pub damaged : CombatantState → ℕ → Bool → Condition
damaged c amount critical =
    let hp = c.actor.hit_points in
    let absorbed = min hp.temporary amount in
    let remaining = amount - absorbed in
    let after =
      life_after c amount (hp.current - remaining) (remaining - hp.current) hp.maximum critical in
    record {
      hp_after = hp.current - remaining;
      temporary_after = hp.temporary - absorbed;
      life = after.0;
      saves = after.1;
    }

unfoldable pub damage_payload : DamagePacket → ℕ → Condition → Bool → EventPayload
damage_payload packet amount after critical =
    (text "damage_type", string packet.damage_type)
    ∷ (text "raw_amount", integer (pos packet.amount))
    ∷ (text "adjusted_amount", integer (pos amount))
    ∷ (text "temporary_after", integer (pos after.temporary_after))
    ∷ (text "hp_after", integer (pos after.hp_after))
    ∷ (text "life_state", string (life_value after.life))
    ∷ (text "death_successes", integer (pos after.saves.successes))
    ∷ (text "death_failures", integer (pos after.saves.failures))
    ∷ (text "critical", boolean critical)
    ∷ []

-- `apply_damage` on the target that was found
unfoldable pub damage_target :
    EncounterState
    → Text
    → DamagePacket
    → Option Text
    → Bool
    → Option RngCheckpoint
    → CombatantState
    → Result CombatTransition
damage_target s target_id packet source_actor_id critical rng_after c =
    let amount = (adjust_damage packet c.defenses).adjusted_amount in
    emit s (
      new_event s (text "damage.applied") source_actor_id (some target_id)
        (damage_payload packet amount (damaged c amount critical) critical) rng_after)

-- `CombatRuntime.apply_damage`
unfoldable pub apply_damage :
    EncounterState
    → Text
    → DamagePacket
    → Option Text
    → Bool
    → Option RngCheckpoint
    → Result (CombatTransition × DamageAdjustment)
apply_damage s target_id packet source_actor_id critical rng_after = do
  assert_active s
  c ← combatant s target_id
  guard (not (is_dead c.life_state)) validation_error
  t ← damage_target s target_id packet source_actor_id critical rng_after c
  ok (t, adjust_damage packet c.defenses)

-- healing never exceeds the maximum, and ends unconsciousness and its death saves
unfoldable pub healed : CombatantState → ℕ → Condition
healed c amount =
    let hp = c.actor.hit_points in
    let after = min hp.maximum (hp.current + amount) in
    record {
      hp_after = after;
      temporary_after = hp.temporary;
      life = if ltb 0 after then conscious else c.life_state;
      saves = if after == 0 then c.death_saves else no_saves;
    }

unfoldable pub healing_payload : ℕ → Condition → EventPayload
healing_payload amount after =
    (text "amount", integer (pos amount))
    ∷ (text "temporary_after", integer (pos after.temporary_after))
    ∷ (text "hp_after", integer (pos after.hp_after))
    ∷ (text "life_state", string (life_value after.life))
    ∷ (text "death_successes", integer (pos after.saves.successes))
    ∷ (text "death_failures", integer (pos after.saves.failures))
    ∷ []

-- `CombatRuntime.heal`
unfoldable pub heal : EncounterState → Text → ℤ → Option Text → Result CombatTransition
heal s target_id (negsuc _) source_actor_id = do assert_active s; err validation_error
heal s target_id (pos amount) source_actor_id = do
  assert_active s
  c ← combatant s target_id
  guard (not (is_dead c.life_state)) validation_error
  emit s (
      new_event s (text "healing.applied") source_actor_id (some target_id)
        (healing_payload amount (healed c amount)) none)

unfoldable pub temporary_after : ℕ → ℕ → TemporaryHitPointChoice → ℕ
temporary_after current amount take_new = amount
temporary_after current amount keep_current = if current == 0 then amount else current

-- `CombatRuntime.grant_temporary_hp`
unfoldable pub grant_temporary_hp :
    EncounterState → Text → ℤ → TemporaryHitPointChoice → Result CombatTransition
grant_temporary_hp s target_id (negsuc _) choice = do assert_active s; err validation_error
grant_temporary_hp s target_id (pos amount) choice = do
  assert_active s
  c ← combatant s target_id
  emit s (
      new_event s (text "temporary_hp.changed") none (some target_id)
        ((
          text "temporary_after",
          integer (pos (temporary_after c.actor.hit_points.temporary amount choice)),
        )
          ∷ [])
        none)

-- the tests on the roll of a death save: the hit points, the successes and the failures
abbrev pub count_save : DeathSaveTrack → ℕ → DeathSaveTrack
count_save saves roll =
    if roll == 20
    then no_saves
    else if roll == 1
    then record saves { failures = min 3 (saves.failures + 2) }
    else if leb 10 roll
    then record saves { successes = min 3 (saves.successes + 1) }
    else record saves { failures = min 3 (saves.failures + 1) }

-- the tests on the counts
unfoldable pub settle_save : LifeState → DeathSaveTrack → LifeState × DeathSaveTrack
settle_save life saves =
    if leb 3 saves.failures
    then (dead, saves)
    else if leb 3 saves.successes
    then (stable, no_saves)
    else (life, saves)

unfoldable pub death_save : CombatantState → ℕ → Condition
death_save c roll =
    let settled =
      settle_save (if roll == 20 then conscious else c.life_state)
        (count_save c.death_saves roll) in
    record {
      hp_after = if roll == 20 then 1 else 0;
      temporary_after = c.actor.hit_points.temporary;
      life = settled.0;
      saves = settled.1;
    }

unfoldable pub death_save_payload : ℕ → Condition → EventPayload
death_save_payload roll after =
    (text "roll", integer (pos roll))
    ∷ (text "hp_after", integer (pos after.hp_after))
    ∷ (text "temporary_after", integer (pos after.temporary_after))
    ∷ (text "life_state", string (life_value after.life))
    ∷ (text "death_successes", integer (pos after.saves.successes))
    ∷ (text "death_failures", integer (pos after.saves.failures))
    ∷ []

abbrev pub is_character : ZeroHitPointRule → Bool
is_character character = true
is_character monster = false

abbrev pub is_unconscious : LifeState → Bool
is_unconscious unconscious = true
is_unconscious _ = false

-- the combatant whose death save it is
unfoldable pub death_save_target : EncounterState → Text → Result CombatantState
death_save_target s actor_id = do
  c ← combatant s actor_id
  guard (is_character c.zero_hp_rule) validation_error
  guard (is_unconscious c.life_state && (c.actor.hit_points.current == 0)) validation_error
  ok c

-- the event of the roll
unfoldable pub death_save_rolled :
    EncounterState → Text → CombatantState → ℕ → DeterministicRng → Result CombatEvent
death_save_rolled s actor_id c roll rng = do
  after ← checkpoint rng
  new_event s (text "death_save.resolved") (some actor_id) (some actor_id)
      (death_save_payload roll (death_save c roll)) (some after)

abbrev with_roll :
    EncounterState
    → Text
    → CombatantState
    → DeterministicRng
    → Result (ℕ × DeterministicRng)
    → Result CombatEvent × DeterministicRng
with_roll s actor_id c rng (err e) = (err e, rng)
with_roll s actor_id c rng (ok (roll, rng')) = (death_save_rolled s actor_id c roll rng', rng')

abbrev roll_for :
    EncounterState
    → Text
    → DeterministicRng
    → Result CombatantState
    → Result CombatEvent × DeterministicRng
roll_for s actor_id rng (err e) = (err e, rng)
roll_for s actor_id rng (ok c) = with_roll s actor_id c rng (roll_die (pos 20) rng)

-- `_death_save_event`
unfoldable pub death_save_event :
    EncounterState → Text → DeterministicRng → Result CombatEvent × DeterministicRng
death_save_event s actor_id rng = roll_for s actor_id rng (death_save_target s actor_id)
