-- ===== src/Combat/Soundness.antt =====
-- combat/reducer.py: the invariant of an encounter, event by event.
use mathlib.Core.Path.{subst}
use godot_dn_dsimulator.Base.{
  ℕ, ◌+◌, ◌≤◌, ◌≡◌, ap, ◌∙◌, sym, List, [], ◌∷◌, arith, Result, ok, ◌>>=◌, >>=-eq-ok, ok-injective,
  ◌==◌, guard, or_raise,
}
use godot_dn_dsimulator.Base.Int.{ℤ, pos, negsuc}
use godot_dn_dsimulator.Base.Text.{Text}
use godot_dn_dsimulator.Rules.State.{condition_instance, ConditionInstance}
use godot_dn_dsimulator.Actors.Model.{ActorState, HitPoints, actor_state, hit_points}
use godot_dn_dsimulator.Combat.Model.{
  CombatantState, combatant_state, with_actor, spend, spend_feet, action_resource,
  actor_with_hit_points, actor_with_conditions, life_state, death_saves, ActionEconomy, LifeState,
  DeathSaveTrack, initiative_entry, reaction_window,
}
use godot_dn_dsimulator.Combat.Encounter.{
  CombatEvent, EncounterState, encounter_state, combatant, replace_combatant, value_of,
}
use godot_dn_dsimulator.Combat.Reducer.{
  int_value, str_value, strings_value, non_negative, synced_conditions, sync_unconscious_condition,
  EventKind, initiative_rolled, encounter_started, encounter_ended, turn_started, action_spent,
  movement_spent, hit_points_changed, temporary_hp_changed, window_opened, window_closed,
  condition_applied, condition_removed, attack_resolved, event_kind, apply_initiative_rolled,
  apply_encounter_started, apply_turn_started, apply_action_spent, apply_movement_spent,
  apply_hit_points, apply_temporary_hp, apply_window_opened, apply_window_closed,
  apply_condition_applied, apply_condition_removed, apply_kind, apply_combat_event, replay_combat,
  ordered, fresh_economy,
}
use godot_dn_dsimulator.Combat.Vitality.{IsSound}
use godot_dn_dsimulator.Combat.Construct.{
  IsValid, encounter_state-IsValid, combatant-IsSound, replace_combatant-IsValid,
  hit_points-actor_state, with_actor-IsSound, combatant_state-eq-ok, hit_points-eq-ok,
  death_saves-eq-ok,
}

-- a branch that keeps the invariant
abbrev Keeps : EncounterState → Result EncounterState → Type 0
Keeps s result = (t : EncounterState) → result ≡ ok t → IsValid t

-- a combatant whose economy is new is as sound as it was
replace_economy-Keeps :
    (s : EncounterState) (c : CombatantState) (economy : ActionEconomy)
    → IsValid s
    → IsSound c
    → Keeps s (combatant_state (record c { economy = economy }) >>= replace_combatant s)
replace_economy-Keeps s c economy v sound t h =
    let (d, built, replaced) = >>=-eq-ok (combatant_state (record c { economy = economy })) _ h in
    let d_sound : IsSound d = subst IsSound (combatant_state-eq-ok _ d built).1 (record {
      within = sound.within;
      maximum_least = sound.maximum_least;
      allowed = sound.allowed;
      successes_most = sound.successes_most;
      failures_most = sound.failures_most;
    }) in
    replace_combatant-IsValid s t d replaced d_sound v.sound

-- new conditions for a combatant keep the invariant
replace_conditions-Keeps :
    (s : EncounterState) (c : CombatantState) (conditions : List ConditionInstance)
    → IsValid s
    → IsSound c
    → Keeps s (
        actor_with_conditions c.actor conditions >>= λ actor.
        with_actor c actor >>= replace_combatant s)
unfolding actor_with_conditions
replace_conditions-Keeps s c conditions v sound t h =
    let (actor, made, rest) =
      >>=-eq-ok (actor_state (record c.actor { conditions = conditions })) _ h in
    let (d, built, replaced) = >>=-eq-ok (with_actor c actor) _ rest in
    let hp = (hit_points-actor_state _ actor made).0 in
    replace_combatant-IsValid s t d replaced
      (with_actor-IsSound c d actor built sound (ap (λ x. x.maximum) hp) (ap (λ x. x.current) hp))
      v.sound

initiative_rolled-Keeps :
    (s : EncounterState) (e : CombatEvent) → IsValid s → Keeps s (apply_initiative_rolled s e)
unfolding apply_initiative_rolled
initiative_rolled-Keeps s e v t h =
    let (_, _, h1) = >>=-eq-ok (or_raise e.actor_id _) _ h in
    let (_, _, h2) = >>=-eq-ok (int_value e _) _ h1 in
    let (_, _, h3) = >>=-eq-ok (int_value e _) _ h2 in
    let (_, _, h4) = >>=-eq-ok (int_value e _) _ h3 in
    let (_, _, built) = >>=-eq-ok (initiative_entry _) _ h4 in
    encounter_state-IsValid _ t built v.sound

encounter_started-Keeps :
    (s : EncounterState) (e : CombatEvent) → IsValid s → Keeps s (apply_encounter_started s e)
unfolding apply_encounter_started
encounter_started-Keeps s e v t h =
    let (_, _, h1) = >>=-eq-ok (strings_value e _) _ h in
    let (_, _, built) = >>=-eq-ok (ordered s.initiative _) _ h1 in
    encounter_state-IsValid _ t built v.sound

turn_started-Keeps :
    (s : EncounterState) (e : CombatEvent) → IsValid s → Keeps s (apply_turn_started s e)
unfolding apply_turn_started
turn_started-Keeps s e v t h =
    let (id, _, h1) = >>=-eq-ok (or_raise e.actor_id _) _ h in
    let (turn_index, _, h2) = >>=-eq-ok (int_value e _) _ h1 in
    let (round_number, _, h3) = >>=-eq-ok (int_value e _) _ h2 in
    let (c, found, h4) = >>=-eq-ok (combatant s id) _ h3 in
    let (d, refreshed, h5) =
      >>=-eq-ok (combatant_state (record c { economy = fresh_economy c })) _ h4 in
    let (s', replaced, h6) = >>=-eq-ok (replace_combatant s d) _ h5 in
    let (turn, _, h7) = >>=-eq-ok (non_negative turn_index) _ h6 in
    let (round, _, built) = >>=-eq-ok (non_negative round_number) _ h7 in
    let middle : IsValid s' =
      replace_economy-Keeps s c (fresh_economy c) v (combatant-IsSound s id c found v.sound) s'
        (ap (λ made. made >>= replace_combatant s) refreshed ∙ replaced) in
    encounter_state-IsValid (record s' { round_number = round; turn_index = turn }) t built
      middle.sound

action_spent-Keeps :
    (s : EncounterState) (e : CombatEvent) → IsValid s → Keeps s (apply_action_spent s e)
unfolding apply_action_spent
action_spent-Keeps s e v t h =
    let (id, _, h1) = >>=-eq-ok (or_raise e.actor_id _) _ h in
    let (_, _, h2) = >>=-eq-ok (str_value e _) _ h1 in
    let (resource, _, h3) = >>=-eq-ok (action_resource _) _ h2 in
    let (c, found, h4) = >>=-eq-ok (combatant s id) _ h3 in
    let (economy, _, last) = >>=-eq-ok (spend c.economy resource) _ h4 in
    replace_economy-Keeps s c economy v (combatant-IsSound s id c found v.sound) t last

movement_spent-Keeps :
    (s : EncounterState) (e : CombatEvent) → IsValid s → Keeps s (apply_movement_spent s e)
unfolding apply_movement_spent
movement_spent-Keeps s e v t h =
    let (id, _, h1) = >>=-eq-ok (or_raise e.actor_id _) _ h in
    let (c, found, h2) = >>=-eq-ok (combatant s id) _ h1 in
    let (feet, _, h3) = >>=-eq-ok (int_value e _) _ h2 in
    let (economy, _, last) = >>=-eq-ok (spend_feet c.economy feet) _ h3 in
    replace_economy-Keeps s c economy v (combatant-IsSound s id c found v.sound) t last

sync-Keeps :
    (s : EncounterState) (id : Text) → IsValid s → Keeps s (sync_unconscious_condition s id)
unfolding sync_unconscious_condition
sync-Keeps s id v t h =
    let (c, found, last) = >>=-eq-ok (combatant s id) _ h in
    replace_conditions-Keeps s c (synced_conditions c) v (combatant-IsSound s id c found v.sound) t
      last

-- new hit points that the constructors accept leave a sound combatant
wounded-IsSound :
    (c d : CombatantState) (actor : ActorState) (life : LifeState) (saves : DeathSaveTrack)
    (current temporary successes failures : ℤ)
    → actor_with_hit_points c.actor current temporary ≡ ok actor
    → death_saves successes failures ≡ ok saves
    → combatant_state (record c { actor = actor; life_state = life; death_saves = saves }) ≡ ok d
    → IsSound d
unfolding actor_with_hit_points
wounded-IsSound c d actor life saves current temporary successes failures made counted built =
    let maximum : ℕ = c.actor.hit_points.maximum in
    let (hp, checked, shaped) = >>=-eq-ok (hit_points current maximum temporary) _ made in
    let (within, least, _) = hit_points-eq-ok current temporary maximum hp checked in
    let same : actor.hit_points ≡ hp = (hit_points-actor_state _ actor shaped).0 in
    let (few_successes, few_failures) = death_saves-eq-ok successes failures saves counted in
    let (allowed, taken) = combatant_state-eq-ok _ d built in
    subst IsSound taken (record {
      within = subst (λ (x : HitPoints). x.current ≤ x.maximum) (sym same) within;
      maximum_least = subst (λ (x : HitPoints). 1 ≤ x.maximum) (sym same) least;
      allowed = allowed;
      successes_most = few_successes;
      failures_most = few_failures;
    })

hit_points-Keeps :
    (s : EncounterState) (e : CombatEvent) → IsValid s → Keeps s (apply_hit_points s e)
unfolding apply_hit_points
hit_points-Keeps s e v t h =
    let (id, _, h1) = >>=-eq-ok (or_raise e.target_id _) _ h in
    let (c, found, h2) = >>=-eq-ok (combatant s id) _ h1 in
    let (hp_after, _, h3) = >>=-eq-ok (int_value e _) _ h2 in
    let (temporary, _, h4) = >>=-eq-ok (int_value e _) _ h3 in
    let (actor, made, h5) = >>=-eq-ok (actor_with_hit_points c.actor hp_after temporary) _ h4 in
    let (life, _, h6) = >>=-eq-ok (str_value e _ >>= life_state) _ h5 in
    let (successes, _, h7) = >>=-eq-ok (int_value e _) _ h6 in
    let (failures, _, h8) = >>=-eq-ok (int_value e _) _ h7 in
    let (saves, counted, h9) = >>=-eq-ok (death_saves successes failures) _ h8 in
    let (d, built, h10) =
      >>=-eq-ok
        (combatant_state (record c { actor = actor; life_state = life; death_saves = saves })) _
        h9 in
    let (s', replaced, synced) = >>=-eq-ok (replace_combatant s d) _ h10 in
    let sound =
      wounded-IsSound c d actor life saves hp_after temporary successes failures made counted
        built in
    sync-Keeps s' id (replace_combatant-IsValid s s' d replaced sound v.sound) t synced

unchanged :
    (current maximum : ℕ) (temporary : ℤ) (hp : HitPoints)
    → hit_points (pos current) maximum temporary ≡ ok hp
    → (hp.current ≡ current) × (hp.maximum ≡ maximum)
unfolding hit_points
unchanged current maximum (pos n) hp h = ground arith
unchanged current maximum (negsuc n) hp h = cc

temporary_hp-Keeps :
    (s : EncounterState) (e : CombatEvent) → IsValid s → Keeps s (apply_temporary_hp s e)
unfolding apply_temporary_hp actor_with_hit_points
temporary_hp-Keeps s e v t h =
    let (id, _, h1) = >>=-eq-ok (or_raise e.target_id _) _ h in
    let (c, found, h2) = >>=-eq-ok (combatant s id) _ h1 in
    let (temporary, _, h3) = >>=-eq-ok (int_value e _) _ h2 in
    let (actor, made, h4) = >>=-eq-ok (actor_with_hit_points c.actor _ temporary) _ h3 in
    let (d, built, replaced) = >>=-eq-ok (with_actor c actor) _ h4 in
    let (hp, checked, shaped) =
      >>=-eq-ok (hit_points (pos c.actor.hit_points.current) c.actor.hit_points.maximum temporary) _
        made in
    let same = (hit_points-actor_state _ actor shaped).0 in
    let (same_current, same_maximum) =
      unchanged c.actor.hit_points.current c.actor.hit_points.maximum temporary hp checked in
    replace_combatant-IsValid s t d replaced
      (with_actor-IsSound c d actor built (combatant-IsSound s id c found v.sound)
        (ap (λ x. x.maximum) same ∙ same_maximum) (ap (λ x. x.current) same ∙ same_current))
      v.sound

window_opened-Keeps :
    (s : EncounterState) (e : CombatEvent) → IsValid s → Keeps s (apply_window_opened s e)
unfolding apply_window_opened
window_opened-Keeps s e v t h =
    let (_, _, h1) = >>=-eq-ok (or_raise e.actor_id _) _ h in
    let (_, _, h2) = >>=-eq-ok (str_value e _) _ h1 in
    let (_, _, h3) = >>=-eq-ok (str_value e _) _ h2 in
    let (_, _, h4) = >>=-eq-ok (strings_value e _) _ h3 in
    let (_, _, built) = >>=-eq-ok (reaction_window _) _ h4 in
    encounter_state-IsValid _ t built v.sound

window_closed-Keeps :
    (s : EncounterState) (e : CombatEvent) → IsValid s → Keeps s (apply_window_closed s e)
unfolding apply_window_closed
window_closed-Keeps s e v t h =
    let (_, _, built) = >>=-eq-ok (str_value e _) _ h in encounter_state-IsValid _ t built v.sound

condition_applied-Keeps :
    (s : EncounterState) (e : CombatEvent) → IsValid s → Keeps s (apply_condition_applied s e)
unfolding apply_condition_applied
condition_applied-Keeps s e v t h =
    let (id, _, h1) = >>=-eq-ok (or_raise e.target_id _) _ h in
    let (c, found, h2) = >>=-eq-ok (combatant s id) _ h1 in
    let (_, _, h3) = >>=-eq-ok (str_value e _) _ h2 in
    let (_, _, h4) = >>=-eq-ok (value_of e _) _ h3 in
    let (_, _, last) = >>=-eq-ok (condition_instance _) _ h4 in
    replace_conditions-Keeps s c _ v (combatant-IsSound s id c found v.sound) t last

condition_removed-Keeps :
    (s : EncounterState) (e : CombatEvent) → IsValid s → Keeps s (apply_condition_removed s e)
unfolding apply_condition_removed
condition_removed-Keeps s e v t h =
    let (id, _, h1) = >>=-eq-ok (or_raise e.target_id _) _ h in
    let (c, found, h2) = >>=-eq-ok (combatant s id) _ h1 in
    let (_, _, last) = >>=-eq-ok (str_value e _) _ h2 in
    replace_conditions-Keeps s c _ v (combatant-IsSound s id c found v.sound) t last

apply_kind-Keeps :
    (kind : EventKind) (s : EncounterState) (e : CombatEvent)
    → IsValid s
    → Keeps s (apply_kind kind s e)
unfolding apply_kind
apply_kind-Keeps initiative_rolled s e v t h = initiative_rolled-Keeps s e v t h
apply_kind-Keeps encounter_started s e v t h = encounter_started-Keeps s e v t h
apply_kind-Keeps encounter_ended s e v t h = encounter_state-IsValid _ t h v.sound
apply_kind-Keeps turn_started s e v t h = turn_started-Keeps s e v t h
apply_kind-Keeps action_spent s e v t h = action_spent-Keeps s e v t h
apply_kind-Keeps movement_spent s e v t h = movement_spent-Keeps s e v t h
apply_kind-Keeps hit_points_changed s e v t h = hit_points-Keeps s e v t h
apply_kind-Keeps temporary_hp_changed s e v t h = temporary_hp-Keeps s e v t h
apply_kind-Keeps window_opened s e v t h = window_opened-Keeps s e v t h
apply_kind-Keeps window_closed s e v t h = window_closed-Keeps s e v t h
apply_kind-Keeps condition_applied s e v t h = condition_applied-Keeps s e v t h
apply_kind-Keeps condition_removed s e v t h = condition_removed-Keeps s e v t h
apply_kind-Keeps attack_resolved s e v t h = subst IsValid (ok-injective h) v

-- Whatever event the reducer accepts, the encounter after it passes its own checks, and in it every
-- combatant has hit points within the maximum, a life state that they allow, and at most three
-- successes and three failures of death saves, if that was so before.
pub apply_combat_event-IsValid :
    (s t : EncounterState) (e : CombatEvent) → IsValid s → apply_combat_event s e ≡ ok t → IsValid t
unfolding apply_combat_event
apply_combat_event-IsValid s t e v h =
    let (_, _, h1) = >>=-eq-ok (guard (e.sequence == s.event_sequence + 1) _) _ h in
    let (s', numbered, h2) =
      >>=-eq-ok (encounter_state (record s { event_sequence = e.sequence })) _ h1 in
    let (kind, _, last) = >>=-eq-ok (or_raise (event_kind e.event_type) _) _ h2 in
    apply_kind-Keeps kind s' e (encounter_state-IsValid _ s' numbered v.sound) t last

-- So a whole log keeps it.
pub replay_combat-IsValid :
    (events : List CombatEvent) (s t : EncounterState)
    → IsValid s
    → replay_combat s events ≡ ok t
    → IsValid t
unfolding replay_combat
replay_combat-IsValid [] s t v h = subst IsValid (ok-injective h) v
replay_combat-IsValid (e ∷ es) s t v h =
    let (s', one, rest) = >>=-eq-ok (apply_combat_event s e) _ h in
    replay_combat-IsValid es s' t (apply_combat_event-IsValid s s' e v one) rest
