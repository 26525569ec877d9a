-- ===== src/Combat/Economy.antt =====
-- combat/runtime.py and combat/reducer.py: an action resource before and after it is spent.
use godot_dn_dsimulator.Base.{
  ◌+◌, ◌≡◌, ◌≢◌, refl, ap, ◌∙◌, sym, not, any, [], ◌∷◌, arith, none, some, ok, validation_error,
  assertion_error, ◌>>=◌, >>=-eq-ok, guard, or_raise, ok-injective, ◌==◌,
}
use godot_dn_dsimulator.Base.Text.{Text, text, text_eq}
use godot_dn_dsimulator.Base.Keyed.{find_key}
use godot_dn_dsimulator.Combat.Model.{
  ActionResource, action, bonus_action, reaction, resource_value, action_resource, ActionEconomy,
  spend, CombatantState, combatant_state, window_key, is_conscious,
}
use godot_dn_dsimulator.Combat.Encounter.{
  string, CombatEvent, combat_event, EncounterState, encounter_state, combatant, next_sequence,
  combat_event_schema_version,
}
use godot_dn_dsimulator.Combat.Reducer.{
  str_value, action_spent, event_kind, apply_kind, apply_action_spent, apply_combat_event,
}
use godot_dn_dsimulator.Combat.Wounds.{CombatTransition, new_event, apply_one, emit, assert_active}
use godot_dn_dsimulator.Combat.Turns.{
  assert_current_actor, is_reaction, condition_blocks, spent_event, spend_action, spend_reaction,
}
use godot_dn_dsimulator.Combat.Construct.{combatant_state-eq-ok}
use godot_dn_dsimulator.Combat.Lookup.{combatant-encounter_state}
use godot_dn_dsimulator.Combat.Outcome.{combatant-key, replaced-found}
use godot_dn_dsimulator.Combat.Vitals.{combat_event-eq-ok, value_of-combat_event}

spend-once :
    (resource : ActionResource) (e e' e'' : ActionEconomy)
    → spend e resource ≡ ok e'
    → spend e' resource ≢ ok e''
unfolding spend
spend-once action e e' e'' h k = absurd (ground arith)
spend-once bonus_action e e' e'' h k = absurd (ground arith)
spend-once reaction e e' e'' h k = absurd (ground arith)

action_resource-resource_value :
    (resource : ActionResource) → action_resource (resource_value resource) ≡ ok resource
unfolding action_resource resource_value text_eq
action_resource-resource_value action = refl
action_resource-resource_value bonus_action = refl
action_resource-resource_value reaction = refl

-- The economy of an actor before and after it spends a resource.
pub record Spends (s t : EncounterState) (id : Text) (resource : ActionResource) : Type 0 where
  pub before : CombatantState
  pub after : CombatantState
  pub found_before : combatant s id ≡ ok before
  pub found_after : combatant t id ≡ ok after
  pub spends : spend before.economy resource ≡ ok after.economy

action_spent-Spends :
    (s t : EncounterState) (e : CombatEvent) (id : Text) (resource : ActionResource)
    → e.actor_id ≡ some id
    → str_value e (text "resource") ≡ ok (resource_value resource)
    → apply_action_spent s e ≡ ok t
    → Spends s t id resource
unfolding apply_action_spent
action_spent-Spends s t e id resource named reads h =
    let (id', same_actor, h1) = >>=-eq-ok (or_raise e.actor_id assertion_error) _ h in
    let (name, read, h2) = >>=-eq-ok (str_value e (text "resource")) _ h1 in
    let (resource', parsed, h3) = >>=-eq-ok (action_resource name) _ h2 in
    let (c, found, h4) = >>=-eq-ok (combatant s id') _ h3 in
    let (economy, spent, h5) = >>=-eq-ok (spend c.economy resource') _ h4 in
    let (d, built, put) = >>=-eq-ok (combatant_state (record c { economy = economy })) _ h5 in
    let same_id : id' ≡ id = cc (named, same_actor) in
    let same_name : resource_value resource ≡ name = ok-injective (sym reads ∙ read) in
    let same_resource : resource ≡ resource' =
      ok-injective
        (sym (action_resource-resource_value resource) ∙ ap action_resource same_name ∙ parsed) in
    let taken = (combatant_state-eq-ok _ d built).1 in
    let at : combatant s id ≡ ok c = ap (combatant s) (sym same_id) ∙ found in
    let key : d.actor.actor_id ≡ id =
      ap (λ (x : CombatantState). x.actor.actor_id) (sym taken) ∙ combatant-key s id c at in
    record {
      before = c;
      after = d;
      found_before = at;
      found_after = replaced-found s t d id key put;
      spends =
          ap (spend c.economy) same_resource
          ∙ spent
          ∙ ap ok (ap (λ (x : CombatantState). x.economy) taken);
    }

spent_kind : event_kind (text "action.spent") ≡ some action_spent
unfolding event_kind text_eq
spent_kind = refl

emit-Spends :
    (s : EncounterState) (t : CombatTransition) (id : Text) (resource : ActionResource)
    → emit s (spent_event s id resource) ≡ ok t
    → Spends s t.state id resource
unfolding emit apply_one spent_event new_event apply_combat_event apply_kind combatant str_value
emit-Spends s t id resource h =
    let given : CombatEvent = record {
      sequence = next_sequence s;
      event_type = text "action.spent";
      actor_id = some id;
      target_id = none;
      payload = (text "resource", string (resource_value resource)) ∷ [];
      schema_version = combat_event_schema_version;
      rng_after = none;
    } in
    let (e, made, h1) = >>=-eq-ok (combat_event given) (apply_one s) h in
    let (u, applied, built) = >>=-eq-ok (apply_combat_event s e) _ h1 in
    let same_event = (combat_event-eq-ok given e made).1 in
    let (_, _, h2) =
      >>=-eq-ok (guard (e.sequence == s.event_sequence + 1) validation_error) _ applied in
    let (s', numbered, h3) =
      >>=-eq-ok (encounter_state (record s { event_sequence = e.sequence })) _ h2 in
    let kind : event_kind e.event_type ≡ some action_spent =
      ap (λ (x : CombatEvent). event_kind x.event_type) (sym same_event) ∙ spent_kind in
    let acted : apply_action_spent s' e ≡ ok u =
      ap (λ k. or_raise k validation_error >>= λ k'. apply_kind k' s' e) (sym kind) ∙ h3 in
    let read =
      value_of-combat_event given e (text "resource") (string (resource_value resource)) made
        (unfold find_key text_eq in refl) in
    let spends =
      action_spent-Spends s' u e id resource (ap (λ (x : CombatEvent). x.actor_id) (sym same_event))
        (rw read) acted in
    let same_state : u ≡ t.state = ap (λ (x : CombatTransition). x.state) (ok-injective built) in
    record {
      before = spends.before;
      after = spends.after;
      found_before =
          sym (combatant-encounter_state (record s { event_sequence = e.sequence }) s' id numbered)
          ∙ spends.found_before;
      found_after = ap (λ x. combatant x id) (sym same_state) ∙ spends.found_after;
      spends = spends.spends;
    }

pub spend_action-Spends :
    (s : EncounterState) (t : CombatTransition) (id : Text) (resource : ActionResource)
    → spend_action s id resource ≡ ok t
    → Spends s t.state id resource
unfolding spend_action
spend_action-Spends s t id resource h =
    let (c, _, h1) = >>=-eq-ok (assert_current_actor s id) _ h in
    let (_, _, h2) = >>=-eq-ok (guard (not (is_reaction resource)) validation_error) _ h1 in
    let (_, _, emitted) =
      >>=-eq-ok (guard (not (condition_blocks s c resource)) validation_error) _ h2 in
    emit-Spends s t id resource emitted

pub spend_reaction-Spends :
    (s : EncounterState) (t : CombatTransition) (window_id id : Text)
    → spend_reaction s window_id id ≡ ok t
    → Spends s t.state id reaction
unfolding spend_reaction
spend_reaction-Spends s t window_id id h =
    let (_, _, h1) = >>=-eq-ok (assert_active s) _ h in
    let (w, _, h2) =
      >>=-eq-ok (or_raise (find_key window_key window_id s.reaction_windows) validation_error) _
        h1 in
    let (_, _, h3) =
      >>=-eq-ok (guard (any (text_eq id) w.eligible_actor_ids) validation_error) _ h2 in
    let (c, _, h4) = >>=-eq-ok (combatant s id) _ h3 in
    let (_, _, h5) = >>=-eq-ok (guard (is_conscious c.life_state) validation_error) _ h4 in
    let (_, _, emitted) =
      >>=-eq-ok (guard (not (condition_blocks s c reaction)) validation_error) _ h5 in
    emit-Spends s t id reaction emitted

Spends-once :
    (s t u : EncounterState) (id : Text) (resource : ActionResource)
    → Spends s t id resource
    → Spends t u id resource
    → ⊥
Spends-once s t u id resource first second =
    let same : second.before ≡ first.after =
      ok-injective (sym second.found_before ∙ first.found_after) in
    spend-once resource first.before.economy first.after.economy second.after.economy first.spends
      (ap (λ (x : CombatantState). spend x.economy resource) (sym same) ∙ second.spends)

-- An actor cannot spend the same action or bonus action again straight away: the second command is
-- refused.
pub spend_action-once :
    (s : EncounterState) (t u : CombatTransition) (id : Text) (resource : ActionResource)
    → spend_action s id resource ≡ ok t
    → spend_action t.state id resource ≢ ok u
spend_action-once s t u id resource h k =
    Spends-once s t.state u.state id resource (spend_action-Spends s t id resource h)
      (spend_action-Spends t.state u id resource k)

-- An actor that has reacted cannot react again straight away, whichever reaction window it names: the
-- second command is refused.
pub spend_reaction-once :
    (s : EncounterState) (t u : CombatTransition) (id window_id other_window_id : Text)
    → spend_reaction s window_id id ≡ ok t
    → spend_reaction t.state other_window_id id ≢ ok u
spend_reaction-once s t u id window_id other_window_id h k =
    Spends-once s t.state u.state id reaction (spend_reaction-Spends s t window_id id h)
      (spend_reaction-Spends t.state u other_window_id id k)
