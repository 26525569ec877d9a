-- ===== src/Combat/Lookup.antt =====
-- combat/model.py: looking up a combatant in an encounter that was constructed anew.
use mathlib.Core.Path.{subst}
use godot_dn_dsimulator.Base.{
  ◌≡◌, ap, ◌∙◌, true, arith, ok, validation_error, or_raise, if◌then◌else◌,
}
use godot_dn_dsimulator.Base.Text.{Text, text_eq, text_eq_iff}
use godot_dn_dsimulator.Base.Keyed.{
  has_key, unique_keys, key_leb, find_key-sort, find_key-replace_key,
}
use godot_dn_dsimulator.Combat.Model.{CombatantState, combatant_key}
use godot_dn_dsimulator.Combat.Encounter.{
  EncounterState, is_encounter, encounter_state, combatant, replace_combatant,
}
use godot_dn_dsimulator.Combat.Construct.{
  encounter_state-eq-ok, is_encounter-normal, replaced, replace_combatant-eq-ok,
}

pub unique_combatants :
    (s : EncounterState) → is_encounter s ≡ true → unique_keys combatant_key s.combatants ≡ true
unfolding is_encounter
unique_combatants s h = ground arith

pub is_encounter-encounter_state :
    (s t : EncounterState) → encounter_state s ≡ ok t → is_encounter t ≡ true
is_encounter-encounter_state s t h =
    let (passed, built) = encounter_state-eq-ok s t h in
    subst (λ x. is_encounter x ≡ true) built (is_encounter-normal s ∙ passed)

-- The constructor's sort does not change who is found.
pub combatant-encounter_state :
    (s t : EncounterState) (id : Text) → encounter_state s ≡ ok t → combatant t id ≡ combatant s id
unfolding combatant
combatant-encounter_state s t id h =
    let (passed, built) = encounter_state-eq-ok s t h in
    subst (λ x. combatant x id ≡ combatant s id) built
      (ap (λ found. or_raise found validation_error)
        (find_key-sort combatant_key (key_leb combatant_key) id s.combatants
          (unique_combatants s passed)))

-- A replaced combatant is found in its place, and the others as before.
pub combatant-replace_combatant :
    (s t : EncounterState) (c : CombatantState) (id : Text)
    → replace_combatant s c ≡ ok t
    → combatant t id ≡ (if text_eq c.actor.actor_id id then ok c else combatant s id)
unfolding replace_combatant combatant
combatant-replace_combatant s t c id h =
    let present : has_key combatant_key c.actor.actor_id s.combatants ≡ true = ground arith in
    let found = find_key-replace_key combatant_key id c s.combatants in
    combatant-encounter_state (replaced s c) t id (replace_combatant-eq-ok s t c h)
    ∙ ground (arith, found, present, text_eq_iff c.actor.actor_id id)
