-- ===== src/Combat/Turns.antt =====
-- combat/runtime.py: whose turn it is, what an actor may spend, reaction windows and conditions.
use godot_dn_dsimulator.Base.{
  ℕ, zero, suc, ◌+◌, ◌%◌, Bool, true, false, not, ◌&&◌, Option, none, some, List, [], ◌∷◌, ◌++◌,
  leb, ◌==◌, if◌then◌else◌, any, all, length, get_elem?, Result, ok, err, validation_error,
  assertion_error, key_error, guard, or_raise, ◌>>=◌, ◌>>◌,
}
use godot_dn_dsimulator.Base.Int.{ℤ, pos}
use godot_dn_dsimulator.Base.Text.{Text, text, text_eq, text_leb}
use godot_dn_dsimulator.Base.Sort.{sort}
use godot_dn_dsimulator.Base.Keyed.{find_key, has_key}
use godot_dn_dsimulator.Rng.{DeterministicRng}
use godot_dn_dsimulator.Combat.Model.{
  ActionResource, action, bonus_action, reaction, resource_value, is_conscious, is_dead,
  CombatConditionRule, CombatantState, combatant_key, window_key,
}
use godot_dn_dsimulator.Combat.Encounter.{
  EventPayload, no_value, string, integer, strings, CombatEvent, EncounterState, combatant,
  condition_rule, current_actor_id,
}
use godot_dn_dsimulator.Combat.Wounds.{
  CombatTransition, new_event, emit, assert_active, is_character, is_unconscious, death_save_event,
}

-- `current_actor_id == actor_id`
unfoldable pub is_current : EncounterState → Text → Bool
is_current s actor_id = elim (current_actor_id s) [ none ↦ false | some id ↦ text_eq id actor_id ]

-- `_assert_current_actor`
unfoldable pub assert_current_actor : EncounterState → Text → Result CombatantState
assert_current_actor s actor_id = do
  assert_active s
  guard (is_current s actor_id) validation_error
  c ← combatant s actor_id
  guard (is_conscious c.life_state) validation_error
  ok c

-- whether a rule blocks a resource
abbrev blocks : ActionResource → CombatConditionRule → Bool
blocks action rule = rule.blocks_action
blocks bonus_action rule = rule.blocks_bonus_action
blocks reaction rule = rule.blocks_reaction

-- `_condition_blocks` of an action resource
unfoldable pub condition_blocks : EncounterState → CombatantState → ActionResource → Bool
condition_blocks s c resource =
    any
      (λ condition. elim (condition_rule s condition.condition_id) [
        | none ↦ false
        | some r ↦ blocks resource r
      ])
      c.actor.conditions

-- `_condition_blocks` of movement
unfoldable pub condition_blocks_movement : EncounterState → CombatantState → Bool
condition_blocks_movement s c =
    any
      (λ condition. elim (condition_rule s condition.condition_id) [
        | none ↦ false
        | some r ↦ r.blocks_movement
      ])
      c.actor.conditions

abbrev pub is_reaction : ActionResource → Bool
is_reaction reaction = true
is_reaction _ = false

unfoldable pub spent_event : EncounterState → Text → ActionResource → Result CombatEvent
spent_event s actor_id resource =
    new_event s (text "action.spent") (some actor_id) none
      ((text "resource", string (resource_value resource)) ∷ []) none

-- `CombatRuntime.spend_action`
unfoldable pub spend_action : EncounterState → Text → ActionResource → Result CombatTransition
spend_action s actor_id resource = do
  c ← assert_current_actor s actor_id
  guard (not (is_reaction resource)) validation_error
  guard (not (condition_blocks s c resource)) validation_error
  emit s (spent_event s actor_id resource)

-- `CombatRuntime.spend_movement`
unfoldable pub spend_movement : EncounterState → Text → ℤ → Result CombatTransition
spend_movement s actor_id feet = do
  c ← assert_current_actor s actor_id
  guard (not (condition_blocks_movement s c)) validation_error
  emit s (
      new_event s (text "movement.spent") (some actor_id) none ((text "feet", integer feet) ∷ [])
        none)

-- `_start_turn_event`: `turn_index` is an index of the initiative, else Python's IndexError
unfoldable pub start_turn_event : EncounterState → ℕ → ℕ → Result CombatEvent
start_turn_event s turn_index round_number = do
  entry ← or_raise (get_elem? s.initiative turn_index) key_error
  new_event s (text "turn.started") (some entry.actor_id) none
      ((text "turn_index", integer (pos turn_index))
        ∷ (text "round_number", integer (pos round_number))
        ∷ [])
      none

-- whether the actor at an index of the initiative lives
unfoldable pub lives_at : EncounterState → ℕ → Result Bool
lives_at s index = do
  entry ← or_raise (get_elem? s.initiative index) key_error
  c ← combatant s entry.actor_id
  ok (not (is_dead c.life_state))

-- the round grows when the turn goes back to the start
abbrev pub turn_of : EncounterState → ℕ → ℕ × ℕ
turn_of s candidate = (candidate, s.round_number + (if leb candidate s.turn_index then 1 else 0))

-- the loop of `_next_living_turn` over `range(offset, offset + left)`
unfoldable pub next_living_from : EncounterState → ℕ → ℕ → Result (ℕ × ℕ)
next_living_from s offset zero = err validation_error
next_living_from s offset (suc left) =
    let candidate = (s.turn_index + offset) % length s.initiative in
    let rest = next_living_from s (suc offset) left in
    lives_at s candidate >>= λ lives. if lives then ok (turn_of s candidate) else rest

-- `_next_living_turn`
unfoldable pub next_living_turn : EncounterState → Result (ℕ × ℕ)
next_living_turn s = next_living_from s 1 (length s.initiative)

-- whether the actor whose turn starts makes a death save
unfoldable pub needs_death_save : CombatantState → Bool
needs_death_save c =
    is_unconscious c.life_state && (c.actor.hit_points.current == 0) && is_character c.zero_hp_rule

abbrev append_event : CombatTransition → CombatTransition → CombatTransition
append_event t u = record { state = u.state; events = t.events ++ u.events }

-- the death save at the start of a turn
unfoldable pub save_if :
    CombatTransition
    → CombatantState
    → DeterministicRng
    → Bool
    → Result CombatTransition × DeterministicRng
save_if t c rng false = (ok t, rng)
save_if t c rng true =
    let rolled = death_save_event t.state c.actor.actor_id rng in
    ((do u ← emit t.state (rolled.0); ok (append_event t u)), rolled.1)

-- the actor whose turn has started
unfoldable pub turn_actor : CombatTransition → Result (CombatTransition × CombatantState)
turn_actor t = do
  actor_id ← or_raise (current_actor_id t.state) assertion_error
  c ← combatant t.state actor_id
  ok (t, c)

-- the part of `end_turn` before the death save
unfoldable pub pass_turn : EncounterState → Text → Result (CombatTransition × CombatantState)
pass_turn s actor_id = do
  assert_active s
  guard (is_current s actor_id) validation_error
  (index, round) ← next_living_turn s
  t ← emit s (start_turn_event s index round)
  turn_actor t

unfoldable pub finish_turn :
    DeterministicRng
    → Result (CombatTransition × CombatantState)
    → Result CombatTransition × DeterministicRng
finish_turn rng (err e) = (err e, rng)
finish_turn rng (ok (t, c)) = save_if t c rng (needs_death_save c)

-- `CombatRuntime.end_turn`
unfoldable pub end_turn :
    EncounterState → Text → DeterministicRng → Result CombatTransition × DeterministicRng
end_turn s actor_id rng = finish_turn rng (pass_turn s actor_id)

-- `CombatRuntime.open_reaction_window`
unfoldable pub open_reaction_window :
    EncounterState → Text → Text → Text → List Text → Result CombatTransition
open_reaction_window s window_id trigger source_actor_id eligible = do
  assert_active s
  guard (not (has_key window_key window_id s.reaction_windows)) validation_error
  _ ← combatant s source_actor_id
  guard (all (λ id. has_key combatant_key id s.combatants) eligible) validation_error
  emit s (
      new_event s (text "reaction.window.opened") (some source_actor_id) none
        ((text "window_id", string window_id)
          ∷ (text "trigger", string trigger)
          ∷ (text "eligible_actor_ids", strings (sort text_leb eligible))
          ∷ [])
        none)

-- `CombatRuntime.spend_reaction`
unfoldable pub spend_reaction : EncounterState → Text → Text → Result CombatTransition
spend_reaction s window_id actor_id = do
  assert_active s
  window ← or_raise (find_key window_key window_id s.reaction_windows) validation_error
  guard (any (text_eq actor_id) window.eligible_actor_ids) validation_error
  c ← combatant s actor_id
  guard (is_conscious c.life_state) validation_error
  guard (not (condition_blocks s c reaction)) validation_error
  emit s (spent_event s actor_id reaction)

-- `CombatRuntime.close_reaction_window`
unfoldable pub close_reaction_window : EncounterState → Text → Result CombatTransition
close_reaction_window s window_id = do
  guard (has_key window_key window_id s.reaction_windows) validation_error
  emit s (
      new_event s (text "reaction.window.closed") none none
        ((text "window_id", string window_id) ∷ []) none)

abbrev string_or_none : Option Text → godot_dn_dsimulator.Combat.Encounter.EventValue
string_or_none none = no_value
string_or_none (some s) = string s

-- `CombatRuntime.apply_condition`
unfoldable pub apply_condition :
    EncounterState → Text → Text → Option Text → Result CombatTransition
apply_condition s target_id condition_id source_actor_id = do
  assert_active s
  emit s (
      new_event s (text "condition.applied") source_actor_id (some target_id)
        ((text "condition_id", string condition_id)
          ∷ (text "source_id", string_or_none source_actor_id)
          ∷ [])
        none)

-- `CombatRuntime.remove_condition`
unfoldable pub remove_condition : EncounterState → Text → Text → Result CombatTransition
remove_condition s target_id condition_id = do
  assert_active s
  emit s (
      new_event s (text "condition.removed") none (some target_id)
        ((text "condition_id", string condition_id) ∷ []) none)

-- `CombatRuntime.end_encounter`
unfoldable pub end_encounter : EncounterState → Result CombatTransition
end_encounter s = do
  assert_active s
  emit s (new_event s (text "encounter.ended") none none [] none)
