-- ===== src/Combat/Model.antt =====
-- combat/model.py: the parts of a combatant, its action economy, reaction windows and events.
use godot_dn_dsimulator.Base.{
  ℕ, ◌-◌, Bool, true, false, not, ◌&&◌, Option, none, some, List, leb, ◌==◌, if◌then◌else◌, all,
  Result, ok, err, validation_error, value_error, guard, ◌>>=◌, ◌>>◌,
}
use godot_dn_dsimulator.Base.Int.{ℤ, pos, negsuc, leb_ℤ}
use godot_dn_dsimulator.Base.Text.{Text, text, text_eq, text_leb, is_blank}
use godot_dn_dsimulator.Base.Sort.{sort}
use godot_dn_dsimulator.Base.Keyed.{has_key, unique_keys}
use godot_dn_dsimulator.Rules.State.{ConditionInstance, condition_key}
use godot_dn_dsimulator.Actors.Kinds.{ActorKind, hero, npc, creature, walk}
use godot_dn_dsimulator.Actors.Model.{hit_points, ActorState, actor_state, movement_speed}

pub data EncounterStatus : Type 0 where
  preparing active ended : EncounterStatus

pub data ActionResource : Type 0 where
  action bonus_action reaction : ActionResource

pub data LifeState : Type 0 where
  conscious unconscious stable dead : LifeState

pub data ZeroHitPointRule : Type 0 where
  character monster : ZeroHitPointRule

pub data TemporaryHitPointChoice : Type 0 where
  keep_current take_new : TemporaryHitPointChoice

abbrev pub is_active : EncounterStatus → Bool
is_active active = true
is_active _ = false

abbrev pub is_conscious : LifeState → Bool
is_conscious conscious = true
is_conscious _ = false

abbrev pub is_dead : LifeState → Bool
is_dead dead = true
is_dead _ = false

-- `life_state in (LifeState.UNCONSCIOUS, LifeState.STABLE)`
abbrev pub is_down : LifeState → Bool
is_down unconscious = true
is_down stable = true
is_down _ = false

unfoldable pub resource_value : ActionResource → Text
resource_value action = text "action"
resource_value bonus_action = text "bonus_action"
resource_value reaction = text "reaction"

-- `ActionResource(value)`
unfoldable pub action_resource : Text → Result ActionResource
action_resource s =
    if text_eq s (text "action")
    then ok action
    else if text_eq s (text "bonus_action")
    then ok bonus_action
    else if text_eq s (text "reaction")
    then ok reaction
    else err value_error

unfoldable pub life_value : LifeState → Text
life_value conscious = text "conscious"
life_value unconscious = text "unconscious"
life_value stable = text "stable"
life_value dead = text "dead"

-- `LifeState(value)`
unfoldable pub life_state : Text → Result LifeState
life_state s =
    if text_eq s (text "conscious")
    then ok conscious
    else if text_eq s (text "unconscious")
    then ok unconscious
    else if text_eq s (text "stable")
    then ok stable
    else if text_eq s (text "dead")
    then ok dead
    else err value_error

pub record DeathSaveTrack : Type 0 where
  pub successes : ℕ
  pub failures : ℕ

-- the constructor of `DeathSaveTrack`, called with integers
unfoldable pub death_saves : ℤ → ℤ → Result DeathSaveTrack
death_saves (pos successes) (pos failures) = do
  guard (leb successes 3 && leb failures 3) validation_error
  ok (record { successes = successes; failures = failures })
death_saves _ _ = err validation_error

pub record DefenseProfile : Type 0 where
  pub resistances : List Text
  pub immunities : List Text
  pub vulnerabilities : List Text

abbrev no_blank : List Text → Bool
no_blank = all (λ s. not (is_blank s))

unfoldable pub defense_profile : DefenseProfile → Result DefenseProfile
defense_profile d = do
  guard (no_blank d.resistances && no_blank d.immunities && no_blank d.vulnerabilities)
      validation_error
  ok d

pub record ActionEconomy : Type 0 where
  pub action_available : Bool
  pub bonus_action_available : Bool
  pub reaction_available : Bool
  pub movement_remaining : ℕ

-- `ActionEconomy.spend`
unfoldable pub spend : ActionEconomy → ActionResource → Result ActionEconomy
spend e action = do
  guard e.action_available validation_error
  ok (record e { action_available = false })
spend e bonus_action = do
  guard e.bonus_action_available validation_error
  ok (record e { bonus_action_available = false })
spend e reaction = do
  guard e.reaction_available validation_error
  ok (record e { reaction_available = false })

-- `ActionEconomy.spend_movement`
unfoldable pub spend_feet : ActionEconomy → ℤ → Result ActionEconomy
spend_feet e (negsuc _) = err validation_error
spend_feet e (pos feet) = do
  guard (leb feet e.movement_remaining) validation_error
  ok (record e { movement_remaining = e.movement_remaining - feet })

pub record CombatConditionRule : Type 0 where
  pub condition_id : Text
  pub blocks_action : Bool
  pub blocks_bonus_action : Bool
  pub blocks_reaction : Bool
  pub blocks_movement : Bool

abbrev pub rule_key : CombatConditionRule → Text
rule_key r = r.condition_id

unfoldable pub condition_rule_state : CombatConditionRule → Result CombatConditionRule
condition_rule_state r = do guard (not (is_blank r.condition_id)) validation_error; ok r

pub record CombatantState : Type 0 where
  pub actor : ActorState
  pub defenses : DefenseProfile
  pub life_state : LifeState
  pub death_saves : DeathSaveTrack
  pub economy : ActionEconomy
  pub zero_hp_rule : ZeroHitPointRule

-- `CombatantState.actor_id`
abbrev pub combatant_key : CombatantState → Text
combatant_key c = c.actor.actor_id

-- the hit points that a life state allows
unfoldable pub allows : LifeState → ℕ → Bool
allows conscious hp = leb 1 hp
allows unconscious hp = hp == 0
allows stable hp = hp == 0
allows dead hp = true

-- `CombatantState.__post_init__` of a combatant whose rule is set
unfoldable pub combatant_state : CombatantState → Result CombatantState
combatant_state c = do guard (allows c.life_state c.actor.hit_points.current) validation_error; ok c

-- the rule that stands for `None`
unfoldable pub zero_hp_rule_of : ActorKind → Option ZeroHitPointRule → ZeroHitPointRule
zero_hp_rule_of kind (some rule) = rule
zero_hp_rule_of creature none = monster
zero_hp_rule_of hero none = character
zero_hp_rule_of npc none = character

-- `CombatantState.walking_speed`
unfoldable pub walking_speed : CombatantState → ℕ
walking_speed c = elim (movement_speed c.actor walk) [ none ↦ 0 | some feet ↦ feet ]

-- `CombatantState.has_condition`
unfoldable pub combatant_has_condition : CombatantState → Text → Bool
combatant_has_condition c condition_id = has_key condition_key condition_id c.actor.conditions

-- `CombatantState.with_actor`
unfoldable pub with_actor : CombatantState → ActorState → Result CombatantState
with_actor c actor = do
  guard (text_eq actor.actor_id c.actor.actor_id) validation_error
  combatant_state (record c { actor = actor })

pub record InitiativeEntry : Type 0 where
  pub actor_id : Text
  pub total : ℤ
  pub dexterity_modifier : ℤ
  pub raw_roll : ℤ

abbrev pub initiative_key : InitiativeEntry → Text
initiative_key e = e.actor_id

unfoldable pub initiative_entry : InitiativeEntry → Result InitiativeEntry
initiative_entry e = do
  guard (not (is_blank e.actor_id)) validation_error
  guard (leb_ℤ (pos 1) e.raw_roll && leb_ℤ e.raw_roll (pos 20)) validation_error
  ok e

pub record ReactionWindow : Type 0 where
  pub window_id : Text
  pub trigger : Text
  pub source_actor_id : Text
  pub eligible_actor_ids : List Text

abbrev pub window_key : ReactionWindow → Text
window_key w = w.window_id

abbrev pub itself : Text → Text
itself s = s

unfoldable pub reaction_window : ReactionWindow → Result ReactionWindow
reaction_window w = do
  guard (not (is_blank w.window_id) && not (is_blank w.trigger)) validation_error
  guard (not (is_blank w.source_actor_id)) validation_error
  guard (unique_keys itself w.eligible_actor_ids) validation_error
  guard (no_blank w.eligible_actor_ids) validation_error
  ok (record w { eligible_actor_ids = sort text_leb w.eligible_actor_ids })

-- `actor_with_hit_points`
unfoldable pub actor_with_hit_points : ActorState → ℤ → ℤ → Result ActorState
actor_with_hit_points a current temporary = do
  hp ← hit_points current a.hit_points.maximum temporary
  actor_state (record a { hit_points = hp })

-- `actor_with_conditions`
unfoldable pub actor_with_conditions : ActorState → List ConditionInstance → Result ActorState
actor_with_conditions a conditions = actor_state (record a { conditions = conditions })
