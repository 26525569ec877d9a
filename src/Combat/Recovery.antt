-- ===== src/Combat/Recovery.antt =====
-- combat/runtime.py and combat/reducer.py: the log of a fight. A command is a step of a relation, a
-- fight is a sequence of steps.
use godot_dn_dsimulator.Base.{◌≡◌, refl, ap, ◌∙◌, sym, Bool, List, [], ◌++◌, Option, ok}
use godot_dn_dsimulator.Base.Int.{ℤ}
use godot_dn_dsimulator.Base.Text.{Text}
use godot_dn_dsimulator.Rng.{DeterministicRng}
use godot_dn_dsimulator.Simulation.Model.{RngCheckpoint}
use godot_dn_dsimulator.Rules.Runtime.{RulesetCapabilities}
use godot_dn_dsimulator.Combat.Model.{ActionResource, TemporaryHitPointChoice}
use godot_dn_dsimulator.Combat.Encounter.{CombatEvent, EncounterState}
use godot_dn_dsimulator.Combat.Damage.{DamagePacket, DamageAdjustment}
use godot_dn_dsimulator.Combat.Reducer.{replay_combat}
use godot_dn_dsimulator.Combat.Wounds.{CombatTransition, apply_damage, heal, grant_temporary_hp}
use godot_dn_dsimulator.Combat.Turns.{
  spend_action, spend_movement, end_turn, open_reaction_window, spend_reaction,
  close_reaction_window, apply_condition, remove_condition, end_encounter,
}
use godot_dn_dsimulator.Combat.Start.{start_encounter}
use godot_dn_dsimulator.Combat.Attacks.{
  AttackDefinition, AttackModifiers, AttackResult, perform_attack,
}
use godot_dn_dsimulator.Combat.Construct.{IsValid}
use godot_dn_dsimulator.Combat.Soundness.{replay_combat-IsValid}
use godot_dn_dsimulator.Combat.Emission.{
  replay_combat-append, spend_action-Emits, spend_movement-Emits, open_reaction_window-Emits,
  spend_reaction-Emits, close_reaction_window-Emits, apply_condition-Emits, remove_condition-Emits,
  end_encounter-Emits, heal-Emits, grant_temporary_hp-Emits, apply_damage-Emits,
}
use godot_dn_dsimulator.Combat.TurnEvents.{end_turn-Emits, start_encounter-Emits}
use godot_dn_dsimulator.Combat.AttackEvents.{perform_attack-Emits}

-- A command that was accepted in a state, with what it returned.
pub data Command (s : EncounterState) (t : CombatTransition) : Type 0 where
  started :
      (capabilities : RulesetCapabilities) (rng rng' : DeterministicRng)
      → start_encounter capabilities s rng ≡ (ok t, rng')
      → Command s t
  spent : (id : Text) (resource : ActionResource) → spend_action s id resource ≡ ok t → Command s t
  moved : (id : Text) (feet : ℤ) → spend_movement s id feet ≡ ok t → Command s t
  passed :
      (id : Text) (rng rng' : DeterministicRng) → end_turn s id rng ≡ (ok t, rng') → Command s t
  opened :
      (window trigger source : Text) (eligible : List Text)
      → open_reaction_window s window trigger source eligible ≡ ok t
      → Command s t
  reacted : (window id : Text) → spend_reaction s window id ≡ ok t → Command s t
  closed : (window : Text) → close_reaction_window s window ≡ ok t → Command s t
  attacked :
      (capabilities : RulesetCapabilities) (attacker target : Text) (attack : AttackDefinition)
      (modifiers : AttackModifiers) (rng rng' : DeterministicRng) (result : AttackResult)
      → perform_attack capabilities s attacker target attack modifiers rng ≡ (ok (t, result), rng')
      → Command s t
  harmed :
      (target : Text) (packet : DamagePacket) (source : Option Text) (critical : Bool)
      (after : Option RngCheckpoint) (adjustment : DamageAdjustment)
      → apply_damage s target packet source critical after ≡ ok (t, adjustment)
      → Command s t
  mended :
      (target : Text) (amount : ℤ) (source : Option Text)
      → heal s target amount source ≡ ok t
      → Command s t
  shielded :
      (target : Text) (amount : ℤ) (choice : TemporaryHitPointChoice)
      → grant_temporary_hp s target amount choice ≡ ok t
      → Command s t
  afflicted :
      (target condition : Text) (source : Option Text)
      → apply_condition s target condition source ≡ ok t
      → Command s t
  relieved : (target condition : Text) → remove_condition s target condition ≡ ok t → Command s t
  finished : end_encounter s ≡ ok t → Command s t

-- The events that a command emits, replayed from the state before it, give the state that it returns.
pub Command-Replays :
    (s : EncounterState) (t : CombatTransition)
    → Command s t
    → replay_combat s t.events ≡ ok t.state
Command-Replays s t (started capabilities rng rng' h) =
    start_encounter-Emits capabilities s rng rng' t h
Command-Replays s t (spent id resource h) = spend_action-Emits s id resource t h
Command-Replays s t (moved id feet h) = spend_movement-Emits s id feet t h
Command-Replays s t (passed id rng rng' h) = end_turn-Emits s id rng rng' t h
Command-Replays s t (opened window trigger source eligible h) =
    open_reaction_window-Emits s window trigger source eligible t h
Command-Replays s t (reacted window id h) = spend_reaction-Emits s window id t h
Command-Replays s t (closed window h) = close_reaction_window-Emits s window t h
Command-Replays s t (attacked capabilities attacker target attack modifiers rng rng' result h) =
    perform_attack-Emits capabilities s attacker target attack modifiers rng rng' t result h
Command-Replays s t (harmed target packet source critical after adjustment h) =
    apply_damage-Emits s target packet source critical after t adjustment h
Command-Replays s t (mended target amount source h) = heal-Emits s target amount source t h
Command-Replays s t (shielded target amount choice h) =
    grant_temporary_hp-Emits s target amount choice t h
Command-Replays s t (afflicted target condition source h) =
    apply_condition-Emits s target condition source t h
Command-Replays s t (relieved target condition h) = remove_condition-Emits s target condition t h
Command-Replays s t (finished h) = end_encounter-Emits s t h

-- A fight: commands that were accepted one after another, with the log of their events.
pub data Fight (start : EncounterState) : List CombatEvent → EncounterState → Type 0 where
  created : Fight start [] start
  commanded :
      {log : List CombatEvent} {s : EncounterState}
      → Fight start log s
      → (t : CombatTransition) (log' : List CombatEvent) (s' : EncounterState) → Command s t
      → log' ≡ log ++ t.events
      → s' ≡ t.state
      → Fight start log' s'

-- The log of a fight, replayed from its first state, gives its last state.
pub Fight-Replays :
    {start s : EncounterState} {log : List CombatEvent}
    → Fight start log s
    → replay_combat start log ≡ ok s
Fight-Replays created = unfold replay_combat in refl
Fight-Replays {start = start} (commanded {log} {s} fight t log' s' command joined reached) =
    ap (replay_combat start) joined
    ∙ replay_combat-append log t.events start s (Fight-Replays fight)
    ∙ Command-Replays s t command
    ∙ ap ok (sym reached)

-- In every state that a fight reaches from a valid one, the encounter passes its checks and every
-- combatant has hit points within the maximum, a life state that they allow, and at most three
-- successes and three failures of death saves.
pub Fight-IsValid :
    {start s : EncounterState} {log : List CombatEvent}
    → Fight start log s
    → IsValid start
    → IsValid s
Fight-IsValid {start = start} {s = s} {log = log} fight v =
    replay_combat-IsValid log start s v (Fight-Replays fight)
