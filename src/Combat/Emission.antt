-- ===== src/Combat/Emission.antt =====
-- combat/runtime.py: the events of the commands that roll no dice, replayed by combat/reducer.py.
use godot_dn_dsimulator.Base.{
  ◌≡◌, ap, ◌∙◌, Bool, not, any, all, List, [], ◌∷◌, ◌++◌, arith, Option, Result, ok,
  validation_error, ◌>>=◌, >>=-eq-ok, ok-injective, guard, or_raise,
}
use godot_dn_dsimulator.Base.Int.{ℤ, pos, negsuc}
use godot_dn_dsimulator.Base.Text.{Text, text_eq}
use godot_dn_dsimulator.Base.Keyed.{has_key, find_key}
use godot_dn_dsimulator.Simulation.Model.{RngCheckpoint}
use godot_dn_dsimulator.Combat.Model.{
  ActionResource, reaction, TemporaryHitPointChoice, combatant_key, window_key, is_dead,
  is_conscious,
}
use godot_dn_dsimulator.Combat.Encounter.{CombatEvent, EncounterState, combatant}
use godot_dn_dsimulator.Combat.Damage.{DamagePacket}
use godot_dn_dsimulator.Combat.Reducer.{apply_combat_event, replay_combat}
use godot_dn_dsimulator.Combat.Wounds.{
  CombatTransition, apply_one, emit, assert_active, apply_damage, damage_target, heal,
  grant_temporary_hp,
}
use godot_dn_dsimulator.Combat.Turns.{
  is_reaction, assert_current_actor, condition_blocks, condition_blocks_movement, spend_action,
  spend_movement, open_reaction_window, spend_reaction, close_reaction_window, apply_condition,
  remove_condition, end_encounter,
}

-- a result whose events lead from a state to its own
abbrev pub Emits : EncounterState → Result CombatTransition → Type 0
Emits s result = (t : CombatTransition) → result ≡ ok t → replay_combat s t.events ≡ ok t.state

pub replay_combat-append :
    (xs ys : List CombatEvent) (s t : EncounterState)
    → replay_combat s xs ≡ ok t
    → replay_combat s (xs ++ ys) ≡ replay_combat t ys
unfolding replay_combat
replay_combat-append [] ys s t h = ap (λ u. replay_combat u ys) (ok-injective h)
replay_combat-append (x ∷ xs) ys s t h =
    let (u, one, rest) = >>=-eq-ok (apply_combat_event s x) _ h in
    ap (λ r. r >>= λ v. replay_combat v (xs ++ ys)) one ∙ replay_combat-append xs ys u t rest

pub replay_combat-snoc :
    (xs : List CombatEvent) (e : CombatEvent) (s t u : EncounterState)
    → replay_combat s xs ≡ ok t
    → apply_combat_event t e ≡ ok u
    → replay_combat s (xs ++ (e ∷ [])) ≡ ok u
replay_combat-snoc xs e s t u h one =
    replay_combat-append xs (e ∷ []) s t h ∙ unfold replay_combat in ap (λ r. r >>= ok) one

pub emit-Emits : (s : EncounterState) (event : Result CombatEvent) → Emits s (emit s event)
unfolding emit apply_one replay_combat
emit-Emits s event t h =
    let (e, _, applied) = >>=-eq-ok event (apply_one s) h in
    let (u, one, built) = >>=-eq-ok (apply_combat_event s e) _ applied in ground (arith, one, built)

behind {ℓ} :
    {A : Type ℓ} (s : EncounterState) (m : Result A) (f : A → Result CombatTransition)
    → ((a : A) → Emits s (f a))
    → Emits s (m >>= f)
behind s m f each t h = let (a, _, rest) = >>=-eq-ok m f h in each a t rest

pub spend_action-Emits :
    (s : EncounterState) (id : Text) (resource : ActionResource)
    → Emits s (spend_action s id resource)
unfolding spend_action
spend_action-Emits s id resource = behind s (assert_current_actor s id) _ (λ c.
    behind s (guard (not (is_reaction resource)) validation_error) _ (λ _.
      behind s (guard (not (condition_blocks s c resource)) validation_error) _
        (λ _. emit-Emits s _)))

pub spend_movement-Emits :
    (s : EncounterState) (id : Text) (feet : ℤ) → Emits s (spend_movement s id feet)
unfolding spend_movement
spend_movement-Emits s id feet = behind s (assert_current_actor s id) _ (λ c.
    behind s (guard (not (condition_blocks_movement s c)) validation_error) _ (λ _. emit-Emits s _))

pub open_reaction_window-Emits :
    (s : EncounterState) (window_id trigger source : Text) (eligible : List Text)
    → Emits s (open_reaction_window s window_id trigger source eligible)
unfolding open_reaction_window
open_reaction_window-Emits s window_id trigger source eligible = behind s (assert_active s) _ (λ _.
    behind s (guard (not (has_key window_key window_id s.reaction_windows)) validation_error) _
      (λ _. behind s (combatant s source) _ (λ c.
        behind s
          (guard (all (λ id. has_key combatant_key id s.combatants) eligible) validation_error) _
          (λ _. emit-Emits s _))))

pub spend_reaction-Emits :
    (s : EncounterState) (window_id id : Text) → Emits s (spend_reaction s window_id id)
unfolding spend_reaction
spend_reaction-Emits s window_id id = behind s (assert_active s) _ (λ _.
    behind s (or_raise (find_key window_key window_id s.reaction_windows) validation_error) _ (λ w.
      behind s (guard (any (text_eq id) w.eligible_actor_ids) validation_error) _ (λ _.
        behind s (combatant s id) _ (λ c.
          behind s (guard (is_conscious c.life_state) validation_error) _ (λ _.
            behind s (guard (not (condition_blocks s c reaction)) validation_error) _
              (λ _. emit-Emits s _))))))

pub close_reaction_window-Emits :
    (s : EncounterState) (window_id : Text) → Emits s (close_reaction_window s window_id)
unfolding close_reaction_window
close_reaction_window-Emits s window_id =
    behind s (guard (has_key window_key window_id s.reaction_windows) validation_error) _
      (λ _. emit-Emits s _)

pub apply_condition-Emits :
    (s : EncounterState) (id condition : Text) (source : Option Text)
    → Emits s (apply_condition s id condition source)
unfolding apply_condition
apply_condition-Emits s id condition source = behind s (assert_active s) _ (λ _. emit-Emits s _)

pub remove_condition-Emits :
    (s : EncounterState) (id condition : Text) → Emits s (remove_condition s id condition)
unfolding remove_condition
remove_condition-Emits s id condition = behind s (assert_active s) _ (λ _. emit-Emits s _)

pub end_encounter-Emits : (s : EncounterState) → Emits s (end_encounter s)
unfolding end_encounter
end_encounter-Emits s = behind s (assert_active s) _ (λ _. emit-Emits s _)

pub heal-Emits :
    (s : EncounterState) (id : Text) (amount : ℤ) (source : Option Text)
    → Emits s (heal s id amount source)
unfolding heal
heal-Emits s id (pos amount) source = behind s (assert_active s) _ (λ _.
    behind s (combatant s id) _
      (λ c. behind s (guard (not (is_dead c.life_state)) validation_error) _ (λ _. emit-Emits s _)))
heal-Emits s id (negsuc amount) source = behind s (assert_active s) _ (λ _ t h. absurd (cc))

pub grant_temporary_hp-Emits :
    (s : EncounterState) (id : Text) (amount : ℤ) (choice : TemporaryHitPointChoice)
    → Emits s (grant_temporary_hp s id amount choice)
unfolding grant_temporary_hp
grant_temporary_hp-Emits s id (pos amount) choice =
    behind s (assert_active s) _ (λ _. behind s (combatant s id) _ (λ c. emit-Emits s _))
grant_temporary_hp-Emits s id (negsuc amount) choice =
    behind s (assert_active s) _ (λ _ t h. absurd (cc))

-- a result with more than a transition
abbrev pub EmitsWith {ℓ} : {B : Type ℓ} → EncounterState → Result (CombatTransition × B) → Type ℓ
EmitsWith {B = B} s result =
    (t : CombatTransition) (b : B) → result ≡ ok (t, b) → replay_combat s t.events ≡ ok t.state

pub apply_damage-Emits :
    (s : EncounterState) (id : Text) (packet : DamagePacket) (source : Option Text)
    (critical : Bool) (after : Option RngCheckpoint)
    → EmitsWith s (apply_damage s id packet source critical after)
unfolding apply_damage damage_target
apply_damage-Emits s id packet source critical after t b h =
    let (_, _, h1) = >>=-eq-ok (assert_active s) _ h in
    let (c, _, h2) = >>=-eq-ok (combatant s id) _ h1 in
    let (_, _, h3) = >>=-eq-ok (guard (not (is_dead c.life_state)) validation_error) _ h2 in
    let (u, emitted, built) = >>=-eq-ok (damage_target s id packet source critical after c) _ h3 in
    let same : u ≡ t = ap (λ p. p.0) (ok-injective built) in emit-Emits s _ t (emitted ∙ ap ok same)
