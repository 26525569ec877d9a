-- ===== src/Combat/Outcome.antt =====
-- combat/reducer.py: the state after an event that sets hit points.
use godot_dn_dsimulator.Base.{
  ℕ, ◌≡◌, ap, ap₂, ◌∙◌, sym, false, arith, Option, some, Result, ok, assertion_error, ◌>>=◌,
  >>=-eq-ok, or_raise, ok-injective, or_raise-eq-ok,
}
use godot_dn_dsimulator.Base.Int.{pos}
use godot_dn_dsimulator.Base.Text.{Text, text, text_eq, text_eq_refl}
use godot_dn_dsimulator.Base.Keyed.{find_key-key}
use godot_dn_dsimulator.Actors.Model.{ActorState, HitPoints, hit_points}
use godot_dn_dsimulator.Combat.Model.{
  LifeState, life_state, DeathSaveTrack, death_saves, CombatantState, combatant_key, with_actor,
  combatant_state, actor_with_conditions, actor_with_hit_points,
}
use godot_dn_dsimulator.Combat.Encounter.{CombatEvent, EncounterState, combatant, replace_combatant}
use godot_dn_dsimulator.Combat.Reducer.{
  int_value, str_value, synced_conditions, sync_unconscious_condition, apply_hit_points,
}
use godot_dn_dsimulator.Combat.Construct.{hit_points-actor_state, combatant_state-eq-ok}
use godot_dn_dsimulator.Combat.Lookup.{combatant-replace_combatant}

pub combatant-key :
    (s : EncounterState) (id : Text) (c : CombatantState)
    → combatant s id ≡ ok c
    → c.actor.actor_id ≡ id
unfolding combatant
combatant-key s id c h = find_key-key combatant_key id s.combatants c (or_raise-eq-ok _ _ h)

-- The vitals of one combatant, and the others as in another state.
pub record Shows (s t : EncounterState) (id : Text) (hp : HitPoints) (life : LifeState)
    (saves : DeathSaveTrack) : Type 0 where
  pub shown : CombatantState
  pub found : combatant t id ≡ ok shown
  pub same_hp : shown.actor.hit_points ≡ hp
  pub same_life : shown.life_state ≡ life
  pub same_saves : shown.death_saves ≡ saves
  pub others : (other : Text) → text_eq id other ≡ false → combatant t other ≡ combatant s other

pub replaced-found :
    (s t : EncounterState) (c : CombatantState) (id : Text)
    → c.actor.actor_id ≡ id
    → replace_combatant s c ≡ ok t
    → combatant t id ≡ ok c
replaced-found s t c id e h = combatant-replace_combatant s t c id h ∙ rw (e, text_eq_refl id)

replaced-others :
    (s t : EncounterState) (c : CombatantState) (id other : Text)
    → c.actor.actor_id ≡ id
    → replace_combatant s c ≡ ok t
    → text_eq id other ≡ false
    → combatant t other ≡ combatant s other
replaced-others s t c id other e h apart = combatant-replace_combatant s t c other h ∙ rw (e, apart)

sync-Shows :
    (s t : EncounterState) (id : Text) (c : CombatantState)
    → sync_unconscious_condition s id ≡ ok t
    → combatant s id ≡ ok c
    → Shows s t id c.actor.hit_points c.life_state c.death_saves
unfolding sync_unconscious_condition actor_with_conditions with_actor
sync-Shows s t id c h at =
    let (c', found, h1) = >>=-eq-ok (combatant s id) _ h in
    let same : c' ≡ c = ok-injective (sym found ∙ at) in
    let (actor, made, h2) =
      >>=-eq-ok (actor_with_conditions c'.actor (synced_conditions c')) _ h1 in
    let (d, built, replaced) = >>=-eq-ok (with_actor c' actor) _ h2 in
    let taken : record c' { actor = actor } ≡ d = with_actor-eq-ok c' d actor built in
    let (hp, named) = hit_points-actor_state _ actor made in
    let key : d.actor.actor_id ≡ id =
      ap (λ (x : CombatantState). x.actor.actor_id) (sym taken)
      ∙ named
      ∙ combatant-key s id c' found in
    record {
      shown = d;
      found = replaced-found s t d id key replaced;
      same_hp =
          ap (λ (x : CombatantState). x.actor.hit_points) (sym taken)
          ∙ hp
          ∙ ap (λ (x : CombatantState). x.actor.hit_points) same;
      same_life =
          ap (λ (x : CombatantState). x.life_state) (sym taken)
          ∙ ap (λ (x : CombatantState). x.life_state) same;
      same_saves =
          ap (λ (x : CombatantState). x.death_saves) (sym taken)
          ∙ ap (λ (x : CombatantState). x.death_saves) same;
      others = λ other apart. replaced-others s t d id other key replaced apart;
    }
  where
    with_actor-eq-ok :
        (c d : CombatantState) (actor : ActorState)
        → with_actor c actor ≡ ok d
        → record c { actor = actor } ≡ d
    with_actor-eq-ok c d actor h = unfold with_actor combatant_state in ground arith

-- the values that an event carries
pub record Carries (e : CombatEvent) (id : Text) (hp temporary : ℕ) (life : LifeState)
    (saves : DeathSaveTrack) : Type 0 where
  pub target : e.target_id ≡ some id
  pub hp_after : int_value e (text "hp_after") ≡ ok (pos hp)
  pub temporary_after : int_value e (text "temporary_after") ≡ ok (pos temporary)
  pub life_after : (str_value e (text "life_state") >>= life_state) ≡ ok life
  pub successes : int_value e (text "death_successes") ≡ ok (pos saves.successes)
  pub failures : int_value e (text "death_failures") ≡ ok (pos saves.failures)

value_of_ok {ℓ} : {A : Type ℓ} {m : Result A} {a b : A} → m ≡ ok a → m ≡ ok b → a ≡ b
value_of_ok p q = ok-injective (sym p ∙ q)

hit_points-exact :
    (current temporary maximum : ℕ) (hp : HitPoints)
    → hit_points (pos current) maximum (pos temporary) ≡ ok hp
    → hp ≡ record { current = current; maximum = maximum; temporary = temporary }
unfolding hit_points
hit_points-exact current temporary maximum hp h = ground arith

death_saves-exact :
    (saves made : DeathSaveTrack)
    → death_saves (pos saves.successes) (pos saves.failures) ≡ ok made
    → made ≡ saves
unfolding death_saves
death_saves-exact saves made h = ground arith

-- a combatant with new vitals, put in its place and with its conditions brought in line
wound-Shows :
    (s s' t : EncounterState) (id : Text) (c d : CombatantState) (actor : ActorState)
    (hp temporary : ℕ) (life : LifeState) (saves made : DeathSaveTrack)
    → combatant s id ≡ ok c
    → actor_with_hit_points c.actor (pos hp) (pos temporary) ≡ ok actor
    → death_saves (pos saves.successes) (pos saves.failures) ≡ ok made
    → combatant_state (record c { actor = actor; life_state = life; death_saves = made }) ≡ ok d
    → replace_combatant s d ≡ ok s'
    → sync_unconscious_condition s' id ≡ ok t
    → Shows s t id
        (record { current = hp; maximum = c.actor.hit_points.maximum; temporary = temporary })
        life
        saves
unfolding actor_with_hit_points
wound-Shows s s' t id c d actor hp temporary life saves made at shaped counted built put synced =
    let (points, checked, formed) =
      >>=-eq-ok (hit_points (pos hp) c.actor.hit_points.maximum (pos temporary)) _ shaped in
    let (same_points, named) = hit_points-actor_state _ actor formed in
    let taken = (combatant_state-eq-ok _ d built).1 in
    let key : d.actor.actor_id ≡ id =
      ap (λ (x : CombatantState). x.actor.actor_id) (sym taken) ∙ named ∙ combatant-key s id c at in
    let after = sync-Shows s' t id d synced (replaced-found s s' d id key put) in
    record {
      shown = after.shown;
      found = after.found;
      same_hp =
          after.same_hp
          ∙ ap (λ (x : CombatantState). x.actor.hit_points) (sym taken)
          ∙ same_points
          ∙ hit_points-exact hp temporary c.actor.hit_points.maximum points checked;
      same_life = after.same_life ∙ ap (λ (x : CombatantState). x.life_state) (sym taken);
      same_saves =
          after.same_saves
          ∙ ap (λ (x : CombatantState). x.death_saves) (sym taken)
          ∙ death_saves-exact saves made counted;
      others =
          λ other apart. after.others other apart ∙ replaced-others s s' d id other key put apart;
    }

target-eq :
    (o : Option Text) (id id' : Text) → o ≡ some id → or_raise o assertion_error ≡ ok id' → id' ≡ id
target-eq o id id' e h = cc

-- An event that carries vitals for a combatant gives it exactly those, within its own maximum.
pub apply_hit_points-Shows :
    (s t : EncounterState) (e : CombatEvent) (id : Text) (c : CombatantState) (hp temporary : ℕ)
    (life : LifeState) (saves : DeathSaveTrack)
    → Carries e id hp temporary life saves
    → combatant s id ≡ ok c
    → apply_hit_points s e ≡ ok t
    → Shows s t id
        (record { current = hp; maximum = c.actor.hit_points.maximum; temporary = temporary })
        life
        saves
unfolding apply_hit_points
apply_hit_points-Shows s t e id c hp temporary life saves carries at h =
    let (id', named, h1) = >>=-eq-ok (or_raise e.target_id assertion_error) _ h in
    let (c', found, h2) = >>=-eq-ok (combatant s id') _ h1 in
    let (hp', read_hp, h3) = >>=-eq-ok (int_value e (text "hp_after")) _ h2 in
    let (temporary', read_temporary, h4) = >>=-eq-ok (int_value e (text "temporary_after")) _ h3 in
    let (actor, shaped, h5) = >>=-eq-ok (actor_with_hit_points c'.actor hp' temporary') _ h4 in
    let (life', read_life, h6) = >>=-eq-ok (str_value e (text "life_state") >>= life_state) _ h5 in
    let (successes, read_successes, h7) = >>=-eq-ok (int_value e (text "death_successes")) _ h6 in
    let (failures, read_failures, h8) = >>=-eq-ok (int_value e (text "death_failures")) _ h7 in
    let (made, counted, h9) = >>=-eq-ok (death_saves successes failures) _ h8 in
    let (d, built, h10) =
      >>=-eq-ok
        (combatant_state (record c' { actor = actor; life_state = life'; death_saves = made })) _
        h9 in
    let (s', put, synced) = >>=-eq-ok (replace_combatant s d) _ h10 in
    let same_id : id' ≡ id = target-eq e.target_id id id' carries.target named in
    let same_c : c' ≡ c = value_of_ok found (ap (combatant s) same_id ∙ at) in
    let same_hp : hp' ≡ pos hp = value_of_ok read_hp carries.hp_after in
    let same_temporary : temporary' ≡ pos temporary =
      value_of_ok read_temporary carries.temporary_after in
    let same_life : life' ≡ life = value_of_ok read_life carries.life_after in
    let same_successes : successes ≡ pos saves.successes =
      value_of_ok read_successes carries.successes in
    let same_failures : failures ≡ pos saves.failures =
      value_of_ok read_failures carries.failures in
    wound-Shows s s' t id c d actor hp temporary life saves made at
      (ap₂ (actor_with_hit_points c.actor) (sym same_hp) (sym same_temporary)
        ∙ ap (λ (x : CombatantState). actor_with_hit_points x.actor hp' temporary') (sym same_c)
        ∙ shaped)
      (ap₂ death_saves (sym same_successes) (sym same_failures) ∙ counted)
      (ap₂
          (λ (x : CombatantState) l.
            combatant_state (record x { actor = actor; life_state = l; death_saves = made }))
          (sym same_c) (sym same_life)
        ∙ built)
      put (ap (sync_unconscious_condition s') (sym same_id) ∙ synced)
