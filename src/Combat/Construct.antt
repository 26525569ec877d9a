-- ===== src/Combat/Construct.antt =====
-- The constructors of combat/model.py and actors/model.py: what holds of the values they return.
use mathlib.Core.Path.{subst}
use godot_dn_dsimulator.Base.{
  ℕ, ◌≤◌, ◌≡◌, refl, ap, ap₂, ◌∙◌, sym, Bool, true, ◌&&◌, List, [], ◌∷◌, All, arith, ok, >>=-eq-ok,
  guard, guard-eq-ok, or_raise-eq-ok, ok-injective, Bool-cases, inl, inr,
}
use godot_dn_dsimulator.Base.Int.{ℤ, pos, negsuc}
use godot_dn_dsimulator.Base.Text.{Text, text_eq}
use godot_dn_dsimulator.Base.Sort.{insert, sort, All-sort, all-sort}
use godot_dn_dsimulator.Base.Keyed.{
  replace_key, key_leb, has_key-sort, unique_keys-sort, All-find_key,
}
use godot_dn_dsimulator.Actors.Model.{
  HitPoints, hit_points, ActorState, actor_state, sort_collections,
}
use godot_dn_dsimulator.Combat.Model.{
  EncounterStatus, preparing, active, ended, CombatantState, combatant_state, combatant_key, allows,
  with_actor, death_saves, DeathSaveTrack, rule_key, window_key, InitiativeEntry,
}
use godot_dn_dsimulator.Combat.Encounter.{
  EncounterState, encounter_state, is_encounter, fits_initiative, known_initiative, full_initiative,
  combatant, replace_combatant, is_nonempty,
}
use godot_dn_dsimulator.Combat.Vitality.{IsSound}

-- What holds of an encounter between commands.
pub record IsValid (s : EncounterState) : Type 0 where
  pub encounter : is_encounter s ≡ true
  pub sound : All IsSound s.combatants

-- the state that the constructor makes of its arguments
abbrev pub normal : EncounterState → EncounterState
normal s = record s {
  combatants = sort (key_leb combatant_key) s.combatants;
  reaction_windows = sort (key_leb window_key) s.reaction_windows;
  condition_rules = sort (key_leb rule_key) s.condition_rules;
}

pub encounter_state-eq-ok :
    (s t : EncounterState) → encounter_state s ≡ ok t → (is_encounter s ≡ true) × (normal s ≡ t)
unfolding encounter_state
encounter_state-eq-ok s t h =
    let (u, passed, built) = >>=-eq-ok (guard (is_encounter s) _) _ h in
    (guard-eq-ok _ _ passed, ok-injective built)

known_initiative-sort :
    (le : CombatantState → CombatantState → Bool) (entries : List InitiativeEntry)
    (cs : List CombatantState)
    → known_initiative entries (sort le cs) ≡ known_initiative entries cs
unfolding known_initiative
known_initiative-sort le [] cs = refl
known_initiative-sort le (e ∷ es) cs =
    ap₂ ◌&&◌ (has_key-sort combatant_key le e.actor_id cs) (known_initiative-sort le es cs)

full_initiative-sort :
    (le : CombatantState → CombatantState → Bool) (entries : List InitiativeEntry)
    (cs : List CombatantState)
    → full_initiative entries (sort le cs) ≡ full_initiative entries cs
unfolding full_initiative
full_initiative-sort le entries cs = all-sort _ le cs

fits_initiative-sort :
    (le : CombatantState → CombatantState → Bool) (status : EncounterStatus)
    (entries : List InitiativeEntry) (cs : List CombatantState)
    → fits_initiative status entries (sort le cs) ≡ fits_initiative status entries cs
unfolding fits_initiative
fits_initiative-sort le preparing es cs = known_initiative-sort le es cs
fits_initiative-sort le active es cs =
    ap₂ ◌&&◌ (known_initiative-sort le es cs) (full_initiative-sort le es cs)
fits_initiative-sort le ended es cs =
    ap₂ ◌&&◌ (known_initiative-sort le es cs) (full_initiative-sort le es cs)

is_nonempty-insert :
    (le : CombatantState → CombatantState → Bool) (c : CombatantState) (cs : List CombatantState)
    → is_nonempty (insert le c cs) ≡ true
unfolding insert
is_nonempty-insert le c [] = refl
is_nonempty-insert le c (d ∷ ds) = ground arith

is_nonempty-sort :
    (le : CombatantState → CombatantState → Bool) (cs : List CombatantState)
    → is_nonempty (sort le cs) ≡ is_nonempty cs
unfolding sort
is_nonempty-sort le [] = refl
is_nonempty-sort le (c ∷ cs) = is_nonempty-insert le c (sort le cs)

-- A constructed encounter passes the checks that its arguments passed.
pub is_encounter-normal : (s : EncounterState) → is_encounter (normal s) ≡ is_encounter s
unfolding is_encounter
is_encounter-normal s = ground (
  arith,
  is_nonempty-sort (key_leb combatant_key) s.combatants,
  unique_keys-sort combatant_key (key_leb combatant_key) s.combatants,
  fits_initiative-sort (key_leb combatant_key) s.status s.initiative s.combatants,
  unique_keys-sort window_key (key_leb window_key) s.reaction_windows,
  unique_keys-sort rule_key (key_leb rule_key) s.condition_rules,
)

pub encounter_state-IsValid :
    (s t : EncounterState) → encounter_state s ≡ ok t → All IsSound s.combatants → IsValid t
encounter_state-IsValid s t h sound =
    let (passed, built) = encounter_state-eq-ok s t h in
    subst IsValid built (record {
      encounter = is_encounter-normal s ∙ passed;
      sound = All-sort IsSound (key_leb combatant_key) s.combatants sound;
    })

pub combatant-IsSound :
    (s : EncounterState) (id : Text) (c : CombatantState)
    → combatant s id ≡ ok c
    → All IsSound s.combatants
    → IsSound c
unfolding combatant
combatant-IsSound s id c h sound =
    All-find_key combatant_key IsSound id s.combatants c sound (or_raise-eq-ok _ _ h)

All-replace_key :
    (c : CombatantState) (cs : List CombatantState)
    → IsSound c
    → All IsSound cs
    → All IsSound (replace_key combatant_key c cs)
unfolding replace_key
All-replace_key c [] sound all_ = tt
All-replace_key c (d ∷ ds) sound all_ =
    elim (Bool-cases (text_eq d.actor.actor_id c.actor.actor_id)) [
      | inl here ↦ rw here (sound, All-replace_key c ds sound all_.1)
      | inr other ↦ rw other (all_.0, All-replace_key c ds sound all_.1)
    ]

abbrev pub replaced : EncounterState → CombatantState → EncounterState
replaced s c = record s { combatants = replace_key combatant_key c s.combatants }

pub replace_combatant-eq-ok :
    (s t : EncounterState) (c : CombatantState)
    → replace_combatant s c ≡ ok t
    → encounter_state (replaced s c) ≡ ok t
unfolding replace_combatant
replace_combatant-eq-ok s t c h = ground arith

pub replace_combatant-IsValid :
    (s t : EncounterState) (c : CombatantState)
    → replace_combatant s c ≡ ok t
    → IsSound c
    → All IsSound s.combatants
    → IsValid t
replace_combatant-IsValid s t c h sound all_ =
    encounter_state-IsValid (replaced s c) t (replace_combatant-eq-ok s t c h)
      (All-replace_key c s.combatants sound all_)

-- the constructor of an actor changes only the order of its collections
pub actor_state-eq-ok : (a b : ActorState) → actor_state a ≡ ok b → sort_collections a ≡ b
unfolding actor_state
actor_state-eq-ok a b h = ground arith

pub hit_points-actor_state :
    (a b : ActorState)
    → actor_state a ≡ ok b
    → (b.hit_points ≡ a.hit_points) × (b.actor_id ≡ a.actor_id)
unfolding sort_collections
hit_points-actor_state a b h =
    let built = actor_state-eq-ok a b h in
    (
      sym (ap (λ (x : ActorState). x.hit_points) built),
      sym (ap (λ (x : ActorState). x.actor_id) built),
    )

-- A new actor with the hit points of a sound combatant leaves it sound.
pub with_actor-IsSound :
    (c d : CombatantState) (actor : ActorState)
    → with_actor c actor ≡ ok d
    → IsSound c
    → actor.hit_points.maximum ≡ c.actor.hit_points.maximum
    → actor.hit_points.current ≡ c.actor.hit_points.current
    → IsSound d
unfolding with_actor combatant_state
with_actor-IsSound c d actor h v same_maximum same_current =
    let built : record c { actor = actor } ≡ d = ground arith in
    let within : actor.hit_points.current ≤ actor.hit_points.maximum =
      omega (arith, v.within, same_maximum, same_current) in
    subst IsSound built (record {
      within = within;
      maximum_least = omega (arith, v.maximum_least, same_maximum);
      allowed = ap (allows c.life_state) same_current ∙ v.allowed;
      successes_most = v.successes_most;
      failures_most = v.failures_most;
    })

pub combatant_state-eq-ok :
    (c d : CombatantState)
    → combatant_state c ≡ ok d
    → (allows c.life_state c.actor.hit_points.current ≡ true) × (c ≡ d)
unfolding combatant_state
combatant_state-eq-ok c d h = ground arith

pub hit_points-eq-ok :
    (current temporary : ℤ) (maximum : ℕ) (hp : HitPoints)
    → hit_points current maximum temporary ≡ ok hp
    → (hp.current ≤ hp.maximum) × (1 ≤ hp.maximum) × (hp.maximum ≡ maximum)
unfolding hit_points
hit_points-eq-ok (pos current) (pos temporary) maximum hp h = ground arith
hit_points-eq-ok (pos current) (negsuc temporary) maximum hp h = cc
hit_points-eq-ok (negsuc current) temporary maximum hp h = cc

pub death_saves-eq-ok :
    (successes failures : ℤ) (saves : DeathSaveTrack)
    → death_saves successes failures ≡ ok saves
    → (saves.successes ≤ 3) × (saves.failures ≤ 3)
unfolding death_saves
death_saves-eq-ok (pos s) (pos f) saves h = ground arith
death_saves-eq-ok (pos s) (negsuc f) saves h = cc
death_saves-eq-ok (negsuc s) f saves h = cc
