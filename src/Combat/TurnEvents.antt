-- ===== src/Combat/TurnEvents.antt =====
-- `end_turn` and `start_encounter` of combat/runtime.py: their events, replayed by combat/reducer.py.
use mathlib.Core.Path.{subst}
use godot_dn_dsimulator.Base.{
  ◌≡◌, refl, ap, ◌∙◌, Bool, true, false, List, [], ◌∷◌, Result, ok, err, validation_error,
  assertion_error, >>=-eq-ok, ok-injective, guard, or_raise, if-eq, inl, inr,
}
use godot_dn_dsimulator.Base.Int.{pos}
use godot_dn_dsimulator.Base.Text.{Text}
use godot_dn_dsimulator.Rng.{DeterministicRng}
use godot_dn_dsimulator.Rules.Primitives.{AbilityScore}
use godot_dn_dsimulator.Rules.Runtime.{
  RulesetCapabilities, ResolutionContext, D20Outcome, resolve_d20,
}
use godot_dn_dsimulator.Combat.Model.{CombatantState}
use godot_dn_dsimulator.Combat.Encounter.{CombatEvent, EncounterState, combatant, current_actor_id}
use godot_dn_dsimulator.Combat.Reducer.{apply_combat_event, replay_combat}
use godot_dn_dsimulator.Combat.Wounds.{CombatTransition, emit, assert_active, death_save_event}
use godot_dn_dsimulator.Combat.Turns.{
  is_current, next_living_turn, start_turn_event, pass_turn, turn_actor, finish_turn, save_if,
  needs_death_save, end_turn,
}
use godot_dn_dsimulator.Combat.Start.{
  Rolling, InitiativeRow, initiative_request, initiative_event, record_row, roll_initiative,
  roll_initiatives, started_event, with_request, with_outcome, begin_turns, start_encounter,
  is_preparing,
}
use godot_dn_dsimulator.Combat.Emission.{replay_combat-append, replay_combat-snoc, emit-Emits}

turn_actor-eq-ok : (t u : CombatTransition) (c : CombatantState) → turn_actor t ≡ ok (u, c) → t ≡ u
unfolding turn_actor
turn_actor-eq-ok t u c h =
    let (id, _, h1) = >>=-eq-ok (or_raise (current_actor_id t.state) assertion_error) _ h in
    let (d, _, built) = >>=-eq-ok (combatant t.state id) _ h1 in ap (λ p. p.0) (ok-injective built)

pass_turn-Emits :
    (s : EncounterState) (id : Text) (t : CombatTransition) (c : CombatantState)
    → pass_turn s id ≡ ok (t, c)
    → replay_combat s t.events ≡ ok t.state
unfolding pass_turn
pass_turn-Emits s id t c h =
    let (_, _, h1) = >>=-eq-ok (assert_active s) _ h in
    let (_, _, h2) = >>=-eq-ok (guard (is_current s id) validation_error) _ h1 in
    let ((index, round), _, h3) = >>=-eq-ok (next_living_turn s) _ h2 in
    let (u, emitted, named) = >>=-eq-ok (emit s (start_turn_event s index round)) _ h3 in
    emit-Emits s (start_turn_event s index round) t (emitted ∙ ap ok (turn_actor-eq-ok u t c named))

save_if-Emits :
    (s : EncounterState) (t u : CombatTransition) (c : CombatantState) (rng rng' : DeterministicRng)
    (needs : Bool)
    → replay_combat s t.events ≡ ok t.state
    → save_if t c rng needs ≡ (ok u, rng')
    → replay_combat s u.events ≡ ok u.state
unfolding save_if
save_if-Emits s t u c rng rng' false before h =
    let same : t ≡ u = ok-injective (ap (λ p. p.0) h) in
    subst (λ (x : CombatTransition). replay_combat s x.events ≡ ok x.state) same before
save_if-Emits s t u c rng rng' true before h =
    let event = (death_save_event t.state c.actor.actor_id rng).0 in
    let (v, emitted, built) = >>=-eq-ok (emit t.state event) _ (ap (λ p. p.0) h) in
    subst (λ (x : CombatTransition). replay_combat s x.events ≡ ok x.state) (ok-injective built)
      (replay_combat-append t.events v.events s t.state before ∙ emit-Emits t.state event v emitted)

finish_turn-Emits :
    (s : EncounterState) (id : Text) (passed : Result (CombatTransition × CombatantState))
    (u : CombatTransition) (rng rng' : DeterministicRng)
    → pass_turn s id ≡ passed
    → finish_turn rng passed ≡ (ok u, rng')
    → replay_combat s u.events ≡ ok u.state
unfolding finish_turn
finish_turn-Emits s id (err e) u rng rng' p h = absurd (cc)
finish_turn-Emits s id (ok (t, c)) u rng rng' p h =
    save_if-Emits s t u c rng rng' (needs_death_save c) (pass_turn-Emits s id t c p) h

pub end_turn-Emits :
    (s : EncounterState) (id : Text) (rng rng' : DeterministicRng) (u : CombatTransition)
    → end_turn s id rng ≡ (ok u, rng')
    → replay_combat s u.events ≡ ok u.state
unfolding end_turn
end_turn-Emits s id rng rng' u h = finish_turn-Emits s id _ u rng rng' refl h

-- the loop's log leads to the loop's state
abbrev Logged : EncounterState → Rolling → Type 0
Logged s r = replay_combat s r.events ≡ ok r.current

record_row-Logged :
    (s : EncounterState) (r r' : Rolling) (row : InitiativeRow) (rng : DeterministicRng)
    → Logged s r
    → record_row r row rng ≡ ok r'
    → Logged s r'
unfolding record_row
record_row-Logged s r r' row rng before h =
    let (event, _, h1) = >>=-eq-ok (initiative_event r.current row rng) _ h in
    let (current, one, built) = >>=-eq-ok (apply_combat_event r.current event) _ h1 in
    subst (Logged s) (ok-injective built)
      (replay_combat-snoc r.events event s r.current current before one)

with_outcome-Logged :
    (s : EncounterState) (r r' : Rolling) (c : CombatantState) (score : AbilityScore)
    (outcome : Result D20Outcome × DeterministicRng) (rng : DeterministicRng)
    → Logged s r
    → with_outcome r c score outcome ≡ (ok r', rng)
    → Logged s r'
with_outcome-Logged s r r' c score (err e, rng₀) rng before h = absurd (cc)
with_outcome-Logged s r r' c score (ok outcome, rng₀) rng before h =
    record_row-Logged s r r' _ rng₀ before (ap (λ p. p.0) h)

with_request-Logged :
    (capabilities : RulesetCapabilities) (s : EncounterState) (r r' : Rolling) (c : CombatantState)
    (rng rng' : DeterministicRng) (request : Result (ResolutionContext × AbilityScore))
    → Logged s r
    → with_request capabilities r c rng request ≡ (ok r', rng')
    → Logged s r'
with_request-Logged capabilities s r r' c rng rng' (err e) before h = absurd (cc)
with_request-Logged capabilities s r r' c rng rng' (ok (context, score)) before h =
    with_outcome-Logged s r r' c score
      (resolve_d20 capabilities rng context score _ [] (pos 0) (pos 0)) rng' before h

-- what the loop has so far, if nothing was raised
abbrev LoggedIf : EncounterState → Result Rolling → Type 0
LoggedIf s result = (r : Rolling) → result ≡ ok r → Logged s r

roll_initiative-LoggedIf :
    (capabilities : RulesetCapabilities) (start s : EncounterState) (r : Rolling)
    (c : CombatantState) (rng : DeterministicRng)
    → Logged s r
    → LoggedIf s (roll_initiative capabilities start r c rng).0
unfolding roll_initiative
roll_initiative-LoggedIf capabilities start s r c rng before r' h =
    with_request-Logged capabilities s r r' c rng _ (initiative_request start c) before
      (ap (λ x. (x, (with_request capabilities r c rng (initiative_request start c)).1)) h)

roll_initiatives-LoggedIf :
    (capabilities : RulesetCapabilities) (start s : EncounterState) (rolled : Result Rolling)
    (rng : DeterministicRng) (cs : List CombatantState)
    → LoggedIf s rolled
    → LoggedIf s (roll_initiatives capabilities start (rolled, rng) cs).0
unfolding roll_initiatives
roll_initiatives-LoggedIf capabilities start s (err e) rng cs before r h = absurd (cc)
roll_initiatives-LoggedIf capabilities start s (ok r₀) rng [] before r h = before r h
roll_initiatives-LoggedIf capabilities start s (ok r₀) rng (c ∷ cs) before r h =
    roll_initiatives-LoggedIf capabilities start s (roll_initiative capabilities start r₀ c rng).0
      (roll_initiative capabilities start r₀ c rng).1 cs
      (roll_initiative-LoggedIf capabilities start s r₀ c rng (before r₀ refl)) r h

begin_turns-Emits :
    (s : EncounterState) (r : Rolling) (t : CombatTransition)
    → Logged s r
    → begin_turns r ≡ ok t
    → replay_combat s t.events ≡ ok t.state
unfolding begin_turns
begin_turns-Emits s r t before h =
    let (started, _, h1) = >>=-eq-ok (started_event r) _ h in
    let (current, first, h2) = >>=-eq-ok (apply_combat_event r.current started) _ h1 in
    let (turn, _, h3) = >>=-eq-ok (start_turn_event current 0 1) _ h2 in
    let (last, second, built) = >>=-eq-ok (apply_combat_event current turn) _ h3 in
    subst (λ (x : CombatTransition). replay_combat s x.events ≡ ok x.state) (ok-injective built)
      (replay_combat-append r.events (started ∷ turn ∷ []) s r.current before
        ∙ two r.current current last started turn first second)
  where
    two :
        (a b c : EncounterState) (d e : CombatEvent)
        → apply_combat_event a d ≡ ok b
        → apply_combat_event b e ≡ ok c
        → replay_combat a (d ∷ e ∷ []) ≡ ok c
    two a b c d e p q = unfold replay_combat in rw (p, q)

pub start_encounter-Emits :
    (capabilities : RulesetCapabilities) (s : EncounterState) (rng rng' : DeterministicRng)
    (t : CombatTransition)
    → start_encounter capabilities s rng ≡ (ok t, rng')
    → replay_combat s t.events ≡ ok t.state
unfolding start_encounter
start_encounter-Emits capabilities s rng rng' t h = elim (if-eq (is_preparing s.status) _ _ h) [
  | inr (_, refused) ↦ absurd (cc)
  | inl (_, started) ↦
      let fresh : Rolling = record { current = s; events = []; rows = [] } in
      let rolled = roll_initiatives capabilities s (ok fresh, rng) s.combatants in
      let (r, rolls, begun) = >>=-eq-ok (rolled.0) begin_turns (ap (λ p. p.0) started) in
      begin_turns-Emits s r t
        (roll_initiatives-LoggedIf capabilities s s (ok fresh) rng s.combatants
          (λ r' same. subst (Logged s) (ok-injective same) (unfold replay_combat in refl)) r rolls)
        begun
]
