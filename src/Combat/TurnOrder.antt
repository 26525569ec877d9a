-- ===== src/Combat/TurnOrder.antt =====
-- `_next_living_turn` of combat/runtime.py: whose turn comes next.
use native.Mathlib.Nat.{mod-eq-sub-mod, mod-lt, mod-eq_of_lt, add-mod_right}
use godot_dn_dsimulator.Base.{leb, if◌then◌else◌}
use godot_dn_dsimulator.Base.{
  ℕ, zero, suc, ◌+◌, ◌-◌, ◌%◌, ◌≤◌, ◌<◌, ◌≡◌, refl, ap, ◌∙◌, sym, true, false, not, List, [], ◌∷◌,
  arith, some, length, get_elem?, ◌⊎◌, inl, inr, ok, Returns, Option-cases, >>=-eq-ok, if-eq,
  ok-injective, Bool-cases,
}
use godot_dn_dsimulator.Base.Keyed.{find_key, has_key, has_key-find_key}
use godot_dn_dsimulator.Combat.Model.{CombatantState, InitiativeEntry, combatant_key, is_dead}
use godot_dn_dsimulator.Combat.Encounter.{EncounterState, combatant, known_initiative}
use godot_dn_dsimulator.Combat.Turns.{lives_at, turn_of, next_living_from, next_living_turn}

-- the place in the initiative so many places behind the current one
abbrev pub place : EncounterState → ℕ → ℕ
place s offset = (s.turn_index + offset) % length s.initiative

-- The next turn among the offsets from one to before another.
pub record IsNext (s : EncounterState) (offset end : ℕ) (turn : ℕ × ℕ) : Type 0 where
  pub steps : ℕ
  pub least : offset ≤ steps
  pub most : steps < end
  pub at_turn : turn ≡ turn_of s (place s steps)
  pub lives : lives_at s (place s steps) ≡ ok true
  pub nearest : (j : ℕ) → offset ≤ j → j < steps → lives_at s (place s j) ≡ ok false

abbrev skip :
    (s : EncounterState) (offset left : ℕ) (turn : ℕ × ℕ)
    → lives_at s (place s offset) ≡ ok false
    → IsNext s (suc offset) (suc offset + left) turn
    → IsNext s offset (offset + suc left) turn
skip s offset left turn here later = record {
  steps = later.steps;
  least = omega (arith, later.least);
  most = omega (arith, later.most);
  at_turn = later.at_turn;
  lives = later.lives;
  nearest = λ j low high. elim (nearer j low) [
    | inl e ↦ ap (λ k. lives_at s (place s k)) e ∙ here
    | inr above ↦ later.nearest j above high
  ];
}
  where
    nearer : (j : ℕ) → offset ≤ j → (j ≡ offset) ⊎ (suc offset ≤ j)
    nearer j low = omega arith

next_living_from-IsNext :
    (s : EncounterState) (offset left : ℕ) (turn : ℕ × ℕ)
    → next_living_from s offset left ≡ ok turn
    → IsNext s offset (offset + left) turn
unfolding next_living_from
next_living_from-IsNext s offset zero turn h = absurd (cc)
next_living_from-IsNext s offset (suc left) turn h =
    let (lives, at, chosen) = >>=-eq-ok (lives_at s (place s offset)) _ h in
    elim (if-eq lives _ _ chosen) [
      | inl (living, here) ↦ record {
        steps = offset;
        least = omega arith;
        most = omega arith;
        at_turn = sym (ok-injective here);
        lives = at ∙ ap ok living;
        nearest = λ j low high. absurd (omega arith);
      }
      | inr (fallen, later) ↦
          skip s offset left turn (at ∙ ap ok fallen)
            (next_living_from-IsNext s (suc offset) left turn later)
    ]

-- the turn goes back to the start just if the steps lead over the end
wraps :
    (s : EncounterState) (steps : ℕ)
    → s.turn_index < length s.initiative
    → 1 ≤ steps
    → steps < 1 + length s.initiative
    → leb (place s steps) s.turn_index ≡ leb (length s.initiative) (s.turn_index + steps)
wraps s steps turn low high = elim (side) [
  | inl before ↦
      let at : place s steps ≡ s.turn_index + steps = mod-eq_of_lt before in ground (arith, at)
  | inr over ↦
      let back : s.turn_index + steps - length s.initiative < length s.initiative = omega arith in
      let at : place s steps ≡ s.turn_index + steps - length s.initiative =
        mod-eq-sub-mod over ∙ mod-eq_of_lt back in
      ground (arith, at)
]
  where
    side :
        (s.turn_index + steps < length s.initiative) ⊎ (length s.initiative ≤ s.turn_index + steps)
    side = omega arith

-- The next turn of an encounter: so many steps behind the current one, all around.
pub record IsNextTurn (s : EncounterState) (turn : ℕ × ℕ) : Type 0 where
  pub steps : ℕ
  pub least : 1 ≤ steps
  pub most : steps ≤ length s.initiative
  pub index : turn.0 ≡ place s steps
  pub lives : lives_at s (place s steps) ≡ ok true
  pub nearest : (j : ℕ) → 1 ≤ j → j < steps → lives_at s (place s j) ≡ ok false
  pub round :
      turn.1 ≡ s.round_number + (if leb (length s.initiative) (s.turn_index + steps) then 1 else 0)

-- The turn that follows is that of the first living combatant behind the current one, all around the
-- order of initiative: those between are dead, and the round grows by one just if the steps lead over
-- the end of the order.
pub next_living_turn-IsNextTurn :
    (s : EncounterState) (turn : ℕ × ℕ)
    → s.turn_index < length s.initiative
    → next_living_turn s ≡ ok turn
    → IsNextTurn s turn
unfolding next_living_turn
next_living_turn-IsNextTurn s turn within h =
    let next = next_living_from-IsNext s 1 (length s.initiative) turn h in
    record {
      steps = next.steps;
      least = next.least;
      most = omega (arith, next.most);
      index = ap (λ p. p.0) next.at_turn;
      lives = next.lives;
      nearest = next.nearest;
      round =
          ap (λ p. p.1) next.at_turn
          ∙ ap (λ test. s.round_number + (if test then 1 else 0))
              (wraps s next.steps within next.least next.most);
    }

get_elem?_known :
    (entries : List InitiativeEntry) (combatants : List CombatantState) (index : ℕ)
    → known_initiative entries combatants ≡ true
    → index < length entries
    → (e : InitiativeEntry) × (get_elem? entries index ≡ some e)
      × (has_key combatant_key e.actor_id combatants ≡ true)
unfolding known_initiative
get_elem?_known [] combatants index known below = absurd (omega arith)
get_elem?_known (e ∷ es) combatants zero known below = (e, refl, ground arith)
get_elem?_known (e ∷ es) combatants (suc index) known below =
    get_elem?_known es combatants index (unfold known_initiative in ground arith) (omega arith)

-- every place in the initiative of an encounter has a combatant
lives_at_total :
    (s : EncounterState) (index : ℕ)
    → known_initiative s.initiative s.combatants ≡ true
    → index < length s.initiative
    → Returns (lives_at s index)
unfolding lives_at combatant
lives_at_total s index known below =
    let (e, here, present) = get_elem?_known s.initiative s.combatants index known below in
    let found = has_key-find_key combatant_key e.actor_id s.combatants in
    elim (Option-cases (find_key combatant_key e.actor_id s.combatants)) [
      | inl missing ↦ absurd (ground (arith, missing))
      | inr (c, at) ↦ (not (is_dead c.life_state), rw (here, at))
    ]

next_living_from_total :
    (s : EncounterState) (offset left k : ℕ)
    → ((index : ℕ) → index < length s.initiative → Returns (lives_at s index))
    → 1 ≤ length s.initiative
    → offset ≤ k
    → k < offset + left
    → lives_at s (place s k) ≡ ok true
    → Returns (next_living_from s offset left)
unfolding next_living_from
next_living_from_total s offset zero k total some_ low high living = absurd (omega arith)
next_living_from_total s offset (suc left) k total some_ low high living =
    let (lives, at) = total (place s offset) (mod-lt (s.turn_index + offset) some_) in
    elim (Bool-cases lives) [
      | inl alive ↦ (turn_of s (place s offset), rw (at, alive))
      | inr fallen ↦
          let further : suc offset ≤ k = elim (nearer) [
            | inl e ↦ absurd (cc (at, fallen, living, e))
            | inr above ↦ above
          ] in
          let (turn, later) =
            next_living_from_total s (suc offset) left k total some_ further (omega arith) living in
          (turn, rw (at, fallen, later))
    ]
  where
    nearer : (k ≡ offset) ⊎ (suc offset ≤ k)
    nearer = omega arith

-- every index is so many places behind another one
place_of :
    (s : EncounterState) (index : ℕ)
    → s.turn_index < length s.initiative
    → index < length s.initiative
    → (k : ℕ) × (1 ≤ k) × (k < 1 + length s.initiative) × (place s k ≡ index)
place_of s index turn below = elim (side) [
  | inl (behind, e) ↦ (
    index - s.turn_index,
    omega arith,
    omega arith,
    ap (λ n. n % length s.initiative) e ∙ mod-eq_of_lt below,
  )
  | inr (around, e) ↦ (
    index + length s.initiative - s.turn_index,
    omega arith,
    omega arith,
    ap (λ n. n % length s.initiative) e
        ∙ add-mod_right index (length s.initiative)
        ∙ mod-eq_of_lt below,
  )
]
  where
    side :
        ((s.turn_index < index) × (s.turn_index + (index - s.turn_index) ≡ index))
        ⊎ ((index ≤ s.turn_index)
            × (s.turn_index + (index + length s.initiative - s.turn_index)
                ≡ index + length s.initiative))
    side = omega arith

-- In an encounter whose initiative names combatants, with the turn at one of them, a next turn is found
-- whenever anybody in the initiative lives.
pub next_living_turn_total :
    (s : EncounterState) (index : ℕ)
    → known_initiative s.initiative s.combatants ≡ true
    → s.turn_index < length s.initiative
    → index < length s.initiative
    → lives_at s index ≡ ok true
    → Returns (next_living_turn s)
unfolding next_living_turn
next_living_turn_total s index known turn below living =
    let (k, low, high, there) = place_of s index turn below in
    next_living_from_total s 1 (length s.initiative) k (λ i. lives_at_total s i known) (omega arith)
      low high (ap (lives_at s) there ∙ living)
