-- ===== src/Simulation/Counters.antt =====
-- reducer.py: the sequence, the tick and the counters after an event.
use mathlib.Core.Path.{subst}
use godot_dn_dsimulator.Base.{
  ◌+◌, ◌≤◌, ◌≡◌, refl, ap, ◌∙◌, sym, true, false, not, Option, none, some, all, arith, ok,
  >>=-eq-ok, if-eq, inl, inr, if◌then◌else◌,
}
use godot_dn_dsimulator.Base.Int.{ℤ, integer_order}
use godot_dn_dsimulator.Base.Text.{Text, text, text_eq, is_empty, text_eq_iff}
use godot_dn_dsimulator.Base.Sort.{
  sort, IsSorted, sort-IsSorted, all-sort, TotalPreorder, lex-TotalPreorder, TotalPreorder-on,
}
use godot_dn_dsimulator.Base.Keyed.{
  unique_keys, put_key, find_key-sort, unique_keys-sort, find_key-put_key, text_order,
}
use godot_dn_dsimulator.Ids.{require_id}
use godot_dn_dsimulator.Simulation.Model.{
  Value, integer, string, entry_key, get, Counters, counter_leb, EventEnvelope, GameState,
  game_state, counter, with_counter,
}
use godot_dn_dsimulator.Simulation.Reducer.{apply_dice_rolled, apply_by_type, apply_event}

-- What the constructor of a state establishes.
pub record IsValid (s : GameState) : Type 0 where
  pub campaign : require_id s.campaign_id (text "campaign") ≡ ok s.campaign_id
  pub session : require_id s.session_id (text "session") ≡ ok s.session_id
  pub named : all (λ e. not (is_empty e.0)) s.counters ≡ true
  pub unique : unique_keys entry_key s.counters ≡ true
  pub sorted : IsSorted counter_leb s.counters

require_id-eq-ok : (s n t : Text) → require_id s n ≡ ok t → s ≡ t
unfolding require_id
require_id-eq-ok s n t h = ground arith

counter_order : TotalPreorder counter_leb
counter_order =
    lex-TotalPreorder _ _ (TotalPreorder-on (λ (p : Text × ℤ). p.0) _ text_order)
      (TotalPreorder-on (λ (p : Text × ℤ). p.1) _ integer_order)

-- A constructed state differs from its arguments only in the order of the counters.
abbrev Normalises : GameState → GameState → Type 0
Normalises given s =
    IsValid s
    × (s ≡ record given { counters = sort counter_leb given.counters })
    × (unique_keys entry_key given.counters ≡ true)

game_state-Normalises : (given s : GameState) → game_state given ≡ ok s → Normalises given s
unfolding game_state
game_state-Normalises given s h =
    let (c, hc, h1) = >>=-eq-ok (require_id given.campaign_id _) _ h in
    let (d, hd, h2) = >>=-eq-ok (require_id given.session_id _) _ h1 in
    let cs : Counters = given.counters in
    let built : record given { counters = sort counter_leb cs } ≡ s = ground (arith, h2) in
    let unique : unique_keys entry_key cs ≡ true = ground (arith, h2) in
    let named : all (λ e. not (is_empty e.0)) cs ≡ true = ground (arith, h2) in
    let valid : IsValid (record given { counters = sort counter_leb cs }) = record {
      campaign = hc ∙ ap ok (sym (require_id-eq-ok _ _ c hc));
      session = hd ∙ ap ok (sym (require_id-eq-ok _ _ d hd));
      named = all-sort _ counter_leb cs ∙ named;
      unique = unique_keys-sort entry_key counter_leb cs ∙ unique;
      sorted = sort-IsSorted counter_order cs;
    } in
    (subst IsValid built valid, sym built, unique)

-- What the reducer does to everything but the counters.
pub record Advances (s : GameState) (event : EventEnvelope) (s' : GameState) : Type 0 where
  pub next : s'.sequence ≡ s.sequence + 1
  pub at_event : s'.sequence ≡ event.sequence
  pub onwards : s.tick ≤ s'.tick
  pub at_tick : s'.tick ≡ event.tick
  pub same_campaign : s'.campaign_id ≡ s.campaign_id
  pub same_session : s'.session_id ≡ s.session_id
  pub valid : IsValid s'

-- The given state of the constructor call, whichever the event's type is.
abbrev Given : GameState → EventEnvelope → GameState → Type 0
Given s event given =
    (given.sequence ≡ event.sequence)
    × (given.tick ≡ event.tick)
    × (given.campaign_id ≡ s.campaign_id)
    × (given.session_id ≡ s.session_id)

dice_rolled-Given :
    (s s' : GameState) (event : EventEnvelope) (name total : Value)
    → apply_dice_rolled s event name total ≡ ok s'
    → (given : GameState) × (game_state given ≡ ok s') × Given s event given
unfolding apply_dice_rolled with_counter
dice_rolled-Given s s' event (string name) (integer total) h = (
  record s {
    sequence = event.sequence;
    tick = event.tick;
    counters = put_key entry_key (name, total) s.counters;
  },
  ground arith,
  (refl, refl, refl, refl),
)
dice_rolled-Given s s' event name total h = absurd (ground arith)

by_type-Given :
    (s s' : GameState) (event : EventEnvelope)
    → apply_by_type s event ≡ ok s'
    → (given : GameState) × (game_state given ≡ ok s') × Given s event given
unfolding apply_by_type
by_type-Given s s' event h = elim (if-eq (text_eq event.event_type (text "dice.rolled")) _ _ h) [
  | inl (_, rolled) ↦ dice_rolled-Given s s' event _ _ rolled
  | inr (_, h') ↦ elim (if-eq (text_eq event.event_type (text "simulation.tick_advanced")) _ _ h') [
    | inl (_, advanced) ↦ (_, advanced, (refl, refl, refl, refl))
    | inr (_, unsupported) ↦ absurd (cc)
  ]
]

-- An event that the reducer accepts is the next one: the sequence grows by one, the tick never falls,
-- the identifiers stay, and the new state is valid.
pub apply_event-Advances :
    (s s' : GameState) (event : EventEnvelope) → apply_event s event ≡ ok s' → Advances s event s'
unfolding apply_event
apply_event-Advances s s' event h =
    let dispatched : apply_by_type s event ≡ ok s' = ground arith in
    let next : event.sequence ≡ s.sequence + 1 = ground arith in
    let onwards : s.tick ≤ event.tick = ground arith in
    let (given, built, (sequence, tick, campaign, session)) = by_type-Given s s' event dispatched in
    let (valid, normal, _) = game_state-Normalises given s' built in
    record {
      next = ap (λ (x : GameState). x.sequence) normal ∙ sequence ∙ next;
      at_event = ap (λ (x : GameState). x.sequence) normal ∙ sequence;
      onwards = omega (arith, ap (λ (x : GameState). x.tick) normal ∙ tick);
      at_tick = ap (λ (x : GameState). x.tick) normal ∙ tick;
      same_campaign = ap (λ (x : GameState). x.campaign_id) normal ∙ campaign;
      same_session = ap (λ (x : GameState). x.session_id) normal ∙ session;
      valid = valid;
    }

-- A roll sets its counter to the total and leaves the others; an advance of the tick leaves them all.
counter-game_state :
    (given s' : GameState) (name : Text) (default : ℤ)
    → game_state given ≡ ok s'
    → counter name default s' ≡ counter name default given
unfolding counter
counter-game_state given s' name default h =
    let (_, normal, unique) = game_state-Normalises given s' h in
    ap (counter name default) normal
    ∙ ap (λ (o : Option (Text × ℤ)). elim o [ none ↦ default | some e ↦ e.1 ])
        (find_key-sort entry_key counter_leb name given.counters unique)

-- After a `dice.rolled` event the counter that it names reads the total, and every other counter reads
-- as before.
pub counter-apply_event_rolled :
    (s s' : GameState) (event : EventEnvelope) (rolled name : Text) (total default : ℤ)
    → event.event_type ≡ text "dice.rolled"
    → get (text "counter") event.payload ≡ string rolled
    → get (text "total") event.payload ≡ integer total
    → apply_event s event ≡ ok s'
    → counter name default s' ≡ (if text_eq rolled name then total else counter name default s)
unfolding apply_event apply_by_type apply_dice_rolled with_counter
counter-apply_event_rolled s s' event rolled name total default is_roll names totals h =
    let passes : text_eq event.event_type (text "dice.rolled") ≡ true =
      (text_eq_iff _ (text "dice.rolled")).1 is_roll in
    let given : GameState = record s {
      sequence = event.sequence;
      tick = event.tick;
      counters = put_key entry_key (rolled, total) s.counters;
    } in
    let built : game_state given ≡ ok s' = ground arith in
    counter-game_state given s' name default built
    ∙ unfold counter in ground (arith, find_key-put_key entry_key name (rolled, total) s.counters)

-- After a `simulation.tick_advanced` event every counter reads as before.
pub counter-apply_event_advanced :
    (s s' : GameState) (event : EventEnvelope) (name : Text) (default : ℤ)
    → event.event_type ≡ text "simulation.tick_advanced"
    → apply_event s event ≡ ok s'
    → counter name default s' ≡ counter name default s
unfolding apply_event apply_by_type counter
counter-apply_event_advanced s s' event name default is_advance h =
    let other : text_eq event.event_type (text "dice.rolled") ≡ false =
      rw is_advance (unfold text_eq in refl) in
    let passes : text_eq event.event_type (text "simulation.tick_advanced") ≡ true =
      (text_eq_iff _ (text "simulation.tick_advanced")).1 is_advance in
    let given : GameState = record s { sequence = event.sequence; tick = event.tick } in
    let built : game_state given ≡ ok s' = ground arith in
    counter-game_state given s' name default built
