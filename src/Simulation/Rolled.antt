-- ===== src/Simulation/Rolled.antt =====
-- engine.py: a roll from the dice to the state that the reducer returns.
use godot_dn_dsimulator.Base.{
  ℕ, ◌+◌, ◌^◌, ◌<◌, ◌≡◌, refl, ap, true, false, not, all, Option, some, [], ◌∷◌, arith, ok, Returns,
  ltb, leb, ◌==◌,
}
use godot_dn_dsimulator.Base.{◌%◌}
use godot_dn_dsimulator.Base.Text.Strip.{is_empty-strip}
use godot_dn_dsimulator.Simulation.Model.{counter_leb}
use godot_dn_dsimulator.Base.Int.{ℤ}
use godot_dn_dsimulator.Base.Text.{Text, text, text_eq, text_eq_iff, is_blank, is_empty, strip}
use godot_dn_dsimulator.Base.Sort.{sort}
use godot_dn_dsimulator.Base.Keyed.{find_key, put_key, unique_keys-put_key}
use godot_dn_dsimulator.Ids.{require_id}
use godot_dn_dsimulator.Rng.{DeterministicRng}
use godot_dn_dsimulator.Rng.Words as Words
use godot_dn_dsimulator.Dice.{algorithm, DiceRoll}
use godot_dn_dsimulator.Simulation.Model.{
  Value, Payload, get, entry_key, Counters, RngCheckpoint, rng_checkpoint, CommandEnvelope,
  EventEnvelope, event_envelope, GameState, game_state, with_counter,
}
use godot_dn_dsimulator.Simulation.Reducer.{apply_dice_rolled, apply_by_type, apply_event}
use godot_dn_dsimulator.Simulation.Engine.{
  SimulationEngine, checkpoint, event_id, event_of, roll_payload, rolled_event, finish_roll, assign,
  commit,
}
use godot_dn_dsimulator.Simulation.Counters.{IsValid}
use godot_dn_dsimulator.Simulation.EventIds.{require_id-event_id}

checkpoint-Returns : (rng : DeterministicRng) → Words.IsValid rng → Returns (checkpoint rng)
unfolding checkpoint rng_checkpoint is_blank
checkpoint-Returns rng v =
    let word : ltb rng.state (2 ^ 64) ≡ true = ground (arith, v.state_word) in
    let other : ltb rng.increment (2 ^ 64) ≡ true = ground (arith, v.increment_word) in
    let odd : (rng.increment % 2 == 0) ≡ false = ground (arith, v.increment_odd) in
    (
      record { algorithm = algorithm; state = rng.state; increment = rng.increment },
      rw (word, other, odd),
    )

all-put_key :
    (u : Text × ℤ) (cs : Counters)
    → not (is_empty u.0) ≡ true
    → all (λ e. not (is_empty e.0)) cs ≡ true
    → all (λ e. not (is_empty e.0)) (put_key entry_key u cs) ≡ true
unfolding put_key
all-put_key u [] named h = ground arith
all-put_key u (c ∷ cs) named h = ground (arith, all-put_key u cs named)

game_state-Returns :
    (s : GameState) (name : Text) (total : ℤ) (sequence tick : ℕ)
    → IsValid s
    → is_empty name ≡ false
    → Returns (with_counter s name total sequence tick)
unfolding with_counter game_state
game_state-Returns s name total sequence tick v named =
    let all_named = all-put_key (name, total) s.counters (ap not named) v.named in
    let unique = unique_keys-put_key entry_key (name, total) s.counters v.unique in
    (
      record s {
        sequence = sequence;
        tick = tick;
        counters = sort counter_leb (put_key entry_key (name, total) s.counters);
      },
      rw (v.campaign, v.session, all_named, unique),
    )

event_of_returns :
    (s : GameState) (command : CommandEnvelope) (event_type : Text) (payload : Payload) (tick : ℕ)
    (after : Option RngCheckpoint)
    → IsValid s
    → require_id command.command_id (text "command") ≡ ok command.command_id
    → s.sequence + 1 < 10 ^ 128
    → is_blank event_type ≡ false
    → event_of s command event_type payload tick after
      ≡ ok (record {
        event_id = event_id (s.sequence + 1);
        campaign_id = s.campaign_id;
        session_id = s.session_id;
        sequence = s.sequence + 1;
        event_type = event_type;
        correlation_id = command.command_id;
        causation_id = command.command_id;
        payload = payload;
        version = 1;
        tick = tick;
        rng_after = after;
      })
unfolding event_of event_envelope
event_of_returns s command event_type payload tick after v id bound typed =
    let next : leb 1 (s.sequence + 1) ≡ true = ground arith in
    rw (require_id-event_id (s.sequence + 1) bound, v.campaign, v.session, id, next, typed)

-- the reducer accepts the event of a roll
apply_event-Returns :
    (s : GameState) (event : EventEnvelope) (name : Text) (total : ℤ)
    → IsValid s
    → is_empty name ≡ false
    → event.event_type ≡ text "dice.rolled"
    → event.campaign_id ≡ s.campaign_id
    → event.session_id ≡ s.session_id
    → event.sequence ≡ s.sequence + 1
    → event.tick ≡ s.tick
    → get (text "counter") event.payload ≡ Value.string name
    → get (text "total") event.payload ≡ Value.integer total
    → Returns (apply_event s event)
unfolding apply_event apply_by_type apply_dice_rolled
apply_event-Returns s event name total v named typed campaign session next tick counts totals =
    let (s', made) = game_state-Returns s name total event.sequence event.tick v named in
    let rolled : text_eq event.event_type (text "dice.rolled") ≡ true =
      (text_eq_iff _ (text "dice.rolled")).1 typed in
    let same_campaign : text_eq event.campaign_id s.campaign_id ≡ true =
      (text_eq_iff _ s.campaign_id).1 campaign in
    let same_session : text_eq event.session_id s.session_id ≡ true =
      (text_eq_iff _ s.session_id).1 session in
    let in_order : (event.sequence == s.sequence + 1) ≡ true = ground arith in
    let on_time : ltb event.tick s.tick ≡ false = ground arith in
    (s', rw (same_campaign, same_session, in_order, on_time, rolled, counts, totals, named, made))

dice_rolled_named : is_blank (text "dice.rolled") ≡ false
unfolding is_blank
dice_rolled_named = refl

says_counter :
    (roll : DiceRoll) (counter : Text)
    → get (text "counter") (roll_payload roll counter) ≡ Value.string (strip counter)
unfolding roll_payload find_key text_eq
says_counter roll counter = refl

says_total :
    (roll : DiceRoll) (counter : Text)
    → get (text "total") (roll_payload roll counter) ≡ Value.integer roll.total
unfolding roll_payload find_key text_eq
says_total roll counter = refl

-- once the dice have been rolled, the command succeeds
pub roll_succeeds :
    (engine : SimulationEngine) (command : CommandEnvelope) (counter : Text) (roll : DiceRoll)
    (rng : DeterministicRng)
    → IsValid engine.state
    → Words.IsValid rng
    → require_id command.command_id (text "command") ≡ ok command.command_id
    → engine.state.sequence + 1 < 10 ^ 128
    → is_blank counter ≡ false
    → Returns (commit (finish_roll engine command counter (ok (roll, rng)))).0
unfolding finish_roll rolled_event commit assign
roll_succeeds engine command counter roll rng v valid id bound named =
    let (after, checked) = checkpoint-Returns rng valid in
    let payload : Payload = roll_payload roll counter in
    let event : EventEnvelope = record {
      event_id = event_id (engine.state.sequence + 1);
      campaign_id = engine.state.campaign_id;
      session_id = engine.state.session_id;
      sequence = engine.state.sequence + 1;
      event_type = text "dice.rolled";
      correlation_id = command.command_id;
      causation_id = command.command_id;
      payload = payload;
      version = 1;
      tick = engine.state.tick;
      rng_after = some after;
    } in
    let made =
      event_of_returns engine.state command (text "dice.rolled") payload engine.state.tick
        (some after) v id bound dice_rolled_named in
    let (s', applied) =
      apply_event-Returns engine.state event (strip counter) roll.total v
        (is_empty-strip counter named) refl refl refl refl refl (says_counter roll counter)
        (says_total roll counter) in
    (event ∷ [], rw (checked, made, applied))
