-- ===== src/Simulation/Tests.antt =====
-- A session of two commands, and the instances of the theorems.
use godot_dn_dsimulator.Simulation.Model.{with_counter}
use godot_dn_dsimulator.Base.Keyed.{unique_keys}
use godot_dn_dsimulator.Base.Decimal.{show}
use godot_dn_dsimulator.Simulation.Engine.{
  amount_of, assign, commit, event_of, resolve_advance_tick,
}
use godot_dn_dsimulator.Base.{
  ◌≡◌, refl, arith, ok, err, none, some, [], ◌∷◌, sequence_error, if◌then◌else◌,
}
use godot_dn_dsimulator.Base.Int.{pos}
use godot_dn_dsimulator.Base.Text.{text, text_eq, is_blank}
use godot_dn_dsimulator.Base.Sort.{sort}
use godot_dn_dsimulator.Base.Keyed.{find_key, put_key}
use godot_dn_dsimulator.Ids.{require_id}
use godot_dn_dsimulator.Rng.{from_seed, default_stream}
use godot_dn_dsimulator.Simulation.Model.{
  integer, string, CommandEnvelope, EventEnvelope, event_envelope, GameState, game_state, counter,
}
use godot_dn_dsimulator.Simulation.Reducer.{apply_event, apply_by_type}
use godot_dn_dsimulator.Simulation.Engine.{
  SimulationEngine, handle, event_id, validate_envelope, resolve,
}
use godot_dn_dsimulator.Simulation.Counters.{
  Advances, apply_event-Advances, counter-apply_event_rolled,
}
use godot_dn_dsimulator.Rng.Words as Words
use godot_dn_dsimulator.Simulation.Counters as Counters
use godot_dn_dsimulator.Simulation.Atomic.{handle-err}
use godot_dn_dsimulator.Simulation.EventIds.{require_id-event_id}
use godot_dn_dsimulator.Simulation.Recovery.{
  Replays, handle-Replays, opened, accepted, Session-Replays,
}

abbrev start : SimulationEngine
start = record {
  state = record {
    campaign_id = text "campaign:demo";
    session_id = text "session:one";
    sequence = 0;
    tick = 0;
    counters = [];
  };
  rng = from_seed (pos 42) default_stream;
}

abbrev advance_tick : CommandEnvelope
advance_tick = record {
  command_id = text "command:a";
  campaign_id = text "campaign:demo";
  session_id = text "session:one";
  command_type = text "simulation.advance_tick";
  payload = (text "amount", integer (pos 3)) ∷ [];
  version = 1;
  actor_id = none;
  expected_sequence = some 0;
}

abbrev ticked : EventEnvelope
ticked = record {
  event_id = text "event:0000000000000001";
  campaign_id = text "campaign:demo";
  session_id = text "session:one";
  sequence = 1;
  event_type = text "simulation.tick_advanced";
  correlation_id = text "command:a";
  causation_id = text "command:a";
  payload = (text "amount", integer (pos 3)) ∷ [];
  version = 1;
  tick = 3;
  rng_after = none;
}

abbrev later : SimulationEngine
later = record start { state = record start.state { sequence = 1; tick = 3 } }

handled : handle start advance_tick ≡ (ok (ticked ∷ []), later)
unfolding handle validate_envelope text_eq commit resolve resolve_advance_tick amount_of find_key
    event_of event_envelope require_id show is_blank assign apply_event apply_by_type game_state
    unique_keys sort
handled = refl

-- a second command that still expects the first sequence number is refused, and nothing changes
stale : handle later advance_tick ≡ (err sequence_error, later)
unfolding handle validate_envelope text_eq
stale = refl

abbrev later_valid : Counters.IsValid later.state
unfolding require_id unique_keys
later_valid = record { campaign = refl; session = refl; named = refl; unique = refl; sorted = tt }

command_named : require_id advance_tick.command_id (text "command") ≡ ok advance_tick.command_id
unfolding require_id
command_named = refl

handle-err_example : later ≡ later
handle-err_example =
    handle-err later later advance_tick sequence_error later_valid
      (Words.from_seed-IsValid (pos 42) default_stream) command_named (omega arith) stale

handle-Replays_example : Replays start (ticked ∷ []) later
handle-Replays_example = handle-Replays start later advance_tick (ticked ∷ []) handled

Session-Replays_example : Replays start (ticked ∷ []) later
Session-Replays_example =
    Session-Replays (accepted opened advance_tick (ticked ∷ []) (ticked ∷ []) later handled refl)

reduced : apply_event start.state ticked ≡ ok later.state
unfolding apply_event text_eq apply_by_type game_state require_id unique_keys sort
reduced = refl

apply_event-Advances_example : Advances start.state ticked later.state
apply_event-Advances_example = apply_event-Advances start.state later.state ticked reduced

abbrev rolled : EventEnvelope
rolled = record ticked {
  event_type = text "dice.rolled";
  payload = (text "counter", string (text "hits")) ∷ (text "total", integer (pos 17)) ∷ [];
}

abbrev counted : GameState
counted = record later.state { counters = (text "hits", pos 17) ∷ [] }

rolled_reduced : apply_event start.state rolled ≡ ok counted
unfolding apply_event text_eq apply_by_type find_key with_counter game_state require_id put_key
    unique_keys sort
rolled_reduced = refl

counter-apply_event_rolled_example : counter (text "misses") (pos 0) counted ≡ (
    if text_eq (text "hits") (text "misses")
    then pos 17
    else counter (text "misses") (pos 0) start.state)
unfolding find_key text_eq
counter-apply_event_rolled_example =
    counter-apply_event_rolled start.state counted rolled (text "hits") (text "misses") (pos 17)
      (pos 0) refl refl refl rolled_reduced

require_id-event_id_example : require_id (event_id 41) (text "event") ≡ ok (event_id 41)
require_id-event_id_example = require_id-event_id 41 (omega arith)
