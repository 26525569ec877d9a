-- ===== src/Simulation/Reducer.antt =====
-- reducer.py and replay.py: one event applied to the state, and an event log replayed.
use godot_dn_dsimulator.Base.{
  ◌+◌, not, ◌&&◌, none, some, List, ltb, ◌==◌, if◌then◌else◌, Result, ok, err, validation_error,
  sequence_error, guard, fold_result, ◌>>=◌, ◌>>◌,
}
use godot_dn_dsimulator.Base.Text.{text, text_eq, is_empty}
use godot_dn_dsimulator.Simulation.Model.{
  Value, integer, string, get, EventEnvelope, GameState, game_state, with_counter,
  SimulationSnapshot,
}

-- `dice.rolled`: the counter is set to the total
unfoldable pub apply_dice_rolled : GameState → EventEnvelope → Value → Value → Result GameState
unfolding is_empty
apply_dice_rolled s event (string name) (integer total) = do
  guard (not (is_empty name)) validation_error
  with_counter s name total event.sequence event.tick
apply_dice_rolled s event _ _ = err validation_error

-- the tests on `event.event_type`
unfoldable pub apply_by_type : GameState → EventEnvelope → Result GameState
unfolding apply_dice_rolled
apply_by_type s event =
    if text_eq event.event_type (text "dice.rolled")
    then apply_dice_rolled s event (get (text "counter") event.payload)
        (get (text "total") event.payload)
    else if text_eq event.event_type (text "simulation.tick_advanced")
    then game_state (record s { sequence = event.sequence; tick = event.tick })
    else err validation_error

unfoldable pub apply_event : GameState → EventEnvelope → Result GameState
apply_event s event = do
  guard (text_eq event.campaign_id s.campaign_id && text_eq event.session_id s.session_id)
      validation_error
  guard (event.sequence == s.sequence + 1) sequence_error
  guard (not (ltb event.tick s.tick)) sequence_error
  apply_by_type s event

-- `replay_events`
unfoldable pub replay_events : GameState → List EventEnvelope → Result GameState
replay_events = fold_result apply_event

-- one round of `replay_snapshot`
abbrev pub replay_one : SimulationSnapshot → EventEnvelope → Result SimulationSnapshot
replay_one snapshot event = do
  state ← apply_event snapshot.state event
  ok (record { state = state; rng = elim event.rng_after [ none ↦ snapshot.rng | some rng ↦ rng ] })

unfoldable pub replay_snapshot : SimulationSnapshot → List EventEnvelope → Result SimulationSnapshot
replay_snapshot = fold_result replay_one
