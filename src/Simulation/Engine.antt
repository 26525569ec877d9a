-- ===== src/Simulation/Engine.antt =====
-- engine.py: `SimulationEngine`. A method that may raise returns its result and the engine that is
-- left, since the generator moves before the events are reduced.
use godot_dn_dsimulator.Base.{
  ℕ, suc, ◌+◌, ◌-◌, Bool, false, not, Option, none, some, List, [], ◌∷◌, ◌++◌, leb, ◌==◌,
  if◌then◌else◌, length, Result, ok, err, validation_error, sequence_error,
  unsupported_command_error, guard, ◌>>=◌, ◌>>◌,
}
use godot_dn_dsimulator.Base.Int.{ℤ, pos}
use godot_dn_dsimulator.Base.Text.{Text, text, text_eq, is_blank, strip}
use godot_dn_dsimulator.Base.Decimal.{show}
use godot_dn_dsimulator.Ids.{require_id}
use godot_dn_dsimulator.Rng.{DeterministicRng, from_seed, default_stream, restore}
use godot_dn_dsimulator.Dice.{DiceExpression, DiceRoll, parse, roll_expression, algorithm}
use godot_dn_dsimulator.Simulation.Model.{
  Value, null, integer, string, numbers, Payload, get, get_or, RngCheckpoint, rng_checkpoint,
  CommandEnvelope, EventEnvelope, event_envelope, GameState, game_state, SimulationSnapshot,
}
use godot_dn_dsimulator.Simulation.Reducer.{apply_event}

pub record SimulationEngine : Type 0 where
  pub state : GameState
  pub rng : DeterministicRng

-- `SimulationEngine.create`
unfoldable create : Text → Text → ℤ → Result SimulationEngine
create campaign_id session_id seed = do
  _ ← require_id campaign_id (text "campaign")
  _ ← require_id session_id (text "session")
  state ← game_state (record {
    campaign_id = campaign_id;
    session_id = session_id;
    sequence = 0;
    tick = 0;
    counters = [];
  })
  ok (record { state = state; rng = from_seed seed default_stream })

-- `_rng_checkpoint`
unfoldable pub checkpoint : DeterministicRng → Result RngCheckpoint
checkpoint rng =
    rng_checkpoint (record { algorithm = algorithm; state = rng.state; increment = rng.increment })

-- `SimulationEngine.snapshot`
unfoldable pub take_snapshot : SimulationEngine → Result SimulationSnapshot
unfolding checkpoint
take_snapshot engine = do
  rng ← checkpoint engine.rng
  ok (record { state = engine.state; rng = rng })

-- `SimulationEngine.restore`
unfoldable restore_engine : SimulationSnapshot → Result SimulationEngine
restore_engine s = do
  guard (text_eq s.rng.algorithm algorithm) validation_error
  rng ← restore (pos s.rng.state, pos s.rng.increment)
  ok (record { state = s.state; rng = rng })

-- `expected_sequence is not None and expected_sequence != sequence`
is_stale : Option ℕ → ℕ → Bool
is_stale none sequence = false
is_stale (some expected) sequence = not (expected == sequence)

-- `_validate_envelope`
unfoldable pub validate_envelope : GameState → CommandEnvelope → Result (Unit {0})
unfolding is_stale
validate_envelope s command = do
  guard (text_eq command.campaign_id s.campaign_id) validation_error
  guard (text_eq command.session_id s.session_id) validation_error
  guard (not (is_stale command.expected_sequence s.sequence)) sequence_error

unfoldable pub zeros : ℕ → Text → Text
zeros ℕ.zero out = out
zeros (suc n) out = b'0' ∷ zeros n out

-- `f"event:{sequence:016d}"`
unfoldable pub event_id : ℕ → Text
unfolding zeros
event_id sequence = text "event:" ++ zeros (16 - length (show sequence)) (show sequence)

-- `_event`
unfoldable pub event_of :
    GameState → CommandEnvelope → Text → Payload → ℕ → Option RngCheckpoint → Result EventEnvelope
unfolding event_id
event_of s command event_type payload tick rng_after = event_envelope (record {
  event_id = event_id (s.sequence + 1);
  campaign_id = s.campaign_id;
  session_id = s.session_id;
  sequence = s.sequence + 1;
  event_type = event_type;
  correlation_id = command.command_id;
  causation_id = command.command_id;
  payload = payload;
  version = 1;
  tick = tick;
  rng_after = rng_after;
})

-- a value that must be a text which is not blank
unfoldable pub text_of : Value → Result Text
text_of (string s) = do guard (not (is_blank s)) validation_error; ok s
text_of _ = err validation_error

-- the optional target
unfoldable pub target_of : Value → Result (Option Text)
target_of null = ok none
target_of (string s) = do _ ← require_id s (text "actor"); ok (some s)
target_of _ = err validation_error

-- the expression must be a text, which may be blank
unfoldable pub string_of : Value → Result Text
string_of (string s) = ok s
string_of _ = err validation_error

-- what `_resolve_roll_dice` reads from the command before it rolls
pub record RollRequest : Type 0 where
  pub expression : DiceExpression
  pub counter : Text
  pub reason : Text
  pub target_id : Option Text

unfoldable pub roll_request : CommandEnvelope → Result RollRequest
unfolding text_of target_of string_of
roll_request command = do
  written ← string_of (get (text "expression") command.payload)
  counter ← text_of (get_or (text "counter") (string (text "last_roll")) command.payload)
  reason ← text_of (get_or (text "reason") (string (text "simulation roll")) command.payload)
  target_id ← target_of (get (text "target_id") command.payload)
  expression ← parse written
  ok (record { expression = expression; counter = counter; reason = reason; target_id = target_id })

abbrev text_or_null : Option Text → Value
text_or_null none = null
text_or_null (some s) = string s

-- `roll.to_dict()` with the counter's name
unfoldable pub roll_payload : DiceRoll → Text → Payload
roll_payload roll counter =
    (text "expression", string roll.expression)
    ∷ (text "raw_rolls", numbers roll.raw_rolls)
    ∷ (text "modifier", integer roll.modifier)
    ∷ (text "total", integer roll.total)
    ∷ (text "reason", string roll.reason)
    ∷ (text "actor_id", text_or_null roll.actor_id)
    ∷ (text "target_id", text_or_null roll.target_id)
    ∷ (text "rng_algorithm", string roll.rng_algorithm)
    ∷ (text "counter", string (strip counter))
    ∷ []

-- the event of a roll that has been made
unfoldable pub rolled_event :
    GameState → CommandEnvelope → Text → DiceRoll → DeterministicRng → Result EventEnvelope
unfolding roll_payload
rolled_event s command counter roll rng = do
  after ← checkpoint rng
  event_of s command (text "dice.rolled") (roll_payload roll counter) s.tick (some after)

-- the end of `_resolve_roll_dice`: the generator has moved, whatever becomes of the event
unfoldable pub finish_roll :
    SimulationEngine
    → CommandEnvelope
    → Text
    → Result (DiceRoll × DeterministicRng)
    → Result EventEnvelope × SimulationEngine
finish_roll engine command counter (err e) = (err e, engine)
finish_roll engine command counter (ok (roll, rng)) =
    (rolled_event engine.state command counter roll rng, record engine { rng = rng })

-- `_resolve_roll_dice` behind its checks of the payload
unfoldable pub make_roll :
    SimulationEngine
    → CommandEnvelope
    → Result RollRequest
    → Result EventEnvelope × SimulationEngine
make_roll engine command (err e) = (err e, engine)
make_roll engine command (ok request) = finish_roll engine command request.counter (
    roll_expression request.expression engine.rng request.reason command.actor_id request.target_id)

-- `_resolve_roll_dice`
unfoldable pub resolve_roll_dice :
    SimulationEngine → CommandEnvelope → Result EventEnvelope × SimulationEngine
resolve_roll_dice engine command = make_roll engine command (roll_request command)

-- `amount` of `_resolve_advance_tick`
unfoldable pub amount_of : Value → Result ℕ
amount_of (integer (pos n)) = do guard (leb 1 n) validation_error; ok n
amount_of _ = err validation_error

-- `_resolve_advance_tick`
unfoldable pub resolve_advance_tick : GameState → CommandEnvelope → Result EventEnvelope
resolve_advance_tick s command = do
  amount ← amount_of (get_or (text "amount") (integer (pos 1)) command.payload)
  event_of s command (text "simulation.tick_advanced") ((text "amount", integer (pos amount)) ∷ [])
      (s.tick + amount) none

-- the end of `handle`: the state is replaced once the event has been reduced
unfoldable pub assign :
    EventEnvelope
    → SimulationEngine
    → Result GameState
    → Result (List EventEnvelope) × SimulationEngine
assign event engine (err e) = (err e, engine)
assign event engine (ok state) = (ok (event ∷ []), record engine { state = state })

unfoldable pub commit :
    Result EventEnvelope × SimulationEngine → Result (List EventEnvelope) × SimulationEngine
commit (err e, engine) = (err e, engine)
commit (ok event, engine) = assign event engine (apply_event engine.state event)

-- the tests on `command.command_type`
unfoldable pub resolve :
    SimulationEngine → CommandEnvelope → Result EventEnvelope × SimulationEngine
resolve engine command =
    if text_eq command.command_type (text "simulation.roll_dice")
    then resolve_roll_dice engine command
    else if text_eq command.command_type (text "simulation.advance_tick")
    then (resolve_advance_tick engine.state command, engine)
    else (err unsupported_command_error, engine)

-- `handle` behind `_validate_envelope`
unfoldable pub proceed :
    SimulationEngine
    → CommandEnvelope
    → Result (Unit {0})
    → Result (List EventEnvelope) × SimulationEngine
proceed engine command (err e) = (err e, engine)
proceed engine command (ok _) = commit (resolve engine command)

-- `SimulationEngine.handle`
unfoldable pub handle :
    SimulationEngine → CommandEnvelope → Result (List EventEnvelope) × SimulationEngine
unfolding proceed
handle engine command = proceed engine command (validate_envelope engine.state command)
