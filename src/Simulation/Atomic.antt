-- ===== src/Simulation/Atomic.antt =====
-- engine.py: the engine that a refused command leaves.
use godot_dn_dsimulator.Base.{
  ◌+◌, ◌^◌, ◌<◌, ◌≡◌, refl, ap, ◌∙◌, sym, List, arith, Result, ok, err, Error,
  unsupported_command_error, if◌then◌else◌, inl, inr, Bool-cases,
}
use godot_dn_dsimulator.Base.Text.{text, text_eq}
use godot_dn_dsimulator.Ids.{require_id}
use godot_dn_dsimulator.Rng.Words as Words
use godot_dn_dsimulator.Dice.Roll.{roll_expression_returns}
use godot_dn_dsimulator.Simulation.Model.{CommandEnvelope, EventEnvelope, GameState}
use godot_dn_dsimulator.Simulation.Reducer.{apply_event}
use godot_dn_dsimulator.Simulation.Engine.{
  SimulationEngine, validate_envelope, RollRequest, roll_request, finish_roll, make_roll,
  resolve_roll_dice, resolve_advance_tick, assign, commit, resolve, proceed, handle,
}
use godot_dn_dsimulator.Simulation.Counters.{IsValid}
use godot_dn_dsimulator.Simulation.Requests.{roll_request-IsRequest}
use godot_dn_dsimulator.Simulation.Rolled.{roll_succeeds}

make_roll-err :
    (engine engine' : SimulationEngine) (command : CommandEnvelope) (requested : Result RollRequest)
    (e : Error)
    → IsValid engine.state
    → Words.IsValid engine.rng
    → require_id command.command_id (text "command") ≡ ok command.command_id
    → engine.state.sequence + 1 < 10 ^ 128
    → roll_request command ≡ requested
    → commit (make_roll engine command requested) ≡ (err e, engine')
    → engine' ≡ engine
unfolding make_roll
make_roll-err engine engine' command (err e₀) e v valid id bound r h =
    ap (λ p. p.1) (sym h) ∙ unfold commit in refl
make_roll-err engine engine' command (ok request) e v valid id bound r h =
    let (sound, given, named) = roll_request-IsRequest command request r in
    let (roll, rng, rolled, _, left) =
      roll_expression_returns request.expression engine.rng request.reason command.actor_id
        request.target_id sound valid given in
    let (events, succeeds) =
      roll_succeeds engine command request.counter roll rng v left id bound named in
    absurd (
      ok-err (
        sym succeeds
        ∙ ap (λ made. (commit (finish_roll engine command request.counter made)).0) (sym rolled)
        ∙ ap (λ p. p.0) h))
  where
    ok-err : {a : List EventEnvelope} {e : Error} → ok a ≡ err e → ⊥
    ok-err k = cc

commit-err :
    (engine engine' : SimulationEngine) (resolved : Result EventEnvelope) (e : Error)
    → commit (resolved, engine) ≡ (err e, engine')
    → engine' ≡ engine
unfolding commit assign
commit-err engine engine' (err e₀) e h = ap (λ p. p.1) (sym h)
commit-err engine engine' (ok event) e h = assign-err (apply_event engine.state event) h
  where
    assign-err :
        (reduced : Result GameState)
        → assign event engine reduced ≡ (err e, engine')
        → engine' ≡ engine
    assign-err (err e₀) k = ap (λ p. p.1) (sym k)
    assign-err (ok s) k = absurd (cc)

-- A command that is refused leaves the engine as it was, its generator included, if the engine's state
-- and generator are valid, the command's identifier is one, and the next sequence number has at most
-- 128 digits.
pub handle-err :
    (engine engine' : SimulationEngine) (command : CommandEnvelope) (e : Error)
    → IsValid engine.state
    → Words.IsValid engine.rng
    → require_id command.command_id (text "command") ≡ ok command.command_id
    → engine.state.sequence + 1 < 10 ^ 128
    → handle engine command ≡ (err e, engine')
    → engine' ≡ engine
unfolding handle proceed resolve resolve_roll_dice
handle-err engine engine' command e v valid id bound h =
    checked_by (validate_envelope engine.state command) h
  where
    checked_by :
        (checked : Result (Unit {0}))
        → proceed engine command checked ≡ (err e, engine')
        → engine' ≡ engine
    checked_by (err e₀) k = ap (λ p. p.1) (sym k)
    checked_by (ok u) k =
        elim (Bool-cases (text_eq command.command_type (text "simulation.roll_dice"))) [
          | inl rolls ↦
              make_roll-err engine engine' command (roll_request command) e v valid id bound refl (
                ap
                  (λ test. commit (
                    if test
                    then make_roll engine command (roll_request command)
                    else if text_eq command.command_type (text "simulation.advance_tick")
                    then (resolve_advance_tick engine.state command, engine)
                    else (err unsupported_command_error, engine)))
                  (sym rolls)
                ∙ k)
          | inr other ↦
              elim (Bool-cases (text_eq command.command_type (text "simulation.advance_tick"))) [
                | inl advances ↦
                    commit-err engine engine' (resolve_advance_tick engine.state command) e
                      (ground (arith, k))
                | inr unknown ↦
                    commit-err engine engine' (err unsupported_command_error) e (ground (arith, k))
              ]
        ]
