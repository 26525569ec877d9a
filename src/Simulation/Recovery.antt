-- ===== src/Simulation/Recovery.antt =====
-- engine.py and replay.py: the log of a session, replayed.
use mathlib.Core.Path.{subst}
use godot_dn_dsimulator.Base.{
  ℕ, ◌≡◌, refl, ap, ◌∙◌, sym, Option, none, some, List, [], ◌∷◌, ◌++◌, arith, Result, ok, err,
  ◌>>=◌, >>=-eq-ok, ok-injective, if-eq, inl, inr,
}
use godot_dn_dsimulator.Base.Text.{Text, text, text_eq}
use godot_dn_dsimulator.Rng.{DeterministicRng}
use godot_dn_dsimulator.Dice.{DiceRoll}
use godot_dn_dsimulator.Simulation.Model.{
  Payload, RngCheckpoint, CommandEnvelope, EventEnvelope, event_envelope, GameState,
  SimulationSnapshot,
}
use godot_dn_dsimulator.Simulation.Reducer.{apply_event, replay_one, replay_snapshot}
use godot_dn_dsimulator.Simulation.Engine.{
  SimulationEngine, checkpoint, take_snapshot, event_of, roll_request, rolled_event, finish_roll,
  make_roll, RollRequest, resolve_roll_dice, resolve_advance_tick, assign, commit, resolve, proceed,
  handle, amount_of,
}

-- The event that a constructor accepts is the one it was given.
event_envelope-eq-ok : (given e : EventEnvelope) → event_envelope given ≡ ok e → given ≡ e
unfolding event_envelope
event_envelope-eq-ok given e h = ground arith

rng_after-event_of :
    (s : GameState) (command : CommandEnvelope) (event_type : Text) (payload : Payload) (tick : ℕ)
    (rng_after : Option RngCheckpoint) (e : EventEnvelope)
    → event_of s command event_type payload tick rng_after ≡ ok e
    → e.rng_after ≡ rng_after
unfolding event_of
rng_after-event_of s command event_type payload tick rng_after e h =
    ap (λ (x : EventEnvelope). x.rng_after) (sym (event_envelope-eq-ok _ e h))

-- The generator that an event leaves: the one that it records, or the one before it.
abbrev LeavesRng : SimulationEngine → EventEnvelope → SimulationEngine → Type 0
LeavesRng engine event engine' =
    (engine'.state ≡ engine.state)
    × (checkpoint engine'.rng
        ≡ elim event.rng_after [ none ↦ checkpoint engine.rng | some after ↦ ok after ])

finish_roll-LeavesRng :
    (engine engine' : SimulationEngine) (command : CommandEnvelope) (counter : Text)
    (made : Result (DiceRoll × DeterministicRng)) (event : EventEnvelope)
    → finish_roll engine command counter made ≡ (ok event, engine')
    → LeavesRng engine event engine'
unfolding finish_roll rolled_event
finish_roll-LeavesRng engine engine' command counter (err e) event h = absurd (cc)
finish_roll-LeavesRng engine engine' command counter (ok (roll, rng)) event h =
    let (after, taken, built) = >>=-eq-ok (checkpoint rng) _ (ap (λ p. p.0) h) in
    let recorded : event.rng_after ≡ some after =
      rng_after-event_of engine.state command _ _ engine.state.tick (some after) event built in
    let left : record engine { rng = rng } ≡ engine' = ap (λ p. p.1) h in
    (
      ap (λ (e : SimulationEngine). e.state) (sym left),
      rw recorded (ap (λ (e : SimulationEngine). checkpoint e.rng) (sym left) ∙ taken),
    )

make_roll-LeavesRng :
    (engine engine' : SimulationEngine) (command : CommandEnvelope) (request : Result RollRequest)
    (event : EventEnvelope)
    → make_roll engine command request ≡ (ok event, engine')
    → LeavesRng engine event engine'
unfolding make_roll
make_roll-LeavesRng engine engine' command (err e) event h = absurd (cc)
make_roll-LeavesRng engine engine' command (ok request) event h =
    finish_roll-LeavesRng engine engine' command request.counter _ event h

advance_tick-LeavesRng :
    (engine : SimulationEngine) (command : CommandEnvelope) (event : EventEnvelope)
    → resolve_advance_tick engine.state command ≡ ok event
    → LeavesRng engine event engine
unfolding resolve_advance_tick
advance_tick-LeavesRng engine command event h =
    let (amount, _, built) = >>=-eq-ok (amount_of _) _ h in
    let recorded : event.rng_after ≡ none =
      rng_after-event_of engine.state command _ _ _ none event built in
    (refl, rw recorded)

resolve-LeavesRng :
    (engine engine' : SimulationEngine) (command : CommandEnvelope) (event : EventEnvelope)
    → resolve engine command ≡ (ok event, engine')
    → LeavesRng engine event engine'
unfolding resolve resolve_roll_dice
resolve-LeavesRng engine engine' command event h =
    elim (if-eq (text_eq command.command_type (text "simulation.roll_dice")) _ _ h) [
      | inl (_, rolled) ↦
          make_roll-LeavesRng engine engine' command (roll_request command) event rolled
      | inr (_, h') ↦
          elim (if-eq (text_eq command.command_type (text "simulation.advance_tick")) _ _ h') [
            | inl (_, advanced) ↦
                subst (LeavesRng engine event) (ap (λ p. p.1) advanced)
                  (advance_tick-LeavesRng engine command event (ap (λ p. p.0) advanced))
            | inr (_, unsupported) ↦ absurd (cc)
          ]
    ]

-- What a command did: the events replay the snapshot before it to the snapshot after it.
pub Replays : SimulationEngine → List EventEnvelope → SimulationEngine → Type 0
Replays engine events engine' =
    (before : SimulationSnapshot)
    → take_snapshot engine ≡ ok before
    → (after : SimulationSnapshot) × (take_snapshot engine' ≡ ok after)
      × (replay_snapshot before events ≡ ok after)

abbrev left_by : RngCheckpoint → Option RngCheckpoint → RngCheckpoint
left_by before none = before
left_by before (some after) = after

left_by-eq :
    (engine middle : SimulationEngine) (event : EventEnvelope) (c : RngCheckpoint)
    → LeavesRng engine event middle
    → checkpoint engine.rng ≡ ok c
    → checkpoint middle.rng ≡ ok (left_by c event.rng_after)
left_by-eq engine middle event c leaves taken = ground (arith, leaves.1)

assign-Replays :
    (engine middle engine' : SimulationEngine) (event : EventEnvelope) (events : List EventEnvelope)
    (reduced : Result GameState)
    → LeavesRng engine event middle
    → apply_event middle.state event ≡ reduced
    → assign event middle reduced ≡ (ok events, engine')
    → Replays engine events engine'
unfolding Replays assign replay_snapshot take_snapshot
assign-Replays engine middle engine' event events (err e) leaves applied h before taken =
    absurd (cc)
assign-Replays engine middle engine' event events (ok state) leaves applied h before taken =
    let (c, checked, built) = >>=-eq-ok (checkpoint engine.rng) _ taken in
    let left = left_by-eq engine middle event c leaves checked in
    (
      record { state = state; rng = left_by c event.rng_after },
      ground (arith, left, h),
      ground (arith, left, h, leaves.0, applied, built),
    )

commit-Replays :
    (engine engine' : SimulationEngine) (command : CommandEnvelope) (events : List EventEnvelope)
    (resolved : Result EventEnvelope × SimulationEngine)
    → resolve engine command ≡ resolved
    → commit resolved ≡ (ok events, engine')
    → Replays engine events engine'
unfolding commit
commit-Replays engine engine' command events (err e, middle) r h = absurd (cc)
commit-Replays engine engine' command events (ok event, middle) r h =
    assign-Replays engine middle engine' event events (apply_event middle.state event)
      (resolve-LeavesRng engine middle command event r) refl h

proceed-Replays :
    (engine engine' : SimulationEngine) (command : CommandEnvelope) (events : List EventEnvelope)
    (valid : Result (Unit {0}))
    → proceed engine command valid ≡ (ok events, engine')
    → Replays engine events engine'
unfolding proceed
proceed-Replays engine engine' command events (err e) h = absurd (cc)
proceed-Replays engine engine' command events (ok u) h =
    commit-Replays engine engine' command events (resolve engine command) refl h

-- Replaying the events of a command from the snapshot before it gives the snapshot after it.
pub handle-Replays :
    (engine engine' : SimulationEngine) (command : CommandEnvelope) (events : List EventEnvelope)
    → handle engine command ≡ (ok events, engine')
    → Replays engine events engine'
unfolding handle
handle-Replays engine engine' command events h = proceed-Replays engine engine' command events _ h

-- A session: commands that were accepted, one after another, with the log of their events.
pub data Session (start : SimulationEngine) : List EventEnvelope → SimulationEngine → Type 0 where
  opened : Session start [] start
  accepted :
      {log : List EventEnvelope} {engine : SimulationEngine}
      → Session start log engine
      → (command : CommandEnvelope) (events log' : List EventEnvelope) (engine' : SimulationEngine)
      → handle engine command ≡ (ok events, engine')
      → log' ≡ log ++ events
      → Session start log' engine'

replay_snapshot-append :
    (xs ys : List EventEnvelope) (s t : SimulationSnapshot)
    → replay_snapshot s xs ≡ ok t
    → replay_snapshot s (xs ++ ys) ≡ replay_snapshot t ys
unfolding replay_snapshot
replay_snapshot-append [] ys s t h = ap (λ u. replay_snapshot u ys) (ok-injective h)
replay_snapshot-append (x ∷ xs) ys s t h =
    let (u, one, rest) = >>=-eq-ok (replay_one s x) _ h in
    ap (λ r. r >>= λ v. replay_snapshot v (xs ++ ys)) one ∙ replay_snapshot-append xs ys u t rest

-- The whole log of a session replays the first snapshot to the last.
pub Session-Replays :
    {start engine : SimulationEngine} {log : List EventEnvelope}
    → Session start log engine
    → Replays start log engine
unfolding Replays
Session-Replays opened before taken = (before, taken, unfold replay_snapshot in refl)
Session-Replays (accepted session command events log' engine' handled joined) before taken =
    let (middle, at_middle, replayed) = Session-Replays session before taken in
    let (after, at_end, last) = handle-Replays _ engine' command events handled middle at_middle in
    (
      after,
      at_end,
      subst (λ l. replay_snapshot before l ≡ ok after) (sym joined)
          (replay_snapshot-append _ events before middle replayed ∙ last),
    )
