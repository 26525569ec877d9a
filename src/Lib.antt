-- ===== src/Lib.antt =====
-- A model of the GodotDnDSimulator rules engine (engine/src/godot_dnd_engine), with the theorems
-- that make it correct.
--
-- The engine is deterministic and event-sourced. A command is checked against the state, dice are
-- rolled with a seeded generator, the outcome is written as an event that records the generator it
-- leaves, and a pure reducer folds events into the state. Snapshots and event logs are what is
-- stored, so that a log can be replayed.
--
-- Parts, with paths below engine/src/godot_dnd_engine:
--     Base: shared helpers. Base/Errors models errors.py: a call that may raise is a `Result`.
--     Base/Int has Python's integers, Base/Text texts as lists of code points, Base/Decimal `int`
--     and `str` of decimal numbers, Base/Sort `sorted` and Base/Keyed the searches and replacements
--     in tuples of records by an identifier.
--     Rng: rng.py. Rng/Words has the machine words, Rng/Draw the bounds of a draw, Rng/Period the
--     orbits of its step and Rng/Termination the rejection loop.
--     Dice: dice.py. Dice/Notation has the notation, Dice/Roll the rolls.
--     Ids: ids.py.
--     Rules: rules/*.py. Rules/Primitives, Rules/State, Rules/Resources and Rules/Modifiers model
--     the files of those names, Rules/Runtime models capabilities.py and the d20 tests of
--     runtime.py. Rules/Targets, Rules/Requirements, Rules/Effects and Rules/Hooks model the files
--     of those names, Rules/Facade the other methods of runtime.py. Rules/Spending, Rules/Durations
--     and Rules/Rolling are about spending, the time that passes and the dice of a test.
--     Actors: actors/model.py (Actors/Kinds, Actors/Model) and actors/inventory.py
--     (Actors/Inventory).
--     Combat: combat/*.py. Combat/Model and Combat/Encounter are model.py, Combat/Damage is
--     damage.py, Combat/Reducer is reducer.py, Combat/Attacks is attacks.py. The commands of
--     runtime.py are in Combat/Wounds (damage, healing, death saves), Combat/Turns (turns, actions,
--     reactions, conditions), Combat/Start (initiative) and Combat/Attacks (perform_attack).
--     Combat/Vitality and Combat/DeathSaves are about what happens to one combatant,
--     Combat/TurnOrder about whose turn comes next, Combat/Construct and Combat/Soundness about the
--     invariant, Combat/Lookup, Combat/Outcome, Combat/Vitals and Combat/Economy about what a
--     command leaves in the state, and Combat/Emission, Combat/TurnEvents, Combat/AttackEvents and
--     Combat/Recovery about replay.
--     Spatial: spatial/*.py. Spatial/Model, Spatial/State and Spatial/Policy are model.py: cells and
--     terrain, placements and occupancy, and the policy and results of movement. Spatial/Geometry is
--     geometry.py, Spatial/Threats is threats.py, Spatial/Events is events.py, reducer.py and
--     replay.py, and Spatial/Runtime is runtime.py, navigation.py and integration.py, where a move
--     spends the movement of a combatant. movement.py is in three parts: Spatial/Steps has the
--     legality and the cost of a step, Spatial/Search the loop that `find_path` and
--     `reachable_cells` share, as a function of what is searched, and Spatial/Movement the checks
--     and the searches on the map. The modules below Spatial/Search are about any search, those
--     below Spatial/Steps about steps, and Spatial/Movement/Sound joins them.
--     Spatial/Movement/Cheapest, Ends and Reach are about the results of the two searches.
--     Spatial/Movement/Checked joins them to the constructors. Spatial/State/Occupancy, Room,
--     Others, Vacancy and Moved are about the occupancy that the constructor of a state counts, and
--     about a placement that moves. Spatial/Runtime/Recorded and Moves are about the event of a
--     move, Spatial/Runtime/Arrival, Completes and Replay about the commands.
--     Simulation: Simulation/Model is models.py, Simulation/Reducer is reducer.py and replay.py,
--     Simulation/Engine is engine.py. Simulation/Counters and Simulation/Recovery hold the
--     properties of the reducer and of replay, Simulation/EventIds those of the identifiers of
--     events, Simulation/Requests, Simulation/Rolled and Simulation/Atomic those of a roll and of a
--     refused command, with Base/Text/Strip about stripped texts.
--
-- Conventions: a dataclass is a record, and its `__post_init__` a function of the same name in lower
-- case that returns the normalised record or raises. Where a method changes its object, it returns
-- the new one, on its error paths too. Tests of the type of an argument are the model's types, so a
-- branch that only rejects an argument of another type has no counterpart; a payload's values are a
-- type of their own, and their type tests are modelled. Error messages are not modelled. Blank
-- texts, `strip` and digits follow the Unicode tables of Python's str methods as far as Base/Text
-- and Base/Decimal list them.
--
-- Fuel: the rejection loop of `randbelow` has 2 ^ 64 rounds of fuel. That is one round for each of
-- the 2 ^ 64 states of the generator, whose step visits all of them. The searches of Spatial/Search
-- take their fuel as an argument, one for each entry that is popped, and fail when it runs out; the
-- walk back from the destination has the cost of the path and one as fuel, as every step of it costs
-- something. `line_cells` has the number of its columns and rows as fuel, since a round passes at
-- least one of them.
--
-- In rules/runtime.py and combat/runtime.py a method that rolls returns its result beside the
-- generator. Between two rolls of one method only a blank reason or a malformed die could raise,
-- which the constructors exclude, so the generator of such a failure is the one before the method.
--
-- The heap of `heapq` is a sorted list of waiting entries: entries that compare equal are equal.
-- Distances on the grid are whole numbers that the code holds as floats; they are natural numbers
-- here, the same below 2 ^ 53.
--
-- Not modelled: JSON encoding, the creation of actors, floating point (cell centres, the Euclidean
-- metric, visibility and areas), the queries and serialization of spaces, the processes that speak
-- to the client, the Godot client, the importer, and the spells, world and character-creator
-- packages.
pub mod Base
pub mod Rng
pub mod Dice
pub mod Ids
pub mod Simulation
pub mod Spatial
pub mod Rules
pub mod Actors
pub mod Combat
