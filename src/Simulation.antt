-- ===== src/Simulation.antt =====
-- The authoritative simulation core: models.py, reducer.py, replay.py and engine.py.
pub mod Model
pub mod Reducer
pub mod Engine
pub mod EventIds
pub mod Recovery
pub mod Counters
pub mod Requests
pub mod Rolled
pub mod Atomic
mod Tests
