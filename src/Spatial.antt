-- ===== src/Spatial.antt =====
-- The spatial package: spatial/*.py.
pub mod Model
pub mod State
pub mod Policy
pub mod Geometry
pub mod Search
pub mod Steps
pub mod Movement
pub mod Events
pub mod Threats
pub mod Runtime
mod Tests
