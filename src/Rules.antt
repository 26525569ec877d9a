-- ===== src/Rules.antt =====
-- The rules packages: rules/*.py.
pub mod Primitives
pub mod State
pub mod Resources
pub mod Modifiers
pub mod Runtime
pub mod Targets
pub mod Requirements
pub mod Effects
pub mod Hooks
pub mod Facade
pub mod Spending
pub mod Durations
pub mod Rolling
mod Tests
