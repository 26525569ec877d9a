-- ===== src/Combat.antt =====
-- The combat package: combat/*.py.
pub mod Model
pub mod Encounter
pub mod Damage
pub mod Reducer
pub mod Wounds
pub mod Turns
pub mod Start
pub mod Attacks
pub mod Vitality
pub mod DeathSaves
pub mod TurnOrder
pub mod Construct
pub mod Soundness
pub mod Lookup
pub mod Outcome
pub mod Vitals
pub mod Economy
pub mod Emission
pub mod TurnEvents
pub mod AttackEvents
pub mod Recovery
pub mod Skirmish
mod Tests
