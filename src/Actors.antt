-- ===== src/Actors.antt =====
-- The actors package: actors/inventory.py and actors/model.py.
pub mod Kinds
pub mod Inventory
pub mod Model
