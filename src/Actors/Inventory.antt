-- ===== src/Actors/Inventory.antt =====
-- actors/inventory.py: inventory entries and equipment assignments.
use godot_dn_dsimulator.Base.{ℕ, not, List, leb, all, Result, ok, validation_error, guard, ◌>>◌}
use godot_dn_dsimulator.Base.Text.{Text, is_blank}
use godot_dn_dsimulator.Base.Keyed.{has_key, unique_keys}

pub record InventoryEntry : Type 0 where
  pub entry_id : Text
  pub item_id : Text
  pub quantity : ℕ
  pub tags : List Text

abbrev pub entry_key : InventoryEntry → Text
entry_key e = e.entry_id

unfoldable pub inventory_entry : InventoryEntry → Result InventoryEntry
inventory_entry e = do
  guard (not (is_blank e.entry_id)) validation_error
  guard (not (is_blank e.item_id)) validation_error
  guard (leb 1 e.quantity) validation_error
  guard (all (λ tag. not (is_blank tag)) e.tags) validation_error
  ok e

pub record EquipmentAssignment : Type 0 where
  pub slot_id : Text
  pub entry_id : Text

abbrev pub slot_key : EquipmentAssignment → Text
slot_key a = a.slot_id

unfoldable pub equipment_assignment : EquipmentAssignment → Result EquipmentAssignment
equipment_assignment a = do
  guard (not (is_blank a.slot_id)) validation_error
  guard (not (is_blank a.entry_id)) validation_error
  ok a

unfoldable pub validate_inventory_equipment :
    List InventoryEntry → List EquipmentAssignment → Result (Unit {0})
validate_inventory_equipment inventory equipment = do
  guard (unique_keys entry_key inventory) validation_error
  guard (unique_keys slot_key equipment) validation_error
  guard (all (λ a. has_key entry_key a.entry_id inventory) equipment) validation_error
