-- ===== src/Spatial/Policy.antt =====
-- spatial/model.py: the policy of movement, and what the queries return.
use godot_dn_dsimulator.Base.{
  ℕ, Bool, true, false, not, List, leb, Result, ok, validation_error, guard, ◌>>◌,
}
use godot_dn_dsimulator.Base.Text.{Text, is_blank}
use godot_dn_dsimulator.Spatial.Model.{GridCell}

pub record MovementPolicy : Type 0 where
  pub allow_diagonal : Bool
  pub prevent_corner_cutting : Bool
  pub difficult_multiplier : ℕ
  pub max_walk_step_feet : ℕ
  pub flying_ignores_difficult : Bool

unfoldable pub movement_policy : MovementPolicy → Result MovementPolicy
movement_policy p = do guard (leb 1 p.difficult_multiplier) validation_error; ok p

-- `MovementPolicy()`
abbrev pub default_policy : MovementPolicy
default_policy = record {
  allow_diagonal = true;
  prevent_corner_cutting = true;
  difficult_multiplier = 2;
  max_walk_step_feet = 5;
  flying_ignores_difficult = true;
}

-- What a search or a check of a path returns. The texts of the reasons are not modelled: an illegal
-- result always has one.
pub record PathResult : Type 0 where
  pub legal : Bool
  pub path : List GridCell
  pub cost_feet : ℕ

pub record ReachableCell : Type 0 where
  pub cell : GridCell
  pub cost_feet : ℕ

pub record ThreatTransition : Type 0 where
  pub source_entity_id : Text
  pub from_cell : GridCell
  pub to_cell : GridCell
  pub entered : Bool
  pub exited : Bool

abbrev pub differ : Bool → Bool → Bool
differ true b = not b
differ false b = b

unfoldable pub threat_transition : ThreatTransition → Result ThreatTransition
threat_transition t = do
  guard (not (is_blank t.source_entity_id)) validation_error
  guard (differ t.entered t.exited) validation_error
  ok t
