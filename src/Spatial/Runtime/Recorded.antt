-- ===== src/Spatial/Runtime/Recorded.antt =====
-- What the event of a move says, read back.
use godot_dn_dsimulator.Base.{
  ℕ, ◌+◌, ◌≡◌, refl, ap, true, false, List, [], ◌∷◌, map, arith, ok, leb, err, validation_error,
}
use godot_dn_dsimulator.Base.Text.{Text, text_eq, text_leb, is_blank}
use godot_dn_dsimulator.Base.Sort.{sort, insert}
use godot_dn_dsimulator.Base.Keyed.{find_key, unique_keys, has_key}
use godot_dn_dsimulator.Actors.Kinds.{MovementMode, walk, climb, swim, fly, burrow, mode_value}
use godot_dn_dsimulator.Spatial.Model.{GridCell}
use godot_dn_dsimulator.Spatial.State.{SpatialState}
use godot_dn_dsimulator.Spatial.Policy.{ThreatTransition}
use godot_dn_dsimulator.Spatial.Events.{
  pair_cell, cell_pair, last_cell, value_of, as_cell, as_path, as_integer, as_string, mode_of,
  read_move, spatial_event,
}
use godot_dn_dsimulator.Spatial.Runtime.{move_event, unchecked_event}

map-pair_cell : (cs : List GridCell) → map pair_cell (map cell_pair cs) ≡ cs
map-pair_cell [] = refl
map-pair_cell (c ∷ cs) = ap (λ ds. c ∷ ds) (map-pair_cell cs)

mode_of-mode_value : (mode : MovementMode) → mode_of (mode_value mode) ≡ ok mode
unfolding mode_of mode_value text_eq
mode_of-mode_value walk = refl
mode_of-mode_value climb = refl
mode_of-mode_value swim = refl
mode_of-mode_value fly = refl
mode_of-mode_value burrow = refl

mode_value_blank : (mode : MovementMode) → is_blank (mode_value mode) ≡ false
unfolding mode_value is_blank
mode_value_blank walk = refl
mode_value_blank climb = refl
mode_value_blank swim = refl
mode_value_blank fly = refl
mode_value_blank burrow = refl

pub move_event_lem :
    (s : SpatialState) (id : Text) (mode : MovementMode) (cost : ℕ) (c : GridCell)
    (path : List GridCell) (ts : List ThreatTransition)
    → is_blank id ≡ false
    → move_event s id mode cost c path ts ≡ ok (unchecked_event s id mode cost c path ts)
unfolding move_event spatial_event is_blank unique_keys has_key text_eq sort insert text_leb
move_event_lem s id mode cost c path ts named =
    let positive : leb 1 (s.sequence + 1) ≡ true = ground arith in rw (positive, named) refl

-- the constructor of an event refuses an entity without a name
pub move_event_blank :
    (s : SpatialState) (id : Text) (mode : MovementMode) (cost : ℕ) (c : GridCell)
    (path : List GridCell) (ts : List ThreatTransition)
    → is_blank id ≡ true
    → move_event s id mode cost c path ts ≡ err validation_error
unfolding move_event spatial_event is_blank
move_event_blank s id mode cost c path ts blank =
    let positive : leb 1 (s.sequence + 1) ≡ true = ground arith in rw (positive, blank) refl

pub read_move_lem :
    (s : SpatialState) (id : Text) (mode : MovementMode) (cost : ℕ) (c : GridCell)
    (path : List GridCell) (ts : List ThreatTransition)
    → read_move (unchecked_event s id mode cost c path ts)
      ≡ ok (record {
        from_anchor = c;
        to_anchor = last_cell c path;
        path = c ∷ path;
        mode = mode;
        cost_feet = cost;
      })
unfolding read_move value_of find_key text_eq as_cell as_path as_integer as_string
read_move_lem s id mode cost c path ts =
    rw (map-pair_cell path, mode_value_blank mode, mode_of-mode_value mode) refl
