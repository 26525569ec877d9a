-- ===== src/Spatial/Events.antt =====
-- spatial/events.py, spatial/reducer.py and spatial/replay.py: the event of a move, and the state that
-- it leads to.
use godot_dn_dsimulator.Base.{
  ℕ, ◌+◌, Bool, false, not, ◌&&◌, none, List, [], ◌∷◌, map, all, leb, ◌==◌, if◌then◌else◌,
  fold_result, Result, ok, err, validation_error, guard, or_raise, ◌>>=◌, ◌>>◌,
}
use godot_dn_dsimulator.Base.Int.{ℤ, pos}
use godot_dn_dsimulator.Base.Text.{Text, text, text_eq, is_blank}
use godot_dn_dsimulator.Base.Sort.{sort}
use godot_dn_dsimulator.Base.Keyed.{find_key, unique_keys, key_leb}
use godot_dn_dsimulator.Actors.Kinds.{MovementMode, walk, climb, swim, fly, burrow, mode_value}
use godot_dn_dsimulator.Spatial.Model.{GridCell, same_cell}
use godot_dn_dsimulator.Spatial.State.{SpatialPlacement, SpatialState, placement, with_anchor}
use godot_dn_dsimulator.Spatial.Policy.{MovementPolicy, default_policy}
use godot_dn_dsimulator.Spatial.Movement.{validate_path}

-- `SpatialEventValue`
pub data SpatialEventValue : Type 0 where
  string : Text → SpatialEventValue
  integer : ℤ → SpatialEventValue
  boolean : Bool → SpatialEventValue
  pair : ℤ × ℤ → SpatialEventValue
  pairs : List (ℤ × ℤ) → SpatialEventValue
  strings : List Text → SpatialEventValue
  nothing : SpatialEventValue

pub record SpatialEvent : Type 0 where
  pub sequence : ℕ
  pub event_type : Text
  pub entity_id : Text
  pub payload : List (Text × SpatialEventValue)
  pub schema_version : ℕ

abbrev pub payload_key : Text × SpatialEventValue → Text
payload_key (key, value) = key

unfoldable pub spatial_event : SpatialEvent → Result SpatialEvent
spatial_event e = do
  guard (leb 1 e.sequence) validation_error
  guard (not (is_blank e.event_type)) validation_error
  guard (not (is_blank e.entity_id)) validation_error
  guard (e.schema_version == 1) validation_error
  guard (unique_keys payload_key e.payload) validation_error
  guard (all (λ entry. not (is_blank (payload_key entry))) e.payload) validation_error
  ok (record e { payload = sort (key_leb payload_key) e.payload })

abbrev pub entry_value : Text × SpatialEventValue → SpatialEventValue
entry_value (key, value) = value

-- `SpatialEvent.value`
unfoldable pub value_of : SpatialEvent → Text → Result SpatialEventValue
value_of e key = do
  entry ← or_raise (find_key payload_key key e.payload) validation_error
  ok (entry_value entry)

abbrev pub pair_cell : ℤ × ℤ → GridCell
pair_cell (x, y) = record { x = x; y = y }

abbrev pub cell_pair : GridCell → ℤ × ℤ
cell_pair c = (c.x, c.y)

-- `_cell`
unfoldable pub as_cell : SpatialEventValue → Result GridCell
as_cell (pair p) = ok (pair_cell p)
as_cell _ = err validation_error

-- `_path`; the empty tuple is a path whatever it was meant for, and the items of another tuple that is
-- no path are no pairs
unfoldable pub as_path : SpatialEventValue → Result (List GridCell)
as_path (pairs ps) = ok (map pair_cell ps)
as_path (strings []) = ok []
as_path _ = err validation_error

-- `_integer`
unfoldable pub as_integer : SpatialEventValue → Result ℕ
as_integer (integer (pos n)) = ok n
as_integer _ = err validation_error

-- `_string`
unfoldable pub as_string : SpatialEventValue → Result Text
as_string (string s) = do guard (not (is_blank s)) validation_error; ok s
as_string _ = err validation_error

-- `MovementMode(value)`
unfoldable pub mode_of : Text → Result MovementMode
mode_of s =
    if text_eq s (mode_value walk)
    then ok walk
    else if text_eq s (mode_value climb)
    then ok climb
    else if text_eq s (mode_value swim)
    then ok swim
    else if text_eq s (mode_value fly)
    then ok fly
    else if text_eq s (mode_value burrow)
    then ok burrow
    else err validation_error

abbrev pub last_cell : GridCell → List GridCell → GridCell
last_cell c [] = c
last_cell c (d ∷ path) = last_cell d path

-- `path and path[0] == from_anchor and path[-1] == to_anchor`
unfoldable pub joins : List GridCell → GridCell → GridCell → Bool
joins [] from to = false
joins (c ∷ path) from to = same_cell c from && same_cell (last_cell c path) to

-- what an event of a move says
pub record Move : Type 0 where
  pub from_anchor : GridCell
  pub to_anchor : GridCell
  pub path : List GridCell
  pub mode : MovementMode
  pub cost_feet : ℕ

-- the reads of `apply_spatial_event`
unfoldable pub read_move : SpatialEvent → Result Move
read_move e = do
  from_value ← value_of e (text "from_anchor")
  from ← as_cell from_value
  to_value ← value_of e (text "to_anchor")
  to ← as_cell to_value
  path_value ← value_of e (text "path")
  path ← as_path path_value
  name_value ← value_of e (text "movement_mode")
  name ← as_string name_value
  cost_value ← value_of e (text "cost_feet")
  cost ← as_integer cost_value
  mode ← mode_of name
  ok (record { from_anchor = from; to_anchor = to; path = path; mode = mode; cost_feet = cost })

-- the checks of `apply_spatial_event` on what was read, and the new state
unfoldable pub apply_move :
    SpatialState → SpatialEvent → MovementPolicy → SpatialPlacement → Move → Result SpatialState
apply_move s e policy p m = do
  guard (same_cell p.anchor m.from_anchor) validation_error
  guard (joins m.path m.from_anchor m.to_anchor) validation_error
  validation ← validate_path s e.entity_id m.path m.mode none policy
  guard validation.legal validation_error
  guard (validation.cost_feet == m.cost_feet) validation_error
  with_anchor s e.entity_id m.to_anchor e.sequence

unfoldable pub apply_spatial_event :
    SpatialState → SpatialEvent → MovementPolicy → Result SpatialState
apply_spatial_event s e policy = do
  guard (e.sequence == s.sequence + 1) validation_error
  guard (text_eq e.event_type (text "entity.moved")) validation_error
  p ← placement s e.entity_id
  m ← read_move e
  apply_move s e policy p m

-- `replay_spatial`
unfoldable pub replay_spatial : SpatialState → List SpatialEvent → Result SpatialState
replay_spatial = fold_result (λ s e. apply_spatial_event s e default_policy)
