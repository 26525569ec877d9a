-- ===== src/Spatial/State.antt =====
-- spatial/model.py: placements, and the spatial state with its occupancy.
pub mod Moved
pub mod Occupancy
pub mod Room
pub mod Others
pub mod Vacancy
use godot_dn_dsimulator.Base.{
  ℕ, Bool, true, not, ◌&&◌, ◌||◌, List, [], ◌∷◌, map, length, leb, if◌then◌else◌, all, any, filter,
  Result, ok, validation_error, guard, or_raise, ◌>>=◌, ◌>>◌,
}
use godot_dn_dsimulator.Base.Int.{pos}
use godot_dn_dsimulator.Base.Text.{Text, text_eq, is_blank}
use godot_dn_dsimulator.Base.Sort.{sort}
use godot_dn_dsimulator.Base.Keyed.{find_key, unique_keys, key_leb}
use godot_dn_dsimulator.Spatial.Model.{
  CoverLevel, GridCell, GridOffset, offset, same_cell, same_offset, offset_leb, SquareGridSpace,
  contains, terrain_at, cell_at,
}

pub record SpatialPlacement : Type 0 where
  pub entity_id : Text
  pub anchor : GridCell
  pub footprint : List GridOffset
  pub height_feet : ℕ
  pub blocks_movement : Bool
  pub blocks_los : Bool
  pub cover : CoverLevel
  pub tags : List Text

abbrev pub entity_key : SpatialPlacement → Text
entity_key p = p.entity_id

unfoldable pub unique_offsets : List GridOffset → Bool
unique_offsets [] = true
unique_offsets (o ∷ os) = not (any (same_offset o) os) && unique_offsets os

abbrev pub no_offset : GridOffset
no_offset = record { dx = pos 0; dy = pos 0 }

unfoldable pub spatial_placement : SpatialPlacement → Result SpatialPlacement
spatial_placement p = do
  guard (not (is_blank p.entity_id)) validation_error
  guard (leb 1 (length p.footprint)) validation_error
  guard (unique_offsets p.footprint) validation_error
  guard (any (same_offset no_offset) p.footprint) validation_error
  guard (all (λ tag. not (is_blank tag)) p.tags) validation_error
  ok (record p { footprint = sort offset_leb p.footprint })

-- `SpatialPlacement.occupied_cells`
unfoldable pub occupied_cells : SpatialPlacement → GridCell → List GridCell
occupied_cells p anchor = map (λ o. offset anchor o.dx o.dy) p.footprint

-- `SpatialPlacement.moved`; `replace` runs the constructor's checks again, on fields that have passed
unfoldable pub moved : SpatialPlacement → GridCell → SpatialPlacement
moved p anchor = record p { anchor = anchor }

pub record SpatialState : Type 0 where
  pub space : SquareGridSpace
  pub placements : List SpatialPlacement
  pub sequence : ℕ

-- `cell in cells`
unfoldable pub has_cell : GridCell → List GridCell → Bool
has_cell c cs = any (same_cell c) cs

-- The loop over a placement's cells. `occupancy` has the cells of the blocking placements before it:
-- no other placement is entered.
unfoldable pub occupy :
    SquareGridSpace → Bool → List GridCell → List GridCell → Result (List GridCell)
unfolding has_cell
occupy s blocks occupancy [] = ok occupancy
occupy s blocks occupancy (c ∷ cs) = do
  guard (contains s c) validation_error
  terrain ← cell_at s c
  guard (not (terrain.blocks_movement && blocks)) validation_error
  guard (not (has_cell c occupancy && blocks)) validation_error
  occupy s blocks (if blocks then c ∷ occupancy else occupancy) cs

unfoldable pub occupy_all :
    SquareGridSpace → List GridCell → List SpatialPlacement → Result (List GridCell)
occupy_all s occupancy [] = ok occupancy
occupy_all s occupancy (p ∷ ps) = do
  occupancy' ← occupy s p.blocks_movement occupancy (occupied_cells p p.anchor)
  occupy_all s occupancy' ps

unfoldable pub spatial_state : SpatialState → Result SpatialState
spatial_state s = do
  guard (unique_keys entity_key s.placements) validation_error
  _ ← occupy_all s.space [] s.placements
  ok (record s { placements = sort (key_leb entity_key) s.placements })

-- `SpatialState.placement`
unfoldable pub placement : SpatialState → Text → Result SpatialPlacement
placement s entity_id = or_raise (find_key entity_key entity_id s.placements) validation_error

-- `SpatialState.occupants`
unfoldable pub occupants : SpatialState → GridCell → List SpatialPlacement
unfolding has_cell
occupants s c = filter (λ p. has_cell c (occupied_cells p p.anchor)) s.placements

-- whether an occupant leaves a cell to a placement
abbrev pub leaves_room : Text → Bool → SpatialPlacement → Bool
leaves_room ignored blocks p = text_eq p.entity_id ignored || not (p.blocks_movement && blocks)

-- a round of the loop of `is_occupiable`
unfoldable pub is_free : SpatialState → Bool → Text → GridCell → Bool
unfolding occupants
is_free s blocks ignored c =
    (contains s.space c && not (terrain_at s.space c).blocks_movement)
    && all (leaves_room ignored blocks) (occupants s c)

-- `SpatialState.is_occupiable`, with the identifier that every caller ignores
unfoldable pub is_occupiable : SpatialState → SpatialPlacement → GridCell → Text → Bool
unfolding is_free
is_occupiable s p anchor ignored =
    all (is_free s p.blocks_movement ignored) (occupied_cells p anchor)

-- the tuple with one placement moved
unfoldable pub move_placement :
    Text → GridCell → SpatialPlacement → List SpatialPlacement → List SpatialPlacement
unfolding moved
move_placement entity_id anchor p placements =
    map (λ q. if text_eq q.entity_id entity_id then moved p anchor else q) placements

-- `SpatialState.with_anchor`
unfoldable pub with_anchor : SpatialState → Text → GridCell → ℕ → Result SpatialState
unfolding placement move_placement
with_anchor s entity_id anchor sequence = do
  p ← placement s entity_id
  guard (is_occupiable s p anchor entity_id) validation_error
  spatial_state (record {
    space = s.space;
    placements = move_placement entity_id anchor p s.placements;
    sequence = sequence;
  })
