-- ===== src/Spatial/Model.antt =====
-- spatial/model.py: grid cells, terrain and the space.
use godot_dn_dsimulator.Base.{
  ℕ, zero, suc, Bool, true, false, not, ◌&&◌, Option, none, some, List, [], ◌∷◌, map, ◌++◌, leb,
  ltb, ◌==◌, if◌then◌else◌, any, Result, ok, validation_error, guard, ◌>>◌,
}
use godot_dn_dsimulator.Base.Int.{ℤ, pos, negsuc, ◌+ℤ◌, leb_ℤ, eqb_ℤ}
use godot_dn_dsimulator.Base.Text.{Text, text, is_blank}
use godot_dn_dsimulator.Base.Sort.{sort, lex}
use godot_dn_dsimulator.Actors.Kinds.{MovementMode, walk, climb, swim, fly, burrow}

pub data CoverLevel : Type 0 where
  no_cover half three_quarters total : CoverLevel

pub record GridCell : Type 0 where
  pub x : ℤ
  pub y : ℤ

pub record GridOffset : Type 0 where
  pub dx : ℤ
  pub dy : ℤ

-- `GridCell.offset`
unfoldable pub offset : GridCell → ℤ → ℤ → GridCell
offset c dx dy = record { x = c.x +ℤ dx; y = c.y +ℤ dy }

unfoldable pub same_cell : GridCell → GridCell → Bool
same_cell a b = eqb_ℤ a.x b.x && eqb_ℤ a.y b.y

unfoldable pub same_offset : GridOffset → GridOffset → Bool
same_offset a b = eqb_ℤ a.dx b.dx && eqb_ℤ a.dy b.dy

-- the order of the dataclass: by x, then by y
unfoldable pub cell_leb : GridCell → GridCell → Bool
cell_leb = lex (λ a b. leb_ℤ a.x b.x) (λ a b. leb_ℤ a.y b.y)

unfoldable pub offset_leb : GridOffset → GridOffset → Bool
offset_leb = lex (λ a b. leb_ℤ a.dx b.dx) (λ a b. leb_ℤ a.dy b.dy)

pub record TerrainCell : Type 0 where
  pub cell : GridCell
  pub terrain_id : Text
  pub elevation_feet : ℕ
  pub difficult : Bool
  pub blocks_movement : Bool
  pub blocks_los : Bool
  pub obstacle_height_feet : ℕ
  pub cover : CoverLevel
  pub allowed_modes : List MovementMode

-- `ALL_MOVEMENT_MODES`
abbrev pub all_movement_modes : List MovementMode
all_movement_modes = walk ∷ climb ∷ swim ∷ fly ∷ burrow ∷ []

unfoldable pub terrain_cell : TerrainCell → Result TerrainCell
terrain_cell t = do
  guard (not (is_blank t.terrain_id)) validation_error
  ok (
      if t.blocks_los && t.obstacle_height_feet == 0
      then record t { obstacle_height_feet = 10000 }
      else t)

-- `TerrainCell(cell=cell)`
abbrev pub open_terrain : GridCell → TerrainCell
open_terrain c = record {
  cell = c;
  terrain_id = text "terrain:open";
  elevation_feet = 0;
  difficult = false;
  blocks_movement = false;
  blocks_los = false;
  obstacle_height_feet = 0;
  cover = no_cover;
  allowed_modes = all_movement_modes;
}

pub record SquareGridSpace : Type 0 where
  pub space_id : Text
  pub width : ℕ
  pub height : ℕ
  pub cell_size_feet : ℕ
  pub terrain : List TerrainCell

-- `0 <= value < bound`
abbrev pub in_range : ℤ → ℕ → Bool
in_range (pos n) bound = ltb n bound
in_range (negsuc n) bound = false

-- `SquareGridSpace.contains`
unfoldable pub contains : SquareGridSpace → GridCell → Bool
contains s c = in_range c.x s.width && in_range c.y s.height

-- `self._terrain_by_cell.get(cell)`: the terrain's cells are unique
unfoldable pub find_terrain : GridCell → List TerrainCell → Option TerrainCell
find_terrain c [] = none
find_terrain c (t ∷ ts) = if same_cell t.cell c then some t else find_terrain c ts

-- the checks of the loop of `__post_init__`, on the terrain in the order that is given
unfoldable pub unique_terrain : SquareGridSpace → List TerrainCell → List TerrainCell → Bool
unique_terrain s seen [] = true
unique_terrain s seen (t ∷ ts) =
    contains s t.cell
    && not (any (λ u. same_cell u.cell t.cell) seen)
    && unique_terrain s (t ∷ seen) ts

abbrev pub terrain_leb : TerrainCell → TerrainCell → Bool
terrain_leb a b = cell_leb a.cell b.cell

unfoldable pub square_grid_space : SquareGridSpace → Result SquareGridSpace
square_grid_space s = do
  guard (not (is_blank s.space_id)) validation_error
  guard (leb 1 s.width) validation_error
  guard (leb 1 s.height) validation_error
  guard (leb 1 s.cell_size_feet) validation_error
  guard (unique_terrain s [] s.terrain) validation_error
  ok (record s { terrain = sort terrain_leb s.terrain })

abbrev pub terrain_or_open : GridCell → Option TerrainCell → TerrainCell
terrain_or_open c none = open_terrain c
terrain_or_open c (some t) = t

-- the terrain of a cell, wherever the cell is
unfoldable pub terrain_at : SquareGridSpace → GridCell → TerrainCell
terrain_at s c = terrain_or_open c (find_terrain c s.terrain)

-- `SquareGridSpace.cell`
unfoldable pub cell_at : SquareGridSpace → GridCell → Result TerrainCell
cell_at s c = do guard (contains s c) validation_error; ok (terrain_at s c)

-- `range(start, start + count)`
abbrev pub range_from : ℕ → ℕ → List ℕ
range_from start zero = []
range_from start (suc count) = start ∷ range_from (suc start) count

abbrev pub rows : ℕ → List ℕ → List GridCell
rows width [] = []
rows width (y ∷ ys) =
    map (λ x. record { x = pos x; y = pos y }) (range_from 0 width) ++ rows width ys

-- `SquareGridSpace.cells`
unfoldable pub cells : SquareGridSpace → List GridCell
cells s = rows s.width (range_from 0 s.height)
