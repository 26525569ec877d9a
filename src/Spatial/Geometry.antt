-- ===== src/Spatial/Geometry.antt =====
-- spatial/geometry.py: distances in feet, neighbours and lines of cells. A quotient of two integers
-- below 2 ^ 53 that Python rounds up as a float is the quotient rounded up here. The Euclidean
-- distance, a float, has no counterpart.
use godot_dn_dsimulator.Base.{
  ℕ, zero, suc, ◌+◌, ◌-◌, ◌*◌, ◌/◌, Bool, ◌&&◌, ◌||◌, List, [], ◌∷◌, ◌++◌, map, leb, ltb, ◌==◌, max,
  min, if◌then◌else◌, filter, Result, ok, err, validation_error, value_error, out_of_fuel, guard,
  ◌>>=◌, ◌>>◌,
}
use godot_dn_dsimulator.Base.Int.{ℤ, pos, negsuc, pos_part, neg_part, eqb_ℤ, leb_ℤ}
use godot_dn_dsimulator.Base.Text.{Text}
use godot_dn_dsimulator.Base.Sort.{sort}
use godot_dn_dsimulator.Spatial.Model.{
  GridCell, offset, cell_leb, SquareGridSpace, contains, terrain_at,
}
use godot_dn_dsimulator.Spatial.State.{SpatialState, occupied_cells, placement}

pub data DistanceMetric : Type 0 where
  grid manhattan : DistanceMetric

-- `abs(a - b)`
abbrev pub abs_diff : ℕ → ℕ → ℕ
abs_diff a b = (a - b) + (b - a)

abbrev pub abs_diff_ℤ : ℤ → ℤ → ℕ
abs_diff_ℤ a b = abs_diff (pos_part a + neg_part b) (pos_part b + neg_part a)

-- `ceil(a / b)`
abbrev pub ceil_div : ℕ → ℕ → ℕ
ceil_div a b = (a + b - 1) / b

-- the rise between two cells
unfoldable pub rise : SquareGridSpace → GridCell → GridCell → ℕ
rise s a b = abs_diff (terrain_at s b).elevation_feet (terrain_at s a).elevation_feet

-- `max(dx, dy, vertical_steps)`
unfoldable pub grid_steps : SquareGridSpace → GridCell → GridCell → ℕ
unfolding rise
grid_steps s a b =
    max (max (abs_diff_ℤ b.x a.x) (abs_diff_ℤ b.y a.y)) (ceil_div (rise s a b) s.cell_size_feet)

-- the branches on the metric
unfoldable pub metric_distance : SquareGridSpace → GridCell → GridCell → DistanceMetric → ℕ
unfolding grid_steps rise
metric_distance s a b grid = grid_steps s a b * s.cell_size_feet
metric_distance s a b manhattan =
    (abs_diff_ℤ b.x a.x + abs_diff_ℤ b.y a.y) * s.cell_size_feet + rise s a b

unfoldable pub distance_between_cells :
    SquareGridSpace → GridCell → GridCell → DistanceMetric → Result ℕ
unfolding metric_distance
distance_between_cells s a b metric = do
  guard (contains s a && contains s b) validation_error
  ok (metric_distance s a b metric)

-- the distances of a comprehension over the pairs of two tuples of cells
unfoldable pub distances_from :
    SquareGridSpace → DistanceMetric → GridCell → List GridCell → Result (List ℕ)
distances_from s metric a [] = ok []
distances_from s metric a (b ∷ bs) = do
  d ← distance_between_cells s a b metric
  ds ← distances_from s metric a bs
  ok (d ∷ ds)

unfoldable pub distances :
    SquareGridSpace → DistanceMetric → List GridCell → List GridCell → Result (List ℕ)
distances s metric [] bs = ok []
distances s metric (a ∷ cs) bs = do
  ds ← distances_from s metric a bs
  es ← distances s metric cs bs
  ok (ds ++ es)

abbrev pub least : ℕ → List ℕ → ℕ
least n [] = n
least n (m ∷ ms) = least (min n m) ms

-- `min(...)`, which raises on an empty sequence
unfoldable pub least_of : List ℕ → Result ℕ
least_of [] = err value_error
least_of (n ∷ ns) = ok (least n ns)

-- the least distance between two tuples of cells
unfoldable pub cells_distance :
    SquareGridSpace → DistanceMetric → List GridCell → List GridCell → Result ℕ
cells_distance s metric xs ys = do ds ← distances s metric xs ys; least_of ds

unfoldable pub distance_between_placements : SpatialState → Text → Text → DistanceMetric → Result ℕ
distance_between_placements s source_id target_id metric = do
  source ← placement s source_id
  target ← placement s target_id
  cells_distance s.space metric (occupied_cells source source.anchor)
      (occupied_cells target target.anchor)

unfoldable pub placement_in_reach : SpatialState → Text → Text → ℕ → DistanceMetric → Result Bool
placement_in_reach s source_id target_id reach metric = do
  d ← distance_between_placements s source_id target_id metric
  ok (leb d reach)

-- the offsets of the two loops of `neighboring_cells`
abbrev pub straight_and_diagonal : List (ℤ × ℤ)
straight_and_diagonal =
    (negsuc 0, negsuc 0)
    ∷ (pos 0, negsuc 0)
    ∷ (pos 1, negsuc 0)
    ∷ (negsuc 0, pos 0)
    ∷ (pos 1, pos 0)
    ∷ (negsuc 0, pos 1)
    ∷ (pos 0, pos 1)
    ∷ (pos 1, pos 1)
    ∷ []

abbrev pub is_wanted : Bool → ℤ × ℤ → Bool
is_wanted allow_diagonal (dx, dy) = allow_diagonal || eqb_ℤ dx (pos 0) || eqb_ℤ dy (pos 0)

abbrev pub offset_by : GridCell → ℤ × ℤ → GridCell
offset_by c (dx, dy) = offset c dx dy

unfoldable pub candidates : SquareGridSpace → GridCell → Bool → List GridCell
candidates s c allow_diagonal =
    filter (contains s)
      (map (offset_by c) (filter (is_wanted allow_diagonal) straight_and_diagonal))

unfoldable pub neighboring_cells : SquareGridSpace → GridCell → Bool → Result (List GridCell)
unfolding candidates
neighboring_cells s c allow_diagonal = do
  guard (contains s c) validation_error
  ok (sort cell_leb (candidates s c allow_diagonal))

-- the sign of `b - a`
abbrev pub sign : ℤ → ℤ → ℤ
sign a b = if eqb_ℤ a b then pos 0 else if leb_ℤ a b then pos 1 else negsuc 0

-- where a trace is: its cell, and the steps made along each axis
pub record Trace : Type 0 where
  pub at : GridCell
  pub ix : ℕ
  pub iy : ℕ

-- a round of the loop of `line_cells`
unfoldable pub trace_step : ℕ → ℕ → ℤ → ℤ → Trace → Trace
trace_step nx ny sx sy t =
    let left = (1 + 2 * t.ix) * ny in
    let right = (1 + 2 * t.iy) * nx in
    if left == right
    then record { at = offset t.at sx sy; ix = t.ix + 1; iy = t.iy + 1 }
    else if ltb left right
    then record { at = offset t.at sx (pos 0); ix = t.ix + 1; iy = t.iy }
    else record { at = offset t.at (pos 0) sy; ix = t.ix; iy = t.iy + 1 }

abbrev pub is_tracing : ℕ → ℕ → Trace → Bool
is_tracing nx ny t = ltb t.ix nx || ltb t.iy ny

-- the check and the append of a round, and what the later rounds append; no cell is the one before it
abbrev pub append_traced : SquareGridSpace → Trace → Result (List GridCell) → Result (List GridCell)
append_traced s t later = do guard (contains s t.at) validation_error; cs ← later; ok (t.at ∷ cs)

-- the loop, with fuel
unfoldable pub trace : ℕ → SquareGridSpace → ℕ → ℕ → ℤ → ℤ → Trace → Result (List GridCell)
unfolding trace_step
trace zero s nx ny sx sy t = if is_tracing nx ny t then err out_of_fuel else ok []
trace (suc fuel) s nx ny sx sy t =
    let later =
      append_traced s (trace_step nx ny sx sy t)
        (trace fuel s nx ny sx sy (trace_step nx ny sx sy t)) in
    if is_tracing nx ny t then later else ok []

unfoldable pub line_cells : SquareGridSpace → GridCell → GridCell → Result (List GridCell)
line_cells s source target = do
  guard (contains s source && contains s target) validation_error
  let nx = abs_diff_ℤ target.x source.x
  let ny = abs_diff_ℤ target.y source.y
  cs ←
      trace (nx + ny) s nx ny (sign source.x target.x) (sign source.y target.y)
        (record { at = source; ix = 0; iy = 0 })
  ok (source ∷ cs)
