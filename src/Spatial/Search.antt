-- ===== src/Spatial/Search.antt =====
-- spatial/movement.py: the search of `find_path` and `reachable_cells` over the grid. The heap is the
-- list of its entries in order, since `heappop` takes the least one and equal entries are alike. The
-- dictionaries `cost_so_far` and `came_from` have the same keys, and are one table.
pub mod Table
pub mod Walks
pub mod Invariant
pub mod Improve
pub mod Expand
pub mod Best
pub mod Start
pub mod Back
pub mod Measure
pub mod Ends
pub mod Visits
use godot_dn_dsimulator.Base.{
  ℕ, zero, suc, ◌+◌, Bool, true, false, not, ◌&&◌, Option, none, some, List, [], ◌∷◌, leb, ltb,
  ◌==◌, if◌then◌else◌, Result, ok, err, out_of_fuel, key_error, assertion_error, or_raise, ◌>>=◌,
}
use godot_dn_dsimulator.Base.Sort.{insert, lex}
use godot_dn_dsimulator.Spatial.Model.{GridCell, same_cell, cell_leb}

-- what the loop calls: the neighbours of a cell, the cost of a legal step (`none` for an illegal one),
-- the estimate that is added to a cost, the cell to stop at, and the budget
pub record Search : Type 0 where
  pub neighbors : GridCell → Result (List GridCell)
  pub step : GridCell → GridCell → Result (Option ℕ)
  pub heuristic : GridCell → Result ℕ
  pub stops : GridCell → Bool
  pub budget : Option ℕ

-- an entry of the heap
pub record Waiting : Type 0 where
  pub priority : ℕ
  pub cost : ℕ
  pub cell : GridCell

-- the order of the tuples `(priority, cost, cell)`
abbrev pub waiting_leb : Waiting → Waiting → Bool
waiting_leb =
    lex (λ a b. leb a.priority b.priority)
      (lex (λ a b. leb a.cost b.cost) (λ a b. cell_leb a.cell b.cell))

-- `cost_so_far[cell]` and `came_from[cell]`
pub record Visit : Type 0 where
  pub cell : GridCell
  pub cost : ℕ
  pub origin : Option GridCell

pub record Progress : Type 0 where
  pub table : List Visit
  pub frontier : List Waiting

-- `table.get(cell)`
unfoldable pub find_visit : GridCell → List Visit → Option Visit
find_visit c [] = none
find_visit c (v ∷ vs) = if same_cell v.cell c then some v else find_visit c vs

-- `table[visit.cell] = visit`
unfoldable pub put_visit : Visit → List Visit → List Visit
put_visit u [] = u ∷ []
put_visit u (v ∷ vs) = if same_cell v.cell u.cell then u ∷ vs else v ∷ put_visit u vs

-- `budget is None or cost <= budget`
abbrev pub is_within : Option ℕ → ℕ → Bool
is_within none cost = true
is_within (some budget) cost = leb cost budget

-- `previous is None or cost < previous`
abbrev pub improves : Option Visit → ℕ → Bool
improves none cost = true
improves (some previous) cost = ltb cost previous.cost

-- the assignments and the push of a round that improves a cell
unfoldable pub improve : Search → Progress → GridCell → ℕ → GridCell → Result Progress
improve q g current cost c = do
  h ← q.heuristic c
  ok (record {
    table = put_visit (record { cell = c; cost = cost; origin = some current }) g.table;
    frontier =
        insert waiting_leb (record { priority = cost + h; cost = cost; cell = c }) g.frontier;
  })

-- the tests of a round on the new cost
unfoldable pub relax_cost : Search → Progress → GridCell → ℕ → GridCell → Result Progress
relax_cost q g current cost c =
    if is_within q.budget cost && improves (find_visit c g.table) cost
    then improve q g current cost c
    else ok g

unfoldable pub relax_step : Search → Progress → GridCell → ℕ → GridCell → Option ℕ → Result Progress
relax_step q g current current_cost c none = ok g
relax_step q g current current_cost c (some k) = relax_cost q g current (current_cost + k) c

-- the loop over the neighbours
unfoldable pub relax : Search → GridCell → ℕ → Progress → List GridCell → Result Progress
relax q current current_cost g [] = ok g
relax q current current_cost g (c ∷ cs) = do
  k ← q.step current c
  g' ← relax_step q g current current_cost c k
  relax q current current_cost g' cs

-- `current_cost != cost_so_far.get(current)`
abbrev pub is_stale : Option Visit → ℕ → Bool
is_stale none cost = true
is_stale (some v) cost = not (v.cost == cost)

-- the rounds of a cell that is not stale and where the search does not stop
unfoldable pub expand : Search → (Progress → Result Progress) → Progress → Waiting → Result Progress
expand q later g w = do cs ← q.neighbors w.cell; g' ← relax q w.cell w.cost g cs; later g'

-- a round of the loop, with the rounds that follow
unfoldable pub pop :
    Search → (Progress → Result Progress) → Progress → List Waiting → Result Progress
pop q later g [] = ok g
pop q later g (w ∷ ws) =
    let popped = record g { frontier = ws } in
    if is_stale (find_visit w.cell g.table) w.cost
    then later popped
    else if q.stops w.cell
    then ok popped
    else expand q later popped w

-- `while frontier`, with fuel
unfoldable pub explore : Search → ℕ → Progress → Result Progress
explore q zero g = err out_of_fuel
explore q (suc fuel) g = pop q (explore q fuel) g g.frontier

-- what the loop starts with
unfoldable pub begin : GridCell → ℕ → Progress
begin start h = record {
  table = record { cell = start; cost = 0; origin = none } ∷ [];
  frontier = record { priority = h; cost = 0; cell = start } ∷ [];
}

-- the step from a cell to the one that it was reached from
abbrev pub came_from : Option Visit → Result GridCell
came_from none = err key_error
came_from (some v) = or_raise v.origin assertion_error

-- the loop that follows `came_from` back to the start, with fuel; the path is in order
unfoldable pub walk_back :
    GridCell → ℕ → List Visit → GridCell → List GridCell → Result (List GridCell)
walk_back start zero table cursor path = err out_of_fuel
walk_back start (suc fuel) table cursor path =
    let earlier = do
      previous ← came_from (find_visit cursor table)
      walk_back start fuel table previous (previous ∷ path)
    in if same_cell cursor start then ok path else earlier
