-- ===== src/Spatial/Search/Invariant.antt =====
-- The invariant of the search, and a round that improves a cell.
use godot_dn_dsimulator.Base.{ℕ, ◌+◌, ◌≤◌, ◌≡◌, true, none, some, List, arith, All, In, ◌⊎◌}
use godot_dn_dsimulator.Base.Sort.{insert, IsSorted}
use godot_dn_dsimulator.Spatial.Model.{GridCell}
use godot_dn_dsimulator.Spatial.Search.{
  Search, Waiting, waiting_leb, Visit, Progress, find_visit, put_visit, is_within,
}
use godot_dn_dsimulator.Spatial.Search.Walks.{Edge}

-- a cell is in the table at a cost of at most `n`
abbrev pub Found : List Visit → GridCell → ℕ → Type 0
Found table v n = (visit : Visit) × (find_visit v table ≡ some visit) × (visit.cost ≤ n)

-- the costs of a table are not above those of an earlier one
abbrev pub IsLower : List Visit → List Visit → Type 0
IsLower old new =
    (v : GridCell) (visit : Visit) → find_visit v old ≡ some visit → Found new v visit.cost

pub Found-IsLower :
    (old new : List Visit) (v : GridCell) (n : ℕ) → IsLower old new → Found old v n → Found new v n
Found-IsLower old new v n lower (visit, found, le) =
    let (visit', found', le') = lower v visit found in (visit', found', omega arith)

module _ (q : Search) (h : GridCell → ℕ) (start : GridCell) where
  -- a cell was reached by a step from a cell of the table, at the cost of that step or more
  pub record Origin (table : List Visit) (v : GridCell) (visit : Visit) : Type 0 where
    pub from : GridCell
    pub before : Visit
    pub toll : ℕ
    pub found : find_visit from table ≡ some before
    pub origin : visit.origin ≡ some from
    pub edge : Edge q from v toll
    pub dearer : before.cost + toll ≤ visit.cost

  abbrev pub root : Visit
  root = record { cell = start; cost = 0; origin = none }

  -- the heap's entry of a cell
  abbrev pub entry : GridCell → ℕ → Waiting
  entry v n = record { priority = n + h v; cost = n; cell = v }

  pub record IsSearched (g : Progress) : Type 0 where
    pub rooted : find_visit start g.table ≡ some root
    pub reached :
        (v : GridCell) (visit : Visit)
        → find_visit v g.table ≡ some visit
        → (v ≡ start) ⊎ Origin g.table v visit
    pub afforded :
        (v : GridCell) (visit : Visit)
        → find_visit v g.table ≡ some visit
        → is_within q.budget visit.cost ≡ true
    pub keyed : All (λ w. w.priority ≡ w.cost + h w.cell) g.frontier
    pub sorted : IsSorted waiting_leb g.frontier

  -- every step from a cell is in the table, at the cost that it leads to or less
  abbrev pub IsClosed : List Visit → GridCell → ℕ → Type 0
  IsClosed table v n =
      (w : GridCell) (k : ℕ)
      → Edge q v w k
      → is_within q.budget (n + k) ≡ true
      → Found table w (n + k)

  -- every cell of the table but those of `P` waits in the heap or is closed
  abbrev pub IsOpen : (GridCell → Type 0) → Progress → Type 0
  IsOpen P g =
      (v : GridCell) (visit : Visit)
      → find_visit v g.table ≡ some visit
      → In (entry v visit.cost) g.frontier ⊎ IsClosed g.table v visit.cost ⊎ P v

  -- the progress after a cell has been improved
  abbrev pub improved : Progress → GridCell → ℕ → GridCell → Progress
  improved g u n c = record {
    table = put_visit (record { cell = c; cost = n; origin = some u }) g.table;
    frontier = insert waiting_leb (entry c n) g.frontier;
  }
