-- ===== src/Spatial/Search/Walks.antt =====
-- Walks over the steps of a search, and paths as lists of cells.
use mathlib.Core.Path.{subst}
use godot_dn_dsimulator.Base.{◌≤◌}
use godot_dn_dsimulator.Base.{ℕ, ◌+◌, ◌≡◌, refl, true, some, List, [], ◌∷◌, ok, arith}
use godot_dn_dsimulator.Spatial.Model.{GridCell}
use godot_dn_dsimulator.Spatial.State.{has_cell}
use godot_dn_dsimulator.Spatial.Search.{Search}

-- a legal step between neighbours, with its cost
pub record Edge (q : Search) (u v : GridCell) (k : ℕ) : Type 0 where
  pub around : List GridCell
  pub neighbors : q.neighbors u ≡ ok around
  pub near : has_cell v around ≡ true
  pub step : q.step u v ≡ ok (some k)

-- the cells that legal steps lead to from a start, with the costs added up
pub data Walk (q : Search) (a : GridCell) : GridCell → ℕ → Type 0 where
  stay : Walk q a a 0
  go : {u v : GridCell} {n k m : ℕ} → Walk q a u n → Edge q u v k → n + k ≡ m → Walk q a v m

-- a list of cells whose steps are legal, to its last cell
pub data Chain (q : Search) (d : GridCell) : GridCell → List GridCell → ℕ → Type 0 where
  last : Chain q d d [] 0
  step :
      {u v : GridCell} {p : List GridCell} {n k m : ℕ}
      → Edge q u v k
      → Chain q d v p n
      → k + n ≡ m
      → Chain q d u (v ∷ p) m

pub Walk-Chain :
    {q : Search} {a d u : GridCell} {n m t : ℕ} {p : List GridCell}
    → Walk q a u n
    → Chain q d u p m
    → n + m ≡ t
    → Walk q a d t
Walk-Chain w last e = subst (Walk _ _ _) (omega arith) w
Walk-Chain w (step edge c f) e = Walk-Chain (go w edge refl) c (omega arith)

-- What a search must satisfy: the estimate is a function, it falls by at most the cost of a step, it
-- is 0 where the search stops, and steps are not free.
pub record IsSound (q : Search) (h : GridCell → ℕ) : Type 0 where
  pub measured : (c : GridCell) (n : ℕ) → q.heuristic c ≡ ok n → n ≡ h c
  pub consistent : (u v : GridCell) (k : ℕ) → Edge q u v k → h u ≤ k + h v
  pub arrived : (d : GridCell) → q.stops d ≡ true → h d ≡ 0
  pub positive : (u v : GridCell) (k : ℕ) → Edge q u v k → 1 ≤ k
