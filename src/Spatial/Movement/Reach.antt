-- ===== src/Spatial/Movement/Reach.antt =====
-- `reachable_cells` lists exactly the cells that a path within the budget leads to, at the least cost.
use mathlib.Core.Path.{subst}
use godot_dn_dsimulator.Base.{
  ℕ, ◌≤◌, ◌≡◌, refl, sym, ap, ◌∙◌, true, some, List, ◌∷◌, map, In, In-map, In-map_cases, ok,
  >>=-eq-ok, ok-injective,
}
use godot_dn_dsimulator.Base.Text.{Text}
use godot_dn_dsimulator.Base.Sort.{sort, In-sort, In-sort_cases}
use godot_dn_dsimulator.Actors.Kinds.{MovementMode}
use godot_dn_dsimulator.Spatial.Model.{GridCell}
use godot_dn_dsimulator.Spatial.State.{SpatialPlacement, SpatialState, placement}
use godot_dn_dsimulator.Spatial.Policy.{MovementPolicy, ReachableCell}
use godot_dn_dsimulator.Spatial.Search.{
  Search, Progress, Visit, find_visit, is_within, explore, begin,
}
use godot_dn_dsimulator.Spatial.Search.Walks.{Walk}
use godot_dn_dsimulator.Spatial.Search.Table.{find_visit-cell}
use godot_dn_dsimulator.Spatial.Search.Best.{IsFinished}
use godot_dn_dsimulator.Spatial.Search.Start.{explore-begin}
use godot_dn_dsimulator.Spatial.Search.Back.{finished-IsShortest, best_at}
use godot_dn_dsimulator.Spatial.Search.Visits.{
  explore-table, IsUnique, IsUnique-put_visit, In-find_visit, find_visit-In,
}
use godot_dn_dsimulator.Spatial.Movement.{reach_search, reachable, visit_leb, reachable_cells}
use godot_dn_dsimulator.Spatial.Movement.Sound.{IsPlaced, reach_search-IsSound}
use godot_dn_dsimulator.Spatial.Movement.Accepted.{IsPath, IsPath-Walk, Chain-IsPath}

module _ (s : SpatialState) (entity_id : Text) (mode : MovementMode) (policy : MovementPolicy)
    (budget : ℕ) (p : SpatialPlacement) (v : IsPlaced s entity_id policy p) where
  -- a path within the budget that the check accepts
  abbrev pub Reaches : GridCell → List GridCell → ℕ → Type 0
  Reaches c = IsPath s entity_id mode policy (some budget) p v c

  -- What is listed, and nothing else: each cell with the cost of a path to it that no other path
  -- undercuts.
  pub record IsReach (listed : List ReachableCell) : Type 0 where
    pub reached :
        (c : GridCell) (cost : ℕ)
        → In (record { cell = c; cost_feet = cost }) listed
        → (path : List GridCell) × Reaches c path cost
    pub all_listed :
        (c : GridCell) (path : List GridCell) (cost : ℕ)
        → Reaches c path cost
        → (n : ℕ) × In (record { cell = c; cost_feet = n }) listed × (n ≤ cost)
    pub least :
        (c : GridCell) (path : List GridCell) (n cost : ℕ)
        → In (record { cell = c; cost_feet = n }) listed
        → Reaches c path cost
        → n ≤ cost

  abbrev q : Search
  q = reach_search s entity_id mode budget policy

  to_walk :
      (c : GridCell) (path : List GridCell) (cost : ℕ)
      → Reaches c path cost
      → Walk q p.anchor c cost × (is_within (some budget) cost ≡ true)
  unfolding reach_search
  to_walk c = IsPath-Walk s entity_id mode policy (some budget) p v c q (λ c. refl) (λ c d. refl)

  never_stops : (c d : GridCell) → q.stops c ≡ true → c ≡ d
  unfolding reach_search
  never_stops c d stops = cc

  table-IsReach :
      (g : Progress)
      → IsFinished q (λ c. 0) (reach_search-IsSound s entity_id mode policy p v budget) p.anchor g
      → IsUnique g.table
      → IsReach (map reachable (sort visit_leb g.table))
  unfolding reach_search
  table-IsReach g finished unique = record {
    reached = λ c cost i.
        let (visit, found, e) = visit_of c cost i in
        let shortest =
          finished-IsShortest q _ _ p.anchor g c visit finished (λ d. never_stops d c) found in
        let within = finished.0.afforded c visit found in
        (
          p.anchor ∷ shortest.path,
          subst (Reaches c (p.anchor ∷ shortest.path)) e (
              Chain-IsPath s entity_id mode policy (some budget) p v c q (λ c. refl) (λ c d. refl)
                shortest.path visit.cost shortest.chain within),
        );
    all_listed = λ c path cost is_path.
        let (walk, within) = to_walk c path cost is_path in
        let (visit, found, le) =
          best_at q _ _ p.anchor g.table c (λ d. never_stops d c) finished.1 cost walk within in
        (visit.cost, listed_at c visit found, le);
    least = λ c path n cost i is_path.
        let (walk, within) = to_walk c path cost is_path in
        let (visit, found, e) = visit_of c n i in
        let (visit', found', le) =
          best_at q _ _ p.anchor g.table c (λ d. never_stops d c) finished.1 cost walk within in
        let same : visit' ≡ visit = cc in
        subst (λ x. x ≤ cost) e (subst (λ (x : Visit). x.cost ≤ cost) same le);
  }
    where
      visit_of :
          (c : GridCell) (cost : ℕ)
          → In (record { cell = c; cost_feet = cost }) (map reachable (sort visit_leb g.table))
          → (visit : Visit) × (find_visit c g.table ≡ some visit) × (visit.cost ≡ cost)
      visit_of c cost i =
          let (visit, j, e) = In-map_cases reachable (sort visit_leb g.table) i in
          let found = In-find_visit visit g.table unique (In-sort_cases visit_leb g.table j) in
          let here : visit.cell ≡ c = ap (λ (r : ReachableCell). r.cell) (sym e) in
          (
            visit,
            ap (λ x. find_visit x g.table) (sym here) ∙ found,
            ap (λ (r : ReachableCell). r.cost_feet) (sym e),
          )

      listed_at :
          (c : GridCell) (visit : Visit)
          → find_visit c g.table ≡ some visit
          → In
              (record { cell = c; cost_feet = visit.cost })
              (map reachable (sort visit_leb g.table))
      listed_at c visit found =
          let here = find_visit-cell c g.table visit found in
          subst
            (λ x.
              In (record { cell = x; cost_feet = visit.cost })
                (map reachable (sort visit_leb g.table)))
            here
            (In-map reachable (sort visit_leb g.table)
              (In-sort visit_leb g.table (find_visit-In c visit g.table found)))

  -- Whatever `reachable_cells` returns lists the cells that a path within the budget leads to, and no
  -- others: each with the cost of a path that the check accepts, and every other path that the check
  -- accepts within the budget costs at least as much. The entity stands in the space, and the space
  -- and the policy have passed their checks.
  pub reachable_cells-IsReach :
      (fuel : ℕ) (listed : List ReachableCell)
      → reachable_cells fuel s entity_id mode budget policy ≡ ok listed
      → IsReach listed
  unfolding reachable_cells
  reachable_cells-IsReach fuel listed h =
      let (p', found', h₁) = >>=-eq-ok (placement s entity_id) _ h in
      let same : p' ≡ p = ok-injective (sym found' ∙ v.found) in
      let (g, explored, h₂) = >>=-eq-ok (explore q fuel (begin p'.anchor 0)) _ h₁ in
      let explored' : explore q fuel (begin p.anchor 0) ≡ ok g =
        subst (λ (x : SpatialPlacement). explore q fuel (begin x.anchor 0) ≡ ok g) same explored in
      let finished =
        explore-begin q (λ c. 0) (reach_search-IsSound s entity_id mode policy p v budget) p.anchor
          fuel 0 g free explored' in
      let unique =
        explore-table q IsUnique IsUnique-put_visit fuel (begin p.anchor 0) g start_unique
          explored' in
      subst IsReach (ok-injective h₂) (table-IsReach g finished unique)
    where
      free : q.heuristic p.anchor ≡ ok 0
      free = unfold reach_search in refl

      start_unique : IsUnique (begin p.anchor 0).table
      start_unique = unfold begin find_visit in (refl, tt)
