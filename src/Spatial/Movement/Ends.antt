-- ===== src/Spatial/Movement/Ends.antt =====
-- The loops of `find_path` and `reachable_cells` end.
use godot_dn_dsimulator.Base.{
  ℕ, ◌≤◌, ◌≡◌, true, Option, [], ◌∷◌, arith, map, Bool-cases, Option-cases, inl, inr, Result, ok,
}
use godot_dn_dsimulator.Base.Text.{Text}
use godot_dn_dsimulator.Base.Sort.{sort}
use godot_dn_dsimulator.Actors.Kinds.{MovementMode}
use godot_dn_dsimulator.Spatial.Model.{GridCell, same_cell, contains}
use godot_dn_dsimulator.Spatial.State.{SpatialPlacement, SpatialState}
use godot_dn_dsimulator.Spatial.Policy.{MovementPolicy, PathResult}
use godot_dn_dsimulator.Spatial.Geometry.{distance_between_cells, metric_distance, grid}
use godot_dn_dsimulator.Spatial.Search.{Progress, find_visit}
use godot_dn_dsimulator.Spatial.Search.Table.{same_cell_iff}
use godot_dn_dsimulator.Spatial.Search.Best.{IsFinished}
use godot_dn_dsimulator.Spatial.Search.Start.{explore-begin}
use godot_dn_dsimulator.Spatial.Search.Back.{finished-IsShortest}
use godot_dn_dsimulator.Spatial.Steps.Total.{terrain_allows-Returns}
use godot_dn_dsimulator.Spatial.Movement.{
  heuristic, illegal, path_search, found_path, search_path, path_to, find_path, reachable,
  visit_leb, reachable_cells,
}
use godot_dn_dsimulator.Spatial.Movement.Sound.{IsPlaced, path_search-IsSound, estimate}
use godot_dn_dsimulator.Spatial.Movement.Total.{
  Inside-contains, path_search_ends, reach_search_ends,
}

-- A call with fuel returns the same result at some fuel and at any more.
abbrev pub Settles {ℓ} : {A : Type ℓ} → (ℕ → Result A) → Type ℓ
Settles {A = A} call = (fuel : ℕ) × (r : A) × ((n : ℕ) → fuel ≤ n → call n ≡ ok r)

Settles-at_once {ℓ} :
    {A : Type ℓ} (call : ℕ → Result A) (r : A) → ((n : ℕ) → call n ≡ ok r) → Settles call
Settles-at_once call r h = (0, r, λ n le. h n)

module _ (s : SpatialState) (entity_id : Text) (mode : MovementMode) (policy : MovementPolicy)
    (p : SpatialPlacement) (v : IsPlaced s entity_id policy p) where
  heuristic_lem :
      (c d : GridCell)
      → contains s.space c ≡ true
      → contains s.space d ≡ true
      → heuristic s c d ≡ ok (metric_distance s.space c d grid)
  unfolding heuristic distance_between_cells
  heuristic_lem c d hc hd = rw (hc, hd)

  search_path-Settles :
      (destination : GridCell) (budget : Option ℕ)
      → contains s.space destination ≡ true
      → Settles (λ n. search_path n s entity_id p.anchor destination mode budget policy)
  unfolding search_path
  search_path-Settles destination budget inside =
      let h = metric_distance s.space p.anchor destination grid in
      let measured =
        heuristic_lem p.anchor destination
          (Inside-contains s entity_id mode policy p v p.anchor v.inside) inside in
      let (fuel, g, ended) =
        path_search_ends s entity_id mode policy p v destination budget h inside in
      let finished =
        explore-begin (path_search s entity_id destination mode budget policy)
          (estimate s entity_id mode policy p v destination)
          (path_search-IsSound s entity_id mode policy p v destination budget) p.anchor fuel h g
          (estimated measured) (ended fuel (omega arith)) in
      let (r, found) = returned g finished in (fuel, r, λ n le. rw (measured, ended n le) found)
    where
      estimated :
          {h : ℕ}
          → heuristic s p.anchor destination ≡ ok h
          → (path_search s entity_id destination mode budget policy).heuristic p.anchor ≡ ok h
      estimated measured = unfold path_search in measured

      only :
          (c : GridCell)
          → (path_search s entity_id destination mode budget policy).stops c ≡ true
          → c ≡ destination
      only c stops = unfold path_search in (same_cell_iff c destination).0 stops

      returned :
          (g : Progress)
          → IsFinished
              (path_search s entity_id destination mode budget policy)
              (estimate s entity_id mode policy p v destination)
              (path_search-IsSound s entity_id mode policy p v destination budget)
              p.anchor
              g
          → (r : PathResult) × (found_path p.anchor destination g.table
                (find_visit destination g.table)
              ≡ ok r)
      returned g finished =
          unfold found_path in
          elim (Option-cases (find_visit destination g.table)) [
            | inl missing ↦ (illegal [] 0, rw missing)
            | inr (visit, found) ↦
                let shortest =
                  finished-IsShortest _ _ _ p.anchor g destination visit finished only found in
                (
                  record { legal = true; path = p.anchor ∷ shortest.path; cost_feet = visit.cost },
                  rw (found, shortest.returned),
                )
          ]

  path_to-Settles :
      (destination : GridCell) (budget : Option ℕ)
      → Settles (λ n. path_to n s entity_id p destination mode budget policy)
  unfolding path_to
  path_to-Settles destination budget = elim (Bool-cases (contains s.space destination)) [
    | inr outside ↦ Settles-at_once _ (illegal [] 0) (λ n. rw outside)
    | inl inside ↦ elim (Bool-cases (same_cell destination p.anchor)) [
      | inl same ↦
          Settles-at_once _ (record { legal = true; path = p.anchor ∷ []; cost_feet = 0 })
            (λ n. rw (inside, same))
      | inr other ↦
          let (allowed, asked) =
            terrain_allows-Returns s entity_id mode policy p v.found destination in
          elim (Bool-cases allowed) [
            | inr closed ↦ Settles-at_once _ (illegal [] 0) (λ n. rw (inside, other, asked, closed))
            | inl free ↦
                let (fuel, r, settled) = search_path-Settles destination budget inside in
                (fuel, r, λ n le. rw (inside, other, asked, free) (settled n le))
          ]
    ]
  ]

  -- For an entity that stands in the space, where the space and the policy have passed their checks,
  -- the search of a path ends and does not raise, for any destination and budget: with some fuel, and
  -- with any more, `find_path` returns one and the same result.
  pub find_path-Settles :
      (destination : GridCell) (budget : Option ℕ)
      → Settles (λ n. find_path n s entity_id destination mode budget policy)
  unfolding find_path
  find_path-Settles destination budget =
      let (fuel, r, settled) = path_to-Settles destination budget in
      (fuel, r, λ n le. rw (v.found) (settled n le))

  -- under the same conditions the search of the reachable cells ends
  pub reachable_cells-Settles :
      (budget : ℕ) → Settles (λ n. reachable_cells n s entity_id mode budget policy)
  unfolding reachable_cells
  reachable_cells-Settles budget =
      let (fuel, g, ended) = reach_search_ends s entity_id mode policy p v budget 0 in
      (fuel, map reachable (sort visit_leb g.table), λ n le. rw (v.found, ended n le))
