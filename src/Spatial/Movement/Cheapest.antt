-- ===== src/Spatial/Movement/Cheapest.antt =====
-- `find_path` returns a cheapest path that `validate_path` accepts, or there is none.
use mathlib.Core.Path.{subst}
use godot_dn_dsimulator.Base.{
  ℕ, ◌≤◌, ◌≡◌, refl, sym, ap, ◌∙◌, true, false, not, Option, some, none, List, [], ◌∷◌, arith,
  if-eq, Bool-cases, Option-cases, inl, inr, ok, >>=-eq-ok, ok-injective, ◌>>=◌,
}
use godot_dn_dsimulator.Base.Text.{Text}
use godot_dn_dsimulator.Actors.Kinds.{MovementMode}
use godot_dn_dsimulator.Spatial.Model.{GridCell, same_cell, contains}
use godot_dn_dsimulator.Spatial.State.{SpatialPlacement, SpatialState, placement}
use godot_dn_dsimulator.Spatial.Policy.{MovementPolicy, PathResult}
use godot_dn_dsimulator.Spatial.Search.{Search, Progress, find_visit, is_within, explore, begin}
use godot_dn_dsimulator.Spatial.Search.Table.{same_cell_iff, same_cell_refl}
use godot_dn_dsimulator.Spatial.Search.Walks.{Edge, Walk, stay, go, Chain, last}
use godot_dn_dsimulator.Spatial.Search.Best.{IsFinished}
use godot_dn_dsimulator.Spatial.Search.Start.{explore-begin}
use godot_dn_dsimulator.Spatial.Search.Back.{finished-IsShortest, finished_missing}
use godot_dn_dsimulator.Spatial.Steps.{terrain_allows}
use godot_dn_dsimulator.Spatial.Steps.Neighbors.{neighbor_other}
use godot_dn_dsimulator.Spatial.Steps.Legal.{legal-IsStep, try_step-eq-some}
use godot_dn_dsimulator.Spatial.Movement.{
  heuristic, illegal, path_search, found_path, search_path, path_to, find_path,
}
use godot_dn_dsimulator.Spatial.Movement.Sound.{IsPlaced, path_search-IsSound, estimate}
use godot_dn_dsimulator.Spatial.Movement.Total.{Inside-contains}
use godot_dn_dsimulator.Spatial.Movement.Accepted.{IsPath, IsPath-Walk, Chain-IsPath}

module _ (s : SpatialState) (entity_id : Text) (mode : MovementMode) (policy : MovementPolicy)
    (budget : Option ℕ) (p : SpatialPlacement) (v : IsPlaced s entity_id policy p)
    (destination : GridCell) where
  abbrev q : Search
  q = path_search s entity_id destination mode budget policy

  -- a path to the destination that the check accepts, at a cost
  abbrev pub Accepts : List GridCell → ℕ → Type 0
  Accepts = IsPath s entity_id mode policy budget p v destination

  -- What `find_path` may return: a path that the check accepts with the same cost, where every other
  -- one costs at least as much, or the finding that there is none.
  pub data IsCheapest : PathResult → Type 0 where
    cheapest :
        (path : List GridCell) (cost : ℕ)
        → Accepts path cost
        → ((path' : List GridCell) (cost' : ℕ) → Accepts path' cost' → cost ≤ cost')
        → IsCheapest (record { legal = true; path = path; cost_feet = cost })
    none_found :
        (cost : ℕ)
        → ((path' : List GridCell) (cost' : ℕ) → Accepts path' cost' → ⊥)
        → IsCheapest (record { legal = false; path = []; cost_feet = cost })

  to_walk :
      (path : List GridCell) (cost : ℕ)
      → Accepts path cost
      → Walk q p.anchor destination cost × (is_within budget cost ≡ true)
  unfolding path_search
  to_walk = IsPath-Walk s entity_id mode policy budget p v destination q (λ c. refl) (λ c d. refl)

  from_Chain :
      (steps : List GridCell) (cost : ℕ)
      → Chain q destination p.anchor steps cost
      → is_within budget cost ≡ true
      → Accepts (p.anchor ∷ steps) cost
  unfolding path_search
  from_Chain =
      Chain-IsPath s entity_id mode policy budget p v destination q (λ c. refl) (λ c d. refl)

  only_destination : (c : GridCell) → q.stops c ≡ true → c ≡ destination
  unfolding path_search
  only_destination c stops = (same_cell_iff c destination).0 stops

  found_path-IsCheapest :
      (g : Progress) (r : PathResult)
      → IsFinished q
          (estimate s entity_id mode policy p v destination)
          (path_search-IsSound s entity_id mode policy p v destination budget)
          p.anchor
          g
      → found_path p.anchor destination g.table (find_visit destination g.table) ≡ ok r
      → IsCheapest r
  unfolding found_path path_search
  found_path-IsCheapest g r finished h = elim (Option-cases (find_visit destination g.table)) [
    | inl missing ↦
        let e : illegal [] 0 ≡ r =
          ok-injective (ap (found_path p.anchor destination g.table) (sym missing) ∙ h) in
        subst IsCheapest e (
          none_found 0 λ path' cost' is_path.
            let (walk, within) = to_walk path' cost' is_path in
            finished_missing q _ _ p.anchor g destination finished only_destination missing cost'
              walk within)
    | inr (visit, found) ↦
        let shortest =
          finished-IsShortest q _ _ p.anchor g destination visit finished only_destination found in
        let e : record { legal = true; path = p.anchor ∷ shortest.path; cost_feet = visit.cost }
            ≡ r =
          ok-injective (
            ap
              (λ x. x >>= λ path. ok (record { legal = true; path = path; cost_feet = visit.cost }))
              (sym shortest.returned)
            ∙ ap (found_path p.anchor destination g.table) (sym found)
            ∙ h) in
        subst IsCheapest e (
          cheapest (p.anchor ∷ shortest.path) visit.cost
            (from_Chain shortest.path visit.cost shortest.chain
              (finished.0.afforded destination visit found))
            λ path' cost' is_path.
              let (walk, within) = to_walk path' cost' is_path in shortest.least cost' walk within)
  ]

  search_path-IsCheapest :
      (fuel : ℕ) (r : PathResult)
      → search_path fuel s entity_id p.anchor destination mode budget policy ≡ ok r
      → IsCheapest r
  unfolding search_path
  search_path-IsCheapest fuel r h =
      let (n, measured, h₁) = >>=-eq-ok (heuristic s p.anchor destination) _ h in
      let (g, explored, h₂) = >>=-eq-ok (explore q fuel (begin p.anchor n)) _ h₁ in
      found_path-IsCheapest g r
        (explore-begin q (estimate s entity_id mode policy p v destination)
          (path_search-IsSound s entity_id mode policy p v destination budget) p.anchor fuel n g
          (estimated n measured) explored)
        h₂
    where
      estimated : (n : ℕ) → heuristic s p.anchor destination ≡ ok n → q.heuristic p.anchor ≡ ok n
      estimated n measured = unfold path_search in measured

  -- a walk to another cell ends with a legal step there
  last_step :
      {d : GridCell} {n : ℕ}
      → Walk q p.anchor d n
      → same_cell d p.anchor ≡ false
      → (contains s.space d ≡ true) × (terrain_allows s p d mode ≡ ok true)
  last_step stay other = absurd (cc (sym (same_cell_refl p.anchor) ∙ other))
  last_step (go {u = c} {v = d} {k = k} walk edge e) other = by_edge c d k edge
    where
      by_edge :
          (c d : GridCell) (k : ℕ)
          → Edge q c d k
          → (contains s.space d ≡ true) × (terrain_allows s p d mode ≡ ok true)
      by_edge c d k edge =
          unfold path_search in
          let (legal, _) = try_step-eq-some s entity_id mode policy p v.found c d k edge.step in
          let moves =
            neighbor_other s.space c policy.allow_diagonal edge.around edge.neighbors d edge.near in
          let one = legal-IsStep s entity_id mode policy p v.found c d legal moves in
          (one.inside, one.allows)

  -- every accepted path to another cell ends with a legal step
  pub IsPath_last :
      (path : List GridCell) (cost : ℕ)
      → Accepts path cost
      → same_cell destination p.anchor ≡ false
      → (contains s.space destination ≡ true) × (terrain_allows s p destination mode ≡ ok true)
  IsPath_last path cost is_path other = last_step (to_walk path cost is_path).0 other

  outside :
      (path : List GridCell) (cost : ℕ)
      → contains s.space destination ≡ false
      → Accepts path cost
      → ⊥
  outside path cost out is_path = elim (Bool-cases (same_cell destination p.anchor)) [
    | inl same ↦
        let e : destination ≡ p.anchor = (same_cell_iff destination p.anchor).0 same in
        let inside = Inside-contains s entity_id mode policy p v p.anchor v.inside in
        cc (sym out ∙ ap (contains s.space) e ∙ inside)
    | inr other ↦ cc (sym out ∙ (IsPath_last path cost is_path other).0)
  ]

  at_anchor : same_cell destination p.anchor ≡ true → Chain q destination p.anchor [] 0
  at_anchor same =
      subst (λ d. Chain q d p.anchor [] 0) (sym ((same_cell_iff destination p.anchor).0 same)) last

  is_free_budget : (budget : Option ℕ) → is_within budget 0 ≡ true
  is_free_budget none = refl
  is_free_budget (some b) = ground arith

  path_to-IsCheapest :
      (fuel : ℕ) (r : PathResult)
      → path_to fuel s entity_id p destination mode budget policy ≡ ok r
      → IsCheapest r
  unfolding path_to
  path_to-IsCheapest fuel r h =
      elim (if-eq (not (contains s.space destination)) (ok (illegal [] 0)) _ h) [
        | inl (out, e) ↦
            subst IsCheapest (ok-injective e)
              (none_found 0 λ path' cost' is_path. outside path' cost' (ground arith) is_path)
        | inr (_, h₁) ↦
            elim (if-eq (same_cell destination p.anchor)
              (ok (record { legal = true; path = p.anchor ∷ []; cost_feet = 0 })) _ h₁) [
                | inl (same, e) ↦ subst IsCheapest (ok-injective e) (
                    cheapest (p.anchor ∷ []) 0
                      (from_Chain [] 0 (at_anchor same) (is_free_budget budget))
                      λ path' cost' is_path. omega arith)
                | inr (other, h₂) ↦
                    let (allowed, asked, h₃) =
                      >>=-eq-ok (terrain_allows s p destination mode) _ h₂ in
                    elim (if-eq allowed
                      (search_path fuel s entity_id p.anchor destination mode budget policy)
                      (ok (illegal [] 0)) h₃) [
                        | inl (_, h₄) ↦ search_path-IsCheapest fuel r h₄
                        | inr (closed, e) ↦ subst IsCheapest (ok-injective e) (
                            none_found 0 λ path' cost' is_path. cc (
                              sym closed
                              ∙ ok-injective
                                  (sym asked ∙ (IsPath_last path' cost' is_path other).1)))
                      ]
              ]
      ]

  -- Whatever `find_path` returns is a path that the check accepts at the same cost, and no other path
  -- to the destination that the check accepts is cheaper; or it is the finding that the check accepts
  -- none. The entity stands in the space, and the space and the policy have passed their checks.
  pub find_path-IsCheapest :
      (fuel : ℕ) (r : PathResult)
      → find_path fuel s entity_id destination mode budget policy ≡ ok r
      → IsCheapest r
  unfolding find_path
  find_path-IsCheapest fuel r h =
      let (p', found', h') = >>=-eq-ok (placement s entity_id) _ h in
      let same : p' ≡ p = ok-injective (sym found' ∙ v.found) in
      path_to-IsCheapest fuel r
        (subst (λ x. path_to fuel s entity_id x destination mode budget policy ≡ ok r) same h')
