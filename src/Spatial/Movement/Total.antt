-- ===== src/Spatial/Movement/Total.antt =====
-- The searches never raise, and end.
use mathlib.Core.Path.{subst}
use godot_dn_dsimulator.Base.{
  ℕ, zero, suc, ◌+◌, ◌≤◌, ◌<◌, ◌≡◌, refl, sym, ap, ◌∙◌, true, ◌||◌, Option, some, none, List, [],
  ◌∷◌, ◌++◌, arith, All, map, ltb, if-eq, Bool-cases, inl, inr, ok, Returns,
}
use godot_dn_dsimulator.Base.Int.{ℤ, pos, negsuc}
use godot_dn_dsimulator.Base.Text.{Text}
use godot_dn_dsimulator.Actors.Kinds.{MovementMode}
use godot_dn_dsimulator.Spatial.Model.{
  GridCell, same_cell, cell_leb, SquareGridSpace, contains, range_from, rows, cells,
}
use godot_dn_dsimulator.Spatial.State.{SpatialPlacement, SpatialState, has_cell}
use godot_dn_dsimulator.Spatial.Policy.{MovementPolicy}
use godot_dn_dsimulator.Base.Sort.{sort}
use godot_dn_dsimulator.Spatial.Geometry.{candidates, distance_between_cells, neighboring_cells}
use godot_dn_dsimulator.Spatial.Search.{Search, Progress, find_visit, begin, explore}
use godot_dn_dsimulator.Spatial.Search.Table.{same_cell_iff, same_cell_refl}
use godot_dn_dsimulator.Spatial.Search.Ends.{IsTotal, IsGood, explore-Ends}
use godot_dn_dsimulator.Spatial.Search.Expand.{has_cell_self}
use godot_dn_dsimulator.Spatial.Steps.{try_step}
use godot_dn_dsimulator.Spatial.Steps.Neighbors.{neighbor_inside}
use godot_dn_dsimulator.Spatial.Steps.Legal.{try_step-eq-some}
use godot_dn_dsimulator.Spatial.Steps.Total.{
  IsInside, IsInside-contains, legal-IsInside, try_step-Returns,
}
use godot_dn_dsimulator.Spatial.Movement.{heuristic, path_search, reach_search}
use godot_dn_dsimulator.Spatial.Movement.Sound.{IsPlaced}

abbrev at : ℕ → ℕ → GridCell
at x y = record { x = pos x; y = pos y }

row_has :
    (start n x y : ℕ)
    → start ≤ x
    → x < start + n
    → has_cell (at x y) (map (λ i. at i y) (range_from start n)) ≡ true
unfolding has_cell
row_has start zero x y le lt = absurd (omega arith)
row_has start (suc n) x y le lt = elim (Bool-cases (ltb start x)) [
  | inl later ↦ ground (arith, row_has (suc start) n x y)
  | inr here ↦
      let e : x ≡ start = ground arith in
      ground (arith, ap (λ i. same_cell (at x y) (at i y)) e, same_cell_refl (at x y))
]

has_cell-append :
    (c : GridCell) (cs ds : List GridCell)
    → has_cell c (cs ++ ds) ≡ (has_cell c cs || has_cell c ds)
unfolding has_cell
has_cell-append c [] ds = refl
has_cell-append c (e ∷ cs) ds = ground (arith, has_cell-append c cs ds)

rows_has :
    (width start n x y : ℕ)
    → x < width
    → start ≤ y
    → y < start + n
    → has_cell (at x y) (rows width (range_from start n)) ≡ true
rows_has width start zero x y inside le lt = absurd (omega arith)
rows_has width start (suc n) x y inside le lt =
    has_cell-append (at x y) (map (λ i. at i start) (range_from 0 width))
      (rows width (range_from (suc start) n))
    ∙ elim (Bool-cases (ltb start y)) [
      | inl later ↦ ground (arith, rows_has width (suc start) n x y)
      | inr here ↦
          let e : y ≡ start = ground arith in
          let first =
            subst (λ j. has_cell (at x y) (map (λ i. at i j) (range_from 0 width)) ≡ true) e
              (row_has 0 width x y (omega arith) (omega arith)) in
          ground (arith, first)
    ]

-- The space lists every cell that it contains.
pub contains-cells :
    (s : SquareGridSpace) (c : GridCell) → contains s c ≡ true → has_cell c (cells s) ≡ true
unfolding contains cells
contains-cells s c inside = by_parts c.x c.y refl refl
  where
    by_parts :
        (x y : ℤ) → c.x ≡ x → c.y ≡ y → has_cell c (rows s.width (range_from 0 s.height)) ≡ true
    by_parts (pos x) (pos y) ex ey =
        let e : c ≡ at x y = ground (arith, ex, ey) in
        subst (λ d. has_cell d (rows s.width (range_from 0 s.height)) ≡ true) (sym e)
          (rows_has s.width 0 s.height x y (ground arith) (omega arith) (ground arith))
    by_parts (negsuc x) y ex ey = absurd (ground arith)
    by_parts (pos x) (negsuc y) ex ey = absurd (ground arith)

module _ (s : SpatialState) (entity_id : Text) (mode : MovementMode) (policy : MovementPolicy)
    (p : SpatialPlacement) (v : IsPlaced s entity_id policy p) where
  -- where the footprint lies in the space
  abbrev pub Inside : GridCell → Type 0
  Inside c = IsInside s.space p.footprint c

  pub Inside-contains : (c : GridCell) → Inside c → contains s.space c ≡ true
  Inside-contains c h = IsInside-contains s.space p.footprint c h v.anchored

  pub surrounded :
      (c : GridCell)
      → Inside c
      → (around : List GridCell) × (neighboring_cells s.space c policy.allow_diagonal ≡ ok around)
        × All (λ d. has_cell d (cells s.space) ≡ true) around
  surrounded c h =
      let (around, ns) = returns c (Inside-contains c h) in
      (around, ns, all_inside around around ns (has_cell_self around))
    where
      returns :
          (c : GridCell)
          → contains s.space c ≡ true
          → Returns (neighboring_cells s.space c policy.allow_diagonal)
      returns c inside =
          unfold neighboring_cells in
          rw inside (sort cell_leb (candidates s.space c policy.allow_diagonal), refl)

      all_inside :
          (around ds : List GridCell)
          → neighboring_cells s.space c policy.allow_diagonal ≡ ok around
          → All (λ d. has_cell d around ≡ true) ds
          → All (λ d. has_cell d (cells s.space) ≡ true) ds
      all_inside around [] ns h = tt
      all_inside around (d ∷ ds) ns h = (
        contains-cells s.space d (neighbor_inside s.space c policy.allow_diagonal around ns d h.0),
        all_inside around ds ns h.1,
      )

  pub kept :
      (c d : GridCell) (k : ℕ)
      → Inside c
      → try_step s entity_id mode policy c d ≡ ok (some k)
      → Inside d
  kept c d k h tried =
      legal-IsInside s entity_id mode policy p v.found c d h
        (try_step-eq-some s entity_id mode policy p v.found c d k tried).0

  pub path_search-IsTotal :
      (destination : GridCell) (budget : Option ℕ)
      → contains s.space destination ≡ true
      → IsTotal (path_search s entity_id destination mode budget policy) Inside (cells s.space)
  unfolding path_search heuristic distance_between_cells
  path_search-IsTotal destination budget there_inside = record {
    surrounded = surrounded;
    stepped = λ c d h. try_step-Returns s entity_id mode policy p v.found c d h;
    kept = kept;
    estimated = λ c h. rw (Inside-contains c h, there_inside) (_, refl);
  }

  pub reach_search-IsTotal :
      (budget : ℕ) → IsTotal (reach_search s entity_id mode budget policy) Inside (cells s.space)
  unfolding reach_search
  reach_search-IsTotal budget = record {
    surrounded = surrounded;
    stepped = λ c d h. try_step-Returns s entity_id mode policy p v.found c d h;
    kept = kept;
    estimated = λ c h. (0, refl);
  }

  begin-IsGood :
      (q : Search) (n : ℕ) (t : IsTotal q Inside (cells s.space))
      → IsGood q Inside (cells s.space) t (begin p.anchor n)
  unfolding begin find_visit
  begin-IsGood q n t = record {
    tabled = λ c visit f. elim (if-eq (same_cell p.anchor c) (some _) none f) [
      | inl (same, _) ↦ subst Inside ((same_cell_iff p.anchor c).0 same) v.inside
      | inr (_, e) ↦ absurd (cc e)
    ];
    waiting = (v.inside, tt);
  }

  -- The search of a path ends, whatever the destination in the space.
  pub path_search_ends :
      (destination : GridCell) (budget : Option ℕ) (h : ℕ)
      → contains s.space destination ≡ true
      → (fuel : ℕ) × (g : Progress) × ((n : ℕ)
          → fuel ≤ n
          → explore (path_search s entity_id destination mode budget policy) n (begin p.anchor h)
            ≡ ok g)
  path_search_ends destination budget h there_inside =
      let total = path_search-IsTotal destination budget there_inside in
      explore-Ends _ Inside (cells s.space) total (begin p.anchor h) (begin-IsGood _ h total)

  -- And the search of the reachable cells ends.
  pub reach_search_ends :
      (budget h : ℕ)
      → (fuel : ℕ) × (g : Progress) × ((n : ℕ)
          → fuel ≤ n
          → explore (reach_search s entity_id mode budget policy) n (begin p.anchor h) ≡ ok g)
  reach_search_ends budget h =
      let total = reach_search-IsTotal budget in
      explore-Ends _ Inside (cells s.space) total (begin p.anchor h) (begin-IsGood _ h total)
