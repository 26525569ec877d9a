-- ===== src/Spatial/Steps/Neighbors.antt =====
-- The neighbours of a cell: the cells of the space that one step along an axis or a diagonal leads to.
use mathlib.Core.Path.{subst}
use godot_dn_dsimulator.Base.{
  ◌≤◌, ◌≡◌, refl, sym, ap, ◌∙◌, Bool, true, false, not, ◌&&◌, ◌||◌, List, [], ◌∷◌, arith, map,
  filter, Bool-cases, ◌⊎◌, inl, inr, In, here, there, All, ok, >>=-eq-ok, ok-injective, guard-eq-ok,
  guard, validation_error,
}
use godot_dn_dsimulator.Base.Int.{ℤ, pos, negsuc, ◌+ℤ◌, eqb_ℤ, +ℤ_parts, eq_of_parts}
use godot_dn_dsimulator.Base.Sort.{sort, insert}
use godot_dn_dsimulator.Spatial.Model.{
  GridCell, offset, same_cell, cell_leb, SquareGridSpace, contains,
}
use godot_dn_dsimulator.Spatial.State.{has_cell}
use godot_dn_dsimulator.Spatial.Geometry.{
  abs_diff_ℤ, straight_and_diagonal, is_wanted, offset_by, candidates, neighboring_cells,
}
use godot_dn_dsimulator.Spatial.Search.Table.{same_cell_iff, same_cell_refl}
use godot_dn_dsimulator.Spatial.Steps.{is_near, is_diagonal}

has_cell-insert :
    (le : GridCell → GridCell → Bool) (c d : GridCell) (cs : List GridCell)
    → has_cell c (insert le d cs) ≡ has_cell c (d ∷ cs)
unfolding has_cell insert
has_cell-insert le c d [] = refl
has_cell-insert le c d (e ∷ cs) = ground (arith, has_cell-insert le c d cs)

pub has_cell-sort :
    (le : GridCell → GridCell → Bool) (c : GridCell) (cs : List GridCell)
    → has_cell c (sort le cs) ≡ has_cell c cs
unfolding has_cell sort
has_cell-sort le c [] = refl
has_cell-sort le c (d ∷ cs) =
    ground (arith, has_cell-insert le c d (sort le cs), has_cell-sort le c cs)

has_cell-filter :
    (test : GridCell → Bool) (c : GridCell) (cs : List GridCell)
    → has_cell c (filter test cs) ≡ (test c && has_cell c cs)
unfolding has_cell
has_cell-filter test c [] = ground arith
has_cell-filter test c (d ∷ cs) = elim (Bool-cases (same_cell c d)) [
  | inl same ↦
      let e : test c ≡ test d = ap test ((same_cell_iff c d).0 same) in
      ground (arith, has_cell-filter test c cs)
  | inr other ↦ ground (arith, has_cell-filter test c cs)
]

-- the three integers at a distance of at most 1
unit_cases :
    (a b : ℤ) → abs_diff_ℤ b a ≤ 1 → (b ≡ a +ℤ negsuc 0) ⊎ (b ≡ a +ℤ pos 0) ⊎ (b ≡ a +ℤ pos 1)
unit_cases a b le = grind (
  arith,
  +ℤ_parts a (negsuc 0),
  +ℤ_parts a (pos 0),
  +ℤ_parts a (pos 1),
  eq_of_parts b (a +ℤ negsuc 0),
  eq_of_parts b (a +ℤ pos 0),
  eq_of_parts b (a +ℤ pos 1),
)

has_cell-map :
    (f : ℤ × ℤ → GridCell) (test : ℤ × ℤ → Bool) (xs : List (ℤ × ℤ)) {a : ℤ × ℤ}
    → In a xs
    → test a ≡ true
    → has_cell (f a) (map f (filter test xs)) ≡ true
unfolding has_cell
has_cell-map f test [] i t = elim i [ ]
has_cell-map f test (x ∷ xs) here t = rw t (ground (arith, same_cell_refl (f x)))
has_cell-map f test (x ∷ xs) (there i) t = elim (Bool-cases (test x)) [
  | inl kept ↦ rw kept (ground (arith, has_cell-map f test xs i t))
  | inr dropped ↦ rw dropped (has_cell-map f test xs i t)
]

has_cell-map_none :
    (f : ℤ × ℤ → GridCell) (test : ℤ × ℤ → Bool) (c : GridCell) (xs : List (ℤ × ℤ))
    → All (λ x. same_cell c (f x) ≡ false) xs
    → has_cell c (map f (filter test xs)) ≡ false
unfolding has_cell
has_cell-map_none f test c [] h = refl
has_cell-map_none f test c (x ∷ xs) h = elim (Bool-cases (test x)) [
  | inl kept ↦ rw kept (ground (arith, h.0, has_cell-map_none f test c xs h.1))
  | inr dropped ↦ rw dropped (has_cell-map_none f test c xs h.1)
]

-- a step along an axis changes a coordinate
moved_x : (a : ℤ) → (eqb_ℤ a (a +ℤ pos 1) ≡ false) × (eqb_ℤ a (a +ℤ negsuc 0) ≡ false)
moved_x a = (ground (arith, +ℤ_parts a (pos 1)), ground (arith, +ℤ_parts a (negsuc 0)))

no_step_stays :
    (c : GridCell) → All (λ x. same_cell c (offset_by c x) ≡ false) straight_and_diagonal
unfolding same_cell offset
no_step_stays c =
    let (xr, xl) = moved_x c.x in
    let (yu, yd) = moved_x c.y in
    (
      ground (arith, xl),
      (
        ground (arith, yd),
        (
          ground (arith, xr),
          (
            ground (arith, xl),
            (
              ground (arith, xr),
              (ground (arith, xl), (ground (arith, yu), (ground (arith, xr), tt))),
            ),
          ),
        ),
      ),
    )

-- the cells that the offsets lead to
abbrev around : GridCell → Bool → List GridCell
around c allow = map (offset_by c) (filter (is_wanted allow) straight_and_diagonal)

reaches :
    (c d : GridCell) (allow : Bool) (i j : ℤ)
    → In (i, j) straight_and_diagonal
    → is_wanted allow (i, j) ≡ true
    → d.x ≡ c.x +ℤ i
    → d.y ≡ c.y +ℤ j
    → has_cell d (around c allow) ≡ true
unfolding offset
reaches c d allow i j stands wanted ex ey =
    let e : d ≡ offset c i j = ground (arith, ex, ey) in
    subst (λ x. has_cell x (around c allow) ≡ true) (sym e)
      (has_cell-map (offset_by c) (is_wanted allow) straight_and_diagonal stands wanted)

diagonal_wanted :
    (c d : GridCell) (allow : Bool)
    → (not (is_diagonal c d) || allow) ≡ true
    → eqb_ℤ c.x d.x ≡ false
    → eqb_ℤ c.y d.y ≡ false
    → allow ≡ true
diagonal_wanted c d allow h ex ey = ground arith

near_reaches :
    (c d : GridCell) (allow : Bool)
    → is_near c d ≡ true
    → same_cell c d ≡ false
    → (not (is_diagonal c d) || allow) ≡ true
    → has_cell d (around c allow) ≡ true
unfolding same_cell
near_reaches c d allow near other diagonal =
    let (xr, xl) = moved_x c.x in
    let (yu, yd) = moved_x c.y in
    elim (unit_cases c.x d.x (ground arith)) [
      | inl left ↦ elim (unit_cases c.y d.y (ground arith)) [
        | inl down ↦ reaches c d allow _ _ here (corner (rw left xl) (rw down yd)) left down
        | inr (inl level) ↦
            reaches c d allow _ _ (there (there (there here))) (ground arith) left level
        | inr (inr up) ↦
            reaches c d allow _ _ (there (there (there (there (there here)))))
              (corner (rw left xl) (rw up yu)) left up
      ]
      | inr (inl same_x) ↦ elim (unit_cases c.y d.y (ground arith)) [
        | inl down ↦ reaches c d allow _ _ (there here) (ground arith) same_x down
        | inr (inl level) ↦
            absurd (ground (arith, other, +ℤ_parts c.x (pos 0), +ℤ_parts c.y (pos 0)))
        | inr (inr up) ↦
            reaches c d allow _ _ (there (there (there (there (there (there here))))))
              (ground arith) same_x up
      ]
      | inr (inr right) ↦ elim (unit_cases c.y d.y (ground arith)) [
        | inl down ↦
            reaches c d allow _ _ (there (there here)) (corner (rw right xr) (rw down yd)) right
              down
        | inr (inl level) ↦
            reaches c d allow _ _ (there (there (there (there here)))) (ground arith) right level
        | inr (inr up) ↦
            reaches c d allow _ _ (there (there (there (there (there (there (there here)))))))
              (corner (rw right xr) (rw up yu)) right up
      ]
    ]
  where
    corner : eqb_ℤ c.x d.x ≡ false → eqb_ℤ c.y d.y ≡ false → (allow || false || false) ≡ true
    corner ex ey = ground (arith, diagonal_wanted c d allow diagonal ex ey)

module _ (s : SquareGridSpace) (c : GridCell) (allow : Bool) (found : List GridCell)
    (returned : neighboring_cells s c allow ≡ ok found) where
  pub neighbors_inside : contains s c ≡ true
  unfolding neighboring_cells
  neighbors_inside =
      let (_, inside, _) = >>=-eq-ok (guard (contains s c) validation_error) _ returned in
      guard-eq-ok (contains s c) validation_error inside

  neighbors_lem : (d : GridCell) → has_cell d found ≡ (contains s d && has_cell d (around c allow))
  unfolding neighboring_cells candidates
  neighbors_lem d =
      let (_, _, listed) = >>=-eq-ok (guard (contains s c) validation_error) _ returned in
      ap (has_cell d) (sym (ok-injective listed))
      ∙ has_cell-sort cell_leb d (candidates s c allow)
      ∙ has_cell-filter (contains s) d (around c allow)

  -- A neighbour lies in the space and is another cell.
  pub neighbor_inside : (d : GridCell) → has_cell d found ≡ true → contains s d ≡ true
  neighbor_inside d near = ground (arith, neighbors_lem d)

  pub neighbor_other : (d : GridCell) → has_cell d found ≡ true → same_cell c d ≡ false
  neighbor_other d near = elim (Bool-cases (same_cell c d)) [
    | inl same ↦
        let e : c ≡ d = (same_cell_iff c d).0 same in
        let none_stays : has_cell d (around c allow) ≡ false =
          subst (λ x. has_cell x (around c allow) ≡ false) e
            (has_cell-map_none (offset_by c) (is_wanted allow) c straight_and_diagonal
              (no_step_stays c)) in
        absurd (ground (arith, neighbors_lem d))
    | inr other ↦ other
  ]

  -- Every other cell of the space that is near is a neighbour.
  pub near-neighbor :
      (d : GridCell)
      → contains s d ≡ true
      → is_near c d ≡ true
      → same_cell c d ≡ false
      → (not (is_diagonal c d) || allow) ≡ true
      → has_cell d found ≡ true
  near-neighbor d inside near other diagonal =
      ground (arith, neighbors_lem d, near_reaches c d allow near other diagonal)
