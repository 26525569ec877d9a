-- ===== src/Spatial/Search/Table.antt =====
-- The table of the search: reads after writes, and the comparison of cells.
use godot_dn_dsimulator.Base.{◌≡◌, refl, ◌↔◌, true, some, List, [], ◌∷◌, arith, if◌then◌else◌}
use godot_dn_dsimulator.Base.Int.{ℤ, eqb_ℤ}
use godot_dn_dsimulator.Spatial.Model.{GridCell, same_cell}
use godot_dn_dsimulator.Spatial.Search.{Visit, find_visit, put_visit}

eqb_ℤ→eq : (a b : ℤ) → eqb_ℤ a b ≡ true → a ≡ b
eqb_ℤ→eq a b h = ground arith

pub same_cell→eq : (a b : GridCell) → same_cell a b ≡ true → a ≡ b
unfolding same_cell
same_cell→eq a b h = ground (arith, eqb_ℤ→eq a.x b.x, eqb_ℤ→eq a.y b.y)

pub same_cell_refl : (a : GridCell) → same_cell a a ≡ true
unfolding same_cell
same_cell_refl a = ground arith

pub same_cell_iff : (a b : GridCell) → (same_cell a b ≡ true) ↔ (a ≡ b)
same_cell_iff a b = (same_cell→eq a b, λ e. rw e (same_cell_refl b))

-- An assignment is read back, and leaves every other cell alone.
pub find_visit-put_visit :
    (c : GridCell) (u : Visit) (vs : List Visit)
    → find_visit c (put_visit u vs) ≡ (if same_cell u.cell c then some u else find_visit c vs)
unfolding find_visit put_visit
find_visit-put_visit c u [] = refl
find_visit-put_visit c u (v ∷ vs) = ground (
  arith,
  find_visit-put_visit c u vs,
  same_cell_iff v.cell c,
  same_cell_iff v.cell u.cell,
  same_cell_iff u.cell c,
)

-- What is found is the entry of the cell that was asked for.
pub find_visit-cell :
    (c : GridCell) (vs : List Visit) (v : Visit) → find_visit c vs ≡ some v → v.cell ≡ c
unfolding find_visit
find_visit-cell c [] v h = cc
find_visit-cell c (u ∷ vs) v h = ground (arith, same_cell_iff u.cell c, find_visit-cell c vs v)
