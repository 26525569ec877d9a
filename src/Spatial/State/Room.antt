-- ===== src/Spatial/State/Room.antt =====
-- Placements that leave each other room, in any order and after a move.
use mathlib.Core.Path.{subst}
use godot_dn_dsimulator.Base.{
  ◌≡◌, refl, sym, ap, ◌∙◌, Bool, true, false, ◌||◌, List, [], ◌∷◌, arith, ok, >>=-eq-ok, Returns,
  Bool-cases, ◌⊎◌, inl, inr, All, ◌>>=◌,
}
use godot_dn_dsimulator.Base.Sort.{sort, insert}
use godot_dn_dsimulator.Spatial.Model.{GridCell, SquareGridSpace}
use godot_dn_dsimulator.Spatial.State.{
  SpatialPlacement, has_cell, occupy, occupy_all, occupied_cells,
}
use godot_dn_dsimulator.Spatial.State.Occupancy.{
  AreApart, occupy_open, occupy_open-Returns, has_cell-occupy, occupy-AreApart, occupy_again,
}

-- the cells where a placement stands
abbrev pub cells_of : SpatialPlacement → List GridCell
cells_of p = occupied_cells p p.anchor

-- an occupancy with nothing but what another one has, and some cells more
abbrev pub HasAtMost : List GridCell → List GridCell → List GridCell → Type 0
HasAtMost other occupancy extra =
    (d : GridCell)
    → has_cell d other ≡ true
    → (has_cell d occupancy ≡ true) ⊎ (has_cell d extra ≡ true)

-- a placement that leaves some cells alone
abbrev pub Leaves : List GridCell → SpatialPlacement → Type 0
Leaves extra q = q.blocks_movement ≡ true → AreApart (cells_of q) extra

-- a round of the loop over the placements, again over another occupancy
place_again :
    (s : SquareGridSpace) (q : SpatialPlacement) (blocks : Bool)
    (occupancy other extra occupancy' : List GridCell)
    → occupy s blocks occupancy (cells_of q) ≡ ok occupancy'
    → (blocks ≡ true → AreApart (cells_of q) extra)
    → HasAtMost other occupancy extra
    → (other' : List GridCell) × (occupy s blocks other (cells_of q) ≡ ok other')
      × HasAtMost other' occupancy' extra
place_again s q false occupancy other extra occupancy' h leaves most =
    let (same, inside) = occupy_open s occupancy (cells_of q) occupancy' h in
    (
      other,
      occupy_open-Returns s other (cells_of q) inside,
      subst (λ x. HasAtMost other x extra) (sym same) most,
    )
place_again s q true occupancy other extra occupancy' h leaves most =
    let apart : AreApart (cells_of q) other = λ d i j. elim (most d j) [
      | inl before ↦ occupy-AreApart s occupancy (cells_of q) occupancy' h d i before
      | inr more ↦ leaves refl d i more
    ] in
    let (other', r) = occupy_again s occupancy other (cells_of q) occupancy' h apart in
    (other', r, λ d i. at_most d other' r i)
  where
    at_most :
        (d : GridCell) (other' : List GridCell)
        → occupy s true other (cells_of q) ≡ ok other'
        → has_cell d other' ≡ true
        → (has_cell d occupancy' ≡ true) ⊎ (has_cell d extra ≡ true)
    at_most d other' r i =
        let e = has_cell-occupy s other (cells_of q) other' d r in
        let e' = has_cell-occupy s occupancy (cells_of q) occupancy' d h in
        elim (Bool-cases (has_cell d (cells_of q))) [
          | inl here ↦ inl (e' ∙ rw here refl)
          | inr not_here ↦
              let j : has_cell d other ≡ true = ground arith in
              elim (most d j) [
                | inl before ↦ let o : has_cell d occupancy ≡ true = before in inl (ground arith)
                | inr more ↦ inr more
              ]
        ]

-- The loop succeeds over any occupancy with at most the cells of one where it did, and cells that the
-- placements leave alone.
pub occupy_all_again :
    (s : SquareGridSpace) (ps : List SpatialPlacement)
    (occupancy other extra occupancy' : List GridCell)
    → occupy_all s occupancy ps ≡ ok occupancy'
    → All (Leaves extra) ps
    → HasAtMost other occupancy extra
    → Returns (occupy_all s other ps)
unfolding occupy_all
occupy_all_again s [] occupancy other extra occupancy' h leave most = (other, refl)
occupy_all_again s (q ∷ ps) occupancy other extra occupancy' h leave most =
    let (o, here, later) = >>=-eq-ok (occupy s q.blocks_movement occupancy (cells_of q)) _ h in
    let (o', here', most') =
      place_again s q q.blocks_movement occupancy other extra o here leave.0 most in
    rw here' (occupy_all_again s ps o o' extra occupancy' later leave.1 most')

pub nothing_more : (occupancy : List GridCell) → HasAtMost occupancy occupancy []
nothing_more occupancy d i = inl i

leave_nothing : (ps : List SpatialPlacement) → All (Leaves []) ps
unfolding has_cell
leave_nothing [] = tt
leave_nothing (q ∷ ps) = ((λ blocks d i j. cc j), leave_nothing ps)

-- the cells that a placement takes from the others
unfoldable added : Bool → List GridCell → List GridCell
added true cs = cs
added false cs = []

has_cell-added :
    (s : SquareGridSpace) (blocks : Bool) (occupancy cs occupancy' : List GridCell) (d : GridCell)
    → occupy s blocks occupancy cs ≡ ok occupancy'
    → has_cell d occupancy' ≡ (has_cell d (added blocks cs) || has_cell d occupancy)
unfolding added has_cell
has_cell-added s true occupancy cs occupancy' d h = has_cell-occupy s occupancy cs occupancy' d h
has_cell-added s false occupancy cs occupancy' d h =
    ap (has_cell d) (occupy_open s occupancy cs occupancy' h).0

-- a placement that stood after another one may stand before it
swap :
    (s : SquareGridSpace) (x y : SpatialPlacement) (ps : List SpatialPlacement)
    (occupancy : List GridCell)
    → Returns (occupy_all s occupancy (x ∷ y ∷ ps))
    → Returns (occupy_all s occupancy (y ∷ x ∷ ps))
unfolding occupy_all has_cell
swap s x y ps occupancy (o, h) =
    let (o₁, hx, h₁) = >>=-eq-ok (occupy s x.blocks_movement occupancy (cells_of x)) _ h in
    let (o₂, hy, h₂) = >>=-eq-ok (occupy s y.blocks_movement o₁ (cells_of y)) _ h₁ in
    let of_y = added y.blocks_movement (cells_of y) in
    let (o₃, hy', _) =
      place_again s y y.blocks_movement o₁ occupancy [] o₂ hy (λ blocks d i j. cc j)
        (λ d i. inl (kept x.blocks_movement (cells_of x) occupancy o₁ d hx i)) in
    let (o₄, hx', most) =
      place_again s x x.blocks_movement occupancy o₃ of_y o₁ hx
        (apart_from y.blocks_movement x.blocks_movement o₁ o₂ hx hy)
        (λ d i. one_of y.blocks_movement occupancy o₃ d hy' i) in
    let most' : HasAtMost o₄ o₂ [] = λ d i. elim (most d i) [
      | inl first ↦ inl (kept y.blocks_movement (cells_of y) o₁ o₂ d hy first)
      | inr second ↦
          inl (has_cell-added s y.blocks_movement o₁ (cells_of y) o₂ d hy ∙ rw second refl)
    ] in
    rw (hy', hx') (occupy_all_again s ps o₂ o₄ [] o h₂ (leave_nothing ps) most')
  where
    kept :
        (blocks : Bool) (cs before after : List GridCell) (d : GridCell)
        → occupy s blocks before cs ≡ ok after
        → has_cell d before ≡ true
        → has_cell d after ≡ true
    kept blocks cs before after d h i =
        let e = has_cell-added s blocks before cs after d h in ground arith

    one_of :
        (blocks : Bool) (before after : List GridCell) (d : GridCell)
        → occupy s blocks before (cells_of y) ≡ ok after
        → has_cell d after ≡ true
        → (has_cell d before ≡ true) ⊎ (has_cell d (added blocks (cells_of y)) ≡ true)
    one_of blocks before after d h i =
        let e = has_cell-added s blocks before (cells_of y) after d h in
        elim (Bool-cases (has_cell d before)) [
          | inl old ↦ inl old
          | inr new ↦ let old : has_cell d before ≡ false = new in inr (ground arith)
        ]

    apart_from :
        (blocks x_blocks : Bool) (o₁ o₂ : List GridCell)
        → occupy s x_blocks occupancy (cells_of x) ≡ ok o₁
        → occupy s blocks o₁ (cells_of y) ≡ ok o₂
        → x_blocks ≡ true
        → AreApart (cells_of x) (added blocks (cells_of y))
    apart_from false x_blocks o₁ o₂ hx hy is_true d i j = unfold added in cc j
    apart_from true x_blocks o₁ o₂ hx hy is_true d i j =
        unfold added in
        let hx' : occupy s true occupancy (cells_of x) ≡ ok o₁ =
          subst (λ b. occupy s b occupancy (cells_of x) ≡ ok o₁) is_true hx in
        let e = has_cell-occupy s occupancy (cells_of x) o₁ d hx' in
        occupy-AreApart s o₁ (cells_of y) o₂ hy d j (ground arith)

-- The order of the placements does not matter.
insert_place :
    (s : SquareGridSpace) (le : SpatialPlacement → SpatialPlacement → Bool) (x : SpatialPlacement)
    (ps : List SpatialPlacement) (occupancy : List GridCell)
    → Returns (occupy_all s occupancy (x ∷ ps))
    → Returns (occupy_all s occupancy (insert le x ps))
unfolding occupy_all insert
insert_place s le x [] occupancy h = h
insert_place s le x (y ∷ ps) occupancy h = elim (Bool-cases (le x y)) [
  | inl first ↦ rw first h
  | inr later ↦
      let (o, h') = swap s x y ps occupancy h in
      let (o₁, hy, h₁) = >>=-eq-ok (occupy s y.blocks_movement occupancy (cells_of y)) _ h' in
      rw (later, hy) (insert_place s le x ps o₁ (o, h₁))
]

pub sort_places :
    (s : SquareGridSpace) (le : SpatialPlacement → SpatialPlacement → Bool)
    (ps : List SpatialPlacement) (occupancy : List GridCell)
    → Returns (occupy_all s occupancy ps)
    → Returns (occupy_all s occupancy (sort le ps))
unfolding occupy_all sort
sort_places s le [] occupancy h = h
sort_places s le (x ∷ ps) occupancy (o, h) =
    let (o₁, hx, h₁) = >>=-eq-ok (occupy s x.blocks_movement occupancy (cells_of x)) _ h in
    let (o₂, h₂) = sort_places s le ps o₁ (o, h₁) in
    insert_place s le x (sort le ps) occupancy
      (o₂, ap (λ m. m >>= λ o'. occupy_all s o' (sort le ps)) hx ∙ h₂)
