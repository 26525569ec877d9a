-- ===== src/Spatial/State/Occupancy.antt =====
-- The cells that the placements of a state take, as `SpatialState.__post_init__` counts them.
use mathlib.Core.Path.{subst}
use godot_dn_dsimulator.Base.{
  ◌≡◌, refl, sym, ap, ◌∙◌, Bool, true, false, not, ◌&&◌, ◌||◌, List, [], ◌∷◌, map, arith, ok,
  >>=-eq-ok, ok-injective, Returns, guard, guard-eq-ok, validation_error, if◌then◌else◌, Bool-cases,
  inl, inr, all,
}
use godot_dn_dsimulator.Base.Int.{ℤ, ◌+ℤ◌, +ℤ_parts, eq_of_parts}
use godot_dn_dsimulator.Spatial.Model.{
  TerrainCell, GridCell, GridOffset, offset, same_cell, SquareGridSpace, contains, cell_at,
  terrain_at,
}
use godot_dn_dsimulator.Spatial.State.{has_cell, occupy}
use godot_dn_dsimulator.Spatial.Search.Table.{same_cell_iff, same_cell_refl}

-- two lists of cells that have none in common
abbrev pub AreApart : List GridCell → List GridCell → Type 0
AreApart xs ys = (c : GridCell) → has_cell c xs ≡ true → has_cell c ys ≡ true → ⊥

-- a cell that a placement may take
pub record MayTake (s : SquareGridSpace) (blocks : Bool) (occupancy : List GridCell) (c : GridCell)
    : Type 0 where
  pub inside : contains s c ≡ true
  pub passable : ((terrain_at s c).blocks_movement && blocks) ≡ false
  pub untaken : (has_cell c occupancy && blocks) ≡ false

-- the occupancy for the cells that follow
abbrev taken : Bool → GridCell → List GridCell → List GridCell
taken blocks c occupancy = if blocks then c ∷ occupancy else occupancy

pub cell_at-Returns :
    (s : SquareGridSpace) (c : GridCell) → contains s c ≡ true → cell_at s c ≡ ok (terrain_at s c)
unfolding cell_at
cell_at-Returns s c h = rw h

pub occupy-cons :
    (s : SquareGridSpace) (blocks : Bool) (occupancy : List GridCell) (c : GridCell)
    (cs occupancy' : List GridCell)
    → occupy s blocks occupancy (c ∷ cs) ≡ ok occupancy'
    → MayTake s blocks occupancy c × (occupy s blocks (taken blocks c occupancy) cs ≡ ok occupancy')
unfolding occupy cell_at
occupy-cons s blocks occupancy c cs occupancy' h =
    let (_, here, h₁) = >>=-eq-ok (guard (contains s c) validation_error) _ h in
    let inside = guard-eq-ok (contains s c) validation_error here in
    let (t, found, h₂) = >>=-eq-ok (cell_at s c) _ h₁ in
    let same : terrain_at s c ≡ t = ok-injective (sym (cell_at-Returns s c inside) ∙ found) in
    let (_, stands, h₃) =
      >>=-eq-ok (guard (not (t.blocks_movement && blocks)) validation_error) _ h₂ in
    let (_, free, h₄) =
      >>=-eq-ok (guard (not (has_cell c occupancy && blocks)) validation_error) _ h₃ in
    let passable = guard-eq-ok (not (t.blocks_movement && blocks)) validation_error stands in
    let untaken = guard-eq-ok (not (has_cell c occupancy && blocks)) validation_error free in
    (record { inside = inside; passable = passed (sym same) passable; untaken = ground arith }, h₄)
  where
    passed :
        {t u : TerrainCell}
        → t ≡ u
        → not (t.blocks_movement && blocks) ≡ true
        → (u.blocks_movement && blocks) ≡ false
    passed {t} {u} e h =
        subst (λ (x : TerrainCell). (x.blocks_movement && blocks) ≡ false) e (ground arith)

occupy-Returns :
    (s : SquareGridSpace) (blocks : Bool) (occupancy : List GridCell) (c : GridCell)
    (cs : List GridCell)
    → MayTake s blocks occupancy c
    → Returns (occupy s blocks (taken blocks c occupancy) cs)
    → Returns (occupy s blocks occupancy (c ∷ cs))
unfolding occupy cell_at
occupy-Returns s blocks occupancy c cs may r = rw (may.inside, may.passable, may.untaken) r

-- A placement that does not block takes no cell from another one.
pub occupy_open :
    (s : SquareGridSpace) (occupancy cs occupancy' : List GridCell)
    → occupy s false occupancy cs ≡ ok occupancy'
    → (occupancy' ≡ occupancy) × (all (contains s) cs ≡ true)
unfolding occupy
occupy_open s occupancy [] occupancy' h = (ok-injective (sym h), refl)
occupy_open s occupancy (c ∷ cs) occupancy' h =
    let (may, h₁) = occupy-cons s false occupancy c cs occupancy' h in
    let (same, later) = occupy_open s occupancy cs occupancy' h₁ in
    (same, rw (may.inside, later) refl)

pub occupy_open-Returns :
    (s : SquareGridSpace) (occupancy cs : List GridCell)
    → all (contains s) cs ≡ true
    → occupy s false occupancy cs ≡ ok occupancy
unfolding occupy
occupy_open-Returns s occupancy [] h = refl
occupy_open-Returns s occupancy (c ∷ cs) h =
    let may : MayTake s false occupancy c = record {
      inside = ground arith;
      passable = ground arith;
      untaken = ground arith;
    } in
    let (o, r) =
      occupy-Returns s false occupancy c cs may
        (occupancy, occupy_open-Returns s occupancy cs (ground arith)) in
    r ∙ ap ok (occupy_open s occupancy (c ∷ cs) o r).0

-- The cells of a blocking placement are taken from then on.
pub has_cell-occupy :
    (s : SquareGridSpace) (occupancy cs occupancy' : List GridCell) (d : GridCell)
    → occupy s true occupancy cs ≡ ok occupancy'
    → has_cell d occupancy' ≡ (has_cell d cs || has_cell d occupancy)
unfolding occupy has_cell
has_cell-occupy s occupancy [] occupancy' d h = ap (has_cell d) (ok-injective (sym h))
has_cell-occupy s occupancy (c ∷ cs) occupancy' d h =
    let (_, h₁) = occupy-cons s true occupancy c cs occupancy' h in
    let later = has_cell-occupy s (c ∷ occupancy) cs occupancy' d h₁ in ground arith

-- They were not taken before.
pub occupy-AreApart :
    (s : SquareGridSpace) (occupancy cs occupancy' : List GridCell)
    → occupy s true occupancy cs ≡ ok occupancy'
    → AreApart cs occupancy
unfolding occupy has_cell
occupy-AreApart s occupancy [] occupancy' h d here there = cc here
occupy-AreApart s occupancy (c ∷ cs) occupancy' h d here there =
    let (may, h₁) = occupy-cons s true occupancy c cs occupancy' h in
    let later = occupy-AreApart s (c ∷ occupancy) cs occupancy' h₁ d in
    elim (Bool-cases (same_cell d c)) [
      | inl same ↦
          let e : d ≡ c = (same_cell_iff d c).0 same in
          let untaken : (has_cell c occupancy && true) ≡ false = may.untaken in
          let taken' : has_cell c occupancy ≡ true =
            subst (λ x. has_cell x occupancy ≡ true) e there in
          ground arith
      | inr other ↦
          let in_rest : has_cell d cs ≡ true = ground arith in
          let in_occupancy : (same_cell d c || has_cell d occupancy) ≡ true = ground arith in
          later in_rest in_occupancy
    ]

abbrev pub at_anchor : GridCell → List GridOffset → List GridCell
at_anchor c os = map (λ o. offset c o.dx o.dy) os

+ℤ-cancel : (a x y : ℤ) → a +ℤ x ≡ a +ℤ y → x ≡ y
+ℤ-cancel a x y e = ground (arith, +ℤ_parts a x, +ℤ_parts a y, eq_of_parts x y)

-- the cells of two offsets are the same at one anchor if they are at another
same_cell-offset :
    (a b : GridCell) (o o' : GridOffset)
    → same_cell (offset b o.dx o.dy) (offset b o'.dx o'.dy) ≡ true
    → same_cell (offset a o.dx o.dy) (offset a o'.dx o'.dy) ≡ true
unfolding offset
same_cell-offset a b o o' h =
    let e = (same_cell_iff _ _).0 h in
    let ex : o.dx ≡ o'.dx = +ℤ-cancel b.x o.dx o'.dx (ap (λ (c : GridCell). c.x) e) in
    let ey : o.dy ≡ o'.dy = +ℤ-cancel b.y o.dy o'.dy (ap (λ (c : GridCell). c.y) e) in
    rw (ex, ey) (same_cell_refl (record { x = a.x +ℤ o'.dx; y = a.y +ℤ o'.dy }))

has_cell-at_anchor :
    (a b : GridCell) (o : GridOffset) (os : List GridOffset)
    → has_cell (offset b o.dx o.dy) (at_anchor b os) ≡ true
    → has_cell (offset a o.dx o.dy) (at_anchor a os) ≡ true
unfolding has_cell
has_cell-at_anchor a b o [] h = cc h
has_cell-at_anchor a b o (o' ∷ os) h =
    elim (Bool-cases (same_cell (offset b o.dx o.dy) (offset b o'.dx o'.dy))) [
      | inl same ↦ let here = same_cell-offset a b o o' same in rw here refl
      | inr other ↦ let later = has_cell-at_anchor a b o os (ground arith) in ground arith
    ]

-- the test on a cell of `is_occupiable`, without the occupants
abbrev pub may_stand : SquareGridSpace → GridCell → Bool
may_stand s c = contains s c && not (terrain_at s c).blocks_movement

-- a cell that is added to two lists that are apart
AreApart-cons :
    (c : GridCell) (cs occupancy : List GridCell)
    → (has_cell c cs ≡ true → ⊥)
    → AreApart cs occupancy
    → AreApart cs (c ∷ occupancy)
unfolding has_cell
AreApart-cons c cs occupancy new apart d here there = elim (Bool-cases (same_cell d c)) [
  | inl same ↦
      let e : d ≡ c = (same_cell_iff d c).0 same in new (subst (λ x. has_cell x cs ≡ true) e here)
  | inr other ↦ apart d here (let t = there in ground arith)
]

has_cell_here : (c : GridCell) (cs : List GridCell) → has_cell c (c ∷ cs) ≡ true
unfolding has_cell
has_cell_here c cs = rw (same_cell_refl c) refl

has_cell_later :
    (c d : GridCell) (cs : List GridCell) → has_cell d cs ≡ true → has_cell d (c ∷ cs) ≡ true
unfolding has_cell
has_cell_later c d cs h = ground arith

apart_untaken :
    (c : GridCell) (cs occupancy : List GridCell)
    → AreApart (c ∷ cs) occupancy
    → (has_cell c occupancy && true) ≡ false
apart_untaken c cs occupancy apart = elim (Bool-cases (has_cell c occupancy)) [
  | inl there ↦ absurd (apart c (has_cell_here c cs) there)
  | inr free ↦ rw free refl
]

-- Cells that were taken in one order may be taken whenever they are apart from those before.
pub occupy_again :
    (s : SquareGridSpace) (occupancy other cs occupancy' : List GridCell)
    → occupy s true occupancy cs ≡ ok occupancy'
    → AreApart cs other
    → Returns (occupy s true other cs)
unfolding occupy
occupy_again s occupancy other [] occupancy' h apart = (other, refl)
occupy_again s occupancy other (c ∷ cs) occupancy' h apart =
    let (may, h₁) = occupy-cons s true occupancy c cs occupancy' h in
    let new : has_cell c cs ≡ true → ⊥ =
      λ i. occupy-AreApart s (c ∷ occupancy) cs occupancy' h₁ c i (has_cell_here c occupancy) in
    occupy-Returns s true other c cs
      (record {
        inside = may.inside;
        passable = may.passable;
        untaken = apart_untaken c cs other apart;
      })
      (occupy_again s (c ∷ occupancy) (c ∷ other) cs occupancy' h₁
        (AreApart-cons c cs other new (λ d i. apart d (has_cell_later c d cs i))))

-- So may those of a footprint at another anchor, where its cells may stand.
pub occupy_moved :
    (s : SquareGridSpace) (a b : GridCell) (os : List GridOffset)
    (occupancy other occupancy' : List GridCell)
    → occupy s true occupancy (at_anchor a os) ≡ ok occupancy'
    → all (may_stand s) (at_anchor b os) ≡ true
    → AreApart (at_anchor b os) other
    → Returns (occupy s true other (at_anchor b os))
unfolding occupy
occupy_moved s a b [] occupancy other occupancy' h stand apart = (other, refl)
occupy_moved s a b (o ∷ os) occupancy other occupancy' h stand apart =
    let c = offset a o.dx o.dy in
    let d = offset b o.dx o.dy in
    let (_, h₁) = occupy-cons s true occupancy c (at_anchor a os) occupancy' h in
    let new : has_cell d (at_anchor b os) ≡ true → ⊥ = λ i.
      occupy-AreApart s (c ∷ occupancy) (at_anchor a os) occupancy' h₁ c
        (has_cell-at_anchor a b o os i) (has_cell_here c occupancy) in
    occupy-Returns s true other d (at_anchor b os)
      (record {
        inside = ground arith;
        passable = ground arith;
        untaken = apart_untaken d (at_anchor b os) other apart;
      })
      (occupy_moved s a b os (c ∷ occupancy) (d ∷ other) occupancy' h₁ (ground arith) (
        AreApart-cons d (at_anchor b os) other new
          (λ e i. apart e (has_cell_later d e (at_anchor b os) i))))
