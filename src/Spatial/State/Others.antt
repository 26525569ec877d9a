-- ===== src/Spatial/State/Others.antt =====
-- The placements that do not move, and the occupants of a cell.
use mathlib.Core.Path.{subst}
use godot_dn_dsimulator.Base.{
  ◌≡◌, refl, sym, Bool, true, false, List, [], ◌∷◌, filter, arith, Bool-cases, inl, inr, all, In,
  In-cons,
}
use godot_dn_dsimulator.Base.Text.{Text, text_eq}
use godot_dn_dsimulator.Base.Keyed.{has_key}
use godot_dn_dsimulator.Spatial.Model.{GridCell, same_cell}
use godot_dn_dsimulator.Spatial.State.{
  SpatialPlacement, entity_key, has_cell, leaves_room, move_placement,
}
use godot_dn_dsimulator.Spatial.Search.Table.{same_cell_iff}
use godot_dn_dsimulator.Spatial.State.Room.{cells_of}

pub has_cell-all :
    (test : GridCell → Bool) (cs : List GridCell) (d : GridCell)
    → all test cs ≡ true
    → has_cell d cs ≡ true
    → test d ≡ true
unfolding has_cell
has_cell-all test [] d h i = absurd (cc i)
has_cell-all test (c ∷ cs) d h i = elim (Bool-cases (same_cell d c)) [
  | inl same ↦
      let e : c ≡ d = sym ((same_cell_iff d c).0 same) in
      subst (λ x. test x ≡ true) e (ground arith)
  | inr other ↦ has_cell-all test cs d (ground arith) (ground arith)
]

-- an occupant of a cell that `is_occupiable` has looked at
pub room_left :
    (id : Text) (blocks : Bool) (c : GridCell) (ps : List SpatialPlacement) (q : SpatialPlacement)
    → all (leaves_room id blocks) (filter (λ x. has_cell c (cells_of x)) ps) ≡ true
    → In q ps
    → has_cell c (cells_of q) ≡ true
    → leaves_room id blocks q ≡ true
room_left id blocks c [] q h i at_q = elim i [ ]
room_left id blocks c (x ∷ ps) q h i at_q = elim (In-cons i) [
  | inl e ↦
      let at_x : has_cell c (cells_of x) ≡ true =
        subst (λ y. has_cell c (cells_of y) ≡ true) e at_q in
      let all_leave = rw at_x at h in
      subst (λ y. leaves_room id blocks y ≡ true) (sym e) (ground arith)
  | inr j ↦ elim (Bool-cases (has_cell c (cells_of x))) [
    | inl at_x ↦ let all_leave = rw at_x at h in room_left id blocks c ps q (ground arith) j at_q
    | inr not_at ↦ let all_leave = rw not_at at h in room_left id blocks c ps q all_leave j at_q
  ]
]

-- nothing moves where the identifier is not found
pub unmoved :
    (id : Text) (anchor : GridCell) (p : SpatialPlacement) (ps : List SpatialPlacement)
    → has_key entity_key id ps ≡ false
    → move_placement id anchor p ps ≡ ps
unfolding move_placement has_key
unmoved id anchor p [] h = refl
unmoved id anchor p (q ∷ ps) h =
    let other : text_eq q.entity_id id ≡ false = ground arith in
    rw (other, unmoved id anchor p ps (ground arith)) refl

pub other_key :
    (id : Text) (ps : List SpatialPlacement) (q : SpatialPlacement)
    → has_key entity_key id ps ≡ false
    → In q ps
    → text_eq q.entity_id id ≡ false
unfolding has_key
other_key id [] q h i = elim i [ ]
other_key id (x ∷ ps) q h i = elim (In-cons i) [
  | inl e ↦ subst (λ y. text_eq y.entity_id id ≡ false) (sym e) (ground arith)
  | inr j ↦ other_key id ps q (ground arith) j
]
