-- ===== src/Spatial/State/Vacancy.antt =====
-- A placement may move to any anchor that is occupiable.
use mathlib.Core.Path.{subst}
use godot_dn_dsimulator.Base.{
  ℕ, ◌≡◌, refl, sym, ap, ◌∙◌, Bool, true, false, some, List, [], ◌∷◌, arith, ok, >>=-eq-ok,
  ok-injective, Returns, Bool-cases, ◌⊎◌, inl, inr, all, All, In, In-All, All-In, ◌>>=◌, guard,
  guard-eq-ok, validation_error, or_raise-eq-ok,
}
use godot_dn_dsimulator.Base.Text.{Text, text_eq, text_eq_iff}
use godot_dn_dsimulator.Base.Sort.{sort}
use godot_dn_dsimulator.Base.Keyed.{
  find_key, has_key, unique_keys, key_leb, unique_keys-sort, unique_keys-replace_key, find_key-key,
}
use godot_dn_dsimulator.Spatial.Model.{GridCell, contains}
use godot_dn_dsimulator.Spatial.State.{
  SpatialPlacement, SpatialState, entity_key, has_cell, occupy, occupy_all, occupied_cells,
  occupants, is_free, is_occupiable, moved, move_placement, placement, spatial_state, with_anchor,
}
use godot_dn_dsimulator.Spatial.State.Moved.{move_placement-replace_key}
use godot_dn_dsimulator.Spatial.State.Occupancy.{
  AreApart, may_stand, occupy_open, occupy_open-Returns, has_cell-occupy, occupy_moved,
}
use godot_dn_dsimulator.Spatial.State.Room.{
  cells_of, HasAtMost, Leaves, occupy_all_again, sort_places,
}
use godot_dn_dsimulator.Spatial.State.Others.{has_cell-all, room_left, unmoved, other_key}

-- a state that its constructor has checked
pub record IsState (s : SpatialState) : Type 0 where
  pub distinct : unique_keys entity_key s.placements ≡ true
  pub roomy : Returns (occupy_all s.space [] s.placements)

pub spatial_state-IsState : (raw s : SpatialState) → spatial_state raw ≡ ok s → IsState s
unfolding spatial_state
spatial_state-IsState raw s h =
    let (_, distinct, h₁) =
      >>=-eq-ok (guard (unique_keys entity_key raw.placements) validation_error) _ h in
    let (o, room, h₂) = >>=-eq-ok (occupy_all raw.space [] raw.placements) _ h₁ in
    subst IsState (ok-injective h₂) (record {
      distinct =
          unique_keys-sort entity_key (key_leb entity_key) raw.placements
          ∙ guard-eq-ok (unique_keys entity_key raw.placements) validation_error distinct;
      roomy = sort_places raw.space (key_leb entity_key) raw.placements [] (o, room);
    })

module _ (s : SpatialState) (id : Text) (p : SpatialPlacement) (anchor : GridCell) where
  -- the cells after the move
  abbrev goal : List GridCell
  goal = occupied_cells p anchor

  -- a placement that is not the one that moves, and is not in its way
  abbrev GivesWay : SpatialPlacement → Type 0
  GivesWay q = text_eq q.entity_id id ≡ false → p.blocks_movement ≡ true → Leaves goal q

  gives_way :
      (q : SpatialPlacement)
      → all (is_free s p.blocks_movement id) goal ≡ true
      → In q s.placements
      → GivesWay q
  unfolding is_free occupants
  gives_way q free i other blocks q_blocks d at_q at_goal =
      let free_d = has_cell-all (is_free s p.blocks_movement id) goal d free at_goal in
      let room = room_left id p.blocks_movement d s.placements q (ground arith) i at_q in
      ground arith

  all_give_way : all (is_free s p.blocks_movement id) goal ≡ true → All GivesWay s.placements
  all_give_way free = In-All GivesWay s.placements (λ q i. gives_way q free i)

  -- once the placement has moved: the others stand as before
  after_move :
      (ps : List SpatialPlacement) (occupancy other occupancy' : List GridCell)
      → has_key entity_key id ps ≡ false
      → occupy_all s.space occupancy ps ≡ ok occupancy'
      → All GivesWay ps
      → p.blocks_movement ≡ true
      → HasAtMost other occupancy goal
      → Returns (occupy_all s.space other (move_placement id anchor p ps))
  after_move ps occupancy other occupancy' no_more h give blocks most =
      subst (λ qs. Returns (occupy_all s.space other qs)) (sym (unmoved id anchor p ps no_more))
        (occupy_all_again s.space ps occupancy other goal occupancy' h
          (In-All (Leaves goal) ps
            (λ q i. All-In GivesWay ps give i (other_key id ps q no_more i) blocks))
          most)

  may_stand-all :
      (cs : List GridCell)
      → all (is_free s p.blocks_movement id) cs ≡ true
      → all (may_stand s.space) cs ≡ true
  unfolding is_free
  may_stand-all [] h = refl
  may_stand-all (c ∷ cs) h = ground (arith, may_stand-all cs)

  contains-all :
      (cs : List GridCell) → all (may_stand s.space) cs ≡ true → all (contains s.space) cs ≡ true
  contains-all [] h = refl
  contains-all (c ∷ cs) h = ground (arith, contains-all cs)

  -- the round of the placement that moves, and the rounds that follow
  at_mover :
      (blocks : Bool) (ps : List SpatialPlacement) (occupancy o occupancy' : List GridCell)
      → p.blocks_movement ≡ blocks
      → occupy s.space blocks occupancy (cells_of p) ≡ ok o
      → occupy_all s.space o ps ≡ ok occupancy'
      → has_key entity_key id ps ≡ false
      → all (is_free s p.blocks_movement id) goal ≡ true
      → All GivesWay ps
      → (p.blocks_movement ≡ true → AreApart goal occupancy)
      → Returns (
          occupy s.space blocks occupancy goal >>= λ o'.
          occupy_all s.space o' (move_placement id anchor p ps))
  unfolding occupied_cells
  at_mover false ps occupancy o occupancy' is_false h later no_more free give apart =
      let (same, _) = occupy_open s.space occupancy (cells_of p) o h in
      let inside = contains-all goal (may_stand-all goal free) in
      let stays = unmoved id anchor p ps no_more in
      let again : occupy_all s.space occupancy ps ≡ ok occupancy' =
        subst (λ x. occupy_all s.space x ps ≡ ok occupancy') same later in
      (
        occupancy',
        rw (occupy_open-Returns s.space occupancy goal inside)
            (ap (occupy_all s.space occupancy) stays ∙ again),
      )
  at_mover true ps occupancy o occupancy' is_true h later no_more free give apart =
      let (other, r) =
        occupy_moved s.space p.anchor anchor p.footprint occupancy occupancy o h
          (may_stand-all goal free) (apart is_true) in
      let most : HasAtMost other o goal = λ d i. taken_by other r d i in
      let (end, done) = after_move ps o other occupancy' no_more later give is_true most in
      (end, rw r done)
    where
      taken_by :
          (other : List GridCell)
          → occupy s.space true occupancy goal ≡ ok other
          → (d : GridCell) → has_cell d other ≡ true
          → (has_cell d o ≡ true) ⊎ (has_cell d goal ≡ true)
      taken_by other r d i =
          let e = has_cell-occupy s.space occupancy goal other d r in
          let e' = has_cell-occupy s.space occupancy (cells_of p) o d h in
          elim (Bool-cases (has_cell d goal)) [
            | inl there ↦ inr there
            | inr not_there ↦
                let before : has_cell d occupancy ≡ true = ground arith in inl (ground arith)
          ]

  -- the loop over the placements with the one moved
  before_move :
      (ps : List SpatialPlacement) (occupancy occupancy' : List GridCell)
      → find_key entity_key id ps ≡ some p
      → unique_keys entity_key ps ≡ true
      → occupy_all s.space occupancy ps ≡ ok occupancy'
      → all (is_free s p.blocks_movement id) goal ≡ true
      → All GivesWay ps
      → (p.blocks_movement ≡ true → AreApart goal occupancy)
      → Returns (occupy_all s.space occupancy (move_placement id anchor p ps))
  unfolding move_placement moved occupied_cells find_key unique_keys occupy_all has_cell
  before_move [] occupancy occupancy' found unique h free give apart = absurd (cc found)
  before_move (q ∷ ps) occupancy occupancy' found unique h free give apart =
      let (o, hq, later) =
        >>=-eq-ok (occupy s.space q.blocks_movement occupancy (cells_of q)) _ h in
      elim (Bool-cases (text_eq q.entity_id id)) [
        | inl here ↦
            let found' : some q ≡ some p = rw here at found in
            let same : q ≡ p = cc found' in
            let named : q.entity_id ≡ id = (text_eq_iff q.entity_id id).0 here in
            let no_more : has_key entity_key id ps ≡ false =
              subst (λ x. has_key entity_key x ps ≡ false) named (ground arith) in
            let hp : occupy s.space p.blocks_movement occupancy (cells_of p) ≡ ok o =
              subst
                (λ (x : SpatialPlacement).
                  occupy s.space x.blocks_movement occupancy (cells_of x) ≡ ok o)
                same hq in
            rw here (
              at_mover p.blocks_movement ps occupancy o occupancy' refl hp later no_more free give.1
                apart)
        | inr other ↦
            let found' : find_key entity_key id ps ≡ some p = rw other at found in
            rw (other, hq)
              (before_move ps o occupancy' found' (ground arith) later free give.1 (λ blocks.
                apart_after q.blocks_movement o hq (λ q_blocks. give.0 other blocks q_blocks)
                  (apart blocks)))
      ]
    where
      apart_after :
          (blocks : Bool) (o : List GridCell)
          → occupy s.space blocks occupancy (cells_of q) ≡ ok o
          → (blocks ≡ true → AreApart (cells_of q) goal)
          → AreApart goal occupancy
          → AreApart goal o
      apart_after false o hq leaves apart =
          subst (AreApart goal) (sym (occupy_open s.space occupancy (cells_of q) o hq).0) apart
      apart_after true o hq leaves apart = λ d i j.
          let e = has_cell-occupy s.space occupancy (cells_of q) o d hq in
          elim (Bool-cases (has_cell d (cells_of q))) [
            | inl at_q ↦ leaves refl d at_q i
            | inr not_at ↦ let k : has_cell d occupancy ≡ true = ground arith in apart d i k
          ]

-- A placement of a state that its constructor has checked may move to any anchor that is occupiable for
-- it: `with_anchor` returns, since the state with the placement moved passes the checks again.
pub with_anchor-Returns :
    (s : SpatialState) (id : Text) (p : SpatialPlacement) (anchor : GridCell) (sequence : ℕ)
    → IsState s
    → placement s id ≡ ok p
    → is_occupiable s p anchor id ≡ true
    → Returns (with_anchor s id anchor sequence)
unfolding with_anchor spatial_state is_occupiable
with_anchor-Returns s id p anchor sequence state stood free =
    let found : find_key entity_key id s.placements ≡ some p =
      unfold placement in or_raise-eq-ok _ _ stood in
    let (o, roomy) = state.roomy in
    let (o', placed) =
      before_move s id p anchor s.placements [] o found state.distinct roomy free
        (all_give_way s id p anchor free) (λ blocks d i j. unfold has_cell in cc j) in
    let named : p.entity_id ≡ id = find_key-key entity_key id s.placements p found in
    let distinct : unique_keys entity_key (move_placement id anchor p s.placements) ≡ true =
      ap (unique_keys entity_key) (move_placement-replace_key id anchor p s.placements named)
      ∙ unique_keys-replace_key entity_key (moved p anchor) s.placements
      ∙ state.distinct in
    (
      record {
        space = s.space;
        placements = sort (key_leb entity_key) (move_placement id anchor p s.placements);
        sequence = sequence;
      },
      rw (stood, free, distinct, placed) refl,
    )
