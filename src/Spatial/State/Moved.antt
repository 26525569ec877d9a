-- ===== src/Spatial/State/Moved.antt =====
-- What a placement that moves leaves in the state.
use mathlib.Core.Path.{subst}
use godot_dn_dsimulator.Base.{
  ℕ, ◌≡◌, refl, sym, ap, ◌∙◌, true, false, some, List, [], ◌∷◌, if◌then◌else◌, ◌&&◌, ok, >>=-eq-ok,
  ok-injective, guard, guard-eq-ok, validation_error, or_raise, or_raise-eq-ok,
}
use godot_dn_dsimulator.Base.Text.{Text, text_eq, text_eq_refl}
use godot_dn_dsimulator.Base.Sort.{sort}
use godot_dn_dsimulator.Base.Keyed.{
  find_key, has_key, unique_keys, replace_key, key_leb, find_key-key, find_key-sort,
  find_key-replace_key, has_key-find_key,
}
use godot_dn_dsimulator.Spatial.Model.{GridCell}
use godot_dn_dsimulator.Spatial.State.{
  SpatialPlacement, SpatialState, entity_key, moved, move_placement, placement, occupy_all,
  spatial_state, is_occupiable, with_anchor,
}

pub move_placement-replace_key :
    (id : Text) (anchor : GridCell) (p : SpatialPlacement) (ps : List SpatialPlacement)
    → p.entity_id ≡ id
    → move_placement id anchor p ps ≡ replace_key entity_key (moved p anchor) ps
unfolding move_placement replace_key moved
move_placement-replace_key id anchor p [] e = refl
move_placement-replace_key id anchor p (q ∷ ps) e =
    rw (e, move_placement-replace_key id anchor p ps e)

-- the placements of a state after a move
pub record HasMoved (s : SpatialState) (id : Text) (p : SpatialPlacement) (anchor : GridCell)
    (sequence : ℕ) (s' : SpatialState) : Type 0 where
  pub same_space : s'.space ≡ s.space
  pub counted : s'.sequence ≡ sequence
  pub standing : placement s' id ≡ ok (moved p anchor)
  pub others : (j : Text) → text_eq id j ≡ false → placement s' j ≡ placement s j

-- a state whose constructor accepts the moved placements
accepted-HasMoved :
    (s : SpatialState) (id : Text) (anchor : GridCell) (sequence : ℕ) (p : SpatialPlacement)
    (s' : SpatialState)
    → placement s id ≡ ok p
    → spatial_state (record {
      space = s.space;
      placements = move_placement id anchor p s.placements;
      sequence = sequence;
    })
      ≡ ok s'
    → HasMoved s id p anchor sequence s'
unfolding spatial_state placement moved
accepted-HasMoved s id anchor sequence p s' found h =
    let ps = move_placement id anchor p s.placements in
    let here : find_key entity_key id s.placements ≡ some p = or_raise-eq-ok _ _ found in
    let named : p.entity_id ≡ id = find_key-key entity_key id s.placements p here in
    let there : has_key entity_key id s.placements ≡ true =
      has_key-find_key entity_key id s.placements ∙ rw here refl in
    let replaced = move_placement-replace_key id anchor p s.placements named in
    let (_, distinct, h₁) = >>=-eq-ok (guard (unique_keys entity_key ps) validation_error) _ h in
    let unique = guard-eq-ok (unique_keys entity_key ps) validation_error distinct in
    let (_, _, h₂) = >>=-eq-ok (occupy_all s.space [] ps) _ h₁ in
    let e : record {
      space = s.space;
      placements = sort (key_leb entity_key) ps;
      sequence = sequence;
    }
        ≡ s' =
      ok-injective h₂ in
    subst (HasMoved s id p anchor sequence) e (record {
      same_space = refl;
      counted = refl;
      standing =
          ap (λ x. or_raise x validation_error) {y = some (moved p anchor)}
            (found_in id ps unique replaced ∙ rw (named, text_eq_refl id, there) refl);
      others = λ j other.
          ap (λ x. or_raise x validation_error) {y = find_key entity_key j s.placements}
            (found_in j ps unique replaced ∙ rw (named, other) refl);
    })
  where
    found_in :
        (j : Text) (ps : List SpatialPlacement)
        → unique_keys entity_key ps ≡ true
        → ps ≡ replace_key entity_key (moved p anchor) s.placements
        → find_key entity_key j (sort (key_leb entity_key) ps) ≡ (
            if text_eq p.entity_id j && has_key entity_key j s.placements
            then some (moved p anchor)
            else find_key entity_key j s.placements)
    found_in j ps unique replaced =
        find_key-sort entity_key (key_leb entity_key) j ps unique
        ∙ ap (find_key entity_key j) replaced
        ∙ find_key-replace_key entity_key j (moved p anchor) s.placements

pub with_anchor-HasMoved :
    (s : SpatialState) (id : Text) (anchor : GridCell) (sequence : ℕ) (p : SpatialPlacement)
    (s' : SpatialState)
    → placement s id ≡ ok p
    → with_anchor s id anchor sequence ≡ ok s'
    → HasMoved s id p anchor sequence s'
unfolding with_anchor
with_anchor-HasMoved s id anchor sequence p s' found h =
    let (p', found', h₁) = >>=-eq-ok (placement s id) _ h in
    let same : p' ≡ p = ok-injective (sym found' ∙ found) in
    let (_, _, h₂) = >>=-eq-ok (guard (is_occupiable s p' anchor id) validation_error) _ h₁ in
    accepted-HasMoved s id anchor sequence p s' found (
      subst
        (λ x.
          spatial_state (record {
            space = s.space;
            placements = move_placement id anchor x s.placements;
            sequence = sequence;
          })
          ≡ ok s')
        same h₂)
