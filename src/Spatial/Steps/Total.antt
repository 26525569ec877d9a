-- ===== src/Spatial/Steps/Total.antt =====
-- The tests and the cost of a step never raise where the footprint lies in the space.
use mathlib.Core.Path.{subst}
use godot_dn_dsimulator.Base.{
  ℕ, ◌≡◌, refl, ap, ◌∙◌, Bool, true, false, not, ◌&&◌, ◌||◌, some, none, List, [], ◌∷◌, arith, all,
  any, map, Bool-cases, inl, inr, Result, ok, err, ok-injective, Returns,
}
use godot_dn_dsimulator.Base.Text.{Text}
use godot_dn_dsimulator.Actors.Kinds.{MovementMode}
use godot_dn_dsimulator.Spatial.Model.{
  GridCell, GridOffset, same_cell, same_offset, SquareGridSpace, contains, terrain_at,
}
use godot_dn_dsimulator.Spatial.State.{
  SpatialPlacement, SpatialState, placement, occupied_cells, is_occupiable, is_free, no_offset,
}
use godot_dn_dsimulator.Spatial.Policy.{MovementPolicy}
use godot_dn_dsimulator.Spatial.Search.Table.{same_cell_iff}
use godot_dn_dsimulator.Spatial.State.Occupancy.{cell_at-Returns}
use godot_dn_dsimulator.Spatial.Steps.{
  ◌and_then◌, terrain_allows, has_mode, all_allow, shifted, is_walk, walk_step_is_legal, walks,
  is_diagonal, is_near, horizontal, vertical, corners_are_free, move_is_legal, step_is_legal,
  footing, footing_cost, move_cost, step_cost, try_step,
}
use godot_dn_dsimulator.Spatial.Steps.Legal.{and_then-true, legal-IsStep}
use godot_dn_dsimulator.Spatial.Steps.Estimate.{shifted_self}

and_then-Returns :
    (m n : Result Bool) → Returns m → (m ≡ ok true → Returns n) → Returns (m and_then n)
and_then-Returns (ok true) n h k = k refl
and_then-Returns (ok false) n h k = (false, refl)
and_then-Returns (err e) n h k = absurd (cc (h.1))

ok-Returns : (b : Bool) → Returns (ok b)
ok-Returns b = (b, refl)

-- the footprint at a cell lies in the space
abbrev pub IsInside : SquareGridSpace → List GridOffset → GridCell → Type 0
IsInside s os c = all (contains s) (map (shifted c) os) ≡ true

all_allow-Returns :
    (s : SquareGridSpace) (mode : MovementMode) (cs : List GridCell)
    → all (contains s) cs ≡ true
    → Returns (all_allow s mode cs)
unfolding all_allow
all_allow-Returns s mode [] h = (true, refl)
all_allow-Returns s mode (c ∷ cs) h = rw (cell_at-Returns s c (ground arith)) (
    and_then-Returns (ok (has_mode mode (terrain_at s c).allowed_modes)) (all_allow s mode cs)
      (ok-Returns _) λ _. all_allow-Returns s mode cs (ground arith))

walk_step-Returns :
    (s : SquareGridSpace) (u v : GridCell) (policy : MovementPolicy) (os : List GridOffset)
    → IsInside s os u
    → IsInside s os v
    → Returns (walk_step_is_legal s u v policy os)
unfolding walk_step_is_legal
walk_step-Returns s u v policy [] hu hv = (true, refl)
walk_step-Returns s u v policy (o ∷ os) hu hv =
    rw
      (
        cell_at-Returns s (shifted u o) (ground arith),
        cell_at-Returns s (shifted v o) (ground arith),
      )
      (and_then-Returns _ (walk_step_is_legal s u v policy os) (ok-Returns _)
        λ _. walk_step-Returns s u v policy os (ground arith) (ground arith))

footing-Returns :
    (s : SquareGridSpace) (u v : GridCell) (os : List GridOffset) (most : ℕ) (difficult : Bool)
    → IsInside s os u
    → IsInside s os v
    → Returns (footing s u v most difficult os)
unfolding footing
footing-Returns s u v [] most difficult hu hv = ((most, difficult), refl)
footing-Returns s u v (o ∷ os) most difficult hu hv =
    rw
      (
        cell_at-Returns s (shifted u o) (ground arith),
        cell_at-Returns s (shifted v o) (ground arith),
      )
      (footing-Returns s u v os _ _ (ground arith) (ground arith))

-- the anchor of a footprint inside the space is inside
pub IsInside-contains :
    (s : SquareGridSpace) (os : List GridOffset) (c : GridCell)
    → IsInside s os c
    → any (same_offset no_offset) os ≡ true
    → contains s c ≡ true
IsInside-contains s [] c h anchored = absurd (cc anchored)
IsInside-contains s (o ∷ os) c h anchored = elim (Bool-cases (same_offset no_offset o)) [
  | inl here ↦ subst (λ x. contains s x ≡ true) (shifted_self c o here) (ground arith)
  | inr other ↦ IsInside-contains s os c (ground arith) (ground arith)
]

all_free-inside :
    (s : SpatialState) (blocks : Bool) (ignored : Text) (cs : List GridCell)
    → all (is_free s blocks ignored) cs ≡ true
    → all (contains s.space) cs ≡ true
unfolding is_free
all_free-inside s blocks ignored [] h = refl
all_free-inside s blocks ignored (c ∷ cs) h = ground (arith, all_free-inside s blocks ignored cs)

pub free-IsInside :
    (s : SpatialState) (p : SpatialPlacement) (c : GridCell) (ignored : Text)
    → is_occupiable s p c ignored ≡ true
    → IsInside s.space p.footprint c
unfolding is_occupiable occupied_cells
free-IsInside s p c ignored h =
    all_free-inside s p.blocks_movement ignored (map (shifted c) p.footprint) h

module _ (s : SpatialState) (entity_id : Text) (mode : MovementMode) (policy : MovementPolicy)
    (p : SpatialPlacement) (found : placement s entity_id ≡ ok p) where
  pub terrain_allows-Returns : (c : GridCell) → Returns (terrain_allows s p c mode)
  unfolding terrain_allows
  terrain_allows-Returns c =
      and_then-Returns (ok (is_occupiable s p c p.entity_id))
        (all_allow s.space mode (occupied_cells p c)) (ok-Returns _)
        λ free. all_allow-Returns s.space mode (occupied_cells p c) (occupied c (ok-injective free))
    where
      occupied :
          (c : GridCell)
          → is_occupiable s p c p.entity_id ≡ true
          → all (contains s.space) (occupied_cells p c) ≡ true
      occupied c free = unfold occupied_cells in free-IsInside s p c p.entity_id free

  allows-IsInside :
      (c : GridCell) → terrain_allows s p c mode ≡ ok true → IsInside s.space p.footprint c
  unfolding terrain_allows
  allows-IsInside c h = free-IsInside s p c p.entity_id (
      ok-injective
        (and_then-true (ok (is_occupiable s p c p.entity_id))
          (all_allow s.space mode (occupied_cells p c)) h).0)

  walks-Returns :
      (u v : GridCell)
      → IsInside s.space p.footprint u
      → IsInside s.space p.footprint v
      → Returns (walks s p u v mode policy)
  unfolding walks
  walks-Returns u v hu hv = elim (Bool-cases (is_walk mode)) [
    | inl walking ↦ rw walking (walk_step-Returns s.space u v policy p.footprint hu hv)
    | inr other ↦ rw other (true, refl)
  ]

  corners-Returns :
      (u v : GridCell)
      → IsInside s.space p.footprint u
      → Returns (corners_are_free s p u v mode policy)
  unfolding corners_are_free
  corners-Returns u v hu =
      and_then-Returns (terrain_allows s p (horizontal u v) mode) _
        (terrain_allows-Returns (horizontal u v))
        λ h.
          and_then-Returns (terrain_allows s p (vertical u v) mode) _
            (terrain_allows-Returns (vertical u v))
            λ k.
              and_then-Returns (walks s p u (horizontal u v) mode policy) _
                (walks-Returns u (horizontal u v) hu (allows-IsInside (horizontal u v) h))
                λ _. walks-Returns u (vertical u v) hu (allows-IsInside (vertical u v) k)

  move-Returns :
      (u v : GridCell)
      → IsInside s.space p.footprint u
      → Returns (move_is_legal s p u v mode policy)
  unfolding move_is_legal
  move-Returns u v hu = and_then-Returns (ok (is_near u v)) _ (ok-Returns _) λ _.
      and_then-Returns (ok (not (is_diagonal u v) || policy.allow_diagonal)) _ (ok-Returns _) λ _.
        and_then-Returns (ok (contains s.space v)) _ (ok-Returns _) λ _.
          and_then-Returns (terrain_allows s p v mode) _ (terrain_allows-Returns v) λ h.
            and_then-Returns (walks s p u v mode policy) _
              (walks-Returns u v hu (allows-IsInside v h))
              λ _. elim (Bool-cases (is_diagonal u v && policy.prevent_corner_cutting)) [
                | inl corner ↦ rw corner (corners-Returns u v hu)
                | inr straight ↦ rw straight (true, refl)
              ]

  step_is_legal-Returns :
      (u v : GridCell)
      → IsInside s.space p.footprint u
      → Returns (step_is_legal s entity_id u v mode policy)
  unfolding step_is_legal
  step_is_legal-Returns u v hu = rw found (elim (Bool-cases (same_cell u v)) [
    | inl same ↦ rw same (true, refl)
    | inr other ↦ rw other (move-Returns u v hu)
  ])

  -- A legal step keeps the footprint in the space.
  pub legal-IsInside :
      (u v : GridCell)
      → IsInside s.space p.footprint u
      → step_is_legal s entity_id u v mode policy ≡ ok true
      → IsInside s.space p.footprint v
  legal-IsInside u v hu legal = elim (Bool-cases (same_cell u v)) [
    | inl same ↦ subst (IsInside s.space p.footprint) ((same_cell_iff u v).0 same) hu
    | inr other ↦
        free-IsInside s p v p.entity_id
          (legal-IsStep s entity_id mode policy p found u v legal other).free
  ]

  step_cost-Returns :
      (u v : GridCell)
      → IsInside s.space p.footprint u
      → step_is_legal s entity_id u v mode policy ≡ ok true
      → Returns (step_cost s entity_id u v mode policy)
  unfolding step_cost move_cost
  step_cost-Returns u v hu legal =
      let (walked, foots) =
        footing-Returns s.space u v p.footprint 0 false hu (legal-IsInside u v hu legal) in
      elim (Bool-cases (same_cell u v)) [
        | inl same ↦ rw (legal, same) (0, refl)
        | inr other ↦
            rw (legal, other, found, foots) (footing_cost s.space mode policy walked, refl)
      ]

  -- From a cell where the footprint lies in the space, a step is tried without an error.
  pub try_step-Returns :
      (u v : GridCell)
      → IsInside s.space p.footprint u
      → Returns (try_step s entity_id mode policy u v)
  unfolding try_step
  try_step-Returns u v hu =
      let (legal, asked) = step_is_legal-Returns u v hu in
      elim (Bool-cases legal) [
        | inl yes_legal ↦
            let (cost, costed) = step_cost-Returns u v hu (asked ∙ ap ok yes_legal) in
            rw (asked, yes_legal, costed) (some cost, refl)
        | inr not_legal ↦ rw (asked, not_legal) (none, refl)
      ]
