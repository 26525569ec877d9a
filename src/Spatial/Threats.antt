-- ===== src/Spatial/Threats.antt =====
-- spatial/threats.py: the threats that a path enters and leaves.
use godot_dn_dsimulator.Base.{
  ℕ, Bool, true, false, not, ◌&&◌, ◌||◌, List, [], ◌∷◌, ◌++◌, all, any, leb, if◌then◌else◌, Result,
  ok, err, validation_error, guard, ◌>>=◌, ◌>>◌,
}
use godot_dn_dsimulator.Base.Text.{Text, text_eq, text_leb, is_blank}
use godot_dn_dsimulator.Base.Sort.{sort}
use godot_dn_dsimulator.Spatial.Model.{GridCell, same_cell, cells}
use godot_dn_dsimulator.Spatial.State.{SpatialPlacement, SpatialState, occupied_cells, placement}
use godot_dn_dsimulator.Spatial.Policy.{ThreatTransition, threat_transition, differ}
use godot_dn_dsimulator.Spatial.Geometry.{grid, cells_distance}

pub record ThreatDefinition : Type 0 where
  pub source_entity_id : Text
  pub reach_feet : ℕ
  pub affected_entity_ids : List Text

unfoldable pub threat_definition : ThreatDefinition → Result ThreatDefinition
threat_definition t = do
  guard (not (is_blank t.source_entity_id)) validation_error
  guard (all (λ id. not (is_blank id)) t.affected_entity_ids) validation_error
  ok t

-- `_placement_distance_at_anchor`
unfoldable pub placement_distance_at_anchor :
    SpatialState → SpatialPlacement → SpatialPlacement → GridCell → Result ℕ
placement_distance_at_anchor s source moving anchor =
    cells_distance s.space grid (occupied_cells source source.anchor) (occupied_cells moving anchor)

unfoldable pub cells_within :
    SpatialState → SpatialPlacement → ℕ → List GridCell → Result (List GridCell)
cells_within s source reach [] = ok []
cells_within s source reach (c ∷ cs) = do
  d ← cells_distance s.space grid (occupied_cells source source.anchor) (c ∷ [])
  rest ← cells_within s source reach cs
  ok (if leb d reach then c ∷ rest else rest)

unfoldable pub threatened_cells : SpatialState → ThreatDefinition → Result (List GridCell)
threatened_cells s t = do
  source ← placement s t.source_entity_id
  cells_within s source t.reach_feet (cells s.space)

abbrev pub is_empty_list {ℓ} : {A : Type ℓ} → List A → Bool
is_empty_list [] = true
is_empty_list (x ∷ xs) = false

-- the two `continue`s of the inner loop
unfoldable pub concerns : ThreatDefinition → Text → Bool
concerns t moving_id =
    not (text_eq t.source_entity_id moving_id)
    && (is_empty_list t.affected_entity_ids || any (text_eq moving_id) t.affected_entity_ids)

-- the transition of a threat over one step
unfoldable pub transition_of :
    ThreatDefinition → GridCell → GridCell → Bool → Bool → Result (List ThreatTransition)
transition_of t from to before after =
    if differ before after
    then (do
      made ← threat_transition (record {
        source_entity_id = t.source_entity_id;
        from_cell = from;
        to_cell = to;
        entered = not before && after;
        exited = before && not after;
      })
      ok (made ∷ []))
    else ok []

-- the rest of a round of the inner loop
unfoldable pub threat_over_step :
    SpatialState
    → SpatialPlacement
    → GridCell
    → GridCell
    → ThreatDefinition
    → Result (List ThreatTransition)
threat_over_step s moving from to t = do
  source ← placement s t.source_entity_id
  d ← placement_distance_at_anchor s source moving from
  e ← placement_distance_at_anchor s source moving to
  transition_of t from to (leb d t.reach_feet) (leb e t.reach_feet)

-- the inner loop
unfoldable pub threats_over_step :
    SpatialState
    → Text
    → SpatialPlacement
    → GridCell
    → GridCell
    → List ThreatDefinition
    → Result (List ThreatTransition)
threats_over_step s moving_id moving from to [] = ok []
threats_over_step s moving_id moving from to (t ∷ ts) = do
  made ← if concerns t moving_id then threat_over_step s moving from to t else ok []
  rest ← threats_over_step s moving_id moving from to ts
  ok (made ++ rest)

abbrev pub threat_leb : ThreatDefinition → ThreatDefinition → Bool
threat_leb a b = text_leb a.source_entity_id b.source_entity_id

-- the outer loop over `zip(path, path[1:])`
unfoldable pub threats_over_path :
    SpatialState
    → Text
    → SpatialPlacement
    → List ThreatDefinition
    → GridCell
    → List GridCell
    → Result (List ThreatTransition)
threats_over_path s moving_id moving threats from [] = ok []
threats_over_path s moving_id moving threats from (to ∷ path) = do
  made ← threats_over_step s moving_id moving from to (sort threat_leb threats)
  rest ← threats_over_path s moving_id moving threats to path
  ok (made ++ rest)

unfoldable pub path_threat_transitions :
    SpatialState → Text → List GridCell → List ThreatDefinition → Result (List ThreatTransition)
path_threat_transitions s moving_id [] threats = do _ ← placement s moving_id; err validation_error
path_threat_transitions s moving_id (c ∷ path) threats = do
  moving ← placement s moving_id
  guard (same_cell c moving.anchor) validation_error
  threats_over_path s moving_id moving threats c path
