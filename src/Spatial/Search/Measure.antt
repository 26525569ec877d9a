-- ===== src/Spatial/Search/Measure.antt =====
-- What falls in every round of the search: the cells that are not in the table yet, or the costs.
use mathlib.Core.Path.{subst}
use godot_dn_dsimulator.Base.{
  ℕ, suc, ◌+◌, ◌≤◌, ◌<◌, ◌≡◌, sym, ap, ◌∙◌, true, none, some, List, [], ◌∷◌, arith, Bool-cases,
  Option-cases, ◌⊎◌, inl, inr,
}
use godot_dn_dsimulator.Spatial.Model.{GridCell, same_cell}
use godot_dn_dsimulator.Spatial.State.{has_cell}
use godot_dn_dsimulator.Spatial.Search.{Visit, Progress, find_visit, put_visit, improves}
use godot_dn_dsimulator.Spatial.Search.Table.{same_cell_iff, find_visit-put_visit}

-- the cells of the universe that are not in the table
abbrev pub missing : List Visit → List GridCell → ℕ
missing table [] = 0
missing table (c ∷ cs) = elim (find_visit c table) [
  | none ↦ suc (missing table cs)
  | some _ ↦ missing table cs
]

-- the costs of the table, added up
abbrev pub weight : List Visit → ℕ
weight [] = 0
weight (v ∷ vs) = v.cost + weight vs

put_missing :
    (u : Visit) (table : List Visit) (cs : List GridCell)
    → missing (put_visit u table) cs ≤ missing table cs
put_missing u table [] = omega arith
put_missing u table (c ∷ cs) =
    ground (arith, find_visit-put_visit c u table, put_missing u table cs)

put_missing_new :
    (u : Visit) (table : List Visit) (cs : List GridCell)
    → find_visit u.cell table ≡ none
    → has_cell u.cell cs ≡ true
    → missing (put_visit u table) cs < missing table cs
unfolding has_cell
put_missing_new u table [] new inside = absurd (cc inside)
put_missing_new u table (c ∷ cs) new inside = elim (Bool-cases (same_cell u.cell c)) [
  | inl same ↦
      let e : u.cell ≡ c = (same_cell_iff u.cell c).0 same in
      let new' : find_visit c table ≡ none = ap (λ x. find_visit x table) (sym e) ∙ new in
      ground (arith, find_visit-put_visit c u table, put_missing u table cs)
  | inr other ↦ ground (arith, find_visit-put_visit c u table, put_missing_new u table cs new)
]

put_weight :
    (u previous : Visit) (table : List Visit)
    → find_visit u.cell table ≡ some previous
    → weight (put_visit u table) + previous.cost ≡ weight table + u.cost
unfolding find_visit put_visit
put_weight u previous [] found = absurd (cc found)
put_weight u previous (v ∷ vs) found = ground (arith, put_weight u previous vs)

-- one progress is behind another: a cell is new in the table, or a cost has fallen
abbrev pub IsBehind : List GridCell → List Visit → List Visit → Type 0
IsBehind cs old new =
    (missing new cs < missing old cs)
    ⊎ ((missing new cs ≤ missing old cs) × (weight new < weight old))

pub put-IsBehind :
    (u : Visit) (table : List Visit) (cs : List GridCell)
    → has_cell u.cell cs ≡ true
    → improves (find_visit u.cell table) u.cost ≡ true
    → IsBehind cs table (put_visit u table)
put-IsBehind u table cs inside better = elim (Option-cases (find_visit u.cell table)) [
  | inl new ↦ inl (put_missing_new u table cs new inside)
  | inr (previous, found) ↦
      let cheaper : u.cost < previous.cost = ground (arith, found) in
      inr (put_missing u table cs, omega (arith, put_weight u previous table found))
]

-- the same progress, or one that is behind
abbrev pub Advances : List GridCell → Progress → Progress → Type 0
Advances cs a b = (a ≡ b) ⊎ IsBehind cs a.table b.table

pub Advances-trans :
    (cs : List GridCell) (a b c : Progress) → Advances cs a b → Advances cs b c → Advances cs a c
Advances-trans cs a b c (inl e) p = subst (λ x. Advances cs x c) (sym e) p
Advances-trans cs a b c (inr p) (inl e) =
    inr (subst (λ (x : Progress). IsBehind cs a.table x.table) e p)
Advances-trans cs a b c (inr (inl p)) (inr (inl r)) = inr (inl (omega arith))
Advances-trans cs a b c (inr (inl p)) (inr (inr r)) = inr (inl (omega arith))
Advances-trans cs a b c (inr (inr p)) (inr (inl r)) = inr (inl (omega arith))
Advances-trans cs a b c (inr (inr p)) (inr (inr r)) = inr (inr (omega arith))
