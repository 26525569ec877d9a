-- ===== src/Spatial/Search/Visits.antt =====
-- What holds of the table through the whole search, and the table without repeated cells.
use mathlib.Core.Path.{subst}
use godot_dn_dsimulator.Base.{
  ℕ, zero, suc, ◌+◌, ◌≡◌, refl, sym, ap, ◌∙◌, ◌&&◌, Option, none, some, List, [], ◌∷◌, arith,
  if◌then◌else◌, if-eq, Bool-cases, inl, inr, In, here, there, Result, ok, >>=-eq-ok, ok-injective,
}
use godot_dn_dsimulator.Spatial.Model.{GridCell, same_cell}
use godot_dn_dsimulator.Spatial.Search.{
  Search, Waiting, Visit, Progress, find_visit, put_visit, is_within, improves, is_stale, improve,
  relax_cost, relax_step, relax, expand, pop, explore,
}
use godot_dn_dsimulator.Spatial.Search.Table.{same_cell_iff, same_cell_refl, find_visit-put_visit}

module _ (q : Search) (R : List Visit → Type 0)
    (kept : (u : Visit) (table : List Visit) → R table → R (put_visit u table)) where
  relax_cost-table :
      (g g' : Progress) (u : GridCell) (n : ℕ) (c : GridCell)
      → R g.table
      → relax_cost q g u n c ≡ ok g'
      → R g'.table
  unfolding relax_cost improve
  relax_cost-table g g' u n c r h =
      elim (if-eq (is_within q.budget n && improves (find_visit c g.table) n) (improve q g u n c)
        (ok g) h) [
          | inl (_, improved) ↦
              let (_, _, e) = >>=-eq-ok (q.heuristic c) _ improved in
              subst (λ (x : Progress). R x.table) (ok-injective e)
                (kept (record { cell = c; cost = n; origin = some u }) g.table r)
          | inr (_, e) ↦ subst (λ (x : Progress). R x.table) (ok-injective e) r
        ]

  relax_step-table :
      (g g' : Progress) (u : GridCell) (n : ℕ) (c : GridCell) (o : Option ℕ)
      → R g.table
      → relax_step q g u n c o ≡ ok g'
      → R g'.table
  unfolding relax_step
  relax_step-table g g' u n c none r h = subst (λ (x : Progress). R x.table) (ok-injective h) r
  relax_step-table g g' u n c (some k) r h = relax_cost-table g g' u (n + k) c r h

  relax-table :
      (cs : List GridCell) (g g' : Progress) (u : GridCell) (n : ℕ)
      → R g.table
      → relax q u n g cs ≡ ok g'
      → R g'.table
  unfolding relax
  relax-table [] g g' u n r h = subst (λ (x : Progress). R x.table) (ok-injective h) r
  relax-table (c ∷ cs) g g' u n r h =
      let (o, _, h₁) = >>=-eq-ok (q.step u c) _ h in
      let (g₁, stepped, h₂) = >>=-eq-ok (relax_step q g u n c o) _ h₁ in
      relax-table cs g₁ g' u n (relax_step-table g g₁ u n c o r stepped) h₂

  pop-table :
      (later : Progress → Result Progress) (r : Progress)
      → ((g : Progress) → R g.table → later g ≡ ok r → R r.table)
      → (g : Progress) (ws : List Waiting) → R g.table
      → pop q later g ws ≡ ok r
      → R r.table
  unfolding pop expand
  pop-table later r ih g [] t h = subst (λ (x : Progress). R x.table) (ok-injective h) t
  pop-table later r ih g (w ∷ ws) t h =
      let popped : Progress = record g { frontier = ws } in
      elim (if-eq (is_stale (find_visit w.cell g.table) w.cost) (later popped)
        (if q.stops w.cell then ok popped else expand q later popped w) h) [
          | inl (_, h₁) ↦ ih popped t h₁
          | inr (_, h₁) ↦ elim (if-eq (q.stops w.cell) (ok popped) (expand q later popped w) h₁) [
            | inl (_, e) ↦ subst (λ (x : Progress). R x.table) (ok-injective e) t
            | inr (_, h₂) ↦
                let (around, _, h₃) = >>=-eq-ok (q.neighbors w.cell) _ h₂ in
                let (g', relaxed, h₄) = >>=-eq-ok (relax q w.cell w.cost popped around) _ h₃ in
                ih g' (relax-table around popped g' w.cell w.cost t relaxed) h₄
          ]
        ]

  -- What every assignment keeps, the search keeps.
  pub explore-table : (fuel : ℕ) (g r : Progress) → R g.table → explore q fuel g ≡ ok r → R r.table
  unfolding explore
  explore-table zero g r t h = absurd (cc h)
  explore-table (suc fuel) g r t h =
      pop-table (explore q fuel) r (λ g'. explore-table fuel g' r) g g.frontier t h

-- no cell stands in the table twice
abbrev pub IsUnique : List Visit → Type 0
IsUnique [] = Unit
IsUnique (v ∷ vs) = (find_visit v.cell vs ≡ none) × IsUnique vs

pub IsUnique-put_visit :
    (u : Visit) (table : List Visit) → IsUnique table → IsUnique (put_visit u table)
unfolding put_visit find_visit
IsUnique-put_visit u [] unique = (refl, tt)
IsUnique-put_visit u (v ∷ vs) unique = elim (Bool-cases (same_cell v.cell u.cell)) [
  | inl same ↦
      rw same (
        ap (λ c. find_visit c vs) (sym ((same_cell_iff v.cell u.cell).0 same)) ∙ unique.0,
        unique.1,
      )
  | inr other ↦ rw other (
    ground (
      arith,
      find_visit-put_visit v.cell u vs,
      same_cell_iff u.cell v.cell,
      same_cell_iff v.cell u.cell,
      unique.0,
    ),
    IsUnique-put_visit u vs unique.1,
  )
]

-- An entry of a table without repeated cells is the one that is found.
pub In-find_visit :
    (v : Visit) (table : List Visit)
    → IsUnique table
    → In v table
    → find_visit v.cell table ≡ some v
unfolding find_visit
In-find_visit v [] unique i = elim i [ ]
In-find_visit v (u ∷ vs) unique here = rw (same_cell_refl v.cell)
In-find_visit v (u ∷ vs) unique (there i) =
    let found = In-find_visit v vs unique.1 i in
    elim (Bool-cases (same_cell u.cell v.cell)) [
      | inl same ↦
          let e : u.cell ≡ v.cell = (same_cell_iff u.cell v.cell).0 same in
          absurd (cc (sym unique.0 ∙ ap (λ c. find_visit c vs) e ∙ found))
      | inr other ↦ rw other found
    ]

pub find_visit-In :
    (c : GridCell) (v : Visit) (table : List Visit) → find_visit c table ≡ some v → In v table
unfolding find_visit
find_visit-In c v [] found = absurd (cc found)
find_visit-In c v (u ∷ vs) found =
    elim (if-eq (same_cell u.cell c) (some u) (find_visit c vs) found) [
      | inl (_, e) ↦ subst (λ x. In x (u ∷ vs)) (some_injective e) here
      | inr (_, later) ↦ there (find_visit-In c v vs later)
    ]
  where
    some_injective : {a b : Visit} → some a ≡ some b → a ≡ b
    some_injective e = cc
