-- ===== src/Spatial/Search/Expand.antt =====
-- The rounds over the neighbours of one cell.
use mathlib.Core.Path.{subst}
use godot_dn_dsimulator.Base.{
  ℕ, ◌+◌, ◌≡◌, refl, sym, ap, ◌∙◌, true, false, Option, none, some, List, [], ◌∷◌, arith, All, ◌&&◌,
  if-eq, inl, inr, ok, >>=-eq-ok, ok-injective,
}
use godot_dn_dsimulator.Base.{In-any, All-In}
use godot_dn_dsimulator.Spatial.Model.{GridCell, same_cell}
use godot_dn_dsimulator.Spatial.State.{has_cell}
use godot_dn_dsimulator.Spatial.Search.{
  Search, Visit, Progress, find_visit, is_within, improves, improve, relax_cost, relax_step, relax,
}
use godot_dn_dsimulator.Spatial.Search.Table.{same_cell_iff, same_cell_refl}
use godot_dn_dsimulator.Spatial.Search.Walks.{Edge, IsSound}
use godot_dn_dsimulator.Spatial.Search.Invariant.{
  Found, IsLower, Found-IsLower, IsSearched, IsClosed, IsOpen, improved,
}
use godot_dn_dsimulator.Spatial.Search.Improve.{
  improved-Found, improved-IsLower, improved_same, improved-IsSearched, improved-IsOpen,
}

pub IsLower-refl : (table : List Visit) → IsLower table table
IsLower-refl table v visit f = (visit, f, omega arith)

pub IsLower-trans : (a b c : List Visit) → IsLower a b → IsLower b c → IsLower a c
IsLower-trans a b c ab bc v visit f = Found-IsLower b c v visit.cost bc (ab v visit f)

has_cell_weaken :
    (x : GridCell) (cs ds : List GridCell)
    → All (λ c. has_cell c cs ≡ true) ds
    → All (λ c. has_cell c (x ∷ cs) ≡ true) ds
unfolding has_cell
has_cell_weaken x cs [] h = tt
has_cell_weaken x cs (d ∷ ds) h = (ground (arith, h.0), has_cell_weaken x cs ds h.1)

pub has_cell_self : (cs : List GridCell) → All (λ c. has_cell c cs ≡ true) cs
unfolding has_cell
has_cell_self [] = tt
has_cell_self (c ∷ cs) =
    (ground (arith, same_cell_refl c), has_cell_weaken c cs cs (has_cell_self cs))

module _ (q : Search) (h : GridCell → ℕ) (sound : IsSound q h) (start : GridCell) (u : GridCell)
    (vu : Visit) where
  -- the rounds lead from one progress to another
  pub record Leads (g g' : Progress) : Type 0 where
    pub searched : IsSearched q h start g'
    pub opens : IsOpen q h start (λ v. v ≡ u) g'
    pub lower : IsLower g.table g'.table
    pub at : find_visit u g'.table ≡ some vu

  improve_lem :
      (g g' : Progress) (n : ℕ) (c : GridCell)
      → improve q g u n c ≡ ok g'
      → g' ≡ improved q h start g u n c
  unfolding improve
  improve_lem g g' n c r =
      let (n', measured, r') = >>=-eq-ok (q.heuristic c) _ r in
      sym (ok-injective r') ∙ rw (sound.measured c n' measured)

  relax_cost-Leads :
      (g g' : Progress) (c : GridCell) (k n : ℕ)
      → IsSearched q h start g
      → IsOpen q h start (λ v. v ≡ u) g
      → find_visit u g.table ≡ some vu
      → Edge q u c k
      → vu.cost + k ≡ n
      → relax_cost q g u n c ≡ ok g'
      → Leads g g' × (is_within q.budget n ≡ true → Found g'.table c n)
  unfolding relax_cost
  relax_cost-Leads g g' c k n s opens at edge sum r =
      elim (if-eq (is_within q.budget n && improves (find_visit c g.table) n) (improve q g u n c)
        (ok g) r) [
          | inl (both, improves_it) ↦
              let within : is_within q.budget n ≡ true = ground arith in
              let better : improves (find_visit c g.table) n ≡ true = ground arith in
              subst (λ x. Leads g x × (is_within q.budget n ≡ true → Found x.table c n))
                (sym (improve_lem g g' n c improves_it))
                (
                  record {
                    searched =
                        improved-IsSearched q h start g s u vu at c k n edge sum within better;
                    opens =
                        improved-IsOpen q h start g s u vu at c k n edge sum within better opens;
                    lower = improved-IsLower q h start g s u vu at c k n edge sum within better;
                    at = improved_same q h start g s u vu at c k n edge sum within better;
                  },
                  λ _. improved-Found q h start g s u vu at c k n edge sum within better,
                )
          | inr (neither, same) ↦
              subst (λ x. Leads g x × (is_within q.budget n ≡ true → Found x.table c n))
                (ok-injective same)
                (
                  record { searched = s; opens = opens; lower = IsLower-refl g.table; at = at },
                  λ within. not_better (find_visit c g.table) refl (ground arith),
                )
        ]
    where
      not_better :
          (o : Option Visit) → find_visit c g.table ≡ o → improves o n ≡ false → Found g.table c n
      not_better none f b = absurd (cc b)
      not_better (some previous) f b = (previous, f, ground arith)

  -- the neighbours that have been looked at are in the table
  abbrev pub Covers : Progress → List GridCell → Type 0
  Covers g cs =
      All
        (λ c.
          (k : ℕ)
          → Edge q u c k
          → is_within q.budget (vu.cost + k) ≡ true
          → Found g.table c (vu.cost + k))
        cs

  relax-Leads :
      (around cs : List GridCell) (g g' : Progress)
      → q.neighbors u ≡ ok around
      → All (λ c. has_cell c around ≡ true) cs
      → IsSearched q h start g
      → IsOpen q h start (λ v. v ≡ u) g
      → find_visit u g.table ≡ some vu
      → relax q u vu.cost g cs ≡ ok g'
      → Leads g g' × Covers g' cs
  unfolding relax relax_step
  relax-Leads around [] g g' ns inside s opens at r =
      subst (λ x. Leads g x × Covers x []) (ok-injective r)
        (record { searched = s; opens = opens; lower = IsLower-refl g.table; at = at }, tt)
  relax-Leads around (c ∷ cs) g g' ns inside s opens at r =
      let (o, stepped, r') = >>=-eq-ok (q.step u c) _ r in
      let (g₁, relaxed, r'') = >>=-eq-ok (relax_step q g u vu.cost c o) _ r' in
      let (one, covers) = first o g₁ stepped relaxed in
      let (leads, covered) =
        relax-Leads around cs g₁ g' ns inside.1 one.searched one.opens one.at r'' in
      (
        record {
          searched = leads.searched;
          opens = leads.opens;
          lower = IsLower-trans g.table g₁.table g'.table one.lower leads.lower;
          at = leads.at;
        },
        (
          λ k edge within.
              Found-IsLower g₁.table g'.table c (vu.cost + k) leads.lower (covers k edge within),
          covered,
        ),
      )
    where
      first :
          (o : Option ℕ) (g₁ : Progress)
          → q.step u c ≡ ok o
          → relax_step q g u vu.cost c o ≡ ok g₁
          → Leads g g₁
            × ((k : ℕ)
                → Edge q u c k
                → is_within q.budget (vu.cost + k) ≡ true
                → Found g₁.table c (vu.cost + k))
      first none g₁ stepped relaxed =
          subst
            (λ x.
              Leads g x
              × ((k : ℕ)
                  → Edge q u c k
                  → is_within q.budget (vu.cost + k) ≡ true
                  → Found x.table c (vu.cost + k)))
            (ok-injective relaxed)
            (
              record { searched = s; opens = opens; lower = IsLower-refl g.table; at = at },
              λ k edge within. absurd (cc (ok-injective (sym stepped ∙ edge.step))),
            )
      first (some k) g₁ stepped relaxed =
          let edge : Edge q u c k = record {
            around = around;
            neighbors = ns;
            near = inside.0;
            step = stepped;
          } in
          let (leads, covers) =
            relax_cost-Leads g g₁ c k (vu.cost + k) s opens at edge refl relaxed in
          (
            leads,
            λ k' edge' within.
                let e : k ≡ k' = cc (ok-injective (sym stepped ∙ edge'.step)) in
                subst (λ x. Found g₁.table c (vu.cost + x)) e
                  (covers (subst (λ x. is_within q.budget (vu.cost + x) ≡ true) (sym e) within)),
          )

  -- After the rounds the cell is closed.
  Covers-IsClosed :
      (around : List GridCell) (g : Progress)
      → q.neighbors u ≡ ok around
      → Covers g around
      → IsClosed q h start g.table u vu.cost
  unfolding has_cell
  Covers-IsClosed around g ns covers w k edge within =
      let e : edge.around ≡ around = ok-injective (sym edge.neighbors ∙ ns) in
      let (c, stands, same) =
        In-any (same_cell w) around (subst (λ cs. has_cell w cs ≡ true) e edge.near) in
      let here_w : w ≡ c = (same_cell_iff w c).0 same in
      subst (λ x. Found g.table x (vu.cost + k)) (sym here_w)
        (All-In _ around covers stands k (subst (λ x. Edge q u x k) here_w edge) within)

  -- Expanding a cell closes it and keeps the invariant.
  pub expanded :
      (around : List GridCell) (g g' : Progress)
      → q.neighbors u ≡ ok around
      → IsSearched q h start g
      → IsOpen q h start (λ v. v ≡ u) g
      → find_visit u g.table ≡ some vu
      → relax q u vu.cost g around ≡ ok g'
      → IsSearched q h start g' × IsOpen q h start (λ v. ⊥) g'
  expanded around g g' ns s opens at r =
      let (leads, covers) = relax-Leads around around g g' ns (has_cell_self around) s opens at r in
      (
        leads.searched,
        λ v visit f. elim (leads.opens v visit f) [
          | inl waits ↦ inl waits
          | inr (inl closed) ↦ inr (inl closed)
          | inr (inr e) ↦
              let same : visit ≡ vu = cc (sym f ∙ ap (λ c. find_visit c g'.table) e ∙ leads.at) in
              inr (
                inl (
                  subst (λ x. IsClosed q h start g'.table x.0 x.1) (closed_at v visit e same)
                    (Covers-IsClosed around g' ns covers)))
        ],
      )
    where
      closed_at :
          (v : GridCell) (visit : Visit)
          → v ≡ u
          → visit ≡ vu
          → ◌≡◌ {A = GridCell × ℕ} (u, vu.cost) (v, visit.cost)
      closed_at v visit e same = rw (e, same)
