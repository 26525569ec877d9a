-- ===== src/Spatial/Search/Improve.antt =====
-- A round of the search that improves a cell keeps the invariant.
use mathlib.Core.Path.{subst}
use godot_dn_dsimulator.Base.{
  ℕ, ◌+◌, ◌≤◌, ◌≡◌, refl, sym, ap, ◌∙◌, true, false, some, List, arith, In, leb, if-eq, Bool-cases,
  ◌⊎◌, inl, inr,
}
use godot_dn_dsimulator.Base.Sort.{
  insert, All-insert, insert-IsSorted, In-insert, In-insert_old, TotalPreorder,
}
use godot_dn_dsimulator.Base.Sort.{lex-TotalPreorder, TotalPreorder-on}
use godot_dn_dsimulator.Base.Int.{integer_order, leb_ℤ}
use godot_dn_dsimulator.Spatial.Model.{GridCell, same_cell, cell_leb}
use godot_dn_dsimulator.Spatial.Search.{
  Search, Waiting, waiting_leb, Visit, Progress, find_visit, put_visit, is_within, improves,
}
use godot_dn_dsimulator.Spatial.Search.Table.{same_cell_iff, same_cell_refl, find_visit-put_visit}
use godot_dn_dsimulator.Spatial.Search.Walks.{Edge}
use godot_dn_dsimulator.Spatial.Search.Invariant.{
  Found, IsLower, Found-IsLower, Origin, entry, root, IsSearched, IsOpen, improved,
}

pub number_order : TotalPreorder leb
number_order = record { total = λ a b. ground arith; trans = λ a b c p r. ground arith }

pub cell_order : TotalPreorder cell_leb
unfolding cell_leb
cell_order =
    lex-TotalPreorder _ _ (TotalPreorder-on (λ (c : GridCell). c.x) leb_ℤ integer_order)
      (TotalPreorder-on (λ (c : GridCell). c.y) leb_ℤ integer_order)

pub waiting_order : TotalPreorder waiting_leb
waiting_order =
    lex-TotalPreorder _ _ (TotalPreorder-on (λ (w : Waiting). w.priority) leb number_order) (
      lex-TotalPreorder _ _ (TotalPreorder-on (λ (w : Waiting). w.cost) leb number_order)
        (TotalPreorder-on (λ (w : Waiting). w.cell) cell_leb cell_order))

-- a read of the table after an assignment
put_cases :
    (u : Visit) (table : List Visit) (w : GridCell) (visit : Visit)
    → find_visit w (put_visit u table) ≡ some visit
    → ((w ≡ u.cell) × (visit ≡ u))
      ⊎ ((same_cell u.cell w ≡ false) × (find_visit w table ≡ some visit))
put_cases u table w visit f =
    elim (if-eq (same_cell u.cell w) (some u) (find_visit w table)
      (sym (find_visit-put_visit w u table) ∙ f)) [
        | inl (same, e) ↦ inl (sym ((same_cell_iff u.cell w).0 same), cc)
        | inr p ↦ inr p
      ]

put_other :
    (u : Visit) (table : List Visit) (w : GridCell)
    → same_cell u.cell w ≡ false
    → find_visit w (put_visit u table) ≡ find_visit w table
put_other u table w other = find_visit-put_visit w u table ∙ rw other

put_self : (u : Visit) (table : List Visit) → find_visit u.cell (put_visit u table) ≡ some u
put_self u table = find_visit-put_visit u.cell u table ∙ rw (same_cell_refl u.cell)

-- an assignment that improves a cell lowers the costs
put-IsLower :
    (u : Visit) (table : List Visit)
    → improves (find_visit u.cell table) u.cost ≡ true
    → IsLower table (put_visit u table)
put-IsLower u table better v visit found = elim (Bool-cases (same_cell u.cell v)) [
  | inl same ↦
      let e : u.cell ≡ v = (same_cell_iff u.cell v).0 same in
      let cheaper : improves (some visit) u.cost ≡ true =
        subst (λ o. improves o u.cost ≡ true) (ap (λ c. find_visit c table) e ∙ found) better in
      (u, find_visit-put_visit v u table ∙ rw same, ground arith)
  | inr other ↦ (visit, put_other u table v other ∙ found, ground arith)
]

-- a cell that is in the table at no more than the new cost is another one
other_cell :
    (u : Visit) (table : List Visit) (v : GridCell) (visit : Visit)
    → improves (find_visit u.cell table) u.cost ≡ true
    → find_visit v table ≡ some visit
    → visit.cost ≤ u.cost
    → same_cell u.cell v ≡ false
other_cell u table v visit better found le = elim (Bool-cases (same_cell u.cell v)) [
  | inl same ↦
      let e : u.cell ≡ v = (same_cell_iff u.cell v).0 same in
      let cheaper : improves (some visit) u.cost ≡ true =
        subst (λ o. improves o u.cost ≡ true) (ap (λ c. find_visit c table) e ∙ found) better in
      absurd (ground arith)
  | inr other ↦ other
]

module _ (q : Search) (h : GridCell → ℕ) (start : GridCell) (g : Progress)
    (s : IsSearched q h start g) (u : GridCell) (vu : Visit) (at : find_visit u g.table ≡ some vu)
    (c : GridCell) (k n : ℕ) (edge : Edge q u c k) (sum : vu.cost + k ≡ n)
    (within : is_within q.budget n ≡ true) (better : improves (find_visit c g.table) n ≡ true) where
  abbrev new : Visit
  new = record { cell = c; cost = n; origin = some u }

  pub improved-IsLower : IsLower g.table (improved q h start g u n c).table
  improved-IsLower = put-IsLower new g.table better

  -- the cell that is expanded stays as it is
  pub improved_same : find_visit u (improved q h start g u n c).table ≡ some vu
  improved_same = put_other new g.table u (other_cell new g.table u vu better at (omega arith)) ∙ at

  pub improved-Found : Found (improved q h start g u n c).table c n
  improved-Found = (new, put_self new g.table, omega arith)

  improved_reached :
      (v : GridCell) (visit : Visit)
      → find_visit v (improved q h start g u n c).table ≡ some visit
      → (v ≡ start) ⊎ Origin q h start (improved q h start g u n c).table v visit
  improved_reached v visit f = elim (put_cases new g.table v visit f) [
    | inl (here_v, e) ↦ inr (record {
      from = u;
      before = vu;
      toll = k;
      found = improved_same;
      origin = ap (λ (x : Visit). x.origin) e;
      edge = subst (λ x. Edge q u x k) (sym here_v) edge;
      dearer = rw e (omega arith);
    })
    | inr (_, old) ↦ elim (s.reached v visit old) [
      | inl e ↦ inl e
      | inr o ↦
          let (before', found', le) = improved-IsLower o.from o.before o.found in
          inr (record {
            from = o.from;
            before = before';
            toll = o.toll;
            found = found';
            origin = o.origin;
            edge = o.edge;
            dearer = let d : _ ≤ _ = o.dearer in omega arith;
          })
    ]
  ]

  pub improved-IsSearched : IsSearched q h start (improved q h start g u n c)
  improved-IsSearched = record {
    rooted =
        put_other new g.table start
          (other_cell new g.table start (root q h start) better s.rooted (omega arith))
        ∙ s.rooted;
    reached = improved_reached;
    afforded = λ v visit f. elim (put_cases new g.table v visit f) [
      | inl (_, e) ↦ subst (λ (x : Visit). is_within q.budget x.cost ≡ true) (sym e) within
      | inr (_, old) ↦ s.afforded v visit old
    ];
    keyed =
        All-insert (λ w. w.priority ≡ w.cost + h w.cell) waiting_leb (entry q h start c n)
          g.frontier refl s.keyed;
    sorted = insert-IsSorted waiting_order (entry q h start c n) g.frontier s.sorted;
  }

  pub improved-IsOpen :
      {P : GridCell → Type 0}
      → IsOpen q h start P g
      → IsOpen q h start P (improved q h start g u n c)
  improved-IsOpen opens v visit f = elim (put_cases new g.table v visit f) [
    | inl (here_v, e) ↦ inl (
        subst (λ w. In w (insert waiting_leb (entry q h start c n) g.frontier)) (rw (here_v, e))
          (In-insert waiting_leb (entry q h start c n) g.frontier))
    | inr (_, old) ↦ elim (opens v visit old) [
      | inl waits ↦ inl (In-insert_old waiting_leb (entry q h start c n) g.frontier waits)
      | inr (inl closed) ↦
          inr (inl (λ w j e b. Found-IsLower g.table _ w _ improved-IsLower (closed w j e b)))
      | inr (inr p) ↦ inr (inr p)
    ]
  ]
