-- ===== src/Spatial/Search/Ends.antt =====
-- The search ends: enough fuel gives its result, and no call of it raises.
use mathlib.Core.Path.{subst}
use godot_dn_dsimulator.Base.{
  ℕ, zero, suc, ◌+◌, ◌≤◌, ◌<◌, ◌≡◌, refl, sym, ap, ◌∙◌, true, false, ◌&&◌, Option, none, some, List,
  [], ◌∷◌, arith, All, length, if-eq, Bool-cases, ◌⊎◌, inl, inr, Result, ok, Returns,
}
use godot_dn_dsimulator.Base.Sort.{insert, All-insert}
use godot_dn_dsimulator.Spatial.Model.{GridCell, same_cell}
use godot_dn_dsimulator.Spatial.State.{has_cell}
use godot_dn_dsimulator.Spatial.Search.{
  Search, Waiting, waiting_leb, Visit, Progress, find_visit, put_visit, is_within, improves,
  is_stale, improve, relax_cost, relax_step, relax, expand, pop, explore,
}
use godot_dn_dsimulator.Spatial.Search.Table.{same_cell_iff, find_visit-put_visit}
use godot_dn_dsimulator.Spatial.Search.Measure.{
  missing, weight, IsBehind, put-IsBehind, Advances, Advances-trans,
}

-- what the calls of a search must do at the cells of `P`, whose neighbours are in `universe`
pub record IsTotal (q : Search) (P : GridCell → Type 0) (universe : List GridCell) : Type 0 where
  pub surrounded :
      (c : GridCell)
      → P c
      → (around : List GridCell) × (q.neighbors c ≡ ok around)
        × All (λ d. has_cell d universe ≡ true) around
  pub stepped : (c d : GridCell) → P c → Returns (q.step c d)
  pub kept : (c d : GridCell) (k : ℕ) → P c → q.step c d ≡ ok (some k) → P d
  pub estimated : (c : GridCell) → P c → Returns (q.heuristic c)

module _ (q : Search) (P : GridCell → Type 0) (universe : List GridCell)
    (total : IsTotal q P universe) where
  pub record IsGood (g : Progress) : Type 0 where
    pub tabled : (v : GridCell) (visit : Visit) → find_visit v g.table ≡ some visit → P v
    pub waiting : All (λ w. P w.cell) g.frontier

  -- what the rounds over the neighbours return
  pub record Relaxes (g : Progress) (outcome : Result Progress) : Type 0 where
    pub after : Progress
    pub returned : outcome ≡ ok after
    pub good : IsGood after
    pub advances : Advances universe g after

  improve-Relaxes :
      (g : Progress) (u : GridCell) (n : ℕ) (c : GridCell)
      → IsGood g
      → P c
      → has_cell c universe ≡ true
      → improves (find_visit c g.table) n ≡ true
      → Relaxes g (improve q g u n c)
  unfolding improve
  improve-Relaxes g u n c good p inside better =
      let (h, estimated) = total.estimated c p in
      let new : Visit = record { cell = c; cost = n; origin = some u } in
      let entry : Waiting = record { priority = n + h; cost = n; cell = c } in
      record {
        after = record {
          table = put_visit new g.table;
          frontier = insert waiting_leb entry g.frontier;
        };
        returned = rw estimated;
        good = record {
          tabled = λ v visit f.
              elim (if-eq (same_cell c v) (some new) (find_visit v g.table)
                (sym (find_visit-put_visit v new g.table) ∙ f)) [
                  | inl (same, _) ↦ subst P ((same_cell_iff c v).0 same) p
                  | inr (_, old) ↦ good.tabled v visit old
                ];
          waiting = All-insert (λ w. P w.cell) waiting_leb entry g.frontier p good.waiting;
        };
        advances = inr (put-IsBehind new g.table universe inside better);
      }

  relax_cost-Relaxes :
      (g : Progress) (u : GridCell) (n : ℕ) (c : GridCell)
      → IsGood g
      → P c
      → has_cell c universe ≡ true
      → Relaxes g (relax_cost q g u n c)
  unfolding relax_cost
  relax_cost-Relaxes g u n c good p inside =
      elim (Bool-cases (is_within q.budget n && improves (find_visit c g.table) n)) [
        | inl both ↦ rw both (improve-Relaxes g u n c good p inside (ground arith))
        | inr neither ↦
            rw neither (record { after = g; returned = refl; good = good; advances = inl refl })
      ]

  relax_step-Relaxes :
      (u : GridCell) (n : ℕ) (g : Progress) (c : GridCell) (o : Option ℕ)
      → P u
      → has_cell c universe ≡ true
      → IsGood g
      → q.step u c ≡ ok o
      → Relaxes g (relax_step q g u n c o)
  unfolding relax_step
  relax_step-Relaxes u n g c none p inside good stepped = record {
    after = g;
    returned = refl;
    good = good;
    advances = inl refl;
  }
  relax_step-Relaxes u n g c (some k) p inside good stepped =
      relax_cost-Relaxes g u (n + k) c good (total.kept u c k p stepped) inside

  relax-Relaxes :
      (u : GridCell) (n : ℕ) (g : Progress) (cs : List GridCell)
      → P u
      → All (λ c. has_cell c universe ≡ true) cs
      → IsGood g
      → Relaxes g (relax q u n g cs)
  unfolding relax
  relax-Relaxes u n g [] p inside good = record {
    after = g;
    returned = refl;
    good = good;
    advances = inl refl;
  }
  relax-Relaxes u n g (c ∷ cs) p inside good =
      let (o, stepped) = total.stepped u c p in
      let one = relax_step-Relaxes u n g c o p inside.0 good stepped in
      let rest = relax-Relaxes u n one.after cs p inside.1 one.good in
      record {
        after = rest.after;
        returned = rw (stepped, one.returned) (rest.returned);
        good = rest.good;
        advances = Advances-trans universe g one.after rest.after one.advances rest.advances;
      }

  -- a round of the loop: it is the last one, or what follows starts further on
  data Round (g : Progress) (ws : List Waiting) : Type 0 where
    over :
        (r : Progress)
        → ((later : Progress → Result Progress) → pop q later g ws ≡ ok r)
        → Round g ws
    more :
        (g' : Progress)
        → ((later : Progress → Result Progress) → pop q later g ws ≡ later g')
        → IsGood g'
        → IsBehind universe g.table g'.table
          ⊎ ((g'.table ≡ g.table) × (length g'.frontier < length ws))
        → Round g ws

  expand_round :
      (g : Progress) (w : Waiting) (ws : List Waiting)
      → IsGood (record g { frontier = ws })
      → P w.cell
      → is_stale (find_visit w.cell g.table) w.cost ≡ false
      → q.stops w.cell ≡ false
      → Round g (w ∷ ws)
  unfolding pop expand
  expand_round g w ws good p fresh goes =
      let (around, ns, inside) = total.surrounded w.cell p in
      let popped : Progress = record g { frontier = ws } in
      let relaxed = relax-Relaxes w.cell w.cost popped around p inside good in
      more relaxed.after (λ later. rw (fresh, goes, ns, relaxed.returned)) relaxed.good
        (elim (relaxed.advances) [
          | inl e ↦ inr (
            ap (λ (x : Progress). x.table) (sym e),
            subst (λ (x : Progress). length x.frontier < suc (length ws)) e (omega arith),
          )
          | inr behind ↦ inl behind
        ])

  round : (g : Progress) (ws : List Waiting) → IsGood g → g.frontier ≡ ws → Round g ws
  unfolding pop
  round g [] good front = over g (λ later. refl)
  round g (w ∷ ws) good front =
      let waiting : All (λ x. P x.cell) (w ∷ ws) = subst (All (λ x. P x.cell)) front good.waiting in
      let popped : IsGood (record g { frontier = ws }) = record {
        tabled = good.tabled;
        waiting = waiting.1;
      } in
      elim (Bool-cases (is_stale (find_visit w.cell g.table) w.cost)) [
        | inl stale ↦
            more (record g { frontier = ws }) (λ later. rw stale) popped (inr (refl, omega arith))
        | inr fresh ↦ elim (Bool-cases (q.stops w.cell)) [
          | inl stops ↦ over (record g { frontier = ws }) (λ later. rw (fresh, stops))
          | inr goes ↦ expand_round g w ws popped waiting.0 fresh goes
        ]
      ]

  -- with some fuel, and with any more, the search returns
  abbrev pub Ends : Progress → Type 0
  Ends g = (fuel : ℕ) × (r : Progress) × ((n : ℕ) → fuel ≤ n → explore q n g ≡ ok r)

  at_once :
      (g r : Progress)
      → ((later : Progress → Result Progress) → pop q later g g.frontier ≡ ok r)
      → (n : ℕ) → 1 ≤ n
      → explore q n g ≡ ok r
  unfolding explore
  at_once g r run zero le = absurd (omega arith)
  at_once g r run (suc n) le = run (explore q n)

  after_round :
      (g g' r : Progress) (fuel : ℕ)
      → ((later : Progress → Result Progress) → pop q later g g.frontier ≡ later g')
      → ((n : ℕ) → fuel ≤ n → explore q n g' ≡ ok r)
      → (n : ℕ) → suc fuel ≤ n
      → explore q n g ≡ ok r
  unfolding explore
  after_round g g' r fuel run ends zero le = absurd (omega arith)
  after_round g g' r fuel run ends (suc n) le = run (explore q n) ∙ ends n (omega arith)

  -- by the cells that are not in the table, then the costs, then the entries that wait
  ends :
      (a b c : ℕ) (g : Progress)
      → IsGood g
      → missing g.table universe < a
      → weight g.table < b
      → length g.frontier < c
      → Ends g
  ends zero b c g good m w l = absurd (omega arith)
  ends (suc a) zero c g good m w l = absurd (omega arith)
  ends (suc a) (suc b) zero g good m w l = absurd (omega arith)
  ends (suc a) (suc b) (suc c) g good m w l = elim (round g g.frontier good refl) [
    | over r run ↦ (1, r, at_once g r run)
    | more g' run good' (inl (inl fewer)) ↦
        let (fuel, r, ended) =
          ends a (suc (weight g'.table)) (suc (length g'.frontier)) g' good' (omega arith)
            (omega arith) (omega arith) in
        (suc fuel, r, after_round g g' r fuel run ended)
    | more g' run good' (inl (inr (no_more, lighter))) ↦
        let (fuel, r, ended) =
          ends (suc a) b (suc (length g'.frontier)) g' good' (omega arith) (omega arith)
            (omega arith) in
        (suc fuel, r, after_round g g' r fuel run ended)
    | more g' run good' (inr (same, shorter)) ↦
        let (fuel, r, ended) =
          ends (suc a) (suc b) c g' good' (rw same m) (rw same w) (omega arith) in
        (suc fuel, r, after_round g g' r fuel run ended)
  ]

  -- The search ends, from any progress whose cells are within reach of the calls.
  pub explore-Ends : (g : Progress) → IsGood g → Ends g
  explore-Ends g good =
      ends (suc (missing g.table universe)) (suc (weight g.table)) (suc (length g.frontier)) g good
        (omega arith) (omega arith) (omega arith)
