-- ===== src/Spatial/Search/Best.antt =====
-- What the search has found when it ends: every cell at the least cost of a walk to it, or the cell
-- where it stopped at the least cost of a walk there.
use mathlib.Core.Path.{subst}
use godot_dn_dsimulator.Base.{
  ℕ, zero, suc, ◌+◌, ◌≤◌, ◌≡◌, refl, ap, ◌∙◌, true, false, In-cons, Option, none, some, List, [],
  ◌∷◌, arith, All, All-In, In, here, there, if◌then◌else◌, if-eq, ◌⊎◌, inl, inr, Result, ok,
  >>=-eq-ok, ok-injective,
}
use godot_dn_dsimulator.Base.Sort.{IsSorted}
use godot_dn_dsimulator.Spatial.Model.{GridCell}
use godot_dn_dsimulator.Spatial.Search.{
  Search, Waiting, waiting_leb, Visit, Progress, find_visit, is_within, is_stale, expand, pop,
  explore, relax,
}
use godot_dn_dsimulator.Spatial.Search.Walks.{Walk, stay, go, IsSound}
use godot_dn_dsimulator.Spatial.Search.Invariant.{Found, IsSearched, IsClosed, IsOpen, entry, root}
use godot_dn_dsimulator.Spatial.Search.Expand.{expanded}

pub is_within_le :
    (budget : Option ℕ) (m n : ℕ) → m ≤ n → is_within budget n ≡ true → is_within budget m ≡ true
is_within_le none m n le w = refl
is_within_le (some b) m n le w = ground arith

module _ (q : Search) (h : GridCell → ℕ) (sound : IsSound q h) (start : GridCell) where
  abbrev Nothing : GridCell → Type 0
  Nothing v = ⊥

  -- Along every walk within the budget, the table has the cell at the walk's cost or less, or the heap
  -- has an entry that is no more than the cost and the estimate together.
  along :
      (g : Progress)
      → IsSearched q h start g
      → IsOpen q h start Nothing g
      → {v : GridCell} {n : ℕ} → Walk q start v n
      → is_within q.budget n ≡ true
      → Found g.table v n ⊎ ((w : Waiting) × In w g.frontier × (w.priority ≤ n + h v))
  along g s opens stay within = inl (root q h start, s.rooted, omega arith)
  along g s opens {v = v} {n = m} (go {u = u} {n = n} {k = k} walk edge e) within =
      elim (along g s opens walk (is_within_le q.budget n m (omega arith) within)) [
        | inl (visit, found, le) ↦ elim (opens u visit found) [
          | inl waits ↦
              inr (entry q h start u visit.cost, waits, omega (arith, sound.consistent u v k edge))
          | inr (inl closed) ↦
              let (visit', found', le') =
                closed v k edge (is_within_le q.budget (visit.cost + k) m (omega arith) within) in
              inl (visit', found', omega arith)
          | inr (inr none_left) ↦ absurd none_left
        ]
        | inr (w, waits, le) ↦ inr (w, waits, omega (arith, sound.consistent u v k edge))
      ]

  -- the least costs, of all cells or of the cell where the search has stopped
  pub data Best (table : List Visit) : Type 0 where
    everywhere :
        ((v : GridCell) (n : ℕ) → Walk q start v n → is_within q.budget n ≡ true → Found table v n)
        → Best table
    at :
        (d : GridCell)
        → q.stops d ≡ true
        → ((n : ℕ) → Walk q start d n → is_within q.budget n ≡ true → Found table d n)
        → Best table

  ended :
      (g : Progress)
      → g.frontier ≡ []
      → IsSearched q h start g
      → IsOpen q h start Nothing g
      → Best g.table
  ended g none_left s opens = everywhere λ v n walk within. elim (along g s opens walk within) [
    | inl found ↦ found
    | inr (w, waits, _) ↦ absurd (elim (subst (In w) none_left waits) [ ])
  ]

  not_stale :
      (o : Option Visit) (n : ℕ)
      → is_stale o n ≡ false
      → (visit : Visit) × (o ≡ some visit) × (visit.cost ≡ n)
  not_stale none n f = absurd (cc f)
  not_stale (some visit) n f = (visit, refl, ground arith)

  stopped :
      (g : Progress) (w : Waiting) (ws : List Waiting)
      → g.frontier ≡ w ∷ ws
      → is_stale (find_visit w.cell g.table) w.cost ≡ false
      → q.stops w.cell ≡ true
      → IsSearched q h start g
      → IsOpen q h start Nothing g
      → Best g.table
  stopped g w ws front fresh stops s opens = at w.cell stops λ n walk within.
      elim (along g s opens walk within) [
        | inl found ↦ found
        | inr (w', waits, le) ↦
            let (visit, found, same) = not_stale (find_visit w.cell g.table) w.cost fresh in
            let least : w.priority ≤ w'.priority = head_least w' (subst (In w') front waits) in
            let key : w.priority ≡ w.cost + h w.cell =
              (subst (All (λ x. x.priority ≡ x.cost + h x.cell)) front s.keyed).0 in
            (visit, found, omega (arith, sound.arrived w.cell stops))
      ]
    where
      head_least : (w' : Waiting) → In w' (w ∷ ws) → w.priority ≤ w'.priority
      head_least w' here = omega arith
      head_least w' (there i) =
          let before : waiting_leb w w' ≡ true =
            All-In (λ x. waiting_leb w x ≡ true) ws (subst (IsSorted waiting_leb) front s.sorted).0
              i in
          ground arith

  popped-IsSearched :
      (g : Progress) (w : Waiting) (ws : List Waiting)
      → g.frontier ≡ w ∷ ws
      → IsSearched q h start g
      → IsSearched q h start (record g { frontier = ws })
  popped-IsSearched g w ws front s = record {
    rooted = s.rooted;
    reached = s.reached;
    afforded = s.afforded;
    keyed = (subst (All (λ x. x.priority ≡ x.cost + h x.cell)) front s.keyed).1;
    sorted = (subst (IsSorted waiting_leb) front s.sorted).1;
  }

  -- A cell of the table that does not wait behind the first entry is that entry's.
  popped_opens :
      (g : Progress) (w : Waiting) (ws : List Waiting)
      → g.frontier ≡ w ∷ ws
      → IsOpen q h start Nothing g
      → (v : GridCell) (visit : Visit) → find_visit v g.table ≡ some visit
      → In (entry q h start v visit.cost) ws
        ⊎ IsClosed q h start g.table v visit.cost
        ⊎ (entry q h start v visit.cost ≡ w)
  popped_opens g w ws front opens v visit f = elim (opens v visit f) [
    | inl waits ↦ elim (In-cons (subst (In (entry q h start v visit.cost)) front waits)) [
      | inl first ↦ inr (inr first)
      | inr later ↦ inl later
    ]
    | inr (inl closed) ↦ inr (inl closed)
    | inr (inr none_left) ↦ absurd none_left
  ]

  stale_opens :
      (g : Progress) (w : Waiting) (ws : List Waiting)
      → g.frontier ≡ w ∷ ws
      → is_stale (find_visit w.cell g.table) w.cost ≡ true
      → IsOpen q h start Nothing g
      → IsOpen q h start Nothing (record g { frontier = ws })
  stale_opens g w ws front stale opens v visit f =
      elim (popped_opens g w ws front opens v visit f) [
        | inl waits ↦ inl waits
        | inr (inl closed) ↦ inr (inl closed)
        | inr (inr e) ↦
            let stale' : is_stale (find_visit v g.table) visit.cost ≡ true =
              ap (λ (x : Waiting). is_stale (find_visit x.cell g.table) x.cost) e ∙ stale in
            absurd (not_itself visit (subst (λ o. is_stale o visit.cost ≡ true) f stale'))
      ]
    where
      not_itself : (visit : Visit) → is_stale (some visit) visit.cost ≡ true → ⊥
      not_itself visit t = ground arith

  fresh_opens :
      (g : Progress) (w : Waiting) (ws : List Waiting)
      → g.frontier ≡ w ∷ ws
      → IsOpen q h start Nothing g
      → IsOpen q h start (λ v. v ≡ w.cell) (record g { frontier = ws })
  fresh_opens g w ws front opens v visit f = elim (popped_opens g w ws front opens v visit f) [
    | inl waits ↦ inl waits
    | inr (inl closed) ↦ inr (inl closed)
    | inr (inr e) ↦ inr (inr (ap (λ (x : Waiting). x.cell) e))
  ]

  -- what holds of the progress that the search returns
  abbrev pub IsFinished : Progress → Type 0
  IsFinished g = IsSearched q h start g × Best g.table

  -- a round, if what follows it ends well
  pop-IsFinished :
      (later : Progress → Result Progress) (r : Progress)
      → ((g : Progress)
          → IsSearched q h start g
          → IsOpen q h start Nothing g
          → later g ≡ ok r
          → IsFinished r)
      → (g : Progress) (ws : List Waiting) → g.frontier ≡ ws
      → IsSearched q h start g
      → IsOpen q h start Nothing g
      → pop q later g ws ≡ ok r
      → IsFinished r
  unfolding pop expand
  pop-IsFinished later r ih g [] front s opens run =
      subst IsFinished (ok-injective run) (s, ended g front s opens)
  pop-IsFinished later r ih g (w ∷ ws) front s opens run =
      let popped : Progress = record g { frontier = ws } in
      let s' : IsSearched q h start popped = popped-IsSearched g w ws front s in
      elim (if-eq (is_stale (find_visit w.cell g.table) w.cost) (later popped)
        (if q.stops w.cell then ok popped else expand q later popped w) run) [
          | inl (stale, run') ↦ ih popped s' (stale_opens g w ws front stale opens) run'
          | inr (fresh, run') ↦
              elim (if-eq (q.stops w.cell) (ok popped) (expand q later popped w) run') [
                | inl (stops, run'') ↦
                    subst IsFinished (ok-injective run'')
                      (s', stopped g w ws front fresh stops s opens)
                | inr (_, run'') ↦
                    let (around, ns, run₁) = >>=-eq-ok (q.neighbors w.cell) _ run'' in
                    let (g', relaxed, run₂) =
                      >>=-eq-ok (relax q w.cell w.cost popped around) _ run₁ in
                    let (visit, found, same) = not_stale (find_visit w.cell g.table) w.cost fresh in
                    let (s'', opens'') =
                      expanded q h sound start w.cell visit around popped g' ns s'
                        (fresh_opens g w ws front opens) found
                        (ap (λ n. relax q w.cell n popped around) same ∙ relaxed) in
                    ih g' s'' opens'' run₂
              ]
        ]

  -- The search ends with the least costs, from any progress that satisfies the invariant.
  pub explore-IsFinished :
      (fuel : ℕ) (g r : Progress)
      → IsSearched q h start g
      → IsOpen q h start Nothing g
      → explore q fuel g ≡ ok r
      → IsFinished r
  unfolding explore
  explore-IsFinished zero g r s opens e = absurd (cc e)
  explore-IsFinished (suc fuel) g r s opens e =
      pop-IsFinished (explore q fuel) r (λ g'. explore-IsFinished fuel g' r) g g.frontier refl s
        opens e
