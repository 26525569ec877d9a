-- ===== src/Spatial/Search/Back.antt =====
-- The path that is read off the table.
use mathlib.Core.Path.{subst}
use godot_dn_dsimulator.Base.{
  ℕ, zero, suc, ◌+◌, ◌≤◌, ◌<◌, ◌≡◌, refl, sym, ap, ◌∙◌, true, none, some, List, [], ◌∷◌, arith,
  Bool-cases, inl, inr, Result, ok, ◌>>=◌, or_raise, assertion_error,
}
use godot_dn_dsimulator.Spatial.Model.{GridCell, same_cell}
use godot_dn_dsimulator.Spatial.Search.{
  Search, Visit, Progress, find_visit, is_within, came_from, walk_back,
}
use godot_dn_dsimulator.Spatial.Search.Table.{same_cell_iff}
use godot_dn_dsimulator.Spatial.Search.Walks.{Walk, Walk-Chain, stay, Chain, last, step, IsSound}
use godot_dn_dsimulator.Spatial.Search.Invariant.{Found, IsSearched}
use godot_dn_dsimulator.Spatial.Search.Best.{Best, everywhere, at, IsFinished, is_within_le}

module _ (q : Search) (h : GridCell → ℕ) (sound : IsSound q h) (start : GridCell) where
  -- a path from the start, of a cost of at most `n`
  pub record IsLed (d : GridCell) (n : ℕ) (outcome : Result (List GridCell)) : Type 0 where
    pub path : List GridCell
    pub cost : ℕ
    pub returned : outcome ≡ ok (start ∷ path)
    pub chain : Chain q d start path cost
    pub cheap : cost ≤ n

  back :
      (fuel : ℕ) (g : Progress)
      → IsSearched q h start g
      → (d v : GridCell) (visit : Visit) (p : List GridCell) (m t : ℕ)
      → find_visit v g.table ≡ some visit
      → visit.cost < fuel
      → Chain q d v p m
      → visit.cost + m ≤ t
      → IsLed d t (walk_back start fuel g.table v (v ∷ p))
  unfolding walk_back
  back zero g s d v visit p m t found le chain cheap = absurd (omega arith)
  back (suc fuel) g s d v visit p m t found le chain cheap = elim (Bool-cases (same_cell v start)) [
    | inl home ↦
        let e : v ≡ start = (same_cell_iff v start).0 home in
        record {
          path = p;
          cost = m;
          returned = rw home (ap (λ x. ok (x ∷ p)) e);
          chain = subst (λ x. Chain q d x p m) e chain;
          cheap = omega arith;
        }
    | inr away ↦ elim (s.reached v visit found) [
      | inl e ↦ absurd (ground (arith, (same_cell_iff v start).1 e))
      | inr o ↦
          let toll : 1 ≤ o.toll = sound.positive o.from v o.toll o.edge in
          let dearer : o.before.cost + o.toll ≤ visit.cost = o.dearer in
          let led =
            back fuel g s d o.from o.before (v ∷ p) (o.toll + m) t o.found (omega arith)
              (step o.edge chain refl) (omega arith) in
          record {
            path = led.path;
            cost = led.cost;
            returned = rw away (
                ap (λ x. x >>= λ c. walk_back start fuel g.table c (c ∷ v ∷ p))
                  (ap came_from found ∙ ap (λ x. or_raise x assertion_error) o.origin)
                ∙ led.returned);
            chain = led.chain;
            cheap = led.cheap;
          }
    ]
  ]

  pub best_at :
      (table : List Visit) (d : GridCell)
      → ((c : GridCell) → q.stops c ≡ true → c ≡ d)
      → Best q h sound start table
      → (n : ℕ) → Walk q start d n
      → is_within q.budget n ≡ true
      → Found table d n
  best_at table d only (everywhere best) n walk within = best d n walk within
  best_at table d only (at c stops best) n walk within =
      subst (λ x. Found table x n) (only c stops)
        (best n (subst (λ x. Walk q start x n) (sym (only c stops)) walk) within)

  -- what a finished search says of a cell in the table: a path to it of exactly its cost, and no
  -- cheaper walk within the budget
  pub record IsShortest (fuel : ℕ) (table : List Visit) (d : GridCell) (cost : ℕ) : Type 0 where
    pub path : List GridCell
    pub returned : walk_back start fuel table d (d ∷ []) ≡ ok (start ∷ path)
    pub chain : Chain q d start path cost
    pub least : (n : ℕ) → Walk q start d n → is_within q.budget n ≡ true → cost ≤ n

  pub finished-IsShortest :
      (g : Progress) (d : GridCell) (visit : Visit)
      → IsFinished q h sound start g
      → ((c : GridCell) → q.stops c ≡ true → c ≡ d)
      → find_visit d g.table ≡ some visit
      → IsShortest (suc visit.cost) g.table d visit.cost
  finished-IsShortest g d visit (s, best) only found =
      let led =
        back (suc visit.cost) g s d d visit [] 0 visit.cost found (omega arith) last
          (omega arith) in
      let walk : Walk q start d led.cost = Walk-Chain stay led.chain (omega arith) in
      let cheap : led.cost ≤ visit.cost = led.cheap in
      let dear : visit.cost ≤ led.cost =
        least led.cost walk
          (is_within_le q.budget led.cost visit.cost cheap (s.afforded d visit found)) in
      record {
        path = led.path;
        returned = led.returned;
        chain = subst (Chain q d start led.path) (omega arith) led.chain;
        least = least;
      }
    where
      least : (n : ℕ) → Walk q start d n → is_within q.budget n ≡ true → visit.cost ≤ n
      least n walk within =
          let (visit', found', le) = best_at g.table d only best n walk within in
          let e : visit' ≡ visit = cc in rw (← e) le

  -- and of a cell that is not in the table
  pub finished_missing :
      (g : Progress) (d : GridCell)
      → IsFinished q h sound start g
      → ((c : GridCell) → q.stops c ≡ true → c ≡ d)
      → find_visit d g.table ≡ none
      → (n : ℕ) → Walk q start d n
      → is_within q.budget n ≡ true
      → ⊥
  finished_missing g d (s, best) only missing n walk within =
      let (visit, found, le) = best_at g.table d only best n walk within in cc
