-- ===== src/Spatial/Search/Start.antt =====
-- What a search starts with, and ends with from there.
use mathlib.Core.Path.{subst}
use godot_dn_dsimulator.Base.{
  ℕ, ◌≡◌, refl, sym, ap, true, Option, none, some, arith, In, here, if-eq, inl, inr, ok,
}
use godot_dn_dsimulator.Spatial.Model.{GridCell, same_cell}
use godot_dn_dsimulator.Spatial.Search.{
  Search, Waiting, Visit, Progress, find_visit, is_within, explore, begin,
}
use godot_dn_dsimulator.Spatial.Search.Table.{same_cell_refl, same_cell_iff}
use godot_dn_dsimulator.Spatial.Search.Walks.{IsSound}
use godot_dn_dsimulator.Spatial.Search.Invariant.{IsSearched, IsOpen, entry, root}
use godot_dn_dsimulator.Spatial.Search.Best.{IsFinished, explore-IsFinished}

module _ (q : Search) (h : GridCell → ℕ) (sound : IsSound q h) (start : GridCell) where
  begin-IsSearched : IsSearched q h start (begin start (h start))
  unfolding begin find_visit
  begin-IsSearched = record {
    rooted = rw (same_cell_refl start);
    reached = λ v visit f. inl (only_start v visit f).0;
    afforded = λ v visit f.
        subst (λ (x : Visit). is_within q.budget x.cost ≡ true) (only_start v visit f).1
          (free q.budget);
    keyed = (omega arith, tt);
    sorted = (tt, tt);
  }
    where
      only_start :
          (v : GridCell) (visit : Visit)
          → find_visit v (begin start (h start)).table ≡ some visit
          → (v ≡ start) × (root q h start ≡ visit)
      only_start v visit f = elim (if-eq (same_cell start v) (some (root q h start)) none f) [
        | inl (same, e) ↦ (sym ((same_cell_iff start v).0 same), cc)
        | inr (_, e) ↦ absurd (cc e)
      ]

      free : (budget : Option ℕ) → is_within budget 0 ≡ true
      free none = refl
      free (some b) = ground arith

  begin_opens : IsOpen q h start (λ v. ⊥) (begin start (h start))
  unfolding begin find_visit
  begin_opens v visit f = elim (if-eq (same_cell start v) (some (root q h start)) none f) [
    | inl (same, e) ↦
        let here_v : start ≡ v = (same_cell_iff start v).0 same in
        let free : 0 ≡ visit.cost = ap (λ (x : Visit). x.cost) (some_injective e) in
        inl
          (subst (λ w. In w (begin start (h start)).frontier) (first v visit.cost here_v free) here)
    | inr (_, e) ↦ absurd (cc e)
  ]
    where
      some_injective : {a b : Visit} → some a ≡ some b → a ≡ b
      some_injective e = cc

      first :
          (v : GridCell) (n : ℕ)
          → start ≡ v
          → 0 ≡ n
          → ◌≡◌ {A = Waiting}
              (record { priority = h start; cost = 0; cell = start })
              (entry q h start v n)
      first v n same free =
          rw (← same, ← free)
            (ap (λ p. record { priority = p; cost = 0; cell = start }) (omega arith))

  -- The search from a start ends with the least costs.
  pub explore-begin :
      (fuel n : ℕ) (r : Progress)
      → q.heuristic start ≡ ok n
      → explore q fuel (begin start n) ≡ ok r
      → IsFinished q h sound start r
  explore-begin fuel n r measured e =
      explore-IsFinished q h sound start fuel (begin start (h start)) r begin-IsSearched begin_opens
        (subst (λ m. explore q fuel (begin start m) ≡ ok r) (sound.measured start n measured) e)
