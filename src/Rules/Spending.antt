-- ===== src/Rules/Spending.antt =====
-- rules/resources.py: each pool before and after `spend_costs`.
use mathlib.Core.Path.{subst}
use godot_dn_dsimulator.Base.{
  ℕ, suc, ◌+◌, ◌≡◌, refl, ap, ◌∙◌, sym, Bool, true, List, [], ◌∷◌, arith, Option, none, some, ok,
  validation_error, >>=-eq-ok, or_raise, or_raise-eq-ok, ok-injective, if◌then◌else◌, Bool-cases,
  inl, inr,
}
use godot_dn_dsimulator.Base.Int.{pos_part, neg_part, ℤ, pos, neg, ◌+ℤ◌, int_laws}
use godot_dn_dsimulator.Base.Text.{Text, text_eq, text_eq_iff}
use godot_dn_dsimulator.Base.Sort.{insert, sort}
use godot_dn_dsimulator.Base.Keyed.{
  find_key, unique_keys, find_key-put_key, find_key-sort, find_key-key, key_leb,
}
use godot_dn_dsimulator.Rules.Primitives.{
  ResourcePool, ResourceCost, resource_key, resource_pool, with_delta,
}
use godot_dn_dsimulator.Rules.State.{RuleSubjectState, rule_subject, resource}
use godot_dn_dsimulator.Rules.Resources.{
  ResourceSpendResult, add_cost, aggregate, cost_leb, spend_one, spend_all, spend_costs,
  construct_costs,
}

-- The costs of one resource added up.
unfoldable pub total_cost : Text → List ResourceCost → ℕ
total_cost id [] = 0
total_cost id (c ∷ cs) = (if text_eq c.resource_id id then c.amount else 0) + total_cost id cs

total_cost-add_cost :
    (id : Text) (c : ResourceCost) (totals : List ResourceCost)
    → total_cost id (add_cost c totals) ≡ total_cost id (c ∷ totals)
unfolding total_cost add_cost
total_cost-add_cost id c [] = refl
total_cost-add_cost id c (t ∷ ts) =
    ground (arith, total_cost-add_cost id c ts, text_eq_iff t.resource_id c.resource_id)

total_cost-aggregate :
    (id : Text) (costs totals : List ResourceCost)
    → total_cost id (aggregate totals costs) ≡ total_cost id totals + total_cost id costs
unfolding total_cost aggregate
total_cost-aggregate id [] totals = omega arith
total_cost-aggregate id (c ∷ cs) totals =
    omega (arith, total_cost-aggregate id cs (add_cost c totals), total_cost-add_cost id c totals)

total_cost-insert :
    (le : ResourceCost → ResourceCost → Bool) (id : Text) (c : ResourceCost)
    (cs : List ResourceCost)
    → total_cost id (insert le c cs) ≡ total_cost id (c ∷ cs)
unfolding total_cost insert
total_cost-insert le id c [] = refl
total_cost-insert le id c (d ∷ ds) = ground (arith, total_cost-insert le id c ds)

total_cost-sort :
    (le : ResourceCost → ResourceCost → Bool) (id : Text) (cs : List ResourceCost)
    → total_cost id (sort le cs) ≡ total_cost id cs
unfolding total_cost sort
total_cost-sort le id [] = refl
total_cost-sort le id (c ∷ cs) =
    omega (arith, total_cost-insert le id c (sort le cs), total_cost-sort le id cs)

-- One pool before and after spending an amount from it.
pub record Pays (before after : ResourcePool) (amount : ℕ) : Type 0 where
  pub same_id : after.resource_id ≡ before.resource_id
  pub exact : after.current +ℤ pos amount ≡ before.current
  pub same_maximum : after.maximum ≡ before.maximum
  pub same_minimum : after.minimum ≡ before.minimum

taken_back : (x : ℤ) (n : ℕ) → x +ℤ neg (pos n) +ℤ pos n ≡ x
taken_back x ℕ.zero = omega int_laws
taken_back x (suc n) = omega int_laws

with_delta-Pays :
    (p q : ResourcePool) (amount : ℕ) → with_delta p (neg (pos amount)) ≡ ok q → Pays p q amount
unfolding with_delta resource_pool
with_delta-Pays p q amount h =
    let made : record p { current = p.current +ℤ neg (pos amount) } ≡ q = ground arith in
    record {
      same_id = ap (λ (x : ResourcePool). x.resource_id) (sym made);
      exact =
          ap (λ (x : ResourcePool). x.current +ℤ pos amount) (sym made)
          ∙ taken_back p.current amount;
      same_maximum = ap (λ (x : ResourcePool). x.maximum) (sym made);
      same_minimum = ap (λ (x : ResourcePool). x.minimum) (sym made);
    }

-- A pool that is found before and after, or found neither time.
pub Paid : Option ResourcePool → Option ResourcePool → ℕ → Type 0
Paid none none amount = Unit
Paid (some p) (some q) amount = Pays p q amount
Paid _ _ amount = ⊥

Paid-zero : (o : Option ResourcePool) → Paid o o 0
unfolding Paid
Paid-zero none = tt
Paid-zero (some p) = record {
  same_id = refl;
  exact = omega int_laws;
  same_maximum = refl;
  same_minimum = refl;
}

Pays-then : (p q r : ResourcePool) (m n : ℕ) → Pays p q m → Pays q r n → Pays p r (m + n)
Pays-then p q r m n first second = record {
  same_id = second.same_id ∙ first.same_id;
  exact = omega (
    int_laws,
    ap pos_part first.exact,
    ap neg_part first.exact,
    ap pos_part second.exact,
    ap neg_part second.exact,
  );
  same_maximum = second.same_maximum ∙ first.same_maximum;
  same_minimum = second.same_minimum ∙ first.same_minimum;
}

Paid-then :
    (o o' o'' : Option ResourcePool) (m n : ℕ) → Paid o o' m → Paid o' o'' n → Paid o o'' (m + n)
unfolding Paid
Paid-then none none none m n h k = tt
Paid-then (some p) (some q) (some r) m n h k = Pays-then p q r m n h k
Paid-then none none (some r) m n h k = absurd k
Paid-then none (some q) o'' m n h k = absurd h
Paid-then (some p) none o'' m n h k = absurd h
Paid-then (some p) (some q) none m n h k = absurd k

-- what one round of the loop leaves of every pool
spend_one-Paid :
    (pools pools' : List ResourcePool) (c : ResourceCost) (id : Text)
    → spend_one pools c ≡ ok pools'
    → Paid
        (find_key resource_key id pools)
        (find_key resource_key id pools')
        (if text_eq c.resource_id id then c.amount else 0)
unfolding spend_one Paid
spend_one-Paid pools pools' c id h =
    let (pool, sought, h1) =
      >>=-eq-ok (or_raise (find_key resource_key c.resource_id pools) validation_error) _ h in
    let (left, taken, built) = >>=-eq-ok (with_delta pool (neg (pos c.amount))) _ h1 in
    let found : find_key resource_key c.resource_id pools ≡ some pool = or_raise-eq-ok _ _ sought in
    let pays = with_delta-Pays pool left c.amount taken in
    let key : left.resource_id ≡ c.resource_id =
      pays.same_id ∙ find_key-key resource_key c.resource_id pools pool found in
    let now : find_key resource_key id pools'
        ≡ (if text_eq c.resource_id id then some left else find_key resource_key id pools) =
      ap (find_key resource_key id) (sym (ok-injective built))
      ∙ find_key-put_key resource_key id left pools
      ∙ ap (λ k. if text_eq k id then some left else find_key resource_key id pools) key in
    elim (Bool-cases (text_eq c.resource_id id)) [
      | inl here ↦
          let same : c.resource_id ≡ id = (text_eq_iff c.resource_id id).0 here in
          let before : find_key resource_key id pools ≡ some pool =
            ap (λ k. find_key resource_key k pools) (sym same) ∙ found in
          rw (now, here, before) pays
      | inr other ↦ rw (now, other) (Paid-zero (find_key resource_key id pools))
    ]

spend_all-Paid :
    (costs : List ResourceCost) (pools pools' : List ResourcePool) (id : Text)
    → spend_all pools costs ≡ ok pools'
    → Paid (find_key resource_key id pools) (find_key resource_key id pools') (total_cost id costs)
unfolding spend_all total_cost
spend_all-Paid [] pools pools' id h =
    subst (λ ps. Paid (find_key resource_key id pools) (find_key resource_key id ps) 0)
      (ok-injective h) (Paid-zero (find_key resource_key id pools))
spend_all-Paid (c ∷ cs) pools pools' id h =
    let (middle, one, rest) = >>=-eq-ok (spend_one pools c) _ h in
    Paid-then _ _ _ _ _ (spend_one-Paid pools middle c id one)
      (spend_all-Paid cs middle pools' id rest)

resources-rule_subject :
    (s t : RuleSubjectState) (id : Text) → rule_subject s ≡ ok t → resource t id ≡ resource s id
unfolding rule_subject resource
resources-rule_subject s t id h =
    let unique : unique_keys resource_key s.resources ≡ true = ground arith in
    let sorted : t.resources ≡ sort (key_leb resource_key) s.resources = ground arith in
    ap (find_key resource_key id) sorted
    ∙ find_key-sort resource_key (key_leb resource_key) id s.resources unique

-- When costs are spent, every resource of the subject has gone down by exactly the sum of its costs,
-- and the resources without costs are as before. No pool appears or disappears, and the bounds stay.
pub spend_costs-Paid :
    (s : RuleSubjectState) (costs : List ResourceCost) (r : ResourceSpendResult) (id : Text)
    → spend_costs s costs ≡ ok r
    → Paid (resource s id) (resource r.subject id) (total_cost id costs)
unfolding spend_costs resource
spend_costs-Paid s costs r id h =
    let totals : List ResourceCost = sort cost_leb (aggregate [] costs) in
    let (pools, paid, h1) = >>=-eq-ok (spend_all s.resources totals) _ h in
    let (updated, made, h2) = >>=-eq-ok (rule_subject (record s { resources = pools })) _ h1 in
    let (spent, _, built) = >>=-eq-ok (construct_costs totals) _ h2 in
    let same : updated ≡ r.subject =
      ap (λ (x : ResourceSpendResult). x.subject) (ok-injective built) in
    let now : find_key resource_key id r.subject.resources ≡ find_key resource_key id pools =
      ap (λ (x : RuleSubjectState). find_key resource_key id x.resources) (sym same)
      ∙ resources-rule_subject (record s { resources = pools }) updated id made in
    let amount : total_cost id totals ≡ total_cost id costs =
      total_cost-sort cost_leb id (aggregate [] costs)
      ∙ total_cost-aggregate id costs []
      ∙ unfold total_cost in omega arith in
    subst (λ o. Paid (find_key resource_key id s.resources) o (total_cost id costs)) (sym now)
      (subst (Paid (find_key resource_key id s.resources) (find_key resource_key id pools)) amount
        (spend_all-Paid totals s.resources pools id paid))
