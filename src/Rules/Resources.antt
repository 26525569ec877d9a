-- ===== src/Rules/Resources.antt =====
-- rules/resources.py: costs are added up by resource and taken from the pools.
use godot_dn_dsimulator.Base.{
  ◌+◌, Bool, List, [], ◌∷◌, leb, if◌then◌else◌, Result, ok, validation_error, or_raise, fold_result,
  ◌>>=◌,
}
use godot_dn_dsimulator.Base.Int.{pos, neg}
use godot_dn_dsimulator.Base.Text.{text_eq, text_leb}
use godot_dn_dsimulator.Base.Sort.{sort, lex}
use godot_dn_dsimulator.Base.Keyed.{find_key, put_key}
use godot_dn_dsimulator.Rules.Primitives.{
  ResourcePool, ResourceCost, resource_key, resource_cost, with_delta,
}
use godot_dn_dsimulator.Rules.State.{RuleSubjectState, rule_subject}

pub record ResourceSpendResult : Type 0 where
  pub subject : RuleSubjectState
  pub spent : List ResourceCost

-- `aggregated[cost.resource_id] += cost.amount`: a new key goes to the end
unfoldable pub add_cost : ResourceCost → List ResourceCost → List ResourceCost
add_cost c [] = c ∷ []
add_cost c (t ∷ ts) =
    if text_eq t.resource_id c.resource_id
    then record t { amount = t.amount + c.amount } ∷ ts
    else t ∷ add_cost c ts

unfoldable pub aggregate : List ResourceCost → List ResourceCost → List ResourceCost
unfolding add_cost
aggregate totals [] = totals
aggregate totals (c ∷ cs) = aggregate (add_cost c totals) cs

-- the order of the pairs `(resource_id, amount)`
abbrev pub cost_leb : ResourceCost → ResourceCost → Bool
cost_leb = lex (λ a b. text_leb a.resource_id b.resource_id) (λ a b. leb a.amount b.amount)

-- one round of the loop over the totals
unfoldable pub spend_one : List ResourcePool → ResourceCost → Result (List ResourcePool)
spend_one pools c = do
  pool ← or_raise (find_key resource_key c.resource_id pools) validation_error
  left ← with_delta pool (neg (pos c.amount))
  ok (put_key resource_key left pools)

unfoldable pub spend_all : List ResourcePool → List ResourceCost → Result (List ResourcePool)
spend_all = fold_result spend_one

abbrev pub construct_costs : List ResourceCost → Result (List ResourceCost)
construct_costs [] = ok []
construct_costs (c ∷ cs) = do d ← resource_cost c; ds ← construct_costs cs; ok (d ∷ ds)

unfoldable pub spend_costs : RuleSubjectState → List ResourceCost → Result ResourceSpendResult
spend_costs subject costs = do
  pools ← spend_all subject.resources (sort cost_leb (aggregate [] costs))
  updated ← rule_subject (record subject { resources = pools })
  spent ← construct_costs (sort cost_leb (aggregate [] costs))
  ok (record { subject = updated; spent = spent })
