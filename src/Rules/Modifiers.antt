-- ===== src/Rules/Modifiers.antt =====
-- rules/modifiers.py: the modifier pipeline with its stacking groups.
use godot_dn_dsimulator.Base.{
  ℕ, Bool, true, false, not, Option, none, some, List, [], ◌∷◌, ◌++◌, leb, if◌then◌else◌, filter,
  all, Result, ok, validation_error, guard, ◌>>=◌, ◌>>◌,
}
use godot_dn_dsimulator.Base.Int.{ℤ, ◌+ℤ◌, leb_ℤ, max_ℤ, min_ℤ}
use godot_dn_dsimulator.Base.Text.{Text, text_eq, text_leb, is_blank}
use godot_dn_dsimulator.Base.Sort.{sort, lex}
use godot_dn_dsimulator.Base.Keyed.{has_key, key_leb}
use godot_dn_dsimulator.Rules.State.{or_empty, is_named}

pub data ModifierOperation : Type 0 where
  set add minimum maximum : ModifierOperation

pub data StackingRule : Type 0 where
  stack highest lowest replace : StackingRule

pub record RuleModifier : Type 0 where
  pub modifier_id : Text
  pub value : ℤ
  pub operation : ModifierOperation
  pub priority : ℤ
  pub stacking_key : Option Text
  pub stacking_rule : StackingRule
  pub source_id : Option Text

abbrev pub modifier_key : RuleModifier → Text
modifier_key m = m.modifier_id

unfoldable pub rule_modifier : RuleModifier → Result RuleModifier
rule_modifier m = do
  guard (not (is_blank m.modifier_id)) validation_error
  guard (is_named m.stacking_key) validation_error
  guard (is_named m.source_id) validation_error
  ok m

pub record ModifierResolution : Type 0 where
  pub base_value : ℤ
  pub final_value : ℤ
  pub applied : List RuleModifier
  pub suppressed : List RuleModifier

-- `first is second` of two stacking rules
abbrev pub same_rule : StackingRule → StackingRule → Bool
same_rule stack stack = true
same_rule highest highest = true
same_rule lowest lowest = true
same_rule replace replace = true
same_rule _ _ = false

abbrev by_id : RuleModifier → RuleModifier → Bool
by_id a b = text_leb a.modifier_id b.modifier_id

abbrev by_priority : RuleModifier → RuleModifier → Bool
by_priority a b = leb_ℤ a.priority b.priority

-- the key of `max` for the highest, and of `min` for the lowest: a higher priority comes first there
abbrev pub highest_leb : RuleModifier → RuleModifier → Bool
highest_leb = lex (λ a b. leb_ℤ a.value b.value) (lex by_priority by_id)

abbrev pub lowest_leb : RuleModifier → RuleModifier → Bool
lowest_leb = lex (λ a b. leb_ℤ a.value b.value) (lex (λ a b. by_priority b a) by_id)

abbrev pub replace_leb : RuleModifier → RuleModifier → Bool
replace_leb = lex by_priority by_id

-- `max(...)`: the first of the greatest
unfoldable pub max_by :
    (RuleModifier → RuleModifier → Bool) → RuleModifier → List RuleModifier → RuleModifier
max_by le best [] = best
max_by le best (m ∷ ms) = max_by le (if le m best then best else m) ms

-- `min(...)`: the first of the least
unfoldable pub min_by :
    (RuleModifier → RuleModifier → Bool) → RuleModifier → List RuleModifier → RuleModifier
min_by le best [] = best
min_by le best (m ∷ ms) = min_by le (if le best m then best else m) ms

-- the choice in a group with a first modifier
unfoldable pub choose_by : StackingRule → RuleModifier → List RuleModifier → List RuleModifier
unfolding max_by min_by
choose_by stack m ms = m ∷ ms
choose_by highest m ms = max_by highest_leb m ms ∷ []
choose_by lowest m ms = min_by lowest_leb m ms ∷ []
choose_by replace m ms = max_by replace_leb m ms ∷ []

-- `_choose_group`: a group that mixes rules is refused
unfoldable pub choose_group : RuleModifier → List RuleModifier → Result (List RuleModifier)
choose_group m ms = do
  guard (all (λ n. same_rule n.stacking_rule m.stacking_rule) ms) validation_error
  ok (choose_by m.stacking_rule m ms)

pub record Group : Type 0 where
  pub first : RuleModifier
  pub others : List RuleModifier

abbrev same_stack : RuleModifier → RuleModifier → Bool
same_stack a b = text_eq (or_empty a.stacking_key) (or_empty b.stacking_key)

abbrev put_group : RuleModifier → List Group → List Group
put_group m [] = record { first = m; others = [] } ∷ []
put_group m (g ∷ gs) =
    if same_stack m g.first
    then record { first = m; others = g.first ∷ g.others } ∷ gs
    else record { first = m; others = [] } ∷ g ∷ gs

-- `groupby` of the sorted modifiers by their stacking key
unfoldable pub group_by_key : List RuleModifier → List Group
group_by_key [] = []
group_by_key (m ∷ ms) = put_group m (group_by_key ms)

abbrev is_grouped : RuleModifier → Bool
is_grouped m = elim m.stacking_key [ none ↦ false | some _ ↦ true ]

abbrev grouped_leb : RuleModifier → RuleModifier → Bool
grouped_leb = lex (λ a b. text_leb (or_empty a.stacking_key) (or_empty b.stacking_key)) by_id

-- `selected` and `suppressed`
abbrev pub Selection : Type 0
Selection = List RuleModifier × List RuleModifier

abbrev not_chosen : List RuleModifier → RuleModifier → Bool
not_chosen chosen m = not (has_key modifier_key m.modifier_id chosen)

-- the loop over the groups
unfoldable pub select_groups : Selection → List Group → Result Selection
select_groups s [] = ok s
select_groups (selected, suppressed) (g ∷ gs) = do
  chosen ← choose_group g.first g.others
  select_groups (selected ++ chosen, suppressed ++ filter (not_chosen chosen) (g.first ∷ g.others))
      gs

abbrev operation_order : ModifierOperation → ℕ
operation_order set = 0
operation_order add = 1
operation_order minimum = 2
operation_order maximum = 3

abbrev pub applied_leb : RuleModifier → RuleModifier → Bool
applied_leb =
    lex by_priority
      (lex (λ a b. leb (operation_order a.operation) (operation_order b.operation)) by_id)

abbrev pub operate : ModifierOperation → ℤ → ℤ → ℤ
operate set n value = n
operate add n value = value +ℤ n
operate minimum n value = max_ℤ value n
operate maximum n value = min_ℤ value n

unfoldable pub apply_modifiers : ℤ → List RuleModifier → ℤ
apply_modifiers value [] = value
apply_modifiers value (m ∷ ms) = apply_modifiers (operate m.operation m.value value) ms

-- the value that is returned for a selection
unfoldable pub resolution : ℤ → Selection → ModifierResolution
resolution base_value (selected, suppressed) = record {
  base_value = base_value;
  final_value = apply_modifiers base_value (sort applied_leb selected);
  applied = sort applied_leb selected;
  suppressed = sort (key_leb modifier_key) suppressed;
}

-- what the loop over the groups selects and suppresses
abbrev pub select_modifiers : List RuleModifier → Result Selection
select_modifiers modifiers =
    select_groups (filter (λ m. not (is_grouped m)) modifiers, [])
      (group_by_key (sort grouped_leb (filter is_grouped modifiers)))

unfoldable pub resolve_modifiers : ℤ → List RuleModifier → Result ModifierResolution
resolve_modifiers base_value modifiers = do
  s ← select_modifiers modifiers
  ok (resolution base_value s)
