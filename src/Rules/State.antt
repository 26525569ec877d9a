-- ===== src/Rules/State.antt =====
-- rules/state.py: durations, conditions, and the subjects and worlds that rules read and change.
use godot_dn_dsimulator.Base.{
  ℕ, ◌-◌, Bool, true, false, not, Option, none, some, List, [], ◌∷◌, leb, ◌==◌, if◌then◌else◌, all,
  Result, ok, err, validation_error, guard, or_raise, ◌>>◌,
}
use godot_dn_dsimulator.Base.Int.{ℤ, pos, negsuc}
use godot_dn_dsimulator.Base.Text.{Text, text, text_leb, is_blank, is_empty}
use godot_dn_dsimulator.Base.Sort.{sort, lex}
use godot_dn_dsimulator.Base.Keyed.{find_key, has_key, unique_keys, replace_key, key_leb}
use godot_dn_dsimulator.Rules.Primitives.{ResourcePool, resource_key}

pub data DurationUnit : Type 0 where
  ticks rounds turns permanent : DurationUnit

unfoldable pub unit_value : DurationUnit → Text
unit_value ticks = text "ticks"
unit_value rounds = text "rounds"
unit_value turns = text "turns"
unit_value permanent = text "permanent"

abbrev pub is_permanent : DurationUnit → Bool
is_permanent permanent = true
is_permanent _ = false

-- `first is second` of two units
unfoldable pub same_unit : DurationUnit → DurationUnit → Bool
same_unit ticks ticks = true
same_unit rounds rounds = true
same_unit turns turns = true
same_unit permanent permanent = true
same_unit _ _ = false

pub record Duration : Type 0 where
  pub unit : DurationUnit
  pub remaining : Option ℕ

-- a permanent duration has no remaining value, another one at least 1
unfoldable pub is_duration : DurationUnit → Option ℕ → Bool
is_duration permanent none = true
is_duration permanent (some _) = false
is_duration _ none = false
is_duration _ (some n) = leb 1 n

unfoldable pub duration : Duration → Result Duration
unfolding is_duration
duration d = do guard (is_duration d.unit d.remaining) validation_error; ok d

-- what is left of a duration that is not permanent
unfoldable pub shorten : DurationUnit → Option ℕ → ℕ → Option Duration
shorten unit none amount = none
shorten unit (some n) amount =
    if leb n amount then none else some (record { unit = unit; remaining = some (n - amount) })

-- `Duration.advance`: nothing is left of a duration that ends
unfoldable pub advance_duration : Duration → ℕ → Option Duration
unfolding shorten
advance_duration d amount =
    if is_permanent d.unit
    then some d
    else if amount == 0
    then some d
    else shorten d.unit d.remaining amount

pub record ConditionInstance : Type 0 where
  pub condition_id : Text
  pub source_id : Option Text
  pub duration : Option Duration
  pub stacks : ℕ

abbrev pub condition_key : ConditionInstance → Text
condition_key c = c.condition_id

abbrev pub is_named : Option Text → Bool
is_named none = true
is_named (some s) = not (is_blank s)

unfoldable pub condition_instance : ConditionInstance → Result ConditionInstance
condition_instance c = do
  guard (not (is_blank c.condition_id)) validation_error
  guard (is_named c.source_id) validation_error
  guard (leb 1 c.stacks) validation_error
  ok c

-- `value or ""`
abbrev pub or_empty : Option Text → Text
or_empty none = []
or_empty (some s) = s

-- the order of `(condition_id, source_id or "", stacks)`
unfoldable pub condition_leb : ConditionInstance → ConditionInstance → Bool
condition_leb =
    lex (λ a b. text_leb a.condition_id b.condition_id)
      (lex (λ a b. text_leb (or_empty a.source_id) (or_empty b.source_id))
        (λ a b. leb a.stacks b.stacks))

pub record RuleSubjectState : Type 0 where
  pub subject_id : Text
  pub tags : List Text
  pub resources : List ResourcePool
  pub conditions : List ConditionInstance

abbrev pub subject_key : RuleSubjectState → Text
subject_key s = s.subject_id

unfoldable pub rule_subject : RuleSubjectState → Result RuleSubjectState
rule_subject s = do
  guard (not (is_blank s.subject_id)) validation_error
  guard (all (λ tag. not (is_empty tag)) s.tags) validation_error
  guard (unique_keys resource_key s.resources) validation_error
  ok (record s {
    resources = sort (key_leb resource_key) s.resources;
    conditions = sort condition_leb s.conditions;
  })

-- `RuleSubjectState.resource`
unfoldable pub resource : RuleSubjectState → Text → Option ResourcePool
resource s resource_id = find_key resource_key resource_id s.resources

-- `RuleSubjectState.has_condition`
unfoldable pub has_condition : RuleSubjectState → Text → Bool
has_condition s condition_id = has_key condition_key condition_id s.conditions

-- `RuleSubjectState.with_resource`
unfoldable pub with_resource : RuleSubjectState → ResourcePool → Result RuleSubjectState
with_resource s updated = do
  guard (has_key resource_key updated.resource_id s.resources) validation_error
  rule_subject (record s { resources = replace_key resource_key updated s.resources })

-- `RuleSubjectState.with_conditions`
unfoldable pub with_conditions : RuleSubjectState → List ConditionInstance → Result RuleSubjectState
with_conditions s conditions = rule_subject (record s { conditions = conditions })

-- what a condition with its duration advanced becomes
abbrev pub with_duration : ConditionInstance → Option Duration → Option ConditionInstance
with_duration c none = none
with_duration c (some d) = some (record c { duration = some d })

-- a round of the loop of `advance_condition_durations`
abbrev pub advance_if : ConditionInstance → Duration → ℕ → Bool → Option ConditionInstance
advance_if c d amount false = some c
advance_if c d amount true = with_duration c (advance_duration d amount)

abbrev pub advance_by :
    DurationUnit → ℕ → ConditionInstance → Option Duration → Option ConditionInstance
advance_by unit amount c none = some c
advance_by unit amount c (some d) = advance_if c d amount (same_unit d.unit unit)

unfoldable pub advance_condition : DurationUnit → ℕ → ConditionInstance → Option ConditionInstance
advance_condition unit amount c = advance_by unit amount c c.duration

abbrev pub keep : Option ConditionInstance → List ConditionInstance → List ConditionInstance
keep none rest = rest
keep (some c) rest = c ∷ rest

unfoldable pub advance_conditions :
    DurationUnit → ℕ → List ConditionInstance → List ConditionInstance
advance_conditions unit amount [] = []
advance_conditions unit amount (c ∷ cs) =
    keep (advance_condition unit amount c) (advance_conditions unit amount cs)

unfoldable pub advance_condition_durations :
    RuleSubjectState → DurationUnit → ℤ → Result RuleSubjectState
advance_condition_durations s unit (negsuc _) = err validation_error
advance_condition_durations s unit (pos amount) =
    with_conditions s (advance_conditions unit amount s.conditions)

pub record RuleWorldState : Type 0 where
  pub subjects : List RuleSubjectState

unfoldable pub rule_world : RuleWorldState → Result RuleWorldState
rule_world w = do
  guard (unique_keys subject_key w.subjects) validation_error
  ok (record { subjects = sort (key_leb subject_key) w.subjects })

-- `RuleWorldState.subject`
unfoldable pub subject : RuleWorldState → Text → Result RuleSubjectState
subject w subject_id = or_raise (find_key subject_key subject_id w.subjects) validation_error

-- `RuleWorldState.replace_subject`
unfoldable pub replace_subject : RuleWorldState → RuleSubjectState → Result RuleWorldState
replace_subject w updated = do
  guard (has_key subject_key updated.subject_id w.subjects) validation_error
  rule_world (record { subjects = replace_key subject_key updated w.subjects })
