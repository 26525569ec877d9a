-- ===== src/Rules/Effects.antt =====
-- rules/effects.py: effects on the resources and conditions of a world's subjects.
use godot_dn_dsimulator.Base.{
  ℕ, ◌+◌, Bool, true, false, not, Option, none, some, List, [], ◌∷◌, ◌++◌, leb, if◌then◌else◌,
  filter, Result, ok, validation_error, assertion_error, guard, or_raise, ◌>>=◌, ◌>>◌,
}
use godot_dn_dsimulator.Base.Int.{ℤ, pos}
use godot_dn_dsimulator.Base.Text.{Text, text_eq, is_blank}
use godot_dn_dsimulator.Base.Keyed.{remove_key, unique_keys}
use godot_dn_dsimulator.Rules.Primitives.{with_delta}
use godot_dn_dsimulator.Rules.State.{
  Duration, ConditionInstance, condition_key, condition_instance, RuleSubjectState, resource,
  with_resource, with_conditions, RuleWorldState, subject, replace_subject,
}
use godot_dn_dsimulator.Rules.Targets.{TargetSelector, select_targets}

pub data EffectKind : Type 0 where
  resource_delta apply_condition remove_condition : EffectKind

-- of rules/state.py
pub data ConditionStacking : Type 0 where
  unique refresh stack : ConditionStacking

pub record RuleEffect : Type 0 where
  pub effect_id : Text
  pub kind : EffectKind
  pub target_selector : TargetSelector
  pub resource_id : Option Text
  pub amount : ℤ
  pub condition_id : Option Text
  pub duration : Option Duration
  pub condition_stacking : ConditionStacking
  pub stacks : ℕ

abbrev pub is_given : Option Text → Bool
is_given none = false
is_given (some s) = not (is_blank s)

abbrev pub is_absent : Option Text → Bool
is_absent none = true
is_absent (some s) = false

-- which identifiers an effect of each kind has
abbrev pub fits_kind : EffectKind → Option Text → Option Text → Bool
fits_kind resource_delta resource_id condition_id = elim (is_given resource_id) [
  | true ↦ is_absent condition_id
  | false ↦ false
]
fits_kind _ resource_id condition_id = elim (is_given condition_id) [
  | true ↦ is_absent resource_id
  | false ↦ false
]

unfoldable pub rule_effect : RuleEffect → Result RuleEffect
rule_effect e = do
  guard (not (is_blank e.effect_id)) validation_error
  guard (leb 1 e.stacks) validation_error
  guard (fits_kind e.kind e.resource_id e.condition_id) validation_error
  ok e

pub record EffectApplication : Type 0 where
  pub effect_id : Text
  pub target_id : Text
  pub kind : EffectKind
  pub before : Option ℤ
  pub after : Option ℤ

abbrev pub effect_key : RuleEffect → Text
effect_key e = e.effect_id

pub record EffectBatchResult : Type 0 where
  pub world : RuleWorldState
  pub applications : List EffectApplication

-- the stacks of a condition on a subject, added up
unfoldable pub stacks_of : Text → List ConditionInstance → ℕ
stacks_of condition_id [] = 0
stacks_of condition_id (c ∷ cs) =
    (if text_eq c.condition_id condition_id then c.stacks else 0) + stacks_of condition_id cs

-- `matching`
unfoldable pub matching : Text → List ConditionInstance → List ConditionInstance
matching condition_id conditions = filter (λ c. text_eq c.condition_id condition_id) conditions

-- `sum(item.stacks for item in matching) if matching else None`
abbrev pub stacks_before : Text → List ConditionInstance → List ConditionInstance → Option ℤ
stacks_before condition_id conditions [] = none
stacks_before condition_id conditions (_ ∷ _) = some (pos (stacks_of condition_id conditions))

abbrev pub application : RuleEffect → RuleSubjectState → Option ℤ → Option ℤ → EffectApplication
application e s before after = record {
  effect_id = e.effect_id;
  target_id = s.subject_id;
  kind = e.kind;
  before = before;
  after = after;
}

-- the conditions that a new instance leaves
abbrev pub stacked :
    ConditionStacking
    → List ConditionInstance
    → ConditionInstance
    → List ConditionInstance
    → List ConditionInstance
stacked refresh (_ ∷ _) new conditions =
    remove_key condition_key new.condition_id conditions ++ new ∷ []
stacked _ _ new conditions = conditions ++ new ∷ []

-- `_apply_condition` behind the early return for a condition that does not stack
unfoldable pub add_condition :
    RuleSubjectState
    → RuleEffect
    → ConditionInstance
    → List ConditionInstance
    → Result (RuleSubjectState × EffectApplication)
unfolding stacks_of
add_condition s e new found = do
  updated ← with_conditions s (stacked e.condition_stacking found new s.conditions)
  ok (
    updated,
    application e s (stacks_before new.condition_id s.conditions found)
        (some (pos (stacks_of new.condition_id updated.conditions))),
  )

abbrev pub stays_unique : ConditionStacking → List ConditionInstance → Bool
stays_unique unique (_ ∷ _) = true
stays_unique _ _ = false

-- `_apply_condition`
unfoldable pub condition_applied :
    RuleSubjectState → RuleEffect → Text → Result (RuleSubjectState × EffectApplication)
unfolding add_condition matching
condition_applied s e source_id = do
  condition_id ← or_raise e.condition_id assertion_error
  new ← condition_instance (record {
    condition_id = condition_id;
    source_id = some source_id;
    duration = e.duration;
    stacks = e.stacks;
  })
  let found = matching condition_id s.conditions
  if stays_unique e.condition_stacking found
      then ok (
        s,
        application e s (stacks_before condition_id s.conditions found)
            (stacks_before condition_id s.conditions found),
      )
      else add_condition s e new found

-- `_remove_condition`
unfoldable pub condition_removed :
    RuleSubjectState → RuleEffect → Result (RuleSubjectState × EffectApplication)
unfolding matching
condition_removed s e = do
  condition_id ← or_raise e.condition_id assertion_error
  updated ← with_conditions s (remove_key condition_key condition_id s.conditions)
  ok (
    updated,
    application e s (stacks_before condition_id s.conditions (matching condition_id s.conditions))
        none,
  )

-- the resource branch of `_apply_one`
unfoldable pub resource_changed :
    RuleSubjectState → RuleEffect → Result (RuleSubjectState × EffectApplication)
resource_changed s e = do
  resource_id ← or_raise e.resource_id assertion_error
  pool ← or_raise (resource s resource_id) validation_error
  updated ← with_delta pool e.amount
  s' ← with_resource s updated
  ok (s', application e s (some pool.current) (some updated.current))

unfoldable pub apply_by_kind :
    EffectKind
    → RuleSubjectState
    → RuleEffect
    → Text
    → Result (RuleSubjectState × EffectApplication)
apply_by_kind resource_delta s e source_id = resource_changed s e
apply_by_kind apply_condition s e source_id = condition_applied s e source_id
apply_by_kind remove_condition s e source_id = condition_removed s e

-- `_apply_one`
unfoldable pub apply_one_effect :
    RuleSubjectState → RuleEffect → Text → Result (RuleSubjectState × EffectApplication)
unfolding apply_by_kind
apply_one_effect s e source_id = apply_by_kind e.kind s e source_id

-- the inner loop of `apply_effects`
unfoldable pub apply_to_targets :
    RuleEffect → Text → EffectBatchResult → List RuleSubjectState → Result EffectBatchResult
apply_to_targets e source_id batch [] = ok batch
apply_to_targets e source_id batch (target ∷ targets) = do
  current ← subject batch.world target.subject_id
  (updated, applied) ← apply_one_effect current e source_id
  world ← replace_subject batch.world updated
  apply_to_targets e source_id
      (record { world = world; applications = batch.applications ++ applied ∷ [] }) targets

-- the outer loop
unfoldable pub apply_each : Text → EffectBatchResult → List RuleEffect → Result EffectBatchResult
apply_each source_id batch [] = ok batch
apply_each source_id batch (e ∷ es) = do
  targets ← select_targets e.target_selector batch.world source_id
  batch' ← apply_to_targets e source_id batch targets
  apply_each source_id batch' es

unfoldable pub apply_effects : RuleWorldState → Text → List RuleEffect → Result EffectBatchResult
apply_effects world source_id effects = do
  guard (unique_keys effect_key effects) validation_error
  apply_each source_id (record { world = world; applications = [] }) effects
