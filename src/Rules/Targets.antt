-- ===== src/Rules/Targets.antt =====
-- rules/targets.py: the selectors of the subjects that an effect is applied to.
use godot_dn_dsimulator.Base.{
  ℕ, Bool, not, ◌&&◌, Option, none, some, List, [], ◌∷◌, leb, ◌==◌, if◌then◌else◌, all, any, filter,
  take, Result, ok, validation_error, guard, ◌>>◌, ◌>>=◌,
}
use godot_dn_dsimulator.Base.{true}
use godot_dn_dsimulator.Base.Text.{Text, text_eq}
use godot_dn_dsimulator.Rules.State.{RuleSubjectState, RuleWorldState, subject}

pub data TargetMode : Type 0 where
  self_only single every : TargetMode

pub record TargetSelector : Type 0 where
  pub mode : TargetMode
  pub required_tags : List Text
  pub excluded_tags : List Text
  pub max_targets : Option ℕ

-- `tag in tags`
unfoldable pub has_tag : List Text → Text → Bool
has_tag tags tag = any (text_eq tag) tags

-- `not isdisjoint`: the intersection of two sets of tags is not empty
unfoldable pub shares_tag : List Text → List Text → Bool
unfolding has_tag
shares_tag first second = any (has_tag second) first

abbrev pub at_least_one : Option ℕ → Bool
at_least_one none = true
at_least_one (some n) = leb 1 n

abbrev pub at_most_one : Option ℕ → Bool
at_most_one none = true
at_most_one (some n) = n == 1

-- the modes that select one target
abbrev pub fits_mode : TargetMode → Option ℕ → Bool
fits_mode self_only max_targets = at_most_one max_targets
fits_mode single max_targets = at_most_one max_targets
fits_mode every max_targets = true

unfoldable pub target_selector : TargetSelector → Result TargetSelector
unfolding shares_tag
target_selector s = do
  guard (not (shares_tag s.required_tags s.excluded_tags)) validation_error
  guard (at_least_one s.max_targets) validation_error
  guard (fits_mode s.mode s.max_targets) validation_error
  ok s

-- `_matches`
unfoldable pub matches : TargetSelector → RuleSubjectState → Bool
unfolding has_tag shares_tag
matches s subject =
    all (has_tag subject.tags) s.required_tags && not (shares_tag s.excluded_tags subject.tags)

-- who may be selected by a source that does not select itself
unfoldable pub is_candidate : TargetSelector → Text → RuleSubjectState → Bool
unfolding matches
is_candidate s source_id subject = not (text_eq subject.subject_id source_id) && matches s subject

abbrev pub limit_of : TargetMode → Option ℕ → Option ℕ
limit_of single max_targets = some 1
limit_of _ max_targets = max_targets

abbrev pub take_up_to {ℓ} : {A : Type ℓ} → Option ℕ → List A → List A
take_up_to none xs = xs
take_up_to (some n) xs = take n xs

unfoldable pub select_by :
    TargetMode → TargetSelector → RuleWorldState → Text → Result (List RuleSubjectState)
unfolding is_candidate
select_by self_only s world source_id = do
  source ← subject world source_id
  ok (if matches s source then source ∷ [] else [])
select_by mode s world source_id =
    ok (take_up_to (limit_of mode s.max_targets) (filter (is_candidate s source_id) world.subjects))

unfoldable pub select_targets :
    TargetSelector → RuleWorldState → Text → Result (List RuleSubjectState)
unfolding select_by
select_targets s world source_id = select_by s.mode s world source_id
