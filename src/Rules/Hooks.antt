-- ===== src/Rules/Hooks.antt =====
-- rules/hooks.py: the reactions that an event triggers.
use godot_dn_dsimulator.Base.{
  Bool, true, false, not, ◌&&◌, Option, none, some, List, [], ◌∷◌, all, if◌then◌else◌, Result, ok,
  validation_error, guard, ◌>>=◌, ◌>>◌,
}
use mathlib.Core.List.{Perm}
use mathlib.Core.Path.{subst}
use godot_dn_dsimulator.Base.{
  ◌≡◌, map, filter, Bool-cases, Option-cases, inl, inr, arith, >>=-eq-ok, ok-injective,
}
use godot_dn_dsimulator.Base.Sort.{
  TotalPreorder, lex-TotalPreorder, TotalPreorder-on, IsSorted, sort-perm, sort-IsSorted,
}
use godot_dn_dsimulator.Base.Keyed.{find_key, text_order}
use godot_dn_dsimulator.Base.Int.{integer_order}
use godot_dn_dsimulator.Rules.State.{RuleSubjectState, subject_key}
use godot_dn_dsimulator.Rules.Requirements.{requirement_passes, evaluate_requirements-all}
use godot_dn_dsimulator.Base.Int.{ℤ, leb_ℤ}
use godot_dn_dsimulator.Base.Text.{Text, text_eq, text_leb, is_blank}
use godot_dn_dsimulator.Base.Sort.{sort, lex}
use godot_dn_dsimulator.Rules.State.{RuleWorldState, subject}
use godot_dn_dsimulator.Rules.Runtime.{RulesetCapabilities}
use godot_dn_dsimulator.Rules.Targets.{has_tag}
use godot_dn_dsimulator.Rules.Requirements.{Requirement, evaluate_requirements}
use godot_dn_dsimulator.Rules.Effects.{RuleEffect}

pub record RuleEventView : Type 0 where
  pub event_type : Text
  pub actor_id : Option Text
  pub target_id : Option Text
  pub tags : List Text

unfoldable pub rule_event_view : RuleEventView → Result RuleEventView
rule_event_view e = do guard (not (is_blank e.event_type)) validation_error; ok e

pub record Trigger : Type 0 where
  pub event_type : Text
  pub required_tags : List Text

unfoldable pub trigger_of : Trigger → Result Trigger
trigger_of t = do guard (not (is_blank t.event_type)) validation_error; ok t

-- `Trigger.matches`
unfoldable pub triggers : Trigger → RuleEventView → Bool
triggers t e = text_eq t.event_type e.event_type && all (has_tag e.tags) t.required_tags

pub record ReactionHook : Type 0 where
  pub hook_id : Text
  pub owner_id : Text
  pub trigger : Trigger
  pub requirements : List Requirement
  pub effects : List RuleEffect
  pub priority : ℤ

unfoldable pub reaction_hook : ReactionHook → Result ReactionHook
reaction_hook h = do
  guard (not (is_blank h.hook_id)) validation_error
  guard (not (is_blank h.owner_id)) validation_error
  ok h

pub record ReactionMatch : Type 0 where
  pub hook : ReactionHook
  pub event : RuleEventView

-- the order of `(priority, hook_id)`
unfoldable pub match_leb : ReactionMatch → ReactionMatch → Bool
match_leb =
    lex (λ a b. leb_ℤ a.hook.priority b.hook.priority)
      (λ a b. text_leb a.hook.hook_id b.hook.hook_id)

-- whether the owner of a hook may react
unfoldable pub may_react : RuleWorldState → RulesetCapabilities → ReactionHook → Result Bool
may_react world c h = do
  owner ← subject world h.owner_id
  ok (evaluate_requirements h.requirements owner c).passed

abbrev pub append_if : Bool → ReactionHook → RuleEventView → List ReactionMatch → List ReactionMatch
append_if true h e rest = record { hook = h; event = e } ∷ rest
append_if false h e rest = rest

-- the loop over the hooks
unfoldable pub collect :
    RuleEventView
    → RuleWorldState
    → RulesetCapabilities
    → List ReactionHook
    → Result (List ReactionMatch)
collect e world c [] = ok []
collect e world c (h ∷ hs) = do
  reacts ← if triggers h.trigger e then may_react world c h else ok false
  rest ← collect e world c hs
  ok (append_if reacts h e rest)

unfoldable pub collect_reactions :
    RuleEventView
    → List ReactionHook
    → RuleWorldState
    → RulesetCapabilities
    → Result (List ReactionMatch)
collect_reactions e hooks world c = do found ← collect e world c hooks; ok (sort match_leb found)

-- whether a hook reacts: its trigger matches, its owner is in the world and meets every requirement
abbrev pub meets : Option RuleSubjectState → RulesetCapabilities → ReactionHook → Bool
meets none c h = false
meets (some owner) c h = all (λ r. requirement_passes r owner c) h.requirements

unfoldable pub reacts : RuleEventView → RuleWorldState → RulesetCapabilities → ReactionHook → Bool
reacts e world c h =
    triggers h.trigger e && meets (find_key subject_key h.owner_id world.subjects) c h

abbrev pub reaction_to : RuleEventView → ReactionHook → ReactionMatch
reaction_to e h = record { hook = h; event = e }

reacts_lem :
    (e : RuleEventView) (world : RuleWorldState) (c : RulesetCapabilities) (h : ReactionHook)
    {b : Bool}
    → (if triggers h.trigger e then may_react world c h else ok false) ≡ ok b
    → reacts e world c h ≡ b
unfolding reacts may_react subject
reacts_lem e world c h r = elim (Bool-cases (triggers h.trigger e)) [
  | inl on ↦ elim (Option-cases (find_key subject_key h.owner_id world.subjects)) [
    | inl none_found ↦ ground (arith, none_found, on)
    | inr (owner, found) ↦
        ground (arith, found, on, evaluate_requirements-all h.requirements owner c)
  ]
  | inr off ↦ ground (arith, off)
]

collect_lem :
    (e : RuleEventView) (world : RuleWorldState) (c : RulesetCapabilities)
    (hooks : List ReactionHook) {found : List ReactionMatch}
    → collect e world c hooks ≡ ok found
    → found ≡ map (reaction_to e) (filter (reacts e world c) hooks)
unfolding collect
collect_lem e world c [] r = cc
collect_lem e world c (h ∷ hs) r =
    let (b, asked, r') =
      >>=-eq-ok (if triggers h.trigger e then may_react world c h else ok false) _ r in
    let (rest, rests, r'') = >>=-eq-ok (collect e world c hs) _ r' in
    let one : reacts e world c h ≡ b = reacts_lem e world c h asked in
    ground (arith, one, r'', collect_lem e world c hs rests)

match_order : TotalPreorder match_leb
unfolding match_leb
match_order =
    lex-TotalPreorder _ _
      (TotalPreorder-on (λ (m : ReactionMatch). m.hook.priority) leb_ℤ integer_order)
      (TotalPreorder-on (λ (m : ReactionMatch). m.hook.hook_id) text_leb text_order)

-- The reactions to an event are those of exactly the hooks that react to it, each once, in the order
-- of their priorities and, at the same priority, of their identifiers.
pub collect_reactions_lem :
    (e : RuleEventView) (hooks : List ReactionHook) (world : RuleWorldState)
    (c : RulesetCapabilities) (found : List ReactionMatch)
    → collect_reactions e hooks world c ≡ ok found
    → Perm found (map (reaction_to e) (filter (reacts e world c) hooks)) × IsSorted match_leb found
unfolding collect_reactions
collect_reactions_lem e hooks world c found r =
    let (matches, all_found, sorted) = >>=-eq-ok (collect e world c hooks) _ r in
    let is_sorted : sort match_leb matches ≡ found = ok-injective sorted in
    (
      subst (λ fs. Perm fs (map (reaction_to e) (filter (reacts e world c) hooks))) is_sorted
          (subst (λ ms. Perm (sort match_leb matches) ms) (collect_lem e world c hooks all_found)
            (sort-perm match_leb matches)),
      subst (IsSorted match_leb) is_sorted (sort-IsSorted match_order matches),
    )
