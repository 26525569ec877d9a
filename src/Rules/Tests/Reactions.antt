-- ===== src/Rules/Tests/Reactions.antt =====
-- A run of the reactions to an event, and the instance of the theorem about them.
use godot_dn_dsimulator.Rules.Targets.{has_tag}
use godot_dn_dsimulator.Rules.Requirements.{evaluate_requirements, requirement_passes}
use godot_dn_dsimulator.Base.Sort.{sort}
use godot_dn_dsimulator.Base.Keyed.{find_key}
use godot_dn_dsimulator.Rules.State.{subject}
use godot_dn_dsimulator.Base.Text.{text_eq}
use godot_dn_dsimulator.Rules.Hooks.{collect, may_react, triggers}
use mathlib.Core.List.{Perm}
use godot_dn_dsimulator.Base.{◌≡◌, refl, List, [], ◌∷◌, none, map, filter, ok}
use godot_dn_dsimulator.Base.Int.{pos}
use godot_dn_dsimulator.Base.Text.{text}
use godot_dn_dsimulator.Base.Sort.{IsSorted}
use godot_dn_dsimulator.Rules.State.{RuleSubjectState, RuleWorldState}
use godot_dn_dsimulator.Rules.Runtime.{core_capabilities}
use godot_dn_dsimulator.Rules.Requirements.{Requirement, tag_present}
use godot_dn_dsimulator.Rules.Hooks.{
  RuleEventView, ReactionHook, ReactionMatch, match_leb, collect_reactions, reacts, reaction_to,
  collect_reactions_lem,
}

-- a knight with a shield and a squire without one see a blow
abbrev knight : RuleSubjectState
knight = record {
  subject_id = text "knight";
  tags = text "shield" ∷ [];
  resources = [];
  conditions = [];
}

abbrev squire : RuleSubjectState
squire = record knight { subject_id = text "squire"; tags = [] }

abbrev court : RuleWorldState
court = record { subjects = knight ∷ squire ∷ [] }

abbrev blow : RuleEventView
blow = record { event_type = text "attack.hit"; actor_id = none; target_id = none; tags = [] }

abbrev has_shield : Requirement
has_shield = record {
  requirement_id = text "shield";
  kind = tag_present;
  key = text "shield";
  minimum = 0;
}

abbrev parry : ReactionHook
parry = record {
  hook_id = text "parry";
  owner_id = text "knight";
  trigger = record { event_type = text "attack.hit"; required_tags = [] };
  requirements = has_shield ∷ [];
  effects = [];
  priority = pos 2;
}

abbrev riposte : ReactionHook
riposte = record parry { hook_id = text "riposte"; priority = pos 1 }

abbrev block : ReactionHook
block = record parry { hook_id = text "block"; owner_id = text "squire" }

abbrev hooks : List ReactionHook
hooks = parry ∷ block ∷ riposte ∷ []

abbrev both : List ReactionMatch
both = record { hook = riposte; event = blow } ∷ record { hook = parry; event = blow } ∷ []

knight_reacts : collect_reactions blow hooks court core_capabilities ≡ ok both
unfolding collect_reactions collect triggers text_eq may_react subject find_key sort
    evaluate_requirements requirement_passes has_tag match_leb
knight_reacts = refl

collect_reactions_lem_example :
    Perm both (map (reaction_to blow) (filter (reacts blow court core_capabilities) hooks))
    × IsSorted match_leb both
collect_reactions_lem_example =
    collect_reactions_lem blow hooks court core_capabilities both knight_reacts
