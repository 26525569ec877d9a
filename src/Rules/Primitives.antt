-- ===== src/Rules/Primitives.antt =====
-- rules/primitives.py: abilities, proficiency, roll modes, difficulty classes and resource pools. A
-- constructor's checks are the function with the type's name in lower case.
use godot_dn_dsimulator.Base.{
  ℕ, suc, ◌+◌, ◌-◌, ◌*◌, ◌/◌, Bool, not, ◌&&◌, List, [], ◌∷◌, leb, Result, ok, err,
  validation_error, guard, ◌>>◌,
}
use godot_dn_dsimulator.Base.Int.{ℤ, pos, negsuc, ◌+ℤ◌, ◌-ℤ◌, leb_ℤ, floor_div}
use godot_dn_dsimulator.Base.Text.{Text, text, is_blank}

pub data Ability : Type 0 where
  strength dexterity constitution intelligence wisdom charisma : Ability

-- the value of the member, by which members are sorted
unfoldable pub ability_value : Ability → Text
ability_value strength = text "strength"
ability_value dexterity = text "dexterity"
ability_value constitution = text "constitution"
ability_value intelligence = text "intelligence"
ability_value wisdom = text "wisdom"
ability_value charisma = text "charisma"

abbrev pub abilities : List Ability
abilities = strength ∷ dexterity ∷ constitution ∷ intelligence ∷ wisdom ∷ charisma ∷ []

pub record AbilityScore : Type 0 where
  pub ability : Ability
  pub score : ℤ

abbrev pub in_bounds : ℤ → ℤ → ℤ → Bool
in_bounds low high n = leb_ℤ low n && leb_ℤ n high

unfoldable pub ability_score : AbilityScore → Result AbilityScore
ability_score a = do guard (in_bounds (pos 1) (pos 30) a.score) validation_error; ok a

-- `AbilityScore.modifier`
unfoldable pub ability_modifier : AbilityScore → ℤ
ability_modifier a = floor_div (a.score -ℤ pos 10) 2

pub data ProficiencyRank : Type 0 where
  no_rank half full double : ProficiencyRank

rank_share : ProficiencyRank → ℕ → ℕ
rank_share no_rank bonus = 0
rank_share half bonus = bonus / 2
rank_share full bonus = bonus
rank_share double bonus = bonus * 2

-- `ProficiencyRank.apply`
unfoldable pub apply_rank : ProficiencyRank → ℤ → Result ℤ
unfolding rank_share
apply_rank rank (negsuc _) = err validation_error
apply_rank rank (pos bonus) = do
  guard (leb bonus 20) validation_error
  ok (pos (rank_share rank bonus))

unfoldable pub proficiency_bonus_for_level : ℤ → Result ℕ
proficiency_bonus_for_level (negsuc _) = err validation_error
proficiency_bonus_for_level (pos level) = do
  guard (leb 1 level && leb level 20) validation_error
  ok (2 + (level - 1) / 4)

pub data D20TestKind : Type 0 where
  ability_check saving_throw attack_roll : D20TestKind

pub data RollMode : Type 0 where
  normal advantage disadvantage : RollMode

-- the sources cancel each other, however many there are
abbrev mode_of : ℕ → ℕ → RollMode
mode_of ℕ.zero ℕ.zero = normal
mode_of ℕ.zero (suc _) = disadvantage
mode_of (suc _) ℕ.zero = advantage
mode_of (suc _) (suc _) = normal

-- `RollMode.from_sources`
unfoldable pub from_sources : ℤ → ℤ → Result RollMode
from_sources (pos advantages) (pos disadvantages) = ok (mode_of advantages disadvantages)
from_sources _ _ = err validation_error

pub record DifficultyClass : Type 0 where
  pub value : ℤ

unfoldable pub difficulty_class : DifficultyClass → Result DifficultyClass
difficulty_class d = do guard (in_bounds (pos 0) (pos 1000) d.value) validation_error; ok d

pub record ResourcePool : Type 0 where
  pub resource_id : Text
  pub current : ℤ
  pub maximum : ℤ
  pub minimum : ℤ

abbrev pub resource_key : ResourcePool → Text
resource_key p = p.resource_id

unfoldable pub resource_pool : ResourcePool → Result ResourcePool
resource_pool p = do
  guard (not (is_blank p.resource_id)) validation_error
  guard (leb_ℤ p.minimum p.maximum) validation_error
  guard (in_bounds p.minimum p.maximum p.current) validation_error
  ok p

-- `ResourcePool.with_delta`
unfoldable pub with_delta : ResourcePool → ℤ → Result ResourcePool
with_delta p delta = do
  guard (in_bounds p.minimum p.maximum (p.current +ℤ delta)) validation_error
  resource_pool (record p { current = p.current +ℤ delta })

pub record ResourceCost : Type 0 where
  pub resource_id : Text
  pub amount : ℕ

unfoldable pub resource_cost : ResourceCost → Result ResourceCost
resource_cost c = do guard (not (is_blank c.resource_id)) validation_error; ok c
