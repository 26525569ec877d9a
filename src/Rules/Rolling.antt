-- ===== src/Rules/Rolling.antt =====
-- rules/runtime.py: the dice of a d20 test.
use godot_dn_dsimulator.Base.{
  ℕ, zero, suc, ◌≡◌, ◌↔◌, refl, ap, ◌∙◌, Bool, true, false, List, [], ◌∷◌, arith, All, Option, none,
  some, ok, length, min, max, Returns, >>=-eq-ok, ◌>>=◌,
}
use godot_dn_dsimulator.Base.Int.{ℤ, pos, ◌+ℤ◌, ◌≤ℤ◌, leb_ℤ}
use godot_dn_dsimulator.Base.Text.{is_blank}
use godot_dn_dsimulator.Rng.{DeterministicRng}
use godot_dn_dsimulator.Rng.Words as Words
use godot_dn_dsimulator.Rng.Termination.{roll_die_returns}
use godot_dn_dsimulator.Dice.{algorithm, roll_dice, roll_expression, dice_roll}
use godot_dn_dsimulator.Dice.Roll.{IsFace}
use godot_dn_dsimulator.Rules.Primitives.{
  AbilityScore, ability_modifier, DifficultyClass, D20TestKind, ability_check, saving_throw,
  attack_roll, RollMode, normal, advantage, disadvantage, apply_rank,
}
use godot_dn_dsimulator.Rules.Modifiers.{
  RuleModifier, ModifierResolution, select_modifiers, resolution, resolve_modifiers,
}
use godot_dn_dsimulator.Rules.Runtime.{
  RulesetCapabilities, ResolutionContext, D20Outcome, decide, roll_d20, roll_count, roll_d20s,
  select_roll, outcome_of, d20_mode, finish_d20, in_mode, resolve_d20,
}

-- Rolls of the die, with the generator that is left.
record RolledD20s (n : ℕ) (c : ResolutionContext) (rng : DeterministicRng) : Type 0 where
  faces : List ℕ
  left : DeterministicRng
  returns : roll_d20s n c rng ≡ ok (faces, left)
  together : roll_dice n 20 rng ≡ ok (faces, left)
  as_many : length faces ≡ n
  in_range : All (IsFace 20) faces
  valid : Words.IsValid left

roll_d20s_returns :
    (n : ℕ) (c : ResolutionContext) (rng : DeterministicRng)
    → Words.IsValid rng
    → is_blank c.reason ≡ false
    → RolledD20s n c rng
unfolding roll_d20s roll_d20 roll_expression roll_dice dice_roll
roll_d20s_returns zero c rng v given = record {
  faces = [];
  left = rng;
  returns = refl;
  together = refl;
  as_many = refl;
  in_range = tt;
  valid = v;
}
roll_d20s_returns (suc n) c rng v given =
    let (face, rng', rolled, least, most, valid, _) =
      roll_die_returns 20 rng v (omega arith) (omega arith) in
    let rest = roll_d20s_returns n c rng' valid given in
    record {
      faces = face ∷ rest.faces;
      left = rest.left;
      returns = rw (given, rolled, rest.returns) refl;
      together = rw (rolled, rest.together) refl;
      as_many = ap suc rest.as_many;
      in_range = ((least, most), rest.in_range);
      valid = rest.valid;
    }

-- Which of the faces counts.
pub Selects : RollMode → List ℕ → ℕ → Type 0
Selects normal faces face = faces ≡ face ∷ []
Selects advantage faces face = (a : ℕ) × (b : ℕ) × (faces ≡ a ∷ b ∷ []) × (face ≡ max a b)
Selects disadvantage faces face = (a : ℕ) × (b : ℕ) × (faces ≡ a ∷ b ∷ []) × (face ≡ min a b)

select_roll-Selects :
    (mode : RollMode) (faces : List ℕ)
    → length faces ≡ roll_count mode
    → Selects mode faces (select_roll mode faces)
unfolding select_roll Selects
select_roll-Selects normal (a ∷ []) e = refl
select_roll-Selects advantage (a ∷ b ∷ []) e = (a, b, refl, refl)
select_roll-Selects disadvantage (a ∷ b ∷ []) e = (a, b, refl, refl)
select_roll-Selects normal [] e = absurd (omega arith)
select_roll-Selects advantage [] e = absurd (omega arith)
select_roll-Selects disadvantage [] e = absurd (omega arith)
select_roll-Selects normal (a ∷ b ∷ cs) e = absurd (omega arith)
select_roll-Selects advantage (a ∷ []) e = absurd (omega arith)
select_roll-Selects disadvantage (a ∷ []) e = absurd (omega arith)
select_roll-Selects advantage (a ∷ b ∷ c ∷ cs) e = absurd (omega arith)
select_roll-Selects disadvantage (a ∷ b ∷ c ∷ cs) e = absurd (omega arith)

-- the verdict on a total: none without a difficulty class and none on an attack, or whether the total
-- reaches the class
abbrev pub Judges : Option DifficultyClass → D20TestKind → ℤ → Option Bool → Type 0
Judges none kind total verdict = verdict ≡ none
Judges (some dc) attack_roll total verdict = verdict ≡ none
Judges (some dc) _ total verdict =
    (reached : Bool) × (verdict ≡ some reached) × ((reached ≡ true) ↔ (dc.value ≤ℤ total))

decide-Judges :
    (dc : Option DifficultyClass) (kind : D20TestKind) (total : ℤ)
    → Judges dc kind total (decide dc kind total)
decide-Judges none kind total = refl
decide-Judges (some dc) attack_roll total = refl
decide-Judges (some dc) ability_check total =
    (leb_ℤ dc.value total, refl, (λ h. ground arith, λ h. ground arith))
decide-Judges (some dc) saving_throw total =
    (leb_ℤ dc.value total, refl, (λ h. ground arith, λ h. ground arith))

-- The outcome of a test on the faces that were rolled.
pub record IsOutcomeOf (c : ResolutionContext) (score : AbilityScore) (proficiency : ℤ)
    (modifiers : List RuleModifier) (mode : RollMode) (faces : List ℕ) (o : D20Outcome)
    : Type 0 where
  pub of_context : o.context ≡ c
  pub in_mode : o.roll_mode ≡ mode
  pub recorded : o.raw_rolls ≡ faces
  pub fair : All (IsFace 20) faces
  pub selected : Selects mode faces o.selected_roll
  pub by_ability : o.ability_modifier ≡ ability_modifier score
  pub by_proficiency : o.proficiency_modifier ≡ proficiency
  pub modified :
      resolve_modifiers (pos o.selected_roll +ℤ ability_modifier score +ℤ proficiency) modifiers
      ≡ ok o.modifier_resolution
  pub summed : o.total ≡ o.modifier_resolution.final_value
  pub judged : Judges c.difficulty_class c.test_kind o.total o.success

-- modifiers that resolve from one base value resolve from every one
resolve_modifiers-Returns :
    (base other : ℤ) (modifiers : List RuleModifier) (r : ModifierResolution)
    → resolve_modifiers base modifiers ≡ ok r
    → Returns (resolve_modifiers other modifiers)
unfolding resolve_modifiers
resolve_modifiers-Returns base other modifiers r h =
    let (s, selected, _) = >>=-eq-ok (select_modifiers modifiers) _ h in
    (resolution other s, ap (λ m. m >>= λ x. ok (resolution other x)) selected)

-- what is done with the faces succeeds where the proficiency applies and the modifiers resolve
outcome_of-IsOutcomeOf :
    (c : ResolutionContext) (score : AbilityScore) (bonus proficiency base : ℤ)
    (modifiers : List RuleModifier) (r : ModifierResolution) (mode : RollMode) (faces : List ℕ)
    → apply_rank c.proficiency_rank bonus ≡ ok proficiency
    → resolve_modifiers base modifiers ≡ ok r
    → length faces ≡ roll_count mode
    → All (IsFace 20) faces
    → (o : D20Outcome) × (outcome_of c score bonus modifiers mode faces ≡ ok o)
      × IsOutcomeOf c score proficiency modifiers mode faces o
unfolding outcome_of
outcome_of-IsOutcomeOf c score bonus proficiency base modifiers r mode faces applied resolves
      as_many fair =
    let total = pos (select_roll mode faces) +ℤ ability_modifier score +ℤ proficiency in
    let (resolved, e) = resolve_modifiers-Returns base total modifiers r resolves in
    (
      record {
        context = c;
        roll_mode = mode;
        raw_rolls = faces;
        selected_roll = select_roll mode faces;
        ability_modifier = ability_modifier score;
        proficiency_modifier = proficiency;
        modifier_resolution = resolved;
        total = resolved.final_value;
        success = decide c.difficulty_class c.test_kind resolved.final_value;
        rng_algorithm = algorithm;
      },
      rw (applied, e) refl,
      record {
        of_context = refl;
        in_mode = refl;
        recorded = refl;
        fair = fair;
        selected = select_roll-Selects mode faces as_many;
        by_ability = refl;
        by_proficiency = refl;
        modified = e;
        summed = refl;
        judged = decide-Judges c.difficulty_class c.test_kind resolved.final_value;
      },
    )

-- A d20 test whose checks pass, whose proficiency bonus applies and whose modifiers resolve returns an
-- outcome and a valid generator. It rolls one d20, or two with advantage or disadvantage, and leaves
-- the generator that as many dice of 20 sides rolled one after another leave. Their faces, each from 1
-- to 20, are what the outcome records; the greater one is selected with advantage and the smaller one
-- with disadvantage; the total is the selected face, the ability's modifier and the proficiency with
-- the modifiers applied; and the verdict is none without a difficulty class or on an attack, else
-- whether the total reaches the class. The generator given is valid and the reason is not blank.
pub resolve_d20_rolls :
    (capabilities : RulesetCapabilities) (rng : DeterministicRng) (c : ResolutionContext)
    (score : AbilityScore) (bonus proficiency base : ℤ) (modifiers : List RuleModifier)
    (r : ModifierResolution) (advantages disadvantages : ℤ) (mode : RollMode)
    → d20_mode capabilities c score advantages disadvantages ≡ ok mode
    → apply_rank c.proficiency_rank bonus ≡ ok proficiency
    → resolve_modifiers base modifiers ≡ ok r
    → Words.IsValid rng
    → is_blank c.reason ≡ false
    → (faces : List ℕ) × (rng' : DeterministicRng) × (o : D20Outcome) × (resolve_d20 capabilities
          rng c score bonus modifiers advantages disadvantages
        ≡ (ok o, rng'))
      × (roll_dice (roll_count mode) 20 rng ≡ ok (faces, rng'))
      × IsOutcomeOf c score proficiency modifiers mode faces o
      × Words.IsValid rng'
unfolding resolve_d20
resolve_d20_rolls capabilities rng c score bonus proficiency base modifiers r advantages
      disadvantages mode checked applied resolves v given =
    let rolled = roll_d20s_returns (roll_count mode) c rng v given in
    let (o, made, is_outcome) =
      outcome_of-IsOutcomeOf c score bonus proficiency base modifiers r mode rolled.faces applied
        resolves rolled.as_many rolled.in_range in
    (
      rolled.faces,
      rolled.left,
      o,
      ap (in_mode rng c score bonus modifiers) checked
          ∙ unfold in_mode finish_d20 in
            ap (finish_d20 rng c score bonus modifiers mode) rolled.returns
            ∙ ap (λ x. (x, rolled.left)) made,
      rolled.together,
      is_outcome,
      rolled.valid,
    )
