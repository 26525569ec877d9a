-- ===== src/Dice/Roll.antt =====
-- dice.py: the faces, the total and the generator of a roll.
use godot_dn_dsimulator.Base.{
  ℕ, zero, suc, ◌*◌, ◌^◌, ◌≤◌, ◌≡◌, refl, ap, ◌∙◌, false, List, [], ◌∷◌, Option, arith, All, ok,
  length,
}
use godot_dn_dsimulator.Base.Int.{pos, ◌+ℤ◌, ◌≤ℤ◌, int_laws}
use godot_dn_dsimulator.Base.Text.{Text, is_blank}
use godot_dn_dsimulator.Rng.{DeterministicRng}
use godot_dn_dsimulator.Rng.Words as Words
use godot_dn_dsimulator.Rng.Termination.{roll_die_returns}
use godot_dn_dsimulator.Base.{filter, not, or_raise, validation_error, >>=-eq-ok}
use godot_dn_dsimulator.Base.Text.{is_space}
use godot_dn_dsimulator.Base.Decimal.{int_of}
use godot_dn_dsimulator.Dice.{
  DiceExpression, DiceRoll, dice_roll, roll_dice, sum, roll_expression, parse, canonical,
  match_dice, count_of, modifier_of,
}
use godot_dn_dsimulator.Dice.Notation.{IsValid, parse-canonical, dice_expression-IsValid}

-- a face of a die
abbrev pub IsFace : ℕ → ℕ → Type 0
IsFace sides face = (1 ≤ face) × (face ≤ sides)

-- The rolls of a number of dice, with the generator that is left.
pub record Rolled (count sides : ℕ) (r : DeterministicRng) : Type 0 where
  pub faces : List ℕ
  pub left : DeterministicRng
  pub returns : roll_dice count sides r ≡ ok (faces, left)
  pub as_many : length faces ≡ count
  pub in_range : All (IsFace sides) faces
  pub valid : Words.IsValid left
  pub same_stream : left.increment ≡ r.increment

pub roll_dice_returns :
    (count sides : ℕ) (r : DeterministicRng)
    → Words.IsValid r
    → 2 ≤ sides
    → sides ≤ 2 ^ 32
    → Rolled count sides r
unfolding roll_dice
roll_dice_returns zero sides r v low high = record {
  faces = [];
  left = r;
  returns = refl;
  as_many = refl;
  in_range = tt;
  valid = v;
  same_stream = refl;
}
roll_dice_returns (suc count) sides r v low high =
    let (face, r', e, least, most, valid, same) = roll_die_returns sides r v low high in
    let rest = roll_dice_returns count sides r' valid low high in
    record {
      faces = face ∷ rest.faces;
      left = rest.left;
      returns = rw (e, rest.returns);
      as_many = ap suc rest.as_many;
      in_range = ((least, most), rest.in_range);
      valid = rest.valid;
      same_stream = rest.same_stream ∙ same;
    }

pub sum_bounds :
    (sides : ℕ) (faces : List ℕ)
    → All (IsFace sides) faces
    → (length faces ≤ sum faces) × (sum faces ≤ length faces * sides)
sum_bounds sides [] h = omega arith
sum_bounds sides (face ∷ faces) h = omega (arith, sum_bounds sides faces h.1)

-- what a roll of an expression gives
pub record IsRollOf (e : DiceExpression) (roll : DiceRoll) : Type 0 where
  pub written : roll.expression ≡ canonical e
  pub one_for_each : length roll.raw_rolls ≡ e.count
  pub in_range : All (IsFace e.sides) roll.raw_rolls
  pub total_exact : roll.total ≡ pos (sum roll.raw_rolls) +ℤ e.modifier
  pub total_least : pos e.count +ℤ e.modifier ≤ℤ roll.total
  pub total_most : roll.total ≤ℤ pos (e.count * e.sides) +ℤ e.modifier

IsRollOf-dice_roll :
    (e : DiceExpression) (raw : List ℕ) (reason : Text) (actor_id target_id : Option Text)
    → length raw ≡ e.count
    → All (IsFace e.sides) raw
    → IsRollOf e (dice_roll e raw reason actor_id target_id)
unfolding dice_roll
IsRollOf-dice_roll e raw reason actor_id target_id as_many in_range =
    let bounds = sum_bounds e.sides raw in_range in
    let widest : length raw * e.sides ≡ e.count * e.sides = ap (λ n. n * e.sides) as_many in
    record {
      written = refl;
      one_for_each = as_many;
      in_range = in_range;
      total_exact = refl;
      total_least = omega (int_laws, bounds, as_many);
      total_most = omega (int_laws, bounds, widest);
    }

-- Rolling an expression in range on a valid generator, with a reason that is not blank, returns, with
-- one face from 1 to the number of sides for each die, the total of the faces and the modifier, the
-- expression's canonical text, and a valid generator.
pub roll_expression_returns :
    (e : DiceExpression) (rng : DeterministicRng) (reason : Text) (actor_id target_id : Option Text)
    → IsValid e
    → Words.IsValid rng
    → is_blank reason ≡ false
    → (roll : DiceRoll) × (rng' : DeterministicRng) × (roll_expression e rng reason actor_id
          target_id
        ≡ ok (roll, rng'))
      × IsRollOf e roll
      × Words.IsValid rng'
unfolding roll_expression
roll_expression_returns e rng reason actor_id target_id v valid given =
    let rolled = roll_dice_returns e.count e.sides rng valid v.sides_least (omega arith) in
    (
      dice_roll e rolled.faces reason actor_id target_id,
      rolled.left,
      rw (given, rolled.returns),
      IsRollOf-dice_roll e rolled.faces reason actor_id target_id rolled.as_many rolled.in_range,
      rolled.valid,
    )

parse-IsValid : (t : Text) (e : DiceExpression) → parse t ≡ ok e → IsValid e
unfolding parse
parse-IsValid t e h =
    let (m, _, h₁) =
      >>=-eq-ok (or_raise (match_dice (filter (λ c. not (is_space c)) t)) validation_error) _ h in
    let (count, _, h₂) = >>=-eq-ok (count_of m.count_digits) _ h₁ in
    let (sides, _, h₃) = >>=-eq-ok (int_of m.sides_digits) _ h₂ in
    let (modifier, _, built) = >>=-eq-ok (modifier_of m.negative m.modifier_digits) _ h₃ in
    dice_expression-IsValid (pos count) (pos sides) modifier e built

-- Every text that the parser accepts can be rolled: on a valid generator, with a reason that is not
-- blank, the roll of the expression read returns, with one face from 1 to the number of sides for each
-- die, the total of the faces and the modifier, and a valid generator; and the parser reads the text
-- that the roll records as that very expression.
pub parse-roll_expression :
    (t : Text) (e : DiceExpression) (rng : DeterministicRng) (reason : Text)
    (actor_id target_id : Option Text)
    → parse t ≡ ok e
    → Words.IsValid rng
    → is_blank reason ≡ false
    → (roll : DiceRoll) × (rng' : DeterministicRng) × (roll_expression e rng reason actor_id
          target_id
        ≡ ok (roll, rng'))
      × IsRollOf e roll
      × (parse roll.expression ≡ ok e)
      × Words.IsValid rng'
parse-roll_expression t e rng reason actor_id target_id read valid given =
    let v = parse-IsValid t e read in
    let (roll, rng', rolled, is_roll, valid') =
      roll_expression_returns e rng reason actor_id target_id v valid given in
    (roll, rng', rolled, is_roll, ap parse is_roll.written ∙ parse-canonical e v, valid')
