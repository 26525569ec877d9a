-- ===== src/Dice/Tests.antt =====
-- Dice expressions that are read, written and rolled, and the instances of the theorems.
use godot_dn_dsimulator.Base.{◌≡◌, refl, arith, ok, err, none, validation_error}
use godot_dn_dsimulator.Base.Int.{pos, negsuc}
use godot_dn_dsimulator.Base.Text.{text, is_space, is_blank}
use godot_dn_dsimulator.Base.Decimal.{
  int_of, show, span_digits, digit_value, digit_in, digit_zeros, digits_value,
}
use godot_dn_dsimulator.Rng.{DeterministicRng, from_seed}
use godot_dn_dsimulator.Rng.Words as Words
use godot_dn_dsimulator.Dice.{
  DiceExpression, DiceRoll, parse, canonical, dice_expression, roll_expression,
}
use godot_dn_dsimulator.Dice.Notation.{IsValid, parse-canonical}
use godot_dn_dsimulator.Dice.Roll.{IsRollOf, roll_expression_returns, parse-roll_expression}

abbrev fireball : DiceExpression
fireball = record { count = 8; sides = 6; modifier = negsuc 2 }

fireball-IsValid : IsValid fireball
fireball-IsValid = record {
  count_least = omega arith;
  count_most = omega arith;
  sides_least = omega arith;
  sides_most = omega arith;
  modifier_least = omega arith;
  modifier_most = omega arith;
}

written_form : canonical fireball ≡ text "8d6-3"
unfolding canonical show
written_form = refl

parse_spaces : parse (text " 8 D 6 - 3") ≡ ok fireball
unfolding parse dice_expression int_of span_digits is_space digit_value digit_in digit_zeros
    digits_value
parse_spaces = refl

parse_no_letter : parse (text "86") ≡ err validation_error
unfolding parse dice_expression int_of span_digits is_space digit_value digit_in digit_zeros
    digits_value
parse_no_letter = refl

parse-canonical_example : parse (canonical fireball) ≡ ok fireball
parse-canonical_example = parse-canonical fireball fireball-IsValid

roll_expression_returns_example :
    (roll : DiceRoll) × (rng' : DeterministicRng) × (roll_expression fireball
        (from_seed (pos 42) (pos 54))
        (text "spell")
        none
        none
      ≡ ok (roll, rng'))
    × IsRollOf fireball roll
    × Words.IsValid rng'
roll_expression_returns_example =
    roll_expression_returns fireball (from_seed (pos 42) (pos 54)) (text "spell") none none
      fireball-IsValid (Words.from_seed-IsValid (pos 42) (pos 54)) (unfold is_blank in refl)

parse-roll_expression_example :
    (roll : DiceRoll) × (rng' : DeterministicRng) × (roll_expression fireball
        (from_seed (pos 42) (pos 54))
        (text "spell")
        none
        none
      ≡ ok (roll, rng'))
    × IsRollOf fireball roll
    × (parse roll.expression ≡ ok fireball)
    × Words.IsValid rng'
parse-roll_expression_example =
    parse-roll_expression (text " 8 D 6 - 3") fireball (from_seed (pos 42) (pos 54)) (text "spell")
      none none parse_spaces (Words.from_seed-IsValid (pos 42) (pos 54)) (unfold is_blank in refl)
