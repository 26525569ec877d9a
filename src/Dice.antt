-- ===== src/Dice.antt =====
-- dice.py: dice expressions, their text, and rolls. The proofs are in the modules below.
pub mod Notation
pub mod Roll
mod Tests
use godot_dn_dsimulator.Base.{
  ℕ, zero, suc, ◌+◌, Bool, true, false, not, ◌&&◌, ◌||◌, Option, none, some, List, [], ◌∷◌, ◌++◌,
  ltb, leb, ◌==◌, if◌then◌else◌, filter, Result, ok, err, validation_error, or_raise, guard, ◌>>=◌,
  ◌>>◌,
}
use godot_dn_dsimulator.Base.Int.{ℤ, pos, negsuc, ◌+ℤ◌, leb_ℤ, pos_part, neg, eqb_ℤ}
use godot_dn_dsimulator.Base.Text.{Text, text, is_space, is_blank, strip}
use godot_dn_dsimulator.Base.Decimal.{span_digits, int_of, show}
use godot_dn_dsimulator.Rng.{DeterministicRng, roll_die}

pub record DiceExpression : Type 0 where
  pub count : ℕ
  pub sides : ℕ
  pub modifier : ℤ

-- the constructor, with the range checks of `__post_init__`
unfoldable pub dice_expression : ℤ → ℤ → ℤ → Result DiceExpression
dice_expression count sides modifier = do
  guard (leb_ℤ (pos 1) count && leb_ℤ count (pos 100)) validation_error
  guard (leb_ℤ (pos 2) sides && leb_ℤ sides (pos 100_000)) validation_error
  guard (leb_ℤ (neg (pos 1_000_000)) modifier && leb_ℤ modifier (pos 1_000_000)) validation_error
  ok (record { count = pos_part count; sides = pos_part sides; modifier = modifier })

-- the groups of a match of `_DICE_RE`; a group that is absent has no digits
pub record DiceMatch : Type 0 where
  pub count_digits : List ℕ
  pub sides_digits : List ℕ
  pub negative : Bool
  pub modifier_digits : List ℕ

-- the sign has been read, and its digits: they must be there and end the text
finish_modifier : List ℕ → List ℕ → Bool → Bool → List ℕ × Text → Option DiceMatch
finish_modifier count sides true negative (d ∷ ds, []) = some (record {
  count_digits = count;
  sides_digits = sides;
  negative = negative;
  modifier_digits = d ∷ ds;
})
finish_modifier count sides _ _ _ = none

-- the end of the pattern: nothing, or a sign and digits
match_modifier : List ℕ → List ℕ → Text → Option DiceMatch
unfolding finish_modifier
match_modifier count sides [] =
    some (record {
      count_digits = count;
      sides_digits = sides;
      negative = false;
      modifier_digits = [];
    })
match_modifier count sides (sign ∷ rest) =
    finish_modifier count sides (sign == b'+' || sign == b'-') (sign == b'-') (span_digits rest)

match_sides : List ℕ → List ℕ × Text → Option DiceMatch
unfolding match_modifier
match_sides count ([], rest) = none
match_sides count (d ∷ ds, rest) = match_modifier count (d ∷ ds) rest

-- behind the count stands `d` or `D`
match_letter : List ℕ × Text → Option DiceMatch
unfolding match_sides
match_letter (count, []) = none
match_letter (count, c ∷ rest) =
    if c == b'd' || c == b'D' then match_sides count (span_digits rest) else none

-- `_DICE_RE.fullmatch`
unfoldable pub match_dice : Text → Option DiceMatch
unfolding match_letter
match_dice compact = match_letter (span_digits compact)

-- `int(match.group("count") or "1")`
unfoldable pub count_of : List ℕ → Result ℕ
count_of [] = ok 1
count_of (d ∷ ds) = int_of (d ∷ ds)

-- `int(match.group("modifier") or "0")`
unfoldable pub modifier_of : Bool → List ℕ → Result ℤ
modifier_of negative [] = ok (pos 0)
modifier_of negative (d ∷ ds) = do n ← int_of (d ∷ ds); ok (if negative then neg (pos n) else pos n)

-- `DiceExpression.parse`
unfoldable pub parse : Text → Result DiceExpression
unfolding match_dice count_of modifier_of
parse value = do
  m ← or_raise (match_dice (filter (λ c. not (is_space c)) value)) validation_error
  count ← count_of m.count_digits
  sides ← int_of m.sides_digits
  modifier ← modifier_of m.negative m.modifier_digits
  dice_expression (pos count) (pos sides) modifier

-- `f"{modifier:+d}"`, or nothing for 0
modifier_text : ℤ → Text
modifier_text (pos n) = if n == 0 then [] else b'+' ∷ show n
modifier_text (negsuc n) = b'-' ∷ show (suc n)

unfoldable pub canonical : DiceExpression → Text
unfolding modifier_text
canonical e = show e.count ++ (b'd' ∷ (show e.sides ++ modifier_text e.modifier))

-- `DeterministicRNG.ALGORITHM`
abbrev pub algorithm : Text
algorithm = text "pcg32-v1"

pub record DiceRoll : Type 0 where
  pub expression : Text
  pub raw_rolls : List ℕ
  pub modifier : ℤ
  pub total : ℤ
  pub reason : Text
  pub actor_id : Option Text
  pub target_id : Option Text
  pub rng_algorithm : Text

-- `tuple(rng.roll_die(sides) for _ in range(count))`
unfoldable pub roll_dice : ℕ → ℕ → DeterministicRng → Result (List ℕ × DeterministicRng)
roll_dice zero sides r = ok ([], r)
roll_dice (suc count) sides r = do
  (face, r') ← roll_die (pos sides) r
  (faces, r'') ← roll_dice count sides r'
  ok (face ∷ faces, r'')

-- `sum(rolls)`
abbrev pub sum : List ℕ → ℕ
sum [] = 0
sum (x ∷ xs) = x + sum xs

-- the value that `roll_expression` returns for the raw rolls
unfoldable pub dice_roll : DiceExpression → List ℕ → Text → Option Text → Option Text → DiceRoll
unfolding canonical
dice_roll e raw reason actor_id target_id = record {
  expression = canonical e;
  raw_rolls = raw;
  modifier = e.modifier;
  total = pos (sum raw) +ℤ e.modifier;
  reason = strip reason;
  actor_id = actor_id;
  target_id = target_id;
  rng_algorithm = algorithm;
}

unfoldable pub roll_expression :
    DiceExpression
    → DeterministicRng
    → Text
    → Option Text
    → Option Text
    → Result (DiceRoll × DeterministicRng)
unfolding dice_roll
roll_expression e rng reason actor_id target_id = do
  guard (not (is_blank reason)) validation_error
  (raw, rng') ← roll_dice e.count e.sides rng
  ok (dice_roll e raw reason actor_id target_id, rng')
