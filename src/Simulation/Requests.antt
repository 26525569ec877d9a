-- ===== src/Simulation/Requests.antt =====
-- engine.py: what the checks of a roll's payload leave.
use mathlib.Core.Path.{subst}
use godot_dn_dsimulator.Base.{◌≡◌, false, not, arith, ok, validation_error, >>=-eq-ok, ok-injective}
use godot_dn_dsimulator.Base.{or_raise, filter}
use godot_dn_dsimulator.Base.Decimal.{int_of}
use godot_dn_dsimulator.Base.Text.{is_space}
use godot_dn_dsimulator.Dice.{match_dice, count_of, modifier_of}
use godot_dn_dsimulator.Base.Int.{pos}
use godot_dn_dsimulator.Base.Text.{Text, text, is_blank}
use godot_dn_dsimulator.Dice.{DiceExpression, parse}
use godot_dn_dsimulator.Dice.Notation as Notation
use godot_dn_dsimulator.Simulation.Model.{Value, get, get_or, CommandEnvelope}
use godot_dn_dsimulator.Simulation.Engine.{text_of, target_of, string_of, RollRequest, roll_request}

-- what a request has once its checks have passed
abbrev pub IsRequest : RollRequest → Type 0
IsRequest request =
    Notation.IsValid request.expression
    × (is_blank request.reason ≡ false)
    × (is_blank request.counter ≡ false)

text_of-not_blank : (v : Value) (s : Text) → text_of v ≡ ok s → is_blank s ≡ false
unfolding text_of
text_of-not_blank (Value.string t) s h = ground arith
text_of-not_blank Value.null s h = cc
text_of-not_blank Value.opaque s h = cc
text_of-not_blank (Value.boolean b) s h = cc
text_of-not_blank (Value.integer n) s h = cc
text_of-not_blank (Value.numbers ns) s h = cc

parse-IsValid : (s : Text) (e : DiceExpression) → parse s ≡ ok e → Notation.IsValid e
unfolding parse
parse-IsValid s e h =
    let (m, _, h1) =
      >>=-eq-ok (or_raise (match_dice (filter (λ c. not (is_space c)) s)) validation_error) _ h in
    let (count, _, h2) = >>=-eq-ok (count_of m.count_digits) _ h1 in
    let (sides, _, h3) = >>=-eq-ok (int_of m.sides_digits) _ h2 in
    let (modifier, _, built) = >>=-eq-ok (modifier_of m.negative m.modifier_digits) _ h3 in
    Notation.dice_expression-IsValid (pos count) (pos sides) modifier e built

pub roll_request-IsRequest :
    (command : CommandEnvelope) (request : RollRequest)
    → roll_request command ≡ ok request
    → IsRequest request
unfolding roll_request
roll_request-IsRequest command request h =
    let (written, _, h1) = >>=-eq-ok (string_of (get (text "expression") command.payload)) _ h in
    let (counter, named, h2) =
      >>=-eq-ok
        (text_of (get_or (text "counter") (Value.string (text "last_roll")) command.payload)) _
        h1 in
    let (reason, given, h3) =
      >>=-eq-ok
        (text_of (get_or (text "reason") (Value.string (text "simulation roll")) command.payload)) _
        h2 in
    let (target, _, h4) = >>=-eq-ok (target_of (get (text "target_id") command.payload)) _ h3 in
    let (expression, parsed, built) = >>=-eq-ok (parse written) _ h4 in
    subst IsRequest (ok-injective built) (
      parse-IsValid written expression parsed,
      text_of-not_blank _ reason given,
      text_of-not_blank _ counter named,
    )
