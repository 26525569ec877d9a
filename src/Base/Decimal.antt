-- ===== src/Base/Decimal.antt =====
-- Python's conversions between integers and decimal text: `str(n)`, `int(text)`, and `\d` of a
-- regular expression.
pub mod Show
use godot_dn_dsimulator.Base.Tests.{ltb, leb, if◌then◌else◌, Bool-cases}
use godot_dn_dsimulator.Base.Text.{Text}
use godot_dn_dsimulator.Base.Lists.{length}
use godot_dn_dsimulator.Base.Errors.{Result, ok, err, value_error}
use godot_dn_dsimulator.Base.Int.{ℤ, pos, negsuc}
use Prim.Native.Nat.{ℕ, zero, suc, ◌+◌, ◌-◌, ◌*◌, ◌/◌, ◌%◌, ◌<◌, ◌≤◌}
use mathlib.Core.Path.{◌≡◌, refl}
use mathlib.Core.Logic.{inl, inr}
use mathlib.Core.Bool.{Bool, true, false, ◌&&◌}
use mathlib.Core.Option.{Option, none, some}
use mathlib.Core.List.{List, [], ◌∷◌, ◌++◌}
use native.Mathlib.Omega.{arith}

-- the code points of the digit zero in each script (general category Nd of Unicode 15.0, as in
-- Python 3.12); the nine
-- other digits of a script follow its zero
unfoldable pub digit_zeros : List ℕ
digit_zeros =
    48 ∷ 1632 ∷ 1776 ∷ 1984 ∷ 2406 ∷ 2534 ∷ 2662 ∷ 2790 ∷ 2918 ∷ 3046 ∷ 3174 ∷ 3302 ∷ 3430 ∷ 3558
    ∷ 3664 ∷ 3792 ∷ 3872 ∷ 4160 ∷ 4240 ∷ 6112 ∷ 6160 ∷ 6470 ∷ 6608 ∷ 6784 ∷ 6800 ∷ 6992 ∷ 7088
    ∷ 7232 ∷ 7248 ∷ 42528 ∷ 43216 ∷ 43264 ∷ 43472 ∷ 43504 ∷ 43600 ∷ 44016 ∷ 65296 ∷ 66720 ∷ 68912
    ∷ 69734 ∷ 69872 ∷ 69942 ∷ 70096 ∷ 70384 ∷ 70736 ∷ 70864 ∷ 71248 ∷ 71360 ∷ 71472 ∷ 71904 ∷ 72016
    ∷ 72784 ∷ 73040 ∷ 73120 ∷ 73552 ∷ 92768 ∷ 92864 ∷ 93008 ∷ 120782 ∷ 120792 ∷ 120802 ∷ 120812
    ∷ 120822 ∷ 123200 ∷ 123632 ∷ 124144 ∷ 125264 ∷ 130032 ∷ []

unfoldable pub digit_in : List ℕ → ℕ → Option ℕ
digit_in [] c = none
digit_in (z ∷ zs) c = if leb z c && leb c (z + 9) then some (c - z) else digit_in zs c

-- the value of a character that `\d` matches
unfoldable pub digit_value : ℕ → Option ℕ
digit_value c = digit_in digit_zeros c

-- a run of digits as long as possible: the values of the digits, and the text behind them
unfoldable pub span_digits : Text → List ℕ × Text
span_digits [] = ([], [])
span_digits (c ∷ s) = elim (digit_value c) [
  | none ↦ ([], c ∷ s)
  | some d ↦ (d ∷ (span_digits s).0, (span_digits s).1)
]

-- the number that the digits spell behind `n`
unfoldable pub digits_value : ℕ → List ℕ → ℕ
digits_value n [] = n
digits_value n (d ∷ ds) = digits_value (n * 10 + d) ds

-- `sys.get_int_max_str_digits()`
abbrev pub max_str_digits : ℕ
max_str_digits = 4300

-- `int(text)` of a text of digits alone
unfoldable pub int_of : List ℕ → Result ℕ
int_of ds = if ltb max_str_digits (length ds) then err value_error else ok (digits_value 0 ds)

-- one round for each digit; the fuel is the number itself
show_from : ℕ → ℕ → Text → Text
show_from zero n out = (b'0' + n % 10) ∷ out
show_from (suc fuel) n out =
    let rest = show_from fuel (n / 10) ((b'0' + n % 10) ∷ out) in
    if ltb n 10 then (b'0' + n % 10) ∷ out else rest

-- `str(n)`
unfoldable pub show : ℕ → Text
unfolding show_from
show n = show_from n n []
