-- ===== src/Base/Decimal/Show.antt =====
-- The digits that `show` prints: what they are, how many, and how `span_digits` meets them.
use godot_dn_dsimulator.Base.Tests.{ltb, leb, Bool-cases, ltb→lt, lt→ltb}
use godot_dn_dsimulator.Base.Text.{Text, is_space}
use godot_dn_dsimulator.Base.Lists.{length, All}
use godot_dn_dsimulator.Base.Errors.{ok}
use godot_dn_dsimulator.Base.Decimal.{
  digit_zeros, digit_in, digit_value, span_digits, digits_value, max_str_digits, int_of, show_from,
  show,
}
use Prim.Native.Nat.{ℕ, zero, suc, ◌+◌, ◌-◌, ◌/◌, ◌%◌, ◌^◌, ◌<◌, ◌≤◌}
use mathlib.Core.Path.{◌≡◌, refl, ap, ◌∙◌}
use mathlib.Core.Logic.{inl, inr}
use mathlib.Core.Bool.{true, false}
use mathlib.Core.Option.{some}
use mathlib.Core.List.{List, [], ◌∷◌, ◌++◌}
use native.Mathlib.Omega.{arith}
use native.Mathlib.Nat.{pow-suc}

digit_in_here : (z : ℕ) (zs : List ℕ) (d : ℕ) → d < 10 → digit_in (z ∷ zs) (z + d) ≡ some d
unfolding digit_in
digit_in_here z zs d h =
    let low : leb z (z + d) ≡ true = ground arith in
    let high : leb (z + d) (z + 9) ≡ true = ground arith in
    let same : z + d - z ≡ d = omega arith in rw (low, high, same)

pub digit_value_ascii : (d : ℕ) → d < 10 → digit_value (b'0' + d) ≡ some d
unfolding digit_value digit_zeros
digit_value_ascii d h = digit_in_here b'0' _ d h

-- The digits of a number in front of a text, given the digits in front of that text.
pub record Reads (n k : ℕ) (out s : Text) : Type 0 where
  pub first : ℕ
  pub others : List ℕ
  pub spans : span_digits s ≡ (first ∷ others, (span_digits out).1)
  pub spells : digits_value 0 (first ∷ others) ≡ digits_value n (span_digits out).0
  pub short : length (first ∷ others) ≤ k + length (span_digits out).0

span-digit :
    (d : ℕ) (s : Text)
    → d < 10
    → span_digits ((b'0' + d) ∷ s) ≡ (d ∷ (span_digits s).0, (span_digits s).1)
unfolding span_digits
span-digit d s h = rw (digit_value_ascii d h, span_digits)

Reads-one : (n k : ℕ) (out : Text) → n < 10 → Reads n (suc k) out ((b'0' + n % 10) ∷ out)
unfolding digits_value
Reads-one n k out h = record {
  first = n % 10;
  others = (span_digits out).0;
  spans = span-digit (n % 10) out (omega arith);
  spells = ap (λ m. digits_value m (span_digits out).0) (omega arith);
  short = omega arith;
}

Reads-more :
    (n k : ℕ) (out s : Text) → Reads (n / 10) k ((b'0' + n % 10) ∷ out) s → Reads n (suc k) out s
unfolding digits_value
Reads-more n k out s r =
    let e = span-digit (n % 10) out (omega arith) in
    record {
      first = r.first;
      others = r.others;
      spans = r.spans ∙ ap (λ (p : List ℕ × Text). (r.first ∷ r.others, p.1)) e;
      spells =
          r.spells
          ∙ ap (λ (p : List ℕ × Text). digits_value (n / 10) p.0) e
          ∙ ap (λ m. digits_value m (span_digits out).0) (omega arith);
      short = omega (arith, r.short, ap (λ (p : List ℕ × Text). length p.0) e);
    }

Reads-show_from :
    (fuel n k : ℕ) (out : Text)
    → n ≤ fuel
    → n < 10 ^ suc k
    → Reads n (suc k) out (show_from fuel n out)
unfolding show_from
Reads-show_from zero n k out h b = Reads-one n k out (omega arith)
Reads-show_from (suc fuel) n zero out h b =
    let last : ltb n 10 ≡ true = lt→ltb n 10 (omega (arith, pow-suc 10 0)) in
    rw last (Reads-one n 0 out (omega (arith, pow-suc 10 0)))
Reads-show_from (suc fuel) n (suc k) out h b = elim (Bool-cases (ltb n 10)) [
  | inl last ↦ rw last (Reads-one n (suc k) out (ltb→lt n 10 last))
  | inr more ↦ rw more (
      Reads-more n (suc k) out _ (
        Reads-show_from fuel (n / 10) k ((b'0' + n % 10) ∷ out) (omega arith)
          (omega (arith, pow-suc 10 (suc k)))))
]

show_from-append :
    (fuel n : ℕ) (out rest : Text) → show_from fuel n out ++ rest ≡ show_from fuel n (out ++ rest)
unfolding show_from
show_from-append zero n out rest = refl
show_from-append (suc fuel) n out rest = elim (Bool-cases (ltb n 10)) [
  | inl last ↦ rw last
  | inr more ↦ rw more (show_from-append fuel (n / 10) _ rest)
]

-- The digits at the front of a printed number spell it, where no digit follows.
pub Reads-show : (n k : ℕ) (rest : Text) → n < 10 ^ suc k → Reads n (suc k) rest (show n ++ rest)
unfolding show
Reads-show n k rest h =
    rw (show_from-append n n [] rest) (Reads-show_from n n k rest (omega arith) h)

module _ {κ} (P : ℕ → Type κ) (digits_are : (d : ℕ) → d < 10 → P (b'0' + d)) where
  All-show_from : (fuel n : ℕ) (out : Text) → All P out → All P (show_from fuel n out)
  unfolding show_from
  All-show_from zero n out h = (digits_are (n % 10) (omega arith), h)
  All-show_from (suc fuel) n out h = elim (Bool-cases (ltb n 10)) [
    | inl last ↦ rw last (digits_are (n % 10) (omega arith), h)
    | inr more ↦ rw more (All-show_from fuel (n / 10) _ (digits_are (n % 10) (omega arith), h))
  ]

  -- What holds of every digit holds of every character of a printed number.
  pub All-show : (n : ℕ) → All P (show n)
  unfolding show
  All-show n = All-show_from n n [] tt

length-show_from :
    (fuel n k : ℕ) (out : Text)
    → n ≤ fuel
    → n < 10 ^ suc k
    → (1 ≤ length (show_from fuel n out)) × (length (show_from fuel n out) ≤ suc k + length out)
unfolding show_from
length-show_from zero n k out h b = omega arith
length-show_from (suc fuel) n zero out h b =
    let last : ltb n 10 ≡ true = lt→ltb n 10 (omega (arith, pow-suc 10 0)) in rw last (omega arith)
length-show_from (suc fuel) n (suc k) out h b = elim (Bool-cases (ltb n 10)) [
  | inl last ↦ rw last (omega arith)
  | inr more ↦ rw more (
      omega (
        arith,
        length-show_from fuel (n / 10) k ((b'0' + n % 10) ∷ out) (omega arith)
            (omega (arith, pow-suc 10 (suc k))),
      ))
]

-- A number below `10 ^ k` has from 1 to `k` digits.
pub length-show : (n k : ℕ) → n < 10 ^ suc k → (1 ≤ length (show n)) × (length (show n) ≤ suc k)
unfolding show
length-show n k h = omega (arith, length-show_from n n k [] (omega arith) h)

abbrev pub IsPrinted : ℕ → Type 0
IsPrinted c = is_space c ≡ false

digit-IsPrinted : (d : ℕ) → d < 10 → IsPrinted (b'0' + d)
unfolding is_space
digit-IsPrinted d h = ground arith

-- No character of a printed number is whitespace.
pub show-IsPrinted : (n : ℕ) → All IsPrinted (show n)
show-IsPrinted = All-show IsPrinted digit-IsPrinted

-- A number below 10 ^ 4300 is read back by `int`, up to a text that begins with no digit.
pub span_digits-show :
    (n k : ℕ) (rest : Text)
    → n < 10 ^ suc k
    → suc k ≤ max_str_digits
    → span_digits rest ≡ ([], rest)
    → (d : ℕ) × (ds : List ℕ) × (span_digits (show n ++ rest) ≡ (d ∷ ds, rest))
      × (int_of (d ∷ ds) ≡ ok n)
unfolding int_of digits_value
span_digits-show n k rest h fits stop =
    let r = Reads-show n k rest h in
    let d : ℕ = r.first in
    let ds : List ℕ = r.others in
    let spans : span_digits (show n ++ rest) ≡ (d ∷ ds, rest) =
      r.spans ∙ ap (λ (p : List ℕ × Text). (d ∷ ds, p.1)) stop in
    let spells : digits_value 0 (d ∷ ds) ≡ n =
      r.spells ∙ ap (λ (p : List ℕ × Text). digits_value n p.0) stop in
    let short : length (d ∷ ds) ≤ suc k =
      omega (arith, r.short, ap (λ (p : List ℕ × Text). length p.0) stop) in
    let in_limit : ltb max_str_digits (length (d ∷ ds)) ≡ false = ground arith in
    (d, ds, spans, rw in_limit (ap ok spells))
