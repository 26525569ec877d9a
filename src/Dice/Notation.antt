-- ===== src/Dice/Notation.antt =====
-- dice.py: the canonical text of an expression, and the parser.
use mathlib.Core.Path.{subst}
use mathlib.Core.List.{append-nil}
use godot_dn_dsimulator.Base.{
  ℕ, zero, suc, ◌^◌, ◌≤◌, ◌<◌, ◌≡◌, refl, ap, ◌∙◌, Bool, true, false, not, List, [], ◌∷◌, ◌++◌,
  some, arith, filter, All, ok, ◌>>=◌, Bool-cases, inl, inr, ◌==◌,
}
use godot_dn_dsimulator.Base.Int.{ℤ, pos, negsuc, neg, ◌≤ℤ◌}
use godot_dn_dsimulator.Base.Text.{Text, is_space}
use godot_dn_dsimulator.Base.Decimal.{digit_value, digit_in, digit_zeros, span_digits, int_of, show}
use godot_dn_dsimulator.Base.Decimal.Show.{IsPrinted, show-IsPrinted, span_digits-show}
use godot_dn_dsimulator.Dice.{
  DiceExpression, dice_expression, finish_modifier, match_modifier, match_sides, match_letter,
  match_dice, count_of, modifier_of, parse, modifier_text, canonical,
}

-- the ranges that the constructor checks
pub record IsValid (e : DiceExpression) : Type 0 where
  pub count_least : 1 ≤ e.count
  pub count_most : e.count ≤ 100
  pub sides_least : 2 ≤ e.sides
  pub sides_most : e.sides ≤ 100_000
  pub modifier_least : negsuc 999_999 ≤ℤ e.modifier
  pub modifier_most : e.modifier ≤ℤ pos 1_000_000

-- Exactly the expressions in range are accepted, as they are.
pub dice_expression-eq-ok :
    (e : DiceExpression) → IsValid e → dice_expression (pos e.count) (pos e.sides) e.modifier ≡ ok e
unfolding dice_expression
dice_expression-eq-ok e v = ground arith

-- an expression that the constructor accepts is in range
pub dice_expression-IsValid :
    (count sides modifier : ℤ) (e : DiceExpression)
    → dice_expression count sides modifier ≡ ok e
    → IsValid e
unfolding dice_expression
dice_expression-IsValid count sides modifier e h = ground arith

All-append {ℓ κ} :
    {A : Type ℓ} (P : A → Type κ) (xs ys : List A) → All P xs → All P ys → All P (xs ++ ys)
All-append P [] ys hx hy = hy
All-append P (x ∷ xs) ys hx hy = (hx.0, All-append P xs ys hx.1 hy)

-- removing whitespace leaves a text without whitespace as it is
filter-IsPrinted : (s : Text) → All IsPrinted s → filter (λ c. not (is_space c)) s ≡ s
filter-IsPrinted [] h = refl
filter-IsPrinted (c ∷ s) h = rw (h.0, filter-IsPrinted s h.1)

modifier_text-IsPrinted : (m : ℤ) → All IsPrinted (modifier_text m)
unfolding modifier_text is_space
modifier_text-IsPrinted (pos n) = elim (Bool-cases (n == 0)) [
  | inl none_shown ↦ rw none_shown tt
  | inr shown ↦ rw shown (refl, show-IsPrinted n)
]
modifier_text-IsPrinted (negsuc n) = (refl, show-IsPrinted (suc n))

canonical-IsPrinted : (e : DiceExpression) → All IsPrinted (canonical e)
unfolding canonical
canonical-IsPrinted e = All-append IsPrinted (show e.count) _ (show-IsPrinted e.count) (
  unfold is_space in refl,
  All-append IsPrinted (show e.sides) _ (show-IsPrinted e.sides)
      (modifier_text-IsPrinted e.modifier),
)

stop-letter : (s : Text) → span_digits (b'd' ∷ s) ≡ ([], b'd' ∷ s)
unfolding span_digits digit_value digit_in digit_zeros
stop-letter s = refl

stop-modifier_text : (m : ℤ) → span_digits (modifier_text m) ≡ ([], modifier_text m)
unfolding span_digits digit_value digit_in digit_zeros modifier_text
stop-modifier_text (pos n) = elim (Bool-cases (n == 0)) [
  | inl none_shown ↦ rw none_shown
  | inr shown ↦ rw shown
]
stop-modifier_text (negsuc n) = refl

-- digits that end the text
span_digits-show_end :
    (n : ℕ)
    → n < 10 ^ 7
    → (d : ℕ) × (ds : List ℕ) × (span_digits (show n) ≡ (d ∷ ds, [])) × (int_of (d ∷ ds) ≡ ok n)
span_digits-show_end n h =
    let (d, ds, spans, value) =
      span_digits-show n 6 [] h (omega arith) (unfold span_digits in refl) in
    (d, ds, subst (λ s. span_digits s ≡ (d ∷ ds, [])) (append-nil (show n)) spans, value)

modifier_text-suc : (n : ℕ) → modifier_text (pos (suc n)) ≡ b'+' ∷ show (suc n)
unfolding modifier_text
modifier_text-suc n = let shown : (suc n == 0) ≡ false = ground arith in rw shown

-- the modifier's part of the match
match-modifier_text :
    (cs ss : List ℕ) (m : ℤ)
    → negsuc 999_999 ≤ℤ m
    → m ≤ℤ pos 1_000_000
    → (minus : Bool) × (ds : List ℕ) × (match_modifier cs ss (modifier_text m)
        ≡ some (record {
          count_digits = cs;
          sides_digits = ss;
          negative = minus;
          modifier_digits = ds;
        }))
      × (modifier_of minus ds ≡ ok m)
unfolding match_modifier finish_modifier modifier_text modifier_of
match-modifier_text cs ss (pos zero) low high = (false, [], refl, refl)
match-modifier_text cs ss (pos (suc n)) low high =
    let (d, ds, spans, value) = span_digits-show_end (suc n) (omega arith) in
    (
      false,
      d ∷ ds,
      ap (match_modifier cs ss) (modifier_text-suc n) ∙ ap (finish_modifier cs ss true false) spans,
      ap (λ r. r >>= λ m. ok (pos m)) value,
    )
match-modifier_text cs ss (negsuc n) low high =
    let (d, ds, spans, value) = span_digits-show_end (suc n) (omega arith) in
    (
      true,
      d ∷ ds,
      ap (finish_modifier cs ss true true) spans,
      ap (λ r. r >>= λ m. ok (neg (pos m))) value,
    )

-- The parser reads back the canonical text of every expression in range.
pub parse-canonical : (e : DiceExpression) → IsValid e → parse (canonical e) ≡ ok e
unfolding parse match_dice match_letter match_sides canonical count_of
parse-canonical e v =
    let tail : Text = modifier_text e.modifier in
    let (s, ss, sides_spans, sides_value) =
      span_digits-show e.sides 6 tail (omega arith) (omega arith) (stop-modifier_text e.modifier) in
    let behind : Text = b'd' ∷ (show e.sides ++ tail) in
    let (c, cs, count_spans, count_value) =
      span_digits-show e.count 6 behind (omega arith) (omega arith) (stop-letter _) in
    let (minus, ds, matched, modifier_value) =
      match-modifier_text (c ∷ cs) (s ∷ ss) e.modifier v.modifier_least v.modifier_most in
    rw (filter-IsPrinted (canonical e) (canonical-IsPrinted e), count_spans, sides_spans, matched)
      (rw (count_value, sides_value, modifier_value, dice_expression-eq-ok e v))
