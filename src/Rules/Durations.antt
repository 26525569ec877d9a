-- ===== src/Rules/Durations.antt =====
-- rules/state.py: durations that are advanced more than once.
use godot_dn_dsimulator.Base.{
  Bool-cases, inl, inr, sym, err, validation_error, ℕ, ◌+◌, ◌≡◌, refl, ap, ◌∙◌, Bool, true, false,
  List, [], ◌∷◌, arith, Option, none, some, zero, suc, if◌then◌else◌,
}
use godot_dn_dsimulator.Base.Int.{ℤ, pos, negsuc}
use godot_dn_dsimulator.Rules.State.{
  RuleSubjectState, with_conditions, advance_condition_durations, DurationUnit, ticks, rounds,
  turns, same_unit, Duration, shorten, advance_duration, ConditionInstance, with_duration,
  advance_if, advance_by, advance_condition, advance_conditions, keep,
}

-- what is left after more time
abbrev then_advance : Option Duration → ℕ → Option Duration
then_advance none amount = none
then_advance (some d) amount = advance_duration d amount

advance_duration-add :
    (d : Duration) (a b : ℕ) → then_advance (advance_duration d a) b ≡ advance_duration d (a + b)
unfolding advance_duration shorten
advance_duration-add d a b = ground arith

unit-advance_duration : (d e : Duration) (a : ℕ) → advance_duration d a ≡ some e → e.unit ≡ d.unit
unfolding advance_duration shorten
unit-advance_duration d e a h = ground arith

-- a condition whose duration runs, by what is left of it
run-add :
    (unit : DurationUnit) (c : ConditionInstance) (d : Duration) (a b : ℕ)
    (cs : List ConditionInstance) (left : Option Duration)
    → same_unit d.unit unit ≡ true
    → advance_duration d a ≡ left
    → advance_conditions unit b (keep (with_duration c left) cs)
      ≡ keep (with_duration c (then_advance left b)) (advance_conditions unit b cs)
unfolding advance_conditions advance_condition
run-add unit c d a b cs none running h = refl
run-add unit c d a b cs (some e) running h =
    let same : same_unit e.unit unit ≡ true =
      ap (λ u. same_unit u unit) (unit-advance_duration d e a h) ∙ running in
    ap
      (λ test.
        keep (advance_if (record c { duration = some e }) e b test) (advance_conditions unit b cs))
      same

lasting-add :
    (unit : DurationUnit) (c : ConditionInstance) (d : Duration) (a b : ℕ)
    (cs : List ConditionInstance) (test : Bool)
    → c.duration ≡ some d
    → same_unit d.unit unit ≡ test
    → advance_conditions unit b (keep (advance_if c d a test) cs)
      ≡ keep (advance_if c d (a + b) test) (advance_conditions unit b cs)
unfolding advance_conditions advance_condition
lasting-add unit c d a b cs false lasts same =
    ap (λ o. keep (advance_by unit b c o) (advance_conditions unit b cs)) lasts
    ∙ ap (λ test. keep (advance_if c d b test) (advance_conditions unit b cs)) same
lasting-add unit c d a b cs true lasts same =
    run-add unit c d a b cs (advance_duration d a) same refl
    ∙ ap (λ o. keep (with_duration c o) (advance_conditions unit b cs)) (advance_duration-add d a b)

by-add :
    (unit : DurationUnit) (c : ConditionInstance) (a b : ℕ) (cs : List ConditionInstance)
    (given : Option Duration)
    → c.duration ≡ given
    → advance_conditions unit b (keep (advance_by unit a c given) cs)
      ≡ keep (advance_by unit (a + b) c given) (advance_conditions unit b cs)
unfolding advance_conditions advance_condition
by-add unit c a b cs none lasts =
    ap (λ o. keep (advance_by unit b c o) (advance_conditions unit b cs)) lasts
by-add unit c a b cs (some d) lasts = lasting-add unit c d a b cs (same_unit d.unit unit) lasts refl

-- advancing by one amount and then by another is advancing by their sum
advance_conditions-add :
    (unit : DurationUnit) (a b : ℕ) (cs : List ConditionInstance)
    → advance_conditions unit b (advance_conditions unit a cs) ≡ advance_conditions unit (a + b) cs
unfolding advance_conditions advance_condition
advance_conditions-add unit a b [] = refl
advance_conditions-add unit a b (c ∷ cs) =
    by-add unit c a b (advance_conditions unit a cs) c.duration refl
    ∙ ap (keep (advance_condition unit (a + b) c)) (advance_conditions-add unit a b cs)

-- whether the passing of a unit of time counts for a duration in another unit: a permanent one never
-- runs
abbrev pub runs_in : DurationUnit → DurationUnit → Bool
runs_in ticks ticks = true
runs_in rounds rounds = true
runs_in turns turns = true
runs_in _ _ = false

-- a condition after one unit of a time in which it runs: it expires at its last unit
abbrev pub after_one : ConditionInstance → Duration → Option ℕ → Option ConditionInstance
after_one c d (some (suc (suc n))) =
    some (record c { duration = some (record d { remaining = some (suc n) }) })
after_one c d _ = none

abbrev after_unit : DurationUnit → ConditionInstance → Option Duration → Option ConditionInstance
after_unit unit c none = some c
after_unit unit c (some d) = if runs_in d.unit unit then after_one c d d.remaining else some c

-- the conditions after one unit of a time
abbrev pub one_passes : DurationUnit → List ConditionInstance → List ConditionInstance
one_passes unit [] = []
one_passes unit (c ∷ cs) = keep (after_unit unit c c.duration) (one_passes unit cs)

-- the conditions after a number of units, which pass one by one
abbrev pub passes : DurationUnit → ℕ → List ConditionInstance → List ConditionInstance
passes unit zero cs = cs
passes unit (suc n) cs = passes unit n (one_passes unit cs)

advance_duration-zero : (d : Duration) → advance_duration d 0 ≡ some d
unfolding advance_duration shorten
advance_duration-zero d = ground arith

-- no time leaves a condition as it is
by-zero :
    (unit : DurationUnit) (c : ConditionInstance) (given : Option Duration)
    → c.duration ≡ given
    → advance_by unit 0 c given ≡ some c
by-zero unit c none lasts = refl
by-zero unit c (some d) lasts = elim (Bool-cases (same_unit d.unit unit)) [
  | inr other ↦ ap (advance_if c d 0) other
  | inl same ↦
      ap (advance_if c d 0) same
      ∙ ap (with_duration c) (advance_duration-zero d)
      ∙ ap (λ given. some (record c { duration = given })) (sym lasts)
]

advance_conditions-zero :
    (unit : DurationUnit) (cs : List ConditionInstance) → advance_conditions unit 0 cs ≡ cs
unfolding advance_conditions advance_condition
advance_conditions-zero unit [] = refl
advance_conditions-zero unit (c ∷ cs) =
    ap (λ o. keep o (advance_conditions unit 0 cs)) (by-zero unit c c.duration refl)
    ∙ ap (λ ds. c ∷ ds) (advance_conditions-zero unit cs)

if-one :
    (unit kind : DurationUnit) (c : ConditionInstance) (left : Option ℕ)
    → advance_if c (record { unit = kind; remaining = left }) 1 (same_unit kind unit) ≡ (
        if runs_in kind unit
        then after_one c (record { unit = kind; remaining = left }) left
        else advance_if c (record { unit = kind; remaining = left }) 0 (same_unit kind unit))
unfolding advance_duration shorten same_unit
if-one unit kind c left = ground arith

by-one :
    (unit : DurationUnit) (c : ConditionInstance) (given : Option Duration)
    → c.duration ≡ given
    → advance_by unit 1 c given ≡ after_unit unit c given
by-one unit c none lasts = refl
by-one unit c (some d) lasts =
    if-one unit d.unit c d.remaining
    ∙ ap (λ o. if runs_in d.unit unit then after_one c d d.remaining else o)
        (by-zero unit c (some d) lasts)

advance_conditions-one :
    (unit : DurationUnit) (cs : List ConditionInstance)
    → advance_conditions unit 1 cs ≡ one_passes unit cs
unfolding advance_conditions advance_condition
advance_conditions-one unit [] = refl
advance_conditions-one unit (c ∷ cs) =
    ap (λ o. keep o (advance_conditions unit 1 cs)) (by-one unit c c.duration refl)
    ∙ ap (keep (after_unit unit c c.duration)) (advance_conditions-one unit cs)

advance_conditions-passes :
    (unit : DurationUnit) (amount : ℕ) (cs : List ConditionInstance)
    → advance_conditions unit amount cs ≡ passes unit amount cs
advance_conditions-passes unit zero cs = advance_conditions-zero unit cs
advance_conditions-passes unit (suc n) cs =
    ap (λ k. advance_conditions unit k cs) (omega arith)
    ∙ sym (advance_conditions-add unit 1 n cs)
    ∙ ap (advance_conditions unit n) (advance_conditions-one unit cs)
    ∙ advance_conditions-passes unit n (one_passes unit cs)

-- Advancing the durations of a subject's conditions by an amount of a unit of time is what happens when
-- the units pass one by one: at each unit a condition whose duration runs in it has one unit less, and
-- is removed at its last one, and every other condition, permanent ones and those of other units among
-- them, stays as it is. A negative amount is refused.
pub advance_condition_durations-passes :
    (s : RuleSubjectState) (unit : DurationUnit) (amount : ℤ)
    → advance_condition_durations s unit amount ≡ elim amount [
      | pos n ↦ with_conditions s (passes unit n s.conditions)
      | negsuc n ↦ err validation_error
    ]
unfolding advance_condition_durations
advance_condition_durations-passes s unit (pos n) =
    ap (with_conditions s) (advance_conditions-passes unit n s.conditions)
advance_condition_durations-passes s unit (negsuc n) = refl
