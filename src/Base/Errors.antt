-- ===== src/Base/Errors.antt =====
-- errors.py, and a call that may raise as a value. Each constructor of `Error` is one class of
-- exception that the modelled code can raise; message texts are not modelled.
use mathlib.Core.Path.{◌≡◌, refl}
use mathlib.Core.Bool.{Bool, true, false}
use mathlib.Core.Option.{Option, none, some}
use mathlib.Core.List.{List, [], ◌∷◌}
use godot_dn_dsimulator.Base.Tests.{if◌then◌else◌}

-- `ValidationError`, `SequenceError` and `UnsupportedCommandError` of errors.py, and Python's own
-- exceptions where the code lets one escape.
pub data Error : Type 0 where
  validation_error sequence_error unsupported_command_error : Error
  value_error key_error assertion_error : Error
  -- of the model alone: a loop has used up its fuel
  out_of_fuel : Error

pub data Result {ℓ} (A : Type ℓ) : Type ℓ where
  ok : A → Result A
  err : Error → Result A

-- `if not test: raise error`
abbrev pub guard : Bool → Error → Result (Unit {0})
guard false error = err error
guard true error = ok tt

-- what a statement returns goes to the rest of the code, which an exception skips
infixl 5 ◌>>=◌ ◌>>◌
abbrev pub ◌>>=◌ {ℓ κ} : {B : Type κ} {A : Type ℓ} → Result A → (A → Result B) → Result B
err error >>= rest = err error
ok value >>= rest = rest value

abbrev pub ◌>>◌ {ℓ} : {B : Type ℓ} → Result (Unit {0}) → Result B → Result B
first >> rest = first >>= λ _. rest

-- `if value is None: raise error`
abbrev pub or_raise {ℓ} : {A : Type ℓ} → Option A → Error → Result A
or_raise none e = err e
or_raise (some a) e = ok a

-- a `for` loop that folds a step which may raise
abbrev pub fold_result {ℓ κ} :
    {A : Type ℓ} {B : Type κ} → (B → A → Result B) → B → List A → Result B
fold_result f b [] = ok b
fold_result f b (x ∷ xs) = f b x >>= λ b'. fold_result f b' xs

-- A chain that returned, taken apart.
pub >>=-eq-ok {ℓ κ} :
    {A : Type ℓ} {B : Type κ} (call : Result A) (rest : A → Result B) {end : B}
    → (call >>= rest) ≡ ok end
    → (middle : A) × (call ≡ ok middle) × (rest middle ≡ ok end)
>>=-eq-ok (err error) rest returned = cc
>>=-eq-ok (ok value) rest returned = (value, refl, returned)

pub guard-eq-ok : (b : Bool) (e : Error) {u : Unit {0}} → guard b e ≡ ok u → b ≡ true
guard-eq-ok true e h = refl
guard-eq-ok false e h = cc

module _ {ℓ} {A : Type ℓ} where
  pub or_raise-eq-ok : (o : Option A) (e : Error) {a : A} → or_raise o e ≡ ok a → o ≡ some a
  or_raise-eq-ok none e h = cc
  or_raise-eq-ok (some b) e h = cc

  pub ok-injective : {a b : A} → ok a ≡ ok b → a ≡ b
  ok-injective h = cc

-- A call that returns, with the value.
abbrev pub Returns {ℓ} : {A : Type ℓ} → Result A → Type ℓ
Returns {A = A} m = (a : A) × (m ≡ ok a)

module _ {ℓ} {A : Type ℓ} where
  pub Returns-if :
      (b : Bool) (m n : Result A) → Returns m → Returns n → Returns (if b then m else n)
  Returns-if true m n hm hn = hm
  Returns-if false m n hm hn = hn

  pub Returns-or_raise :
      (o : Option A) (e : Error) → (a : A) × (o ≡ some a) → Returns (or_raise o e)
  Returns-or_raise (some b) e h = (b, refl)
  Returns-or_raise none e h = cc (h.1)
