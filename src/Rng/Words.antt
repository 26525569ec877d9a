-- ===== src/Rng/Words.antt =====
-- rng.py: the machine words of the generator, its seeding and its snapshots.
use Prim.Native.Nat.{bit_or, digits, bit_or-bitwise}
use godot_dn_dsimulator.Base.{
  ℕ, zero, suc, ◌+◌, ◌*◌, ◌/◌, ◌%◌, ◌^◌, ◌≤◌, ◌<◌, max, ◌≡◌, refl, arith, ok,
}
use godot_dn_dsimulator.Base.Int.{ℤ, pos, negsuc}
use godot_dn_dsimulator.Rng.{
  DeterministicRng, modulus, mask_64, output, next_uint32, from_seed, snapshot, restore,
}

-- What `restore` demands of a generator: two 64-bit words, the increment odd.
pub record IsValid (r : DeterministicRng) : Type 0 where
  pub state_word : r.state < modulus
  pub increment_word : r.increment < modulus
  pub increment_odd : r.increment % 2 ≡ 1

-- `bit_or` by its digits: the lowest bit, and the rest
abbrev or_digits : ℕ → ℕ → ℕ → ℕ
or_digits n a b = digits (λ b. b) max n a b

zero-bit_or : (b : ℕ) → bit_or 0 b ≡ b
zero-bit_or b = bit_or-bitwise 0 b

or_digits-zero : (n a : ℕ) → a ≤ n → or_digits n a 0 ≡ a
or_digits-zero zero zero h = refl
or_digits-zero (suc n) zero h = refl
or_digits-zero zero (suc a) h = absurd (omega arith)
or_digits-zero (suc n) (suc a) h = omega (arith, or_digits-zero n (suc a / 2) (omega arith))

-- shifting in a one at the bottom
double-bit_or-one : (x : ℕ) → bit_or (x * 2) 1 ≡ x * 2 + 1
double-bit_or-one zero = refl
double-bit_or-one (suc x) =
    let n : ℕ = x * 2 + 1 in
    let e : suc x * 2 ≡ suc n = omega arith in
    rw e (omega (arith, bit_or-bitwise (suc n) 1, or_digits-zero n (suc n / 2) (omega arith)))

mask_64-lt : (x : ℤ) → mask_64 x < modulus
mask_64-lt (pos n) = omega arith
mask_64-lt (negsuc n) = omega arith

-- Every output is a 32-bit word.
pub output-lt : (s : ℕ) → output s < 2 ^ 32
unfolding output
output-lt s = omega arith

-- One step keeps the words in range and the increment as it is.
pub next_uint32-IsValid : {r : DeterministicRng} → IsValid r → IsValid (next_uint32 r).1
unfolding next_uint32
next_uint32-IsValid v = record {
  state_word = omega arith;
  increment_word = v.increment_word;
  increment_odd = v.increment_odd;
}

-- Whatever the seed and the stream, of either sign, a seeded generator is valid.
pub from_seed-IsValid : (seed stream : ℤ) → IsValid (from_seed seed stream)
unfolding from_seed next_uint32
from_seed-IsValid seed stream = record {
  state_word = omega arith;
  increment_word = omega arith;
  increment_odd = omega (arith, double-bit_or-one (mask_64 stream));
}

-- A valid generator is restored from its own snapshot.
pub restore-snapshot : (r : DeterministicRng) → IsValid r → restore (snapshot r) ≡ ok r
unfolding restore
restore-snapshot r v = ground arith

-- What `restore` accepts is valid, and its snapshot is what it was restored from.
pub restore-IsValid :
    (w : ℤ × ℤ) (r : DeterministicRng) → restore w ≡ ok r → IsValid r × (snapshot r ≡ w)
unfolding restore
restore-IsValid (pos s, pos i) r h = ground arith
restore-IsValid (pos s, negsuc i) r h = cc
restore-IsValid (negsuc s, i) r h = cc
