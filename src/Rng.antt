-- ===== src/Rng.antt =====
-- rng.py: the PCG32 generator. A method that advances the generator returns its new state. The
-- rejection loop of `randbelow` runs on fuel, one round for each state of the generator.
pub mod Words
pub mod Period
pub mod Draw
pub mod Termination
mod Tests
use Prim.Native.Nat.{bit_or, bit_xor}
use godot_dn_dsimulator.Base.{
  ℕ, zero, suc, ◌+◌, ◌-◌, ◌*◌, ◌/◌, ◌%◌, ◌^◌, Bool, true, false, ◌&&◌, Option, none, some, ltb, leb,
  ◌==◌, if◌then◌else◌, Result, ok, err, validation_error, out_of_fuel, or_raise, ◌>>=◌,
}
use godot_dn_dsimulator.Base.Int.{ℤ, pos, negsuc}

-- `_MULTIPLIER`
abbrev pub multiplier : ℕ
multiplier = 6364136223846793005

-- `_MASK_64 + 1`: `x & _MASK_64` is `x % modulus`
abbrev pub modulus : ℕ
modulus = 2 ^ 64

-- `_DEFAULT_STREAM`
abbrev pub default_stream : ℤ
default_stream = pos 54

pub record DeterministicRng : Type 0 where
  pub state : ℕ
  pub increment : ℕ

-- `x & _MASK_64` of a Python integer: a negative one stands for its two's complement
abbrev pub mask_64 : ℤ → ℕ
mask_64 (pos n) = n % modulus
mask_64 (negsuc n) = modulus - 1 - n % modulus

-- the new state of one step
unfoldable pub advance : ℕ → ℕ → ℕ
advance increment state = (state * multiplier + increment) % modulus

-- the output permutation: xorshift, then a rotation by the top five bits
unfoldable pub output : ℕ → ℕ
output old_state =
    let xor_shifted = bit_xor (old_state / 2 ^ 18) old_state / 2 ^ 27 % 2 ^ 32 in
    let rotation = old_state / 2 ^ 59 % 32 in
    bit_or (xor_shifted / 2 ^ rotation) (xor_shifted * 2 ^ ((32 - rotation) % 32)) % 2 ^ 32

unfoldable pub next_uint32 : DeterministicRng → ℕ × DeterministicRng
unfolding advance output
next_uint32 r = (output r.state, record r { state = advance r.increment r.state })

unfoldable pub from_seed : ℤ → ℤ → DeterministicRng
unfolding next_uint32
from_seed seed stream =
    let start : DeterministicRng = record {
      state = 0;
      increment = bit_or (mask_64 stream * 2) 1 % modulus;
    } in
    let r = (next_uint32 start).1 in
    (next_uint32 (record r { state = (r.state + mask_64 seed) % modulus })).1

-- the `while True` of `randbelow`
unfoldable pub draw : ℕ → ℕ → ℕ → DeterministicRng → Option (ℕ × DeterministicRng)
draw zero threshold upper_bound r = none
draw (suc fuel) threshold upper_bound r =
    let again = draw fuel threshold upper_bound (next_uint32 r).1 in
    if leb threshold (next_uint32 r).0
    then some ((next_uint32 r).0 % upper_bound, (next_uint32 r).1)
    else again

-- one round for each state of the generator
abbrev pub draw_fuel : ℕ
draw_fuel = 2 ^ 64

unfoldable pub randbelow : ℤ → DeterministicRng → Result (ℕ × DeterministicRng)
randbelow (negsuc _) r = err validation_error
randbelow (pos upper_bound) r =
    if leb 1 upper_bound && leb upper_bound (2 ^ 32)
    then if upper_bound == 2 ^ 32
      then ok (next_uint32 r)
      else or_raise (draw draw_fuel ((2 ^ 32 - upper_bound) % upper_bound) upper_bound r)
          out_of_fuel
    else err validation_error

unfoldable pub roll_die : ℤ → DeterministicRng → Result (ℕ × DeterministicRng)
roll_die (negsuc _) r = err validation_error
roll_die (pos sides) r =
    if ltb sides 2
    then err validation_error
    else do (value, r') ← randbelow (pos sides) r; ok (value + 1, r')

abbrev pub snapshot : DeterministicRng → ℤ × ℤ
snapshot r = (pos r.state, pos r.increment)

unfoldable pub restore : ℤ × ℤ → Result DeterministicRng
restore (pos state, pos increment) =
    if ltb state modulus && ltb increment modulus
    then if increment % 2 == 0
      then err validation_error
      else ok (record { state = state; increment = increment })
    else err validation_error
restore _ = err validation_error
