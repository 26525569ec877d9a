-- ===== src/Rng/Tests.antt =====
-- Runs of the generator, and the instances of its theorems.
use godot_dn_dsimulator.Base.{ℕ, ◌≤◌, ◌≡◌, refl, arith, ok, err, Returns, validation_error}
use godot_dn_dsimulator.Base.Int.{pos, negsuc}
use godot_dn_dsimulator.Rng.{
  DeterministicRng, from_seed, default_stream, next_uint32, randbelow, roll_die, snapshot, restore,
  advance, output,
}
use godot_dn_dsimulator.Rng.Words.{IsValid, from_seed-IsValid, restore-snapshot, restore-IsValid}
use godot_dn_dsimulator.Rng.Termination.{randbelow_total, roll_die_returns}

abbrev seeded : DeterministicRng
unfolding from_seed next_uint32 advance output
seeded = from_seed (pos 42) default_stream

seeded_state : seeded ≡ from_seed (pos 42) default_stream
unfolding from_seed next_uint32 advance output
seeded_state = refl

-- no bound of 0, and no die with one side
zero_bound : randbelow (pos 0) seeded ≡ err validation_error
unfolding randbelow
zero_bound = refl

one_side : roll_die (pos 1) seeded ≡ err validation_error
unfolding roll_die
one_side = refl

even_increment : restore (pos 7, pos 8) ≡ err validation_error
unfolding restore
even_increment = refl

from_seed-IsValid_example : IsValid (from_seed (negsuc 6) (pos 54))
from_seed-IsValid_example = from_seed-IsValid (negsuc 6) (pos 54)

restore-snapshot_example :
    restore (snapshot (from_seed (pos 42) (pos 54))) ≡ ok (from_seed (pos 42) (pos 54))
restore-snapshot_example =
    restore-snapshot (from_seed (pos 42) (pos 54)) (from_seed-IsValid (pos 42) (pos 54))

abbrev restored : DeterministicRng
restored = record { state = 5; increment = 9 }

restore_runs : restore (pos 5, pos 9) ≡ ok restored
unfolding restore
restore_runs = refl

restore-IsValid_example : IsValid restored × (snapshot restored ≡ (pos 5, pos 9))
restore-IsValid_example = restore-IsValid (pos 5, pos 9) restored restore_runs

randbelow_total_example : Returns (randbelow (pos 20) (from_seed (pos 42) (pos 54)))
randbelow_total_example =
    randbelow_total 20 (from_seed (pos 42) (pos 54)) (from_seed-IsValid (pos 42) (pos 54))
      (omega arith) (omega arith)

roll_die_returns_example :
    (face : ℕ) × (r' : DeterministicRng) × (roll_die (pos 20) (from_seed (pos 42) (pos 54))
      ≡ ok (face, r'))
    × (1 ≤ face)
    × (face ≤ 20)
    × IsValid r'
    × (r'.increment ≡ (from_seed (pos 42) (pos 54)).increment)
roll_die_returns_example =
    roll_die_returns 20 (from_seed (pos 42) (pos 54)) (from_seed-IsValid (pos 42) (pos 54))
      (omega arith) (omega arith)
