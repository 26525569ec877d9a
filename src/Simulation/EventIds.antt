-- ===== src/Simulation/EventIds.antt =====
-- engine.py and ids.py: the identifiers of emitted events.
use godot_dn_dsimulator.Base.{
  ℕ, zero, suc, ◌+◌, ◌-◌, ◌^◌, ◌≤◌, ◌<◌, ◌≡◌, refl, true, [], ◌∷◌, ◌++◌, all, All, arith, ok,
  length, leb, le→leb,
}
use godot_dn_dsimulator.Base.Text.{Text, text}
use godot_dn_dsimulator.Base.Decimal.{show}
use godot_dn_dsimulator.Base.Decimal.Show.{All-show, length-show}
use godot_dn_dsimulator.Ids.{is_name_start, is_name_char, is_name, require_id, match_id}
use godot_dn_dsimulator.Simulation.Engine.{zeros, event_id}

abbrev IsNameChar : ℕ → Type 0
IsNameChar c = (is_name_start c ≡ true) × (is_name_char c ≡ true)

digit-IsNameChar : (d : ℕ) → d < 10 → IsNameChar (b'0' + d)
unfolding is_name_char is_name_start
digit-IsNameChar d h = ground arith

zeros-All : (n : ℕ) (s : Text) → All IsNameChar s → All IsNameChar (zeros n s)
unfolding zeros
zeros-All zero s h = h
zeros-All (suc n) s h = (digit-IsNameChar 0 (omega arith), zeros-All n s h)

length-zeros : (n : ℕ) (s : Text) → length (zeros n s) ≡ n + length s
unfolding zeros
length-zeros zero s = omega arith
length-zeros (suc n) s = omega (arith, length-zeros n s)

all-of_All : (s : Text) → All IsNameChar s → all is_name_char s ≡ true
all-of_All [] h = refl
all-of_All (c ∷ s) h = rw (h.0.1, all-of_All s h.1)

is_name_of_All : (s : Text) → All IsNameChar s → 1 ≤ length s → length s ≤ 128 → is_name s ≡ true
unfolding is_name
is_name_of_All [] h low high = absurd (omega arith)
is_name_of_All (c ∷ s) h low high =
    let fits : leb (length s) 127 ≡ true = le→leb (length s) 127 (omega arith) in
    rw (h.0.0, all-of_All s h.1, fits)

require_id-event :
    (name : Text)
    → is_name name ≡ true
    → require_id (text "event:" ++ name) (text "event") ≡ ok (text "event:" ++ name)
unfolding require_id match_id
require_id-event name h = ground arith

-- The identifier of every event whose sequence number has at most 128 digits is accepted.
pub require_id-event_id :
    (sequence : ℕ)
    → sequence < 10 ^ 128
    → require_id (event_id sequence) (text "event") ≡ ok (event_id sequence)
unfolding event_id
require_id-event_id sequence h =
    let digits : Text = show sequence in
    let bounds = length-show sequence 127 h in
    let padded : Text = zeros (16 - length digits) digits in
    let size : length padded ≡ 16 - length digits + length digits = length-zeros _ digits in
    require_id-event padded (
      is_name_of_All padded (zeros-All _ digits (All-show IsNameChar digit-IsNameChar sequence))
        (omega arith) (omega arith))
