-- ===== src/Simulation/Model.antt =====
-- models.py: commands, events, snapshots and the game state, each with the checks of its constructor.
-- A field that the constructor forces to be an integer from 0 is a native number.
use godot_dn_dsimulator.Base.{
  ℕ, ◌%◌, Bool, not, ◌&&◌, Option, none, some, List, ltb, leb, ◌==◌, all, Result, ok,
  validation_error, guard, ◌>>=◌, ◌>>◌,
}
use godot_dn_dsimulator.Base.Int.{ℤ, leb_ℤ}
use godot_dn_dsimulator.Base.Text.{Text, text, text_leb, is_blank, is_empty}
use godot_dn_dsimulator.Base.Sort.{sort, lex}
use godot_dn_dsimulator.Base.Keyed.{find_key, unique_keys, put_key}
use godot_dn_dsimulator.Ids.{require_id}
use godot_dn_dsimulator.Rng.{modulus}

-- the values of a payload; `opaque` stands for every value that no modelled code accepts
pub data Value : Type 0 where
  null opaque : Value
  boolean : Bool → Value
  integer : ℤ → Value
  string : Text → Value
  numbers : List ℕ → Value

abbrev pub entry_key {ℓ} : {A : Type ℓ} → Text × A → Text
entry_key p = p.0

abbrev pub Payload : Type 0
Payload = List (Text × Value)

-- `payload.get(key)`, where a missing key reads as `None`
abbrev pub get : Text → Payload → Value
get k payload = elim (find_key entry_key k payload) [ none ↦ null | some e ↦ e.1 ]

-- `payload.get(key, default)`
abbrev pub get_or : Text → Value → Payload → Value
get_or k default payload = elim (find_key entry_key k payload) [ none ↦ default | some e ↦ e.1 ]

-- `require_id` of an identifier that may be `None`
abbrev pub require_optional_id : Option Text → Text → Result (Unit {0})
require_optional_id none namespace = ok tt
require_optional_id (some value) namespace = do _ ← require_id value namespace; ok tt

pub record RngCheckpoint : Type 0 where
  pub algorithm : Text
  pub state : ℕ
  pub increment : ℕ

-- `RNGCheckpoint.__post_init__`
unfoldable pub rng_checkpoint : RngCheckpoint → Result RngCheckpoint
rng_checkpoint c = do
  guard (not (is_blank c.algorithm)) validation_error
  guard (ltb c.state modulus && ltb c.increment modulus) validation_error
  guard (not (c.increment % 2 == 0)) validation_error
  ok c

pub record CommandEnvelope : Type 0 where
  pub command_id : Text
  pub campaign_id : Text
  pub session_id : Text
  pub command_type : Text
  pub payload : Payload
  pub version : ℕ
  pub actor_id : Option Text
  pub expected_sequence : Option ℕ

-- `CommandEnvelope.__post_init__`
unfoldable pub command_envelope : CommandEnvelope → Result CommandEnvelope
command_envelope c = do
  _ ← require_id c.command_id (text "command")
  _ ← require_id c.campaign_id (text "campaign")
  _ ← require_id c.session_id (text "session")
  require_optional_id c.actor_id (text "actor")
  guard (leb 1 c.version) validation_error
  guard (not (is_blank c.command_type)) validation_error
  ok c

pub record EventEnvelope : Type 0 where
  pub event_id : Text
  pub campaign_id : Text
  pub session_id : Text
  pub sequence : ℕ
  pub event_type : Text
  pub correlation_id : Text
  pub causation_id : Text
  pub payload : Payload
  pub version : ℕ
  pub tick : ℕ
  pub rng_after : Option RngCheckpoint

-- `EventEnvelope.__post_init__`
unfoldable pub event_envelope : EventEnvelope → Result EventEnvelope
event_envelope e = do
  _ ← require_id e.event_id (text "event")
  _ ← require_id e.campaign_id (text "campaign")
  _ ← require_id e.session_id (text "session")
  _ ← require_id e.correlation_id (text "command")
  _ ← require_id e.causation_id (text "command")
  guard (leb 1 e.sequence) validation_error
  guard (not (is_blank e.event_type)) validation_error
  guard (leb 1 e.version) validation_error
  ok e

abbrev pub Counters : Type 0
Counters = List (Text × ℤ)

-- the order of the tuples `(name, value)`
abbrev pub counter_leb : Text × ℤ → Text × ℤ → Bool
counter_leb = lex (λ a b. text_leb a.0 b.0) (λ a b. leb_ℤ a.1 b.1)

pub record GameState : Type 0 where
  pub campaign_id : Text
  pub session_id : Text
  pub sequence : ℕ
  pub tick : ℕ
  pub counters : Counters

-- `GameState.__post_init__`: counters have names, no name twice, and are kept sorted
unfoldable pub game_state : GameState → Result GameState
unfolding is_empty
game_state s = do
  _ ← require_id s.campaign_id (text "campaign")
  _ ← require_id s.session_id (text "session")
  guard (all (λ e. not (is_empty e.0)) s.counters && unique_keys entry_key s.counters)
      validation_error
  ok (record s { counters = sort counter_leb s.counters })

-- `GameState.counter`
unfoldable pub counter : Text → ℤ → GameState → ℤ
counter name default s = elim (find_key entry_key name s.counters) [ none ↦ default | some e ↦ e.1 ]

-- `GameState.with_counter`
unfoldable pub with_counter : GameState → Text → ℤ → ℕ → ℕ → Result GameState
with_counter s name value sequence tick = game_state (record s {
  sequence = sequence;
  tick = tick;
  counters = put_key entry_key (name, value) s.counters;
})

pub record SimulationSnapshot : Type 0 where
  pub state : GameState
  pub rng : RngCheckpoint
