-- ===== src/Combat/Damage.antt =====
-- combat/damage.py: what a defense profile makes of a damage packet.
use godot_dn_dsimulator.Base.{
  ℕ, ◌*◌, ◌/◌, Bool, true, false, not, if◌then◌else◌, any, Result, ok, validation_error, guard,
  ◌>>◌,
}
use godot_dn_dsimulator.Base.Text.{Text, text_eq, is_blank}
use godot_dn_dsimulator.Combat.Model.{DefenseProfile}

pub record DamagePacket : Type 0 where
  pub amount : ℕ
  pub damage_type : Text

unfoldable pub damage_packet : DamagePacket → Result DamagePacket
damage_packet p = do guard (not (is_blank p.damage_type)) validation_error; ok p

pub record DamageAdjustment : Type 0 where
  pub raw_amount : ℕ
  pub adjusted_amount : ℕ
  pub immune : Bool
  pub resistant : Bool
  pub vulnerable : Bool

-- resistance halves, rounding down, and then vulnerability doubles
unfoldable pub adjusted : ℕ → Bool → Bool → ℕ
adjusted amount resistant vulnerable =
    let halved = if resistant then amount / 2 else amount in
    if vulnerable then halved * 2 else halved

unfoldable pub adjust_damage : DamagePacket → DefenseProfile → DamageAdjustment
unfolding adjusted
adjust_damage p d =
    if any (text_eq p.damage_type) d.immunities
    then record {
      raw_amount = p.amount;
      adjusted_amount = 0;
      immune = true;
      resistant = false;
      vulnerable = false;
    }
    else record {
      raw_amount = p.amount;
      adjusted_amount =
          adjusted p.amount (any (text_eq p.damage_type) d.resistances)
            (any (text_eq p.damage_type) d.vulnerabilities);
      immune = false;
      resistant = any (text_eq p.damage_type) d.resistances;
      vulnerable = any (text_eq p.damage_type) d.vulnerabilities;
    }
