-- ===== src/Combat/Vitality.antt =====
-- combat/runtime.py: hit points and life state of one combatant after damage, healing or a death save.
use godot_dn_dsimulator.Base.{ℕ, ◌+◌, ◌-◌, ◌≤◌, min, ◌≡◌, Bool, true, arith}
use godot_dn_dsimulator.Combat.Model.{
  LifeState, unconscious, allows, DeathSaveTrack, CombatantState,
}
use godot_dn_dsimulator.Combat.Wounds.{
  Condition, life_after, damaged, healed, settle_save, death_save,
}

-- What the constructors of a combatant establish, with the bound that death saves have.
pub record IsSound (c : CombatantState) : Type 0 where
  pub within : c.actor.hit_points.current ≤ c.actor.hit_points.maximum
  pub maximum_least : 1 ≤ c.actor.hit_points.maximum
  pub allowed : allows c.life_state c.actor.hit_points.current ≡ true
  pub successes_most : c.death_saves.successes ≤ 3
  pub failures_most : c.death_saves.failures ≤ 3

-- The result of damage or healing that the constructors accept.
pub record IsSoundAfter (c : CombatantState) (after : Condition) : Type 0 where
  pub within : after.hp_after ≤ c.actor.hit_points.maximum
  pub allowed : allows after.life after.hp_after ≡ true
  pub successes_most : after.saves.successes ≤ 3
  pub failures_most : after.saves.failures ≤ 3

abbrev pub IsAccounted : CombatantState → ℕ → Condition → Type 0
IsAccounted c amount after =
    (after.hp_after + after.temporary_after
      ≡ c.actor.hit_points.current + c.actor.hit_points.temporary - amount)
    × (c.actor.hit_points.temporary
        ≡ after.temporary_after + min c.actor.hit_points.temporary amount)

-- Damage takes exactly its amount from the hit points and the temporary hit points together, or all of
-- them, and from the temporary ones first.
pub damaged-IsAccounted :
    (c : CombatantState) (amount : ℕ) (critical : Bool)
    → IsAccounted c amount (damaged c amount critical)
unfolding damaged
damaged-IsAccounted c amount critical = ground arith

life_after-allows :
    (c : CombatantState) (amount absorbed : ℕ) (critical : Bool)
    → IsSound c
    → absorbed ≤ amount
    → allows
        (life_after c amount
          (c.actor.hit_points.current - (amount - absorbed))
          (amount - absorbed - c.actor.hit_points.current)
          c.actor.hit_points.maximum
          critical).0
        (c.actor.hit_points.current - (amount - absorbed))
      ≡ true
unfolding life_after allows
life_after-allows c amount absorbed critical v h = ground arith

life_after-saves :
    (c : CombatantState) (amount after leftover maximum : ℕ) (critical : Bool)
    → IsSound c
    → ((life_after c amount after leftover maximum critical).1.successes ≤ 3)
      × ((life_after c amount after leftover maximum critical).1.failures ≤ 3)
unfolding life_after
life_after-saves c amount after leftover maximum critical v = ground arith

-- Damage to a sound combatant leaves hit points within the maximum, a life state that they allow, and
-- at most three successes and three failures.
pub damaged-IsSoundAfter :
    (c : CombatantState) (amount : ℕ) (critical : Bool)
    → IsSound c
    → IsSoundAfter c (damaged c amount critical)
unfolding damaged
damaged-IsSoundAfter c amount critical v = record {
  within = omega (arith, v.within);
  allowed =
      life_after-allows c amount (min c.actor.hit_points.temporary amount) critical v (omega arith);
  successes_most = (life_after-saves c amount _ _ _ critical v).0;
  failures_most = (life_after-saves c amount _ _ _ critical v).1;
}

-- So does healing.
pub healed-IsSoundAfter :
    (c : CombatantState) (amount : ℕ) → IsSound c → IsSoundAfter c (healed c amount)
unfolding healed allows
healed-IsSoundAfter c amount v = record {
  within = omega arith;
  allowed = ground arith;
  successes_most = ground arith;
  failures_most = ground arith;
}

settle_save_sound :
    (life : LifeState) (saves : DeathSaveTrack)
    → saves.successes ≤ 3
    → saves.failures ≤ 3
    → allows life 0 ≡ true
    → (allows (settle_save life saves).0 0 ≡ true)
      × ((settle_save life saves).1.successes ≤ 3)
      × ((settle_save life saves).1.failures ≤ 3)
unfolding settle_save allows
settle_save_sound life saves s f h = ground arith

-- A death save leaves an unconscious character with a life state that its hit points allow, within the
-- maximum, and with at most three successes and three failures.
pub death_save-IsSoundAfter :
    (c : CombatantState) (roll : ℕ)
    → c.life_state ≡ unconscious
    → IsSound c
    → IsSoundAfter c (death_save c roll)
unfolding death_save settle_save allows
death_save-IsSoundAfter c roll down v = record {
  within = ground arith;
  allowed = ground arith;
  successes_most = ground arith;
  failures_most = ground arith;
}
