-- ===== src/Combat/DeathSaves.antt =====
-- combat/runtime.py: a run of death saves of one combatant.
use godot_dn_dsimulator.Base.{
  ℕ, ◌+◌, ◌≤◌, ◌≡◌, ◌≢◌, false, List, [], ◌∷◌, arith, if◌then◌else◌, length, ◌⊎◌, inl, inr,
  Bool-cases,
}
use godot_dn_dsimulator.Combat.Model.{unconscious, CombatantState}
use godot_dn_dsimulator.Combat.Wounds.{Condition, is_unconscious, settle_save, death_save}

-- the combatant after a save
abbrev pub saved : CombatantState → Condition → CombatantState
saved c after = record c {
  actor = record c.actor {
    hit_points = record c.actor.hit_points {
      current = after.hp_after;
      temporary = after.temporary_after;
    };
  };
  life_state = after.life;
  death_saves = after.saves;
}

-- The saves of a combatant with the given rolls, one for each turn that starts unconscious.
unfoldable pub resolve_saves : CombatantState → List ℕ → CombatantState
resolve_saves c [] = c
resolve_saves c (roll ∷ rolls) =
    let later = resolve_saves (saved c (death_save c roll)) rolls in
    if is_unconscious c.life_state then later else c

-- an unconscious combatant has fewer than three successes and fewer than three failures
abbrev IsOpen : CombatantState → Type 0
IsOpen c = (c.death_saves.successes ≤ 2) × (c.death_saves.failures ≤ 2)

abbrev counted : CombatantState → ℕ
counted c = c.death_saves.successes + c.death_saves.failures

-- a save settles the matter or adds to the counts
death_save-progress :
    (c : CombatantState) (roll : ℕ)
    → IsOpen c
    → (is_unconscious (death_save c roll).life ≡ false)
      ⊎ (IsOpen (saved c (death_save c roll))
          × (counted c + 1 ≤ counted (saved c (death_save c roll))))
unfolding death_save settle_save
death_save-progress c roll open_ = ground arith

resolve_saves-settled :
    (c : CombatantState) (rolls : List ℕ)
    → is_unconscious c.life_state ≡ false
    → is_unconscious (resolve_saves c rolls).life_state ≡ false
unfolding resolve_saves
resolve_saves-settled c [] h = h
resolve_saves-settled c (roll ∷ rolls) h = ground arith

resolve_saves-open :
    (c : CombatantState) (rolls : List ℕ)
    → IsOpen c
    → 5 ≤ counted c + length rolls
    → is_unconscious (resolve_saves c rolls).life_state ≡ false
unfolding resolve_saves
resolve_saves-open c [] h enough = absurd (omega arith)
resolve_saves-open c (roll ∷ rolls) h enough = elim (Bool-cases (is_unconscious c.life_state)) [
  | inr settled ↦ ground arith
  | inl down ↦
      let later : is_unconscious (resolve_saves (saved c (death_save c roll)) rolls).life_state
          ≡ false =
        elim (death_save-progress c roll h) [
          | inl done ↦ resolve_saves-settled _ rolls done
          | inr (still, more) ↦
              resolve_saves-open (saved c (death_save c roll)) rolls still (omega arith)
        ] in
      ground arith
]

-- Whatever five death saves roll, a combatant with at most two successes and two failures is not
-- unconscious after them: it is conscious, stable or dead.
pub resolve_saves-ends :
    (c : CombatantState) (a b d e f : ℕ)
    → c.death_saves.successes ≤ 2
    → c.death_saves.failures ≤ 2
    → (resolve_saves c (a ∷ b ∷ d ∷ e ∷ f ∷ [])).life_state ≢ unconscious
resolve_saves-ends c a b d e f s h down =
    let settled = resolve_saves-open c (a ∷ b ∷ d ∷ e ∷ f ∷ []) (s, h) (omega arith) in cc
