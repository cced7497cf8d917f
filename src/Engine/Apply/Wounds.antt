-- ===== src/Engine/Apply/Wounds.antt =====
-- What harm does to a state: the cases `impact_applied` and `wound_marked`.
use text.Mathlib.TextEquality.{eq_iff}
use lldm.Prelude.{
  inl, inr, Bool-cases, false, ℕ, ◌+◌, ◌≤◌, ◌<◌, ◌≡◌, arith, true, ok, some, ◌==◌, find-holds,
  find-modify,
}
use lldm.Contracts.Ids.{OpaqueId}
use lldm.Contracts.Characters.{PlayableCharacter, WoundSlot, WoundSlots, empty_wound, filled_wound}
use lldm.Contracts.GameState.{GameState}
use lldm.Contracts.Events.{Impact}
use lldm.Engine.Apply.Access.{character_by_id, character_by_actor_id}
use lldm.Engine.Apply.Characters.{set_guard}
use lldm.Engine.Apply.Harm.{
  apply_impact, apply_wound_marked, changed_wounds, same_wound, is_one_empty, set_wounds,
}

abbrev pub filled : WoundSlot → ℕ
filled empty_wound = 0
filled (filled_wound id name) = 1

abbrev pub filled_count : WoundSlots → ℕ
filled_count w = filled w.slot_1 + filled w.slot_2 + filled w.slot_3

-- A slot that holds a wound holds the same wound afterwards.
abbrev pub KeepsWound : (old new : WoundSlot) → Type 0
KeepsWound empty_wound new = Unit
KeepsWound (filled_wound id name) new = new ≡ filled_wound id name

-- One more slot is filled, and every wound that was there stays in its slot.
pub record OneMore (old new : WoundSlots) : Type 0 where
  pub counted : filled_count new ≡ filled_count old + 1
  pub keeps_1 : KeepsWound old.slot_1 new.slot_1
  pub keeps_2 : KeepsWound old.slot_2 new.slot_2
  pub keeps_3 : KeepsWound old.slot_3 new.slot_3

same_wound-KeepsWound : (old new : WoundSlot) → same_wound old new ≡ true → KeepsWound old new
same_wound-KeepsWound empty_wound new h = tt
same_wound-KeepsWound (filled_wound i n) empty_wound h = absurd cc
same_wound-KeepsWound (filled_wound i n) (filled_wound j m) h =
    ground (arith, h, (eq_iff n m).0 (ground (arith, h)))

-- A slot is unchanged, or it was empty.
empty-KeepsWound : (old new : WoundSlot) → old ≡ empty_wound → KeepsWound old new
empty-KeepsWound empty_wound new h = tt
empty-KeepsWound (filled_wound i n) new h = absurd cc

slot-KeepsWound :
    (old new : WoundSlot) → (same_wound old new ≡ false → old ≡ empty_wound) → KeepsWound old new
slot-KeepsWound old new h = elim (Bool-cases (same_wound old new)) [
  | inl same ↦ same_wound-KeepsWound old new same
  | inr other ↦ empty-KeepsWound old new (h other)
]

one_empty-OneMore :
    (old new : WoundSlots) → is_one_empty (changed_wounds old new) ≡ true → OneMore old new
one_empty-OneMore old new h = record {
  counted = ground arith;
  keeps_1 = slot-KeepsWound old.slot_1 new.slot_1 (λ d. ground arith);
  keeps_2 = slot-KeepsWound old.slot_2 new.slot_2 (λ d. ground arith);
  keeps_3 = slot-KeepsWound old.slot_3 new.slot_3 (λ d. ground arith);
}

-- A wound that a character of the party takes leaves the character with the recorded slots, of which
-- exactly one more is filled, and every wound that the character had is still in its slot.
pub wound_marked-filled :
    (s : GameState) (id : OpaqueId) (wounds : WoundSlots) (c : PlayableCharacter) {t : GameState}
    → character_by_id s id ≡ some c
    → apply_wound_marked s id wounds ≡ ok t
    → (character_by_id t id ≡ some (set_wounds wounds c)) × OneMore c.resources.wounds wounds
unfolding apply_wound_marked character_by_id
wound_marked-filled s id wounds c found h = (
  ground (
    arith,
    found,
    h,
    find-holds (λ c. c.character_id == id) s.party.characters c found,
    find-modify (λ c. c.character_id == id) (set_wounds wounds) s.party.characters c found,
  ),
  one_empty-OneMore c.resources.wounds wounds (ground (arith, found, h)),
)

-- An impact that a hero takes leaves Guard that is lower where there was any, by at least one and by
-- no more than there was, and it leaves no Guard where it is as high as the Guard that was there.
pub impact-lowers :
    (s : GameState) (e : Impact) (c : PlayableCharacter) {t : GameState}
    → character_by_actor_id s e.target_actor_id ≡ some c
    → apply_impact s e ≡ ok t
    → let guard_before = c.resources.guard_pool.current in
      (character_by_actor_id t e.target_actor_id ≡ some (set_guard e.guard_after c))
      × (1 ≤ e.applied_impact)
      × (1 ≤ guard_before → e.guard_after < guard_before)
      × (guard_before ≤ e.guard_after + e.applied_impact)
      × (guard_before ≤ e.applied_impact → e.guard_after ≡ 0)
unfolding apply_impact character_by_actor_id
impact-lowers s e c found h = ground (
  arith,
  found,
  find-holds (λ c. c.foundation.actor_id == e.target_actor_id) s.party.characters c found,
  find-modify (λ c. c.foundation.actor_id == e.target_actor_id) (set_guard e.guard_after)
      s.party.characters c found,
)
