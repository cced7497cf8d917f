-- ===== src/Engine/Apply/Harm.antt =====
-- The cases of `applyGameEvent` for impact, wounds, death and the overlay of a boss.
use text.Mathlib.Text.{◌==◌ as str_eq}
use lldm.Prelude.{
  ℕ, ◌+◌, ◌-◌, max, String, Bool, true, false, ◌&&◌, Option, none, some, List, [], ◌∷◌, ◌++◌, map,
  ◌==◌, leb, if◌then◌else◌, Result, ok, ◌>>=◌, ◌>>◌, guard, require,
}
use lldm.Contracts.Ids.{OpaqueId}
use lldm.Contracts.Characters.{PlayableCharacter, WoundSlot, empty_wound, filled_wound, WoundSlots}
use lldm.Contracts.Combat.{
  CombatState, CombatParticipant, CombatRole, hero_role, enemy_role, EnemyDetails, boss, squad,
  BossOverlay,
}
use lldm.Contracts.GameState.{GameState}
use lldm.Contracts.Events.{Impact}
use lldm.Engine.Apply.Access.{
  character_by_id, character_by_actor_id, update_character, update_character_of_actor, set_combat,
  combat_named, participant, update_participant,
}
use lldm.Engine.Apply.Characters.{set_guard}

-- `Math.max(1, base + bonus - armor)`: where the difference is negative, the maximum is 1.
abbrev pub impact_of : ℕ → ℕ → ℕ → ℕ
impact_of base bonus armor = max 1 (base + bonus - armor)

-- `Math.max(0, before - applied)`.
abbrev pub guard_left : ℕ → ℕ → ℕ
guard_left before applied = before - applied

abbrev pub set_role_guard : ℕ → CombatRole → CombatRole
set_role_guard n (hero_role seat) = hero_role seat
set_role_guard n (enemy_role e) =
    enemy_role (record e { guard_pool = record (e.guard_pool) { current = n } })

abbrev pub set_enemy_guard : ℕ → CombatParticipant → CombatParticipant
set_enemy_guard n p = record p { role = set_role_guard n p.role }

abbrev enemy_details : Option CombatParticipant → Option EnemyDetails
enemy_details none = none
enemy_details (some p) = elim p.role [ enemy_role e ↦ some e | _ ↦ none ]

abbrev impact_on_enemy : GameState → CombatState → Impact → Result GameState
impact_on_enemy s c e = do
  target ← require (enemy_details (participant c e.target_actor_id)) "Impact target was not found."
  guard (target.armor == e.armor_reduction) "Recorded armor does not match state."
  guard (target.guard_pool.current == e.guard_before) "Recorded enemy Guard does not match state."
  ok (set_combat s (update_participant c e.target_actor_id (set_enemy_guard e.guard_after)))

abbrev impact_on : GameState → CombatState → Impact → Option PlayableCharacter → Result GameState
impact_on s c e none = impact_on_enemy s c e
impact_on s c e (some target) = do
  guard (target.resources.guard_pool.current == e.guard_before)
      "Recorded hero Guard does not match state."
  ok (update_character_of_actor s e.target_actor_id (set_guard e.guard_after))

unfoldable pub apply_impact : GameState → Impact → Result GameState
apply_impact s e = do
  c ← require (combat_named s.combat e.combat_id) "Recorded Impact arithmetic is invalid."
  guard
      (e.applied_impact == impact_of e.base_impact e.triumph_bonus e.armor_reduction
        && e.guard_after == guard_left e.guard_before e.applied_impact)
      "Recorded Impact arithmetic is invalid."
  impact_on s c e (character_by_actor_id s e.target_actor_id)

-- Equality of the canonical JSON texts of two wound slots in the same place.
abbrev pub same_wound : WoundSlot → WoundSlot → Bool
same_wound empty_wound empty_wound = true
same_wound (filled_wound i n) (filled_wound j m) = i == j && str_eq n m
same_wound _ _ = false

-- `wounds.filter((wound, index) => … !== …)`.
abbrev changed_wound : WoundSlot → WoundSlot → List WoundSlot → List WoundSlot
changed_wound old new rest = if same_wound old new then rest else old ∷ rest

abbrev pub changed_wounds : WoundSlots → WoundSlots → List WoundSlot
changed_wounds old new =
    changed_wound old.slot_1 new.slot_1
      (changed_wound old.slot_2 new.slot_2 (changed_wound old.slot_3 new.slot_3 []))

abbrev pub is_one_empty : List WoundSlot → Bool
is_one_empty (empty_wound ∷ []) = true
is_one_empty _ = false

abbrev pub set_wounds : WoundSlots → PlayableCharacter → PlayableCharacter
set_wounds w c = record c { resources = record (c.resources) { wounds = w } }

unfoldable pub apply_wound_marked : GameState → OpaqueId → WoundSlots → Result GameState
apply_wound_marked s id wounds = do
  c ← require (character_by_id s id) "Wounded character is not playable."
  guard (is_one_empty (changed_wounds c.resources.wounds wounds))
      "Wound event must fill exactly one empty slot."
  ok (update_character s id (set_wounds wounds))

abbrev is_boss_ready : Option EnemyDetails → ℕ → ℕ → Bool
is_boss_ready none before after = false
is_boss_ready (some e) before after = elim e.kind [
  | boss ↦ e.guard_pool.current == before && leb after e.guard_pool.maximum
  | squad ↦ false
]

abbrev replace_overlay : BossOverlay → BossOverlay → BossOverlay
replace_overlay new old = if old.actor_id == new.actor_id then new else old

unfoldable pub apply_boss_overlay : GameState → BossOverlay → ℕ → ℕ → Result GameState
apply_boss_overlay s overlay before after = do
  c ← require s.combat "No combat is active."
  guard (is_boss_ready (enemy_details (participant c overlay.actor_id)) before after)
      "Boss overlay Guard facts are invalid."
  let struck = update_participant c overlay.actor_id (set_enemy_guard after)
  ok (
      set_combat s
        (record struck { boss_overlays = map (replace_overlay overlay) c.boss_overlays }))

unfoldable pub apply_stabilized : GameState → OpaqueId → WoundSlots → Result GameState
apply_stabilized s id wounds = do
  c ← require (character_by_id s id) "Stabilized character is not playable."
  ok (update_character s id (set_wounds wounds))

unfoldable pub apply_scar : GameState → OpaqueId → OpaqueId → String → Result GameState
apply_scar s character scar name = ok (record s {
  permanent_scars =
      s.permanent_scars ++ record { scar_id = scar; character_id = character; name = name } ∷ [];
})

unfoldable pub apply_died : GameState → OpaqueId → Result GameState
apply_died s character = ok (record s { permanent_deaths = s.permanent_deaths ++ character ∷ [] })
