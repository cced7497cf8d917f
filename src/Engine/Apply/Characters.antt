-- ===== src/Engine/Apply/Characters.antt =====
-- The cases of `applyGameEvent` that write to the party and its characters.
use lldm.Prelude.{
  ℕ, ◌+◌, ◌-◌, Bool, true, false, ◌&&◌, ◌||◌, not, Option, none, some, List, [], ◌∷◌, ◌++◌, ◌==◌,
  ltb, if◌then◌else◌, find, modify, filter, any, includes, length, map, get_elem?, Result, ok, err,
  ◌>>=◌, ◌>>◌, guard, refuse_if, require,
}
use lldm.Contracts.Ids.{OpaqueId, ContentReference, same_reference}
use lldm.Contracts.Characters.{
  PlayableCharacter, Spark, SceneAbilityUse, CharacterCondition, scene_duration, GearBinding,
  bound_gear, ready_gear, spent_gear, ResolvedGearSlot,
}
use lldm.Contracts.Rituals.{RitualState, RitualStatus, preparing, RitualCost, gear_cost}
use lldm.Contracts.GameState.{GameState}
use lldm.Contracts.Events.{
  GearSpend, ResourceChange, ResourceOwner, party_scope, character_scope, ResourceName,
  guard_resource, exertion_resource, supply_resource, SceneReset, Boundary, session_start,
}
use lldm.Engine.Apply.Access.{character_by_id, update_character, is_ritual}

abbrev pub same_option : Option OpaqueId → Option OpaqueId → Bool
same_option none none = true
same_option (some a) (some b) = a == b
same_option _ _ = false

unfoldable pub apply_materialized : GameState → PlayableCharacter → Result GameState
apply_materialized s character = do
  refuse_if
      (any
        (λ c.
          c.character_id == character.character_id
          || c.foundation.actor_id == character.foundation.actor_id)
        s.party.characters)
      "Character identity is already materialized."
  let characters = s.party.characters ++ character ∷ []
  ok (record s {
    party = record (s.party) { characters = characters; supply_maximum = length characters + 2 };
  })

abbrev gear_in_slot : Option PlayableCharacter → ℕ → Option ResolvedGearSlot
gear_in_slot none slot = none
gear_in_slot (some c) slot = find (λ g. g.slot == slot) c.resolved_significant_gear

-- `gear.status === "ready"` with the definition of the event.
abbrev is_ready_gear : Option ResolvedGearSlot → ContentReference → Bool
is_ready_gear none definition = false
is_ready_gear (some g) definition = elim g.binding [
  | bound_gear d status ↦ elim status [
    | ready_gear ↦ same_reference d definition
    | spent_gear ↦ false
  ]
  | _ ↦ false
]

abbrev pub is_preparing : RitualStatus → Bool
is_preparing preparing = true
is_preparing _ = false

abbrev is_gear_cost : Option RitualCost → ContentReference → Bool
is_gear_cost (some (gear_cost d)) definition = same_reference d definition
is_gear_cost _ definition = false

-- A ritual that prepares, with the gear as the next cost to pay.
abbrev is_gear_due : Option RitualState → ContentReference → Bool
is_gear_due none definition = false
is_gear_due (some r) definition =
    is_preparing r.status && is_gear_cost (get_elem? r.costs r.paid_cost_count) definition

abbrev spend_binding : GearBinding → GearBinding
spend_binding (bound_gear d status) = bound_gear d spent_gear
spend_binding b = b

abbrev spend_gear : ℕ → PlayableCharacter → PlayableCharacter
spend_gear slot c = record c {
  resolved_significant_gear =
      modify (λ g. g.slot == slot) (λ g. record g { binding = spend_binding g.binding })
        c.resolved_significant_gear;
}

unfoldable pub apply_gear_spent : GameState → GearSpend → Result GameState
apply_gear_spent s e = do
  guard
      (is_ready_gear (gear_in_slot (character_by_id s e.character_id) e.slot) e.definition
        && is_gear_due (find (is_ritual e.ritual_id) s.rituals) e.definition)
      "Significant gear is unavailable or mismatched."
  ok (update_character s e.character_id (spend_gear e.slot))

abbrev pub set_guard : ℕ → PlayableCharacter → PlayableCharacter
set_guard n c = record c {
  resources = record (c.resources) { guard_pool = record (c.resources.guard_pool) { current = n } };
}

abbrev pub set_exertion : ℕ → PlayableCharacter → PlayableCharacter
set_exertion n c = record c {
  resources = record (c.resources) { exertion = record (c.resources.exertion) { current = n } };
}

abbrev pub is_supply : ResourceName → Bool
is_supply supply_resource = true
is_supply _ = false

abbrev pub set_supply : ℕ → GameState → GameState
set_supply n s = record s { party = record (s.party) { supply = n } }

abbrev change_of_character :
    GameState → OpaqueId → PlayableCharacter → ResourceName → ℕ → ℕ → Result GameState
change_of_character s id c guard_resource previous current = do
  guard (c.resources.guard_pool.current == previous) "Recorded previous Guard does not match state."
  ok (update_character s id (set_guard current))
change_of_character s id c exertion_resource previous current = do
  guard (c.resources.exertion.current == previous)
      "Recorded previous Exertion does not match state."
  ok (update_character s id (set_exertion current))
change_of_character s id c supply_resource previous current =
    err "Supply cannot use a character-scoped resource event."

abbrev change_of_owner : GameState → ResourceOwner → ResourceName → ℕ → ℕ → Result GameState
change_of_owner s party_scope resource previous current = do
  guard (is_supply resource) "Only Supply can use a party-scoped resource event."
  guard (s.party.supply == previous) "Recorded previous Supply does not match state."
  ok (set_supply current s)
change_of_owner s (character_scope id) resource previous current = do
  c ← require (character_by_id s id) "Resource owner is not playable."
  change_of_character s id c resource previous current

unfoldable pub apply_resource_changed : GameState → ResourceChange → Result GameState
apply_resource_changed s e = change_of_owner s e.owner e.resource e.previous e.current

abbrev recover_spark : PlayableCharacter → PlayableCharacter
recover_spark c = record c {
  resources = record (c.resources) {
    spark = record { available = true; complication_recovery_used = true };
  };
}

unfoldable pub apply_spark_recovered : GameState → OpaqueId → Result GameState
apply_spark_recovered s id = do
  c ← require (character_by_id s id) "Spark owner is not playable."
  refuse_if (c.resources.spark.available || c.resources.spark.complication_recovery_used)
      "Spark recovery is not currently eligible."
  ok (update_character s id recover_spark)

abbrev pub costly_rest_supply_cost : ℕ
costly_rest_supply_cost = 1

abbrev unused : SceneAbilityUse → SceneAbilityUse
unused u = record u { used = false }

-- Guard and Exertion to their maxima, and every scene ability unused.
abbrev pub rest : PlayableCharacter → PlayableCharacter
rest c = record c {
  resources = record (c.resources) {
    guard_pool = record (c.resources.guard_pool) { current = c.resources.guard_pool.maximum };
    exertion = record (c.resources.exertion) { current = c.resources.exertion.maximum };
  };
  scene_ability_uses = map unused c.scene_ability_uses;
}

-- The loop `for (const characterId of …)` with one change for each character.
unfoldable pub for_characters :
    (PlayableCharacter → PlayableCharacter) → List OpaqueId → GameState → Option GameState
for_characters f [] s = some s
for_characters f (id ∷ ids) s = elim (character_by_id s id) [
  | none ↦ none
  | some c ↦ for_characters f ids (update_character s id f)
]

unfoldable pub apply_costly_rest : GameState → List OpaqueId → ℕ → Result GameState
apply_costly_rest s ids spent = do
  guard (spent == costly_rest_supply_cost) "Costly rest has the wrong Supply cost."
  refuse_if (ltb s.party.supply spent) "Costly rest would underflow Supply."
  rested ← require (for_characters rest ids s) "Resting character is not playable."
  ok (set_supply (rested.party.supply - spent) rested)

abbrev pub is_session_start : Boundary → Bool
is_session_start session_start = true
is_session_start _ = false

abbrev is_scene_condition : CharacterCondition → Bool
is_scene_condition d = elim d.duration [ scene_duration ↦ true | _ ↦ false ]

abbrev renew_spark : Bool → Spark → Spark
renew_spark new_session spark =
    if new_session then record { available = true; complication_recovery_used = false } else spark

abbrev pub reset_scene : Bool → PlayableCharacter → PlayableCharacter
reset_scene new_session c = record (rest c) {
  resources = record ((rest c).resources) { spark = renew_spark new_session c.resources.spark };
  conditions = filter (λ d. not (is_scene_condition d)) c.conditions;
}

unfoldable pub apply_scene_reset : GameState → SceneReset → Result GameState
apply_scene_reset s e = do
  guard (same_option s.scene_id e.scene_id) "Scene boundary does not match current state."
  refuse_if
      (not (length e.reset_character_ids == length s.party.characters)
        || any (λ c. not (includes c.character_id e.reset_character_ids)) s.party.characters)
      "Scene reset must include every playable hero."
  let new_session = is_session_start e.boundary
  let moved : GameState = record s { scene_id = some e.next_scene_id }
  reset ←
      require (for_characters (reset_scene new_session) e.reset_character_ids moved)
        "Scene reset character is not playable."
  ok (record reset {
    session_number = if new_session then reset.session_number + 1 else reset.session_number;
  })
