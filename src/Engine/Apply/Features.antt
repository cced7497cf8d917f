-- ===== src/Engine/Apply/Features.antt =====
-- The cases of `applyGameEvent` for ranks, scene abilities and conditions.
use lldm.Prelude.{
  ℕ, ◌+◌, Bool, true, ◌&&◌, Option, none, some, [], ◌∷◌, ◌++◌, ◌==◌, if◌then◌else◌, find, modify,
  remove_first, is_some, Result, ok, ◌>>=◌, ◌>>◌, guard, refuse_if, require,
}
use lldm.Contracts.Ids.{OpaqueId, ContentReference, same_reference}
use lldm.Contracts.Characters.{
  PlayableCharacter, ResolvedOptions, SceneAbilityUse, CharacterCondition,
}
use lldm.Contracts.GameState.{GameState}
use lldm.Contracts.Events.{RankAdvance}
use lldm.Engine.Apply.Access.{character_by_id, update_character}

abbrev occupied_slot : ResolvedOptions → ℕ → Option ContentReference
occupied_slot options rank =
    if rank == 2 then options.path else if rank == 3 then options.talent else options.capstone

abbrev fill_slot : ℕ → ContentReference → ResolvedOptions → ResolvedOptions
fill_slot rank feature options =
    if rank == 2
    then record options { path = some feature }
    else if rank == 3
    then record options { talent = some feature }
    else if rank == 4
    then record options { capstone = some feature }
    else options

abbrev advance_rank : ℕ → ContentReference → PlayableCharacter → PlayableCharacter
advance_rank rank feature c = record c {
  rank = rank;
  resolved_options = fill_slot rank feature c.resolved_options;
}

unfoldable pub apply_rank_advanced : GameState → RankAdvance → Result GameState
apply_rank_advanced s e = do
  c ← require (character_by_id s e.character_id) "Rank owner is not playable."
  guard (c.rank == e.previous_rank && e.current_rank == e.previous_rank + 1)
      "Rank event is not the next ordered rank."
  refuse_if (is_some (occupied_slot c.resolved_options e.current_rank))
      "Rank feature slot is already occupied."
  ok (update_character s e.character_id (advance_rank e.current_rank e.feature))

abbrev ability_use : Option PlayableCharacter → ContentReference → Option SceneAbilityUse
ability_use none ability = none
ability_use (some c) ability = find (λ u. same_reference u.ability ability) c.scene_ability_uses

abbrev use_up : SceneAbilityUse → SceneAbilityUse
use_up u = record u { used = true }

abbrev use_ability : ContentReference → PlayableCharacter → PlayableCharacter
use_ability ability c = record c {
  scene_ability_uses = modify (λ u. same_reference u.ability ability) use_up c.scene_ability_uses;
}

unfoldable pub apply_ability_used : GameState → OpaqueId → ContentReference → Result GameState
apply_ability_used s id ability = do
  u ←
      require (ability_use (character_by_id s id) ability)
        "Scene ability is unavailable or already used."
  refuse_if u.used "Scene ability is unavailable or already used."
  ok (update_character s id (use_ability ability))

abbrev pub is_condition : OpaqueId → CharacterCondition → Bool
is_condition id d = d.condition_id == id

abbrev pub add_condition : CharacterCondition → PlayableCharacter → PlayableCharacter
add_condition d c = record c { conditions = c.conditions ++ d ∷ [] }

unfoldable pub apply_condition_applied :
    GameState → OpaqueId → CharacterCondition → Result GameState
apply_condition_applied s id d = do
  c ← require (character_by_id s id) "Condition target is not playable."
  refuse_if (is_some (find (is_condition d.condition_id) c.conditions))
      "Condition identity is already present."
  ok (update_character s id (add_condition d))

abbrev pub drop_condition : OpaqueId → PlayableCharacter → PlayableCharacter
drop_condition id c = record c { conditions = remove_first (is_condition id) c.conditions }

unfoldable pub apply_condition_removed : GameState → OpaqueId → OpaqueId → Result GameState
apply_condition_removed s id condition_id = do
  c ← require (character_by_id s id) "Condition to remove was not found."
  guard (is_some (find (is_condition condition_id) c.conditions))
      "Condition to remove was not found."
  ok (update_character s id (drop_condition condition_id))
