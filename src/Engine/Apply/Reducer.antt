-- ===== src/Engine/Apply/Reducer.antt =====
-- `applyGameEvent`: the dispatch on the kind of event, between the campaign test and the validation
-- of the state that results; and the fold of the reducer over a stream.
use lldm.Prelude.{ℕ, not, Result, ok, err, List, [], ◌∷◌, ◌==◌, if◌then◌else◌}
use lldm.Contracts.Validation.{application_failed, ValidationResult, success, failure}
use lldm.Contracts.GameState.{GameState, SchemaChecks, validate_game_state}
use lldm.Contracts.Events.{
  EventBody, GameEvent, command_accepted, command_rejected, simulated_check_resolved,
  physical_check_resolved, physical_roll_requested, physical_roll_cancelled, spark_spent,
  spark_restored_by_compensation, character_materialized, significant_gear_spent, resource_changed,
  spark_recovered, costly_rest_completed, scene_resources_reset, rank_advanced, scene_ability_used,
  condition_applied, condition_removed, combat_started, activation_started, action_slot_spent,
  action_slot_restored, actor_moved, enemy_action_selected, combat_action_pending,
  death_test_pending, impact_applied, wound_marked, reaction_window_opened, reaction_window_closed,
  reaction_restored, round_advanced, boss_overlay_activated, objective_advanced,
  death_test_aid_applied, hero_stabilized, permanent_scar_gained, character_died, combat_resolved,
  challenge_started, challenge_check_pending, challenge_tracks_changed, challenge_resolved,
  social_state_established, social_check_pending, social_stance_changed, leverage_created,
  leverage_spent, ritual_started, ritual_check_pending, ritual_contribution, ritual_ready,
  ritual_resolved, ritual_interrupted, transaction_compensated,
}
use lldm.Engine.Apply.Checks.{
  apply_check_resolved, apply_roll_requested, apply_roll_cancelled, apply_spark_spent,
  apply_spark_restored, apply_combat_action_pending, apply_death_test_pending, apply_death_test_aid,
}
use lldm.Engine.Apply.Characters.{
  apply_materialized, apply_gear_spent, apply_resource_changed, apply_spark_recovered,
  apply_costly_rest, apply_scene_reset,
}
use lldm.Engine.Apply.Features.{
  apply_rank_advanced, apply_ability_used, apply_condition_applied, apply_condition_removed,
}
use lldm.Engine.Apply.Combat.{
  apply_combat_started, apply_activation_started, apply_slot_spent, apply_slot_restored,
  apply_actor_moved, apply_reaction_opened, apply_reaction_closed, apply_reaction_restored,
  apply_combat_resolved,
}
use lldm.Engine.Apply.Harm.{
  apply_impact, apply_wound_marked, apply_boss_overlay, apply_stabilized, apply_scar, apply_died,
}
use lldm.Engine.Apply.Rounds.{apply_round_advanced, apply_objective_advanced}
use lldm.Engine.Apply.Challenges.{
  apply_challenge_started, apply_challenge_pending, apply_tracks_changed, apply_challenge_resolved,
}
use lldm.Engine.Apply.Social.{
  apply_social_established, apply_social_pending, apply_stance_changed, apply_leverage_created,
  apply_leverage_spent,
}
use lldm.Engine.Apply.Rituals.{
  apply_ritual_started, apply_ritual_pending, apply_ritual_contribution, apply_ritual_ready,
  apply_ritual_resolved, apply_ritual_interrupted,
}

-- The `switch` over `event.kind`.
unfoldable pub apply_body : SchemaChecks → GameState → EventBody → Result GameState
apply_body schema s (command_accepted kind hash) = ok s
apply_body schema s (command_rejected kind hash code detail) = ok s
apply_body schema s (enemy_action_selected combat candidate) = ok s
apply_body schema s (transaction_compensated target) = ok s
apply_body schema s (simulated_check_resolved result) = ok s
apply_body schema s (physical_check_resolved id submission result) = apply_check_resolved s id
apply_body schema s (physical_roll_requested id nonce d) = apply_roll_requested s id nonce d
apply_body schema s (physical_roll_cancelled id) = apply_roll_cancelled s id
apply_body schema s (spark_spent actor) = apply_spark_spent s actor
apply_body schema s (spark_restored_by_compensation actor) = apply_spark_restored s actor
apply_body schema s (character_materialized c) = apply_materialized s c
apply_body schema s (significant_gear_spent e) = apply_gear_spent s e
apply_body schema s (resource_changed e) = apply_resource_changed s e
apply_body schema s (spark_recovered id) = apply_spark_recovered s id
apply_body schema s (costly_rest_completed ids spent) = apply_costly_rest s ids spent
apply_body schema s (scene_resources_reset e) = apply_scene_reset s e
apply_body schema s (rank_advanced e) = apply_rank_advanced s e
apply_body schema s (scene_ability_used id ability) = apply_ability_used s id ability
apply_body schema s (condition_applied id d) = apply_condition_applied s id d
apply_body schema s (condition_removed id d) = apply_condition_removed s id d
apply_body schema s (combat_started c) = apply_combat_started s c
apply_body schema s (activation_started c actor side) = apply_activation_started s c actor side
apply_body schema s (action_slot_spent e) = apply_slot_spent s e
apply_body schema s (action_slot_restored e) = apply_slot_restored s e
apply_body schema s (actor_moved e) = apply_actor_moved s e
apply_body schema s (combat_action_pending combat id candidate impact) =
    apply_combat_action_pending s id candidate impact
apply_body schema s (death_test_pending combat id character) =
    apply_death_test_pending s combat id character
apply_body schema s (impact_applied e) = apply_impact s e
apply_body schema s (wound_marked combat id wounds) = apply_wound_marked s id wounds
apply_body schema s (reaction_window_opened combat window) = apply_reaction_opened s window
apply_body schema s (reaction_window_closed combat window actor) = apply_reaction_closed s
apply_body schema s (reaction_restored combat actor) = apply_reaction_restored s actor
apply_body schema s (round_advanced combat previous current) =
    apply_round_advanced s previous current
apply_body schema s (boss_overlay_activated combat overlay before after) =
    apply_boss_overlay s overlay before after
apply_body schema s (objective_advanced combat e) = apply_objective_advanced s e
apply_body schema s (death_test_aid_applied combat id aide resource d) = apply_death_test_aid s id d
apply_body schema s (hero_stabilized combat id wounds) = apply_stabilized s id wounds
apply_body schema s (permanent_scar_gained combat character scar name) =
    apply_scar s character scar name
apply_body schema s (character_died combat character) = apply_died s character
apply_body schema s (combat_resolved combat) = apply_combat_resolved s
apply_body schema s (challenge_started c) = apply_challenge_started schema s c
apply_body schema s (challenge_check_pending challenge id) = apply_challenge_pending s challenge id
apply_body schema s (challenge_tracks_changed e) = apply_tracks_changed schema s e
apply_body schema s (challenge_resolved id outcome) = apply_challenge_resolved s id outcome
apply_body schema s (social_state_established c) = apply_social_established schema s c
apply_body schema s (social_check_pending e) = apply_social_pending s e
apply_body schema s (social_stance_changed e) = apply_stance_changed s e
apply_body schema s (leverage_created npc l) = apply_leverage_created s npc l
apply_body schema s (leverage_spent npc id) = apply_leverage_spent s npc id
apply_body schema s (ritual_started r) = apply_ritual_started schema s r
apply_body schema s (ritual_check_pending ritual id) = apply_ritual_pending s ritual id
apply_body schema s (ritual_contribution ritual character index) =
    apply_ritual_contribution s ritual character index
apply_body schema s (ritual_ready id) = apply_ritual_ready s id
apply_body schema s (ritual_resolved id result outcome) = apply_ritual_resolved s id result outcome
apply_body schema s (ritual_interrupted id) = apply_ritual_interrupted s id

-- `eventFailure(event, message)`, or the validation of `next`.
abbrev pub finish : SchemaChecks → ℕ → Result GameState → ValidationResult GameState
finish schema revision (err message) = failure (application_failed revision message ∷ [])
finish schema revision (ok next) = validate_game_state schema next

unfoldable pub apply_game_event : SchemaChecks → GameState → GameEvent → ValidationResult GameState
apply_game_event schema s e =
    if not (s.campaign_id == e.campaign_id)
    then failure
        (application_failed e.stream_revision "Event campaign does not match state campaign." ∷ [])
    else finish schema e.stream_revision (apply_body schema s e.body)

-- The events of a transaction, one after the other, to the first failure.
unfoldable pub apply_events : SchemaChecks → GameState → List GameEvent → ValidationResult GameState
apply_events schema s [] = success s
apply_events schema s (e ∷ es) = elim (apply_game_event schema s e) [
  | success next ↦ apply_events schema next es
  | failure is ↦ failure is
]
