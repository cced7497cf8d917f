-- ===== src/Engine/Compensation.antt =====
-- packages/engine/src/compensation.ts: the plan that takes a transaction back.
pub mod Inverses
pub mod Events
pub mod Fights
pub mod Plan
pub mod Transactions
use mathlib.Core.List.{reverse}
use lldm.Prelude.{String, Option, none, some, List, [], ◌∷◌, ◌++◌, map}
use lldm.Contracts.Ids.{OpaqueId}
use lldm.Contracts.Transactions.{
  CommandRejectionCode, undo_non_invertible_dependency, undo_physical_result, undo_permanent_death,
}
use lldm.Contracts.Events.{
  EventBody, GameEvent, ResourceChange, Movement, StanceChange, command_accepted, command_rejected,
  simulated_check_resolved, physical_check_resolved, physical_roll_requested,
  physical_roll_cancelled, spark_spent, spark_restored_by_compensation, character_materialized,
  significant_gear_spent, resource_changed, spark_recovered, costly_rest_completed,
  scene_resources_reset, rank_advanced, scene_ability_used, condition_applied, condition_removed,
  combat_started, activation_started, action_slot_spent, action_slot_restored, actor_moved,
  enemy_action_selected, combat_action_pending, death_test_pending, impact_applied, wound_marked,
  reaction_window_opened, reaction_window_closed, reaction_restored, round_advanced,
  boss_overlay_activated, objective_advanced, death_test_aid_applied, hero_stabilized,
  permanent_scar_gained, character_died, combat_resolved, challenge_started,
  challenge_check_pending, challenge_tracks_changed, challenge_resolved, social_state_established,
  social_check_pending, social_stance_changed, leverage_created, leverage_spent, ritual_started,
  ritual_check_pending, ritual_contribution, ritual_ready, ritual_resolved, ritual_interrupted,
  transaction_compensated,
}

pub data EventUndoClassification : Type 0 where
  non_state_changing : EventUndoClassification
  undoable : String → EventUndoClassification
  non_undoable : CommandRejectionCode → String → EventUndoClassification

abbrev non_invertible : String → EventUndoClassification
non_invertible reason = non_undoable undo_non_invertible_dependency reason

unfoldable pub classify_event_for_undo : EventBody → EventUndoClassification
classify_event_for_undo (command_accepted kind hash) = non_state_changing
classify_event_for_undo (command_rejected kind hash code detail) = non_state_changing
classify_event_for_undo (enemy_action_selected combat candidate) = non_state_changing
classify_event_for_undo (transaction_compensated target) = non_state_changing
classify_event_for_undo (simulated_check_resolved result) = non_state_changing
classify_event_for_undo (physical_check_resolved id submission result) =
    non_undoable undo_physical_result "A submitted physical result cannot be compensated."
classify_event_for_undo (resource_changed e) = undoable "resource_changed"
classify_event_for_undo (actor_moved e) = undoable "actor_moved"
classify_event_for_undo (social_stance_changed e) = undoable "social_stance_changed"
classify_event_for_undo (leverage_created npc l) = undoable "leverage_spent"
classify_event_for_undo (condition_applied id d) = undoable "condition_removed"
classify_event_for_undo (physical_roll_requested id nonce d) = undoable "physical_roll_cancelled"
classify_event_for_undo (spark_spent actor) = undoable "spark_restored_by_compensation"
classify_event_for_undo (action_slot_spent e) = undoable "action_slot_restored"
classify_event_for_undo (character_died combat id) =
    non_undoable undo_permanent_death "Permanent death cannot be compensated."
classify_event_for_undo (combat_action_pending combat id candidate impact) = non_state_changing
classify_event_for_undo (death_test_pending combat id character) = non_state_changing
classify_event_for_undo (challenge_check_pending challenge id) = non_state_changing
classify_event_for_undo (social_check_pending e) = non_state_changing
classify_event_for_undo (ritual_check_pending ritual id) = non_state_changing
classify_event_for_undo (physical_roll_cancelled id) =
    non_invertible "A compensation event cannot be compensated again."
classify_event_for_undo (spark_restored_by_compensation actor) =
    non_invertible "A compensation event cannot be compensated again."
classify_event_for_undo (action_slot_restored e) =
    non_invertible "A compensation event cannot be compensated again."
classify_event_for_undo (character_materialized c) =
    non_invertible "Materialized character identity is retained."
classify_event_for_undo (significant_gear_spent e) =
    non_invertible "Spent significant gear cannot be reconstructed."
classify_event_for_undo (spark_recovered id) =
    non_invertible "Spark recovery opportunity cannot be restored."
classify_event_for_undo (costly_rest_completed ids spent) =
    non_invertible "A multi-resource rest reset is not invertible."
classify_event_for_undo (scene_resources_reset e) =
    non_invertible "A scene boundary is not invertible."
classify_event_for_undo (rank_advanced e) =
    non_invertible "Structural rank advancement is not invertible."
classify_event_for_undo (scene_ability_used id ability) =
    non_invertible "Scene-use history is not invertible."
classify_event_for_undo (condition_removed id d) =
    non_invertible "Removed condition facts are not retained."
classify_event_for_undo (combat_started c) = non_invertible "Combat creation is not invertible."
classify_event_for_undo (activation_started combat actor side) =
    non_invertible "Combat economy history cannot be rewound safely."
classify_event_for_undo (reaction_window_opened combat window) =
    non_invertible "Combat economy history cannot be rewound safely."
classify_event_for_undo (reaction_window_closed combat window actor) =
    non_invertible "Combat economy history cannot be rewound safely."
classify_event_for_undo (reaction_restored combat actor) =
    non_invertible "Combat economy history cannot be rewound safely."
classify_event_for_undo (round_advanced combat previous current) =
    non_invertible "Combat economy history cannot be rewound safely."
classify_event_for_undo (impact_applied e) =
    non_invertible "Harm and recovery history is not invertible."
classify_event_for_undo (wound_marked combat id wounds) =
    non_invertible "Harm and recovery history is not invertible."
classify_event_for_undo (hero_stabilized combat id wounds) =
    non_invertible "Harm and recovery history is not invertible."
classify_event_for_undo (permanent_scar_gained combat character scar name) =
    non_invertible "Harm and recovery history is not invertible."
classify_event_for_undo (boss_overlay_activated combat overlay before after) =
    non_invertible "Combat objective or lifecycle state is not invertible."
classify_event_for_undo (objective_advanced combat e) =
    non_invertible "Combat objective or lifecycle state is not invertible."
classify_event_for_undo (combat_resolved combat) =
    non_invertible "Combat objective or lifecycle state is not invertible."
classify_event_for_undo (death_test_aid_applied combat id aide resource d) =
    non_invertible "Death-test aid cannot be reconstructed safely."
classify_event_for_undo (challenge_started c) =
    non_invertible "Challenge lifecycle history is not invertible."
classify_event_for_undo (challenge_tracks_changed e) =
    non_invertible "Challenge lifecycle history is not invertible."
classify_event_for_undo (challenge_resolved id outcome) =
    non_invertible "Challenge lifecycle history is not invertible."
classify_event_for_undo (social_state_established c) =
    non_invertible "Removed social facts are not retained."
classify_event_for_undo (leverage_spent npc id) =
    non_invertible "Removed social facts are not retained."
classify_event_for_undo (ritual_started r) =
    non_invertible "Ritual costs and lifecycle state are not invertible."
classify_event_for_undo (ritual_contribution ritual character index) =
    non_invertible "Ritual costs and lifecycle state are not invertible."
classify_event_for_undo (ritual_ready id) =
    non_invertible "Ritual costs and lifecycle state are not invertible."
classify_event_for_undo (ritual_resolved id result outcome) =
    non_invertible "Ritual costs and lifecycle state are not invertible."
classify_event_for_undo (ritual_interrupted id) =
    non_invertible "Ritual costs and lifecycle state are not invertible."

unfoldable pub inverse_event : EventBody → Option EventBody
inverse_event (resource_changed e) =
    some (resource_changed (record e { previous = e.current; current = e.previous }))
inverse_event (actor_moved e) =
    some (actor_moved (record e { from_zone_id = e.to_zone_id; to_zone_id = e.from_zone_id }))
inverse_event (social_stance_changed e) =
    some (social_stance_changed (record e { previous = e.current; current = e.previous }))
inverse_event (leverage_created npc l) = some (leverage_spent npc l.leverage_id)
inverse_event (condition_applied id d) = some (condition_removed id d.condition_id)
inverse_event (physical_roll_requested id nonce d) = some (physical_roll_cancelled id)
inverse_event (spark_spent actor) = some (spark_restored_by_compensation actor)
inverse_event (action_slot_spent e) = some (action_slot_restored e)
inverse_event _ = none

pub data CompensationPlan : Type 0 where
  accepted : List EventBody → CompensationPlan
  refused : CommandRejectionCode → String → CompensationPlan

-- The end of the loop, with the inverses that it pushed.
abbrev pub finish_plan : OpaqueId → List EventBody → CompensationPlan
finish_plan target [] =
    refused undo_non_invertible_dependency
      "The target transaction made no compensable state change."
finish_plan target (i ∷ is) = accepted ((i ∷ is) ++ transaction_compensated target ∷ [])

-- The loop over the reversed events.
unfoldable pub plan_reversed : OpaqueId → List EventBody → List EventBody → CompensationPlan
plan_reversed target inverses [] = finish_plan target inverses
plan_reversed target inverses (e ∷ es) = elim (classify_event_for_undo e) [
  | non_state_changing ↦ plan_reversed target inverses es
  | non_undoable code reason ↦ refused code reason
  | undoable kind ↦ elim (inverse_event e) [
    | none ↦ refused undo_non_invertible_dependency "The selected inverse event is unavailable."
    | some i ↦ plan_reversed target (inverses ++ i ∷ []) es
  ]
]

abbrev pub body_of : GameEvent → EventBody
body_of e = e.body

unfoldable pub plan_transaction_compensation : OpaqueId → List GameEvent → CompensationPlan
plan_transaction_compensation target events = plan_reversed target [] (reverse (map body_of events))
