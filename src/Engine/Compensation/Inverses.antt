-- ===== src/Engine/Compensation/Inverses.antt =====
-- `inverseEvent` beside `classifyEventForUndo`.
use lldm.Prelude.{◌≡◌, refl, arith, String, some}
use lldm.Contracts.Events.{
  EventBody, physical_roll_cancelled, spark_restored_by_compensation, resource_changed,
  condition_removed, action_slot_restored, actor_moved, social_stance_changed, leverage_spent,
  leverage_created, condition_applied, physical_roll_requested, spark_spent, action_slot_spent,
}
use lldm.Engine.Compensation.{undoable, classify_event_for_undo, inverse_event}

-- `event.kind`, for the events that compensate.
abbrev pub kind_of : EventBody → String
kind_of (resource_changed e) = "resource_changed"
kind_of (actor_moved e) = "actor_moved"
kind_of (social_stance_changed e) = "social_stance_changed"
kind_of (leverage_spent npc id) = "leverage_spent"
kind_of (condition_removed id d) = "condition_removed"
kind_of (physical_roll_cancelled id) = "physical_roll_cancelled"
kind_of (spark_restored_by_compensation actor) = "spark_restored_by_compensation"
kind_of (action_slot_restored e) = "action_slot_restored"
kind_of _ = ""

-- An event that is classified as undoable has an inverse, of the kind that the classification
-- names, so that no plan is refused for an inverse that is missing; and an event with an inverse is
-- classified as undoable.
pub inverse_event-fits :
    (e : EventBody)
    → ((kind : String)
        → classify_event_for_undo e ≡ undoable kind
        → (i : EventBody) × (inverse_event e ≡ some i) × (kind_of i ≡ kind))
      × ((i : EventBody)
          → inverse_event e ≡ some i
          → classify_event_for_undo e ≡ undoable (kind_of i))
unfolding classify_event_for_undo inverse_event
inverse_event-fits (resource_changed x) = (λ k h. (_, refl, ground arith), λ i h. ground arith)
inverse_event-fits (actor_moved x) = (λ k h. (_, refl, ground arith), λ i h. ground arith)
inverse_event-fits (social_stance_changed x) = (λ k h. (_, refl, ground arith), λ i h. ground arith)
inverse_event-fits (leverage_created npc l) = (λ k h. (_, refl, ground arith), λ i h. ground arith)
inverse_event-fits (condition_applied id d) = (λ k h. (_, refl, ground arith), λ i h. ground arith)
inverse_event-fits (physical_roll_requested id n d) =
    (λ k h. (_, refl, ground arith), λ i h. ground arith)
inverse_event-fits (spark_spent actor) = (λ k h. (_, refl, ground arith), λ i h. ground arith)
inverse_event-fits (action_slot_spent x) = (λ k h. (_, refl, ground arith), λ i h. ground arith)
inverse_event-fits _ = (λ k h. cc, λ i h. cc)
