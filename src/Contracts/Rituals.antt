-- ===== src/Contracts/Rituals.antt =====
-- packages/contracts/src/domains/rituals.ts.
use lldm.Prelude.{ℕ, String, Bool, true, false, ◌&&◌, not, List, ◌++◌, ltb, ◌==◌, length}
use lldm.Contracts.Ids.{OpaqueId, ContentReference}
use lldm.Contracts.Validation.{ValidationIssue, issue_if}

pub data RitualRequirement : Type 0 where
  participant_count : ℕ → RitualRequirement
  required_content : ContentReference → RitualRequirement
  fictional_position : String → RitualRequirement

pub data RitualCost : Type 0 where
  exertion_cost : ℕ → RitualCost
  supply_cost : ℕ → RitualCost
  gear_cost : ContentReference → RitualCost

pub data RitualStatus : Type 0 where
  preparing ritual_ready_status awaiting_resolution : RitualStatus
  ritual_completed ritual_interrupted_status ritual_failed : RitualStatus

pub data RitualTarget : Type 0 where
  actor_target : OpaqueId → RitualTarget
  place_target : String → RitualTarget
  phenomenon_target : String → RitualTarget

pub record RitualState : Type 0 where
  pub ritual_id : OpaqueId
  pub definition : ContentReference
  pub status : RitualStatus
  pub requirements : List RitualRequirement
  pub costs : List RitualCost
  pub contributor_ids : List OpaqueId
  pub paid_cost_count : ℕ
  pub target : RitualTarget

-- `["ready", "awaiting_resolution", "completed"].includes(ritual.status)`.
abbrev pub requires_payment : RitualStatus → Bool
requires_payment ritual_ready_status = true
requires_payment awaiting_resolution = true
requires_payment ritual_completed = true
requires_payment _ = false

-- The issues of `validateRitualState` behind the structural check.
unfoldable pub ritual_issues : RitualState → List ValidationIssue
ritual_issues r =
    let fully_paid = r.paid_cost_count == length r.costs in
    issue_if (ltb (length r.costs) r.paid_cost_count) "ritual.cost_overflow"
    ++ issue_if (requires_payment r.status && not fully_paid) "ritual.unpaid_cost"
