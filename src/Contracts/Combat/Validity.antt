-- ===== src/Contracts/Combat/Validity.antt =====
-- `validateCombatState` of packages/contracts/src/domains/combat.ts, behind the structural check.
use lldm.Prelude.{
  ℕ, Bool, true, false, not, ◌&&◌, Option, none, some, List, [], ◌∷◌, ◌++◌, ◌==◌, ltb,
  if◌then◌else◌, includes, length, is_some, find, filter, any, all,
}
use lldm.Contracts.Ids.{OpaqueId}
use lldm.Contracts.Validation.{ValidationIssue, issue_if, issues_of_each}
use lldm.Contracts.Combat.{
  Zone, CombatParticipant, CombatRole, hero_role, enemy_role, CombatState, CombatSide, hero, enemy,
  side_of, BossOverlay, CombatStatus, awaiting_physical_action, awaiting_death_test,
}
use lldm.Contracts.Combat.Battlefield.{zone_by_id, zone_graph_issues}

abbrev pub same_side : CombatSide → CombatSide → Bool
same_side hero hero = true
same_side enemy enemy = true
same_side _ _ = false

abbrev pub role_issues : CombatState → Bool → CombatRole → List ValidationIssue
role_issues combat activation_spent (hero_role seat) = []
role_issues combat activation_spent (enemy_role e) =
    issue_if (ltb e.guard_pool.maximum e.guard_pool.current) "combat.enemy_guard_overflow"
    ++ issue_if
        (is_some e.reinforcement_trigger
          && combat.round == 1
          && all (λ o. ltb o.progress 2) combat.objectives
          && not activation_spent)
        "combat.reinforcement_entered_early"

-- The loop over the participants, with the actors that were seen before.
unfoldable pub participant_issues :
    CombatState → List OpaqueId → List CombatParticipant → List ValidationIssue
participant_issues combat seen [] = []
participant_issues combat seen (p ∷ ps) =
    issue_if (includes p.actor_id seen) "combat.duplicate_actor"
    ++ issue_if (not (is_some (zone_by_id combat.battlefield p.zone_id))) "combat.unknown_zone"
    ++ role_issues combat p.activation_spent p.role
    ++ participant_issues combat (p.actor_id ∷ seen) ps

abbrev pub active_participant_issues : CombatSide → Option CombatParticipant → List ValidationIssue
active_participant_issues active_side none = issue_if true "combat.invalid_active_actor"
active_participant_issues active_side (some active) =
    if not (same_side (side_of active) active_side)
    then issue_if true "combat.invalid_active_actor"
    else issue_if active.activation_spent "combat.spent_active_actor"

abbrev pub active_actor_issues : CombatState → Option OpaqueId → List ValidationIssue
active_actor_issues combat none = []
active_actor_issues combat (some id) =
    active_participant_issues combat.active_side (find (λ p. p.actor_id == id) combat.participants)

unfoldable pub occupancy : OpaqueId → List CombatParticipant → ℕ
occupancy zone_id participants = length (filter (λ p. p.zone_id == zone_id) participants)

abbrev pub over_capacity : ℕ → Option Zone → Bool
over_capacity count none = false
over_capacity count (some zone) = ltb zone.capacity count

-- The loop over `occupancy`, whose keys are the zones of the participants, each once.
unfoldable pub capacity_issues :
    CombatState → List OpaqueId → List CombatParticipant → List ValidationIssue
capacity_issues combat done [] = []
capacity_issues combat done (p ∷ ps) =
    issue_if
      (not (includes p.zone_id done)
        && over_capacity (occupancy p.zone_id combat.participants)
            (zone_by_id combat.battlefield p.zone_id))
      "combat.zone_over_capacity"
    ++ capacity_issues combat (p.zone_id ∷ done) ps

abbrev pub overlay_issues : CombatState → BossOverlay → List ValidationIssue
overlay_issues combat overlay =
    issue_if (not (any (λ o. o.objective_id == overlay.objective_id) combat.objectives))
      "boss.missing_objective"

abbrev pub is_awaiting_death : CombatStatus → Bool
is_awaiting_death awaiting_death_test = true
is_awaiting_death _ = false

abbrev pub is_awaiting_action : CombatStatus → Bool
is_awaiting_action awaiting_physical_action = true
is_awaiting_action _ = false

abbrev pub differ : Bool → Bool → Bool
differ true b = not b
differ false b = b

unfoldable pub combat_issues : CombatState → List ValidationIssue
combat_issues combat =
    zone_graph_issues combat.battlefield
    ++ participant_issues combat [] combat.participants
    ++ active_actor_issues combat combat.active_actor_id
    ++ capacity_issues combat [] combat.participants
    ++ issues_of_each (λ o. issue_if (ltb o.threshold o.progress) "objective.progress_overflow")
        combat.objectives
    ++ issues_of_each (overlay_issues combat) combat.boss_overlays
    ++ issue_if (differ (is_awaiting_death combat.status) (is_some combat.pending_death_check_id))
        "death.pending_state_mismatch"
    ++ issue_if (differ (is_awaiting_action combat.status) (is_some combat.pending_action_check_id))
        "combat.pending_action_state_mismatch"
    ++ issue_if (is_some combat.pending_action_check_id && is_some combat.pending_death_check_id)
        "combat.multiple_pending_checks"
