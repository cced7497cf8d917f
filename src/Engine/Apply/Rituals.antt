-- ===== src/Engine/Apply/Rituals.antt =====
-- The ritual cases of `applyGameEvent`.
use lldm.Prelude.{
  ℕ, ◌+◌, Bool, true, false, ◌&&◌, ◌||◌, not, [], ◌∷◌, ◌++◌, ◌==◌, if◌then◌else◌, find, any,
  includes, length, get_elem?, is_some, Result, ok, ◌>>=◌, ◌>>◌, guard, refuse_if, require,
}
use lldm.Contracts.Ids.{OpaqueId}
use lldm.Contracts.Checks.{OutcomeDegree, success, triumph, ResolvedCheck}
use lldm.Contracts.Combat.{ritual_check}
use lldm.Contracts.Rituals.{
  RitualState, RitualStatus, preparing, ritual_ready_status, awaiting_resolution, ritual_completed,
  ritual_interrupted_status, ritual_failed,
}
use lldm.Contracts.GameState.{GameState, SchemaChecks, validate_ritual}
use lldm.Engine.Apply.Access.{
  character_by_id, is_ritual, update_ritual, pending_check, update_pending,
}
use lldm.Engine.Apply.Checks.{continue_with}
use lldm.Engine.Apply.Characters.{is_preparing}
use lldm.Engine.Apply.Challenges.{is_valid}

abbrev pub ritual_status_index : RitualStatus → ℕ
ritual_status_index preparing = 0
ritual_status_index ritual_ready_status = 1
ritual_status_index awaiting_resolution = 2
ritual_status_index ritual_completed = 3
ritual_status_index ritual_interrupted_status = 4
ritual_status_index ritual_failed = 5

abbrev has_status : RitualState → RitualStatus → Bool
has_status r status = ritual_status_index r.status == ritual_status_index status

abbrev pub set_ritual_status : RitualStatus → RitualState → RitualState
set_ritual_status status r = record r { status = status }

unfoldable pub apply_ritual_started : SchemaChecks → GameState → RitualState → Result GameState
apply_ritual_started schema s ritual = do
  refuse_if
      (any (is_ritual ritual.ritual_id) s.rituals || not (is_valid (validate_ritual schema ritual)))
      "Ritual start state is invalid or duplicated."
  ok (record s { rituals = s.rituals ++ ritual ∷ [] })

unfoldable pub apply_ritual_pending : GameState → OpaqueId → OpaqueId → Result GameState
apply_ritual_pending s ritual_id id = do
  pending ← require (pending_check s id) "Ritual pending check is unavailable."
  refuse_if (is_some pending.continuation) "Ritual pending check is unavailable."
  r ← require (find (is_ritual ritual_id) s.rituals) "Ritual is not ready for resolution."
  guard (has_status r ritual_ready_status) "Ritual is not ready for resolution."
  ok (
      update_ritual (update_pending s id (continue_with (ritual_check ritual_id))) ritual_id
        (set_ritual_status awaiting_resolution))

abbrev pub contribute : OpaqueId → ℕ → RitualState → RitualState
contribute character index r = record r {
  contributor_ids =
      if includes character r.contributor_ids
      then r.contributor_ids
      else r.contributor_ids ++ character ∷ [];
  paid_cost_count = index + 1;
}

unfoldable pub apply_ritual_contribution : GameState → OpaqueId → OpaqueId → ℕ → Result GameState
apply_ritual_contribution s ritual_id character index = do
  r ← require (find (is_ritual ritual_id) s.rituals) "Ritual was not found."
  guard
      (is_preparing r.status
        && index == r.paid_cost_count
        && is_some (get_elem? r.costs index)
        && is_some (character_by_id s character))
      "Recorded ritual contribution is invalid."
  ok (update_ritual s ritual_id (contribute character index))

unfoldable pub apply_ritual_ready : GameState → OpaqueId → Result GameState
apply_ritual_ready s ritual_id = do
  r ← require (find (is_ritual ritual_id) s.rituals) "Ritual was not found."
  guard (is_preparing r.status && r.paid_cost_count == length r.costs)
      "Ritual is not fully paid and preparing."
  ok (update_ritual s ritual_id (set_ritual_status ritual_ready_status))

abbrev pub expected_outcome : OutcomeDegree → RitualStatus
expected_outcome success = ritual_completed
expected_outcome triumph = ritual_completed
expected_outcome _ = ritual_failed

unfoldable pub apply_ritual_resolved :
    GameState → OpaqueId → ResolvedCheck → RitualStatus → Result GameState
apply_ritual_resolved s ritual_id result outcome = do
  r ← require (find (is_ritual ritual_id) s.rituals) "Ritual was not found."
  guard
      ((has_status r ritual_ready_status || has_status r awaiting_resolution)
        && ritual_status_index outcome
          == ritual_status_index (expected_outcome result.final_degree))
      "Recorded ritual resolution is invalid."
  ok (update_ritual s ritual_id (set_ritual_status outcome))

abbrev pub is_closed : RitualStatus → Bool
is_closed ritual_completed = true
is_closed ritual_failed = true
is_closed ritual_interrupted_status = true
is_closed _ = false

unfoldable pub apply_ritual_interrupted : GameState → OpaqueId → Result GameState
apply_ritual_interrupted s ritual_id = do
  r ← require (find (is_ritual ritual_id) s.rituals) "Ritual was not found."
  refuse_if (is_closed r.status) "Ritual is already closed."
  ok (update_ritual s ritual_id (set_ritual_status ritual_interrupted_status))
