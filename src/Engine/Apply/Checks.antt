-- ===== src/Engine/Apply/Checks.antt =====
-- Physical checks: the cases from `check_resolved` to `spark_restored_by_compensation`, the pending
-- continuations and the aid to a death test.
use lldm.Prelude.{
  ℕ, Bool, true, false, ◌&&◌, ◌||◌, not, Option, none, some, List, [], ◌∷◌, ◌++◌, ◌==◌,
  if◌then◌else◌, modify, filter, any, same_id, is_some, Result, ok, ◌>>=◌, ◌>>◌, guard, refuse_if,
  require,
}
use lldm.Contracts.Ids.{OpaqueId}
use lldm.Contracts.Checks.{PhysicalRollDisclosure, PhysicalRollReason, mandatory, permanent_death}
use lldm.Contracts.Characters.{PlayableCharacter}
use lldm.Contracts.Combat.{
  CombatState, combat_active, awaiting_physical_action, awaiting_death_test, PendingCheck,
  Continuation, combat_action, death_test, ritual_check, LegalActionCandidate,
}
use lldm.Contracts.Rituals.{RitualStatus, awaiting_resolution, ritual_ready_status, RitualState}
use lldm.Contracts.GameState.{GameState}
use lldm.Engine.Apply.Access.{
  character_by_actor_id, update_character_of_actor, pending_check, update_pending, set_combat,
  is_ritual,
}

abbrev pub without_pending : GameState → OpaqueId → GameState
without_pending s id = record s {
  pending_physical_checks = filter (λ p. not (p.pending_check_id == id)) s.pending_physical_checks;
}

abbrev pub is_combat_action : Option Continuation → Bool
is_combat_action (some (combat_action candidate base_impact)) = true
is_combat_action _ = false

abbrev pub end_death_wait : CombatState → CombatState
end_death_wait c = record c { pending_death_check_id = none; status = combat_active }

abbrev pub end_action_wait : CombatState → CombatState
end_action_wait c = record c { pending_action_check_id = none; status = combat_active }

-- What the resolution of a pending check does to the combat.
abbrev pub settle_combat : OpaqueId → PendingCheck → Option CombatState → Option CombatState
settle_combat id pending none = none
settle_combat id pending (some c) = some (
    if same_id c.pending_death_check_id id
    then end_death_wait c
    else if same_id c.pending_action_check_id id && is_combat_action pending.continuation
    then end_action_wait c
    else c)

unfoldable pub apply_check_resolved : GameState → OpaqueId → Result GameState
apply_check_resolved s id = do
  pending ← require (pending_check s id) "Resolved physical check was not pending."
  ok (record (without_pending s id) { combat = settle_combat id pending s.combat })

abbrev pub is_death_reason : PhysicalRollReason → Bool
is_death_reason (mandatory permanent_death) = true
is_death_reason _ = false

abbrev pub await_death_test : Bool → OpaqueId → Option CombatState → Option CombatState
await_death_test deadly id none = none
await_death_test false id (some c) = some c
await_death_test true id (some c) =
    some (record c { status = awaiting_death_test; pending_death_check_id = some id })

unfoldable pub apply_roll_requested :
    GameState → OpaqueId → OpaqueId → PhysicalRollDisclosure → Result GameState
apply_roll_requested s id nonce disclosure = do
  refuse_if
      (any (λ p. p.pending_check_id == id || p.submission_nonce == nonce) s.pending_physical_checks)
      "Physical check identity is already pending."
  ok (record s {
    pending_physical_checks =
        s.pending_physical_checks
        ++ record {
          pending_check_id = id;
          submission_nonce = nonce;
          disclosure = disclosure;
          continuation = none;
        }
          ∷ [];
    combat = await_death_test (is_death_reason disclosure.reason) id s.combat;
  })

abbrev is_awaiting_resolution : RitualStatus → Bool
is_awaiting_resolution awaiting_resolution = true
is_awaiting_resolution _ = false

abbrev reopen : RitualState → RitualState
reopen r = if is_awaiting_resolution r.status then record r { status = ritual_ready_status } else r

-- A cancelled ritual check takes its ritual back to ready.
abbrev pub reopen_ritual : Option Continuation → List RitualState → List RitualState
reopen_ritual (some (ritual_check id)) rituals = modify (is_ritual id) reopen rituals
reopen_ritual _ rituals = rituals

abbrev release_death_wait : OpaqueId → CombatState → CombatState
release_death_wait id c = if same_id c.pending_death_check_id id then end_death_wait c else c

abbrev release_action_wait : OpaqueId → CombatState → CombatState
release_action_wait id c = if same_id c.pending_action_check_id id then end_action_wait c else c

abbrev pub release_combat : OpaqueId → Option CombatState → Option CombatState
release_combat id none = none
release_combat id (some c) = some (release_action_wait id (release_death_wait id c))

unfoldable pub apply_roll_cancelled : GameState → OpaqueId → Result GameState
apply_roll_cancelled s id = do
  pending ← require (pending_check s id) "Physical check is not pending."
  ok (record (without_pending s id) {
    rituals = reopen_ritual pending.continuation s.rituals;
    combat = release_combat pending.pending_check_id s.combat;
  })

abbrev pub set_spark_available : Bool → PlayableCharacter → PlayableCharacter
set_spark_available b c = record c {
  resources = record (c.resources) { spark = record (c.resources.spark) { available = b } };
}

unfoldable pub apply_spark_spent : GameState → OpaqueId → Result GameState
apply_spark_spent s actor = do
  c ← require (character_by_actor_id s actor) "Spark owner is not playable."
  guard c.resources.spark.available "Spark is already unavailable."
  ok (update_character_of_actor s actor (set_spark_available false))

unfoldable pub apply_spark_restored : GameState → OpaqueId → Result GameState
apply_spark_restored s actor = do
  c ← require (character_by_actor_id s actor) "Spent Spark cannot be compensated."
  refuse_if c.resources.spark.available "Spent Spark cannot be compensated."
  ok (update_character_of_actor s actor (set_spark_available true))

abbrev pub continue_with : Continuation → PendingCheck → PendingCheck
continue_with k p = record p { continuation = some k }

-- `combat_action_pending`: the check waits, and then the combat.
unfoldable pub apply_combat_action_pending :
    GameState → OpaqueId → LegalActionCandidate → Option ℕ → Result GameState
apply_combat_action_pending s id candidate base_impact = do
  pending ← require (pending_check s id) "Combat pending check is unavailable."
  refuse_if (is_some pending.continuation) "Combat pending check is unavailable."
  c ← require s.combat "No combat is active."
  ok (
      set_combat (update_pending s id (continue_with (combat_action candidate base_impact)))
        (record c {
          status = awaiting_physical_action;
          pending_action_check_id = some pending.pending_check_id;
        }))

unfoldable pub apply_death_test_pending :
    GameState → OpaqueId → OpaqueId → OpaqueId → Result GameState
apply_death_test_pending s combat_id id character_id = do
  pending ← require (pending_check s id) "Death-test pending check is unavailable."
  refuse_if (is_some pending.continuation) "Death-test pending check is unavailable."
  ok (update_pending s id (continue_with (death_test combat_id character_id)))

unfoldable pub apply_death_test_aid :
    GameState → OpaqueId → PhysicalRollDisclosure → Result GameState
apply_death_test_aid s id disclosure = do
  pending ← require (pending_check s id) "Pending death test was not found."
  ok (update_pending s id (λ p. record p { disclosure = disclosure }))
