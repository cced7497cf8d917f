-- ===== src/Contracts/Events.antt =====
-- packages/contracts/src/events.ts: the union of the game events, with the envelope of
-- packages/contracts/src/envelopes.ts. Prose that no part of the engine reads back is left out of
-- the payloads: the reasons of resource, condition and ritual events and a Spark complication.
use lldm.Prelude.{ℕ, String, Option, List}
use lldm.Contracts.Ids.{OpaqueId, ContentReference}
use lldm.Contracts.Checks.{ResolvedCheck, PhysicalRollDisclosure}
use lldm.Contracts.Characters.{PlayableCharacter, WoundSlots, CharacterCondition}
use lldm.Contracts.Combat.{
  CombatState, CombatSide, ActionSlot, LegalActionCandidate, ReactionWindow, BossOverlay,
  ObjectiveStatus,
}
use lldm.Contracts.Challenges.{ChallengeState, ChallengeStatus}
use lldm.Contracts.Social.{SocialState, SocialStance, Leverage}
use lldm.Contracts.Rituals.{RitualState, RitualStatus}
use lldm.Contracts.Transactions.{CommandRejectionCode}

pub data ResourceOwner : Type 0 where
  party_scope : ResourceOwner
  character_scope : OpaqueId → ResourceOwner

pub data ResourceName : Type 0 where
  guard_resource exertion_resource supply_resource : ResourceName

pub record ResourceChange : Type 0 where
  pub owner : ResourceOwner
  pub resource : ResourceName
  pub previous : ℕ
  pub current : ℕ

pub data Boundary : Type 0 where
  scene_boundary session_start session_end : Boundary

pub record GearSpend : Type 0 where
  pub character_id : OpaqueId
  pub slot : ℕ
  pub definition : ContentReference
  pub ritual_id : OpaqueId

pub record SceneReset : Type 0 where
  pub scene_id : Option OpaqueId
  pub next_scene_id : OpaqueId
  pub boundary : Boundary
  pub reset_character_ids : List OpaqueId

pub record RankAdvance : Type 0 where
  pub character_id : OpaqueId
  pub previous_rank : ℕ
  pub current_rank : ℕ
  pub feature : ContentReference

pub record SlotUse : Type 0 where
  pub combat_id : OpaqueId
  pub actor_id : OpaqueId
  pub slot : ActionSlot

pub record Movement : Type 0 where
  pub combat_id : OpaqueId
  pub actor_id : OpaqueId
  pub from_zone_id : OpaqueId
  pub to_zone_id : OpaqueId

pub record Impact : Type 0 where
  pub combat_id : OpaqueId
  pub source_actor_id : OpaqueId
  pub target_actor_id : OpaqueId
  pub base_impact : ℕ
  pub triumph_bonus : ℕ
  pub armor_reduction : ℕ
  pub applied_impact : ℕ
  pub guard_before : ℕ
  pub guard_after : ℕ

pub record ObjectiveAdvance : Type 0 where
  pub objective_id : OpaqueId
  pub previous : ℕ
  pub current : ℕ
  pub status : ObjectiveStatus

pub record TrackChange : Type 0 where
  pub challenge_id : OpaqueId
  pub progress_before : ℕ
  pub progress_after : ℕ
  pub danger_before : ℕ
  pub danger_after : ℕ
  pub status : ChallengeStatus
  pub result : ResolvedCheck

pub record StanceChange : Type 0 where
  pub npc_actor_id : OpaqueId
  pub previous : SocialStance
  pub current : SocialStance
  pub result : ResolvedCheck

pub record SocialPending : Type 0 where
  pub npc_actor_id : OpaqueId
  pub pending_check_id : OpaqueId
  pub requested_stance : SocialStance
  pub challenged_limit_id : Option OpaqueId

-- Identifiers stand in the order in which the source's payloads list them.
pub data EventBody : Type 0 where
  command_accepted : (command_kind : String) (command_hash : OpaqueId) → EventBody
  command_rejected :
      (command_kind : String) (command_hash : OpaqueId)
      → CommandRejectionCode
      → (safe_detail : String) → EventBody
  simulated_check_resolved : ResolvedCheck → EventBody
  physical_check_resolved : (pending_check_id submission_id : OpaqueId) → ResolvedCheck → EventBody
  physical_roll_requested : (pending_check_id nonce : OpaqueId) → PhysicalRollDisclosure → EventBody
  physical_roll_cancelled : (pending_check_id : OpaqueId) → EventBody
  spark_spent : (actor_id : OpaqueId) → EventBody
  spark_restored_by_compensation : (actor_id : OpaqueId) → EventBody
  character_materialized : PlayableCharacter → EventBody
  significant_gear_spent : GearSpend → EventBody
  resource_changed : ResourceChange → EventBody
  spark_recovered : (character_id : OpaqueId) → EventBody
  costly_rest_completed : (character_ids : List OpaqueId) (supply_spent : ℕ) → EventBody
  scene_resources_reset : SceneReset → EventBody
  rank_advanced : RankAdvance → EventBody
  scene_ability_used : (character_id : OpaqueId) → ContentReference → EventBody
  condition_applied : (character_id : OpaqueId) → CharacterCondition → EventBody
  condition_removed : (character_id condition_id : OpaqueId) → EventBody
  combat_started : CombatState → EventBody
  activation_started : (combat_id actor_id : OpaqueId) → CombatSide → EventBody
  action_slot_spent : SlotUse → EventBody
  action_slot_restored : SlotUse → EventBody
  actor_moved : Movement → EventBody
  enemy_action_selected : (combat_id : OpaqueId) → LegalActionCandidate → EventBody
  combat_action_pending :
      (combat_id pending_check_id : OpaqueId) → LegalActionCandidate → Option ℕ → EventBody
  death_test_pending : (combat_id pending_check_id character_id : OpaqueId) → EventBody
  impact_applied : Impact → EventBody
  wound_marked : (combat_id character_id : OpaqueId) → WoundSlots → EventBody
  reaction_window_opened : (combat_id : OpaqueId) → ReactionWindow → EventBody
  reaction_window_closed : (combat_id reaction_window_id : OpaqueId) → Option OpaqueId → EventBody
  reaction_restored : (combat_id actor_id : OpaqueId) → EventBody
  round_advanced : (combat_id previous_round current_round : ℕ) → EventBody
  boss_overlay_activated :
      (combat_id : OpaqueId) → BossOverlay → (guard_before guard_after : ℕ) → EventBody
  objective_advanced : (combat_id : OpaqueId) → ObjectiveAdvance → EventBody
  death_test_aid_applied :
      (combat_id pending_check_id aiding_character_id : OpaqueId)
      → ResourceName
      → PhysicalRollDisclosure
      → EventBody
  hero_stabilized : (combat_id character_id : OpaqueId) → WoundSlots → EventBody
  permanent_scar_gained : (combat_id character_id scar_id : OpaqueId) → String → EventBody
  character_died : (combat_id character_id : OpaqueId) → EventBody
  combat_resolved : (combat_id : OpaqueId) → EventBody
  challenge_started : ChallengeState → EventBody
  challenge_check_pending : (challenge_id pending_check_id : OpaqueId) → EventBody
  challenge_tracks_changed : TrackChange → EventBody
  challenge_resolved : (challenge_id : OpaqueId) → ChallengeStatus → EventBody
  social_state_established : SocialState → EventBody
  social_check_pending : SocialPending → EventBody
  social_stance_changed : StanceChange → EventBody
  leverage_created : (npc_actor_id : OpaqueId) → Leverage → EventBody
  leverage_spent : (npc_actor_id leverage_id : OpaqueId) → EventBody
  ritual_started : RitualState → EventBody
  ritual_check_pending : (ritual_id pending_check_id : OpaqueId) → EventBody
  ritual_contribution : (ritual_id character_id : OpaqueId) (paid_cost_index : ℕ) → EventBody
  ritual_ready : (ritual_id : OpaqueId) → EventBody
  ritual_resolved : (ritual_id : OpaqueId) → ResolvedCheck → RitualStatus → EventBody
  ritual_interrupted : (ritual_id : OpaqueId) → EventBody
  transaction_compensated : (target_transaction_id : OpaqueId) → EventBody

pub record GameEvent : Type 0 where
  pub event_id : OpaqueId
  pub transaction_id : OpaqueId
  pub campaign_id : OpaqueId
  pub caused_by_command_id : OpaqueId
  pub transaction_index : ℕ
  pub stream_revision : ℕ
  pub body : EventBody
