-- ===== src/Contracts/Combat.antt =====
-- packages/contracts/src/domains/combat.ts: the records of a fight and of a pending physical check.
pub mod Battlefield
pub mod Validity
pub mod Facts
use lldm.Prelude.{ℕ, String, Bool, Option, List}
use lldm.Prelude.Int.{ℤ}
use lldm.Contracts.Ids.{OpaqueId, ContentReference}
use lldm.Contracts.Checks.{PhysicalRollDisclosure}
use lldm.Contracts.Characters.{BoundedPool}
use lldm.Contracts.Social.{SocialStance}

pub data RangeBand : Type 0 where
  range_self same_zone adjacent distant : RangeBand

pub data CombatSide : Type 0 where
  hero enemy : CombatSide

pub data ActionSlot : Type 0 where
  action maneuver reaction : ActionSlot

pub data Cover : Type 0 where
  no_cover partial_cover fortified : Cover

pub data Elevation : Type 0 where
  low level high : Elevation

pub data ZoneVisibility : Type 0 where
  open_view obscured blocked : ZoneVisibility

pub record Zone : Type 0 where
  pub zone_id : OpaqueId
  pub name : String
  pub capacity : ℕ
  pub cover : Cover
  pub hazard_tags : List String
  pub objective_ids : List OpaqueId
  pub elevation : Elevation
  pub visibility : ZoneVisibility
  pub connections : List OpaqueId

pub data EnemyKind : Type 0 where
  squad boss : EnemyKind

pub data ReinforcementTrigger : Type 0 where
  round_2 objective_progress_2 : ReinforcementTrigger

pub record EnemyDetails : Type 0 where
  pub kind : EnemyKind
  pub reinforcement_trigger : Option ReinforcementTrigger
  pub definition : ContentReference
  pub guard_pool : BoundedPool
  pub armor : ℕ

-- The two members of the union, by their side.
pub data CombatRole : Type 0 where
  hero_role : OpaqueId → CombatRole
  enemy_role : EnemyDetails → CombatRole

pub record CombatParticipant : Type 0 where
  pub actor_id : OpaqueId
  pub zone_id : OpaqueId
  pub action_available : Bool
  pub maneuver_available : Bool
  pub reaction_available : Bool
  pub activation_spent : Bool
  pub role : CombatRole

abbrev pub role_side : CombatRole → CombatSide
role_side (hero_role seat) = hero
role_side (enemy_role details) = enemy

abbrev pub side_of : CombatParticipant → CombatSide
side_of p = role_side p.role

pub data ObjectiveStatus : Type 0 where
  objective_active objective_completed objective_failed : ObjectiveStatus

pub record ObjectiveState : Type 0 where
  pub objective_id : OpaqueId
  pub definition : ContentReference
  pub progress : ℕ
  pub threshold : ℕ
  pub status : ObjectiveStatus

pub record BossOverlay : Type 0 where
  pub actor_id : OpaqueId
  pub definition : ContentReference
  pub overlay_active : Bool
  pub objective_id : OpaqueId

pub record ReactionWindow : Type 0 where
  pub reaction_window_id : OpaqueId
  pub triggering_actor_id : OpaqueId
  pub eligible_actor_ids : List OpaqueId

pub data CombatStatus : Type 0 where
  combat_active awaiting_physical_action awaiting_death_test combat_over : CombatStatus

pub record CombatState : Type 0 where
  pub combat_id : OpaqueId
  pub status : CombatStatus
  pub round : ℕ
  pub active_side : CombatSide
  pub active_actor_id : Option OpaqueId
  pub battlefield : List Zone
  pub participants : List CombatParticipant
  pub objectives : List ObjectiveState
  pub boss_overlays : List BossOverlay
  pub reaction_window : Option ReactionWindow
  pub pending_death_check_id : Option OpaqueId
  pub pending_action_check_id : Option OpaqueId

pub data ActionKind : Type 0 where
  attack use_power dash move change_stance interact advance_objective pass : ActionKind

pub data LegalActionTarget : Type 0 where
  at_self at_actor at_zone at_objective : OpaqueId → LegalActionTarget
  actor_to_zone : OpaqueId → OpaqueId → LegalActionTarget

pub record LegalActionCandidate : Type 0 where
  pub legal_action_id : OpaqueId
  pub actor_id : OpaqueId
  pub slot : ActionSlot
  pub action_kind : ActionKind
  pub source_definition : Option ContentReference
  pub target : LegalActionTarget
  pub range : RangeBand
  pub fallback_score : ℤ
  pub score_tags : List String

pub data Continuation : Type 0 where
  combat_action : LegalActionCandidate → Option ℕ → Continuation
  death_test : OpaqueId → OpaqueId → Continuation
  challenge_check : OpaqueId → Continuation
  social_check : OpaqueId → SocialStance → Option OpaqueId → Continuation
  ritual_check : OpaqueId → Continuation

pub record PendingCheck : Type 0 where
  pub pending_check_id : OpaqueId
  pub submission_nonce : OpaqueId
  pub disclosure : PhysicalRollDisclosure
  pub continuation : Option Continuation
