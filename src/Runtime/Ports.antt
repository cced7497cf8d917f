-- ===== src/Runtime/Ports.antt =====
-- packages/runtime/src/ports/index.ts and the defaults of packages/runtime/src/application/defaults.ts:
-- what the command coordinator is given. The union of the game commands is split into the undo, which
-- the coordinator handles, and the commands for the decider, whose payload is a type parameter, as are
-- a command before its validation and a content catalog. A port that may throw has a `Result`.
use lldm.Prelude.{ℕ, String, Bool, Option, List, Result}
use lldm.Prelude.Int.{ℤ}
use lldm.Contracts.Ids.{OpaqueId}
use lldm.Contracts.Validation.{ValidationIssue, ValidationResult}
use lldm.Contracts.GameState.{GameState, SchemaChecks}
use lldm.Contracts.Transactions.{CommandRejectionCode, TransactionRecord}
use lldm.Contracts.Events.{EventBody, GameEvent}
use lldm.Contracts.Randomness.{RandomDrawRecord}
use lldm.Runtime.Identities.{IdentityPort}

pub data CommandBody (Payload : Type 0) : Type 0 where
  undo_transaction : (target_transaction_id : Option OpaqueId) → CommandBody Payload
  decided_command : (kind : String) → Payload → CommandBody Payload

pub record GameCommand (Payload : Type 0) : Type 0 where
  pub command_id : OpaqueId
  pub transaction_id : OpaqueId
  pub campaign_id : OpaqueId
  pub expected_revision : ℕ
  pub body : CommandBody Payload

abbrev pub kind_of : {Payload : Type 0} → CommandBody Payload → String
kind_of (undo_transaction target) = "undo_transaction"
kind_of (decided_command kind payload) = kind

pub record DecisionFacts : Type 0 where
  pub pending_check_id : OpaqueId
  pub submission_nonce : OpaqueId
  pub wound_id : OpaqueId
  pub death_pending_check_id : OpaqueId
  pub death_submission_nonce : OpaqueId
  pub condition_id : OpaqueId
  pub scar_id : OpaqueId
  pub legal_action_id_for : (stable_key : String) → OpaqueId
  pub event_id_for : (transaction_index : ℕ) → OpaqueId

pub record RandomRequest : Type 0 where
  pub purpose : String
  pub purpose_local_index : ℕ
  pub minimum : ℤ
  pub maximum : ℤ

pub record DecisionInput (Payload Catalog : Type 0) : Type 0 where
  pub state : GameState
  pub command : GameCommand Payload
  pub catalog : Catalog
  pub random : RandomRequest → Result RandomDrawRecord
  pub facts : DecisionFacts

pub data CommandDecision : Type 0 where
  accepted_decision : List EventBody → CommandDecision
  rejected_decision :
      (rejection_code : CommandRejectionCode) (safe_detail : String) → CommandDecision

-- The functions of the contracts that the coordinator calls (the schemas of a command, an event and a
-- transaction, the canonical text of a command and its tagged digest, the digest of a state), then
-- its ports. `text_of` is the text of a number or an identifier in a template literal, and
-- `campaign_scope` the scope that `legalActionIdForCampaign` makes of a campaign.
pub record Ports (Raw Payload Catalog : Type 0) : Type 0 where
  pub parse_command : Raw → ValidationResult (GameCommand Payload)
  pub canonical_json : GameCommand Payload → OpaqueId
  pub tagged_sha256 : OpaqueId → OpaqueId
  pub schema : SchemaChecks
  pub event_schema : GameEvent → List ValidationIssue
  pub transaction_schema : TransactionRecord → List ValidationIssue
  pub digest : GameState → OpaqueId
  pub text_of : ℕ → String
  pub is_rfc3339_milliseconds : OpaqueId → Bool
  pub campaign_scope : OpaqueId → OpaqueId
  pub resolve_content : OpaqueId → Option Catalog
  pub allocate : IdentityPort
  pub draw :
      (seed : List ℕ) (campaign_id command_id : OpaqueId) → RandomRequest → Result RandomDrawRecord
  pub decide : DecisionInput Payload Catalog → Result CommandDecision
  pub project : GameState → (revision : ℕ) → Catalog → (String → OpaqueId) → Result (Unit {0})
