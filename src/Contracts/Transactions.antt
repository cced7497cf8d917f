-- ===== src/Contracts/Transactions.antt =====
-- packages/contracts/src/transactions.ts: the record of a committed transaction and its validator.
use lldm.Prelude.{ℕ, ◌+◌, String, Bool, true, false, not, ◌&&◌, List, ◌++◌, ◌==◌}
use lldm.Contracts.Ids.{OpaqueId}
use lldm.Contracts.Validation.{ValidationIssue, ValidationResult, conclude, issue_if}
use lldm.Contracts.GameState.{behind}

pub data CommandRejectionCode : Type 0 where
  campaign_not_found content_manifest_mismatch engine_legality expected_revision_mismatch :
      CommandRejectionCode
  required_content_unavailable storage_migration_required undo_already_compensated :
      CommandRejectionCode
  undo_non_invertible_dependency undo_no_eligible_transaction undo_permanent_death :
      CommandRejectionCode
  undo_physical_result undo_target_is_undo undo_target_not_latest : CommandRejectionCode

-- `NON_CANONICAL_COMMAND_FAILURE_CODES`.
pub data CommandFailureCode : Type 0 where
  command_identity_collision malformed_command recovery_needed storage_incompatible :
      CommandFailureCode
  transaction_identity_collision : CommandFailureCode

-- What tells the three kinds of record apart.
pub data TransactionOutcome : Type 0 where
  accepted_outcome : TransactionOutcome
  rejected_outcome :
      (rejection_code : CommandRejectionCode) (safe_detail : String) → TransactionOutcome
  undo_outcome : (undo_target_transaction_id : OpaqueId) → TransactionOutcome

pub record TransactionRecord : Type 0 where
  pub campaign_id : OpaqueId
  pub command_id : OpaqueId
  pub command_hash : OpaqueId
  pub transaction_id : OpaqueId
  pub first_revision : ℕ
  pub last_revision : ℕ
  pub event_count : ℕ
  pub pre_state_hash : OpaqueId
  pub post_state_hash : OpaqueId
  pub committed_at : OpaqueId
  pub outcome : TransactionOutcome

abbrev pub is_rejected : TransactionOutcome → Bool
is_rejected (rejected_outcome code detail) = true
is_rejected _ = false

-- `last_revision - first_revision + 1 !== event_count` without the difference of integers.
unfoldable pub transaction_record_issues : TransactionRecord → List ValidationIssue
transaction_record_issues t =
    issue_if (not (t.last_revision + 1 == t.first_revision + t.event_count))
      "transaction.non_contiguous_range"
    ++ issue_if (is_rejected t.outcome && not (t.pre_state_hash == t.post_state_hash))
        "transaction.rejection_changed_state"

-- `schema` stands for the issues that `validateValue` finds.
unfoldable pub validate_committed_transaction_record :
    (schema : TransactionRecord → List ValidationIssue)
    → TransactionRecord
    → ValidationResult TransactionRecord
validate_committed_transaction_record schema t =
    conclude t (behind (schema t) (transaction_record_issues t))
