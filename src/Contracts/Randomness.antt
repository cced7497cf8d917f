-- ===== src/Contracts/Randomness.antt =====
-- packages/contracts/src/randomness.ts: the record of a random draw and its semantic validator.
use lldm.Prelude.{ℕ, ◌||◌, true, String, List, if◌then◌else◌}
use lldm.Prelude.Int.{ℤ, ltb_ℤ}
use lldm.Contracts.Validation.{ValidationIssue, ValidationResult, conclude, issue_if}
use lldm.Contracts.GameState.{behind}

pub record RandomDrawRecord : Type 0 where
  pub seed_fingerprint : String
  pub campaign_id : String
  pub command_id : String
  pub purpose : String
  pub purpose_local_index : ℕ
  pub minimum : ℤ
  pub maximum : ℤ
  pub realized_value : ℤ
  pub rejection_count : ℕ

unfoldable pub random_draw_issues : RandomDrawRecord → List ValidationIssue
random_draw_issues r =
    if ltb_ℤ r.maximum r.minimum
    then issue_if true "random.invalid_range"
    else issue_if (ltb_ℤ r.realized_value r.minimum || ltb_ℤ r.maximum r.realized_value)
        "random.value_out_of_range"

-- `schema` stands for the issues that `validateValue` finds.
unfoldable pub validate_random_draw_record :
    (schema : RandomDrawRecord → List ValidationIssue)
    → RandomDrawRecord
    → ValidationResult RandomDrawRecord
validate_random_draw_record schema r = conclude r (behind (schema r) (random_draw_issues r))
