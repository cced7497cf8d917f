-- ===== src/Runtime/Coordinator.antt =====
-- packages/runtime/src/application/coordinator.ts on the in-memory store: the submission of a command.
-- What is thrown inside the transaction is the error of a `Result`. The clock's reading is an argument.
pub mod Answers
pub mod Effects
pub mod Heads
pub mod Streams
pub mod Entries
pub mod Histories
pub mod Journals
pub mod Undone
pub mod Liveness
use Prim.Native.String.{◌++◌ as ◌<>◌}
use lldm.Prelude.{
  String, Bool, true, false, not, ◌&&◌, Option, none, some, List, [], ◌==◌, if◌then◌else◌, Result,
  ok, err, ◌>>=◌, ◌>>◌, guard, require,
}
use lldm.Contracts.Ids.{OpaqueId}
use lldm.Contracts.Validation.{ValidationIssue, success, failure}
use lldm.Contracts.Transactions.{
  CommandFailureCode, TransactionOutcome, undo_outcome, command_identity_collision,
  malformed_command, recovery_needed, storage_incompatible, transaction_identity_collision,
  expected_revision_mismatch, undo_no_eligible_transaction, undo_target_not_latest,
  undo_target_is_undo, undo_already_compensated,
}
use lldm.Engine.Compensation.{CompensationPlan, accepted, refused, plan_transaction_compensation}
use lldm.Contracts.Randomness.{RandomDrawRecord}
use lldm.Runtime.Ports.{
  GameCommand, CommandBody, undo_transaction, decided_command, RandomRequest, CommandDecision,
  accepted_decision, rejected_decision, Ports,
}
use lldm.Runtime.Store.{
  StoreData, StoredCommand, CommittedCommand, Readiness, current, recovery_required,
  migration_required, incompatible, hash_game_state, Draft, transact, Transacted,
}
use lldm.Runtime.Store.Undo.{
  CampaignHead, UndoLookup, no_transaction, target_not_latest, undo_found, find_command,
  transaction_id_exists, load_campaign, read_campaign_seed, load_undo_candidate,
}
use lldm.Runtime.Commitment.{
  Verdict, accepting, rejecting, undoing, allocate_decision_facts, commit_decision,
}

-- `CommandSubmissionResult`.
pub data Submission : Type 0 where
  committed_acceptance committed_rejection idempotent_replay : CommittedCommand → Submission
  failed : CommandFailureCode → (safe_detail : String) → List ValidationIssue → Submission

abbrev pub failure_of : CommandFailureCode → String → Submission
failure_of code detail = failed code detail []

abbrev is_undo : TransactionOutcome → Bool
is_undo (undo_outcome target) = true
is_undo _ = false

abbrev pub reported : Verdict → CommittedCommand → Submission
reported (rejecting code detail) commit = committed_rejection commit
reported _ commit = committed_acceptance commit

abbrev pub verdict_on_plan : OpaqueId → CompensationPlan → Verdict
verdict_on_plan target (accepted events) = undoing target events
verdict_on_plan target (refused code detail) = rejecting code detail

abbrev pub verdict_on_decision : CommandDecision → Verdict
verdict_on_decision (accepted_decision events) = accepting events
verdict_on_decision (rejected_decision code detail) = rejecting code detail

abbrev pub unchanged : StoreData → Submission → Result (Draft Submission)
unchanged store s = ok (record { draft = store; value = s })

-- The `catch` around the transaction.
abbrev pub caught : Result Submission → Submission
caught (ok s) = s
caught (err message) =
    failure_of recovery_needed "Command coordination failed before an atomic commit completed."

pub record Submitted : Type 0 where
  pub data_after : StoreData
  pub result : Submission

abbrev pub settled : Transacted Submission → Submitted
settled t = record { data_after = t.data_after; result = caught t.outcome }

module _ {Raw Payload Catalog : Type 0} (p : Ports Raw Payload Catalog) where
  -- `commitDecision` and the result around its commit.
  unfoldable pub concluded :
      StoreData
      → GameCommand Payload
      → CampaignHead
      → (now : OpaqueId) → Catalog
      → Verdict
      → Result (Draft Submission)
  concluded store c head now catalog v = do
    d ← commit_decision p store c head now catalog v
    ok (record { draft = d.draft; value = reported v d.value })

  -- The branch of `undo_transaction`.
  unfoldable pub verdict_on_undo : UndoLookup → Verdict
  verdict_on_undo no_transaction =
      rejecting undo_no_eligible_transaction "No accepted state-changing transaction is eligible."
  verdict_on_undo (target_not_latest latest) =
      rejecting undo_target_not_latest
        ("Only latest transaction " <> p.text_of latest <> " is eligible.")
  verdict_on_undo (undo_found candidate) =
      let id = candidate.transaction.transaction_id in
      if is_undo candidate.transaction.outcome
      then rejecting undo_target_is_undo "A compensation transaction cannot be undone."
      else if candidate.already_compensated
      then rejecting undo_already_compensated "The target transaction was already compensated."
      else verdict_on_plan id (plan_transaction_compensation id candidate.events)

  -- `random.draw`: the seed is read from the store at the first draw.
  abbrev pub random_for : StoreData → GameCommand Payload → RandomRequest → Result RandomDrawRecord
  random_for store c request = do
    seed ← require (read_campaign_seed store c.campaign_id) "Campaign seed is unavailable."
    p.draw seed c.campaign_id c.command_id request

  unfoldable pub decided :
      StoreData → GameCommand Payload → CampaignHead → Catalog → Result CommandDecision
  unfolding allocate_decision_facts
  decided store c head catalog = p.decide (record {
    state = head.state;
    command = c;
    catalog = catalog;
    random = random_for store c;
    facts = allocate_decision_facts p c;
  })

  abbrev pub verdict_on_body :
      StoreData
      → GameCommand Payload
      → CampaignHead
      → Catalog
      → CommandBody Payload
      → Result Verdict
  verdict_on_body store c head catalog (undo_transaction target) =
      ok (verdict_on_undo (load_undo_candidate store c.campaign_id target))
  verdict_on_body store c head catalog (decided_command kind payload) = do
    decision ← decided store c head catalog
    ok (verdict_on_decision decision)

  -- What a current command is answered with: a stale one is rejected before anything else.
  unfoldable pub verdict_on :
      StoreData → GameCommand Payload → CampaignHead → Catalog → Result Verdict
  verdict_on store c head catalog =
      if not (c.expected_revision == head.revision)
      then ok (
          rejecting expected_revision_mismatch (
            "Expected revision "
            <> p.text_of c.expected_revision
            <> "; current revision is "
            <> p.text_of head.revision
            <> "."))
      else verdict_on_body store c head catalog c.body

  -- The submission behind the test of the campaign's hash, with the pinned content.
  unfoldable pub submit_with :
      (now : OpaqueId)
      → StoreData
      → GameCommand Payload
      → CampaignHead
      → Option Catalog
      → Result (Draft Submission)
  submit_with now store c head none =
      unchanged store
        (failure_of recovery_needed "The campaign's pinned content manifest is unavailable.")
  submit_with now store c head (some catalog) = do
    guard (p.is_rfc3339_milliseconds now) "Clock returned a non-canonical transaction timestamp."
    v ← verdict_on store c head catalog
    concluded store c head now catalog v

  unfoldable pub submit_to :
      (now : OpaqueId)
      → StoreData
      → GameCommand Payload
      → Option CampaignHead
      → Result (Draft Submission)
  submit_to now store c none =
      unchanged store
        (failure_of storage_incompatible "The command campaign does not exist in this store.")
  submit_to now store c (some head) = do
    hash ← hash_game_state p.schema p.digest head.state
    let answer = submit_with now store c head (p.resolve_content head.state.content_manifest_hash)
    if not (head.state_hash == hash)
        then unchanged store (
            failure_of recovery_needed
              "The stored campaign head does not match its mechanical state hash.")
        else answer

  unfoldable pub submit_new :
      (now : OpaqueId) → StoreData → GameCommand Payload → Readiness → Result (Draft Submission)
  submit_new now store c (recovery_required detail) =
      unchanged store (failure_of recovery_needed detail)
  submit_new now store c current = submit_to now store c (load_campaign store c.campaign_id)
  submit_new now store c (migration_required detail) =
      unchanged store (failure_of storage_incompatible detail)
  submit_new now store c (incompatible detail) =
      unchanged store (failure_of storage_incompatible detail)

  abbrev pub is_same_command : GameCommand Payload → StoredCommand → Bool
  is_same_command c existing =
      existing.command_hash == p.tagged_sha256 (p.canonical_json c)
      && existing.command_canonical_json == p.canonical_json c

  -- The operation that `submit` runs on the draft of the store, from the look-up of the command.
  unfoldable pub submit_found :
      (now : OpaqueId)
      → StoreData
      → GameCommand Payload
      → Option StoredCommand
      → Result (Draft Submission)
  submit_found now store c (some existing) = unchanged store (
      if is_same_command c existing
      then idempotent_replay existing.commit
      else failure_of command_identity_collision
          "The command ID is already bound to different canonical command data.")
  submit_found now store c none =
      let answer = submit_new now store c store.readiness in
      if transaction_id_exists store c.transaction_id
      then unchanged store (
          failure_of transaction_identity_collision
            "The transaction ID is already bound to another command.")
      else answer

  unfoldable pub submit : (now : OpaqueId) → StoreData → Raw → Submitted
  submit now store raw = elim (p.parse_command raw) [
    | failure is ↦ record {
      data_after = store;
      result = failed malformed_command "Command failed centralized validation." is;
    }
    | success c ↦
        settled
          (transact store (λ draft. submit_found now draft c (find_command draft c.command_id)))
  ]
