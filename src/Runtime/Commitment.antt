-- ===== src/Runtime/Commitment.antt =====
-- commitDecision of packages/runtime/src/application/coordinator.ts: the events and the record that a
-- decision leads to, and their commit. An exception is the error of a `Result`, without the issues in
-- its text. Projections are left out of a commit, except for the throw of the port that makes them.
pub mod Made
pub mod Envelopes
pub mod Accepts
use lldm.Prelude.{ℕ, ◌+◌, String, List, [], ◌∷◌, length, Result, ok, err, ◌>>=◌}
use lldm.Contracts.Ids.{OpaqueId}
use lldm.Contracts.Validation.{conclude, success, failure}
use lldm.Contracts.GameState.{GameState}
use lldm.Contracts.Transactions.{
  CommandRejectionCode, TransactionOutcome, TransactionRecord, accepted_outcome, rejected_outcome,
  undo_outcome, validate_committed_transaction_record,
}
use lldm.Contracts.Events.{EventBody, GameEvent, command_accepted, command_rejected}
use lldm.Engine.Apply.Reducer.{apply_events}
use lldm.Runtime.Identities.{
  event_id_from, pending_check_identity, physical_roll_nonce_identity, wound_identity,
  legal_action_identity, death_pending_check_identity, death_physical_roll_nonce_identity,
  condition_identity, scar_identity,
}
use lldm.Runtime.Ports.{GameCommand, kind_of, DecisionFacts, Ports}
use lldm.Runtime.Store.{
  StoreData, StoredCommand, CommitInput, CommittedCommand, hash_game_state, commit_draft, Draft,
}
use lldm.Runtime.Store.Undo.{CampaignHead}

-- What a decision adds to a commit, in the combinations in which the submission passes it.
pub data Verdict : Type 0 where
  accepting : List EventBody → Verdict
  rejecting : CommandRejectionCode → String → Verdict
  undoing : (target : OpaqueId) → List EventBody → Verdict

-- The audit event of a decision and, where it accepts, the events that the domain proposes.
abbrev pub proposals : String → OpaqueId → Verdict → List EventBody
proposals kind hash (accepting events) = command_accepted kind hash ∷ events
proposals kind hash (undoing target events) = command_accepted kind hash ∷ events
proposals kind hash (rejecting code detail) = command_rejected kind hash code detail ∷ []

abbrev pub outcome_of : Verdict → TransactionOutcome
outcome_of (accepting events) = accepted_outcome
outcome_of (rejecting code detail) = rejected_outcome code detail
outcome_of (undoing target events) = undo_outcome target

module _ {Raw Payload Catalog : Type 0} (p : Ports Raw Payload Catalog) where
  unfoldable pub allocate_decision_facts : GameCommand Payload → DecisionFacts
  allocate_decision_facts c =
      let id = c.transaction_id in
      record {
        pending_check_id = p.allocate pending_check_identity id 0 "";
        submission_nonce = p.allocate physical_roll_nonce_identity id 0 "";
        wound_id = p.allocate wound_identity id 0 "";
        death_pending_check_id = p.allocate death_pending_check_identity id 0 "";
        death_submission_nonce = p.allocate death_physical_roll_nonce_identity id 0 "";
        condition_id = p.allocate condition_identity id 0 "";
        scar_id = p.allocate scar_identity id 0 "";
        legal_action_id_for =
            λ key. p.allocate legal_action_identity (p.campaign_scope c.campaign_id) 0 key;
        event_id_for = λ index. event_id_from p.allocate id index;
      }

  abbrev pub enveloped : GameCommand Payload → (ℕ → OpaqueId) → ℕ → ℕ → EventBody → GameEvent
  enveloped c event_id_for first index body = record {
    event_id = event_id_for index;
    transaction_id = c.transaction_id;
    campaign_id = c.campaign_id;
    caused_by_command_id = c.command_id;
    transaction_index = index;
    stream_revision = first + index;
    body = body;
  }

  abbrev pub valid_event : GameEvent → Result GameEvent
  valid_event e = elim (conclude e (p.event_schema e)) [
    | success valid ↦ ok valid
    | failure is ↦ err "Runtime produced an invalid event."
  ]

  -- `proposals.map`, from an index on.
  unfoldable pub envelope_events :
      GameCommand Payload → (ℕ → OpaqueId) → ℕ → ℕ → List EventBody → Result (List GameEvent)
  envelope_events c ids first index [] = ok []
  envelope_events c ids first index (body ∷ bodies) = do
    e ← valid_event (enveloped c ids first index body)
    es ← envelope_events c ids first (index + 1) bodies
    ok (e ∷ es)

  -- `applyEvents`, with the message without the issues.
  abbrev pub applied : GameState → List GameEvent → Result GameState
  applied s events = elim (apply_events p.schema s events) [
    | success next ↦ ok next
    | failure is ↦ err "Event application failed."
  ]

  abbrev pub valid_transaction : TransactionRecord → Result TransactionRecord
  valid_transaction t = elim (validate_committed_transaction_record p.transaction_schema t) [
    | success valid ↦ ok valid
    | failure is ↦ err "Runtime produced an invalid transaction record."
  ]

  abbrev pub candidate_of :
      GameCommand Payload → ℕ → (now pre post : OpaqueId) (count : ℕ) → Verdict → TransactionRecord
  candidate_of c revision now pre post count v = record {
    campaign_id = c.campaign_id;
    command_id = c.command_id;
    command_hash = p.tagged_sha256 (p.canonical_json c);
    transaction_id = c.transaction_id;
    first_revision = revision + 1;
    last_revision = revision + count;
    event_count = count;
    pre_state_hash = pre;
    post_state_hash = post;
    committed_at = now;
    outcome = outcome_of v;
  }

  abbrev pub stored_of : GameCommand Payload → CommittedCommand → StoredCommand
  stored_of c commit = record {
    command_id = c.command_id;
    transaction_id = c.transaction_id;
    command_hash = p.tagged_sha256 (p.canonical_json c);
    command_canonical_json = p.canonical_json c;
    commit = commit;
  }

  abbrev pub input_of : GameCommand Payload → (pre post : OpaqueId) → CommittedCommand → CommitInput
  input_of c pre post commit = record {
    stored_command = stored_of c commit;
    pre_state_hash = pre;
    post_state_hash = post;
    post_state = commit.post_state;
    events = commit.events;
  }

  abbrev pub commit_of :
      GameCommand Payload → List GameEvent → GameState → TransactionRecord → CommittedCommand
  commit_of c events next t = record {
    command_canonical_json = p.canonical_json c;
    transaction = t;
    events = events;
    post_state = next;
  }

  -- `commitDecision` from the record of the transaction on.
  unfoldable pub commit_state :
      StoreData
      → GameCommand Payload
      → (revision : ℕ) → (now : OpaqueId) → Catalog
      → Verdict
      → (pre post : OpaqueId) → List GameEvent
      → GameState
      → Result (Draft CommittedCommand)
  unfolding allocate_decision_facts
  commit_state store c revision now catalog v pre post events next = do
    t ← valid_transaction (candidate_of c revision now pre post (length events) v)
    projected ←
        p.project next (revision + length events) catalog
          (allocate_decision_facts c).legal_action_id_for
    after ← commit_draft p.schema p.digest store (input_of c pre post (commit_of c events next t))
    ok (record { draft = after; value = commit_of c events next t })

  abbrev pub audited : GameCommand Payload → Verdict → List EventBody
  audited c v = proposals (kind_of c.body) (p.tagged_sha256 (p.canonical_json c)) v

  abbrev pub commit_events :
      StoreData
      → GameCommand Payload
      → CampaignHead
      → (now : OpaqueId) → Catalog
      → Verdict
      → (pre : OpaqueId) → List GameEvent
      → Result (Draft CommittedCommand)
  commit_events store c head now catalog v pre events = do
    next ← applied head.state events
    post ← hash_game_state p.schema p.digest next
    commit_state store c head.revision now catalog v pre post events next

  unfoldable pub commit_decision :
      StoreData
      → GameCommand Payload
      → CampaignHead
      → (now : OpaqueId) → Catalog
      → Verdict
      → Result (Draft CommittedCommand)
  unfolding allocate_decision_facts
  commit_decision store c head now catalog v = do
    pre ← hash_game_state p.schema p.digest head.state
    events ←
        envelope_events c (allocate_decision_facts c).event_id_for (head.revision + 1) 0
          (audited c v)
    commit_events store c head now catalog v pre events
