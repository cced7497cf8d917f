-- ===== src/Runtime/Replay.antt =====
-- packages/runtime/src/application/replay.ts: the replay of a campaign from its stored transactions,
-- from the beginning or from a snapshot. What the store is asked for is the record `History`, where a
-- reader that throws is an error. A diagnostic is kept without its `expected` and
-- `actual` values, and its text without the kind of an event.
pub mod Campaigns
pub mod Folds
pub mod Transactions
pub mod Journal
pub mod Verified
use lldm.Prelude.{
  ℕ, ◌+◌, String, Bool, true, false, not, ◌&&◌, ◌||◌, Option, none, some, List, [], ◌∷◌, length,
  find, filter, ◌==◌, leb, ltb, if◌then◌else◌, Result, ok, err,
}
use lldm.Contracts.Ids.{OpaqueId}
use lldm.Contracts.Validation.{ValidationResult, success, failure}
use lldm.Contracts.GameState.{GameState, SchemaChecks}
use lldm.Contracts.Transactions.{TransactionRecord, is_rejected}
use lldm.Contracts.Events.{EventBody, GameEvent, command_accepted, command_rejected}
use lldm.Engine.Apply.Reducer.{apply_game_event}
use lldm.Runtime.Identities.{IdentityTexts, deterministic_identity_port, event_id_from}
use lldm.Runtime.Store.{hash_game_state}

pub record ReplayDiagnostic : Type 0 where
  pub code : String
  pub safe_detail : String
  pub campaign_id : OpaqueId
  pub transaction_id : Option OpaqueId
  pub revision : Option ℕ

-- A value, a `ReplayMismatch`, or another exception.
pub data Replayed {ℓ} (A : Type ℓ) : Type ℓ where
  replayed : A → Replayed A
  mismatched : ReplayDiagnostic → Replayed A
  thrown : Replayed A

infixl 5 ◌>>=◌
abbrev pub ◌>>=◌ {ℓ κ} : {A : Type ℓ} {B : Type κ} → Replayed A → (A → Replayed B) → Replayed B
replayed a >>= step = step a
mismatched d >>= step = mismatched d
thrown >>= step = thrown

infixl 5 ◌>>◌
abbrev pub ◌>>◌ {κ} : {B : Type κ} → Replayed (Unit {0}) → Replayed B → Replayed B
test >> after = test >>= λ done. after

-- `if (!test) mismatch(campaignId, ...)`.
abbrev pub expect : Bool → ReplayDiagnostic → Replayed (Unit {0})
expect true d = replayed tt
expect false d = mismatched d

abbrev pub or_thrown {ℓ} : {A : Type ℓ} → Result A → Replayed A
or_thrown (ok a) = replayed a
or_thrown (err message) = thrown

abbrev pub diagnostic : OpaqueId → String → String → Option OpaqueId → Option ℕ → ReplayDiagnostic
diagnostic campaign code detail transaction revision = record {
  code = code;
  safe_detail = detail;
  campaign_id = campaign;
  transaction_id = transaction;
  revision = revision;
}

-- What the replay calls: the schemas, the digest of a state, its canonical text, and the texts of
-- the deterministic identities.
pub record ReplayPlatform : Type 0 where
  pub schema : SchemaChecks
  pub digest : GameState → OpaqueId
  pub canonical_json : GameState → OpaqueId
  pub identity_texts : IdentityTexts

pub record Snapshot : Type 0 where
  pub campaign_id : OpaqueId
  pub revision : ℕ
  pub state_hash : OpaqueId
  pub content_manifest_hash : OpaqueId
  pub state : GameState

pub record CampaignStorage : Type 0 where
  pub content_manifest_hash : OpaqueId
  pub current_revision : ℕ
  pub state_hash : OpaqueId
  pub state_json : OpaqueId

pub record History : Type 0 where
  pub storage : Result (Option CampaignStorage)
  pub transactions : Result (List TransactionRecord)
  pub events : Result (List GameEvent)
  pub snapshots : Result (List Snapshot)

-- The kind and the hash of the event that a transaction begins with.
abbrev pub audit_matches : TransactionRecord → EventBody → Bool
audit_matches t (command_accepted kind hash) = not (is_rejected t.outcome) && hash == t.command_hash
audit_matches t (command_rejected kind hash code detail) =
    is_rejected t.outcome && hash == t.command_hash
audit_matches t _ = false

abbrev pub events_of : OpaqueId → List GameEvent → List GameEvent
events_of id = filter (λ e. e.transaction_id == id)

module _ (p : ReplayPlatform) (campaign : OpaqueId) where
  abbrev pub identity_matches : TransactionRecord → ℕ → GameEvent → Bool
  identity_matches t index e =
      e.stream_revision == t.first_revision + index
      && e.transaction_index == index
      && e.transaction_id == t.transaction_id
      && e.caused_by_command_id == t.command_id
      && e.campaign_id == campaign
      && e.event_id
        == event_id_from (deterministic_identity_port p.identity_texts) t.transaction_id index

  abbrev pub accepted_by_reducer :
      TransactionRecord → ℕ → ValidationResult GameState → Replayed GameState
  accepted_by_reducer t index (success next) = replayed next
  accepted_by_reducer t index (failure is) = mismatched (
      diagnostic campaign "replay.event_application_failed"
        "An event failed authoritative application." (some t.transaction_id)
        (some (t.first_revision + index)))

  -- The body of `input.events.forEach`.
  unfoldable pub apply_event : TransactionRecord → ℕ → GameState → GameEvent → Replayed GameState
  apply_event t index s e = do
    expect (identity_matches t index e) (
        diagnostic campaign "replay.event_identity_mismatch"
          "Event ordering, causation, or identity is invalid." (some t.transaction_id)
          (some (t.first_revision + index)))
    expect (not (index == 0) || audit_matches t e.body) (
        diagnostic campaign "replay.command_audit_mismatch"
          "Transaction command audit event is invalid." (some t.transaction_id)
          (some (t.first_revision + index)))
    accepted_by_reducer t index (apply_game_event p.schema s e)

  unfoldable pub apply_each :
      TransactionRecord → ℕ → GameState → List GameEvent → Replayed GameState
  apply_each t index s [] = replayed s
  apply_each t index s (e ∷ es) = do
    next ← apply_event t index s e
    apply_each t (index + 1) next es

  unfoldable pub apply_transaction :
      GameState → (expected_revision : ℕ) → TransactionRecord → List GameEvent → Replayed GameState
  apply_transaction s expected t events = do
    expect (t.first_revision == expected + 1) (
        diagnostic campaign "replay.revision_gap" "Transaction history contains a revision gap."
          (some t.transaction_id) (some t.first_revision))
    expect (length events == t.event_count) (
        diagnostic campaign "replay.event_count_mismatch"
          "Transaction event count does not match stored events." (some t.transaction_id)
          (some t.first_revision))
    pre ← or_thrown (hash_game_state p.schema p.digest s)
    expect (pre == t.pre_state_hash) (
        diagnostic campaign "replay.pre_state_hash_mismatch"
          "Transaction pre-state hash diverges from replay." (some t.transaction_id)
          (some t.first_revision))
    next ← apply_each t 0 s events
    post ← or_thrown (hash_game_state p.schema p.digest next)
    expect (post == t.post_state_hash) (
        diagnostic campaign "replay.post_state_hash_mismatch"
          "Transaction post-state hash diverges from replay." (some t.transaction_id)
          (some t.last_revision))
    replayed next

  -- The loop of `replayFrom`, with the initial revision and all events.
  unfoldable pub replay_from :
      (initial : ℕ) → List GameEvent → GameState → ℕ → List TransactionRecord → Replayed GameState
  replay_from initial events s revision [] = replayed s
  replay_from initial events s revision (t ∷ ts) = elim (leb t.last_revision initial) [
    | true ↦ replay_from initial events s revision ts
    | false ↦ elim (leb t.first_revision initial) [
      | true ↦ mismatched (
          diagnostic campaign "replay.snapshot_transaction_boundary"
            "Snapshot revision splits a transaction." (some t.transaction_id) (some initial))
      | false ↦ apply_transaction s revision t (events_of t.transaction_id events) >>= λ next.
          replay_from initial events next t.last_revision ts
    ]
  ]
