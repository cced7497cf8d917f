-- ===== src/Runtime/Replay/Campaigns.antt =====
-- packages/runtime/src/application/replay.ts: the replay of a stored campaign, from a snapshot or in
-- full, and the comparison of the two; createEmptyCampaignState of packages/engine/src/state.ts.
use lldm.Prelude.{
  ℕ, Bool, true, false, not, ◌&&◌, ◌||◌, Option, none, some, List, [], ◌∷◌, length, find, ◌==◌, ltb,
  if◌then◌else◌, Result, ok, err,
}
use lldm.Contracts.Ids.{OpaqueId}
use lldm.Contracts.GameState.{GameState}
use lldm.Contracts.Transactions.{TransactionRecord}
use lldm.Contracts.Events.{GameEvent}
use lldm.Runtime.Store.{hash_game_state}
use lldm.Runtime.Replay.{
  ReplayDiagnostic, diagnostic, Replayed, replayed, mismatched, thrown, ◌>>=◌, ◌>>◌, expect,
  or_thrown, ReplayPlatform, Snapshot, CampaignStorage, History, replay_from,
}

unfoldable pub create_empty_campaign_state : OpaqueId → OpaqueId → GameState
create_empty_campaign_state campaign manifest = record {
  campaign_id = campaign;
  content_manifest_hash = manifest;
  session_number = 0;
  scene_id = none;
  party = record { supply = 0; supply_maximum = 2; characters = [] };
  pending_physical_checks = [];
  combat = none;
  challenges = [];
  social_states = [];
  rituals = [];
  permanent_scars = [];
  permanent_deaths = [];
}

pub data ReplaySource : Type 0 where
  full_source snapshot_source : ReplaySource

-- Where a replay begins.
pub record ReplayStart : Type 0 where
  pub source : ReplaySource
  pub fallback : Option ReplayDiagnostic
  pub state : GameState
  pub revision : ℕ

pub record ReplaySuccess : Type 0 where
  pub source : ReplaySource
  pub fallback : Option ReplayDiagnostic
  pub campaign_id : OpaqueId
  pub revision : ℕ
  pub transaction_count : ℕ
  pub event_count : ℕ
  pub state_hash : OpaqueId
  pub state : GameState

pub data ReplayResult : Type 0 where
  replay_success : ReplaySuccess → ReplayResult
  replay_failure : ReplayDiagnostic → ReplayResult

-- `transactions.at(-1)?.last_revision ?? 0`.
unfoldable pub last_revision_in : List TransactionRecord → ℕ
last_revision_in [] = 0
last_revision_in (t ∷ []) = t.last_revision
last_revision_in (t ∷ u ∷ ts) = last_revision_in (u ∷ ts)

abbrev is_boundary : Option TransactionRecord → OpaqueId → Bool
is_boundary none hash = false
is_boundary (some t) hash = t.post_state_hash == hash

module _ (p : ReplayPlatform) (campaign : OpaqueId) where
  unfoldable pub validate_snapshot :
      Snapshot → (manifest : OpaqueId) → List TransactionRecord → Replayed (Unit {0})
  validate_snapshot s manifest transactions = do
    expect
        (s.campaign_id == campaign
          && s.state.campaign_id == campaign
          && s.content_manifest_hash == manifest
          && s.state.content_manifest_hash == manifest)
        (diagnostic campaign "snapshot.identity_mismatch"
          "Snapshot campaign or manifest identity is invalid." none (some s.revision))
    hash ← or_thrown (hash_game_state p.schema p.digest s.state)
    expect (hash == s.state_hash) (
        diagnostic campaign "snapshot.state_hash_mismatch" "Snapshot state hash is invalid." none
          (some s.revision))
    expect
        (not (ltb 0 s.revision)
          || is_boundary (find (λ t. t.last_revision == s.revision) transactions) s.state_hash)
        (diagnostic campaign "snapshot.boundary_mismatch"
          "Snapshot does not match a transaction boundary." none (some s.revision))

  abbrev pub from_empty : (manifest : OpaqueId) → Option ReplayDiagnostic → ReplayStart
  from_empty manifest fallback = record {
    source = full_source;
    fallback = fallback;
    state = create_empty_campaign_state campaign manifest;
    revision = 0;
  }

  -- The `catch` around the validation of a snapshot.
  abbrev start_after : (manifest : OpaqueId) → Snapshot → Replayed (Unit {0}) → ReplayStart
  start_after manifest s (replayed done) = record {
    source = snapshot_source;
    fallback = none;
    state = s.state;
    revision = s.revision;
  }
  start_after manifest s (mismatched d) = from_empty manifest (some d)
  start_after manifest s thrown = from_empty manifest (
      some (
        diagnostic campaign "snapshot.validation_failed"
          "Stored snapshot was invalid; verified full replay was used." none none))

  abbrev start_from :
      (manifest : OpaqueId) → List TransactionRecord → Result (List Snapshot) → ReplayStart
  start_from manifest transactions (ok []) = from_empty manifest none
  start_from manifest transactions (ok (s ∷ rest)) =
      start_after manifest s (validate_snapshot s manifest transactions)
  start_from manifest transactions (err message) = from_empty manifest (
      some (
        diagnostic campaign "snapshot.validation_failed"
          "Stored snapshot was invalid; verified full replay was used." none none))

  unfoldable pub choose_start :
      (prefer_snapshot : Bool)
      → (manifest : OpaqueId) → List TransactionRecord
      → Result (List Snapshot)
      → ReplayStart
  unfolding create_empty_campaign_state
  choose_start true manifest transactions snapshots = start_from manifest transactions snapshots
  choose_start false manifest transactions snapshots = from_empty manifest none

  abbrev head_mismatch : ℕ → ReplayDiagnostic
  head_mismatch revision =
      diagnostic campaign "replay.campaign_head_mismatch"
        "Replayed state does not match the stored campaign head." none (some revision)

  -- The replay from its start to the comparison with the stored head.
  unfoldable pub replay_to_head :
      CampaignStorage
      → List TransactionRecord
      → List GameEvent
      → ReplayStart
      → Replayed ReplaySuccess
  replay_to_head stored transactions events start = do
    s ← replay_from p campaign start.revision events start.state start.revision transactions
    hash ← or_thrown (hash_game_state p.schema p.digest s)
    expect
        (last_revision_in transactions == stored.current_revision
          && hash == stored.state_hash
          && p.canonical_json s == stored.state_json)
        (head_mismatch (last_revision_in transactions))
    replayed (record {
      source = start.source;
      fallback = start.fallback;
      campaign_id = campaign;
      revision = last_revision_in transactions;
      transaction_count = length transactions;
      event_count = length events;
      state_hash = hash;
      state = s;
    })

  abbrev require_campaign : Option CampaignStorage → Replayed CampaignStorage
  require_campaign (some stored) = replayed stored
  require_campaign none =
      mismatched
        (diagnostic campaign "replay.campaign_missing" "Campaign does not exist." none none)

  unfoldable pub replay_stored : (prefer_snapshot : Bool) → History → Replayed ReplaySuccess
  replay_stored prefer history = do
    found ← or_thrown history.storage
    stored ← require_campaign found
    transactions ← or_thrown history.transactions
    events ← or_thrown history.events
    replay_to_head stored transactions events
        (choose_start prefer stored.content_manifest_hash transactions history.snapshots)

  -- The outer `catch`.
  abbrev pub settle_replay : Replayed ReplaySuccess → ReplayResult
  settle_replay (replayed r) = replay_success r
  settle_replay (mismatched d) = replay_failure d
  settle_replay thrown = replay_failure (
      diagnostic campaign "replay.storage_validation_failed"
        "Stored canonical history failed schema or relationship validation." none none)

  unfoldable pub replay_sqlite_campaign : (prefer_snapshot : Bool) → History → ReplayResult
  replay_sqlite_campaign prefer history = settle_replay (replay_stored prefer history)

  abbrev compare_paths : ReplaySuccess → ReplayResult → ReplayResult
  compare_paths full (replay_failure d) = replay_failure d
  compare_paths full (replay_success accelerated) =
      if not (full.state_hash == accelerated.state_hash)
        || not (p.canonical_json full.state == p.canonical_json accelerated.state)
      then replay_failure (
          diagnostic campaign "replay.path_divergence" "Full and snapshot replay paths diverged."
            none (some full.revision))
      else replay_success accelerated

  abbrev verify_after : ReplayResult → History → ReplayResult
  verify_after (replay_failure d) history = replay_failure d
  verify_after (replay_success full) history =
      compare_paths full (replay_sqlite_campaign true history)

  unfoldable pub verify_full_and_snapshot_replay : History → ReplayResult
  verify_full_and_snapshot_replay history =
      verify_after (replay_sqlite_campaign false history) history
