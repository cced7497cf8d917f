-- ===== src/Examples/Replays.antt =====
-- The theorems on replay at concrete inputs: a campaign with one transaction, and a snapshot of it.
use lldm.Prelude.{◌≡◌, refl, true, none, some, List, [], ◌∷◌, ok, find, filter}
use lldm.Contracts.Validation.{issues_of_each, duplicate_issues, duplicate_issues_from}
use lldm.Contracts.GameState.{GameState, validate_game_state, game_state_issues}
use lldm.Contracts.Transactions.{TransactionRecord, accepted_outcome}
use lldm.Contracts.Events.{
  GameEvent, party_scope, supply_resource, resource_changed, command_accepted,
}
use lldm.Engine.Apply.Characters.{apply_resource_changed}
use lldm.Engine.Apply.Reducer.{apply_body, apply_game_event}
use lldm.Runtime.Store.{hash_game_state}
use lldm.Runtime.Replay.{
  ReplayPlatform, Snapshot, History, apply_event, apply_each, apply_transaction, replay_from,
}
use lldm.Runtime.Replay.Campaigns.{
  create_empty_campaign_state, snapshot_source, ReplaySuccess, replay_success, last_revision_in,
  validate_snapshot, choose_start, replay_to_head, replay_stored, replay_sqlite_campaign,
  verify_full_and_snapshot_replay,
}
use lldm.Runtime.Replay.Verified.{
  Reached, replay_sqlite_campaign-Reached, FoldOfAll, verify-FoldOfAll,
}
use lldm.Examples.Fixtures.{no_checks}
use lldm.Examples.Commands.{at, texts}

abbrev platform : ReplayPlatform
platform = record {
  schema = no_checks;
  digest = λ s. s.party.supply;
  canonical_json = λ s. s.party.supply;
  identity_texts = texts;
}

abbrev gained : List GameEvent
gained =
    at 300 400 0 1 (command_accepted "change_resource" 2400)
    ∷ at 300 400 1 2 (
        resource_changed
          (record { owner = party_scope; resource = supply_resource; previous = 0; current = 1 }))
    ∷ []

abbrev gaining : TransactionRecord
gaining = record {
  campaign_id = 100;
  command_id = 400;
  command_hash = 2400;
  transaction_id = 300;
  first_revision = 1;
  last_revision = 2;
  event_count = 2;
  pre_state_hash = 0;
  post_state_hash = 1;
  committed_at = 600;
  outcome = accepted_outcome;
}

abbrev reached : GameState
reached = record {
  campaign_id = 100;
  content_manifest_hash = 101;
  session_number = 0;
  scene_id = none;
  party = record { supply = 1; supply_maximum = 2; characters = [] };
  pending_physical_checks = [];
  combat = none;
  challenges = [];
  social_states = [];
  rituals = [];
  permanent_scars = [];
  permanent_deaths = [];
}

abbrev snapshot : Snapshot
snapshot = record {
  campaign_id = 100;
  revision = 2;
  state_hash = 1;
  content_manifest_hash = 101;
  state = reached;
}

abbrev history : History
history = record {
  storage = ok (
      some (record {
        content_manifest_hash = 101;
        current_revision = 2;
        state_hash = 1;
        state_json = 1;
      }));
  transactions = ok (gaining ∷ []);
  events = ok gained;
  snapshots = ok (snapshot ∷ []);
}

abbrev from_snapshot : ReplaySuccess
from_snapshot = record {
  source = snapshot_source;
  fallback = none;
  campaign_id = 100;
  revision = 2;
  transaction_count = 1;
  event_count = 2;
  state_hash = 1;
  state = reached;
}

verified : verify_full_and_snapshot_replay platform 100 history ≡ replay_success from_snapshot
unfolding verify_full_and_snapshot_replay replay_sqlite_campaign replay_stored replay_to_head
    choose_start validate_snapshot create_empty_campaign_state replay_from apply_transaction
    apply_each apply_event apply_game_event apply_body apply_resource_changed hash_game_state
    validate_game_state game_state_issues issues_of_each duplicate_issues duplicate_issues_from
    last_revision_in find filter
verified = refl

verify-FoldOfAll_example :
    (s : GameState) × FoldOfAll platform 100 history s
    × (platform.canonical_json s ≡ platform.canonical_json from_snapshot.state)
verify-FoldOfAll_example = verify-FoldOfAll platform 100 history from_snapshot verified

replayed_from_snapshot :
    replay_sqlite_campaign platform 100 true history ≡ replay_success from_snapshot
unfolding replay_sqlite_campaign replay_stored replay_to_head choose_start validate_snapshot
    replay_from hash_game_state validate_game_state game_state_issues issues_of_each
    duplicate_issues duplicate_issues_from last_revision_in find
replayed_from_snapshot = refl

replay_sqlite_campaign-Reached_example : Reached platform 100 true history from_snapshot
replay_sqlite_campaign-Reached_example =
    replay_sqlite_campaign-Reached platform 100 true history from_snapshot replayed_from_snapshot
