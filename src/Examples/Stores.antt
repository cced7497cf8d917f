-- ===== src/Examples/Stores.antt =====
-- The theorems on the store at concrete inputs.
use lldm.Prelude.{ℕ, ◌≡◌, ◌≢◌, refl, false, some, List, [], ◌∷◌, ok, any, all, find, filter}
use lldm.Contracts.Combat.Battlefield.{
  zone_graph_issues, zone_issues, zone_by_id, visit, total_connections,
}
use lldm.Contracts.Combat.Validity.{combat_issues, participant_issues, capacity_issues, occupancy}
use lldm.Contracts.Validation.{issues_of_each, duplicate_issues, duplicate_issues_from}
use lldm.Contracts.Ids.{OpaqueId}
use lldm.Contracts.GameState.{GameState, validate_game_state, game_state_issues}
use lldm.Contracts.Challenges.{challenge_issues, expected_challenge_status}
use lldm.Contracts.Events.{EventBody, GameEvent, command_accepted}
use lldm.Contracts.Transactions.{accepted_outcome}
use lldm.Runtime.Store.{
  StoreData, CommitInput, StoredCommand, current, create_campaign, commit_draft, hash_game_state,
  set_campaign, events_follow, last_revision_of,
}
use lldm.Runtime.Store.Invariant.{StoreSound}
use lldm.Runtime.Store.Commits.{
  commit_draft-StoreSound, create_campaign-StoreSound, commit_draft-once,
}
use lldm.Runtime.Store.Undo.{
  UndoCandidate, undo_found, load_undo_candidate, sort_by_revision, insert_by_revision, LatestOf,
  commits_of, load_undo_candidate-LatestOf,
}
use lldm.Examples.Fixtures.{fight, campaign_with, no_checks, event}

abbrev state : GameState
state = campaign_with [] (fight (some 1) false)

-- A digest that tells states by their Supply.
abbrev digest : GameState → OpaqueId
digest s = s.party.supply

abbrev seed : List ℕ
seed =
    1 ∷ 2 ∷ 3 ∷ 4 ∷ 5 ∷ 6 ∷ 7 ∷ 8 ∷ 9 ∷ 10 ∷ 11 ∷ 12 ∷ 13 ∷ 14 ∷ 15 ∷ 16 ∷ 17 ∷ 18 ∷ 19 ∷ 20 ∷ 21
    ∷ 22 ∷ 23 ∷ 24 ∷ 25 ∷ 26 ∷ 27 ∷ 28 ∷ 29 ∷ 30 ∷ 31 ∷ 32 ∷ []

abbrev empty_store : StoreData
empty_store = record { readiness = current; campaigns = []; commands = []; transaction_ids = [] }

abbrev store_at : ℕ → List GameEvent → List StoredCommand → List OpaqueId → StoreData
store_at revision events commands transactions = record {
  readiness = current;
  campaigns =
      record {
        campaign_id = 100;
        revision = revision;
        state = state;
        state_hash = 2;
        seed = seed;
        events = events;
      }
      ∷ [];
  commands = commands;
  transaction_ids = transactions;
}

abbrev accepted : EventBody
accepted = command_accepted "resolve_check" 500

abbrev stored : StoredCommand
stored = record {
  command_id = 400;
  transaction_id = 300;
  command_hash = 500;
  command_canonical_json = 501;
  commit = record {
    command_canonical_json = 501;
    transaction = record {
      campaign_id = 100;
      command_id = 400;
      command_hash = 500;
      transaction_id = 300;
      first_revision = 1;
      last_revision = 1;
      event_count = 1;
      pre_state_hash = 2;
      post_state_hash = 2;
      committed_at = 600;
      outcome = accepted_outcome;
    };
    post_state = state;
    events = event 1 accepted ∷ [];
  };
}

abbrev commit : CommitInput
commit = record {
  stored_command = stored;
  pre_state_hash = 2;
  post_state_hash = 2;
  post_state = state;
  events = event 1 accepted ∷ [];
}

abbrev created : StoreData
created = store_at 0 [] [] []

abbrev committed : StoreData
committed = store_at 1 (event 1 accepted ∷ []) (stored ∷ []) (300 ∷ [])

state_valid : hash_game_state no_checks digest state ≡ ok 2
unfolding hash_game_state validate_game_state game_state_issues combat_issues zone_graph_issues
    zone_issues zone_by_id visit total_connections participant_issues capacity_issues occupancy
    issues_of_each duplicate_issues duplicate_issues_from challenge_issues expected_challenge_status
    find filter any all
state_valid = refl

empty_store_sound : StoreSound digest empty_store
empty_store_sound = record {
  campaigns_sound = tt;
  commands_distinct = tt;
  transactions_distinct = tt;
}

campaign_created : create_campaign no_checks digest empty_store state seed ≡ ok created
unfolding create_campaign set_campaign hash_game_state validate_game_state game_state_issues
    combat_issues zone_graph_issues zone_issues zone_by_id visit total_connections
    participant_issues capacity_issues occupancy issues_of_each duplicate_issues
    duplicate_issues_from challenge_issues expected_challenge_status find filter any all
campaign_created = refl

command_committed : commit_draft no_checks digest created commit ≡ ok committed
unfolding commit_draft set_campaign hash_game_state validate_game_state game_state_issues
    combat_issues zone_graph_issues zone_issues zone_by_id visit total_connections
    participant_issues capacity_issues occupancy issues_of_each duplicate_issues
    duplicate_issues_from challenge_issues expected_challenge_status find filter any all
    events_follow last_revision_of
command_committed = refl

created_sound : StoreSound digest created
created_sound =
    create_campaign-StoreSound no_checks digest empty_store created state seed empty_store_sound
      campaign_created

create_campaign-StoreSound_example : StoreSound digest created
create_campaign-StoreSound_example =
    create_campaign-StoreSound no_checks digest empty_store created state seed empty_store_sound
      campaign_created

commit_draft-StoreSound_example : StoreSound digest committed
commit_draft-StoreSound_example =
    commit_draft-StoreSound no_checks digest created committed commit created_sound
      command_committed

commit_draft-once_example : commit_draft no_checks digest committed commit ≢ ok committed
commit_draft-once_example =
    commit_draft-once no_checks digest created committed committed commit commit command_committed
      refl

abbrev spent : StoredCommand
spent = record stored {
  commit = record (stored.commit) {
    transaction = record (stored.commit.transaction) { post_state_hash = 1 };
  };
}

abbrev candidate : UndoCandidate
candidate = record {
  transaction = spent.commit.transaction;
  events = spent.commit.events;
  already_compensated = false;
}

spent_found :
    load_undo_candidate
      (store_at 1 (event 1 accepted ∷ []) (stored ∷ spent ∷ []) (300 ∷ []))
      100
      (some 300)
    ≡ undo_found candidate
unfolding load_undo_candidate sort_by_revision insert_by_revision filter any
spent_found = refl

load_undo_candidate-LatestOf_example :
    LatestOf
      (some 300)
      (commits_of (store_at 1 (event 1 accepted ∷ []) (stored ∷ spent ∷ []) (300 ∷ [])) 100)
      candidate
load_undo_candidate-LatestOf_example =
    load_undo_candidate-LatestOf
      (store_at 1 (event 1 accepted ∷ []) (stored ∷ spent ∷ []) (300 ∷ [])) 100 (some 300) candidate
      spent_found
