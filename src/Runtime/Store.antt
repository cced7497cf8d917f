-- ===== src/Runtime/Store.antt =====
-- packages/runtime/src/application/in-memory-store.ts: campaigns, the commands that were committed
-- and the transaction on a draft, with the records of packages/runtime/src/ports/index.ts. Commands
-- and projections, which the store only carries, are left out of the records; a canonical text or a
-- hash, which the program only compares, is a number.
pub mod Numbering
pub mod Invariant
pub mod Commits
pub mod Accepts
pub mod Campaigns
pub mod Undo
use lldm.Prelude.{
  ℕ, zero, suc, ◌+◌, String, Bool, true, false, not, ◌&&◌, ◌||◌, Option, none, some, List, [], ◌∷◌,
  ◌++◌, map, filter, find, any, includes, length, ◌==◌, ltb, if◌then◌else◌, is_some, Result, ok,
  err, ◌>>=◌, ◌>>◌, guard, refuse_if, require,
}
use lldm.Contracts.Ids.{OpaqueId}
use lldm.Contracts.Validation.{ValidationResult, success, failure}
use lldm.Contracts.GameState.{GameState, SchemaChecks, validate_game_state}
use lldm.Contracts.Events.{GameEvent}
use lldm.Contracts.Transactions.{TransactionRecord}

pub record CommittedCommand : Type 0 where
  pub command_canonical_json : OpaqueId
  pub transaction : TransactionRecord
  pub events : List GameEvent
  pub post_state : GameState

pub record StoredCommand : Type 0 where
  pub command_id : OpaqueId
  pub transaction_id : OpaqueId
  pub command_hash : OpaqueId
  pub command_canonical_json : OpaqueId
  pub commit : CommittedCommand

pub record CommitInput : Type 0 where
  pub stored_command : StoredCommand
  pub pre_state_hash : OpaqueId
  pub post_state_hash : OpaqueId
  pub post_state : GameState
  pub events : List GameEvent

pub record Campaign : Type 0 where
  pub campaign_id : OpaqueId
  pub revision : ℕ
  pub state : GameState
  pub state_hash : OpaqueId
  pub seed : List ℕ
  pub events : List GameEvent

pub data Readiness : Type 0 where
  current : Readiness
  migration_required incompatible recovery_required : String → Readiness

-- The maps as lists of their values, each under the identifier that it carries.
pub record StoreData : Type 0 where
  pub readiness : Readiness
  pub campaigns : List Campaign
  pub commands : List StoredCommand
  pub transaction_ids : List OpaqueId

abbrev pub is_campaign : OpaqueId → Campaign → Bool
is_campaign id c = c.campaign_id == id

abbrev pub is_command : OpaqueId → StoredCommand → Bool
is_command id c = c.command_id == id

abbrev pub set_readiness : Readiness → StoreData → StoreData
set_readiness readiness store = record store { readiness = readiness }

abbrev pub inspect_campaign : OpaqueId → StoreData → Option Campaign
inspect_campaign id store = find (is_campaign id) store.campaigns

abbrev pub inspect_command : OpaqueId → StoreData → Option StoredCommand
inspect_command id store = find (is_command id) store.commands

-- `campaigns.set(campaign.campaign_id, campaign)`.
unfoldable pub set_campaign : Campaign → List Campaign → List Campaign
set_campaign new [] = new ∷ []
set_campaign new (c ∷ cs) =
    let rest = c ∷ set_campaign new cs in
    if c.campaign_id == new.campaign_id then new ∷ cs else rest

-- `hashGameState`, with the tagged digest of the canonical text of a valid state.
unfoldable pub hash_game_state : SchemaChecks → (GameState → OpaqueId) → GameState → Result OpaqueId
hash_game_state schema digest s = elim (validate_game_state schema s) [
  | failure is ↦ err "Mechanical state failed canonical hash validation."
  | success valid ↦ ok (digest valid)
]

abbrev pub valid_state : ValidationResult GameState → Result GameState
valid_state (success s) = ok s
valid_state (failure is) = err "In-memory campaign state is invalid."

unfoldable pub create_campaign :
    SchemaChecks → (GameState → OpaqueId) → StoreData → GameState → List ℕ → Result StoreData
create_campaign schema digest store state seed = do
  valid ← valid_state (validate_game_state schema state)
  guard (length seed == 32) "In-memory campaign seed must contain 32 bytes."
  refuse_if (is_some (find (is_campaign state.campaign_id) store.campaigns))
      "In-memory campaign already exists."
  hash ← hash_game_state schema digest valid
  let created : Campaign = record {
    campaign_id = state.campaign_id;
    revision = 0;
    state = valid;
    state_hash = hash;
    seed = seed;
    events = [];
  }
  ok (record store { campaigns = set_campaign created store.campaigns })

-- The loop over the events of a commit, from an index on.
unfoldable pub events_follow : TransactionRecord → ℕ → ℕ → List GameEvent → Bool
events_follow t revision index [] = true
events_follow t revision index (e ∷ es) =
    e.stream_revision == revision + index + 1
    && e.transaction_index == index
    && e.transaction_id == t.transaction_id
    && e.caused_by_command_id == t.command_id
    && events_follow t revision (index + 1) es

abbrev pub first_revision : List GameEvent → Option ℕ
first_revision [] = none
first_revision (e ∷ es) = some e.stream_revision

unfoldable pub last_revision_of : List GameEvent → Option ℕ
last_revision_of [] = none
last_revision_of (e ∷ []) = some e.stream_revision
last_revision_of (e ∷ f ∷ es) = last_revision_of (f ∷ es)

abbrev pub is_revision : ℕ → Option ℕ → Bool
is_revision n none = false
is_revision n (some m) = m == n

abbrev pub advanced : Campaign → CommitInput → Campaign
advanced c input = record c {
  revision = input.stored_command.commit.transaction.last_revision;
  state = input.post_state;
  state_hash = input.post_state_hash;
  events = c.events ++ input.events;
}

unfoldable pub commit_draft :
    SchemaChecks → (GameState → OpaqueId) → StoreData → CommitInput → Result StoreData
commit_draft schema digest draft input = do
  let transaction = input.stored_command.commit.transaction
  c ←
      require (find (is_campaign transaction.campaign_id) draft.campaigns)
        "Commit campaign is missing."
  refuse_if
      (is_some (find (is_command input.stored_command.command_id) draft.commands)
        || includes input.stored_command.transaction_id draft.transaction_ids)
      "Commit identity is already occupied."
  guard
      (c.state_hash == input.pre_state_hash
        && transaction.pre_state_hash == input.pre_state_hash
        && transaction.post_state_hash == input.post_state_hash)
      "Commit state hash does not match the campaign head."
  guard
      (length input.events == transaction.event_count
        && is_revision (c.revision + 1) (first_revision input.events)
        && is_revision transaction.last_revision (last_revision_of input.events))
      "Commit events do not form the next contiguous range."
  guard (events_follow transaction c.revision 0 input.events)
      "Commit event identity or ordering is invalid."
  hash ← hash_game_state schema digest input.post_state
  guard (hash == input.post_state_hash) "Commit post-state hash is invalid."
  ok (record draft {
    campaigns = set_campaign (advanced c input) draft.campaigns;
    commands = draft.commands ++ input.stored_command ∷ [];
    transaction_ids = draft.transaction_ids ++ input.stored_command.transaction_id ∷ [];
  })

-- `transact`: an operation on a draft, which takes the place of the data unless it throws.
pub record Transacted (A : Type 0) : Type 0 where
  pub data_after : StoreData
  pub outcome : Result A

pub record Draft (A : Type 0) : Type 0 where
  pub draft : StoreData
  pub value : A

unfoldable pub transact : {A : Type 0} → StoreData → (StoreData → Result (Draft A)) → Transacted A
transact store operation = elim (operation store) [
  | ok d ↦ record { data_after = d.draft; outcome = ok d.value }
  | err message ↦ record { data_after = store; outcome = err message }
]
