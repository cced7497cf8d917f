-- ===== src/Runtime/Store/Accepts.antt =====
-- When `#commitDraft` of packages/runtime/src/application/in-memory-store.ts succeeds.
use lldm.Prelude.{
  ◌+◌, ◌≡◌, arith, true, false, none, some, [], ◌∷◌, ◌++◌, length, find, includes, ok,
}
use lldm.Contracts.Ids.{OpaqueId}
use lldm.Contracts.GameState.{GameState, SchemaChecks}
use lldm.Runtime.Store.{
  StoreData, Campaign, CommitInput, is_campaign, is_command, hash_game_state, commit_draft,
  events_follow, first_revision, last_revision_of, advanced, set_campaign,
}

-- A commit that passes the tests, one after the other.
pub commit_draft-accepts :
    (schema : SchemaChecks) (digest : GameState → OpaqueId) (draft : StoreData)
    (input : CommitInput) (c : Campaign)
    → find (is_campaign input.stored_command.commit.transaction.campaign_id) draft.campaigns
      ≡ some c
    → find (is_command input.stored_command.command_id) draft.commands ≡ none
    → includes input.stored_command.transaction_id draft.transaction_ids ≡ false
    → c.state_hash ≡ input.pre_state_hash
    → input.stored_command.commit.transaction.pre_state_hash ≡ input.pre_state_hash
    → input.stored_command.commit.transaction.post_state_hash ≡ input.post_state_hash
    → length input.events ≡ input.stored_command.commit.transaction.event_count
    → first_revision input.events ≡ some (c.revision + 1)
    → last_revision_of input.events ≡ some input.stored_command.commit.transaction.last_revision
    → events_follow input.stored_command.commit.transaction c.revision 0 input.events ≡ true
    → hash_game_state schema digest input.post_state ≡ ok input.post_state_hash
    → commit_draft schema digest draft input
      ≡ ok (record draft {
        campaigns = set_campaign (advanced c input) draft.campaigns;
        commands = draft.commands ++ input.stored_command ∷ [];
        transaction_ids = draft.transaction_ids ++ input.stored_command.transaction_id ∷ [];
      })
unfolding commit_draft
commit_draft-accepts schema digest draft input c q1 q2 q3 q4 q5 q6 q7 q8 q9 q10 q11 =
    ground (arith, q1, q2, q3, q4, q5, q6, q7, q8, q9, q10, q11)
