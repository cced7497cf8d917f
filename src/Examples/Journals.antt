-- ===== src/Examples/Journals.antt =====
-- The coordinator and the replay together at concrete inputs: a command and its undo.
use lldm.Prelude.{
  ℕ, ◌≡◌, refl, true, false, some, none, List, [], ◌∷◌, ◌++◌, find, filter, any, ◌==◌, Bool-cases,
  inl, inr, arith,
}
use mathlib.Core.Path.{subst⁻¹}
use lldm.Contracts.Ids.{OpaqueId}
use lldm.Contracts.Validation.{issues_of_each, duplicate_issues, duplicate_issues_from}
use lldm.Contracts.GameState.{GameState, validate_game_state, game_state_issues}
use lldm.Contracts.Transactions.{transaction_record_issues, validate_committed_transaction_record}
use lldm.Engine.Apply.Characters.{apply_resource_changed}
use lldm.Engine.Apply.Reducer.{apply_body, apply_game_event, apply_events}
use lldm.Engine.Compensation.{
  plan_transaction_compensation, plan_reversed, classify_event_for_undo, inverse_event,
}
use lldm.Runtime.Ports.{GameCommand}
use lldm.Runtime.Store.{
  Campaign, is_campaign, hash_game_state, commit_draft, transact, set_campaign, events_follow,
  last_revision_of,
}
use lldm.Runtime.Store.Undo.{load_undo_candidate, sort_by_revision, insert_by_revision}
use lldm.Runtime.Commitment.{
  allocate_decision_facts, envelope_events, commit_state, commit_decision,
}
use lldm.Runtime.Coordinator.{
  concluded, decided, verdict_on, verdict_on_undo, submit_with, submit_to, submit_new, submit_found,
  submit,
}
use lldm.Runtime.Coordinator.Entries.{platform_of, IsDeterministic}
use lldm.Runtime.Coordinator.Histories.{transactions_in}
use lldm.Runtime.Coordinator.Journals.{JournalOf, StoreJournaled, submit_all, submit_all-replays}
use lldm.Runtime.Replay.{replayed, replay_from}
use lldm.Runtime.Replay.Journal.{opens}
use lldm.Examples.Commands.{calm, texts, ports, spend, undo, fresh, spent_events, undone}

abbrev canonical : GameState → OpaqueId
canonical s = s.party.supply

abbrev initial : OpaqueId → GameState
initial id = calm 2

abbrev fresh_campaign : Campaign
fresh_campaign = record {
  campaign_id = 100;
  revision = 0;
  state = calm 2;
  state_hash = 2;
  seed = [];
  events = [];
}

here :
    (id : OpaqueId)
    → (100 == id) ≡ true
    → find (is_campaign id) fresh.campaigns ≡ some fresh_campaign
unfolding find
here id b = ground (arith, b)

elsewhere : (id : OpaqueId) → (100 == id) ≡ false → find (is_campaign id) fresh.campaigns ≡ none
unfolding find
elsewhere id b = ground (arith, b)

fresh_journaled : StoreJournaled ports canonical texts initial fresh
unfolding filter
fresh_journaled = record {
  journals = λ id. elim (Bool-cases (100 == id)) [
    | inl b ↦ subst⁻¹ (JournalOf ports canonical texts initial id []) (here id b) opens
    | inr b ↦ subst⁻¹ (JournalOf ports canonical texts initial id []) (elsewhere id b) tt
  ];
  named = λ id h. h;
}

same_ids : IsDeterministic ports canonical texts
same_ids transaction index = refl

abbrev submissions : List (OpaqueId × GameCommand ℕ)
submissions = (600, spend) ∷ (600, undo) ∷ []

abbrev final_campaign : Campaign
final_campaign = record {
  campaign_id = 100;
  revision = 5;
  state = calm 2;
  state_hash = 2;
  seed = [];
  events = spent_events ++ undone.events;
}

final_found :
    find (is_campaign 100) (submit_all ports fresh submissions).campaigns ≡ some final_campaign
unfolding submit_all submit transact submit_found submit_new submit_to submit_with verdict_on
    verdict_on_undo decided load_undo_candidate sort_by_revision insert_by_revision
    plan_transaction_compensation plan_reversed classify_event_for_undo inverse_event concluded
    commit_decision commit_state envelope_events allocate_decision_facts commit_draft set_campaign
    events_follow last_revision_of hash_game_state validate_game_state game_state_issues
    issues_of_each duplicate_issues duplicate_issues_from validate_committed_transaction_record
    transaction_record_issues apply_events apply_game_event apply_body apply_resource_changed find
    filter any
final_found = refl

submit_all-replays_example :
    replay_from
      (platform_of ports canonical texts)
      100
      0
      (spent_events ++ undone.events)
      (calm 2)
      0
      (transactions_in 100 (submit_all ports fresh submissions).commands)
    ≡ replayed (calm 2)
submit_all-replays_example =
    submit_all-replays ports canonical texts initial same_ids fresh submissions 100 final_campaign
      fresh_journaled final_found
