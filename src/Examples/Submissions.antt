-- ===== src/Examples/Submissions.antt =====
-- The theorems on the coordinator at concrete inputs.
use lldm.Prelude.{◌≡◌, refl, ap, none, some, [], ◌∷◌, any, find, filter, ok, ◌==◌}
use lldm.Contracts.Validation.{success, issues_of_each, duplicate_issues, duplicate_issues_from}
use lldm.Contracts.GameState.{validate_game_state, game_state_issues}
use lldm.Contracts.Transactions.{transaction_record_issues, validate_committed_transaction_record}
use lldm.Engine.Apply.Characters.{apply_resource_changed}
use lldm.Engine.Apply.Reducer.{apply_body, apply_game_event, apply_events}
use lldm.Engine.Compensation.{
  plan_transaction_compensation, plan_reversed, classify_event_for_undo, inverse_event,
}
use lldm.Engine.Compensation.Transactions.{RestorableAlong}
use lldm.Runtime.Store.{
  CommittedCommand, hash_game_state, commit_draft, transact, set_campaign, events_follow,
  last_revision_of,
}
use lldm.Runtime.Store.Invariant.{StoreSound, AllCampaigns}
use lldm.Runtime.Store.Numbering.{numbered}
use lldm.Runtime.Store.Undo.{
  CampaignHead, undo_found, load_campaign, load_undo_candidate, sort_by_revision,
  insert_by_revision,
}
use lldm.Runtime.Commitment.{
  allocate_decision_facts, envelope_events, commit_state, commit_decision, accepting,
}
use lldm.Runtime.Commitment.Accepts.{events_for}
use lldm.Runtime.Commitment.Envelopes.{wrapped, AllFit}
use lldm.Runtime.Coordinator.{
  committed_acceptance, idempotent_replay, concluded, decided, verdict_on, verdict_on_undo,
  submit_with, submit_to, submit_new, submit_found, submit, reported,
}
use lldm.Runtime.Coordinator.Answers.{new_commit}
use lldm.Runtime.Coordinator.Effects.{submit-unchanged, submit-StoreSound, submit-again}
use lldm.Runtime.Coordinator.Streams.{Sourced, LogStep, stream, submit-LogStep}
use lldm.Runtime.Coordinator.Liveness.{submit-commits}
use lldm.Runtime.Coordinator.Undone.{submit-undo_restores}
use lldm.Examples.Fixtures.{no_checks}
use lldm.Examples.Commands.{
  calm, spending, ports, spend, undo, fresh, spent_events, spent, store_with_spent, undone,
  candidate,
}

calm_valid : validate_game_state no_checks (calm 2) ≡ success (calm 2)
unfolding validate_game_state game_state_issues issues_of_each duplicate_issues
    duplicate_issues_from
calm_valid = refl

spent_submitted :
    submit ports 600 fresh spend
    ≡ record { data_after = store_with_spent; result = committed_acceptance spent }
unfolding submit transact submit_found submit_new submit_to submit_with verdict_on decided concluded
    commit_decision commit_state envelope_events allocate_decision_facts commit_draft set_campaign
    events_follow last_revision_of hash_game_state validate_game_state game_state_issues
    issues_of_each duplicate_issues duplicate_issues_from validate_committed_transaction_record
    transaction_record_issues apply_events apply_game_event apply_body apply_resource_changed find
spent_submitted = refl

undo_submitted : (submit ports 600 store_with_spent undo).result ≡ committed_acceptance undone
unfolding submit transact submit_found submit_new submit_to submit_with verdict_on verdict_on_undo
    load_undo_candidate sort_by_revision insert_by_revision plan_transaction_compensation
    plan_reversed classify_event_for_undo inverse_event concluded commit_decision commit_state
    envelope_events allocate_decision_facts commit_draft set_campaign events_follow last_revision_of
    hash_game_state validate_game_state game_state_issues issues_of_each duplicate_issues
    duplicate_issues_from validate_committed_transaction_record transaction_record_issues
    apply_events apply_game_event apply_body apply_resource_changed find filter any
undo_submitted = refl

spent_again : new_commit (submit ports 600 fresh spend).result ≡ some spent
spent_again = ap (λ s. new_commit s.result) spent_submitted

submit-again_example : submit ports 700 (submit ports 600 fresh spend).data_after spend ≡ record {
  data_after = (submit ports 600 fresh spend).data_after;
  result = idempotent_replay spent;
}
submit-again_example = submit-again ports 600 700 fresh spend spent spent_again

-- The clock is not canonical.
late_failed : new_commit (submit ports 700 fresh spend).result ≡ none
unfolding submit transact submit_found submit_new submit_to submit_with hash_game_state
    validate_game_state game_state_issues issues_of_each duplicate_issues duplicate_issues_from find
late_failed = refl

submit-unchanged_example : (submit ports 700 fresh spend).data_after ≡ fresh
submit-unchanged_example = submit-unchanged ports 700 fresh spend late_failed

fresh_sound : StoreSound ports.digest fresh
unfolding numbered
fresh_sound = record {
  campaigns_sound = (record { counted = refl; contiguous = refl; hashed = refl }, tt);
  commands_distinct = tt;
  transactions_distinct = tt;
}

submit-StoreSound_example : StoreSound ports.digest (submit ports 600 fresh spend).data_after
submit-StoreSound_example = submit-StoreSound ports 600 fresh spend fresh_sound

fresh-Sourced : AllCampaigns (Sourced ports.schema (λ id. calm 2)) fresh.campaigns
unfolding apply_events
fresh-Sourced = (refl, tt)

submit-LogStep_example :
    LogStep ports.schema
      (λ id. calm 2)
      (stream fresh)
      (stream (submit ports 600 fresh spend).data_after)
    × AllCampaigns
        (Sourced ports.schema (λ id. calm 2))
        (submit ports 600 fresh spend).data_after.campaigns
submit-LogStep_example = submit-LogStep ports (λ id. calm 2) 600 fresh spend fresh-Sourced

abbrev head : CampaignHead
head = record { campaign_id = 100; revision = 0; state = calm 2; state_hash = 2 }

none_found : find (λ c. c.command_id == 400) fresh.commands ≡ none
unfolding find
none_found = refl

head_loaded : load_campaign fresh 100 ≡ some head
unfolding find
head_loaded = refl

spend_decided : verdict_on ports fresh spend head 7 ≡ ok (accepting (spending ∷ []))
unfolding verdict_on decided
spend_decided = refl

events_fit : AllFit ports (events_for ports spend head (accepting (spending ∷ [])))
unfolding wrapped
events_fit = (refl, (refl, tt))

spending_applied :
    apply_events no_checks (calm 2) (events_for ports spend head (accepting (spending ∷ [])))
    ≡ success (calm 1)
unfolding wrapped apply_events apply_game_event apply_body apply_resource_changed
    validate_game_state game_state_issues issues_of_each duplicate_issues duplicate_issues_from
spending_applied = refl

submit-commits_example :
    (commit : CommittedCommand) × ((submit ports 600 fresh spend).result
      ≡ reported (accepting (spending ∷ [])) commit)
    × (commit.events ≡ events_for ports spend head (accepting (spending ∷ [])))
    × (commit.post_state ≡ calm 1)
submit-commits_example =
    submit-commits ports 600 fresh spend spend head 7 (accepting (spending ∷ [])) (calm 1)
      fresh_sound refl refl none_found refl head_loaded calm_valid refl refl spend_decided
      events_fit spending_applied refl refl

abbrev later_head : CampaignHead
later_head = record { campaign_id = 100; revision = 2; state = calm 1; state_hash = 1 }

later_loaded : load_campaign store_with_spent 100 ≡ some later_head
unfolding find
later_loaded = refl

candidate_found : load_undo_candidate store_with_spent 100 none ≡ undo_found candidate
unfolding load_undo_candidate sort_by_revision insert_by_revision filter any
candidate_found = refl

candidate_applied : apply_events no_checks (calm 2) spent_events ≡ success (calm 1)
unfolding apply_events apply_game_event apply_body apply_resource_changed validate_game_state
    game_state_issues issues_of_each duplicate_issues duplicate_issues_from
candidate_applied = refl

candidate_restorable : RestorableAlong no_checks (calm 2) spent_events
candidate_restorable = (tt, λ s h. (tt, λ t k. tt))

submit-undo_restores_example : undone.post_state ≡ calm 2
submit-undo_restores_example =
    submit-undo_restores ports 600 store_with_spent undo undo later_head none candidate (calm 2)
      undone refl refl later_loaded candidate_found calm_valid candidate_applied
      candidate_restorable undo_submitted
