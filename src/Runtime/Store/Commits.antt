-- ===== src/Runtime/Store/Commits.antt =====
-- The operations `createCampaign` and `#commitDraft` of the in-memory store and its invariant.
use lldm.Prelude.{
  ℕ, ◌≡◌, refl, ap, arith, true, false, some, List, [], ◌∷◌, ◌++◌, map, find, includes,
  length-append, find-append, ◌≢◌, is_some, ok, Option-cases, Result-cases, inl, inr,
}
use mathlib.Core.Path.{subst, subst⁻¹}
use lldm.Prelude.Names.{Distinct}
use lldm.Contracts.Ids.{OpaqueId}
use lldm.Contracts.Validation.{ValidationResult, success, failure}
use lldm.Contracts.GameState.{GameState, SchemaChecks, validate_game_state}
use lldm.Runtime.Store.{
  StoreData, Campaign, CommitInput, StoredCommand, is_campaign, is_command, set_campaign,
  hash_game_state, create_campaign, commit_draft, advanced, events_follow, last_revision_of,
  is_revision, valid_state,
}
use lldm.Runtime.Store.Numbering.{numbered, numbered-append, follow-last_revision}
use lldm.Runtime.Store.Invariant.{
  CampaignSound, StoreSound, set_campaign-AllCampaigns, find-AllCampaigns, Distinct-snoc,
  find-is_command, map-snoc, hash_game_state-eq-ok,
}

-- The facts of a commit that is made.
pub record Commits (schema : SchemaChecks) (digest : GameState → OpaqueId) (draft after : StoreData)
    (input : CommitInput) : Type 0 where
  pub campaign : Campaign
  pub found :
      find (is_campaign input.stored_command.commit.transaction.campaign_id) draft.campaigns
      ≡ some campaign
  pub new_command :
      is_some (find (is_command input.stored_command.command_id) draft.commands) ≡ false
  pub new_transaction : includes input.stored_command.transaction_id draft.transaction_ids ≡ false
  pub follows :
      events_follow input.stored_command.commit.transaction campaign.revision 0 input.events ≡ true
  pub ends :
      is_revision input.stored_command.commit.transaction.last_revision
        (last_revision_of input.events)
      ≡ true
  pub hash_is : input.post_state_hash ≡ digest input.post_state
  pub after_is : after ≡ record draft {
    campaigns = set_campaign (advanced campaign input) draft.campaigns;
    commands = draft.commands ++ input.stored_command ∷ [];
    transaction_ids = draft.transaction_ids ++ input.stored_command.transaction_id ∷ [];
  }

pub commit_draft-Commits :
    (schema : SchemaChecks) (digest : GameState → OpaqueId) (draft after : StoreData)
    (input : CommitInput)
    → commit_draft schema digest draft input ≡ ok after
    → Commits schema digest draft after input
unfolding commit_draft
commit_draft-Commits schema digest draft after input h =
    let id = input.stored_command.commit.transaction.campaign_id in
    elim (Option-cases (find (is_campaign id) draft.campaigns)) [
      | inl none_found ↦ absurd (ground (arith, none_found, h))
      | inr (c, there) ↦ elim (Result-cases (hash_game_state schema digest input.post_state)) [
        | inr (e, q) ↦ absurd (ground (arith, there, q, h))
        | inl (hash, q) ↦
            let (_, digested) = hash_game_state-eq-ok schema digest input.post_state hash q in
            record {
              campaign = c;
              found = there;
              new_command = ground (arith, there, h);
              new_transaction = ground (arith, there, h);
              follows = ground (arith, there, h);
              ends = ground (arith, there, h);
              hash_is = ground (arith, there, q, digested, h);
              after_is = ground (arith, there, q, h);
            }
      ]
    ]

advanced-CampaignSound :
    (schema : SchemaChecks) (digest : GameState → OpaqueId) (draft after : StoreData)
    (input : CommitInput) (commits : Commits schema digest draft after input)
    → CampaignSound digest commits.campaign
    → CampaignSound digest (advanced commits.campaign input)
advanced-CampaignSound schema digest draft after input commits sound =
    let c = commits.campaign in
    let transaction = input.stored_command.commit.transaction in
    let (next, ends) =
      follow-last_revision transaction c.revision transaction.last_revision input.events
        commits.follows commits.ends in
    record {
      counted = omega (arith, length-append c.events input.events, sound.counted, ends);
      contiguous =
          numbered-append 1 c.events input.events sound.contiguous
            (subst (λ n. numbered n input.events ≡ true) (omega (arith, sound.counted)) next);
      hashed = commits.hash_is;
    }

-- A commit that is made keeps the invariant.
pub commit_draft-StoreSound :
    (schema : SchemaChecks) (digest : GameState → OpaqueId) (draft after : StoreData)
    (input : CommitInput)
    → StoreSound digest draft
    → commit_draft schema digest draft input ≡ ok after
    → StoreSound digest after
commit_draft-StoreSound schema digest draft after input sound h =
    let m = commit_draft-Commits schema digest draft after input h in
    let stored = input.stored_command in
    let old =
      find-AllCampaigns (CampaignSound digest) stored.commit.transaction.campaign_id draft.campaigns
        m.campaign m.found sound.campaigns_sound in
    subst⁻¹ (StoreSound digest) m.after_is (record {
      campaigns_sound =
          set_campaign-AllCampaigns (CampaignSound digest) (advanced m.campaign input)
            draft.campaigns (advanced-CampaignSound schema digest draft after input m old)
            sound.campaigns_sound;
      commands_distinct = subst⁻¹ Distinct (map-snoc draft.commands stored) (
          Distinct-snoc stored.command_id (map (λ c. c.command_id) draft.commands)
            sound.commands_distinct
            (find-is_command stored.command_id draft.commands m.new_command));
      transactions_distinct =
          Distinct-snoc stored.transaction_id draft.transaction_ids sound.transactions_distinct
            m.new_transaction;
    })

valid_state-eq-ok :
    (r : ValidationResult GameState) (s : GameState) → valid_state r ≡ ok s → r ≡ success s
valid_state-eq-ok (success v) s h = ground arith
valid_state-eq-ok (failure is) s h = absurd (ground arith)

-- A campaign that is created keeps the invariant.
pub create_campaign-StoreSound :
    (schema : SchemaChecks) (digest : GameState → OpaqueId) (store after : StoreData)
    (state : GameState) (seed : List ℕ)
    → StoreSound digest store
    → create_campaign schema digest store state seed ≡ ok after
    → StoreSound digest after
unfolding create_campaign
create_campaign-StoreSound schema digest store after state seed sound h =
    elim (Result-cases (valid_state (validate_game_state schema state))) [
      | inr (e, q) ↦ absurd (ground (arith, q, h))
      | inl (valid, q) ↦ elim (Result-cases (hash_game_state schema digest valid)) [
        | inr (e, p) ↦ absurd (ground (arith, q, p, h))
        | inl (hash, p) ↦
            let (_, digested) = hash_game_state-eq-ok schema digest valid hash p in
            let created : Campaign = record {
              campaign_id = state.campaign_id;
              revision = 0;
              state = valid;
              state_hash = hash;
              seed = seed;
              events = [];
            } in
            let made : record store { campaigns = set_campaign created store.campaigns } ≡ after =
              ground (arith, q, p, h) in
            subst (StoreSound digest) made (record {
              campaigns_sound =
                  set_campaign-AllCampaigns (CampaignSound digest) created store.campaigns
                    (record {
                      counted = refl;
                      contiguous = unfold numbered in refl;
                      hashed = digested;
                    })
                    sound.campaigns_sound;
              commands_distinct = sound.commands_distinct;
              transactions_distinct = sound.transactions_distinct;
            })
      ]
    ]

committed-found :
    (draft after : List StoredCommand) (stored : StoredCommand) (id : OpaqueId)
    → is_some (find (is_command stored.command_id) draft) ≡ false
    → after ≡ draft ++ stored ∷ []
    → id ≡ stored.command_id
    → is_some (find (is_command id) after) ≡ true
committed-found draft after stored id new a e =
    ground (arith, find-append (is_command stored.command_id) draft stored, new, a, e)

-- A command is committed once: after its commit, no commit under its identity succeeds.
pub commit_draft-once :
    (schema : SchemaChecks) (digest : GameState → OpaqueId) (draft after final : StoreData)
    (input again : CommitInput)
    → commit_draft schema digest draft input ≡ ok after
    → again.stored_command.command_id ≡ input.stored_command.command_id
    → commit_draft schema digest after again ≢ ok final
commit_draft-once schema digest draft after final input again h same twice =
    let first = commit_draft-Commits schema digest draft after input h in
    let second = commit_draft-Commits schema digest after final again twice in
    let there =
      committed-found draft.commands after.commands input.stored_command
        again.stored_command.command_id first.new_command (ap (λ d. d.commands) first.after_is)
        same in
    absurd (ground (arith, there, second.new_command))
