-- ===== src/Runtime/Coordinator/Heads.antt =====
-- The head of a campaign before and after a commit of packages/runtime/src/application/coordinator.ts.
use lldm.Prelude.{
  ◌+◌, ◌≡◌, refl, ap, sym, ◌∙◌, arith, some, ◌++◌, length, find, ok, inl, inr, Option-cases,
}
use lldm.Contracts.Ids.{OpaqueId}
use lldm.Contracts.Validation.{success, ValidationResult-cases, conclude-eq-success}
use lldm.Contracts.Transactions.{TransactionRecord, validate_committed_transaction_record}
use lldm.Engine.Apply.Reducer.{apply_events}
use lldm.Runtime.Ports.{GameCommand, Ports}
use lldm.Runtime.Store.{
  StoreData, CommittedCommand, Campaign, Draft, advanced, is_campaign, set_campaign,
}
use lldm.Runtime.Store.Commits.{commit_draft-Commits}
use lldm.Runtime.Store.Undo.{CampaignHead, load_campaign}
use lldm.Runtime.Commitment.{
  Verdict, valid_transaction, candidate_of, input_of, audited, allocate_decision_facts,
}
use lldm.Runtime.Commitment.Made.{Made}
use lldm.Runtime.Commitment.Envelopes.{wrapped, envelope_events-wrapped}

-- The campaign that a head was loaded from.
pub record LoadedFrom (store : StoreData) (id : OpaqueId) (head : CampaignHead) : Type 0 where
  pub campaign : Campaign
  pub found : find (is_campaign id) store.campaigns ≡ some campaign
  pub same_revision : head.revision ≡ campaign.revision
  pub same_state : head.state ≡ campaign.state
  pub same_hash : head.state_hash ≡ campaign.state_hash

pub load_campaign-LoadedFrom :
    (store : StoreData) (id : OpaqueId) (head : CampaignHead)
    → load_campaign store id ≡ some head
    → LoadedFrom store id head
load_campaign-LoadedFrom store id head h =
    elim (Option-cases (find (is_campaign id) store.campaigns)) [
      | inl n ↦ absurd (ground (arith, n, h))
      | inr (c, q) ↦ record {
        campaign = c;
        found = q;
        same_revision = ground (arith, q, h);
        same_state = ground (arith, q, h);
        same_hash = ground (arith, q, h);
      }
    ]

module _ {Raw Payload Catalog : Type 0} (p : Ports Raw Payload Catalog) where
  pub valid_transaction-same : (t u : TransactionRecord) → valid_transaction p t ≡ ok u → t ≡ u
  unfolding validate_committed_transaction_record
  valid_transaction-same t u h =
      elim (ValidationResult-cases (validate_committed_transaction_record p.transaction_schema t)) [
        | inl (v, q) ↦ (conclude-eq-success t _ q).1 ∙ ground (arith, q, h)
        | inr (is, q) ↦ absurd (ground (arith, q, h))
      ]

  -- The campaign of a commit that was made, before and after it.
  pub record Moved (store : StoreData) (c : GameCommand Payload) (head : CampaignHead) (v : Verdict)
      (d : Draft CommittedCommand) : Type 0 where
    pub from : LoadedFrom store c.campaign_id head
    pub to : Campaign
    pub replaced : d.draft.campaigns ≡ set_campaign to store.campaigns
    pub named : to.campaign_id ≡ from.campaign.campaign_id
    pub moved_to : to.revision ≡ from.campaign.revision + length d.value.events
    pub state_after : to.state ≡ d.value.post_state
    pub appended : to.events ≡ from.campaign.events ++ d.value.events
    pub events_are :
        d.value.events
        ≡ wrapped p c
            (allocate_decision_facts p c).event_id_for
            (head.revision + 1)
            0
            (audited p c v)
    pub applied_to : apply_events p.schema from.campaign.state d.value.events ≡ success to.state

  pub Made-Moved :
      (now : OpaqueId) (store : StoreData) (c : GameCommand Payload) (head : CampaignHead)
      (v : Verdict) (d : Draft CommittedCommand)
      → load_campaign store c.campaign_id ≡ some head
      → Made p store c head now v d
      → Moved store c head v d
  Made-Moved now store c head v d l made =
      let from = load_campaign-LoadedFrom store c.campaign_id head l in
      let facts =
        commit_draft-Commits p.schema p.digest store d.draft
          (input_of p c made.pre made.post d.value) made.stored in
      let record_is =
        valid_transaction-same
          (candidate_of p c head.revision now made.pre made.post (length made.events) v)
          d.value.transaction made.recorded in
      let there : facts.campaign ≡ from.campaign =
        ground (arith, facts.found, from.found, record_is) in
      let events_same : d.value.events ≡ made.events = ap (λ k. k.events) made.is_commit in
      let state_same : d.value.post_state ≡ made.next = ap (λ k. k.post_state) made.is_commit in
      record {
        from = from;
        to = advanced facts.campaign (input_of p c made.pre made.post d.value);
        replaced = ap (λ s. s.campaigns) facts.after_is;
        named = ap (λ k. k.campaign_id) there;
        moved_to = ground (arith, sym record_is, from.same_revision, events_same);
        state_after = refl;
        appended = ap (λ k. k.events ++ d.value.events) there;
        events_are =
            events_same
            ∙ envelope_events-wrapped p c (allocate_decision_facts p c).event_id_for
                (head.revision + 1) 0 (audited p c v) made.events made.enveloped_as;
        applied_to = ground (arith, made.applied_to, from.same_state, events_same, state_same);
      }
