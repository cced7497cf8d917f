-- ===== src/Runtime/Coordinator/Liveness.antt =====
-- When packages/runtime/src/application/coordinator.ts answers a submission with a commit.
use lldm.Prelude.{
  ◌+◌, ◌≡◌, refl, ap, sym, ◌∙◌, arith, true, false, none, some, [], length, ok, find,
}
use lldm.Contracts.Ids.{OpaqueId}
use lldm.Contracts.Validation.{success}
use lldm.Contracts.GameState.{GameState, validate_game_state}
use lldm.Engine.Apply.Reducer.{apply_events}
use lldm.Runtime.Ports.{GameCommand, Ports}
use lldm.Runtime.Store.{
  StoreData, CommittedCommand, current, Draft, is_command, transact, hash_game_state,
}
use lldm.Runtime.Store.Invariant.{StoreSound, CampaignSound, find-AllCampaigns}
use lldm.Runtime.Store.Undo.{CampaignHead, load_campaign, transaction_id_exists}
use lldm.Runtime.Commitment.{Verdict, candidate_of, allocate_decision_facts, commit_decision}
use lldm.Runtime.Commitment.Envelopes.{AllFit}
use lldm.Runtime.Commitment.Accepts.{events_for, commit_decision-accepts, valid-hash_game_state}
use lldm.Runtime.Coordinator.{
  Submission, reported, concluded, verdict_on, submit_with, submit_to, submit_new, submit_found,
  submit,
}
use lldm.Runtime.Coordinator.Heads.{load_campaign-LoadedFrom}

module _ {Raw Payload Catalog : Type 0} (p : Ports Raw Payload Catalog) where
  submit_with-concludes :
      (now : OpaqueId) (store after : StoreData) (c : GameCommand Payload) (head : CampaignHead)
      (catalog : Catalog) (v : Verdict) (commit : CommittedCommand)
      → p.is_rfc3339_milliseconds now ≡ true
      → verdict_on p store c head catalog ≡ ok v
      → commit_decision p store c head now catalog v ≡ ok (record { draft = after; value = commit })
      → submit_with p now store c head (some catalog)
        ≡ ok (record { draft = after; value = reported v commit })
  unfolding submit_with concluded
  submit_with-concludes now store after c head catalog v commit t q h = ground (arith, t, q, h)

  -- The way of a new command to its decision.
  submit_found-reaches :
      (now : OpaqueId) (store : StoreData) (c : GameCommand Payload) (head : CampaignHead)
      (catalog : Catalog)
      → store.readiness ≡ current
      → transaction_id_exists store c.transaction_id ≡ false
      → load_campaign store c.campaign_id ≡ some head
      → hash_game_state p.schema p.digest head.state ≡ ok head.state_hash
      → p.resolve_content head.state.content_manifest_hash ≡ some catalog
      → submit_found p now store c none ≡ submit_with p now store c head (some catalog)
  unfolding submit_found submit_new submit_to
  submit_found-reaches now store c head catalog r n l h m = ground (arith, r, n, l, h, m)

  submit-settles :
      (now : OpaqueId) (store : StoreData) (raw : Raw) (c : GameCommand Payload)
      (d : Draft Submission)
      → p.parse_command raw ≡ success c
      → find (is_command c.command_id) store.commands ≡ none
      → submit_found p now store c none ≡ ok d
      → submit p now store raw ≡ record { data_after = d.draft; result = d.value }
  unfolding submit transact
  submit-settles now store raw c d q n h = ground (arith, q, n, h)

  -- A new, well-formed command to a campaign of a current and sound store, whose head is valid and
  -- whose content is known, is committed at a canonical time with the verdict on it, where the
  -- schemas find nothing wrong with the events and the record, the reducer accepts the events, and
  -- the projections are made: the answer reports that commit, of exactly those events and the state
  -- that they lead to.
  pub submit-commits :
      (now : OpaqueId) (store : StoreData) (raw : Raw) (c : GameCommand Payload)
      (head : CampaignHead) (catalog : Catalog) (v : Verdict) (next : GameState)
      → StoreSound p.digest store
      → store.readiness ≡ current
      → p.parse_command raw ≡ success c
      → find (is_command c.command_id) store.commands ≡ none
      → transaction_id_exists store c.transaction_id ≡ false
      → load_campaign store c.campaign_id ≡ some head
      → validate_game_state p.schema head.state ≡ success head.state
      → p.resolve_content head.state.content_manifest_hash ≡ some catalog
      → p.is_rfc3339_milliseconds now ≡ true
      → verdict_on p store c head catalog ≡ ok v
      → AllFit p (events_for p c head v)
      → apply_events p.schema head.state (events_for p c head v) ≡ success next
      → p.transaction_schema (
          candidate_of p c head.revision now
            (p.digest head.state)
            (p.digest next)
            (length (events_for p c head v))
            v)
        ≡ []
      → p.project next
          (head.revision + length (events_for p c head v))
          catalog
          (allocate_decision_facts p c).legal_action_id_for
        ≡ ok tt
      → (commit : CommittedCommand) × ((submit p now store raw).result ≡ reported v commit)
        × (commit.events ≡ events_for p c head v)
        × (commit.post_state ≡ next)
  submit-commits now store raw c head catalog v next sound r q nc nt l valid m t d fit h ts pr =
      let from = load_campaign-LoadedFrom store c.campaign_id head l in
      let old =
        find-AllCampaigns (CampaignSound p.digest) c.campaign_id store.campaigns from.campaign
          from.found sound.campaigns_sound in
      let digested : from.campaign.state_hash ≡ p.digest head.state =
        old.hashed ∙ ap p.digest (sym from.same_state) in
      let (after, committed) =
        commit_decision-accepts p store from.campaign c head now catalog v next from.found
          from.same_revision digested nc nt valid fit h ts pr in
      let hashed : hash_game_state p.schema p.digest head.state ≡ ok head.state_hash =
        valid-hash_game_state p head.state valid ∙ ap ok (sym (from.same_hash ∙ digested)) in
      let settled = submit-settles now store raw c _ q nc (
        submit_found-reaches now store c head catalog r nt l hashed m
        ∙ submit_with-concludes now store after c head catalog v _ t d committed) in
      (_, ap (λ s. s.result) settled, refl, refl)
