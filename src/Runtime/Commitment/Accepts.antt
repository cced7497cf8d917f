-- ===== src/Runtime/Commitment/Accepts.antt =====
-- When a commit of packages/runtime/src/application/coordinator.ts succeeds: the tests of the
-- transaction's record and of the store on what `commitDecision` builds.
use lldm.Prelude.{
  ℕ, ◌+◌, ◌≡◌, refl, ap, ◌∙◌, arith, true, false, not, ◌&&◌, none, some, List, [], ◌∷◌, length,
  ◌==◌, find, includes, Result, ok, inl, inr, Bool-cases,
}
use mathlib.Core.Path.{subst}
use lldm.Contracts.Ids.{OpaqueId}
use lldm.Contracts.Validation.{success, ValidationResult-cases}
use lldm.Contracts.GameState.{GameState, validate_game_state}
use lldm.Contracts.Transactions.{
  is_rejected, transaction_record_issues, validate_committed_transaction_record,
}
use lldm.Contracts.Events.{EventBody, GameEvent, command_rejected}
use lldm.Engine.Apply.Reducer.{apply_body, apply_game_event, apply_events}
use lldm.Engine.Apply.History.{apply_game_event-eq-success, apply_events-Follows}
use lldm.Runtime.Ports.{GameCommand, Ports, kind_of}
use lldm.Runtime.Store.{
  StoreData, Campaign, is_campaign, is_command, hash_game_state, first_revision, last_revision_of,
  events_follow,
}
use lldm.Runtime.Store.Accepts.{commit_draft-accepts}
use lldm.Runtime.Store.Undo.{CampaignHead}
use lldm.Runtime.Commitment.{
  Verdict, accepting, rejecting, undoing, enveloped, valid_transaction, candidate_of, input_of,
  commit_of, audited, allocate_decision_facts, commit_state, commit_decision, outcome_of,
}
use lldm.Runtime.Commitment.Envelopes.{
  wrapped, AllFit, wrapped-envelope_events, wrapped-follow, wrapped-last_revision, length-wrapped,
}

module _ {Raw Payload Catalog : Type 0} (p : Ports Raw Payload Catalog) where
  pub valid-hash_game_state :
      (s : GameState)
      → validate_game_state p.schema s ≡ success s
      → hash_game_state p.schema p.digest s ≡ ok (p.digest s)
  unfolding hash_game_state
  valid-hash_game_state s h = ground (arith, h)

  -- The events of a commit on a head.
  abbrev pub events_for : GameCommand Payload → CampaignHead → Verdict → List GameEvent
  events_for c head v =
      wrapped p c (allocate_decision_facts p c).event_id_for (head.revision + 1) 0 (audited p c v)

  -- A rejection's one event leaves the state as it is.
  rejecting-keeps :
      (c : GameCommand Payload) (head : CampaignHead) (v : Verdict) (next : GameState)
      → apply_events p.schema head.state (events_for c head v) ≡ success next
      → is_rejected (outcome_of v) ≡ true
      → head.state ≡ next
  unfolding wrapped apply_events apply_body
  rejecting-keeps c head (accepting events) next h r = absurd (ground (arith, r))
  rejecting-keeps c head (undoing target events) next h r = absurd (ground (arith, r))
  rejecting-keeps c head (rejecting code detail) next h r =
      let hash = p.tagged_sha256 (p.canonical_json c) in
      let e =
        enveloped p c (allocate_decision_facts p c).event_id_for (head.revision + 1) 0
          (command_rejected (kind_of c.body) hash code detail) in
      elim (ValidationResult-cases (apply_game_event p.schema head.state e)) [
        | inl (t, q) ↦
            let (applied, _, _) = apply_game_event-eq-success p.schema head.state e t q in
            ground (arith, q, applied, h)
        | inr (is, q) ↦ absurd (ground (arith, q, h))
      ]

  rejecting-same_hash :
      (c : GameCommand Payload) (head : CampaignHead) (v : Verdict) (next : GameState)
      → apply_events p.schema head.state (events_for c head v) ≡ success next
      → (is_rejected (outcome_of v) && not (p.digest head.state == p.digest next)) ≡ false
  rejecting-same_hash c head v next h = elim (Bool-cases (is_rejected (outcome_of v))) [
    | inr r ↦ ground (arith, r)
    | inl r ↦ ground (arith, r, rejecting-keeps c head v next h r)
  ]

  -- What the record of a commit is tested for.
  candidate-valid :
      (c : GameCommand Payload) (revision : ℕ) (now pre post : OpaqueId) (count : ℕ) (v : Verdict)
      → p.transaction_schema (candidate_of p c revision now pre post count v) ≡ []
      → (is_rejected (outcome_of v) && not (pre == post)) ≡ false
      → valid_transaction p (candidate_of p c revision now pre post count v)
        ≡ ok (candidate_of p c revision now pre post count v)
  unfolding validate_committed_transaction_record transaction_record_issues
  candidate-valid c revision now pre post count v fits same = ground (arith, fits, same)

  -- The first and the last of a commit's events.
  wrapped-ends :
      (c : GameCommand Payload) (ids : ℕ → OpaqueId) (revision : ℕ) (body : EventBody)
      (bodies : List EventBody)
      → (first_revision (wrapped p c ids (revision + 1) 0 (body ∷ bodies)) ≡ some (revision + 1))
        × (last_revision_of (wrapped p c ids (revision + 1) 0 (body ∷ bodies))
            ≡ some (revision + length (wrapped p c ids (revision + 1) 0 (body ∷ bodies))))
  unfolding wrapped
  wrapped-ends c ids revision body bodies = (
    ground arith,
    ground (
      arith,
      wrapped-last_revision p c ids (revision + 1) 0 body bodies,
      length-wrapped p c ids (revision + 1) 1 bodies,
    ),
  )

  events_for-ends :
      (c : GameCommand Payload) (head : CampaignHead) (v : Verdict)
      → (first_revision (events_for c head v) ≡ some (head.revision + 1))
        × (last_revision_of (events_for c head v)
            ≡ some (head.revision + length (events_for c head v)))
  events_for-ends c head (accepting events) = wrapped-ends c _ head.revision _ events
  events_for-ends c head (undoing target events) = wrapped-ends c _ head.revision _ events
  events_for-ends c head (rejecting code detail) = wrapped-ends c _ head.revision _ []

  succeeded : {r : Result StoreData} {s : StoreData} → r ≡ ok s → (t : StoreData) × (r ≡ ok t)
  succeeded {s = s} h = (s, h)

  -- A decision on the head of a campaign is committed, where its command is new, the schemas find
  -- nothing, the reducer accepts its events and the projections are made.
  pub commit_decision-accepts :
      (store : StoreData) (campaign : Campaign) (c : GameCommand Payload) (head : CampaignHead)
      (now : OpaqueId) (catalog : Catalog) (v : Verdict) (next : GameState)
      → find (is_campaign c.campaign_id) store.campaigns ≡ some campaign
      → head.revision ≡ campaign.revision
      → campaign.state_hash ≡ p.digest head.state
      → find (is_command c.command_id) store.commands ≡ none
      → includes c.transaction_id store.transaction_ids ≡ false
      → validate_game_state p.schema head.state ≡ success head.state
      → AllFit p (events_for c head v)
      → apply_events p.schema head.state (events_for c head v) ≡ success next
      → p.transaction_schema (
          candidate_of p c head.revision now
            (p.digest head.state)
            (p.digest next)
            (length (events_for c head v))
            v)
        ≡ []
      → p.project next
          (head.revision + length (events_for c head v))
          catalog
          (allocate_decision_facts p c).legal_action_id_for
        ≡ ok tt
      → (after : StoreData) × (commit_decision p store c head now catalog v
          ≡ ok (record {
            draft = after;
            value = commit_of p c (events_for c head v) next (
                candidate_of p c head.revision now
                  (p.digest head.state)
                  (p.digest next)
                  (length (events_for c head v))
                  v);
          }))
  unfolding commit_decision commit_state
  commit_decision-accepts store campaign c head now catalog v next f r sh nc nt valid fit h ts pr =
      let events = events_for c head v in
      let pre = p.digest head.state in
      let post = p.digest next in
      let t = candidate_of p c head.revision now pre post (length events) v in
      let follows = apply_events-Follows p.schema head.state next events valid h in
      let (first, last) = events_for-ends c head v in
      let hashed = valid-hash_game_state next follows.sound in
      let (after, stored) = succeeded (
        commit_draft-accepts p.schema p.digest store
          (input_of p c pre post (commit_of p c events next t)) campaign f nc nt sh refl refl refl
          (first ∙ ap (λ n. some (n + 1)) r) last
          (subst (λ n. events_follow t n 0 events ≡ true) r
            (wrapped-follow p c (allocate_decision_facts p c).event_id_for t head.revision 0
              (audited p c v) refl refl))
          hashed) in
      (
        after,
        ground (
          arith,
          valid-hash_game_state head.state valid,
          wrapped-envelope_events p c (allocate_decision_facts p c).event_id_for (head.revision + 1)
              0 (audited p c v) fit,
          h,
          hashed,
          candidate-valid c head.revision now pre post (length events) v ts
              (rejecting-same_hash c head v next h),
          pr,
          stored,
        ),
      )
