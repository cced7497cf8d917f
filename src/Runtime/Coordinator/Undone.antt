-- ===== src/Runtime/Coordinator/Undone.antt =====
-- The undo of a transaction through packages/runtime/src/application/coordinator.ts.
use lldm.Prelude.{
  ℕ, ◌+◌, ◌≡◌, refl, ap, sym, ◌∙◌, arith, true, false, Option, some, List, all, ok, ◌==◌, inl, inr,
  Bool-cases,
}
use mathlib.Core.Path.{subst}
use lldm.Contracts.Ids.{OpaqueId}
use lldm.Contracts.Validation.{success, ValidationResult-cases}
use lldm.Contracts.GameState.{GameState, validate_game_state}
use lldm.Contracts.Transactions.{is_rejected}
use lldm.Contracts.Events.{EventBody, GameEvent, command_accepted}
use lldm.Engine.Apply.Reducer.{apply_body, apply_game_event, apply_events}
use lldm.Engine.Apply.History.{apply_game_event-eq-success, apply_events-Follows}
use lldm.Engine.Compensation.{CompensationPlan, accepted, refused, plan_transaction_compensation}
use lldm.Engine.Compensation.Transactions.{RestorableAlong, plan_transaction_compensation-undoes}
use lldm.Runtime.Ports.{GameCommand, undo_transaction, Ports, kind_of}
use lldm.Runtime.Store.{StoreData, CommittedCommand}
use lldm.Runtime.Store.Undo.{
  CampaignHead, UndoCandidate, undo_found, load_campaign, load_undo_candidate,
}
use lldm.Runtime.Commitment.{
  Verdict, accepting, rejecting, undoing, outcome_of, audited, allocate_decision_facts, enveloped,
}
use lldm.Runtime.Commitment.Envelopes.{
  wrapped, bodies-wrapped, campaign-wrapped, envelope_events-wrapped,
}
use lldm.Runtime.Coordinator.{
  committed_acceptance, reported, verdict_on_plan, verdict_on_undo, verdict_on, submit,
}
use lldm.Runtime.Coordinator.Effects.{submit-cases, Committing}

reported-accepts :
    (v : Verdict) (commit other : CommittedCommand)
    → reported v commit ≡ committed_acceptance other
    → (is_rejected (outcome_of v) ≡ false) × (commit ≡ other)
reported-accepts (accepting events) commit other h = (refl, cc)
reported-accepts (undoing target events) commit other h = (refl, cc)
reported-accepts (rejecting code detail) commit other h = absurd cc

plan-undoing :
    (id : OpaqueId) (plan : CompensationPlan)
    → is_rejected (outcome_of (verdict_on_plan id plan)) ≡ false
    → (events : List EventBody) × (plan ≡ accepted events)
      × (verdict_on_plan id plan ≡ undoing id events)
plan-undoing id (accepted events) h = (events, refl, refl)
plan-undoing id (refused code detail) h = absurd (ground (arith, h))

module _ {Raw Payload Catalog : Type 0} (p : Ports Raw Payload Catalog) where
  -- An undo that is not rejected carries out the plan of its candidate.
  verdict_on_undo-plan :
      (candidate : UndoCandidate)
      → is_rejected (outcome_of (verdict_on_undo p (undo_found candidate))) ≡ false
      → let id = candidate.transaction.transaction_id in
        (events : List EventBody) × (plan_transaction_compensation id candidate.events
          ≡ accepted events)
        × (verdict_on_undo p (undo_found candidate) ≡ undoing id events)
  unfolding verdict_on_undo
  verdict_on_undo-plan candidate h =
      let id = candidate.transaction.transaction_id in
      let plan = plan_transaction_compensation id candidate.events in
      let reached : verdict_on_undo p (undo_found candidate) ≡ verdict_on_plan id plan =
        ground (arith, h) in
      let (events, planned, undoes) = plan-undoing id plan (ground (arith, h, reached)) in
      (events, planned, reached ∙ undoes)

  -- A current undo is answered by the verdict on its candidate.
  verdict_on-undo :
      (store : StoreData) (c : GameCommand Payload) (head : CampaignHead) (catalog : Catalog)
      (v : Verdict) (target : Option OpaqueId) (candidate : UndoCandidate)
      → c.body ≡ undo_transaction target
      → load_undo_candidate store c.campaign_id target ≡ undo_found candidate
      → verdict_on p store c head catalog ≡ ok v
      → is_rejected (outcome_of v) ≡ false
      → v ≡ verdict_on_undo p (undo_found candidate)
  unfolding verdict_on
  verdict_on-undo store c head catalog v target candidate b u h r =
      elim (Bool-cases (c.expected_revision == head.revision)) [
        | inl e ↦ ground (arith, e, b, u, h)
        | inr e ↦ absurd (ground (arith, e, h, r))
      ]

  -- The audit event in front of a compensation leaves the state as it is.
  audit-passes :
      (c : GameCommand Payload) (first : ℕ) (target : OpaqueId) (events : List EventBody)
      (s t : GameState)
      → apply_events p.schema s (
          wrapped p c
            (allocate_decision_facts p c).event_id_for
            first
            0
            (audited p c (undoing target events)))
        ≡ success t
      → (apply_events p.schema s
            (wrapped p c (allocate_decision_facts p c).event_id_for first 1 events)
          ≡ success t)
        × (c.campaign_id ≡ s.campaign_id)
  unfolding wrapped apply_events apply_body
  audit-passes c first target events s t h =
      let hash = p.tagged_sha256 (p.canonical_json c) in
      let e =
        enveloped p c (allocate_decision_facts p c).event_id_for first 0
          (command_accepted (kind_of c.body) hash) in
      elim (ValidationResult-cases (apply_game_event p.schema s e)) [
        | inl (u, q) ↦
            let (applied, _, same) = apply_game_event-eq-success p.schema s e u q in
            (ground (arith, q, applied, h), same)
        | inr (is, q) ↦ absurd (ground (arith, q, h))
      ]

  -- The events of an undo's commit, from the state after the target to the state before it.
  compensation-restores :
      (c : GameCommand Payload) (first : ℕ) (target : OpaqueId) (events : List EventBody)
      (past : List GameEvent) (start s t : GameState)
      → validate_game_state p.schema start ≡ success start
      → apply_events p.schema start past ≡ success s
      → RestorableAlong p.schema start past
      → plan_transaction_compensation target past ≡ accepted events
      → apply_events p.schema s (
          wrapped p c
            (allocate_decision_facts p c).event_id_for
            first
            0
            (audited p c (undoing target events)))
        ≡ success t
      → t ≡ start
  compensation-restores c first target events past start s t valid h r plan a =
      let ids = (allocate_decision_facts p c).event_id_for in
      let compensation = wrapped p c ids first 1 events in
      let (rest, same) = audit-passes c first target events s t a in
      let kept = apply_events-Follows p.schema start s past valid h in
      let named : c.campaign_id ≡ start.campaign_id = same ∙ kept.kept.0 in
      let restored =
        plan_transaction_compensation-undoes p.schema target start s past compensation valid h r
          (plan ∙ ap accepted (sym (bodies-wrapped p c ids first 1 events)))
          (subst (λ id. all (λ e. e.campaign_id == id) compensation ≡ true) named
            (campaign-wrapped p c ids first 1 events)) in
      ground (arith, rest, restored)

  Committing-restores :
      (now : OpaqueId) (store : StoreData) (raw : Raw) (k : Committing p now store raw)
      (target : Option OpaqueId) (candidate : UndoCandidate) (start : GameState)
      (commit : CommittedCommand)
      → k.command.body ≡ undo_transaction target
      → load_undo_candidate store k.command.campaign_id target ≡ undo_found candidate
      → validate_game_state p.schema start ≡ success start
      → apply_events p.schema start candidate.events ≡ success k.commits_it.head.state
      → RestorableAlong p.schema start candidate.events
      → (submit p now store raw).result ≡ committed_acceptance commit
      → commit.post_state ≡ start
  Committing-restores now store raw k target candidate start commit b u valid h r a =
      let m = k.commits_it in
      let id = candidate.transaction.transaction_id in
      let answer : reported m.verdict m.commit ≡ committed_acceptance commit =
        sym m.answers ∙ (ap (λ s. s.result) (sym k.settles) ∙ a) in
      let (accepts, same_commit) = reported-accepts m.verdict m.commit commit answer in
      let on_undo =
        verdict_on-undo store k.command m.head m.catalog m.verdict target candidate b u m.decided_as
          accepts in
      let (events, plan, undoes) =
        verdict_on_undo-plan candidate
          (subst (λ v. is_rejected (outcome_of v) ≡ false) on_undo accepts) in
      let ids = (allocate_decision_facts p k.command).event_id_for in
      let written =
        envelope_events-wrapped p k.command ids (m.head.revision + 1) 0
          (audited p k.command m.verdict) m.made.events m.made.enveloped_as in
      let whole =
        written
        ∙ ap (λ v. wrapped p k.command ids (m.head.revision + 1) 0 (audited p k.command v))
            (on_undo ∙ undoes) in
      let restored =
        compensation-restores k.command (m.head.revision + 1) id events candidate.events start
          m.head.state m.made.next valid h r plan
          (subst (λ es. apply_events p.schema m.head.state es ≡ success m.made.next) whole
            m.made.applied_to) in
      ap (λ x. x.post_state) (sym same_commit)
      ∙ (ap (λ x. x.post_state) m.made.is_commit ∙ restored)

  -- Where the last transaction that can be undone led from a valid state to the campaign's head and
  -- its events are restorable, an accepted submission of its undo, which names the transaction or
  -- names none, commits the state before it.
  pub submit-undo_restores :
      (now : OpaqueId) (store : StoreData) (raw : Raw) (c : GameCommand Payload)
      (head : CampaignHead) (target : Option OpaqueId) (candidate : UndoCandidate)
      (start : GameState) (commit : CommittedCommand)
      → p.parse_command raw ≡ success c
      → c.body ≡ undo_transaction target
      → load_campaign store c.campaign_id ≡ some head
      → load_undo_candidate store c.campaign_id target ≡ undo_found candidate
      → validate_game_state p.schema start ≡ success start
      → apply_events p.schema start candidate.events ≡ success head.state
      → RestorableAlong p.schema start candidate.events
      → (submit p now store raw).result ≡ committed_acceptance commit
      → commit.post_state ≡ start
  submit-undo_restores now store raw c head target candidate start commit q b l u valid h r a =
      elim (submit-cases p now store raw) [
        | inl (same, none_made) ↦ absurd (ground (arith, none_made, a))
        | inr k ↦
            let same : k.command ≡ c = ground (arith, k.parsed, q) in
            let same_head : k.commits_it.head ≡ head =
              ground (arith, k.commits_it.loaded, same, l) in
            Committing-restores now store raw k target candidate start commit
              (ap (λ x. x.body) same ∙ b)
              (ap (λ x. load_undo_candidate store x.campaign_id target) same ∙ u) valid
              (h ∙ ap (λ x. success x.state) (sym same_head)) r a
      ]
