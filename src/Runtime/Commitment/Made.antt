-- ===== src/Runtime/Commitment/Made.antt =====
-- What a commit of packages/runtime/src/application/coordinator.ts consists of.
use lldm.Prelude.{◌+◌, ◌≡◌, refl, arith, length, List, ok, inl, inr, Result-cases}
use mathlib.Core.Path.{subst}
use lldm.Contracts.Ids.{OpaqueId}
use lldm.Contracts.Validation.{success, ValidationResult-cases}
use lldm.Contracts.GameState.{GameState}
use lldm.Contracts.Events.{GameEvent}
use lldm.Engine.Apply.Reducer.{apply_events}
use lldm.Runtime.Ports.{GameCommand, Ports}
use lldm.Runtime.Store.{StoreData, CommittedCommand, hash_game_state, commit_draft, Draft}
use lldm.Runtime.Store.Undo.{CampaignHead}
use lldm.Runtime.Commitment.{
  Verdict, allocate_decision_facts, envelope_events, applied, valid_transaction, candidate_of,
  input_of, commit_of, commit_state, audited, commit_events, commit_decision,
}

module _ {Raw Payload Catalog : Type 0} (p : Ports Raw Payload Catalog) where
  -- The steps of a commit that was made.
  pub record Made (store : StoreData) (c : GameCommand Payload) (head : CampaignHead)
      (now : OpaqueId) (v : Verdict) (d : Draft CommittedCommand) : Type 0 where
    pub pre : OpaqueId
    pub post : OpaqueId
    pub events : List GameEvent
    pub next : GameState
    pub hashed_before : hash_game_state p.schema p.digest head.state ≡ ok pre
    pub enveloped_as :
        envelope_events p c
          (allocate_decision_facts p c).event_id_for
          (head.revision + 1)
          0
          (audited p c v)
        ≡ ok events
    pub applied_to : apply_events p.schema head.state events ≡ success next
    pub hashed_after : hash_game_state p.schema p.digest next ≡ ok post
    pub recorded :
        valid_transaction p (candidate_of p c head.revision now pre post (length events) v)
        ≡ ok d.value.transaction
    pub stored : commit_draft p.schema p.digest store (input_of p c pre post d.value) ≡ ok d.draft
    pub is_commit : d.value ≡ commit_of p c events next d.value.transaction

  applied-eq-ok :
      (s : GameState) (events : List GameEvent) {t : GameState}
      → applied p s events ≡ ok t
      → apply_events p.schema s events ≡ success t
  applied-eq-ok s events h = elim (ValidationResult-cases (apply_events p.schema s events)) [
    | inl (next, q) ↦ ground (arith, q, h)
    | inr (is, q) ↦ absurd (ground (arith, q, h))
  ]

  commit_state-Made :
      (store : StoreData) (c : GameCommand Payload) (head : CampaignHead) (now : OpaqueId)
      (catalog : Catalog) (v : Verdict) (d : Draft CommittedCommand) (pre post : OpaqueId)
      (events : List GameEvent) (next : GameState)
      → hash_game_state p.schema p.digest head.state ≡ ok pre
      → envelope_events p c
          (allocate_decision_facts p c).event_id_for
          (head.revision + 1)
          0
          (audited p c v)
        ≡ ok events
      → apply_events p.schema head.state events ≡ success next
      → hash_game_state p.schema p.digest next ≡ ok post
      → commit_state p store c head.revision now catalog v pre post events next ≡ ok d
      → Made store c head now v d
  unfolding commit_state
  commit_state-Made store c head now catalog v d pre post events next q1 q2 q3 q4 h =
      elim (Result-cases
        (valid_transaction p (candidate_of p c head.revision now pre post (length events) v))) [
          | inr (e, q5) ↦ absurd (ground (arith, q5, h))
          | inl (t, q5) ↦
              elim (Result-cases (
                p.project next (head.revision + length events) catalog
                  (allocate_decision_facts p c).legal_action_id_for)) [
                    | inr (e, q6) ↦ absurd (ground (arith, q5, q6, h))
                    | inl (done, q6) ↦
                        elim (Result-cases (
                          commit_draft p.schema p.digest store
                            (input_of p c pre post (commit_of p c events next t)))) [
                              | inr (e, q7) ↦ absurd (ground (arith, q5, q6, q7, h))
                              | inl (after, q7) ↦
                                  let same : record {
                                    draft = after;
                                    value = commit_of p c events next t;
                                  }
                                      ≡ d =
                                    ground (arith, q5, q6, q7, h) in
                                  subst (Made store c head now v) same (record {
                                    pre = pre;
                                    post = post;
                                    events = events;
                                    next = next;
                                    hashed_before = q1;
                                    enveloped_as = q2;
                                    applied_to = q3;
                                    hashed_after = q4;
                                    recorded = q5;
                                    stored = q7;
                                    is_commit = refl;
                                  })
                            ]
                  ]
        ]

  commit_events-Made :
      (store : StoreData) (c : GameCommand Payload) (head : CampaignHead) (now : OpaqueId)
      (catalog : Catalog) (v : Verdict) (d : Draft CommittedCommand) (pre : OpaqueId)
      (events : List GameEvent)
      → hash_game_state p.schema p.digest head.state ≡ ok pre
      → envelope_events p c
          (allocate_decision_facts p c).event_id_for
          (head.revision + 1)
          0
          (audited p c v)
        ≡ ok events
      → commit_events p store c head now catalog v pre events ≡ ok d
      → Made store c head now v d
  commit_events-Made store c head now catalog v d pre events q1 q2 h =
      elim (Result-cases (applied p head.state events)) [
        | inr (e, q3) ↦ absurd (ground (arith, q3, h))
        | inl (next, q3) ↦ elim (Result-cases (hash_game_state p.schema p.digest next)) [
          | inr (e, q4) ↦ absurd (ground (arith, q3, q4, h))
          | inl (post, q4) ↦
              commit_state-Made store c head now catalog v d pre post events next q1 q2
                (applied-eq-ok head.state events q3) q4 (ground (arith, q3, q4, h))
        ]
      ]

  pub commit_decision-Made :
      (store : StoreData) (c : GameCommand Payload) (head : CampaignHead) (now : OpaqueId)
      (catalog : Catalog) (v : Verdict) (d : Draft CommittedCommand)
      → commit_decision p store c head now catalog v ≡ ok d
      → Made store c head now v d
  unfolding commit_decision
  commit_decision-Made store c head now catalog v d h =
      elim (Result-cases (hash_game_state p.schema p.digest head.state)) [
        | inr (e, q1) ↦ absurd (ground (arith, q1, h))
        | inl (pre, q1) ↦
            elim (Result-cases (
              envelope_events p c (allocate_decision_facts p c).event_id_for (head.revision + 1) 0
                (audited p c v))) [
                  | inr (e, q2) ↦ absurd (ground (arith, q1, q2, h))
                  | inl (events, q2) ↦
                      commit_events-Made store c head now catalog v d pre events q1 q2
                        (ground (arith, q1, q2, h))
                ]
      ]
