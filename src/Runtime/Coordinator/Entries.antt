-- ===== src/Runtime/Coordinator/Entries.antt =====
-- A commit of packages/runtime/src/application/coordinator.ts as the replay of
-- packages/runtime/src/application/replay.ts reads it.
use lldm.Prelude.{
  ℕ, ◌+◌, ◌≡◌, refl, ap, sym, arith, true, false, List, [], ◌∷◌, ◌++◌, all, length, ◌==◌, includes,
}
use mathlib.Core.Path.{subst⁻¹}
use lldm.Contracts.Ids.{OpaqueId}
use lldm.Contracts.GameState.{GameState}
use lldm.Contracts.Transactions.{TransactionRecord}
use lldm.Contracts.Events.{EventBody}
use lldm.Runtime.Identities.{IdentityTexts, deterministic_identity_port, event_id_from}
use lldm.Runtime.Ports.{GameCommand, Ports}
use lldm.Runtime.Store.{StoreData, CommittedCommand, Draft}
use lldm.Runtime.Store.Commits.{commit_draft-Commits}
use lldm.Runtime.Store.Undo.{CampaignHead}
use lldm.Runtime.Commitment.{
  Verdict, accepting, rejecting, undoing, outcome_of, candidate_of, input_of, stored_of, audited,
  allocate_decision_facts,
}
use lldm.Runtime.Commitment.Made.{Made}
use lldm.Runtime.Commitment.Envelopes.{wrapped}
use lldm.Runtime.Coordinator.Heads.{Moved, valid_transaction-same}
use lldm.Runtime.Replay.{ReplayPlatform, audit_matches}
use lldm.Runtime.Replay.Transactions.{each_matches, Recorded}

module _ {Raw Payload Catalog : Type 0} (p : Ports Raw Payload Catalog)
    (canonical : GameState → OpaqueId) (texts : IdentityTexts) where
  -- The replay with the coordinator's schemas and digest, and its own deterministic identities.
  abbrev pub platform_of : ReplayPlatform
  platform_of = record {
    schema = p.schema;
    digest = p.digest;
    canonical_json = canonical;
    identity_texts = texts;
  }

  -- The coordinator's identity port gives events the identities of the deterministic one.
  abbrev pub IsDeterministic : Type 0
  IsDeterministic =
      (transaction : OpaqueId) (index : ℕ)
      → event_id_from p.allocate transaction index
        ≡ event_id_from (deterministic_identity_port texts) transaction index

  -- The names that an event shares with its transaction.
  record Names (c : GameCommand Payload) (first : ℕ) (t : TransactionRecord) : Type 0 where
    first_is : t.first_revision ≡ first
    transaction_is : t.transaction_id ≡ c.transaction_id
    command_is : t.command_id ≡ c.command_id

  later-each_matches :
      IsDeterministic
      → (c : GameCommand Payload) (first index : ℕ) (t : TransactionRecord)
        (bodies : List EventBody)
      → Names c first t
      → each_matches platform_of c.campaign_id t
          (index + 1)
          (wrapped p c (allocate_decision_facts p c).event_id_for first (index + 1) bodies)
        ≡ true
  unfolding each_matches wrapped allocate_decision_facts
  later-each_matches same_ids c first index t [] n = refl
  later-each_matches same_ids c first index t (body ∷ bodies) n = ground (
    arith,
    n.first_is,
    same_ids c.transaction_id (index + 1),
    n.transaction_is,
    n.command_is,
    later-each_matches same_ids c first (index + 1) t bodies n,
  )

  front-each_matches :
      IsDeterministic
      → (c : GameCommand Payload) (first : ℕ) (t : TransactionRecord) (body : EventBody)
        (bodies : List EventBody)
      → Names c first t
      → audit_matches t body ≡ true
      → each_matches platform_of c.campaign_id t 0
          (wrapped p c (allocate_decision_facts p c).event_id_for first 0 (body ∷ bodies))
        ≡ true
  unfolding each_matches wrapped allocate_decision_facts
  front-each_matches same_ids c first t body bodies n a = ground (
    arith,
    n.first_is,
    same_ids c.transaction_id 0,
    n.transaction_is,
    n.command_is,
    a,
    later-each_matches same_ids c first 0 t bodies n,
  )

  audited-each_matches :
      IsDeterministic
      → (c : GameCommand Payload) (first : ℕ) (t : TransactionRecord) (v : Verdict)
      → Names c first t
      → t.outcome ≡ outcome_of v
      → t.command_hash ≡ p.tagged_sha256 (p.canonical_json c)
      → each_matches platform_of c.campaign_id t 0
          (wrapped p c (allocate_decision_facts p c).event_id_for first 0 (audited p c v))
        ≡ true
  audited-each_matches same_ids c first t (accepting events) n o h =
      front-each_matches same_ids c first t _ events n (ground (arith, o, h))
  audited-each_matches same_ids c first t (undoing target events) n o h =
      front-each_matches same_ids c first t _ events n (ground (arith, o, h))
  audited-each_matches same_ids c first t (rejecting code detail) n o h =
      front-each_matches same_ids c first t _ [] n (ground (arith, o, h))

  owned-wrapped :
      (c : GameCommand Payload) (ids : ℕ → OpaqueId) (first index : ℕ) (id : OpaqueId)
      (bodies : List EventBody)
      → id ≡ c.transaction_id
      → all (λ e. e.transaction_id == id) (wrapped p c ids first index bodies) ≡ true
  unfolding wrapped all
  owned-wrapped c ids first index id [] h = refl
  owned-wrapped c ids first index id (body ∷ bodies) h =
      ground (arith, h, owned-wrapped c ids first (index + 1) id bodies h)

  some-audited :
      (c : GameCommand Payload) (ids : ℕ → OpaqueId) (first : ℕ) (v : Verdict)
      → (length (wrapped p c ids first 0 (audited p c v)) == 0) ≡ false
  unfolding wrapped
  some-audited c ids first (accepting events) = ground arith
  some-audited c ids first (undoing target events) = ground arith
  some-audited c ids first (rejecting code detail) = ground arith

  -- The maps of the store behind a commit, and the transaction as a replay reads it.
  pub record Entered (store : StoreData) (c : GameCommand Payload) (head : CampaignHead)
      (d : Draft CommittedCommand) : Type 0 where
    pub commands_after : d.draft.commands ≡ store.commands ++ stored_of p c d.value ∷ []
    pub ids_after : d.draft.transaction_ids ≡ store.transaction_ids ++ c.transaction_id ∷ []
    pub is_new : includes c.transaction_id store.transaction_ids ≡ false
    pub of_campaign : d.value.transaction.campaign_id ≡ c.campaign_id
    pub of_transaction : d.value.transaction.transaction_id ≡ c.transaction_id
    pub recorded :
        Recorded platform_of c.campaign_id head.revision head.state d.value.post_state
          d.value.transaction d.value.events

  pub Made-Entered :
      IsDeterministic
      → (now : OpaqueId) (store : StoreData) (c : GameCommand Payload) (head : CampaignHead)
        (v : Verdict) (d : Draft CommittedCommand)
      → Made p store c head now v d
      → Moved p store c head v d
      → Entered store c head d
  Made-Entered same_ids now store c head v d made moved =
      let facts =
        commit_draft-Commits p.schema p.digest store d.draft
          (input_of p c made.pre made.post d.value) made.stored in
      let t = d.value.transaction in
      let is_record = sym (
        valid_transaction-same p
          (candidate_of p c head.revision now made.pre made.post (length made.events) v) t
          made.recorded) in
      let events_same : d.value.events ≡ made.events = ap (λ k. k.events) made.is_commit in
      let state_same : d.value.post_state ≡ made.next = ap (λ k. k.post_state) made.is_commit in
      let ids = (allocate_decision_facts p c).event_id_for in
      record {
        commands_after = ap (λ s. s.commands) facts.after_is;
        ids_after = ap (λ s. s.transaction_ids) facts.after_is;
        is_new = facts.new_transaction;
        of_campaign = ap (λ x. x.campaign_id) is_record;
        of_transaction = ap (λ x. x.transaction_id) is_record;
        recorded = record {
          first_is = ap (λ x. x.first_revision) is_record;
          last_is = ground (arith, is_record, events_same);
          count_is = ground (arith, is_record, events_same);
          some_event =
              subst⁻¹ (λ es. (length es == 0) ≡ false) moved.events_are
                (some-audited c ids (head.revision + 1) v);
          hashed_before = ground (arith, made.hashed_before, is_record);
          hashed_after = ground (arith, made.hashed_after, is_record, state_same);
          applies = ground (arith, made.applied_to, events_same, state_same);
          matches =
              subst⁻¹ (λ es. each_matches platform_of c.campaign_id t 0 es ≡ true) moved.events_are
                (audited-each_matches same_ids c (head.revision + 1) t v
                  (record {
                    first_is = ap (λ x. x.first_revision) is_record;
                    transaction_is = ap (λ x. x.transaction_id) is_record;
                    command_is = ap (λ x. x.command_id) is_record;
                  })
                  (ap (λ x. x.outcome) is_record) (ap (λ x. x.command_hash) is_record));
          owned =
              subst⁻¹ (λ es. all (λ e. e.transaction_id == t.transaction_id) es ≡ true)
                moved.events_are
                (owned-wrapped c ids (head.revision + 1) 0 t.transaction_id (audited p c v)
                  (ap (λ x. x.transaction_id) is_record));
        };
      }
