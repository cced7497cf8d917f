-- ===== src/Runtime/Coordinator/Journals.antt =====
-- The coordinator of packages/runtime/src/application/coordinator.ts and the replay of
-- packages/runtime/src/application/replay.ts together: the histories that submissions leave.
use lldm.Prelude.{
  ◌+◌, ◌≡◌, ap, sym, ◌∙◌, arith, false, Option, none, some, List, [], ◌∷◌, ◌++◌, find, ◌==◌, ==_iff,
  includes, length, inl, inr, Bool-cases, find-holds,
}
use mathlib.Core.Path.{subst, subst⁻¹}
use lldm.Prelude.Names.{Within}
use lldm.Contracts.Ids.{OpaqueId}
use lldm.Contracts.GameState.{GameState}
use lldm.Contracts.Transactions.{TransactionRecord}
use lldm.Runtime.Identities.{IdentityTexts}
use lldm.Runtime.Ports.{GameCommand, Ports}
use lldm.Runtime.Store.{StoreData, Campaign, CommittedCommand, Draft, is_campaign}
use lldm.Runtime.Store.Undo.{CampaignHead}
use lldm.Runtime.Commitment.{Verdict, stored_of}
use lldm.Runtime.Store.Campaigns.{find-set_campaign_same, find-set_campaign_other}
use lldm.Runtime.Coordinator.{submit}
use lldm.Runtime.Coordinator.Effects.{submit-cases}
use lldm.Runtime.Coordinator.Heads.{Made-Moved, Moved}
use lldm.Runtime.Coordinator.Entries.{platform_of, IsDeterministic, Entered, Made-Entered}
use lldm.Runtime.Replay.{replayed, replay_from}
use lldm.Runtime.Replay.Transactions.{Recorded}
use lldm.Runtime.Replay.Journal.{Journal, records, ids_of, Journal-replays}
use lldm.Runtime.Coordinator.Histories.{
  transactions_in, names_in, transactions_in-same, transactions_in-other, ids_of-within,
  includes-names_in-snoc, includes-snoc, not_named,
}

module _ {Raw Payload Catalog : Type 0} (p : Ports Raw Payload Catalog) where
  -- Submissions one after the other, each with the reading of the clock.
  unfoldable pub submit_all : StoreData → List (OpaqueId × Raw) → StoreData
  submit_all store [] = store
  submit_all store ((now, raw) ∷ rest) = submit_all (submit p now store raw).data_after rest

module _ {Raw Payload Catalog : Type 0} (p : Ports Raw Payload Catalog)
    (canonical : GameState → OpaqueId) (texts : IdentityTexts)
    (initial : OpaqueId → GameState) where
  abbrev pub JournalOf : OpaqueId → List TransactionRecord → Option Campaign → Type 0
  JournalOf id ts none = Unit
  JournalOf id ts (some c) =
      Journal (platform_of p canonical texts) id (initial id) ts c.events c.revision c.state

  -- The commands and the stream of each campaign are a journal from its initial state.
  pub record StoreJournaled (store : StoreData) : Type 0 where
    pub journals :
        (id : OpaqueId)
        → JournalOf id (transactions_in id store.commands) (find (is_campaign id) store.campaigns)
    pub named : Within (names_in store.commands) store.transaction_ids

  -- The journal of the campaign that a commit moves.
  Moved-Journal :
      (store : StoreData) (c : GameCommand Payload) (head : CampaignHead) (v : Verdict)
      (d : Draft CommittedCommand) (m : Moved p store c head v d)
      → Entered p canonical texts store c head d
      → StoreJournaled store
      → JournalOf c.campaign_id (transactions_in c.campaign_id d.draft.commands) (some m.to)
  Moved-Journal store c head v d m e j =
      let id = c.campaign_id in
      let t = d.value.transaction in
      let own = d.value.events in
      let from = m.from.campaign in
      let ts = transactions_in id store.commands in
      let old : JournalOf id ts (some from) =
        subst (JournalOf id ts) m.from.found (j.journals id) in
      let recorded =
        subst
          (λ s.
            Recorded (platform_of p canonical texts) id from.revision s d.value.post_state t own)
          m.from.same_state
          (subst
            (λ n. Recorded (platform_of p canonical texts) id n head.state d.value.post_state t own)
            m.from.same_revision e.recorded) in
      let fresh : includes t.transaction_id (ids_of ts) ≡ false =
        ids_of-within t.transaction_id id store.commands (
          not_named t.transaction_id (names_in store.commands) store.transaction_ids j.named
            (ground (arith, e.is_new, e.of_transaction))) in
      let entered = records d.value.post_state t own old recorded fresh in
      let listed : transactions_in id d.draft.commands ≡ ts ++ t ∷ [] =
        ap (transactions_in id) e.commands_after
        ∙ transactions_in-same id store.commands (stored_of p c d.value) e.of_campaign in
      let at = Journal (platform_of p canonical texts) id (initial id) in
      subst⁻¹ (λ x. at x m.to.events m.to.revision m.to.state) listed
        (subst⁻¹ (λ x. at (ts ++ t ∷ []) x m.to.revision m.to.state) m.appended
          (subst⁻¹ (λ x. at (ts ++ t ∷ []) (from.events ++ own) x m.to.state) m.moved_to
            (subst⁻¹ (λ x. at (ts ++ t ∷ []) (from.events ++ own) (from.revision + length own) x)
              m.state_after entered)))

  Moved-journals :
      (store : StoreData) (c : GameCommand Payload) (head : CampaignHead) (v : Verdict)
      (d : Draft CommittedCommand) (m : Moved p store c head v d)
      → Entered p canonical texts store c head d
      → StoreJournaled store
      → (id : OpaqueId)
      → JournalOf id (transactions_in id d.draft.commands) (find (is_campaign id) d.draft.campaigns)
  Moved-journals store c head v d m e j id =
      let same_id : m.to.campaign_id ≡ c.campaign_id =
        m.named
        ∙ (==_iff m.from.campaign.campaign_id c.campaign_id).0
            (find-holds (is_campaign c.campaign_id) store.campaigns m.from.campaign m.from.found) in
      elim (Bool-cases (id == c.campaign_id)) [
        | inl b ↦
            let same : c.campaign_id ≡ id = sym ((==_iff id c.campaign_id).0 b) in
            let found : find (is_campaign id) d.draft.campaigns ≡ some m.to =
              ap (find (is_campaign id)) m.replaced
              ∙ find-set_campaign_same m.to store.campaigns id (same_id ∙ same) in
            subst⁻¹ (JournalOf id (transactions_in id d.draft.commands)) found (
              subst (λ x. JournalOf x (transactions_in x d.draft.commands) (some m.to)) same
                (Moved-Journal store c head v d m e j))
        | inr b ↦
            let found : find (is_campaign id) d.draft.campaigns
                ≡ find (is_campaign id) store.campaigns =
              ap (find (is_campaign id)) m.replaced
              ∙ find-set_campaign_other m.to store.campaigns id (ground (arith, b, same_id)) in
            let listed : transactions_in id d.draft.commands ≡ transactions_in id store.commands =
              ap (transactions_in id) e.commands_after
              ∙ transactions_in-other id store.commands (stored_of p c d.value)
                  (ground (arith, b, e.of_campaign)) in
            subst⁻¹ (JournalOf id (transactions_in id d.draft.commands)) found (
              subst⁻¹ (λ ts. JournalOf id ts (find (is_campaign id) store.campaigns)) listed
                (j.journals id))
      ]

  Entered-named :
      (store : StoreData) (c : GameCommand Payload) (head : CampaignHead)
      (d : Draft CommittedCommand)
      → Entered p canonical texts store c head d
      → Within (names_in store.commands) store.transaction_ids
      → Within (names_in d.draft.commands) d.draft.transaction_ids
  Entered-named store c head d e w id h = ground (
    arith,
    h,
    e.commands_after,
    e.ids_after,
    e.of_transaction,
    w id,
    includes-names_in-snoc id store.commands (stored_of p c d.value),
    includes-snoc id c.transaction_id store.transaction_ids,
  )

  pub submit-StoreJournaled :
      IsDeterministic p canonical texts
      → (now : OpaqueId) (store : StoreData) (raw : Raw) → StoreJournaled store
      → StoreJournaled (submit p now store raw).data_after
  submit-StoreJournaled same_ids now store raw j = elim (submit-cases p now store raw) [
    | inl (same, q) ↦ subst⁻¹ StoreJournaled same j
    | inr k ↦
        let c = k.command in
        let head = k.commits_it.head in
        let v = k.commits_it.verdict in
        let d : Draft CommittedCommand = record {
          draft = k.drafted.draft;
          value = k.commits_it.commit;
        } in
        let m = Made-Moved p now store c head v d k.commits_it.loaded k.commits_it.made in
        let e = Made-Entered p canonical texts same_ids now store c head v d k.commits_it.made m in
        subst⁻¹ (λ s. StoreJournaled s.data_after) k.settles
          (record {
            journals = Moved-journals store c head v d m e j;
            named = Entered-named store c head d e j.named;
          })
  ]

  submit_all-StoreJournaled :
      IsDeterministic p canonical texts
      → (store : StoreData) (raws : List (OpaqueId × Raw)) → StoreJournaled store
      → StoreJournaled (submit_all p store raws)
  unfolding submit_all
  submit_all-StoreJournaled same_ids store [] j = j
  submit_all-StoreJournaled same_ids store ((now, raw) ∷ rest) j =
      submit_all-StoreJournaled same_ids (submit p now store raw).data_after rest
        (submit-StoreJournaled same_ids now store raw j)

  -- After any submissions to a store whose campaigns are journaled, such as a store without commands,
  -- the replay of a campaign from its initial state, through its transactions in the order of their
  -- commits and the events of its stream, succeeds and ends in the state of its head, where the
  -- coordinator gives events the identities of the deterministic port, as it does by default.
  pub submit_all-replays :
      IsDeterministic p canonical texts
      → (store : StoreData) (raws : List (OpaqueId × Raw)) (id : OpaqueId) (c : Campaign)
      → StoreJournaled store
      → find (is_campaign id) (submit_all p store raws).campaigns ≡ some c
      → replay_from
          (platform_of p canonical texts)
          id
          0
          c.events
          (initial id)
          0
          (transactions_in id (submit_all p store raws).commands)
        ≡ replayed c.state
  submit_all-replays same_ids store raws id c j found =
      Journal-replays (platform_of p canonical texts) id (initial id) (
        subst (JournalOf id (transactions_in id (submit_all p store raws).commands)) found
          ((submit_all-StoreJournaled same_ids store raws j).journals id))
