-- ===== src/Runtime/Coordinator/Streams.antt =====
-- The streams of the campaigns as an abstract log, and the submissions of
-- packages/runtime/src/application/coordinator.ts as its steps.
use lldm.Prelude.{
  ◌+◌, ◌≡◌, refl, ap, ◌∙◌, arith, Bool, true, false, Option, none, some, List, [], ◌∷◌, ◌++◌, find,
  ◌==◌, inl, inr, ==_iff, find-holds,
}
use mathlib.Core.Path.{subst⁻¹}
use lldm.Contracts.Ids.{OpaqueId}
use lldm.Contracts.Validation.{success, ValidationResult-cases}
use lldm.Contracts.GameState.{GameState, SchemaChecks}
use lldm.Contracts.Events.{EventBody, GameEvent, command_accepted, command_rejected}
use lldm.Engine.Apply.Reducer.{apply_events, apply_game_event}
use lldm.Runtime.Ports.{GameCommand, Ports}
use lldm.Runtime.Store.{StoreData, Campaign, is_campaign}
use lldm.Runtime.Store.Campaigns.{find-set_campaign_same, find-set_campaign_other}
use lldm.Runtime.Store.Invariant.{AllCampaigns, set_campaign-AllCampaigns, find-AllCampaigns}
use lldm.Runtime.Commitment.{
  Verdict, accepting, rejecting, undoing, allocate_decision_facts, audited,
}
use lldm.Runtime.Commitment.Envelopes.{wrapped}
use lldm.Runtime.Coordinator.{submit}
use lldm.Runtime.Coordinator.Effects.{submit-cases, Committing}
use lldm.Runtime.Coordinator.Heads.{Made-Moved, Moved}

abbrev events_of : Option Campaign → List GameEvent
events_of none = []
events_of (some c) = c.events

-- The stream of each campaign; a campaign that is not stored has an empty one.
abbrev pub stream : StoreData → OpaqueId → List GameEvent
stream store id = events_of (find (is_campaign id) store.campaigns)

-- A campaign's state is the fold of its stream from the state that it was created with.
abbrev pub Sourced : SchemaChecks → (OpaqueId → GameState) → Campaign → Type 0
Sourced schema initial c = apply_events schema (initial c.campaign_id) c.events ≡ success c.state

abbrev pub is_audit : EventBody → Bool
is_audit (command_accepted kind hash) = true
is_audit (command_rejected kind hash code detail) = true
is_audit _ = false

-- A step of the log: nothing is written, or a batch that an audit event leads is appended to the
-- stream of one campaign, and the whole stream is one that the reducer accepts.
pub data LogStep (schema : SchemaChecks) (initial : OpaqueId → GameState)
    (before after : OpaqueId → List GameEvent) : Type 0 where
  stutters : ((id : OpaqueId) → after id ≡ before id) → LogStep schema initial before after
  appends :
      (id : OpaqueId) (audit : GameEvent) (batch : List GameEvent) (reached : GameState)
      → is_audit audit.body ≡ true
      → after id ≡ before id ++ audit ∷ batch
      → apply_events schema (initial id) (after id) ≡ success reached
      → ((other : OpaqueId) → (other == id) ≡ false → after other ≡ before other)
      → LogStep schema initial before after

pub apply_events-append :
    (schema : SchemaChecks) (s t : GameState) (es fs : List GameEvent)
    → apply_events schema s es ≡ success t
    → apply_events schema s (es ++ fs) ≡ apply_events schema t fs
unfolding apply_events
apply_events-append schema s t [] fs h =
    let same : s ≡ t = cc in ap (λ x. apply_events schema x fs) same
apply_events-append schema s t (e ∷ es) fs h =
    elim (ValidationResult-cases (apply_game_event schema s e)) [
      | inl (next, q) ↦
          ground (arith, q, apply_events-append schema next t es fs (ground (arith, q, h)))
      | inr (is, q) ↦ absurd (ground (arith, q, h))
    ]

module _ {Raw Payload Catalog : Type 0} (p : Ports Raw Payload Catalog) where
  -- The audit event in front of a commit's events.
  record Headed (events : List GameEvent) : Type 0 where
    audit : GameEvent
    batch : List GameEvent
    is_front : events ≡ audit ∷ batch
    audits : is_audit audit.body ≡ true

  wrapped-Headed :
      (c : GameCommand Payload) (first : OpaqueId) (v : Verdict)
      → Headed (wrapped p c (allocate_decision_facts p c).event_id_for first 0 (audited p c v))
  unfolding wrapped
  wrapped-Headed c first (accepting events) = record {
    audit = _;
    batch = _;
    is_front = refl;
    audits = refl;
  }
  wrapped-Headed c first (rejecting code detail) = record {
    audit = _;
    batch = _;
    is_front = refl;
    audits = refl;
  }
  wrapped-Headed c first (undoing target events) = record {
    audit = _;
    batch = _;
    is_front = refl;
    audits = refl;
  }

  Moved-Sourced :
      (initial : OpaqueId → GameState) (store : StoreData) (now : OpaqueId) (raw : Raw)
      (k : Committing p now store raw)
      (m : Moved p store k.command k.commits_it.head k.commits_it.verdict
        (record { draft = k.drafted.draft; value = k.commits_it.commit }))
      → AllCampaigns (Sourced p.schema initial) store.campaigns
      → Sourced p.schema initial m.to
  Moved-Sourced initial store now raw k m all =
      let old =
        find-AllCampaigns (Sourced p.schema initial) k.command.campaign_id store.campaigns
          m.from.campaign m.from.found all in
      let s = initial m.from.campaign.campaign_id in
      ground (
        arith,
        m.named,
        m.appended,
        m.applied_to,
        apply_events-append p.schema s m.from.campaign.state m.from.campaign.events
            k.commits_it.commit.events old,
      )

  Committing-LogStep :
      (initial : OpaqueId → GameState) (store : StoreData) (now : OpaqueId) (raw : Raw)
      (k : Committing p now store raw)
      → AllCampaigns (Sourced p.schema initial) store.campaigns
      → LogStep p.schema initial (stream store) (stream k.drafted.draft)
        × AllCampaigns (Sourced p.schema initial) k.drafted.draft.campaigns
  Committing-LogStep initial store now raw k all =
      let c = k.command in
      let m =
        Made-Moved p now store c k.commits_it.head k.commits_it.verdict
          (record { draft = k.drafted.draft; value = k.commits_it.commit }) k.commits_it.loaded
          k.commits_it.made in
      let sourced = Moved-Sourced initial store now raw k m all in
      let front = wrapped-Headed c (k.commits_it.head.revision + 1) k.commits_it.verdict in
      let same_id : m.to.campaign_id ≡ c.campaign_id =
        m.named
        ∙ (==_iff m.from.campaign.campaign_id c.campaign_id).0
            (find-holds (is_campaign c.campaign_id) store.campaigns m.from.campaign m.from.found) in
      let events_after : stream k.drafted.draft c.campaign_id ≡ m.to.events =
        ground
          (arith, m.replaced, find-set_campaign_same m.to store.campaigns c.campaign_id same_id) in
      (
        appends c.campaign_id front.audit front.batch m.to.state front.audits
            (ground (arith, events_after, m.appended, m.events_are, front.is_front, m.from.found))
            (ground (arith, events_after, sourced, same_id))
            (λ other ne. ground (
              arith,
              m.replaced,
              find-set_campaign_other m.to store.campaigns other (ground (arith, ne, same_id)),
            )),
        subst⁻¹ (AllCampaigns (Sourced p.schema initial)) m.replaced
            (set_campaign-AllCampaigns (Sourced p.schema initial) m.to store.campaigns sourced all),
      )

  -- Where the state of every campaign is the fold of its stream, a submission is a step of the log:
  -- it writes nothing, or it appends one batch, an audit event first, to the stream of one campaign,
  -- which the reducer accepts as a whole; and every state is again the fold of its stream.
  pub submit-LogStep :
      (initial : OpaqueId → GameState) (now : OpaqueId) (store : StoreData) (raw : Raw)
      → AllCampaigns (Sourced p.schema initial) store.campaigns
      → LogStep p.schema initial (stream store) (stream (submit p now store raw).data_after)
        × AllCampaigns (Sourced p.schema initial) (submit p now store raw).data_after.campaigns
  submit-LogStep initial now store raw all = elim (submit-cases p now store raw) [
    | inl (same, q) ↦ (
      stutters (λ id. ap (λ s. stream s id) same),
      subst⁻¹ (λ s. AllCampaigns (Sourced p.schema initial) s.campaigns) same all,
    )
    | inr k ↦
        subst⁻¹
          (λ s.
            LogStep p.schema initial (stream store) (stream s.data_after)
            × AllCampaigns (Sourced p.schema initial) s.data_after.campaigns)
          k.settles (Committing-LogStep initial store now raw k all)
  ]
