-- ===== src/Runtime/Replay/Verified.antt =====
-- What a successful replay of packages/runtime/src/application/replay.ts shows of the stored campaign.
use lldm.Prelude.{
  ◌≡◌, refl, ap, sym, ◌∙◌, arith, Bool, true, false, some, List, ◌==◌, ◌⊎◌, ok, inl, inr,
  Bool-cases, Result-cases, Option-cases,
}
use mathlib.Core.Path.{subst}
use lldm.Contracts.Ids.{OpaqueId}
use lldm.Contracts.Validation.{success}
use lldm.Contracts.GameState.{GameState, validate_game_state}
use lldm.Contracts.Transactions.{TransactionRecord}
use lldm.Contracts.Events.{GameEvent}
use lldm.Engine.Apply.Reducer.{apply_events}
use lldm.Runtime.Store.{hash_game_state}
use lldm.Runtime.Store.Invariant.{hash_game_state-eq-ok}
use lldm.Runtime.Replay.{
  ReplayDiagnostic, Replayed, replayed, mismatched, thrown, ReplayPlatform, CampaignStorage,
  History, replay_from,
}
use lldm.Runtime.Replay.Campaigns.{
  ReplayStart, ReplaySuccess, ReplayResult, replay_success, replay_failure, choose_start,
  create_empty_campaign_state, replay_to_head, replay_stored, settle_replay, replay_sqlite_campaign,
  verify_full_and_snapshot_replay,
}
use lldm.Runtime.Replay.Folds.{
  ended, ends_with, ends_mismatched, ends_thrown, replayed_events, replay_from-folds,
}

module _ (p : ReplayPlatform) (campaign : OpaqueId) where
  -- A replay that reached the stored head.
  pub record Reached (prefer : Bool) (history : History) (r : ReplaySuccess) : Type 0 where
    pub stored : CampaignStorage
    pub transactions : List TransactionRecord
    pub events : List GameEvent
    pub read_storage : history.storage ≡ ok (some stored)
    pub read_transactions : history.transactions ≡ ok transactions
    pub read_events : history.events ≡ ok events
    pub start : ReplayStart
    pub starts :
        start
        ≡ choose_start p campaign prefer stored.content_manifest_hash transactions history.snapshots
    pub folds :
        apply_events p.schema start.state (replayed_events start.revision events transactions)
        ≡ success r.state
    pub valid : validate_game_state p.schema r.state ≡ success r.state
    pub hashed : r.state_hash ≡ p.digest r.state
    pub same_hash : r.state_hash ≡ stored.state_hash
    pub same_text : p.canonical_json r.state ≡ stored.state_json
    pub same_revision : r.revision ≡ stored.current_revision

  settled-success :
      (r : Replayed ReplaySuccess) (s : ReplaySuccess)
      → settle_replay p campaign r ≡ replay_success s
      → r ≡ replayed s
  settled-success (replayed t) s h = cc
  settled-success (mismatched d) s h = absurd cc
  settled-success thrown s h = absurd cc

  to_head-Reached :
      (prefer : Bool) (history : History) (stored : CampaignStorage)
      (transactions : List TransactionRecord) (events : List GameEvent) (r : ReplaySuccess)
      → history.storage ≡ ok (some stored)
      → history.transactions ≡ ok transactions
      → history.events ≡ ok events
      → replay_to_head p campaign stored transactions events (
          choose_start p campaign prefer stored.content_manifest_hash transactions
            history.snapshots)
        ≡ replayed r
      → Reached prefer history r
  unfolding replay_to_head
  to_head-Reached prefer history stored transactions events r q1 q2 q3 h =
      let start =
        choose_start p campaign prefer stored.content_manifest_hash transactions
          history.snapshots in
      elim (ended
        (replay_from p campaign start.revision events start.state start.revision transactions)) [
          | ends_mismatched d q ↦ absurd (ground (arith, q, h))
          | ends_thrown q ↦ absurd (ground (arith, q, h))
          | ends_with s q ↦ elim (Result-cases (hash_game_state p.schema p.digest s)) [
            | inr (m, w) ↦ absurd (ground (arith, q, w, h))
            | inl (hash, w) ↦
                let (valid, digested) = hash_game_state-eq-ok p.schema p.digest s hash w in
                let state_is : s ≡ r.state = ground (arith, q, w, h) in
                record {
                  stored = stored;
                  transactions = transactions;
                  events = events;
                  read_storage = q1;
                  read_transactions = q2;
                  read_events = q3;
                  start = start;
                  starts = refl;
                  folds =
                      replay_from-folds p campaign start.revision events start.state s
                        start.revision transactions q
                      ∙ ap success state_is;
                  valid = subst (λ x. validate_game_state p.schema x ≡ success x) state_is valid;
                  hashed = ground (arith, q, w, h, digested, state_is);
                  same_hash = ground (arith, q, w, h);
                  same_text = ground (arith, q, w, h);
                  same_revision = ground (arith, q, w, h);
                }
          ]
        ]

  stored-Reached :
      (prefer : Bool) (history : History) (r : ReplaySuccess)
      → replay_stored p campaign prefer history ≡ replayed r
      → Reached prefer history r
  unfolding replay_stored
  stored-Reached prefer history r h = elim (Result-cases history.storage) [
    | inr (m, q) ↦ absurd (ground (arith, q, h))
    | inl (found, q) ↦ elim (Option-cases found) [
      | inl n ↦ absurd (ground (arith, q, n, h))
      | inr (stored, n) ↦ elim (Result-cases history.transactions) [
        | inr (m, u) ↦ absurd (ground (arith, q, n, u, h))
        | inl (transactions, u) ↦ elim (Result-cases history.events) [
          | inr (m, w) ↦ absurd (ground (arith, q, n, u, w, h))
          | inl (events, w) ↦
              to_head-Reached prefer history stored transactions events r (q ∙ ap ok n) u w
                (ground (arith, q, n, u, w, h))
        ]
      ]
    ]
  ]

  -- A replay that succeeds, in full or from a snapshot, ends in a valid state that is the fold of the
  -- replayed events from its start, and whose hash, canonical text and revision are those of the
  -- stored head.
  pub replay_sqlite_campaign-Reached :
      (prefer : Bool) (history : History) (r : ReplaySuccess)
      → replay_sqlite_campaign p campaign prefer history ≡ replay_success r
      → Reached prefer history r
  unfolding replay_sqlite_campaign
  replay_sqlite_campaign-Reached prefer history r h =
      stored-Reached prefer history r
        (settled-success (replay_stored p campaign prefer history) r h)

  ReplayResult-cases :
      (x : ReplayResult)
      → ((r : ReplaySuccess) × (x ≡ replay_success r))
        ⊎ ((d : ReplayDiagnostic) × (x ≡ replay_failure d))
  ReplayResult-cases (replay_success r) = inl (r, refl)
  ReplayResult-cases (replay_failure d) = inr (d, refl)

  -- Both replays behind a verification.
  record BothPaths (history : History) (r : ReplaySuccess) : Type 0 where
    full : ReplaySuccess
    full_replay : replay_sqlite_campaign p campaign false history ≡ replay_success full
    same_text : p.canonical_json full.state ≡ p.canonical_json r.state

  verify-BothPaths :
      (history : History) (r : ReplaySuccess)
      → verify_full_and_snapshot_replay p campaign history ≡ replay_success r
      → BothPaths history r
  unfolding verify_full_and_snapshot_replay
  verify-BothPaths history r h =
      elim (ReplayResult-cases (replay_sqlite_campaign p campaign false history)) [
        | inr (d, q) ↦ absurd (ground (arith, q, h))
        | inl (full, q) ↦
            elim (ReplayResult-cases (replay_sqlite_campaign p campaign true history)) [
              | inr (d, u) ↦ absurd (ground (arith, q, u, h))
              | inl (accelerated, u) ↦
                  elim (Bool-cases
                    (p.canonical_json full.state == p.canonical_json accelerated.state)) [
                      | inr b ↦ absurd (ground (arith, q, u, b, h))
                      | inl b ↦ record {
                        full = full;
                        full_replay = q;
                        same_text = ground (arith, q, u, b, h);
                      }
                    ]
            ]
      ]

  -- A state that all stored transactions lead to, from the empty campaign on.
  pub record FoldOfAll (history : History) (s : GameState) : Type 0 where
    pub stored : CampaignStorage
    pub transactions : List TransactionRecord
    pub events : List GameEvent
    pub read_storage : history.storage ≡ ok (some stored)
    pub read_transactions : history.transactions ≡ ok transactions
    pub read_events : history.events ≡ ok events
    pub folds :
        apply_events p.schema
          (create_empty_campaign_state campaign stored.content_manifest_hash)
          (replayed_events 0 events transactions)
        ≡ success s
    pub same_hash : p.digest s ≡ stored.state_hash

  Reached-FoldOfAll :
      (history : History) (r : ReplaySuccess) → Reached false history r → FoldOfAll history r.state
  unfolding choose_start
  Reached-FoldOfAll history r reached = record {
    stored = reached.stored;
    transactions = reached.transactions;
    events = reached.events;
    read_storage = reached.read_storage;
    read_transactions = reached.read_transactions;
    read_events = reached.read_events;
    folds =
        subst
          (λ start.
            apply_events p.schema start.state
              (replayed_events start.revision reached.events reached.transactions)
            ≡ success r.state)
          reached.starts reached.folds;
    same_hash = sym reached.hashed ∙ reached.same_hash;
  }

  -- A verified replay, whatever snapshot it began with, ends in a state with the canonical text of the
  -- fold of all stored transactions from the empty campaign, and that fold has the hash of the stored
  -- head.
  pub verify-FoldOfAll :
      (history : History) (r : ReplaySuccess)
      → verify_full_and_snapshot_replay p campaign history ≡ replay_success r
      → (s : GameState) × FoldOfAll history s × (p.canonical_json s ≡ p.canonical_json r.state)
  verify-FoldOfAll history r h =
      let paths = verify-BothPaths history r h in
      (
        paths.full.state,
        Reached-FoldOfAll history paths.full
            (replay_sqlite_campaign-Reached false history paths.full paths.full_replay),
        paths.same_text,
      )
