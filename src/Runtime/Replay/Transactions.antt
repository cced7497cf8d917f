-- ===== src/Runtime/Replay/Transactions.antt =====
-- The transactions that packages/runtime/src/application/replay.ts accepts.
use lldm.Prelude.{
  ℕ, ◌+◌, ◌≡◌, refl, arith, Bool, true, false, not, ◌&&◌, ◌||◌, List, [], ◌∷◌, ◌++◌, length, ◌==◌,
  leb, ok, inl, inr, Bool-cases, all,
}
use lldm.Contracts.Ids.{OpaqueId}
use lldm.Contracts.Validation.{success, ValidationResult-cases}
use lldm.Contracts.GameState.{GameState}
use lldm.Contracts.Transactions.{TransactionRecord}
use lldm.Contracts.Events.{GameEvent}
use lldm.Engine.Apply.Reducer.{apply_events, apply_game_event}
use lldm.Runtime.Store.{hash_game_state}
use lldm.Runtime.Replay.{
  replayed, ReplayPlatform, identity_matches, audit_matches, apply_event, apply_each,
  apply_transaction, events_of, replay_from,
}
use lldm.Runtime.Replay.Folds.{ended, ends_with, ends_mismatched, ends_thrown}

-- The revision that a replay stands at behind some transactions.
unfoldable pub revision_after : ℕ → ℕ → List TransactionRecord → ℕ
revision_after initial revision [] = revision
revision_after initial revision (t ∷ ts) = elim (leb t.last_revision initial) [
  | true ↦ revision_after initial revision ts
  | false ↦ revision_after initial t.last_revision ts
]

pub revision_after-append :
    (initial revision : ℕ) (ts us : List TransactionRecord)
    → revision_after initial revision (ts ++ us)
      ≡ revision_after initial (revision_after initial revision ts) us
unfolding revision_after
revision_after-append initial revision [] us = refl
revision_after-append initial revision (t ∷ ts) us =
    elim (Bool-cases (leb t.last_revision initial)) [
      | inl b ↦ ground (arith, b, revision_after-append initial revision ts us)
      | inr b ↦ ground (arith, b, revision_after-append initial t.last_revision ts us)
    ]

module _ (p : ReplayPlatform) (campaign : OpaqueId) where
  -- The tests on the events of a transaction, without their application.
  unfoldable pub each_matches : TransactionRecord → ℕ → List GameEvent → Bool
  each_matches t index [] = true
  each_matches t index (e ∷ es) =
      identity_matches p campaign t index e
      && (not (index == 0) || audit_matches t e.body)
      && each_matches t (index + 1) es

  apply_event-accepts :
      (t : TransactionRecord) (index : ℕ) (s next : GameState) (e : GameEvent)
      → identity_matches p campaign t index e ≡ true
      → (not (index == 0) || audit_matches t e.body) ≡ true
      → apply_game_event p.schema s e ≡ success next
      → apply_event p campaign t index s e ≡ replayed next
  unfolding apply_event
  apply_event-accepts t index s next e i a h = ground (arith, i, a, h)

  apply_each-accepts :
      (t : TransactionRecord) (index : ℕ) (s next : GameState) (es : List GameEvent)
      → each_matches t index es ≡ true
      → apply_events p.schema s es ≡ success next
      → apply_each p campaign t index s es ≡ replayed next
  unfolding apply_each apply_events each_matches
  apply_each-accepts t index s next [] m h = ground (arith, h)
  apply_each-accepts t index s next (e ∷ es) m h =
      elim (ValidationResult-cases (apply_game_event p.schema s e)) [
        | inr (is, q) ↦ absurd (ground (arith, q, h))
        | inl (u, q) ↦ ground (
          arith,
          apply_event-accepts t index s u e (ground (arith, m)) (ground (arith, m)) q,
          apply_each-accepts t (index + 1) u next es (ground (arith, m)) (ground (arith, q, h)),
        )
      ]

  -- A transaction of a history, on the revision and the state before it.
  pub record Recorded (revision : ℕ) (s next : GameState) (t : TransactionRecord)
      (events : List GameEvent) : Type 0 where
    pub first_is : t.first_revision ≡ revision + 1
    pub last_is : t.last_revision ≡ revision + length events
    pub count_is : length events ≡ t.event_count
    pub some_event : (length events == 0) ≡ false
    pub hashed_before : hash_game_state p.schema p.digest s ≡ ok t.pre_state_hash
    pub hashed_after : hash_game_state p.schema p.digest next ≡ ok t.post_state_hash
    pub applies : apply_events p.schema s events ≡ success next
    pub matches : each_matches t 0 events ≡ true
    pub owned : all (λ e. e.transaction_id == t.transaction_id) events ≡ true

  pub Recorded-replays :
      (revision : ℕ) (s next : GameState) (t : TransactionRecord) (events : List GameEvent)
      → Recorded revision s next t events
      → apply_transaction p campaign s revision t events ≡ replayed next
  unfolding apply_transaction
  Recorded-replays revision s next t events r = ground (
    arith,
    r.first_is,
    r.count_is,
    r.hashed_before,
    r.hashed_after,
    apply_each-accepts t 0 s next events r.matches r.applies,
  )

  pub replay_from-append :
      (initial : ℕ) (events : List GameEvent) (s next : GameState) (revision : ℕ)
      (ts us : List TransactionRecord)
      → replay_from p campaign initial events s revision ts ≡ replayed next
      → replay_from p campaign initial events s revision (ts ++ us)
        ≡ replay_from p campaign initial events next (revision_after initial revision ts) us
  unfolding replay_from revision_after
  replay_from-append initial events s next revision [] us h = ground (arith, h)
  replay_from-append initial events s next revision (t ∷ ts) us h =
      elim (Bool-cases (leb t.last_revision initial)) [
        | inl b ↦ ground (
          arith,
          b,
          replay_from-append initial events s next revision ts us (ground (arith, b, h)),
        )
        | inr b ↦ elim (Bool-cases (leb t.first_revision initial)) [
          | inl a ↦ absurd (ground (arith, b, a, h))
          | inr a ↦
              elim (ended
                (apply_transaction p campaign s revision t (events_of t.transaction_id events))) [
                  | ends_mismatched d q ↦ absurd (ground (arith, b, a, q, h))
                  | ends_thrown q ↦ absurd (ground (arith, b, a, q, h))
                  | ends_with u q ↦ ground (
                    arith,
                    b,
                    a,
                    q,
                    replay_from-append initial events u next t.last_revision ts us
                        (ground (arith, b, a, q, h)),
                  )
                ]
        ]
      ]

  -- One more transaction, where the filter finds its events.
  pub replay_from-Recorded :
      (events own : List GameEvent) (s next : GameState) (revision : ℕ) (t : TransactionRecord)
      → Recorded revision s next t own
      → events_of t.transaction_id events ≡ own
      → replay_from p campaign 0 events s revision (t ∷ []) ≡ replayed next
  unfolding replay_from
  replay_from-Recorded events own s next revision t r found =
      ground (
        arith,
        r.first_is,
        r.last_is,
        r.some_event,
        found,
        Recorded-replays revision s next t own r,
      )
