-- ===== src/Runtime/Replay/Folds.antt =====
-- What a replay of packages/runtime/src/application/replay.ts computes, beside its comparisons.
use lldm.Prelude.{
  ℕ, ◌+◌, ◌≡◌, refl, ap, ◌∙◌, arith, true, false, List, [], ◌∷◌, ◌++◌, leb, ok, inl, inr,
  Bool-cases, Result-cases,
}
use lldm.Contracts.Ids.{OpaqueId}
use lldm.Contracts.Validation.{success, ValidationResult-cases}
use lldm.Contracts.GameState.{GameState}
use lldm.Contracts.Transactions.{TransactionRecord}
use lldm.Contracts.Events.{GameEvent}
use lldm.Engine.Apply.Reducer.{apply_events, apply_game_event}
use lldm.Runtime.Store.{hash_game_state}
use lldm.Runtime.Coordinator.Streams.{apply_events-append}
use lldm.Runtime.Replay.{
  ReplayDiagnostic, Replayed, replayed, mismatched, thrown, ReplayPlatform, apply_event, apply_each,
  apply_transaction, events_of, replay_from,
}

-- The three ways in which a step ends, with the equation.
pub data Ended {ℓ} {A : Type ℓ} (r : Replayed A) : Type ℓ where
  ends_with : (a : A) → r ≡ replayed a → Ended r
  ends_mismatched : (d : ReplayDiagnostic) → r ≡ mismatched d → Ended r
  ends_thrown : r ≡ thrown → Ended r

pub ended {ℓ} : {A : Type ℓ} (r : Replayed A) → Ended r
ended (replayed a) = ends_with a refl
ended (mismatched d) = ends_mismatched d refl
ended thrown = ends_thrown refl

-- The events that a replay from a revision on applies, in its order.
unfoldable pub replayed_events : ℕ → List GameEvent → List TransactionRecord → List GameEvent
replayed_events initial events [] = []
replayed_events initial events (t ∷ ts) = elim (leb t.last_revision initial) [
  | true ↦ replayed_events initial events ts
  | false ↦ events_of t.transaction_id events ++ replayed_events initial events ts
]

module _ (p : ReplayPlatform) (campaign : OpaqueId) where
  apply_event-accepted :
      (t : TransactionRecord) (index : ℕ) (s next : GameState) (e : GameEvent)
      → apply_event p campaign t index s e ≡ replayed next
      → apply_game_event p.schema s e ≡ success next
  unfolding apply_event
  apply_event-accepted t index s next e h =
      elim (ValidationResult-cases (apply_game_event p.schema s e)) [
        | inl (u, q) ↦ ground (arith, q, h)
        | inr (is, q) ↦ absurd (ground (arith, q, h))
      ]

  pub apply_each-folds :
      (t : TransactionRecord) (index : ℕ) (s next : GameState) (es : List GameEvent)
      → apply_each p campaign t index s es ≡ replayed next
      → apply_events p.schema s es ≡ success next
  unfolding apply_each apply_events
  apply_each-folds t index s next [] h = ground (arith, h)
  apply_each-folds t index s next (e ∷ es) h = elim (ended (apply_event p campaign t index s e)) [
    | ends_with u q ↦ ground (
      arith,
      apply_event-accepted t index s u e q,
      apply_each-folds t (index + 1) u next es (ground (arith, q, h)),
    )
    | ends_mismatched d q ↦ absurd (ground (arith, q, h))
    | ends_thrown q ↦ absurd (ground (arith, q, h))
  ]

  -- What a transaction that is replayed shows.
  pub record Applied (s next : GameState) (revision : ℕ) (t : TransactionRecord)
      (events : List GameEvent) : Type 0 where
    pub continues : t.first_revision ≡ revision + 1
    pub folds : apply_events p.schema s events ≡ success next
    pub hashed_after : hash_game_state p.schema p.digest next ≡ ok t.post_state_hash

  pub apply_transaction-Applied :
      (s next : GameState) (revision : ℕ) (t : TransactionRecord) (events : List GameEvent)
      → apply_transaction p campaign s revision t events ≡ replayed next
      → Applied s next revision t events
  unfolding apply_transaction
  apply_transaction-Applied s next revision t events h =
      elim (Result-cases (hash_game_state p.schema p.digest s)) [
        | inr (m, q) ↦ absurd (ground (arith, q, h))
        | inl (pre, q) ↦ elim (ended (apply_each p campaign t 0 s events)) [
          | ends_mismatched d r ↦ absurd (ground (arith, q, r, h))
          | ends_thrown r ↦ absurd (ground (arith, q, r, h))
          | ends_with u r ↦ elim (Result-cases (hash_game_state p.schema p.digest u)) [
            | inr (m, w) ↦ absurd (ground (arith, q, r, w, h))
            | inl (post, w) ↦
                let same : u ≡ next = ground (arith, q, r, w, h) in
                record {
                  continues = ground (arith, q, r, w, h);
                  folds = apply_each-folds t 0 s u events r ∙ ap success same;
                  hashed_after = ground (arith, q, r, w, h, same);
                }
          ]
        ]
      ]

  pub replay_from-folds :
      (initial : ℕ) (events : List GameEvent) (s next : GameState) (revision : ℕ)
      (ts : List TransactionRecord)
      → replay_from p campaign initial events s revision ts ≡ replayed next
      → apply_events p.schema s (replayed_events initial events ts) ≡ success next
  unfolding replay_from replayed_events apply_events
  replay_from-folds initial events s next revision [] h = ground (arith, h)
  replay_from-folds initial events s next revision (t ∷ ts) h =
      elim (Bool-cases (leb t.last_revision initial)) [
        | inl b ↦
            ground
              (arith, b, replay_from-folds initial events s next revision ts (ground (arith, b, h)))
        | inr b ↦ elim (Bool-cases (leb t.first_revision initial)) [
          | inl a ↦ absurd (ground (arith, b, a, h))
          | inr a ↦
              let own = events_of t.transaction_id events in
              elim (ended (apply_transaction p campaign s revision t own)) [
                | ends_mismatched d q ↦ absurd (ground (arith, b, a, q, h))
                | ends_thrown q ↦ absurd (ground (arith, b, a, q, h))
                | ends_with u q ↦
                    let applied = apply_transaction-Applied s u revision t own q in
                    let later =
                      replay_from-folds initial events u next t.last_revision ts
                        (ground (arith, b, a, q, h)) in
                    ground (
                      arith,
                      b,
                      later,
                      apply_events-append p.schema s u own (replayed_events initial events ts)
                          applied.folds,
                    )
              ]
        ]
      ]
