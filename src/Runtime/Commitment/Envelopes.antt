-- ===== src/Runtime/Commitment/Envelopes.antt =====
-- The envelopes of packages/runtime/src/application/coordinator.ts around the proposed events.
use lldm.Prelude.{
  ℕ, ◌+◌, ◌≡◌, refl, ap, ◌∙◌, arith, true, some, List, [], ◌∷◌, map, all, length, ◌==◌, ok, inl,
  inr, Result-cases,
}
use lldm.Contracts.Ids.{OpaqueId}
use lldm.Contracts.Validation.{ValidationResult-cases, conclude, conclude-eq-success}
use lldm.Contracts.Transactions.{TransactionRecord}
use lldm.Contracts.Events.{EventBody, GameEvent}
use lldm.Engine.Compensation.{body_of}
use lldm.Runtime.Ports.{GameCommand, Ports}
use lldm.Runtime.Store.{events_follow, last_revision_of}
use lldm.Runtime.Commitment.{enveloped, valid_event, envelope_events}

module _ {Raw Payload Catalog : Type 0} (p : Ports Raw Payload Catalog) where
  -- The events without the test of their schema.
  unfoldable pub wrapped :
      GameCommand Payload → (ℕ → OpaqueId) → ℕ → ℕ → List EventBody → List GameEvent
  wrapped c ids first index [] = []
  wrapped c ids first index (body ∷ bodies) =
      enveloped p c ids first index body ∷ wrapped c ids first (index + 1) bodies

  -- The schema finds no issue.
  abbrev pub AllFit : List GameEvent → Type 0
  AllFit [] = Unit
  AllFit (e ∷ es) = (p.event_schema e ≡ []) × AllFit es

  valid_event-same : (e : GameEvent) {f : GameEvent} → valid_event p e ≡ ok f → e ≡ f
  valid_event-same e h = elim (ValidationResult-cases (conclude e (p.event_schema e))) [
    | inl (v, q) ↦ (conclude-eq-success e (p.event_schema e) q).1 ∙ ground (arith, q, h)
    | inr (is, q) ↦ absurd (ground (arith, q, h))
  ]

  pub envelope_events-wrapped :
      (c : GameCommand Payload) (ids : ℕ → OpaqueId) (first index : ℕ) (bodies : List EventBody)
      (events : List GameEvent)
      → envelope_events p c ids first index bodies ≡ ok events
      → events ≡ wrapped c ids first index bodies
  unfolding envelope_events wrapped
  envelope_events-wrapped c ids first index [] events h = ground (arith, h)
  envelope_events-wrapped c ids first index (body ∷ bodies) events h =
      let e = enveloped p c ids first index body in
      elim (Result-cases (valid_event p e)) [
        | inr (m, q) ↦ absurd (ground (arith, q, h))
        | inl (f, q) ↦ elim (Result-cases (envelope_events p c ids first (index + 1) bodies)) [
          | inr (m, r) ↦ absurd (ground (arith, q, r, h))
          | inl (fs, r) ↦
              let whole : f ∷ fs ≡ events = ground (arith, q, r, h) in
              ground (
                arith,
                whole,
                valid_event-same e q,
                envelope_events-wrapped c ids first (index + 1) bodies fs r,
              )
        ]
      ]

  pub wrapped-envelope_events :
      (c : GameCommand Payload) (ids : ℕ → OpaqueId) (first index : ℕ) (bodies : List EventBody)
      → AllFit (wrapped c ids first index bodies)
      → envelope_events p c ids first index bodies ≡ ok (wrapped c ids first index bodies)
  unfolding envelope_events wrapped
  wrapped-envelope_events c ids first index [] fit = refl
  wrapped-envelope_events c ids first index (body ∷ bodies) fit =
      ground (arith, fit.0, wrapped-envelope_events c ids first (index + 1) bodies fit.1)

  pub length-wrapped :
      (c : GameCommand Payload) (ids : ℕ → OpaqueId) (first index : ℕ) (bodies : List EventBody)
      → length (wrapped c ids first index bodies) ≡ length bodies
  unfolding wrapped
  length-wrapped c ids first index [] = refl
  length-wrapped c ids first index (body ∷ bodies) =
      ground (arith, length-wrapped c ids first (index + 1) bodies)

  pub bodies-wrapped :
      (c : GameCommand Payload) (ids : ℕ → OpaqueId) (first index : ℕ) (bodies : List EventBody)
      → map body_of (wrapped c ids first index bodies) ≡ bodies
  unfolding wrapped
  bodies-wrapped c ids first index [] = refl
  bodies-wrapped c ids first index (body ∷ bodies) =
      ap (λ rest. body ∷ rest) (bodies-wrapped c ids first (index + 1) bodies)

  pub campaign-wrapped :
      (c : GameCommand Payload) (ids : ℕ → OpaqueId) (first index : ℕ) (bodies : List EventBody)
      → all (λ e. e.campaign_id == c.campaign_id) (wrapped c ids first index bodies) ≡ true
  unfolding wrapped all
  campaign-wrapped c ids first index [] = refl
  campaign-wrapped c ids first index (body ∷ bodies) =
      ground (arith, campaign-wrapped c ids first (index + 1) bodies)

  -- The tests of the store on the numbers and names of a commit's events.
  pub wrapped-follow :
      (c : GameCommand Payload) (ids : ℕ → OpaqueId) (t : TransactionRecord) (revision index : ℕ)
      (bodies : List EventBody)
      → t.transaction_id ≡ c.transaction_id
      → t.command_id ≡ c.command_id
      → events_follow t revision index (wrapped c ids (revision + 1) index bodies) ≡ true
  unfolding wrapped events_follow
  wrapped-follow c ids t revision index [] h k = refl
  wrapped-follow c ids t revision index (body ∷ bodies) h k =
      ground (arith, h, k, wrapped-follow c ids t revision (index + 1) bodies h k)

  pub wrapped-last_revision :
      (c : GameCommand Payload) (ids : ℕ → OpaqueId) (first index : ℕ) (body : EventBody)
      (bodies : List EventBody)
      → last_revision_of (wrapped c ids first index (body ∷ bodies))
        ≡ some (first + index + length bodies)
  unfolding wrapped last_revision_of
  wrapped-last_revision c ids first index body [] = ground arith
  wrapped-last_revision c ids first index body (next ∷ bodies) =
      ground (arith, wrapped-last_revision c ids first (index + 1) next bodies)
