-- ===== src/Engine/Apply/History.antt =====
-- The fold of the reducer of packages/engine/src/apply-event.ts along a stream of events.
use lldm.Prelude.{ℕ, ◌≡◌, ap, arith, Result, ok, err, List, [], ◌∷◌, inl, inr, ==_iff}
use mathlib.Core.Path.{subst}
use lldm.Contracts.Ids.{OpaqueId}
use lldm.Contracts.Validation.{success, ValidationResult-cases, conclude-eq-success}
use lldm.Contracts.GameState.{GameState, SchemaChecks, validate_game_state}
use lldm.Contracts.Events.{GameEvent}
use lldm.Engine.Apply.Reducer.{apply_body, apply_game_event, apply_events, finish}
use lldm.Engine.Apply.Kept.{Kept, Remembers, apply_body-Kept, apply_body-Remembers}

finish-eq-success :
    (schema : SchemaChecks) (revision : ℕ) (r : Result GameState) (next : GameState)
    → finish schema revision r ≡ success next
    → (r ≡ ok next) × (validate_game_state schema next ≡ success next)
unfolding validate_game_state
finish-eq-success schema revision (err message) next h = absurd cc
finish-eq-success schema revision (ok s) next h =
    let same : s ≡ next = (conclude-eq-success s _ h).1 in
    (ap ok same, subst (λ x. validate_game_state schema x ≡ success next) same h)

-- What an accepted event shows: its handler succeeded, and the state that results is valid.
pub apply_game_event-eq-success :
    (schema : SchemaChecks) (s : GameState) (e : GameEvent) (next : GameState)
    → apply_game_event schema s e ≡ success next
    → (apply_body schema s e.body ≡ ok next)
      × (validate_game_state schema next ≡ success next)
      × (e.campaign_id ≡ s.campaign_id)
unfolding apply_game_event
apply_game_event-eq-success schema s e next h =
    let (applied, valid) =
      finish-eq-success schema e.stream_revision (apply_body schema s e.body) next
        (ground (arith, h)) in
    (applied, valid, ground (arith, h, (==_iff s.campaign_id e.campaign_id).0))

-- What a state owes to an earlier one.
pub record Follows (schema : SchemaChecks) (s t : GameState) : Type 0 where
  pub sound : validate_game_state schema t ≡ success t
  pub kept : Kept s t
  pub remembered : (id : OpaqueId) → Remembers id s t

-- From a valid state, a stream that is accepted leads to a valid state of the same campaign and the
-- same content, with a session number that is not lower and every dead character still dead.
pub apply_events-Follows :
    (schema : SchemaChecks) (s t : GameState) (events : List GameEvent)
    → validate_game_state schema s ≡ success s
    → apply_events schema s events ≡ success t
    → Follows schema s t
unfolding apply_events
apply_events-Follows schema s t [] v h =
    let same : s ≡ t = cc in
    subst (Follows schema s) same
      (record { sound = v; kept = ground arith; remembered = λ id dead. dead })
apply_events-Follows schema s t (e ∷ events) v h =
    elim (ValidationResult-cases (apply_game_event schema s e)) [
      | inr (is, q) ↦ absurd (ground (arith, q, h))
      | inl (next, q) ↦
          let (applied, valid, _) = apply_game_event-eq-success schema s e next q in
          let later = apply_events-Follows schema next t events valid (ground (arith, q, h)) in
          record {
            sound = later.sound;
            kept = ground (arith, apply_body-Kept schema s e.body applied, later.kept);
            remembered = λ id dead.
                later.remembered id (apply_body-Remembers schema s e.body id applied dead);
          }
    ]
