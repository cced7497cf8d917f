-- ===== src/Engine/Apply/Challenges.antt =====
-- The challenge cases of `applyGameEvent`.
use lldm.Prelude.{
  ℕ, Bool, true, false, ◌&&◌, ◌||◌, not, List, [], ◌∷◌, ◌++◌, ◌==◌, leb, find, any, is_some, Result,
  ok, ◌>>=◌, ◌>>◌, guard, refuse_if, require,
}
use lldm.Contracts.Ids.{OpaqueId}
use lldm.Contracts.Validation.{ValidationIssue}
use lldm.Contracts.Combat.{challenge_check}
use lldm.Contracts.Challenges.{
  ChallengeState, ChallengeStatus, challenge_active, challenge_status_index,
}
use lldm.Contracts.GameState.{GameState, SchemaChecks, validate_challenge}
use lldm.Contracts.Events.{TrackChange}
use lldm.Engine.Apply.Access.{is_challenge, update_challenge, pending_check, update_pending}
use lldm.Engine.Apply.Checks.{continue_with}

abbrev pub is_valid : List ValidationIssue → Bool
is_valid [] = true
is_valid (i ∷ is) = false

abbrev same_status : ChallengeStatus → ChallengeStatus → Bool
same_status a b = challenge_status_index a == challenge_status_index b

unfoldable pub apply_challenge_started :
    SchemaChecks → GameState → ChallengeState → Result GameState
apply_challenge_started schema s challenge = do
  refuse_if
      (any (is_challenge challenge.challenge_id) s.challenges
        || not (is_valid (validate_challenge schema challenge)))
      "Challenge start state is invalid or duplicated."
  ok (record s { challenges = s.challenges ++ challenge ∷ [] })

unfoldable pub apply_challenge_pending : GameState → OpaqueId → OpaqueId → Result GameState
apply_challenge_pending s challenge_id id = do
  pending ← require (pending_check s id) "Challenge pending check is unavailable."
  refuse_if (is_some pending.continuation) "Challenge pending check is unavailable."
  challenge ← require (find (is_challenge challenge_id) s.challenges) "Challenge is not active."
  guard (same_status challenge.status challenge_active) "Challenge is not active."
  ok (update_pending s id (continue_with (challenge_check challenge_id)))

-- The challenge with the recorded tracks and status.
abbrev pub set_tracks : ℕ → ℕ → ChallengeStatus → ChallengeState → ChallengeState
set_tracks progress danger status c = record c {
  progress = record (c.progress) { current = progress };
  danger = record (c.danger) { current = danger };
  status = status;
}

unfoldable pub apply_tracks_changed : SchemaChecks → GameState → TrackChange → Result GameState
apply_tracks_changed schema s e = do
  c ← require (find (is_challenge e.challenge_id) s.challenges) "Challenge was not found."
  guard
      (same_status c.status challenge_active
        && c.progress.current == e.progress_before
        && c.danger.current == e.danger_before
        && leb e.progress_before e.progress_after
        && leb e.danger_before e.danger_after)
      "Recorded challenge transition is invalid."
  let change = set_tracks e.progress_after e.danger_after e.status
  guard (is_valid (validate_challenge schema (change c)))
      "Challenge outcome does not match its tracks."
  ok (update_challenge s e.challenge_id change)

abbrev set_challenge_status : ChallengeStatus → ChallengeState → ChallengeState
set_challenge_status status c = record c { status = status }

unfoldable pub apply_challenge_resolved : GameState → OpaqueId → ChallengeStatus → Result GameState
apply_challenge_resolved s id outcome = do
  c ← require (find (is_challenge id) s.challenges) "Challenge was not found."
  guard (same_status c.status outcome) "Challenge resolution contradicts its tracks."
  ok (update_challenge s id (set_challenge_status outcome))
