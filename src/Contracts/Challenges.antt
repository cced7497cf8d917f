-- ===== src/Contracts/Challenges.antt =====
-- packages/contracts/src/domains/challenges.ts.
use lldm.Prelude.{ℕ, ◌&&◌, not, List, [], ◌∷◌, ◌++◌, ltb, ◌==◌, if◌then◌else◌}
use lldm.Contracts.Ids.{OpaqueId, ContentReference}
use lldm.Contracts.Validation.{ValidationIssue, issue_if}

pub record BoundedTrack : Type 0 where
  pub current : ℕ
  pub maximum : ℕ

pub data TieRule : Type 0 where
  progress_wins danger_wins tie_with_cost : TieRule

pub data ChallengeStatus : Type 0 where
  challenge_active challenge_completed challenge_failed : ChallengeStatus
  challenge_resolved_with_cost : ChallengeStatus

pub record ChallengeState : Type 0 where
  pub challenge_id : OpaqueId
  pub definition : ContentReference
  pub progress : BoundedTrack
  pub danger : BoundedTrack
  pub tie_rule : TieRule
  pub status : ChallengeStatus

abbrev pub challenge_status_index : ChallengeStatus → ℕ
challenge_status_index challenge_active = 0
challenge_status_index challenge_completed = 1
challenge_status_index challenge_failed = 2
challenge_status_index challenge_resolved_with_cost = 3

abbrev tie_status : TieRule → ChallengeStatus
tie_status progress_wins = challenge_completed
tie_status danger_wins = challenge_failed
tie_status tie_with_cost = challenge_resolved_with_cost

unfoldable pub expected_challenge_status : ChallengeState → ChallengeStatus
expected_challenge_status c =
    let progress_full = c.progress.current == c.progress.maximum in
    let danger_full = c.danger.current == c.danger.maximum in
    if progress_full && danger_full
    then tie_status c.tie_rule
    else if progress_full
    then challenge_completed
    else if danger_full
    then challenge_failed
    else challenge_active

abbrev lifecycle_issues : ChallengeState → List ValidationIssue → List ValidationIssue
lifecycle_issues c [] =
    issue_if
      (not
        (challenge_status_index c.status == challenge_status_index (expected_challenge_status c)))
      "challenge.lifecycle_mismatch"
lifecycle_issues c (i ∷ is) = i ∷ is

-- The issues of `validateChallengeState` behind the structural check: those of the tracks first,
-- and that of the lifecycle only where the tracks have none.
unfoldable pub challenge_issues : ChallengeState → List ValidationIssue
unfolding expected_challenge_status
challenge_issues c = lifecycle_issues c (
    issue_if (ltb c.progress.maximum c.progress.current) "challenge.progress_overflow"
    ++ issue_if (ltb c.danger.maximum c.danger.current) "challenge.danger_overflow")
