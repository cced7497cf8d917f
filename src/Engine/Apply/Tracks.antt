-- ===== src/Engine/Apply/Tracks.antt =====
-- What a change of tracks does to a challenge: the case `challenge_tracks_changed` of
-- packages/engine/src/apply-event.ts.
use lldm.Prelude.{◌≤◌, ◌<◌, ◌≡◌, ◌↔◌, refl, arith, ok, some, [], find, find-holds, find-modify}
use lldm.Contracts.Challenges.{
  ChallengeState, challenge_active, challenge_status_index, challenge_issues,
  expected_challenge_status,
}
use lldm.Contracts.GameState.{GameState, SchemaChecks, validate_challenge, behind-eq-nil}
use lldm.Contracts.Events.{TrackChange}
use lldm.Engine.Apply.Access.{is_challenge}
use lldm.Engine.Apply.Challenges.{apply_tracks_changed, set_tracks}

challenge_issues-eq-nil :
    (c : ChallengeState)
    → challenge_issues c ≡ []
    → (c.progress.current ≤ c.progress.maximum)
      × (c.danger.current ≤ c.danger.maximum)
      × (challenge_status_index c.status ≡ challenge_status_index (expected_challenge_status c))
unfolding challenge_issues
challenge_issues-eq-nil c h = ground (arith, h)

-- A challenge that is in order is active exactly while both of its tracks are below their maximum.
active_iff :
    (c : ChallengeState)
    → c.progress.current ≤ c.progress.maximum
    → c.danger.current ≤ c.danger.maximum
    → challenge_status_index c.status ≡ challenge_status_index (expected_challenge_status c)
    → (c.status ≡ challenge_active)
      ↔ ((c.progress.current < c.progress.maximum) × (c.danger.current < c.danger.maximum))
unfolding expected_challenge_status
active_iff c p d h = (λ a. ground (arith, a), λ b. ground (arith, b))

-- The challenge `d` is the challenge `c` with tracks that have grown.
pub record Grows (e : TrackChange) (c d : ChallengeState) : Type 0 where
  pub was_active : c.status ≡ challenge_active
  pub same_progress : d.progress.maximum ≡ c.progress.maximum
  pub same_danger : d.danger.maximum ≡ c.danger.maximum
  pub has_progress : d.progress.current ≡ e.progress_after
  pub has_danger : d.danger.current ≡ e.danger_after
  pub progress_grows : c.progress.current ≤ d.progress.current
  pub danger_grows : c.danger.current ≤ d.danger.current
  pub progress_bounded : d.progress.current ≤ d.progress.maximum
  pub danger_bounded : d.danger.current ≤ d.danger.maximum
  pub stays_active :
      (d.status ≡ challenge_active)
      ↔ ((d.progress.current < d.progress.maximum) × (d.danger.current < d.danger.maximum))

-- A change of the tracks of a challenge that is accepted finds the challenge active and leaves one of
-- that name with the recorded tracks, neither of them lower, both within their unchanged maximum, that
-- is active exactly while both are below it.
pub tracks_changed-grow :
    (schema : SchemaChecks) (s : GameState) (e : TrackChange) (c : ChallengeState) {t : GameState}
    → find (is_challenge e.challenge_id) s.challenges ≡ some c
    → apply_tracks_changed schema s e ≡ ok t
    → (d : ChallengeState) × (find (is_challenge e.challenge_id) t.challenges ≡ some d)
      × Grows e c d
unfolding apply_tracks_changed
tracks_changed-grow schema s e c found h =
    let d = set_tracks e.progress_after e.danger_after e.status c in
    let none_found : validate_challenge schema d ≡ [] = ground (arith, found, h) in
    let (progress, danger, status) =
      challenge_issues-eq-nil d
        (behind-eq-nil (schema.challenge d) (challenge_issues d) none_found) in
    (
      d,
      ground (
        arith,
        found,
        h,
        find-holds (is_challenge e.challenge_id) s.challenges c found,
        find-modify (is_challenge e.challenge_id)
            (set_tracks e.progress_after e.danger_after e.status) s.challenges c found,
      ),
      record {
        was_active = ground (arith, found, h);
        same_progress = refl;
        same_danger = refl;
        has_progress = refl;
        has_danger = refl;
        progress_grows = ground (arith, found, h);
        danger_grows = ground (arith, found, h);
        progress_bounded = progress;
        danger_bounded = danger;
        stays_active = active_iff d progress danger status;
      },
    )
