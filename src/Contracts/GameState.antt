-- ===== src/Contracts/GameState.antt =====
-- packages/contracts/src/game-state.ts: the canonical state of a campaign and its invariants.
use lldm.Prelude.{
  ℕ, ◌≡◌, ◌+◌, String, not, Option, none, some, List, [], ◌∷◌, ◌++◌, map, ◌==◌, ltb, includes,
  length,
}
use lldm.Contracts.Ids.{OpaqueId}
use lldm.Contracts.Validation.{
  ValidationIssue, ValidationResult, conclude, issue_if, duplicate_issues, issues_of_each,
}
use lldm.Contracts.Characters.{PlayableCharacter, playable_character_issues}
use lldm.Contracts.Combat.{CombatState, PendingCheck}
use lldm.Contracts.Combat.Validity.{combat_issues}
use lldm.Contracts.Challenges.{ChallengeState, challenge_issues}
use lldm.Contracts.Social.{SocialState, social_issues}
use lldm.Contracts.Rituals.{RitualState, ritual_issues}

pub record PermanentScar : Type 0 where
  pub scar_id : OpaqueId
  pub character_id : OpaqueId
  pub name : String

pub record Party : Type 0 where
  pub supply : ℕ
  pub supply_maximum : ℕ
  pub characters : List PlayableCharacter

pub record GameState : Type 0 where
  pub campaign_id : OpaqueId
  pub content_manifest_hash : OpaqueId
  pub session_number : ℕ
  pub scene_id : Option OpaqueId
  pub party : Party
  pub pending_physical_checks : List PendingCheck
  pub combat : Option CombatState
  pub challenges : List ChallengeState
  pub social_states : List SocialState
  pub rituals : List RitualState
  pub permanent_scars : List PermanentScar
  pub permanent_deaths : List OpaqueId

-- `validateValue` is a call of the schema library: for each schema, the issues that it finds.
pub record SchemaChecks : Type 0 where
  pub game_state : GameState → List ValidationIssue
  pub playable_character : PlayableCharacter → List ValidationIssue
  pub combat_state : CombatState → List ValidationIssue
  pub challenge : ChallengeState → List ValidationIssue
  pub social_state : SocialState → List ValidationIssue
  pub ritual : RitualState → List ValidationIssue

-- `if (!structural.success) return structural`, and the semantic issues behind it.
abbrev pub behind : List ValidationIssue → List ValidationIssue → List ValidationIssue
behind [] semantic = semantic
behind (i ∷ is) semantic = i ∷ is

pub behind-eq-nil :
    (structural semantic : List ValidationIssue) → behind structural semantic ≡ [] → semantic ≡ []
behind-eq-nil [] semantic h = h
behind-eq-nil (i ∷ is) semantic h = absurd cc

-- The `validate…` functions of the domains, as the issues of their result.
abbrev pub validate_playable_character : SchemaChecks → PlayableCharacter → List ValidationIssue
validate_playable_character schema c =
    behind (schema.playable_character c) (playable_character_issues c)

abbrev pub validate_challenge : SchemaChecks → ChallengeState → List ValidationIssue
validate_challenge schema c = behind (schema.challenge c) (challenge_issues c)

abbrev pub validate_social : SchemaChecks → SocialState → List ValidationIssue
validate_social schema s = behind (schema.social_state s) (social_issues s)

abbrev pub validate_ritual : SchemaChecks → RitualState → List ValidationIssue
validate_ritual schema r = behind (schema.ritual r) (ritual_issues r)

abbrev pub validate_combat : SchemaChecks → Option CombatState → List ValidationIssue
validate_combat schema none = []
validate_combat schema (some c) = behind (schema.combat_state c) (combat_issues c)

abbrev pub unknown_death_issues : List OpaqueId → OpaqueId → List ValidationIssue
unknown_death_issues characters id =
    issue_if (not (includes id characters)) "state.unknown_dead_character"

unfoldable pub game_state_issues : SchemaChecks → GameState → List ValidationIssue
game_state_issues schema s =
    let character_ids = map (λ c. c.character_id) s.party.characters in
    issue_if (not (s.party.supply_maximum == length s.party.characters + 2))
      "party.supply_maximum_mismatch"
    ++ issue_if (ltb s.party.supply_maximum s.party.supply) "party.supply_overflow"
    ++ issues_of_each (validate_playable_character schema) s.party.characters
    ++ validate_combat schema s.combat
    ++ issues_of_each (validate_challenge schema) s.challenges
    ++ issues_of_each (validate_social schema) s.social_states
    ++ issues_of_each (validate_ritual schema) s.rituals
    ++ duplicate_issues character_ids "state.duplicate_character"
    ++ duplicate_issues (map (λ c. c.foundation.actor_id) s.party.characters)
        "state.duplicate_actor"
    ++ duplicate_issues (map (λ p. p.pending_check_id) s.pending_physical_checks)
        "state.duplicate_pending_check"
    ++ duplicate_issues (map (λ p. p.submission_nonce) s.pending_physical_checks)
        "state.duplicate_submission_nonce"
    ++ duplicate_issues (map (λ c. c.challenge_id) s.challenges) "state.duplicate_challenge"
    ++ duplicate_issues (map (λ c. c.npc_actor_id) s.social_states) "state.duplicate_social_state"
    ++ duplicate_issues (map (λ r. r.ritual_id) s.rituals) "state.duplicate_ritual"
    ++ duplicate_issues (map (λ c. c.scar_id) s.permanent_scars) "state.duplicate_scar"
    ++ issues_of_each (unknown_death_issues character_ids) s.permanent_deaths

unfoldable pub validate_game_state : SchemaChecks → GameState → ValidationResult GameState
validate_game_state schema s =
    conclude s (behind (schema.game_state s) (game_state_issues schema s))
