-- ===== src/Contracts/Social.antt =====
-- packages/contracts/src/domains/social.ts.
use lldm.Prelude.{ℕ, String, List, ◌++◌, map, ltb, length}
use lldm.Contracts.Ids.{OpaqueId, ContentReference}
use lldm.Contracts.Validation.{ValidationIssue, issue_if, duplicate_issues}

pub data InformationVisibility : Type 0 where
  to_public to_seat to_host : InformationVisibility

pub record VisibleStatement : Type 0 where
  pub statement_text : String
  pub visibility : InformationVisibility

pub data SocialStance : Type 0 where
  closed guarded receptive aligned : SocialStance

pub record HardLimit : Type 0 where
  pub social_limit_id : OpaqueId
  pub statement : VisibleStatement

pub record Leverage : Type 0 where
  pub leverage_id : OpaqueId
  pub caption : String
  pub visibility : InformationVisibility

pub record SocialState : Type 0 where
  pub npc_actor_id : OpaqueId
  pub definition : ContentReference
  pub motives : List VisibleStatement
  pub fears : List VisibleStatement
  pub stance : SocialStance
  pub leverage : List Leverage
  pub leverage_capacity : ℕ
  pub hard_limits : List HardLimit

-- The issues of `validateSocialState` behind the structural check.
unfoldable pub social_issues : SocialState → List ValidationIssue
unfolding duplicate_issues
social_issues s =
    duplicate_issues (map (λ l. l.leverage_id) s.leverage) "social.duplicate_identity"
    ++ duplicate_issues (map (λ l. l.social_limit_id) s.hard_limits) "social.duplicate_identity"
    ++ issue_if (ltb s.leverage_capacity (length s.leverage)) "social.leverage_overflow"
