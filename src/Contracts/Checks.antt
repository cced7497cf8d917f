-- ===== src/Contracts/Checks.antt =====
-- packages/contracts/src/checks.ts: check requests, resolved checks and physical-roll disclosures.
use lldm.Prelude.{ℕ, String, Bool, Option, List}
use lldm.Prelude.Int.{ℤ}
use lldm.Contracts.Ids.{OpaqueId}

pub data StandardTarget : Type 0 where
  target_10 target_13 target_16 target_19 target_22 : StandardTarget

abbrev pub target_value : StandardTarget → ℕ
target_value target_10 = 10
target_value target_13 = 13
target_value target_16 = 16
target_value target_19 = 19
target_value target_22 = 22

pub data OutcomeDegree : Type 0 where
  crisis setback success triumph : OutcomeDegree

pub data MandatoryReason : Type 0 where
  permanent_death declared_irreversible_stake : MandatoryReason
  named_boss_transition pivotal_scene_conclusion : MandatoryReason

-- `PHYSICAL_ROLL_REASONS`: the mandatory ones, and the invocation of Spark.
pub data PhysicalRollReason : Type 0 where
  mandatory : MandatoryReason → PhysicalRollReason
  spark_invocation : PhysicalRollReason

-- `AttributeRatingSchema` and `DisciplineRatingSchema`: the literals 0, 1 and 2.
pub data Rating : Type 0 where
  rating_0 rating_1 rating_2 : Rating

abbrev pub rating_value : Rating → ℕ
rating_value rating_0 = 0
rating_value rating_1 = 1
rating_value rating_2 = 2

pub record ModifierState : Type 0 where
  pub edge : Bool
  pub hindrance : Bool

-- The four consequences, in the order of the degrees.
pub record OutcomeConsequences : Type 0 where
  pub on_crisis : String
  pub on_setback : String
  pub on_success : String
  pub on_triumph : String

pub data CheckVisibility : Type 0 where
  visible_to_all visible_to_roller : CheckVisibility

pub record CheckRequest : Type 0 where
  pub actor_id : OpaqueId
  pub attribute : String
  pub attribute_rating : Rating
  pub discipline : String
  pub discipline_rating : Rating
  pub target : StandardTarget
  pub modifier_state : ModifierState
  pub visibility : CheckVisibility
  pub stakes : String
  pub outcome_bands : OutcomeConsequences
  pub spark_eligible : Bool
  pub eligible_roller : Option OpaqueId

pub record ImpossibleCheckRejection : Type 0 where
  pub actor_id : OpaqueId
  pub reason : String

pub record NamedRating : Type 0 where
  pub name : String
  pub value : Rating

pub record ModifierFlag : Type 0 where
  pub active : Bool
  pub value : ℤ

pub record ModifierBreakdown : Type 0 where
  pub attribute : NamedRating
  pub discipline : NamedRating
  pub edge : ModifierFlag
  pub hindrance : ModifierFlag
  pub situational_modifier : ℤ

pub data RollMode : Type 0 where
  simulated : RollMode
  physical : PhysicalRollReason → RollMode

pub record ResolvedCheck : Type 0 where
  pub actor_id : OpaqueId
  pub die_face : ℕ
  pub modifier_breakdown : ModifierBreakdown
  pub final_modifier : ℤ
  pub total : ℤ
  pub target : StandardTarget
  pub target_delta : ℤ
  pub base_degree : OutcomeDegree
  pub natural_face_adjustment : ℤ
  pub final_degree : OutcomeDegree
  pub roll_mode : RollMode

pub record FaceOutcome : Type 0 where
  pub face : ℕ
  pub degree : OutcomeDegree
  pub consequence : String

-- `face_to_outcome` is a tuple with the faces 1 to 20 in order.
pub record PhysicalRollDisclosure : Type 0 where
  pub actor_id : OpaqueId
  pub target : StandardTarget
  pub modifier_breakdown : ModifierBreakdown
  pub final_modifier : ℤ
  pub outcome_bands : OutcomeConsequences
  pub stakes : String
  pub reason : PhysicalRollReason
  pub eligible_roller : OpaqueId
  pub face_to_outcome : List FaceOutcome
