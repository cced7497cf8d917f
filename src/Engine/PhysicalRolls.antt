-- ===== src/Engine/PhysicalRolls.antt =====
-- packages/engine/src/physical-rolls.ts: which checks are rolled with a physical d20, and what the
-- roller is shown before the roll.
pub mod Agreement
pub mod Policy
use Prim.Native.Char.{code}
use lldm.Prelude.{
  ℕ, ◌≡◌, Bool, true, false, ◌&&◌, ◌||◌, Option, none, some, List, [], ◌∷◌, ◌++◌, map, filter, find,
  ◌==◌, leb, if◌then◌else◌, String,
}
use lldm.Contracts.Checks.{
  OutcomeDegree, crisis, setback, success, triumph, MandatoryReason, permanent_death,
  declared_irreversible_stake, named_boss_transition, pivotal_scene_conclusion, PhysicalRollReason,
  mandatory, spark_invocation, CheckRequest, ImpossibleCheckRejection, OutcomeConsequences,
  FaceOutcome, PhysicalRollDisclosure, physical, ModifierState,
}
use lldm.Engine.Resolution.{
  degree_index, resolve_possible, build_modifier_breakdown, final_modifier_for,
}

pub data PhysicalRollRejectionCode : Type 0 where
  action_impossible already_resolved spark_ineligible : PhysicalRollRejectionCode
  eligible_roller_missing stakes_missing : PhysicalRollRejectionCode

pub record PhysicalRollRejection : Type 0 where
  pub code : PhysicalRollRejectionCode
  pub message : String

-- `MANDATORY_PHYSICAL_ROLL_REASONS`, the order of precedence.
abbrev pub mandatory_reasons_in_order : List MandatoryReason
mandatory_reasons_in_order =
    permanent_death ∷ declared_irreversible_stake ∷ named_boss_transition ∷ pivotal_scene_conclusion
    ∷ []

abbrev pub reason_index : MandatoryReason → ℕ
reason_index permanent_death = 0
reason_index declared_irreversible_stake = 1
reason_index named_boss_transition = 2
reason_index pivotal_scene_conclusion = 3

abbrev pub includes_reason : MandatoryReason → List MandatoryReason → Bool
includes_reason r [] = false
includes_reason r (x ∷ xs) = reason_index r == reason_index x || includes_reason r xs

unfoldable pub ordered_reasons : List MandatoryReason → Bool → List PhysicalRollReason
ordered_reasons supplied include_spark =
    let unique =
      map mandatory (filter (λ r. includes_reason r supplied) mandatory_reasons_in_order) in
    if include_spark then unique ++ spark_invocation ∷ [] else unique

-- The white space and line ends that `String.prototype.trim` takes off.
abbrev is_space : ℕ → Bool
is_space c =
    (leb 9 c && leb c 13)
    || c == 32
    || c == 160
    || c == 0x1680
    || (leb 0x2000 c && leb c 0x200a)
    || c == 0x2028
    || c == 0x2029
    || c == 0x202f
    || c == 0x205f
    || c == 0x3000
    || c == 0xfeff

-- `text.trim().length === 0`.
unfoldable pub is_blank : String → Bool
is_blank String.[] = true
is_blank (String.◌∷◌ c s) = is_space (code c) && is_blank s

pub record OutcomeBand : Type 0 where
  pub degree : OutcomeDegree
  pub consequence : String

abbrev outcome_bands_in_order : OutcomeConsequences → List OutcomeBand
outcome_bands_in_order b =
    record { degree = crisis; consequence = b.on_crisis }
    ∷ record { degree = setback; consequence = b.on_setback }
    ∷ record { degree = success; consequence = b.on_success }
    ∷ record { degree = triumph; consequence = b.on_triumph }
    ∷ []

abbrev or_disclosed : Option OutcomeBand → String
or_disclosed none = "The disclosed outcome applies."
or_disclosed (some band) = band.consequence

unfoldable pub consequence_for : CheckRequest → OutcomeDegree → String
consequence_for request degree = or_disclosed (
    find (λ band. degree_index band.degree == degree_index degree)
      (outcome_bands_in_order request.outcome_bands))

pub data DisclosureResult : Type 0 where
  disclosed : PhysicalRollDisclosure → DisclosureResult
  refused : PhysicalRollRejection → DisclosureResult

unfoldable pub outcome_for_face : CheckRequest → PhysicalRollReason → ℕ → FaceOutcome
outcome_for_face request reason face =
    let degree = (resolve_possible request face (physical reason)).final_degree in
    record { face = face; degree = degree; consequence = consequence_for request degree }

abbrev pub twenty_faces : List ℕ
twenty_faces =
    1 ∷ 2 ∷ 3 ∷ 4 ∷ 5 ∷ 6 ∷ 7 ∷ 8 ∷ 9 ∷ 10 ∷ 11 ∷ 12 ∷ 13 ∷ 14 ∷ 15 ∷ 16 ∷ 17 ∷ 18 ∷ 19 ∷ 20 ∷ []

unfoldable pub disclosure_for : CheckRequest → PhysicalRollReason → ℕ → PhysicalRollDisclosure
disclosure_for request reason roller = record {
  actor_id = request.actor_id;
  target = request.target;
  modifier_breakdown = build_modifier_breakdown request;
  final_modifier = final_modifier_for request;
  outcome_bands = request.outcome_bands;
  stakes = request.stakes;
  reason = reason;
  eligible_roller = roller;
  face_to_outcome = map (outcome_for_face request reason) twenty_faces;
}

abbrev refuse : PhysicalRollRejectionCode → String → PhysicalRollRejection
refuse code message = record { code = code; message = message }

unfoldable pub disclose_to : CheckRequest → PhysicalRollReason → Option ℕ → DisclosureResult
disclose_to request reason none =
    refused (refuse eligible_roller_missing "A physical roll requires an eligible roller.")
disclose_to request reason (some roller) = disclosed (disclosure_for request reason roller)

unfoldable pub create_physical_roll_disclosure :
    CheckRequest → PhysicalRollReason → DisclosureResult
create_physical_roll_disclosure request reason =
    if is_blank request.stakes
    then refused (refuse stakes_missing "A physical roll requires concrete stakes.")
    else disclose_to request reason request.eligible_roller

pub data CheckAttempt : Type 0 where
  possible_attempt : CheckRequest → CheckAttempt
  impossible_attempt : ImpossibleCheckRejection → CheckAttempt

pub record PhysicalRollPolicyInput : Type 0 where
  pub attempt : CheckAttempt
  pub mandatory_reasons : List MandatoryReason
  pub invoke_spark : Bool
  pub resolved_already : Bool

pub record PhysicalRollSelection : Type 0 where
  pub request : CheckRequest
  pub primary_reason : PhysicalRollReason
  pub applied_reasons : List PhysicalRollReason
  pub spark_spent : Bool
  pub disclosure : PhysicalRollDisclosure

pub data PhysicalRollSelectionResult : Type 0 where
  rejected : PhysicalRollRejection → PhysicalRollSelectionResult
  simulated_roll : CheckRequest → PhysicalRollSelectionResult
  selected : PhysicalRollSelection → PhysicalRollSelectionResult

-- The request that is rolled: Spark grants Edge.
unfoldable pub rolled_request : CheckRequest → Bool → CheckRequest
rolled_request attempt invoke_spark =
    if invoke_spark
    then record attempt {
      modifier_state = record { edge = true; hindrance = attempt.modifier_state.hindrance };
    }
    else attempt

unfoldable pub select_disclosed :
    CheckRequest
    → PhysicalRollReason
    → List PhysicalRollReason
    → Bool
    → DisclosureResult
    → PhysicalRollSelectionResult
select_disclosed request primary reasons invoke_spark (refused r) = rejected r
select_disclosed request primary reasons invoke_spark (disclosed d) = selected (record {
  request = request;
  primary_reason = primary;
  applied_reasons = reasons;
  spark_spent = invoke_spark;
  disclosure = d;
})

unfoldable pub select_for_reasons :
    CheckRequest → Bool → List PhysicalRollReason → PhysicalRollSelectionResult
select_for_reasons attempt invoke_spark [] = simulated_roll attempt
select_for_reasons attempt invoke_spark (primary ∷ others) =
    let request = rolled_request attempt invoke_spark in
    select_disclosed request primary (primary ∷ others) invoke_spark
      (create_physical_roll_disclosure request primary)

unfoldable pub select_possible :
    CheckRequest → List MandatoryReason → Bool → Bool → PhysicalRollSelectionResult
select_possible attempt mandatory_reasons invoke_spark resolved_already =
    if resolved_already
    then rejected (refuse already_resolved "A resolved check cannot become a physical roll.")
    else if invoke_spark && (if attempt.spark_eligible then false else true)
    then rejected
        (refuse spark_ineligible "This unresolved check is not eligible for Spark conversion.")
    else select_for_reasons attempt invoke_spark (ordered_reasons mandatory_reasons invoke_spark)

unfoldable pub select_attempt :
    CheckAttempt → List MandatoryReason → Bool → Bool → PhysicalRollSelectionResult
select_attempt (impossible_attempt r) mandatory_reasons invoke_spark resolved_already =
    rejected (refuse action_impossible r.reason)
select_attempt (possible_attempt attempt) mandatory_reasons invoke_spark resolved_already =
    select_possible attempt mandatory_reasons invoke_spark resolved_already

unfoldable pub select_physical_roll : PhysicalRollPolicyInput → PhysicalRollSelectionResult
select_physical_roll input =
    select_attempt input.attempt input.mandatory_reasons input.invoke_spark input.resolved_already
