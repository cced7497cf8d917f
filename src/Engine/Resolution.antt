-- ===== src/Engine/Resolution.antt =====
-- packages/engine/src/resolution.ts: a d20 check from its request to its outcome degree.
pub mod Bounds
pub mod Monotone
use lldm.Prelude.{
  ℕ, ◌+◌, ◌≡◌, Bool, true, false, Option, List, [], ◌∷◌, get_elem?, ◌==◌, if◌then◌else◌,
}
use lldm.Prelude.Int.{ℤ, pos, negsuc, ◌+ℤ◌, ◌-ℤ◌, leb_ℤ, ltb_ℤ, min_ℤ, max_ℤ, pos_part}
use lldm.Contracts.Checks.{
  StandardTarget, target_value, OutcomeDegree, crisis, setback, success, triumph, rating_value,
  ModifierState, CheckRequest, ImpossibleCheckRejection, ModifierBreakdown, ModifierFlag, RollMode,
  ResolvedCheck,
}

-- The literal type `-1 | 0 | 1`.
pub data FaceAdjustment : Type 0 where
  lower keep raise : FaceAdjustment

abbrev pub adjustment_value : FaceAdjustment → ℤ
adjustment_value lower = negsuc 0
adjustment_value keep = pos 0
adjustment_value raise = pos 1

-- `OUTCOME_ORDER`, by index and back.
abbrev pub degree_index : OutcomeDegree → ℕ
degree_index crisis = 0
degree_index setback = 1
degree_index success = 2
degree_index triumph = 3

abbrev pub outcome_order : List OutcomeDegree
outcome_order = crisis ∷ setback ∷ success ∷ triumph ∷ []

unfoldable pub degree_for_delta : ℤ → OutcomeDegree
degree_for_delta delta =
    if leb_ℤ delta (negsuc 4)
    then crisis
    else if ltb_ℤ delta (pos 0)
    then setback
    else if ltb_ℤ delta (pos 5)
    then success
    else triumph

abbrev or_else : Option OutcomeDegree → OutcomeDegree → OutcomeDegree
or_else (Option.some d) fallback = d
or_else Option.none fallback = fallback

unfoldable pub shift_degree : OutcomeDegree → FaceAdjustment → OutcomeDegree
shift_degree base adjustment =
    let index = pos (degree_index base) in
    let shifted = max_ℤ (pos 0) (min_ℤ (pos 3) (index +ℤ adjustment_value adjustment)) in
    or_else (get_elem? outcome_order (pos_part shifted)) base

unfoldable pub natural_face_adjustment : ℕ → FaceAdjustment
natural_face_adjustment face = if face == 1 then lower else if face == 20 then raise else keep

pub record DegreeResolution : Type 0 where
  pub total : ℤ
  pub target_delta : ℤ
  pub base_degree : OutcomeDegree
  pub face_adjustment : FaceAdjustment
  pub final_degree : OutcomeDegree

unfoldable pub resolve_degree_for_total_modifier : ℕ → StandardTarget → ℤ → DegreeResolution
resolve_degree_for_total_modifier die_face target final_modifier =
    let total = pos die_face +ℤ final_modifier in
    let delta = total -ℤ pos (target_value target) in
    let base = degree_for_delta delta in
    let adjustment = natural_face_adjustment die_face in
    record {
      total = total;
      target_delta = delta;
      base_degree = base;
      face_adjustment = adjustment;
      final_degree = shift_degree base adjustment;
    }

pub record Situational : Type 0 where
  pub edge : ModifierFlag
  pub hindrance : ModifierFlag
  pub situational_modifier : ℤ

unfoldable pub normalize_modifier_state : ModifierState → Situational
normalize_modifier_state m =
    let edge_value : ℤ = if m.edge then pos 2 else pos 0 in
    let hindrance_value : ℤ = if m.hindrance then negsuc 1 else pos 0 in
    record {
      edge = record { active = m.edge; value = edge_value };
      hindrance = record { active = m.hindrance; value = hindrance_value };
      situational_modifier = edge_value +ℤ hindrance_value;
    }

unfoldable pub build_modifier_breakdown : CheckRequest → ModifierBreakdown
build_modifier_breakdown request =
    let situational = normalize_modifier_state request.modifier_state in
    record {
      attribute = record { name = request.attribute; value = request.attribute_rating };
      discipline = record { name = request.discipline; value = request.discipline_rating };
      edge = situational.edge;
      hindrance = situational.hindrance;
      situational_modifier = situational.situational_modifier;
    }

unfoldable pub final_modifier_for : CheckRequest → ℤ
final_modifier_for request =
    pos (rating_value request.attribute_rating)
    +ℤ pos (rating_value request.discipline_rating)
    +ℤ (normalize_modifier_state request.modifier_state).situational_modifier

pub data ResolutionInput : Type 0 where
  impossible : ImpossibleCheckRejection → ResolutionInput
  possible : CheckRequest → ℕ → RollMode → ResolutionInput

pub data ResolutionOutcome : Type 0 where
  rejected : ImpossibleCheckRejection → ResolutionOutcome
  resolved : ResolvedCheck → ResolutionOutcome

unfoldable pub resolve_possible : CheckRequest → ℕ → RollMode → ResolvedCheck
resolve_possible request die_face roll_mode =
    let final_modifier = final_modifier_for request in
    let degree = resolve_degree_for_total_modifier die_face request.target final_modifier in
    record {
      actor_id = request.actor_id;
      die_face = die_face;
      modifier_breakdown = build_modifier_breakdown request;
      final_modifier = final_modifier;
      total = degree.total;
      target = request.target;
      target_delta = degree.target_delta;
      base_degree = degree.base_degree;
      natural_face_adjustment = adjustment_value degree.face_adjustment;
      final_degree = degree.final_degree;
      roll_mode = roll_mode;
    }

unfoldable pub resolve_check : ResolutionInput → ResolutionOutcome
resolve_check (impossible rejection) = rejected rejection
resolve_check (possible request die_face roll_mode) =
    resolved (resolve_possible request die_face roll_mode)
