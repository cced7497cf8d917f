-- ===== src/Engine/Resolution/Monotone.antt =====
-- How the outcome degree moves with the die, the modifier and the target.
use lldm.Prelude.{ℕ, ◌≤◌, ◌≡◌, ap, arith, true, false}
use lldm.Prelude.Int.{ℤ, pos, ◌≤ℤ◌, ◌+ℤ◌, ◌-ℤ◌, int_laws}
use lldm.Contracts.Checks.{StandardTarget, target_value, OutcomeDegree, ModifierState, CheckRequest}
use lldm.Contracts.Checks.{RollMode}
use lldm.Engine.Resolution.{
  FaceAdjustment, adjustment_value, degree_index, degree_for_delta, shift_degree,
  natural_face_adjustment, resolve_degree_for_total_modifier, resolve_possible, final_modifier_for,
  normalize_modifier_state,
}

degree_for_delta_mono :
    (d e : ℤ) → d ≤ℤ e → degree_index (degree_for_delta d) ≤ degree_index (degree_for_delta e)
unfolding degree_for_delta
degree_for_delta_mono d e h = ground arith

natural_face_adjustment_mono :
    (f g : ℕ)
    → 1 ≤ f
    → f ≤ g
    → g ≤ 20
    → adjustment_value (natural_face_adjustment f) ≤ℤ adjustment_value (natural_face_adjustment g)
unfolding natural_face_adjustment
natural_face_adjustment_mono f g lo le hi = ground arith

shift_degree_mono :
    (c d : OutcomeDegree) (a b : FaceAdjustment)
    → degree_index c ≤ degree_index d
    → adjustment_value a ≤ℤ adjustment_value b
    → degree_index (shift_degree c a) ≤ degree_index (shift_degree d b)
unfolding shift_degree ◌+ℤ◌
shift_degree_mono c d a b h k = ground arith

-- A higher face, a higher modifier and a lower target never give a lower degree of outcome.
pub resolve_degree_mono :
    (f g : ℕ) (s t : StandardTarget) (m n : ℤ)
    → 1 ≤ f
    → f ≤ g
    → g ≤ 20
    → m ≤ℤ n
    → target_value t ≤ target_value s
    → degree_index (resolve_degree_for_total_modifier f s m).final_degree
      ≤ degree_index (resolve_degree_for_total_modifier g t n).final_degree
unfolding resolve_degree_for_total_modifier
resolve_degree_mono f g s t m n lo le hi mn ts =
    shift_degree_mono _ _ _ _
      (degree_for_delta_mono (pos f +ℤ m -ℤ pos (target_value s))
        (pos g +ℤ n -ℤ pos (target_value t)) (omega int_laws))
      (natural_face_adjustment_mono f g lo le hi)

-- The request with another pair of flags.
abbrev pub with_flags : CheckRequest → ModifierState → CheckRequest
with_flags r m = record r { modifier_state = m }

abbrev pub neither : ModifierState
neither = record { edge = false; hindrance = false }

abbrev pub edge_only : ModifierState
edge_only = record { edge = true; hindrance = false }

abbrev pub hindrance_only : ModifierState
hindrance_only = record { edge = false; hindrance = true }

abbrev pub both : ModifierState
both = record { edge = true; hindrance = true }

final_modifier-hindrance :
    (r : CheckRequest)
    → final_modifier_for (with_flags r hindrance_only) ≤ℤ final_modifier_for (with_flags r neither)
unfolding final_modifier_for normalize_modifier_state ◌+ℤ◌
final_modifier-hindrance r = ground arith

final_modifier-edge :
    (r : CheckRequest)
    → final_modifier_for (with_flags r neither) ≤ℤ final_modifier_for (with_flags r edge_only)
unfolding final_modifier_for normalize_modifier_state ◌+ℤ◌
final_modifier-edge r = ground arith

final_modifier-both :
    (r : CheckRequest)
    → final_modifier_for (with_flags r both) ≡ final_modifier_for (with_flags r neither)
unfolding final_modifier_for normalize_modifier_state ◌+ℤ◌
final_modifier-both r = ground arith

abbrev pub degree_with : CheckRequest → ModifierState → ℕ → RollMode → ℕ
degree_with r m face mode = degree_index (resolve_possible (with_flags r m) face mode).final_degree

-- On one and the same face of a d20, Hindrance never betters the degree, Edge never worsens it, and
-- both together give the degree of neither.
pub flags_order :
    (r : CheckRequest) (face : ℕ) (mode : RollMode)
    → 1 ≤ face
    → face ≤ 20
    → (degree_with r hindrance_only face mode ≤ degree_with r neither face mode)
      × (degree_with r neither face mode ≤ degree_with r edge_only face mode)
      × (degree_with r both face mode ≡ degree_with r neither face mode)
unfolding resolve_possible
flags_order r face mode lo hi = (
  resolve_degree_mono face face r.target r.target _ _ lo (omega arith) hi
      (final_modifier-hindrance r) (omega arith),
  resolve_degree_mono face face r.target r.target _ _ lo (omega arith) hi (final_modifier-edge r)
      (omega arith),
  ap (λ m. degree_index (resolve_degree_for_total_modifier face r.target m).final_degree)
      (final_modifier-both r),
)
