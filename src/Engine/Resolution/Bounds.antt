-- ===== src/Engine/Resolution/Bounds.antt =====
-- The ranges that `ResolvedCheckSchema` of packages/contracts/src/checks.ts declares.
use lldm.Prelude.{ℕ, ◌≤◌, arith}
use lldm.Prelude.Int.{pos, negsuc, ◌≤ℤ◌, ◌+ℤ◌, int_laws}
use lldm.Contracts.Checks.{CheckRequest, RollMode, StandardTarget, target_value}
use lldm.Engine.Resolution.{
  final_modifier_for, normalize_modifier_state, resolve_possible, resolve_degree_for_total_modifier,
}

-- The final modifier of every request is one of -2 to 6.
pub final_modifier_for_bounds :
    (r : CheckRequest) → (negsuc 1 ≤ℤ final_modifier_for r) × (final_modifier_for r ≤ℤ pos 6)
unfolding final_modifier_for normalize_modifier_state ◌+ℤ◌
final_modifier_for_bounds r = ground arith

target_value_bounds : (t : StandardTarget) → (10 ≤ target_value t) × (target_value t ≤ 22)
target_value_bounds t = ground arith

-- For a face of a d20 the recorded total lies in -1 to 26 and the recorded target delta in -23 to
-- 16, the ranges of the schema of a resolved check.
pub resolve_possible_bounds :
    (r : CheckRequest) (face : ℕ) (mode : RollMode)
    → 1 ≤ face
    → face ≤ 20
    → let c = resolve_possible r face mode in
      (negsuc 0 ≤ℤ c.total)
      × (c.total ≤ℤ pos 26)
      × (negsuc 22 ≤ℤ c.target_delta)
      × (c.target_delta ≤ℤ pos 16)
unfolding resolve_possible resolve_degree_for_total_modifier
resolve_possible_bounds r face mode lo hi =
    let (low, high) = final_modifier_for_bounds r in
    omega (int_laws, low, high, target_value_bounds r.target)
