-- ===== src/Examples/Checks.antt =====
-- The theorems on checks and draws at concrete inputs.
use lldm.Prelude.{
  ◌≡◌, ◌≤◌, ◌+◌, ◌*◌, ◌↔◌, refl, arith, true, false, some, List, [], ◌∷◌, length, get_elem?, filter,
}
use lldm.Prelude.Int.{pos, negsuc, ◌≤ℤ◌}
use lldm.Contracts.Checks.{
  target_13, target_16, success, simulated, physical, spark_invocation, pivotal_scene_conclusion,
  permanent_death, MandatoryReason,
}
use lldm.Engine.Resolution.{resolve_degree_for_total_modifier, degree_index, resolve_possible}
use lldm.Engine.Resolution.Monotone.{
  resolve_degree_mono, flags_order, degree_with, neither, edge_only, hindrance_only, both,
}
use lldm.Engine.Resolution.Bounds.{resolve_possible_bounds}
use lldm.Engine.Probability.{
  percentages_total, count_of-enumerate, enumerate_outcome_counts, count_of, faces_with, faces_from,
  format_outcome_percentage,
}
use lldm.Engine.PhysicalRolls.{
  create_physical_roll_disclosure, select_physical_roll, ordered_reasons, is_blank, select_attempt,
  select_possible, select_for_reasons, select_disclosed, rolled_request, disclose_to, disclosed,
  PhysicalRollSelection, disclosure_for, selected, simulated_roll, includes_reason,
}
use lldm.Engine.PhysicalRolls.Agreement.{disclosure_agrees, consequence_of}
use lldm.Engine.PhysicalRolls.Policy.{
  ordered_reasons-same, select-Selects, Selects, select-simulated_iff, policy_input,
}
use lldm.Examples.Fixtures.{request, pivotal, consequences, disclosure}

resolve_degree_mono_example :
    degree_index (resolve_degree_for_total_modifier 9 target_16 (pos 1)).final_degree
    ≤ degree_index (resolve_degree_for_total_modifier 20 target_13 (pos 3)).final_degree
resolve_degree_mono_example =
    resolve_degree_mono 9 20 target_16 target_13 (pos 1) (pos 3) (omega arith) (omega arith)
      (omega arith) (omega arith) (omega arith)

flags_order_example :
    (degree_with request hindrance_only 9 simulated ≤ degree_with request neither 9 simulated)
    × (degree_with request neither 9 simulated ≤ degree_with request edge_only 9 simulated)
    × (degree_with request both 9 simulated ≡ degree_with request neither 9 simulated)
flags_order_example = flags_order request 9 simulated (omega arith) (omega arith)

resolve_possible_bounds_example :
    let c = resolve_possible request 20 simulated in
    (negsuc 0 ≤ℤ c.total)
    × (c.total ≤ℤ pos 26)
    × (negsuc 22 ≤ℤ c.target_delta)
    × (c.target_delta ≤ℤ pos 16)
resolve_possible_bounds_example =
    resolve_possible_bounds request 20 simulated (omega arith) (omega arith)

percentages_total_example :
    let c = enumerate_outcome_counts target_13 (pos 1) in
    (format_outcome_percentage c.crisis_count ≡ some (c.crisis_count * 5))
    × (format_outcome_percentage c.setback_count ≡ some (c.setback_count * 5))
    × (format_outcome_percentage c.success_count ≡ some (c.success_count * 5))
    × (format_outcome_percentage c.triumph_count ≡ some (c.triumph_count * 5))
    × (c.crisis_count * 5 + c.setback_count * 5 + c.success_count * 5 + c.triumph_count * 5 ≡ 100)
percentages_total_example = percentages_total target_13 (pos 1)

count_of-enumerate_example :
    count_of success (enumerate_outcome_counts target_13 (pos 1))
    ≡ length (faces_with success target_13 (pos 1) (faces_from 1 20))
count_of-enumerate_example = count_of-enumerate success target_13 (pos 1)

-- The disclosure of the request.
request_disclosed : create_physical_roll_disclosure request pivotal ≡ disclosed disclosure
unfolding create_physical_roll_disclosure disclose_to is_blank
request_disclosed = refl

disclosure_agrees_example :
    let degree = (resolve_possible request 12 (physical pivotal)).final_degree in
    get_elem? disclosure.face_to_outcome 11
    ≡ some (record { face = 12; degree = degree; consequence = consequence_of consequences degree })
disclosure_agrees_example = disclosure_agrees request pivotal 11 request_disclosed (omega arith)

reasons_in_any_order :
    (r : MandatoryReason)
    → includes_reason r (pivotal_scene_conclusion ∷ permanent_death ∷ [])
      ≡ includes_reason r (permanent_death ∷ pivotal_scene_conclusion ∷ permanent_death ∷ [])
reasons_in_any_order r = ground arith

ordered_reasons-same_example :
    ordered_reasons (pivotal_scene_conclusion ∷ permanent_death ∷ []) true
    ≡ ordered_reasons (permanent_death ∷ pivotal_scene_conclusion ∷ permanent_death ∷ []) true
ordered_reasons-same_example =
    ordered_reasons-same (pivotal_scene_conclusion ∷ permanent_death ∷ [])
      (permanent_death ∷ pivotal_scene_conclusion ∷ permanent_death ∷ []) true reasons_in_any_order

-- The selection for a pivotal scene with Spark.
abbrev selection : PhysicalRollSelection
selection = record {
  request = rolled_request request true;
  primary_reason = pivotal;
  applied_reasons = pivotal ∷ spark_invocation ∷ [];
  spark_spent = true;
  disclosure = disclosure_for (rolled_request request true) pivotal 7;
}

pivotal_selected :
    select_physical_roll (policy_input request (pivotal_scene_conclusion ∷ []) true false)
    ≡ selected selection
unfolding select_physical_roll select_attempt select_possible select_for_reasons select_disclosed
    rolled_request create_physical_roll_disclosure disclose_to is_blank ordered_reasons filter
pivotal_selected = refl

select-Selects_example :
    (false ≡ false)
    × (true ≡ true → request.spark_eligible ≡ true)
    × Selects request (pivotal_scene_conclusion ∷ []) true selection
select-Selects_example =
    select-Selects request (pivotal_scene_conclusion ∷ []) true false pivotal_selected

abbrev no_reasons : List MandatoryReason
no_reasons = []

select-simulated_iff_example :
    (select_physical_roll (policy_input request no_reasons false false) ≡ simulated_roll request)
    ↔ ((false ≡ false) × (no_reasons ≡ []) × (false ≡ false) × (request ≡ request))
select-simulated_iff_example = select-simulated_iff request request no_reasons false false
