-- ===== src/Engine/Probability.antt =====
-- packages/engine/src/probability.ts: the outcomes of the twenty faces, counted.
use lldm.Prelude.{
  ℕ, zero, suc, ◌+◌, ◌*◌, ◌≤◌, ◌≡◌, inl, inr, Bool-cases, arith, Option, none, some, ltb,
}
use lldm.Prelude.{if◌then◌else◌, List, [], ◌∷◌, length, filter, ◌==◌}
use lldm.Prelude.Int.{ℤ}
use lldm.Contracts.Checks.{StandardTarget, OutcomeDegree, crisis, setback, success, triumph}
use lldm.Engine.Resolution.{resolve_degree_for_total_modifier, degree_index}

pub record OutcomeCounts : Type 0 where
  pub crisis_count : ℕ
  pub setback_count : ℕ
  pub success_count : ℕ
  pub triumph_count : ℕ

-- `mutableCounts[degree] += 1`.
unfoldable pub count_degree : OutcomeDegree → OutcomeCounts → OutcomeCounts
count_degree crisis c = record c { crisis_count = c.crisis_count + 1 }
count_degree setback c = record c { setback_count = c.setback_count + 1 }
count_degree success c = record c { success_count = c.success_count + 1 }
count_degree triumph c = record c { triumph_count = c.triumph_count + 1 }

abbrev pub face_degree : StandardTarget → ℤ → ℕ → OutcomeDegree
face_degree target modifier face =
    (resolve_degree_for_total_modifier face target modifier).final_degree

-- The loop `for (face = 1; face <= 20; face += 1)`, by the rounds left.
unfoldable pub count_faces : ℕ → ℕ → StandardTarget → ℤ → OutcomeCounts → OutcomeCounts
count_faces zero face target modifier counts = counts
count_faces (suc rounds) face target modifier counts =
    count_faces rounds (face + 1) target modifier
      (count_degree (face_degree target modifier face) counts)

abbrev no_counts : OutcomeCounts
no_counts = record { crisis_count = 0; setback_count = 0; success_count = 0; triumph_count = 0 }

unfoldable pub enumerate_outcome_counts : StandardTarget → ℤ → OutcomeCounts
enumerate_outcome_counts target modifier = count_faces 20 1 target modifier no_counts

-- The percentage that the text shows; `none` is the RangeError.
unfoldable pub format_outcome_percentage : ℕ → Option ℕ
format_outcome_percentage count = if ltb 20 count then none else some (count * 5)

abbrev pub total_count : OutcomeCounts → ℕ
total_count c = c.crisis_count + c.setback_count + c.success_count + c.triumph_count

total_count-count_degree :
    (d : OutcomeDegree) (c : OutcomeCounts) → total_count (count_degree d c) ≡ total_count c + 1
unfolding count_degree
total_count-count_degree d c = ground arith

total_count-count_faces :
    (n face : ℕ) (t : StandardTarget) (m : ℤ) (c : OutcomeCounts)
    → total_count (count_faces n face t m c) ≡ total_count c + n
unfolding count_faces
total_count-count_faces zero face t m c = omega arith
total_count-count_faces (suc n) face t m c = omega (
  arith,
  total_count-count_faces n (face + 1) t m (count_degree (face_degree t m face) c),
  total_count-count_degree (face_degree t m face) c,
)

total_count-enumerate :
    (t : StandardTarget) (m : ℤ) → total_count (enumerate_outcome_counts t m) ≡ 20
unfolding enumerate_outcome_counts
total_count-enumerate t m = total_count-count_faces 20 1 t m no_counts

format_outcome_percentage-within : (n : ℕ) → n ≤ 20 → format_outcome_percentage n ≡ some (n * 5)
unfolding format_outcome_percentage
format_outcome_percentage-within n h = ground arith

-- For every target and modifier each of the four counts has a percentage, five for each face, and
-- the four percentages add up to one hundred.
pub percentages_total :
    (t : StandardTarget) (m : ℤ)
    → let c = enumerate_outcome_counts t m in
      (format_outcome_percentage c.crisis_count ≡ some (c.crisis_count * 5))
      × (format_outcome_percentage c.setback_count ≡ some (c.setback_count * 5))
      × (format_outcome_percentage c.success_count ≡ some (c.success_count * 5))
      × (format_outcome_percentage c.triumph_count ≡ some (c.triumph_count * 5))
      × (c.crisis_count * 5 + c.setback_count * 5 + c.success_count * 5 + c.triumph_count * 5 ≡ 100)
percentages_total t m =
    let total = total_count-enumerate t m in
    (
      format_outcome_percentage-within _ (omega (arith, total)),
      format_outcome_percentage-within _ (omega (arith, total)),
      format_outcome_percentage-within _ (omega (arith, total)),
      format_outcome_percentage-within _ (omega (arith, total)),
      omega (arith, total),
    )

abbrev pub count_of : OutcomeDegree → OutcomeCounts → ℕ
count_of crisis c = c.crisis_count
count_of setback c = c.setback_count
count_of success c = c.success_count
count_of triumph c = c.triumph_count

abbrev pub faces_from : ℕ → ℕ → List ℕ
faces_from face zero = []
faces_from face (suc n) = face ∷ faces_from (face + 1) n

abbrev pub faces_with : OutcomeDegree → StandardTarget → ℤ → List ℕ → List ℕ
faces_with d t m = filter (λ face. degree_index (face_degree t m face) == degree_index d)

count_of-count_degree :
    (d e : OutcomeDegree) (c : OutcomeCounts)
    → count_of d (count_degree e c)
      ≡ (if degree_index e == degree_index d then count_of d c + 1 else count_of d c)
unfolding count_degree
count_of-count_degree d e c = ground arith

length-faces_with-cons :
    (d : OutcomeDegree) (t : StandardTarget) (m : ℤ) (face : ℕ) (fs : List ℕ)
    → length (faces_with d t m (face ∷ fs)) ≡ (
        if degree_index (face_degree t m face) == degree_index d
        then length (faces_with d t m fs) + 1
        else length (faces_with d t m fs))
unfolding filter
length-faces_with-cons d t m face fs = ground arith

count_of-count_faces :
    (d : OutcomeDegree) (n face : ℕ) (t : StandardTarget) (m : ℤ) (c : OutcomeCounts)
    → count_of d (count_faces n face t m c)
      ≡ count_of d c + length (faces_with d t m (faces_from face n))
unfolding count_faces
count_of-count_faces d zero face t m c = unfold filter in omega arith
count_of-count_faces d (suc n) face t m c =
    let e = face_degree t m face in
    let here = count_of-count_degree d e c in
    let rest = count_of-count_faces d n (face + 1) t m (count_degree e c) in
    let step = length-faces_with-cons d t m face (faces_from (face + 1) n) in
    elim (Bool-cases (degree_index e == degree_index d)) [
      | inl p ↦ omega (arith, rest, rw p at here, rw p at step)
      | inr p ↦ omega (arith, rest, rw p at here, rw p at step)
    ]

count_of-no_counts : (d : OutcomeDegree) → count_of d no_counts ≡ 0
count_of-no_counts d = ground arith

-- The count that stands for a degree is the number of the faces 1 to 20 that resolve to it.
pub count_of-enumerate :
    (d : OutcomeDegree) (t : StandardTarget) (m : ℤ)
    → count_of d (enumerate_outcome_counts t m) ≡ length (faces_with d t m (faces_from 1 20))
unfolding enumerate_outcome_counts
count_of-enumerate d t m =
    omega (arith, count_of-count_faces d 20 1 t m no_counts, count_of-no_counts d)
