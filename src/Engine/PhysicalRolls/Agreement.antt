-- ===== src/Engine/PhysicalRolls/Agreement.antt =====
-- What a disclosure promises for each face, against the resolution of the check.
use lldm.Prelude.{
  ℕ, zero, suc, ◌+◌, ◌<◌, ◌≡◌, refl, ap, ◌∙◌, arith, Option, none, some, List, [], ◌∷◌, map,
  get_elem?, find, String,
}
use lldm.Contracts.Checks.{
  CheckRequest, PhysicalRollReason, PhysicalRollDisclosure, physical, OutcomeConsequences, crisis,
  setback, success, triumph, OutcomeDegree,
}
use lldm.Engine.Resolution.{resolve_possible}
use lldm.Engine.Probability.{faces_from}
use lldm.Engine.PhysicalRolls.{
  disclosed, create_physical_roll_disclosure, disclose_to, disclosure_for, outcome_for_face,
  twenty_faces, consequence_for,
}

get_elem?-map {ℓ κ} :
    {A : Type ℓ} {B : Type κ} (f : A → B) (xs : List A) (i : ℕ) {a : A}
    → get_elem? xs i ≡ some a
    → get_elem? (map f xs) i ≡ some (f a)
get_elem?-map f [] i h = ground arith
get_elem?-map f (x ∷ xs) zero h = ground arith
get_elem?-map f (x ∷ xs) (suc i) h = get_elem?-map f xs i h

get_elem?-faces_from : (face n i : ℕ) → i < n → get_elem? (faces_from face n) i ≡ some (face + i)
get_elem?-faces_from face zero i h = absurd (omega arith)
get_elem?-faces_from face (suc n) zero h = ap some (omega arith)
get_elem?-faces_from face (suc n) (suc i) h =
    get_elem?-faces_from (face + 1) n i (omega arith) ∙ ap some (omega arith)

disclose_to-eq-disclosed :
    (r : CheckRequest) (reason : PhysicalRollReason) (roller : Option ℕ)
    {d : PhysicalRollDisclosure}
    → disclose_to r reason roller ≡ disclosed d
    → (seat : ℕ) × (roller ≡ some seat) × (disclosure_for r reason seat ≡ d)
unfolding disclose_to
disclose_to-eq-disclosed r reason none h = cc
disclose_to-eq-disclosed r reason (some seat) h = (seat, refl, ground arith)

pub create-eq-disclosed :
    (r : CheckRequest) (reason : PhysicalRollReason) {d : PhysicalRollDisclosure}
    → create_physical_roll_disclosure r reason ≡ disclosed d
    → (seat : ℕ) × (r.eligible_roller ≡ some seat) × (disclosure_for r reason seat ≡ d)
unfolding create_physical_roll_disclosure
create-eq-disclosed r reason h = disclose_to-eq-disclosed r reason r.eligible_roller (ground arith)

-- The consequence that belongs to a degree.
abbrev pub consequence_of : OutcomeConsequences → OutcomeDegree → String
consequence_of b crisis = b.on_crisis
consequence_of b setback = b.on_setback
consequence_of b success = b.on_success
consequence_of b triumph = b.on_triumph

consequence_for-eq :
    (r : CheckRequest) (d : OutcomeDegree) → consequence_for r d ≡ consequence_of r.outcome_bands d
unfolding consequence_for find
consequence_for-eq r d = ground arith

outcome_for_face-eq :
    (r : CheckRequest) (reason : PhysicalRollReason) (face : ℕ)
    → let degree = (resolve_possible r face (physical reason)).final_degree in
      outcome_for_face r reason face
      ≡ record { face = face; degree = degree; consequence = consequence_of r.outcome_bands degree }
unfolding outcome_for_face
outcome_for_face-eq r reason face =
    ground (arith, consequence_for-eq r (resolve_possible r face (physical reason)).final_degree)

disclosure_for-shows :
    (r : CheckRequest) (reason : PhysicalRollReason) (seat i : ℕ)
    → i < 20
    → get_elem? (disclosure_for r reason seat).face_to_outcome i
      ≡ some (outcome_for_face r reason (1 + i))
unfolding disclosure_for
disclosure_for-shows r reason seat i h =
    get_elem?-map (outcome_for_face r reason) twenty_faces i (get_elem?-faces_from 1 20 i h)

-- The i-th entry of a disclosure that was created is for the face i + 1, and shows the degree to
-- which the check resolves on that face and the consequence that the request names for the degree.
pub disclosure_agrees :
    (r : CheckRequest) (reason : PhysicalRollReason) {d : PhysicalRollDisclosure} (i : ℕ)
    → create_physical_roll_disclosure r reason ≡ disclosed d
    → i < 20
    → let degree = (resolve_possible r (1 + i) (physical reason)).final_degree in
      get_elem? d.face_to_outcome i
      ≡ some (record {
        face = 1 + i;
        degree = degree;
        consequence = consequence_of r.outcome_bands degree;
      })
disclosure_agrees r reason i h below =
    let (seat, _, e) = create-eq-disclosed r reason h in
    rw (← e)
      (disclosure_for-shows r reason seat i below ∙ ap some (outcome_for_face-eq r reason (1 + i)))
