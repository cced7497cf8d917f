-- ===== src/Contracts/Validation.antt =====
-- packages/contracts/src/validation.ts. An issue keeps its code; the path and the text that a
-- validator writes beside the code are left out. `application_failed` is the issue of
-- packages/engine/src/apply-event.ts, with the event's revision and the message.
use lldm.Prelude.{ℕ, ◌≡◌, refl, String, List, [], ◌∷◌, ◌++◌, Bool, if◌then◌else◌}
use lldm.Prelude.{includes, arith, ◌⊎◌, inl, inr}

pub data ValidationIssue : Type 0 where
  issue : String → ValidationIssue
  application_failed : ℕ → String → ValidationIssue

pub data ValidationResult {ℓ} (A : Type ℓ) : Type ℓ where
  success : A → ValidationResult A
  failure : List ValidationIssue → ValidationResult A

-- `return issues.length === 0 ? { success: true, value } : validationFailure(issues)`.
abbrev pub conclude {ℓ} : {A : Type ℓ} → A → List ValidationIssue → ValidationResult A
conclude a [] = success a
conclude a (i ∷ is) = failure (i ∷ is)

-- `if (test) issues.push({ code })`.
abbrev pub issue_if : Bool → String → List ValidationIssue
issue_if test code = if test then issue code ∷ [] else []

-- The loop of `duplicateIssues`: an issue at each value that was seen before.
unfoldable pub duplicate_issues_from : List ℕ → List ℕ → String → List ValidationIssue
duplicate_issues_from seen [] code = []
duplicate_issues_from seen (v ∷ vs) code =
    issue_if (includes v seen) code ++ duplicate_issues_from (v ∷ seen) vs code

unfoldable pub duplicate_issues : List ℕ → String → List ValidationIssue
unfolding duplicate_issues_from
duplicate_issues values code = duplicate_issues_from [] values code

-- `issues.push(...validate(item).issues)` along an array.
unfoldable pub issues_of_each {ℓ} :
    {A : Type ℓ} → (A → List ValidationIssue) → List A → List ValidationIssue
issues_of_each validate [] = []
issues_of_each validate (x ∷ xs) = validate x ++ issues_of_each validate xs

pub conclude-eq-success {ℓ} :
    {A : Type ℓ} (a : A) (is : List ValidationIssue) {b : A}
    → conclude a is ≡ success b
    → (is ≡ []) × (a ≡ b)
conclude-eq-success a [] h = (refl, ground arith)
conclude-eq-success a (i ∷ is) h = ground arith

pub ValidationResult-cases {ℓ} :
    {A : Type ℓ} (r : ValidationResult A)
    → ((a : A) × (r ≡ success a)) ⊎ ((is : List ValidationIssue) × (r ≡ failure is))
ValidationResult-cases (success a) = inl (a, refl)
ValidationResult-cases (failure is) = inr (is, refl)
