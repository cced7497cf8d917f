-- ===== src/Engine/PhysicalRolls/Policy.antt =====
-- When a check is rolled physically, for which reason, and with which request.
use mathlib.Core.Path.{subst, sym, ◌∙◌}
use lldm.Prelude.{
  ℕ, ◌&&◌, ◌||◌, ◌==◌, ltb, ◌≡◌, ◌≢◌, ◌↔◌, refl, arith, Bool, true, false, List, [], ◌∷◌, filter,
}
use lldm.Contracts.Checks.{
  CheckRequest, MandatoryReason, PhysicalRollReason, mandatory, spark_invocation, permanent_death,
  declared_irreversible_stake, named_boss_transition, pivotal_scene_conclusion,
}
use lldm.Engine.PhysicalRolls.{
  PhysicalRollPolicyInput, PhysicalRollSelection, simulated_roll, selected, possible_attempt,
  select_physical_roll, select_attempt, select_possible, select_for_reasons, select_disclosed,
  rolled_request, ordered_reasons, includes_reason, DisclosureResult, disclosed, refused,
  create_physical_roll_disclosure,
}

-- Neither the order nor the repetition of the reasons that a caller supplies matters.
pub ordered_reasons-same :
    (xs ys : List MandatoryReason) (spark : Bool)
    → ((r : MandatoryReason) → includes_reason r xs ≡ includes_reason r ys)
    → ordered_reasons xs spark ≡ ordered_reasons ys spark
unfolding ordered_reasons filter
ordered_reasons-same xs ys spark same = ground (
  arith,
  same permanent_death,
  same declared_irreversible_stake,
  same named_boss_transition,
  same pivotal_scene_conclusion,
)

-- Who comes before whom among the reasons of a roll.
abbrev pub precedence : PhysicalRollReason → ℕ
precedence (mandatory permanent_death) = 0
precedence (mandatory declared_irreversible_stake) = 1
precedence (mandatory named_boss_transition) = 2
precedence (mandatory pivotal_scene_conclusion) = 3
precedence spark_invocation = 4

-- Every reason comes before the next one, and none is repeated.
unfoldable pub is_ascending : List PhysicalRollReason → Bool
is_ascending [] = true
is_ascending (r ∷ []) = true
is_ascending (r ∷ q ∷ rs) = ltb (precedence r) (precedence q) && is_ascending (q ∷ rs)

unfoldable pub applies : PhysicalRollReason → List PhysicalRollReason → Bool
applies r [] = false
applies r (q ∷ qs) = precedence r == precedence q || applies r qs

-- The reasons of a roll are the ones that were supplied and Spark where it is invoked, in order.
pub record Reasons (supplied : List MandatoryReason) (spark : Bool)
    (applied : List PhysicalRollReason) : Type 0 where
  pub in_order : is_ascending applied ≡ true
  pub supplied_apply :
      (r : MandatoryReason) → applies (mandatory r) applied ≡ includes_reason r supplied
  pub spark_applies : applies spark_invocation applied ≡ spark

ordered_reasons-Reasons :
    (xs : List MandatoryReason) (spark : Bool) → Reasons xs spark (ordered_reasons xs spark)
unfolding ordered_reasons filter is_ascending applies
ordered_reasons-Reasons xs spark = record {
  in_order = ground arith;
  supplied_apply = λ r. elim r [
    | permanent_death ↦ ground arith
    | declared_irreversible_stake ↦ ground arith
    | named_boss_transition ↦ ground arith
    | pivotal_scene_conclusion ↦ ground arith
  ];
  spark_applies = ground arith;
}

-- The attempt with Edge where it has Edge or Spark is invoked.
abbrev pub with_edge : CheckRequest → Bool → CheckRequest
with_edge attempt spark = record attempt {
  modifier_state = record {
    edge = attempt.modifier_state.edge || spark;
    hindrance = attempt.modifier_state.hindrance;
  };
}

rolled_request-eq-with_edge :
    (attempt : CheckRequest) (spark : Bool) → rolled_request attempt spark ≡ with_edge attempt spark
unfolding rolled_request
rolled_request-eq-with_edge attempt spark = ground arith

-- What a selection records, given what was asked.
pub record Selects (attempt : CheckRequest) (reasons : List MandatoryReason) (spark : Bool)
    (s : PhysicalRollSelection) : Type 0 where
  pub asked_reasons : Reasons reasons spark s.applied_reasons
  pub first_reason :
      (others : List PhysicalRollReason) × (s.applied_reasons ≡ s.primary_reason ∷ others)
  pub spends : s.spark_spent ≡ spark
  pub rolls : s.request ≡ with_edge attempt spark
  pub shows : create_physical_roll_disclosure s.request s.primary_reason ≡ disclosed s.disclosure

select_disclosed-Selects :
    (attempt : CheckRequest) (reasons : List MandatoryReason) (spark : Bool)
    (primary : PhysicalRollReason) (others : List PhysicalRollReason) (d : DisclosureResult)
    {s : PhysicalRollSelection}
    → primary ∷ others ≡ ordered_reasons reasons spark
    → create_physical_roll_disclosure (rolled_request attempt spark) primary ≡ d
    → select_disclosed (rolled_request attempt spark) primary (primary ∷ others) spark d
      ≡ selected s
    → Selects attempt reasons spark s
unfolding select_disclosed
select_disclosed-Selects attempt reasons spark primary others (refused x) e c h = cc
select_disclosed-Selects attempt reasons spark primary others (disclosed x) e c h = record {
  asked_reasons =
      subst (Reasons reasons spark) (sym e ∙ ground (arith, h))
        (ordered_reasons-Reasons reasons spark);
  first_reason = (others, ground arith);
  spends = ground arith;
  rolls = ground (arith, h, rolled_request-eq-with_edge attempt spark);
  shows = ground arith;
}

select_for_reasons-Selects :
    (attempt : CheckRequest) (reasons : List MandatoryReason) (spark : Bool)
    (rs : List PhysicalRollReason) {s : PhysicalRollSelection}
    → rs ≡ ordered_reasons reasons spark
    → select_for_reasons attempt spark rs ≡ selected s
    → Selects attempt reasons spark s
unfolding select_for_reasons
select_for_reasons-Selects attempt reasons spark [] e h = cc
select_for_reasons-Selects attempt reasons spark (primary ∷ others) e h =
    select_disclosed-Selects attempt reasons spark primary others _ e refl h

abbrev pub policy_input :
    CheckRequest → List MandatoryReason → Bool → Bool → PhysicalRollPolicyInput
policy_input attempt reasons spark resolved_already = record {
  attempt = possible_attempt attempt;
  mandatory_reasons = reasons;
  invoke_spark = spark;
  resolved_already = resolved_already;
}

-- A check is selected for a physical roll only while it is unresolved, and with Spark only where it
-- is eligible for it; the selection then applies exactly the supplied mandatory reasons, each once and
-- in their order of precedence, and Spark last where it is invoked, takes the first of them for the
-- primary one, rolls the attempt with Edge where it had Edge or Spark is spent, and carries the
-- disclosure of the request that is rolled.
pub select-Selects :
    (attempt : CheckRequest) (reasons : List MandatoryReason) (spark resolved_already : Bool)
    {s : PhysicalRollSelection}
    → select_physical_roll (policy_input attempt reasons spark resolved_already) ≡ selected s
    → (resolved_already ≡ false)
      × (spark ≡ true → attempt.spark_eligible ≡ true)
      × Selects attempt reasons spark s
unfolding select_physical_roll select_attempt select_possible
select-Selects attempt reasons spark resolved_already h = (
  ground arith,
  ground arith,
  select_for_reasons-Selects attempt reasons spark _ refl (ground arith),
)

ordered_reasons-eq_nil :
    (xs : List MandatoryReason) (spark : Bool)
    → ordered_reasons xs spark ≡ []
    → (xs ≡ []) × (spark ≡ false)
unfolding ordered_reasons filter
ordered_reasons-eq_nil [] spark h = ground arith
ordered_reasons-eq_nil (permanent_death ∷ xs) spark h = ground arith
ordered_reasons-eq_nil (declared_irreversible_stake ∷ xs) spark h = ground arith
ordered_reasons-eq_nil (named_boss_transition ∷ xs) spark h = ground arith
ordered_reasons-eq_nil (pivotal_scene_conclusion ∷ xs) spark h = ground arith

select_disclosed-ne-simulated :
    (r q : CheckRequest) (p : PhysicalRollReason) (rs : List PhysicalRollReason) (spark : Bool)
    (d : DisclosureResult)
    → select_disclosed r p rs spark d ≢ simulated_roll q
unfolding select_disclosed
select_disclosed-ne-simulated r q p rs spark (disclosed d) h = cc
select_disclosed-ne-simulated r q p rs spark (refused d) h = cc

select_for_reasons-simulated :
    (attempt q : CheckRequest) (spark : Bool) (rs : List PhysicalRollReason)
    → select_for_reasons attempt spark rs ≡ simulated_roll q
    → (rs ≡ []) × (q ≡ attempt)
unfolding select_for_reasons
select_for_reasons-simulated attempt q spark [] h = (refl, ground arith)
select_for_reasons-simulated attempt q spark (r ∷ rs) h =
    absurd (select_disclosed-ne-simulated _ q r (r ∷ rs) spark _ h)

simulated-only_if :
    (attempt q : CheckRequest) (reasons : List MandatoryReason) (spark resolved_already : Bool)
    → select_physical_roll (policy_input attempt reasons spark resolved_already) ≡ simulated_roll q
    → (resolved_already ≡ false) × (reasons ≡ []) × (spark ≡ false) × (q ≡ attempt)
unfolding select_physical_roll select_attempt select_possible
simulated-only_if attempt q reasons spark resolved_already h =
    let reached : select_for_reasons attempt spark (ordered_reasons reasons spark)
        ≡ simulated_roll q =
      ground arith in
    let (no_reasons, same) = select_for_reasons-simulated attempt q spark _ reached in
    let (none_supplied, no_spark) = ordered_reasons-eq_nil reasons spark no_reasons in
    (ground arith, none_supplied, no_spark, same)

select-simulated :
    (attempt : CheckRequest)
    → select_physical_roll (policy_input attempt [] false false) ≡ simulated_roll attempt
unfolding select_physical_roll select_attempt select_possible select_for_reasons ordered_reasons
    filter
select-simulated attempt = refl

-- An attempt is rolled by simulation exactly where it is unresolved, no mandatory reason is
-- supplied and Spark is not invoked; the request is then the attempt unchanged.
pub select-simulated_iff :
    (attempt q : CheckRequest) (reasons : List MandatoryReason) (spark resolved_already : Bool)
    → (select_physical_roll (policy_input attempt reasons spark resolved_already)
        ≡ simulated_roll q)
      ↔ ((resolved_already ≡ false) × (reasons ≡ []) × (spark ≡ false) × (q ≡ attempt))
select-simulated_iff attempt q reasons spark resolved_already = (
  simulated-only_if attempt q reasons spark resolved_already,
  λ h. rw (h.0, h.1, h.2, h.3) (select-simulated attempt),
)
