-- ===== src/Runtime/Randomness/Sampling.antt =====
-- The rejection sampling of `drawHmacSha256V1`: its range, its blocks and its limit.
use lldm.Prelude.{
  ℕ, zero, suc, ◌+◌, ◌-◌, ◌*◌, ◌/◌, ◌%◌, ◌≤◌, ◌<◌, ◌≡◌, ◌↔◌, arith, Bool-cases, inl, inr, ok, [],
  ltb, ◌==◌, ==_iff, Result-cases,
}
use mathlib.Core.Path.{ap, sym, subst, subst⁻¹}
use lldm.Prelude.Int.{pos, ◌+ℤ◌, ◌≤ℤ◌}
use lldm.Contracts.GameState.{behind-eq-nil}
use lldm.Contracts.Randomness.{RandomDrawRecord, random_draw_issues, validate_random_draw_record}
use lldm.Contracts.Validation.{conclude-eq-success, ValidationResult-cases}
use lldm.Runtime.Doubles.{round_size, to_double}
use lldm.Runtime.Randomness.Ranges.{div_rem}
use lldm.Runtime.Randomness.{
  RandomPlatform, RandomDrawInput, range_size, acceptance_limit, block_value, draw_record,
  checked_record, sample, draw_hmac_sha256_v1, two_to_256, uint32_maximum,
}

-- The block is refused: it stands for a number, but for none below the limit.
abbrev pub Refused : RandomPlatform → RandomDrawInput → ℕ → Type 0
Refused platform input block =
    (n : ℕ) × (block_value platform input block ≡ ok n) × (acceptance_limit (range_size input) ≤ n)

-- The value of a record lies in its range.
abbrev pub InRange : RandomDrawRecord → Type 0
InRange r = (r.minimum ≤ℤ r.realized_value) × (r.realized_value ≤ℤ r.maximum)

-- The record stands for the first block from `start` on that is not refused.
pub record FirstAccepted (platform : RandomPlatform) (input : RandomDrawInput) (start : ℕ)
    (r : RandomDrawRecord) : Type 0 where
  pub unsigned : ℕ
  pub block : ℕ
  pub not_before : start ≤ block
  pub reads : block_value platform input block ≡ ok unsigned
  pub below_limit : unsigned < acceptance_limit (range_size input)
  pub is_record : draw_record platform input unsigned block ≡ r
  pub counted : r.rejection_count ≡ block
  pub valued :
      r.realized_value ≡ to_double (input.minimum +ℤ pos (round_size (unsigned % range_size input)))
  pub lies_in_range : InRange r
  pub refused_before : (b : ℕ) → start ≤ b → b < block → Refused platform input b

no_issues-InRange : (r : RandomDrawRecord) → random_draw_issues r ≡ [] → InRange r
unfolding random_draw_issues
no_issues-InRange r h = ground (arith, h)

-- A record that the validator takes is handed on, and its value lies in its range.
checked_record-eq-ok :
    (platform : RandomPlatform) (r q : RandomDrawRecord)
    → checked_record platform r ≡ ok q
    → (r ≡ q) × InRange r
unfolding checked_record validate_random_draw_record
checked_record-eq-ok platform r q h =
    elim (ValidationResult-cases (validate_random_draw_record platform.record_schema r)) [
      | inr (is, v) ↦ absurd (ground (arith, v, h))
      | inl (u, v) ↦
          let (none_found, same) = conclude-eq-success r _ v in
          (
            ground (arith, v, h, same),
            no_issues-InRange r (behind-eq-nil (platform.record_schema r) _ none_found),
          )
    ]

sample-first :
    (left : ℕ) (platform : RandomPlatform) (input : RandomDrawInput) (start : ℕ)
    (r : RandomDrawRecord)
    → sample left platform input start ≡ ok r
    → FirstAccepted platform input start r
unfolding sample
sample-first zero platform input start r h = absurd cc
sample-first (suc left) platform input start r h =
    elim (Result-cases (block_value platform input start)) [
      | inr (e, q) ↦ absurd (ground (arith, q, h))
      | inl (n, q) ↦ elim (Bool-cases (ltb n (acceptance_limit (range_size input)))) [
        | inl below ↦
            let drawn = draw_record platform input n start in
            let (same, lies) =
              checked_record-eq-ok platform drawn r (ground (arith, q, below, h)) in
            record {
              unsigned = n;
              block = start;
              not_before = omega arith;
              reads = q;
              below_limit = ground (arith, below);
              is_record = same;
              counted = ap (λ x. x.rejection_count) (sym same);
              valued = ap (λ x. x.realized_value) (sym same);
              lies_in_range = subst InRange same lies;
              refused_before = λ b lo hi. absurd (omega (arith, lo, hi));
            }
        | inr above ↦
            let later =
              sample-first left platform input (start + 1) r (ground (arith, q, above, h)) in
            record {
              unsigned = later.unsigned;
              block = later.block;
              not_before = omega (arith, later.not_before);
              reads = later.reads;
              below_limit = later.below_limit;
              is_record = later.is_record;
              counted = later.counted;
              valued = later.valued;
              lies_in_range = later.lies_in_range;
              refused_before = λ b lo hi. elim (Bool-cases (b == start)) [
                | inl here ↦ rw ((==_iff b start).0 here) (n, q, ground (arith, above))
                | inr other ↦ later.refused_before b (ground (arith, lo, other)) hi
              ];
            }
      ]
    ]

draw-samples :
    (platform : RandomPlatform) (input : RandomDrawInput) (r : RandomDrawRecord)
    → draw_hmac_sha256_v1 platform input ≡ ok r
    → FirstAccepted platform input 0 r
unfolding draw_hmac_sha256_v1
draw-samples platform input r h =
    sample-first (uint32_maximum + 1) platform input 0 r (ground (arith, h))

-- A draw that is made lies in the range that was asked for, and stands for the first block of the
-- stream whose number is below the acceptance limit: its value is the minimum and the remainder of
-- that number by the size of the range, and it records the number of the blocks before it.
pub draw-in_range :
    (platform : RandomPlatform) (input : RandomDrawInput) (r : RandomDrawRecord)
    → draw_hmac_sha256_v1 platform input ≡ ok r
    → FirstAccepted platform input 0 r
      × (input.minimum ≤ℤ r.realized_value)
      × (r.realized_value ≤ℤ input.maximum)
draw-in_range platform input r h =
    let first = draw-samples platform input r h in
    let asked = first.is_record in
    (
      first,
      subst⁻¹ (λ x. x ≤ℤ r.realized_value) (ap (λ x. x.minimum) asked) first.lies_in_range.0,
      subst⁻¹ (λ x. r.realized_value ≤ℤ x) (ap (λ x. x.maximum) asked) first.lies_in_range.1,
    )

module _ (total size : ℕ) (some_size : 1 ≤ size) where
  below_limit-quotient : (n : ℕ) → n < total - total % size → n / size < total / size
  below_limit-quotient n h = grind (arith, div_rem n size some_size, div_rem total size some_size)

  quotient-below_limit :
      (q value : ℕ) → q < total / size → value < size → q * size + value < total - total % size
  quotient-below_limit q value lo hi = grind (arith, div_rem total size some_size)

  rem_unique : (q value : ℕ) → value < size → (q * size + value) % size ≡ value
  rem_unique q value h = grind (arith, div_rem (q * size + value) size some_size)

-- No value of a range is favoured: the numbers below the acceptance limit that leave a given
-- remainder are as many for every remainder, one for each quotient below the same bound.
pub acceptance_limit-unbiased :
    (size value n : ℕ)
    → 1 ≤ size
    → value < size
    → ((n < acceptance_limit size) × (n % size ≡ value))
      ↔ ((q : ℕ) × (q < two_to_256 / size) × (n ≡ q * size + value))
unfolding acceptance_limit
acceptance_limit-unbiased size value n pos_size below = (
  λ h. (
    n / size,
    below_limit-quotient two_to_256 size pos_size n h.0,
    omega (arith, div_rem n size pos_size, h.1),
  ),
  λ h.
      let (q, small, e) = h in
      rw e (
        quotient-below_limit two_to_256 size pos_size q value small below,
        rem_unique two_to_256 size pos_size q value below,
      ),
)
