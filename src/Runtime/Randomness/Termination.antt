-- ===== src/Runtime/Randomness/Termination.antt =====
-- When the loop of `drawHmacSha256V1` returns a record.
use lldm.Prelude.{
  ℕ, zero, suc, ◌+◌, ◌%◌, ◌^◌, refl, [], ◌≤◌, ◌<◌, ◌≡◌, ◌∙◌, arith, true, ok, lt→ltb, length, ◌==◌,
  Bool-cases, ==_iff, Result-cases, List, inl, inr,
}
use lldm.Prelude.Int.{pos, ◌+ℤ◌}
use lldm.Contracts.Randomness.{RandomDrawRecord, validate_random_draw_record}
use lldm.Runtime.Randomness.{
  RandomPlatform, RandomDrawInput, range_size, acceptance_limit, block_value, draw_record,
  checked_record, sample, draw_hmac_sha256_v1, uint32_maximum, uint32,
}
use lldm.Runtime.Randomness.Ranges.{
  span, is_ordered_safe, realized_value-exact, draw_record-no_issues,
}
use lldm.Runtime.Randomness.Sampling.{Refused}

sample-hit :
    (left : ℕ) (platform : RandomPlatform) (input : RandomDrawInput) (block unsigned : ℕ)
    → block_value platform input block ≡ ok unsigned
    → unsigned < acceptance_limit (range_size input)
    → checked_record platform (draw_record platform input unsigned block)
      ≡ ok (draw_record platform input unsigned block)
    → sample (suc left) platform input block ≡ ok (draw_record platform input unsigned block)
unfolding sample
sample-hit left platform input block unsigned reads below valid =
    ground (arith, reads, lt→ltb unsigned (acceptance_limit (range_size input)) below, valid)

sample-miss :
    (left : ℕ) (platform : RandomPlatform) (input : RandomDrawInput) (block : ℕ)
    → Refused platform input block
    → sample (suc left) platform input block ≡ sample left platform input (block + 1)
unfolding sample
sample-miss left platform input block (n, reads, above) = ground (arith, reads, above)

sample-returns :
    (left : ℕ) (platform : RandomPlatform) (input : RandomDrawInput) (start block unsigned : ℕ)
    → start ≤ block
    → block < start + left
    → ((b : ℕ) → start ≤ b → b < block → Refused platform input b)
    → block_value platform input block ≡ ok unsigned
    → unsigned < acceptance_limit (range_size input)
    → checked_record platform (draw_record platform input unsigned block)
      ≡ ok (draw_record platform input unsigned block)
    → sample left platform input start ≡ ok (draw_record platform input unsigned block)
sample-returns zero platform input start block unsigned lo hi refused reads below valid =
    absurd (omega (arith, lo, hi))
sample-returns (suc left) platform input start block unsigned lo hi refused reads below valid =
    elim (Bool-cases (start == block)) [
      | inl here ↦
          rw ((==_iff start block).0 here)
            (sample-hit left platform input block unsigned reads below valid)
      | inr later ↦
          sample-miss left platform input start
            (refused start (omega arith) (ground (arith, lo, later)))
          ∙ sample-returns left platform input (start + 1) block unsigned
              (ground (arith, lo, later)) (omega (arith, hi))
              (λ b from to. refused b (omega (arith, from)) to) reads below valid
    ]

uint32_returns : (n : ℕ) → n ≤ uint32_maximum → (bytes : List ℕ) × (uint32 n ≡ ok bytes)
unfolding uint32
uint32_returns n small = elim (Result-cases (uint32 n)) [
  | inl done ↦ done
  | inr (message, e) ↦ absurd (ground (arith, small, e))
]

passes_guards :
    (platform : RandomPlatform) (input : RandomDrawInput) (bytes : List ℕ) (r : RandomDrawRecord)
    → (length input.seed == 32) ≡ true
    → is_ordered_safe input ≡ true
    → uint32 input.purpose_local_index ≡ ok bytes
    → sample (uint32_maximum + 1) platform input 0 ≡ ok r
    → draw_hmac_sha256_v1 platform input ≡ ok r
unfolding draw_hmac_sha256_v1
passes_guards platform input bytes r seeded safe sized returned = rw (seeded, safe, sized) returned

-- A record of an exact range that its schema takes is valid.
draw_record-checked :
    (platform : RandomPlatform) (input : RandomDrawInput) (unsigned block : ℕ)
    → is_ordered_safe input ≡ true
    → span input ≤ 2 ^ 53
    → platform.record_schema (draw_record platform input unsigned block) ≡ []
    → checked_record platform (draw_record platform input unsigned block)
      ≡ ok (draw_record platform input unsigned block)
unfolding checked_record validate_random_draw_record
draw_record-checked platform input unsigned block safe small shaped =
    rw (shaped, draw_record-no_issues platform input unsigned block safe small) refl

-- A draw from a seed of 32 bytes over an ordered range of at most 2 ^ 53 safe integers, with an index
-- of 32 bits, returns a record where some block of the 2 ^ 32 is below the acceptance limit, the ones
-- before it are refused and the schema takes the record: it returns the record of that block, whose
-- value is exactly the minimum and the remainder of the block's number by the size of the range.
pub draw-returns :
    (platform : RandomPlatform) (input : RandomDrawInput) (block unsigned : ℕ)
    → length input.seed ≡ 32
    → is_ordered_safe input ≡ true
    → span input ≤ 2 ^ 53
    → input.purpose_local_index ≤ uint32_maximum
    → block ≤ uint32_maximum
    → ((b : ℕ) → b < block → Refused platform input b)
    → block_value platform input block ≡ ok unsigned
    → unsigned < acceptance_limit (range_size input)
    → platform.record_schema (draw_record platform input unsigned block) ≡ []
    → let r = draw_record platform input unsigned block in
      (draw_hmac_sha256_v1 platform input ≡ ok r)
      × (r.realized_value ≡ input.minimum +ℤ pos (unsigned % span input))
draw-returns platform input block unsigned seeded safe exact small within refused reads below
      shaped =
    let valid = draw_record-checked platform input unsigned block safe exact shaped in
    let returned =
      sample-returns (uint32_maximum + 1) platform input 0 block unsigned (omega arith)
        (omega (arith, within)) (λ b from to. refused b to) reads below valid in
    let (bytes, sized) = uint32_returns input.purpose_local_index small in
    (
      passes_guards platform input bytes _ ((==_iff (length input.seed) 32).1 seeded) safe sized
          returned,
      realized_value-exact platform input unsigned block safe exact,
    )
